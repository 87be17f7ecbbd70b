-- ===== src/EdgeProxy/Tunnel/Decisions.antt =====
-- What the two ends of a tunnel do with a connection.
use kiac.Base.{
  if◌then◌else◌, Text, In, ◌≡◌, refl, Bool, true, false, not, Option, none, some, List, [], ◌∷◌,
  arith, text_beq_iff,
}
use kiac.EdgeProxy.Tunnel.{
  authenticate_tunnel_header, tunnel_protocol, valid_backend_target, authenticate_fields, Network,
  handle_tunnel, no_deadline, proxied, tunnel_line, allowed_target, dial_target,
}
use kiac.Go.Strings.{fields}
use kiac.EdgeProxy.Endpoints.{target}
use kiac.EdgeProxy.Node.{Config, RouteTable}
use kiac.EdgeProxy.Routes.{tunnel_target_allowed-In, In-tunnel_target_allowed}

-- The three fields of the header: the protocol, the token, and a target that has an address and a
-- port.
pub record Authentic (token line target : Text) : Type 0 where
  pub three : fields line ≡ tunnel_protocol ∷ token ∷ target ∷ []
  pub valid : valid_backend_target target ≡ true

pub authenticate-Authentic :
    (line token target : Text)
    → authenticate_tunnel_header line token ≡ some target
    → Authentic token line target
unfolding authenticate_tunnel_header authenticate_fields
authenticate-Authentic line token target h = go (fields line) refl h
  where
    go :
        (fs : List Text)
        → fields line ≡ fs
        → authenticate_fields token fs ≡ some target
        → Authentic token line target
    go (a ∷ b ∷ x ∷ []) e q = ground (arith, text_beq_iff a tunnel_protocol, text_beq_iff b token)
    go [] e q = absurd (cc)
    go (a ∷ []) e q = absurd (cc)
    go (a ∷ b ∷ []) e q = absurd (cc)
    go (a ∷ b ∷ x ∷ y ∷ more) e q = absurd (cc)

module _ (c : Config) (rt : RouteTable) (net : Network) where
  -- What a tunnelled stream reaches.
  pub handle_tunnel-proxied :
      (dialled sent : Text)
      → handle_tunnel c rt net ≡ proxied dialled sent
      → (line : Text) × (net.first_line ≡ some line)
        × Authentic c.tunnel_token line dialled
        × In dialled rt.allowed_targets
        × (sent ≡ [])
  unfolding handle_tunnel tunnel_line allowed_target dial_target
  handle_tunnel-proxied dialled sent h = deadline net.takes_deadline h
    where
      Goal : Type 0
      Goal =
          (line : Text) × (net.first_line ≡ some line)
          × Authentic c.tunnel_token line dialled
          × In dialled rt.allowed_targets
          × (sent ≡ [])

      target :
          (line : Text) (o : Option Text)
          → net.first_line ≡ some line
          → authenticate_tunnel_header line c.tunnel_token ≡ o
          → allowed_target c rt net o ≡ proxied dialled sent
          → Goal
      target line none e q r = absurd (cc)
      target line (some x) e q r =
          ground
            (arith, tunnel_target_allowed-In rt x, authenticate-Authentic line c.tunnel_token x)

      line :
          (o : Option Text)
          → net.first_line ≡ o
          → tunnel_line c rt net o ≡ proxied dialled sent
          → Goal
      line none e q = absurd (cc)
      line (some l) e q = target l _ e refl q

      deadline :
          (b : Bool)
          → (if not b then no_deadline else tunnel_line c rt net net.first_line)
            ≡ proxied dialled sent
          → Goal
      deadline false q = absurd (cc)
      deadline true q = line net.first_line refl q

  -- A tunnel that is authentic and allowed is dialled.
  pub handle_tunnel-allowed :
      (line target : Text)
      → net.takes_deadline ≡ true
      → net.first_line ≡ some line
      → authenticate_tunnel_header line c.tunnel_token ≡ some target
      → In target rt.allowed_targets
      → net.dials target ≡ true
      → handle_tunnel c rt net ≡ proxied target []
  unfolding handle_tunnel tunnel_line allowed_target dial_target
  handle_tunnel-allowed line target d l a i o =
      simp (d, l, a, In-tunnel_target_allowed rt target i, o)
