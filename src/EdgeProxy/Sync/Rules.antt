-- ===== src/EdgeProxy/Sync/Rules.antt =====
-- What a successful `sync_rules` leaves in the chains of the proxy.
use kiac.Base.{
  if◌then◌else◌, ◌===◌, Text, Result, ok, ◌≡◌, refl, sym, ap, ◌∙◌, ◌≢◌, Bool, true, false, not,
  Option, none, some, List, [], ◌∷◌, ◌++◌, arith, text_beq_iff, nat_eq, bool_eq, text_eq, pair_eq,
  int_eq,
}
use kiac.Base.Exec.{pure, modify, gets, ◌>>=◌, >>=-eq-ok, for_each}
use kiac.EdgeProxy.Cluster.{ClusterState, Decoder, parse_cluster_state}
use kiac.EdgeProxy.Iptables.{
  Family, edge, edge_output, Rule, same_family, chain_of, effect, flush, append, Iptables,
}
use kiac.EdgeProxy.Node.{Config, Node, no_routes, families, ipt, ProxyError, RouteTable}
use kiac.EdgeProxy.Hooks.{ensure_hook, rules_missing, skip_rule, node_port_rule}
use kiac.EdgeProxy.Hooks.Frame.{ensure_hook-Frame}
use kiac.EdgeProxy.Hooks.Families.{handled, families_done}
use kiac.EdgeProxy.Hooks.Views.{view, view_returned, ipt_done}
use kiac.EdgeProxy.Routes.{add_service_rules, add_parsed_rules, add_service}
use kiac.EdgeProxy.Routes.Appends.{extend, extend-nil, Prefix, Prefix-nil, Appends-any}
use kiac.EdgeProxy.Routes.Redirects.{redirects, add_services-Appends}
use kiac.EdgeProxy.Sync.{base_rules, logged, rewrite_rules, up_to_date, sync_rules}

-- Other rules in the place of those of a chain.
pub replace : List Rule → Option (List Rule) → Option (List Rule)
replace new none = none
replace new (some rs) = some new

extend-replace :
    (new more : List Rule) (o : Option (List Rule))
    → extend more (replace new o) ≡ replace (new ++ more) o
unfolding extend replace
extend-replace new more none = refl
extend-replace new more (some rs) = refl

-- The redirects that a snapshot asks for.
of_state : Config → Family → Option ClusterState → List Rule
of_state c g none = []
of_state c g (some st) = redirects c st g

pub planned : Config → Decoder → Text → Family → List Rule
unfolding of_state
planned c d snapshot g =
    if snapshot === [] then [] else of_state c g (parse_cluster_state d snapshot)

module _ (t : Iptables) (c : Config) where
  open t use {Kernel}

  base_rules_done :
      (f : Family) (n m : Node Kernel) (g : Family)
      → base_rules t c f n ≡ (ok tt, m)
      → (view t m g edge ≡ (
          if same_family f g
          then replace (skip_rule c ∷ node_port_rule c ∷ []) (view t n g edge)
          else view t n g edge))
        × (view t m g edge_output ≡ (
            if same_family f g
            then replace (skip_rule c ∷ []) (view t n g edge_output)
            else view t n g edge_output))
  unfolding base_rules chain_of effect replace
  base_rules_done f n m g h =
      let (_, n1, e1, h1) = >>=-eq-ok (ipt t f (flush edge)) _ n h in
      let (_, n2, e2, h2) = >>=-eq-ok (ipt t f (flush edge_output)) _ n1 h1 in
      let (_, n3, e3, h3) = >>=-eq-ok (ipt t f (append edge (skip_rule c))) _ n2 h2 in
      let (_, n4, e4, h4) = >>=-eq-ok (ipt t f (append edge_output (skip_rule c))) _ n3 h3 in
      (
        ground (
          arith,
          ipt_done t f (flush edge) n g edge e1,
          ipt_done t f (flush edge_output) n1 g edge e2,
          ipt_done t f (append edge (skip_rule c)) n2 g edge e3,
          ipt_done t f (append edge_output (skip_rule c)) n3 g edge e4,
          ipt_done t f (append edge (node_port_rule c)) n4 g edge h4,
        ),
        ground (
          arith,
          ipt_done t f (flush edge) n g edge_output e1,
          ipt_done t f (flush edge_output) n1 g edge_output e2,
          ipt_done t f (append edge (skip_rule c)) n2 g edge_output e3,
          ipt_done t f (append edge_output (skip_rule c)) n3 g edge_output e4,
          ipt_done t f (append edge (node_port_rule c)) n4 g edge_output h4,
        ),
      )

  -- The redirects that are added, all of them or a first part.
  added_services :
      (o : Option ClusterState) (n : Node Kernel) (g : Family)
      → (p : List Rule) × Prefix p (of_state c g o)
        × (view t (add_parsed_rules t c o n).1 g edge ≡ extend p (view t n g edge))
  unfolding add_parsed_rules of_state
  added_services none n g = ([], Prefix-nil [], sym (extend-nil (view t n g edge)))
  added_services (some st) n g =
      Appends-any t (for_each st.services (add_service t c st)) _ (add_services-Appends t c st) n g
        edge

  added_rules :
      (d : Decoder) (snapshot : Text) (empty : Bool) (n m : Node Kernel) (g : Family)
      → (if empty then pure tt else logged t c (add_service_rules t c d snapshot)) n ≡ (ok tt, m)
      → (p : List Rule) × Prefix p
          (if empty then [] else of_state c g (parse_cluster_state d snapshot))
        × (view t m g edge ≡ extend p (view t n g edge))
  unfolding logged add_service_rules
  added_rules d snapshot true n m g e =
      ([], Prefix-nil [], view_returned t g edge e ∙ sym (extend-nil (view t n g edge)))
  added_rules d snapshot false n m g e =
      let (p, pre, v) = added_services (parse_cluster_state d snapshot) n g in
      (p, pre, view_returned t g edge e ∙ v)

  -- The rules of the proxy's chain after a rewrite.
  rewrite_rules_done :
      (d : Decoder) (snapshot : Text) (n m : Node Kernel) (g : Family)
      → handled c g ≡ true
      → rewrite_rules t c d snapshot n ≡ (ok tt, m)
      → (p : List Rule) × Prefix p (planned c d snapshot g)
        × (view t m g edge ≡ replace (skip_rule c ∷ node_port_rule c ∷ p) (view t n g edge))
  unfolding rewrite_rules planned
  rewrite_rules_done d snapshot n m g here h =
      let (_, n1, e1, h1) = >>=-eq-ok (for_each (families c) (base_rules t c)) _ n h in
      let (_, n2, e2, h2) =
        >>=-eq-ok (modify (λ (k : Node Kernel). record k { draft = no_routes })) _ n1 h1 in
      let (_, n3, e3, h3) =
        >>=-eq-ok
          (if snapshot === [] then pure tt else logged t c (add_service_rules t c d snapshot)) _ n2
          h2 in
      let (p, pre, v) = added_rules d snapshot (snapshot === []) n2 n3 g e3 in
      let base =
        families_done t (λ k f. view t k f edge) (replace (skip_rule c ∷ node_port_rule c ∷ []))
          (base_rules t c) (λ f k l i e. (base_rules_done f k l i e).0) c n n1 g e1 in
      (
        p,
        pre,
        ground (
          arith,
          here,
          base,
          view_returned t g edge e2,
          v,
          view_returned t g edge h3,
          extend-replace (skip_rule c ∷ node_port_rule c ∷ []) p (view t n g edge),
        ),
      )

  -- A snapshot that is not the last one is written.
  up_to_date_changed :
      (snapshot : Text) (n k : Node Kernel) (b : Bool)
      → (snapshot === n.last_snapshot) ≡ false
      → up_to_date t c snapshot n ≡ (ok b, k)
      → b ≡ false
  unfolding up_to_date
  up_to_date_changed snapshot n k b h e =
      let (same, l, e1, h1) =
        >>=-eq-ok (gets (λ (q : Node Kernel). snapshot === q.last_snapshot)) _ n e in
      changed same l (ap (λ (p : Result ProxyError Bool × Node Kernel). p.0) e1) h1
    where
      changed :
          (same : Bool) (l : Node Kernel)
          → ◌≡◌ {A = Result ProxyError Bool} (ok (snapshot === n.last_snapshot)) (ok same)
          → (if not same then pure false else (rules_missing t c >>= λ missing. pure (not missing)))
              l
            ≡ (ok b, k)
          → b ≡ false
      changed false l q r = cc
      changed true l q r = absurd (cc)

  kept_snapshot :
      (n m : Node Kernel) → ensure_hook t c n ≡ (ok tt, m) → m.last_snapshot ≡ n.last_snapshot
  kept_snapshot n m e =
      ap (λ (p : Result ProxyError (Unit {0}) × Node Kernel). p.1.last_snapshot) (sym e)
      ∙ ap (λ (r : RouteTable × RouteTable × Text). r.2) ((ensure_hook-Frame t c).at n)

  -- After a `sync_rules` that succeeds with a snapshot that is not the last one, the chain `edge`
  -- of a family that is handled, where it is there, has the return rule of the proxy's port, then
  -- the redirect of the NodePorts, then the redirects that the snapshot plans for its LoadBalancer
  -- Services, or a first part of them.
  pub sync_rules_done :
      (d : Decoder) (snapshot : Text) (n m : Node Kernel) (g : Family) (rs : List Rule)
      → handled c g ≡ true
      → snapshot ≢ n.last_snapshot
      → sync_rules t c d snapshot n ≡ (ok tt, m)
      → view t m g edge ≡ some rs
      → (p : List Rule) × Prefix p (planned c d snapshot g)
        × (rs ≡ skip_rule c ∷ node_port_rule c ∷ p)
  unfolding sync_rules replace
  sync_rules_done d snapshot n m g rs here new h v =
      let (_, n1, e1, h1) = >>=-eq-ok (ensure_hook t c) _ n h in
      let (b, n2, e2, h2) = >>=-eq-ok (up_to_date t c snapshot) _ n1 h1 in
      let b_false =
        up_to_date_changed snapshot n1 n2 b
          (ground (arith, text_beq_iff snapshot n1.last_snapshot, kept_snapshot n n1 e1)) e2 in
      let (p, pre, w) = rewrite_rules_done d snapshot n2 m g here (rw b_false at h2) in
      (p, pre, ground arith)
