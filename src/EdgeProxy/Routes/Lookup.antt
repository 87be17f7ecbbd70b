-- ===== src/EdgeProxy/Routes/Lookup.antt =====
-- What `backend_route` finds in a route table that is sound.
use kiac.Base.{
  if◌then◌else◌, ◌===◌, Text, ℤ, ◌≡◌, refl, ap, ◌≢◌, ◌⊎◌, inl, inr, Bool, true, false, not, Option,
  none, some, [], nat_eq, bool_eq, text_eq, pair_eq, int_eq,
}
use kiac.EdgeProxy.Endpoints.{BackendRoute, direct}
use kiac.EdgeProxy.Routes.Sound.{BalancerEntry, IsSound, NodePortEntry}
use kiac.EdgeProxy.Cluster.{ClusterState}
use kiac.EdgeProxy.Node.{Config, RouteTable}
use kiac.Go.Strconv.{atoi}
use kiac.EdgeProxy.Routes.{backend_route, is_v6_host, host_route, node_port_route}
use kiac.Base.Dict.{get_or, get_or_cases}
use kiac.Go.Net.{split_host_port}

-- The entry of a LoadBalancer address, or that of a NodePort.
abbrev pub Found : Config → ClusterState → Text → BackendRoute → Type 0
Found c st original r =
    BalancerEntry c st original r
    ⊎ ((host : Text) × (port : Text) × (p : ℤ) × (split_host_port original ≡ some (host, port))
        × (atoi port ≡ some p)
        × NodePortEntry c st (p, is_v6_host host) r)

module _ (c : Config) (st : ClusterState) (rt : RouteTable) (s : IsSound c st rt)
    (original : Text) where
  node_port_Found :
      (host port : Text) (o : Option ℤ)
      → split_host_port original ≡ some (host, port)
      → atoi port ≡ o
      → (node_port_route rt o (is_v6_host host)).dial ≢ []
      → Found c st original (node_port_route rt o (is_v6_host host))
  unfolding node_port_route
  node_port_Found host port none e q h = absurd (h refl)
  node_port_Found host port (some p) e q h =
      elim (get_or_cases (p, is_v6_host host) (direct []) rt.node_ports) [
        | inl g ↦ inr (host, port, p, e, q, s.node_ports (p, is_v6_host host) _ g)
        | inr g ↦ absurd (h (ap (λ (r : BackendRoute). r.dial) g))
      ]

  host_Found :
      (o : Option (Text × Text))
      → split_host_port original ≡ o
      → (host_route rt o).dial ≢ []
      → Found c st original (host_route rt o)
  unfolding host_route
  host_Found none e h = absurd (h refl)
  host_Found (some (host, port)) e h = node_port_Found host port (atoi port) e refl h

  -- If the entries of the route table all come from a state and `backend_route` finds an address to
  -- dial for a destination, then the route is that of a LoadBalancer address of the state that is
  -- the destination, or that of a NodePort of the state that is the destination's port, in the
  -- family of the destination's host.
  pub backend_route-IsSound :
      (backend_route rt original).dial ≢ [] → Found c st original (backend_route rt original)
  unfolding backend_route
  backend_route-IsSound h = go ((get_or original (direct []) rt.load_balancers).dial === []) refl h
    where
      go :
          (b : Bool)
          → ((get_or original (direct []) rt.load_balancers).dial === []) ≡ b
          → (if not b
              then get_or original (direct []) rt.load_balancers
              else host_route rt (split_host_port original)).dial
            ≢ []
          → Found c st original (
              if not b
              then get_or original (direct []) rt.load_balancers
              else host_route rt (split_host_port original))
      go true e k = host_Found (split_host_port original) refl k
      go false e k = elim (get_or_cases original (direct []) rt.load_balancers) [
        | inl g ↦ inl (s.balancers original _ g)
        | inr g ↦ absurd (k (ap (λ (r : BackendRoute). r.dial) g))
      ]
