-- ===== src/EdgeProxy/Endpoints/Routed.antt =====
-- How `route_for` chooses among the endpoints of a port.
use kiac.Base.{
  Bool-cases, ◌===◌, Text, All, In, ◌≡◌, refl, ◌≢◌, ◌⊎◌, inl, inr, Bool, Option, none, some, List,
  [], ◌∷◌, arith, text_beq_iff, nat_eq, bool_eq, text_eq, pair_eq, int_eq,
}
use kiac.Base.Dict.{get_or}
use kiac.Go.Net.{join_host_port}
use kiac.EdgeProxy.Cluster.{ServiceItem, ServicePort, ClusterState, no_addrs, for_family}
use kiac.EdgeProxy.Endpoints.{
  EndpointTarget, BackendRoute, direct, first_local, first_tunnel, first_of_all, choose, route_to,
  matching_endpoints, route_for,
}

-- The address of the endpoint's node, of the family; empty if it is not known.
abbrev pub node_ip : ClusterState → Bool → EndpointTarget → Text
node_ip st v6 ep = for_family (get_or ep.node_name no_addrs st.node_ips) v6

-- The endpoint is on this node, or its node is not known.
abbrev pub IsLocal : Text → EndpointTarget → Type 0
IsLocal local_node ep = (ep.node_name ≡ []) ⊎ (ep.node_name ≡ local_node)

abbrev pub IsRemote : Text → EndpointTarget → Type 0
IsRemote local_node ep = (ep.node_name ≢ []) × (ep.node_name ≢ local_node)

pub data Routed (st : ClusterState) (local_node proxy_port : Text) (v6 : Bool)
    (eps : List EndpointTarget) (r : BackendRoute) : Type 0 where
  to_local :
      (ep : EndpointTarget)
      → In ep eps
      → IsLocal local_node ep
      → r ≡ direct ep.address
      → Routed st local_node proxy_port v6 eps r
  by_tunnel :
      (ep : EndpointTarget)
      → All (IsRemote local_node) eps
      → In ep eps
      → node_ip st v6 ep ≢ []
      → r
        ≡ record { dial = join_host_port (node_ip st v6 ep) proxy_port; tunnel_target = ep.address }
      → Routed st local_node proxy_port v6 eps r
  unreachable :
      (ep : EndpointTarget)
      → All (IsRemote local_node) eps
      → All (λ e. node_ip st v6 e ≡ []) eps
      → In ep eps
      → r ≡ direct ep.address
      → Routed st local_node proxy_port v6 eps r
  no_endpoint : eps ≡ [] → r ≡ direct [] → Routed st local_node proxy_port v6 eps r

module _ (local_node : Text) where
  first_local-some :
      (eps : List EndpointTarget) (ep : EndpointTarget)
      → first_local local_node eps ≡ some ep
      → In ep eps × IsLocal local_node ep
  unfolding first_local
  first_local-some [] ep h = cc
  first_local-some (e ∷ eps) ep h = ground (
    arith,
    first_local-some eps ep,
    text_beq_iff e.node_name [],
    text_beq_iff e.node_name local_node,
  )

  first_local-none :
      (eps : List EndpointTarget)
      → first_local local_node eps ≡ none
      → All (IsRemote local_node) eps
  unfolding first_local
  first_local-none [] h = tt
  first_local-none (e ∷ eps) h = ground (
    arith,
    first_local-none eps,
    text_beq_iff e.node_name [],
    text_beq_iff e.node_name local_node,
  )

module _ (st : ClusterState) (proxy_port : Text) (v6 : Bool) where
  first_tunnel-some :
      (eps : List EndpointTarget) (r : BackendRoute)
      → first_tunnel st proxy_port v6 eps ≡ some r
      → (ep : EndpointTarget) × In ep eps
        × (node_ip st v6 ep ≢ [])
        × (r ≡ record {
          dial = join_host_port (node_ip st v6 ep) proxy_port;
          tunnel_target = ep.address;
        })
  unfolding first_tunnel
  first_tunnel-some [] r h = absurd (cc)
  first_tunnel-some (e ∷ eps) r h = elim (Bool-cases (node_ip st v6 e === [])) [
    | inl unknown ↦ let (ep, i, n, q) = first_tunnel-some eps r (ground arith) in (ep, inr i, n, q)
    | inr known ↦ (e, inl refl, ground (arith, text_beq_iff (node_ip st v6 e) []), ground arith)
  ]

  first_tunnel-none :
      (eps : List EndpointTarget)
      → first_tunnel st proxy_port v6 eps ≡ none
      → All (λ e. node_ip st v6 e ≡ []) eps
  unfolding first_tunnel
  first_tunnel-none [] h = tt
  first_tunnel-none (e ∷ eps) h =
      ground (arith, first_tunnel-none eps, text_beq_iff (node_ip st v6 e) [])

  first_of_all-Routed :
      (local_node : Text) (eps : List EndpointTarget)
      → All (IsRemote local_node) eps
      → All (λ e. node_ip st v6 e ≡ []) eps
      → Routed st local_node proxy_port v6 eps (first_of_all eps)
  unfolding first_of_all
  first_of_all-Routed local_node [] h u = no_endpoint refl refl
  first_of_all-Routed local_node (e ∷ eps) h u = unreachable e h u (inl refl) refl

  choose-Routed :
      (local_node : Text) (eps : List EndpointTarget) (o : Option EndpointTarget)
      (q : Option BackendRoute)
      → first_local local_node eps ≡ o
      → first_tunnel st proxy_port v6 eps ≡ q
      → Routed st local_node proxy_port v6 eps (choose o q eps)
  unfolding choose
  choose-Routed local_node eps (some ep) q e f =
      let (i, l) = first_local-some local_node eps ep e in to_local ep i l refl
  choose-Routed local_node eps none (some r) e f =
      let (ep, i, n, same) = first_tunnel-some eps r f in
      by_tunnel ep (first_local-none local_node eps e) i n same
  choose-Routed local_node eps none none e f =
      first_of_all-Routed local_node eps (first_local-none local_node eps e)
        (first_tunnel-none eps f)

-- `route_for` dials an endpoint of the port on this node, or on no known node, if there is one.
-- Else it goes by a tunnel to the node of an endpoint whose node has a known address of the family,
-- and else it dials one of the endpoints directly. Without endpoints there is no route.
pub route_for-Routed :
    (st : ClusterState) (local_node proxy_port : Text) (svc : ServiceItem) (port : ServicePort)
    (v6 : Bool)
    → Routed st local_node proxy_port v6
        (matching_endpoints st svc port v6)
        (route_for st local_node proxy_port svc port v6)
unfolding route_for
route_for-Routed st local_node proxy_port svc port v6 =
    let eps = matching_endpoints st svc port v6 in
    unfold route_to in
    choose-Routed st proxy_port v6 local_node eps (first_local local_node eps)
      (first_tunnel st proxy_port v6 eps) refl refl
