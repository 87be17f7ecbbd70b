-- ===== src/EdgeProxy/Endpoints.antt =====
-- `matchingEndpoints`, `servicePortMatchesEndpoint` and `routeFor`
-- (cmd/kiac-edge-proxy/main.go).
pub mod Serves
pub mod Routed
use kiac.Base.{
  if◌then◌else◌, Eq, ◌===◌, Text, text, concat_map, ℤ, ℕ, Bool, true, false, not, ◌&&◌, ◌||◌,
  Option, none, some, List, [], ◌∷◌, differ, nat_eq, bool_eq, text_eq, pair_eq, int_eq,
}
use kiac.Base.Dict.{get_or}
use kiac.Go.Strconv.{itoa}
use kiac.Go.Net.{join_host_port}
use kiac.Go.Net.Ip.{parse_ip, is_v4}
use kiac.EdgeProxy.Cluster.{
  ServiceItem, ServicePort, EndpointPort, EndpointEntry, EndpointSliceItem, ClusterState, no_addrs,
  for_family,
}

pub record EndpointTarget : Type 0 where
  pub address : Text
  pub node_name : Text

-- A pointer that is not nil, and its value.
abbrev points_to {ℓ} : {A : Type ℓ} ⦃e : Eq A⦄ → Option A → A → Bool
points_to none a = false
points_to (some b) a = b === a

tcp_or_unset : Option Text → Bool
tcp_or_unset none = true
tcp_or_unset (some p) = p === [] || p === text "TCP"

unfoldable pub service_port_matches_endpoint : ServicePort → EndpointPort → Bool
unfolding tcp_or_unset
service_port_matches_endpoint svc_port ep_port =
    if not (tcp_or_unset ep_port.protocol)
    then false
    else if svc_port.target_port.is_set
    then (if not (svc_port.target_port.str_val === [])
        then points_to ep_port.name svc_port.target_port.str_val
        else points_to ep_port.port svc_port.target_port.int_val)
    else points_to ep_port.port svc_port.port

abbrev pub service_name_label : Text
service_name_label = text "kubernetes.io/service-name"

-- The slices of the service, less those that are for the other family.
unfoldable pub slice_selected : ServiceItem → Bool → EndpointSliceItem → Bool
slice_selected svc v6 slice =
    slice.metadata.namespace === svc.metadata.namespace
    && get_or service_name_label [] slice.metadata.labels === svc.metadata.name
    && (slice.address_type === [] || (slice.address_type === text "IPv6") === v6)

unfoldable pub target : Text → ℤ → Text → EndpointTarget
target addr n node = record { address = join_host_port addr (itoa n); node_name = node }

-- An address that is no IP, or of the other family, is skipped.
ip_targets : Bool → ℤ → Text → Text → Option (List ℕ) → List EndpointTarget
ip_targets v6 n node addr none = []
ip_targets v6 n node addr (some ip) =
    if differ (not (is_v4 ip)) v6 then [] else target addr n node ∷ []

address_targets : Bool → ℤ → Text → Text → List EndpointTarget
unfolding ip_targets
address_targets v6 n node addr = ip_targets v6 n node addr (parse_ip addr)

-- Only an entry that is said not to be ready is skipped.
ready_targets : Bool → ℤ → Text → List Text → Option Bool → List EndpointTarget
ready_targets v6 n node addrs (some false) = []
ready_targets v6 n node addrs (some true) = concat_map (address_targets v6 n node) addrs
ready_targets v6 n node addrs none = concat_map (address_targets v6 n node) addrs

endpoint_targets : Bool → ℤ → EndpointEntry → List EndpointTarget
unfolding address_targets ready_targets
endpoint_targets v6 n ep = ready_targets v6 n ep.node_name ep.addresses ep.ready

number_targets :
    ServicePort → Bool → List EndpointEntry → EndpointPort → Option ℤ → List EndpointTarget
number_targets port v6 endpoints ep_port none = []
number_targets port v6 endpoints ep_port (some n) =
    if service_port_matches_endpoint port ep_port
    then concat_map (endpoint_targets v6 n) endpoints
    else []

port_targets : ServicePort → Bool → List EndpointEntry → EndpointPort → List EndpointTarget
unfolding endpoint_targets number_targets
port_targets port v6 endpoints ep_port = number_targets port v6 endpoints ep_port ep_port.port

slice_targets : ServiceItem → ServicePort → Bool → EndpointSliceItem → List EndpointTarget
unfolding port_targets
slice_targets svc port v6 slice =
    if slice_selected svc v6 slice
    then concat_map (port_targets port v6 slice.endpoints) slice.ports
    else []

unfoldable pub matching_endpoints :
    ClusterState → ServiceItem → ServicePort → Bool → List EndpointTarget
unfolding slice_targets
matching_endpoints st svc port v6 = concat_map (slice_targets svc port v6) st.endpoint_slices

-- `tunnel_target` is empty for a direct connection, `dial` for no route.
pub record BackendRoute : Type 0 where
  pub dial : Text
  pub tunnel_target : Text

abbrev pub direct : Text → BackendRoute
direct dial = record { dial = dial; tunnel_target = [] }

-- The first endpoint that is local or whose node is unknown.
first_local : Text → List EndpointTarget → Option EndpointTarget
first_local local_node [] = none
first_local local_node (ep ∷ eps) =
    if ep.node_name === [] || ep.node_name === local_node
    then some ep
    else first_local local_node eps

-- The first endpoint on a node with an address of the family, by a tunnel to that node.
first_tunnel : ClusterState → Text → Bool → List EndpointTarget → Option BackendRoute
first_tunnel st proxy_port v6 [] = none
first_tunnel st proxy_port v6 (ep ∷ eps) =
    let node_ip = for_family (get_or ep.node_name no_addrs st.node_ips) v6 in
    if not (node_ip === [])
    then some (record { dial = join_host_port node_ip proxy_port; tunnel_target = ep.address })
    else first_tunnel st proxy_port v6 eps

first_of_all : List EndpointTarget → BackendRoute
first_of_all [] = direct []
first_of_all (ep ∷ eps) = direct ep.address

choose : Option EndpointTarget → Option BackendRoute → List EndpointTarget → BackendRoute
unfolding first_of_all
choose (some ep) tunnel endpoints = direct ep.address
choose none (some route) endpoints = route
choose none none endpoints = first_of_all endpoints

route_to : ClusterState → Text → Text → Bool → List EndpointTarget → BackendRoute
unfolding first_local first_tunnel choose
route_to st local_node proxy_port v6 endpoints =
    choose (first_local local_node endpoints) (first_tunnel st proxy_port v6 endpoints) endpoints

unfoldable pub route_for :
    ClusterState → Text → Text → ServiceItem → ServicePort → Bool → BackendRoute
unfolding route_to
route_for st local_node proxy_port svc port v6 =
    route_to st local_node proxy_port v6 (matching_endpoints st svc port v6)
