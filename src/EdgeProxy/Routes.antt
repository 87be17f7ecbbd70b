-- ===== src/EdgeProxy/Routes.antt =====
-- `addServiceRules`, `allowLocalTargets`, `backendRoute` and `tunnelTargetAllowed`
-- (cmd/kiac-edge-proxy/main.go): the redirects and the route table made from a snapshot.
pub mod Appends
pub mod Redirects
pub mod Sound
pub mod Keeps
pub mod Complete
pub mod Reached
pub mod Lookup
use kiac.Base.{
  if◌then◌else◌, ◌===◌, Text, text, In, elem, ℤ, ℕ, ◌≡◌, Bool, true, false, not, ◌&&◌, ◌||◌, Option,
  none, some, List, [], ◌∷◌, is_positive, elem-In, In-elem, nat_eq, bool_eq, text_eq, pair_eq,
  int_eq,
}
use kiac.Base.Dict.{get_or, put}
use kiac.Base.Exec.{pure, raise, modify, ◌>>=◌, ◌>>◌, for_each}
use kiac.Go.Strconv.{itoa, atoi}
use kiac.Go.Net.{join_host_port, split_host_port}
use kiac.Go.Net.Ip.{parse_ip, is_v4}
use kiac.EdgeProxy.Cluster.{ServiceItem, ServicePort, ClusterState, Decoder, parse_cluster_state}
use kiac.EdgeProxy.Endpoints.{
  EndpointTarget, BackendRoute, direct, matching_endpoints, route_for, target,
}
use kiac.EdgeProxy.Iptables.{Rule, edge, edge_output, redirect_to, append, Iptables}
use kiac.EdgeProxy.Node.{Config, RouteTable, Node, bad_snapshot, bin_for, ipt}
use kiac.EdgeProxy.Hooks.{Method}

-- `allowLocalTargets`
unfoldable pub allow_local_targets : Text → List EndpointTarget → RouteTable → RouteTable
allow_local_targets node_name [] rt = rt
allow_local_targets node_name (ep ∷ eps) rt = allow_local_targets node_name eps (
    if ep.node_name === node_name
    then record rt { allowed_targets = ep.address ∷ rt.allowed_targets }
    else rt)

-- `isV6Host`
unfoldable pub is_v6_host : Text → Bool
is_v6_host host = elim (parse_ip host) [ none ↦ false | some ip ↦ not (is_v4 ip) ]

node_port_route : RouteTable → Option ℤ → Bool → BackendRoute
node_port_route rt none v6 = direct []
node_port_route rt (some p) v6 = get_or (p, v6) (direct []) rt.node_ports

host_route : RouteTable → Option (Text × Text) → BackendRoute
unfolding node_port_route
host_route rt none = direct []
host_route rt (some (host, port)) = node_port_route rt (atoi port) (is_v6_host host)

-- `backendRoute`: a LoadBalancer address, else the NodePort of the family.
unfoldable pub backend_route : RouteTable → Text → BackendRoute
unfolding host_route
backend_route rt original =
    let route = get_or original (direct []) rt.load_balancers in
    if not (route.dial === []) then route else host_route rt (split_host_port original)

-- `tunnelTargetAllowed`
unfoldable pub tunnel_target_allowed : RouteTable → Text → Bool
tunnel_target_allowed rt target = elem target rt.allowed_targets

pub tunnel_target_allowed-In :
    (rt : RouteTable) (target : Text)
    → tunnel_target_allowed rt target ≡ true
    → In target rt.allowed_targets
unfolding tunnel_target_allowed
tunnel_target_allowed-In rt target = elem-In target rt.allowed_targets

module _ (c : Config) (st : ClusterState) (svc : ServiceItem) where
  route : ServicePort → Bool → BackendRoute
  route port v6 = route_for st c.node_name c.proxy_port svc port v6

  unfoldable pub allow_family : ServicePort → Bool → RouteTable → RouteTable
  allow_family port v6 rt = allow_local_targets c.node_name (matching_endpoints st svc port v6) rt

  unfoldable pub put_node_port : ServicePort → Bool → RouteTable → RouteTable
  unfolding route
  put_node_port port v6 rt = record rt {
    node_ports = put (port.node_port, v6) (route port v6) rt.node_ports;
  }

  -- The first loop over the ports: the local targets and the NodePorts of each family.
  unfoldable pub add_port : ServicePort → RouteTable → RouteTable
  add_port port rt =
      let with_v4 = allow_family port false rt in
      let with_targets = if c.has_ip6 then allow_family port true with_v4 else with_v4 in
      if not (is_positive port.node_port)
      then with_targets
      else (let with_port = put_node_port port false with_targets in
          if c.has_ip6 then put_node_port port true with_port else with_port)

  unfoldable pub add_ports : List ServicePort → RouteTable → RouteTable
  add_ports [] rt = rt
  add_ports (p ∷ ps) rt = add_ports ps (add_port p rt)

  -- With no endpoint the NodePort of the ingress IP is dialled.
  unfoldable pub balancer_route : ServicePort → Text → Bool → BackendRoute
  unfolding route
  balancer_route port ip v6 =
      let r = route port v6 in
      if r.dial === [] && is_positive port.node_port
      then record r { dial = join_host_port ip (itoa port.node_port) }
      else r

  unfoldable pub put_balancer : ServicePort → Text → Bool → RouteTable → RouteTable
  put_balancer port ip v6 rt = record rt {
    load_balancers =
        put (join_host_port ip (itoa port.port)) (balancer_route port ip v6) rt.load_balancers;
  }

-- A port that is not redirected: none, or the proxy's own.
unfoldable pub skipped : Config → ServicePort → Bool
skipped c port = not (is_positive port.port) || itoa port.port === c.proxy_port

abbrev pub redirect : Config → Text → ServicePort → Rule
redirect c ip port = redirect_to ip (itoa port.port) c.proxy_port

module _ (t : Iptables) (c : Config) where
  unfoldable pub edit : (RouteTable → RouteTable) → Method t (Unit {0})
  edit f = modify (λ n. record n { draft = f n.draft })

  unfoldable pub add_ingress_port :
      ClusterState → ServiceItem → Text → Bool → ServicePort → Method t (Unit {0})
  add_ingress_port st svc ip v6 port = if skipped c port then pure tt else do
    ipt t (bin_for v6) (append edge (redirect c ip port))
    ipt t (bin_for v6) (append edge_output (redirect c ip port))
    edit (put_balancer c st svc port ip v6)

  unfoldable pub add_parsed_ingress :
      ClusterState → ServiceItem → Text → Option (List ℕ) → Method t (Unit {0})
  add_parsed_ingress st svc ip none = pure tt
  add_parsed_ingress st svc ip (some bytes) =
      let v6 = not (is_v4 bytes) in
      if v6 && not c.has_ip6 then pure tt else for_each svc.ports (add_ingress_port st svc ip v6)

  unfoldable pub add_ingress : ClusterState → ServiceItem → Text → Method t (Unit {0})
  add_ingress st svc ip = add_parsed_ingress st svc ip (parse_ip ip)

  unfoldable pub add_service : ClusterState → ServiceItem → Method t (Unit {0})
  add_service st svc = do
    edit (add_ports c st svc svc.ports)
    if not (svc.service_type === text "LoadBalancer")
        then pure tt
        else for_each svc.ingress (add_ingress st svc)

  unfoldable pub add_parsed_rules : Option ClusterState → Method t (Unit {0})
  add_parsed_rules none = raise bad_snapshot
  add_parsed_rules (some st) = for_each st.services (add_service st)

  unfoldable pub add_service_rules : Decoder → Text → Method t (Unit {0})
  add_service_rules d raw = add_parsed_rules (parse_cluster_state d raw)

pub In-tunnel_target_allowed :
    (rt : RouteTable) (target : Text)
    → In target rt.allowed_targets
    → tunnel_target_allowed rt target ≡ true
unfolding tunnel_target_allowed
In-tunnel_target_allowed rt target = In-elem target rt.allowed_targets
