-- ===== src/EdgeProxy/Routes/Sound.antt =====
-- Where the entries of the route table come from (cmd/kiac-edge-proxy/main.go).
use kiac.Base.{
  if◌then◌else◌, ◌===◌, Text, text, In, ℤ, ℕ, ◌≡◌, refl, sym, ap, ◌∙◌, inl, inr, Bool, true, false,
  not, some, List, [], ◌∷◌, subst, is_positive, text_beq_iff, nat_eq, bool_eq, text_eq, pair_eq,
  int_eq,
}
use kiac.Base.Dict.{get, get-put_cases}
use kiac.Go.Strconv.{itoa}
use kiac.Go.Net.{join_host_port}
use kiac.Go.Net.Ip.{parse_ip, is_v4}
use kiac.EdgeProxy.Cluster.{ServiceItem, ServicePort, ClusterState}
use kiac.EdgeProxy.Endpoints.{EndpointTarget, BackendRoute, matching_endpoints, route_for}
use kiac.EdgeProxy.Endpoints.Serves.{Serves, matching_endpoints-Serves}
use kiac.EdgeProxy.Node.{Config, RouteTable, no_routes}
use kiac.EdgeProxy.Routes.{
  allow_local_targets, route, allow_family, put_node_port, add_port, add_ports, balancer_route,
  put_balancer, skipped,
}

-- The address of a ready endpoint of a Service, on this node.
pub record LocalTarget (c : Config) (st : ClusterState) (a : Text) : Type 0 where
  pub svc : ServiceItem
  pub svc_listed : In svc st.services
  pub port : ServicePort
  pub port_listed : In port svc.ports
  pub v6 : Bool
  pub endpoint : EndpointTarget
  pub serves : Serves st svc port v6 endpoint
  pub on_node : endpoint.node_name ≡ c.node_name
  pub same : a ≡ endpoint.address

-- The route of a port of a LoadBalancer Service at one of its IPs.
pub record BalancerEntry (c : Config) (st : ClusterState) (key : Text) (r : BackendRoute)
    : Type 0 where
  pub svc : ServiceItem
  pub svc_listed : In svc st.services
  pub balancer : (svc.service_type === text "LoadBalancer") ≡ true
  pub port : ServicePort
  pub port_listed : In port svc.ports
  pub wanted : skipped c port ≡ false
  pub ip : Text
  pub ip_listed : In ip svc.ingress
  pub bytes : List ℕ
  pub parsed : parse_ip ip ≡ some bytes
  pub key_same : key ≡ join_host_port ip (itoa port.port)
  pub route_same : r ≡ balancer_route c st svc port ip (not (is_v4 bytes))

-- The route of a NodePort, of one family.
pub record NodePortEntry (c : Config) (st : ClusterState) (key : ℤ × Bool) (r : BackendRoute)
    : Type 0 where
  pub svc : ServiceItem
  pub svc_listed : In svc st.services
  pub port : ServicePort
  pub port_listed : In port svc.ports
  pub key_same : key.0 ≡ port.node_port
  pub route_same : r ≡ route_for st c.node_name c.proxy_port svc port key.1

pub record IsSound (c : Config) (st : ClusterState) (rt : RouteTable) : Type 0 where
  pub allowed : (a : Text) → In a rt.allowed_targets → LocalTarget c st a
  pub balancers :
      (key : Text) (r : BackendRoute)
      → get key rt.load_balancers ≡ some r
      → BalancerEntry c st key r
  pub node_ports :
      (key : ℤ × Bool) (r : BackendRoute)
      → get key rt.node_ports ≡ some r
      → NodePortEntry c st key r

pub no_routes-IsSound : (c : Config) (st : ClusterState) → IsSound c st no_routes
unfolding get
no_routes-IsSound c st = record {
  allowed = λ a i. absurd i;
  balancers = λ key r e. absurd (cc e);
  node_ports = λ key r e. absurd (cc e);
}

module _ (c : Config) (st : ClusterState) where
  allow_local_targets-IsSound :
      (eps : List EndpointTarget) (rt : RouteTable)
      → ((ep : EndpointTarget)
          → In ep eps
          → ep.node_name ≡ c.node_name
          → LocalTarget c st ep.address)
      → IsSound c st rt
      → IsSound c st (allow_local_targets c.node_name eps rt)
  unfolding allow_local_targets
  allow_local_targets-IsSound [] rt h s = s
  allow_local_targets-IsSound (ep ∷ eps) rt h s =
      allow_local_targets-IsSound eps _ (λ e i. h e (inr i))
        (allow (ep.node_name === c.node_name) (λ e. h ep (inl refl) ((text_beq_iff _ _).0 e)))
    where
      allow :
          (b : Bool)
          → (b ≡ true → LocalTarget c st ep.address)
          → IsSound c st
              (if b then record rt { allowed_targets = ep.address ∷ rt.allowed_targets } else rt)
      allow false k = s
      allow true k = record {
        allowed = λ a i. elim i [
          | inl e ↦ subst (LocalTarget c st) (sym e) (k refl)
          | inr j ↦ s.allowed a j
        ];
        balancers = s.balancers;
        node_ports = s.node_ports;
      }

  module _ (svc : ServiceItem) (listed : In svc st.services) where
    allow_family-IsSound :
        (port : ServicePort) (v6 : Bool) (rt : RouteTable)
        → In port svc.ports
        → IsSound c st rt
        → IsSound c st (allow_family c st svc port v6 rt)
    unfolding allow_family
    allow_family-IsSound port v6 rt i s =
        allow_local_targets-IsSound (matching_endpoints st svc port v6) rt
          (λ ep j e. record {
            svc = svc;
            svc_listed = listed;
            port = port;
            port_listed = i;
            v6 = v6;
            endpoint = ep;
            serves = (matching_endpoints-Serves st svc port v6 ep).0 j;
            on_node = e;
            same = refl;
          })
          s

    put_node_port-IsSound :
        (port : ServicePort) (v6 : Bool) (rt : RouteTable)
        → In port svc.ports
        → IsSound c st rt
        → IsSound c st (put_node_port c st svc port v6 rt)
    unfolding put_node_port
    put_node_port-IsSound port v6 rt i s = record {
      allowed = s.allowed;
      balancers = s.balancers;
      node_ports = λ key r e.
          elim (get-put_cases (port.node_port, v6) key (route c st svc port v6) r rt.node_ports e) [
            | inl (k, q) ↦ record {
              svc = svc;
              svc_listed = listed;
              port = port;
              port_listed = i;
              key_same = ap (λ (p : ℤ × Bool). p.0) k;
              route_same = q ∙ ap (λ (p : ℤ × Bool). route c st svc port p.1) (sym k);
            }
            | inr old ↦ s.node_ports key r old
          ];
    }

    add_port-IsSound :
        (port : ServicePort) (rt : RouteTable)
        → In port svc.ports
        → IsSound c st rt
        → IsSound c st (add_port c st svc port rt)
    unfolding add_port
    add_port-IsSound port rt i s =
        finish (not (is_positive port.node_port)) c.has_ip6 _
          (both c.has_ip6 _ (allow_family-IsSound port false rt i s))
      where
        both :
            (b : Bool) (u : RouteTable)
            → IsSound c st u
            → IsSound c st (if b then allow_family c st svc port true u else u)
        both true u q = allow_family-IsSound port true u i q
        both false u q = q

        finish :
            (skip b : Bool) (u : RouteTable)
            → IsSound c st u
            → IsSound c st (
                if skip
                then u
                else (if b
                    then put_node_port c st svc port true (put_node_port c st svc port false u)
                    else put_node_port c st svc port false u))
        finish true b u q = q
        finish false true u q =
            put_node_port-IsSound port true _ i (put_node_port-IsSound port false u i q)
        finish false false u q = put_node_port-IsSound port false u i q

    pub add_ports-IsSound :
        (ports : List ServicePort) (rt : RouteTable)
        → ((p : ServicePort) → In p ports → In p svc.ports)
        → IsSound c st rt
        → IsSound c st (add_ports c st svc ports rt)
    unfolding add_ports
    add_ports-IsSound [] rt h s = s
    add_ports-IsSound (p ∷ ps) rt h s =
        add_ports-IsSound ps _ (λ q i. h q (inr i)) (add_port-IsSound p rt (h p (inl refl)) s)

    pub put_balancer-IsSound :
        (port : ServicePort) (ip : Text) (bytes : List ℕ) (rt : RouteTable)
        → In port svc.ports
        → In ip svc.ingress
        → (svc.service_type === text "LoadBalancer") ≡ true
        → skipped c port ≡ false
        → parse_ip ip ≡ some bytes
        → IsSound c st rt
        → IsSound c st (put_balancer c st svc port ip (not (is_v4 bytes)) rt)
    unfolding put_balancer
    put_balancer-IsSound port ip bytes rt i j b w p s = record {
      allowed = s.allowed;
      node_ports = s.node_ports;
      balancers = λ key r e.
          elim (get-put_cases (join_host_port ip (itoa port.port)) key
            (balancer_route c st svc port ip (not (is_v4 bytes))) r rt.load_balancers e) [
              | inl (k, q) ↦ record {
                svc = svc;
                svc_listed = listed;
                balancer = b;
                port = port;
                port_listed = i;
                wanted = w;
                ip = ip;
                ip_listed = j;
                bytes = bytes;
                parsed = p;
                key_same = k;
                route_same = q;
              }
              | inr old ↦ s.balancers key r old
            ];
    }
