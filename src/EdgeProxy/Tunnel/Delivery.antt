-- ===== src/EdgeProxy/Tunnel/Delivery.antt =====
-- The tunnel from end to end: `handleConn` on one node, `handleTunnel` on the other
-- (cmd/kiac-edge-proxy/main.go).
use kiac.Base.{
  if◌then◌else◌, Text, In, All-append, ok, ℤ, ◌≡◌, refl, sym, ap, ◌∙◌, ◌≢◌, Bool, true, false, some,
  [], ◌∷◌, ◌++◌, subst,
}
use kiac.EdgeProxy.Endpoints.{BackendRoute, EndpointTarget, route_for, target}
use kiac.EdgeProxy.Cluster.{ClusterState, EndpointPort, EndpointSliceItem, ServiceItem, ServicePort}
use kiac.EdgeProxy.Tunnel.Header.{
  InPortRange, authenticate-tunnel_header, itoa_pos-IsWord, target-valid,
}
use kiac.Go.Strings.Laws.{IsWord}
use kiac.EdgeProxy.Endpoints.Serves.{Serves, matching_endpoints-Serves}
use kiac.EdgeProxy.Tunnel.{
  authenticate_tunnel_header, tunnel_header, Network, handle_tunnel, proxied,
}
use kiac.EdgeProxy.Endpoints.Routed.{
  by_tunnel, no_endpoint, route_for-Routed, to_local, unreachable,
}
use kiac.Go.Strings.{has_byte, is_space}
use kiac.Go.Net.{join_host_port}
use kiac.Go.Strconv.{itoa}
use kiac.Go.Net.Ip.Shape.{parse_ip-IsWord}
use kiac.EdgeProxy.Node.{Config, Node}
use kiac.EdgeProxy.Routes.Complete.{Handles}
use kiac.EdgeProxy.Iptables.{Iptables}
use kiac.EdgeProxy.Routes.{add_service}
use kiac.EdgeProxy.Routes.Reached.{add_services-allow}
use kiac.Base.Exec.{for_each}
use kiac.EdgeProxy.Tunnel.Decisions.{handle_tunnel-allowed}

-- The ports of the endpoints are ports, as the API server makes sure.
abbrev pub NumbersInRange : ClusterState → Type 0
NumbersInRange st =
    (slice : EndpointSliceItem)
    → In slice st.endpoint_slices
    → (p : EndpointPort) → In p slice.ports
    → (n : ℤ) → p.port ≡ some n
    → InPortRange n

join_host_port-IsCons : (host port : Text) → join_host_port host port ≢ []
unfolding join_host_port
join_host_port-IsCons host port = go (has_byte b':' host) host
  where
    go :
        (b : Bool) (h : Text)
        → (if b then b'[' ∷ (host ++ b']' ∷ b':' ∷ port) else h ++ b':' ∷ port) ≢ []
    go true h e = absurd (cc e)
    go false [] e = absurd (cc e)
    go false (c ∷ h) e = absurd (cc e)

join_host_port-IsWord :
    (host port : Text) → IsWord host → IsWord port → IsWord (join_host_port host port)
unfolding join_host_port is_space
join_host_port-IsWord host port h p = go (has_byte b':' host)
  where
    go :
        (b : Bool) → IsWord (if b then b'[' ∷ (host ++ b']' ∷ b':' ∷ port) else host ++ b':' ∷ port)
    go true = (refl, All-append _ host (b']' ∷ b':' ∷ port) h (refl, (refl, p)))
    go false = All-append _ host (b':' ∷ port) h (refl, p)

module _ (st : ClusterState) (token : Text) (tn : token ≢ []) (tw : IsWord token)
    (range : NumbersInRange st) where
  -- An endpoint's address goes through the header.
  served-authenticates :
      (svc : ServiceItem) (port : ServicePort) (v6 : Bool) (ep : EndpointTarget)
      → Serves st svc port v6 ep
      → authenticate_tunnel_header (tunnel_header token ep.address) token ≡ some ep.address
  unfolding target
  served-authenticates svc port v6 ep s =
      let a = s.address in
      let (n, e, lo, hi) =
        range s.slice s.slice_listed s.ep_port s.port_listed s.number s.numbered in
      subst
        (λ (x : EndpointTarget).
          authenticate_tunnel_header (tunnel_header token x.address) token ≡ some x.address)
        (sym a.made)
        (authenticate-tunnel_header token _ tn tw (join_host_port-IsCons a.addr (itoa s.number))
          (join_host_port-IsWord a.addr (itoa s.number) (parse_ip-IsWord a.addr a.ip a.parsed)
            (subst (λ (p : ℤ). IsWord (itoa p)) (sym e) (itoa_pos-IsWord n)))
          (target-valid a.addr a.ip s.number a.parsed (n, e, lo, hi)))

  -- The header that is written for a route by tunnel gives back the target of the route when it is
  -- read with the same token, if the token is a non-empty word and the endpoint ports of the state
  -- are port numbers.
  pub route_for-authenticates :
      (local_node proxy_port : Text) (svc : ServiceItem) (port : ServicePort) (v6 : Bool)
      → (route_for st local_node proxy_port svc port v6).tunnel_target ≢ []
      → authenticate_tunnel_header
          (tunnel_header token (route_for st local_node proxy_port svc port v6).tunnel_target)
          token
        ≡ some (route_for st local_node proxy_port svc port v6).tunnel_target
  route_for-authenticates local_node proxy_port svc port v6 h =
      elim (route_for-Routed st local_node proxy_port svc port v6) [
        | to_local ep i l e ↦ absurd (h (ap (λ (r : BackendRoute). r.tunnel_target) e))
        | by_tunnel ep r i n e ↦
            subst
              (λ (r : BackendRoute).
                authenticate_tunnel_header (tunnel_header token r.tunnel_target) token
                ≡ some r.tunnel_target)
              (sym e)
              (served-authenticates svc port v6 ep
                ((matching_endpoints-Serves st svc port v6 ep).0 i))
        | unreachable ep r n i e ↦ absurd (h (ap (λ (r : BackendRoute). r.tunnel_target) e))
        | no_endpoint n e ↦ absurd (h (ap (λ (r : BackendRoute). r.tunnel_target) e))
      ]

  -- Where a node routes a Service port by a tunnel whose target is an endpoint, the node of the
  -- endpoint dials that endpoint once it reads the header that is written for the route. This holds
  -- if the token is a non-empty word and both nodes have it, the endpoint ports of the state are
  -- port numbers, the endpoint is a ready one of the port on that node in a family that the node
  -- handles, the node has added all the Services of the same state without an error, and the header
  -- is read within a deadline and the endpoint can be dialled.
  pub tunnel_delivers :
      (t : Iptables) (local_node proxy_port : Text) (peer : Config) (n m : Node t.Kernel)
      (svc : ServiceItem) (port : ServicePort) (v6 : Bool) (ep : EndpointTarget) (net : Network)
      → In svc st.services
      → In port svc.ports
      → (route_for st local_node proxy_port svc port v6).tunnel_target ≡ ep.address
      → Serves st svc port v6 ep
      → ep.node_name ≡ peer.node_name
      → Handles peer v6
      → peer.tunnel_token ≡ token
      → for_each st.services (add_service t peer st) n ≡ (ok tt, m)
      → net.takes_deadline ≡ true
      → net.first_line
        ≡ some (tunnel_header token (route_for st local_node proxy_port svc port v6).tunnel_target)
      → net.dials ep.address ≡ true
      → handle_tunnel peer m.draft net ≡ proxied ep.address []
  tunnel_delivers t local_node proxy_port peer n m svc port v6 ep net i j r s e f same h d l o =
      handle_tunnel-allowed peer m.draft net (tunnel_header token ep.address) ep.address d
        (l ∙ ap (λ (x : Text). some (tunnel_header token x)) r)
        (subst
          (λ (x : Text).
            authenticate_tunnel_header (tunnel_header token ep.address) x ≡ some ep.address)
          (sym same) (served-authenticates svc port v6 ep s))
        (add_services-allow t peer st n m svc port v6 ep i j s e f h) o
