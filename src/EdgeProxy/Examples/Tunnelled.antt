-- ===== src/EdgeProxy/Examples/Tunnelled.antt =====
-- A tunnel from the node `control` to the endpoint of the example.
use kiac.Base.{
  Text, text, In, ok, ℤ, pos, ◌≡◌, refl, sym, ap, ◌∙◌, ◌≢◌, ◌↔◌, inl, inr, true, false, some, [],
  ◌∷◌, arith, subst, text_beq, nat_eq, bool_eq, text_eq, pair_eq, int_eq,
}
use kiac.EdgeProxy.Tunnel.Decisions.{Authentic}
use kiac.EdgeProxy.Cluster.{
  ClusterState, for_family, parse_cluster_state, EndpointPort, EndpointSliceItem,
}
use kiac.EdgeProxy.Node.{Config, attempt, bin_for, families, ipt, ipt_ok}
use kiac.Go.Strings.Laws.{IsWord}
use kiac.EdgeProxy.Routes.Sound.{LocalTarget}
use kiac.EdgeProxy.Tunnel.{
  Network, authenticate_tunnel_header, handle_conn, handle_tunnel, has_blank, is_proxy_port,
  proxied, read_tunnel_token, tunnel_header, valid_backend_target,
}
use kiac.EdgeProxy.Tunnel.Delivery.{NumbersInRange, route_for-authenticates, tunnel_delivers}
use kiac.EdgeProxy.Sync.Table.{Reflects, rewrite_rules-Reflects}
use kiac.EdgeProxy.Routes.{
  add_ingress, add_ingress_port, add_parsed_ingress, add_parsed_rules, add_port, add_ports,
  add_service, add_service_rules, allow_family, allow_local_targets, balancer_route, edit,
  put_balancer, put_node_port, skipped, tunnel_target_allowed,
}
use kiac.Go.Strconv.{atoi, itoa}
use kiac.EdgeProxy.Sync.{base_rules, logged, rewrite_rules, set_routes}
use kiac.EdgeProxy.Iptables.{chain_of, effect, on_rules, rule_beq}
use kiac.EdgeProxy.Examples.{
  cluster, config, decoder, endpoint, token, web, web_port, web_endpoint_port,
}
use kiac.Go.Strings.{cut_byte, fields, has_byte, is_space, trim_space}
use kiac.EdgeProxy.Hooks.{ensure_family, ensure_hook, ensure_jump}
use kiac.EdgeProxy.Examples.Routed.{filled, fills, hooked, served, tunnelled}
use kiac.Base.Exec.{for_each, ◌>>=◌}
use kiac.Base.Dict.{get_or, put}
use kiac.Go.Net.Ip.{is_v4, parse_ip}
use kiac.Go.Net.{join_host_port, split_host_port}
use kiac.EdgeProxy.Endpoints.{
  matching_endpoints, route_for, service_port_matches_endpoint, slice_selected, target,
}
use kiac.EdgeProxy.Tunnel.Header.{IsTokenOf, read_tunnel_token-ok, InPortRange}
use kiac.EdgeProxy.Examples.Synced.{rewrites, rewritten}
use kiac.EdgeProxy.Examples.Tables.{run_tables, tables}
use kiac.EdgeProxy.Tunnel.Safety.{tunnel_reaches_local}

abbrev worker : Config
worker = config (text "worker")

abbrev header : Text
header =
    tunnel_header token
      (route_for cluster (text "control") (text "15080") web web_port false).tunnel_target

-- A connection to the port of the proxy, with the header.
abbrev from_control : Text → Network
from_control line = record {
  original_dst = some (text "192.168.64.3:15080");
  takes_deadline = true;
  first_line = some line;
  dials = λ target. true;
  writes = λ target. true;
}

token-IsWord : IsWord token
unfolding is_space
token-IsWord = (
  refl,
  (
    refl,
    (
      refl,
      (
        refl,
        (
          refl,
          (
            refl,
            (
              refl,
              (
                refl,
                (
                  refl,
                  (
                    refl,
                    (
                      refl,
                      (
                        refl,
                        (
                          refl,
                          (
                            refl,
                            (
                              refl,
                              (
                                refl,
                                (
                                  refl,
                                  (
                                    refl,
                                    (
                                      refl,
                                      (
                                        refl,
                                        (
                                          refl,
                                          (
                                            refl,
                                            (
                                              refl,
                                              (
                                                refl,
                                                (
                                                  refl,
                                                  (
                                                    refl,
                                                    (
                                                      refl,
                                                      (refl, (refl, (refl, (refl, (refl, tt))))),
                                                    ),
                                                  ),
                                                ),
                                              ),
                                            ),
                                          ),
                                        ),
                                      ),
                                    ),
                                  ),
                                ),
                              ),
                            ),
                          ),
                        ),
                      ),
                    ),
                  ),
                ),
              ),
            ),
          ),
        ),
      ),
    ),
  ),
)

token_cons : token ≢ []
token_cons e = absurd (cc e)

port_in_range :
    (p : EndpointPort) → In p (web_endpoint_port ∷ []) → (n : ℤ) → p.port ≡ some n → InPortRange n
port_in_range p (inl e) n h =
    let number : some (pos 8080) ≡ some n = ap (λ (q : EndpointPort). q.port) (sym e) ∙ h in
    let same : pos 8080 ≡ n = cc in (8080, sym same, omega arith, omega arith)
port_in_range p (inr i) n h = absurd i

in_range : NumbersInRange cluster
in_range s (inl e) p i n h =
    port_in_range p (subst (λ (x : EndpointSliceItem). In p x.ports) e i) n h
in_range s (inr i) p j n h = absurd i

tunnel_delivers_example :
    handle_tunnel worker filled.draft (from_control header) ≡ proxied endpoint.address []
tunnel_delivers_example =
    tunnel_delivers cluster token token_cons token-IsWord in_range tables (text "control")
      (text "15080") worker hooked filled web web_port false endpoint (from_control header)
      (inl refl) (inl refl) tunnelled served refl (inl refl) refl fills refl refl refl

route_for-authenticates_example :
    authenticate_tunnel_header header token
    ≡ some (route_for cluster (text "control") (text "15080") web web_port false).tunnel_target
route_for-authenticates_example =
    route_for-authenticates cluster token token_cons token-IsWord in_range (text "control")
      (text "15080") web web_port false (λ e. absurd (cc (tunnelled, e)))

abbrev plain_header : Text
plain_header = tunnel_header token (text "10.0.0.7:8080")

-- The stream goes to the endpoint.
reached :
    handle_conn worker rewritten.routes (from_control plain_header)
    ≡ proxied (text "10.0.0.7:8080") []
unfolding run_tables for_each families ◌>>=◌ ipt attempt ipt_ok ensure_hook ensure_family
    ensure_jump rule_beq add_service edit add_ingress add_parsed_ingress add_ingress_port skipped
    parse_ip is_v4 text_beq itoa bin_for rewrite_rules base_rules logged set_routes
    add_service_rules add_parsed_rules parse_cluster_state chain_of effect on_rules put_balancer
    balancer_route add_ports add_port put_node_port allow_family allow_local_targets route_for
    for_family matching_endpoints slice_selected service_port_matches_endpoint target join_host_port
    has_byte get_or put handle_conn handle_tunnel is_proxy_port split_host_port cut_byte
    authenticate_tunnel_header valid_backend_target fields is_space atoi tunnel_target_allowed
    tunnel_header
reached = refl

to_proxy : is_proxy_port (text "192.168.64.3:15080") (text "15080") ≡ true
unfolding is_proxy_port split_host_port cut_byte has_byte text_beq
to_proxy = refl

reflected : Reflects worker decoder (text "snapshot") rewritten.routes
reflected =
    (rewrite_rules-Reflects tables worker decoder (text "snapshot") hooked rewritten rewrites).0

tunnel_reaches_local_example :
    ((line : Text) × (some plain_header ≡ some line) × Authentic token line (text "10.0.0.7:8080"))
    × ((st : ClusterState) × (parse_cluster_state decoder (text "snapshot") ≡ some st)
        × LocalTarget worker st (text "10.0.0.7:8080"))
tunnel_reaches_local_example =
    tunnel_reaches_local worker rewritten.routes (from_control plain_header) decoder
      (text "snapshot") (text "192.168.64.3:15080") (text "10.0.0.7:8080") [] reflected refl
      to_proxy reached

token_file : read_tunnel_token (λ path. some token) (text "/token") ≡ ok token
unfolding read_tunnel_token has_blank has_byte trim_space
token_file = refl

read_tunnel_token-ok_example :
    (read_tunnel_token (λ path. some token) (text "/token") ≡ ok token)
    ↔ ((text "/token" ≢ []) × IsTokenOf (some token) token)
read_tunnel_token-ok_example = read_tunnel_token-ok (λ path. some token) (text "/token") token
