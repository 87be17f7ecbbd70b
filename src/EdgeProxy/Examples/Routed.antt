-- ===== src/EdgeProxy/Examples/Routed.antt =====
-- The endpoints and routes of the example.
use kiac.Base.{
  text, In, ok, ◌≡◌, refl, ◌≢◌, ◌↔◌, inl, false, [], text_beq, nat_eq, bool_eq, text_eq, pair_eq,
  int_eq,
}
use kiac.EdgeProxy.Routes.Lookup.{Found, backend_route-IsSound}
use kiac.EdgeProxy.Routes.Sound.{IsSound, no_routes-IsSound}
use kiac.EdgeProxy.Routes.Keeps.{add_services-IsSound}
use kiac.EdgeProxy.Examples.Tables.{NatTables, run_tables, tables}
use kiac.EdgeProxy.Node.{Node, attempt, bin_for, families, ipt, ipt_ok}
use kiac.EdgeProxy.Endpoints.Routed.{Routed, route_for-Routed}
use kiac.EdgeProxy.Endpoints.Serves.{Serves, matching_endpoints-Serves}
use kiac.EdgeProxy.Routes.{
  add_service, backend_route, add_ingress, add_ingress_port, add_parsed_ingress, edit, skipped,
  add_port, add_ports, allow_family, allow_local_targets, balancer_route, put_balancer,
  put_node_port,
}
use kiac.EdgeProxy.Routes.Reached.{add_services-allow}
use kiac.EdgeProxy.Examples.{built_in, cluster, config, endpoint, node, web, web_port}
use kiac.EdgeProxy.Hooks.{ensure_family, ensure_hook, ensure_jump}
use kiac.Base.Exec.{for_each, ◌>>=◌}
use kiac.Base.Dict.{get_or, put}
use kiac.Go.Strings.{has_byte}
use kiac.Go.Net.Ip.{is_v4, parse_ip}
use kiac.Go.Strconv.{itoa}
use kiac.Go.Net.{join_host_port}
use kiac.EdgeProxy.Endpoints.{
  matching_endpoints, route_for, service_port_matches_endpoint, slice_selected, target,
}
use kiac.EdgeProxy.Iptables.{rule_beq}
use kiac.EdgeProxy.Cluster.{for_family}

listed : In endpoint (matching_endpoints cluster web web_port false)
unfolding matching_endpoints slice_selected service_port_matches_endpoint get_or text_beq target
    parse_ip is_v4 join_host_port itoa has_byte
listed = inl refl

pub served : Serves cluster web web_port false endpoint
served = (matching_endpoints-Serves cluster web web_port false endpoint).0 listed

matching_endpoints-Serves_example :
    In endpoint (matching_endpoints cluster web web_port false)
    ↔ Serves cluster web web_port false endpoint
matching_endpoints-Serves_example = matching_endpoints-Serves cluster web web_port false endpoint

route_for-Routed_example :
    Routed cluster
      (text "control")
      (text "15080")
      false
      (matching_endpoints cluster web web_port false)
      (route_for cluster (text "control") (text "15080") web web_port false)
route_for-Routed_example =
    route_for-Routed cluster (text "control") (text "15080") web web_port false

-- Another node reaches the endpoint by a tunnel to its node.
pub tunnelled :
    (route_for cluster (text "control") (text "15080") web web_port false).tunnel_target
    ≡ endpoint.address
unfolding route_for for_family matching_endpoints slice_selected service_port_matches_endpoint
    get_or text_beq target parse_ip is_v4 join_host_port itoa has_byte
tunnelled = refl

-- The worker's table after its one Service, with the proxy's chains there.
abbrev pub hooked : Node NatTables
hooked = (ensure_hook tables (config (text "worker")) (node built_in)).1

abbrev pub filled : Node NatTables
filled = (for_each cluster.services (add_service tables (config (text "worker")) cluster) hooked).1

pub fills :
    for_each cluster.services (add_service tables (config (text "worker")) cluster) hooked
    ≡ (ok tt, filled)
unfolding run_tables for_each families ◌>>=◌ ipt attempt ipt_ok ensure_hook ensure_family
    ensure_jump rule_beq add_service edit add_ingress add_parsed_ingress add_ingress_port skipped
    parse_ip is_v4 text_beq itoa bin_for
fills = refl

-- The hooks leave the draft as it was.
hooked-IsSound : IsSound (config (text "worker")) cluster hooked.draft
unfolding run_tables for_each families ◌>>=◌ ipt attempt ipt_ok ensure_hook ensure_family
    ensure_jump rule_beq
hooked-IsSound = no_routes-IsSound (config (text "worker")) cluster

add_services-IsSound_example : IsSound (config (text "worker")) cluster filled.draft
add_services-IsSound_example =
    add_services-IsSound tables (config (text "worker")) cluster hooked hooked-IsSound

filled-IsSound : IsSound (config (text "worker")) cluster filled.draft
unfolding run_tables for_each families ◌>>=◌ ipt attempt ipt_ok ensure_hook ensure_family
    ensure_jump rule_beq
filled-IsSound = add_services-IsSound tables (config (text "worker")) cluster hooked hooked-IsSound

add_services-allow_example : In endpoint.address filled.draft.allowed_targets
add_services-allow_example =
    add_services-allow tables (config (text "worker")) cluster hooked filled web web_port false
      endpoint (inl refl) (inl refl) served refl (inl refl) fills

balancer_dials : (backend_route filled.draft (text "192.168.64.9:80")).dial ≡ text "10.0.0.7:8080"
unfolding run_tables for_each families ◌>>=◌ ipt attempt ipt_ok ensure_hook ensure_family
    ensure_jump rule_beq add_service edit add_ingress add_parsed_ingress add_ingress_port skipped
    parse_ip is_v4 text_beq itoa bin_for backend_route get_or put put_balancer balancer_route
    add_ports add_port put_node_port allow_family allow_local_targets route_for for_family
    matching_endpoints slice_selected service_port_matches_endpoint target join_host_port has_byte
balancer_dials = refl

balancer_dial : (backend_route filled.draft (text "192.168.64.9:80")).dial ≢ []
balancer_dial e = absurd (cc (balancer_dials, e))

backend_route-IsSound_example :
    Found
      (config (text "worker"))
      cluster
      (text "192.168.64.9:80")
      (backend_route filled.draft (text "192.168.64.9:80"))
backend_route-IsSound_example =
    backend_route-IsSound (config (text "worker")) cluster filled.draft filled-IsSound
      (text "192.168.64.9:80") balancer_dial
