-- ===== src/EdgeProxy/Examples/Synced.antt =====
-- One round of the proxy on the tables of the example.
use kiac.Base.{text, ok, ◌≡◌, refl, some, List, [], ◌∷◌, text_beq}
use kiac.EdgeProxy.Node.{Config, Node, attempt, bin_for, families, ipt, ipt_ok}
use kiac.EdgeProxy.Examples.Tables.{NatTables, run_tables, tables}
use kiac.EdgeProxy.Routes.Appends.{Prefix}
use kiac.EdgeProxy.Sync.Table.{Reflects, rewrite_rules-Reflects}
use kiac.EdgeProxy.Iptables.{Rule, chain_of, edge, effect, ipv4, on_rules, redirect_to, rule_beq}
use kiac.EdgeProxy.Routes.{
  add_ingress, add_ingress_port, add_parsed_ingress, add_parsed_rules, add_service,
  add_service_rules, edit, skipped,
}
use kiac.EdgeProxy.Sync.{
  base_rules, logged, rewrite_rules, set_routes, sync_rules, up_to_date, sync_loop,
}
use kiac.EdgeProxy.Examples.{built_in, config, decoder, node}
use kiac.EdgeProxy.Hooks.{
  ensure_family, ensure_hook, ensure_jump, node_port_rule, rules_missing, skip_rule,
}
use kiac.Base.Exec.{for_each, ◌>>=◌}
use kiac.EdgeProxy.Examples.Routed.{hooked}
use kiac.Go.Net.Ip.{is_v4, parse_ip}
use kiac.Go.Strconv.{itoa}
use kiac.EdgeProxy.Cluster.{parse_cluster_state}
use kiac.EdgeProxy.Sync.Rules.{planned, sync_rules_done}
use kiac.EdgeProxy.Hooks.Views.{view}

abbrev worker : Config
worker = config (text "worker")

abbrev after : Node NatTables
after = (sync_rules tables worker decoder (text "snapshot") (node built_in)).1

abbrev pub rewritten : Node NatTables
rewritten = (rewrite_rules tables worker decoder (text "snapshot") hooked).1

-- The chain has the two base rules and the redirect of the Service.
synced_test :
    view tables after ipv4 edge
    ≡ some (
        skip_rule worker
        ∷ node_port_rule worker
        ∷ redirect_to (text "192.168.64.9") (text "80") (text "15080")
        ∷ [])
unfolding run_tables for_each families ◌>>=◌ ipt attempt ipt_ok ensure_hook ensure_family
    ensure_jump rule_beq add_service edit add_ingress add_parsed_ingress add_ingress_port skipped
    parse_ip is_v4 text_beq itoa bin_for sync_rules up_to_date rewrite_rules base_rules logged
    set_routes add_service_rules add_parsed_rules parse_cluster_state rules_missing chain_of effect
    on_rules
synced_test = refl

synced : sync_rules tables worker decoder (text "snapshot") (node built_in) ≡ (ok tt, after)
unfolding run_tables for_each families ◌>>=◌ ipt attempt ipt_ok ensure_hook ensure_family
    ensure_jump rule_beq add_service edit add_ingress add_parsed_ingress add_ingress_port skipped
    parse_ip is_v4 text_beq itoa bin_for sync_rules up_to_date rewrite_rules base_rules logged
    set_routes add_service_rules add_parsed_rules parse_cluster_state rules_missing chain_of effect
    on_rules
synced = refl

sync_rules_done_example :
    (p : List Rule) × Prefix p (planned worker decoder (text "snapshot") ipv4)
    × (skip_rule worker
          ∷ node_port_rule worker
          ∷ redirect_to (text "192.168.64.9") (text "80") (text "15080")
          ∷ []
        ≡ skip_rule worker ∷ node_port_rule worker ∷ p)
sync_rules_done_example =
    sync_rules_done tables worker decoder (text "snapshot") (node built_in) after ipv4 _ refl
      (λ e. absurd (cc e)) synced synced_test

pub rewrites : rewrite_rules tables worker decoder (text "snapshot") hooked ≡ (ok tt, rewritten)
unfolding run_tables for_each families ◌>>=◌ ipt attempt ipt_ok ensure_hook ensure_family
    ensure_jump rule_beq add_service edit add_ingress add_parsed_ingress add_ingress_port skipped
    parse_ip is_v4 text_beq itoa bin_for rewrite_rules base_rules logged set_routes
    add_service_rules add_parsed_rules parse_cluster_state chain_of effect on_rules
rewrites = refl

rewrite_rules-Reflects_example :
    Reflects worker decoder (text "snapshot") rewritten.routes
    × (rewritten.last_snapshot ≡ text "snapshot")
rewrite_rules-Reflects_example =
    rewrite_rules-Reflects tables worker decoder (text "snapshot") hooked rewritten rewrites

-- A tick of the loop puts its snapshot in use.
loop_test :
    (sync_loop tables worker decoder (text "snapshot" ∷ []) (node built_in)).last_snapshot
    ≡ text "snapshot"
unfolding run_tables for_each families ◌>>=◌ ipt attempt ipt_ok ensure_hook ensure_family
    ensure_jump rule_beq add_service edit add_ingress add_parsed_ingress add_ingress_port skipped
    parse_ip is_v4 text_beq itoa bin_for sync_loop sync_rules up_to_date rewrite_rules base_rules
    logged set_routes add_service_rules add_parsed_rules parse_cluster_state rules_missing chain_of
    effect on_rules
loop_test = refl
