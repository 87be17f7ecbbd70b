-- ===== src/EdgeProxy/Examples/Hooked.antt =====
-- The hooks on the tables of the example.
use kiac.Base.{if◌then◌else◌, text, ok, err, ◌≡◌, refl, ◌≢◌, some, [], ◌∷◌, arith}
use kiac.EdgeProxy.Node.{Config, attempt, families, ipt, ipt_ok, out_of_fuel}
use kiac.EdgeProxy.Examples.{built_in, config, node}
use kiac.EdgeProxy.Hooks.{
  delete_all, reset_family, reset_hook, ensure_family, ensure_hook, ensure_jump, cleanup,
  cleanup_family,
}
use kiac.Base.Exec.{for_each, ◌>>=◌}
use kiac.EdgeProxy.Iptables.{
  foreign, jump, rule_beq, Family, ipv4, ipv6, prerouting, output, edge_output, edge,
}
use kiac.EdgeProxy.Examples.Tables.{run_tables, tables}
use kiac.EdgeProxy.Hooks.Views.{view, all_gone}
use kiac.EdgeProxy.Hooks.Ends.{Suffices, reset_hook-ends}
use kiac.EdgeProxy.Hooks.Ensure.{ensure_hook_done, with_rule}
use kiac.EdgeProxy.Hooks.Families.{handled}
use kiac.EdgeProxy.Hooks.Reset.{jump_first, reset_hook_done}
use kiac.EdgeProxy.Hooks.Cleanup.{cleanup_done}
use kiac.EdgeProxy.Hooks.CleanupEnds.{cleanup-ends}

abbrev worker : Config
worker = config (text "worker")

-- The jumps that an earlier run left are replaced by one, that is the first rule.
reset_test :
    view tables (reset_hook tables worker 5 (node built_in)).1 ipv4 prerouting
    ≡ some (jump edge ∷ foreign 1 ∷ [])
unfolding run_tables for_each families ◌>>=◌ ipt attempt ipt_ok reset_hook reset_family delete_all
    rule_beq
reset_test = refl

reset_returns :
    reset_hook tables worker 5 (node built_in)
    ≡ (ok tt, (reset_hook tables worker 5 (node built_in)).1)
unfolding run_tables for_each families ◌>>=◌ ipt attempt ipt_ok reset_hook reset_family delete_all
    rule_beq
reset_returns = refl

ensure_returns :
    ensure_hook tables worker (node built_in)
    ≡ (ok tt, (ensure_hook tables worker (node built_in)).1)
unfolding run_tables for_each families ◌>>=◌ ipt attempt ipt_ok ensure_hook ensure_family
    ensure_jump rule_beq
ensure_returns = refl

reset_hook_done_example :
    (view tables (reset_hook tables worker 5 (node built_in)).1 ipv4 prerouting ≡ (
      if handled worker ipv4
      then jump_first (jump edge) (view tables (node built_in) ipv4 prerouting)
      else view tables (node built_in) ipv4 prerouting))
    × (view tables (reset_hook tables worker 5 (node built_in)).1 ipv4 output ≡ (
        if handled worker ipv4
        then jump_first (jump edge_output) (view tables (node built_in) ipv4 output)
        else view tables (node built_in) ipv4 output))
reset_hook_done_example =
    reset_hook_done tables worker 5 (node built_in) (reset_hook tables worker 5 (node built_in)).1
      ipv4 reset_returns

ensure_hook_done_example :
    (view tables (ensure_hook tables worker (node built_in)).1 ipv4 prerouting ≡ (
      if handled worker ipv4
      then with_rule (jump edge) (view tables (node built_in) ipv4 prerouting)
      else view tables (node built_in) ipv4 prerouting))
    × (view tables (ensure_hook tables worker (node built_in)).1 ipv4 output ≡ (
        if handled worker ipv4
        then with_rule (jump edge_output) (view tables (node built_in) ipv4 output)
        else view tables (node built_in) ipv4 output))
ensure_hook_done_example =
    ensure_hook_done tables worker (node built_in) (ensure_hook tables worker (node built_in)).1
      ipv4 ensure_returns

suffices : (f : Family) → Suffices tables 5 (node built_in) f
unfolding rule_beq
suffices ipv4 = (omega arith, omega arith)
suffices ipv6 = (omega arith, omega arith)

reset_hook-ends_example :
    reset_hook tables worker 5 (node built_in)
    ≢ (err out_of_fuel, (reset_hook tables worker 5 (node built_in)).1)
reset_hook-ends_example =
    reset_hook-ends tables 5 worker (node built_in) (reset_hook tables worker 5 (node built_in)).1
      (suffices ipv4) (suffices ipv6)

cleanup_returns :
    cleanup tables worker 5 (node built_in) ≡ (ok tt, (cleanup tables worker 5 (node built_in)).1)
unfolding run_tables for_each families ◌>>=◌ ipt attempt cleanup cleanup_family delete_all rule_beq
cleanup_returns = refl

cleanup_done_example :
    (view tables (cleanup tables worker 5 (node built_in)).1 ipv4 prerouting ≡ (
      if handled worker ipv4
      then all_gone (jump edge) (view tables (node built_in) ipv4 prerouting)
      else view tables (node built_in) ipv4 prerouting))
    × (view tables (cleanup tables worker 5 (node built_in)).1 ipv4 output ≡ (
        if handled worker ipv4
        then all_gone (jump edge_output) (view tables (node built_in) ipv4 output)
        else view tables (node built_in) ipv4 output))
cleanup_done_example =
    cleanup_done tables worker 5 (node built_in) (cleanup tables worker 5 (node built_in)).1 ipv4
      cleanup_returns

cleanup-ends_example : (cleanup tables worker 5 (node built_in)).0 ≡ ok tt
cleanup-ends_example = cleanup-ends tables 5 worker (node built_in) (suffices ipv4) (suffices ipv6)
