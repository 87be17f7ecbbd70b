-- ===== src/EdgeProxy/Sync.antt =====
-- `syncRules`, `setRoutes` and one round of `syncLoop` (cmd/kiac-edge-proxy/main.go). The snapshot is
-- what kubectl returned, the empty text if it failed.
pub mod Rules
pub mod Table
use kiac.Base.{
  if◌then◌else◌, ◌===◌, Text, ok, Bool, false, not, List, [], ◌∷◌, nat_eq, bool_eq, text_eq,
  pair_eq, int_eq,
}
use kiac.Base.Exec.{Exec, pure, modify, gets, ◌>>=◌, ◌>>◌, for_each}
use kiac.EdgeProxy.Cluster.{Decoder}
use kiac.EdgeProxy.Iptables.{Family, edge, edge_output, flush, append, Iptables}
use kiac.EdgeProxy.Node.{Config, Node, no_routes, families, ipt}
use kiac.EdgeProxy.Hooks.{Method, ensure_hook, rules_missing, skip_rule, node_port_rule}
use kiac.EdgeProxy.Routes.{add_service_rules}

module _ (t : Iptables) (c : Config) where
  open t use {Kernel}

  unfoldable pub base_rules : Family → Method t (Unit {0})
  base_rules f = do
    ipt t f (flush edge)
    ipt t f (flush edge_output)
    ipt t f (append edge (skip_rule c))
    ipt t f (append edge_output (skip_rule c))
    ipt t f (append edge (node_port_rule c))

  -- An error is logged, and what was done before it stays.
  unfoldable pub logged : Method t (Unit {0}) → Method t (Unit {0})
  logged m n = (ok tt, (m n).1)

  -- The routes go to a map of their own, that is put in use at the end.
  unfoldable pub set_routes : Text → Node Kernel → Node Kernel
  set_routes snapshot n = record n { routes = n.draft; last_snapshot = snapshot }

  unfoldable pub rewrite_rules : Decoder → Text → Method t (Unit {0})
  unfolding set_routes
  rewrite_rules d snapshot = do
    for_each (families c) base_rules
    modify (λ n. record n { draft = no_routes })
    if snapshot === [] then pure tt else logged (add_service_rules t c d snapshot)
    modify (set_routes snapshot)

  -- `snapshot == a.lastSnapshot && !a.rulesMissing()`
  unfoldable pub up_to_date : Text → Method t Bool
  up_to_date snapshot = do
    same ← gets (λ n. snapshot === n.last_snapshot)
    if not same then pure false else do missing ← rules_missing t c; pure (not missing)

  unfoldable pub sync_rules : Decoder → Text → Method t (Unit {0})
  sync_rules d snapshot = do
    ensure_hook t c
    done ← up_to_date snapshot
    if done then pure tt else rewrite_rules d snapshot

  -- The ticks of `syncLoop`: an error of one round is logged, and the next round goes on from there.
  unfoldable pub sync_loop : Decoder → List Text → Node Kernel → Node Kernel
  sync_loop d [] n = n
  sync_loop d (snapshot ∷ rest) n = sync_loop d rest (sync_rules d snapshot n).1
