-- ===== src/EdgeProxy/Hooks.antt =====
-- `resetHook`, `ensureHook`, `cleanup` and `rulesMissing` (cmd/kiac-edge-proxy/main.go): the jumps
-- from PREROUTING and OUTPUT into the proxy's chains. The loops `for a.ipt(…, "-D", …) == nil`
-- take fuel.
pub mod Views
pub mod Families
pub mod Reset
pub mod Ensure
pub mod Ends
pub mod Frame
pub mod Cleanup
pub mod CleanupEnds
use kiac.Base.{if◌then◌else◌, Result, ok, err, ℕ, zero, suc, Bool, true, false, not, List, [], ◌∷◌}
use kiac.Base.Exec.{Exec, pure, raise, ◌>>=◌, ◌>>◌, for_each}
use kiac.EdgeProxy.Iptables.{
  Family, Chain, prerouting, output, edge, edge_output, Rule, jump, return_port, redirect_local,
  new_chain, delete_chain, flush, insert, delete, check, Iptables,
}
use kiac.EdgeProxy.Node.{Config, Node, ProxyError, out_of_fuel, families, ipt, attempt, ipt_ok}

abbrev pub skip_rule : Config → Rule
skip_rule c = return_port c.proxy_port

abbrev pub node_port_rule : Config → Rule
node_port_rule c = redirect_local c.node_port_range c.proxy_port

module _ (t : Iptables) where
  open t use {Kernel}

  abbrev pub Method : Type 0 → Type 0
  Method = Exec ProxyError (Node Kernel)

  -- A failure ends the loop, without an error.
  again : Method (Unit {0}) → Result ProxyError (Unit {0}) → Method (Unit {0})
  again loop (ok done) = loop
  again loop (err e) = pure tt

  -- `for a.ipt(bin, "-D", …) == nil {}`
  unfoldable pub delete_all : ℕ → Family → Chain → Rule → Method (Unit {0})
  unfolding again
  delete_all zero f ch r n = (err out_of_fuel, n)
  delete_all (suc fuel) f ch r n =
      let (res, n') = ipt t f (delete ch r) n in again (delete_all fuel f ch r) res n'

  unfoldable pub reset_family : ℕ → Family → Method (Unit {0})
  reset_family fuel f = do
    attempt t f (new_chain edge)
    attempt t f (new_chain edge_output)
    delete_all fuel f prerouting (jump edge)
    delete_all fuel f output (jump edge_output)
    ipt t f (insert prerouting (jump edge))
    ipt t f (insert output (jump edge_output))

  unfoldable pub reset_hook : Config → ℕ → Method (Unit {0})
  reset_hook c fuel = for_each (families c) (reset_family fuel)

  -- `if !a.iptOK(bin, "-C", …) { if err := a.ipt(bin, "-I", …) … }`
  unfoldable pub ensure_jump : Family → Chain → Rule → Method (Unit {0})
  ensure_jump f ch r = do
    there ← ipt_ok t f (check ch r)
    if there then pure tt else ipt t f (insert ch r)

  unfoldable pub ensure_family : Family → Method (Unit {0})
  ensure_family f = do
    attempt t f (new_chain edge)
    attempt t f (new_chain edge_output)
    ensure_jump f prerouting (jump edge)
    ensure_jump f output (jump edge_output)

  unfoldable pub ensure_hook : Config → Method (Unit {0})
  ensure_hook c = for_each (families c) ensure_family

  unfoldable pub cleanup_family : ℕ → Family → Method (Unit {0})
  cleanup_family fuel f = do
    delete_all fuel f prerouting (jump edge)
    delete_all fuel f output (jump edge_output)
    attempt t f (flush edge)
    attempt t f (delete_chain edge)
    attempt t f (flush edge_output)
    attempt t f (delete_chain edge_output)

  unfoldable pub cleanup : Config → ℕ → Method (Unit {0})
  cleanup c fuel = for_each (families c) (cleanup_family fuel)

  -- Each check is made only if those before it succeed.
  unfoldable pub family_missing : Config → Family → Method Bool
  family_missing c f = do
    a ← ipt_ok t f (check edge (skip_rule c))
    if not a then pure true else do
      b ← ipt_ok t f (check edge_output (skip_rule c))
      if not b then pure true else do d ← ipt_ok t f (check edge (node_port_rule c)); pure (not d)

  unfoldable pub any_missing : Config → List Family → Method Bool
  any_missing c [] = pure false
  any_missing c (f ∷ fs) = do
    missing ← family_missing c f
    if missing then pure true else any_missing c fs

  unfoldable pub rules_missing : Config → Method Bool
  rules_missing c = any_missing c (families c)
