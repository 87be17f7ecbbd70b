-- ===== src/EdgeProxy/Hooks/CleanupEnds.antt =====
-- The fuel of `cleanup` (cmd/kiac-edge-proxy/main.go).
use kiac.Base.{
  if◌then◌else◌, Result, ok, err, ℕ, ◌<◌, ◌≡◌, refl, ap, Bool, true, false, [], ◌∷◌, arith,
}
use kiac.EdgeProxy.Iptables.{
  Command, Family, Iptables, chain_of, delete_chain, edge, edge_output, flush, ipv4, ipv6, jump,
  output, prerouting,
}
use kiac.EdgeProxy.Node.{Config, Node, ProxyError, attempt, families}
use kiac.EdgeProxy.Hooks.{Method, cleanup, cleanup_family, delete_all}
use kiac.EdgeProxy.Hooks.Ends.{Suffices}
use kiac.EdgeProxy.Hooks.Cleanup.{cleanup_family_done}
use kiac.Base.Exec.{continue, for_each, ◌>>=◌}
use kiac.EdgeProxy.Hooks.Views.{copies, delete_all-ends, delete_all_done, view}

module _ (t : Iptables) (fuel : ℕ) where
  open t use {Kernel}

  returns_then :
      (m m' : Method t (Unit {0})) (n : Node Kernel)
      → (m n).0 ≡ ok tt
      → (m' (m n).1).0 ≡ ok tt
      → ((m >>= λ _. m') n).0 ≡ ok tt
  unfolding ◌>>=◌
  returns_then m m' n h k = go (m n) h k
    where
      go :
          (r : Result ProxyError (Unit {0}) × Node Kernel)
          → r.0 ≡ ok tt
          → (m' r.1).0 ≡ ok tt
          → (continue (λ _. m') r).0 ≡ ok tt
      go (ok a, l) p q = q
      go (err x, l) p q = absurd (cc)

  attempt_returns : (f : Family) (cmd : Command) (n : Node Kernel) → (attempt t f cmd n).0 ≡ ok tt
  unfolding attempt
  attempt_returns f cmd n = refl

  cleanup_family_returns :
      (f : Family) (n : Node Kernel) → Suffices t fuel n f → (cleanup_family t fuel f n).0 ≡ ok tt
  unfolding cleanup_family chain_of
  cleanup_family_returns f n s =
      let n1 = (delete_all t fuel f prerouting (jump edge) n).1 in
      let e1 = delete_all-ends t fuel f prerouting (jump edge) n s.0 in
      let same =
        delete_all_done t fuel f prerouting (jump edge) n n1 f output
          (ap (λ (r : Result ProxyError (Unit {0})). (r, n1)) e1) in
      let room : copies (jump edge_output) (view t n1 f output) < fuel =
        (let old = s.1 in ground arith) in
      returns_then _ _ n e1 (
        returns_then _ _ n1 (delete_all-ends t fuel f output (jump edge_output) n1 room) (
          returns_then _ _ _ (attempt_returns f (flush edge) _) (
            returns_then _ _ _ (attempt_returns f (delete_chain edge) _) (
              returns_then _ _ _ (attempt_returns f (flush edge_output) _)
                (attempt_returns f (delete_chain edge_output) _)))))

  -- `cleanup` ends without an error, if the fuel is more than the copies of the jumps that
  -- PREROUTING and OUTPUT have in each family.
  pub cleanup-ends :
      (c : Config) (n : Node Kernel)
      → Suffices t fuel n ipv4
      → Suffices t fuel n ipv6
      → (cleanup t c fuel n).0 ≡ ok tt
  unfolding cleanup families for_each
  cleanup-ends c n s4 s6 = go c.has_ip6
    where
      n1 : Node Kernel
      n1 = (cleanup_family t fuel ipv4 n).1

      first : (cleanup_family t fuel ipv4 n).0 ≡ ok tt
      first = cleanup_family_returns ipv4 n s4

      later : Suffices t fuel n1 ipv6
      later =
          let (p, q) =
            cleanup_family_done t fuel ipv4 n n1 ipv6
              (ap (λ (r : Result ProxyError (Unit {0})). (r, n1)) first) in
          ground arith

      go :
          (b : Bool)
          → (for_each (if b then ipv4 ∷ ipv6 ∷ [] else ipv4 ∷ []) (cleanup_family t fuel) n).0
            ≡ ok tt
      go true =
          returns_then _ _ n first (returns_then _ _ n1 (cleanup_family_returns ipv6 n1 later) refl)
      go false = returns_then _ _ n first refl
