-- ===== src/EdgeProxy/Hooks/Ends.antt =====
-- The fuel of `resetHook` (cmd/kiac-edge-proxy/main.go).
use kiac.Base.{Bool-cases, ok, err, ℕ, ◌<◌, ◌≡◌, ◌≢◌, inl, inr, arith}
use kiac.Base.Exec.{>>=-eq-err, for_each}
use kiac.EdgeProxy.Iptables.{
  Family, ipv4, ipv6, prerouting, output, edge, edge_output, jump, chain_of, new_chain, insert,
  Iptables,
}
use kiac.EdgeProxy.Node.{Config, Node, out_of_fuel, families, ipt, attempt}
use kiac.EdgeProxy.Hooks.{delete_all, reset_family, reset_hook}
use kiac.EdgeProxy.Hooks.Reset.{reset_family_done}
use kiac.EdgeProxy.Hooks.Views.{
  view, copies, attempt_ok, attempt-view, delete_all-ne-out_of_fuel, delete_all_done,
  ipt-ne-out_of_fuel,
}

module _ (t : Iptables) (fuel : ℕ) where
  open t use {Kernel}

  -- The fuel is more than the copies of the jumps in a family.
  abbrev pub Suffices : Node Kernel → Family → Type 0
  Suffices n f =
      (copies (jump edge) (view t n f prerouting) < fuel)
      × (copies (jump edge_output) (view t n f output) < fuel)

  reset_family-ends :
      (f : Family) (n m : Node Kernel)
      → Suffices n f
      → reset_family t fuel f n ≢ (err out_of_fuel, m)
  unfolding reset_family chain_of
  reset_family-ends f n m s h = elim (>>=-eq-err (attempt t f (new_chain edge)) _ n h) [
    | inl e ↦ absurd (attempt_ok t f (new_chain edge) n e)
    | inr (_, n1, e1, h1) ↦ elim (>>=-eq-err (attempt t f (new_chain edge_output)) _ n1 h1) [
      | inl e ↦ absurd (attempt_ok t f (new_chain edge_output) n1 e)
      | inr (_, n2, e2, h2) ↦
          elim (>>=-eq-err (delete_all t fuel f prerouting (jump edge)) _ n2 h2) [
            | inl e ↦ absurd (
                delete_all-ne-out_of_fuel t fuel f prerouting (jump edge) n2 m
                  (ground (
                    arith,
                    s.0,
                    attempt-view t f (new_chain edge) n f prerouting e1,
                    attempt-view t f (new_chain edge_output) n1 f prerouting e2,
                  ))
                  e)
            | inr (_, n3, e3, h3) ↦
                elim (>>=-eq-err (delete_all t fuel f output (jump edge_output)) _ n3 h3) [
                  | inl e ↦ absurd (
                      delete_all-ne-out_of_fuel t fuel f output (jump edge_output) n3 m
                        (ground (
                          arith,
                          s.1,
                          attempt-view t f (new_chain edge) n f output e1,
                          attempt-view t f (new_chain edge_output) n1 f output e2,
                          delete_all_done t fuel f prerouting (jump edge) n2 n3 f output e3,
                        ))
                        e)
                  | inr (_, n4, e4, h4) ↦
                      elim (>>=-eq-err (ipt t f (insert prerouting (jump edge))) _ n4 h4) [
                        | inl e ↦
                            absurd (ipt-ne-out_of_fuel t f (insert prerouting (jump edge)) n4 e)
                        | inr (_, n5, e5, h5) ↦
                            absurd (ipt-ne-out_of_fuel t f (insert output (jump edge_output)) n5 h5)
                      ]
                ]
          ]
    ]
  ]

  second_family :
      (n k : Node Kernel)
      → reset_family t fuel ipv4 n ≡ (ok tt, k)
      → Suffices n ipv6
      → Suffices k ipv6
  second_family n k e s = let (p, q) = reset_family_done t fuel ipv4 n k ipv6 e in ground arith

  -- `reset_hook` does not run out of fuel, if the fuel is more than the copies of the jumps that
  -- PREROUTING and OUTPUT have in each family: its loops end.
  pub reset_hook-ends :
      (c : Config) (n m : Node Kernel)
      → Suffices n ipv4
      → Suffices n ipv6
      → reset_hook t c fuel n ≢ (err out_of_fuel, m)
  unfolding reset_hook families for_each
  reset_hook-ends c n m s4 s6 h = elim (Bool-cases c.has_ip6) [
    | inr only ↦ elim (>>=-eq-err (reset_family t fuel ipv4) _ n (rw only at h)) [
      | inl e ↦ absurd (reset_family-ends ipv4 n m s4 e)
      | inr (_, k, e, h1) ↦ absurd (cc)
    ]
    | inl both ↦ elim (>>=-eq-err (reset_family t fuel ipv4) _ n (rw both at h)) [
      | inl e ↦ absurd (reset_family-ends ipv4 n m s4 e)
      | inr (_, k, e, h1) ↦ elim (>>=-eq-err (reset_family t fuel ipv6) _ k h1) [
        | inl e1 ↦ absurd (reset_family-ends ipv6 k m (second_family n k e s6) e1)
        | inr (_, l, e1, h2) ↦ absurd (cc)
      ]
    ]
  ]
