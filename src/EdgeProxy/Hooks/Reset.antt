-- ===== src/EdgeProxy/Hooks/Reset.antt =====
-- What `reset_hook` leaves in PREROUTING and OUTPUT.
use kiac.Base.{
  if◌then◌else◌, without, ok, ℕ, ◌≡◌, Option, none, some, List, ◌∷◌, arith, nat_eq, bool_eq,
  text_eq, pair_eq, int_eq,
}
use kiac.Base.Exec.{>>=-eq-ok}
use kiac.EdgeProxy.Iptables.{
  Family, prerouting, output, edge, edge_output, Rule, rule_eq, jump, same_family, chain_of, effect,
  new_chain, insert, Iptables,
}
use kiac.EdgeProxy.Node.{Config, Node, ipt, attempt}
use kiac.EdgeProxy.Hooks.{reset_family, reset_hook, delete_all}
use kiac.EdgeProxy.Hooks.Families.{handled, families_done}
use kiac.EdgeProxy.Hooks.Views.{view, ipt_done, attempt-view, delete_all_done}

-- The jump once, in front, and the other rules as they were.
pub jump_first : Rule → Option (List Rule) → Option (List Rule)
jump_first r none = none
jump_first r (some rs) = some (r ∷ without r rs)

module _ (t : Iptables) where
  open t use {Kernel}

  pub reset_family_done :
      (fuel : ℕ) (f : Family) (n m : Node Kernel) (g : Family)
      → reset_family t fuel f n ≡ (ok tt, m)
      → (view t m g prerouting ≡ (
          if same_family f g
          then jump_first (jump edge) (view t n g prerouting)
          else view t n g prerouting))
        × (view t m g output ≡ (
            if same_family f g
            then jump_first (jump edge_output) (view t n g output)
            else view t n g output))
  unfolding reset_family jump_first chain_of effect
  reset_family_done fuel f n m g h =
      let (_, n1, e1, h1) = >>=-eq-ok (attempt t f (new_chain edge)) _ n h in
      let (_, n2, e2, h2) = >>=-eq-ok (attempt t f (new_chain edge_output)) _ n1 h1 in
      let (_, n3, e3, h3) = >>=-eq-ok (delete_all t fuel f prerouting (jump edge)) _ n2 h2 in
      let (_, n4, e4, h4) = >>=-eq-ok (delete_all t fuel f output (jump edge_output)) _ n3 h3 in
      let (_, n5, e5, h5) = >>=-eq-ok (ipt t f (insert prerouting (jump edge))) _ n4 h4 in
      (
        ground (
          arith,
          attempt-view t f (new_chain edge) n g prerouting e1,
          attempt-view t f (new_chain edge_output) n1 g prerouting e2,
          delete_all_done t fuel f prerouting (jump edge) n2 n3 g prerouting e3,
          delete_all_done t fuel f output (jump edge_output) n3 n4 g prerouting e4,
          ipt_done t f (insert prerouting (jump edge)) n4 g prerouting e5,
          ipt_done t f (insert output (jump edge_output)) n5 g prerouting h5,
        ),
        ground (
          arith,
          attempt-view t f (new_chain edge) n g output e1,
          attempt-view t f (new_chain edge_output) n1 g output e2,
          delete_all_done t fuel f prerouting (jump edge) n2 n3 g output e3,
          delete_all_done t fuel f output (jump edge_output) n3 n4 g output e4,
          ipt_done t f (insert prerouting (jump edge)) n4 g output e5,
          ipt_done t f (insert output (jump edge_output)) n5 g output h5,
        ),
      )

  -- After a `reset_hook` that succeeds, PREROUTING and OUTPUT of a family that is handled, where
  -- they are there, begin with the jump to the proxy's chain, have it once, and keep their other
  -- rules in order. A family that is not handled is as it was.
  pub reset_hook_done :
      (c : Config) (fuel : ℕ) (n m : Node Kernel) (g : Family)
      → reset_hook t c fuel n ≡ (ok tt, m)
      → (view t m g prerouting ≡ (
          if handled c g
          then jump_first (jump edge) (view t n g prerouting)
          else view t n g prerouting))
        × (view t m g output ≡ (
            if handled c g
            then jump_first (jump edge_output) (view t n g output)
            else view t n g output))
  unfolding reset_hook
  reset_hook_done c fuel n m g h = (
    families_done t (λ k f. view t k f prerouting) (jump_first (jump edge)) (reset_family t fuel)
        (λ f k l i e. (reset_family_done fuel f k l i e).0) c n m g h,
    families_done t (λ k f. view t k f output) (jump_first (jump edge_output)) (reset_family t fuel)
        (λ f k l i e. (reset_family_done fuel f k l i e).1) c n m g h,
  )
