-- ===== src/EdgeProxy/Hooks/Cleanup.antt =====
-- What `cleanup` leaves in PREROUTING and OUTPUT.
use kiac.Base.{if◌then◌else◌, ok, ℕ, ◌≡◌, arith}
use kiac.Base.Exec.{>>=-eq-ok}
use kiac.EdgeProxy.Node.{Config, Node, attempt}
use kiac.EdgeProxy.Iptables.{
  Family, Iptables, chain_of, delete_chain, edge, edge_output, effect, flush, jump, output,
  prerouting, same_family,
}
use kiac.EdgeProxy.Hooks.Views.{all_gone, attempt-view, delete_all_done, view}
use kiac.EdgeProxy.Hooks.{cleanup, cleanup_family, delete_all}
use kiac.EdgeProxy.Hooks.Families.{families_done, handled}

module _ (t : Iptables) where
  open t use {Kernel}

  pub cleanup_family_done :
      (fuel : ℕ) (f : Family) (n m : Node Kernel) (g : Family)
      → cleanup_family t fuel f n ≡ (ok tt, m)
      → (view t m g prerouting ≡ (
          if same_family f g
          then all_gone (jump edge) (view t n g prerouting)
          else view t n g prerouting))
        × (view t m g output ≡ (
            if same_family f g
            then all_gone (jump edge_output) (view t n g output)
            else view t n g output))
  unfolding cleanup_family chain_of effect
  cleanup_family_done fuel f n m g h =
      let (_, n1, e1, h1) = >>=-eq-ok (delete_all t fuel f prerouting (jump edge)) _ n h in
      let (_, n2, e2, h2) = >>=-eq-ok (delete_all t fuel f output (jump edge_output)) _ n1 h1 in
      let (_, n3, e3, h3) = >>=-eq-ok (attempt t f (flush edge)) _ n2 h2 in
      let (_, n4, e4, h4) = >>=-eq-ok (attempt t f (delete_chain edge)) _ n3 h3 in
      let (_, n5, e5, h5) = >>=-eq-ok (attempt t f (flush edge_output)) _ n4 h4 in
      (
        ground (
          arith,
          delete_all_done t fuel f prerouting (jump edge) n n1 g prerouting e1,
          delete_all_done t fuel f output (jump edge_output) n1 n2 g prerouting e2,
          attempt-view t f (flush edge) n2 g prerouting e3,
          attempt-view t f (delete_chain edge) n3 g prerouting e4,
          attempt-view t f (flush edge_output) n4 g prerouting e5,
          attempt-view t f (delete_chain edge_output) n5 g prerouting h5,
        ),
        ground (
          arith,
          delete_all_done t fuel f prerouting (jump edge) n n1 g output e1,
          delete_all_done t fuel f output (jump edge_output) n1 n2 g output e2,
          attempt-view t f (flush edge) n2 g output e3,
          attempt-view t f (delete_chain edge) n3 g output e4,
          attempt-view t f (flush edge_output) n4 g output e5,
          attempt-view t f (delete_chain edge_output) n5 g output h5,
        ),
      )

  -- After a `cleanup` that does not run out of fuel, PREROUTING and OUTPUT of a family that is
  -- handled have no jump to the proxy's chain and all of their other rules. A family that is not
  -- handled is as it was.
  pub cleanup_done :
      (c : Config) (fuel : ℕ) (n m : Node Kernel) (g : Family)
      → cleanup t c fuel n ≡ (ok tt, m)
      → (view t m g prerouting ≡ (
          if handled c g
          then all_gone (jump edge) (view t n g prerouting)
          else view t n g prerouting))
        × (view t m g output ≡ (
            if handled c g
            then all_gone (jump edge_output) (view t n g output)
            else view t n g output))
  unfolding cleanup
  cleanup_done c fuel n m g h = (
    families_done t (λ k f. view t k f prerouting) (all_gone (jump edge)) (cleanup_family t fuel)
        (λ f k l i e. (cleanup_family_done fuel f k l i e).0) c n m g h,
    families_done t (λ k f. view t k f output) (all_gone (jump edge_output)) (cleanup_family t fuel)
        (λ f k l i e. (cleanup_family_done fuel f k l i e).1) c n m g h,
  )
