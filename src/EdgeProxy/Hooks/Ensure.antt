-- ===== src/EdgeProxy/Hooks/Ensure.antt =====
-- What `ensureHook` leaves in PREROUTING and OUTPUT (cmd/kiac-edge-proxy/main.go).
use kiac.Base.{
  if◌then◌else◌, Bool-cases, elem, Result, ok, ◌≡◌, refl, sym, ap, inl, inr, Bool, true, false, not,
  ◌&&◌, Option, none, some, List, ◌∷◌, arith, nat_eq, bool_eq, text_eq, pair_eq, int_eq,
}
use kiac.Base.Exec.{>>=-eq-ok, pure}
use kiac.EdgeProxy.Iptables.{
  Family, Chain, prerouting, output, edge, edge_output, Rule, rule_eq, jump, same_family,
  same_chain, chain_of, effect, holds, new_chain, insert, check, Iptables,
}
use kiac.EdgeProxy.Node.{Config, Node, ipt, attempt, ipt_ok}
use kiac.EdgeProxy.Hooks.{ensure_jump, ensure_family, ensure_hook, ProxyError}
use kiac.EdgeProxy.Hooks.Families.{handled, families_done}
use kiac.EdgeProxy.Hooks.Views.{view, ipt_done, attempt-view, check_done, view_at}

-- The rule is put in front if it is not there.
pub with_rule : Rule → Option (List Rule) → Option (List Rule)
with_rule r none = none
with_rule r (some rs) = if elem r rs then some rs else some (r ∷ rs)

-- To ensure a rule twice is to ensure it once.
pub with_rule_idem :
    (r : Rule) (o : Option (List Rule)) → with_rule r (with_rule r o) ≡ with_rule r o
unfolding with_rule
with_rule_idem r none = refl
with_rule_idem r (some rs) = elim (Bool-cases (elem r rs)) [
  | inl there ↦ ground arith
  | inr new ↦ ground (arith, rule_eq.beq_iff r r)
]

insert_absent :
    (ch : Chain) (r : Rule) (o : Option (List Rule))
    → holds r o ≡ false
    → effect (insert ch r) o ≡ with_rule r o
unfolding with_rule effect
insert_absent ch r none h = refl
insert_absent ch r (some rs) h = rw h

with_rule_present : (r : Rule) (o : Option (List Rule)) → holds r o ≡ true → with_rule r o ≡ o
unfolding with_rule
with_rule_present r none h = refl
with_rule_present r (some rs) h = rw h

module _ (t : Iptables) where
  open t use {Kernel}

  insert_unless_done :
      (f : Family) (ch : Chain) (r : Rule) (b : Bool) (k m : Node Kernel) (g : Family) (c : Chain)
      → (if b then pure tt else ipt t f (insert ch r)) k ≡ (ok tt, m)
      → view t m g c ≡ (
          if not b && (same_family f g && same_chain ch c)
          then effect (insert ch r) (view t k g c)
          else view t k g c)
  unfolding chain_of
  insert_unless_done f ch r true k m g c h =
      ap (λ (p : Result ProxyError (Unit {0}) × Node Kernel). view t p.1 g c) (sym h)
  insert_unless_done f ch r false k m g c h = ipt_done t f (insert ch r) k g c h

  ensure_jump_done :
      (f : Family) (ch : Chain) (r : Rule) (n m : Node Kernel) (g : Family) (c : Chain)
      → ensure_jump t f ch r n ≡ (ok tt, m)
      → view t m g c
        ≡ (if same_family f g && same_chain ch c then with_rule r (view t n g c) else view t n g c)
  unfolding ensure_jump
  ensure_jump_done f ch r n m g c h =
      let (b, k, e, h') = >>=-eq-ok (ipt_ok t f (check ch r)) _ n h in
      let (same, kept) = check_done t f ch r n b k e in
      ground (
        arith,
        kept g c,
        insert_unless_done f ch r b k m g c h',
        view_at t f ch n g c,
        insert_absent ch r (view t n g c),
        with_rule_present r (view t n g c),
      )

  ensure_family_done :
      (f : Family) (n m : Node Kernel) (g : Family)
      → ensure_family t f n ≡ (ok tt, m)
      → (view t m g prerouting ≡ (
          if same_family f g
          then with_rule (jump edge) (view t n g prerouting)
          else view t n g prerouting))
        × (view t m g output ≡ (
            if same_family f g
            then with_rule (jump edge_output) (view t n g output)
            else view t n g output))
  unfolding ensure_family chain_of
  ensure_family_done f n m g h =
      let (_, n1, e1, h1) = >>=-eq-ok (attempt t f (new_chain edge)) _ n h in
      let (_, n2, e2, h2) = >>=-eq-ok (attempt t f (new_chain edge_output)) _ n1 h1 in
      let (_, n3, e3, h3) = >>=-eq-ok (ensure_jump t f prerouting (jump edge)) _ n2 h2 in
      (
        ground (
          arith,
          attempt-view t f (new_chain edge) n g prerouting e1,
          attempt-view t f (new_chain edge_output) n1 g prerouting e2,
          ensure_jump_done f prerouting (jump edge) n2 n3 g prerouting e3,
          ensure_jump_done f output (jump edge_output) n3 m g prerouting h3,
        ),
        ground (
          arith,
          attempt-view t f (new_chain edge) n g output e1,
          attempt-view t f (new_chain edge_output) n1 g output e2,
          ensure_jump_done f prerouting (jump edge) n2 n3 g output e3,
          ensure_jump_done f output (jump edge_output) n3 m g output h3,
        ),
      )

  -- After an `ensure_hook` that succeeds, PREROUTING and OUTPUT of a family that is handled, where
  -- they are there, are as before if they had the jump to the proxy's chain, and else have it in
  -- front. A family that is not handled is as it was.
  pub ensure_hook_done :
      (c : Config) (n m : Node Kernel) (g : Family)
      → ensure_hook t c n ≡ (ok tt, m)
      → (view t m g prerouting ≡ (
          if handled c g
          then with_rule (jump edge) (view t n g prerouting)
          else view t n g prerouting))
        × (view t m g output ≡ (
            if handled c g
            then with_rule (jump edge_output) (view t n g output)
            else view t n g output))
  unfolding ensure_hook
  ensure_hook_done c n m g h = (
    families_done t (λ k f. view t k f prerouting) (with_rule (jump edge)) (ensure_family t)
        (λ f k l i e. (ensure_family_done f k l i e).0) c n m g h,
    families_done t (λ k f. view t k f output) (with_rule (jump edge_output)) (ensure_family t)
        (λ f k l i e. (ensure_family_done f k l i e).1) c n m g h,
  )
