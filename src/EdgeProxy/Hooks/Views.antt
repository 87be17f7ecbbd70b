-- ===== src/EdgeProxy/Hooks/Views.antt =====
-- What one command does to the chains that the rest of the node sees.
use kiac.Base.{
  if◌then◌else◌, Bool-cases, count, without, Result, ok, err, ℕ, zero, suc, ◌<◌, ◌≡◌, refl, sym, ap,
  ◌≢◌, ◌⊎◌, inl, inr, Bool, true, false, ◌&&◌, Option, none, some, List, arith, count-erase,
  without_absent, without-erase, nat_eq, bool_eq, text_eq, pair_eq, int_eq,
}
use kiac.EdgeProxy.Iptables.{
  Family, Chain, Rule, Command, rule_eq, same_family, same_chain, chain_of, effect, holds, delete,
  check, Iptables, same_family-eq, same_chain-eq,
}
use kiac.EdgeProxy.Node.{Node, ProxyError, iptables_failed, ipt, attempt, ipt_ok}
use kiac.EdgeProxy.Hooks.{delete_all, out_of_fuel}

-- The copies of a rule in a chain.
abbrev pub copies : Rule → Option (List Rule) → ℕ
copies r none = 0
copies r (some rs) = count r rs

abbrev pub all_gone : Rule → Option (List Rule) → Option (List Rule)
all_gone r none = none
all_gone r (some rs) = some (without r rs)

module _ (t : Iptables) where
  open t use {Kernel}

  abbrev pub view : Node Kernel → Family → Chain → Option (List Rule)
  view n g ch = t.rules n.kernel g ch

  -- The chains of the node that a method returned.
  pub view_returned :
      (g : Family) (ch : Chain) {p q : Result ProxyError (Unit {0}) × Node Kernel}
      → p ≡ q
      → view q.1 g ch ≡ view p.1 g ch
  view_returned g ch e = ap (λ r. view r.1 g ch) (sym e)

  -- The chain that a command of the family names.
  abbrev pub named : Family → Command → Family → Chain → Bool
  named f cmd g ch = same_family f g && same_chain (chain_of cmd) ch

  module _ (f : Family) (cmd : Command) (n : Node Kernel) (g : Family) (ch : Chain) where
    -- A command that succeeds has its effect, and no other.
    pub ipt_done :
        {m : Node Kernel}
        → ipt t f cmd n ≡ (ok tt, m)
        → view m g ch ≡ (if named f cmd g ch then effect cmd (view n g ch) else view n g ch)
    unfolding ipt
    ipt_done e = ground (arith, t.rules-run f cmd n.kernel g ch)

    pub ipt_refused :
        {x : ProxyError} {m : Node Kernel} → ipt t f cmd n ≡ (err x, m) → view m g ch ≡ view n g ch
    unfolding ipt
    ipt_refused e = ground (arith, t.rules-run f cmd n.kernel g ch)

    -- A command whose error is dropped has its effect or none.
    pub attempt-view :
        {m : Node Kernel}
        → attempt t f cmd n ≡ (ok tt, m)
        → (view m g ch ≡ view n g ch)
          ⊎ ((named f cmd g ch ≡ true) × (view m g ch ≡ effect cmd (view n g ch)))
    unfolding attempt
    attempt-view e = ground (arith, t.rules-run f cmd n.kernel g ch)

  pub ipt-ne-out_of_fuel :
      (f : Family) (cmd : Command) (n : Node Kernel) {m : Node Kernel}
      → ipt t f cmd n ≢ (err out_of_fuel, m)
  unfolding ipt
  ipt-ne-out_of_fuel f cmd n e = ground arith

  pub attempt_ok :
      (f : Family) (cmd : Command) (n : Node Kernel) {x : ProxyError} {m : Node Kernel}
      → attempt t f cmd n ≢ (err x, m)
  unfolding attempt
  attempt_ok f cmd n e = cc

  -- `-C` tells whether the chain has the rule, and changes nothing.
  pub check_done :
      (f : Family) (ch : Chain) (r : Rule) (n : Node Kernel) (b : Bool) (m : Node Kernel)
      → ipt_ok t f (check ch r) n ≡ (ok b, m)
      → (b ≡ holds r (view n f ch)) × ((g : Family) (c : Chain) → view m g c ≡ view n g c)
  unfolding ipt_ok effect
  check_done f ch r n b m e = (
    ground (arith, t.run-check f ch r n.kernel),
    λ g c. ground (arith, t.rules-run f (check ch r) n.kernel g c),
  )

  delete_outcome :
      (f : Family) (ch : Chain) (r : Rule) (n : Node Kernel)
      → ((holds r (view n f ch) ≡ true) × ((ipt t f (delete ch r) n).0 ≡ ok tt))
        ⊎ ((x : ProxyError) × (holds r (view n f ch) ≡ false)
            × ((ipt t f (delete ch r) n).0 ≡ err x))
  unfolding ipt
  delete_outcome f ch r n = elim (Bool-cases (holds r (view n f ch))) [
    | inl there ↦ inl (there, ground (arith, t.run-delete f ch r n.kernel))
    | inr gone ↦
        inr (iptables_failed f (delete ch r), gone, ground (arith, t.run-delete f ch r n.kernel))
  ]

  pub view_at :
      (f : Family) (ch : Chain) (n : Node Kernel) (g : Family) (c : Chain)
      → same_family f g ≡ true
      → same_chain ch c ≡ true
      → view n g c ≡ view n f ch
  view_at f ch n g c p q = cc (same_family-eq f g p, same_chain-eq ch c q)

  all_gone-delete :
      (ch : Chain) (r : Rule) (o : Option (List Rule))
      → all_gone r (effect (delete ch r) o) ≡ all_gone r o
  unfolding effect
  all_gone-delete ch r none = refl
  all_gone-delete ch r (some rs) = ap some (without-erase r rs)

  all_gone_absent : (r : Rule) (o : Option (List Rule)) → holds r o ≡ false → all_gone r o ≡ o
  all_gone_absent r none h = refl
  all_gone_absent r (some rs) h = ap some (without_absent r rs h)

  copies-delete :
      (ch : Chain) (r : Rule) (o : Option (List Rule))
      → holds r o ≡ true
      → copies r o ≡ suc (copies r (effect (delete ch r) o))
  unfolding effect
  copies-delete ch r none h = absurd (cc)
  copies-delete ch r (some rs) h = count-erase r rs h

  -- Each round deletes a copy; the loop succeeds once there is none, and no other rule is lost.
  pub delete_all_done :
      (fuel : ℕ) (f : Family) (ch : Chain) (r : Rule) (n m : Node Kernel) (g : Family) (c : Chain)
      → delete_all t fuel f ch r n ≡ (ok tt, m)
      → view m g c
        ≡ (if same_family f g && same_chain ch c then all_gone r (view n g c) else view n g c)
  unfolding delete_all chain_of
  delete_all_done zero f ch r n m g c h = absurd (cc)
  delete_all_done (suc fuel) f ch r n m g c h =
      let n' = (ipt t f (delete ch r) n).1 in
      elim (delete_outcome f ch r n) [
        | inl (there, e) ↦ ground (
          arith,
          ipt_done f (delete ch r) n g c {m = n'} (ap (λ x. (x, n')) e),
          delete_all_done fuel f ch r n' m g c (rw e at h),
          all_gone-delete ch r (view n g c),
        )
        | inr (x, gone, e) ↦ ground (
          arith,
          ipt_refused f (delete ch r) n g c {x = x} {m = n'} (ap (λ y. (y, n')) e),
          ap (λ (p : Result ProxyError (Unit {0}) × Node Kernel). view p.1 g c) (rw e at h),
          view_at f ch n g c,
          all_gone_absent r (view n f ch) gone,
        )
      ]

  -- With more fuel than copies the loop ends by itself.
  pub delete_all-ends :
      (fuel : ℕ) (f : Family) (ch : Chain) (r : Rule) (n : Node Kernel)
      → copies r (view n f ch) < fuel
      → (delete_all t fuel f ch r n).0 ≡ ok tt
  unfolding delete_all chain_of
  delete_all-ends zero f ch r n h = elim h [ ]
  delete_all-ends (suc fuel) f ch r n h =
      let n' = (ipt t f (delete ch r) n).1 in
      elim (delete_outcome f ch r n) [
        | inl (there, e) ↦ rw e (
            delete_all-ends fuel f ch r n' (
              ground (
                arith,
                ipt_done f (delete ch r) n f ch {m = n'} (ap (λ x. (x, n')) e),
                copies-delete ch r (view n f ch) there,
              )))
        | inr (x, gone, e) ↦ rw e refl
      ]

  pub delete_all-ne-out_of_fuel :
      (fuel : ℕ) (f : Family) (ch : Chain) (r : Rule) (n m : Node Kernel)
      → copies r (view n f ch) < fuel
      → delete_all t fuel f ch r n ≢ (err out_of_fuel, m)
  delete_all-ne-out_of_fuel fuel f ch r n m h e = cc (
    delete_all-ends fuel f ch r n h,
    ap (λ (p : Result ProxyError (Unit {0}) × Node Kernel). p.0) e,
  )
