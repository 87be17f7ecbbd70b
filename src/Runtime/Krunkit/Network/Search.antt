-- ===== src/Runtime/Krunkit/Network/Search.antt =====
-- The search of `ensureNetwork` for a free subnet (pkg/runtime/krunkit_state.go).
use kiac.Base.{
  ◌==◌, Bool-cases, Text, elem, ℕ, zero, suc, ◌+◌, ◌-◌, ◌%◌, ◌≤◌, ◌<◌, ◌≡◌, inl, inr, true, false,
  none, some, List, arith, subst, nat_eq, bool_eq, text_eq, pair_eq, int_eq,
}
use kiac.Runtime.Krunkit.Network.{choose_from, choose_subnet, fnv32}

choose_from-free :
    (rounds offset first : ℕ) (used : List ℕ) (x : ℕ)
    → choose_from rounds offset first used ≡ some x
    → (elem x used ≡ false) × (105 ≤ x) × (x < 250)
unfolding choose_from
choose_from-free zero offset first used x h = absurd (cc)
choose_from-free (suc rounds) offset first used x h =
    elim (Bool-cases (elem (105 + ((first - 105) + offset) % 145) used)) [
      | inl taken ↦ choose_from-free rounds (offset + 1) first used x (ground arith)
      | inr free ↦
          let found : some (105 + ((first - 105) + offset) % 145) ≡ some x = ground arith in
          let same : 105 + ((first - 105) + offset) % 145 ≡ x = cc in
          (subst (λ (y : ℕ). elem y used ≡ false) same free, omega arith, omega arith)
    ]

-- A subnet that is chosen is free, and between 105 and 249.
pub choose_subnet-free :
    (id : Text) (used : List ℕ) (x : ℕ)
    → choose_subnet id used ≡ some x
    → (elem x used ≡ false) × (105 ≤ x) × (x < 250)
unfolding choose_subnet
choose_subnet-free id used x h = choose_from-free 145 0 (105 + fnv32 id % 145) used x h

choose_from-none :
    (rounds offset first : ℕ) (used : List ℕ)
    → choose_from rounds offset first used ≡ none
    → (k : ℕ) → offset ≤ k
    → k < offset + rounds
    → elem (105 + ((first - 105) + k) % 145) used ≡ true
unfolding choose_from
choose_from-none zero offset first used h k lo hi = absurd (omega arith)
choose_from-none (suc rounds) offset first used h k lo hi =
    elim (Bool-cases (elem (105 + ((first - 105) + offset) % 145) used)) [
      | inl taken ↦ elim (Bool-cases (k == offset)) [
        | inl here ↦ ground arith
        | inr later ↦
            choose_from-none rounds (offset + 1) first used (ground arith) k (ground arith)
              (omega arith)
      ]
      | inr free ↦ absurd (ground arith)
    ]

-- None is chosen only if all of the subnets are taken.
pub choose_subnet-none :
    (id : Text) (used : List ℕ)
    → choose_subnet id used ≡ none
    → (x : ℕ) → 105 ≤ x
    → x < 250
    → elem x used ≡ true
unfolding choose_subnet
choose_subnet-none id used h x lo hi =
    let first = fnv32 id % 145 in
    let k = ((x - 105) + (145 - first)) % 145 in
    let place : 105 + (((105 + first) - 105) + k) % 145 ≡ x = omega arith in
    subst (λ (y : ℕ). elem y used ≡ true) place
      (choose_from-none 145 0 (105 + first) used h k (omega arith) (omega arith))
