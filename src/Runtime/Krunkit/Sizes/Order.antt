-- ===== src/Runtime/Krunkit/Sizes/Order.antt =====
-- The order in which `parseSizeBytes` (pkg/runtime/krunkit_state.go) goes over its table.
use kiac.Base.{
  Bool-cases, Text, All, In, All-In, ℤ, ℕ, ◌≡◌, refl, sym, ◌↔◌, inl, inr, true, false, Option, none,
  some, [], ◌∷◌, ◌++◌, arith, subst,
}
use kiac.Runtime.Krunkit.Sizes.{Units, find_unit, parse_size_bytes, size_units}
use kiac.Go.Strings.{has_suffix, has_prefix, reverse, reverse_onto, to_upper, trim_space}

find_unit-In :
    (units : Units) (s : Text) (u : Text × ℕ)
    → find_unit units s ≡ some u
    → In u units × (has_suffix u.0 s ≡ true)
unfolding find_unit
find_unit-In [] s u h = absurd (cc)
find_unit-In ((x, n) ∷ units) s u h = elim (Bool-cases (has_suffix x s)) [
  | inl here ↦
      let same : (x, n) ≡ u = let e : some (x, n) ≡ some u = ground arith in cc in
      (inl (sym same), subst (λ (w : Text × ℕ). has_suffix w.0 s ≡ true) same here)
  | inr later ↦ let (i, p) = find_unit-In units s u (ground arith) in (inr i, p)
]

find_unit-none :
    (units : Units) (s : Text) (u : Text × ℕ)
    → find_unit units s ≡ none
    → In u units
    → has_suffix u.0 s ≡ false
unfolding find_unit
find_unit-none [] s u h i = absurd i
find_unit-none ((x, n) ∷ units) s u h (inl e) =
    subst (λ (w : Text × ℕ). has_suffix w.0 s ≡ false) (sym e) (ground arith)
find_unit-none ((x, n) ∷ units) s u h (inr i) = find_unit-none units s u (ground arith) i

has_prefix-split : (p r : Text) → has_prefix p r ≡ true → (t : Text) × (r ≡ p ++ t)
unfolding has_prefix
has_prefix-split [] r h = (r, refl)
has_prefix-split (c ∷ p) [] h = absurd (cc)
has_prefix-split (c ∷ p) (d ∷ r) h =
    let (t, e) = has_prefix-split p r (ground arith) in let same : c ≡ d = ground arith in (t, cc)

abbrev IsFirst : Text → Text × ℕ → Type 0
IsFirst s u = (t : Text) → reverse s ≡ reverse u.0 ++ t → find_unit size_units s ≡ some u

-- Each suffix of the table, once it fits, is the first one of the table that does.
size_units-IsFirst : (s : Text) → All (IsFirst s) size_units
unfolding find_unit has_suffix has_prefix reverse_onto
size_units-IsFirst s = (
  (λ t e. rw e refl),
  (
    (λ t e. rw e refl),
    (
      (λ t e. rw e refl),
      (
        (λ t e. rw e refl),
        (
          (λ t e. rw e refl),
          (
            (λ t e. rw e refl),
            (
              (λ t e. rw e refl),
              (
                (λ t e. rw e refl),
                (
                  (λ t e. rw e refl),
                  ((λ t e. rw e refl), ((λ t e. rw e refl), ((λ t e. rw e refl), tt))),
                ),
              ),
            ),
          ),
        ),
      ),
    ),
  ),
)

find_unit-size_units :
    (s : Text) (u : Text × ℕ)
    → In u size_units
    → has_suffix u.0 s ≡ true
    → find_unit size_units s ≡ some u
unfolding has_suffix
find_unit-size_units s u i h =
    let (t, e) = has_prefix-split (reverse u.0) (reverse s) h in
    All-In (IsFirst s) size_units u (size_units-IsFirst s) i t e

find_unit-order :
    (units : Units) (s : Text)
    → ((u : Text × ℕ) → In u units ↔ In u size_units)
    → find_unit units s ≡ find_unit size_units s
find_unit-order units s same = go (find_unit units s) refl
  where
    missing :
        (o : Option (Text × ℕ)) → find_unit units s ≡ none → find_unit size_units s ≡ o → none ≡ o
    missing none f h = refl
    missing (some u) f h =
        let (i, p) = find_unit-In size_units s u h in
        absurd (let q = find_unit-none units s u f ((same u).1 i) in cc)

    go : (o : Option (Text × ℕ)) → find_unit units s ≡ o → o ≡ find_unit size_units s
    go none f = missing (find_unit size_units s) f refl
    go (some u) f =
        let (i, p) = find_unit-In units s u f in sym (find_unit-size_units s u ((same u).0 i) p)

-- `parse_size_bytes` gives the same result for each order in which the table of suffixes can be
-- iterated: for any list of the same suffixes and sizes.
pub parse_size_bytes-order :
    (units : Units) (value : Text) (default_bytes : ℤ)
    → ((u : Text × ℕ) → In u units ↔ In u size_units)
    → parse_size_bytes units value default_bytes ≡ parse_size_bytes size_units value default_bytes
unfolding parse_size_bytes
parse_size_bytes-order units value default_bytes same =
    rw (find_unit-order units (to_upper (trim_space value)) same) refl
