-- ===== src/Base/Lists.antt =====
-- Lists measured by native numbers, membership by recursion, and searches.
use Prim.Native.Nat.{ℕ, suc, ◌+◌}
use mathlib.Core.Path.{◌≡◌, refl, sym, subst, ap}
use mathlib.Core.Logic.{◌⊎◌, inl, inr, ◌≢◌}
use mathlib.Core.Bool.{true, false, Bool, ◌||◌}
use mathlib.Core.List.{List, [], ◌∷◌, ◌++◌}
use native.Mathlib.Omega.{arith}
use kiac.Base.Tests.{if◌then◌else◌}
use kiac.Base.Equality.{Eq}

module _ {ℓ} {A : Type ℓ} where
  abbrev pub length : List A → ℕ
  length [] = 0
  length (x ∷ xs) = suc (length xs)

  abbrev pub All {κ} : (A → Type κ) → List A → Type κ
  All P [] = Unit
  All P (x ∷ xs) = P x × All P xs

  abbrev pub concat_map {κ} : {B : Type κ} → (A → List B) → List A → List B
  concat_map f [] = []
  concat_map f (x ∷ xs) = f x ++ concat_map f xs

-- `a` is an element, by cases.
abbrev pub In : {A : Type 0} → A → List A → Type 0
In a [] = ⊥
In a (x ∷ xs) = (a ≡ x) ⊎ In a xs

module _ {ℓ} {A : Type ℓ} where
  pub length-append : (xs ys : List A) → length (xs ++ ys) ≡ length xs + length ys
  length-append [] ys = omega arith
  length-append (x ∷ xs) ys = omega (arith, length-append xs ys)

  pub All-append {κ} : (P : A → Type κ) (xs ys : List A) → All P xs → All P ys → All P (xs ++ ys)
  All-append P [] ys hx hy = hy
  All-append P (x ∷ xs) ys hx hy = (hx.0, All-append P xs ys hx.1 hy)

module _ {A : Type 0} where
  pub In-append : (a : A) (xs ys : List A) → In a (xs ++ ys) → In a xs ⊎ In a ys
  In-append a [] ys h = inr h
  In-append a (x ∷ xs) ys (inl e) = inl (inl e)
  In-append a (x ∷ xs) ys (inr h) = elim (In-append a xs ys h) [
    | inl p ↦ inl (inr p)
    | inr q ↦ inr q
  ]

  pub In-append_left : (a : A) (xs ys : List A) → In a xs → In a (xs ++ ys)
  In-append_left a [] ys h = absurd h
  In-append_left a (x ∷ xs) ys (inl e) = inl e
  In-append_left a (x ∷ xs) ys (inr h) = inr (In-append_left a xs ys h)

  pub In-append_right : (a : A) (xs ys : List A) → In a ys → In a (xs ++ ys)
  In-append_right a [] ys h = h
  In-append_right a (x ∷ xs) ys h = inr (In-append_right a xs ys h)

  pub All-In {κ} : (P : A → Type κ) (xs : List A) (a : A) → All P xs → In a xs → P a
  All-In P [] a h i = absurd i
  All-In P (x ∷ xs) a h (inl e) = subst P (sym e) h.0
  All-In P (x ∷ xs) a h (inr i) = All-In P xs a h.1 i

module _ {ℓ} {A : Type ℓ} ⦃e : Eq A⦄ where
  abbrev pub elem : A → List A → Bool
  elem a [] = false
  elem a (x ∷ xs) = e.beq a x || elem a xs

  -- the number of copies
  abbrev pub count : A → List A → ℕ
  count a [] = 0
  count a (x ∷ xs) = if e.beq a x then suc (count a xs) else count a xs

  abbrev pub erase : A → List A → List A
  erase a [] = []
  erase a (x ∷ xs) = if e.beq a x then xs else x ∷ erase a xs

  abbrev pub without : A → List A → List A
  without a [] = []
  without a (x ∷ xs) = if e.beq a x then without a xs else x ∷ without a xs

module _ {A B : Type 0} (f : A → List B) where
  pub In-concat_map :
      (b : B) (xs : List A) → In b (concat_map f xs) → (a : A) × In a xs × In b (f a)
  In-concat_map b [] h = absurd h
  In-concat_map b (x ∷ xs) h = elim (In-append b (f x) (concat_map f xs) h) [
    | inl p ↦ (x, inl refl, p)
    | inr q ↦ let (a, i, j) = In-concat_map b xs q in (a, inr i, j)
  ]

  pub concat_map-In : (b : B) (xs : List A) (a : A) → In a xs → In b (f a) → In b (concat_map f xs)
  concat_map-In b [] a i j = absurd i
  concat_map-In b (x ∷ xs) a (inl e) j =
      In-append_left b (f x) (concat_map f xs) (subst (λ y. In b (f y)) e j)
  concat_map-In b (x ∷ xs) a (inr i) j =
      In-append_right b (f x) (concat_map f xs) (concat_map-In b xs a i j)

module _ {ℓ} {A : Type ℓ} ⦃e : Eq A⦄ (a : A) where
  pub count-erase : (xs : List A) → elem a xs ≡ true → count a xs ≡ suc (count a (erase a xs))
  count-erase [] h = absurd (cc h)
  count-erase (x ∷ xs) h = ground (arith, count-erase xs)

  pub count_absent : (xs : List A) → elem a xs ≡ false → count a xs ≡ 0
  count_absent [] h = refl
  count_absent (x ∷ xs) h = ground (arith, count_absent xs)

  pub without_absent : (xs : List A) → elem a xs ≡ false → without a xs ≡ xs
  without_absent [] h = refl
  without_absent (x ∷ xs) h = ground (arith, without_absent xs)

  pub without-erase : (xs : List A) → without a (erase a xs) ≡ without a xs
  without-erase [] = refl
  without-erase (x ∷ xs) = ground (arith, without-erase xs)

  pub count-without : (xs : List A) → count a (without a xs) ≡ 0
  count-without [] = refl
  count-without (x ∷ xs) = ground (arith, count-without xs)

module _ {A : Type 0} ⦃e : Eq A⦄ (a : A) where
  pub elem-In : (xs : List A) → elem a xs ≡ true → In a xs
  elem-In [] h = absurd (cc h)
  elem-In (x ∷ xs) h = ground (arith, elem-In xs, e.beq_iff a x)

  pub In-elem : (xs : List A) → In a xs → elem a xs ≡ true
  In-elem [] h = absurd h
  In-elem (x ∷ xs) h = ground (arith, In-elem xs, e.beq_iff a x)

length-suc : {A : Type 0} (x : A) (xs ys : List A) → ys ≢ x ∷ (xs ++ ys)
length-suc x xs ys e =
    let longer : length ys ≡ length (x ∷ (xs ++ ys)) = ap length e in
    absurd (omega (arith, length-append xs ys))

-- A common end can be taken off.
pub append_cancel : {A : Type 0} (xs ys end : List A) → xs ++ end ≡ ys ++ end → xs ≡ ys
append_cancel [] [] end e = refl
append_cancel [] (y ∷ ys) end e = absurd (length-suc y ys end e)
append_cancel (x ∷ xs) [] end e = absurd (length-suc x xs end (sym e))
append_cancel (x ∷ xs) (y ∷ ys) end e =
    let head : x ≡ y = cc in
    let tail : xs ++ end ≡ ys ++ end = cc in let rest = append_cancel xs ys end tail in cc
