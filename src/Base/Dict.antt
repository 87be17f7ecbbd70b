-- ===== src/Base/Dict.antt =====
-- Association lists: for Go's maps that the program does not iterate over, and for directories by the
-- names of what is in them.
use mathlib.Core.Path.{◌≡◌, refl}
use mathlib.Core.Bool.{Bool, true, false}
use mathlib.Core.Option.{Option, none, some}
use mathlib.Core.List.{List, [], ◌∷◌}
use mathlib.Core.Logic.{◌⊎◌, inl, inr}
use native.Mathlib.Omega.{arith}
use kiac.Base.Tests.{if◌then◌else◌}
use kiac.Base.Equality.{Eq}
use kiac.Base.Lists.{In}

abbrev pub Dict {ℓ κ} : Type ℓ → Type κ → Type (ℓ ⊔ κ)
Dict K V = List (K × V)

module _ {ℓ κ} {K : Type ℓ} {V : Type κ} ⦃e : Eq K⦄ where
  unfoldable pub get : K → Dict K V → Option V
  get k [] = none
  get k ((j, v) ∷ m) = if e.beq j k then some v else get k m

  unfoldable pub put : K → V → Dict K V → Dict K V
  put k v [] = (k, v) ∷ []
  put k v ((j, w) ∷ m) = if e.beq j k then (k, v) ∷ m else (j, w) ∷ put k v m

  -- `delete(m, k)`
  unfoldable pub remove : K → Dict K V → Dict K V
  remove k [] = []
  remove k ((j, v) ∷ m) = if e.beq j k then remove k m else (j, v) ∷ remove k m

  -- `m[k]` with the zero value of a missing key.
  unfoldable pub get_or : K → V → Dict K V → V
  get_or k zero_value [] = zero_value
  get_or k zero_value ((j, v) ∷ m) = if e.beq j k then v else get_or k zero_value m

  pub get-put :
      (k j : K) (v : V) (m : Dict K V) → get j (put k v m) ≡ (if e.beq k j then some v else get j m)
  unfolding get put
  get-put k j v [] = refl
  get-put k j v ((i, w) ∷ m) =
      ground (arith, e.beq_iff k j, e.beq_iff i k, e.beq_iff i j, get-put k j v m)

  pub get-remove :
      (k j : K) (m : Dict K V) → get j (remove k m) ≡ (if e.beq k j then none else get j m)
  unfolding get remove
  get-remove k j [] = ground arith
  get-remove k j ((i, w) ∷ m) =
      ground (arith, e.beq_iff k j, e.beq_iff i k, e.beq_iff i j, get-remove k j m)

  -- An entry of the map after `m[k] = v` is the new one, or was there.
  pub get-put_cases :
      (k j : K) (v r : V) (m : Dict K V)
      → get j (put k v m) ≡ some r
      → ((j ≡ k) × (r ≡ v)) ⊎ (get j m ≡ some r)
  get-put_cases k j v r m h = ground (arith, get-put k j v m, e.beq_iff k j)

  pub get_or-put :
      (k j : K) (v z : V) (m : Dict K V)
      → get_or j z (put k v m) ≡ (if e.beq k j then v else get_or j z m)
  unfolding get_or put
  get_or-put k j v z [] = refl
  get_or-put k j v z ((i, w) ∷ m) =
      ground (arith, e.beq_iff k j, e.beq_iff i k, e.beq_iff i j, get_or-put k j v z m)

  pub get_or_cases :
      (k : K) (z : V) (m : Dict K V) → (get k m ≡ some (get_or k z m)) ⊎ (get_or k z m ≡ z)
  unfolding get get_or
  get_or_cases k z [] = inr refl
  get_or_cases k z ((j, v) ∷ m) = go (e.beq j k) (get_or_cases k z m)
    where
      go :
          (b : Bool)
          → (get k m ≡ some (get_or k z m)) ⊎ (get_or k z m ≡ z)
          → ((if b then some v else get k m) ≡ some (if b then v else get_or k z m))
            ⊎ ((if b then v else get_or k z m) ≡ z)
      go true q = inl refl
      go false q = q

-- What is found under a key is an entry.
pub get-In :
    {K V : Type 0} ⦃e : Eq K⦄ (k : K) (v : V) (m : Dict K V) → get k m ≡ some v → In (k, v) m
unfolding get
get-In k v [] h = absurd (cc)
get-In ⦃e⦄ k v ((j, w) ∷ m) h = go (e.beq j k) (e.beq_iff j k).0 (get-In k v m) h
  where
    go :
        (b : Bool)
        → (b ≡ true → j ≡ k)
        → (get k m ≡ some v → In (k, v) m)
        → (if b then some w else get k m) ≡ some v
        → In (k, v) ((j, w) ∷ m)
    go true same rec h = inl (let s = same refl in let t : w ≡ v = cc in cc)
    go false same rec h = inr (rec h)

pub beq_self {ℓ} : {K : Type ℓ} ⦃e : Eq K⦄ (k : K) → e.beq k k ≡ true
beq_self ⦃e⦄ k = (e.beq_iff k k).1 refl

pub ruleset dict_laws = (get-put, get_or-put)
