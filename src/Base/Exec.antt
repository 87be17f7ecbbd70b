-- ===== src/Base/Exec.antt =====
-- Methods that change an object and may fail: what was written before a failure stays written.
use mathlib.Core.Path.{◌≡◌, refl}
use mathlib.Core.List.{List, [], ◌∷◌}
use mathlib.Core.Logic.{◌⊎◌, inl, inr}
use native.Mathlib.Omega.{arith}
use kiac.Base.Results.{Result, ok, err}

abbrev pub Exec : Type 0 → Type 0 → Type 0 → Type 0
Exec E S A = S → Result E A × S

module _ {E S A : Type 0} where
  abbrev pub pure : A → Exec E S A
  pure a s = (ok a, s)

  abbrev pub raise : E → Exec E S A
  raise e s = (err e, s)

module _ {E S : Type 0} where
  abbrev pub modify : (S → S) → Exec E S (Unit {0})
  modify f s = (ok tt, f s)

  abbrev pub gets : {A : Type 0} → (S → A) → Exec E S A
  gets f s = (ok (f s), s)

module _ {E S A B : Type 0} where
  abbrev pub continue : (A → Exec E S B) → Result E A × S → Result E B × S
  continue f (ok a, s) = f a s
  continue f (err e, s) = (err e, s)

  infixl 5 ◌>>=◌ ◌>>◌
  unfoldable pub ◌>>=◌ : Exec E S A → (A → Exec E S B) → Exec E S B
  ◌>>=◌ m f s = continue f (m s)

  abbrev pub ◌>>◌ : Exec E S A → Exec E S B → Exec E S B
  m >> n = m >>= λ _. n

  continue-eq-ok :
      (f : A → Exec E S B) (r : Result E A × S) {b : B} {u : S}
      → continue f r ≡ (ok b, u)
      → (a : A) × (t : S) × (r ≡ (ok a, t)) × (f a t ≡ (ok b, u))
  continue-eq-ok f (ok a, t) h = (a, t, refl, h)
  continue-eq-ok f (err e, t) h = absurd (cc)

  -- A block that succeeds is a first part that succeeds and a rest that does.
  pub >>=-eq-ok :
      (m : Exec E S A) (f : A → Exec E S B) (s : S) {b : B} {u : S}
      → (m >>= f) s ≡ (ok b, u)
      → (a : A) × (t : S) × (m s ≡ (ok a, t)) × (f a t ≡ (ok b, u))
  unfolding ◌>>=◌
  >>=-eq-ok m f s h = continue-eq-ok f (m s) h

module _ {E S A B : Type 0} where
  continue-eq-err :
      (f : A → Exec E S B) (r : Result E A × S) {e : E} {u : S}
      → continue f r ≡ (err e, u)
      → (r ≡ (err e, u)) ⊎ ((a : A) × (t : S) × (r ≡ (ok a, t)) × (f a t ≡ (err e, u)))
  continue-eq-err f (ok a, t) h = inr (a, t, refl, h)
  continue-eq-err f (err x, t) h = inl (ground arith)

  -- A block that fails does so in its first part or in the rest.
  pub >>=-eq-err :
      (m : Exec E S A) (f : A → Exec E S B) (s : S) {e : E} {u : S}
      → (m >>= f) s ≡ (err e, u)
      → (m s ≡ (err e, u)) ⊎ ((a : A) × (t : S) × (m s ≡ (ok a, t)) × (f a t ≡ (err e, u)))
  unfolding ◌>>=◌
  >>=-eq-err m f s h = continue-eq-err f (m s) h

module _ {E S A : Type 0} where
  -- `for _, a := range as { if err := body(a); err != nil { return err } }`
  unfoldable pub for_each : List A → (A → Exec E S (Unit {0})) → Exec E S (Unit {0})
  for_each [] body = pure tt
  for_each (a ∷ rest) body = do body a; for_each rest body
