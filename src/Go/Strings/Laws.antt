-- ===== src/Go/Strings/Laws.antt =====
-- Laws of the searches and of `fields`.
use kiac.Base.{
  Option-cases, Text, All, ℕ, ◌≡◌, refl, ◌∙◌, ◌≢◌, inl, inr, true, false, some, [], ◌∷◌, ◌++◌,
  append-nil, append_assoc, arith,
}
use kiac.Go.Strings.{
  has_byte, cut_byte, is_space, fields_from, fields, split, trim_right, trim_left, reverse,
  reverse_onto, trim_space,
}

pub has_byte-append :
    (c : ℕ) (s t : Text) → has_byte c s ≡ false → has_byte c t ≡ false → has_byte c (s ++ t) ≡ false
unfolding has_byte
has_byte-append c [] t hs ht = ht
has_byte-append c (x ∷ s) t hs ht = ground (arith, has_byte-append c s t)

-- The first separator is found behind a part that has none.
pub cut_byte-append :
    (c : ℕ) (s t : Text) → has_byte c s ≡ false → cut_byte c (s ++ c ∷ t) ≡ some (s, t)
unfolding has_byte cut_byte
cut_byte-append c [] t h = ground arith
cut_byte-append c (x ∷ s) t h = ground (arith, cut_byte-append c s t)

abbrev pub IsWord : Text → Type 0
IsWord = All (λ c. is_space c ≡ false)

fields_from-word :
    (cur s rest : Text) → IsWord s → fields_from cur (s ++ rest) ≡ fields_from (cur ++ s) rest
unfolding fields_from
fields_from-word cur [] rest h = simp append-nil
fields_from-word cur (c ∷ s) rest h =
    rw (h.0, fields_from) (simp append_assoc at (fields_from-word (cur ++ (c ∷ [])) s rest h.1))

-- A word in front of a space is the first field.
pub fields-word :
    (w rest : Text) (c : ℕ)
    → w ≢ []
    → IsWord w
    → is_space c ≡ true
    → fields (w ++ c ∷ rest) ≡ w ∷ fields rest
unfolding fields
fields-word [] rest c n h sp = absurd (n refl)
fields-word (x ∷ w) rest c n h sp =
    rw (fields_from-word [] (x ∷ w) (c ∷ rest) h) (rw (sp, fields_from))

pub fields-nil : fields [] ≡ []
unfolding fields
fields-nil = refl

-- A part that has no separator is split off in front of one.
pub split-append :
    (s t : Text) (sep : ℕ) → has_byte sep s ≡ false → split (s ++ sep ∷ t) sep ≡ s ∷ split t sep
unfolding has_byte split
split-append [] t sep h = ground arith
split-append (c ∷ s) t sep h = ground (arith, split-append s t sep)

pub split_whole : (s : Text) (sep : ℕ) → has_byte sep s ≡ false → split s sep ≡ s ∷ []
unfolding has_byte split
split_whole [] sep h = refl
split_whole (c ∷ s) sep h = ground (arith, split_whole s sep)

-- A cut is the first step of a split.
pub split-cut_byte :
    (s : Text) (sep : ℕ) (a m : Text) → cut_byte sep s ≡ some (a, m) → split s sep ≡ a ∷ split m sep
unfolding cut_byte split
split-cut_byte [] sep a m h = absurd (cc)
split-cut_byte (x ∷ s) sep a m h = elim (Option-cases (cut_byte sep s)) [
  | inl p ↦ ground arith
  | inr ((b, n), p) ↦ ground (arith, split-cut_byte s sep b n p)
]

trim_left_word : (s : Text) → IsWord s → trim_left s ≡ s
unfolding trim_left
trim_left_word [] h = refl
trim_left_word (c ∷ s) h = rw (h.0, trim_left) refl

trim_right_word : (s : Text) → IsWord s → trim_right s ≡ s
unfolding trim_right
trim_right_word [] h = refl
trim_right_word (c ∷ []) h = rw h.0 refl
trim_right_word (c ∷ d ∷ s) h = rw (trim_right_word (d ∷ s) h.1) refl

-- A text with no space is not trimmed.
pub trim_space_word : (s : Text) → IsWord s → trim_space s ≡ s
unfolding trim_space
trim_space_word s h = rw (trim_left_word s h) (trim_right_word s h)

reverse_onto-append : (a b t : Text) → reverse_onto (a ++ b) t ≡ reverse_onto b (reverse_onto a t)
unfolding reverse_onto
reverse_onto-append [] b t = refl
reverse_onto-append (c ∷ a) b t = reverse_onto-append a b (c ∷ t)

pub reverse-append : (a b : Text) → reverse (a ++ b) ≡ reverse_onto b (reverse a)
reverse-append a b = reverse_onto-append a b []

reverse_onto-reverse_onto :
    (s t u : Text) → reverse_onto (reverse_onto s t) u ≡ reverse_onto t (s ++ u)
unfolding reverse_onto
reverse_onto-reverse_onto [] t u = refl
reverse_onto-reverse_onto (c ∷ s) t u = reverse_onto-reverse_onto s (c ∷ t) u

pub reverse-reverse : (s : Text) → reverse (reverse s) ≡ s
unfolding reverse_onto
reverse-reverse s = reverse_onto-reverse_onto s [] [] ∙ append-nil s
