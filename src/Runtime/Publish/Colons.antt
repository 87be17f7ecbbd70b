-- ===== src/Runtime/Publish/Colons.antt =====
-- Where the last colon and the last slash are found.
use kiac.Base.{
  ◌==◌, Text, All, ℕ, ◌≡◌, refl, ◌∙◌, Bool, true, false, not, ◌||◌, none, some, [], ◌∷◌, ◌++◌,
  append-nil, arith,
}
use kiac.Runtime.Publish.{colon_from, cut_colon, cut_last, forwards}
use kiac.Go.Strconv.RoundTrip.{IsDigits}
use kiac.Go.Strings.{has_byte, reverse, reverse_onto}
use kiac.Go.Strings.Laws.{reverse-append, reverse-reverse}

-- A byte that is no colon and no bracket.
unfoldable pub is_plain : ℕ → Bool
is_plain c = not (c == b':' || c == b'[' || c == b']')

abbrev pub IsPlain : Text → Type 0
IsPlain = All (λ c. is_plain c ≡ true)

pub IsDigits-IsPlain : (s : Text) → IsDigits s → IsPlain s
unfolding is_plain
IsDigits-IsPlain [] h = tt
IsDigits-IsPlain (c ∷ s) h = (ground arith, IsDigits-IsPlain s h.1)

colon_from-reverse_onto :
    (s behind t : Text)
    → IsPlain s
    → colon_from 0 behind (reverse_onto s t) ≡ colon_from 0 (s ++ behind) t
unfolding reverse_onto colon_from is_plain
colon_from-reverse_onto [] behind t h = refl
colon_from-reverse_onto (c ∷ s) behind t h =
    colon_from-reverse_onto s behind (c ∷ t) h.1 ∙ ground arith

-- The last colon is the one in front of plain bytes.
pub cut_colon-append : (left s : Text) → IsPlain s → cut_colon (left ++ b':' ∷ s) ≡ some (left, s)
unfolding cut_colon reverse_onto forwards colon_from
cut_colon-append left s h =
    rw (reverse-append left (b':' ∷ s))
      (rw (colon_from-reverse_onto s [] (b':' ∷ reverse left) h) (found left s))
  where
    found :
        (left s : Text) → forwards (colon_from 0 (s ++ []) (b':' ∷ reverse left)) ≡ some (left, s)
    found left s = rw (append-nil s) (rw (reverse-reverse left) refl)

pub cut_colon-none : (s : Text) → IsPlain s → cut_colon s ≡ none
unfolding cut_colon forwards colon_from
cut_colon-none s h = rw (colon_from-reverse_onto s [] [] h) refl

pub cut_last-none : (c : ℕ) (s : Text) → has_byte c s ≡ false → cut_last c s ≡ none
unfolding cut_last has_byte
cut_last-none c [] h = refl
cut_last-none c (x ∷ s) h = ground (arith, cut_last-none c s)

pub cut_last-append :
    (c : ℕ) (s t : Text) → has_byte c t ≡ false → cut_last c (s ++ c ∷ t) ≡ some (s, t)
unfolding cut_last has_byte
cut_last-append c [] t h = ground (arith, cut_last-none c t)
cut_last-append c (x ∷ s) t h = ground (arith, cut_last-append c s t)
