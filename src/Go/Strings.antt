-- ===== src/Go/Strings.antt =====
-- Go's package strings over ASCII texts: searches, cuts, splits, trims and changes of case.
pub mod Laws
use kiac.Base.{
  ◌==◌, between, if◌then◌else◌, Text, length, ℕ, zero, suc, ◌+◌, ◌-◌, Bool, true, false, ◌&&◌, ◌||◌,
  Option, none, some, List, [], ◌∷◌, ◌++◌, map,
}

-- `strings.IndexByte(s, c) >= 0`
unfoldable pub has_byte : ℕ → Text → Bool
has_byte c [] = false
has_byte c (x ∷ s) = x == c || has_byte c s

abbrev before {ℓ} : {A : Type ℓ} → ℕ → Option (Text × A) → Option (Text × A)
before x none = none
before x (some (s, t)) = some (x ∷ s, t)

-- `strings.Cut` at the first `c`; `none` if there is none.
unfoldable pub cut_byte : ℕ → Text → Option (Text × Text)
cut_byte c [] = none
cut_byte c (x ∷ s) = if x == c then some ([], s) else before x (cut_byte c s)

-- '\t', '\n', '\v', '\f', '\r' and ' '
unfoldable pub is_space : ℕ → Bool
is_space c = c == 32 || c == 9 || c == 10 || c == 11 || c == 12 || c == 13

abbrev emit : Text → List Text → List Text
emit [] fs = fs
emit (c ∷ s) fs = (c ∷ s) ∷ fs

-- `cur` holds the field that is being read.
fields_from : Text → Text → List Text
fields_from cur [] = emit cur []
fields_from cur (c ∷ s) = elim (is_space c) [
  | true ↦ emit cur (fields_from [] s)
  | false ↦ fields_from (cur ++ (c ∷ [])) s
]

unfoldable pub fields : Text → List Text
unfolding fields_from is_space
fields s = fields_from [] s

trim_left : Text → Text
trim_left [] = []
trim_left (c ∷ s) = elim (is_space c) [ true ↦ trim_left s | false ↦ c ∷ s ]

abbrev drop_space : ℕ → Text → Text
drop_space c [] = if is_space c then [] else c ∷ []
drop_space c (d ∷ s) = c ∷ d ∷ s

trim_right : Text → Text
trim_right [] = []
trim_right (c ∷ s) = drop_space c (trim_right s)

unfoldable pub trim_space : Text → Text
unfolding trim_left trim_right is_space
trim_space s = trim_right (trim_left s)

unfoldable pub has_prefix : Text → Text → Bool
has_prefix [] s = true
has_prefix (p ∷ ps) [] = false
has_prefix (p ∷ ps) (c ∷ s) = p == c && has_prefix ps s

-- one round of `strings.Split` at a single byte
abbrev split_step : Bool → ℕ → List Text → List Text
split_step true c parts = [] ∷ parts
split_step false c [] = (c ∷ []) ∷ []
split_step false c (p ∷ parts) = (c ∷ p) ∷ parts

-- `strings.Split(s, sep)` for a separator of one byte: never empty.
unfoldable pub split : Text → ℕ → List Text
split [] sep = [] ∷ []
split (c ∷ s) sep = split_step (c == sep) c (split s sep)

-- `strings.Join` with a separator of one byte.
unfoldable pub join : List Text → ℕ → Text
join [] sep = []
join (p ∷ []) sep = p
join (p ∷ q ∷ ps) sep = p ++ sep ∷ join (q ∷ ps) sep

abbrev pub upper_byte : ℕ → ℕ
upper_byte c = if between b'a' b'z' c then c - 32 else c

abbrev pub lower_byte : ℕ → ℕ
lower_byte c = if between b'A' b'Z' c then c + 32 else c

-- `strings.ToUpper` and `strings.ToLower`
unfoldable pub to_upper : Text → Text
to_upper s = map upper_byte s

unfoldable pub to_lower : Text → Text
to_lower s = map lower_byte s

-- `s` backwards, in front of `t`.
unfoldable pub reverse_onto : Text → Text → Text
reverse_onto [] t = t
reverse_onto (c ∷ s) t = reverse_onto s (c ∷ t)

abbrev pub reverse : Text → Text
reverse s = reverse_onto s []

-- `strings.HasSuffix(s, suffix)`
unfoldable pub has_suffix : Text → Text → Bool
has_suffix suffix s = has_prefix (reverse suffix) (reverse s)

-- `s[n:]`, and the empty text beyond the end
unfoldable pub drop : ℕ → Text → Text
drop zero s = s
drop (suc n) [] = []
drop (suc n) (c ∷ s) = drop n s

-- `strings.TrimPrefix` and `strings.TrimSuffix`
unfoldable pub trim_prefix : Text → Text → Text
trim_prefix prefix s = if has_prefix prefix s then drop (length prefix) s else s

unfoldable pub trim_suffix : Text → Text → Text
trim_suffix suffix s = if has_suffix suffix s then reverse (drop (length suffix) (reverse s)) else s

-- `strings.Contains(s, part)`
unfoldable pub contains : Text → Text → Bool
contains part [] = has_prefix part []
contains part (c ∷ s) = has_prefix part (c ∷ s) || contains part s

-- `strings.Count(s, c)` for one byte
unfoldable pub count_byte : ℕ → Text → ℕ
count_byte c [] = 0
count_byte c (x ∷ s) = if x == c then suc (count_byte c s) else count_byte c s
