-- ===== src/Go/Net/Ip.antt =====
-- Go's net.ParseIP and IP.To4, over ASCII texts. An address is its list of 16 bytes.
pub mod Shape
use kiac.Base.{
  ltb, ◌==◌, between, if◌then◌else◌, is_some, Text, length, ℕ, zero, suc, ◌+◌, ◌-◌, ◌*◌, ◌/◌, ◌%◌,
  Bool, true, false, not, ◌&&◌, ◌||◌, Option, none, some, List, [], ◌∷◌, ◌++◌,
}
use kiac.Go.Strconv.{is_digit}

-- `val` is the octet being read, of `len` digits; `done` the octets before it.
v4_fields : Text → ℕ → ℕ → List ℕ → Option (List ℕ)
v4_fields [] val len done =
    if len == 0 || not (length done == 3) then none else some (done ++ val ∷ [])
v4_fields (c ∷ s) val len done =
    let v = val * 10 + (c - b'0') in
    let digit = if len == 1 && val == 0 || ltb 255 v then none else v4_fields s v (len + 1) done in
    let dot = if len == 0 || length done == 3 then none else v4_fields s 0 0 (done ++ val ∷ []) in
    if is_digit c then digit else if c == b'.' then dot else none

hex_value : ℕ → Option ℕ
hex_value c =
    if is_digit c
    then some (c - b'0')
    else if between b'a' b'f' c
    then some (c - b'a' + 10)
    else if between b'A' b'F' c
    then some (c - b'A' + 10)
    else none

-- The value and the number of the hexadecimal digits read, and the rest.
pub record HexRun : Type 0 where
  pub value : ℕ
  pub digits : ℕ
  pub rest : Text

hex_run : Text → ℕ → ℕ → Option HexRun
hex_run [] acc off = some (record { value = acc; digits = off; rest = [] })
hex_run (c ∷ s) acc off = elim (hex_value c) [
  | none ↦ some (record { value = acc; digits = off; rest = c ∷ s })
  | some v ↦ elim (ltb 3 off) [ true ↦ none | false ↦ hex_run s (acc * 16 + v) (off + 1) ]
]

-- The bytes read, the place of the `::`, and the text that is left.
pub record Groups : Type 0 where
  pub bytes : List ℕ
  pub ellipsis : Option ℕ
  pub rest : Text

-- An IPv4 address in place of the last two groups.
embedded : List ℕ → Option ℕ → Text → Option Groups
embedded bytes ellipsis s =
    if not (is_some ellipsis) && not (length bytes == 12) || ltb 12 (length bytes)
    then none
    else elim (v4_fields s 0 0 []) [
      | none ↦ none
      | some fs ↦ some (record { bytes = bytes ++ fs; ellipsis = ellipsis; rest = [] })
    ]

-- What follows a group, `go` being the rest of the loop.
after_group : (List ℕ → Option ℕ → Text → Option Groups) → List ℕ → Option ℕ → Text → Option Groups
after_group go bytes ellipsis [] = some (record { bytes = bytes; ellipsis = ellipsis; rest = [] })
after_group go bytes ellipsis (c ∷ []) = none
after_group go bytes ellipsis (c ∷ d ∷ s) =
    let second : Option Groups = elim s [
      | [] ↦ some (record { bytes = bytes; ellipsis = some (length bytes); rest = [] })
      | e ∷ t ↦ go bytes (some (length bytes)) (e ∷ t)
    ] in
    let next = go bytes ellipsis (d ∷ s) in
    if not (c == b':')
    then none
    else if d == b':'
    then (if is_some ellipsis then none else second)
    else next

abbrev starts_with_dot : Text → Bool
starts_with_dot [] = false
starts_with_dot (c ∷ s) = c == b'.'

-- The first argument counts the groups that may still come: eight at the start.
parse_groups : ℕ → List ℕ → Option ℕ → Text → Option Groups
parse_groups zero bytes ellipsis s = some (record { bytes = bytes; ellipsis = ellipsis; rest = s })
parse_groups (suc n) bytes ellipsis s = elim (hex_run s 0 0) [
  | none ↦ none
  | some r ↦
      let group = bytes ++ (r.value / 256) ∷ (r.value % 256) ∷ [] in
      let dotted = embedded bytes ellipsis s in
      let more = after_group (parse_groups n) group ellipsis r.rest in
      if r.digits == 0 then none else if starts_with_dot r.rest then dotted else more
]

abbrev zeros : ℕ → List ℕ
zeros zero = []
zeros (suc n) = 0 ∷ zeros n

-- `n` zeros at place `i`
spread : ℕ → ℕ → List ℕ → List ℕ
spread zero n bs = zeros n ++ bs
spread (suc i) n [] = zeros n
spread (suc i) n (b ∷ bs) = b ∷ spread i n bs

-- The whole text must be used, and `::` must stand for a group at least.
expand : Groups → Option (List ℕ)
unfolding spread
expand g =
    let n = length g.bytes in
    if not (length g.rest == 0) then none else elim g.ellipsis [
      | none ↦ if n == 16 then some g.bytes else none
      | some i ↦ if n == 16 then none else some (spread i (16 - n) g.bytes)
    ]

finish_v6 : Option Groups → Option (List ℕ)
unfolding expand
finish_v6 none = none
finish_v6 (some g) = expand g

parse_v6 : Text → Option (List ℕ)
unfolding v4_fields hex_value hex_run embedded after_group parse_groups finish_v6
parse_v6 (c ∷ d ∷ s) =
    let from_start : Option (List ℕ) = elim s [
      | [] ↦ some (zeros 16)
      | e ∷ t ↦ finish_v6 (parse_groups 8 [] (some 0) (e ∷ t))
    ] in
    let plain = finish_v6 (parse_groups 8 [] none (c ∷ d ∷ s)) in
    if c == b':' && d == b':' then from_start else plain
parse_v6 s = finish_v6 (parse_groups 8 [] none s)

-- An IPv4 address in its 16 byte form.
abbrev pub mapped : List ℕ → List ℕ
mapped fs = zeros 10 ++ (255 ∷ 255 ∷ fs)

parse_v4 : Text → Option (List ℕ)
unfolding v4_fields
parse_v4 s = elim (v4_fields s 0 0 []) [ none ↦ none | some fs ↦ some (mapped fs) ]

pub data Kind : Type 0 where
  v4 v6 neither : Kind

-- The first of '.', ':' and '%' decides.
unfoldable pub kind : Text → Kind
kind [] = neither
kind (c ∷ s) =
    if c == b'.' then v4 else if c == b':' then v6 else if c == b'%' then neither else kind s

-- net.ParseIP: an address with a zone is none.
unfoldable pub parse_ip : Text → Option (List ℕ)
unfolding kind parse_v4 parse_v6
parse_ip s = elim (kind s) [ v4 ↦ parse_v4 s | v6 ↦ parse_v6 s | neither ↦ none ]

abbrev leading : ℕ → List ℕ → Bool
leading zero (b ∷ c ∷ bs) = b == 255 && c == 255
leading (suc n) (b ∷ bs) = b == 0 && leading n bs
leading _ _ = false

-- `ip.To4() != nil`: ten zeros and two bytes 255 in front.
unfoldable pub is_v4 : List ℕ → Bool
is_v4 bs = leading 10 bs
