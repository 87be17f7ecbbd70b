-- ===== src/Go/Strconv.antt =====
-- Go's package strconv: Itoa and Atoi.
pub mod RoundTrip
use kiac.Base.{
  ltb, leb, ◌==◌, between, if◌then◌else◌, Text, ℤ, pos, negsuc, ℕ, zero, suc, ◌+◌, ◌-◌, ◌*◌, ◌/◌,
  ◌%◌, ◌^◌, Bool, Option, none, some, [], ◌∷◌,
}

abbrev pub is_digit : ℕ → Bool
is_digit = between b'0' b'9'

-- The digits of `n` in front of `out`; the fuel `n + 1` is enough, since n / 10 < n.
decimal_from : ℕ → ℕ → Text → Text
decimal_from zero n out = out
decimal_from (suc f) n out =
    let rest = decimal_from f (n / 10) ((b'0' + n % 10) ∷ out) in
    if ltb n 10 then (b'0' + n) ∷ out else rest

pub decimal : ℕ → Text
unfolding decimal_from
decimal n = decimal_from (suc n) n []

unfoldable pub itoa : ℤ → Text
unfolding decimal
itoa (pos n) = decimal n
itoa (negsuc n) = b'-' ∷ decimal (suc n)

-- The value of a text of digits behind the number `acc`.
unfoldable pub value_from : ℕ → Text → Option ℕ
value_from acc [] = some acc
value_from acc (c ∷ s) = if is_digit c then value_from (acc * 10 + (c - b'0')) s else none

magnitude : Text → Option ℕ
unfolding value_from
magnitude [] = none
magnitude (c ∷ s) = value_from 0 (c ∷ s)

abbrev negate : ℕ → ℤ
negate zero = pos 0
negate (suc n) = negsuc n

-- A magnitude out of the range of int64 is an error.
abbrev positive : Option ℕ → Option ℤ
positive none = none
positive (some n) = if ltb n (2 ^ 63) then some (pos n) else none

abbrev negative : Option ℕ → Option ℤ
negative none = none
negative (some n) = if leb n (2 ^ 63) then some (negate n) else none

unfoldable pub atoi : Text → Option ℤ
unfolding magnitude
atoi [] = none
atoi (c ∷ s) =
    if c == b'-'
    then negative (magnitude s)
    else if c == b'+'
    then positive (magnitude s)
    else positive (magnitude (c ∷ s))
