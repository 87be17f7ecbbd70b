-- ===== src/Go/Strconv/RoundTrip.antt =====
-- `itoa` and `atoi`.
use kiac.Base.{
  ltb, Bool-cases, Text, All, pos, ℕ, zero, suc, ◌+◌, ◌/◌, ◌%◌, ◌^◌, ◌<◌, ◌≡◌, ◌∙◌, inl, inr, true,
  some, [], ◌∷◌, arith,
}
use kiac.Go.Strconv.{is_digit, decimal_from, decimal, itoa, value_from, atoi}

value_from-decimal_from :
    (f n : ℕ) (out : Text) → n < f → value_from 0 (decimal_from f n out) ≡ value_from n out
unfolding decimal_from value_from
value_from-decimal_from zero n out h = elim h [ ]
value_from-decimal_from (suc f) n out h = elim (Bool-cases (ltb n 10)) [
  | inl small ↦ ground arith
  | inr large ↦
      rw large
        (value_from-decimal_from f (n / 10) ((b'0' + n % 10) ∷ out) (ground arith) ∙ ground arith)
]

abbrev pub IsDigits : Text → Type 0
IsDigits = All (λ c. is_digit c ≡ true)

decimal_from-IsDigits : (f n : ℕ) (out : Text) → IsDigits out → IsDigits (decimal_from f n out)
unfolding decimal_from
decimal_from-IsDigits zero n out h = h
decimal_from-IsDigits (suc f) n out h =
    ground (arith, decimal_from-IsDigits f (n / 10) ((b'0' + n % 10) ∷ out))

-- A text that is not empty.
abbrev pub IsCons : Text → Type 0
IsCons [] = ⊥
IsCons (c ∷ s) = Unit

decimal_from-IsCons : (f n c : ℕ) (s : Text) → IsCons (decimal_from f n (c ∷ s))
unfolding decimal_from
decimal_from-IsCons zero n c s = tt
decimal_from-IsCons (suc f) n c s = elim (Bool-cases (ltb n 10)) [
  | inl small ↦ rw small tt
  | inr large ↦ rw large (decimal_from-IsCons f (n / 10) (b'0' + n % 10) (c ∷ s))
]

pub decimal-IsCons : (n : ℕ) → IsCons (decimal n)
unfolding decimal
decimal-IsCons n = elim (Bool-cases (ltb n 10)) [
  | inl small ↦ rw small tt
  | inr large ↦ rw large (decimal_from-IsCons n (n / 10) (b'0' + n % 10) [])
]

pub decimal-IsDigits : (n : ℕ) → IsDigits (decimal n)
unfolding decimal
decimal-IsDigits n = decimal_from-IsDigits (suc n) n [] tt

value_from-decimal : (n : ℕ) → value_from 0 (decimal n) ≡ some n
unfolding decimal value_from
value_from-decimal n = value_from-decimal_from (suc n) n [] (omega arith)

atoi_digits :
    (s : Text) (n : ℕ)
    → IsCons s
    → IsDigits s
    → value_from 0 s ≡ some n
    → n < 2 ^ 63
    → atoi s ≡ some (pos n)
unfolding atoi
atoi_digits [] n c d v h = absurd c
atoi_digits (x ∷ s) n c d v h = ground arith

-- A number of 63 bits is read back.
pub atoi-itoa_pos : (n : ℕ) → n < 2 ^ 63 → atoi (itoa (pos n)) ≡ some (pos n)
unfolding itoa
atoi-itoa_pos n h =
    atoi_digits (decimal n) n (decimal-IsCons n) (decimal-IsDigits n) (value_from-decimal n) h
