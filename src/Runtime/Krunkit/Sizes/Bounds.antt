-- ===== src/Runtime/Krunkit/Sizes/Bounds.antt =====
-- The ranges of sizes and windows.
use native.Mathlib.Nat.{mul-pos, mul-le-mul_left, mul-div-le, mul_comm}
use kiac.Base.{
  ltb, ◌==◌, if◌then◌else◌, Bool-cases, Text, All, Result, ok, ℤ, pos, negsuc, ℕ, ◌+◌, ◌-◌, ◌*◌,
  ◌/◌, ◌%◌, ◌^◌, ◌≤◌, ◌<◌, ◌≡◌, ◌⊎◌, inl, inr, Bool, true, false, ◌||◌, Option, none, some, [], ◌∷◌,
  arith, subst, text_beq,
}
use kiac.Runtime.Krunkit.Sizes.{
  scale, scaled, strip_unit, cap_window, Units, effective_gpu_memory, find_unit, parse_size_bytes,
  times, SizeError,
}
use kiac.Go.Strings.{to_upper, trim_space}
use kiac.Go.Strconv.{atoi}

-- A number between 1 and the greatest int64.
unfoldable pub IsSize : ℤ → Type 0
IsSize (pos n) = (0 < n) × (n < 2 ^ 63)
IsSize (negsuc n) = ⊥

-- A number that is small enough times the multiplier is no more than the greatest int64.
times-IsSize : (n m : ℕ) → 0 < n → 0 < m → n ≤ (2 ^ 63 - 1) / m → IsSize (times n m)
unfolding IsSize times
times-IsSize n m p q l =
    let some_size : 0 < m * n = mul-pos q p in
    let scaled_up : m * n ≤ m * ((2 ^ 63 - 1) / m) = mul-le-mul_left m l in
    let small : m * ((2 ^ 63 - 1) / m) ≤ 2 ^ 63 - 1 = mul-div-le (2 ^ 63 - 1) m in
    let same : m * n ≡ n * m = mul_comm m n in in_range (n * m) (omega arith) (omega arith)
  where
    in_range :
        (k : ℕ)
        → 0 < k
        → k < 2 ^ 63
        → IsSize (
            if ltb (k % 2 ^ 64) (2 ^ 63)
            then pos (k % 2 ^ 64)
            else negsuc (2 ^ 64 - k % 2 ^ 64 - 1))
    in_range k a b = ground arith

scaled-IsSize :
    (value : Text) (m : ℕ) (o : Option ℤ) (n : ℤ) → 0 < m → scaled value m o ≡ ok n → IsSize n
unfolding scaled
scaled-IsSize value m none n p h = absurd (cc)
scaled-IsSize value m (some (negsuc k)) n p h = absurd (cc)
scaled-IsSize value m (some (pos k)) n p h =
    elim (Bool-cases (k == 0 || ltb ((2 ^ 63 - 1) / m) k)) [
      | inl bad ↦ absurd (ground arith)
      | inr good ↦
          let result : ◌≡◌ {A = Result SizeError ℤ} (ok (times k m)) (ok n) = ground arith in
          let same : times k m ≡ n = cc in
          subst IsSize same (times-IsSize k m (ground arith) p (ground arith))
    ]

find_unit-positive :
    (units : Units) (s : Text)
    → All (λ (u : Text × ℕ). 0 < u.1) units
    → 0 < (strip_unit (find_unit units s) s).1
unfolding find_unit strip_unit
find_unit-positive [] s p = omega arith
find_unit-positive ((x, m) ∷ units) s p = ground (arith, find_unit-positive units s p.1)

-- A size that `parse_size_bytes` returns is between 1 and the greatest int64, if the default is and
-- the sizes of the table are positive: the product does not overflow.
pub parse_size_bytes-IsSize :
    (units : Units) (value : Text) (default_bytes n : ℤ)
    → All (λ (u : Text × ℕ). 0 < u.1) units
    → IsSize default_bytes
    → parse_size_bytes units value default_bytes ≡ ok n
    → IsSize n
unfolding parse_size_bytes scale
parse_size_bytes-IsSize units value default_bytes n p d h =
    go (text_beq (to_upper (trim_space value)) []) h
  where
    go :
        (b : Bool)
        → (let s = to_upper (trim_space value) in
            if b then ok default_bytes else scale value (strip_unit (find_unit units s) s))
          ≡ ok n
        → IsSize n
    go true e = let same : default_bytes ≡ n = cc in subst IsSize same d
    go false e =
        let s = to_upper (trim_space value) in
        scaled-IsSize value (strip_unit (find_unit units s) s).1
          (atoi (strip_unit (find_unit units s) s).0) n (find_unit-positive units s p) e

-- The window is none, or fits below 62 GiB beside the memory, it is no more than the memory of a
-- host that is known, and a memory below 61 GiB on such a host has one.
pub effective_gpu_memory_lem :
    (memory host : ℕ)
    → ((effective_gpu_memory memory (pos host) ≡ 0)
        ⊎ (memory + effective_gpu_memory memory (pos host) < 62 * 1024))
      × (0 < host → effective_gpu_memory memory (pos host) ≤ host)
      × (memory < 61 * 1024 → 0 < effective_gpu_memory memory (pos host))
unfolding effective_gpu_memory cap_window
effective_gpu_memory_lem memory host = ground arith
