-- ===== src/GpuDriver/Health/Output.antt =====
-- What the watchdog keeps of a probe's output (internal/gpudriver/health.go).
use kiac.Base.{
  ltb, if◌then◌else◌, Text, length, ℕ, zero, suc, ◌-◌, ◌≤◌, ◌≡◌, refl, sym, ap, ◌∙◌, Bool, true,
  false, List, [], ◌∷◌, ◌++◌, append-nil, append_assoc, arith,
}
use kiac.GpuDriver.Health.{take, write_all, write_bounded}

pub take-length : (n : ℕ) (s : Text) → length (take n s) ≤ n
unfolding take
take-length zero s = omega arith
take-length (suc n) [] = omega arith
take-length (suc n) (c ∷ s) = ground (arith, take-length n s)

take_none : (s : Text) → take 0 s ≡ []
unfolding take
take_none s = refl

take-append : (n : ℕ) (s t : Text) → take n (s ++ t) ≡ take n s ++ take (n - length s) t
unfolding take
take-append zero s t = sym (ap (λ (k : ℕ). take k t) (zero_minus (length s)))
  where
    zero_minus : (k : ℕ) → 0 - k ≡ 0
    zero_minus k = omega arith
take-append (suc n) [] t = ap (λ (k : ℕ). take k t) (minus_zero (suc n))
  where
    minus_zero : (k : ℕ) → k ≡ k - 0
    minus_zero k = omega arith
take-append (suc n) (c ∷ s) t =
    ap (λ (r : Text). c ∷ r)
      (take-append n s t ∙ ap (λ (k : ℕ). take n s ++ take k t) (omega arith))

take_whole : (n : ℕ) (s : Text) → length s ≤ n → take n s ≡ s
unfolding take
take_whole zero [] h = refl
take_whole zero (c ∷ s) h = absurd (omega arith)
take_whole (suc n) [] h = refl
take_whole (suc n) (c ∷ s) h = ap (λ (r : Text). c ∷ r) (take_whole n s (omega arith))

pub join_all : List Text → Text
join_all [] = []
join_all (p ∷ ps) = p ++ join_all ps

-- One write adds the first bytes that there is room for.
write_bounded-take :
    (buffer p : Text) → length buffer ≤ 2048 → (write_bounded buffer p).1 ≡ take 2048 (buffer ++ p)
unfolding write_bounded
write_bounded-take buffer p h = go (ltb (length buffer) 2048) refl
  where
    kept : take 2048 (buffer ++ p) ≡ buffer ++ take (2048 - length buffer) p
    kept =
        take-append 2048 buffer p
        ∙ ap (λ (s : Text). s ++ take (2048 - length buffer) p) (take_whole 2048 buffer h)

    no_room : ltb (length buffer) 2048 ≡ false → 2048 - length buffer ≡ 0
    no_room e = ground arith

    go :
        (x : Bool)
        → ltb (length buffer) 2048 ≡ x
        → (if x then buffer ++ take (2048 - length buffer) p else buffer) ≡ take 2048 (buffer ++ p)
    go true e = sym kept
    go false e = sym (
        kept
        ∙ ap (λ (k : ℕ). buffer ++ take k p) (no_room e)
        ∙ ap (λ (s : Text). buffer ++ s) (take_none p)
        ∙ append-nil buffer)

take-take : (n : ℕ) (s t : Text) → take n (take n s ++ t) ≡ take n (s ++ t)
unfolding take
take-take zero s t = refl
take-take (suc n) [] t = refl
take-take (suc n) (c ∷ s) t = ap (λ (r : Text). c ∷ r) (take-take n s t)

-- After any writes the buffer of a probe's output has the first 2048 bytes of what it had and of
-- all that was written, if it had at most 2048.
pub write_all-take :
    (ps : List Text) (buffer : Text)
    → length buffer ≤ 2048
    → write_all ps buffer ≡ take 2048 (buffer ++ join_all ps)
unfolding write_all join_all
write_all-take [] buffer h = sym (ap (take 2048) (append-nil buffer) ∙ take_whole 2048 buffer h)
write_all-take (p ∷ ps) buffer h =
    ap (write_all ps) (write_bounded-take buffer p h)
    ∙ write_all-take ps (take 2048 (buffer ++ p)) (take-length 2048 (buffer ++ p))
    ∙ take-take 2048 (buffer ++ p) (join_all ps)
    ∙ ap (take 2048) (append_assoc buffer p (join_all ps))
