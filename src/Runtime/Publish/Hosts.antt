-- ===== src/Runtime/Publish/Hosts.antt =====
-- Hosts and ports as they are printed and read again.
use kiac.Base.{
  Text, All-append, ok, pos, ℕ, ◌+◌, ◌≤◌, ◌≡◌, refl, ◌≢◌, true, false, some, [], ◌∷◌, ◌++◌, arith,
  text_beq, text_beq_iff,
}
use kiac.Runtime.Publish.{port_in_range, canonical_host, parse_host_ip, parse_port}
use kiac.Go.Strconv.RoundTrip.{IsDigits, atoi-itoa_pos, decimal-IsDigits, IsCons, decimal-IsCons}
use kiac.Go.Strings.Laws.{IsWord, trim_space_word, reverse-append, reverse-reverse}
use kiac.Go.Net.Format.{canonical_text}
use kiac.Go.Strings.{
  count_byte, has_byte, is_space, drop, has_prefix, has_suffix, reverse, reverse_onto,
}
use kiac.Go.Strconv.{itoa, decimal}

IsDigits-IsWord : (s : Text) → IsDigits s → IsWord s
unfolding is_space
IsDigits-IsWord [] h = tt
IsDigits-IsWord (c ∷ s) h = (ground arith, IsDigits-IsWord s h.1)

pub itoa-IsDigits : (n : ℕ) → IsDigits (itoa (pos n))
unfolding itoa
itoa-IsDigits n = decimal-IsDigits n

pub itoa-IsWord : (n : ℕ) → IsWord (itoa (pos n))
itoa-IsWord n = IsDigits-IsWord (itoa (pos n)) (itoa-IsDigits n)

pub itoa-filled : (n : ℕ) → text_beq (itoa (pos n)) [] ≡ false
unfolding itoa text_beq
itoa-filled n = go (decimal n) (decimal-IsCons n)
  where
    go : (s : Text) → IsCons s → text_beq s [] ≡ false
    go [] h = absurd h
    go (c ∷ s) h = refl

-- A port number that is printed is read again.
pub parse_port-itoa : (n : ℕ) → 1 ≤ n → n ≤ 65535 → parse_port (itoa (pos n)) ≡ ok n
unfolding parse_port port_in_range
parse_port-itoa n lo hi =
    rw (trim_space_word (itoa (pos n)) (itoa-IsWord n))
      (rw (atoi-itoa_pos n (omega arith)) (ground arith))

-- A host that can be printed: canonical, with no space, slash or bracket.
pub record IsHost (h : Text) : Type 0 where
  pub canonical : canonical_text h ≡ some h
  pub word : IsWord h
  pub filled : h ≢ []
  pub no_slash : has_byte b'/' h ≡ false
  pub no_open : has_byte b'[' h ≡ false
  pub no_close : has_byte b']' h ≡ false

count_byte-none : (c : ℕ) (s : Text) → has_byte c s ≡ false → count_byte c s ≡ 0
unfolding count_byte has_byte
count_byte-none c [] h = refl
count_byte-none c (x ∷ s) h = ground (arith, count_byte-none c s)

count_byte-append : (c : ℕ) (s t : Text) → count_byte c (s ++ t) ≡ count_byte c s + count_byte c t
unfolding count_byte
count_byte-append c [] t = omega arith
count_byte-append c (x ∷ s) t = ground (arith, count_byte-append c s t)

has_byte-reverse_onto :
    (c : ℕ) (s t : Text)
    → has_byte c s ≡ false
    → has_byte c t ≡ false
    → has_byte c (reverse_onto s t) ≡ false
unfolding has_byte reverse_onto
has_byte-reverse_onto c [] t hs ht = ht
has_byte-reverse_onto c (x ∷ s) t hs ht =
    has_byte-reverse_onto c s (x ∷ t) (ground arith) (ground arith)

has_prefix-none : (c : ℕ) (s : Text) → has_byte c s ≡ false → has_prefix (c ∷ []) s ≡ false
unfolding has_byte has_prefix
has_prefix-none c [] h = refl
has_prefix-none c (x ∷ s) h = ground arith

has_suffix-none : (c : ℕ) (s : Text) → has_byte c s ≡ false → has_suffix (c ∷ []) s ≡ false
unfolding has_suffix reverse_onto has_byte
has_suffix-none c s h = has_prefix-none c (reverse s) (has_byte-reverse_onto c s [] h refl)

pub not_nil : (h : Text) → h ≢ [] → text_beq h [] ≡ false
not_nil h n = ground (arith, text_beq_iff h [])

-- A host with no colon stands as it is.
pub parse_host_ip-plain : (h : Text) → IsHost h → has_byte b':' h ≡ false → parse_host_ip h ≡ ok h
unfolding parse_host_ip canonical_host
parse_host_ip-plain h p c = simp (
  trim_space_word h p.word,
  not_nil h p.filled,
  count_byte-none b'[' h p.no_open,
  count_byte-none b']' h p.no_close,
  has_prefix-none b'[' h p.no_open,
  has_suffix-none b']' h p.no_close,
  c,
  p.canonical,
)

bracketed : Text → Text
bracketed h = b'[' ∷ (h ++ b']' ∷ [])

bracketed-IsWord : (h : Text) → IsWord h → IsWord (bracketed h)
unfolding bracketed is_space
bracketed-IsWord h w = (refl, All-append (λ c. is_space c ≡ false) h (b']' ∷ []) w (refl, tt))

bracketed-reverse : (h : Text) → reverse (h ++ b']' ∷ []) ≡ b']' ∷ reverse h
unfolding reverse_onto
bracketed-reverse h = reverse-append h (b']' ∷ [])

bracketed-ends : (h : Text) → has_suffix (b']' ∷ []) (bracketed h) ≡ true
unfolding bracketed has_suffix has_prefix reverse_onto
bracketed-ends h = rw (reverse-append (b'[' ∷ h) (b']' ∷ [])) refl

bracketed-counts :
    (h : Text)
    → has_byte b'[' h ≡ false
    → has_byte b']' h ≡ false
    → (count_byte b'[' (bracketed h) ≡ 1) × (count_byte b']' (bracketed h) ≡ 1)
unfolding bracketed count_byte
bracketed-counts h o c = (
  rw (count_byte-append b'[' h (b']' ∷ [])) (rw (count_byte-none b'[' h o) refl),
  rw (count_byte-append b']' h (b']' ∷ [])) (rw (count_byte-none b']' h c) refl),
)

-- A host with a colon is in brackets.
pub parse_host_ip-brackets : (h : Text) → IsHost h → parse_host_ip (b'[' ∷ (h ++ b']' ∷ [])) ≡ ok h
unfolding parse_host_ip canonical_host bracketed drop has_prefix text_beq
parse_host_ip-brackets h p =
    let (a, b) = bracketed-counts h p.no_open p.no_close in
    simp (
      trim_space_word (bracketed h) (bracketed-IsWord h p.word),
      a,
      b,
      bracketed-ends h,
      bracketed-reverse h,
      reverse-reverse h,
      trim_space_word h p.word,
      not_nil h p.filled,
      p.canonical,
    )
