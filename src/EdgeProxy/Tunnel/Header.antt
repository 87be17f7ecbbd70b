-- ===== src/EdgeProxy/Tunnel/Header.antt =====
-- The header of the tunnel, written and read back, and the tokens that are taken.
use kiac.Base.{
  Text, length, In, ok, ℤ, pos, ℕ, ◌≤◌, ◌<◌, ◌≡◌, refl, sym, ap, ◌∙◌, ◌≢◌, ◌↔◌, inl, inr, true,
  false, Option, none, some, List, [], ◌∷◌, ◌++◌, arith, subst, text_beq_iff,
}
use kiac.Go.Strings.Laws.{IsWord, fields-nil, fields-word}
use kiac.EdgeProxy.Tunnel.{
  authenticate_tunnel_header, has_blank, read_tunnel_token, tunnel_header, valid_backend_target,
  valid_parts, token_of_file, authenticate_fields, valid_number, checked_token, tunnel_protocol,
}
use kiac.Go.Strconv.{itoa, decimal, is_digit}
use kiac.Go.Net.{join_host_port, split_host_port}
use kiac.Go.Net.Ip.{parse_ip}
use kiac.Go.Strconv.RoundTrip.{atoi-itoa_pos, decimal-IsDigits, IsDigits}
use kiac.Go.Strings.{has_byte, trim_space, is_space}
use kiac.Go.Net.Ip.Shape.{parse_ip-Unbracketed}
use kiac.Go.Net.HostPort.{split_host_port-join_host_port}
use kiac.EdgeProxy.Examples.{token}

abbrev pub InPortRange : ℤ → Type 0
InPortRange p = (n : ℕ) × (p ≡ pos n) × (0 < n) × (n ≤ 65535)

-- No digit is among the bytes that a host or port must not have.
digits-no_byte : (c : ℕ) (s : Text) → is_digit c ≡ false → IsDigits s → has_byte c s ≡ false
unfolding has_byte
digits-no_byte c [] h d = refl
digits-no_byte c (x ∷ s) h d = ground (arith, digits-no_byte c s h d.1)

pub digits-IsWord : (s : Text) → IsDigits s → IsWord s
unfolding is_space
digits-IsWord [] d = tt
digits-IsWord (x ∷ s) d = (ground arith, digits-IsWord s d.1)

pub itoa_pos-IsWord : (n : ℕ) → IsWord (itoa (pos n))
unfolding itoa
itoa_pos-IsWord n = digits-IsWord (decimal n) (decimal-IsDigits n)

target_parts :
    (addr : Text) (ip : List ℕ) (n : ℕ)
    → parse_ip addr ≡ some ip
    → split_host_port (join_host_port addr (itoa (pos n))) ≡ some (addr, itoa (pos n))
unfolding itoa
target_parts addr ip n h =
    split_host_port-join_host_port addr (decimal n) (parse_ip-Unbracketed addr ip h)
      (
        digits-no_byte b'[' (decimal n) refl (decimal-IsDigits n),
        digits-no_byte b']' (decimal n) refl (decimal-IsDigits n),
      )
      (digits-no_byte b':' (decimal n) refl (decimal-IsDigits n))

-- The address of an endpoint is taken as the target of a tunnel.
pub target-valid :
    (addr : Text) (ip : List ℕ) (p : ℤ)
    → parse_ip addr ≡ some ip
    → InPortRange p
    → valid_backend_target (join_host_port addr (itoa p)) ≡ true
unfolding valid_backend_target valid_parts valid_number
target-valid addr ip p h (n, e, lo, hi) =
    ground (arith, target_parts addr ip n h, atoi-itoa_pos n (omega arith))

-- No space, tab, carriage return or newline.
abbrev pub NoBlank : Text → Type 0
NoBlank s = (c : ℕ) → In c s → (c ≢ 32) × (c ≢ 9) × (c ≢ 13) × (c ≢ 10)

has_byte-false : (c x : ℕ) (s : Text) → has_byte c s ≡ false → In x s → x ≢ c
unfolding has_byte
has_byte-false c x [] h i = absurd i
has_byte-false c x (y ∷ s) h (inl e) = ground arith
has_byte-false c x (y ∷ s) h (inr i) = has_byte-false c x s (ground arith) i

has_byte-without : (c : ℕ) (s : Text) → ((x : ℕ) → In x s → x ≢ c) → has_byte c s ≡ false
unfolding has_byte
has_byte-without c [] h = refl
has_byte-without c (y ∷ s) h =
    let first : y ≢ c = h y (inl refl) in
    let rest = has_byte-without c s (λ x i. h x (inr i)) in ground arith

has_blank-NoBlank : (s : Text) → has_blank s ≡ false → NoBlank s
unfolding has_blank
has_blank-NoBlank s h c i = (
  has_byte-false 32 c s (ground arith) i,
  has_byte-false 9 c s (ground arith) i,
  has_byte-false 13 c s (ground arith) i,
  has_byte-false 10 c s (ground arith) i,
)

NoBlank-has_blank : (s : Text) → NoBlank s → has_blank s ≡ false
unfolding has_blank
NoBlank-has_blank s n =
    let a = has_byte-without 32 s (λ x i. (n x i).0) in
    let b = has_byte-without 9 s (λ x i. (n x i).1) in
    let c = has_byte-without 13 s (λ x i. (n x i).2) in
    let d = has_byte-without 10 s (λ x i. (n x i).3) in ground arith

-- The token of a file: its text without the spaces around it, long enough and in one word.
abbrev pub IsTokenOf : Option Text → Text → Type 0
IsTokenOf file token =
    (raw : Text) × (file ≡ some raw)
    × (token ≡ trim_space raw)
    × (32 ≤ length token)
    × NoBlank token

token_of_file_iff :
    (file : Option Text) (token : Text) → (token_of_file file ≡ ok token) ↔ IsTokenOf file token
unfolding token_of_file checked_token
token_of_file_iff none token = (λ h. absurd (cc), λ (raw, e, _, _, _). absurd (cc))
token_of_file_iff (some raw) token = (taken, given)
  where
    taken : token_of_file (some raw) ≡ ok token → IsTokenOf (some raw) token
    taken h =
        let blank : has_blank (trim_space raw) ≡ false = ground arith in
        let long : 32 ≤ length (trim_space raw) = ground arith in
        let same : trim_space raw ≡ token = ground arith in
        (
          raw,
          refl,
          sym same,
          subst (λ (t : Text). 32 ≤ length t) same long,
          subst NoBlank same (has_blank-NoBlank (trim_space raw) blank),
        )

    given : IsTokenOf (some raw) token → token_of_file (some raw) ≡ ok token
    given (r, e, t, l, n) =
        let here : raw ≡ r = cc in
        let same : token ≡ trim_space raw = t ∙ ap trim_space (sym here) in
        let blank = subst (λ (x : Text). has_blank x ≡ false) same (NoBlank-has_blank token n) in
        let long = subst (λ (x : Text). 32 ≤ length x) same l in ground arith

-- `read_tunnel_token` returns a token exactly if a path is given, the file there can be read, and
-- the token is its text without the spaces around it, of at least 32 bytes and with no space, tab,
-- carriage return or newline in it.
pub read_tunnel_token-ok :
    (files : Text → Option Text) (path token : Text)
    → (read_tunnel_token files path ≡ ok token) ↔ ((path ≢ []) × IsTokenOf (files path) token)
unfolding read_tunnel_token
read_tunnel_token-ok files [] token = (λ h. absurd (cc), λ (e, _). absurd (e refl))
read_tunnel_token-ok files (c ∷ path) token =
    let (taken, given) = token_of_file_iff (files (c ∷ path)) token in
    (λ h. ((λ e. absurd (cc)), taken h), λ (_, t). given t)

protocol-IsWord : IsWord tunnel_protocol
unfolding is_space
protocol-IsWord = (refl, (refl, (refl, (refl, (refl, (refl, (refl, (refl, (refl, (refl, tt))))))))))

protocol-IsCons : tunnel_protocol ≢ []
protocol-IsCons e = absurd (cc)

-- A header is read back by a node that has the same token.
pub authenticate-tunnel_header :
    (token goal : Text)
    → token ≢ []
    → IsWord token
    → goal ≢ []
    → IsWord goal
    → valid_backend_target goal ≡ true
    → authenticate_tunnel_header (tunnel_header token goal) token ≡ some goal
unfolding authenticate_tunnel_header authenticate_fields tunnel_header is_space
authenticate-tunnel_header token goal tn tw gn gw v = ground (
  arith,
  fields-word tunnel_protocol (token ++ b' ' ∷ (goal ++ 10 ∷ [])) b' ' protocol-IsCons
      protocol-IsWord refl,
  fields-word token (goal ++ 10 ∷ []) b' ' tn tw refl,
  fields-word goal [] 10 gn gw refl,
  fields-nil,
  text_beq_iff tunnel_protocol tunnel_protocol,
  text_beq_iff token token,
)
