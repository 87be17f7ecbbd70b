-- ===== src/Go/Net/Ip/Shape.antt =====
-- The shape of the texts that `parse_ip` reads.
use kiac.Base.{
  ◌==◌, between, Option-cases, Text, length, All, ℕ, zero, suc, ◌+◌, ◌-◌, ◌*◌, ◌/◌, ◌%◌, ◌≡◌, refl,
  inl, inr, Bool, true, false, not, ◌||◌, Option, none, some, List, [], ◌∷◌, ◌++◌, arith,
}
use kiac.Go.Strings.{has_byte, is_space}
use kiac.Go.Strings.Laws.{IsWord}
use kiac.Go.Strconv.{is_digit}
use kiac.Go.Net.HostPort.{Unbracketed}
use kiac.Go.Net.Ip.{
  v4_fields, hex_value, HexRun, hex_run, Groups, embedded, after_group, parse_groups, finish_v6,
  parse_v6, parse_v4, parse_ip,
}

is_ip_char : ℕ → Bool
is_ip_char c = is_digit c || between b'a' b'f' c || between b'A' b'F' c || c == b':' || c == b'.'

abbrev IsIpText : Text → Type 0
IsIpText = All (λ c. is_ip_char c ≡ true)

v4_fields-IsIpText :
    (s : Text) (val len : ℕ) (done fs : List ℕ) → v4_fields s val len done ≡ some fs → IsIpText s
unfolding v4_fields is_ip_char
v4_fields-IsIpText [] val len done fs e = tt
v4_fields-IsIpText (c ∷ s) val len done fs e = ground (
  arith,
  v4_fields-IsIpText s (val * 10 + (c - b'0')) (len + 1) done fs,
  v4_fields-IsIpText s 0 0 (done ++ val ∷ []) fs,
)

-- The text that is left is a part of the text that was read.
hex_run-IsIpText :
    (s : Text) (acc off : ℕ) (r : HexRun)
    → hex_run s acc off ≡ some r
    → IsIpText r.rest
    → IsIpText s
unfolding hex_run hex_value is_ip_char
hex_run-IsIpText [] acc off r e h = tt
hex_run-IsIpText (c ∷ s) acc off r e h = ground (
  arith,
  hex_run-IsIpText s (acc * 16 + (c - b'0')) (off + 1) r,
  hex_run-IsIpText s (acc * 16 + (c - b'a' + 10)) (off + 1) r,
  hex_run-IsIpText s (acc * 16 + (c - b'A' + 10)) (off + 1) r,
)

after_group-IsIpText :
    (go : List ℕ → Option ℕ → Text → Option Groups) (g : Groups)
    → ((bs : List ℕ) (el : Option ℕ) (t : Text) → go bs el t ≡ some g → IsIpText t)
    → (bs : List ℕ) (el : Option ℕ) (s : Text) → g.rest ≡ []
    → after_group go bs el s ≡ some g
    → IsIpText s
unfolding after_group is_ip_char
after_group-IsIpText go g step bs el [] n e = tt
after_group-IsIpText go g step bs el (c ∷ []) n e = cc
after_group-IsIpText go g step bs el (c ∷ d ∷ []) n e = ground (arith, step bs el (d ∷ []))
after_group-IsIpText go g step bs el (c ∷ d ∷ x ∷ s) n e =
    ground (arith, step bs el (d ∷ x ∷ s), step bs (some (length bs)) (x ∷ s))

embedded-IsIpText :
    (bs : List ℕ) (el : Option ℕ) (s : Text) (g : Groups) → embedded bs el s ≡ some g → IsIpText s
unfolding embedded
embedded-IsIpText bs el s g e = elim (Option-cases (v4_fields s 0 0 [])) [
  | inl p ↦ ground arith
  | inr (fs, p) ↦ v4_fields-IsIpText s 0 0 [] fs p
]

parse_groups-IsIpText :
    (n : ℕ) (bs : List ℕ) (el : Option ℕ) (s : Text) (g : Groups)
    → g.rest ≡ []
    → parse_groups n bs el s ≡ some g
    → IsIpText s
unfolding parse_groups
parse_groups-IsIpText zero bs el s g n e = ground arith
parse_groups-IsIpText (suc k) bs el s g n e = elim (Option-cases (hex_run s 0 0)) [
  | inl p ↦ ground arith
  | inr (r, p) ↦
      let group : List ℕ = bs ++ (r.value / 256) ∷ (r.value % 256) ∷ [] in
      ground (
        arith,
        embedded-IsIpText bs el s g,
        hex_run-IsIpText s 0 0 r p,
        after_group-IsIpText (parse_groups k) g (λ b l t. parse_groups-IsIpText k b l t g n) group
            el r.rest n,
      )
]

length-zero : (s : Text) → not (length s == 0) ≡ false → s ≡ []
length-zero [] h = refl
length-zero (c ∷ s) h = ground arith

finish_v6-IsIpText :
    (el : Option ℕ) (s : Text) (ip : List ℕ)
    → finish_v6 (parse_groups 8 [] el s) ≡ some ip
    → IsIpText s
unfolding finish_v6
finish_v6-IsIpText el s ip e = elim (Option-cases (parse_groups 8 [] el s)) [
  | inl p ↦ ground arith
  | inr (g, p) ↦ parse_groups-IsIpText 8 [] el s g (ground (arith, length-zero g.rest)) p
]

parse_v6-IsIpText : (s : Text) (ip : List ℕ) → parse_v6 s ≡ some ip → IsIpText s
unfolding parse_v6 is_ip_char
parse_v6-IsIpText [] ip e = tt
parse_v6-IsIpText (c ∷ []) ip e = finish_v6-IsIpText none (c ∷ []) ip e
parse_v6-IsIpText (c ∷ d ∷ []) ip e = ground (arith, finish_v6-IsIpText none (c ∷ d ∷ []) ip)
parse_v6-IsIpText (c ∷ d ∷ x ∷ s) ip e =
    ground
      (arith, finish_v6-IsIpText none (c ∷ d ∷ x ∷ s) ip, finish_v6-IsIpText (some 0) (x ∷ s) ip)

parse_v4-IsIpText : (s : Text) (ip : List ℕ) → parse_v4 s ≡ some ip → IsIpText s
unfolding parse_v4
parse_v4-IsIpText s ip e = elim (Option-cases (v4_fields s 0 0 [])) [
  | inl p ↦ ground arith
  | inr (fs, p) ↦ v4_fields-IsIpText s 0 0 [] fs p
]

parse_ip-IsIpText : (s : Text) (ip : List ℕ) → parse_ip s ≡ some ip → IsIpText s
unfolding parse_ip
parse_ip-IsIpText s ip e = ground (arith, parse_v4-IsIpText s ip, parse_v6-IsIpText s ip)

-- Such texts have no bracket and no space.
IsIpText-Unbracketed : (s : Text) → IsIpText s → Unbracketed s
unfolding has_byte is_ip_char
IsIpText-Unbracketed [] h = (refl, refl)
IsIpText-Unbracketed (c ∷ s) h = ground (arith, IsIpText-Unbracketed s h.1)

IsIpText-IsWord : (s : Text) → IsIpText s → IsWord s
unfolding is_space is_ip_char
IsIpText-IsWord [] h = tt
IsIpText-IsWord (c ∷ s) h = (ground arith, IsIpText-IsWord s h.1)

pub parse_ip-Unbracketed : (s : Text) (ip : List ℕ) → parse_ip s ≡ some ip → Unbracketed s
parse_ip-Unbracketed s ip e = IsIpText-Unbracketed s (parse_ip-IsIpText s ip e)

pub parse_ip-IsWord : (s : Text) (ip : List ℕ) → parse_ip s ≡ some ip → IsWord s
parse_ip-IsWord s ip e = IsIpText-IsWord s (parse_ip-IsIpText s ip e)
