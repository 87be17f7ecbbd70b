-- ===== src/Go/Net/Format.antt =====
-- Go's netip.ParseAddr(s), then Unmap() and String(), over ASCII texts.
use kiac.Base.{
  ltb, ◌==◌, if◌then◌else◌, Text, text, pos, ℕ, zero, suc, ◌+◌, ◌-◌, ◌*◌, ◌/◌, ◌%◌, ◌&&◌, Option,
  none, some, List, [], ◌∷◌, ◌++◌,
}
use kiac.Go.Net.Cidr.{Addr, parse_addr}
use kiac.Go.Strings.{cut_byte}
use kiac.Go.Net.Ip.{is_v4, kind, neither, v4, v6}
use kiac.Go.Strconv.{itoa}

hex_digit : ℕ → ℕ
hex_digit n = if ltb n 10 then b'0' + n else b'a' + (n - 10)

-- A group of 16 bits with no leading zero.
hex_group : ℕ → Text
unfolding hex_digit
hex_group n =
    let last = hex_digit (n % 16) ∷ [] in
    let third = hex_digit (n / 16 % 16) ∷ last in
    let second = hex_digit (n / 256 % 16) ∷ third in
    if ltb n 16
    then last
    else if ltb n 256
    then third
    else if ltb n 4096
    then second
    else hex_digit (n / 4096) ∷ second

groups_of : List ℕ → List ℕ
groups_of [] = []
groups_of (a ∷ []) = []
groups_of (a ∷ b ∷ bs) = (a * 256 + b) ∷ groups_of bs

leading_zeros : List ℕ → ℕ
leading_zeros [] = 0
leading_zeros (g ∷ gs) = if g == 0 then suc (leading_zeros gs) else 0

-- The start and the length of the longest run of two zeros or more, the first one of its length.
longest_run : ℕ → ℕ × ℕ → List ℕ → ℕ × ℕ
unfolding leading_zeros
longest_run i (start_at, len) [] = (start_at, len)
longest_run i (start_at, len) (g ∷ gs) =
    let n = leading_zeros (g ∷ gs) in
    longest_run (i + 1) (if ltb 1 n && ltb len n then (i, n) else (start_at, len)) gs

colons : List ℕ → Text
unfolding hex_group
colons [] = []
colons (g ∷ []) = hex_group g
colons (g ∷ h ∷ gs) = hex_group g ++ b':' ∷ colons (h ∷ gs)

first_groups : ℕ → List ℕ → List ℕ
first_groups zero gs = []
first_groups (suc n) [] = []
first_groups (suc n) (g ∷ gs) = g ∷ first_groups n gs

last_groups : ℕ → List ℕ → List ℕ
last_groups zero gs = gs
last_groups (suc n) [] = []
last_groups (suc n) (g ∷ gs) = last_groups n gs

compressed : ℕ × ℕ → List ℕ → Text
unfolding colons first_groups last_groups
compressed (start_at, len) gs =
    if len == 0
    then colons gs
    else colons (first_groups start_at gs)
      ++ (text "::" ++ colons (last_groups (start_at + len) gs))

v6_text : List ℕ → Text
unfolding compressed longest_run groups_of
v6_text bs = compressed (longest_run 0 (0, 0) (groups_of bs)) (groups_of bs)

dotted : List ℕ → Text
dotted [] = []
dotted (b ∷ []) = itoa (pos b)
dotted (b ∷ c ∷ bs) = itoa (pos b) ++ b'.' ∷ dotted (c ∷ bs)

-- An IPv4 address, also one that is mapped into IPv6, has no zone in the end.
addr_text : Text → Option Addr → Option Text
unfolding dotted v6_text last_groups
addr_text zone none = none
addr_text zone (some a) =
    if is_v4 a.bytes then some (dotted (last_groups 12 a.bytes)) else some (v6_text a.bytes ++ zone)

-- A zone is behind a percent sign, is not empty, and is for IPv6 alone.
zoned : Text → Option (Text × Text) → Option Text
unfolding addr_text kind
zoned s none = addr_text [] (parse_addr s)
zoned s (some (addr, [])) = none
zoned s (some (addr, c ∷ zone)) = elim (kind addr) [
  | v6 ↦ addr_text (b'%' ∷ c ∷ zone) (parse_addr addr)
  | v4 ↦ none
  | neither ↦ none
]

unfoldable pub canonical_text : Text → Option Text
unfolding zoned
canonical_text s = zoned s (cut_byte b'%' s)
