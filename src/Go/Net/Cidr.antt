-- ===== src/Go/Net/Cidr.antt =====
-- Go's net.ParseCIDR, netip.ParseAddr and netip.ParsePrefix with Prefix.Contains, over ASCII texts.
use kiac.Base.{
  leb, ◌==◌, if◌then◌else◌, Option-cases, Text, ℕ, zero, suc, ◌+◌, ◌-◌, ◌*◌, ◌/◌, ◌^◌, ◌≡◌, inl,
  inr, Bool, true, false, ◌&&◌, Option, none, some, List, [], ◌∷◌, arith, bool_beq,
}
use kiac.Go.Net.Ip.{kind, Kind, neither, parse_ip, v4, v6}
use kiac.Go.Strings.{cut_byte}
use kiac.Go.Strconv.{value_from}

-- The bytes of an address in its 16 byte form, and whether it was written as an IPv4 address.
pub record Addr : Type 0 where
  pub bytes : List ℕ
  pub is4 : Bool

abbrev is_v4_kind : Kind → Bool
is_v4_kind v4 = true
is_v4_kind v6 = false
is_v4_kind neither = false

addr_of : Bool → Option (List ℕ) → Option Addr
addr_of is4 none = none
addr_of is4 (some bs) = some (record { bytes = bs; is4 = is4 })

-- `netip.ParseAddr` of a text with no zone; one with a zone is none here.
unfoldable pub parse_addr : Text → Option Addr
unfolding addr_of kind
parse_addr s = addr_of (is_v4_kind (kind s)) (parse_ip s)

-- The width of an address: 32 or 128 bits.
abbrev pub width : Addr → ℕ
width a = if a.is4 then 32 else 128

-- An address with the number of the bits that are its network.
pub record Cidr : Type 0 where
  pub addr : Addr
  pub ones : ℕ

-- `dtoi` of package net: the number and whether all of the text was used.
abbrev mask_ones : Text → Option ℕ
mask_ones [] = none
mask_ones (c ∷ s) = value_from 0 (c ∷ s)

in_width : Option Addr → Option ℕ → Option Cidr
in_width none ones = none
in_width (some a) none = none
in_width (some a) (some n) = if leb n (width a) then some (record { addr = a; ones = n }) else none

cidr_of : Option (Text × Text) → Option Cidr
unfolding in_width
cidr_of none = none
cidr_of (some (addr, mask)) = in_width (parse_addr addr) (mask_ones mask)

-- `net.ParseCIDR`: the address and the length of its mask.
unfoldable pub parse_cidr : Text → Option Cidr
unfolding cidr_of
parse_cidr s = cidr_of (cut_byte b'/' s)

-- The byte at a place.
unfoldable pub byte_at : ℕ → List ℕ → ℕ
byte_at n [] = 0
byte_at zero (b ∷ bs) = b
byte_at (suc n) (b ∷ bs) = byte_at n bs

-- A leading zero in the length of a prefix is an error.
abbrev prefix_ones : Text → Option ℕ
prefix_ones [] = none
prefix_ones (c ∷ []) = value_from 0 (c ∷ [])
prefix_ones (c ∷ d ∷ s) = if c == b'0' then none else value_from 0 (c ∷ d ∷ s)

prefix_of : Option (Text × Text) → Option Cidr
unfolding in_width
prefix_of none = none
prefix_of (some (addr, mask)) = in_width (parse_addr addr) (prefix_ones mask)

-- `netip.ParsePrefix`
unfoldable pub parse_prefix : Text → Option Cidr
unfolding prefix_of
parse_prefix s = prefix_of (cut_byte b'/' s)

-- The number that bytes are, the highest one first.
number_from : ℕ → List ℕ → ℕ
number_from acc [] = acc
number_from acc (b ∷ bs) = number_from (acc * 256 + b) bs

abbrev same_high : ℕ → List ℕ → List ℕ → Bool
same_high low a b = number_from 0 a / 2 ^ low == number_from 0 b / 2 ^ low

-- `Prefix.Contains`: the same family, and the same bits in front.
unfoldable pub prefix_contains : Cidr → Addr → Bool
unfolding number_from
prefix_contains p a = bool_beq p.addr.is4 a.is4 && same_high (width a - p.ones) p.addr.bytes a.bytes

-- A text that is read has a slash, and an address in front of it.
pub parse_cidr-some :
    (s : Text) (c : Cidr)
    → parse_cidr s ≡ some c
    → (a : Text) × (m : Text) × (cut_byte b'/' s ≡ some (a, m)) × (parse_ip a ≡ some c.addr.bytes)
unfolding parse_cidr cidr_of in_width parse_addr addr_of
parse_cidr-some s c h = elim (Option-cases (cut_byte b'/' s)) [
  | inl p ↦ absurd (ground arith)
  | inr ((a, m), p) ↦ elim (Option-cases (parse_ip a)) [
    | inl q ↦ absurd (ground arith)
    | inr (ip, q) ↦ (a, m, p, ground arith)
  ]
]
