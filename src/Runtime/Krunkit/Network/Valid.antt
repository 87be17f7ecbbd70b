-- ===== src/Runtime/Krunkit/Network/Valid.antt =====
-- What `validate_network` accepts.
use kiac.Base.{
  Option-cases, Text, text, ok, ℕ, ◌<◌, ◌≡◌, refl, inl, inr, true, Option, none, some, [], ◌∷◌,
  arith, text_beq, text_beq_iff, nat_eq, text_eq,
}
use kiac.Runtime.Krunkit.Network.{
  is_subnet, check_range, address_subnet, check_subnet, new_network, saved, saved_subnet,
  subnet_text, validate_network, Network,
}
use kiac.Go.Net.Cidr.{Cidr, byte_at, parse_cidr, parse_cidr-some}
use kiac.Base.Dict.{beq_self}
use kiac.Go.Net.Ip.{is_v4}
use kiac.Runtime.Krunkit.Network.Subnets.{parse_cidr-subnet_text}
use kiac.Go.Strings.Laws.{split-cut_byte}

-- The third byte of a network's address, 0 if its text is no address.
abbrev third_byte : Option Cidr → ℕ
third_byte none = 0
third_byte (some c) = byte_at 14 c.addr.bytes

abbrev pub subnet : Network → ℕ
subnet n = third_byte (parse_cidr n.cidr)

-- A new network is valid for its name.
pub validate_network-new_network :
    (id : Text) (x : ℕ) → x < 256 → validate_network (new_network id x) id ≡ ok tt
unfolding validate_network check_subnet is_subnet check_range is_v4 byte_at text_beq
validate_network-new_network id x h = simp (
  parse_cidr-subnet_text x h,
  beq_self id,
  beq_self (subnet_text x (text ".1")),
  beq_self (subnet_text x (text ".200")),
)

-- A valid network is one of the name, with the addresses 192.168.x.1 to 192.168.x.200.
pub record IsValid (id : Text) (n : Network) : Type 0 where
  pub name : n.id ≡ id
  pub mask : n.netmask ≡ text "255.255.255.0"
  pub low : n.start ≡ subnet_text (subnet n) (text ".1")
  pub high : n.end ≡ subnet_text (subnet n) (text ".200")
  pub taken : saved_subnet (saved n) ≡ subnet n ∷ []

-- The address that a network is read with is the one that counts as taken.
pub saved_subnet-valid :
    (n : Network) (c : Cidr)
    → parse_cidr n.cidr ≡ some c
    → is_v4 c.addr.bytes ≡ true
    → saved_subnet (saved n) ≡ byte_at 14 c.addr.bytes ∷ []
unfolding saved_subnet address_subnet
saved_subnet-valid n c h v =
    let (a, m, p, q) = parse_cidr-some n.cidr c h in
    rw (split-cut_byte n.cidr b'/' a m p) (rw q (rw v refl))

pub validate_network-IsValid :
    (n : Network) (id : Text) → validate_network n id ≡ ok tt → IsValid id n
unfolding validate_network check_subnet is_subnet check_range
validate_network-IsValid n id h = elim (Option-cases (parse_cidr n.cidr)) [
  | inl p ↦ absurd (ground arith)
  | inr (c, p) ↦
      let s = subnet_text (byte_at 14 c.addr.bytes) in
      record {
        name = ground (arith, text_beq_iff n.id id);
        mask = ground (arith, text_beq_iff n.netmask (text "255.255.255.0"));
        low = ground (arith, text_beq_iff n.start (s (text ".1")));
        high = ground (arith, text_beq_iff n.end (s (text ".200")));
        taken = ground (arith, saved_subnet-valid n c p);
      }
]
