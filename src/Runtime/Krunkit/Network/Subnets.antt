-- ===== src/Runtime/Krunkit/Network/Subnets.antt =====
-- The subnets of networks: of a new one, and of one that is valid.
use kiac.Base.{
  ◌==◌, Bool-cases, text, ℕ, zero, suc, ◌<◌, ◌≡◌, refl, inl, inr, Bool, true, false, ◌&&◌, Option,
  none, some, [], ◌∷◌, arith, text_beq, text_beq_iff,
}
use kiac.Go.Net.Cidr.{Cidr, parse_addr, parse_cidr}
use kiac.Go.Strings.{cut_byte}
use kiac.Go.Strconv.{itoa, value_from}
use kiac.Go.Net.Ip.{kind, mapped, parse_ip}
use kiac.Runtime.Krunkit.Network.{subnet_text}

reads_back : ℕ → Option Cidr → Bool
reads_back x none = false
reads_back x (some c) =
    c.addr.is4 && c.ones == 24 && text_beq c.addr.bytes (mapped (192 ∷ 168 ∷ x ∷ 0 ∷ []))

all_read_back : ℕ → Bool
unfolding reads_back
all_read_back zero = true
all_read_back (suc x) = reads_back x (parse_cidr (subnet_text x (text ".0/24"))) && all_read_back x

all_read_back_256 : all_read_back 256 ≡ true
unfolding all_read_back parse_cidr cut_byte parse_addr parse_ip text_beq value_from kind itoa
all_read_back_256 = refl

all_read_back-below :
    (n x : ℕ)
    → all_read_back n ≡ true
    → x < n
    → reads_back x (parse_cidr (subnet_text x (text ".0/24"))) ≡ true
unfolding all_read_back
all_read_back-below zero x h l = absurd (omega arith)
all_read_back-below (suc n) x h l = elim (Bool-cases (x == n)) [
  | inl here ↦ ground arith
  | inr below ↦ all_read_back-below n x (ground arith) (ground arith)
]

-- A subnet as the address that its text is.
abbrev pub subnet_cidr : ℕ → Cidr
subnet_cidr x = record {
  addr = record { bytes = mapped (192 ∷ 168 ∷ x ∷ 0 ∷ []); is4 = true };
  ones = 24;
}

reads_back-cidr : (x : ℕ) (o : Option Cidr) → reads_back x o ≡ true → o ≡ some (subnet_cidr x)
unfolding reads_back
reads_back-cidr x none h = absurd (cc)
reads_back-cidr x (some c) h =
    ground (arith, text_beq_iff c.addr.bytes (mapped (192 ∷ 168 ∷ x ∷ 0 ∷ [])))

-- The text of a subnet is read as that subnet.
pub parse_cidr-subnet_text :
    (x : ℕ) → x < 256 → parse_cidr (subnet_text x (text ".0/24")) ≡ some (subnet_cidr x)
parse_cidr-subnet_text x h = reads_back-cidr x _ (all_read_back-below 256 x all_read_back_256 h)
