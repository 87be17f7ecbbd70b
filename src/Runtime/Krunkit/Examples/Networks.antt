-- ===== src/Runtime/Krunkit/Examples/Networks.antt =====
-- The theorems about networks and sizes, at concrete hosts.
use kiac.Base.{
  Text, text, In, elem, ok, err, pos, ℕ, zero, suc, ◌%◌, ◌^◌, ◌≡◌, refl, inl, inr, true, false,
  List, [], ◌∷◌, arith, text_beq, nat_eq, bool_eq, text_eq, pair_eq, int_eq,
}
use kiac.Runtime.Krunkit.Network.Allocation.{Allocates, subnet_of}
use kiac.Runtime.Krunkit.Network.{
  Host, Networks, ensure_network, fnv32, load_network, network_file, new_network, no_free_subnet,
  saved, subnet_text, used_subnets,
}
use kiac.Runtime.Krunkit.Sizes.Bounds.{IsSize, parse_size_bytes-IsSize}
use kiac.Runtime.Krunkit.Sizes.{Units, parse_size_bytes, size_units}
use kiac.Go.Strconv.{atoi, itoa, value_from}
use kiac.Go.Net.Cidr.{byte_at, parse_addr, parse_cidr}
use kiac.Go.Strings.{
  cut_byte, drop, has_prefix, has_suffix, reverse_onto, to_upper, trim_space, trim_suffix,
}
use kiac.Runtime.Krunkit.Network.Refines.{ensure_network-Allocates}
use kiac.Runtime.Krunkit.Network.Repeat.{ensure_network-again, ensure_network-exhausted}
use kiac.Base.Dict.{get, put}
use kiac.Go.Net.Ip.{is_v4, kind, parse_ip}
use kiac.Runtime.Krunkit.Sizes.Order.{parse_size_bytes-order}
use kiac.Runtime.Krunkit.Network.Valid.{subnet}

abbrev host : Host
host = record {
  root_known = true;
  directory_made = true;
  listed = λ name. true;
  interfaces = text "192.168.129.5/24" ∷ text "10.0.0.1/8" ∷ [];
  written = true;
}

hashed : fnv32 (text "demo") % 145 ≡ 24
unfolding fnv32
hashed = refl

-- The hash asks for 129, which an interface has.
ensured : ensure_network host (text "demo") [] ≡ (
  ok (new_network (text "demo") 130),
  (network_file (text "demo"), saved (new_network (text "demo") 130)) ∷ [],
)
unfolding ensure_network parse_cidr parse_addr parse_ip cut_byte value_from byte_at is_v4 get put
    kind itoa text_beq
ensured = refl

abbrev demo_networks : Networks
demo_networks = (network_file (text "demo"), saved (new_network (text "demo") 130)) ∷ []

-- Where the directory cannot be listed, a subnet that another name has is given again.
given_again :
    (ensure_network
      (record host { listed = λ name. false })
      (text "demo")
      ((network_file (text "other"), saved (new_network (text "other") 130)) ∷ [])).0
    ≡ ok (new_network (text "demo") 130)
unfolding ensure_network parse_cidr parse_addr parse_ip cut_byte value_from byte_at is_v4 get put
    kind itoa text_beq
given_again = refl

ensure_network-Allocates_example :
    Allocates
      (subnet_of [])
      (subnet_of demo_networks)
      (text "demo")
      (subnet (new_network (text "demo") 130))
ensure_network-Allocates_example =
    ensure_network-Allocates host (text "demo") [] (new_network (text "demo") 130) demo_networks
      (λ name. refl) ensured

ensure_network-again_example :
    (load_network true demo_networks (text "demo") ≡ ok (new_network (text "demo") 130))
    × (ensure_network host (text "demo") demo_networks
        ≡ (ok (new_network (text "demo") 130), demo_networks))
ensure_network-again_example =
    ensure_network-again host host (text "demo") [] (new_network (text "demo") 130) demo_networks
      ensured refl refl

-- An interface in each of the subnets below a number.
abbrev interfaces_below : ℕ → List Text
interfaces_below zero = []
interfaces_below (suc x) = subnet_text x (text ".1/24") ∷ interfaces_below x

abbrev full_host : Host
full_host = record host { interfaces = interfaces_below 250 }

exhausted : (ensure_network full_host (text "demo") []).0 ≡ err no_free_subnet
unfolding ensure_network parse_cidr parse_addr parse_ip cut_byte value_from byte_at is_v4 get put
    kind itoa text_beq
exhausted = refl

ensure_network-exhausted_example : elem 200 (used_subnets full_host []) ≡ true
ensure_network-exhausted_example =
    ensure_network-exhausted full_host (text "demo") [] exhausted 200 (omega arith) (omega arith)

abbrev rest_of_units : Units
rest_of_units =
    (text "K", 2 ^ 10)
    ∷ (text "MIB", 2 ^ 20)
    ∷ (text "MB", 2 ^ 20)
    ∷ (text "M", 2 ^ 20)
    ∷ (text "GIB", 2 ^ 30)
    ∷ (text "GB", 2 ^ 30)
    ∷ (text "G", 2 ^ 30)
    ∷ (text "TIB", 2 ^ 40)
    ∷ (text "TB", 2 ^ 40)
    ∷ (text "T", 2 ^ 40)
    ∷ []

-- The table of suffixes with the first two entries exchanged.
abbrev other_order : Units
other_order = (text "KB", 2 ^ 10) ∷ (text "KIB", 2 ^ 10) ∷ rest_of_units

swap : {A : Type 0} (a b : A) (xs : List A) (x : A) → In x (a ∷ b ∷ xs) → In x (b ∷ a ∷ xs)
swap a b xs x (inl e) = inr (inl e)
swap a b xs x (inr (inl e)) = inl e
swap a b xs x (inr (inr i)) = inr (inr i)

parse_size_bytes-order_example :
    parse_size_bytes other_order (text "4 kib") (pos 1)
    ≡ parse_size_bytes size_units (text "4 kib") (pos 1)
parse_size_bytes-order_example = parse_size_bytes-order other_order (text "4 kib") (pos 1) (λ u. (
  swap (text "KB", 2 ^ 10) (text "KIB", 2 ^ 10) rest_of_units u,
  swap (text "KIB", 2 ^ 10) (text "KB", 2 ^ 10) rest_of_units u,
))

parsed : parse_size_bytes size_units (text "4GiB") (pos 1) ≡ ok (pos 4294967296)
unfolding parse_size_bytes atoi value_from has_suffix has_prefix reverse_onto trim_suffix trim_space
    to_upper drop text_beq
parsed = refl

parse_size_bytes-IsSize_example : IsSize (pos 4294967296)
unfolding IsSize
parse_size_bytes-IsSize_example =
    parse_size_bytes-IsSize size_units (text "4GiB") (pos 1) (pos 4294967296)
      (
        omega arith,
        (
          omega arith,
          (
            omega arith,
            (
              omega arith,
              (
                omega arith,
                (
                  omega arith,
                  (
                    omega arith,
                    (omega arith, (omega arith, (omega arith, (omega arith, (omega arith, tt))))),
                  ),
                ),
              ),
            ),
          ),
        ),
      )
      (omega arith, omega arith) parsed
