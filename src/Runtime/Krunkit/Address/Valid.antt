-- ===== src/Runtime/Krunkit/Address/Valid.antt =====
-- The addresses that are accepted.
use kiac.Base.{
  if◌then◌else◌, ◌===◌, Text, Result, ok, err, guard, is_ok, ◌≤◌, ◌≡◌, refl, Bool, true, false, not,
  ◌&&◌, Option, none, some, List, [], ◌∷◌, arith, subst, text_beq, text_beq_iff, then-eq-ok,
  guard-eq-ok, nat_eq, bool_eq, text_eq, pair_eq, int_eq,
}
use kiac.Runtime.Krunkit.Network.{Network, NetworkError, Networks, load_network}
use kiac.Runtime.Krunkit.Address.{
  in_prefix, loaded_network, validate_node_ipv4, check_address, check_ipv4, first_valid,
  AddressError, not_ipv4, other_subnet, outside_pool, outside_subnet, Decoder,
}
use kiac.Go.Net.Cidr.{Addr, Cidr, byte_at, parse_addr, parse_prefix, prefix_contains}
use kiac.Runtime.Krunkit.Nodes.{NodeState, Places}

-- An address of the machine's own network, in its pool.
pub record IsNodeAddress (root : Bool) (networks : Networks) (state : NodeState) (ip : Text)
    : Type 0 where
  pub network : Network
  pub addr : Addr
  pub subnet : Cidr
  pub loads : load_network root networks state.network_id ≡ ok network
  pub same_cidr : state.network_cidr ≡ network.cidr
  pub reads : parse_addr ip ≡ some addr
  pub is_four : addr.is4 ≡ true
  pub prefix : parse_prefix network.cidr ≡ some subnet
  pub inside : prefix_contains subnet addr ≡ true
  pub low : 2 ≤ byte_at 15 addr.bytes
  pub high : byte_at 15 addr.bytes ≤ 200

module _ (root : Bool) (networks : Networks) (state : NodeState) where
  in_prefix-true :
      (o : Option Cidr) (a : Addr)
      → in_prefix o a ≡ true
      → (p : Cidr) × (o ≡ some p) × (prefix_contains p a ≡ true)
  unfolding in_prefix
  in_prefix-true none a h = absurd (cc)
  in_prefix-true (some p) a h = (p, refl, h)

  loaded_network-ok :
      (r : Result NetworkError Network) (n : Network) → loaded_network r ≡ ok n → r ≡ ok n
  unfolding loaded_network
  loaded_network-ok (ok m) n h = cc
  loaded_network-ok (err e) n h = absurd (cc)

  pub validate_node_ipv4-IsNodeAddress :
      (ip : Text)
      → validate_node_ipv4 root networks state ip ≡ ok tt
      → IsNodeAddress root networks state ip
  unfolding validate_node_ipv4 check_address check_ipv4
  validate_node_ipv4-IsNodeAddress ip h = go (parse_addr ip) refl h
    where
      go :
          (o : Option Addr)
          → parse_addr ip ≡ o
          → check_address root networks state o ≡ ok tt
          → IsNodeAddress root networks state ip
      go none e h = absurd (cc)
      go (some a) e h =
          let (_, g1, k1) = then-eq-ok (guard a.is4 not_ipv4) _ h in
          let (n, g2, k2) =
            then-eq-ok (loaded_network (load_network root networks state.network_id)) _ k1 in
          let (_, g3, k3) = then-eq-ok (guard (state.network_cidr === n.cidr) other_subnet) _ k2 in
          let (_, g4, k4) =
            then-eq-ok (guard (in_prefix (parse_prefix n.cidr) a) outside_subnet) _ k3 in
          let pool = guard-eq-ok _ outside_pool k4 in
          let (p, prefix, inside) =
            in_prefix-true (parse_prefix n.cidr) a (guard-eq-ok _ outside_subnet g4) in
          record {
            network = n;
            addr = a;
            subnet = p;
            loads = loaded_network-ok (load_network root networks state.network_id) n g2;
            same_cidr = (text_beq_iff state.network_cidr n.cidr).0 (guard-eq-ok _ other_subnet g3);
            reads = e;
            is_four = guard-eq-ok _ not_ipv4 g1;
            prefix = prefix;
            inside = inside;
            low = ground arith;
            high = ground arith;
          }

  pub first_valid-IsNodeAddress :
      (decode : Decoder) (places : Places) (ips : List Text) (ip : Text)
      → first_valid decode places root networks state ips ≡ ok ip
      → IsNodeAddress root networks state ip
  unfolding first_valid
  first_valid-IsNodeAddress decode places [] ip h = absurd (cc)
  first_valid-IsNodeAddress decode places (x ∷ ips) ip h =
      go (text_beq x []) (validate_node_ipv4 root networks state x) refl
        (first_valid-IsNodeAddress decode places ips ip) h
    where
      go :
          (b : Bool) (r : Result AddressError (Unit {0}))
          → validate_node_ipv4 root networks state x ≡ r
          → (first_valid decode places root networks state ips ≡ ok ip
              → IsNodeAddress root networks state ip)
          → (if not b && is_ok r then ok x else first_valid decode places root networks state ips)
            ≡ ok ip
          → IsNodeAddress root networks state ip
      go true r e later h = later h
      go false (ok u) e later h =
          let same : x ≡ ip = cc in
          subst (IsNodeAddress root networks state) same (validate_node_ipv4-IsNodeAddress x e)
      go false (err y) e later h = later h
