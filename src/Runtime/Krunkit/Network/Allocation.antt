-- ===== src/Runtime/Krunkit/Network/Allocation.antt =====
-- An abstract allocator of subnets, and the files of networks as its state (`ensureNetwork` of
-- pkg/runtime/krunkit_state.go).
use kiac.Base.{
  Text, text, In, In-append_right, elem, Result, ok, err, guard, ℕ, ◌≤◌, ◌<◌, ◌≡◌, refl, ap, ◌≢◌,
  inl, true, Option, none, some, subst, concat_map-In, In-elem, append_cancel, then-eq-ok, nat_eq,
  bool_eq, text_eq, pair_eq, int_eq,
}
use kiac.Runtime.Krunkit.Network.{
  load_file, File, Host, NetworkError, Networks, invalid_id, load_network, malformed, network_file,
  read_network, saved, saved_subnets, listed_subnet, IsComplete, unreadable, used_subnets,
  valid_network_id, validate_network, Network,
}
use kiac.Base.Dict.{get, get-In}
use kiac.Runtime.Krunkit.Network.Valid.{subnet, validate_network-IsValid, IsValid}

abbrev pub found_subnet : Result NetworkError Network → Option ℕ
found_subnet (err e) = none
found_subnet (ok n) = some (subnet n)

-- The abstract view of the files: the subnet that a name has, if its network is there and valid.
unfoldable pub subnet_of : Networks → Text → Option ℕ
subnet_of networks id = found_subnet (load_network true networks id)

-- One step of the abstract allocator: a name keeps its subnet, or gets one that no name has.
pub data Allocates (before after : Text → Option ℕ) (id : Text) (x : ℕ) : Type 0 where
  kept : before id ≡ some x → ((j : Text) → after j ≡ before j) → Allocates before after id x
  given :
      105 ≤ x
      → x < 250
      → ((j : Text) → before j ≢ some x)
      → before id ≡ none
      → after id ≡ some x
      → ((j : Text) → j ≢ id → after j ≡ before j)
      → Allocates before after id x

pub network_file-injective : (i j : Text) → network_file i ≡ network_file j → i ≡ j
network_file-injective i j e = append_cancel i j (text ".json") e

pub load_network-get :
    (networks : Networks) (j : Text) {n : Network}
    → load_network true networks j ≡ ok n
    → (get (network_file j) networks ≡ some (saved n)) × IsValid j n
unfolding load_network load_file read_network
load_network-get networks j {n} h =
    let (_, _, k) = then-eq-ok (guard (valid_network_id j) invalid_id) _ h in
    go (get (network_file j) networks) k
  where
    go : (o : Option (File Network)) → load_file o j ≡ ok n → (o ≡ some (saved n)) × IsValid j n
    go none k = absurd (cc)
    go (some unreadable) k = absurd (cc)
    go (some malformed) k = absurd (cc)
    go (some (saved m)) k =
        let (_, v, s) = then-eq-ok (validate_network m j) (λ _. ok m) k in
        let same : m ≡ n = cc in
        (
          ap (λ (x : Network). some (saved x)) same,
          subst (IsValid j) same (validate_network-IsValid m j v),
        )

-- The subnet of a network that can be loaded counts as taken, if every file is listed.
pub subnet_of-used :
    (host : Host) (networks : Networks) (j : Text) (x : ℕ)
    → IsComplete host.listed
    → subnet_of networks j ≡ some x
    → elem x (used_subnets host networks) ≡ true
unfolding subnet_of used_subnets saved_subnets listed_subnet
subnet_of-used host networks j x complete h = go (load_network true networks j) refl h
  where
    go :
        (r : Result NetworkError Network)
        → load_network true networks j ≡ r
        → found_subnet r ≡ some x
        → elem x (used_subnets host networks) ≡ true
    go (err e) p q = absurd (cc)
    go (ok n) p q =
        let (found, v) = load_network-get networks j p in
        let same : subnet n ≡ x = cc in
        let here : In (subnet n) (listed_subnet host.listed (network_file j, saved n)) =
          rw (complete (network_file j)) (rw v.taken (inl refl)) in
        In-elem x _ (
          In-append_right x _ _ (
            subst (λ (y : ℕ). In y (saved_subnets host.listed networks)) same
              (concat_map-In (listed_subnet host.listed) (subnet n) networks
                (network_file j, saved n) (get-In (network_file j) (saved n) networks found) here)))
