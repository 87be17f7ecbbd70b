-- ===== src/Runtime/Krunkit/Network/Refines.antt =====
-- `ensureNetwork` (pkg/runtime/krunkit_state.go) beside the abstract allocator.
use kiac.Base.{
  if◌then◌else◌, Bool-cases, Text, ok, err, ℕ, ◌<◌, ◌≡◌, refl, sym, ap, ◌≢◌, inl, inr, Bool, true,
  false, Option, none, some, arith, subst, text_beq, text_beq_iff, nat_eq, bool_eq, text_eq,
  pair_eq, int_eq,
}
use kiac.Runtime.Krunkit.Network.{
  load_file, add_network, Host, Networks, choose_subnet, load_network, network_file, new_network,
  not_written, read_network, saved, used_subnets, valid_network_id, Network, add_or_read, File,
  NetworkError, IsComplete, ensure_network, malformed, unreadable, unreadable_network,
}
use kiac.Runtime.Krunkit.Network.Allocation.{
  Allocates, subnet_of, given, kept, subnet_of-used, network_file-injective,
}
use kiac.Base.Dict.{beq_self, get-put, put, get}
use kiac.Go.Net.Cidr.{byte_at}
use kiac.Runtime.Krunkit.Network.Subnets.{parse_cidr-subnet_text}
use kiac.Base.Exec.{raise}
use kiac.Runtime.Krunkit.Network.Valid.{subnet, validate_network-new_network}
use kiac.Runtime.Krunkit.Network.Search.{choose_subnet-free}

subnet-new_network : (id : Text) (x : ℕ) → x < 256 → subnet (new_network id x) ≡ x
unfolding byte_at
subnet-new_network id x h = rw (parse_cidr-subnet_text x h) refl

-- The files once a network is added.
abbrev pub added : Text → ℕ → Networks → Networks
added id x networks = put (network_file id) (saved (new_network id x)) networks

pub load_network-added :
    (id : Text) (x : ℕ) (networks : Networks)
    → valid_network_id id ≡ true
    → x < 256
    → load_network true (added id x networks) id ≡ ok (new_network id x)
unfolding load_network load_file read_network
load_network-added id x networks v l = simp (
  v,
  get-put (network_file id) (network_file id) (saved (new_network id x)) networks,
  beq_self (network_file id),
  validate_network-new_network id x l,
)

subnet_of-added_other :
    (id j : Text) (x : ℕ) (networks : Networks)
    → j ≢ id
    → subnet_of (added id x networks) j ≡ subnet_of networks j
unfolding subnet_of load_network
subnet_of-added_other id j x networks n =
    let other : text_beq (network_file id) (network_file j) ≡ false =
      ground
        (arith, text_beq_iff (network_file id) (network_file j), network_file-injective id j) in
    simp (get-put (network_file id) (network_file j) (saved (new_network id x)) networks, other)

subnet_of-added :
    (id : Text) (x : ℕ) (networks : Networks)
    → valid_network_id id ≡ true
    → x < 256
    → subnet_of (added id x networks) id ≡ some x
unfolding subnet_of
subnet_of-added id x networks v l =
    rw (load_network-added id x networks v l) (ap (λ (y : ℕ). some y) (subnet-new_network id x l))

pub add_network-eq :
    (host : Host) (id : Text) (x : ℕ) (networks : Networks) {n : Network} {after : Networks}
    → add_network host id (some x) networks ≡ (ok n, after)
    → (new_network id x ≡ n) × (added id x networks ≡ after)
unfolding add_network
add_network-eq host id x networks {n} {after} h = go host.written h
  where
    go :
        (b : Bool)
        → (if b
              then (λ (s : Networks). (ok (new_network id x), added id x s))
              else raise not_written)
            networks
          ≡ (ok n, after)
        → (new_network id x ≡ n) × (added id x networks ≡ after)
    go false h = absurd (cc)
    go true h = (cc, cc)

module _ (host : Host) (id : Text) (networks : Networks) (v : valid_network_id id ≡ true)
    (complete : IsComplete host.listed) where
  add_network-Allocates :
      (o : Option ℕ) (n : Network) (after : Networks)
      → subnet_of networks id ≡ none
      → choose_subnet id (used_subnets host networks) ≡ o
      → add_network host id o networks ≡ (ok n, after)
      → Allocates (subnet_of networks) (subnet_of after) id (subnet n)
  unfolding add_network
  add_network-Allocates none n after missing c h = absurd (cc)
  add_network-Allocates (some x) n after missing c h =
      let (free, lo, hi) = choose_subnet-free id (used_subnets host networks) x c in
      let below : x < 256 = omega arith in
      let (new, put_there) = add_network-eq host id x networks h in
      let fresh : (j : Text) → subnet_of networks j ≢ some x =
        λ j e. absurd (let used = subnet_of-used host networks j x complete e in cc) in
      subst (λ (m : Network). Allocates (subnet_of networks) (subnet_of after) id (subnet m)) new
        (subst (λ (y : ℕ). Allocates (subnet_of networks) (subnet_of after) id y)
          (sym (subnet-new_network id x below))
          (subst (λ (s : Networks). Allocates (subnet_of networks) (subnet_of s) id x) put_there
            (given lo hi fresh missing (subnet_of-added id x networks v below)
              (λ j e. subnet_of-added_other id j x networks e))))

  missing_lem :
      (o : Option (File Network)) (e : NetworkError)
      → get (network_file id) networks ≡ o
      → load_file o id ≡ err e
      → subnet_of networks id ≡ none
  unfolding subnet_of load_network
  missing_lem o e g l = rw v (rw g (rw l refl))

  add_or_read-Allocates :
      (o : Option (File Network)) (n : Network) (after : Networks)
      → get (network_file id) networks ≡ o
      → add_or_read host id o networks ≡ (ok n, after)
      → Allocates (subnet_of networks) (subnet_of after) id (subnet n)
  unfolding add_or_read load_file read_network subnet_of load_network
  add_or_read-Allocates none n after g h =
      add_network-Allocates _ n after (missing_lem none unreadable_network g refl) refl h
  add_or_read-Allocates (some unreadable) n after g h =
      add_network-Allocates _ n after (missing_lem (some unreadable) unreadable_network g refl) refl
        h
  add_or_read-Allocates (some malformed) n after g h = absurd (cc)
  add_or_read-Allocates (some (saved m)) n after g h =
      let read : read_network (saved m) id ≡ ok n = cc in
      let same : networks ≡ after = cc in
      kept (rw v (rw g (rw read refl))) (λ j. ap (λ (s : Networks). subnet_of s j) (sym same))

-- If every network is listed and can be read, an `ensure_network` that succeeds is a step of the
-- abstract allocator: the name keeps the subnet of its valid network, or it had none and is given
-- one between 105 and 249 that no name has. No other name gains, loses or changes its subnet.
pub ensure_network-Allocates :
    (host : Host) (id : Text) (networks : Networks) (n : Network) (after : Networks)
    → IsComplete host.listed
    → ensure_network host id networks ≡ (ok n, after)
    → Allocates (subnet_of networks) (subnet_of after) id (subnet n)
unfolding ensure_network
ensure_network-Allocates host id networks n after complete h =
    elim (Bool-cases (valid_network_id id)) [
      | inr bad ↦ absurd (ground arith)
      | inl v ↦
          add_or_read-Allocates host id networks v complete (get (network_file id) networks) n after
            refl (ground arith)
    ]
