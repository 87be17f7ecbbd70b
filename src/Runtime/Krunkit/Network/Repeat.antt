-- ===== src/Runtime/Krunkit/Network/Repeat.antt =====
-- What `ensureNetwork` (pkg/runtime/krunkit_state.go) does once it succeeded, and when it finds
-- nothing.
use kiac.Base.{
  Bool-cases, Option-cases, Text, elem, ok, err, guard, ℕ, ◌≤◌, ◌<◌, ◌≡◌, refl, ◌≢◌, inl, inr, true,
  Option, none, some, arith, subst, then-eq-ok, guard-eq-ok, nat_eq, bool_eq, text_eq, pair_eq,
  int_eq,
}
use kiac.Runtime.Krunkit.Network.{
  add_or_read, add_network, check_range, load_file, check_subnet, File, Host, Networks,
  choose_subnet, ensure_network, invalid_id, load_network, malformed, network_file, no_free_subnet,
  read_network, saved, unreadable, used_subnets, valid_network_id, validate_network, Network,
}
use kiac.Runtime.Krunkit.Network.Search.{choose_subnet-free, choose_subnet-none}
use kiac.Base.Dict.{get}
use kiac.Go.Net.Cidr.{parse_cidr}
use kiac.Runtime.Krunkit.Network.Refines.{add_network-eq, load_network-added, added}
use kiac.Runtime.Krunkit.Network.Allocation.{load_network-get}

module _ (host : Host) (id : Text) (networks : Networks) (v : valid_network_id id ≡ true)
    (n : Network) (after : Networks) where
  load-add_network :
      (o : Option ℕ)
      → choose_subnet id (used_subnets host networks) ≡ o
      → add_network host id o networks ≡ (ok n, after)
      → load_network true after id ≡ ok n
  unfolding add_network
  load-add_network none c h = absurd (cc)
  load-add_network (some x) c h =
      let (new, put_there) = add_network-eq host id x networks h in
      let (free, lo, hi) = choose_subnet-free id (used_subnets host networks) x c in
      subst (λ (s : Networks). load_network true s id ≡ ok n) put_there
        (subst (λ (m : Network). load_network true (added id x networks) id ≡ ok m) new
          (load_network-added id x networks v (omega arith)))

  load-add_or_read :
      (o : Option (File Network))
      → get (network_file id) networks ≡ o
      → add_or_read host id o networks ≡ (ok n, after)
      → load_network true after id ≡ ok n
  unfolding add_or_read load_file read_network load_network
  load-add_or_read none g h = load-add_network _ refl h
  load-add_or_read (some unreadable) g h = load-add_network _ refl h
  load-add_or_read (some malformed) g h = absurd (cc)
  load-add_or_read (some (saved m)) g h =
      let read : read_network (saved m) id ≡ ok n = cc in
      let same : networks ≡ after = cc in
      subst (λ (s : Networks). load_network true s id ≡ ok n) same (rw v (rw g (rw read refl)))

read-load_network :
    (networks : Networks) (id : Text) (n : Network)
    → load_network true networks id ≡ ok n
    → (valid_network_id id ≡ true) × (read_network (saved n) id ≡ ok n)
unfolding load_network load_file
read-load_network networks id n h =
    let (found, _) = load_network-get networks id h in
    let (_, g, k) = then-eq-ok (guard (valid_network_id id) invalid_id) _ h in
    (
      guard-eq-ok _ invalid_id g,
      (let l : load_file (some (saved n)) id ≡ ok n =
            subst (λ (o : Option (File Network)). load_file o id ≡ ok n) found k in
          l),
    )

-- A network that was ensured can be loaded.
pub load_network-ensured :
    (host : Host) (id : Text) (networks : Networks) (n : Network) (after : Networks)
    → ensure_network host id networks ≡ (ok n, after)
    → load_network true after id ≡ ok n
unfolding ensure_network
load_network-ensured host id networks n after h = elim (Bool-cases (valid_network_id id)) [
  | inr bad ↦ absurd (ground arith)
  | inl v ↦
      load-add_or_read host id networks v n after (get (network_file id) networks) refl
        (ground arith)
]

-- Once an `ensure_network` succeeded, `load_network` and a second `ensure_network` for the name
-- give the same network, and the files stay as they are, if the state directory is still known and
-- there.
pub ensure_network-again :
    (host again : Host) (id : Text) (networks : Networks) (n : Network) (after : Networks)
    → ensure_network host id networks ≡ (ok n, after)
    → again.root_known ≡ true
    → again.directory_made ≡ true
    → (load_network true after id ≡ ok n) × (ensure_network again id after ≡ (ok n, after))
unfolding ensure_network add_or_read
ensure_network-again host again id networks n after h r d =
    let loaded = load_network-ensured host id networks n after h in
    let (found, _) = load_network-get after id loaded in
    let (v, read) = read-load_network after id n loaded in
    (loaded, rw v (rw r (rw d (rw found (rw read refl)))))

validate_network-searches : (n : Network) (id : Text) → validate_network n id ≢ err no_free_subnet
unfolding validate_network check_subnet check_range
validate_network-searches n id h = elim (Option-cases (parse_cidr n.cidr)) [
  | inl p ↦ ground arith
  | inr (c, p) ↦ ground arith
]

module _ (host : Host) (id : Text) (networks : Networks) where
  add_network-exhausted :
      (o : Option ℕ) → (add_network host id o networks).0 ≡ err no_free_subnet → o ≡ none
  unfolding add_network
  add_network-exhausted none h = refl
  add_network-exhausted (some x) h = ground arith

  add_or_read-exhausted :
      (o : Option (File Network))
      → (add_or_read host id o networks).0 ≡ err no_free_subnet
      → choose_subnet id (used_subnets host networks) ≡ none
  unfolding add_or_read read_network
  add_or_read-exhausted none h = add_network-exhausted _ h
  add_or_read-exhausted (some unreadable) h = add_network-exhausted _ h
  add_or_read-exhausted (some malformed) h = absurd (cc)
  add_or_read-exhausted (some (saved m)) h = ground (arith, validate_network-searches m id)

-- `ensure_network` finds no free subnet only if all of 105 to 249 are taken, by interfaces or by
-- saved networks.
pub ensure_network-exhausted :
    (host : Host) (id : Text) (networks : Networks)
    → (ensure_network host id networks).0 ≡ err no_free_subnet
    → (x : ℕ) → 105 ≤ x
    → x < 250
    → elem x (used_subnets host networks) ≡ true
unfolding ensure_network
ensure_network-exhausted host id networks h x lo hi =
    choose_subnet-none id (used_subnets host networks)
      (add_or_read-exhausted host id networks (get (network_file id) networks) (ground arith)) x lo
      hi
