-- ===== src/Runtime/Krunkit/Network/Others.antt =====
-- The networks of other names in `ensureNetwork` (pkg/runtime/krunkit_state.go).
use kiac.Base.{
  Text, ok, ◌>>◌, guard, ℕ, ◌≡◌, refl, sym, ap, ◌∙◌, ◌≢◌, true, false, Option, none, some, arith,
  subst, text_beq, text_beq_iff, nat_eq, bool_eq, text_eq, pair_eq, int_eq,
}
use kiac.Runtime.Krunkit.Network.{
  Network, add_or_read, File, Host, Networks, add_network, ensure_network, invalid_id, load_network,
  malformed, network_file, new_network, saved, unreadable, valid_network_id, load_file,
}
use kiac.Runtime.Krunkit.Network.Refines.{add_network-eq, added}
use kiac.Base.Dict.{get, get-put, get-remove, remove}
use kiac.Runtime.Krunkit.Network.Allocation.{load_network-get, network_file-injective}

load_network-get_same :
    (a b : Networks) (j : Text)
    → get (network_file j) a ≡ get (network_file j) b
    → load_network true a j ≡ load_network true b j
unfolding load_network
load_network-get_same a b j e =
    ap (λ (o : Option (File Network)). guard (valid_network_id j) invalid_id >> load_file o j) e

other_file : (id j : Text) → j ≢ id → text_beq (network_file id) (network_file j) ≡ false
other_file id j n =
    ground (arith, text_beq_iff (network_file id) (network_file j), network_file-injective id j)

load_network-added_other :
    (id j : Text) (x : ℕ) (networks : Networks)
    → j ≢ id
    → load_network true (added id x networks) j ≡ load_network true networks j
load_network-added_other id j x networks n = load_network-get_same _ networks j (
    get-put (network_file id) (network_file j) (saved (new_network id x)) networks
    ∙ rw (other_file id j n) refl)

-- Removing the file of a network leaves the others.
pub load_network-remove_other :
    (id j : Text) (networks : Networks)
    → j ≢ id
    → load_network true (remove (network_file id) networks) j ≡ load_network true networks j
load_network-remove_other id j networks n =
    load_network-get_same _ networks j
      (get-remove (network_file id) (network_file j) networks ∙ rw (other_file id j n) refl)

module _ (host : Host) (id : Text) (networks : Networks) (n : Network) (after : Networks) where
  add_network-loads :
      (o : Option ℕ) (j : Text) (m : Network)
      → ((k : Network) → load_network true networks id ≢ ok k)
      → add_network host id o networks ≡ (ok n, after)
      → load_network true networks j ≡ ok m
      → load_network true after j ≡ ok m
  unfolding add_network
  add_network-loads none j m missing h l = absurd (cc)
  add_network-loads (some x) j m missing h l =
      let (_, put_there) = add_network-eq host id x networks h in
      let other : j ≢ id =
        λ e. missing m (subst (λ (k : Text). load_network true networks k ≡ ok m) e l) in
      subst (λ (s : Networks). load_network true s j ≡ ok m) put_there
        (load_network-added_other id j x networks other ∙ l)

  add_or_read-loads :
      (o : Option (File Network)) (j : Text) (m : Network)
      → get (network_file id) networks ≡ o
      → add_or_read host id o networks ≡ (ok n, after)
      → load_network true networks j ≡ ok m
      → load_network true after j ≡ ok m
  unfolding add_or_read
  add_or_read-loads none j m g h l =
      add_network-loads _ j m
        (λ k e.
          let (found, _) = load_network-get networks id e in absurd (let s = sym g ∙ found in cc))
        h l
  add_or_read-loads (some unreadable) j m g h l =
      add_network-loads _ j m
        (λ k e.
          let (found, _) = load_network-get networks id e in absurd (let s = sym g ∙ found in cc))
        h l
  add_or_read-loads (some malformed) j m g h l = absurd (cc)
  add_or_read-loads (some (saved k)) j m g h l =
      let same : networks ≡ after = cc in
      subst (λ (s : Networks). load_network true s j ≡ ok m) same l

  -- What could be loaded before a network was ensured is loaded after it.
  pub ensure_network-loads :
      (j : Text) (m : Network)
      → ensure_network host id networks ≡ (ok n, after)
      → load_network true networks j ≡ ok m
      → load_network true after j ≡ ok m
  unfolding ensure_network
  ensure_network-loads j m h l =
      add_or_read-loads (get (network_file id) networks) j m refl (ground arith) l
