-- ===== src/Runtime/Krunkit/Network/Separate.antt =====
-- Names and their subnets in `ensureNetwork` (pkg/runtime/krunkit_state.go).
use kiac.Base.{
  Bool-cases, Text, Result, ok, err, ℕ, ◌≡◌, refl, sym, ap, ◌∙◌, ◌⊎◌, inl, inr, true, false, Option,
  none, some, arith, subst, text_beq, text_beq_iff, nat_eq, bool_eq, text_eq, pair_eq, int_eq,
}
use kiac.Runtime.Krunkit.Network.{
  add_or_read, add_network, File, Host, IsComplete, NetworkError, Networks, ensure_network,
  malformed, network_file, saved, unreadable, valid_network_id, Network,
}
use kiac.Runtime.Krunkit.Network.Allocation.{Allocates, given, kept, subnet_of}
use kiac.Runtime.Krunkit.Network.Refines.{ensure_network-Allocates}
use kiac.Base.Dict.{get}
use kiac.Runtime.Krunkit.Network.Valid.{subnet}

-- No two names have the same subnet.
unfoldable pub Separate : (Text → Option ℕ) → Type 0
Separate view = (i j : Text) (x : ℕ) → view i ≡ some x → view j ≡ some x → i ≡ j

Allocates-Separate :
    (before after : Text → Option ℕ) (id : Text) (x : ℕ)
    → Allocates before after id x
    → Separate before
    → Separate after
unfolding Separate
Allocates-Separate before after id x (kept b same) s i j y p q =
    s i j y (sym (same i) ∙ p) (sym (same j) ∙ q)
Allocates-Separate before after id x (given lo hi fresh none_yet new others) s i j y p q =
    go (Bool-cases (text_beq i id)) (Bool-cases (text_beq j id))
  where
    at_id : (k : Text) → text_beq k id ≡ true → after k ≡ some y → y ≡ x
    at_id k e h =
        let same = (text_beq_iff k id).0 e in
        let both : some y ≡ some x = sym h ∙ (ap after same ∙ new) in cc

    elsewhere : (k : Text) → text_beq k id ≡ false → after k ≡ some y → before k ≡ some y
    elsewhere k e h = sym (others k (λ same. absurd (let t = (text_beq_iff k id).1 same in cc))) ∙ h

    go :
        (text_beq i id ≡ true) ⊎ (text_beq i id ≡ false)
        → (text_beq j id ≡ true) ⊎ (text_beq j id ≡ false)
        → i ≡ j
    go (inl a) (inl b) = (text_beq_iff i id).0 a ∙ sym ((text_beq_iff j id).0 b)
    go (inl a) (inr b) = absurd (fresh j (elsewhere j b q ∙ ap (λ (z : ℕ). some z) (at_id i a p)))
    go (inr a) (inl b) = absurd (fresh i (elsewhere i a p ∙ ap (λ (z : ℕ). some z) (at_id j b q)))
    go (inr a) (inr b) = s i j y (elsewhere i a p) (elsewhere j b q)

add_network-err :
    (host : Host) (id : Text) (o : Option ℕ) (networks : Networks) {e : NetworkError}
    {after : Networks}
    → add_network host id o networks ≡ (err e, after)
    → networks ≡ after
unfolding add_network
add_network-err host id none networks h = cc
add_network-err host id (some x) networks h = ground arith

add_or_read-err :
    (host : Host) (id : Text) (o : Option (File Network)) (networks : Networks) {e : NetworkError}
    {after : Networks}
    → add_or_read host id o networks ≡ (err e, after)
    → networks ≡ after
unfolding add_or_read
add_or_read-err host id none networks h = add_network-err host id _ networks h
add_or_read-err host id (some unreadable) networks h = add_network-err host id _ networks h
add_or_read-err host id (some malformed) networks h = cc
add_or_read-err host id (some (saved m)) networks h = cc

-- An `ensure_network` that fails leaves the files as they are.
pub ensure_network-err :
    (host : Host) (id : Text) (networks after : Networks) (e : NetworkError)
    → ensure_network host id networks ≡ (err e, after)
    → networks ≡ after
unfolding ensure_network
ensure_network-err host id networks after e h = elim (Bool-cases (valid_network_id id)) [
  | inr bad ↦ ground arith
  | inl v ↦ elim (Bool-cases host.root_known) [
    | inr a ↦ ground arith
    | inl a ↦ elim (Bool-cases host.directory_made) [
      | inr b ↦ ground arith
      | inl b ↦
          add_or_read-err host id (get (network_file id) networks) networks {e = e} (ground arith)
    ]
  ]
]

-- If every network is listed and read, and no two names share a subnet, none do after an `ensure_network`, whether it succeeds or fails.
pub ensure_network-Separate :
    (host : Host) (id : Text) (networks : Networks)
    → IsComplete host.listed
    → Separate (subnet_of networks)
    → Separate (subnet_of (ensure_network host id networks).1)
ensure_network-Separate host id networks complete s = go (ensure_network host id networks) refl
  where
    go :
        (r : Result NetworkError Network × Networks)
        → ensure_network host id networks ≡ r
        → Separate (subnet_of r.1)
    go (ok n, after) h =
        Allocates-Separate _ _ id (subnet n)
          (ensure_network-Allocates host id networks n after complete h) s
    go (err e, after) h =
        subst (λ (t : Networks). Separate (subnet_of t))
          (ensure_network-err host id networks after e h) s
