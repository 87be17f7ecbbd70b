-- ===== src/Runtime/Krunkit/Separated.antt =====
-- Names and their subnets in the operations on machines (pkg/runtime/krunkit.go).
use kiac.Base.{
  All, ◌∷◌, if◌then◌else◌, Text, Result, ok, err, ℕ, ◌≡◌, refl, sym, ap, ◌∙◌, ◌≢◌, ◌⊎◌, inl, inr,
  Bool, true, false, not, Option, none, some, List, [], subst, text_beq, text_beq_iff, nat_eq,
  bool_eq, text_eq, pair_eq, int_eq,
}
use kiac.Base.Dict.{remove, get, get-remove}
use kiac.Runtime.Krunkit.Network.{
  IsComplete, Network, Host, NetworkError, Networks, ensure_network, load_network, network_file,
}
use kiac.Runtime.Krunkit.Create.{CreateRun, cleaned, ensure, run_detached, ensured, build}
use kiac.Runtime.Krunkit.World.{
  MachineError, World, already_exists, store_not_locked, node_error, check,
}
use kiac.Runtime.Krunkit.Nodes.{Places, NodeError, NodeState, read_state}
use kiac.Runtime.Krunkit.Remove.{
  Tidying, Removal, remove_unused_network, RemoveRun, remove_all, remove_machines,
}
use kiac.Runtime.Routed.{RunOpts}
use kiac.Runtime.Krunkit.Network.Separate.{Separate, ensure_network-Separate}
use kiac.Runtime.Krunkit.Create.Kept.{build-KeepsLinked}
use kiac.Runtime.Krunkit.World.Steps.{check-same, then-related}
use kiac.Runtime.Krunkit.Network.Allocation.{found_subnet, load_network-get, subnet_of}
use kiac.Runtime.Krunkit.Network.Others.{load_network-remove_other}
use kiac.Runtime.Krunkit.Stop.{StopRun, stop_locked}
use kiac.Runtime.Krunkit.Stop.Done.{Stopped, stop_locked-Stopped}
use kiac.Runtime.Krunkit.Remove.Kept.{remove_machines-related}

-- No two names have the same subnet in the files of a world.
abbrev pub Separated : World → Type 0
Separated w = Separate (subnet_of w.networks)

-- A view that has lost names.
fewer-Separate :
    (before later : Text → Option ℕ)
    → ((j : Text) (x : ℕ) → later j ≡ some x → before j ≡ some x)
    → Separate before
    → Separate later
unfolding Separate
fewer-Separate before later f s i j x p q = s i j x (f i x p) (f j x q)

subnet_of-removed :
    (id j : Text) (x : ℕ) (networks : Networks)
    → subnet_of (remove (network_file id) networks) j ≡ some x
    → subnet_of networks j ≡ some x
unfolding subnet_of
subnet_of-removed id j x networks h = go (text_beq j id) refl
  where
    go : (b : Bool) → text_beq j id ≡ b → subnet_of networks j ≡ some x
    go false e =
        let other : j ≢ id = λ s. absurd (let t = (text_beq_iff j id).1 s in cc) in
        ap found_subnet (sym (load_network-remove_other id j networks other)) ∙ h
    go true e =
        let same = (text_beq_iff j id).0 e in
        absurd (removed_file (load_network true (remove (network_file id) networks) j) refl same h)
      where
        removed_file :
            (r : Result NetworkError Network)
            → load_network true (remove (network_file id) networks) j ≡ r
            → j ≡ id
            → found_subnet r ≡ some x
            → ⊥
        removed_file (err y) p same f = absurd (cc)
        removed_file (ok n) p same f =
            let (found, _) = load_network-get (remove (network_file id) networks) j p in
            let gone = get-remove (network_file id) (network_file j) networks in
            let here : text_beq (network_file id) (network_file j) ≡ true =
              (text_beq_iff (network_file id) (network_file j)).1 (ap network_file (sym same)) in
            absurd (
              let g : get (network_file j) (remove (network_file id) networks) ≡ none =
                gone ∙ rw here refl in
              cc)

pub remove_unused_network-Separated :
    (t : Tidying) (id : Text) (w : World) → Separated w → Separated (remove_unused_network t id w)
unfolding remove_unused_network
remove_unused_network-Separated t id w s = go _ t.file_removed
  where
    go :
        (b c : Bool)
        → Separated (
            if b
            then w
            else if c
            then record w { networks = remove (network_file id) w.networks }
            else w)
    go true c = s
    go false false = s
    go false true = fewer-Separate _ _ (λ j x. subnet_of-removed id j x w.networks) s

pub no_networks-Separate : Separate (subnet_of [])
unfolding Separate subnet_of get
no_networks-Separate i j x p q = go (load_network true [] i) refl p
  where
    go :
        (r : Result NetworkError Network)
        → load_network true [] i ≡ r
        → found_subnet r ≡ some x
        → i ≡ j
    go (err e) a b = absurd (cc)
    go (ok n) a b = let (found, _) = load_network-get [] i a in absurd (cc)

-- A world with the same networks.
pub same-Separated : (v w : World) → w.networks ≡ v.networks → Separated v → Separated w
same-Separated v w e s = subst (λ (n : Networks). Separate (subnet_of n)) (sym e) s

ensure-Separated :
    (host : Host) (id : Text) (w : World)
    → IsComplete host.listed
    → Separated w
    → Separated (ensure host id w).1
unfolding ensure ensured
ensure-Separated host id w complete s =
    go (ensure_network host id w.networks) (ensure_network-Separate host id w.networks complete s)
  where
    go :
        (r : Result NetworkError Network × Networks)
        → Separate (subnet_of r.1)
        → Separated (ensured r w).1
    go (ok n, networks) k = k
    go (err e, networks) k = k

cleaned-Separated :
    (t : Tidying) (name id : Text) (removal : Removal) (r : Result MachineError (Unit {0}) × World)
    → Separated r.1
    → Separated (cleaned t name id removal r).1
unfolding cleaned
cleaned-Separated t name id removal (ok u, w) s = s
cleaned-Separated t name id removal (err e, w) s = remove_unused_network-Separated t id _ s

-- Blocks of parts that keep it.
Keeps : World → World → Type 0
Keeps v w = Separated v → Separated w

Keeps-trans : (u v w : World) → Keeps u v → Keeps v w → Keeps u w
unfolding Keeps
Keeps-trans u v w a b s = b (a s)

check-Keeps : (b : Bool) (e : MachineError) (w : World) → Keeps w (check b e w).1
unfolding Keeps
check-Keeps b e w = same-Separated w (check b e w).1 (ap World.networks (check-same b e w))

module _ (hash : Text → Text) (places : Places) where
  pub run_detached-Separated :
      (run : CreateRun) (opts : RunOpts) (w : World)
      → IsComplete run.host.listed
      → Separated w
      → Separated (run_detached hash places run opts w).1
  unfolding run_detached Keeps
  run_detached-Separated run opts w complete s =
      then-related Keeps Keeps-trans _ _ w (λ s. s)
        (λ plan v _.
          then-related Keeps Keeps-trans _ _ v (check-Keeps run.locked store_not_locked v) (λ _ v _.
            then-related Keeps Keeps-trans _ _ v (λ s. s)
              (λ there v _.
                then-related Keeps Keeps-trans _ _ v
                  (check-Keeps (not there) (already_exists opts.name) v)
                  (λ _ v _.
                    then-related Keeps Keeps-trans (ensure run.host opts.network_id) _ v
                      (ensure-Separated run.host opts.network_id v complete)
                      (λ n u _ k.
                        cleaned-Separated run.tidying opts.name opts.network_id run.cleanup _ (
                          same-Separated u (build hash places run opts plan n u).1
                            (build-KeepsLinked hash places run opts plan n u).0 k))))))
        s

  pub stop_locked-networks :
      (run : StopRun) (name : Text) (w : World)
      → (stop_locked hash places run name w).1.networks ≡ w.networks
  stop_locked-networks run name w = cases (stop_locked-Stopped hash places run name w)
    where
      cases :
          ((state : NodeState) × (read_state w.nodes name ≡ ok state)
              × Stopped state w (stop_locked hash places run name w))
            ⊎ ((e : NodeError) × (read_state w.nodes name ≡ err e)
                × (stop_locked hash places run name w ≡ (err (node_error e), w)))
          → (stop_locked hash places run name w).1.networks ≡ w.networks
      cases (inl (state, _, s)) = s.networks
      cases (inr (e, _, same)) =
          ap (λ (r : Result MachineError (Unit {0}) × World). r.1.networks) same

  pub remove_machines-Separated :
      (names : List (Text × RemoveRun)) (r : Option MachineError × World)
      → Separated r.1
      → Separated (remove_machines hash places names r).1
  unfolding Keeps
  remove_machines-Separated names r =
      remove_machines-related hash places (λ run. Unit {0}) Keeps (λ w s. s) Keeps-trans
        (λ run name w.
          same-Separated w (stop_locked hash places run name w).1 (stop_locked-networks run name w))
        (λ run name id w q s.
          remove_unused_network-Separated run.tidying id
            (record w { nodes = remove_all run.removal name w.nodes }) s)
        names r (any_runs names)
    where
      any_runs : (es : List (Text × RemoveRun)) → All (λ (e : Text × RemoveRun). Unit {0}) es
      any_runs [] = tt
      any_runs (e ∷ es) = (tt, any_runs es)
