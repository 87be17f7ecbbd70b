-- ===== src/Runtime/Krunkit/Create/Kept.antt =====
-- Machines and their networks in a creation (`RunDetached` of pkg/runtime/krunkit.go).
use kiac.Base.{
  Text, Result, ok, err, ◌≡◌, refl, sym, Bool, true, false, Option, none, some, [], subst, nat_eq,
  bool_eq, text_eq, pair_eq, int_eq,
}
use kiac.Base.Exec.{◌>>=◌}
use kiac.Runtime.Krunkit.Network.{
  IsComplete, Network, Host, NetworkError, Networks, ensure_network, load_network,
}
use kiac.Runtime.Krunkit.Create.{
  build, ensured, make_directory, made_directory, CreateRun, cleaned, ensure, new_state, lifted,
  create_locked, run_detached,
}
use kiac.Runtime.Krunkit.Linked.{
  KeepsLinked, KeepsLinked-refl, Linked, LinkedTo, KeepsLinked-trans, save_state-KeepsLinked,
}
use kiac.Runtime.Krunkit.World.{
  MachineError, World, Machine, already_exists, disk_not_cloned, no_mac, no_seed, no_ssh_key,
  store_not_locked,
}
use kiac.Runtime.Krunkit.Nodes.{NodeDir, NodeState, Places, node_dir, short_socket_path}
use kiac.Runtime.Krunkit.Plan.{Plan}
use kiac.Runtime.Krunkit.Remove.{Tidying, Removal, remove_all, state_removed}
use kiac.Runtime.Routed.{RunOpts}
use kiac.Runtime.Krunkit.Network.Separate.{ensure_network-err}
use kiac.Runtime.Krunkit.Network.Others.{ensure_network-loads}
use kiac.Base.Dict.{get, put}
use kiac.Runtime.Krunkit.Network.Repeat.{load_network-ensured}
use kiac.Runtime.Krunkit.Remove.Unused.{
  remove_all-Linked, remove_all-reads, remove_unused_network-Linked,
}
use kiac.Runtime.Krunkit.World.Steps.{check-same, directory-same, require-same, then-related}
use kiac.Runtime.Krunkit.Start.Outcome.{start_state-Outcome}

made_directory-Linked :
    (o : Option NodeDir) (name : Text) (w : World)
    → Linked w
    → Linked (record w { nodes = made_directory o name w.nodes })
unfolding made_directory Linked remove_all put
made_directory-Linked (some dir) name w l = l
made_directory-Linked none name w l =
    λ j s r. l j s (remove_all-reads state_removed name j w.nodes s r)

make_directory-KeepsLinked :
    (s : NodeState) (made : Bool) (name : Text) (w : World)
    → KeepsLinked s w (make_directory made name w).1
unfolding make_directory
make_directory-KeepsLinked s false name w = KeepsLinked-refl s w
make_directory-KeepsLinked s true name w =
    (refl, λ l h. made_directory-Linked (get name w.nodes) name w l)

cleaned-Linked :
    (t : Tidying) (name id : Text) (removal : Removal) (r : Result MachineError (Unit {0}) × World)
    → IsComplete t.listed
    → Linked r.1
    → Linked (cleaned t name id removal r).1
unfolding cleaned
cleaned-Linked t name id removal (ok u, w) complete l = l
cleaned-Linked t name id removal (err e, w) complete l =
    remove_unused_network-Linked t id _ complete (remove_all-Linked removal name w l)

ensure-Linked : (host : Host) (id : Text) (w : World) → Linked w → Linked (ensure host id w).1
unfolding ensure ensured Linked
ensure-Linked host id w l = go (ensure_network host id w.networks) refl
  where
    go :
        (r : Result NetworkError Network × Networks)
        → ensure_network host id w.networks ≡ r
        → Linked (ensured r w).1
    go (ok n, networks) e = λ name s r.
        let (m, loads, c) = l name s r in
        (m, ensure_network-loads host id w.networks n networks s.network_id m e loads, c)
    go (err x, networks) e = λ name s r.
        subst (λ (k : Networks). LinkedTo k s) (ensure_network-err host id w.networks networks x e)
          (l name s r)

ensure-loads :
    (host : Host) (id : Text) (w v : World) (n : Network)
    → ensure host id w ≡ (ok n, v)
    → load_network true v.networks id ≡ ok n
unfolding ensure ensured
ensure-loads host id w v n h = go (ensure_network host id w.networks) refl h
  where
    go :
        (r : Result NetworkError Network × Networks)
        → ensure_network host id w.networks ≡ r
        → ensured r w ≡ (ok n, v)
        → load_network true v.networks id ≡ ok n
    go (ok m, networks) e h =
        let same : m ≡ n = cc in
        let here : record w { networks = networks } ≡ v = cc in
        subst (λ (k : Network). load_network true v.networks id ≡ ok k) same
          (subst (λ (u : World). load_network true u.networks id ≡ ok m) here
            (load_network-ensured host id w.networks m networks e))
    go (err x, networks) e h = absurd (cc)

-- A part that leaves the world alone.
unchanged : (s : NodeState) (w v : World) → v ≡ w → KeepsLinked s w v
unchanged s w v e = subst (KeepsLinked s w) (sym e) (KeepsLinked-refl s w)

module _ (hash : Text → Text) (places : Places) (run : CreateRun) (opts : RunOpts) where
  pub build-KeepsLinked :
      (plan : Plan) (n : Network) (w : World)
      → KeepsLinked
          (new_state hash places run opts plan n [] [] [])
          w
          (build hash places run opts plan n w).1
  unfolding build new_state
  build-KeepsLinked plan n w =
      past _ _ w (unchanged s w _ (directory-same (node_dir places opts.name) w)) (λ dir w _.
        past _ _ w (make_directory-KeepsLinked s run.directory_made opts.name w) (λ _ w _.
          past _ _ w (unchanged s w _ (require-same run.public_key no_ssh_key w)) (λ key w _.
            past _ _ w (unchanged s w _ (require-same run.mac no_mac w)) (λ mac w _.
              past _ _ w (unchanged s w _ (directory-same (short_socket_path places opts.name) w))
                (λ socket w _.
                  past _ _ w (unchanged s w _ (check-same run.disk_cloned disk_not_cloned w))
                    (λ _ w _.
                      past _ _ w (unchanged s w _ (check-same run.seed_made no_seed w)) (λ _ w _.
                        let t = new_state hash places run opts plan n dir mac socket in
                        past _ _ w (save_state-KeepsLinked s t run.written w (refl, refl)) (λ _ w _.
                          let ((a, b), _) = start_state-Outcome hash places run.starting t w in
                          (a, λ l h. b l h)))))))))
    where
      s : NodeState
      s = new_state hash places run opts plan n [] [] []

      past :
          {A : Type 0} (m : Machine A) (f : A → Machine (Unit {0})) (w : World)
          → KeepsLinked s w (m w).1
          → ((a : A) (v : World) → m w ≡ (ok a, v) → KeepsLinked s v (f a v).1)
          → KeepsLinked s w ((m >>= f) w).1
      past = then-related (KeepsLinked s) (KeepsLinked-trans s)

  create_locked-Linked :
      (plan : Plan) (w : World)
      → IsComplete run.tidying.listed
      → Linked w
      → Linked (create_locked hash places run opts plan w).1
  unfolding create_locked new_state
  create_locked-Linked plan w complete l =
      then-related R trans _ _ w (λ l. l)
        (λ there v e.
          then-related R trans _ _ v
            (λ l. subst Linked (sym (check-same _ (already_exists opts.name) v)) l)
            (λ _ u _.
              then-related R trans (ensure run.host opts.network_id) _ u
                (ensure-Linked run.host opts.network_id u)
                (λ n x h l.
                  cleaned-Linked run.tidying opts.name opts.network_id run.cleanup _ complete (
                    (build-KeepsLinked plan n x).1 l
                      (n, ensure-loads run.host opts.network_id u x n h, refl)))))
        l
    where
      R : World → World → Type 0
      R u v = Linked u → Linked v

      trans : (u v x : World) → R u v → R v x → R u x
      trans u v x a b l = b (a l)

  pub run_detached-Linked :
      (w : World)
      → IsComplete run.tidying.listed
      → Linked w
      → Linked (run_detached hash places run opts w).1
  unfolding run_detached lifted
  run_detached-Linked w complete l =
      then-related R trans _ _ w (λ l. l)
        (λ plan v e.
          then-related R trans _ _ v
            (λ l. subst Linked (sym (check-same run.locked store_not_locked v)) l)
            (λ _ u _. create_locked-Linked plan u complete))
        l
    where
      R : World → World → Type 0
      R u v = Linked u → Linked v

      trans : (u v x : World) → R u v → R v x → R u x
      trans u v x a b l = b (a l)
