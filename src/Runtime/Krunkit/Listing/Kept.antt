-- ===== src/Runtime/Krunkit/Listing/Kept.antt =====
-- Machines and their networks in `List`, `updateState` and the record of an address
-- (pkg/runtime/krunkit.go).
use kiac.Runtime.Krunkit.Address.{Decoder}
use kiac.Base.{if◌then◌else◌, Text, Result, ok, ◌≡◌, refl, ◌∙◌, Bool, true, false, List, [], ◌∷◌}
use kiac.Base.Exec.{◌>>=◌}
use kiac.Runtime.Krunkit.Listing.{
  list_entry, save_changed, list_owned, list_entries, ListRun, list_machines, refreshed, try_save,
  update_ip, record_ip, address_now,
}
use kiac.Runtime.Routed.{Info}
use kiac.Runtime.Krunkit.Linked.{Linked, SameNetwork, save_state-KeepsLinked}
use kiac.Runtime.Krunkit.World.{
  check, store_not_locked, not_listed, Machine, MachineError, World, load_state, save_state,
}
use kiac.Runtime.Krunkit.Nodes.{NodeState, Places, read_state}
use kiac.Runtime.Krunkit.Remove.{entry_names}
use kiac.Go.Strings.{has_prefix}
use kiac.Runtime.Krunkit.World.Steps.{load_state-ok, load_state-same, pure_then, then-related}
use kiac.Runtime.Krunkit.Process.{process_owned}
use kiac.Runtime.Krunkit.Process.Keeps.{process_owned-keeps}

-- What both operations keep: the networks, and that machines are linked.
abbrev pub Kept : World → World → Type 0
Kept w after = (after.networks ≡ w.networks) × (Linked w → Linked after)

pub Kept-refl : (w : World) → Kept w w
Kept-refl w = (refl, λ l. l)

pub Kept-trans : (u v w : World) → Kept u v → Kept v w → Kept u w
Kept-trans u v w (e, f) (g, h) = (g ∙ e, λ l. h (f l))

-- Saving a state in the network of a machine that is there.
save_state-Kept :
    (s t : NodeState) (name : Text) (written : Bool) (w : World)
    → read_state w.nodes name ≡ ok s
    → SameNetwork s t
    → Kept w (save_state written t w).1
unfolding Linked
save_state-Kept s t name written w read same =
    let (e, k) = save_state-KeepsLinked s t written w same in (e, λ l. k l (l name s read))

-- A part that reads a machine, and a rest that keeps what is kept for a machine that is there.
pub load-Kept :
    {B : Type 0} (name : Text) (f : NodeState → Machine B) (w : World)
    → ((s : NodeState) → read_state w.nodes name ≡ ok s → Kept w (f s w).1)
    → Kept w ((load_state name >>= f) w).1
load-Kept name f w rest =
    pure_then (λ w r. Kept w r.1) (load_state name) f w (λ e. Kept-refl w) (load_state-same name w)
      (λ s h. rest s (load_state-ok name w w s h))

check-Kept : (b : Bool) (e : MachineError) (w : World) → Kept w (check b e w).1
unfolding check
check-Kept true e w = Kept-refl w
check-Kept false e w = Kept-refl w

update_ip-Kept :
    (locked written : Bool) (name ip : Text) (w : World)
    → Kept w (update_ip locked written name ip w).1
unfolding update_ip
update_ip-Kept locked written name ip w =
    then-related Kept Kept-trans _ _ w (check-Kept locked store_not_locked w) (λ _ w _.
      load-Kept name _ w
        (λ s read. save_state-Kept s (record s { ip = ip }) name written w read (refl, refl)))

pub record_ip-Kept :
    (locked written : Bool) (name : Text) (s : NodeState) (ip : Text) (w : World)
    → Kept w (record_ip locked written name s ip w).1
unfolding record_ip
record_ip-Kept locked written name s ip w = go _
  where
    go :
        (b : Bool)
        → Kept w
            (if◌then◌else◌ {A = Result MachineError (Unit {0}) × World} b
              (ok tt, (update_ip locked written name ip w).1)
              (ok tt, w)).1
    go true = update_ip-Kept locked written name ip w
    go false = Kept-refl w

refreshed-SameNetwork :
    (owned : Bool) (s : NodeState) (ip : Text) → SameNetwork s (refreshed owned s ip)
refreshed-SameNetwork true s ip = (refl, refl)
refreshed-SameNetwork false s ip = (refl, refl)

module _ (hash : Text → Text) (decode : Decoder) (places : Places) (run : ListRun) where
  save_changed-Kept :
      (before t : NodeState) (name : Text) (changed written : Bool) (w : World)
      → read_state w.nodes name ≡ ok before
      → SameNetwork before t
      → Kept w (save_changed changed written t w).1
  unfolding save_changed try_save
  save_changed-Kept before t name false written w read same = Kept-refl w
  save_changed-Kept before t name true written w read same =
      save_state-Kept before t name written w read same

  list_owned-Kept :
      (before : NodeState) (p : Bool × NodeState) (name : Text) (w : World)
      → read_state w.nodes name ≡ ok before
      → SameNetwork before p.1
      → Kept w (list_owned hash decode places run before p w).1
  unfolding list_owned
  list_owned-Kept before (owned, s) name w read (a, b) =
      let ip = address_now hash decode places run owned s w.networks in
      let (c, d) = refreshed-SameNetwork owned s ip in
      then-related Kept Kept-trans _ _ w
        (save_changed-Kept before (refreshed owned s ip) name _ _ w read (c ∙ a, d ∙ b))
        (λ _ v _. Kept-refl v)

  list_entries-Kept :
      (prefix : Text) (names : List Text) (w : World)
      → Kept w (list_entries hash decode places run prefix names w).1
  unfolding list_entries list_entry
  list_entries-Kept prefix [] w = Kept-refl w
  list_entries-Kept prefix (name ∷ names) w =
      go (has_prefix prefix name) (list_entries-Kept prefix names)
    where
      next : Machine (List Info)
      next = list_entries hash decode places run prefix names

      entry : Machine Info
      entry = load_state name >>= λ s.
          list_owned hash decode places run s (process_owned hash places (run.look name) s)

      go :
          (b : Bool)
          → ((v : World) → Kept v (list_entries hash decode places run prefix names v).1)
          → Kept w
              (if◌then◌else◌ {A = Result MachineError (List Info) × World} b
                ((entry >>= λ i. next >>= λ is. λ v. (ok (i ∷ is), v)) w)
                (next w)).1
      go false rest = rest w
      go true rest =
          then-related Kept Kept-trans entry _ w
            (load-Kept name _ w (λ s read.
              list_owned-Kept s (process_owned hash places (run.look name) s) name w read (
                process_owned-keeps hash places NodeState.network_id (λ t a b. refl) (run.look name)
                    s,
                process_owned-keeps hash places NodeState.network_cidr (λ t a b. refl)
                    (run.look name) s,
              )))
            (λ i v _. then-related Kept Kept-trans next _ v (rest v) (λ is u _. Kept-refl u))

  pub list_machines-Kept :
      (prefix : Text) (w : World) → Kept w (list_machines hash decode places run prefix w).1
  unfolding list_machines
  list_machines-Kept prefix w =
      then-related Kept Kept-trans _ _ w (check-Kept run.locked store_not_locked w) (λ _ v _.
        then-related Kept Kept-trans _ _ v (check-Kept run.listed not_listed v) (λ _ w _.
          then-related Kept Kept-trans
            (list_entries hash decode places run prefix (entry_names w.nodes)) _ w
            (list_entries-Kept prefix (entry_names w.nodes) w) (λ is v _. Kept-refl v)))
