-- ===== src/Runtime/Krunkit/Listing.antt =====
-- Listing machines, which also refreshes their states, and recording an address: `List`,
-- `updateState`, `IP` and the end of `execContext` (pkg/runtime/krunkit.go).
pub mod Kept
pub mod Sorted
use kiac.Base.{
  ltb, ◌==◌, if◌then◌else◌, ◌===◌, Text, text, Result, ok, err, Bool, true, false, not, ◌&&◌, ◌||◌,
  List, [], ◌∷◌, nat_eq, bool_eq, text_eq, pair_eq, int_eq,
}
use kiac.Base.Exec.{◌>>=◌, ◌>>◌}
use kiac.Runtime.Krunkit.Address.{AddressError, ReportView, node_address, Decoder}
use kiac.Runtime.Routed.{Info}
use kiac.Runtime.Krunkit.World.{
  Machine, load_state, save_state, check, store_not_locked, not_listed,
}
use kiac.Runtime.Krunkit.Network.{Networks}
use kiac.Runtime.Krunkit.Nodes.{NodeState, Places}
use kiac.Runtime.Krunkit.Process.{Seen, process_owned}
use kiac.Runtime.Krunkit.Remove.{entry_names}
use kiac.Go.Strings.{has_prefix}
use kiac.Runtime.Krunkit.Start.{running}
use kiac.Runtime.Krunkit.Stop.{stopped, without_process}

-- What happens while machines are listed, by their names.
pub record ListRun : Type 0 where
  pub locked : Bool
  -- The state directory is known, and its directory of nodes is read or not there.
  pub listed : Bool
  pub look : Text → Seen
  pub view : Text → ReportView
  pub arp : List (Text × Text)
  pub root_known : Bool
  pub written : Text → Bool

unfoldable pub text_less : Text → Text → Bool
text_less s [] = false
text_less [] (y ∷ t) = true
text_less (x ∷ s) (y ∷ t) = if x == y then text_less s t else ltb x y

unfoldable pub insert_info : Info → List Info → List Info
unfolding text_less
insert_info i [] = i ∷ []
insert_info i (j ∷ js) = if text_less i.name j.name then i ∷ j ∷ js else j ∷ insert_info i js

-- `sort.Slice` by name
unfoldable pub sort_infos : List Info → List Info
unfolding insert_info
sort_infos [] = []
sort_infos (i ∷ is) = insert_info i (sort_infos is)

address_or_none : Result AddressError Text → Text
address_or_none (ok ip) = ip
address_or_none (err e) = []

unfoldable pub info_of : NodeState → Text → Text → Info
info_of s status ip = record {
  name = s.name;
  image = s.image;
  status = status;
  ip = ip;
  created = s.created;
  backend = text "krunkit";
  distro = s.distro;
  k8s_version = s.k8s_version;
  gpu = s.gpu;
}

-- The status or the address is new, or an identity was taken over.
is_changed : NodeState → NodeState → Text → Text → Bool
is_changed before s status ip =
    not (s.status === status)
    || (not (ip === []) && not (ip === s.ip))
    || not (s.process_start === before.process_start)
    || not (s.process_command_hash === before.process_command_hash)

-- The state of a machine that was found running or stopped.
abbrev pub refreshed : Bool → NodeState → Text → NodeState
refreshed true s ip = record s { status = running; ip = ip }
refreshed false s ip = record (without_process s) { ip = ip }

abbrev status_of : Bool → Text
status_of true = running
status_of false = stopped

-- `_ = c.writeState(state)`
unfoldable pub try_save : Bool → NodeState → Machine (Unit {0})
try_save written s w = (ok tt, (save_state written s w).1)

save_changed : Bool → Bool → NodeState → Machine (Unit {0})
save_changed false written s w = (ok tt, w)
save_changed true written s w = try_save written s w

module _ (hash : Text → Text) (decode : Decoder) (places : Places) (run : ListRun) where
  address_now : Bool → NodeState → Networks → Text
  unfolding address_or_none
  address_now false s networks = []
  address_now true s networks =
      address_or_none
        (node_address decode places run.root_known networks (run.view s.name) run.arp s)

  unfoldable pub list_owned : NodeState → Bool × NodeState → Machine Info
  unfolding address_now info_of is_changed save_changed
  list_owned before (owned, s) w =
      let ip = address_now owned s w.networks in
      (save_changed (is_changed before s (status_of owned) ip) (run.written s.name)
            (refreshed owned s ip)
          >> λ v. (ok (info_of s (status_of owned) ip), v))
        w

  unfoldable pub list_entry : Text → Machine Info
  unfolding list_owned
  list_entry name =
      load_state name >>= λ s. list_owned s (process_owned hash places (run.look name) s)

  -- The loop over the entries; an error ends it.
  unfoldable pub list_entries : Text → List Text → Machine (List Info)
  unfolding list_entry
  list_entries prefix [] w = (ok [], w)
  list_entries prefix (name ∷ names) w =
      let next = list_entries prefix names in
      if has_prefix prefix name
      then (list_entry name >>= λ i. next >>= λ is. λ v. (ok (i ∷ is), v)) w
      else next w

  -- `List`: the entries of the directory, sorted by name in the end.
  unfoldable pub list_machines : Text → Machine (List Info)
  unfolding list_entries sort_infos
  list_machines prefix =
      check run.locked store_not_locked
      >> (check run.listed not_listed >> λ w.
          (list_entries prefix (entry_names w.nodes) >>= λ is. λ v. (ok (sort_infos is), v)) w)

-- `updateState` with an address.
unfoldable pub update_ip : Bool → Bool → Text → Text → Machine (Unit {0})
update_ip locked written name ip =
    check locked store_not_locked
    >> (load_state name >>= λ s. save_state written (record s { ip = ip }))

-- The ends of `execContext` and `IP`: the address is recorded if it is new, and a failure of that
-- is ignored.
unfoldable pub record_ip : Bool → Bool → Text → NodeState → Text → Machine (Unit {0})
unfolding update_ip
record_ip locked written name s ip w =
    if not (ip === []) && not (ip === s.ip)
    then (ok tt, (update_ip locked written name ip w).1)
    else (ok tt, w)
