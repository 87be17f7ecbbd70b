-- ===== src/Runtime/Krunkit/Remove.antt =====
-- Removing machines and the networks that none uses: `Remove` and `removeUnusedNetwork`
-- (pkg/runtime/krunkit.go).
pub mod Unused
pub mod Kept
use kiac.Base.{
  if◌then◌else◌, ◌===◌, Text, Result, ok, err, Bool, false, not, ◌&&◌, ◌||◌, Option, none, some,
  List, [], ◌∷◌, nat_eq, bool_eq, text_eq, pair_eq, int_eq,
}
use kiac.Base.Dict.{remove, put}
use kiac.Runtime.Krunkit.World.{MachineError, World, node_error, not_removed}
use kiac.Runtime.Krunkit.Nodes.{NodeError, NodeState, Nodes, Places, owns, read_state}
use kiac.Runtime.Krunkit.Stop.{StopRun, stop_locked}
use kiac.Runtime.Krunkit.Network.{network_file, valid_network_id}

is_user : Text → Result NodeError NodeState → Bool
is_user id (err e) = false
is_user id (ok state) = state.network_id === id

-- One of the entries that are listed is a readable machine of the network.
any_user : (Text → Bool) → Text → Nodes → List Text → Bool
unfolding is_user
any_user listed id nodes [] = false
any_user listed id nodes (entry ∷ entries) =
    (listed entry && is_user id (read_state nodes entry)) || any_user listed id nodes entries

abbrev pub entry_names : Nodes → List Text
entry_names [] = []
entry_names ((name, dir) ∷ nodes) = name ∷ entry_names nodes

-- What the host answers to `removeUnusedNetwork`: whether the state directory is known, which names
-- `os.ReadDir` lists and can then be read, as errors of both are ignored, and whether `os.Remove`
-- removes the file.
pub record Tidying : Type 0 where
  pub root_known : Bool
  pub listed : Text → Bool
  pub file_removed : Bool

-- `removeUnusedNetwork`
unfoldable pub remove_unused_network : Tidying → Text → World → World
unfolding any_user
remove_unused_network t id w =
    if not (valid_network_id id)
      || not t.root_known
      || any_user t.listed id w.nodes (entry_names w.nodes)
    then w
    else if t.file_removed
    then record w { networks = remove (network_file id) w.networks }
    else w

-- What `os.RemoveAll` leaves of a machine's directory.
pub data Removal : Type 0 where
  all_removed : Removal
  state_removed : Removal
  state_kept : Removal

unfoldable pub remove_all : Removal → Text → Nodes → Nodes
remove_all all_removed name nodes = remove name nodes
remove_all state_removed name nodes = put name none nodes
remove_all state_kept name nodes = nodes

-- What happens while one machine is removed.
pub record RemoveRun : Type 0 where
  pub stopping : StopRun
  pub removal : Removal
  pub tidying : Tidying

abbrev first_error : Option MachineError → MachineError → Option MachineError
first_error none e = some e
first_error (some first) e = some first

removal_error : Removal → Option MachineError → Option MachineError
removal_error all_removed first = first
removal_error state_removed first = first_error first not_removed
removal_error state_kept first = first_error first not_removed

module _ (hash : Text → Text) (places : Places) where
  removed :
      Text
      → NodeState
      → RemoveRun
      → Option MachineError
      → Result MachineError (Unit {0}) × World
      → Option MachineError × World
  unfolding removal_error
  removed name state run first (err e, w) = (first_error first e, w)
  removed name state run first (ok u, w) = (
    removal_error run.removal first,
    remove_unused_network run.tidying state.network_id
        (record w { nodes = remove_all run.removal name w.nodes }),
  )

  remove_read :
      Text
      → RemoveRun
      → Result NodeError NodeState
      → Option MachineError
      → World
      → Option MachineError × World
  unfolding removed
  remove_read name run (err e) first w = (first_error first (node_error e), w)
  remove_read name run (ok state) first w =
      removed name state run first (stop_locked hash places run.stopping name w)

  -- One round of the loop: machines that are not there are passed over, the first error is kept.
  remove_one : Text → RemoveRun → Option MachineError × World → Option MachineError × World
  unfolding remove_read
  remove_one name run (first, w) =
      if owns w.nodes name
      then remove_read name run (read_state w.nodes name) first w
      else (first, w)

  -- The loop of `Remove`, with what happens to each machine.
  unfoldable pub remove_machines :
      List (Text × RemoveRun) → Option MachineError × World → Option MachineError × World
  unfolding remove_one
  remove_machines [] r = r
  remove_machines ((name, run) ∷ rest) r = remove_machines rest (remove_one name run r)
