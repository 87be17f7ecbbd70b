-- ===== src/Runtime/Krunkit/World.antt =====
-- What the lifecycle of krunkit machines changes: the inventory, the networks, the commands that
-- were started and the calls of `kill` with a signal; its errors.
pub mod Sends
pub mod Steps
use kiac.Base.{Text, Result, ok, err, ℤ, Bool, true, false, Option, none, some, List, [], ◌∷◌, ◌++◌}
use kiac.Base.Exec.{Exec}
use kiac.Runtime.Mount.{InvalidMount}
use kiac.Runtime.Krunkit.Network.{NetworkError, Networks}
use kiac.Runtime.Krunkit.Nodes.{NodeError, NodeState, Nodes, read_state, write_state}
use kiac.Runtime.Krunkit.Process.{Sent, Signal, Target, kill_calls}
use kiac.Runtime.Krunkit.Sizes.{SizeError}

pub record World : Type 0 where
  pub nodes : Nodes
  pub networks : Networks
  pub launched : List (List Text)
  pub signals : List (Target × Signal)

pub data MachineError : Type 0 where
  node_error : NodeError → MachineError
  network_error : NetworkError → MachineError
  size_error : SizeError → MachineError
  invalid_mount : InvalidMount → MachineError
  overlapping : Text → MachineError
  no_image : MachineError
  not_regular : MachineError
  unsupported_options : MachineError
  invalid_memory : MachineError
  memory_range : MachineError
  disk_too_small : MachineError
  host_memory_unknown : MachineError
  no_nested : MachineError
  store_not_locked : MachineError
  already_exists : Text → MachineError
  no_node_directory : MachineError
  no_ssh_key : MachineError
  no_mac : MachineError
  disk_not_cloned : MachineError
  no_seed : MachineError
  no_binary : MachineError
  unsafe_disk : MachineError
  unsafe_socket : MachineError
  no_address_report : MachineError
  no_log : MachineError
  not_launched : MachineError
  no_identity : MachineError
  not_released : MachineError
  signal_error : MachineError
  still_running : MachineError
  not_removed : MachineError
  not_listed : MachineError

abbrev pub Machine : Type 0 → Type 0
Machine = Exec MachineError World

-- An operation on the inventory alone.
unfoldable pub on_nodes :
    Result NodeError (Unit {0}) × Nodes → World → Result MachineError (Unit {0}) × World
on_nodes (ok u, nodes) w = (ok tt, record w { nodes = nodes })
on_nodes (err e, nodes) w = (err (node_error e), record w { nodes = nodes })

unfoldable pub save_state : Bool → NodeState → Machine (Unit {0})
unfolding on_nodes
save_state written state w = on_nodes (write_state written state w.nodes) w

unfoldable pub loaded : Result NodeError NodeState → World → Result MachineError NodeState × World
loaded (ok state) w = (ok state, w)
loaded (err e) w = (err (node_error e), w)

unfoldable pub load_state : Text → Machine NodeState
unfolding loaded
load_state name w = loaded (read_state w.nodes name) w

-- The calls of one `signalProcess`, with the answer to the first of them.
abbrev pub send : Sent → ℤ → Signal → World → World
send answer pid signal w = record w { signals = w.signals ++ kill_calls answer pid signal }

-- An answer that must be there, a condition that must hold, and a name that must be valid.
unfoldable pub require : {A : Type 0} → Option A → MachineError → Machine A
require none e w = (err e, w)
require (some a) e w = (ok a, w)

unfoldable pub check : Bool → MachineError → Machine (Unit {0})
check true e w = (ok tt, w)
check false e w = (err e, w)

unfoldable pub directory : Result NodeError Text → Machine Text
directory (ok dir) w = (ok dir, w)
directory (err e) w = (err (node_error e), w)
