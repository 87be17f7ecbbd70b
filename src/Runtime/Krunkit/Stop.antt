-- ===== src/Runtime/Krunkit/Stop.antt =====
-- Stopping a machine: `stopLocked` (pkg/runtime/krunkit.go).
pub mod Safe
pub mod Done
use kiac.Base.Exec.{◌>>=◌}
use kiac.Runtime.Krunkit.Process.{poll}
use kiac.Base.{
  if◌then◌else◌, ◌===◌, Text, text, Result, ok, err, pos, Bool, true, false, ◌&&◌, List, [], nat_eq,
  bool_eq, text_eq, pair_eq, int_eq,
}
use kiac.Runtime.Krunkit.World.{
  Machine, MachineError, load_state, save_state, send, signal_error, still_running,
}
use kiac.Runtime.Krunkit.Nodes.{NodeError, NodeState, Places, short_socket_path}
use kiac.Runtime.Krunkit.Process.{
  Seen, Sent, process_owned, sigkill, signal_failed, signal_process, sigterm,
}

-- What happens while a machine is stopped: the looks at its process, the answers to the request and
-- the signals, and whether the state can be written. A list of looks is a wait with its deadline.
pub record StopRun : Type 0 where
  pub at_start : Seen
  pub request_accepted : Bool
  pub after_request : List Seen
  pub before_term : Seen
  pub term_group : Sent
  pub term_single : Sent
  pub after_term : List Seen
  pub before_kill : Seen
  pub kill_group : Sent
  pub kill_single : Sent
  pub after_kill : List Seen
  pub at_end : Seen
  pub written : Bool

abbrev pub stopped : Text
stopped = text "stopped"

-- The state with no process.
abbrev pub without_process : NodeState → NodeState
without_process state = record state {
  pid = pos 0;
  process_start = [];
  process_command_hash = [];
  status = stopped;
}

module _ (hash : Text → Text) (places : Places) (run : StopRun) where
  same_socket : Result NodeError Text → NodeState → Bool
  same_socket (err e) state = state.rest_socket === []
  same_socket (ok path) state = state.rest_socket === path

  -- The request is made to the machine's own socket alone.
  request_phase : Text → NodeState → NodeState
  unfolding same_socket
  request_phase name state =
      if same_socket (short_socket_path places name) state && run.request_accepted
      then poll hash places run.after_request state
      else state

  term_owned : Bool × NodeState → Machine NodeState
  term_owned (false, s) w = (ok s, w)
  term_owned (true, s) w =
      if signal_failed (signal_process run.term_group run.term_single)
      then (err signal_error, send run.term_group s.pid sigterm w)
      else (ok (poll hash places run.after_term s), send run.term_group s.pid sigterm w)

  term_phase : NodeState → Machine NodeState
  unfolding term_owned
  term_phase state = term_owned (process_owned hash places run.before_term state)

  exited : Bool × NodeState → Result MachineError NodeState
  exited (true, s) = err still_running
  exited (false, s) = ok s

  kill_owned : Bool × NodeState → Machine NodeState
  unfolding exited
  kill_owned (false, s) w = (ok s, w)
  kill_owned (true, s) w =
      if signal_failed (signal_process run.kill_group run.kill_single)
      then (err signal_error, send run.kill_group s.pid sigkill w)
      else (
        exited (process_owned hash places run.at_end (poll hash places run.after_kill s)),
        send run.kill_group s.pid sigkill w,
      )

  kill_phase : NodeState → Machine NodeState
  unfolding kill_owned
  kill_phase state = kill_owned (process_owned hash places run.before_kill state)

  -- A machine whose process is not there keeps its address; one that is stopped loses it.
  stop_owned : Text → Bool × NodeState → Machine (Unit {0})
  unfolding request_phase term_phase kill_phase
  stop_owned name (false, s) = save_state run.written (without_process s)
  stop_owned name (true, s) = term_phase (request_phase name s) >>= kill_phase >>= λ last.
      save_state run.written (record (without_process last) { ip = [] })

  -- `stopLocked`
  unfoldable pub stop_locked : Text → Machine (Unit {0})
  unfolding stop_owned
  stop_locked name =
      load_state name >>= λ state. stop_owned name (process_owned hash places run.at_start state)
