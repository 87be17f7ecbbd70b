-- ===== src/Runtime/Krunkit/Process.antt =====
-- The processes behind krunkit machines: `processOwned`, the waits and the signals
-- (pkg/runtime/krunkit.go). SHA-256 is a parameter.
pub mod Identity
pub mod Keeps
use kiac.Base.{
  if◌then◌else◌, ◌===◌, Text, Result, ok, err, ℤ, Bool, true, false, not, ◌&&◌, ◌||◌, Option, none,
  some, List, [], ◌∷◌, is_positive, nat_eq, bool_eq, text_eq, pair_eq, int_eq,
}
use kiac.Runtime.Krunkit.Nodes.{NodeError, NodeState, Places, node_dir}
use kiac.Go.Strings.{contains, trim_space}

-- What one look at a process id finds: whether signal 0 can be sent, and what `ps` prints for its
-- start and its command, `none` if ps fails.
pub record Seen : Type 0 where
  pub alive : Bool
  pub lstart : Option Text
  pub command : Option Text

not_empty : Text → Option Text
not_empty [] = none
not_empty (c ∷ s) = some (c ∷ s)

-- `processStartTime`
unfoldable pub process_start_time : Option Text → Option Text
unfolding not_empty
process_start_time none = none
process_start_time (some out) = not_empty (trim_space out)

-- `processCommand`
unfoldable pub process_command : Option Text → Option Text
process_command none = none
process_command (some out) = some (trim_space out)

in_command : Result NodeError Text → Text → Bool
in_command (err e) command = false
in_command (ok dir) command = contains dir command

abbrev pub after_look : Bool × NodeState → NodeState → NodeState
after_look (true, s) rest = rest
after_look (false, s) rest = s

module _ (hash : Text → Text) (places : Places) where
  -- A process that was recorded with its identity must have the same command; one that was not is
  -- taken over if its command names the machine.
  known_command : NodeState → Text → Text → Bool × NodeState
  unfolding in_command
  known_command state started command =
      if not (state.process_start === []) && not (state.process_command_hash === [])
      then (state.process_command_hash === hash command, state)
      else if in_command (node_dir places state.name) command
          || (not (state.rest_socket === []) && contains state.rest_socket command)
      then (true, record state { process_start = started; process_command_hash = hash command })
      else (false, state)

  with_command : NodeState → Text → Option Text → Bool × NodeState
  unfolding known_command
  with_command state started none = (false, state)
  with_command state started (some command) =
      if not (state.process_start === []) && not (state.process_start === started)
      then (false, state)
      else known_command state started command

  with_start : NodeState → Option Text → Option Text → Bool × NodeState
  unfolding with_command
  with_start state none command = (false, state)
  with_start state (some started) command = with_command state started command

  -- `processOwned`: the state changes where an identity is taken over.
  unfoldable pub process_owned : Seen → NodeState → Bool × NodeState
  unfolding with_start process_start_time process_command
  process_owned seen state =
      if is_positive state.pid && seen.alive
      then with_start state (process_start_time seen.lstart) (process_command seen.command)
      else (false, state)

  -- `for c.processOwned(&state) && time.Now().Before(deadline)`: the looks until the deadline.
  unfoldable pub poll : List Seen → NodeState → NodeState
  poll [] state = state
  poll (seen ∷ more) state =
      after_look (process_owned seen state) (poll more (process_owned seen state).1)

pub data Signal : Type 0 where
  sigterm sigkill : Signal

-- What `kill` returns.
pub data Sent : Type 0 where
  delivered no_process not_permitted other_error : Sent

-- What `kill` is called for: the group of a process id, `-pid`, or the process alone, `pid`.
pub data Target : Type 0 where
  group single : ℤ → Target

-- The calls of `signalProcess`, by the answer to the first of them.
unfoldable pub kill_calls : Sent → ℤ → Signal → List (Target × Signal)
kill_calls delivered pid signal = (group pid, signal) ∷ []
kill_calls no_process pid signal = (group pid, signal) ∷ (single pid, signal) ∷ []
kill_calls not_permitted pid signal = (group pid, signal) ∷ (single pid, signal) ∷ []
kill_calls other_error pid signal = (group pid, signal) ∷ []

-- `signalProcess`: the process group first, the process alone if that fails for these reasons.
unfoldable pub signal_process : Sent → Sent → Sent
signal_process delivered alone = delivered
signal_process no_process alone = alone
signal_process not_permitted alone = alone
signal_process other_error alone = other_error

-- `err != nil && !errors.Is(err, syscall.ESRCH)`
abbrev pub signal_failed : Sent → Bool
signal_failed delivered = false
signal_failed no_process = false
signal_failed not_permitted = true
signal_failed other_error = true
