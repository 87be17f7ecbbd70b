-- ===== src/Runtime/Krunkit/Nodes.antt =====
-- The durable inventory of krunkit machines: `KrunkitNodeState`, its names and paths, `readState`,
-- `writeState` and `Owns` (pkg/runtime/krunkit_state.go and pkg/runtime/krunkit.go).
pub mod Reads
use kiac.Base.{
  ltb, ◌==◌, between, if◌then◌else◌, ◌===◌, Text, text, length, Result, ok, err, ℤ, ℕ, zero, suc,
  ◌+◌, ◌-◌, ◌/◌, ◌%◌, Bool, true, false, not, ◌&&◌, ◌||◌, Option, none, some, List, [], ◌∷◌, ◌++◌,
  nat_eq, bool_eq, text_eq, pair_eq, int_eq,
}
use kiac.Base.Dict.{Dict, get, put}
use kiac.Base.Exec.{Exec}
use kiac.Runtime.Krunkit.Network.{File, fnv32, malformed, saved, state_schema, unreadable}
use kiac.Runtime.Mount.{Mount}

-- `KrunkitNodeState`
pub record NodeState : Type 0 where
  pub schema : ℤ
  pub name : Text
  pub image : Text
  pub distro : Text
  pub k8s_version : Text
  pub gpu : Bool
  pub disk : Text
  pub seed : Text
  pub rest_socket : Text
  pub mac : Text
  pub ip : Text
  pub cpus : ℤ
  pub memory_mib : ℕ
  pub gpu_memory_mib : ℕ
  pub network_id : Text
  pub network_cidr : Text
  pub ssh_user : Text
  pub pid : ℤ
  pub process_start : Text
  pub process_command_hash : Text
  pub status : Text
  pub created : Text
  pub mounts : List Mount
  pub nested : Bool
  pub guest_address_report : Bool
  pub address_generation : Text

pub data NodeError : Type 0 where
  invalid_name : Text → NodeError
  unreadable_state : NodeError
  malformed_state : NodeError
  other_state : NodeError
  state_not_written : NodeError

is_name_byte : ℕ → Bool
is_name_byte c = between b'a' b'z' c || between b'0' b'9' c

-- The bytes behind the first one; a dash must not be the last.
rest_of_name : Text → Bool
unfolding is_name_byte
rest_of_name [] = true
rest_of_name (c ∷ []) = is_name_byte c
rest_of_name (c ∷ d ∷ s) = (is_name_byte c || c == b'-') && rest_of_name (d ∷ s)

name_bytes : Text → Bool
unfolding rest_of_name
name_bytes [] = true
name_bytes (c ∷ s) = is_name_byte c && rest_of_name s

-- `validVMName`
unfoldable pub valid_vm_name : Text → Bool
unfolding name_bytes
valid_vm_name name = not (length name == 0 || ltb 63 (length name)) && name_bytes name

-- The places of files: the state directory and the directory for temporary files, both clean.
pub record Places : Type 0 where
  pub root : Text
  pub temp : Text

-- `nodeDir`
unfoldable pub node_dir : Places → Text → Result NodeError Text
node_dir places name =
    if valid_vm_name name
    then ok (places.root ++ (text "/nodes/" ++ name))
    else err (invalid_name name)

hex_digit : ℕ → ℕ
hex_digit n = if ltb n 10 then b'0' + n else b'a' + (n - 10)

-- The last digits of a number in base 16, in front of `out`.
hex_from : ℕ → ℕ → Text → Text
unfolding hex_digit
hex_from zero n out = out
hex_from (suc digits) n out = hex_from digits (n / 16) (hex_digit (n % 16) ∷ out)

-- `shortSocketPath`: a hash of 32 bits is eight digits.
unfoldable pub short_socket_path : Places → Text → Result NodeError Text
unfolding hex_from
short_socket_path places name =
    if valid_vm_name name
    then ok (
        places.temp
        ++ (text "/kiac-krunkit-"
            ++ (hex_from 8 (fnv32 (places.root ++ (0 ∷ name))) [] ++ text ".sock")))
    else err (invalid_name name)

-- What is in a directory of `nodes`: its state file, if it has one.
abbrev pub NodeDir : Type 0
NodeDir = Option (File NodeState)

abbrev pub Nodes : Type 0
Nodes = Dict Text NodeDir

checked_state : Text → NodeState → Result NodeError NodeState
checked_state name state =
    if state.schema === state_schema && state.name === name then ok state else err other_state

-- A directory or a state file that is missing cannot be read.
read_file : Text → Option NodeDir → Result NodeError NodeState
unfolding checked_state
read_file name none = err unreadable_state
read_file name (some none) = err unreadable_state
read_file name (some (some unreadable)) = err unreadable_state
read_file name (some (some malformed)) = err malformed_state
read_file name (some (some (saved state))) = checked_state name state

-- `readState`
unfoldable pub read_state : Nodes → Text → Result NodeError NodeState
unfolding read_file
read_state nodes name =
    if valid_vm_name name then read_file name (get name nodes) else err (invalid_name name)

-- `writeState`; the first argument says whether the file can be written.
unfoldable pub write_state : Bool → NodeState → Exec NodeError Nodes (Unit {0})
write_state written state nodes =
    if not (valid_vm_name state.name)
    then (err (invalid_name state.name), nodes)
    else if written
    then (ok tt, put state.name (some (saved state)) nodes)
    else (err state_not_written, nodes)

has_state_file : Option NodeDir → Bool
has_state_file none = false
has_state_file (some none) = false
has_state_file (some (some f)) = true

-- `Owns`: the state file is there, whether or not it can be read.
unfoldable pub owns : Nodes → Text → Bool
unfolding has_state_file
owns nodes name = valid_vm_name name && has_state_file (get name nodes)
