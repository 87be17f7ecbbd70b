-- ===== src/Runtime/Krunkit/Start.antt =====
-- Starting a machine: `startState` and the command it runs (pkg/runtime/krunkit.go).
pub mod Outcome
use kiac.Base.{
  if◌then◌else◌, ◌===◌, Text, text, Result, ok, err, ℤ, pos, ℕ, ◌+◌, Bool, true, false, not, ◌&&◌,
  ◌||◌, Option, none, some, List, [], ◌∷◌, ◌++◌, nat_eq, bool_eq, text_eq, pair_eq, int_eq,
}
use kiac.Base.Exec.{◌>>=◌, ◌>>◌}
use kiac.Runtime.Krunkit.Network.{Network, NetworkError, load_network}
use kiac.Runtime.Krunkit.World.{
  Machine, MachineError, World, load_state, network_error, no_address_report, no_binary,
  no_identity, no_log, no_nested, not_launched, not_released, overlapping, save_state, send,
  unsafe_disk, unsafe_socket, node_error, directory, require, check,
}
use kiac.Runtime.Mount.{Mount}
use kiac.Runtime.Krunkit.Nodes.{NodeError, NodeState, Places, node_dir, short_socket_path}
use kiac.Runtime.Krunkit.Process.{
  Sent, Seen, process_command, process_owned, process_start_time, sigkill, sigterm,
}
use kiac.Go.Strconv.{itoa}
use kiac.Runtime.Krunkit.GuestMounts.{overlapping_mount}
use kiac.Runtime.Routed.{start}

-- What happens while a machine is started. `none` stands for a call that fails.
pub record StartRun : Type 0 where
  pub at_start : Seen
  pub nested_supported : Bool
  pub vmnet_run : Option Text
  pub krunkit : Option Text
  pub root_known : Bool
  -- the new boot generation, once the directory of the report is prepared
  pub generation : Option Text
  pub log_opened : Bool
  pub launched_pid : Option ℕ
  -- what ps tells of the new process
  pub launched_seen : Seen
  pub written : Bool
  pub released : Bool
  -- what `kill` answers for the group of the process, and whether it ends in time once it is told to
  pub term_group : Sent
  pub kill_group : Sent
  pub ends_in_time : Bool

abbrev pub running : Text
running = text "running"

abbrev pub guest_address_directory : Text
guest_address_directory = text "guest-status"

abbrev pub guest_address_mount_tag : Text
guest_address_mount_tag = text "kiac-status"

-- The device of a mount, tagged by its place.
pub mount_devices : ℕ → List Mount → List Text
mount_devices i [] = []
mount_devices i (m ∷ ms) =
    (text "--device=virtio-fs,sharedDir=" ++ (m.source ++ (text ",mountTag=kiac" ++ itoa (pos i))))
    ∷ mount_devices (i + 1) ms

report_device : Bool → Text → List Text
report_device false dir = []
report_device true dir =
    (text "--device=virtio-fs,sharedDir="
      ++ (dir
          ++ (text "/"
              ++ (guest_address_directory ++ (text ",mountTag=" ++ guest_address_mount_tag)))))
    ∷ []

-- The arguments of vmnet-run.
pub launch_args : Network → Text → Text → NodeState → List Text
unfolding mount_devices report_device
launch_args network krunkit dir state =
    text "--operation-mode=shared"
    ∷ (text "--start-address=" ++ network.start)
    ∷ (text "--end-address=" ++ network.end)
    ∷ (text "--subnet-mask=" ++ network.netmask)
    ∷ text "--"
    ∷ krunkit
    ∷ (text "--memory=" ++ itoa (pos state.memory_mib))
    ∷ (text "--cpus=" ++ itoa state.cpus)
    ∷ (text "--restful-uri=unix://" ++ state.rest_socket)
    ∷ (text "--pidfile=" ++ (dir ++ text "/krunkit.pid"))
    ∷ (text "--log-file=" ++ (dir ++ text "/krunkit.log"))
    ∷ text "--krun-log-level=1"
    ∷ (text "--device=virtio-blk,path=" ++ state.disk)
    ∷ (text "--device=virtio-blk,path=" ++ state.seed)
    ∷ (text "--device=virtio-serial,logFilePath=" ++ (dir ++ text "/serial.log"))
    ∷ text "--device=virtio-rng"
    ∷ (text "--device=virtio-net,type=unixgram,fd=4,mac=" ++ (state.mac ++ text ",offloading=off"))
    ∷ ((if state.nested then text "--nested" ∷ [] else [])
        ++ (report_device state.guest_address_report dir ++ mount_devices 0 state.mounts))

-- A network that was loaded.
found_network : Result NetworkError Network → World → Result MachineError Network × World
found_network (ok n) w = (ok n, w)
found_network (err e) w = (err (network_error e), w)

-- `terminateStartedCommand`: told to end, and killed if it does not in time.
terminate : Sent → Sent → Bool → ℤ → World → World
terminate term_group kill_group ends pid w =
    if ends
    then send term_group pid sigterm w
    else send kill_group pid sigkill (send term_group pid sigterm w)

no_overlap : Option Text → Machine (Unit {0})
no_overlap none w = (ok tt, w)
no_overlap (some target) w = (err (overlapping target), w)

module _ (hash : Text → Text) (places : Places) (run : StartRun) where
  -- The mounts are checked again for a machine that reports its address.
  check_report_mounts : NodeState → Machine (Unit {0})
  unfolding no_overlap
  check_report_mounts state =
      no_overlap (if state.guest_address_report then overlapping_mount state.mounts else none)

  -- The socket that a state names must be the machine's; one that names none gets it.
  with_socket : Text → NodeState → Machine NodeState
  with_socket expected state w =
      if state.rest_socket === []
      then (ok (record state { rest_socket = expected }), w)
      else if state.rest_socket === expected
      then (ok state, w)
      else (err unsafe_socket, w)

  -- `prepareGuestAddressReport`, for a machine that reports its address.
  prepared : Option Text → NodeState → Result MachineError NodeState
  prepared none state = err no_address_report
  prepared (some generation) state = ok (record state { address_generation = generation; ip = [] })

  prepare_report : NodeState → Machine NodeState
  unfolding prepared
  prepare_report state w =
      if state.guest_address_report then (prepared run.generation state, w) else (ok state, w)

  -- The state of a machine whose process has an identity.
  abbrev pub running_state : NodeState → ℕ → Text → Text → NodeState
  running_state state pid started command = record state {
    pid = pos pid;
    process_start = started;
    process_command_hash = hash command;
    ip = [];
    status = running;
  }

  -- The process is there: what fails now ends it.
  or_terminate : {A : Type 0} → ℕ → Result MachineError A × World → Result MachineError A × World
  unfolding terminate
  or_terminate pid (ok a, w) = (ok a, w)
  or_terminate pid (err e, w) =
      (err e, terminate run.term_group run.kill_group run.ends_in_time (pos pid) w)

  identify : NodeState → ℕ → Option Text → Option Text → Machine NodeState
  identify state pid none command w = (err no_identity, w)
  identify state pid (some started) none w = (err no_identity, w)
  identify state pid (some started) (some command) w =
      (ok (running_state state pid started command), w)

  recorded : NodeState → ℕ → Machine (Unit {0})
  unfolding identify check
  recorded state pid = do
    s ←
        identify state pid (process_start_time run.launched_seen.lstart)
          (process_command run.launched_seen.command)
    save_state run.written s
    check run.released not_released

  launch : List Text → NodeState → Option ℕ → World → Result MachineError (Unit {0}) × World
  unfolding or_terminate recorded
  launch command state none w = (err not_launched, w)
  launch command state (some pid) w =
      or_terminate pid (recorded state pid (record w { launched = w.launched ++ command ∷ [] }))

  -- A machine that has no process.
  start_new : NodeState → Machine (Unit {0})
  unfolding require check directory found_network check_report_mounts with_socket prepare_report
      launch launch_args
  start_new state = do
    check (not state.nested || run.nested_supported) no_nested
    vmnet_run ← require run.vmnet_run no_binary
    krunkit ← require run.krunkit no_binary
    network ← λ w. found_network (load_network run.root_known w.networks state.network_id) w
    dir ← directory (node_dir places state.name)
    check (state.disk === dir ++ text "/disk.img" && state.seed === dir ++ text "/cidata.iso")
        unsafe_disk
    check_report_mounts state
    expected ← directory (short_socket_path places state.name)
    socketed ← with_socket expected state
    ready ← prepare_report socketed
    check run.log_opened no_log
    launch (vmnet_run ∷ launch_args network krunkit dir ready) ready run.launched_pid

  start_owned : Bool × NodeState → Machine (Unit {0})
  unfolding start_new
  start_owned (true, s) = save_state run.written (record s { status = running })
  start_owned (false, s) = start_new s

  -- `startState`
  unfoldable pub start_state : NodeState → Machine (Unit {0})
  unfolding start_owned
  start_state state = start_owned (process_owned hash places run.at_start state)

  -- `Start`; the store is locked meanwhile.
  unfoldable pub start_machine : Text → Machine (Unit {0})
  start_machine name = load_state name >>= start_state
