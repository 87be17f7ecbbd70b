-- ===== src/Runtime/Krunkit/Create.antt =====
-- Creating a machine: `RunDetached` (pkg/runtime/krunkit.go).
pub mod Kept
use kiac.Base.{
  Text, text, Result, ok, err, pos, Bool, true, false, not, Option, none, some, [], ◌++◌, nat_eq,
  bool_eq, text_eq, pair_eq, int_eq,
}
use kiac.Base.Exec.{◌>>=◌, ◌>>◌}
use kiac.Runtime.Krunkit.Network.{
  Network, Host, NetworkError, Networks, ensure_network, state_schema,
}
use kiac.Runtime.Krunkit.World.{
  Machine, MachineError, World, already_exists, disk_not_cloned, network_error, no_mac,
  no_node_directory, no_seed, no_ssh_key, save_state, store_not_locked, directory, require, check,
}
use kiac.Runtime.Krunkit.Nodes.{
  NodeDir, NodeState, Nodes, Places, node_dir, owns, short_socket_path,
}
use kiac.Runtime.Krunkit.Plan.{OptionsRun, Plan, plan_options}
use kiac.Runtime.Krunkit.Remove.{Tidying, Removal, remove_all, remove_unused_network}
use kiac.Runtime.Routed.{RunOpts}
use kiac.Runtime.Krunkit.Start.{StartRun, start_state}
use kiac.Base.Dict.{get, put}
use kiac.Runtime.Krunkit.Stop.{stopped}

-- What the host answers while a machine is created. `none` stands for a call that fails.
pub record CreateRun : Type 0 where
  pub options : OptionsRun
  pub locked : Bool
  pub host : Host
  pub directory_made : Bool
  pub public_key : Option Text
  pub mac : Option Text
  pub created : Text
  pub disk_cloned : Bool
  pub seed_made : Bool
  pub written : Bool
  pub starting : StartRun
  -- what the removal of the directory leaves, where the creation fails
  pub cleanup : Removal
  pub tidying : Tidying

lifted : Result MachineError Plan → World → Result MachineError Plan × World
lifted r w = (r, w)

unfoldable pub ensured :
    Result NetworkError Network × Networks → World → Result MachineError Network × World
ensured (ok n, networks) w = (ok n, record w { networks = networks })
ensured (err e, networks) w = (err (network_error e), record w { networks = networks })

-- `ensureNetwork` on the networks of the world.
unfoldable pub ensure : Host → Text → Machine Network
unfolding ensured
ensure host id w = ensured (ensure_network host id w.networks) w

-- A new directory has no state file; one that is there stays as it is.
made_directory : Option NodeDir → Text → Nodes → Nodes
made_directory none name nodes = put name none nodes
made_directory (some dir) name nodes = nodes

make_directory : Bool → Text → Machine (Unit {0})
unfolding made_directory
make_directory false name w = (err no_node_directory, w)
make_directory true name w =
    (ok tt, record w { nodes = made_directory (get name w.nodes) name w.nodes })

-- `defer`: what was made is removed where the creation fails.
unfoldable pub cleaned :
    Tidying
    → Text
    → Text
    → Removal
    → Result MachineError (Unit {0}) × World
    → Result MachineError (Unit {0}) × World
cleaned t name id removal (ok u, w) = (ok tt, w)
cleaned t name id removal (err e, w) =
    (err e, remove_unused_network t id (record w { nodes = remove_all removal name w.nodes }))

module _ (hash : Text → Text) (places : Places) (run : CreateRun) (opts : RunOpts) where
  -- The state of a new machine that is not running yet.
  pub new_state : Plan → Network → Text → Text → Text → NodeState
  new_state plan network dir mac socket = record {
    schema = state_schema;
    name = opts.name;
    image = plan.image;
    distro = opts.distro;
    k8s_version = opts.k8s_version;
    gpu = opts.gpu;
    disk = dir ++ text "/disk.img";
    seed = dir ++ text "/cidata.iso";
    rest_socket = socket;
    mac = mac;
    ip = [];
    cpus = plan.cpus;
    memory_mib = plan.memory_mib;
    gpu_memory_mib = plan.gpu_memory_mib;
    network_id = opts.network_id;
    network_cidr = network.cidr;
    ssh_user = text "fedora";
    pid = pos 0;
    process_start = [];
    process_command_hash = [];
    status = stopped;
    created = run.created;
    mounts = opts.mounts;
    nested = opts.virtualization;
    guest_address_report = true;
    address_generation = [];
  }

  -- From the directory to the start.
  pub build : Plan → Network → Machine (Unit {0})
  unfolding make_directory new_state
  build plan network = do
    dir ← directory (node_dir places opts.name)
    make_directory run.directory_made opts.name
    key ← require run.public_key no_ssh_key
    mac ← require run.mac no_mac
    socket ← directory (short_socket_path places opts.name)
    check run.disk_cloned disk_not_cloned
    check run.seed_made no_seed
    save_state run.written (new_state plan network dir mac socket)
    start_state hash places run.starting (new_state plan network dir mac socket)

  -- The part behind the lock.
  create_locked : Plan → Machine (Unit {0})
  unfolding build
  create_locked plan = do
    w ← λ w. (ok (owns w.nodes opts.name), w)
    check (not w) (already_exists opts.name)
    network ← ensure run.host opts.network_id
    λ w. cleaned run.tidying opts.name opts.network_id run.cleanup (build plan network w)

  -- `RunDetached`
  unfoldable pub run_detached : Machine (Unit {0})
  unfolding create_locked lifted
  run_detached = do
    plan ← lifted (plan_options run.options opts)
    check run.locked store_not_locked
    create_locked plan
