-- ===== src/Runtime/Krunkit/Examples/Machines.antt =====
-- A machine, what the host answers about it, and operations on it (pkg/runtime/krunkit.go).
use kiac.Base.{Text, text, pos, true, false, none, some, [], ◌∷◌, nat_eq, bool_eq, text_eq, pair_eq}
use kiac.Runtime.Krunkit.Create.{CreateRun}
use kiac.Runtime.Krunkit.Address.{GuestReport, ReportView, Decoder}
use kiac.Runtime.Krunkit.Nodes.{NodeState, Places}
use kiac.Runtime.Routed.{RunOpts}
use kiac.Runtime.Krunkit.Process.{Seen, delivered}
use kiac.Runtime.Krunkit.Start.{StartRun}
use kiac.Runtime.Krunkit.Stop.{StopRun}
use kiac.Runtime.Krunkit.World.{World}
use kiac.Runtime.Krunkit.Remove.{all_removed}
use kiac.Runtime.Krunkit.Network.{network_file, new_network, saved, Network}
use kiac.Runtime.Krunkit.Listing.{ListRun}

abbrev pub places : Places
places = record { root = text "/s"; temp = text "/tmp" }

-- A hash that is never empty.
abbrev pub digest_of : Text → Text
digest_of command = b'h' ∷ command

abbrev pub demo_state : NodeState
demo_state = record {
  schema = pos 1;
  name = text "demo-1";
  image = text "/i.raw";
  distro = text "k3s";
  k8s_version = text "v1.37.0";
  gpu = true;
  disk = text "/s/nodes/demo-1/disk.img";
  seed = text "/s/nodes/demo-1/cidata.iso";
  rest_socket = text "/tmp/kiac-krunkit-689f66e0.sock";
  mac = text "02:00:00:00:00:01";
  ip = text "192.168.130.7";
  cpus = pos 2;
  memory_mib = 4096;
  gpu_memory_mib = 8192;
  network_id = text "demo";
  network_cidr = text "192.168.130.0/24";
  ssh_user = text "fedora";
  pid = pos 77;
  process_start = text "Mon";
  process_command_hash = digest_of (text "vm");
  status = text "running";
  created = text "2026";
  mounts = [];
  nested = false;
  guest_address_report = true;
  address_generation = text "g1";
}

abbrev pub demo_network : Network
demo_network = new_network (text "demo") 130

abbrev pub demo_world : World
demo_world = record {
  nodes = (text "demo-1", some (saved demo_state)) ∷ [];
  networks = (network_file (text "demo"), saved demo_network) ∷ [];
  launched = [];
  signals = [];
}

abbrev pub seen_vm : Seen
seen_vm = record { alive = true; lstart = some (text " Mon\n"); command = some (text "vm\n") }

abbrev pub seen_gone : Seen
seen_gone = record { alive = false; lstart = none; command = none }

-- The machine does not answer, and ends when it is told to.
abbrev pub stop_run : StopRun
stop_run = record {
  at_start = seen_vm;
  request_accepted = false;
  after_request = [];
  before_term = seen_vm;
  term_group = delivered;
  term_single = delivered;
  after_term = seen_vm ∷ seen_gone ∷ [];
  before_kill = seen_gone;
  kill_group = delivered;
  kill_single = delivered;
  after_kill = [];
  at_end = seen_gone;
  written = true;
}

-- A start whose process cannot be identified.
abbrev pub start_run : StartRun
start_run = record {
  at_start = seen_gone;
  nested_supported = false;
  vmnet_run = some (text "/v");
  krunkit = some (text "/k");
  root_known = true;
  generation = some (text "g2");
  log_opened = true;
  launched_pid = some 78;
  launched_seen = seen_gone;
  written = true;
  released = true;
  term_group = delivered;
  kill_group = delivered;
  ends_in_time = true;
}

abbrev pub opts : RunOpts
opts = record {
  backend = text "krunkit";
  name = text "demo-1";
  image = text "i.raw";
  distro = text "k3s";
  k8s_version = text "v1.37.0";
  gpu = true;
  cpus = text "2";
  memory = text "4G";
  disk_size = [];
  network_id = text "demo";
  env = [];
  entrypoint = [];
  kernel = [];
  args = [];
  dns = [];
  mounts = [];
  publish = [];
  virtualization = false;
}

abbrev pub create_run : CreateRun
create_run = record {
  options = record {
    absolute_image = some (text "/i.raw");
    image_size = some 1000;
    stat = λ path. some true;
    configured_memory = pos 65536;
    hw_memsize = none;
    nested_supported = false;
  };
  locked = true;
  host = record {
    root_known = true;
    directory_made = true;
    interfaces = [];
    listed = λ name. true;
    written = true;
  };
  directory_made = true;
  public_key = some (text "key");
  mac = some (text "02:00:00:00:00:01");
  created = text "2026";
  disk_cloned = true;
  seed_made = true;
  written = true;
  starting = record start_run { launched_seen = seen_vm };
  cleanup = all_removed;
  tidying = record { root_known = true; listed = λ name. true; file_removed = true };
}

abbrev pub demo_report : GuestReport
demo_report = record {
  schema = pos 1;
  name = text "demo-1";
  mac = text "02:0:0:0:0:1";
  generation = text "g1";
  ipv4 = text "192.168.130.9";
}

abbrev pub report_view : ReportView
report_view = record {
  directory = true;
  file = some (record { regular = true; size = 90; raw = some (text "{}") });
}

abbrev pub decode : Decoder
decode raw = some (record demo_report { mac = text "02:00:00:00:00:01" }, true)

-- Machines that are gone from the host.
abbrev pub list_run : ListRun
list_run = record {
  locked = true;
  listed = true;
  look = λ name. seen_gone;
  view = λ name. report_view;
  arp = [];
  root_known = true;
  written = λ name. true;
}
