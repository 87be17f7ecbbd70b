-- ===== src/Runtime/Krunkit/Examples/Lifecycle.antt =====
-- The theorems about the lifecycle of machines, at a concrete machine.
use mathlib.Core.List.{Permᴰ}
use kiac.Base.{
  text, ok, err, pos, ◌≡◌, refl, ◌⊎◌, true, false, none, some, List, [], ◌∷◌, text_beq, nat_eq,
  bool_eq, text_eq, pair_eq, int_eq,
}
use kiac.Runtime.Krunkit.Create.{ensure, run_detached, cleaned}
use kiac.Runtime.Krunkit.Address.{
  node_address, guest_address_dir, is_own_report, read_guest_address_report, read_guest_report_file,
  validate_node_ipv4,
}
use kiac.Runtime.Krunkit.Address.Valid.{IsNodeAddress}
use kiac.Runtime.Krunkit.Address.Discovered.{IsReported, node_address-IsNodeAddress}
use kiac.Runtime.Krunkit.Linked.{Linked}
use kiac.Runtime.Krunkit.Nodes.{
  NodeError, NodeState, node_dir, owns, read_state, short_socket_path, valid_vm_name, write_state,
}
use kiac.Runtime.Krunkit.Start.Outcome.{ToldToEnd, start_state-ToldToEnd}
use kiac.Runtime.Krunkit.Stop.Safe.{Own, stop_locked-Own}
use kiac.Runtime.Krunkit.Reachable.{
  Reachable-Linked, Reachable-Separated, after, creates, empty_world, nothing,
}
use kiac.Runtime.Krunkit.Process.{
  group, kill_calls, poll, process_command, process_owned, process_start_time, signal_process,
  sigterm, not_permitted, single,
}
use kiac.Runtime.Krunkit.World.Sends.{SendsOnly}
use kiac.Runtime.Krunkit.Start.{start_state}
use kiac.Runtime.Krunkit.Stop.{stop_locked, without_process}
use kiac.Runtime.Krunkit.Stop.Done.{Stopped, stop_locked-Stopped}
use kiac.Runtime.Krunkit.World.{
  directory, load_state, loaded, no_identity, node_error, on_nodes, require, save_state, check,
  World,
}
use kiac.Go.Strconv.{atoi, itoa, value_from}
use kiac.Go.Net.Cidr.{byte_at, parse_addr, parse_cidr, parse_prefix, prefix_contains}
use kiac.Runtime.Mount.{clean_absolute, validate_mounts}
use kiac.Go.Strings.{
  cut_byte, drop, has_byte, has_prefix, has_suffix, join, reverse_onto, split, to_lower, to_upper,
  trim_space, trim_suffix,
}
use kiac.Runtime.Krunkit.Sizes.{effective_gpu_memory, parse_cpu_count, parse_size_bytes}
use kiac.Runtime.Krunkit.Network.{ensure_network, fnv32, load_network, saved, valid_network_id}
use kiac.Base.Dict.{get, put, remove}
use kiac.Runtime.Krunkit.Mac.{is_mac, normalize_mac}
use kiac.Go.Net.Ip.{is_v4, kind, parse_ip}
use kiac.Runtime.Krunkit.Plan.{plan_options}
use kiac.Base.Exec.{◌>>=◌}
use kiac.Runtime.Krunkit.GuestMounts.{overlapping_mount}
use kiac.Runtime.Krunkit.Listing.{
  list_machines, record_ip, info_of, try_save, insert_info, list_entries, list_entry, list_owned,
  sort_infos, text_less,
}
use kiac.Runtime.Krunkit.Separated.{Separated}
use kiac.Runtime.Krunkit.Examples.Machines.{
  create_run, decode, demo_state, digest_of, list_run, opts, places, report_view, start_run,
  stop_run, demo_world,
}
use kiac.Runtime.Routed.{Info}
use kiac.Runtime.Krunkit.Listing.Sorted.{IsSorted, info_names, list_machines-IsSorted, with_prefix}
use kiac.Runtime.Krunkit.Remove.{entry_names, remove_unused_network}

stopped_demo : stop_locked digest_of places stop_run (text "demo-1") demo_world ≡ (
  ok tt,
  record demo_world {
    nodes = (text "demo-1", some (saved (record (without_process demo_state) { ip = [] }))) ∷ [];
    signals = (group (pos 77), sigterm) ∷ [];
  },
)
unfolding kill_calls stop_locked load_state loaded save_state on_nodes write_state read_state ◌>>=◌
    get put valid_vm_name process_owned process_start_time process_command poll signal_process
    short_socket_path trim_space text_beq fnv32
stopped_demo = refl

stop_locked-Own_example :
    ((state : NodeState) × (read_state demo_world.nodes (text "demo-1") ≡ ok state)
      × SendsOnly
          (Own digest_of places stop_run state)
          demo_world
          (stop_locked digest_of places stop_run (text "demo-1") demo_world).1)
    ⊎ ((stop_locked digest_of places stop_run (text "demo-1") demo_world).1.signals
        ≡ demo_world.signals)
unfolding text_beq
stop_locked-Own_example =
    stop_locked-Own digest_of places stop_run (λ command. refl) (text "demo-1") demo_world

stop_locked-Stopped_example :
    ((state : NodeState) × (read_state demo_world.nodes (text "demo-1") ≡ ok state)
      × Stopped state demo_world (stop_locked digest_of places stop_run (text "demo-1") demo_world))
    ⊎ ((e : NodeError) × (read_state demo_world.nodes (text "demo-1") ≡ err e)
        × (stop_locked digest_of places stop_run (text "demo-1") demo_world
            ≡ (err (node_error e), demo_world)))
stop_locked-Stopped_example =
    stop_locked-Stopped digest_of places stop_run (text "demo-1") demo_world

left_none : (start_state digest_of places start_run demo_state demo_world).0 ≡ err no_identity
unfolding start_state ◌>>=◌ get load_network node_dir short_socket_path save_state on_nodes
    write_state valid_vm_name process_owned process_start_time process_command parse_cidr parse_addr
    parse_ip cut_byte value_from byte_at is_v4 kind itoa text_beq require check directory
    overlapping_mount fnv32
left_none = refl

start_state-ToldToEnd_example :
    ToldToEnd start_run demo_world (start_state digest_of places start_run demo_state demo_world)
start_state-ToldToEnd_example =
    start_state-ToldToEnd digest_of places start_run demo_state demo_world

created_demo : (run_detached digest_of places create_run opts empty_world).0 ≡ ok tt
unfolding run_detached start_state ◌>>=◌ get put load_network ensure_network node_dir
    short_socket_path save_state on_nodes write_state valid_vm_name process_owned process_start_time
    process_command parse_cidr parse_addr parse_ip cut_byte value_from byte_at is_v4 kind itoa
    text_beq require check directory clean_absolute fnv32 atoi parse_size_bytes trim_space to_upper
    has_suffix has_prefix reverse_onto trim_suffix drop plan_options parse_cpu_count
    effective_gpu_memory owns validate_mounts ensure overlapping_mount cleaned
created_demo = refl

Reachable-Linked_example : Linked (run_detached digest_of places create_run opts empty_world).1
Reachable-Linked_example =
    Reachable-Linked digest_of places (run_detached digest_of places create_run opts empty_world).1
      (after empty_world (run_detached digest_of places create_run opts empty_world).1 nothing
        (creates create_run opts empty_world))
      (tt, (λ name. refl, λ name. refl))

Reachable-Separated_example :
    Separated (run_detached digest_of places create_run opts empty_world).1
Reachable-Separated_example =
    Reachable-Separated digest_of places
      (run_detached digest_of places create_run opts empty_world).1
      (after empty_world (run_detached digest_of places create_run opts empty_world).1 nothing
        (creates create_run opts empty_world))
      (tt, (λ name. refl, λ name. refl))

found_demo :
    node_address decode places true demo_world.networks report_view [] demo_state
    ≡ ok (text "192.168.130.9")
unfolding node_address read_guest_address_report guest_address_dir read_guest_report_file
    is_own_report validate_node_ipv4 get load_network node_dir valid_vm_name parse_cidr parse_addr
    parse_ip parse_prefix prefix_contains cut_byte value_from byte_at is_v4 kind itoa text_beq
    has_byte is_mac normalize_mac join split to_lower
found_demo = refl

node_address-IsNodeAddress_example :
    IsNodeAddress true demo_world.networks demo_state (text "192.168.130.9")
    × (true ≡ true → IsReported decode report_view demo_state (text "192.168.130.9"))
node_address-IsNodeAddress_example =
    node_address-IsNodeAddress decode places true demo_world.networks report_view [] demo_state
      (text "192.168.130.9") found_demo

listed_demo : list_machines digest_of decode places list_run (text "demo-") demo_world ≡ (
  ok (info_of demo_state (text "stopped") [] ∷ []),
  record demo_world {
    nodes = (text "demo-1", some (saved (record (without_process demo_state) { ip = [] }))) ∷ [];
  },
)
unfolding list_machines text_beq ◌>>=◌ check load_state read_state valid_vm_name get save_state
    write_state put on_nodes loaded info_of process_owned process_start_time process_command
    has_prefix try_save trim_space
listed_demo = refl

-- Two machines, whose directories are read in another order than that of their names.
abbrev two_world : World
two_world = record demo_world {
  nodes =
      (
        text "demo-2",
        some (saved (record demo_state { name = text "demo-2"; status = text "stopped"; ip = [] })),
      )
      ∷ (text "other-1", none)
      ∷ demo_world.nodes;
}

listed_two : list_machines digest_of decode places list_run (text "demo-") two_world ≡ (
  ok (
      info_of demo_state (text "stopped") []
      ∷ info_of (record demo_state { name = text "demo-2" }) (text "stopped") []
      ∷ []),
  record two_world {
    nodes =
        (
          text "demo-2",
          some (
              saved (record demo_state { name = text "demo-2"; status = text "stopped"; ip = [] })),
        )
        ∷ (text "other-1", none)
        ∷ (text "demo-1", some (saved (record (without_process demo_state) { ip = [] })))
        ∷ [];
  },
)
unfolding check get has_prefix info_of insert_info list_entries list_entry list_machines list_owned
    load_state loaded on_nodes process_command process_owned process_start_time put read_state
    save_state sort_infos text_beq text_less trim_space try_save valid_vm_name write_state ◌>>=◌
listed_two = refl

list_machines-IsSorted_example :
    IsSorted (
      info_of demo_state (text "stopped") []
      ∷ info_of (record demo_state { name = text "demo-2" }) (text "stopped") []
      ∷ [])
    × (js : List Info) × (info_names js ≡ with_prefix (text "demo-") (entry_names two_world.nodes))
    × Permᴰ js (
        info_of demo_state (text "stopped") []
        ∷ info_of (record demo_state { name = text "demo-2" }) (text "stopped") []
        ∷ [])
list_machines-IsSorted_example =
    list_machines-IsSorted digest_of decode places list_run (text "demo-") two_world _ _ listed_two

recorded_demo : record_ip true true (text "demo-1") demo_state (text "192.168.130.9") demo_world ≡ (
  ok tt,
  record demo_world {
    nodes = (text "demo-1", some (saved (record demo_state { ip = text "192.168.130.9" }))) ∷ [];
  },
)
unfolding record_ip text_beq ◌>>=◌ check load_state read_state valid_vm_name get save_state
    write_state put on_nodes loaded
recorded_demo = refl

same_address :
    record_ip true true (text "demo-1") demo_state (text "192.168.130.7") demo_world
    ≡ (ok tt, demo_world)
unfolding record_ip text_beq
same_address = refl

-- Where the machines cannot be listed, a network that one is in is removed.
removed_in_use :
    remove_unused_network
      (record { root_known = true; listed = λ name. false; file_removed = true })
      (text "demo")
      demo_world
    ≡ record demo_world { networks = [] }
unfolding remove_unused_network valid_network_id text_beq remove
removed_in_use = refl

kept_in_use :
    remove_unused_network
      (record { root_known = true; listed = λ name. true; file_removed = true })
      (text "demo")
      demo_world
    ≡ demo_world
unfolding remove_unused_network valid_network_id text_beq remove read_state valid_vm_name get
kept_in_use = refl

-- A signal that the group may not be sent goes to the process.
sent_twice :
    (stop_locked digest_of places
      (record stop_run { term_group = not_permitted })
      (text "demo-1")
      demo_world).1.signals
    ≡ (group (pos 77), sigterm) ∷ (single (pos 77), sigterm) ∷ []
unfolding kill_calls stop_locked load_state loaded save_state on_nodes write_state read_state ◌>>=◌
    get put valid_vm_name process_owned process_start_time process_command poll signal_process
    short_socket_path trim_space text_beq fnv32
sent_twice = refl
