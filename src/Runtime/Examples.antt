-- ===== src/Runtime/Examples.antt =====
-- The theorems about the runtime, at concrete mounts and backends.
use kiac.Base.{
  if◌then◌else◌, ◌===◌, bool_eq, Text, text, All, ok, err, ◌≡◌, refl, ◌↔◌, Bool, true, false, none,
  some, List, [], ◌∷◌, map, arith, text_beq, nat_eq, text_eq, pair_eq, int_eq,
}
use kiac.Runtime.Routed.{
  Backends, Info, RoutedRuntime, name_groups, list, RunOpts, backend_for, node_call, remove_groups,
  stop, unknown_backend, remove, run_detached,
}
use kiac.Runtime.Routed.Inventory.{Distinct, list-Distinct, names}
use kiac.Runtime.Mount.Valid.{Fresh, IsValid, validate_mounts-ok}
use kiac.Runtime.Mount.{Mount, clean_absolute, mount_text, parse_mount, validate_mounts}
use kiac.Base.Dict.{get_or, put}
use kiac.Go.Strings.{has_byte, split}
use kiac.Runtime.Routed.Groups.{name_groups-names_of, names_of}
use kiac.Runtime.Mount.RoundTrip.{parse_mount-mount_text}

abbrev data_mount : Mount
data_mount = record { source = text "/Users/me/data"; target = text "/data"; read_only = true }

printed : mount_text data_mount ≡ text "type=bind,source=/Users/me/data,target=/data,readonly"
unfolding mount_text
printed = refl

cleaned : clean_absolute (text "/data/./x/../y//") ≡ text "/data/y"
unfolding clean_absolute split text_beq
cleaned = refl

parse_mount-mount_text_example : parse_mount (mount_text data_mount) ≡ ok data_mount
unfolding has_byte
parse_mount-mount_text_example =
    parse_mount-mount_text data_mount (λ e. absurd (cc e)) (λ e. absurd (cc e)) refl refl

validate_mounts-ok_example : (validate_mounts (λ path. some true) (data_mount ∷ []) ≡ ok tt) ↔ (
    All (IsValid (λ path. some true)) (data_mount ∷ [])
    × Fresh [] (map (λ (m : Mount). clean_absolute m.target) (data_mount ∷ [])))
validate_mounts-ok_example = validate_mounts-ok (λ path. some true) (data_mount ∷ [])

abbrev info : Text → Info
info name = record {
  name = name;
  image = [];
  status = text "running";
  ip = [];
  created = [];
  backend = [];
  distro = [];
  k8s_version = [];
  gpu = false;
}

-- Two runtimes, `false` the primary; each has one node, and nothing fails.
abbrev backends : Backends
backends = record {
  Handle = Bool;
  handle_eq = bool_eq;
  State = List Text;
  Failure = Text;
  run_detached = λ h opts s. (ok tt, opts.name ∷ s);
  call = λ h name c s. (ok name, s);
  list = λ h prefix s. (info (if h then text "c-gpu" else text "c-control") ∷ [], none);
  remove = λ h names s. (none, s);
}

abbrev routed : RoutedRuntime backends
routed = record {
  primary = false;
  routes =
      record {
        name = text "krunkit";
        match_name = some (λ name. name === text "c-gpu");
        backend = some true;
      }
      ∷ [];
}

abbrev merged : List Info
merged =
    record (info (text "c-control")) { backend = text "container" }
    ∷ record (info (text "c-gpu")) { backend = text "krunkit" }
    ∷ []

lists : list backends routed (text "c-") [] ≡ ok merged
unfolding list text_beq
lists = refl

primary_names : Distinct (names (info (text "c-control") ∷ []))
primary_names a = ground arith

list-Distinct_example : Distinct (names merged)
list-Distinct_example = list-Distinct backends routed (text "c-") [] merged primary_names lists

name_groups-names_of_example :
    get_or true [] (name_groups backends routed (text "c-gpu" ∷ text "c-control" ∷ []) [])
    ≡ names_of backends routed true (text "c-gpu" ∷ text "c-control" ∷ [])
name_groups-names_of_example =
    name_groups-names_of backends routed true (text "c-gpu" ∷ text "c-control" ∷ [])

abbrev empty_opts : RunOpts
empty_opts = record {
  backend = [];
  name = [];
  image = [];
  distro = [];
  k8s_version = [];
  gpu = false;
  cpus = [];
  memory = [];
  disk_size = [];
  network_id = [];
  env = [];
  entrypoint = [];
  kernel = [];
  args = [];
  dns = [];
  mounts = [];
  publish = [];
  virtualization = false;
}

-- Without a backend the route's match decides, with one its name.
run_test :
    (run_detached backends routed (record empty_opts { name = text "c-gpu" }) []
      ≡ (ok tt, text "c-gpu" ∷ []))
    × (run_detached backends routed (record empty_opts { backend = text "vz" }) []
        ≡ (err (unknown_backend (text "vz")), []))
unfolding run_detached backend_for text_beq
run_test = (refl, refl)

call_test : (node_call backends routed (text "c-gpu") stop []).0 ≡ ok (text "c-gpu")
unfolding node_call backend_for
call_test = refl

remove_test :
    (remove backends routed (λ groups. groups) (text "c-gpu" ∷ text "c-control" ∷ []) []).0 ≡ []
unfolding remove remove_groups name_groups get_or put backend_for text_beq
remove_test = refl
