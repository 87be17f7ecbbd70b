-- ===== src/Runtime/Krunkit/Address.antt =====
-- The address of a machine: `nodeAddress`, `readGuestAddressReport` and `validateNodeIPv4`
-- (pkg/runtime/krunkit_address.go), `findARPAddress` (pkg/runtime/krunkit.go).
pub mod Valid
pub mod Discovered
use kiac.Base.{
  ltb, between, if◌then◌else◌, ◌===◌, Text, text, length, Result, ok, err, ◌>>=◌, ◌>>◌, guard,
  is_ok, ℤ, pos, ℕ, Bool, true, false, not, ◌&&◌, ◌||◌, Option, none, some, List, [], ◌∷◌, ◌++◌,
  nat_eq, bool_eq, text_eq, pair_eq, int_eq,
}
use kiac.Runtime.Krunkit.Network.{Network, NetworkError, Networks, load_network}
use kiac.Go.Net.Cidr.{Addr, Cidr, byte_at, parse_addr, parse_prefix, prefix_contains}
use kiac.Runtime.Krunkit.Nodes.{NodeError, NodeState, Places, node_dir}
use kiac.Go.Strings.{has_byte}
use kiac.Runtime.Krunkit.Mac.{is_mac, normalize_mac}

-- `guestAddressReport`
pub record GuestReport : Type 0 where
  pub schema : ℤ
  pub name : Text
  pub mac : Text
  pub generation : Text
  pub ipv4 : Text

pub data AddressError : Type 0 where
  no_node_dir : NodeError → AddressError
  unsafe_directory : AddressError
  not_a_directory : AddressError
  no_report : AddressError
  not_a_report_file : AddressError
  report_too_long : AddressError
  invalid_json : AddressError
  more_than_one : AddressError
  other_report : AddressError
  not_ipv4 : AddressError
  no_network : NetworkError → AddressError
  other_subnet : AddressError
  outside_subnet : AddressError
  outside_pool : AddressError
  not_discovered : AddressError

loaded_network : Result NetworkError Network → Result AddressError Network
loaded_network (ok n) = ok n
loaded_network (err e) = err (no_network e)

in_prefix : Option Cidr → Addr → Bool
in_prefix none a = false
in_prefix (some p) a = prefix_contains p a

-- An IPv4 address in the subnet of the machine's network, in the pool .2 to .200.
check_ipv4 : Bool → Networks → NodeState → Addr → Result AddressError (Unit {0})
unfolding loaded_network in_prefix
check_ipv4 root networks state a = do
  guard a.is4 not_ipv4
  n ← loaded_network (load_network root networks state.network_id)
  guard (state.network_cidr === n.cidr) other_subnet
  guard (in_prefix (parse_prefix n.cidr) a) outside_subnet
  guard (between 2 200 (byte_at 15 a.bytes)) outside_pool

check_address : Bool → Networks → NodeState → Option Addr → Result AddressError (Unit {0})
unfolding check_ipv4
check_address root networks state none = err not_ipv4
check_address root networks state (some a) = check_ipv4 root networks state a

-- `validateNodeIPv4`
unfoldable pub validate_node_ipv4 :
    Bool → Networks → NodeState → Text → Result AddressError (Unit {0})
unfolding check_address
validate_node_ipv4 root networks state value = check_address root networks state (parse_addr value)

named_directory : Result NodeError Text → Result AddressError Text
named_directory (ok dir) = ok (dir ++ text "/guest-status")
named_directory (err e) = err (no_node_dir e)

safe_directory : Text → Result AddressError Text
safe_directory dir =
    if has_byte b',' dir || has_byte 13 dir || has_byte 10 dir then err unsafe_directory else ok dir

-- `guestAddressDir`
unfoldable pub guest_address_dir : Places → Text → Result AddressError Text
unfolding named_directory safe_directory
guest_address_dir places name = named_directory (node_dir places name) >>= safe_directory

-- What the host finds of the report: whether its directory is one, and the file that is opened,
-- `none` if that fails: whether it is regular, its size, and what is read of at most 4097 bytes.
pub record ReportFile : Type 0 where
  pub regular : Bool
  pub size : ℕ
  pub raw : Option Text

pub record ReportView : Type 0 where
  pub directory : Bool
  pub file : Option ReportFile

read_raw : Option Text → Result AddressError Text
read_raw none = err no_report
read_raw (some raw) = if ltb 4096 (length raw) then err report_too_long else ok raw

-- `readGuestReportFile`
unfoldable pub read_guest_report_file : Option ReportFile → Result AddressError Text
unfolding read_raw
read_guest_report_file none = err no_report
read_guest_report_file (some f) =
    if not f.regular || ltb 4096 f.size then err not_a_report_file else read_raw f.raw

-- The decoder gives the first value, if it is an object with no unknown field, and whether nothing
-- follows it.
abbrev pub Decoder : Type 0
Decoder = Text → Option (GuestReport × Bool)

decoded : Option (GuestReport × Bool) → Result AddressError GuestReport
decoded none = err invalid_json
decoded (some (report, true)) = ok report
decoded (some (report, false)) = err more_than_one

-- The report is of this machine and of this boot.
unfoldable pub is_own_report : NodeState → GuestReport → Bool
is_own_report state report =
    report.schema === pos 1
    && report.name === state.name
    && is_mac report.mac
    && normalize_mac report.mac === normalize_mac state.mac
    && not (state.address_generation === [])
    && report.generation === state.address_generation

module _ (decode : Decoder) (places : Places) (root : Bool) (networks : Networks) where
  -- `readGuestAddressReport`
  unfoldable pub read_guest_address_report : ReportView → NodeState → Result AddressError Text
  unfolding decoded
  read_guest_address_report view state = do
    dir ← guest_address_dir places state.name
    guard view.directory not_a_directory
    raw ← read_guest_report_file view.file
    report ← decoded (decode raw)
    guard (is_own_report state report) other_report
    validate_node_ipv4 root networks state report.ipv4
    ok report.ipv4

  pub first_valid : NodeState → List Text → Result AddressError Text
  first_valid state [] = err not_discovered
  first_valid state (ip ∷ ips) =
      if not (ip === []) && is_ok (validate_node_ipv4 root networks state ip)
      then ok ip
      else first_valid state ips

  -- `findARPAddress`: the pairs of addresses that are found in the output of `arp -an`.
  find_arp_address : Text → List (Text × Text) → Text
  find_arp_address mac [] = []
  find_arp_address mac ((ip, hardware) ∷ found) =
      if normalize_mac hardware === normalize_mac mac then ip else find_arp_address mac found

  -- `nodeAddress`
  unfoldable pub node_address :
      ReportView → List (Text × Text) → NodeState → Result AddressError Text
  unfolding first_valid find_arp_address
  node_address view arp state =
      if state.guest_address_report
      then read_guest_address_report view state
      else first_valid state (find_arp_address state.mac arp ∷ state.ip ∷ [])
