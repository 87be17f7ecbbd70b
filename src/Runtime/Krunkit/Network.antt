-- ===== src/Runtime/Krunkit/Network.antt =====
-- The networks of krunkit machines: `ensureNetwork`, `loadNetwork` and `validateKrunkitNetwork`
-- (pkg/runtime/krunkit_state.go and pkg/runtime/krunkit.go).
pub mod Search
pub mod Subnets
pub mod Valid
pub mod Allocation
pub mod Refines
pub mod Separate
pub mod Repeat
pub mod Others
use kiac.Base.{
  ltb, ◌==◌, between, if◌then◌else◌, ◌===◌, Text, text, length, concat_map, elem, Result, ok, err,
  ◌>>◌, guard, ℤ, pos, ◌≡◌, ℕ, zero, suc, ◌+◌, ◌-◌, ◌*◌, ◌%◌, ◌^◌, Bool, true, not, ◌&&◌, ◌||◌,
  Option, none, some, List, [], ◌∷◌, ◌++◌, nat_eq, bool_eq, text_eq, pair_eq, int_eq, bit_xor,
}
use kiac.Go.Net.Cidr.{Cidr, byte_at, parse_cidr, width}
use kiac.Base.Dict.{Dict, get, put}
use kiac.Base.Exec.{Exec, modify, pure, raise, ◌>>=◌}
use kiac.Go.Net.Ip.{is_v4, parse_ip}
use kiac.Go.Strconv.{itoa}
use kiac.Go.Strings.{split}

-- `krunkitNetworkState`
pub record Network : Type 0 where
  pub schema : ℤ
  pub id : Text
  pub cidr : Text
  pub start : Text
  pub end : Text
  pub netmask : Text

pub data NetworkError : Type 0 where
  invalid_id : NetworkError
  no_root : NetworkError
  no_directory : NetworkError
  unreadable_network : NetworkError
  malformed_network : NetworkError
  other_network : NetworkError
  invalid_cidr : NetworkError
  not_a_subnet : NetworkError
  invalid_range : NetworkError
  no_free_subnet : NetworkError
  not_written : NetworkError

-- `krunkitStateSchema`
abbrev pub state_schema : ℤ
state_schema = pos 1

is_id_byte : ℕ → Bool
is_id_byte c = c == b'-' || between b'a' b'z' c || between b'0' b'9' c

all_id_bytes : Text → Bool
unfolding is_id_byte
all_id_bytes [] = true
all_id_bytes (c ∷ s) = is_id_byte c && all_id_bytes s

-- `validKrunkitNetworkID`
unfoldable pub valid_network_id : Text → Bool
unfolding all_id_bytes
valid_network_id id = not (length id == 0 || ltb 63 (length id)) && all_id_bytes id

fnv_from : ℕ → Text → ℕ
fnv_from hash [] = hash
fnv_from hash (c ∷ s) = fnv_from (bit_xor hash c * 16777619 % 2 ^ 32) s

-- `fnv32`
unfoldable pub fnv32 : Text → ℕ
unfolding fnv_from
fnv32 s = fnv_from 2166136261 s

-- `192.168.%d.` with an end
abbrev pub subnet_text : ℕ → Text → Text
subnet_text x end = text "192.168." ++ (itoa (pos x) ++ end)

check_range : Network → ℕ → Result NetworkError (Unit {0})
check_range n x =
    if n.start === subnet_text x (text ".1") && n.end === subnet_text x (text ".200")
    then ok tt
    else err invalid_range

-- The mask has 24 of 32 bits, and the base is 192.168.x.0.
is_subnet : Network → Cidr → Bool
is_subnet n c =
    width c.addr == 32
    && c.ones == 24
    && byte_at 12 c.addr.bytes == 192
    && byte_at 13 c.addr.bytes == 168
    && byte_at 15 c.addr.bytes == 0
    && n.netmask === text "255.255.255.0"

check_subnet : Network → Option Cidr → Result NetworkError (Unit {0})
unfolding is_subnet check_range
check_subnet n none = err invalid_cidr
check_subnet n (some c) =
    if not (is_v4 c.addr.bytes)
    then err invalid_cidr
    else if is_subnet n c
    then check_range n (byte_at 14 c.addr.bytes)
    else err not_a_subnet

-- `validateKrunkitNetwork`
pub validate_network : Network → Text → Result NetworkError (Unit {0})
unfolding check_subnet
validate_network n id =
    if n.schema === state_schema && n.id === id
    then check_subnet n (parse_cidr n.cidr)
    else err other_network

-- A file of the state directory, as the JSON decoder reads it.
pub data File (A : Type 0) : Type 0 where
  unreadable : File A
  malformed : File A
  saved : A → File A

-- The directory `networks`, by the names of its files.
abbrev pub Networks : Type 0
Networks = Dict Text (File Network)

-- `id+".json"`
abbrev pub network_file : Text → Text
network_file id = id ++ text ".json"

-- What `loadNetwork` and `ensureNetwork` do with a file that is there.
pub read_network : File Network → Text → Result NetworkError Network
unfolding validate_network
read_network unreadable id = err unreadable_network
read_network malformed id = err malformed_network
read_network (saved n) id = validate_network n id >> ok n

load_file : Option (File Network) → Text → Result NetworkError Network
unfolding read_network
load_file none id = err unreadable_network
load_file (some f) id = read_network f id

-- `loadNetwork`; the first argument says whether the state directory is known.
unfoldable pub load_network : Bool → Networks → Text → Result NetworkError Network
unfolding valid_network_id load_file
load_network root networks id = do
  guard (valid_network_id id) invalid_id
  guard root no_root
  load_file (get (network_file id) networks) id

-- What the host answers: whether the state directory is known and can be made, the addresses of
-- its interfaces, which names `os.ReadDir` lists and can then be read, as errors of both are ignored,
-- and whether the new file is written.
pub record Host : Type 0 where
  pub root_known : Bool
  pub directory_made : Bool
  pub interfaces : List Text
  pub listed : Text → Bool
  pub written : Bool

-- The third byte of an address of an interface, if it is in 192.168.0.0/16.
interface_subnet : Option Cidr → List ℕ
interface_subnet none = []
interface_subnet (some c) =
    if is_v4 c.addr.bytes && byte_at 12 c.addr.bytes == 192 && byte_at 13 c.addr.bytes == 168
    then byte_at 14 c.addr.bytes ∷ []
    else []

-- `strings.Split(cidr, "/")[0]`
abbrev first_part : List Text → Text
first_part [] = []
first_part (p ∷ ps) = p

address_subnet : Option (List ℕ) → List ℕ
address_subnet none = []
address_subnet (some ip) = if is_v4 ip then byte_at 14 ip ∷ [] else []

-- The third byte of the address of a saved network, valid or not.
pub saved_subnet : File Network → List ℕ
unfolding address_subnet
saved_subnet unreadable = []
saved_subnet malformed = []
saved_subnet (saved n) = address_subnet (parse_ip (first_part (split n.cidr b'/')))

-- The part of it for one file of the directory, if it is listed.
pub listed_subnet : (Text → Bool) → Text × File Network → List ℕ
unfolding saved_subnet
listed_subnet listed (name, file) = if listed name then saved_subnet file else []

pub saved_subnets : (Text → Bool) → Networks → List ℕ
unfolding listed_subnet
saved_subnets listed networks = concat_map (listed_subnet listed) networks

-- Every name is listed and can be read.
abbrev pub IsComplete : (Text → Bool) → Type 0
IsComplete listed = (name : Text) → listed name ≡ true

-- The subnets that count as taken: those of interfaces, and of saved networks that are listed.
pub used_subnets : Host → Networks → List ℕ
unfolding interface_subnet saved_subnets
used_subnets host networks =
    concat_map (λ (a : Text). interface_subnet (parse_cidr a)) host.interfaces
    ++ saved_subnets host.listed networks

-- The rounds that are left, from the round `offset`; a subnet that is chosen is never 0.
choose_from : ℕ → ℕ → ℕ → List ℕ → Option ℕ
choose_from zero offset start used = none
choose_from (suc rounds) offset start used =
    let candidate = 105 + ((start - 105) + offset) % 145 in
    let rest = choose_from rounds (offset + 1) start used in
    if elem candidate used then rest else some candidate

pub choose_subnet : Text → List ℕ → Option ℕ
unfolding choose_from fnv32
choose_subnet id used = choose_from 145 0 (105 + fnv32 id % 145) used

abbrev pub new_network : Text → ℕ → Network
new_network id x = record {
  schema = state_schema;
  id = id;
  cidr = subnet_text x (text ".0/24");
  start = subnet_text x (text ".1");
  end = subnet_text x (text ".200");
  netmask = text "255.255.255.0";
}

pub add_network : Host → Text → Option ℕ → Exec NetworkError Networks Network
add_network host id none = raise no_free_subnet
add_network host id (some x) =
    if host.written
    then (λ networks.
        (ok (new_network id x), put (network_file id) (saved (new_network id x)) networks))
    else raise not_written

-- A file that cannot be read counts as missing.
add_or_read : Host → Text → Option (File Network) → Exec NetworkError Networks Network
unfolding read_network add_network used_subnets choose_subnet
add_or_read host id none networks =
    add_network host id (choose_subnet id (used_subnets host networks)) networks
add_or_read host id (some unreadable) networks =
    add_network host id (choose_subnet id (used_subnets host networks)) networks
add_or_read host id (some malformed) networks = (read_network malformed id, networks)
add_or_read host id (some (saved n)) networks = (read_network (saved n) id, networks)

-- `ensureNetwork`
unfoldable pub ensure_network : Host → Text → Exec NetworkError Networks Network
unfolding add_or_read valid_network_id
ensure_network host id networks =
    if not (valid_network_id id)
    then (err invalid_id, networks)
    else if not host.root_known
    then (err no_root, networks)
    else if not host.directory_made
    then (err no_directory, networks)
    else add_or_read host id (get (network_file id) networks) networks
