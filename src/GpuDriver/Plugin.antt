-- ===== src/GpuDriver/Plugin.antt =====
-- The device plugin (internal/gpudriver/device_plugin.go): `Allocate`, the health that
-- `ListAndWatch` sends, and `requireCharacterDevice` (internal/gpudriver/main.go).
pub mod Allocated
use kiac.Base.{
  if◌then◌else◌, ◌===◌, Text, text, Result, ok, err, ◌>>=◌, is_ok, ℕ, Bool, true, false, not, ◌&&◌,
  Option, List, [], ◌∷◌, ◌++◌, map, nat_eq, bool_eq, text_eq, pair_eq, int_eq,
}
use kiac.GpuDriver.Health.{HealthMonitor, HealthState, require_healthy}

pub data AllocateError : Type 0 where
  unavailable : Text → AllocateError
  wrong_device : AllocateError

-- `os.Stat`: the system's message, or whether the file is a character device.
abbrev pub DeviceStat : Type 0
DeviceStat = Text → Result Text Bool

stat_device : Text → Result Text Bool → Result Text (Unit {0})
stat_device path (err e) = err e
stat_device path (ok true) = ok tt
stat_device path (ok false) = err (path ++ text " is not a character device")

-- `requireCharacterDevice`
unfoldable pub require_character_device : DeviceStat → Text → Result Text (Unit {0})
unfolding stat_device
require_character_device stat path = stat_device path (stat path)

pub record DevicePlugin : Type 0 where
  pub health : Option HealthMonitor
  pub render_device : Text
  pub optional_card : Text

pub record DeviceSpec : Type 0 where
  pub host_path : Text
  pub container_path : Text
  pub permissions : Text

pub record ContainerResponse : Type 0 where
  pub devices : List DeviceSpec
  pub envs : List (Text × Text)

abbrev pub device_name : Text
device_name = text "venus-0"

abbrev pub read_write : Text → DeviceSpec
read_write path = record { host_path = path; container_path = path; permissions = text "rw" }

-- `len(DevicesIds) != 1 || DevicesIds[0] != deviceName`, negated.
one_device : List Text → Bool
one_device [] = false
one_device (d ∷ []) = d === device_name
one_device (d ∷ e ∷ ds) = false

card : DeviceStat → Text → List DeviceSpec
card stat path =
    if not (path === []) && is_ok (require_character_device stat path)
    then read_write path ∷ []
    else []

container_response : DeviceStat → DevicePlugin → ContainerResponse
unfolding card
container_response stat p = record {
  devices = read_write p.render_device ∷ card stat p.optional_card;
  envs = (text "KIAC_GPU_API", text "venus") ∷ (text "KIAC_GPU_PRODUCT", text "apple-silicon") ∷ [];
}

allocate_all :
    DeviceStat → DevicePlugin → List (List Text) → Result AllocateError (List ContainerResponse)
unfolding one_device container_response
allocate_all stat p [] = ok []
allocate_all stat p (ids ∷ rest) =
    if not (one_device ids)
    then err wrong_device
    else (allocate_all stat p rest >>= λ rs. ok (container_response stat p ∷ rs))

or_unavailable : Result Text (Unit {0}) → Result AllocateError (Unit {0})
or_unavailable (ok u) = ok tt
or_unavailable (err e) = err (unavailable e)

-- `Allocate`: the device ids that each container asks for.
unfoldable pub allocate :
    ℕ → DeviceStat → DevicePlugin → List (List Text) → Result AllocateError (List ContainerResponse)
unfolding or_unavailable allocate_all
allocate now stat p requests = or_unavailable (require_healthy now p.health) >>= λ _.
    or_unavailable (require_character_device stat p.render_device) >>= λ _.
    allocate_all stat p requests

-- What `ListAndWatch` sends for a health state: the device's name, and whether it is healthy.
unfoldable pub watched : HealthState → List (Text × Bool)
watched s = (device_name, s.healthy) ∷ []

-- The paths that a container gets.
unfoldable pub paths : ContainerResponse → List Text
paths r = map (λ (d : DeviceSpec). d.host_path) r.devices
