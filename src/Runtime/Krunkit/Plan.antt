-- ===== src/Runtime/Krunkit/Plan.antt =====
-- The checks of options before a machine is created: the first part of `RunDetached`, and
-- `hostMemoryMiB` (pkg/runtime/krunkit.go).
use kiac.Base.{
  leb, ◌==◌, between, if◌then◌else◌, ◌===◌, Text, length, Result, ok, err, ◌>>=◌, ◌>>◌, guard, ℤ,
  pos, negsuc, ℕ, ◌*◌, ◌/◌, ◌%◌, ◌^◌, Bool, not, ◌&&◌, ◌||◌, Option, none, some, [], is_positive,
  nat_eq, bool_eq, text_eq, pair_eq, int_eq,
}
use kiac.Runtime.Mount.{InvalidMount, Stat, validate_mounts}
use kiac.Runtime.Krunkit.World.{
  MachineError, disk_too_small, host_memory_unknown, invalid_memory, invalid_mount, memory_range,
  no_image, no_nested, node_error, not_regular, overlapping, size_error, unsupported_options,
}
use kiac.Runtime.Routed.{RunOpts}
use kiac.Runtime.Krunkit.Sizes.{
  SizeError, effective_gpu_memory, parse_cpu_count, parse_size_bytes, size_units,
}
use kiac.Go.Strconv.{atoi}
use kiac.Runtime.Krunkit.Nodes.{invalid_name, valid_vm_name}
use kiac.Runtime.Krunkit.GuestMounts.{overlapping_mount}
use kiac.Go.Strings.{trim_space}

-- What the host answers about the options. `none` stands for a call that fails.
pub record OptionsRun : Type 0 where
  pub absolute_image : Option Text
  -- the size of the image in bytes, if it is a regular file
  pub image_size : Option ℕ
  pub stat : Stat
  pub configured_memory : ℤ
  pub hw_memsize : Option Text
  pub nested_supported : Bool

memory_of : Option ℤ → Result MachineError ℤ
memory_of none = err host_memory_unknown
memory_of (some (negsuc n)) = err host_memory_unknown
memory_of (some (pos n)) = if n == 0 then err host_memory_unknown else ok (pos (n / 2 ^ 20))

memory_size : Option Text → Result MachineError ℤ
unfolding memory_of
memory_size none = err host_memory_unknown
memory_size (some out) = memory_of (atoi (trim_space out))

-- `hostMemoryMiB`: the configured one, or that of sysctl.
pub host_memory_mib : ℤ → Option Text → Result MachineError ℤ
unfolding memory_size
host_memory_mib configured out = if is_positive configured then ok configured else memory_size out

abbrev pub no_unsupported : RunOpts → Bool
no_unsupported opts =
    opts.entrypoint === []
    && length opts.args == 0
    && length opts.env == 0
    && opts.kernel === []
    && length opts.publish == 0

-- A size that must not be negative, as bytes.
abbrev bytes_of : ℤ → ℕ
bytes_of (pos n) = n
bytes_of (negsuc n) = 0

as_memory : Result SizeError ℤ → Result MachineError ℕ
as_memory (err e) = err invalid_memory
as_memory (ok n) = if bytes_of n % 2 ^ 20 == 0 then ok (bytes_of n / 2 ^ 20) else err invalid_memory

sized : {A : Type 0} → Result SizeError A → Result MachineError A
sized (ok n) = ok n
sized (err e) = err (size_error e)

mounts_checked : Result InvalidMount (Unit {0}) → Result MachineError (Unit {0})
mounts_checked (ok u) = ok tt
mounts_checked (err e) = err (invalid_mount e)

mounts_apart : Option Text → Result MachineError (Unit {0})
mounts_apart none = ok tt
mounts_apart (some target) = err (overlapping target)

image_text : Option Text → Result MachineError Text
image_text none = err no_image
image_text (some image) = ok image

image_bytes : Option ℕ → Result MachineError ℕ
image_bytes none = err not_regular
image_bytes (some n) = ok n

-- What the options ask for, once they are checked.
pub record Plan : Type 0 where
  pub image : Text
  pub cpus : ℤ
  pub memory_mib : ℕ
  pub gpu_memory_mib : ℕ
  pub disk_bytes : ℕ

-- The checks before the store is locked, in their order.
unfoldable pub plan_options : OptionsRun → RunOpts → Result MachineError Plan
unfolding host_memory_mib as_memory sized mounts_checked mounts_apart image_text image_bytes
plan_options run opts = do
  guard (valid_vm_name opts.name) (node_error (invalid_name opts.name))
  guard (not (opts.image === [])) no_image
  image ← image_text run.absolute_image
  base ← image_bytes run.image_size
  guard (no_unsupported opts) unsupported_options
  mounts_checked (validate_mounts run.stat opts.mounts)
  mounts_apart (overlapping_mount opts.mounts)
  cpus ← sized (parse_cpu_count opts.cpus)
  memory ← as_memory (parse_size_bytes size_units opts.memory (pos (4 * 2 ^ 30)))
  host ← host_memory_mib run.configured_memory run.hw_memsize
  guard (between 1024 (60 * 1024) memory && not (effective_gpu_memory memory host == 0))
      memory_range
  disk ← sized (parse_size_bytes size_units opts.disk_size (pos (20 * 2 ^ 30)))
  guard (leb base (bytes_of disk)) disk_too_small
  guard (not opts.virtualization || run.nested_supported) no_nested
  ok (record {
    image = image;
    cpus = cpus;
    memory_mib = memory;
    gpu_memory_mib = effective_gpu_memory memory host;
    disk_bytes = bytes_of disk;
  })
