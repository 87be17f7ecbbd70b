-- ===== src/Runtime/Krunkit/Sizes.antt =====
-- Sizes and counts that are given as texts, and the GPU memory window: `parseSizeBytes`,
-- `parseCPUCount` and `effectiveGPUMemoryMiB` (pkg/runtime/krunkit_state.go).
pub mod Bounds
pub mod Order
use kiac.Base.{
  ltb, ◌==◌, if◌then◌else◌, ◌===◌, Text, text, Result, ok, err, ℤ, pos, negsuc, ℕ, ◌+◌, ◌-◌, ◌*◌,
  ◌/◌, ◌%◌, ◌^◌, ◌&&◌, ◌||◌, Option, none, some, List, [], ◌∷◌, is_positive, nat_eq, bool_eq,
  text_eq, pair_eq, int_eq,
}
use kiac.Go.Strconv.{atoi}
use kiac.Go.Strings.{has_suffix, to_upper, trim_space, trim_suffix}

pub data SizeError : Type 0 where
  invalid_size : Text → SizeError
  invalid_cpus : Text → SizeError

abbrev pub Units : Type 0
Units = List (Text × ℕ)

-- The table of suffixes, in one order. Go iterates over it in any order.
abbrev pub size_units : Units
size_units =
    (text "KIB", 2 ^ 10)
    ∷ (text "KB", 2 ^ 10)
    ∷ (text "K", 2 ^ 10)
    ∷ (text "MIB", 2 ^ 20)
    ∷ (text "MB", 2 ^ 20)
    ∷ (text "M", 2 ^ 20)
    ∷ (text "GIB", 2 ^ 30)
    ∷ (text "GB", 2 ^ 30)
    ∷ (text "G", 2 ^ 30)
    ∷ (text "TIB", 2 ^ 40)
    ∷ (text "TB", 2 ^ 40)
    ∷ (text "T", 2 ^ 40)
    ∷ []

-- The first entry whose suffix the text has.
pub find_unit : Units → Text → Option (Text × ℕ)
find_unit [] s = none
find_unit ((suffix, size) ∷ units) s =
    if has_suffix suffix s then some (suffix, size) else find_unit units s

-- What is left of the text, and the multiplier.
strip_unit : Option (Text × ℕ) → Text → Text × ℕ
strip_unit none s = (s, 1)
strip_unit (some (suffix, size)) s = (trim_space (trim_suffix suffix s), size)

-- A product of two int64 that are not negative, wrapped around.
abbrev signed : ℕ → ℤ
signed n = if ltb n (2 ^ 63) then pos n else negsuc (2 ^ 64 - n - 1)

pub times : ℕ → ℕ → ℤ
times a b = signed (a * b % 2 ^ 64)

scaled : Text → ℕ → Option ℤ → Result SizeError ℤ
unfolding times
scaled value multiplier none = err (invalid_size value)
scaled value multiplier (some (negsuc n)) = err (invalid_size value)
scaled value multiplier (some (pos n)) =
    if n == 0 || ltb ((2 ^ 63 - 1) / multiplier) n
    then err (invalid_size value)
    else ok (times n multiplier)

scale : Text → Text × ℕ → Result SizeError ℤ
unfolding scaled
scale value (s, multiplier) = scaled value multiplier (atoi s)

-- `parseSizeBytes`; the table is in the order of the iteration.
unfoldable pub parse_size_bytes : Units → Text → ℤ → Result SizeError ℤ
unfolding find_unit strip_unit scale
parse_size_bytes units value default_bytes =
    let s = to_upper (trim_space value) in
    if s === [] then ok default_bytes else scale value (strip_unit (find_unit units s) s)

positive_count : Text → Option ℤ → Result SizeError ℤ
positive_count value none = err (invalid_cpus value)
positive_count value (some n) = if is_positive n then ok n else err (invalid_cpus value)

-- `parseCPUCount`
unfoldable pub parse_cpu_count : Text → Result SizeError ℤ
unfolding positive_count
parse_cpu_count value = positive_count value (atoi (trim_space value))

-- The window is capped by the memory of the host, if that is known.
cap_window : ℤ → ℕ → ℕ
cap_window (pos host) window = if ltb 0 host && ltb host window then host else window
cap_window (negsuc n) window = window

-- `effectiveGPUMemoryMiB` for a memory that is not negative: a window below 0 becomes 0.
unfoldable pub effective_gpu_memory : ℕ → ℤ → ℕ
unfolding cap_window
effective_gpu_memory memory host = cap_window host (62 * 1024 - (memory / 1024 + 1) * 1024)
