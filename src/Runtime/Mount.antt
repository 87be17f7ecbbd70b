-- ===== src/Runtime/Mount.antt =====
-- Host directories that are mounted into a node: `Mount`, `ParseMount` and `ValidateMounts`
-- (pkg/runtime/mount.go).
pub mod RoundTrip
pub mod Valid
use kiac.Base.{
  ◌==◌, if◌then◌else◌, ◌===◌, Text, text, elem, Result, ok, err, ◌>>=◌, ◌>>◌, guard, Bool, true,
  false, not, ◌||◌, Option, none, some, List, [], ◌∷◌, ◌++◌, nat_eq, bool_eq, text_eq, pair_eq,
  int_eq,
}
use kiac.Go.Strings.{cut_byte, has_byte, split, trim_space}

pub record Mount : Type 0 where
  pub source : Text
  pub target : Text
  pub read_only : Bool

pub data MountError : Type 0 where
  duplicate_field : Text → MountError
  type_not_bind : MountError
  source_required : MountError
  target_required : MountError
  readonly_value : MountError
  unknown_field : Text → MountError
  type_required : MountError

abbrev pub no_mount : Mount
no_mount = record { source = []; target = []; read_only = false }

-- `Mount.String`
unfoldable pub mount_text : Mount → Text
mount_text m =
    text "type=bind,source="
    ++ (m.source
        ++ (text ",target=" ++ (m.target ++ (if m.read_only then text ",readonly" else []))))

-- What the loop over the fields has read: the keys seen, and the mount.
pub record Reading : Type 0 where
  pub seen : List Text
  pub mount : Mount

read_type : Option Text → Mount → Result MountError Mount
read_type none m = err type_not_bind
read_type (some val) m = if val === text "bind" then ok m else err type_not_bind

read_source : Option Text → Mount → Result MountError Mount
read_source none m = err source_required
read_source (some val) m =
    if val === [] then err source_required else ok (record m { source = val })

read_target : Option Text → Mount → Result MountError Mount
read_target none m = err target_required
read_target (some val) m =
    if val === [] then err target_required else ok (record m { target = val })

read_readonly : Option Text → Mount → Result MountError Mount
read_readonly none m = ok (record m { read_only = true })
read_readonly (some val) m = err readonly_value

-- One field whose key was not seen before; `none` is a field with no `=`.
read_key : Text → Option Text → Mount → Result MountError Mount
unfolding read_type read_source read_target read_readonly
read_key key val m =
    if key === text "type"
    then read_type val m
    else if key === text "source"
    then read_source val m
    else if key === text "target"
    then read_target val m
    else if key === text "readonly"
    then read_readonly val m
    else err (unknown_field key)

-- `strings.Cut(field, "=")`, the key trimmed.
key_value : Text → Option (Text × Text) → Text × Option Text
key_value field none = (trim_space field, none)
key_value field (some (key, val)) = (trim_space key, some val)

read_new : Text × Option Text → Reading → Result MountError Reading
unfolding read_key
read_new (key, val) r =
    if elem key r.seen
    then err (duplicate_field key)
    else (read_key key val r.mount >>= λ m. ok (record { seen = key ∷ r.seen; mount = m }))

read_field : Text → Reading → Result MountError Reading
unfolding key_value read_new
read_field field r = read_new (key_value field (cut_byte b'=' field)) r

pub read_fields : List Text → Reading → Result MountError Reading
read_fields [] r = ok r
read_fields (f ∷ fs) r = read_field f r >>= read_fields fs

-- What must have been read in the end.
complete : Reading → Result MountError Mount
complete r =
    if not (elem (text "type") r.seen)
    then err type_required
    else if r.mount.source === []
    then err source_required
    else if r.mount.target === []
    then err target_required
    else ok r.mount

-- `ParseMount`
pub parse_mount : Text → Result MountError Mount
unfolding read_fields complete
parse_mount value =
    read_fields (split value b',') (record { seen = []; mount = no_mount }) >>= complete

pub data InvalidMount : Type 0 where
  newlines : InvalidMount
  relative_source : InvalidMount
  commas : InvalidMount
  no_source_file : InvalidMount
  not_a_directory : InvalidMount
  relative_target : InvalidMount
  duplicate_target : InvalidMount

-- `strings.ContainsAny(s, "\r\n")`
pub has_newline : Text → Bool
has_newline s = has_byte 13 s || has_byte 10 s

-- `filepath.IsAbs` and `path.IsAbs`
abbrev pub is_abs : Text → Bool
is_abs [] = false
is_abs (c ∷ s) = c == b'/'

-- The parts of a rooted path, the last one first, `.` and `..` resolved.
clean_part : Text → List Text → List Text
clean_part part done =
    if part === [] || part === text "."
    then done
    else if part === text ".."
    then parent done
    else part ∷ done
  where
    parent : List Text → List Text
    parent [] = []
    parent (p ∷ ps) = ps

clean_parts : List Text → List Text → List Text
unfolding clean_part
clean_parts [] done = done
clean_parts (p ∷ ps) done = clean_parts ps (clean_part p done)

rooted : List Text → Text → Text
rooted [] path = path
rooted (p ∷ ps) path = rooted ps (b'/' ∷ (p ++ path))

abbrev or_root : Text → Text
or_root [] = b'/' ∷ []
or_root (c ∷ s) = c ∷ s

-- `path.Clean` of a path that is absolute.
unfoldable pub clean_absolute : Text → Text
unfolding clean_parts rooted
clean_absolute path = or_root (rooted (clean_parts (split path b'/') []) [])

-- `os.Stat`: `none` if the file is not accessible, else whether it is a directory.
abbrev pub Stat : Type 0
Stat = Text → Option Bool

check_stat : Option Bool → Result InvalidMount (Unit {0})
check_stat none = err no_source_file
check_stat (some false) = err not_a_directory
check_stat (some true) = ok tt

-- One round of `ValidateMounts`; `targets` are the targets of the earlier mounts.
pub check_mount : Stat → List Text → Mount → Result InvalidMount (Unit {0})
unfolding has_newline check_stat
check_mount stat targets m = do
  guard (not (has_newline m.source || has_newline m.target)) newlines
  guard (is_abs m.source) relative_source
  guard (not (has_byte b',' m.source || has_byte b',' m.target)) commas
  check_stat (stat m.source)
  guard (is_abs m.target) relative_target
  guard (not (elem (clean_absolute m.target) targets)) duplicate_target

pub check_mounts : Stat → List Text → List Mount → Result InvalidMount (Unit {0})
check_mounts stat targets [] = ok tt
check_mounts stat targets (m ∷ ms) =
    check_mount stat targets m >>= λ _. check_mounts stat (clean_absolute m.target ∷ targets) ms

-- `ValidateMounts`
unfoldable pub validate_mounts : Stat → List Mount → Result InvalidMount (Unit {0})
unfolding check_mounts
validate_mounts stat ms = check_mounts stat [] ms
