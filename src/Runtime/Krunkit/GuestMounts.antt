-- ===== src/Runtime/Krunkit/GuestMounts.antt =====
-- Mounts that would cover the files of the guest's address report: `validateGuestAddressMounts`
-- (pkg/runtime/krunkit_address.go).
use kiac.Base.{
  if◌then◌else◌, ◌===◌, Text, text, Bool, false, ◌||◌, Option, none, some, List, [], ◌∷◌, ◌++◌, map,
  nat_eq, bool_eq, text_eq, pair_eq, int_eq,
}
use kiac.Runtime.Mount.{Mount, clean_absolute}
use kiac.Go.Strings.{has_prefix, trim_prefix}

abbrev pub guest_address_mount_path : Text
guest_address_mount_path = text "/run/kiac/status"

abbrev pub guest_units : List Text
guest_units =
    text "/etc/systemd/system/run-kiac-status.mount"
    ∷ text "/etc/systemd/system/kiac-network-report.service"
    ∷ text "/etc/systemd/system/kiac-network-report.timer"
    ∷ []

-- The paths that are protected: the units with their drop-in directories too.
abbrev pub protected_paths : List Text
protected_paths =
    guest_address_mount_path
    ∷ text "/usr/local/libexec/kiac-network-report"
    ∷ (guest_units ++ map (λ (unit : Text). unit ++ text ".d") guest_units)

-- `/var/run` is a link to `/run`.
through_link : Text → Text
through_link target =
    if target === text "/var/run" || has_prefix (text "/var/run/") target
    then text "/run" ++ trim_prefix (text "/var/run") target
    else target

-- One path lies within the other.
overlaps : Text → Text → Bool
overlaps target reserved =
    target === reserved
    || has_prefix (reserved ++ text "/") target
    || target === text "/"
    || has_prefix (target ++ text "/") reserved

overlaps_any : Text → List Text → Bool
unfolding overlaps
overlaps_any target [] = false
overlaps_any target (r ∷ rs) = overlaps target r || overlaps_any target rs

-- The first mount that overlaps, `none` if there is none. Only targets that are absolute are
-- cleaned here, as those that ValidateMounts has let through.
unfoldable pub overlapping_mount : List Mount → Option Text
unfolding through_link overlaps_any
overlapping_mount [] = none
overlapping_mount (m ∷ ms) =
    if overlaps_any (through_link (clean_absolute m.target)) protected_paths
    then some m.target
    else overlapping_mount ms
