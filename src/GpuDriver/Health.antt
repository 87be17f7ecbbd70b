-- ===== src/GpuDriver/Health.antt =====
-- The health of the GPU as the driver sees it (internal/gpudriver/health.go): the report of the
-- watchdog, the monitor that reads it, and what the watchdog writes. Times are nanoseconds from Go's
-- zero time.
pub mod Report
pub mod Lease
pub mod Output
use kiac.Base.{
  ltb, leb, ◌==◌, if◌then◌else◌, is_some, ◌===◌, Text, text, length, Result, ok, err, ◌>>=◌, ◌>>◌,
  guard, ℤ, pos, ℕ, zero, suc, ◌+◌, ◌-◌, ◌*◌, Bool, false, not, ◌&&◌, ◌||◌, Option, none, some,
  List, [], ◌∷◌, ◌++◌, nat_eq, bool_eq, text_eq, pair_eq, int_eq,
}

abbrev pub second : ℕ
second = 1000000000

abbrev pub health_max_age : ℕ
health_max_age = 20 * second

pub record HealthReport : Type 0 where
  pub version : ℤ
  pub pod_uid : Text
  pub node_name : Text
  pub boot_id : Text
  pub healthy : Bool
  pub checked_at : ℕ
  pub message : Text

pub record HealthState : Type 0 where
  pub healthy : Bool
  pub checked_at : ℕ
  pub message : Text

-- The Pod and the boot whose reports are taken.
pub record Identity : Type 0 where
  pub pod_uid : Text
  pub node_name : Text
  pub boot_id : Text

-- What opening the report gives: `none` with the system's message if the open failed.
pub record ReportFile : Type 0 where
  pub is_regular : Bool
  pub size : ℕ
  pub contents : Result Text Text

pub data HealthError : Type 0 where
  open_failed : Text → HealthError
  read_failed : Text → HealthError
  not_bounded : HealthError
  too_long : HealthError
  bad_json : Text → HealthError
  trailing_data : HealthError
  wrong_identity : HealthError
  stale : HealthError
  long_message : HealthError

-- `encoding/json` with unknown fields refused: the value, and whether anything follows it.
abbrev pub ReportDecoder : Type 0
ReportDecoder = Text → Result Text (HealthReport × Bool)

-- `age < -time.Second || age > healthMaxAge` and a zero time
unfoldable pub is_stale : ℕ → ℕ → Bool
is_stale now checked_at =
    checked_at == 0 || ltb (now + second) checked_at || ltb (checked_at + health_max_age) now

other_identity : Identity → HealthReport → Bool
other_identity i r =
    not (r.version === pos 1)
    || i.pod_uid === []
    || i.boot_id === []
    || not (r.pod_uid === i.pod_uid)
    || not (r.node_name === i.node_name)
    || not (r.boot_id === i.boot_id)

check_report : Identity → ℕ → HealthReport → Result HealthError HealthState
unfolding other_identity
check_report i now r = do
  guard (not (other_identity i r)) wrong_identity
  guard (not (is_stale now r.checked_at)) stale
  guard (leb (length r.message) 1024) long_message
  ok (record { healthy = r.healthy; checked_at = r.checked_at; message = r.message })

decoded : Identity → ℕ → Result Text (HealthReport × Bool) → Result HealthError HealthState
unfolding check_report
decoded i now (err e) = err (bad_json e)
decoded i now (ok (r, more)) = if more then err trailing_data else check_report i now r

-- `io.LimitReader(f, 4097)` cuts what is read.
read_contents : ReportDecoder → Identity → ℕ → Result Text Text → Result HealthError HealthState
unfolding decoded
read_contents decode i now (err e) = err (read_failed e)
read_contents decode i now (ok raw) =
    if ltb 4096 (length raw) then err too_long else decoded i now (decode raw)

-- `readHealthReport`
unfoldable pub read_health_report :
    ReportDecoder → Identity → ℕ → Result Text ReportFile → Result HealthError HealthState
unfolding read_contents
read_health_report decode i now (err e) = err (open_failed e)
read_health_report decode i now (ok f) =
    if not f.is_regular || ltb 4096 f.size
    then err not_bounded
    else read_contents decode i now f.contents

-- `err.Error()`
error_text : HealthError → Text
error_text (open_failed e) = text "read Vulkan health report: " ++ e
error_text (read_failed e) = e
error_text not_bounded = text "Vulkan health report is not a bounded regular file"
error_text too_long = text "Vulkan health report exceeds 4096 bytes"
error_text (bad_json e) = text "invalid Vulkan health report: " ++ e
error_text trailing_data = text "Vulkan health report contains trailing data"
error_text wrong_identity = text "Vulkan health report identity does not match this Pod and VM boot"
error_text stale = text "Vulkan health report is stale or has an invalid timestamp"
error_text long_message = text "Vulkan health message exceeds limit"

-- `changes` counts the channels `changed` that were closed; it stands for the one in use.
pub record HealthMonitor : Type 0 where
  pub identity : Identity
  pub state : HealthState
  pub changes : ℕ

unfoldable pub new_health_monitor : Identity → HealthMonitor
new_health_monitor i = record {
  identity = i;
  state = record {
    healthy = false;
    checked_at = 0;
    message = text "waiting for a fresh Vulkan transfer probe";
  };
  changes = 0;
}

same_state : HealthState → HealthState → Bool
same_state s t = s.healthy === t.healthy && s.checked_at == t.checked_at && s.message === t.message

unfoldable pub state_of : Result HealthError HealthState → HealthState
unfolding error_text
state_of (ok s) = s
state_of (err e) = record { healthy = false; checked_at = 0; message = error_text e }

set_state : HealthState → HealthMonitor → HealthMonitor
unfolding same_state
set_state s m = if same_state s m.state then m else record m { state = s; changes = suc m.changes }

-- `refresh`, at a time and with the file as it is then.
unfoldable pub refresh : ReportDecoder → ℕ → Result Text ReportFile → HealthMonitor → HealthMonitor
unfolding set_state state_of
refresh decode now file m = set_state (state_of (read_health_report decode m.identity now file)) m

-- `snapshot`: a report that is too old is no longer good.
unfoldable pub snapshot : ℕ → HealthMonitor → HealthState
snapshot now m =
    if m.state.healthy && ltb (m.state.checked_at + health_max_age) now
    then record m.state { healthy = false; message = text "Vulkan health report expired" }
    else m.state

-- The ticks of `run`, each with its time and the file.
unfoldable pub run_monitor :
    ReportDecoder → List (ℕ × Result Text ReportFile) → HealthMonitor → HealthMonitor
run_monitor decode [] m = m
run_monitor decode ((now, file) ∷ rest) m = run_monitor decode rest (refresh decode now file m)

-- `requireHealthy`; a nil monitor is `none`.
unfoldable pub require_healthy : ℕ → Option HealthMonitor → Result Text (Unit {0})
require_healthy now none = err (text "Vulkan health monitor is not configured")
require_healthy now (some m) =
    let s = snapshot now m in
    if s.healthy then ok tt else err (text "Venus GPU is unavailable: " ++ s.message)

-- The first bytes of a text.
pub take : ℕ → Text → Text
take zero s = []
take (suc n) [] = []
take (suc n) (c ∷ s) = c ∷ take n s

-- `boundedOutput.Write`: the buffer after it; all of `p` is reported as written.
pub write_bounded : Text → Text → ℕ × Text
unfolding take
write_bounded buffer p =
    (length p, if ltb (length buffer) 2048 then buffer ++ take (2048 - length buffer) p else buffer)

pub write_all : List Text → Text → Text
unfolding write_bounded
write_all [] buffer = buffer
write_all (p ∷ ps) buffer = write_all ps (write_bounded buffer p).1

probe_message : Option Text → Text
probe_message none = text "Vulkan queue submission and transfer readback passed"
probe_message (some e) = e

-- The report that one round of `watchHealth` publishes; `none` is a probe that passed.
unfoldable pub probe_report : Identity → ℕ → Option Text → HealthReport
unfolding take probe_message
probe_report i now failure = record {
  version = pos 1;
  pod_uid = i.pod_uid;
  node_name = i.node_name;
  boot_id = i.boot_id;
  healthy = not (is_some failure);
  checked_at = now;
  message = take 1024 (probe_message failure);
}

pub data HealthValue : Type 0 where
  healthy_state : HealthValue
  unhealthy_state : HealthValue
  unknown_state : HealthValue

-- `summarizeHealth`: the state and the message.
unfoldable pub summarize_health : HealthState → Option Text → HealthValue × ℕ × Text
summarize_health s (some e) = (unknown_state, s.checked_at, e)
summarize_health s none =
    (if s.healthy then healthy_state else unhealthy_state, s.checked_at, s.message)
