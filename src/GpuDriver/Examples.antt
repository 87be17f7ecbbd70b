-- ===== src/GpuDriver/Examples.antt =====
-- The theorems about the GPU driver, at a concrete report.
use kiac.Base.{
  Text, text, length, All, Result, ok, err, ℕ, ◌+◌, ◌*◌, ◌≤◌, ◌≡◌, refl, true, false, none, some,
  List, [], ◌∷◌, ◌++◌, arith, text_beq,
}
use kiac.GpuDriver.Health.Report.{Accepted, read_health_report-ok, reported}
use kiac.GpuDriver.Plugin.{
  ContainerResponse, DevicePlugin, DeviceStat, allocate, device_name, read_write,
  require_character_device, watched,
}
use kiac.GpuDriver.Health.{
  HealthMonitor, HealthReport, Identity, ReportDecoder, ReportFile, health_max_age, is_stale,
  new_health_monitor, probe_report, read_health_report, refresh, require_healthy, run_monitor,
  second, snapshot, state_of, take, write_all, summarize_health, unknown_state,
}
use kiac.GpuDriver.Plugin.Allocated.{GivesGranted, allocate-ok}
use kiac.GpuDriver.Health.Output.{join_all, write_all-take}
use kiac.GpuDriver.Health.Lease.{snapshot-healthy}

abbrev this_pod : Identity
this_pod = record { pod_uid = text "uid-1"; node_name = text "worker"; boot_id = text "boot-1" }

abbrev probed : ℕ
probed = 100 * second

abbrev passed : HealthReport
passed = probe_report this_pod probed none

-- Any text is decoded to the report.
abbrev decode : ReportDecoder
decode raw = ok (passed, false)

abbrev report_file : ReportFile
report_file = record { is_regular = true; size = 200; contents = ok (text "{}") }

abbrev ticks : List (ℕ × Result Text ReportFile)
ticks = (90 * second, err (text "no such file")) ∷ []

abbrev monitor : HealthMonitor
monitor =
    run_monitor decode (ticks ++ (101 * second, ok report_file) ∷ []) (new_health_monitor this_pod)

healthy_now : (snapshot (110 * second) monitor).healthy ≡ true
unfolding snapshot run_monitor new_health_monitor refresh read_health_report is_stale text_beq
    probe_report state_of
healthy_now = refl

snapshot-healthy_example :
    (f : ReportFile) × (r : HealthReport) × (◌≡◌ {A = Result Text ReportFile}
      (ok report_file)
      (ok f))
    × Accepted decode this_pod (101 * second) f r
    × (r.healthy ≡ true)
    × (110 * second ≤ r.checked_at + health_max_age)
snapshot-healthy_example =
    snapshot-healthy decode ticks (101 * second) (110 * second) (ok report_file) this_pod
      healthy_now

read_report :
    read_health_report decode this_pod (101 * second) (ok report_file)
    ≡ ok (record { healthy = true; checked_at = probed; message = passed.message })
unfolding read_health_report is_stale text_beq probe_report
read_report = refl

read_health_report-ok_example :
    (r : HealthReport) × Accepted decode this_pod (101 * second) report_file r
    × (record { healthy = true; checked_at = probed; message = passed.message } ≡ reported r)
read_health_report-ok_example =
    read_health_report-ok decode this_pod (101 * second) report_file _ read_report

write_all-take_example :
    write_all (text "probe " ∷ text "failed" ∷ []) []
    ≡ take 2048 ([] ++ join_all (text "probe " ∷ text "failed" ∷ []))
write_all-take_example = write_all-take (text "probe " ∷ text "failed" ∷ []) [] (omega arith)

abbrev plugin : DevicePlugin
plugin = record {
  health = some monitor;
  render_device = text "/dev/dri/renderD128";
  optional_card = [];
}

abbrev stat : DeviceStat
stat path = ok true

abbrev requests : List (List Text)
requests = (device_name ∷ []) ∷ []

abbrev granted : ContainerResponse
granted = record {
  devices = read_write (text "/dev/dri/renderD128") ∷ [];
  envs = (text "KIAC_GPU_API", text "venus") ∷ (text "KIAC_GPU_PRODUCT", text "apple-silicon") ∷ [];
}

allocated : allocate (110 * second) stat plugin requests ≡ ok (granted ∷ [])
unfolding allocate require_healthy require_character_device snapshot run_monitor new_health_monitor
    refresh read_health_report is_stale text_beq probe_report state_of
allocated = refl

allocate-ok_example :
    ((m : HealthMonitor) × (some monitor ≡ some m) × ((snapshot (110 * second) m).healthy ≡ true))
    × (stat (text "/dev/dri/renderD128") ≡ ok true)
    × All (λ (ids : List Text). ids ≡ device_name ∷ []) requests
    × (length (granted ∷ []) ≡ length requests)
    × All (GivesGranted stat plugin) (granted ∷ [])
allocate-ok_example = allocate-ok (110 * second) stat plugin requests (granted ∷ []) allocated

watched_test : watched (snapshot (110 * second) monitor) ≡ (text "venus-0", true) ∷ []
unfolding watched snapshot run_monitor new_health_monitor refresh read_health_report is_stale
    text_beq probe_report state_of
watched_test = refl

summary_test :
    summarize_health
      (record { healthy = true; checked_at = probed; message = [] })
      (some (text "no pod"))
    ≡ (unknown_state, probed, text "no pod")
unfolding summarize_health
summary_test = refl
