-- ===== src/GpuDriver/Health/Report.antt =====
-- Which reports `read_health_report` takes (internal/gpudriver/health.go).
use kiac.Base.{
  ltb, leb, Bool-cases, Eq, Text, length, Result, ok, err, guard, pos, ℕ, ◌+◌, ◌≤◌, ◌≡◌, refl, sym,
  ◌≢◌, ◌↔◌, inl, inr, Bool, true, false, not, ◌||◌, [], arith, int_eq, text_beq_iff, then-eq-ok,
  guard-eq-ok,
}
use kiac.GpuDriver.Health.{
  other_identity, check_report, HealthReport, HealthState, Identity, ReportDecoder, ReportFile,
  health_max_age, is_stale, long_message, second, stale, wrong_identity, decoded, read_contents,
  read_health_report,
}

-- A report of this Pod and this boot, of the last 20 seconds, in a small file.
pub record Accepted (decode : ReportDecoder) (i : Identity) (now : ℕ) (f : ReportFile)
    (r : HealthReport) : Type 0 where
  pub regular : f.is_regular ≡ true
  pub size : f.size ≤ 4096
  pub raw : Text
  pub contents : f.contents ≡ ok raw
  pub short : length raw ≤ 4096
  pub parsed : decode raw ≡ ok (r, false)
  pub version : r.version ≡ pos 1
  pub has_pod : i.pod_uid ≢ []
  pub has_boot : i.boot_id ≢ []
  pub same_pod : r.pod_uid ≡ i.pod_uid
  pub same_node : r.node_name ≡ i.node_name
  pub same_boot : r.boot_id ≡ i.boot_id
  pub timed : r.checked_at ≢ 0
  pub not_ahead : r.checked_at ≤ now + second
  pub fresh : now ≤ r.checked_at + health_max_age
  pub message : length r.message ≤ 1024

abbrev pub reported : HealthReport → HealthState
reported r = record { healthy = r.healthy; checked_at = r.checked_at; message = r.message }

module _ (i : Identity) (now : ℕ) (r : HealthReport) where
  -- What `check_report` makes sure of.
  abbrev Checked : Type 0
  Checked =
      (r.version ≡ pos 1)
      × (i.pod_uid ≢ [])
      × (i.boot_id ≢ [])
      × (r.pod_uid ≡ i.pod_uid)
      × (r.node_name ≡ i.node_name)
      × (r.boot_id ≡ i.boot_id)
      × (r.checked_at ≢ 0)
      × (r.checked_at ≤ now + second)
      × (now ≤ r.checked_at + health_max_age)
      × (length r.message ≤ 1024)

  other_identity_iff : (other_identity i r ≡ false) ↔ (
      (r.version ≡ pos 1)
      × (i.pod_uid ≢ [])
      × (i.boot_id ≢ [])
      × (r.pod_uid ≡ i.pod_uid)
      × (r.node_name ≡ i.node_name)
      × (r.boot_id ≡ i.boot_id))
  unfolding other_identity
  other_identity_iff = ground (
    arith,
    Eq.beq_iff int_eq r.version (pos 1),
    text_beq_iff i.pod_uid [],
    text_beq_iff i.boot_id [],
    text_beq_iff r.pod_uid i.pod_uid,
    text_beq_iff r.node_name i.node_name,
    text_beq_iff r.boot_id i.boot_id,
  )

  is_stale_iff :
      (is_stale now r.checked_at ≡ false)
      ↔ ((r.checked_at ≢ 0) × (r.checked_at ≤ now + second) × (now ≤ r.checked_at + health_max_age))
  unfolding is_stale
  is_stale_iff = ground arith

  check_report-ok : (s : HealthState) → check_report i now r ≡ ok s → Checked × (s ≡ reported r)
  unfolding check_report
  check_report-ok s h =
      let (_, h1, k1) = then-eq-ok (guard (not (other_identity i r)) wrong_identity) _ h in
      let (_, h2, k2) = then-eq-ok (guard (not (is_stale now r.checked_at)) stale) _ k1 in
      let (_, h3, k3) = then-eq-ok (guard (leb (length r.message) 1024) long_message) _ k2 in
      let a = guard-eq-ok _ wrong_identity h1 in
      let b = guard-eq-ok _ stale h2 in
      let c = guard-eq-ok _ long_message h3 in
      (
        ground (arith, other_identity_iff, is_stale_iff),
        (let same : ◌≡◌ {A = HealthState} (reported r) s = cc in sym same),
      )

  Checked-check_report : Checked → check_report i now r ≡ ok (reported r)
  unfolding check_report
  Checked-check_report h =
      let same : other_identity i r ≡ false = ground (arith, other_identity_iff) in
      let timely : is_stale now r.checked_at ≡ false = ground (arith, is_stale_iff) in
      let short : leb (length r.message) 1024 ≡ true = ground arith in simp (same, timely, short)

module _ (decode : ReportDecoder) (i : Identity) (now : ℕ) where
  decoded-ok :
      (o : Result Text (HealthReport × Bool)) (s : HealthState)
      → decoded i now o ≡ ok s
      → (r : HealthReport) × (o ≡ ok (r, false)) × Checked i now r × (s ≡ reported r)
  unfolding decoded
  decoded-ok (err e) s h = absurd (cc)
  decoded-ok (ok (r, true)) s h = absurd (cc)
  decoded-ok (ok (r, false)) s h = let (c, e) = check_report-ok i now r s h in (r, refl, c, e)

  read_contents-ok :
      (o : Result Text Text) (s : HealthState)
      → read_contents decode i now o ≡ ok s
      → (raw : Text) × (o ≡ ok raw)
        × (length raw ≤ 4096)
        × ((r : HealthReport) × (decode raw ≡ ok (r, false)) × Checked i now r × (s ≡ reported r))
  unfolding read_contents
  read_contents-ok (err e) s h = absurd (cc)
  read_contents-ok (ok raw) s h = elim (Bool-cases (ltb 4096 (length raw))) [
    | inl long ↦ absurd (ground arith)
    | inr short ↦ (raw, refl, ground arith, decoded-ok (decode raw) s (ground arith))
  ]

  -- A state that `read_health_report` returns is that of an acceptable report: a regular file of at
  -- most 4096 bytes with one JSON value of version 1, of this Pod, node and boot, none of which
  -- identities is empty but perhaps the node's, checked at most a second ahead and at most 20
  -- seconds ago, with a message of at most 1024 bytes.
  pub read_health_report-ok :
      (f : ReportFile) (s : HealthState)
      → read_health_report decode i now (ok f) ≡ ok s
      → (r : HealthReport) × Accepted decode i now f r × (s ≡ reported r)
  unfolding read_health_report
  read_health_report-ok f s h = elim (Bool-cases (not f.is_regular || ltb 4096 f.size)) [
    | inl bad ↦ absurd (ground arith)
    | inr good ↦
        (let (raw, c, l, (r, d, k, e)) = read_contents-ok f.contents s (ground arith) in
          (
            r,
            record {
              regular = ground arith;
              size = ground arith;
              raw = raw;
              contents = c;
              short = l;
              parsed = d;
              version = ground arith;
              has_pod = ground arith;
              has_boot = ground arith;
              same_pod = ground arith;
              same_node = ground arith;
              same_boot = ground arith;
              timed = ground arith;
              not_ahead = ground arith;
              fresh = ground arith;
              message = ground arith;
            },
            e,
          ))
  ]

  pub Accepted-read_health_report :
      (f : ReportFile) (r : HealthReport)
      → Accepted decode i now f r
      → read_health_report decode i now (ok f) ≡ ok (reported r)
  unfolding read_health_report read_contents decoded
  Accepted-read_health_report f r a =
      let checked : check_report i now r ≡ ok (reported r) = Checked-check_report i now r (
        a.version, a.has_pod, a.has_boot, a.same_pod, a.same_node, a.same_boot, a.timed,
        a.not_ahead, a.fresh, a.message,
      ) in
      let fits : ltb 4096 f.size ≡ false = (let h = a.size in ground arith) in
      let short : ltb 4096 (length a.raw) ≡ false = (let h = a.short in ground arith) in
      simp (a.regular, fits, a.contents, short, a.parsed, checked)
