-- ===== src/GpuDriver/Health/Lease.antt =====
-- For how long a good report counts (internal/gpudriver/health.go).
use kiac.Base.{
  ltb, if◌then◌else◌, Eq, bool_eq, Text, text, Result, ok, err, ℕ, suc, ◌+◌, ◌≤◌, ◌≡◌, refl, sym,
  ap, ◌∙◌, ◌≢◌, ◌↔◌, Bool, true, false, ◌&&◌, Option, none, some, List, [], ◌∷◌, ◌++◌, arith, subst,
  text_beq_iff,
}
use kiac.GpuDriver.Health.{
  set_state, same_state, HealthMonitor, HealthReport, HealthState, Identity, ReportDecoder,
  ReportFile, health_max_age, new_health_monitor, read_health_report, refresh, run_monitor,
  snapshot, state_of, HealthError, require_healthy,
}
use kiac.GpuDriver.Health.Report.{Accepted, read_health_report-ok}

module _ (decode : ReportDecoder) where
  same_state-eq : (s u : HealthState) → same_state s u ≡ true → s ≡ u
  unfolding same_state
  same_state-eq s u h =
      let a : s.healthy ≡ u.healthy = ground (arith, Eq.beq_iff bool_eq s.healthy u.healthy) in
      let b : s.checked_at ≡ u.checked_at = ground arith in
      let c : s.message ≡ u.message = ground (arith, text_beq_iff s.message u.message) in
      cc (a, b, c)

  same_state_refl : (s : HealthState) → same_state s s ≡ true
  unfolding same_state
  same_state_refl s =
      ground (arith, Eq.beq_iff bool_eq s.healthy s.healthy, text_beq_iff s.message s.message)

  set_state_lem :
      (s : HealthState) (m : HealthMonitor)
      → ((set_state s m).state ≡ s)
        × ((set_state s m).identity ≡ m.identity)
        × (((set_state s m).changes ≡ m.changes) ↔ ((set_state s m).state ≡ m.state))
  unfolding set_state
  set_state_lem s m = go (same_state s m.state) refl
    where
      After : HealthMonitor → Type 0
      After n =
          (n.state ≡ s)
          × (n.identity ≡ m.identity)
          × ((n.changes ≡ m.changes) ↔ (n.state ≡ m.state))

      self : same_state s s ≡ true
      self = same_state_refl s

      go :
          (x : Bool)
          → same_state s m.state ≡ x
          → After (if x then m else record m { state = s; changes = suc m.changes })
      go true e = (sym (same_state-eq s m.state e), refl, (λ h. refl, λ h. refl))
      go false e = (
        refl,
        refl,
        (
          λ h. absurd (omega arith),
          λ h.
              let differs : same_state s m.state ≡ true =
                subst (λ (u : HealthState). same_state s u ≡ true) h self in
              absurd (cc (e, differs)),
        ),
      )

  -- After `refresh` the monitor has the state that the report gives, or that of the error, and the
  -- same identity, and it has told of a change exactly if its state changed.
  pub refresh_lem :
      (now : ℕ) (file : Result Text ReportFile) (m : HealthMonitor)
      → ((refresh decode now file m).state
          ≡ state_of (read_health_report decode m.identity now file))
        × ((refresh decode now file m).identity ≡ m.identity)
        × (((refresh decode now file m).changes ≡ m.changes)
            ↔ ((refresh decode now file m).state ≡ m.state))
  unfolding refresh
  refresh_lem now file m =
      set_state_lem (state_of (read_health_report decode m.identity now file)) m

  run_monitor-identity :
      (ticks : List (ℕ × Result Text ReportFile)) (m : HealthMonitor)
      → (run_monitor decode ticks m).identity ≡ m.identity
  unfolding run_monitor
  run_monitor-identity [] m = refl
  run_monitor-identity ((now, file) ∷ ticks) m =
      run_monitor-identity ticks (refresh decode now file m) ∙ (refresh_lem now file m).1

  run_monitor-last :
      (ticks : List (ℕ × Result Text ReportFile)) (at : ℕ) (file : Result Text ReportFile)
      (m : HealthMonitor)
      → run_monitor decode (ticks ++ (at, file) ∷ []) m
        ≡ refresh decode at file (run_monitor decode ticks m)
  unfolding run_monitor
  run_monitor-last [] at file m = refl
  run_monitor-last ((now, f) ∷ ticks) at file m =
      run_monitor-last ticks at file (refresh decode now f m)

  snapshot_fresh :
      (now : ℕ) (n : HealthMonitor)
      → (snapshot now n).healthy ≡ true
      → (n.state.healthy ≡ true) × (now ≤ n.state.checked_at + health_max_age)
  unfolding snapshot
  snapshot_fresh now n h =
      go (n.state.healthy && ltb (n.state.checked_at + health_max_age) now) refl h
    where
      go :
          (x : Bool)
          → (n.state.healthy && ltb (n.state.checked_at + health_max_age) now) ≡ x
          → (if x
              then record n.state { healthy = false; message = text "Vulkan health report expired" }
              else n.state).healthy
            ≡ true
          → (n.state.healthy ≡ true) × (now ≤ n.state.checked_at + health_max_age)
      go true e k = absurd (cc)
      go false e k = ground arith

  snapshot_unhealthy :
      (now : ℕ) (n : HealthMonitor) → n.state.healthy ≡ false → (snapshot now n).healthy ≢ true
  snapshot_unhealthy now n e h = let (good, until) = snapshot_fresh now n h in absurd (cc (e, good))

  healthy_read :
      (i : Identity) (at now : ℕ) (file : Result Text ReportFile) (n : HealthMonitor)
      → n.state ≡ state_of (read_health_report decode i at file)
      → (snapshot now n).healthy ≡ true
      → (f : ReportFile) × (r : HealthReport) × (file ≡ ok f)
        × Accepted decode i at f r
        × (r.healthy ≡ true)
        × (now ≤ r.checked_at + health_max_age)
  unfolding read_health_report state_of
  healthy_read i at now (err e) n q h =
      absurd (snapshot_unhealthy now n (ap (λ (s : HealthState). s.healthy) q) h)
  healthy_read i at now (ok f) n q h = go (read_health_report decode i at (ok f)) refl q
    where
      go :
          (o : Result HealthError HealthState)
          → read_health_report decode i at (ok f) ≡ o
          → n.state ≡ state_of o
          → (f' : ReportFile) × (r : HealthReport) × (◌≡◌ {A = Result Text ReportFile}
              (ok f)
              (ok f'))
            × Accepted decode i at f' r
            × (r.healthy ≡ true)
            × (now ≤ r.checked_at + health_max_age)
      go (err e) k p = absurd (snapshot_unhealthy now n (ap (λ (s : HealthState). s.healthy) p) h)
      go (ok s) k p =
          let (r, a, e) = read_health_report-ok decode i at f s k in
          let (good, until) = snapshot_fresh now n h in
          (
            f,
            r,
            refl,
            a,
            ap (λ (u : HealthState). u.healthy) (sym (p ∙ e)) ∙ good,
            subst (λ (u : HealthState). now ≤ u.checked_at + health_max_age) (p ∙ e) until,
          )

  -- If a snapshot of a monitor that has run through any ticks is healthy, then the last tick read a
  -- file with a report that is acceptable at that tick for the monitor's Pod and boot and says
  -- healthy, and the snapshot is at most 20 seconds after the time of the report.
  pub snapshot-healthy :
      (ticks : List (ℕ × Result Text ReportFile)) (at now : ℕ) (file : Result Text ReportFile)
      (i : Identity)
      → (snapshot now
          (run_monitor decode (ticks ++ (at, file) ∷ []) (new_health_monitor i))).healthy
        ≡ true
      → (f : ReportFile) × (r : HealthReport) × (file ≡ ok f)
        × Accepted decode i at f r
        × (r.healthy ≡ true)
        × (now ≤ r.checked_at + health_max_age)
  unfolding snapshot new_health_monitor
  snapshot-healthy ticks at now file i h =
      let m = run_monitor decode ticks (new_health_monitor i) in
      let n = run_monitor decode (ticks ++ (at, file) ∷ []) (new_health_monitor i) in
      let state_eq : n.state ≡ state_of (read_health_report decode i at file) =
        ap (λ (k : HealthMonitor). k.state) (run_monitor-last ticks at file (new_health_monitor i))
        ∙ (refresh_lem at file m).0
        ∙ ap (λ (j : Identity). state_of (read_health_report decode j at file))
            (run_monitor-identity ticks (new_health_monitor i)) in
      healthy_read i at now file n state_eq h

pub require_healthy-ok :
    (now : ℕ) (o : Option HealthMonitor)
    → require_healthy now o ≡ ok tt
    → (m : HealthMonitor) × (o ≡ some m) × ((snapshot now m).healthy ≡ true)
unfolding require_healthy
require_healthy-ok now none h = absurd (cc)
require_healthy-ok now (some m) h = (m, refl, go (snapshot now m).healthy h)
  where
    go :
        (b : Bool)
        → ◌≡◌ {A = Result Text (Unit {0})}
            (if b
              then ok tt
              else err (text "Venus GPU is unavailable: " ++ (snapshot now m).message))
            (ok tt)
        → b ≡ true
    go true k = refl
    go false k = absurd (cc)
