-- ===== src/Http/Resources/Returns.antt =====
-- The metrics of a coordinator whose jobs pass `assertJobInvariants` are always made.
use os_mini_project.Common.{
  ℕ, ◌+◌, ◌-◌, ◌*◌, max, ◌≤◌, ◌≡◌, refl, sym, inl, inr, Bool, true, false, Option, none, some, List,
  [], ◌∷◌, map, ltb, or_default, select, count, length, All, arith, Bool-cases, Option-cases, subst,
  Result, ok, err, Result-cases, traverse, traverse-All, traverse-ok, ok-injective, ok-ne-err,
  max_safe_integer, ◌==◌,
}
use os_mini_project.Common.Dict.{Dict}
use os_mini_project.Entities.{Uuid, PrintJob, Failure}
use os_mini_project.Metrics.{Ratio, JobTiming, throughput_jobs_per_minute}
use os_mini_project.Metrics.Laws.{calculate_job_timing_iff}
use os_mini_project.Lifecycle.{assert_job_invariants}
use os_mini_project.Scheduler.{effective_priority, rank_jobs}
use os_mini_project.Coordinator.State.{
  QueueCoordinator, CoordinatorSnapshot, PrinterSnapshot, now_of,
}
use os_mini_project.Coordinator.Checks.{snapshot}
use os_mini_project.Http.Resources.{
  JobResource, MetricsResource, job_resource, with_priority, resource_of, job_resources, is_counted,
  timing_of, utilization, metrics_resource, measured, metrics_of, is_waiting, is_at_work, is_failed,
  decisions_by_id,
}

-- The times of a job that has come to its end are safe and in order.
abbrev pub IsTimed : JobResource → Type 0
IsTimed job =
    (s t : ℕ)
    → job.started_at ≡ some s
    → job.completed_at ≡ some t
    → (job.queued_at ≤ s) × (s ≤ t) × (t ≤ max_safe_integer)

passes-IsTimed :
    (simulation_id : Uuid) (ranks : Dict ℕ) (job : PrintJob) (priority : ℕ)
    → assert_job_invariants job ≡ ok tt
    → IsTimed (resource_of simulation_id ranks job priority)
unfolding assert_job_invariants
passes-IsTimed simulation_id ranks job priority h s t started completed =
    (ground arith, ground arith, ground arith)

with_priority-IsTimed :
    (simulation_id : Uuid) (ranks : Dict ℕ) (job : PrintJob) (r : JobResource)
    (p : Result Failure ℕ)
    → with_priority simulation_id ranks job p ≡ ok r
    → assert_job_invariants job ≡ ok tt
    → IsTimed r
with_priority-IsTimed simulation_id ranks job r (err e) h passes = absurd (ok-ne-err (sym h))
with_priority-IsTimed simulation_id ranks job r (ok priority) h passes =
    subst IsTimed (ok-injective h) (passes-IsTimed simulation_id ranks job priority passes)

job_resource-IsTimed :
    (simulation_id : Uuid) (ranks : Dict ℕ) (c : QueueCoordinator) (job : PrintJob)
    (r : JobResource)
    → job_resource simulation_id ranks c job ≡ ok r
    → assert_job_invariants job ≡ ok tt
    → IsTimed r
unfolding job_resource
job_resource-IsTimed simulation_id ranks c job r h passes =
    with_priority-IsTimed simulation_id ranks job r (effective_priority job (now_of c) c.scheduler)
      h passes

job_resources-IsTimed :
    (simulation_id : Uuid) (c : QueueCoordinator) (s : CoordinatorSnapshot)
    (jobs : List JobResource)
    → All (λ job. assert_job_invariants job ≡ ok tt) s.jobs
    → job_resources simulation_id c s ≡ ok jobs
    → All IsTimed jobs
unfolding job_resources
job_resources-IsTimed simulation_id c s jobs passes h =
    elim (Result-cases (
      rank_jobs s.jobs (map (λ (p : PrinterSnapshot). p.state.profile) s.printers) c.scheduler
        (now_of c))) [
          | inl (ranking, e) ↦
              traverse-All (job_resource simulation_id (decisions_by_id ranking.decisions []) c)
                (λ job. assert_job_invariants job ≡ ok tt) IsTimed s.jobs jobs
                (job_resource-IsTimed simulation_id (decisions_by_id ranking.decisions []) c) passes
                (rw (e, job_resources) at h)
          | inr (f, e) ↦ absurd (ok-ne-err (sym (rw (e, job_resources) at h)))
        ]

timing_of-ok :
    (first window_start : ℕ) (job : JobResource)
    → IsTimed job
    → is_counted first window_start job ≡ true
    → (t : JobTiming) × (timing_of job ≡ ok t)
unfolding timing_of
timing_of-ok first window_start job h counted = elim (Option-cases job.started_at) [
  | inl never ↦ absurd (ground arith)
  | inr (s, started) ↦ elim (Option-cases job.completed_at) [
    | inl never ↦ absurd (ground arith)
    | inr (t, completed) ↦
        let (queued, served, safe) = h s t started completed in
        let in_order : ltb t s ≡ false = ground arith in
        let (timing, made, _, _, _, _) =
          (calculate_job_timing_iff (record {
            arrival_ms = job.queued_at;
            first_start_ms = s;
            completion_ms = t;
            service_ms = t - s;
          })).1
            (queued, served, omega (arith, queued, served), safe) in
        (timing, rw (started, completed, in_order) made)
  ]
]

counted-timed :
    (first window_start : ℕ) (jobs : List JobResource)
    → All IsTimed jobs
    → All
        (λ job. (t : JobTiming) × (timing_of job ≡ ok t))
        (select (is_counted first window_start) jobs)
counted-timed first window_start [] h = tt
counted-timed first window_start (job ∷ jobs) h =
    elim (Bool-cases (is_counted first window_start job)) [
      | inl counted ↦ rw counted (
        timing_of-ok first window_start job h.0 counted,
        counted-timed first window_start jobs h.1,
      )
      | inr skipped ↦ rw skipped (counted-timed first window_start jobs h.1)
    ]

-- A job is counted once at most.
counts-apart :
    (first window_start : ℕ) (jobs : List JobResource)
    → count is_waiting jobs
        + count is_at_work jobs
        + length (select (is_counted first window_start) jobs)
        + count (is_failed first) jobs
      ≤ length jobs
counts-apart first window_start [] = omega arith
counts-apart first window_start (job ∷ jobs) = ground (arith, counts-apart first window_start jobs)

throughput-ok :
    (n elapsed_ms : ℕ)
    → n ≤ max_safe_integer
    → elapsed_ms ≤ max_safe_integer
    → (t : Option Ratio) × (throughput_jobs_per_minute n elapsed_ms ≡ ok t)
unfolding throughput_jobs_per_minute
throughput-ok n elapsed_ms h k = elim (Bool-cases (elapsed_ms == 0)) [
  | inl none_yet ↦ (none, ground arith)
  | inr some_time ↦ (some (record { num = n * 60_000; den = elapsed_ms }), ground arith)
]

utilizations-bounded :
    (now_ms : ℕ) (jobs : List JobResource) (printers : List PrinterSnapshot)
    → All (λ (u : Uuid × Ratio). u.1.num ≤ u.1.den) (map (utilization now_ms jobs) printers)
utilizations-bounded now_ms jobs [] = tt
utilizations-bounded now_ms jobs (printer ∷ printers) =
    (omega arith, utilizations-bounded now_ms jobs printers)

-- Every job is counted under one heading at most, and no printer is used for more than all the time.
abbrev pub IsSensible : List JobResource → MetricsResource → Type 0
IsSensible jobs m =
    (m.queued_jobs + m.active_jobs + m.completed_jobs + m.failed_jobs ≤ length jobs)
    × All (λ (u : Uuid × Ratio). u.1.num ≤ u.1.den) m.printer_utilization

module _ (c : QueueCoordinator) (jobs : List JobResource) (window_ms warnings : ℕ) where
  measured-IsSensible :
      (timings : Result Failure (List JobTiming)) (s : Result Failure CoordinatorSnapshot)
      (throughput : Result Failure (Option Ratio)) (completed : ℕ)
      → ((ts : List JobTiming) × (timings ≡ ok ts))
      → ((shown : CoordinatorSnapshot) × (s ≡ ok shown))
      → ((t : Option Ratio) × (throughput ≡ ok t))
      → count is_waiting jobs
          + count is_at_work jobs
          + completed
          + count (is_failed c.metrics_sequence_start) jobs
        ≤ length jobs
      → (m : MetricsResource) × (measured c jobs window_ms completed warnings timings s throughput
          ≡ ok m)
        × IsSensible jobs m
  measured-IsSensible timings s throughput completed (ts, e) (shown, f) (t, g) h = (
    metrics_of c jobs window_ms completed warnings ts shown t,
    rw (e, f, g) refl,
    (h, utilizations-bounded (now_of c) jobs shown.printers),
  )

length-select :
    (test : JobResource → Bool) (jobs : List JobResource) → length (select test jobs) ≤ length jobs
length-select test [] = omega arith
length-select test (job ∷ jobs) = ground (arith, length-select test jobs)

-- Where the jobs of a coordinator's snapshot pass `assertJobInvariants` and have resources, and their
-- number and the window are safe integers, `metricsResource` returns: the timings do not throw. Every
-- job is counted under one heading at most, and no printer is used for more than all the time.
pub metrics_resource-IsSensible :
    (simulation_id : Uuid) (c : QueueCoordinator) (s : CoordinatorSnapshot)
    (jobs : List JobResource) (warning_count requested_window_ms : Option ℕ)
    → snapshot c ≡ ok s
    → All (λ job. assert_job_invariants job ≡ ok tt) s.jobs
    → job_resources simulation_id c s ≡ ok jobs
    → length jobs ≤ max_safe_integer
    → or_default requested_window_ms (max 1 (now_of c)) ≤ max_safe_integer
    → (m : MetricsResource) × (metrics_resource c jobs warning_count requested_window_ms ≡ ok m)
      × IsSensible jobs m
unfolding metrics_resource
metrics_resource-IsSensible simulation_id c s jobs warning_count requested_window_ms shown passes
      made few short =
    let test =
      is_counted c.metrics_sequence_start
        (now_of c - or_default requested_window_ms (max 1 (now_of c))) in
    measured-IsSensible c jobs _ _ (traverse timing_of (select test jobs)) (snapshot c) _
      (length (select test jobs))
      (traverse-ok timing_of (select test jobs)
        (counted-timed _ _ jobs (job_resources-IsTimed simulation_id c s jobs passes made)))
      (s, shown)
      (throughput-ok (length (select test jobs)) _ (omega (arith, few, length-select test jobs))
        short)
      (counts-apart c.metrics_sequence_start _ jobs)
