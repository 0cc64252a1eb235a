-- ===== src/Http/Resources.antt =====
-- apps/api/src/http/resources.ts: the resources that are made of a coordinator's snapshot. A date is
-- kept as the simulated time that it stands for, which `Date.parse` gives back, and times
-- stay in the range of `Date`. Texts (messages, the
-- scheduler's summary, the time of the capture) are left out.
pub mod Returns
mod Samples
use os_mini_project.Common.{
  ℕ, ◌+◌, ◌-◌, ◌*◌, min, max, Bool, true, false, ◌||◌, ◌&&◌, not, Option, none, some, List, [], ◌∷◌,
  map, ltb, leb, ◌==◌, if◌then◌else◌, is_some, or_default, select, count, length, Result, ok, err,
  traverse,
}
use os_mini_project.Common.Dict.{Dict, get, put}
use os_mini_project.Entities.{
  Uuid, JobStatus, PrinterStatus, ColorMode, SpeedMultiplier, PrintJob, PrinterState,
  DomainSchedulerConfig, Failure, range_error, same_job_status,
}
use os_mini_project.Metrics.{
  Ratio, JobTiming, calculate_job_timing, summarize, throughput_jobs_per_minute,
}
use os_mini_project.Scheduler.{
  SchedulerRanking, SchedulerDecision, SchedulerExplanation, rank_jobs, effective_priority,
}
use os_mini_project.Sync.LeaseMutex.{LeaseInspection}
use os_mini_project.Coordinator.State.{
  QueueCoordinator, CoordinatorSnapshot, PrinterSnapshot, now_of,
}
use os_mini_project.Coordinator.Checks.{snapshot}

abbrev pub starvation_warning_ms : ℕ
starvation_warning_ms = 30_000

pub record JobResource : Type 0 where
  pub id : Uuid
  pub simulation_id : Uuid
  pub owner_id : Uuid
  pub document_name : List ℕ
  pub pages : ℕ
  pub pages_completed : ℕ
  pub pages_remaining : ℕ
  pub base_priority : ℕ
  pub effective_priority : ℕ
  pub color_mode : ColorMode
  pub duplex : Bool
  pub status : JobStatus
  pub blocked : Bool
  pub submitted_at : ℕ
  pub queued_at : ℕ
  pub started_at : Option ℕ
  pub completed_at : Option ℕ
  pub assigned_printer_id : Option Uuid
  pub cancellation_requested_at : Option ℕ
  pub last_progress_at : Option ℕ
  pub retry_count : ℕ
  pub rank : Option ℕ
  pub sequence : ℕ
  pub version : ℕ

-- `id ? { id } : {}`, where the empty text counts as missing.
abbrev pub present : Option Uuid → Option Uuid
present none = none
present (some id) = if id == 0 then none else some id

-- The map of the decisions, and the rank that it gives.
abbrev decisions_by_id : List SchedulerDecision → Dict ℕ → Dict ℕ
decisions_by_id [] d = d
decisions_by_id (decision ∷ decisions) d =
    decisions_by_id decisions (put decision.job_id decision.explanation.rank d)

abbrev resource_of : Uuid → Dict ℕ → PrintJob → ℕ → JobResource
resource_of simulation_id ranks job priority = record {
  id = job.id;
  simulation_id = simulation_id;
  owner_id = job.owner_id;
  document_name = job.document_name;
  pages = job.pages;
  pages_completed = job.pages_completed;
  pages_remaining = job.pages - job.pages_completed;
  base_priority = job.base_priority;
  effective_priority = priority;
  color_mode = job.color_mode;
  duplex = job.duplex;
  status = job.status;
  blocked = same_job_status job.status JobStatus.blocked;
  submitted_at = job.submitted_at_ms;
  queued_at = job.queued_at_ms;
  started_at = job.started_at_ms;
  completed_at = job.completed_at_ms;
  assigned_printer_id = present job.assigned_printer_id;
  cancellation_requested_at = job.cancellation_requested_at_ms;
  last_progress_at = job.last_progress_at_ms;
  retry_count = job.retry_count;
  rank = get job.id ranks;
  sequence = job.sequence;
  version = job.version;
}

abbrev with_priority : Uuid → Dict ℕ → PrintJob → Result Failure ℕ → Result Failure JobResource
with_priority simulation_id ranks job (err e) = err e
with_priority simulation_id ranks job (ok priority) =
    ok (resource_of simulation_id ranks job priority)

unfoldable pub job_resource :
    Uuid → Dict ℕ → QueueCoordinator → PrintJob → Result Failure JobResource
unfolding effective_priority
job_resource simulation_id ranks c job =
    with_priority simulation_id ranks job (effective_priority job (now_of c) c.scheduler)

-- `jobResources`
unfoldable pub job_resources :
    Uuid → QueueCoordinator → CoordinatorSnapshot → Result Failure (List JobResource)
unfolding job_resource rank_jobs
job_resources simulation_id c s =
    elim (rank_jobs s.jobs (map (λ (p : PrinterSnapshot). p.state.profile) s.printers) c.scheduler
      (now_of c)) [
        | err e ↦ err e
        | ok ranking ↦
            traverse (job_resource simulation_id (decisions_by_id ranking.decisions []) c) s.jobs
      ]

abbrev pub is_waiting : JobResource → Bool
is_waiting job =
    same_job_status job.status JobStatus.queued
    || same_job_status job.status JobStatus.ready
    || same_job_status job.status JobStatus.blocked

abbrev pub is_at_work : JobResource → Bool
is_at_work job =
    same_job_status job.status JobStatus.printing || same_job_status job.status JobStatus.paused

-- A job that has waited for so long that a warning is raised.
abbrev pub is_starving : ℕ → JobResource → Bool
is_starving now_ms job = is_waiting job && leb (job.queued_at + starvation_warning_ms) now_ms

abbrev pub is_counted : ℕ → ℕ → JobResource → Bool
is_counted first_sequence window_start_ms job =
    leb first_sequence job.sequence
    && same_job_status job.status JobStatus.completed
    && is_some job.started_at
    && is_some job.completed_at
    && leb window_start_ms (or_default job.completed_at 0)

abbrev pub is_failed : ℕ → JobResource → Bool
is_failed first_sequence job =
    leb first_sequence job.sequence && same_job_status job.status JobStatus.failed

-- The timing of a completed job; a completion before the start makes the service time negative,
-- which `calculateJobTiming` refuses.
unfoldable pub timing_of : JobResource → Result Failure JobTiming
timing_of job =
    let started_ms = or_default job.started_at 0 in
    let completed_ms = or_default job.completed_at 0 in
    if ltb completed_ms started_ms
    then err range_error
    else calculate_job_timing (record {
      arrival_ms = job.queued_at;
      first_start_ms = started_ms;
      completion_ms = completed_ms;
      service_ms = completed_ms - started_ms;
    })

abbrev is_busy : Uuid → JobResource → Bool
is_busy printer_id job =
    elim job.assigned_printer_id [ none ↦ false | some id ↦ id == printer_id ]
    && is_some job.started_at

-- For how long the first job at the printer has run.
abbrev pub busy_ms : ℕ → Uuid → List JobResource → ℕ
busy_ms now_ms printer_id [] = 0
busy_ms now_ms printer_id (job ∷ jobs) =
    let rest = busy_ms now_ms printer_id jobs in
    if is_busy printer_id job then now_ms - or_default job.started_at 0 else rest

-- `Math.min(1, busyMs / Math.max(1, now))`
abbrev pub utilization : ℕ → List JobResource → PrinterSnapshot → Uuid × Ratio
utilization now_ms jobs printer = (
  printer.state.profile.id,
  record {
    num = min (max 1 now_ms) (busy_ms now_ms printer.state.profile.id jobs);
    den = max 1 now_ms;
  },
)

pub record MetricsResource : Type 0 where
  pub sample_window_ms : ℕ
  pub queued_jobs : ℕ
  pub active_jobs : ℕ
  pub completed_jobs : ℕ
  pub failed_jobs : ℕ
  pub throughput_jobs_per_minute : Option Ratio
  pub average_wait_ms : Option Ratio
  pub median_wait_ms : Option Ratio
  pub p95_wait_ms : Option ℕ
  pub average_turnaround_ms : Option Ratio
  pub starvation_warning_count : ℕ
  pub printer_utilization : List (Uuid × Ratio)

abbrev metrics_of :
    QueueCoordinator
    → List JobResource
    → ℕ
    → ℕ
    → ℕ
    → List JobTiming
    → CoordinatorSnapshot
    → Option Ratio
    → MetricsResource
metrics_of c jobs window_ms completed warnings timings s throughput =
    let waits = summarize (map (λ (t : JobTiming). t.wait_ms) timings) in
    record {
      sample_window_ms = window_ms;
      queued_jobs = count is_waiting jobs;
      active_jobs = count is_at_work jobs;
      completed_jobs = completed;
      failed_jobs = count (is_failed c.metrics_sequence_start) jobs;
      throughput_jobs_per_minute = throughput;
      average_wait_ms = waits.average;
      median_wait_ms = waits.median;
      p95_wait_ms = waits.p95;
      average_turnaround_ms =
          (summarize (map (λ (t : JobTiming). t.turnaround_ms) timings)).average;
      starvation_warning_count = warnings;
      printer_utilization = map (utilization (now_of c) jobs) s.printers;
    }

-- The timings, the snapshot and the throughput may throw, in this order.
abbrev pub measured :
    QueueCoordinator
    → List JobResource
    → ℕ
    → ℕ
    → ℕ
    → Result Failure (List JobTiming)
    → Result Failure CoordinatorSnapshot
    → Result Failure (Option Ratio)
    → Result Failure MetricsResource
measured c jobs window_ms completed warnings (err e) s throughput = err e
measured c jobs window_ms completed warnings (ok timings) (err e) throughput = err e
measured c jobs window_ms completed warnings (ok timings) (ok s) (err e) = err e
measured c jobs window_ms completed warnings (ok timings) (ok s) (ok throughput) =
    ok (metrics_of c jobs window_ms completed warnings timings s throughput)

-- `metricsResource`
unfoldable pub metrics_resource :
    QueueCoordinator → List JobResource → Option ℕ → Option ℕ → Result Failure MetricsResource
unfolding timing_of
metrics_resource c jobs warning_count requested_window_ms =
    let window_ms = or_default requested_window_ms (max 1 (now_of c)) in
    let completed = select (is_counted c.metrics_sequence_start (now_of c - window_ms)) jobs in
    measured c jobs window_ms (length completed)
      (or_default warning_count (count (is_starving (now_of c)) jobs))
      (traverse timing_of completed) (snapshot c)
      (throughput_jobs_per_minute (length completed) window_ms)
