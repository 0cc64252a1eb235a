-- ===== src/Lifecycle.antt =====
-- apps/api/src/domain/lifecycle.ts. The transition table, the invariants of one job, and the one
-- function that moves a job along the table.
pub mod Laws
mod Samples
use os_mini_project.Common.{
  ℕ, ◌+◌, Bool, true, false, ◌||◌, ◌&&◌, not, Option, none, some, List, [], ◌∷◌, ltb, ◌==◌,
  if◌then◌else◌, is_some, or_else, or_default, is_safe_integer, any, Result, ok, err,
}
use os_mini_project.Entities.{
  Uuid, JobStatus, PrintJob, Failure, invalid_job_transition, plain_error, same_job_status,
  is_terminal_status, is_blank, is_empty,
}

-- `transitions`
abbrev transitions : JobStatus → List JobStatus
transitions JobStatus.queued = JobStatus.ready ∷ JobStatus.cancelled ∷ []
transitions JobStatus.ready =
    JobStatus.printing ∷ JobStatus.blocked ∷ JobStatus.cancelled ∷ JobStatus.failed ∷ []
transitions JobStatus.printing =
    JobStatus.paused ∷ JobStatus.completed ∷ JobStatus.cancelled ∷ JobStatus.failed ∷ []
transitions JobStatus.paused =
    JobStatus.printing ∷ JobStatus.ready ∷ JobStatus.cancelled ∷ JobStatus.failed ∷ []
transitions JobStatus.blocked = JobStatus.ready ∷ JobStatus.cancelled ∷ []
transitions JobStatus.completed = []
transitions JobStatus.cancelled = []
transitions JobStatus.failed = []

-- `canTransition`
unfoldable pub can_transition : JobStatus → JobStatus → Bool
can_transition from to = any (same_job_status to) (transitions from)

-- `assignedPrinterId` of a patch: missing, null, or a printer.
pub data Assignment : Type 0 where
  keep_printer clear_printer : Assignment
  assign_printer : Uuid → Assignment

-- `TransitionPatch`: a missing property keeps the job's.
pub record TransitionPatch : Type 0 where
  pub pages_completed : Option ℕ
  pub started_at_ms : Option ℕ
  pub completed_at_ms : Option ℕ
  pub cancellation_requested_at_ms : Option ℕ
  pub last_progress_at_ms : Option ℕ
  pub retry_count : Option ℕ
  pub assigned_printer : Assignment

abbrev pub no_patch : TransitionPatch
no_patch = record {
  pages_completed = none;
  started_at_ms = none;
  completed_at_ms = none;
  cancellation_requested_at_ms = none;
  last_progress_at_ms = none;
  retry_count = none;
  assigned_printer = keep_printer;
}

-- `value !== undefined && (!Number.isSafeInteger(value) || value < 0)`, for one that may be missing.
abbrev unsafe_when_some : Option ℕ → Bool
unsafe_when_some none = false
unsafe_when_some (some n) = not (is_safe_integer n)

-- `integerFields.some(...)`
abbrev has_unsafe_field : PrintJob → Bool
has_unsafe_field job =
    not (is_safe_integer job.pages)
    || not (is_safe_integer job.pages_completed)
    || not (is_safe_integer job.submitted_at_ms)
    || not (is_safe_integer job.queued_at_ms)
    || not (is_safe_integer job.retry_count)
    || not (is_safe_integer job.sequence)
    || not (is_safe_integer job.version)
    || unsafe_when_some job.started_at_ms
    || unsafe_when_some job.completed_at_ms
    || unsafe_when_some job.cancellation_requested_at_ms
    || unsafe_when_some job.last_progress_at_ms

-- `job.startedAtMs !== undefined && job.startedAtMs < job.queuedAtMs`
abbrev starts_before : Option ℕ → ℕ → Bool
starts_before none queued = false
starts_before (some started) queued = ltb started queued

-- The completion test of `assertJobInvariants`.
abbrev completes_before : Option ℕ → Option ℕ → Bool
completes_before none started = false
completes_before (some completed) none = true
completes_before (some completed) (some started) = ltb completed started

-- `!job.assignedPrinterId`
abbrev pub lacks_id : Option Uuid → Bool
lacks_id none = true
lacks_id (some id) = is_empty id

-- The tests of `assertJobInvariants` in their order: true where it throws.
abbrev pub breaks_invariants : PrintJob → Bool
breaks_invariants job =
    has_unsafe_field job
    || ltb job.pages 1
    || ltb job.pages job.pages_completed
    || ltb 10_000 job.pages
    || ltb 100 job.base_priority
    || is_empty job.id
    || is_empty job.owner_id
    || is_blank job.document_name
    || ltb job.queued_at_ms job.submitted_at_ms
    || starts_before job.started_at_ms job.queued_at_ms
    || completes_before job.completed_at_ms job.started_at_ms
    || ((same_job_status job.status JobStatus.printing
          || same_job_status job.status JobStatus.paused)
        && lacks_id job.assigned_printer_id)
    || (is_terminal_status job.status && is_some job.assigned_printer_id)
    || (not (is_terminal_status job.status) && job.pages_completed == job.pages)
    || (same_job_status job.status JobStatus.completed
        && (not (job.pages_completed == job.pages) || not (is_some job.completed_at_ms)))

-- `assertJobInvariants`: every failed test throws a plain `Error`.
unfoldable pub assert_job_invariants : PrintJob → Result Failure (Unit {0})
assert_job_invariants job = if breaks_invariants job then err plain_error else ok tt

abbrev patched_printer : Assignment → Option Uuid → Option Uuid
patched_printer keep_printer old = old
patched_printer clear_printer old = none
patched_printer (assign_printer id) old = some id

-- The object `next` of `transitionJob`.
unfoldable pub patched : PrintJob → JobStatus → TransitionPatch → PrintJob
patched job status patch = record job {
  pages_completed = or_default patch.pages_completed job.pages_completed;
  started_at_ms = or_else patch.started_at_ms job.started_at_ms;
  completed_at_ms = or_else patch.completed_at_ms job.completed_at_ms;
  cancellation_requested_at_ms =
      or_else patch.cancellation_requested_at_ms job.cancellation_requested_at_ms;
  last_progress_at_ms = or_else patch.last_progress_at_ms job.last_progress_at_ms;
  retry_count = or_default patch.retry_count job.retry_count;
  assigned_printer_id = patched_printer patch.assigned_printer job.assigned_printer_id;
  status = status;
  version = job.version + 1;
}

-- `assertJobInvariants(job); return job;`
unfoldable pub checked : PrintJob → Result Failure PrintJob
checked job = elim (assert_job_invariants job) [ ok _ ↦ ok job | err e ↦ err e ]

-- `transitionJob`
unfoldable pub transition_job : PrintJob → JobStatus → TransitionPatch → Result Failure PrintJob
transition_job job status patch =
    if can_transition job.status status
    then checked (patched job status patch)
    else err invalid_job_transition
