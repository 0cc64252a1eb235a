-- ===== src/Coordinator/Jobs.antt =====
-- The commands on jobs: submission, activation, cancellation, priority.
pub mod Laws
pub mod Submission
use os_mini_project.Common.{
  ℕ, suc, ◌+◌, Bool, true, false, ◌||◌, ◌&&◌, not, Option, none, some, List, [], ◌∷◌, ltb, ◌==◌,
  if◌then◌else◌, is_some, is_safe_integer, length, select, contains, map, drop, Result, ok, err,
  ◌>>=◌, ◌>>◌, throw, throw_if, pure, gets, lift, modify,
}
use os_mini_project.Common.Dict.{get, has, put, values}
use os_mini_project.Entities.{
  Uuid, JobStatus, PrintJob, Failure, domain, range_error, invariant_violation, invalid_transition,
  job_version_conflict, same_job_status, is_terminal_status,
}
use os_mini_project.Lifecycle.{
  no_patch, clear_printer, assert_job_invariants, checked, transition_job, TransitionPatch,
}
use os_mini_project.Sync.Buffer.{BurstMode, atomic, BurstPushResult, push_burst}
use os_mini_project.Sync.Buffer
use os_mini_project.Coordinator.State.{
  QueueCoordinator, CommandMeta, CommandType, submit_jobs,
  activate_arrivals as activate_arrivals_type, cancel_job as cancel_job_type, update_job,
  JobSubmission, EventKind, job_submitted, job_status_updated, job_priority_updated, job_cancelled,
  job_cancellation_requested, Value, submitted, activated, job_value, nothing, Method, now_of,
  job_for, event, bump_version, set_job, on_buffer, has_compatible_printer,
}
use os_mini_project.Coordinator.Execute.{execute}

-- The record that `#newJob` builds.
abbrev fresh_job : JobSubmission → ℕ → ℕ → PrintJob
fresh_job submission sequence now_ms = record {
  id = submission.id;
  owner_id = submission.owner_id;
  document_name = submission.input.document_name;
  pages = submission.input.pages;
  pages_completed = 0;
  base_priority = submission.input.base_priority;
  color_mode = submission.input.color_mode;
  duplex = submission.input.duplex;
  status =
      if ltb now_ms (now_ms + submission.input.arrival_delay_ms)
      then JobStatus.queued
      else JobStatus.ready;
  submitted_at_ms = now_ms;
  queued_at_ms = now_ms + submission.input.arrival_delay_ms;
  started_at_ms = none;
  completed_at_ms = none;
  assigned_printer_id = none;
  cancellation_requested_at_ms = none;
  last_progress_at_ms = none;
  retry_count = 0;
  sequence = sequence;
  version = 0;
}

-- `#newJob`
unfoldable pub new_job : JobSubmission → ℕ → ℕ → Method PrintJob
new_job submission sequence now_ms = do
  known ← gets (λ c. has submission.id c.jobs)
  throw_if known (domain invariant_violation)
  job ← lift (checked (fresh_job submission sequence now_ms))
  compatible ← gets (has_compatible_printer job)
  if same_job_status job.status JobStatus.ready && not compatible
      then lift (transition_job job JobStatus.blocked no_patch)
      else pure job

-- `submissions.map((submission, index) => this.#newJob(...))`
unfoldable pub new_jobs : List JobSubmission → ℕ → ℕ → Method (List PrintJob)
unfolding new_job
new_jobs [] sequence now_ms = pure []
new_jobs (s ∷ ss) sequence now_ms = do
  job ← new_job s sequence now_ms
  rest ← new_jobs ss (sequence + 1) now_ms
  pure (job ∷ rest)

unfoldable pub set_jobs : List PrintJob → Method (Unit {0})
set_jobs [] = pure tt
set_jobs (job ∷ jobs) = do set_job job; set_jobs jobs

unfoldable pub submitted_events : List PrintJob → Method (Unit {0})
submitted_events [] = pure tt
submitted_events (job ∷ jobs) = do event (job_submitted job.id job.status); submitted_events jobs

abbrev is_nonempty : List PrintJob → Bool
is_nonempty [] = false
is_nonempty (_ ∷ _) = true

-- The action of `submitBurst`.
unfoldable pub submit_burst_action : List JobSubmission → BurstMode → Method Value
unfolding new_jobs set_jobs submitted_events
submit_burst_action submissions mode = do
  now_ms ← gets now_of
  sequence ← gets (λ c. c.next_sequence)
  jobs ← new_jobs submissions sequence now_ms
  pushed ← on_buffer (push_burst (λ id. id) (map (λ job. job.id) jobs) mode)
  let accepted = select (λ (job : PrintJob). contains job.id pushed.accepted) jobs
  set_jobs accepted
  modify (λ c. record c { next_sequence = c.next_sequence + length accepted })
  if is_nonempty accepted then (do bump_version; submitted_events accepted) else pure tt
  pure (submitted accepted (drop (length accepted) submissions))

-- `submitBurst`
unfoldable pub submit_burst :
    (ℕ → Uuid) → CommandMeta → List JobSubmission → BurstMode → Method Value
unfolding execute submit_burst_action
submit_burst fresh meta submissions mode =
    execute fresh meta submit_jobs (submit_burst_action submissions mode)

-- `result.accepted[0]`
abbrev first_accepted : Value → Value
first_accepted (submitted (job ∷ _) _) = job_value job
first_accepted _ = nothing

-- `submitJob`
unfoldable pub submit_job : (ℕ → Uuid) → CommandMeta → JobSubmission → Method Value
unfolding submit_burst
submit_job fresh meta submission = do
  result ← submit_burst fresh meta (submission ∷ []) atomic
  pure (first_accepted result)

-- The body of the loop of `activateArrivals`.
unfoldable pub activate : PrintJob → Method PrintJob
activate job = do
  ready ← lift (transition_job job JobStatus.ready no_patch)
  compatible ← gets (has_compatible_printer ready)
  next ← if compatible then pure ready else lift (transition_job ready JobStatus.blocked no_patch)
  set_job next
  pure next

abbrev pub has_arrived : ℕ → PrintJob → Bool
has_arrived now_ms job =
    same_job_status job.status JobStatus.queued && not (ltb now_ms job.queued_at_ms)

-- The loop sees each job once: it only replaces the values of known keys.
unfoldable pub activate_all : ℕ → List PrintJob → Method (List PrintJob)
unfolding activate
activate_all now_ms [] = pure []
activate_all now_ms (job ∷ jobs) =
    let rest = activate_all now_ms jobs in
    if has_arrived now_ms job
    then (do next ← activate job; more ← rest; pure (next ∷ more))
    else rest

unfoldable pub status_events : List PrintJob → Method (Unit {0})
status_events [] = pure tt
status_events (job ∷ jobs) = do event (job_status_updated job.id job.status); status_events jobs

-- The action of `activateArrivals`.
unfoldable pub activate_arrivals_action : Method Value
unfolding activate_all status_events
activate_arrivals_action = do
  now_ms ← gets now_of
  jobs ← gets (λ c. values c.jobs)
  arrived ← activate_all now_ms jobs
  if is_nonempty arrived then (do bump_version; status_events arrived) else pure tt
  pure (activated arrived)

-- `activateArrivals`
unfoldable pub activate_arrivals : (ℕ → Uuid) → CommandMeta → Method Value
unfolding execute activate_arrivals_action
activate_arrivals fresh meta = execute fresh meta activate_arrivals_type activate_arrivals_action

abbrev clearing : TransitionPatch
clearing = record no_patch { assigned_printer = clear_printer }

abbrev pub is_active : JobStatus → Bool
is_active status =
    same_job_status status JobStatus.printing || same_job_status status JobStatus.paused

-- A job at a printer is only marked, and stopped at its next page; another is cancelled at once.
unfoldable pub cancelled_job : PrintJob → Method PrintJob
cancelled_job job =
    if is_active job.status
    then gets (λ c. record job {
      cancellation_requested_at_ms = some (now_of c);
      version = job.version + 1;
    })
    else (do
      cancelled ← lift (transition_job job JobStatus.cancelled clearing)
      modify (λ c. record c { buffer = (Buffer.remove job.id c.buffer).1 })
      pure cancelled)

abbrev pub cancel_event : Uuid → JobStatus → EventKind
cancel_event id status =
    if same_job_status status JobStatus.cancelled
    then job_cancelled id status
    else job_cancellation_requested id status

-- `cancelJob` on a job that is neither terminal nor already marked.
unfoldable pub cancel_marked : PrintJob → Method Value
unfolding cancelled_job
cancel_marked job = do
  cancelled ← cancelled_job job
  lift (assert_job_invariants cancelled)
  set_job cancelled
  bump_version
  event (cancel_event job.id cancelled.status)
  pure (job_value cancelled)

-- The action of `cancelJob`.
unfoldable pub cancel_job_action : Uuid → Method Value
unfolding cancel_marked
cancel_job_action job_id = do
  job ← job_for job_id
  throw_if (is_terminal_status job.status) (domain invalid_transition)
  if is_some job.cancellation_requested_at_ms then pure (job_value job) else cancel_marked job

-- `cancelJob`
unfoldable pub cancel_job : (ℕ → Uuid) → CommandMeta → Uuid → Method Value
unfolding execute cancel_job_action
cancel_job fresh meta job_id = execute fresh meta cancel_job_type (cancel_job_action job_id)

abbrev pub is_before_printing : JobStatus → Bool
is_before_printing status =
    same_job_status status JobStatus.queued
    || same_job_status status JobStatus.ready
    || same_job_status status JobStatus.blocked

-- The action of `updateJobPriority`.
unfoldable pub update_job_priority_action : Uuid → ℕ → ℕ → Method Value
update_job_priority_action job_id base_priority expected_job_version = do
  throw_if (ltb 100 base_priority) range_error
  job ← job_for job_id
  throw_if (not (job.version == expected_job_version)) (domain job_version_conflict)
  throw_if (not (is_before_printing job.status)) (domain invalid_transition)
  updated ← lift (checked (record job { base_priority = base_priority; version = job.version + 1 }))
  set_job updated
  bump_version
  event (job_priority_updated job_id base_priority)
  pure (job_value updated)

-- `updateJobPriority`
unfoldable pub update_job_priority : (ℕ → Uuid) → CommandMeta → Uuid → ℕ → ℕ → Method Value
unfolding execute update_job_priority_action
update_job_priority fresh meta job_id base_priority expected_job_version =
    execute fresh meta update_job
      (update_job_priority_action job_id base_priority expected_job_version)
