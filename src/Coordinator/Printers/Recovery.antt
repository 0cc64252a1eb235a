-- ===== src/Coordinator/Printers/Recovery.antt =====
-- `recoverPrinter` and `recoverStalledJob`.
pub mod Laws
use os_mini_project.Common.{
  ℕ, ◌+◌, Bool, true, false, ◌||◌, ◌&&◌, not, Option, none, some, leb, if◌then◌else◌, or_default,
  Result, ok, err, ◌>>=◌, ◌>>◌, throw_if, pure, gets, lift, modify, or_throw,
}
use os_mini_project.Common.Dict.{get, delete}
use os_mini_project.Entities.{
  Uuid, JobStatus, PrinterStatus, PrintJob, PrinterState, Failure, domain, invariant_violation,
  invalid_transition, lock_not_owned, same_job_status, same_printer_status,
}
use os_mini_project.Lifecycle.{no_patch, clear_printer, TransitionPatch, transition_job, lacks_id}
use os_mini_project.Sync.Buffer
use os_mini_project.Sync.LeaseMutex.{inspect}
use os_mini_project.Sync.LeaseMutex
use os_mini_project.Coordinator.State.{
  QueueCoordinator, CommandMeta, CommandType, recover_printer as recover_printer_type,
  recover_stalled_job as recover_stalled_job_type, EventKind, printer_recovered,
  mutex_force_released, job_failed, job_recovered, ActiveWorker, Value, printer_value, job_value,
  Method, now_of, job_for, printer_for, mutex_for, event, bump_version, set_job, set_printer,
  on_mutex,
}
use os_mini_project.Coordinator.Execute.{execute}
use os_mini_project.Coordinator.Work.{release_permit, release_lease, released_event, idle_printer}
use os_mini_project.Coordinator.Printers.Permits.{return_permit, real_id, with_status}

-- The interrupted job goes on at this printer.
unfoldable pub resume_job : Uuid → PrintJob → ActiveWorker → Method (Unit {0})
resume_job printer_id job active c =
    (do
      printing ← lift (transition_job job JobStatus.printing no_patch)
      set_job printing
      on_mutex printer_id (LeaseMutex.renew (now_of c) active.lease c.worker_lease_ms))
      c

abbrev clearing : TransitionPatch
clearing = record no_patch { assigned_printer = clear_printer }

-- The interrupted job goes back to the queue.
unfoldable pub requeue_job : (ℕ → Uuid) → Uuid → PrintJob → ActiveWorker → Method (Unit {0})
requeue_job fresh printer_id job active = do
  ready ← lift (transition_job job JobStatus.ready clearing)
  set_job ready
  modify (λ c. record c { active_workers = delete printer_id c.active_workers })
  mutex ← mutex_for printer_id
  let inspection = inspect mutex
  release_lease printer_id active.lease (fresh 2)
  release_permit active.permit (fresh 2)
  released_event printer_id inspection

-- What becomes of the printer, by its active job: with one, it prints on or is ready; with none, its
-- permit goes back.
abbrev settle : (ℕ → Uuid) → PrinterState → Option Uuid → Bool → Method PrinterState
unfolding resume_job requeue_job return_permit
settle fresh printer none resume = do
  return_permit printer.id (fresh 2)
  pure (idle_printer printer PrinterStatus.ready)
settle fresh printer (some job_id) resume = do
  job ← job_for job_id
  found ← gets (λ c. get printer.id c.active_workers)
  active ← or_throw found (domain invariant_violation)
  if resume
      then (do
        resume_job printer.id job active
        pure (record (idle_printer printer PrinterStatus.printing) { active_job_id = some job_id }))
      else (do
        requeue_job fresh printer.id job active
        pure (idle_printer printer PrinterStatus.ready))

-- The action of `recoverPrinter`.
unfoldable pub recover_printer_action : (ℕ → Uuid) → Uuid → Bool → Method Value
unfolding resume_job requeue_job return_permit
recover_printer_action fresh printer_id resume_interrupted_job = do
  printer ← printer_for printer_id
  throw_if
      (not (same_printer_status printer.status PrinterStatus.jammed)
        && not (same_printer_status printer.status PrinterStatus.error))
      (domain invalid_transition)
  recovered ← settle fresh printer (real_id printer.active_job_id) resume_interrupted_job
  set_printer printer_id recovered
  bump_version
  event (printer_recovered printer_id recovered.active_job_id)
  pure (printer_value recovered)

-- `recoverPrinter`
unfoldable pub recover_printer : (ℕ → Uuid) → CommandMeta → Uuid → Bool → Method Value
unfolding execute recover_printer_action
recover_printer fresh meta printer_id resume_interrupted_job =
    execute fresh meta recover_printer_type
      (recover_printer_action fresh printer_id resume_interrupted_job)

abbrev counting : ℕ → TransitionPatch
counting retry_count = record no_patch { retry_count = some retry_count }

-- A printing job is paused first.
abbrev paused_with : PrintJob → ℕ → Result Failure PrintJob
paused_with job retry_count =
    if same_job_status job.status JobStatus.printing
    then transition_job job JobStatus.paused (counting retry_count)
    else ok (record job { retry_count = retry_count })

abbrev to_ready : Result Failure PrintJob → Result Failure PrintJob
to_ready (ok job) = transition_job job JobStatus.ready clearing
to_ready (err e) = err e

-- `next`: after the third stall the job has failed, before it is ready again.
unfoldable pub after_stall : PrintJob → Result Failure PrintJob
after_stall job =
    let retry_count = job.retry_count + 1 in
    if leb 3 retry_count
    then transition_job job JobStatus.failed
        (record (counting retry_count) { assigned_printer = clear_printer })
    else to_ready (paused_with job retry_count)

abbrev stall_event : PrintJob → Uuid → ℕ → EventKind
stall_event next id retry_count =
    if same_job_status next.status JobStatus.failed
    then job_failed id retry_count
    else job_recovered id retry_count

abbrev drop_failed : PrintJob → QueueCoordinator → QueueCoordinator
drop_failed next c =
    if same_job_status next.status JobStatus.failed
    then record c { buffer = (Buffer.remove next.id c.buffer).1 }
    else c

-- The action of `recoverStalledJob`.
unfoldable pub recover_stalled_job_action : (ℕ → Uuid) → Uuid → Method Value
unfolding after_stall
recover_stalled_job_action fresh printer_id c =
    (do
      printer ← printer_for printer_id
      throw_if (lacks_id printer.active_job_id) (domain invalid_transition)
      active ← or_throw (get printer_id c.active_workers) (domain lock_not_owned)
      fenced ← on_mutex printer_id (
          LeaseMutex.fence_expired (now_of c) active.lease.lease_id active.lease.fence_token
            (fresh 2))
      current ← job_for (or_default printer.active_job_id 0)
      next ← lift (after_stall current)
      set_job next
      modify (drop_failed next)
      modify (λ d. record d { active_workers = delete printer_id d.active_workers })
      release_permit active.permit (fresh 3)
      set_printer printer_id (idle_printer printer PrinterStatus.ready)
      bump_version
      event (mutex_force_released printer_id next.id active.lease.lease_id fenced.0)
      event (stall_event next next.id (current.retry_count + 1))
      pure (job_value next))
      c

-- `recoverStalledJob`
unfoldable pub recover_stalled_job : (ℕ → Uuid) → CommandMeta → Uuid → Method Value
unfolding execute recover_stalled_job_action
recover_stalled_job fresh meta printer_id =
    execute fresh meta recover_stalled_job_type (recover_stalled_job_action fresh printer_id)
