-- ===== src/Coordinator/Work/Pages.antt =====
-- `advancePage`: a job is printed page by page.
use os_mini_project.Common.{
  ℕ, ◌+◌, max, true, false, ◌||◌, not, Option, none, some, ◌==◌, if◌then◌else◌, is_some, or_default,
  Result, ◌>>=◌, ◌>>◌, throw_if, pure, lift, modify, or_throw,
}
use os_mini_project.Common.Dict.{get, delete}
use os_mini_project.Entities.{
  Uuid, JobStatus, PrinterStatus, PrintJob, PrinterState, Failure, domain, invariant_violation,
  invalid_transition, lock_not_owned, same_job_status, same_printer_status,
}
use os_mini_project.Lifecycle.{
  no_patch, clear_printer, checked, transition_job, TransitionPatch, lacks_id,
}
use os_mini_project.Sync.Buffer
use os_mini_project.Sync.LeaseMutex.{LeaseHandle, LeaseInspection, inspect}
use os_mini_project.Sync.LeaseMutex
use os_mini_project.Coordinator.State.{
  CommandMeta, advance_active_job, EventKind, job_progress_updated, job_completed,
  job_cancelled_at_page, ActiveWorker, Value, page, Method, now_of, job_for, printer_for, mutex_for,
  event, bump_version, set_job, set_printer, on_mutex,
}
use os_mini_project.Coordinator.Execute.{execute}
use os_mini_project.Coordinator.Work.{
  page_duration, release_permit, release_lease, idle_printer, released_event,
}

-- `progressed`
abbrev pub progressed : PrintJob → ℕ → PrintJob
progressed job now_ms = record job {
  pages_completed = job.pages_completed + 1;
  last_progress_at_ms = some now_ms;
  version = job.version + 1;
}

-- `terminalStatus`
abbrev pub end_of_page : PrintJob → Option JobStatus
end_of_page job =
    if is_some job.cancellation_requested_at_ms
    then some JobStatus.cancelled
    else if job.pages_completed + 1 == job.pages
    then some JobStatus.completed
    else none

abbrev ending : JobStatus → ℕ → TransitionPatch
ending status now_ms = record no_patch {
  assigned_printer = clear_printer;
  completed_at_ms = if same_job_status status JobStatus.completed then some now_ms else none;
}

-- `next` and its check. A transition is checked twice, to the same end.
abbrev pub job_after_page : PrintJob → ℕ → Option JobStatus → Result Failure PrintJob
job_after_page job now_ms none = checked (progressed job now_ms)
job_after_page job now_ms (some status) =
    transition_job (progressed job now_ms) status (ending status now_ms)

abbrev pub end_event : JobStatus → Uuid → Uuid → ℕ → EventKind
end_event status job_id printer_id pages =
    if same_job_status status JobStatus.completed
    then job_completed job_id printer_id pages
    else job_cancelled_at_page job_id printer_id pages

-- The end of `advancePage` after a page that ends the job.
unfoldable pub finish_job :
    Uuid → PrinterState → ActiveWorker → PrintJob → JobStatus → Uuid → Method Value
finish_job printer_id printer active next status uuid = do
  modify (λ c. record c { buffer = (Buffer.remove next.id c.buffer).1 })
  set_printer printer_id (idle_printer printer PrinterStatus.ready)
  modify (λ c. record c { active_workers = delete printer_id c.active_workers })
  mutex ← mutex_for printer_id
  let inspection = inspect mutex
  release_lease printer_id active.lease uuid
  release_permit active.permit uuid
  released_event printer_id inspection
  event (end_event status next.id printer_id next.pages_completed)
  pure (page (record { job = next; terminal = true }))

-- The end of `advancePage` after any other page.
unfoldable pub keep_printing : Uuid → PrinterState → ActiveWorker → PrintJob → Method Value
keep_printing printer_id printer active next c =
    (do
      on_mutex printer_id (
          LeaseMutex.renew (now_of c) active.lease
            (max c.worker_lease_ms (page_duration printer + 1)))
      pure (page (record { job = next; terminal = false })))
      c

abbrev after_page :
    Option JobStatus → Uuid → PrinterState → ActiveWorker → PrintJob → Uuid → Method Value
unfolding finish_job keep_printing
after_page none printer_id printer active next uuid = keep_printing printer_id printer active next
after_page (some status) printer_id printer active next uuid =
    finish_job printer_id printer active next status uuid

-- The action of `advancePage`.
unfoldable pub advance_page_action : (ℕ → Uuid) → Uuid → Uuid → ℕ → Method Value
unfolding finish_job keep_printing
advance_page_action fresh printer_id lease_id fence_token c =
    (do
      throw_if c.clock.paused (domain invalid_transition)
      active ← or_throw (get printer_id c.active_workers) (domain lock_not_owned)
      throw_if (not (active.lease.lease_id == lease_id)) (domain lock_not_owned)
      mutex ← mutex_for printer_id
      lift (LeaseMutex.assert_owned (now_of c) lease_id fence_token mutex)
      printer ← printer_for printer_id
      throw_if
          (not (same_printer_status printer.status PrinterStatus.printing)
            || lacks_id printer.active_job_id)
          (domain invariant_violation)
      current ← job_for (or_default printer.active_job_id 0)
      next ← lift (job_after_page current (now_of c) (end_of_page current))
      set_job next
      bump_version
      event (job_progress_updated next.id printer_id (current.pages_completed + 1))
      after_page (end_of_page current) printer_id printer active next (fresh 2))
      c

-- `advancePage`
unfoldable pub advance_page : (ℕ → Uuid) → CommandMeta → Uuid → Uuid → ℕ → Method Value
unfolding execute advance_page_action
advance_page fresh meta printer_id lease_id fence_token =
    execute fresh meta advance_active_job
      (advance_page_action fresh printer_id lease_id fence_token)
