-- ===== src/Coordinator/Work.antt =====
-- What `dispatch` and `advancePage` share with the commands on printers.
pub mod Dispatch
pub mod Pages
pub mod Choice
pub mod Laws
use os_mini_project.Common.{
  ℕ, suc, ◌+◌, ◌-◌, ◌*◌, max, compare, Ordering, Bool, true, false, ◌||◌, ◌&&◌, not, Option, none,
  some, List, [], ◌∷◌, ltb, ◌==◌, if◌then◌else◌, is_some, select, map, head?, or_default, Result,
  ok, err, ◌>>=◌, ◌>>◌, throw, throw_if, pure, gets, lift, modify, or_throw,
}
use os_mini_project.Common.Dict.{get, put, delete, values}
use os_mini_project.Common.Sort.{then_by, sort}
use os_mini_project.Entities.{
  Uuid, JobStatus, PrinterStatus, PrintJob, PrinterState, Failure, domain, range_error,
  invariant_violation, invalid_transition, lock_not_owned, resource_busy, same_job_status,
  same_printer_status, is_empty, rate_unit,
}
use os_mini_project.Lifecycle.{
  no_patch, clear_printer, assign_printer, checked, transition_job, TransitionPatch, lacks_id,
}
use os_mini_project.Scheduler.{SchedulerSelection, select_next_job, supports}
use os_mini_project.Sync.Buffer
use os_mini_project.Sync.Semaphore.{SemaphorePermit}
use os_mini_project.Sync.Semaphore
use os_mini_project.Sync.FairMutex.{OwnerId, coordinator, named, MutexOwner}
use os_mini_project.Sync.LeaseMutex.{LeaseHandle, LeaseInspection, inspect}
use os_mini_project.Sync.LeaseMutex
use os_mini_project.Common.Double.{ceil_quotient}
use os_mini_project.Coordinator.State.{
  QueueCoordinator, CommandMeta, CommandType, dispatch_next_job, advance_active_job, EventKind,
  job_dispatched, mutex_acquired, mutex_released, job_progress_updated, job_completed,
  job_cancelled_at_page, WorkerAssignment, ActiveWorker, Value, assigned, page, Method, now_of,
  job_for, printer_for, mutex_for, event, bump_version, set_job, set_printer, on_permits, on_mutex,
}
use os_mini_project.Coordinator.Execute.{execute}

-- `Math.ceil(60_000 / printer.pagesPerMinute)`
abbrev pub page_duration : PrinterState → ℕ
unfolding ceil_quotient
page_duration printer = ceil_quotient (60_000 * rate_unit) printer.pages_per_minute

-- `permit.release()` and `lease.release()`. Nobody waits for either, so no UUID is drawn.
abbrev pub release_permit : SemaphorePermit → Uuid → Method (Unit {0})
release_permit permit uuid = on_permits (Semaphore.release permit uuid) >> pure tt

abbrev pub release_lease : Uuid → LeaseHandle → Uuid → Method (Unit {0})
release_lease printer_id lease uuid c =
    (on_mutex printer_id (LeaseMutex.release (now_of c) lease uuid) >> pure tt) c

-- The printer with the fields that `advancePage`, `recoverPrinter`, `recoverStalledJob` and `reset`
-- write out: no active job.
abbrev pub idle_printer : PrinterState → PrinterStatus → PrinterState
idle_printer printer status = record printer {
  profile = record (printer.profile) { status = status };
  active_job_id = none;
  version = printer.version + 1;
}

-- `MUTEX_RELEASED`
abbrev pub released_event : Uuid → LeaseInspection → Method (Unit {0})
released_event printer_id i c =
    event
      (mutex_released printer_id (now_of c) (now_of c - or_default i.acquired_at_ms 0)
        i.fence_token)
      c
