-- ===== src/Coordinator/Printers/Permits.antt =====
-- What the commands on printers share: jobs follow the printers that fit them
-- (`#reconcileCompatibility`), and permits follow the printers that are ready.
use os_mini_project.Common.{
  ◌+◌, ◌&&◌, not, Option, none, some, List, [], ◌∷◌, if◌then◌else◌, ok, ◌>>=◌, ◌>>◌, pure, gets,
  lift, modify, or_throw,
}
use os_mini_project.Common.Dict.{get, put, delete, values}
use os_mini_project.Entities.{
  Uuid, JobStatus, PrinterStatus, PrintJob, PrinterState, Failure, domain, invariant_violation,
  same_job_status,
}
use os_mini_project.Lifecycle.{no_patch, transition_job, lacks_id}
use os_mini_project.Sync.Semaphore.{SemaphorePermit}
use os_mini_project.Sync.Semaphore
use os_mini_project.Coordinator.State.{
  job_status_updated, Method, event, set_job, has_compatible_printer,
}
use os_mini_project.Coordinator.Work.{release_permit}

abbrev move_job : PrintJob → JobStatus → Method (Unit {0})
move_job job status = do
  moved ← lift (transition_job job status no_patch)
  set_job moved
  event (job_status_updated job.id status)

-- The body of the loop of `#reconcileCompatibility`.
unfoldable pub reconcile : PrintJob → Method (Unit {0})
reconcile job c =
    let compatible = has_compatible_printer job c in
    if same_job_status job.status JobStatus.ready && not compatible
    then move_job job JobStatus.blocked c
    else if same_job_status job.status JobStatus.blocked && compatible
    then move_job job JobStatus.ready c
    else (ok tt, c)

unfoldable pub reconcile_all : List PrintJob → Method (Unit {0})
unfolding reconcile
reconcile_all [] = pure tt
reconcile_all (job ∷ jobs) = do reconcile job; reconcile_all jobs

-- `#reconcileCompatibility`; the loop replaces values of known keys only, and each job once.
unfoldable pub reconcile_compatibility : Method (Unit {0})
unfolding reconcile_all
reconcile_compatibility c = reconcile_all (values c.jobs) c

-- The permit of a printer that becomes ready goes back.
unfoldable pub return_permit : Uuid → Uuid → Method (Unit {0})
return_permit printer_id uuid = do
  found ← gets (λ c. get printer_id c.unavailable_permits)
  permit ← or_throw found (domain invariant_violation)
  modify (λ c. record c { unavailable_permits = delete printer_id c.unavailable_permits })
  release_permit permit uuid

-- A permit is taken for a printer that is no longer ready; `e` is thrown if there is none.
unfoldable pub take_permit : Failure → Uuid → Uuid → Method (Unit {0})
take_permit e printer_id uuid = do
  found ← gets (λ c. (Semaphore.try_acquire uuid c.printer_permits).0)
  permit ← or_throw found e
  modify (λ c. record c {
    printer_permits = (Semaphore.try_acquire uuid c.printer_permits).1;
    unavailable_permits = put printer_id permit c.unavailable_permits;
  })

abbrev pub with_status : PrinterState → PrinterStatus → PrinterState
with_status printer status = record printer {
  profile = record (printer.profile) { status = status };
  version = printer.version + 1;
}

-- `printer.activeJobId`, where an empty id counts as none.
abbrev pub real_id : Option Uuid → Option Uuid
real_id none = none
real_id (some id) = if lacks_id (some id) then none else some id
