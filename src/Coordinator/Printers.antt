-- ===== src/Coordinator/Printers.antt =====
-- The commands on printers: availability, faults and recovery, and the list of printers itself.
pub mod Permits
pub mod Recovery
pub mod Editing
use os_mini_project.Common.{
  ℕ, ◌+◌, Bool, true, false, ◌||◌, ◌&&◌, not, Option, none, some, List, [], ◌∷◌, ◌==◌,
  if◌then◌else◌, is_some, or_default, any, same_text, Result, ok, err, ◌>>=◌, ◌>>◌, throw, throw_if,
  pure, gets, lift, modify, or_throw,
}
use os_mini_project.Common.Dict.{get, has, put, delete, values}
use os_mini_project.Entities.{
  Uuid, JobStatus, PrinterStatus, PrintJob, PrinterState, Failure, domain, invariant_violation,
  invalid_transition, plain_error, lock_not_owned, same_job_status, same_printer_status,
}
use os_mini_project.Lifecycle.{no_patch, transition_job, lacks_id}
use os_mini_project.Sync.Semaphore.{SemaphorePermit}
use os_mini_project.Sync.Semaphore
use os_mini_project.Sync.LeaseMutex
use os_mini_project.Coordinator.State.{
  QueueCoordinator, CommandMeta, CommandType, set_printer_online as set_printer_online_type,
  inject_paper_jam, inject_worker_stall, recover_worker_stall, EventKind, job_status_updated,
  printer_status_updated, printer_jammed, worker_stall_injected, worker_stall_cleared, Value,
  printer_value, Method, now_of, job_for, printer_for, event, bump_version, set_job, set_printer,
  on_mutex, on_permits, has_compatible_printer,
}
use Permits.{return_permit, take_permit, reconcile_compatibility, with_status, real_id}
use os_mini_project.Coordinator.Execute.{execute}
use os_mini_project.Coordinator.Work.{release_permit}

abbrev online_status : Bool → PrinterStatus
online_status true = PrinterStatus.ready
online_status false = PrinterStatus.offline

-- What `setPrinterOnline` does to a printer that has another status than the target's.
unfoldable pub move_printer : (ℕ → Uuid) → PrinterState → Bool → Method Value
unfolding return_permit take_permit reconcile_compatibility
move_printer fresh printer online = do
  if online
      then return_permit printer.id (fresh 2)
      else take_permit (domain invariant_violation) printer.id (fresh 2)
  let updated = with_status printer (online_status online)
  set_printer printer.id updated
  bump_version
  reconcile_compatibility
  event (printer_status_updated printer.id (online_status online))
  pure (printer_value updated)

-- The action of `setPrinterOnline`.
unfoldable pub set_printer_online_action : (ℕ → Uuid) → Uuid → Bool → Method Value
unfolding move_printer
set_printer_online_action fresh printer_id online = do
  printer ← printer_for printer_id
  throw_if (same_printer_status printer.status PrinterStatus.printing) (domain invalid_transition)
  if same_printer_status printer.status (online_status online)
      then pure (printer_value printer)
      else move_printer fresh printer online

-- `setPrinterOnline`
unfoldable pub set_printer_online : (ℕ → Uuid) → CommandMeta → Uuid → Bool → Method Value
unfolding execute set_printer_online_action
set_printer_online fresh meta printer_id online =
    execute fresh meta set_printer_online_type (set_printer_online_action fresh printer_id online)

abbrev pause_active : Option Uuid → Method (Unit {0})
pause_active none = pure tt
pause_active (some id) = do
  job ← job_for id
  paused ← lift (transition_job job JobStatus.paused no_patch)
  set_job paused

-- The action of `jamPrinter` on a printer that is not jammed.
unfoldable pub jam : (ℕ → Uuid) → PrinterState → Method Value
unfolding take_permit
jam fresh printer = do
  throw_if
      (not (same_printer_status printer.status PrinterStatus.ready)
        && not (same_printer_status printer.status PrinterStatus.printing))
      (domain invalid_transition)
  if same_printer_status printer.status PrinterStatus.ready
      then take_permit (domain invariant_violation) printer.id (fresh 2)
      else pause_active (real_id printer.active_job_id)
  let jammed = with_status printer PrinterStatus.jammed
  set_printer printer.id jammed
  bump_version
  event (printer_jammed printer.id (real_id printer.active_job_id))
  pure (printer_value jammed)

-- The action of `jamPrinter`.
unfoldable pub jam_printer_action : (ℕ → Uuid) → Uuid → Method Value
unfolding jam
jam_printer_action fresh printer_id = do
  printer ← printer_for printer_id
  if same_printer_status printer.status PrinterStatus.jammed
      then pure (printer_value printer)
      else jam fresh printer

-- `jamPrinter`
unfoldable pub jam_printer : (ℕ → Uuid) → CommandMeta → Uuid → Method Value
unfolding execute jam_printer_action
jam_printer fresh meta printer_id =
    execute fresh meta inject_paper_jam (jam_printer_action fresh printer_id)

abbrev not_printing : PrinterState → Bool
not_printing printer =
    not (same_printer_status printer.status PrinterStatus.printing)
    || lacks_id printer.active_job_id

-- The action of `reportWorkerStall`.
unfoldable pub report_worker_stall_action : Uuid → Method Value
report_worker_stall_action printer_id = do
  printer ← printer_for printer_id
  throw_if (not_printing printer) (domain invalid_transition)
  bump_version
  event (worker_stall_injected printer_id (or_default printer.active_job_id 0))
  pure (printer_value printer)

-- `reportWorkerStall`
unfoldable pub report_worker_stall : (ℕ → Uuid) → CommandMeta → Uuid → Method Value
unfolding execute report_worker_stall_action
report_worker_stall fresh meta printer_id =
    execute fresh meta inject_worker_stall (report_worker_stall_action printer_id)

-- The action of `reportWorkerResponsive`.
unfoldable pub report_worker_responsive_action : Uuid → Method Value
report_worker_responsive_action printer_id c =
    (do
      printer ← printer_for printer_id
      throw_if (not_printing printer) (domain invalid_transition)
      active ← or_throw (get printer_id c.active_workers) (domain lock_not_owned)
      on_mutex printer_id (LeaseMutex.renew (now_of c) active.lease c.worker_lease_ms)
      bump_version
      event (worker_stall_cleared printer_id (or_default printer.active_job_id 0))
      pure (printer_value printer))
      c

-- `reportWorkerResponsive`
unfoldable pub report_worker_responsive : (ℕ → Uuid) → CommandMeta → Uuid → Method Value
unfolding execute report_worker_responsive_action
report_worker_responsive fresh meta printer_id =
    execute fresh meta recover_worker_stall (report_worker_responsive_action printer_id)
