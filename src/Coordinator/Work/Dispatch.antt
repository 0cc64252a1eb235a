-- ===== src/Coordinator/Work/Dispatch.antt =====
-- `dispatch`: the selected job is given to a printer.
use os_mini_project.Common.{
  ℕ, ◌+◌, ◌-◌, ◌*◌, max, compare, Ordering, Bool, false, not, Option, none, some, List, [], ◌∷◌,
  ◌==◌, if◌then◌else◌, is_some, select, map, head?, or_default, ok, err, ◌>>=◌, ◌>>◌, throw,
  throw_if, pure, gets, lift, modify, or_throw,
}
use os_mini_project.Common.Dict.{put, values}
use os_mini_project.Common.Sort.{then_by, sort}
use os_mini_project.Entities.{
  Uuid, JobStatus, PrinterStatus, PrintJob, PrinterState, domain, invariant_violation,
  resource_busy, same_printer_status, is_empty,
}
use os_mini_project.Lifecycle.{no_patch, assign_printer, transition_job, TransitionPatch}
use os_mini_project.Scheduler.{SchedulerSelection, select_next_job, supports}
use os_mini_project.Sync.Semaphore.{SemaphorePermit}
use os_mini_project.Sync.Semaphore
use os_mini_project.Sync.FairMutex.{coordinator, named, MutexOwner}
use os_mini_project.Sync.LeaseMutex.{LeaseHandle, LeaseInspection, inspect}
use os_mini_project.Sync.LeaseMutex
use os_mini_project.Coordinator.State.{
  QueueCoordinator, CommandMeta, dispatch_next_job, job_dispatched, mutex_acquired, Value, assigned,
  Method, now_of, job_for, printer_for, mutex_for, event, bump_version, set_job, set_printer,
  on_mutex,
}
use os_mini_project.Coordinator.Execute.{execute}
use os_mini_project.Coordinator.Work.{page_duration, release_permit, release_lease}

-- The comparator of `bestPrinterFor`: the sign of `pages / left - pages / right`, the numbers being
-- positive, and then the order of the ids.
abbrev pub faster : ℕ → PrinterState → PrinterState → Ordering
faster pages left right =
    then_by (compare (pages * right.pages_per_minute) (pages * left.pages_per_minute))
      (compare left.id right.id)

-- `bestPrinterFor`
unfoldable pub best_printer_for : PrintJob → List PrinterState → Option PrinterState
unfolding sort
best_printer_for job printers = head? (
    sort (faster (job.pages - job.pages_completed)) (select (λ p. supports p.profile job) printers))

abbrev pub ready_states : QueueCoordinator → List PrinterState
ready_states c = select (λ p. same_printer_status p.status PrinterStatus.ready) (values c.printers)

-- `requestedPrinterId ? this.#printerFor(requestedPrinterId) : undefined`
abbrev requested_printer : Option Uuid → Method (Option PrinterState)
requested_printer none = pure none
requested_printer (some id) =
    if is_empty id then pure none else (do printer ← printer_for id; pure (some printer))

abbrev is_unready : Option PrinterState → Bool
is_unready none = false
is_unready (some printer) = not (same_printer_status printer.status PrinterStatus.ready)

abbrev candidates_of : Option PrinterState → List PrinterState → List PrinterState
candidates_of none ready = ready
candidates_of (some printer) ready = printer ∷ []

-- `this.#queueMutex.inspect().ownerId === 'coordinator:' + meta.commandId`
abbrev is_own_command : Option MutexOwner → Uuid → Bool
is_own_command none id = false
is_own_command (some owner) id = elim owner.owner_id [
  | coordinator other ↦ other == id
  | named text ↦ false
]

-- A handler that cleans up and throws on.
abbrev on_throw : {A : Type 0} → Method A → Method (Unit {0}) → Method A
on_throw m clean c =
    let (r, c') = m c in elim r [ ok a ↦ (ok a, c') | err e ↦ (clean >> throw e) c' ]

abbrev granted_lease : LeaseMutex.Acquired → Method LeaseHandle
granted_lease (LeaseMutex.granted handle) = pure handle
granted_lease (LeaseMutex.pending waiter) = throw (domain resource_busy)

-- The lease of the printer, for a command that holds the queue mutex.
abbrev acquire_lease : Uuid → CommandMeta → PrinterState → Uuid → Method LeaseHandle
acquire_lease uuid meta printer worker_id c =
    (do
      throw_if (not (is_own_command c.queue_mutex.owner meta.command_id))
          (domain invariant_violation)
      acquired ← on_mutex printer.id (
          LeaseMutex.acquire (now_of c) uuid worker_id
            (max c.worker_lease_ms (page_duration printer + 1)) 0 0)
      granted_lease acquired)
      c

-- The patch of a job that begins to print.
abbrev starting : PrintJob → Uuid → ℕ → TransitionPatch
starting job printer_id now_ms = record no_patch {
  assigned_printer = assign_printer printer_id;
  started_at_ms = if is_some job.started_at_ms then none else some now_ms;
  last_progress_at_ms = some now_ms;
}

abbrev occupied : PrinterState → Uuid → PrinterState
occupied printer job_id = record printer {
  profile = record (printer.profile) { status = PrinterStatus.printing };
  active_job_id = some job_id;
  version = printer.version + 1;
}

-- The part of `dispatch` from the permit on. `fresh` gives the UUIDs that are drawn.
unfoldable pub assign : (ℕ → Uuid) → CommandMeta → PrintJob → PrinterState → Uuid → Method Value
assign fresh meta job printer worker_id = do
  permit? ← gets (λ c. (Semaphore.try_acquire (fresh 3) c.printer_permits).0)
  permit ← or_throw permit? (domain resource_busy)
  modify (λ c. record c { printer_permits = (Semaphore.try_acquire (fresh 3) c.printer_permits).1 })
  lease ←
      on_throw (acquire_lease (fresh 4) meta printer worker_id) (release_permit permit (fresh 5))
  now_ms ← gets now_of
  printing ←
      on_throw (lift (transition_job job JobStatus.printing (starting job printer.id now_ms)))
        (do release_lease printer.id lease (fresh 5); release_permit permit (fresh 6))
  set_job printing
  set_printer printer.id (occupied printer job.id)
  modify (λ c. record c {
    active_workers =
        put printer.id (record { lease = lease; permit = permit; worker_id = worker_id })
          c.active_workers;
  })
  bump_version
  event (job_dispatched job.id printer.id worker_id)
  mutex ← mutex_for printer.id
  event (mutex_acquired printer.id job.id worker_id (inspect mutex))
  pure (
      assigned (
        some (record {
          printer_id = printer.id;
          worker_id = worker_id;
          job = printing;
          lease = lease;
          page_duration_ms = page_duration printer;
        })))

abbrev assign_to : (ℕ → Uuid) → CommandMeta → PrintJob → Option PrinterState → Uuid → Method Value
unfolding assign
assign_to fresh meta job none worker_id = pure (assigned none)
assign_to fresh meta job (some printer) worker_id = assign fresh meta job printer worker_id

-- `requestedPrinter ?? bestPrinterFor(job, readyPrinters)`
abbrev printer_of : Option PrinterState → PrintJob → List PrinterState → Option PrinterState
unfolding best_printer_for
printer_of (some printer) job ready = some printer
printer_of none job ready = best_printer_for job ready

abbrev assign_selected :
    (ℕ → Uuid) → CommandMeta → SchedulerSelection → Option PrinterState → Uuid → Method Value
unfolding assign best_printer_for
assign_selected fresh meta selection requested worker_id = elim selection.selected [
  | none ↦ pure (assigned none)
  | some decision ↦ (do
    job ← job_for decision.job_id
    ready ← gets ready_states
    assign_to fresh meta job (printer_of requested job ready) worker_id)
]

-- The action of `dispatch`.
unfoldable pub dispatch_action : (ℕ → Uuid) → CommandMeta → Option Uuid → Uuid → Method Value
unfolding assign best_printer_for
dispatch_action fresh meta requested_id worker_id c =
    if c.clock.paused
    then (ok (assigned none), c)
    else (do
      requested ← requested_printer requested_id
      if is_unready requested then pure (assigned none) else (do
        selection ← lift (
            select_next_job (values c.jobs)
              (map (λ p. p.profile) (candidates_of requested (ready_states c))) c.scheduler
              (now_of c))
        assign_selected fresh meta selection requested worker_id))
        c

-- `dispatch`; a worker id that is left out is drawn.
unfoldable pub dispatch : (ℕ → Uuid) → CommandMeta → Option Uuid → Option Uuid → Method Value
unfolding execute dispatch_action
dispatch fresh meta requested_id worker_id =
    execute fresh meta dispatch_next_job
      (dispatch_action fresh meta requested_id (or_default worker_id (fresh 2)))
