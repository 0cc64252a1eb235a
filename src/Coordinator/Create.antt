-- ===== src/Coordinator/Create.antt =====
-- The constructor, and the way through a saved state: `exportState`, `restore`, `fromState`, `fork`.
use os_mini_project.Common.{
  ℕ, ◌+◌, ◌*◌, Bool, true, false, ◌||◌, ◌&&◌, not, Option, none, some, List, [], ◌∷◌, map,
  if◌then◌else◌, length, or_default, contains, Result, ok, err, ◌>>=◌, ◌>>◌, throw_if, pure, gets,
  lift, modify, or_throw,
}
use os_mini_project.Common.Dict.{Dict, get, put, values}
use os_mini_project.Entities.{
  Uuid, JobStatus, PrinterStatus, PrintJob, PrinterState, DomainSchedulerConfig,
  SimulationClockState, Failure, domain, invariant_violation, plain_error, same_printer_status,
  is_terminal_status,
}
use os_mini_project.Lifecycle.{lacks_id}
use os_mini_project.Clock.{SimulationClock, state}
use os_mini_project.Clock
use os_mini_project.Sync.Buffer.{BoundedBuffer, push}
use os_mini_project.Sync.Buffer
use os_mini_project.Sync.Semaphore.{CountingSemaphore}
use os_mini_project.Sync.Semaphore
use os_mini_project.Sync.FairMutex
use os_mini_project.Sync.LeaseMutex.{
  BinaryLeaseMutex, LeaseInspection, LeaseHandle, inspect, unlocked, restored_handle,
}
use os_mini_project.Sync.LeaseMutex
use os_mini_project.Coordinator.State.{QueueCoordinator, Method, set_printer, on_buffer}
use os_mini_project.Coordinator.Checks.{assert_printer, assert_invariants}
use os_mini_project.Coordinator.Jobs.{is_active}
use os_mini_project.Coordinator.Printers.Permits.{take_permit}

-- `CoordinatorState`; leases that are missing are an empty record.
pub record CoordinatorState : Type 0 where
  pub state_version : ℕ
  pub next_sequence : ℕ
  pub metrics_sequence_start : Option ℕ
  pub queue_capacity : ℕ
  pub worker_lease_ms : ℕ
  pub clock : SimulationClockState
  pub scheduler : DomainSchedulerConfig
  pub jobs : List PrintJob
  pub printers : List PrinterState
  pub printer_leases : Dict LeaseInspection

-- The loop of the constructor over the printers, with the ids seen so far; the n-th permit's token
-- is `fresh n`.
unfoldable pub add_printers : (ℕ → Uuid) → ℕ → List Uuid → List PrinterState → Method (Unit {0})
unfolding take_permit
add_printers fresh n ids [] = pure tt
add_printers fresh n ids (printer ∷ rest) = do
  lift (assert_printer printer)
  throw_if (contains printer.id ids) (domain invariant_violation)
  modify (λ c. record c {
    printers = put printer.id printer c.printers;
    printer_mutexes = put printer.id unlocked c.printer_mutexes;
  })
  if same_printer_status printer.status PrinterStatus.ready
      then pure tt
      else take_permit plain_error printer.id (fresh n)
  add_printers fresh (n + 1) (printer.id ∷ ids) rest

abbrev empty_coordinator :
    SimulationClock
    → DomainSchedulerConfig
    → BoundedBuffer Uuid
    → CountingSemaphore
    → ℕ
    → QueueCoordinator
empty_coordinator clock scheduler buffer permits worker_lease_ms = record {
  queue_mutex = FairMutex.unlocked;
  buffer = buffer;
  printer_permits = permits;
  printer_mutexes = [];
  unavailable_permits = [];
  active_workers = [];
  jobs = [];
  printers = [];
  command_results = [];
  events = [];
  scheduler = scheduler;
  state_version = 0;
  next_sequence = 1;
  metrics_sequence_start = 1;
  worker_lease_ms = worker_lease_ms;
  clock = clock;
}

abbrev outcome : Result Failure (Unit {0}) × QueueCoordinator → Result Failure QueueCoordinator
outcome (ok _, c) = ok c
outcome (err e, c) = err e

-- The constructor. Its buffer and its semaphore are made first.
unfoldable pub create :
    (ℕ → Uuid)
    → SimulationClock
    → DomainSchedulerConfig
    → List PrinterState
    → ℕ
    → ℕ
    → Result Failure QueueCoordinator
unfolding add_printers
create fresh clock scheduler printers queue_capacity worker_lease_ms =
    elim (Buffer.create queue_capacity) [
      | err e ↦ err e
      | ok buffer ↦ elim (Semaphore.create (length printers) (length printers)) [
        | err e ↦ err e
        | ok permits ↦ outcome (
            (add_printers fresh 0 [] printers >> assert_invariants)
              (empty_coordinator clock scheduler buffer permits worker_lease_ms))
      ]
    ]

-- A printer's status when it is put back, before its active job is.
abbrev hydrated_status : Bool → PrinterState → PrinterStatus
hydrated_status true printer =
    if same_printer_status printer.status PrinterStatus.offline
    then PrinterStatus.offline
    else PrinterStatus.ready
hydrated_status false printer =
    if not (lacks_id printer.active_job_id)
    then PrinterStatus.ready
    else if same_printer_status printer.status PrinterStatus.ready
    then PrinterStatus.ready
    else PrinterStatus.offline

abbrev hydrated : Bool → PrinterState → PrinterState
hydrated recover printer = record printer {
  profile = record (printer.profile) { status = hydrated_status recover printer };
  active_job_id = none;
  version =
      if recover && not (lacks_id printer.active_job_id)
      then printer.version + 1
      else printer.version;
}

-- The job that is put back; `withoutAssignment` drops its printer.
abbrev hydrated_job : Bool → PrintJob → PrintJob
hydrated_job recover job =
    if recover && is_active job.status
    then record job {
      status = JobStatus.ready;
      version = job.version + 1;
      assigned_printer_id = none;
    }
    else job

-- The loop over the saved jobs.
unfoldable pub add_jobs : Bool → List PrintJob → Method (Unit {0})
add_jobs recover [] = pure tt
add_jobs recover (persisted ∷ rest) = do
  let job = hydrated_job recover persisted
  modify (λ c. record c { jobs = put job.id job c.jobs })
  if is_terminal_status job.status then pure tt else on_buffer (push (λ id. id) job.id)
  add_jobs recover rest

-- `!inspection?.locked || !inspection.ownerWorkerId`
abbrev lacks_lease : Option LeaseInspection → Bool
lacks_lease none = true
lacks_lease (some i) = not i.locked || lacks_id i.owner_worker_id

-- An active printer gets its permit, its lease and its worker back.
abbrev restore_worker : Uuid → Uuid → LeaseInspection → Method (Unit {0})
restore_worker uuid printer_id inspection = do
  found ← gets (λ c. (Semaphore.try_acquire uuid c.printer_permits).0)
  permit ← or_throw found (domain invariant_violation)
  modify (λ c. record c {
    printer_permits = (Semaphore.try_acquire uuid c.printer_permits).1;
    printer_mutexes = put printer_id (LeaseMutex.restore inspection) c.printer_mutexes;
  })
  lease ← lift (restored_handle (LeaseMutex.restore inspection))
  modify (λ c. record c {
    active_workers =
        put printer_id
          (record {
            lease = lease;
            permit = permit;
            worker_id = or_default inspection.owner_worker_id 0;
          })
          c.active_workers;
  })

abbrev restore_found : Uuid → Uuid → Option LeaseInspection → Method (Unit {0})
restore_found uuid printer_id inspection = do
  throw_if (lacks_lease inspection) (domain invariant_violation)
  i ← or_throw inspection (domain invariant_violation)
  restore_worker uuid printer_id i

-- The loop over the saved printers, where active work goes on.
unfoldable pub restore_printers :
    (ℕ → Uuid) → ℕ → Dict LeaseInspection → List PrinterState → Method (Unit {0})
restore_printers fresh n leases [] = pure tt
restore_printers fresh n leases (printer ∷ rest) = do
  set_printer printer.id printer
  if lacks_id printer.active_job_id
      then pure tt
      else restore_found (fresh n) printer.id (get printer.id leases)
  restore_printers fresh (n + 1) leases rest

abbrev had_active_work : List PrintJob → Bool
had_active_work [] = false
had_active_work (job ∷ jobs) = is_active job.status || had_active_work jobs

-- What `#hydrate` does to the new coordinator.
unfoldable pub refill : (ℕ → Uuid) → CoordinatorState → Bool → Method (Unit {0})
unfolding add_jobs restore_printers
refill fresh s recover = do
  add_jobs recover s.jobs
  if recover then pure tt else restore_printers fresh 0 s.printer_leases s.printers
  modify (λ c. record c {
    next_sequence = s.next_sequence;
    metrics_sequence_start = or_default s.metrics_sequence_start 1;
    state_version =
        if recover && had_active_work s.jobs then s.state_version + 1 else s.state_version;
  })
  assert_invariants

-- `#hydrate`. The constructor draws `fresh (2 * n)`, and active printers draw `fresh (2 * n + 1)`.
unfoldable pub hydrate : (ℕ → Uuid) → CoordinatorState → Bool → Result Failure QueueCoordinator
unfolding create refill
hydrate fresh s recover =
    elim (Clock.create 0 s.clock.simulation_time_ms s.clock.speed_multiplier
      (recover || s.clock.paused)) [
        | err e ↦ err e
        | ok clock ↦
            elim (create (λ n. fresh (2 * n)) clock s.scheduler (map (hydrated recover) s.printers)
              s.queue_capacity s.worker_lease_ms) [
                | err e ↦ err e
                | ok c ↦ outcome (refill (λ n. fresh (2 * n + 1)) s recover c)
              ]
      ]

-- `restore`
unfoldable pub restore : (ℕ → Uuid) → CoordinatorState → Result Failure QueueCoordinator
unfolding hydrate
restore fresh s = hydrate fresh s true

-- `fromState`
unfoldable pub from_state : (ℕ → Uuid) → CoordinatorState → Result Failure QueueCoordinator
unfolding hydrate
from_state fresh s = hydrate fresh s false

unfoldable pub inspections : Dict BinaryLeaseMutex → Dict LeaseInspection
inspections [] = []
inspections ((id, m) ∷ rest) = (id, inspect m) ∷ inspections rest

-- `exportState`
unfoldable pub export_state : QueueCoordinator → CoordinatorState
unfolding inspections
export_state c = record {
  state_version = c.state_version;
  next_sequence = c.next_sequence;
  metrics_sequence_start = some c.metrics_sequence_start;
  queue_capacity = c.buffer.capacity;
  worker_lease_ms = c.worker_lease_ms;
  clock = state c.clock;
  scheduler = c.scheduler;
  jobs = values c.jobs;
  printers = values c.printers;
  printer_leases = inspections c.printer_mutexes;
}

-- `fork`
unfoldable pub fork : (ℕ → Uuid) → QueueCoordinator → Result Failure QueueCoordinator
unfolding from_state export_state
fork fresh c = from_state fresh (export_state c)
