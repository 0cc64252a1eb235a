-- ===== src/Coordinator/State.antt =====
-- The state of `QueueCoordinator`, what it is asked and answers, and its private helpers.
-- `meta.correlationId` is a text that is only passed on, so it is left out of the events.
use os_mini_project.Common.{
  ℕ, ◌+◌, Bool, ◌&&◌, Option, none, some, List, [], ◌∷◌, ◌++◌, any, Result, ok, err, Action, modify,
  or_throw,
}
use os_mini_project.Common.Dict.{Dict, get, put, values}
use os_mini_project.Entities.{
  Uuid, JobStatus, PrinterStatus, ColorMode, SpeedMultiplier, PrintJob, PrinterState,
  DomainSchedulerConfig, SchedulingAlgorithm, Failure, DomainErrorCode, range_error,
}
use os_mini_project.Clock.{SimulationClock}
use os_mini_project.Sync.Buffer.{BoundedBuffer}
use os_mini_project.Sync.Semaphore.{CountingSemaphore, SemaphorePermit}
use os_mini_project.Sync.FairMutex.{FairMutex}
use os_mini_project.Sync.LeaseMutex.{BinaryLeaseMutex, LeaseHandle, LeaseInspection}
use os_mini_project.Scheduler.{supports, is_online}

pub record CommandMeta : Type 0 where
  pub command_id : Uuid
  pub expected_state_version : Option ℕ

-- `SubmitJobInput` of packages/contracts/src/requests.ts
pub record SubmitJobInput : Type 0 where
  pub document_name : List ℕ
  pub pages : ℕ
  pub base_priority : ℕ
  pub color_mode : ColorMode
  pub duplex : Bool
  pub arrival_delay_ms : ℕ

pub record JobSubmission : Type 0 where
  pub id : Uuid
  pub owner_id : Uuid
  pub input : SubmitJobInput

pub data CommandType : Type 0 where
  submit_jobs activate_arrivals dispatch_next_job advance_active_job cancel_job : CommandType
  set_printer_online inject_paper_jam inject_worker_stall recover_worker_stall : CommandType
  recover_printer recover_stalled_job create_printer update_printer update_job : CommandType
  update_scheduler rebalance_queue pause_simulation update_simulation reset_simulation : CommandType
  resume_simulation : CommandType

-- The `reasonCode` of a rejected command: the code of a `DomainError`, or INTERNAL_ERROR.
pub data ReasonCode : Type 0 where
  code : DomainErrorCode → ReasonCode
  internal_error : ReasonCode

-- The event's `type`, with what its `data` holds.
pub data EventKind : Type 0 where
  job_submitted job_status_updated : Uuid → JobStatus → EventKind
  job_priority_updated : Uuid → ℕ → EventKind
  job_dispatched : Uuid → Uuid → Uuid → EventKind
  mutex_acquired : Uuid → Uuid → Uuid → LeaseInspection → EventKind
  mutex_released : Uuid → ℕ → ℕ → ℕ → EventKind
  job_progress_updated : Uuid → Uuid → ℕ → EventKind
  job_completed job_cancelled_at_page : Uuid → Uuid → ℕ → EventKind
  job_cancelled job_cancellation_requested : Uuid → JobStatus → EventKind
  printer_status_updated : Uuid → PrinterStatus → EventKind
  printer_jammed printer_recovered : Uuid → Option Uuid → EventKind
  worker_stall_injected worker_stall_cleared : Uuid → Uuid → EventKind
  mutex_force_released : Uuid → Uuid → Uuid → ℕ → EventKind
  job_failed job_recovered : Uuid → ℕ → EventKind
  printer_created : Uuid → EventKind
  scheduler_config_updated : SchedulingAlgorithm → EventKind
  queue_reordered : List Uuid → EventKind
  simulation_paused simulation_resumed : EventKind
  simulation_updated : Option SpeedMultiplier → Option ℕ → EventKind
  queue_capacity_updated : ℕ → ℕ → EventKind
  simulation_reset : Bool → EventKind
  audit_accepted : CommandType → EventKind
  audit_rejected : CommandType → ReasonCode → EventKind

pub record DomainEvent : Type 0 where
  pub kind : EventKind
  pub state_version : ℕ
  pub simulation_time_ms : ℕ

pub record PrinterSnapshot : Type 0 where
  pub state : PrinterState
  pub open state use *
  pub mutex : LeaseInspection

-- `queueMutex` is left out: nothing in the domain reads it.
pub record CoordinatorSnapshot : Type 0 where
  pub state_version : ℕ
  pub queue_capacity : ℕ
  pub active_buffer_job_ids : List Uuid
  pub available_printer_permits : ℕ
  pub jobs : List PrintJob
  pub printers : List PrinterSnapshot

pub record WorkerAssignment : Type 0 where
  pub printer_id : Uuid
  pub worker_id : Uuid
  pub job : PrintJob
  pub lease : LeaseHandle
  pub page_duration_ms : ℕ

pub record PageCommit : Type 0 where
  pub job : PrintJob
  pub terminal : Bool

pub record ActiveWorker : Type 0 where
  pub lease : LeaseHandle
  pub permit : SemaphorePermit
  pub worker_id : Uuid

-- What a command returns. `#commandResults` holds values of all the commands side by side.
pub data Value : Type 0 where
  submitted : List PrintJob → List JobSubmission → Value
  activated : List PrintJob → Value
  assigned : Option WorkerAssignment → Value
  page : PageCommit → Value
  job_value : PrintJob → Value
  printer_value : PrinterState → Value
  scheduler_value : DomainSchedulerConfig → Value
  ordered : List Uuid → Value
  nothing : Value

-- `CommandRecord`
abbrev pub CommandRecord : Type 0
CommandRecord = Result Failure Value

pub record QueueCoordinator : Type 0 where
  pub queue_mutex : FairMutex
  pub buffer : BoundedBuffer Uuid
  pub printer_permits : CountingSemaphore
  pub printer_mutexes : Dict BinaryLeaseMutex
  pub unavailable_permits : Dict SemaphorePermit
  pub active_workers : Dict ActiveWorker
  pub jobs : Dict PrintJob
  pub printers : Dict PrinterState
  pub command_results : Dict CommandRecord
  pub events : List DomainEvent
  pub scheduler : DomainSchedulerConfig
  pub state_version : ℕ
  pub next_sequence : ℕ
  pub metrics_sequence_start : ℕ
  pub worker_lease_ms : ℕ
  pub clock : SimulationClock

-- A method of the coordinator.
abbrev pub Method : Type 0 → Type 0
Method A = Action QueueCoordinator Failure A

-- `this.clock.state.simulationTimeMs`
abbrev pub now_of : QueueCoordinator → ℕ
now_of c = c.clock.simulation_time_ms

-- `#jobFor`
abbrev pub job_for : Uuid → Method PrintJob
job_for id c = or_throw (get id c.jobs) range_error c

-- `#printerFor`
abbrev pub printer_for : Uuid → Method PrinterState
printer_for id c = or_throw (get id c.printers) range_error c

-- `#mutexFor`
abbrev pub mutex_for : Uuid → Method BinaryLeaseMutex
mutex_for id c = or_throw (get id c.printer_mutexes) range_error c

-- `#event`
abbrev pub event : EventKind → Method (Unit {0})
event kind c = (
  ok tt,
  record c {
    events =
        c.events
        ++ record { kind = kind; state_version = c.state_version; simulation_time_ms = now_of c }
          ∷ [];
  },
)

-- `this.#stateVersion += 1`
abbrev pub bump_version : Method (Unit {0})
bump_version = modify (λ c. record c { state_version = c.state_version + 1 })

abbrev pub set_job : PrintJob → Method (Unit {0})
set_job job = modify (λ c. record c { jobs = put job.id job c.jobs })

abbrev pub set_printer : Uuid → PrinterState → Method (Unit {0})
set_printer id printer = modify (λ c. record c { printers = put id printer c.printers })

-- A call on one part of the state; what the part becomes is kept when the call throws too.
abbrev pub on_permits : {A : Type 0} → Action CountingSemaphore Failure A → Method A
on_permits f c = let (r, s) = f c.printer_permits in (r, record c { printer_permits = s })

abbrev pub on_buffer : {A : Type 0} → Action (BoundedBuffer Uuid) Failure A → Method A
on_buffer f c = let (r, b) = f c.buffer in (r, record c { buffer = b })

abbrev pub on_clock : {A : Type 0} → Action SimulationClock Failure A → Method A
on_clock f c = let (r, k) = f c.clock in (r, record c { clock = k })

abbrev on_found :
    {A : Type 0} → Option BinaryLeaseMutex → Uuid → Action BinaryLeaseMutex Failure A → Method A
on_found none id f c = (err range_error, c)
on_found (some m) id f c =
    let (r, m') = f m in (r, record c { printer_mutexes = put id m' c.printer_mutexes })

abbrev pub on_mutex : {A : Type 0} → Uuid → Action BinaryLeaseMutex Failure A → Method A
on_mutex id f c = on_found (get id c.printer_mutexes) id f c

-- `#hasCompatiblePrinter`
unfoldable pub has_compatible_printer : PrintJob → QueueCoordinator → Bool
has_compatible_printer job c =
    any (λ printer. is_online printer.profile && supports printer.profile job) (values c.printers)
