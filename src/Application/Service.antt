-- ===== src/Application/Service.antt =====
-- apps/api/src/application/simulation-service.ts, with the records and the interface of
-- persistence/simulation-repository.ts. The repository is an argument: its operations on a state of
-- its own. A route's response and a request's body are types of the caller's, and the body's hash is
-- an argument. Durations and redacted parameters are only stored, so they are left out.
pub mod Loading
pub mod Mutation
mod Samples
use os_mini_project.Common.{
  ℕ, Bool, true, false, Option, none, some, List, [], ◌∷◌, ◌++◌, map, if◌then◌else◌, or_default,
  contains, remove, any, ◌==◌, Result, ok, err, Action, modify, ◌>>=◌, ◌>>◌, pure,
}
use os_mini_project.Common.Dict.{Dict, get, put, delete, keys}
use os_mini_project.Entities.{
  Uuid, PrinterStatus, DomainErrorCode, persistence_unavailable, Failure, domain,
  SchedulingAlgorithm, PrinterState,
}
use os_mini_project.Coordinator.State.{
  QueueCoordinator, CommandMeta, DomainEvent, EventKind, audit_accepted, audit_rejected,
}
use os_mini_project.Coordinator.Create.{CoordinatorState}
use os_mini_project.Sync.FairMutex.{FairMutex}

pub data ActorKind : Type 0 where
  user agent system : ActorKind

-- `AuditRecord['outcome']`; the service writes no FAILED.
pub data Outcome : Type 0 where
  accepted rejected : Outcome

-- The commands that are named by a caller, and the two of the service.
pub data AuditCommand : Type 0 where
  of_caller : List ℕ → AuditCommand
  restore_simulation create_simulation : AuditCommand

-- `actorId`, where the service itself is called api.
pub data Actor : Type 0 where
  actor : Uuid → Actor
  api : Actor

pub record AuditRecord : Type 0 where
  pub id : Uuid
  pub actor_kind : ActorKind
  pub actor_id : Actor
  pub command_type : AuditCommand
  pub correlation_id : Uuid
  pub state_version_before : ℕ
  pub state_version_after : ℕ
  pub outcome : Outcome
  pub reason_code : Option DomainErrorCode

pub record IdempotencyRecord (T : Type 0) : Type 0 where
  pub actor_id : Uuid
  pub route_key : List ℕ
  pub key : List ℕ
  pub request_hash : ℕ
  pub status_code : ℕ
  pub response : T

pub record PersistedIdempotencyResult (T : Type 0) : Type 0 where
  pub request_hash : ℕ
  pub status_code : ℕ
  pub response : T

-- An event with what `enrichAuditEvents` writes into its data: the audit entry and the actor's kind.
pub record CommittedEvent : Type 0 where
  pub event : DomainEvent
  pub audit_entry : Option (Uuid × ActorKind)

pub record StateCommit (T : Type 0) : Type 0 where
  pub simulation_id : Uuid
  pub expected_state_version : Option ℕ
  pub state : CoordinatorState
  pub events : List CommittedEvent
  pub audit : AuditRecord
  pub idempotency : Option (IdempotencyRecord T)

-- The operations of `SimulationRepository` that the service calls; `R` is what it stores.
pub record SimulationRepository (R T : Type 0) : Type 0 where
  pub load : Uuid → Action R Failure (Option CoordinatorState)
  pub find_idempotency :
      Uuid → List ℕ → List ℕ → Action R Failure (Option (PersistedIdempotencyResult T))
  pub commit : StateCommit T → Action R Failure (Unit {0})

pub record MutationContext (Body : Type 0) : Type 0 where
  pub actor_id : Uuid
  pub actor_kind : Option ActorKind
  pub correlation_id : Uuid
  pub command_type : List ℕ
  pub route_key : List ℕ
  pub request_body : Body
  pub expected_state_version : Option ℕ
  pub idempotency_key : Option (List ℕ)
  pub status_code : ℕ

pub record MutationResult (T : Type 0) : Type 0 where
  pub value : T
  pub state_version : ℕ
  pub status_code : ℕ
  pub replayed : Bool

pub record CommitNotice : Type 0 where
  pub simulation_id : Uuid
  pub state : CoordinatorState
  pub events : List CommittedEvent

-- `defaults`
pub record Defaults : Type 0 where
  pub queue_capacity : ℕ
  pub algorithm : SchedulingAlgorithm
  pub aging_interval_ms : ℕ
  pub aging_factor : ℕ
  pub priority_cap : ℕ
  pub worker_lease_ms : ℕ

-- The fields of the service and the repository's state. `delivered` are the calls of listeners.
pub record SimulationService (R : Type 0) : Type 0 where
  pub repository : R
  pub coordinators : Dict QueueCoordinator
  pub locks : Dict FairMutex
  pub listeners : List Uuid
  pub delivered : List (Uuid × CommitNotice)
  pub stalled_printers : Dict (List Uuid)

-- `add` of a Set
abbrev insert_member : Uuid → List Uuid → List Uuid
insert_member id ids = if contains id ids then ids else ids ++ id ∷ []

module _ {R : Type 0} where
  -- `onCommit`
  abbrev pub on_commit : Uuid → SimulationService R → SimulationService R
  on_commit listener s = record s { listeners = insert_member listener s.listeners }

  -- The function that `onCommit` returns.
  abbrev pub off_commit : Uuid → SimulationService R → SimulationService R
  off_commit listener s = record s { listeners = remove listener s.listeners }

  -- `loadedSimulationIds`
  abbrev pub loaded_simulation_ids : SimulationService R → List Uuid
  loaded_simulation_ids s = keys s.coordinators

  abbrev with_stalled : Uuid → List Uuid → SimulationService R → SimulationService R
  with_stalled simulation_id [] s = record s {
    stalled_printers = delete simulation_id s.stalled_printers;
  }
  with_stalled simulation_id (id ∷ ids) s = record s {
    stalled_printers = put simulation_id (id ∷ ids) s.stalled_printers;
  }

  -- `setPrinterStalled`
  unfoldable pub set_printer_stalled :
      Uuid → Uuid → Bool → SimulationService R → SimulationService R
  set_printer_stalled simulation_id printer_id true s =
      with_stalled simulation_id
        (insert_member printer_id (or_default (get simulation_id s.stalled_printers) [])) s
  set_printer_stalled simulation_id printer_id false s =
      with_stalled simulation_id
        (remove printer_id (or_default (get simulation_id s.stalled_printers) [])) s

  -- `isPrinterStalled`
  unfoldable pub is_printer_stalled : Uuid → Uuid → SimulationService R → Bool
  is_printer_stalled simulation_id printer_id s =
      contains printer_id (or_default (get simulation_id s.stalled_printers) [])

  -- `clearStalledPrinters`
  unfoldable pub clear_stalled_printers : Uuid → SimulationService R → SimulationService R
  clear_stalled_printers simulation_id s = record s {
    stalled_printers = delete simulation_id s.stalled_printers;
  }

  -- `#notify`: what a listener throws is dropped.
  unfoldable pub notify : CommitNotice → SimulationService R → SimulationService R
  notify notice s = record s {
    delivered = s.delivered ++ map (λ listener. (listener, notice)) s.listeners;
  }

abbrev is_audit_entry : EventKind → Bool
is_audit_entry (audit_accepted _) = true
is_audit_entry (audit_rejected _ _) = true
is_audit_entry _ = false

abbrev pub plain_event : DomainEvent → CommittedEvent
plain_event e = record { event = e; audit_entry = none }

-- `enrichAuditEvents`
abbrev pub enrich_audit_events : List DomainEvent → AuditRecord → List CommittedEvent
enrich_audit_events events r =
    map
      (λ e.
        if is_audit_entry e.kind
        then record { event = e; audit_entry = some (r.id, r.actor_kind) }
        else plain_event e)
      events

-- `drainEvents` of the coordinator: what is left when its events are taken.
abbrev pub drained : QueueCoordinator → QueueCoordinator
drained c = record c { events = [] }

-- The `catch` of `#commit`.
abbrev pub commit_outcome : Result Failure (Unit {0}) → Result Failure (Unit {0})
commit_outcome (ok _) = ok tt
commit_outcome (err (domain c)) = err (domain c)
commit_outcome (err _) = err (domain persistence_unavailable)

-- `#commit`
unfoldable pub commit :
    {R T : Type 0}
    → SimulationRepository R T
    → StateCommit T
    → Action (SimulationService R) Failure (Unit {0})
commit repo c s =
    let (r, repository) = repo.commit c s.repository in
    (commit_outcome r, record s { repository = repository })

-- A `catch` that tells every failure as one of the persistence.
abbrev pub available : {A : Type 0} → Result Failure A → Result Failure A
available (ok a) = ok a
available (err _) = err (domain persistence_unavailable)
