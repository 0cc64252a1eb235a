-- ===== src/Application/Service/Loading.antt =====
-- The locks of the service, and how a simulation's coordinator comes into the cache.
-- What runs under a lock runs from the moment that it holds it to the moment that it gives it back,
-- with nothing else of the same simulation between. A call that finds the lock taken waits; in the
-- model nobody gives it back meanwhile, so its timer runs out.
use os_mini_project.Common.{
  ℕ, ◌+◌, ◌*◌, Bool, true, false, not, Option, none, some, List, [], ◌∷◌, ◌==◌, map, or_default,
  Result, ok, err, Action, modify, ◌>>=◌, ◌>>◌, pure, lift, if◌then◌else◌,
}
use os_mini_project.Common.Dict.{get, put}
use os_mini_project.Entities.{
  Uuid, PrinterStatus, domain, resource_busy, Failure, one, PrinterState, rate_unit,
}
use os_mini_project.Clock
use os_mini_project.Sync.FairMutex.{
  FairMutex, MutexHandle, Acquired, granted, pending, OwnerId, named, unlocked,
}
use os_mini_project.Sync.FairMutex
use os_mini_project.Coordinator.State.{QueueCoordinator}
use os_mini_project.Coordinator.Checks.{snapshot}
use os_mini_project.Coordinator.Create.{CoordinatorState, create, restore, export_state}
use os_mini_project.Application.Service.{
  ActorKind, Outcome, AuditCommand, Actor, AuditRecord, SimulationRepository, Defaults,
  SimulationService, notify, commit, available, plain_event, drained,
}

abbrev pub Call : Type 0 → Type 0 → Type 0
Call R A = Action (SimulationService R) Failure A

module _ {R : Type 0} where
  -- The `finally` of `runExclusive`. The handle is the one that the mutex has just granted, and
  -- nothing under it touches the lock, so its release does not throw.
  abbrev pub unlock : Uuid → MutexHandle → Uuid → SimulationService R → SimulationService R
  unlock simulation_id handle uuid s = record s {
    locks =
        put simulation_id
          (FairMutex.release handle uuid (or_default (get simulation_id s.locks) unlocked)).1
          s.locks;
  }

  abbrev pub with_lock : Uuid → FairMutex → SimulationService R → SimulationService R
  with_lock simulation_id m s = record s { locks = put simulation_id m s.locks }

module _ {R A : Type 0} where
  abbrev unlocking :
      Uuid
      → MutexHandle
      → Uuid
      → Result Failure A × SimulationService R
      → Result Failure A × SimulationService R
  unlocking simulation_id handle uuid (r, s) = (r, unlock simulation_id handle uuid s)

  abbrev pub after_acquire : Result Failure Acquired × FairMutex → Uuid → Uuid → Call R A → Call R A
  after_acquire (err e, m) simulation_id uuid action s = (err e, with_lock simulation_id m s)
  after_acquire (ok (pending waiter), m) simulation_id uuid action s =
      (err (domain resource_busy), with_lock simulation_id (FairMutex.time_out waiter m) s)
  after_acquire (ok (granted handle), m) simulation_id uuid action s =
      unlocking simulation_id handle uuid (action (with_lock simulation_id m s))

  -- `this.#lockFor(simulationId).runExclusive`; a lock that is missing is made. `fresh` gives the
  -- handle's token, and one that only a waiter would get.
  unfoldable pub run_exclusive : (ℕ → Uuid) → Uuid → OwnerId → Call R A → Call R A
  run_exclusive fresh simulation_id owner_id action s =
      after_acquire
        (FairMutex.acquire owner_id (fresh 0) 0 1_000
          (or_default (get simulation_id s.locks) unlocked))
        simulation_id (fresh 1) action s

abbrev printer_of : Uuid → List ℕ → ℕ → Bool → PrinterState
printer_of id name pages_per_minute supports_color = record {
  profile = record {
    id = id;
    status = PrinterStatus.ready;
    pages_per_minute = pages_per_minute * rate_unit;
    supports_color = supports_color;
    supports_duplex = true;
  };
  name = name;
  active_job_id = none;
  version = 0;
}

-- "Mono Printer" and "Color Printer"
abbrev mono_name : List ℕ
mono_name = 77 ∷ 111 ∷ 110 ∷ 111 ∷ 32 ∷ 80 ∷ 114 ∷ 105 ∷ 110 ∷ 116 ∷ 101 ∷ 114 ∷ []

abbrev color_name : List ℕ
color_name = 67 ∷ 111 ∷ 108 ∷ 111 ∷ 114 ∷ 32 ∷ 80 ∷ 114 ∷ 105 ∷ 110 ∷ 116 ∷ 101 ∷ 114 ∷ []

-- `#newCoordinator`
unfoldable pub new_coordinator : (ℕ → Uuid) → Defaults → Result Failure QueueCoordinator
new_coordinator fresh d = elim (Clock.create 0 0 one false) [
  | err e ↦ err e
  | ok clock ↦
      create (λ n. fresh (4 + n)) clock
        (record {
          algorithm = d.algorithm;
          aging_interval_ms = d.aging_interval_ms;
          aging_factor = d.aging_factor;
          priority_cap = d.priority_cap;
        })
        (printer_of (fresh 2) mono_name 60 false ∷ printer_of (fresh 3) color_name 45 true ∷ [])
        d.queue_capacity d.worker_lease_ms
]

-- `snapshot().stateVersion`
abbrev pub version_of : QueueCoordinator → Result Failure ℕ
version_of c = elim (snapshot c) [ err e ↦ err e | ok s ↦ ok s.state_version ]

-- `systemAudit`
abbrev system_audit : Uuid → Uuid → AuditCommand → ℕ → ℕ → AuditRecord
system_audit id correlation_id command_type before after = record {
  id = id;
  actor_kind = ActorKind.system;
  actor_id = Actor.api;
  command_type = command_type;
  correlation_id = correlation_id;
  state_version_before = before;
  state_version_after = after;
  outcome = Outcome.accepted;
  reason_code = none;
}

abbrev pub persisted_version : Option CoordinatorState → Option ℕ
persisted_version none = none
persisted_version (some persisted) = some persisted.state_version

-- The condition of the first commit: nothing was saved, or restoring has made a new version.
abbrev pub is_new_version : Option CoordinatorState → ℕ → Bool
is_new_version none version = true
is_new_version (some persisted) version = not (version == persisted.state_version)

abbrev load_command : Option CoordinatorState → AuditCommand
load_command none = AuditCommand.create_simulation
load_command (some _) = AuditCommand.restore_simulation

abbrev pub set_coordinator :
    {R : Type 0} → Uuid → QueueCoordinator → SimulationService R → SimulationService R
set_coordinator simulation_id c s = record s { coordinators = put simulation_id c s.coordinators }

module _ {R T : Type 0} (repo : SimulationRepository R T) where
  -- The commit and the notice of a coordinator that was created or restored.
  unfoldable pub save_loaded :
      Uuid → Uuid → Option CoordinatorState → QueueCoordinator → Call R (Unit {0})
  unfolding commit notify
  save_loaded uuid simulation_id persisted c = do
    commit repo (record {
      simulation_id = simulation_id;
      expected_state_version = persisted_version persisted;
      state = export_state c;
      events = map plain_event c.events;
      audit =
          system_audit uuid simulation_id (load_command persisted)
            (or_default (persisted_version persisted) 0) (export_state c).state_version;
      idempotency = none;
    })
    modify (
        notify (record {
          simulation_id = simulation_id;
          state = export_state c;
          events = map plain_event c.events;
        }))

  abbrev restored :
      (ℕ → Uuid) → Defaults → Option CoordinatorState → Result Failure QueueCoordinator
  restored fresh defaults none = new_coordinator fresh defaults
  restored fresh defaults (some persisted) = restore fresh persisted

  -- A coordinator that is not cached: it is loaded, saved if it is new, and cached.
  pub keep_loaded :
      Uuid → Uuid → Option CoordinatorState → QueueCoordinator → Call R QueueCoordinator
  unfolding save_loaded
  keep_loaded uuid simulation_id persisted c = do
    version ← lift (version_of c)
    let is_new = is_new_version persisted version
    if is_new then save_loaded uuid simulation_id persisted c else pure tt
    let kept = if is_new then drained c else c
    modify (set_coordinator simulation_id kept)
    pure kept

  -- `repository.load`, in its `try`.
  pub fetch : Uuid → Call R (Option CoordinatorState)
  fetch simulation_id s =
      let (r, repository) = repo.load simulation_id s.repository in
      (available r, record s { repository = repository })

  pub load_missing : (ℕ → Uuid) → Defaults → Uuid → Call R QueueCoordinator
  unfolding fetch keep_loaded save_loaded
  load_missing fresh defaults simulation_id = do
    persisted ← fetch simulation_id
    c ← lift (restored (λ n. fresh (1 + n)) defaults persisted)
    keep_loaded (fresh 0) simulation_id persisted c

  -- `#loadCoordinator`
  unfoldable pub load_coordinator : (ℕ → Uuid) → Defaults → Uuid → Call R QueueCoordinator
  unfolding load_missing
  load_coordinator fresh defaults simulation_id s = elim (get simulation_id s.coordinators) [
    | some c ↦ (ok c, s)
    | none ↦ load_missing fresh defaults simulation_id s
  ]

  -- "load:" and the simulation's id, which is one entry.
  abbrev load_owner : Uuid → OwnerId
  load_owner simulation_id = named (108 ∷ 111 ∷ 97 ∷ 100 ∷ 58 ∷ simulation_id ∷ [])

  -- `getCoordinator`
  unfoldable pub get_coordinator : (ℕ → Uuid) → Defaults → Uuid → Call R QueueCoordinator
  unfolding run_exclusive load_coordinator
  get_coordinator fresh defaults simulation_id s = elim (get simulation_id s.coordinators) [
    | some c ↦ (ok c, s)
    | none ↦
        run_exclusive fresh simulation_id (load_owner simulation_id)
          (load_coordinator (λ n. fresh (2 + n)) defaults simulation_id) s
  ]
