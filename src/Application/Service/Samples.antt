-- ===== src/Application/Service/Samples.antt =====
-- Runs of the service on a repository in memory.
use os_mini_project.Common.{
  ℕ, ◌+◌, ◌≡◌, refl, sym, ap, Bool, true, false, ◌&&◌, Option, none, some, List, [], ◌∷◌, ◌==◌,
  if◌then◌else◌, Result, ok, err, same_text, arith, Bool-cases, inl, inr, ok-ne-err,
}
use os_mini_project.Common.Dict.{Dict, get, put, get-put}
use os_mini_project.Entities.{Uuid, Failure, domain, state_version_conflict, fcfs, one, is_blank}
use os_mini_project.Clock
use os_mini_project.Sync.Buffer
use os_mini_project.Sync.Semaphore
use os_mini_project.Sync.FairMutex
use os_mini_project.Coordinator.State.{QueueCoordinator}
use os_mini_project.Coordinator.Checks.{snapshot, snapshot_printers, assert_invariants}
use os_mini_project.Coordinator.Create.{CoordinatorState, fork, export_state}
use os_mini_project.Application.Service.{
  StateCommit, SimulationRepository, MutationContext, MutationResult, SimulationService,
  IdempotencyRecord, PersistedIdempotencyResult, Defaults,
}
use os_mini_project.Application.Service.Mutation.{MutationAction, mutate}
use os_mini_project.Application.Service.Mutation.Steps.{IsRepository}
use os_mini_project.Application.Service.Mutation.Retry.{IsRecorder, Answered, mutate_once}
use os_mini_project.Application.Service.Mutation.Atomic.{IsCached}
use os_mini_project.Application.Service.Mutation.Consistency.{Agrees, mutate-Agrees}

-- Saved states, and the requests that were performed, the last one first.
record Memory : Type 0 where
  states : Dict CoordinatorState
  commits : List (StateCommit ℕ)
  requests : List (IdempotencyRecord ℕ)

abbrev is_expected : Option ℕ → Option CoordinatorState → Bool
is_expected (some version) (some state) = version == state.state_version
is_expected _ _ = true

abbrev with_request :
    Option (IdempotencyRecord ℕ) → List (IdempotencyRecord ℕ) → List (IdempotencyRecord ℕ)
with_request none requests = requests
with_request (some i) requests = i ∷ requests

abbrev is_request : Uuid → List ℕ → List ℕ → IdempotencyRecord ℕ → Bool
is_request actor_id route_key key i =
    i.actor_id == actor_id && same_text i.route_key route_key && same_text i.key key

abbrev result_of : IdempotencyRecord ℕ → PersistedIdempotencyResult ℕ
result_of i = record {
  request_hash = i.request_hash;
  status_code = i.status_code;
  response = i.response;
}

abbrev find :
    Uuid → List ℕ → List ℕ → List (IdempotencyRecord ℕ) → Option (PersistedIdempotencyResult ℕ)
find actor_id route_key key [] = none
find actor_id route_key key (i ∷ requests) =
    let rest = find actor_id route_key key requests in
    if is_request actor_id route_key key i then some (result_of i) else rest

abbrev save : StateCommit ℕ → Memory → Result Failure (Unit {0}) × Memory
save c m =
    if is_expected c.expected_state_version (get c.simulation_id m.states)
    then (
      ok tt,
      record {
        states = put c.simulation_id c.state m.states;
        commits = c ∷ m.commits;
        requests = with_request c.idempotency m.requests;
      },
    )
    else (err (domain state_version_conflict), m)

abbrev memory : SimulationRepository Memory ℕ
memory = record {
  load = λ id m. (ok (get id m.states), m);
  find_idempotency = λ actor_id route_key key m. (ok (find actor_id route_key key m.requests), m);
  commit = save;
}

abbrev stored : Memory → Uuid → Option CoordinatorState
stored m id = get id m.states

abbrev recorded : Memory → Uuid → List ℕ → List ℕ → Option (PersistedIdempotencyResult ℕ)
recorded m actor_id route_key key = find actor_id route_key key m.requests

ok_of : {A : Type 0} (a b : A) → ◌≡◌ {A = Result Failure A} (ok a) (ok b) → b ≡ a
ok_of a b h = cc

failed :
    (c : StateCommit ℕ) (m : Memory) (e : Failure) (other : Uuid)
    → (save c m).0 ≡ err e
    → stored (save c m).1 other ≡ stored m other
failed c m e other h =
    elim (Bool-cases (is_expected c.expected_state_version (get c.simulation_id m.states))) [
      | inl expected ↦ absurd (ok-ne-err (rw expected at h))
      | inr conflict ↦ rw conflict refl
    ]

stores :
    (c : StateCommit ℕ) (m : Memory) (other : Uuid)
    → (save c m).0 ≡ ok tt
    → stored (save c m).1 other
      ≡ (if other == c.simulation_id then some c.state else stored m other)
stores c m other h =
    elim (Bool-cases (is_expected c.expected_state_version (get c.simulation_id m.states))) [
      | inl expected ↦ rw expected (get-put c.simulation_id other c.state m.states)
      | inr conflict ↦ absurd (ok-ne-err (sym (rw conflict at h)))
    ]

unlogged :
    (c : StateCommit ℕ) (m : Memory) (e : Failure)
    → (save c m).0 ≡ err e
    → (save c m).1.commits ≡ m.commits
unlogged c m e h =
    elim (Bool-cases (is_expected c.expected_state_version (get c.simulation_id m.states))) [
      | inl expected ↦ absurd (ok-ne-err (rw expected at h))
      | inr conflict ↦ rw conflict refl
    ]

logged :
    (c : StateCommit ℕ) (m : Memory) → (save c m).0 ≡ ok tt → (save c m).1.commits ≡ c ∷ m.commits
logged c m h =
    elim (Bool-cases (is_expected c.expected_state_version (get c.simulation_id m.states))) [
      | inl expected ↦ rw expected refl
      | inr conflict ↦ absurd (ok-ne-err (sym (rw conflict at h)))
    ]

memory-IsRepository : IsRepository memory stored
memory-IsRepository = record {
  log = λ m. m.commits;
  load_unlogged = λ id m. refl;
  find_unlogged = λ actor_id route_key key m. refl;
  failed_unlogged = unlogged;
  commit_logged = logged;
  load_keeps = λ id m other. refl;
  load_gives = λ id m o h. ok_of (get id m.states) o h;
  find_keeps = λ actor_id route_key key m other. refl;
  failed_keeps = failed;
  commit_stores = stores;
}

same_text_refl : (t : List ℕ) → same_text t t ≡ true
same_text_refl [] = refl
same_text_refl (c ∷ cs) = ground (arith, same_text_refl cs)

is_request_itself : (i : IdempotencyRecord ℕ) → is_request i.actor_id i.route_key i.key i ≡ true
is_request_itself i = ground (arith, same_text_refl i.route_key, same_text_refl i.key)

records :
    (c : StateCommit ℕ) (i : IdempotencyRecord ℕ) (m : Memory)
    → (save c m).0 ≡ ok tt
    → c.idempotency ≡ some i
    → recorded (save c m).1 i.actor_id i.route_key i.key ≡ some (result_of i)
records c i m h keyed =
    elim (Bool-cases (is_expected c.expected_state_version (get c.simulation_id m.states))) [
      | inl expected ↦ rw (expected, keyed, is_request_itself i) refl
      | inr conflict ↦ absurd (ok-ne-err (sym (rw conflict at h)))
    ]

memory-IsRecorder : IsRecorder memory recorded
memory-IsRecorder = record {
  find_gives = λ actor_id route_key key m o h. ok_of _ o h;
  commit_records = records;
}

-- A simulation without printers and jobs.
abbrev no_printers : QueueCoordinator
no_printers = record {
  queue_mutex = FairMutex.unlocked;
  buffer = record { capacity = 2; items = [] };
  printer_permits = record { permits = 0; maximum_permits = 0; active = []; waiters = [] };
  printer_mutexes = [];
  unavailable_permits = [];
  active_workers = [];
  jobs = [];
  printers = [];
  command_results = [];
  events = [];
  scheduler = record {
    algorithm = fcfs;
    aging_interval_ms = 5_000;
    aging_factor = 2;
    priority_cap = 100;
  };
  state_version = 3;
  next_sequence = 1;
  metrics_sequence_start = 1;
  worker_lease_ms = 1_000;
  clock = record {
    simulation_time_ms = 10;
    speed_multiplier = one;
    paused = false;
    last_real_time_ms = 0;
    fractional_quarters = 0;
  };
}

abbrev service : SimulationService Memory
service = record {
  repository = record { states = (5, export_state no_printers) ∷ []; commits = []; requests = [] };
  coordinators = (5, no_printers) ∷ [];
  locks = [];
  listeners = 8 ∷ [];
  delivered = [];
  stalled_printers = [];
}

abbrev context : MutationContext ℕ
context = record {
  actor_id = 70;
  actor_kind = none;
  correlation_id = 71;
  command_type = 80 ∷ [];
  route_key = 82 ∷ [];
  request_body = 12;
  expected_state_version = none;
  idempotency_key = some (75 ∷ []);
  status_code = 202;
}

abbrev defaults : Defaults
defaults = record {
  queue_capacity = 5;
  algorithm = fcfs;
  aging_interval_ms = 5_000;
  aging_factor = 2;
  priority_cap = 100;
  worker_lease_ms = 1_000;
}

-- An action that makes a new version.
abbrev next_version : MutationAction ℕ
next_version meta c = (ok 4, record c { state_version = c.state_version + 1 })

abbrev fresh : ℕ → Uuid
fresh n = 100 + n

abbrev itself : ℕ → ℕ
itself n = n

service-IsCached :
    IsCached memory stored memory-IsRepository itself fresh 5 context defaults next_version
      no_printers service
service-IsCached = record { cached = refl; saved = refl }

service-Agrees : Agrees stored service
service-Agrees id c h = ground (arith, h)

mutate-Agrees_example :
    Agrees stored (mutate memory itself fresh 5 context defaults next_version service).1
mutate-Agrees_example =
    mutate-Agrees memory stored memory-IsRepository itself fresh 5 context defaults next_version
      no_printers service refl service-Agrees

abbrev first_result : MutationResult ℕ
first_result = record { value = 4; state_version = 4; status_code = 202; replayed = false }

abbrev again : ℕ → Uuid
again n = 200 + n

performed_result :
    (mutate memory itself fresh 5 context defaults next_version service).0 ≡ ok first_result
unfolding mutate FairMutex.acquire is_blank snapshot snapshot_printers fork Clock.create Clock.state
    Buffer.create Semaphore.create assert_invariants
performed_result = refl

mutate_once_example :
    Answered memory stored memory-IsRepository recorded memory-IsRecorder itself 5 context defaults
      next_version
      (record { request_hash = 12; status_code = 202; response = 4 })
      (mutate memory itself fresh 5 context defaults next_version service).1
      (mutate memory itself again 5 context defaults next_version
        (mutate memory itself fresh 5 context defaults next_version service).1)
mutate_once_example =
    mutate_once memory stored memory-IsRepository recorded memory-IsRecorder itself 5 context
      defaults next_version fresh again no_printers (75 ∷ []) service
      (mutate memory itself fresh 5 context defaults next_version service).1 service-IsCached
      first_result
      (ap (λ o. (o, (mutate memory itself fresh 5 context defaults next_version service).1))
        performed_result)
      refl refl
