-- ===== src/Application/Service/Mutation.antt =====
-- `mutate`: the replay of a known request, the action on a fork of the coordinator, the commit of
-- what it leads to, and the record of what is refused.
pub mod Steps
pub mod Locked
pub mod Atomic
pub mod Consistency
pub mod Retry
use os_mini_project.Common.{
  ℕ, ◌+◌, ◌*◌, Bool, true, false, not, Option, none, some, List, [], ◌∷◌, ◌==◌, or_default, Result,
  ok, err, Action, modify, ◌>>=◌, ◌>>◌, pure, lift, if◌then◌else◌, throw,
}
use os_mini_project.Entities.{
  Uuid, domain, DomainErrorCode, idempotency_conflict, persistence_unavailable, Failure,
}
use os_mini_project.Sync.FairMutex.{OwnerId, named}
use os_mini_project.Coordinator.State.{QueueCoordinator, CommandMeta}
use os_mini_project.Coordinator.Create.{CoordinatorState, fork, export_state}
use os_mini_project.Application.Service.{
  ActorKind, user, Outcome, accepted, rejected, of_caller, actor, AuditRecord, IdempotencyRecord,
  PersistedIdempotencyResult, CommittedEvent, StateCommit, SimulationRepository, MutationContext,
  MutationResult, CommitNotice, Defaults, SimulationService, notify, commit, available,
  enrich_audit_events, drained,
}
use os_mini_project.Application.Service.Loading.{
  Call, run_exclusive, version_of, set_coordinator, load_coordinator,
}

-- The second argument of `mutate`'s action, and the action.
abbrev pub MutationAction : Type 0 → Type 0
MutationAction T = CommandMeta → Action QueueCoordinator Failure T

-- `audit`
abbrev pub audit :
    {Body : Type 0}
    → Uuid
    → MutationContext Body
    → ℕ
    → ℕ
    → Outcome
    → Option DomainErrorCode
    → AuditRecord
audit id context before after outcome reason_code = record {
  id = id;
  actor_kind = or_default context.actor_kind user;
  actor_id = actor context.actor_id;
  command_type = of_caller context.command_type;
  correlation_id = context.correlation_id;
  state_version_before = before;
  state_version_after = after;
  outcome = outcome;
  reason_code = reason_code;
}

-- `context.idempotencyKey`, where it is not empty.
abbrev pub key_of : {Body : Type 0} → MutationContext Body → Option (List ℕ)
key_of context = elim context.idempotency_key [
  | none ↦ none
  | some [] ↦ none
  | some (c ∷ cs) ↦ some (c ∷ cs)
]

abbrev is_unavailable : DomainErrorCode → Bool
is_unavailable persistence_unavailable = true
is_unavailable _ = false

abbrev pub idempotency_of :
    {Body T : Type 0}
    → MutationContext Body
    → ℕ
    → T
    → Option (List ℕ)
    → Option (IdempotencyRecord T)
idempotency_of context request_hash value none = none
idempotency_of context request_hash value (some key) = some (record {
  actor_id = context.actor_id;
  route_key = context.route_key;
  key = key;
  request_hash = request_hash;
  status_code = context.status_code;
  response = value;
})

-- `throw` after what may have thrown.
abbrev pub then_throw :
    {R A : Type 0}
    → Failure
    → Result Failure (Unit {0}) × SimulationService R
    → Result Failure A × SimulationService R
then_throw e (ok _, s) = (err e, s)
then_throw e (err f, s) = (err f, s)

module _ {R Body T : Type 0} (repo : SimulationRepository R T) (hash : Body → ℕ) where
  module _ (fresh : ℕ → Uuid) (simulation_id : Uuid) (context : MutationContext Body) where
    -- The commit of a `DomainError`: the state that was, and the events that the candidate holds.
    abbrev pub rejection : ℕ → QueueCoordinator → QueueCoordinator → DomainErrorCode → StateCommit T
    rejection before current candidate code =
        let entry = audit (fresh 4) context before before rejected (some code) in
        record {
          simulation_id = simulation_id;
          expected_state_version = some before;
          state = export_state current;
          events = if is_unavailable code then [] else enrich_audit_events candidate.events entry;
          audit = entry;
          idempotency = none;
        }

    -- The `catch`. What its own commit throws takes the place of the error.
    unfoldable pub refuse :
        ℕ → QueueCoordinator → QueueCoordinator → Failure → Call R (MutationResult T)
    unfolding commit
    refuse before current candidate (domain code) =
        λ s. then_throw (domain code) (commit repo (rejection before current candidate code) s)
    refuse before current candidate e = throw e

    -- The commit of an action that returned.
    abbrev pub acceptance : ℕ → QueueCoordinator → T → StateCommit T
    acceptance before candidate value =
        let state = export_state candidate in
        let entry = audit (fresh 3) context before state.state_version accepted none in
        record {
          simulation_id = simulation_id;
          expected_state_version = some before;
          state = state;
          events = enrich_audit_events candidate.events entry;
          audit = entry;
          idempotency = idempotency_of context (hash context.request_body) value (key_of context);
        }

    abbrev pub notice_of : StateCommit T → CommitNotice
    notice_of c = record { simulation_id = c.simulation_id; state = c.state; events = c.events }

    -- What follows the commit; the candidate has given its events away.
    abbrev pub after_commit :
        ℕ
        → QueueCoordinator
        → QueueCoordinator
        → T
        → Result Failure (Unit {0}) × SimulationService R
        → Result Failure (MutationResult T) × SimulationService R
    unfolding refuse notify
    after_commit before current candidate value (ok _, s) = (
      ok (record {
        value = value;
        state_version = (export_state candidate).state_version;
        status_code = context.status_code;
        replayed = false;
      }),
      notify (notice_of (acceptance before candidate value))
          (set_coordinator simulation_id (drained candidate) s),
    )
    after_commit before current candidate value (err e, s) =
        refuse before current (drained candidate) e s

    -- The end of the `try`, from what the action has led to.
    abbrev pub finish :
        ℕ → QueueCoordinator → Result Failure T × QueueCoordinator → Call R (MutationResult T)
    unfolding refuse notify commit
    finish before current (ok value, candidate) s =
        after_commit before current candidate value
          (commit repo (acceptance before candidate value) s)
    finish before current (err e, candidate) s = refuse before current candidate e s

    abbrev pub meta_of : CommandMeta
    meta_of = record {
      command_id = fresh 2;
      expected_state_version = context.expected_state_version;
    }

    module _ (defaults : Defaults) (action : MutationAction T) where
      abbrev pub load_current : Call R QueueCoordinator
      unfolding load_coordinator
      load_current = load_coordinator repo (λ n. fresh (5 + 2 * n)) defaults simulation_id

      abbrev pub perform_from :
          Result Failure ℕ
          → Result Failure QueueCoordinator
          → QueueCoordinator
          → Call R (MutationResult T)
      unfolding finish
      perform_from (err e) candidate current = throw e
      perform_from (ok before) (err e) current = throw e
      perform_from (ok before) (ok candidate) current =
          finish before current (action meta_of candidate)

      -- The part of `mutate` for a request that is not known, from the loaded coordinator on.
      unfoldable pub perform_on : QueueCoordinator → Call R (MutationResult T)
      unfolding perform_from
      perform_on current =
          perform_from (version_of current) (fork (λ n. fresh (6 + 2 * n)) current) current

      unfoldable pub perform : Call R (MutationResult T)
      unfolding perform_on load_coordinator
      perform = load_current >>= perform_on

      abbrev pub replay_from :
          PersistedIdempotencyResult T → Result Failure ℕ → Call R (MutationResult T)
      replay_from found (err e) = throw e
      replay_from found (ok version) = pure (record {
        value = found.response;
        state_version = version;
        status_code = found.status_code;
        replayed = true;
      })

      -- The part for a request whose key is known.
      unfoldable pub replay : PersistedIdempotencyResult T → Call R (MutationResult T)
      unfolding load_coordinator
      replay found =
          if found.request_hash == hash context.request_body
          then load_current >>= (λ current. replay_from found (version_of current))
          else throw (domain idempotency_conflict)

      -- `repository.findIdempotency`, in its `try`.
      abbrev pub look_up : List ℕ → Call R (Option (PersistedIdempotencyResult T))
      look_up key s =
          let (r, repository) =
            repo.find_idempotency context.actor_id context.route_key key s.repository in
          (available r, record s { repository = repository })

      abbrev pub known : Option (PersistedIdempotencyResult T) → Call R (MutationResult T)
      unfolding replay perform
      known none = perform
      known (some found) = replay found

      abbrev pub with_key : Option (List ℕ) → Call R (MutationResult T)
      unfolding replay perform
      with_key none = perform
      with_key (some key) = look_up key >>= known

      -- "mutation:" and the correlation's id, which is one entry.
      abbrev pub mutation_owner : OwnerId
      mutation_owner =
          named (109 ∷ 117 ∷ 116 ∷ 97 ∷ 116 ∷ 105 ∷ 111 ∷ 110 ∷ 58 ∷ context.correlation_id ∷ [])

      -- `mutate`
      unfoldable pub mutate : Call R (MutationResult T)
      unfolding run_exclusive with_key
      mutate = run_exclusive fresh simulation_id mutation_owner (with_key (key_of context))
