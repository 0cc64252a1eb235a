-- ===== src/Application/Service/Mutation/Steps.antt =====
-- What `mutate` promises to whoever reads what is saved: a request that is performed leaves the
-- state that its action leads to, and any other leaves what there was.
use os_mini_project.Common.{
  ℕ, ◌+◌, ◌*◌, ◌≡◌, refl, sym, ap, ◌∷◌, ok-ne-err, ◌∙◌, false, Option, some, ◌==◌, if◌then◌else◌,
  inl, inr, ◌⊎◌, List, Result, ok, err, Result-cases, arith, Bool-cases,
}
use os_mini_project.Common.Dict.{put}
use os_mini_project.Entities.{
  Uuid, Failure, DomainErrorCode, domain, invalid_job_transition, range_error, type_error,
  plain_error,
}
use os_mini_project.Coordinator.State.{QueueCoordinator}
use os_mini_project.Coordinator.Create.{CoordinatorState, fork, export_state}
use os_mini_project.Application.Service.{
  StateCommit, SimulationRepository, MutationContext, MutationResult, SimulationService, commit,
  commit_outcome, drained,
}
use os_mini_project.Application.Service.Mutation.{
  MutationAction, then_throw, refuse, rejection, acceptance, meta_of,
}

-- What the service relies on: `stored` is what is saved of a simulation, and `log` has the commits that
-- went through, with their audit records and events, the last one first. Reading does not change
-- either, a commit that fails has no effect, and one that succeeds saves the state and is logged.
pub record IsRepository {R T : Type 0} (repo : SimulationRepository R T)
    (stored : R → Uuid → Option CoordinatorState) : Type 0 where
  pub log : R → List (StateCommit T)
  pub load_unlogged : (id : Uuid) (r : R) → log (repo.load id r).1 ≡ log r
  pub find_unlogged :
      (actor_id : Uuid) (route_key key : List ℕ) (r : R)
      → log (repo.find_idempotency actor_id route_key key r).1 ≡ log r
  pub failed_unlogged :
      (c : StateCommit T) (r : R) (e : Failure)
      → (repo.commit c r).0 ≡ err e
      → log (repo.commit c r).1 ≡ log r
  pub commit_logged :
      (c : StateCommit T) (r : R)
      → (repo.commit c r).0 ≡ ok tt
      → log (repo.commit c r).1 ≡ c ∷ log r
  pub load_keeps :
      (id : Uuid) (r : R) (other : Uuid) → stored (repo.load id r).1 other ≡ stored r other
  pub load_gives :
      (id : Uuid) (r : R) (o : Option CoordinatorState)
      → (repo.load id r).0 ≡ ok o
      → o ≡ stored r id
  pub find_keeps :
      (actor_id : Uuid) (route_key key : List ℕ) (r : R) (other : Uuid)
      → stored (repo.find_idempotency actor_id route_key key r).1 other ≡ stored r other
  pub failed_keeps :
      (c : StateCommit T) (r : R) (e : Failure) (other : Uuid)
      → (repo.commit c r).0 ≡ err e
      → stored (repo.commit c r).1 other ≡ stored r other
  pub commit_stores :
      (c : StateCommit T) (r : R) (other : Uuid)
      → (repo.commit c r).0 ≡ ok tt
      → stored (repo.commit c r).1 other
        ≡ (if other == c.simulation_id then some c.state else stored r other)

commit_outcome_err : (f : Failure) → (e : Failure) × (commit_outcome (err f) ≡ err e)
commit_outcome_err (domain code) = (_, refl)
commit_outcome_err invalid_job_transition = (_, refl)
commit_outcome_err range_error = (_, refl)
commit_outcome_err type_error = (_, refl)
commit_outcome_err plain_error = (_, refl)

module _ {R : Type 0} (stored : R → Uuid → Option CoordinatorState) where
  -- Nothing is saved, cached or told.
  pub record Same (s t : SimulationService R) : Type 0 where
    pub cached : t.coordinators ≡ s.coordinators
    pub told : t.delivered ≡ s.delivered
    pub saved : (id : Uuid) → stored t.repository id ≡ stored s.repository id

  -- The state of one simulation is saved, and nothing cached or told.
  pub record Saved (simulation_id : Uuid) (state : CoordinatorState) (s t : SimulationService R)
      : Type 0 where
    pub cached : t.coordinators ≡ s.coordinators
    pub told : t.delivered ≡ s.delivered
    pub saved :
        (id : Uuid)
        → stored t.repository id
          ≡ (if id == simulation_id then some state else stored s.repository id)

  pub unchanged : (s : SimulationService R) → Same s s
  unchanged s = record { cached = refl; told = refl; saved = λ id. refl }

  pub Same-trans : (s t u : SimulationService R) → Same s t → Same t u → Same s u
  Same-trans s t u h k = record {
    cached = k.cached ∙ h.cached;
    told = k.told ∙ h.told;
    saved = λ id. k.saved id ∙ h.saved id;
  }

  -- What was saved is saved again.
  pub Saved-Same :
      (simulation_id : Uuid) (state : CoordinatorState) (s t : SimulationService R)
      → stored s.repository simulation_id ≡ some state
      → Saved simulation_id state s t
      → Same s t
  Saved-Same simulation_id state s t there h = record {
    cached = h.cached;
    told = h.told;
    saved = λ id. elim (Bool-cases (id == simulation_id)) [
      | inl this ↦
          let same : id ≡ simulation_id = ground arith in h.saved id ∙ rw (this, same, there) refl
      | inr other ↦ h.saved id ∙ rw other refl
    ];
  }

  pub then_throw-Same :
      {A : Type 0} (e : Failure) (s : SimulationService R)
      (p : Result Failure (Unit {0}) × SimulationService R)
      → Same s p.1
      → ((f : Failure) × ((then_throw {A = A} e p).0 ≡ err f)) × Same s (then_throw {A = A} e p).1
  then_throw-Same e s (ok _, t) h = ((e, refl), h)
  then_throw-Same e s (err f, t) h = ((f, refl), h)

module _ {R T : Type 0} (repo : SimulationRepository R T)
    (stored : R → Uuid → Option CoordinatorState) where
  module _ (law : IsRepository repo stored) where
    pub commit_cases :
        (c : StateCommit T) (s : SimulationService R)
        → (((commit repo c s).0 ≡ ok tt)
            × ((repo.commit c s.repository).0 ≡ ok tt)
            × Saved stored c.simulation_id c.state s (commit repo c s).1)
          ⊎ ((e : Failure) × ((commit repo c s).0 ≡ err e) × Same stored s (commit repo c s).1)
    unfolding commit
    commit_cases c s = elim (Result-cases (repo.commit c s.repository).0) [
      | inl (_, e) ↦ inl (
        rw e refl,
        e,
        record { cached = refl; told = refl; saved = λ id. law.commit_stores c s.repository id e },
      )
      | inr (f, e) ↦
          let (g, same) = commit_outcome_err f in
          inr (
            g,
            rw e same,
            record {
              cached = refl;
              told = refl;
              saved = λ id. law.failed_keeps c s.repository f id e;
            },
          )
    ]

    -- Nothing is saved, cached, told or logged.
    pub record Quiet (s t : SimulationService R) : Type 0 where
      pub same : Same stored s t
      pub unlogged : law.log t.repository ≡ law.log s.repository

    pub quiet : (s : SimulationService R) → Quiet s s
    quiet s = record { same = unchanged stored s; unlogged = refl }

    pub commit_log :
        (c : StateCommit T) (s : SimulationService R)
        → let (r, t) = commit repo c s in
          (r ≡ ok tt → law.log t.repository ≡ c ∷ law.log s.repository)
          × ((e : Failure) → r ≡ err e → law.log t.repository ≡ law.log s.repository)
    unfolding commit
    commit_log c s = elim (Result-cases (repo.commit c s.repository).0) [
      | inl (_, e) ↦
          (λ h. law.commit_logged c s.repository e, λ f h. absurd (ok-ne-err (rw e at h)))
      | inr (f, e) ↦
          let (g, same) = commit_outcome_err f in
          (
            λ h. absurd (ok-ne-err (sym (sym same ∙ rw e at h))),
            λ k h. law.failed_unlogged c s.repository f e,
          )
    ]

    commit-Same :
        (c : StateCommit T) (s : SimulationService R)
        → stored s.repository c.simulation_id ≡ some c.state
        → Same stored s (commit repo c s).1
    commit-Same c s there = elim (commit_cases c s) [
      | inl (_, _, h) ↦ Saved-Same stored c.simulation_id c.state s _ there h
      | inr (_, _, h) ↦ h
    ]

    module _ {Body : Type 0} (hash : Body → ℕ) (fresh : ℕ → Uuid) (simulation_id : Uuid)
        (context : MutationContext Body) where
      -- A refusal leaves what was saved.
      pub refuse-Same :
          (before : ℕ) (current candidate : QueueCoordinator) (e : Failure)
          (s : SimulationService R)
          → stored s.repository simulation_id ≡ some (export_state current)
          → let (r, t) =
              refuse repo hash fresh simulation_id context before current candidate e s in
            ((f : Failure) × (r ≡ err f)) × Same stored s t
      unfolding refuse
      refuse-Same before current candidate (domain code) s there =
          then_throw-Same stored (domain code) s _ (
            commit-Same
              (rejection repo hash fresh simulation_id context before current candidate code) s
              there)
      refuse-Same before current candidate invalid_job_transition s there =
          ((_, refl), unchanged stored s)
      refuse-Same before current candidate range_error s there = ((_, refl), unchanged stored s)
      refuse-Same before current candidate type_error s there = ((_, refl), unchanged stored s)
      refuse-Same before current candidate plain_error s there = ((_, refl), unchanged stored s)

      -- A refusal: the state, the cache and the listeners have what they had, and nothing is logged, or
      -- the rejection is: its audit record, and the events that the candidate holds.
      pub record Refusal (before : ℕ) (current candidate : QueueCoordinator)
          (s t : SimulationService R) (r : Result Failure (MutationResult T)) : Type 0 where
        pub failure : Failure
        pub answer : r ≡ err failure
        pub kept : Same stored s t
        pub logs :
            (law.log t.repository ≡ law.log s.repository)
            ⊎ ((code : DomainErrorCode) × (law.log t.repository
                  ≡ rejection repo hash fresh simulation_id context before current candidate code
                    ∷ law.log s.repository))

      then_throw-log :
          (A : Type 0) (e : Failure) (p : Result Failure (Unit {0}) × SimulationService R)
          → (then_throw {A = A} e p).1.repository ≡ p.1.repository
      then_throw-log A e (ok _, t) = refl
      then_throw-log A e (err f, t) = refl

      pub refuse-Refusal :
          (before : ℕ) (current candidate : QueueCoordinator) (e : Failure)
          (s : SimulationService R)
          → stored s.repository simulation_id ≡ some (export_state current)
          → let (r, t) =
              refuse repo hash fresh simulation_id context before current candidate e s in
            Refusal before current candidate s t r
      unfolding refuse
      refuse-Refusal before current candidate (domain code) s there =
          let c = rejection repo hash fresh simulation_id context before current candidate code in
          let ((f, e), same) = refuse-Same before current candidate (domain code) s there in
          let (logged, unlogged) = commit_log c s in
          let after = then_throw-log (MutationResult T) (domain code) (commit repo c s) in
          record {
            failure = f;
            answer = e;
            kept = same;
            logs = elim (Result-cases (commit repo c s).0) [
              | inl (_, went) ↦ inr (code, ap law.log after ∙ logged went)
              | inr (f, failed) ↦ inl (ap law.log after ∙ unlogged f failed)
            ];
          }
      refuse-Refusal before current candidate invalid_job_transition s there = record {
        failure = _;
        answer = refl;
        kept = unchanged stored s;
        logs = inl refl;
      }
      refuse-Refusal before current candidate range_error s there = record {
        failure = _;
        answer = refl;
        kept = unchanged stored s;
        logs = inl refl;
      }
      refuse-Refusal before current candidate type_error s there = record {
        failure = _;
        answer = refl;
        kept = unchanged stored s;
        logs = inl refl;
      }
      refuse-Refusal before current candidate plain_error s there = record {
        failure = _;
        answer = refl;
        kept = unchanged stored s;
        logs = inl refl;
      }

      -- A request is performed: the state that the action leads to is saved, cached and told, and its
      -- commit is logged.
      pub record IsPerformed (action : MutationAction T) (s t : SimulationService R)
          (current : QueueCoordinator) (r : MutationResult T) : Type 0 where
        pub before : ℕ
        pub start : QueueCoordinator
        pub candidate : QueueCoordinator
        pub forked : fork (λ n. fresh (6 + 2 * n)) current ≡ ok start
        pub acted :
            action (meta_of repo hash fresh simulation_id context) start ≡ (ok r.value, candidate)
        pub earlier : R
        pub committed :
            (repo.commit
              (acceptance repo hash fresh simulation_id context before candidate r.value)
              earlier).0
            ≡ ok tt
        pub repository :
            t.repository
            ≡ (repo.commit
                (acceptance repo hash fresh simulation_id context before candidate r.value)
                earlier).1
        pub logged :
            law.log t.repository
            ≡ acceptance repo hash fresh simulation_id context before candidate r.value
              ∷ law.log s.repository
        pub status : r.status_code ≡ context.status_code
        pub version : r.state_version ≡ candidate.state_version
        pub first : r.replayed ≡ false
        pub cached : t.coordinators ≡ put simulation_id (drained candidate) s.coordinators
        pub saved :
            (id : Uuid)
            → stored t.repository id ≡ (
                if id == simulation_id
                then some (export_state candidate)
                else stored s.repository id)
