-- ===== src/Application/Service/Mutation/Locked.antt =====
-- `mutate` as one atomic step on what is saved and cached.
use os_mini_project.Common.{
  ℕ, ◌+◌, ◌*◌, ◌≡◌, refl, sym, ◌∙◌, ap, subst, true, Option, some, ◌∷◌, ◌==◌, if◌then◌else◌, inl,
  inr, ◌⊎◌, Result, ok, err, ok-ne-err,
}
use os_mini_project.Common.Dict.{Dict, put}
use os_mini_project.Entities.{Uuid, Failure, DomainErrorCode}
use os_mini_project.Sync.FairMutex.{FairMutex}
use os_mini_project.Coordinator.State.{QueueCoordinator}
use os_mini_project.Coordinator.Create.{CoordinatorState, fork, export_state}
use os_mini_project.Application.Service.{
  SimulationRepository, MutationContext, MutationResult, SimulationService, drained, notify,
  Defaults,
}
use os_mini_project.Application.Service.Mutation.{
  MutationAction, refuse, rejection, acceptance, after_commit, finish, perform_from, meta_of,
}
use os_mini_project.Application.Service.Mutation.Steps.{
  IsRepository, Same, Saved, commit_cases, commit_log, Quiet, quiet, Refusal, refuse-Refusal,
  IsPerformed, Same-trans,
}

module _ {R Body T : Type 0} (repo : SimulationRepository R T)
    (stored : R → Uuid → Option CoordinatorState) (law : IsRepository repo stored) (hash : Body → ℕ)
    (fresh : ℕ → Uuid) (simulation_id : Uuid) (context : MutationContext Body) (defaults : Defaults)
    (action : MutationAction T) where
  -- The action ran on a fork of the coordinator and left the candidate, which has given its events away
  -- where they were to be saved before.
  abbrev pub HasRun : QueueCoordinator → QueueCoordinator → Type 0
  HasRun current candidate =
      (start : QueueCoordinator) × (fork (λ n. fresh (6 + 2 * n)) current ≡ ok start)
      × ((candidate ≡ (action (meta_of repo hash fresh simulation_id context) start).1)
          ⊎ (candidate ≡ drained (action (meta_of repo hash fresh simulation_id context) start).1))

  -- The steps that a reader of the repository, the cache and the notices can see: a failure that leaves
  -- no trace, one whose rejection is logged, the answer to a request that was performed before, which
  -- leaves no trace either, and the whole effect of the action.
  pub data IsStep (current : QueueCoordinator) (s t : SimulationService R)
      : Result Failure (MutationResult T) → Type 0 where
    refused : (e : Failure) → Quiet repo stored law s t → IsStep current s t (err e)
    rejected :
        (e : Failure) (before : ℕ) (candidate : QueueCoordinator) (code : DomainErrorCode)
        → HasRun current candidate
        → Same stored s t
        → law.log t.repository
          ≡ rejection repo hash fresh simulation_id context before current candidate code
            ∷ law.log s.repository
        → IsStep current s t (err e)
    replayed :
        (r : MutationResult T)
        → r.replayed ≡ true
        → Quiet repo stored law s t
        → IsStep current s t (ok r)
    performed :
        (r : MutationResult T)
        → IsPerformed repo stored law hash fresh simulation_id context action s t current r
        → IsStep current s t (ok r)

  refused_by :
      (before : ℕ) (current candidate : QueueCoordinator) (s : SimulationService R)
      (p : Result Failure (MutationResult T) × SimulationService R)
      → Refusal repo stored law hash fresh simulation_id context before current candidate s p.1 p.0
      → HasRun current candidate
      → IsStep current s p.1 p.0
  refused_by before current candidate s p h ran =
      subst (IsStep current s p.1) (sym h.answer) (elim h.logs [
        | inl unlogged ↦ refused h.failure (record { same = h.kept; unlogged = unlogged })
        | inr (code, logged) ↦ rejected h.failure before candidate code ran h.kept logged
      ])

  refused_later :
      (before : ℕ) (current candidate : QueueCoordinator) (e : Failure) (s t : SimulationService R)
      → stored s.repository simulation_id ≡ some (export_state current)
      → Quiet repo stored law s t
      → HasRun current candidate
      → let (r, u) = refuse repo hash fresh simulation_id context before current candidate e t in
        IsStep current s u r
  refused_later before current candidate e s t there h ran =
      let k =
        refuse-Refusal repo stored law hash fresh simulation_id context before current candidate e t
          (h.same.saved simulation_id ∙ there) in
      refused_by before current candidate s _
        (record {
          failure = k.failure;
          answer = k.answer;
          kept = Same-trans stored s t _ h.same k.kept;
          logs = elim k.logs [
            | inl unlogged ↦ inl (unlogged ∙ h.unlogged)
            | inr (code, logged) ↦ inr (
              code,
              logged
                  ∙ ap
                      (λ l.
                        rejection repo hash fresh simulation_id context before current candidate
                          code
                        ∷ l)
                      h.unlogged,
            )
          ];
        })
        ran

  after_commit-IsStep :
      (before : ℕ) (current start candidate : QueueCoordinator) (value : T)
      (s : SimulationService R) (p : Result Failure (Unit {0}) × SimulationService R)
      → stored s.repository simulation_id ≡ some (export_state current)
      → fork (λ n. fresh (6 + 2 * n)) current ≡ ok start
      → action (meta_of repo hash fresh simulation_id context) start ≡ (ok value, candidate)
      → ((p.0 ≡ ok tt)
          × ((repo.commit
                (acceptance repo hash fresh simulation_id context before candidate value)
                s.repository).0
              ≡ ok tt)
          × Saved stored simulation_id (export_state candidate) s p.1)
        ⊎ ((e : Failure) × (p.0 ≡ err e) × Same stored s p.1)
      → ((p.0 ≡ ok tt
            → law.log p.1.repository
              ≡ acceptance repo hash fresh simulation_id context before candidate value
                ∷ law.log s.repository)
          × ((e : Failure) → p.0 ≡ err e → law.log p.1.repository ≡ law.log s.repository))
      → p.1.repository
        ≡ (repo.commit
            (acceptance repo hash fresh simulation_id context before candidate value)
            s.repository).1
      → let (r, t) =
          after_commit repo hash fresh simulation_id context before current candidate value p in
        IsStep current s t r
  unfolding after_commit notify export_state
  after_commit-IsStep before current start candidate value s (ok _, t) there forked acted
        (inl (e, committed, h)) logs repository =
      performed _ (record {
        before = before;
        start = start;
        earlier = s.repository;
        committed = committed;
        repository = repository;
        logged = logs.0 refl;
        status = refl;
        candidate = candidate;
        forked = forked;
        acted = acted;
        version = refl;
        first = refl;
        cached = ap (put simulation_id (drained candidate)) h.cached;
        saved = h.saved;
      })
  after_commit-IsStep before current start candidate value s (ok _, t) there forked acted
        (inr (f, e, h)) logs repository =
      absurd (ok-ne-err e)
  after_commit-IsStep before current start candidate value s (err e, t) there forked acted
        (inl (f, _, h)) logs repository =
      absurd (ok-ne-err (sym f))
  after_commit-IsStep before current start candidate value s (err e, t) there forked acted
        (inr (f, _, h)) logs repository =
      refused_later before current (drained candidate) e s t there
        (record { same = h; unlogged = logs.1 e refl })
        (start, forked, inr (ap (λ p. drained p.1) (sym acted)))

  finish-IsStep :
      (before : ℕ) (current start : QueueCoordinator)
      (outcome : Result Failure T × QueueCoordinator) (s : SimulationService R)
      → stored s.repository simulation_id ≡ some (export_state current)
      → fork (λ n. fresh (6 + 2 * n)) current ≡ ok start
      → action (meta_of repo hash fresh simulation_id context) start ≡ outcome
      → let (r, t) = finish repo hash fresh simulation_id context before current outcome s in
        IsStep current s t r
  unfolding finish
  finish-IsStep before current start (err e, candidate) s there forked acted =
      refused_by before current candidate s _
        (refuse-Refusal repo stored law hash fresh simulation_id context before current candidate e
          s there)
        (start, forked, inl (ap (λ p. p.1) (sym acted)))
  finish-IsStep before current start (ok value, candidate) s there forked acted =
      after_commit-IsStep before current start candidate value s _ there forked acted
        (commit_cases repo stored law
          (acceptance repo hash fresh simulation_id context before candidate value) s)
        (commit_log repo stored law
          (acceptance repo hash fresh simulation_id context before candidate value) s)
        refl

  pub perform_from-IsStep :
      (current : QueueCoordinator) (before : Result Failure ℕ)
      (start : Result Failure QueueCoordinator) (s : SimulationService R)
      → stored s.repository simulation_id ≡ some (export_state current)
      → fork (λ n. fresh (6 + 2 * n)) current ≡ start
      → let (r, t) =
          perform_from repo hash fresh simulation_id context defaults action before start current
            s in
        IsStep current s t r
  unfolding perform_from
  perform_from-IsStep current (err e) start s there forked = refused e (quiet repo stored law s)
  perform_from-IsStep current (ok before) (err e) s there forked =
      refused e (quiet repo stored law s)
  perform_from-IsStep current (ok before) (ok start) s there forked =
      finish-IsStep before current start _ s there forked refl

  Quiet-between :
      (s t u : SimulationService R) (locks : Dict FairMutex)
      → Quiet repo stored law s t
      → Quiet repo stored law t u
      → Quiet repo stored law s (record u { locks = locks })
  Quiet-between s t u locks h k = record {
    same =
        Same-trans stored s t _ h.same
          (record { cached = k.same.cached; told = k.same.told; saved = k.same.saved });
    unlogged = k.unlogged ∙ h.unlogged;
  }

  -- What changes nothing may come before a step, and the locks may change after it.
  pub IsStep-between :
      (current : QueueCoordinator) (s t u : SimulationService R)
      (r : Result Failure (MutationResult T)) (locks : Dict FairMutex)
      → Quiet repo stored law s t
      → IsStep current t u r
      → IsStep current s (record u { locks = locks }) r
  IsStep-between current s t u _ locks h (refused e k) = refused e (Quiet-between s t u locks h k)
  IsStep-between current s t u _ locks h (rejected e before candidate code ran k logged) =
      rejected e before candidate code ran
        (Same-trans stored s t _ h.same
          (record { cached = k.cached; told = k.told; saved = k.saved }))
        (logged
          ∙ ap
              (λ l.
                rejection repo hash fresh simulation_id context before current candidate code ∷ l)
              h.unlogged)
  IsStep-between current s t u _ locks h (replayed r again k) =
      replayed r again (Quiet-between s t u locks h k)
  IsStep-between current s t u _ locks h (performed r k) = performed r (record {
    before = k.before;
    start = k.start;
    candidate = k.candidate;
    forked = k.forked;
    acted = k.acted;
    earlier = k.earlier;
    committed = k.committed;
    repository = k.repository;
    logged =
        k.logged
        ∙ ap
            (λ l. acceptance repo hash fresh simulation_id context k.before k.candidate r.value ∷ l)
            h.unlogged;
    status = k.status;
    version = k.version;
    first = k.first;
    cached = k.cached ∙ ap (put simulation_id (drained k.candidate)) h.same.cached;
    saved = λ id.
        k.saved id
        ∙ ap (λ o. if id == simulation_id then some (export_state k.candidate) else o)
            (h.same.saved id);
  })
