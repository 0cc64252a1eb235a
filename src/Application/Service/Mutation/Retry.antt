-- ===== src/Application/Service/Mutation/Retry.antt =====
-- A request that carries an idempotency key is performed at most once.
use os_mini_project.Common.{
  ℕ, ◌≡◌, refl, sym, ◌∙◌, ap, subst, true, false, Option, some, List, ◌==◌, inl, inr, ◌⊎◌, Result,
  ok, err, arith, ◌>>=◌, ok-injective, ok-ne-err,
}
use os_mini_project.Common.Dict.{get, get-put_self}
use os_mini_project.Entities.{Uuid, Failure}
use os_mini_project.Sync.FairMutex.{FairMutex, Acquired, granted, pending}
use os_mini_project.Coordinator.State.{QueueCoordinator}
use os_mini_project.Coordinator.Create.{CoordinatorState, export_state}
use os_mini_project.Application.Service.{
  StateCommit, SimulationRepository, MutationContext, MutationResult, SimulationService,
  IdempotencyRecord, PersistedIdempotencyResult, drained, Defaults, available,
}
use os_mini_project.Application.Service.Loading.{
  Call, run_exclusive, after_acquire, with_lock, version_of,
}
use os_mini_project.Application.Service.Mutation.{
  MutationAction, replay, replay_from, look_up, known, with_key, mutate, key_of, acceptance,
  idempotency_of,
}
use os_mini_project.Application.Service.Mutation.Steps.{
  IsRepository, Same, unchanged, IsPerformed, Same-trans,
}
use os_mini_project.Application.Service.Mutation.Locked.{
  IsStep, refused, rejected, replayed, performed,
}
use os_mini_project.Application.Service.Mutation.Atomic.{
  IsCached, mutate-IsStep, load_cached, look_up-Same, Same-IsCached,
}

-- What the service relies on: a commit that succeeds records its request, and what is found of a
-- request is what is recorded.
pub record IsRecorder {R T : Type 0} (repo : SimulationRepository R T)
    (recorded : R → Uuid → List ℕ → List ℕ → Option (PersistedIdempotencyResult T)) : Type 0 where
  pub find_gives :
      (actor_id : Uuid) (route_key key : List ℕ) (r : R) (o : Option (PersistedIdempotencyResult T))
      → (repo.find_idempotency actor_id route_key key r).0 ≡ ok o
      → o ≡ recorded r actor_id route_key key
  pub commit_records :
      (c : StateCommit T) (i : IdempotencyRecord T) (r : R)
      → (repo.commit c r).0 ≡ ok tt
      → c.idempotency ≡ some i
      → recorded (repo.commit c r).1 i.actor_id i.route_key i.key
        ≡ some (record {
          request_hash = i.request_hash;
          status_code = i.status_code;
          response = i.response;
        })

true-ne-false : true ≡ false → ⊥
true-ne-false h = cc

available_ok : {A : Type 0} (r : Result Failure A) (a : A) → available r ≡ ok a → r ≡ ok a
available_ok (ok b) a h = h
available_ok (err e) a h = absurd (ok-ne-err (sym h))

module _ {R Body T : Type 0} (repo : SimulationRepository R T)
    (stored : R → Uuid → Option CoordinatorState) (law : IsRepository repo stored)
    (recorded : R → Uuid → List ℕ → List ℕ → Option (PersistedIdempotencyResult T))
    (recorder : IsRecorder repo recorded) (hash : Body → ℕ) (simulation_id : Uuid)
    (context : MutationContext Body) (defaults : Defaults) (action : MutationAction T) where
  -- Nothing happens, and what is answered, if anything, is `found`.
  abbrev pub Answered :
      PersistedIdempotencyResult T
      → SimulationService R
      → Result Failure (MutationResult T) × SimulationService R
      → Type 0
  Answered found s p =
      Same stored s p.1
      × (((e : Failure) × (p.0 ≡ err e))
          ⊎ ((r : MutationResult T) × (p.0 ≡ ok r)
              × (r.value ≡ found.response)
              × (r.status_code ≡ found.status_code)
              × (r.replayed ≡ true)))

  module _ (fresh : ℕ → Uuid) (current : QueueCoordinator) (found : PersistedIdempotencyResult T)
      (same_hash : found.request_hash ≡ hash context.request_body) where
    replay_from-Answered :
        (version : Result Failure ℕ) (s : SimulationService R)
        → Answered found s
            (replay_from repo hash fresh simulation_id context defaults action found version s)
    replay_from-Answered (err e) s = (unchanged stored s, inl (e, refl))
    replay_from-Answered (ok version) s = (unchanged stored s, inr (_, refl, refl, refl, refl))

    replay-Answered :
        (s : SimulationService R)
        → IsCached repo stored law hash fresh simulation_id context defaults action current s
        → Answered found s (replay repo hash fresh simulation_id context defaults action found s)
    unfolding replay
    replay-Answered s h =
        let same : (found.request_hash == hash context.request_body) ≡ true = ground arith in
        rw (same, replay)
          (subst (Answered found s)
            (sym (
              load_cached repo stored law hash fresh simulation_id context defaults action current
                (λ c.
                  replay_from repo hash fresh simulation_id context defaults action found
                    (version_of c))
                s h))
            (replay_from-Answered (version_of current) s))

    Same-Answered :
        (s t : SimulationService R) (p : Result Failure (MutationResult T) × SimulationService R)
        → Same stored s t
        → Answered found t p
        → Answered found s p
    Same-Answered s t p same (k, answer) = (Same-trans stored s t p.1 same k, answer)

    look_up-Answered :
        (s : SimulationService R)
        (p : Result Failure (Option (PersistedIdempotencyResult T)) × SimulationService R)
        → IsCached repo stored law hash fresh simulation_id context defaults action current s
        → Same stored s p.1
        → ((o : Option (PersistedIdempotencyResult T)) → p.0 ≡ ok o → o ≡ some found)
        → Answered found s
            (((λ _. p) >>= known repo hash fresh simulation_id context defaults action) s)
    unfolding known
    look_up-Answered s (err e, t) h same k = (same, inl (e, refl))
    look_up-Answered s (ok o, t) h same k =
        subst
          (λ o. Answered found s (known repo hash fresh simulation_id context defaults action o t))
          (sym (k o refl))
          (Same-Answered s t _ same (
            replay-Answered t (
              Same-IsCached repo stored law hash fresh simulation_id context defaults action current
                s t same h)))

    keyed-Answered :
        (key : List ℕ) (s : SimulationService R) (k : Option (List ℕ))
        → IsCached repo stored law hash fresh simulation_id context defaults action current s
        → k ≡ some key
        → recorded s.repository context.actor_id context.route_key key ≡ some found
        → Answered found s (with_key repo hash fresh simulation_id context defaults action k s)
    unfolding with_key
    keyed-Answered key s k h keyed there =
        subst
          (λ k.
            Answered found s (with_key repo hash fresh simulation_id context defaults action k s))
          (sym keyed)
          (look_up-Answered s (look_up repo hash fresh simulation_id context defaults action key s)
            h
            (look_up-Same repo stored law hash fresh simulation_id context defaults action current
              key s)
            (λ o e.
              recorder.find_gives context.actor_id context.route_key key s.repository o
                (available_ok _ o e)
              ∙ there))

    locked-Answered :
        (s : SimulationService R) (m : FairMutex) (call : Call R (MutationResult T))
        (acquired : Result Failure Acquired) (uuid : Uuid)
        → Answered found (with_lock simulation_id m s) (call (with_lock simulation_id m s))
        → Answered found s (after_acquire (acquired, m) simulation_id uuid call s)
    locked-Answered s m call (err e) uuid k =
        (record { cached = refl; told = refl; saved = λ id. refl }, inl (e, refl))
    locked-Answered s m call (ok (pending waiter)) uuid k =
        (record { cached = refl; told = refl; saved = λ id. refl }, inl (_, refl))
    locked-Answered s m call (ok (granted handle)) uuid (same, answer) =
        (record { cached = same.cached; told = same.told; saved = same.saved }, answer)

    -- A request whose key is recorded is not performed.
    pub mutate-Answered :
        (key : List ℕ) (s : SimulationService R)
        → IsCached repo stored law hash fresh simulation_id context defaults action current s
        → key_of context ≡ some key
        → recorded s.repository context.actor_id context.route_key key ≡ some found
        → Answered found s (mutate repo hash fresh simulation_id context defaults action s)
    unfolding mutate run_exclusive
    mutate-Answered key s h keyed there =
        locked-Answered s _
          (with_key repo hash fresh simulation_id context defaults action (key_of context)) _
          (fresh 1)
          (keyed-Answered key _ (key_of context) (record { cached = h.cached; saved = h.saved })
            keyed there)

  -- What a performed request leaves for the next one with its key.
  abbrev recorded_as : MutationResult T → PersistedIdempotencyResult T
  recorded_as r = record {
    request_hash = hash context.request_body;
    status_code = r.status_code;
    response = r.value;
  }

  module _ (fresh again : ℕ → Uuid) (current : QueueCoordinator) (key : List ℕ)
      (s t : SimulationService R)
      (h : IsCached repo stored law hash fresh simulation_id context defaults action current
        s) where
    performed-recorded :
        (r : MutationResult T)
        → IsPerformed repo stored law hash fresh simulation_id context action s t current r
        → key_of context ≡ some key
        → recorded t.repository context.actor_id context.route_key key ≡ some (recorded_as r)
    performed-recorded r p keyed =
        ap (λ q. recorded q context.actor_id context.route_key key) p.repository
        ∙ recorder.commit_records
            (acceptance repo hash fresh simulation_id context p.before p.candidate r.value) _
            p.earlier p.committed
            (ap (idempotency_of context (hash context.request_body) r.value) keyed)
        ∙ ap
            (λ n. some (record {
              request_hash = hash context.request_body;
              status_code = n;
              response = r.value;
            }))
            (sym p.status)

    IsPerformed-IsCached :
        (r : MutationResult T)
        → (p : IsPerformed repo stored law hash fresh simulation_id context action s t current r)
        → IsCached repo stored law hash again simulation_id context defaults action
            (drained p.candidate)
            t
    unfolding export_state
    IsPerformed-IsCached r p =
        let this : (simulation_id == simulation_id) ≡ true = ground arith in
        record {
          cached =
              ap (get simulation_id) p.cached
              ∙ get-put_self simulation_id (drained p.candidate) s.coordinators;
          saved = p.saved simulation_id ∙ rw this refl;
        }

    IsStep-IsPerformed :
        (o : Result Failure (MutationResult T)) (r : MutationResult T)
        → IsStep repo stored law hash fresh simulation_id context defaults action current s t o
        → o ≡ ok r
        → r.replayed ≡ false
        → IsPerformed repo stored law hash fresh simulation_id context action s t current r
    IsStep-IsPerformed _ r (refused e same) h first = absurd (ok-ne-err (sym h))
    IsStep-IsPerformed _ r (rejected e before candidate code ran same logged) h first =
        absurd (ok-ne-err (sym h))
    IsStep-IsPerformed _ r (replayed q again same) h first = absurd (
        true-ne-false
          (sym again ∙ (ap (λ (m : MutationResult T). m.replayed) (ok-injective h) ∙ first)))
    IsStep-IsPerformed _ r (performed q p) h first =
        subst (IsPerformed repo stored law hash fresh simulation_id context action s t current)
          (ok-injective h) p

    -- A request with an idempotency key, whose simulation is cached and saved as it is cached, is not
    -- performed again: when `mutate` has performed it, a second `mutate` of it neither saves, caches nor
    -- tells anything, and it answers what the first one answered, unless it fails.
    pub mutate_once :
        (r : MutationResult T)
        → mutate repo hash fresh simulation_id context defaults action s ≡ (ok r, t)
        → r.replayed ≡ false
        → key_of context ≡ some key
        → Answered
            (recorded_as r)
            t
            (mutate repo hash again simulation_id context defaults action t)
    mutate_once r done first keyed =
        let step =
          subst
            (λ p.
              IsStep repo stored law hash fresh simulation_id context defaults action current s p.1
                p.0)
            done
            (mutate-IsStep repo stored law hash fresh simulation_id context defaults action current
              s h) in
        let p = IsStep-IsPerformed (ok r) r step refl first in
        mutate-Answered again (drained p.candidate) (recorded_as r) refl key t
          (IsPerformed-IsCached r p) keyed (performed-recorded r p keyed)
