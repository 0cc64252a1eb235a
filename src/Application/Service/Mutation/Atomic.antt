-- ===== src/Application/Service/Mutation/Atomic.antt =====
-- `mutate` with its lock and the look-up of the request's key.
use os_mini_project.Common.{
  ℕ, ◌+◌, ◌*◌, ◌≡◌, refl, sym, ◌∙◌, ap, subst, Option, none, some, List, ◌==◌, inl, inr, Result, ok,
  err, Bool-cases, bind-ok, ◌>>=◌,
}
use os_mini_project.Common.Dict.{Dict, get}
use os_mini_project.Entities.{Uuid, Failure}
use os_mini_project.Sync.FairMutex.{FairMutex, Acquired, granted, pending}
use os_mini_project.Coordinator.State.{QueueCoordinator}
use os_mini_project.Coordinator.Create.{CoordinatorState, export_state}
use os_mini_project.Application.Service.{
  SimulationRepository, MutationContext, MutationResult, SimulationService, Defaults,
  PersistedIdempotencyResult,
}
use os_mini_project.Application.Service.Loading.{
  version_of, load_coordinator, run_exclusive, after_acquire, with_lock, unlock, Call,
}
use os_mini_project.Application.Service.Mutation.{
  MutationAction, load_current, perform_on, perform, replay, replay_from, look_up, known, with_key,
  mutate, key_of,
}
use os_mini_project.Application.Service.Mutation.Steps.{IsRepository, Same, Quiet, quiet}
use os_mini_project.Application.Service.Mutation.Locked.{
  IsStep, refused, replayed, perform_from-IsStep, IsStep-between,
}

module _ {R Body T : Type 0} (repo : SimulationRepository R T)
    (stored : R → Uuid → Option CoordinatorState) (law : IsRepository repo stored) (hash : Body → ℕ)
    (fresh : ℕ → Uuid) (simulation_id : Uuid) (context : MutationContext Body) (defaults : Defaults)
    (action : MutationAction T) (current : QueueCoordinator) where
  abbrev Steps :
      SimulationService R → Result Failure (MutationResult T) × SimulationService R → Type 0
  Steps s p =
      IsStep repo stored law hash fresh simulation_id context defaults action current s p.1 p.0

  -- The coordinator is cached, and what is saved of it is what it holds.
  pub record IsCached (s : SimulationService R) : Type 0 where
    pub cached : get simulation_id s.coordinators ≡ some current
    pub saved : stored s.repository simulation_id ≡ some (export_state current)

  pub Same-IsCached : (s t : SimulationService R) → Same stored s t → IsCached s → IsCached t
  Same-IsCached s t h k = record {
    cached = ap (get simulation_id) h.cached ∙ k.cached;
    saved = h.saved simulation_id ∙ k.saved;
  }

  pub load_cached :
      (f : QueueCoordinator → Call R (MutationResult T)) (s : SimulationService R)
      → IsCached s
      → (load_current repo hash fresh simulation_id context defaults action >>= f) s ≡ f current s
  unfolding load_current load_coordinator
  load_cached f s h =
      bind-ok (load_coordinator repo (λ n. fresh (5 + 2 * n)) defaults simulation_id) f s s current
        (rw (h.cached, load_coordinator) refl)

  perform-Steps :
      (s : SimulationService R)
      → IsCached s
      → Steps s (perform repo hash fresh simulation_id context defaults action s)
  unfolding perform perform_on
  perform-Steps s h =
      subst (Steps s)
        (sym (load_cached (perform_on repo hash fresh simulation_id context defaults action) s h))
        (perform_from-IsStep repo stored law hash fresh simulation_id context defaults action
          current _ _ s h.saved refl)

  replay_from-Steps :
      (found : PersistedIdempotencyResult T) (version : Result Failure ℕ) (s : SimulationService R)
      → Steps s (replay_from repo hash fresh simulation_id context defaults action found version s)
  replay_from-Steps found (err e) s = refused e (quiet repo stored law s)
  replay_from-Steps found (ok version) s = replayed _ refl (quiet repo stored law s)

  replay-Steps :
      (found : PersistedIdempotencyResult T) (s : SimulationService R)
      → IsCached s
      → Steps s (replay repo hash fresh simulation_id context defaults action found s)
  unfolding replay
  replay-Steps found s h = elim (Bool-cases (found.request_hash == hash context.request_body)) [
    | inl same ↦
        rw (same, replay)
          (subst (Steps s)
            (sym (
              load_cached
                (λ c.
                  replay_from repo hash fresh simulation_id context defaults action found
                    (version_of c))
                s h))
            (replay_from-Steps found (version_of current) s))
    | inr other ↦ rw (other, replay) (refused _ (quiet repo stored law s))
  ]

  known-Steps :
      (found : Option (PersistedIdempotencyResult T)) (s : SimulationService R)
      → IsCached s
      → Steps s (known repo hash fresh simulation_id context defaults action found s)
  unfolding known
  known-Steps none s h = perform-Steps s h
  known-Steps (some found) s h = replay-Steps found s h

  -- Looking up a key changes nothing.
  pub look_up-Same :
      (key : List ℕ) (s : SimulationService R)
      → Same stored s (look_up repo hash fresh simulation_id context defaults action key s).1
  look_up-Same key s = record {
    cached = refl;
    told = refl;
    saved = law.find_keeps context.actor_id context.route_key key s.repository;
  }

  look_up-Quiet :
      (key : List ℕ) (s : SimulationService R)
      → Quiet repo stored law s
          (look_up repo hash fresh simulation_id context defaults action key s).1
  look_up-Quiet key s = record {
    same = look_up-Same key s;
    unlogged = law.find_unlogged context.actor_id context.route_key key s.repository;
  }

  relocked :
      (s : SimulationService R) (locks : Dict FairMutex)
      → Quiet repo stored law s (record s { locks = locks })
  relocked s locks = record {
    same = record { cached = refl; told = refl; saved = λ id. refl };
    unlogged = refl;
  }

  after_look_up-Steps :
      (s : SimulationService R)
      (p : Result Failure (Option (PersistedIdempotencyResult T)) × SimulationService R)
      → IsCached s
      → Quiet repo stored law s p.1
      → Steps s (((λ _. p) >>= known repo hash fresh simulation_id context defaults action) s)
  after_look_up-Steps s (err e, t) h same = refused e same
  after_look_up-Steps s (ok found, t) h same =
      IsStep-between repo stored law hash fresh simulation_id context defaults action current s t _
        _ (known repo hash fresh simulation_id context defaults action found t).1.locks same
        (known-Steps found t (Same-IsCached s t same.same h))

  with_key-Steps :
      (key : Option (List ℕ)) (s : SimulationService R)
      → IsCached s
      → Steps s (with_key repo hash fresh simulation_id context defaults action key s)
  unfolding with_key
  with_key-Steps none s h = perform-Steps s h
  with_key-Steps (some key) s h = after_look_up-Steps s _ h (look_up-Quiet key s)

  unlocking-Steps :
      (s : SimulationService R) (m : FairMutex) (call : Call R (MutationResult T))
      (acquired : Result Failure Acquired) (uuid : Uuid)
      → ((t : SimulationService R) → Quiet repo stored law s t → Steps t (call t))
      → Steps s (after_acquire (acquired, m) simulation_id uuid call s)
  unlocking-Steps s m call (err e) uuid k = refused e (relocked s _)
  unlocking-Steps s m call (ok (pending waiter)) uuid k = refused _ (relocked s _)
  unlocking-Steps s m call (ok (granted handle)) uuid k =
      let locked = with_lock simulation_id m s in
      let same = relocked s locked.locks in
      let t = (call locked).1 in
      IsStep-between repo stored law hash fresh simulation_id context defaults action current s
        locked t _ (unlock simulation_id handle uuid t).locks same (k locked same)

  pub mutate-IsStep :
      (s : SimulationService R)
      → IsCached s
      → let (r, t) = mutate repo hash fresh simulation_id context defaults action s in
        IsStep repo stored law hash fresh simulation_id context defaults action current s t r
  unfolding mutate run_exclusive
  mutate-IsStep s h =
      unlocking-Steps s _
        (with_key repo hash fresh simulation_id context defaults action (key_of context)) _
        (fresh 1) (λ t same. with_key-Steps (key_of context) t (Same-IsCached s t same.same h))
