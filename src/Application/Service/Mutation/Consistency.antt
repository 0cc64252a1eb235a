-- ===== src/Application/Service/Mutation/Consistency.antt =====
-- What is saved stays what the cached coordinators hold.
use os_mini_project.Common.{
  ℕ, ◌≡◌, sym, ◌∙◌, ap, Option, some, ◌==◌, inl, inr, Result, Bool-cases, some-injective,
}
use os_mini_project.Common.Dict.{get, get-put}
use os_mini_project.Entities.{Uuid, Failure}
use os_mini_project.Coordinator.State.{QueueCoordinator}
use os_mini_project.Coordinator.Create.{CoordinatorState, export_state}
use os_mini_project.Application.Service.{
  SimulationRepository, MutationContext, MutationResult, SimulationService, drained, Defaults,
}
use os_mini_project.Application.Service.Mutation.{MutationAction, mutate}
use os_mini_project.Application.Service.Mutation.Steps.{IsRepository, Same, IsPerformed}
use os_mini_project.Application.Service.Mutation.Locked.{
  IsStep, refused, rejected, replayed, performed,
}
use os_mini_project.Application.Service.Mutation.Atomic.{mutate-IsStep}

-- What is saved of each cached simulation is the state of its coordinator.
abbrev pub Agrees :
    {R : Type 0} → (R → Uuid → Option CoordinatorState) → SimulationService R → Type 0
Agrees stored s =
    (id : Uuid) (c : QueueCoordinator)
    → get id s.coordinators ≡ some c
    → stored s.repository id ≡ some (export_state c)

module _ {R Body T : Type 0} (repo : SimulationRepository R T)
    (stored : R → Uuid → Option CoordinatorState) (law : IsRepository repo stored) (hash : Body → ℕ)
    (fresh : ℕ → Uuid) (simulation_id : Uuid) (context : MutationContext Body) (defaults : Defaults)
    (action : MutationAction T) (current : QueueCoordinator) where
  Same-Agrees : (s t : SimulationService R) → Same stored s t → Agrees stored s → Agrees stored t
  Same-Agrees s t same h id c e = same.saved id ∙ h id c (sym (ap (get id) same.cached) ∙ e)

  -- The state that is exported says nothing of the events that were taken.
  export-drained :
      (c candidate : QueueCoordinator)
      → some (drained candidate) ≡ some c
      → export_state candidate ≡ export_state c
  unfolding export_state
  export-drained c candidate e = ap export_state (some-injective e)

  IsPerformed-Agrees :
      (s t : SimulationService R) (r : MutationResult T)
      → IsPerformed repo stored law hash fresh simulation_id context action s t current r
      → Agrees stored s
      → Agrees stored t
  IsPerformed-Agrees s t r h k id c e =
      let found =
        sym (get-put simulation_id id (drained h.candidate) s.coordinators)
        ∙ (sym (ap (get id) h.cached) ∙ e) in
      elim (Bool-cases (id == simulation_id)) [
        | inl this ↦
            let mine : some (drained h.candidate) ≡ some c = rw this at found in
            h.saved id ∙ rw this (ap some (export-drained c h.candidate mine))
        | inr other ↦
            let old : get id s.coordinators ≡ some c = rw other at found in
            h.saved id ∙ rw other (k id c old)
      ]

  IsStep-Agrees :
      (s t : SimulationService R) (r : Result Failure (MutationResult T))
      → IsStep repo stored law hash fresh simulation_id context defaults action current s t r
      → Agrees stored s
      → Agrees stored t
  IsStep-Agrees s t _ (refused e quiet) h = Same-Agrees s t quiet.same h
  IsStep-Agrees s t _ (rejected e before candidate code ran same logged) h = Same-Agrees s t same h
  IsStep-Agrees s t _ (replayed r again quiet) h = Same-Agrees s t quiet.same h
  IsStep-Agrees s t _ (performed r p) h = IsPerformed-Agrees s t r p h

  -- On a cached simulation, `mutate` keeps what is saved of every cached simulation equal to what its
  -- coordinator holds, however it ends.
  pub mutate-Agrees :
      (s : SimulationService R)
      → get simulation_id s.coordinators ≡ some current
      → Agrees stored s
      → Agrees stored (mutate repo hash fresh simulation_id context defaults action s).1
  mutate-Agrees s cached h =
      IsStep-Agrees s _ _
        (mutate-IsStep repo stored law hash fresh simulation_id context defaults action current s
          (record { cached = cached; saved = h simulation_id current cached }))
        h
