-- ===== src/Coordinator/Simulation.antt =====
-- The commands on the simulation as a whole.
use os_mini_project.Common.{
  ℕ, ◌+◌, Bool, true, false, ◌||◌, ◌&&◌, not, Option, none, some, List, [], ◌∷◌, map, if◌then◌else◌,
  Result, ok, err, ◌>>=◌, ◌>>◌, pure, lift, modify,
}
use os_mini_project.Common.Dict.{Dict, put, values}
use os_mini_project.Entities.{
  Uuid, PrinterStatus, SpeedMultiplier, quarter, half, one, two, four, PrintJob, PrinterState,
  DomainSchedulerConfig, Failure, domain, invariant_violation, lease_expired, same_printer_status,
  is_terminal_status,
}
use os_mini_project.Clock
use os_mini_project.Scheduler.{SchedulerRanking, SchedulerDecision, rank_jobs}
use os_mini_project.Sync.Buffer
use os_mini_project.Sync.Semaphore.{SemaphorePermit}
use os_mini_project.Sync.LeaseMutex.{BinaryLeaseMutex, unlocked}
use os_mini_project.Sync.LeaseMutex
use os_mini_project.Coordinator.State.{
  QueueCoordinator, CommandMeta, update_scheduler as update_scheduler_type, rebalance_queue,
  pause_simulation, update_simulation as update_simulation_type, reset_simulation,
  resume_simulation, scheduler_config_updated, queue_reordered, simulation_paused,
  simulation_resumed, simulation_updated, queue_capacity_updated, simulation_reset, ActiveWorker,
  Value, scheduler_value, ordered, nothing, Method, now_of, event, bump_version, on_buffer,
  on_clock, on_mutex,
}
use os_mini_project.Coordinator.Execute.{execute}
use os_mini_project.Coordinator.Work.{release_permit, release_lease, idle_printer}
use os_mini_project.Coordinator.Printers.Permits.{take_permit}

-- The action of `updateScheduler`.
unfoldable pub update_scheduler_action : DomainSchedulerConfig → Method Value
update_scheduler_action scheduler = do
  modify (λ c. record c { scheduler = scheduler })
  bump_version
  event (scheduler_config_updated scheduler.algorithm)
  pure (scheduler_value scheduler)

-- `updateScheduler`
unfoldable pub update_scheduler : (ℕ → Uuid) → CommandMeta → DomainSchedulerConfig → Method Value
unfolding execute update_scheduler_action
update_scheduler fresh meta scheduler =
    execute fresh meta update_scheduler_type (update_scheduler_action scheduler)

abbrev decided_ids : SchedulerRanking → List Uuid
decided_ids r = map (λ (d : SchedulerDecision). d.job_id) r.decisions

-- The action of `rebalance`.
unfoldable pub rebalance_action : Method Value
rebalance_action c =
    (do
      ranking ← lift (
          rank_jobs (values c.jobs) (map (λ (p : PrinterState). p.profile) (values c.printers))
            c.scheduler (now_of c))
      bump_version
      event (queue_reordered (decided_ids ranking))
      pure (ordered (decided_ids ranking)))
      c

-- `rebalance`
unfoldable pub rebalance : (ℕ → Uuid) → CommandMeta → Method Value
unfolding execute rebalance_action
rebalance fresh meta = execute fresh meta rebalance_queue rebalance_action

-- A clock method with the last real time for the time that is left out.
abbrev at_last : {A : Type 0} → (ℕ → Method A) → Method A
at_last f c = f c.clock.last_real_time_ms c

-- The action of `pause`.
unfoldable pub pause_action : Method Value
pause_action c =
    if c.clock.paused
    then (ok nothing, c)
    else (do
      at_last (λ t. on_clock (Clock.pause t))
      bump_version
      event simulation_paused
      pure nothing)
        c

-- `pause`
unfoldable pub pause : (ℕ → Uuid) → CommandMeta → Method Value
unfolding execute pause_action
pause fresh meta = execute fresh meta pause_simulation pause_action

abbrev when_some : {A : Type 0} → Option A → (A → Method (Unit {0})) → Method (Unit {0})
when_some none f = pure tt
when_some (some a) f = f a

-- The action of `updateSimulation`.
unfoldable pub update_simulation_action : Option SpeedMultiplier → Option ℕ → Method Value
update_simulation_action speed_multiplier queue_capacity = do
  when_some queue_capacity (λ n. on_buffer (Buffer.resize n))
  when_some speed_multiplier (λ s. at_last (λ t. on_clock (Clock.set_speed s t) >> pure tt))
  bump_version
  event (simulation_updated speed_multiplier queue_capacity)
  when_some queue_capacity
      (λ n c. event (queue_capacity_updated (Buffer.size c.buffer) c.buffer.capacity) c)
  pure nothing

-- `updateSimulation`
unfoldable pub update_simulation :
    (ℕ → Uuid) → CommandMeta → Option SpeedMultiplier → Option ℕ → Method Value
unfolding execute update_simulation_action
update_simulation fresh meta speed_multiplier queue_capacity =
    execute fresh meta update_simulation_type
      (update_simulation_action speed_multiplier queue_capacity)

abbrev same_speed : SpeedMultiplier → SpeedMultiplier → Bool
same_speed quarter quarter = true
same_speed half half = true
same_speed one one = true
same_speed two two = true
same_speed four four = true
same_speed _ _ = false

abbrev is_other_speed : Option SpeedMultiplier → SpeedMultiplier → Bool
is_other_speed none speed = false
is_other_speed (some s) speed = not (same_speed s speed)

-- The action of `resume`.
unfoldable pub resume_action : Option SpeedMultiplier → Method Value
resume_action speed_multiplier c =
    let was_paused = c.clock.paused in
    if not was_paused && not (is_other_speed speed_multiplier c.clock.speed_multiplier)
    then (ok nothing, c)
    else (do
      when_some speed_multiplier (λ s. at_last (λ t. on_clock (Clock.set_speed s t) >> pure tt))
      if was_paused then at_last (λ t. on_clock (Clock.resume t) >> pure tt) else pure tt
      bump_version
      event simulation_resumed
      pure nothing)
        c

-- `resume`
unfoldable pub resume : (ℕ → Uuid) → CommandMeta → Option SpeedMultiplier → Method Value
unfolding execute resume_action
resume fresh meta speed_multiplier =
    execute fresh meta resume_simulation (resume_action speed_multiplier)

-- The `catch` of `reset`: an expired lease is fenced, and anything else is thrown on.
abbrev or_fence :
    Uuid
    → ActiveWorker
    → Uuid
    → Result Failure (Unit {0}) × QueueCoordinator
    → Result Failure (Unit {0}) × QueueCoordinator
or_fence printer_id active uuid (ok _, c) = (ok tt, c)
or_fence printer_id active uuid (err (domain lease_expired), c) =
    (do
      on_mutex printer_id
          (LeaseMutex.fence_expired (now_of c) active.lease.lease_id active.lease.fence_token uuid)
      pure tt)
      c
or_fence printer_id active uuid (err e, c) = (err e, c)

-- The loop over the active workers.
unfoldable pub release_workers : Uuid → Dict ActiveWorker → Method (Unit {0})
release_workers uuid [] = pure tt
release_workers uuid ((printer_id, active) ∷ rest) = do
  λ c. or_fence printer_id active uuid (release_lease printer_id active.lease uuid c)
  release_permit active.permit uuid
  release_workers uuid rest

-- The loop over the unavailable permits.
unfoldable pub release_permits : Uuid → List SemaphorePermit → Method (Unit {0})
release_permits uuid [] = pure tt
release_permits uuid (permit ∷ rest) = do release_permit permit uuid; release_permits uuid rest

-- The jobs that a reset keeps.
unfoldable pub kept_jobs : Bool → Dict PrintJob → Dict PrintJob
kept_jobs preserve_history [] = []
kept_jobs preserve_history ((id, job) ∷ rest) =
    let more = kept_jobs preserve_history rest in
    if not preserve_history || not (is_terminal_status job.status) then more else (id, job) ∷ more

abbrev reset_status : PrinterState → PrinterStatus
reset_status printer =
    if same_printer_status printer.status PrinterStatus.offline
    then PrinterStatus.offline
    else PrinterStatus.ready

-- The loop over the printers; the n-th UUID that it draws is `fresh (3 + n)`.
unfoldable pub reset_printers : (ℕ → Uuid) → ℕ → Dict PrinterState → Method (Unit {0})
unfolding take_permit
reset_printers fresh n [] = pure tt
reset_printers fresh n ((printer_id, printer) ∷ rest) = do
  modify (λ c. record c {
    printers = put printer_id (idle_printer printer (reset_status printer)) c.printers;
    printer_mutexes = put printer_id unlocked c.printer_mutexes;
  })
  if same_printer_status printer.status PrinterStatus.offline
      then take_permit (domain invariant_violation) printer_id (fresh n)
      else pure tt
  reset_printers fresh (n + 1) rest

-- The action of `reset`.
unfoldable pub reset_action : (ℕ → Uuid) → Bool → Method Value
unfolding release_workers release_permits kept_jobs reset_printers
reset_action fresh preserve_history c =
    (do
      release_workers (fresh 2) c.active_workers
      modify (λ d. record d { active_workers = [] })
      release_permits (fresh 2) (values c.unavailable_permits)
      modify (λ d. record d {
        unavailable_permits = [];
        buffer = Buffer.clear d.buffer;
        jobs = kept_jobs preserve_history d.jobs;
        printer_mutexes = [];
      })
      reset_printers fresh 3 c.printers
      modify (λ d. record d {
        next_sequence = if preserve_history then d.next_sequence else 1;
        metrics_sequence_start = if preserve_history then d.next_sequence else 1;
        clock = Clock.reset true d.clock;
      })
      bump_version
      event (simulation_reset preserve_history)
      pure nothing)
      c

-- `reset`
unfoldable pub reset : (ℕ → Uuid) → CommandMeta → Bool → Method Value
unfolding execute reset_action
reset fresh meta preserve_history =
    execute fresh meta reset_simulation (reset_action fresh preserve_history)
