-- ===== src/Coordinator/Execute/Laws.antt =====
-- What every command is promised by `#execute`, whatever its own action does.
use os_mini_project.Common.{
  ℕ, ◌≡◌, refl, sym, ap, subst, false, none, some, [], arith, Result, ok, err, ok-ne-err, ◌∙◌,
}
use os_mini_project.Common.Dict.{get, put}
use os_mini_project.Entities.{Uuid, Failure}
use os_mini_project.Sync.FairMutex.{
  FairMutex, MutexOwner, OwnerId, MutexHandle, coordinator, grant, acquire,
}
use os_mini_project.Sync.FairMutex
use os_mini_project.Coordinator.State.{
  QueueCoordinator, CommandMeta, CommandType, CommandRecord, Value, Method, CoordinatorSnapshot,
  event,
}
use os_mini_project.Coordinator.Checks.{assert_invariants, snapshot, check_snapshot}
use os_mini_project.Coordinator.Checks.Sound.{SystemSound}
use os_mini_project.Coordinator.Checks.Laws.{assert_system_invariants_sound}
use os_mini_project.Coordinator.Execute.{attempt, execute, run_first, audit_of}

-- No command is running.
abbrev pub IsIdle : QueueCoordinator → Type 0
IsIdle c = (c.queue_mutex.owner ≡ none) × (c.queue_mutex.waiters ≡ [])

-- What a command leaves that ran for the first time with outcome `r`, over what its action left:
-- the outcome is recorded under its id, and one audit entry comes at the end of the events.
abbrev pub settled : CommandMeta → CommandType → CommandRecord → QueueCoordinator → QueueCoordinator
settled meta type r c =
    (event (audit_of type r)
      (record c { command_results = put meta.command_id r c.command_results })).1

-- The state in which the action of a command runs: the command owns the queue mutex.
abbrev pub locked_by : Uuid → Uuid → QueueCoordinator → QueueCoordinator
locked_by uuid command_id c = record c {
  queue_mutex = record {
    owner = some (record { owner_id = coordinator command_id; token = uuid });
    waiters = [];
  };
}

-- While no command is running, a command with a new id comes to what `attempt` makes of it under the
-- queue mutex, if that leaves the mutex alone: the outcome is recorded and audited, and the mutex is
-- given back.
pub execute_first :
    (fresh : ℕ → Uuid) (meta : CommandMeta) (type : CommandType) (action : Method Value)
    (c d : QueueCoordinator) (r : CommandRecord)
    → IsIdle c
    → get meta.command_id c.command_results ≡ none
    → attempt meta action (locked_by (fresh 0) meta.command_id c) ≡ (r, d)
    → d.queue_mutex ≡ (locked_by (fresh 0) meta.command_id c).queue_mutex
    → execute fresh meta type action c
      ≡ (r, settled meta type r (record d { queue_mutex = c.queue_mutex }))
unfolding execute acquire grant FairMutex.release
execute_first fresh meta type action c d r idle unknown ran frame = ground arith

attempt-accepted :
    (meta : CommandMeta) (action : Method Value) (c : QueueCoordinator) (v : Value)
    → (attempt meta action c).0 ≡ ok v
    → check_snapshot (snapshot (attempt meta action c).1) ≡ ok tt
unfolding attempt assert_invariants
attempt-accepted meta action c v h = ground arith

run_first-attempt :
    (meta : CommandMeta) (type : CommandType) (action : Method Value) (handle : MutexHandle)
    (uuid : Uuid) (c : QueueCoordinator)
    → let (r, d) = attempt meta action c in
      ((run_first meta type action handle uuid c).0 ≡ r)
      × (snapshot (run_first meta type action handle uuid c).1 ≡ snapshot d)
unfolding snapshot attempt run_first
run_first-attempt meta type action handle uuid c = (refl, refl)

execute-run_first :
    (fresh : ℕ → Uuid) (meta : CommandMeta) (type : CommandType) (action : Method Value)
    (c : QueueCoordinator)
    → IsIdle c
    → get meta.command_id c.command_results ≡ none
    → execute fresh meta type action c
      ≡ run_first meta type action
          (record { owner_id = coordinator meta.command_id; token = fresh 0; released = false })
          (fresh 1)
          (locked_by (fresh 0) meta.command_id c)
unfolding execute acquire grant
execute-run_first fresh meta type action c idle unknown = ground arith

sound_of_check :
    (r : Result Failure CoordinatorSnapshot)
    → check_snapshot r ≡ ok tt
    → (s : CoordinatorSnapshot) × (r ≡ ok s) × SystemSound s
sound_of_check (ok s) h = (s, refl, assert_system_invariants_sound s h)
sound_of_check (err e) h = absurd (ok-ne-err (sym h))

-- Whatever command with a new id is accepted while no other is running, the state that it leaves has
-- a snapshot, and the system that the snapshot shows is sound: no two printers have one job; the
-- buffer is within its capacity and repeats no id; every job is lawful, is in the buffer exactly until
-- it ends, and has one printer, named by it and locked, while it is active; the printers agree with
-- their mutexes; and there are as many permits as ready printers.
pub execute_accepted_sound :
    (fresh : ℕ → Uuid) (meta : CommandMeta) (type : CommandType) (action : Method Value)
    (c d : QueueCoordinator) (v : Value)
    → IsIdle c
    → get meta.command_id c.command_results ≡ none
    → execute fresh meta type action c ≡ (ok v, d)
    → (s : CoordinatorSnapshot) × (snapshot d ≡ ok s) × SystemSound s
execute_accepted_sound fresh meta type action c d v idle unknown accepted =
    let handle : MutexHandle = record {
      owner_id = coordinator meta.command_id;
      token = fresh 0;
      released = false;
    } in
    let locked = locked_by (fresh 0) meta.command_id c in
    let ran = sym (execute-run_first fresh meta type action c idle unknown) ∙ accepted in
    let (same, shown) = run_first-attempt meta type action handle (fresh 1) locked in
    sound_of_check (snapshot d) (
      subst (λ s. check_snapshot s ≡ ok tt) (sym shown ∙ ap (λ p. snapshot p.1) ran)
        (attempt-accepted meta action locked v (sym same ∙ ap (λ p. p.0) ran)))
