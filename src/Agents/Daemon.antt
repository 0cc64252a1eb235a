-- ===== src/Agents/Daemon.antt =====
-- `AutomationDaemon` of agents/automation-daemon.ts: which ticks start, what a tick that has ended
-- leaves behind, and when the circuit is open. What a tick does in the simulation is left out, up to
-- how it ends.
pub mod Laws
mod Samples
use os_mini_project.Common.{
  ℕ, ◌+◌, Bool, true, false, ◌||◌, ◌&&◌, not, Option, none, some, List, [], ◌∷◌, ◌++◌, ltb, leb,
  ◌==◌, if◌then◌else◌, select, any, length, map,
}
use os_mini_project.Entities.{Uuid}

pub record AutomationDaemon : Type 0 where
  pub in_flight : List Uuid
  pub failures : List ℕ
  pub timer : Bool
  pub running : Bool
  pub subscribed : Bool
  pub circuit_open_until : ℕ
  pub last_action_at : Option ℕ

-- A tick finds nothing to do, does it, or throws.
pub data TickOutcome : Type 0 where
  idle : TickOutcome
  acted : TickOutcome
  failed : TickOutcome

pub data Health : Type 0 where
  healthy : Health
  degraded : Health

pub data CircuitState : Type 0 where
  closed : CircuitState
  opened : CircuitState

pub data AgentName : Type 0 where
  automation_daemon : AgentName
  watchdog_intercept : AgentName
  load_balancer : AgentName
  starvation_guard : AgentName
  metrics_evaluator : AgentName

pub record AgentStatus : Type 0 where
  pub name : AgentName
  pub health : Health
  pub circuit : CircuitState
  pub last_action_at : Option ℕ

-- `constructor`
abbrev pub create : AutomationDaemon
create = record {
  in_flight = [];
  failures = [];
  timer = false;
  running = false;
  subscribed = true;
  circuit_open_until = 0;
  last_action_at = none;
}

unfoldable pub start : AutomationDaemon → AutomationDaemon
start d = if d.timer then d else record d { timer = true; running = true }

unfoldable pub stop : AutomationDaemon → AutomationDaemon
stop d = record d { timer = false; running = false; subscribed = false }

-- Whether the listener ticks a simulation at once that a job was submitted to.
abbrev pub hears_submission : AutomationDaemon → Bool
hears_submission d = d.subscribed && d.running

-- `Date.now() < this.#circuitOpenUntil`
abbrev pub is_open : ℕ → AutomationDaemon → Bool
is_open now d = ltb now d.circuit_open_until

unfoldable pub status : ℕ → AutomationDaemon → AgentStatus
status now d = record {
  name = automation_daemon;
  health = if is_open now d then Health.degraded else Health.healthy;
  circuit = if is_open now d then CircuitState.opened else CircuitState.closed;
  last_action_at = d.last_action_at;
}

-- The agents that the daemon stands for are always healthy.
abbrev other_status : AutomationDaemon → AgentName → AgentStatus
other_status d name = record {
  name = name;
  health = Health.healthy;
  circuit = CircuitState.closed;
  last_action_at = d.last_action_at;
}

unfoldable pub statuses : ℕ → AutomationDaemon → List AgentStatus
unfolding status
statuses now d =
    status now d
    ∷ map (other_status d)
        (watchdog_intercept ∷ load_balancer ∷ starvation_guard ∷ metrics_evaluator ∷ [])

-- The start of `tickSimulation`; none where the call returns at once.
unfoldable pub begin_tick : ℕ → Uuid → AutomationDaemon → Option AutomationDaemon
begin_tick now simulation_id d =
    if any (λ id. id == simulation_id) d.in_flight || is_open now d
    then none
    else some (record d { in_flight = d.in_flight ++ simulation_id ∷ [] })

-- The loop that forgets failures; the time 0 counts as missing.
abbrev pub drop_old : ℕ → List ℕ → List ℕ
drop_old now [] = []
drop_old now (first ∷ times) =
    let rest = drop_old now times in
    if ltb 0 first && ltb (first + 10_000) now then rest else first ∷ times

-- The `catch` of `tickSimulation`
unfoldable pub with_failure : ℕ → AutomationDaemon → AutomationDaemon
with_failure now d =
    let failures = drop_old now (d.failures ++ now ∷ []) in
    record d {
      failures = failures;
      circuit_open_until = if leb 3 (length failures) then now + 5_000 else d.circuit_open_until;
    }

abbrev after_outcome : TickOutcome → ℕ → AutomationDaemon → AutomationDaemon
unfolding with_failure
after_outcome idle now d = d
after_outcome acted now d = record d { last_action_at = some now; failures = [] }
after_outcome failed now d = with_failure now d

-- The end of `tickSimulation`
unfoldable pub end_tick : TickOutcome → ℕ → Uuid → AutomationDaemon → AutomationDaemon
unfolding after_outcome
end_tick outcome now simulation_id d =
    let after = after_outcome outcome now d in
    record after { in_flight = select (λ id. not (id == simulation_id)) after.in_flight }
