-- ===== src/Clock.antt =====
-- apps/api/src/domain/clock.ts. The speeds are multiples of a quarter, so simulated time is counted
-- in quarters of a millisecond where the code has fractions. A real time that is left out is the
-- last one, which the caller writes as `clock.last_real_time_ms`.
pub mod Laws
mod Samples
use os_mini_project.Common.{
  ℕ, ◌+◌, ◌-◌, ◌*◌, ◌/◌, ◌%◌, ◌≡◌, Bool, true, false, ◌||◌, not, leb, ltb, if◌then◌else◌,
  is_safe_integer, Result, ok, err, Action,
}
use os_mini_project.Entities.{
  SpeedMultiplier, quarter, half, one, two, four, SimulationClockState, Failure, range_error,
}

pub record SimulationClock : Type 0 where
  pub simulation_time_ms : ℕ
  pub speed_multiplier : SpeedMultiplier
  pub paused : Bool
  pub last_real_time_ms : ℕ
  pub fractional_quarters : ℕ

-- Four times the multiplier.
abbrev pub quarters : SpeedMultiplier → ℕ
quarters quarter = 1
quarters half = 2
quarters one = 4
quarters two = 8
quarters four = 16

-- `assertTime` throws.
abbrev bad_time : ℕ → Bool
bad_time value = not (is_safe_integer value)

-- The constructor; the type of the multiplier holds the supported speeds only.
unfoldable pub create : ℕ → ℕ → SpeedMultiplier → Bool → Result Failure SimulationClock
create real_time_ms simulation_time_ms speed paused =
    if bad_time real_time_ms || bad_time simulation_time_ms
    then err range_error
    else ok (record {
      simulation_time_ms = simulation_time_ms;
      speed_multiplier = speed;
      paused = paused;
      last_real_time_ms = real_time_ms;
      fractional_quarters = 0;
    })

-- `get state`
unfoldable pub state : SimulationClock → SimulationClockState
state c = record {
  simulation_time_ms = c.simulation_time_ms;
  speed_multiplier = c.speed_multiplier;
  paused = c.paused;
}

-- The time that passes when the clock runs to a later real time.
run_to : ℕ → SimulationClock → SimulationClock
run_to real_time_ms c =
    let elapsed =
      (real_time_ms - c.last_real_time_ms) * quarters c.speed_multiplier + c.fractional_quarters in
    record c {
      last_real_time_ms = real_time_ms;
      fractional_quarters = elapsed % 4;
      simulation_time_ms = c.simulation_time_ms + elapsed / 4;
    }

unfoldable pub tick : ℕ → Action SimulationClock Failure ℕ
unfolding run_to
tick real_time_ms c =
    if bad_time real_time_ms
    then (err range_error, c)
    else if leb real_time_ms c.last_real_time_ms
    then (ok c.simulation_time_ms, c)
    else let c' =
        if c.paused then record c { last_real_time_ms = real_time_ms } else run_to real_time_ms c in
      (ok c'.simulation_time_ms, c')

unfoldable pub advance_by : ℕ → Action SimulationClock Failure ℕ
unfolding tick
advance_by real_elapsed_ms c =
    if bad_time real_elapsed_ms
    then (err range_error, c)
    else tick (c.last_real_time_ms + real_elapsed_ms) c

unfoldable pub advance_simulation_by : ℕ → Action SimulationClock Failure ℕ
advance_simulation_by elapsed c =
    if bad_time elapsed
    then (err range_error, c)
    else let c' =
        if c.paused then c else record c { simulation_time_ms = c.simulation_time_ms + elapsed } in
      (ok c'.simulation_time_ms, c')

-- A method that ticks first, and goes on only if that did not throw.
abbrev after_tick :
    (SimulationClock → SimulationClock)
    → Result Failure ℕ × SimulationClock
    → Result Failure SimulationClockState × SimulationClock
unfolding state
after_tick f (ok _, c) = (ok (state (f c)), f c)
after_tick f (err e, c) = (err e, c)

unfoldable pub pause : ℕ → Action SimulationClock Failure SimulationClockState
unfolding tick state
pause real_time_ms c = after_tick (λ d. record d { paused = true }) (tick real_time_ms c)

unfoldable pub resume : ℕ → Action SimulationClock Failure SimulationClockState
unfolding tick state
resume real_time_ms c =
    if bad_time real_time_ms
    then (err range_error, c)
    else if not c.paused
    then after_tick (λ d. d) (tick real_time_ms c)
    else let c' = record c {
      last_real_time_ms =
          if ltb c.last_real_time_ms real_time_ms then real_time_ms else c.last_real_time_ms;
      paused = false;
    } in
      (ok (state c'), c')

unfoldable pub set_speed : SpeedMultiplier → ℕ → Action SimulationClock Failure SimulationClockState
unfolding tick state
set_speed speed real_time_ms c =
    after_tick (λ d. record d { speed_multiplier = speed }) (tick real_time_ms c)

unfoldable pub reset : Bool → SimulationClock → SimulationClock
reset paused c = record c {
  simulation_time_ms = 0;
  last_real_time_ms = 0;
  fractional_quarters = 0;
  paused = paused;
}
