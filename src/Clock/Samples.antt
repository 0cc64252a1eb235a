-- ===== src/Clock/Samples.antt =====
-- Runs of the clock.
use os_mini_project.Common.{ok, ◌/◌, ◌%◌, ◌+◌, ◌-◌, ◌*◌, ◌≤◌, ◌≡◌, true, false, [], ◌∷◌, arith}
use os_mini_project.Entities.{quarter, four}
use os_mini_project.Clock.{SimulationClock, tick, quarters}
use os_mini_project.Clock.Laws.{
  elapsed_quarters, IsValid, tick_exact, tick-tick, run, ticks, pauses, sets_speed, resumes,
  run_monotone,
}

-- A clock at a quarter of the speed, half a millisecond beyond 12.
abbrev slow_clock : SimulationClock
slow_clock = record {
  simulation_time_ms = 12;
  speed_multiplier = quarter;
  paused = false;
  last_real_time_ms = 100;
  fractional_quarters = 2;
}

tick_exact_example :
    let (r, c') = tick 350 slow_clock in
    let gone = elapsed_quarters slow_clock + (350 - 100) * quarters quarter in
    (r ≡ ok c'.simulation_time_ms)
    × (slow_clock.paused ≡ false
        → (c'.simulation_time_ms ≡ gone / 4) × (c'.fractional_quarters ≡ gone % 4))
    × (slow_clock.paused ≡ true
        → (c'.simulation_time_ms ≡ slow_clock.simulation_time_ms)
          × (c'.fractional_quarters ≡ slow_clock.fractional_quarters))
    × (c'.last_real_time_ms ≡ 350)
tick_exact_example = tick_exact slow_clock 350 (omega arith) (omega arith) (omega arith)

tick-tick_example : tick 601 (tick 350 slow_clock).1 ≡ tick 601 slow_clock
tick-tick_example = tick-tick slow_clock 350 601 (omega arith) (omega arith) (omega arith)

run_monotone_example :
    let c' = run (ticks 350 ∷ pauses 400 ∷ resumes 900 ∷ sets_speed four 901 ∷ []) slow_clock in
    (12 ≤ c'.simulation_time_ms) × (100 ≤ c'.last_real_time_ms) × IsValid c'
run_monotone_example =
    run_monotone (ticks 350 ∷ pauses 400 ∷ resumes 900 ∷ sets_speed four 901 ∷ []) slow_clock
      (omega arith)
