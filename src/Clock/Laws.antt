-- ===== src/Clock/Laws.antt =====
-- How far a tick takes the clock of clock.ts, and that no call but `reset` takes it back.
use os_mini_project.Common.{
  ℕ, ◌+◌, ◌-◌, ◌*◌, ◌/◌, ◌%◌, ◌≤◌, ◌<◌, ◌≡◌, true, false, arith, max_safe_integer, ok, List, [],
  ◌∷◌,
}
use os_mini_project.Entities.{SpeedMultiplier}
use os_mini_project.Clock.{
  SimulationClock, quarters, run_to, tick, advance_by, advance_simulation_by, pause, resume,
  set_speed,
}

-- The fraction of a clock is less than a millisecond.
abbrev pub IsValid : SimulationClock → Type 0
IsValid c = c.fractional_quarters < 4

-- Simulated time in quarters of a millisecond, the fraction included.
abbrev pub elapsed_quarters : SimulationClock → ℕ
elapsed_quarters c = 4 * c.simulation_time_ms + c.fractional_quarters

-- A tick at a safe later time returns the simulated time that the clock then has. While the clock
-- runs, this is the real time that went by, times the speed, over the time and the fraction that the
-- clock had, in whole milliseconds, and what is left over stays in the fraction, less than one
-- millisecond; while it is paused neither changes. The clock is then at that real time. (Fractions
-- are quarters of a millisecond, which doubles keep exactly.)
pub tick_exact :
    (c : SimulationClock) (real_time_ms : ℕ)
    → c.last_real_time_ms ≤ real_time_ms
    → real_time_ms ≤ max_safe_integer
    → IsValid c
    → let (r, c') = tick real_time_ms c in
      let gone =
        elapsed_quarters c + (real_time_ms - c.last_real_time_ms) * quarters c.speed_multiplier in
      (r ≡ ok c'.simulation_time_ms)
      × (c.paused ≡ false
          → (c'.simulation_time_ms ≡ gone / 4) × (c'.fractional_quarters ≡ gone % 4))
      × (c.paused ≡ true
          → (c'.simulation_time_ms ≡ c.simulation_time_ms)
            × (c'.fractional_quarters ≡ c.fractional_quarters))
      × (c'.last_real_time_ms ≡ real_time_ms)
unfolding tick run_to
tick_exact c real_time_ms later safe valid = (
  ground arith,
  λ run. (ground arith, ground arith),
  λ stop. (ground arith, ground arith),
  ground arith,
)

-- Whole and broken milliseconds of two stretches of time, and of the two together.
split_div : (a b f q : ℕ) → (a * q + f) / 4 + (b * q + (a * q + f) % 4) / 4 ≡ ((a + b) * q + f) / 4
split_div a b f q = omega arith

split_mod : (a b f q : ℕ) → (b * q + (a * q + f) % 4) % 4 ≡ ((a + b) * q + f) % 4
split_mod a b f q = omega arith

add_sub_sub :
    (last first second : ℕ)
    → last ≤ first
    → first ≤ second
    → (first - last) + (second - first) ≡ second - last
add_sub_sub last first second h k = omega arith

run_to-run_to :
    (c : SimulationClock) (first_ms second_ms : ℕ)
    → c.last_real_time_ms ≤ first_ms
    → first_ms ≤ second_ms
    → run_to second_ms (run_to first_ms c) ≡ run_to second_ms c
unfolding run_to
run_to-run_to c first_ms second_ms h k = ground (
  arith,
  split_div (first_ms - c.last_real_time_ms) (second_ms - first_ms) c.fractional_quarters
      (quarters c.speed_multiplier),
  split_mod (first_ms - c.last_real_time_ms) (second_ms - first_ms) c.fractional_quarters
      (quarters c.speed_multiplier),
  add_sub_sub c.last_real_time_ms first_ms second_ms h k,
)

-- A tick on the way changes nothing: ticking at two times in order leaves the clock that the last
-- tick alone leaves, so how often the clock is read does not matter.
pub tick-tick :
    (c : SimulationClock) (first_ms second_ms : ℕ)
    → c.last_real_time_ms ≤ first_ms
    → first_ms ≤ second_ms
    → second_ms ≤ max_safe_integer
    → tick second_ms (tick first_ms c).1 ≡ tick second_ms c
unfolding tick
tick-tick c first_ms second_ms h k safe = ground (arith, run_to-run_to c first_ms second_ms h k)

-- The calls on a clock but `reset`.
pub data Call : Type 0 where
  ticks advances_by advances_simulation_by pauses resumes : ℕ → Call
  sets_speed : SpeedMultiplier → ℕ → Call

unfoldable pub after : Call → SimulationClock → SimulationClock
after (ticks t) c = (tick t c).1
after (advances_by t) c = (advance_by t c).1
after (advances_simulation_by t) c = (advance_simulation_by t c).1
after (pauses t) c = (pause t c).1
after (resumes t) c = (resume t c).1
after (sets_speed s t) c = (set_speed s t c).1

abbrev pub run : List Call → SimulationClock → SimulationClock
run [] c = c
run (k ∷ ks) c = run ks (after k c)

record Later (c d : SimulationClock) : Type 0 where
  time : c.simulation_time_ms ≤ d.simulation_time_ms
  real : c.last_real_time_ms ≤ d.last_real_time_ms
  valid : IsValid c → IsValid d

after-Later : (k : Call) (c : SimulationClock) → Later c (after k c)
unfolding after tick run_to advance_by advance_simulation_by pause resume set_speed
after-Later (ticks t) c = record {
  time = ground arith;
  real = ground arith;
  valid = λ v. ground arith;
}
after-Later (advances_by t) c = record {
  time = ground arith;
  real = ground arith;
  valid = λ v. ground arith;
}
after-Later (advances_simulation_by t) c = record {
  time = ground arith;
  real = ground arith;
  valid = λ v. ground arith;
}
after-Later (pauses t) c = record {
  time = ground arith;
  real = ground arith;
  valid = λ v. ground arith;
}
after-Later (resumes t) c = record {
  time = ground arith;
  real = ground arith;
  valid = λ v. ground arith;
}
after-Later (sets_speed s t) c = record {
  time = ground arith;
  real = ground arith;
  valid = λ v. ground arith;
}

run-Later : (ks : List Call) (c : SimulationClock) → Later c (run ks c)
run-Later [] c = record { time = omega arith; real = omega arith; valid = λ v. v }
run-Later (k ∷ ks) c =
    let one = after-Later k c in
    let rest = run-Later ks (after k c) in
    record {
      time = omega (arith, one.time, rest.time);
      real = omega (arith, one.real, rest.real);
      valid = λ v. rest.valid (one.valid v);
    }

-- Any calls but `reset`, with any arguments, refused calls included: neither clock runs back, and
-- the fraction stays below a millisecond.
pub run_monotone :
    (ks : List Call) (c : SimulationClock)
    → IsValid c
    → (c.simulation_time_ms ≤ (run ks c).simulation_time_ms)
      × (c.last_real_time_ms ≤ (run ks c).last_real_time_ms)
      × IsValid (run ks c)
run_monotone ks c v = let l = run-Later ks c in (l.time, l.real, l.valid v)

-- A pause and a resume at a later safe real time: the stretch between them does not count, and the
-- fraction that had been reached is kept.
pub pause-resume :
    (c : SimulationClock) (pause_ms resume_ms : ℕ)
    → c.last_real_time_ms ≤ pause_ms
    → pause_ms ≤ resume_ms
    → resume_ms ≤ max_safe_integer
    → let paused_at = (tick pause_ms c).1 in
      let c' = (resume resume_ms (pause pause_ms c).1).1 in
      (elapsed_quarters c' ≡ elapsed_quarters paused_at)
      × (c'.paused ≡ false)
      × (c'.last_real_time_ms ≡ resume_ms)
unfolding tick pause resume
pause-resume c pause_ms resume_ms h k safe = (ground arith, ground arith, ground arith)
