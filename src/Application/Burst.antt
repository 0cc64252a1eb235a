-- ===== src/Application/Burst.antt =====
-- apps/api/src/application/burst.ts: a burst of jobs from a seed. The hash behind an id, the rounding
-- of a logarithm and the normal sample are arguments; the workload's hash is left out. A random
-- number is a 32-bit state over 2^32, and a ratio is the smallest state whose number is not below it.
pub mod Random
pub mod Generated
pub mod Returns
mod Samples
use Prim.Native.Nat.{bit_xor}
use os_mini_project.Common.{
  ℕ, zero, suc, ◌+◌, ◌-◌, ◌*◌, ◌/◌, ◌%◌, ◌^◌, min, max, Bool, true, false, Option, none, some, List,
  [], ◌∷◌, ◌++◌, ltb, leb, ◌==◌, if◌then◌else◌, Result, ok, err,
}
use os_mini_project.Entities.{Uuid, ColorMode, mono, color, Failure, range_error}
use os_mini_project.Coordinator.State.{JobSubmission, SubmitJobInput}

-- `distributionSchema`; the mean and the deviation of a normal one are only passed on.
pub data Distribution : Type 0 where
  fixed : ℕ → Distribution
  uniform bounded_normal : ℕ → ℕ → Distribution

pub data Arrival : Type 0 where
  simultaneous : Arrival
  uniform_interval poisson : ℕ → Arrival

-- `CreateBurstRequest`, without the mode.
pub record CreateBurstRequest : Type 0 where
  pub seed : ℕ
  pub count : ℕ
  pub arrival : Arrival
  pub pages : Distribution
  pub priority : Distribution
  pub color_ratio : ℕ
  pub duplex_ratio : ℕ
  pub name_prefix : List ℕ

-- `xorshift32`: the first state, and the next. `>>> 0` is the state as a number without sign.
abbrev pub first_state : ℕ → ℕ
first_state seed = if seed == 0 then 0x9e3779b9 else seed

abbrev pub shift_left_13 : ℕ → ℕ
shift_left_13 state = bit_xor state ((state * 2 ^ 13) % 2 ^ 32)

abbrev pub shift_right_17 : ℕ → ℕ
shift_right_17 state = bit_xor state (state / 2 ^ 17)

abbrev pub shift_left_5 : ℕ → ℕ
shift_left_5 state = bit_xor state ((state * 2 ^ 5) % 2 ^ 32)

unfoldable pub next_state : ℕ → ℕ
next_state state = shift_left_5 (shift_right_17 (shift_left_13 state))

-- `Math.floor(random() * (max - min + 1))`
abbrev pub scaled : ℕ → ℕ → ℕ
scaled state n = (state * n) / 2 ^ 32

-- Decimal digits; the fuel is more than the number has of them.
abbrev pub digits_of : ℕ → ℕ → List ℕ
digits_of zero n = []
digits_of (suc fuel) n =
    let rest = digits_of fuel (n / 10) in
    if ltb n 10 then (48 + n) ∷ [] else rest ++ (48 + n % 10) ∷ []

-- What third parties compute: the rounded gap of a Poisson process from a random state and a mean,
-- the rounded normal value from two states (a negative one counts as 0, which the bounds make of
-- it), and the id of a seed and an index.
pub record Numerics : Type 0 where
  pub gap : ℕ → ℕ → ℕ
  pub normal_value : Distribution → ℕ → ℕ → ℕ
  pub deterministic_uuid : ℕ → ℕ → Uuid

-- A delay that is too long throws, and so does what follows.
abbrev pub with_rest :
    Bool → JobSubmission → Result Failure (List JobSubmission) → Result Failure (List JobSubmission)
with_rest true job rest = err range_error
with_rest false job (err e) = err e
with_rest false job (ok jobs) = ok (job ∷ jobs)

module _ (m : Numerics) where
  -- `sample`, with the state behind it.
  unfoldable pub sample : Distribution → ℕ → ℕ × ℕ
  unfolding next_state
  sample (fixed value) state = (value, state)
  sample (uniform low high) state =
      let next = next_state state in (low + scaled next (high - low + 1), next)
  sample (bounded_normal low high) state =
      let first = next_state state in
      let second = next_state first in
      (max low (min high (m.normal_value (bounded_normal low high) first second)), second)

  -- The delay of the next job, with the state behind it.
  unfoldable pub next_delay : Arrival → ℕ → ℕ → ℕ → ℕ × ℕ
  unfolding next_state
  next_delay arrival zero delay_ms state = (delay_ms, state)
  next_delay simultaneous (suc index) delay_ms state = (delay_ms, state)
  next_delay (uniform_interval interval_ms) (suc index) delay_ms state =
      (delay_ms + interval_ms, state)
  next_delay (poisson mean_ms) (suc index) delay_ms state =
      let next = next_state state in (delay_ms + max 1 (m.gap next mean_ms), next)

  -- A submission of the burst, from the state behind its delay.
  unfoldable pub submission : CreateBurstRequest → Uuid → ℕ → ℕ → ℕ → JobSubmission × ℕ
  unfolding sample next_state
  submission request owner_id index delay_ms state =
      let (pages, after_pages) = sample request.pages state in
      let (priority, after_priority) = sample request.priority after_pages in
      let colored = next_state after_priority in
      let duplexed = next_state colored in
      (
        record {
          id = m.deterministic_uuid request.seed index;
          owner_id = owner_id;
          input = record {
            document_name = request.name_prefix ++ 32 ∷ digits_of (index + 1) (index + 1);
            pages = pages;
            base_priority = priority;
            color_mode = if ltb colored request.color_ratio then color else mono;
            duplex = ltb duplexed request.duplex_ratio;
            arrival_delay_ms = delay_ms;
          };
        },
        duplexed,
      )

  -- The rest of the burst from an index on.
  unfoldable pub submissions_from :
      CreateBurstRequest → Uuid → ℕ → ℕ → ℕ → ℕ → Result Failure (List JobSubmission)
  unfolding next_delay submission
  submissions_from request owner_id zero index delay_ms state = ok []
  submissions_from request owner_id (suc n) index delay_ms state =
      let (delay, after_delay) = next_delay request.arrival index delay_ms state in
      let (job, after_job) = submission request owner_id index delay after_delay in
      let rest = submissions_from request owner_id n (index + 1) delay after_job in
      with_rest (ltb 3_600_000 delay) job rest

  -- `generateBurst`
  unfoldable pub generate_burst : CreateBurstRequest → Uuid → Result Failure (List JobSubmission)
  unfolding submissions_from
  generate_burst request owner_id =
      submissions_from request owner_id request.count 0 0 (first_state request.seed)
