-- ===== src/Metrics.antt =====
-- apps/api/src/domain/metrics.ts. A quotient of two whole numbers is kept as a fraction; the
-- fairness index is computed in doubles, as in the code. Samples are whole milliseconds, as the code's callers give them.
pub mod Laws
mod Samples
use os_mini_project.Common.{
  ℕ, ◌+◌, ◌-◌, ◌*◌, ◌/◌, ◌%◌, compare, Bool, true, false, ◌||◌, not, Option, none, some, List, [],
  ◌∷◌, ltb, ◌==◌, if◌then◌else◌, is_safe_integer, ceil_div, length, get_elem?, or_default, Result,
  ok, err,
}
use os_mini_project.Common.Double.{Double, of_nat, sum_of, product_of, quotient_of}
use os_mini_project.Common.Sort.{sort}
use os_mini_project.Entities.{Failure, range_error}

pub record Ratio : Type 0 where
  pub num : ℕ
  pub den : ℕ

pub record JobTimingInput : Type 0 where
  pub arrival_ms : ℕ
  pub first_start_ms : ℕ
  pub completion_ms : ℕ
  pub service_ms : ℕ

pub record JobTiming : Type 0 where
  pub response_ms : ℕ
  pub wait_ms : ℕ
  pub service_ms : ℕ
  pub turnaround_ms : ℕ

pub record DistributionSummary : Type 0 where
  pub average : Option Ratio
  pub median : Option Ratio
  pub p95 : Option ℕ

-- `calculateJobTiming`
unfoldable pub calculate_job_timing : JobTimingInput → Result Failure JobTiming
calculate_job_timing input =
    let turnaround_ms = input.completion_ms - input.arrival_ms in
    if not (is_safe_integer input.arrival_ms)
      || not (is_safe_integer input.first_start_ms)
      || not (is_safe_integer input.completion_ms)
      || not (is_safe_integer input.service_ms)
    then err range_error
    else if ltb input.first_start_ms input.arrival_ms
        || ltb input.completion_ms input.first_start_ms
    then err range_error
    else if ltb turnaround_ms input.service_ms
    then err range_error
    else ok (record {
      response_ms = input.first_start_ms - input.arrival_ms;
      wait_ms = turnaround_ms - input.service_ms;
      service_ms = input.service_ms;
      turnaround_ms = turnaround_ms;
    })

abbrev pub sum : List ℕ → ℕ
sum [] = 0
sum (x ∷ xs) = x + sum xs

abbrev pub average_of : List ℕ → Ratio
average_of values = record { num = sum values; den = length values }

-- The median of sorted values, in halves.
unfoldable pub median_of : List ℕ → Ratio
median_of sorted =
    let middle = length sorted / 2 in
    record {
      num =
          if length sorted % 2 == 1
          then 2 * or_default (get_elem? sorted middle) 0
          else or_default (get_elem? sorted (middle - 1)) 0
            + or_default (get_elem? sorted middle) 0;
      den = 2;
    }

-- `Math.ceil(sorted.length * 0.95) - 1`: the product with the double 0.95 rounds to the whole number
-- where 95 % of the length is one, so this is the exact value.
abbrev pub p95_index : ℕ → ℕ
p95_index n = ceil_div (19 * n) 20 - 1

-- `summarize`
unfoldable pub summarize : List ℕ → DistributionSummary
unfolding median_of
summarize [] = record { average = none; median = none; p95 = none }
summarize (v ∷ vs) =
    let values = v ∷ vs in
    let sorted = sort compare values in
    record {
      average = some (average_of values);
      median = some (median_of sorted);
      p95 = get_elem? sorted (p95_index (length sorted));
    }

-- `throughputJobsPerMinute`
unfoldable pub throughput_jobs_per_minute : ℕ → ℕ → Result Failure (Option Ratio)
throughput_jobs_per_minute completed_jobs elapsed_ms =
    if not (is_safe_integer completed_jobs)
    then err range_error
    else if not (is_safe_integer elapsed_ms)
    then err range_error
    else if elapsed_ms == 0
    then ok none
    else ok (some (record { num = completed_jobs * 60_000; den = elapsed_ms }))

-- `1 / (1 + wait)`
unfoldable pub score : ℕ → Double
unfolding of_nat quotient_of
score wait = quotient_of (of_nat 1) (of_nat (1 + wait))

-- The two reductions of `fairnessIndex`.
unfoldable pub add_scores : Double → List ℕ → Double
unfolding score sum_of
add_scores acc [] = acc
add_scores acc (w ∷ ws) = add_scores (sum_of acc (score w)) ws

unfoldable pub add_squares : Double → List ℕ → Double
unfolding score sum_of product_of
add_squares acc [] = acc
add_squares acc (w ∷ ws) = add_squares (sum_of acc (product_of (score w) (score w))) ws

-- `fairnessIndex`
unfoldable pub fairness_index : List ℕ → Option Double
unfolding add_scores add_squares of_nat product_of quotient_of
fairness_index [] = none
fairness_index (w ∷ ws) =
    let total = add_scores (of_nat 0) (w ∷ ws) in
    let squares = add_squares (of_nat 0) (w ∷ ws) in
    some (quotient_of (product_of total total) (product_of (of_nat (length (w ∷ ws))) squares))

-- `printerUtilization`
unfoldable pub printer_utilization : ℕ → ℕ → Result Failure (Option Ratio)
printer_utilization busy_ms online_ms =
    if not (is_safe_integer busy_ms)
    then err range_error
    else if not (is_safe_integer online_ms)
    then err range_error
    else if ltb online_ms busy_ms
    then err range_error
    else if online_ms == 0
    then ok none
    else ok (some (record { num = busy_ms; den = online_ms }))
