-- ===== src/Application/Benchmark.antt =====
-- apps/api/src/application/benchmark.ts: a workload is run through an algorithm on identical
-- printers. `performance.now() > deadline` is an argument: whether the time is over when an algorithm
-- has so many jobs complete. The workload's hash, the seed and the benchmark's id are only passed on. The numbers
-- that the code divides are kept as fractions, but for the durations and the fairness index, which are
-- computed in doubles.
pub mod Rounds
mod Samples
pub mod Slots
pub mod Schedule
pub mod Runs
use os_mini_project.Common.{
  ℕ, zero, suc, ◌+◌, ◌-◌, ◌*◌, ◌/◌, ◌%◌, min, max, compare, Ordering, Bool, true, false, ◌||◌, ◌&&◌,
  not, Option, none, some, List, [], ◌∷◌, ◌++◌, map, ltb, leb, ◌==◌, if◌then◌else◌, length, any,
  count, or_default, Result, ok, err,
}
use os_mini_project.Common.Sort.{sort, is_lt, then_by}
use os_mini_project.Entities.{
  Uuid, ColorMode, is_mono, SchedulingAlgorithm, fcfs, sjf, priority_aging, Failure, range_error,
  type_error, rate_unit,
}
use os_mini_project.Common.Double.{Double, of_nat, ceil_quotient}
use os_mini_project.Metrics.{Ratio, DistributionSummary, summarize, fairness_index, sum, average_of}

-- `BenchmarkJob` of packages/contracts/src/requests.ts
pub record BenchmarkJob : Type 0 where
  pub id : Uuid
  pub arrival_time_ms : ℕ
  pub pages : ℕ
  pub priority : ℕ
  pub color_mode : ColorMode
  pub duplex : Bool

-- `printerModel`; the speed counts the units of Entities.
pub record PrinterModel : Type 0 where
  pub count : ℕ
  pub pages_per_minute : ℕ
  pub supports_color : Bool
  pub supports_duplex : Bool

pub record Aging : Type 0 where
  pub aging_interval_ms : ℕ
  pub aging_factor : ℕ
  pub priority_cap : ℕ

-- The part of `BenchmarkRequest` that is read.
pub record BenchmarkRequest : Type 0 where
  pub algorithms : List SchedulingAlgorithm
  pub printer_model : PrinterModel
  pub aging : Option Aging

abbrev pub default_aging : Aging
default_aging = record { aging_interval_ms = 5_000; aging_factor = 2; priority_cap = 100 }

-- `effectivePriority`; a ready job has arrived, so the difference is not negative.
abbrev pub effective_priority : BenchmarkJob → ℕ → Aging → ℕ
effective_priority job now_ms aging =
    min aging.priority_cap (
      job.priority
      + ((now_ms - job.arrival_time_ms) / aging.aging_interval_ms) * aging.aging_factor)

-- The order of the workload, and the end of `compare`.
abbrev pub by_arrival : BenchmarkJob → BenchmarkJob → Ordering
by_arrival left right =
    then_by (compare left.arrival_time_ms right.arrival_time_ms) (compare left.id right.id)

-- `compare`
abbrev pub compare_jobs : SchedulingAlgorithm → ℕ → Aging → BenchmarkJob → BenchmarkJob → Ordering
compare_jobs fcfs now_ms aging left right = by_arrival left right
compare_jobs sjf now_ms aging left right =
    then_by (compare left.pages right.pages) (by_arrival left right)
compare_jobs priority_aging now_ms aging left right =
    then_by (compare (effective_priority right now_ms aging) (effective_priority left now_ms aging))
      (by_arrival left right)

pub record BenchmarkPrinter : Type 0 where
  pub id : ℕ
  pub available_at : ℕ

-- An entry of `completed`.
pub record BenchmarkJobResult : Type 0 where
  pub job_id : Uuid
  pub printer : ℕ
  pub start_ms : ℕ
  pub end_ms : ℕ
  pub wait_ms : ℕ
  pub turnaround_ms : ℕ

-- The variables of the loop of `evaluate`. `arrivals` are those from `arrivalIndex` on.
pub record Progress : Type 0 where
  pub arrivals : List BenchmarkJob
  pub ready : List BenchmarkJob
  pub printers : List BenchmarkPrinter
  pub completed : List BenchmarkJobResult
  pub simulation_time_ms : ℕ
  pub service_ms : ℕ

abbrev pub sooner : BenchmarkPrinter → BenchmarkPrinter → Ordering
sooner left right =
    then_by (compare left.available_at right.available_at) (compare left.id right.id)

-- `arrivals[arrivalIndex]?.arrivalTimeMs ?? printer.availableAt`
abbrev pub next_arrival : List BenchmarkJob → ℕ → ℕ
next_arrival [] available_at = available_at
next_arrival (job ∷ _) available_at = job.arrival_time_ms

abbrev pub waiting_until : List BenchmarkJob → List BenchmarkJob → ℕ → ℕ
waiting_until [] arrivals available_at = next_arrival arrivals available_at
waiting_until (_ ∷ _) arrivals available_at = available_at

-- `now`
abbrev pub start_of : Progress → BenchmarkPrinter → ℕ
start_of p printer =
    max printer.available_at
      (max p.simulation_time_ms (waiting_until p.ready p.arrivals printer.available_at))

-- The loop that moves arrived jobs to `ready`: what has arrived, and what is still to come.
unfoldable pub arrived : ℕ → List BenchmarkJob → List BenchmarkJob × List BenchmarkJob
arrived now_ms [] = ([], [])
arrived now_ms (job ∷ jobs) =
    let rest = arrived now_ms jobs in
    if leb job.arrival_time_ms now_ms then (job ∷ rest.0, rest.1) else ([], job ∷ jobs)

-- The selection and the `splice`: the first of the best jobs, and the others in their order.
-- `before` are the jobs in front of the best one, and `behind` those seen behind it.
unfoldable pub take_best :
    (BenchmarkJob → BenchmarkJob → Ordering)
    → List BenchmarkJob
    → BenchmarkJob
    → List BenchmarkJob
    → List BenchmarkJob
    → BenchmarkJob × List BenchmarkJob
take_best cmp before best behind [] = (best, before ++ behind)
take_best cmp before best behind (job ∷ jobs) = elim (is_lt (cmp job best)) [
  | true ↦ take_best cmp (before ++ best ∷ behind) job [] jobs
  | false ↦ take_best cmp before best (behind ++ job ∷ []) jobs
]

-- `Math.ceil((job.pages * 60_000) / request.printerModel.pagesPerMinute)`
abbrev pub duration_of : BenchmarkJob → PrinterModel → ℕ
unfolding ceil_quotient
duration_of job model = ceil_quotient (job.pages * 60_000 * rate_unit) model.pages_per_minute

-- The end of a round: the job is printed from `now_ms` on.
unfoldable pub print_job :
    PrinterModel
    → Progress
    → ℕ
    → BenchmarkPrinter
    → List BenchmarkPrinter
    → List BenchmarkJob
    → BenchmarkJob × List BenchmarkJob
    → Progress
print_job model p now_ms printer others to_come (job, ready) =
    let end_ms = now_ms + duration_of job model in
    record {
      arrivals = to_come;
      ready = ready;
      printers = record { id = printer.id; available_at = end_ms } ∷ others;
      completed =
          p.completed
          ++ record {
            job_id = job.id;
            printer = printer.id;
            start_ms = now_ms;
            end_ms = end_ms;
            wait_ms = now_ms - job.arrival_time_ms;
            turnaround_ms = end_ms - job.arrival_time_ms;
          }
            ∷ [];
      simulation_time_ms = now_ms;
      service_ms = p.service_ms + duration_of job model;
    }

-- With no job ready, `job` is undefined and `job.pages` throws.
abbrev pub print_best :
    SchedulingAlgorithm
    → PrinterModel
    → Aging
    → Progress
    → ℕ
    → BenchmarkPrinter
    → List BenchmarkPrinter
    → List BenchmarkJob
    → List BenchmarkJob
    → Result Failure Progress
unfolding print_job take_best
print_best algorithm model aging p now_ms printer others to_come [] = err type_error
print_best algorithm model aging p now_ms printer others to_come (job ∷ jobs) = ok (
    print_job model p now_ms printer others to_come
      (take_best (compare_jobs algorithm now_ms aging) [] job [] jobs))

-- With no printer, `printer.availableAt` throws.
abbrev pub next_job :
    SchedulingAlgorithm
    → PrinterModel
    → Aging
    → Progress
    → List BenchmarkPrinter
    → Result Failure Progress
unfolding arrived print_job take_best
next_job algorithm model aging p [] = err type_error
next_job algorithm model aging p (printer ∷ others) =
    let now_ms = start_of p printer in
    let (come, to_come) = arrived now_ms p.arrivals in
    print_best algorithm model aging p now_ms printer others to_come (p.ready ++ come)

-- One round of the loop. `late` says whether the deadline has passed.
unfoldable pub round :
    (ℕ → Bool) → SchedulingAlgorithm → PrinterModel → Aging → Progress → Result Failure Progress
unfolding arrived print_job take_best sort
round late algorithm model aging p =
    if length p.completed % 256 == 0 && late (length p.completed)
    then err range_error
    else next_job algorithm model aging p (sort sooner p.printers)

-- The loop: each round completes one job, so there are as many rounds as jobs.
unfoldable pub rounds :
    (ℕ → Bool) → SchedulingAlgorithm → PrinterModel → Aging → ℕ → Progress → Result Failure Progress
unfolding round
rounds late algorithm model aging zero p = ok p
rounds late algorithm model aging (suc n) p = elim (round late algorithm model aging p) [
  | err e ↦ err e
  | ok q ↦ rounds late algorithm model aging n q
]

-- `Array.from({ length: count }, (_, index) => ({ id: index + 1, availableAt: 0 }))`
unfoldable pub fresh_printers : ℕ → ℕ → List BenchmarkPrinter
fresh_printers id zero = []
fresh_printers id (suc n) = record { id = id; available_at = 0 } ∷ fresh_printers (id + 1) n

abbrev pub beginning : PrinterModel → List BenchmarkJob → Progress
unfolding fresh_printers
beginning model jobs = record {
  arrivals = sort by_arrival jobs;
  ready = [];
  printers = fresh_printers 1 model.count;
  completed = [];
  simulation_time_ms = 0;
  service_ms = 0;
}

-- `Math.max(...values)` of values that are not negative.
abbrev pub maximum : List ℕ → ℕ
maximum [] = 0
maximum (x ∷ xs) = max x (maximum xs)

pub record BenchmarkMetrics : Type 0 where
  pub average_wait_ms : Ratio
  pub median_wait_ms : Ratio
  pub p95_wait_ms : ℕ
  pub maximum_wait_ms : ℕ
  pub average_turnaround_ms : Ratio
  pub makespan_ms : ℕ
  pub throughput_jobs_per_minute : Ratio
  pub printer_utilization : Ratio
  pub fairness_index : Double
  pub starvation_count : ℕ

pub record Evaluation : Type 0 where
  pub algorithm : SchedulingAlgorithm
  pub metrics : BenchmarkMetrics
  pub jobs : List BenchmarkJobResult

abbrev pub by_start : BenchmarkJobResult → BenchmarkJobResult → Ordering
by_start left right =
    then_by (compare left.start_ms right.start_ms) (compare left.job_id right.job_id)

abbrev whole : ℕ → Ratio
whole n = record { num = n; den = 1 }

-- `metrics` and `jobs` of the result.
unfoldable pub evaluation_of : SchedulingAlgorithm → PrinterModel → Progress → Evaluation
evaluation_of algorithm model p =
    let completed = sort by_start p.completed in
    let waits = map (λ r. r.wait_ms) completed in
    let makespan_ms = maximum (map (λ r. r.end_ms) completed) in
    let summary = summarize waits in
    record {
      algorithm = algorithm;
      metrics = record {
        average_wait_ms = or_default summary.average (whole 0);
        median_wait_ms = or_default summary.median (whole 0);
        p95_wait_ms = or_default summary.p95 0;
        maximum_wait_ms = maximum waits;
        average_turnaround_ms = average_of (map (λ r. r.turnaround_ms) completed);
        makespan_ms = makespan_ms;
        throughput_jobs_per_minute = record { num = length completed * 60_000; den = makespan_ms };
        printer_utilization = record { num = p.service_ms; den = model.count * makespan_ms };
        fairness_index = or_default (fairness_index waits) (of_nat 1);
        starvation_count = count (λ wait. leb 30_000 wait) waits;
      };
      jobs = completed;
    }

-- `evaluate`
unfoldable pub evaluate :
    (ℕ → Bool)
    → SchedulingAlgorithm
    → BenchmarkRequest
    → List BenchmarkJob
    → Result Failure Evaluation
unfolding rounds evaluation_of fresh_printers
evaluate late algorithm request jobs =
    elim (rounds late algorithm request.printer_model (or_default request.aging default_aging)
      (length (sort by_arrival jobs)) (beginning request.printer_model jobs)) [
        | err e ↦ err e
        | ok p ↦ ok (evaluation_of algorithm request.printer_model p)
      ]

abbrev misfits : PrinterModel → BenchmarkJob → Bool
misfits model job =
    (not (is_mono job.color_mode) && not model.supports_color)
    || (job.duplex && not model.supports_duplex)

unfoldable pub evaluate_all :
    (SchedulingAlgorithm → ℕ → Bool)
    → List SchedulingAlgorithm
    → BenchmarkRequest
    → List BenchmarkJob
    → Result Failure (List Evaluation)
unfolding evaluate
evaluate_all late [] request jobs = ok []
evaluate_all late (algorithm ∷ algorithms) request jobs =
    let rest = evaluate_all late algorithms request jobs in
    elim (evaluate (late algorithm) algorithm request jobs) [
      | err e ↦ err e
      | ok evaluation ↦ elim rest [ err e ↦ err e | ok more ↦ ok (evaluation ∷ more) ]
    ]

-- `runBenchmark`, as far as its evaluations.
unfoldable pub run_benchmark :
    (SchedulingAlgorithm → ℕ → Bool)
    → BenchmarkRequest
    → List BenchmarkJob
    → Result Failure (List Evaluation)
unfolding evaluate_all
run_benchmark late request jobs =
    if length jobs == 0 || ltb 10_000 (length jobs)
    then err range_error
    else if any (misfits request.printer_model) jobs
    then err range_error
    else evaluate_all late request.algorithms request jobs
