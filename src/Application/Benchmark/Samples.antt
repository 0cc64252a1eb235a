-- ===== src/Application/Benchmark/Samples.antt =====
-- Runs of the benchmark.
use mathlib.Core.List.{Perm}
use os_mini_project.Common.{
  ℕ, ◌*◌, arith, ◌≡◌, Bool, false, true, none, List, [], ◌∷◌, All, ok, err, ◌⊎◌,
}
use os_mini_project.Common.Sort.{is_lt}
use os_mini_project.Entities.{mono, sjf, priority_aging, range_error, rate_unit}
use os_mini_project.Application.Benchmark.{
  BenchmarkJob, BenchmarkRequest, Evaluation, default_aging, evaluate, compare_jobs, take_best,
}
use os_mini_project.Application.Benchmark.Rounds.{take_best-Best}
use os_mini_project.Application.Benchmark.Runs.{IsSchedule, evaluate-IsSchedule}

abbrev job : ℕ → ℕ → ℕ → BenchmarkJob
job id arrival_time_ms pages = record {
  id = id;
  arrival_time_ms = arrival_time_ms;
  pages = pages;
  priority = id;
  color_mode = mono;
  duplex = false;
}

abbrev workload : List BenchmarkJob
workload = job 1 0 5 ∷ job 2 100 1 ∷ job 3 7000 2 ∷ []

abbrev request : BenchmarkRequest
request = record {
  algorithms = sjf ∷ [];
  printer_model = record {
    count = 2;
    pages_per_minute = 60 * rate_unit;
    supports_color = false;
    supports_duplex = false;
  };
  aging = none;
}

abbrev never : ℕ → Bool
never n = false

evaluate-IsSchedule_example :
    (((k : ℕ) × (never k ≡ true)) × (evaluate never sjf request workload ≡ err range_error))
    ⊎ ((e : Evaluation) × (evaluate never sjf request workload ≡ ok e)
        × IsSchedule request.printer_model workload e)
evaluate-IsSchedule_example = evaluate-IsSchedule never sjf request workload (omega arith)

take_best-Best_example :
    let (taken, left) =
      take_best
        (compare_jobs priority_aging 9000 default_aging)
        []
        (job 1 0 5)
        []
        (job 2 100 1 ∷ job 3 7000 2 ∷ []) in
    Perm (taken ∷ left) workload
    × All (λ x. is_lt (compare_jobs priority_aging 9000 default_aging x taken) ≡ false) left
take_best-Best_example =
    take_best-Best priority_aging 9000 default_aging (job 1 0 5) (job 2 100 1 ∷ job 3 7000 2 ∷ [])
