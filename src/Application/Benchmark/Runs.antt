-- ===== src/Application/Benchmark/Runs.antt =====
-- A whole run of the benchmark, from its beginning to the evaluation.
use mathlib.Core.List.{Perm, Mem, mem-cons_self, mem-cons_of_mem, append-nil}
use mathlib.Core.List.Perm
use os_mini_project.Common.{
  ℕ, zero, suc, ◌+◌, ◌≤◌, ◌*◌, max, ◌<◌, ◌≡◌, refl, subst, inl, inr, ◌⊎◌, Bool, true, List, [], ◌∷◌,
  ◌++◌, map, length, All, arith, Result, ok, err, or_default,
}
use os_mini_project.Common.Sort.{sort, insert}
use os_mini_project.Common.Sort.Laws.{sort-perm}
use os_mini_project.Common.Sort.Entries.{All-map, Pairwise, sort-All, sort-Pairwise}
use os_mini_project.Entities.{SchedulingAlgorithm, Failure, range_error}
use os_mini_project.Application.Benchmark.{
  Aging, BenchmarkJob, BenchmarkJobResult, BenchmarkRequest, PrinterModel, Progress, Evaluation,
  by_arrival, rounds, fresh_printers, beginning, evaluation_of, evaluate, default_aging, by_start,
  maximum,
}
use os_mini_project.Application.Benchmark.Slots.{
  IsRun, Apart, Apart-swap, Different, Within, taken_ms, taken_ms-bound,
}
use os_mini_project.Application.Benchmark.Schedule.{open_jobs, IsProgress, round-IsRound}

fresh_printers-above : (id low n : ℕ) → low < id → All (λ q. low < q.id) (fresh_printers id n)
unfolding fresh_printers
fresh_printers-above id low zero h = tt
fresh_printers-above id low (suc n) h = (h, fresh_printers-above (id + 1) low n (omega arith))

fresh_printers-Different : (id n : ℕ) → Pairwise Different (fresh_printers id n)
unfolding fresh_printers
fresh_printers-Different id zero = tt
fresh_printers-Different id (suc n) = (
  All-map _ _ (fresh_printers (id + 1) n) (λ q above e. omega (arith, above, e))
      (fresh_printers-above (id + 1) id n (omega arith)),
  fresh_printers-Different (id + 1) n,
)

fresh_printers-free : (id n : ℕ) → All (Within []) (fresh_printers id n)
unfolding fresh_printers
fresh_printers-free id zero = tt
fresh_printers-free id (suc n) = (omega arith, fresh_printers-free (id + 1) n)

length-fresh_printers : (id n : ℕ) → length (fresh_printers id n) ≡ n
unfolding fresh_printers
length-fresh_printers id zero = refl
length-fresh_printers id (suc n) = omega (arith, length-fresh_printers (id + 1) n)

beginning-IsProgress :
    (model : PrinterModel) (P : BenchmarkJob → Type 0) (jobs : List BenchmarkJob)
    → All P jobs
    → IsProgress model P jobs (beginning model jobs)
unfolding beginning fresh_printers
beginning-IsProgress model P jobs known = record {
  booking = record {
    different = fresh_printers-Different 1 model.count;
    booked = tt;
    apart = tt;
    within = fresh_printers-free 1 model.count;
  };
  machines = length-fresh_printers 1 model.count;
  waits = tt;
  comes = sort-All by_arrival P jobs known;
  runs = tt;
  ids = Perm.map _ (sort-perm by_arrival jobs);
  busy = omega arith;
}

module _ (model : PrinterModel) (P : BenchmarkJob → Type 0) (jobs : List BenchmarkJob) where
  module _ (algorithm : SchedulingAlgorithm) (aging : Aging) (late : ℕ → Bool) where
    -- The time runs out, or all the jobs are printed.
    abbrev IsEnd : Result Failure Progress → Type 0
    IsEnd result =
        (((k : ℕ) × (late k ≡ true)) × (result ≡ err range_error))
        ⊎ ((q : Progress) × (result ≡ ok q)
            × IsProgress model P jobs q
            × (length (open_jobs q) ≡ 0))

    rounds-IsEnd :
        (n : ℕ) (p : Progress)
        → IsProgress model P jobs p
        → 0 < model.count
        → length (open_jobs p) ≡ n
        → IsEnd (rounds late algorithm model aging n p)
    unfolding rounds
    rounds-IsEnd zero p h some_machine none_left = inr (p, refl, h, none_left)
    rounds-IsEnd (suc n) p h some_machine left =
        elim (round-IsRound model P jobs algorithm aging late p h some_machine (omega arith)) [
          | inl (over, e) ↦ inl ((_, over), rw (e, rounds) refl)
          | inr (q, e, k, one) ↦ rw (e, rounds) (rounds-IsEnd n q k some_machine (omega arith))
        ]

-- The jobs of an evaluation: each of the workload's once, each as long as its pages take, not
-- before it arrives, and no two on one printer at one time. The utilization is at most 1.
pub record IsSchedule (model : PrinterModel) (jobs : List BenchmarkJob) (e : Evaluation)
    : Type 0 where
  pub each_once : Perm (map (λ r. r.job_id) e.jobs) (map (λ job. job.id) jobs)
  pub runs : All (IsRun model (λ job. Mem job jobs)) e.jobs
  pub apart : Pairwise Apart e.jobs
  pub utilization : e.metrics.printer_utilization.num ≤ e.metrics.printer_utilization.den

All-Mem : (jobs : List BenchmarkJob) → All (λ job. Mem job jobs) jobs
All-Mem [] = tt
All-Mem (job ∷ jobs) = (mem-cons_self, All-map _ _ jobs (λ x m. mem-cons_of_mem _ m) (All-Mem jobs))

nothing_open : (jobs : List BenchmarkJob) → length jobs ≡ 0 → jobs ≡ []
nothing_open [] h = refl
nothing_open (job ∷ jobs) h = absurd (omega arith)

maximum-insert :
    (r : BenchmarkJobResult) (rs : List BenchmarkJobResult)
    → maximum (map (λ r. r.end_ms) (insert by_start r rs))
      ≡ max r.end_ms (maximum (map (λ r. r.end_ms) rs))
unfolding insert
maximum-insert r [] = refl
maximum-insert r (a ∷ rs) = ground (arith, maximum-insert r rs)

maximum-sort :
    (rs : List BenchmarkJobResult)
    → maximum (map (λ r. r.end_ms) (sort by_start rs)) ≡ maximum (map (λ r. r.end_ms) rs)
unfolding sort
maximum-sort [] = refl
maximum-sort (r ∷ rs) = omega (arith, maximum-insert r (sort by_start rs), maximum-sort rs)

busy_enough :
    (service taken n count makespan latest : ℕ)
    → service ≤ taken
    → taken ≤ n * latest
    → n ≡ count
    → makespan ≡ latest
    → service ≤ count * makespan
busy_enough service taken n count makespan latest h k e f = rw (← e, f) (omega (arith, h, k))

evaluation_of-IsSchedule :
    (algorithm : SchedulingAlgorithm) (model : PrinterModel) (jobs : List BenchmarkJob)
    (p : Progress)
    → IsProgress model (λ job. Mem job jobs) jobs p
    → length (open_jobs p) ≡ 0
    → IsSchedule model jobs (evaluation_of algorithm model p)
unfolding evaluation_of
evaluation_of-IsSchedule algorithm model jobs p h none_left = record {
  each_once = Perm.trans (Perm.map _ (sort-perm by_start p.completed)) (
      subst (λ zs. Perm zs (map (λ job. job.id) jobs)) (append-nil _)
        (subst
          (λ zs.
            Perm (map (λ r. r.job_id) p.completed ++ map (λ job. job.id) zs)
              (map (λ job. job.id) jobs))
          (nothing_open (open_jobs p) none_left) h.ids));
  runs = sort-All by_start _ p.completed h.runs;
  apart = sort-Pairwise by_start Apart p.completed Apart-swap h.booking.apart;
  utilization =
      busy_enough p.service_ms (taken_ms p.printers) (length p.printers) model.count _ _ h.busy
        (taken_ms-bound p.printers p.completed h.booking.within) h.machines
        (maximum-sort p.completed);
}

-- The evaluation of any workload on some printers returns, unless the time is over after some
-- number of jobs: each job is printed once, from its arrival on at the earliest and as long as its
-- pages take, no printer prints two jobs at one time, and the utilization is at most 1.
pub evaluate-IsSchedule :
    (late : ℕ → Bool) (algorithm : SchedulingAlgorithm) (request : BenchmarkRequest)
    (jobs : List BenchmarkJob)
    → 0 < request.printer_model.count
    → (((k : ℕ) × (late k ≡ true)) × (evaluate late algorithm request jobs ≡ err range_error))
      ⊎ ((e : Evaluation) × (evaluate late algorithm request jobs ≡ ok e)
          × IsSchedule request.printer_model jobs e)
unfolding evaluate beginning
evaluate-IsSchedule late algorithm request jobs some_machine =
    elim (rounds-IsEnd request.printer_model (λ job. Mem job jobs) jobs algorithm
      (or_default request.aging default_aging) late (length (sort by_arrival jobs)) _
      (beginning-IsProgress request.printer_model _ jobs (All-Mem jobs)) some_machine refl) [
        | inl (over, e) ↦ inl (over, rw (e, evaluate) refl)
        | inr (q, e, h, none_left) ↦ inr (
          evaluation_of algorithm request.printer_model q,
          rw (e, evaluate) refl,
          evaluation_of-IsSchedule algorithm request.printer_model jobs q h none_left,
        )
      ]
