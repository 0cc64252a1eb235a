-- ===== src/Application/Benchmark/Schedule.antt =====
-- The rounds of the benchmark: what the progress keeps, and that they end with every job printed.
use mathlib.Core.List.{Perm, append_assoc, map-append}
use mathlib.Core.List.Perm
use os_mini_project.Common.{
  ℕ, suc, ◌+◌, ◌%◌, ◌==◌, ◌&&◌, ◌≤◌, ◌<◌, ◌≡◌, refl, sym, ◌∙◌, ap, subst, inl, inr, ◌⊎◌, Bool, true,
  List, [], ◌∷◌, ◌++◌, map, length, length-append, All, max, arith, leb, Bool-cases, Result, ok,
  err,
}
use os_mini_project.Common.Sort.{sort}
use os_mini_project.Common.Sort.Laws.{length-sort}
use os_mini_project.Common.Sort.Entries.{All-map, All-append, All-both}
use os_mini_project.Entities.{SchedulingAlgorithm, Failure, range_error}
use os_mini_project.Application.Benchmark.{
  Aging, BenchmarkJob, BenchmarkPrinter, BenchmarkJobResult, PrinterModel, Progress, start_of,
  sooner, arrived, take_best, print_job, print_best, next_job, round, compare_jobs, waiting_until,
}
use os_mini_project.Application.Benchmark.Rounds.{
  arrived-append, arrived-All, arrived-keeps, take_best-perm, take_best-All, take_best-length,
}
use os_mini_project.Application.Benchmark.Slots.{
  IsRun, IsBooking, sort-IsBooking, taken_ms, taken_ms-sort, append-IsBooking,
}

-- The jobs that are not yet printed.
abbrev pub open_jobs : Progress → List BenchmarkJob
open_jobs p = p.ready ++ p.arrivals

one_less :
    (left to_come ready come arrivals : List BenchmarkJob) (job : BenchmarkJob)
    (jobs : List BenchmarkJob)
    → come ++ to_come ≡ arrivals
    → ready ++ come ≡ job ∷ jobs
    → suc (length left) ≡ length (job ∷ jobs)
    → length (left ++ to_come) + 1 ≡ length (ready ++ arrivals)
one_less left to_come ready come arrivals job jobs all some_job one = omega (
  arith,
  one,
  ap length some_job,
  ap length all,
  length-append left to_come,
  length-append ready come,
  length-append come to_come,
  length-append ready arrivals,
)

-- With an open job, some job is ready when the round starts.
someone_ready :
    (ready arrivals : List BenchmarkJob) (available_at time now_ms : ℕ)
    → max available_at (max time (waiting_until ready arrivals available_at)) ≤ now_ms
    → 0 < length (ready ++ arrivals)
    → (job : BenchmarkJob) × (jobs : List BenchmarkJob) × (ready ++ (arrived now_ms arrivals).0
        ≡ job ∷ jobs)
unfolding arrived
someone_ready (job ∷ jobs) arrivals available_at time now_ms h k = (job, _, refl)
someone_ready [] [] available_at time now_ms h k = absurd (omega (arith, k))
someone_ready [] (job ∷ jobs) available_at time now_ms h k =
    let come : leb job.arrival_time_ms now_ms ≡ true = ground (arith, h) in
    (job, (arrived now_ms jobs).0, rw come refl)

module _ (model : PrinterModel) (P : BenchmarkJob → Type 0) (jobs : List BenchmarkJob) where
  -- What holds between the rounds.
  pub record IsProgress (p : Progress) : Type 0 where
    pub booking : IsBooking p.printers p.completed
    pub machines : length p.printers ≡ model.count
    pub waits : All (λ job. P job × (job.arrival_time_ms ≤ p.simulation_time_ms)) p.ready
    pub comes : All P p.arrivals
    pub runs : All (IsRun model P) p.completed
    pub ids :
        Perm
          (map (λ r. r.job_id) p.completed ++ map (λ job. job.id) (open_jobs p))
          (map (λ job. job.id) jobs)
    pub busy : p.service_ms ≤ taken_ms p.printers

  ids-step :
      (done : List BenchmarkJobResult) (r : BenchmarkJobResult) (taken : BenchmarkJob)
      (left ready come to_come arrivals : List BenchmarkJob)
      → r.job_id ≡ taken.id
      → come ++ to_come ≡ arrivals
      → Perm (taken ∷ left) (ready ++ come)
      → Perm
          (map (λ r. r.job_id) done ++ map (λ job. job.id) (ready ++ arrivals))
          (map (λ job. job.id) jobs)
      → Perm
          (map (λ r. r.job_id) (done ++ r ∷ []) ++ map (λ job. job.id) (left ++ to_come))
          (map (λ job. job.id) jobs)
  ids-step done r taken left ready come to_come arrivals same all perm ids =
      rw (map-append (λ (r : BenchmarkJobResult). r.job_id) done (r ∷ []), append_assoc, same)
        (Perm.trans
          (Perm.append_left (map (λ r. r.job_id) done) (
            subst
              (λ zs.
                Perm (map (λ job. job.id) ((taken ∷ left) ++ to_come)) (map (λ job. job.id) zs))
              (append_assoc ready come to_come ∙ ap (λ zs. ready ++ zs) all)
              (Perm.map _ (Perm.append_right to_come perm))))
          ids)

  print_job-IsProgress :
      (p : Progress) (now_ms : ℕ) (printer : BenchmarkPrinter) (others : List BenchmarkPrinter)
      (come to_come : List BenchmarkJob) (taken : BenchmarkJob) (left : List BenchmarkJob)
      → IsProgress p
      → IsBooking (printer ∷ others) p.completed
      → length (printer ∷ others) ≡ model.count
      → p.service_ms ≤ taken_ms (printer ∷ others)
      → printer.available_at ≤ now_ms
      → come ++ to_come ≡ p.arrivals
      → Perm (taken ∷ left) (p.ready ++ come)
      → All (λ job. P job × (job.arrival_time_ms ≤ now_ms)) (taken ∷ left)
      → All P to_come
      → IsProgress (print_job model p now_ms printer others to_come (taken, left))
  unfolding print_job
  print_job-IsProgress p now_ms printer others come to_come taken left h b n busy free all perm
        (now, later) comes =
      record {
        booking = append-IsBooking printer others p.completed _ b refl free (omega arith);
        machines = n;
        waits = later;
        comes = comes;
        runs =
            All-append (IsRun model P) p.completed _ h.runs
              ((taken, now.0, refl, omega (arith, now.1), refl, omega (arith, now.1)), tt);
        ids = ids-step p.completed _ taken left p.ready come to_come p.arrivals refl all perm h.ids;
        busy = omega (arith, busy, free);
      }

  module _ (algorithm : SchedulingAlgorithm) (aging : Aging) where
    -- A round prints one of the jobs that are open.
    abbrev IsRound : Progress → Result Failure Progress → Type 0
    IsRound p result =
        (q : Progress) × (result ≡ ok q)
        × IsProgress q
        × (length (open_jobs q) + 1 ≡ length (open_jobs p))

    waits-later :
        (now_ms : ℕ) (p : Progress)
        → IsProgress p
        → p.simulation_time_ms ≤ now_ms
        → All
            (λ job. P job × (job.arrival_time_ms ≤ now_ms))
            (p.ready ++ (arrived now_ms p.arrivals).0)
    waits-later now_ms p h before =
        All-append (λ job. P job × (job.arrival_time_ms ≤ now_ms)) p.ready _
          (All-map _ _ p.ready (λ job (known, came). (known, omega (arith, came, before))) h.waits)
          (All-both P (λ job. job.arrival_time_ms ≤ now_ms) _
            (arrived-keeps P now_ms p.arrivals h.comes).0 (arrived-All now_ms p.arrivals))

    next_job-IsRound :
        (p : Progress) (printer : BenchmarkPrinter) (others : List BenchmarkPrinter)
        → IsProgress p
        → IsBooking (printer ∷ others) p.completed
        → length (printer ∷ others) ≡ model.count
        → p.service_ms ≤ taken_ms (printer ∷ others)
        → 0 < length (open_jobs p)
        → IsRound p (next_job algorithm model aging p (printer ∷ others))
    unfolding print_job next_job print_best
    next_job-IsRound p printer others h b n busy more =
        let now_ms = start_of p printer in
        let come = (arrived now_ms p.arrivals).0 in
        let to_come = (arrived now_ms p.arrivals).1 in
        let (job, jobs, some_job) =
          someone_ready p.ready p.arrivals printer.available_at p.simulation_time_ms now_ms
            (omega arith) more in
        let cmp = compare_jobs algorithm now_ms aging in
        let taken = (take_best cmp [] job [] jobs).0 in
        let left = (take_best cmp [] job [] jobs).1 in
        let known =
          subst (All (λ job. P job × (job.arrival_time_ms ≤ now_ms))) some_job
            (waits-later now_ms p h (omega arith)) in
        (
          print_job model p now_ms printer others to_come (taken, left),
          ap (print_best algorithm model aging p now_ms printer others to_come) some_job,
          print_job-IsProgress p now_ms printer others come to_come taken left h b n busy
              (omega arith) (arrived-append now_ms p.arrivals)
              (subst (Perm (taken ∷ left)) (sym some_job) (take_best-perm cmp [] job [] jobs))
              (take_best-All cmp _ [] job [] jobs tt known.0 tt known.1)
              (arrived-keeps P now_ms p.arrivals h.comes).1,
          one_less left to_come p.ready come p.arrivals job jobs (arrived-append now_ms p.arrivals)
              some_job (take_best-length cmp [] job [] jobs),
        )

    free_printer :
        (p : Progress) (free : List BenchmarkPrinter)
        → IsProgress p
        → IsBooking free p.completed
        → length free ≡ model.count
        → p.service_ms ≤ taken_ms free
        → 0 < model.count
        → 0 < length (open_jobs p)
        → IsRound p (next_job algorithm model aging p free)
    free_printer p [] h b n busy some_machine more = absurd (omega arith)
    free_printer p (printer ∷ others) h b n busy some_machine more =
        next_job-IsRound p printer others h b n busy more

    pub round-IsRound :
        (late : ℕ → Bool) (p : Progress)
        → IsProgress p
        → 0 < model.count
        → 0 < length (open_jobs p)
        → (((late (length p.completed) ≡ true)
              × (round late algorithm model aging p ≡ err range_error))
            ⊎ IsRound p (round late algorithm model aging p))
    unfolding round
    round-IsRound late p h some_machine more =
        let b = sort-IsBooking p.printers p.completed h.booking in
        let n = length-sort sooner p.printers ∙ h.machines in
        elim (Bool-cases (length p.completed % 256 == 0 && late (length p.completed))) [
          | inl over ↦ inl (ground arith, rw over refl)
          | inr going ↦ inr (
              rw going (
                free_printer p (sort sooner p.printers) h b n
                  (omega (arith, h.busy, taken_ms-sort p.printers)) some_machine more))
        ]
