-- ===== src/Scheduler/Samples.antt =====
-- Runs of the scheduler on a few jobs.
use os_mini_project.Common.{
  ℕ, ◌≡◌, refl, some, List, [], ◌∷◌, arith, ok, map_result, Ordering, select,
}
use os_mini_project.Common.Double.{ceil_quotient}
use os_mini_project.Common.Sort.{sort, insert}
use os_mini_project.Entities.{PrintJob, PrinterProfile, sjf, priority_aging}
use os_mini_project.Entities.Samples.{ready_job, mono_printer, config_of}
use os_mini_project.Scheduler.{
  is_online, Candidate, rank_jobs, select_next_job, candidates_for, candidate_for,
  predicted_service_ms, twice_median, decisions_from, decision_for, effective_priority_unchecked,
  comparator,
}
use os_mini_project.Scheduler.Ranking.{select_next_job-eq-first_choice, first_choice}
use os_mini_project.Scheduler.Decisions.{rank_jobs-Ranked, Ranked}
use os_mini_project.Scheduler.Aging.{waited_comes_first}

-- A long job that came first, a short one, and one that arrives later.
abbrev three_jobs : List PrintJob
three_jobs = ready_job 1 20 0 ∷ ready_job 2 3 500 ∷ ready_job 3 1 9000 ∷ []

abbrev two_printers : List PrinterProfile
two_printers = mono_printer 7 30 ∷ mono_printer 8 60 ∷ []

select_next_job-eq-first_choice_example :
    select_next_job three_jobs two_printers (config_of sjf) 2000
    ≡ map_result first_choice (rank_jobs three_jobs two_printers (config_of sjf) 2000)
select_next_job-eq-first_choice_example =
    select_next_job-eq-first_choice three_jobs two_printers (config_of sjf) 2000

shortest_first :
    rank_jobs three_jobs two_printers (config_of sjf) 2000
    ≡ ok (record {
      decisions =
          decision_for
            (record {
              job = ready_job 2 3 500;
              effective_priority = 7;
              predicted_service_ms = 4000;
            })
            sjf
            1
          ∷ decision_for
              (record {
                job = ready_job 1 20 0;
                effective_priority = 9;
                predicted_service_ms = 26667;
              })
              sjf
              2
          ∷ [];
      blocked_job_ids = [];
    })
unfolding rank_jobs candidates_for candidate_for predicted_service_ms twice_median ceil_quotient
    sort insert decisions_from decision_for effective_priority_unchecked
shortest_first = refl

rank_jobs-Ranked_example :
    Ranked (select is_online two_printers) (config_of sjf) 2000 three_jobs (record {
      decisions =
          decision_for
            (record {
              job = ready_job 2 3 500;
              effective_priority = 7;
              predicted_service_ms = 4000;
            })
            sjf
            1
          ∷ decision_for
              (record {
                job = ready_job 1 20 0;
                effective_priority = 9;
                predicted_service_ms = 26667;
              })
              sjf
              2
          ∷ [];
      blocked_job_ids = [];
    })
rank_jobs-Ranked_example =
    rank_jobs-Ranked three_jobs two_printers (config_of sjf) 2000 _ shortest_first

abbrev candidate : PrintJob → ℕ → ℕ → Candidate
candidate job effective service = record {
  job = job;
  effective_priority = effective;
  predicted_service_ms = service;
}

-- The older job has waited for ten intervals.
waited_comes_first_example :
    comparator priority_aging
      (candidate (ready_job 1 20 0) 10 26667)
      (candidate (ready_job 2 3 500) 10 4000)
    ≡ Ordering.lt
unfolding candidate_for predicted_service_ms twice_median ceil_quotient sort insert
    effective_priority_unchecked
waited_comes_first_example =
    waited_comes_first (ready_job 1 20 0) (ready_job 2 3 500) two_printers
      (config_of priority_aging) 10_000 (candidate (ready_job 1 20 0) 10 26667)
      (candidate (ready_job 2 3 500) 10 4000) refl refl refl (omega arith) (omega arith)

-- One page at 1.2 pages per minute, which is kept as 5404319552844595 / 2^52, a little less: the
-- quotient rounds to the whole number.
slow_page :
    predicted_service_ms
      (ready_job 1 1 0)
      (record (mono_printer 7 1) { pages_per_minute = 5_404_319_552_844_595 } ∷ [])
    ≡ ok (some 50_000)
unfolding predicted_service_ms
slow_page = refl
