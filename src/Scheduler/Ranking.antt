-- ===== src/Scheduler/Ranking.antt =====
-- The order in which scheduler.ts ranks jobs, and the single pass of `selectNextJob`.
use os_mini_project.Common.{
  ℕ, ◌≡◌, refl, ap, ◌∙◌, Option, none, some, List, [], ◌∷◌, inl, inr, Bool-cases, select, head?,
  Result, ok, err, map_result, fold_result-map,
}
use os_mini_project.Common.Sort.{sort}
use os_mini_project.Common.Sort.Laws.{
  IsComparator, compare-IsComparator, compare-IsComparator_down, then_by-IsComparator, pick,
  pick_all, pick_all-append, pick_all-eq-head,
}
use os_mini_project.Entities.{
  PrintJob, PrinterProfile, DomainSchedulerConfig, SchedulingAlgorithm, fcfs, sjf, priority_aging,
  Failure,
}
use os_mini_project.Scheduler.{
  Candidate, SchedulerRanking, SchedulerSelection, Collected, Scanned, is_online, is_skipped,
  bad_inputs, by_arrival, comparator, better, candidate_for, candidates_for, scan_jobs, visit,
  collect, scan, decision_for, decisions_from, ranking_of, selection_of, rank_jobs, select_next_job,
}

pub by_arrival-IsComparator : IsComparator by_arrival
by_arrival-IsComparator =
    then_by-IsComparator _ _ (compare-IsComparator (λ job. job.queued_at_ms)) (
      then_by-IsComparator _ _ (compare-IsComparator (λ job. job.sequence))
        (compare-IsComparator (λ job. job.id)))

arrival_of : IsComparator {A = Candidate} (λ left right. by_arrival left.job right.job)
arrival_of = then_by-IsComparator _ _ (compare-IsComparator (λ c. c.job.queued_at_ms)) (
    then_by-IsComparator _ _ (compare-IsComparator (λ c. c.job.sequence))
      (compare-IsComparator (λ c. c.job.id)))

-- Every algorithm's comparator is a total preorder: its signs are opposite when its arguments are
-- swapped, it is transitive, and jobs that it does not tell apart compare alike with any third.
pub comparator-IsComparator :
    (algorithm : SchedulingAlgorithm) → IsComparator (comparator algorithm)
comparator-IsComparator fcfs = arrival_of
comparator-IsComparator sjf =
    then_by-IsComparator _ _ (compare-IsComparator (λ c. c.predicted_service_ms)) arrival_of
comparator-IsComparator priority_aging =
    then_by-IsComparator _ _ (compare-IsComparator_down (λ c. c.effective_priority)) arrival_of

-- The scan's accumulator that belongs to what the ranking has collected.
abbrev scanned_of : SchedulingAlgorithm → Collected → Scanned
scanned_of algorithm found = record {
  selected = pick_all (comparator algorithm) none found.candidates;
  blocked = found.blocked;
}

better-eq-pick :
    (algorithm : SchedulingAlgorithm) (best : Option Candidate) (c : Candidate)
    → better algorithm best c ≡ pick (comparator algorithm) best c
better-eq-pick algorithm none c = refl
better-eq-pick algorithm (some b) c = refl

scan-collect :
    (algorithm : SchedulingAlgorithm) (acc : Collected) (job : PrintJob) (found : Option Candidate)
    → scan algorithm (scanned_of algorithm acc) job found
      ≡ scanned_of algorithm (collect acc job found)
scan-collect algorithm acc job none = refl
scan-collect algorithm acc job (some c) = rw (
  pick_all-append (comparator algorithm) none acc.candidates c,
  better-eq-pick algorithm (pick_all (comparator algorithm) none acc.candidates) c,
)

module _ (online : List PrinterProfile) (config : DomainSchedulerConfig) (now_ms : ℕ) where
  visit-scanned :
      (acc : Collected) (job : PrintJob)
      → visit online config now_ms (scan config.algorithm) (scanned_of config.algorithm acc) job
        ≡ map_result (scanned_of config.algorithm) (visit online config now_ms collect acc job)
  visit-scanned acc job = elim (Bool-cases (is_skipped job now_ms)) [
    | inl skipped ↦ rw skipped
    | inr kept ↦ rw kept (found (candidate_for job online config now_ms))
  ]
    where
      found :
          (r : Result Failure (Option Candidate))
          → elim r [
            | err e ↦ err e
            | ok o ↦ ok (scan config.algorithm (scanned_of config.algorithm acc) job o)
          ]
            ≡ map_result
                (scanned_of config.algorithm)
                (elim r [ err e ↦ err e | ok o ↦ ok (collect acc job o) ])
      found (err e) = refl
      found (ok o) = ap ok (scan-collect config.algorithm acc job o)

  scan_jobs-scanned :
      (jobs : List PrintJob)
      → scan_jobs online config now_ms jobs
        ≡ map_result (scanned_of config.algorithm) (candidates_for online config now_ms jobs)
  unfolding scan_jobs candidates_for
  scan_jobs-scanned jobs =
      fold_result-map (scanned_of config.algorithm) (visit online config now_ms collect)
        (visit online config now_ms (scan config.algorithm)) visit-scanned _ jobs

-- What a ranking says about the next job.
abbrev pub first_choice : SchedulerRanking → SchedulerSelection
first_choice ranking = record {
  selected = head? ranking.decisions;
  blocked_job_ids = ranking.blocked_job_ids;
}

head-decisions :
    (algorithm : SchedulingAlgorithm) (cs : List Candidate)
    → head? (decisions_from algorithm 1 cs)
      ≡ elim (head? cs) [ none ↦ none | some c ↦ some (decision_for c algorithm 1) ]
unfolding decisions_from
head-decisions algorithm [] = refl
head-decisions algorithm (c ∷ cs) = refl

selection-first :
    (algorithm : SchedulingAlgorithm) (found : Collected)
    → selection_of algorithm (scanned_of algorithm found)
      ≡ first_choice (ranking_of algorithm found)
selection-first algorithm found = rw (
  pick_all-eq-head (comparator algorithm) (comparator-IsComparator algorithm) found.candidates,
  head-decisions algorithm (sort (comparator algorithm) found.candidates),
)

-- The single pass of `selectNextJob` returns what `rankJobs` would put first, with the same blocked
-- jobs, and throws exactly when `rankJobs` does: for any jobs, printers, configuration and time.
pub select_next_job-eq-first_choice :
    (jobs : List PrintJob) (printers : List PrinterProfile) (config : DomainSchedulerConfig)
    (now_ms : ℕ)
    → select_next_job jobs printers config now_ms
      ≡ map_result first_choice (rank_jobs jobs printers config now_ms)
unfolding select_next_job rank_jobs
select_next_job-eq-first_choice jobs printers config now_ms =
    elim (Bool-cases (bad_inputs config now_ms)) [
      | inl bad ↦ rw bad
      | inr good ↦ rw good (
          ap selects (scan_jobs-scanned (select is_online printers) config now_ms jobs)
          ∙ agree (candidates_for (select is_online printers) config now_ms jobs))
    ]
  where
    selects : Result Failure Scanned → Result Failure SchedulerSelection
    selects = map_result (selection_of config.algorithm)

    agree :
        (r : Result Failure Collected)
        → selects (map_result (scanned_of config.algorithm) r)
          ≡ map_result first_choice (map_result (ranking_of config.algorithm) r)
    agree (ok found) = ap ok (selection-first config.algorithm found)
    agree (err e) = refl
