-- ===== src/Scheduler.antt =====
-- apps/api/src/domain/scheduling/scheduler.ts. The explanation's text (`summary`, `tieBreakers`) is
-- left out: it is printed from the fields that are here.
pub mod Ranking
pub mod Decisions
pub mod Aging
mod Samples
use os_mini_project.Common.{
  ℕ, ◌+◌, ◌-◌, ◌*◌, ◌/◌, ◌%◌, min, compare, Ordering, Bool, true, false, ◌||◌, ◌&&◌, not, Option,
  none, some, List, [], ◌∷◌, ◌++◌, map, leb, ltb, ◌==◌, if◌then◌else◌, is_safe_integer, length,
  select, get_elem?, or_default, Result, ok, err, fold_result,
}
use os_mini_project.Common.Double.{nearest, ceil_quotient}
use os_mini_project.Common.Sort.{is_lt, then_by, sort}
use os_mini_project.Entities.{
  Uuid, JobStatus, PrinterStatus, SchedulingAlgorithm, fcfs, sjf, priority_aging, PrintJob,
  PrinterProfile, DomainSchedulerConfig, Failure, range_error, same_job_status, same_printer_status,
  is_mono, is_empty, rate_unit,
}

pub data Criterion : Type 0 where
  arrival predicted_service effective_priority_value : Criterion

pub record SchedulerExplanation : Type 0 where
  pub algorithm : SchedulingAlgorithm
  pub rank : ℕ
  pub criterion : Criterion
  pub primary_value : ℕ

pub record SchedulerDecision : Type 0 where
  pub job_id : Uuid
  pub effective_priority : ℕ
  pub predicted_service_ms : ℕ
  pub explanation : SchedulerExplanation

pub record SchedulerRanking : Type 0 where
  pub decisions : List SchedulerDecision
  pub blocked_job_ids : List Uuid

pub record SchedulerSelection : Type 0 where
  pub selected : Option SchedulerDecision
  pub blocked_job_ids : List Uuid

pub record Candidate : Type 0 where
  pub job : PrintJob
  pub effective_priority : ℕ
  pub predicted_service_ms : ℕ

-- `isOnline`
abbrev pub is_online : PrinterProfile → Bool
is_online printer =
    not (same_printer_status printer.status PrinterStatus.offline)
    && not (same_printer_status printer.status PrinterStatus.error)

abbrev pub supports : PrinterProfile → PrintJob → Bool
supports printer job =
    (is_mono job.color_mode || printer.supports_color)
    && (not job.duplex || printer.supports_duplex)

-- `validateAging` throws.
abbrev pub bad_aging : DomainSchedulerConfig → Bool
bad_aging config =
    not (is_safe_integer config.aging_interval_ms)
    || ltb config.aging_interval_ms 1
    || not (is_safe_integer config.aging_factor)
    || ltb config.aging_factor 1
    || ltb config.priority_cap 1
    || ltb 100 config.priority_cap

-- `validateInputs` throws.
abbrev pub bad_inputs : DomainSchedulerConfig → ℕ → Bool
bad_inputs config now_ms = not (is_safe_integer now_ms) || bad_aging config

-- `effectivePriorityUnchecked`: subtraction stops at 0, as `Math.max(0, ...)` does.
unfoldable pub effective_priority_unchecked : PrintJob → ℕ → DomainSchedulerConfig → ℕ
effective_priority_unchecked job now_ms config = min config.priority_cap (
    job.base_priority
    + ((now_ms - job.queued_at_ms) / config.aging_interval_ms) * config.aging_factor)

-- `effectivePriority`
unfoldable pub effective_priority : PrintJob → ℕ → DomainSchedulerConfig → Result Failure ℕ
unfolding effective_priority_unchecked
effective_priority job now_ms config =
    if bad_aging config
    then err range_error
    else if not (is_safe_integer now_ms)
    then err range_error
    else ok (effective_priority_unchecked job now_ms config)

-- Twice `median(values)`, which may lie halfway between two values; their sum is rounded to a double.
unfoldable pub twice_median : List ℕ → ℕ
unfolding sort nearest
twice_median values =
    let sorted = sort compare values in
    let middle = length sorted / 2 in
    if length sorted % 2 == 1
    then 2 * or_default (get_elem? sorted middle) 0
    else nearest
        (or_default (get_elem? sorted (middle - 1)) 0 + or_default (get_elem? sorted middle) 0) 1

abbrev find_printer : Uuid → List PrinterProfile → Option PrinterProfile
find_printer id [] = none
find_printer id (p ∷ ps) = let rest = find_printer id ps in if p.id == id then some p else rest

-- `job.assignedPrinterId ? compatible.find(...) : undefined`
abbrev assigned_among : Option Uuid → List PrinterProfile → Option PrinterProfile
assigned_among none compatible = none
assigned_among (some id) compatible = if is_empty id then none else find_printer id compatible

-- Twice `assigned?.pagesPerMinute ?? median(...)`, in units of the speeds.
abbrev twice_speed : Option PrinterProfile → List PrinterProfile → ℕ
twice_speed (some printer) compatible = 2 * printer.pages_per_minute
twice_speed none compatible = twice_median (map (λ p. p.pages_per_minute) compatible)

abbrev pub compatible_printers : PrintJob → List PrinterProfile → List PrinterProfile
compatible_printers job printers = select (λ p. is_online p && supports p job) printers

-- `Math.ceil` of the pages left over a speed, given as twice its units: the quotient is rounded to a
-- double first. No job has more completed pages than pages (lifecycle.ts).
abbrev pub service_at : PrintJob → ℕ → ℕ
unfolding ceil_quotient
service_at job twice =
    ceil_quotient ((job.pages - job.pages_completed) * 60_000 * 2 * rate_unit) twice

abbrev service_over : PrintJob → List PrinterProfile → Result Failure (Option ℕ)
service_over job [] = ok none
service_over job (p ∷ ps) =
    let twice = twice_speed (assigned_among job.assigned_printer_id (p ∷ ps)) (p ∷ ps) in
    if twice == 0 then err range_error else ok (some (service_at job twice))

-- `predictedServiceMs`
unfoldable pub predicted_service_ms : PrintJob → List PrinterProfile → Result Failure (Option ℕ)
unfolding twice_median ceil_quotient
predicted_service_ms job printers = service_over job (compatible_printers job printers)

-- `candidateFor`
unfoldable pub candidate_for :
    PrintJob → List PrinterProfile → DomainSchedulerConfig → ℕ → Result Failure (Option Candidate)
candidate_for job online config now_ms = elim (predicted_service_ms job online) [
  | err e ↦ err e
  | ok none ↦ ok none
  | ok (some service) ↦ ok (
      some (record {
        job = job;
        predicted_service_ms = service;
        effective_priority = effective_priority_unchecked job now_ms config;
      }))
]

-- `byArrival`
abbrev pub by_arrival : PrintJob → PrintJob → Ordering
by_arrival left right =
    then_by (compare left.queued_at_ms right.queued_at_ms)
      (then_by (compare left.sequence right.sequence) (compare left.id right.id))

-- `comparator`
abbrev pub comparator : SchedulingAlgorithm → Candidate → Candidate → Ordering
comparator sjf left right =
    then_by (compare left.predicted_service_ms right.predicted_service_ms)
      (by_arrival left.job right.job)
comparator priority_aging left right =
    then_by (compare right.effective_priority left.effective_priority)
      (by_arrival left.job right.job)
comparator fcfs left right = by_arrival left.job right.job

abbrev criterion_of : SchedulingAlgorithm → Criterion
criterion_of fcfs = arrival
criterion_of sjf = predicted_service
criterion_of priority_aging = effective_priority_value

abbrev primary_of : SchedulingAlgorithm → Candidate → ℕ
primary_of fcfs c = c.job.queued_at_ms
primary_of sjf c = c.predicted_service_ms
primary_of priority_aging c = c.effective_priority

-- `decisionFor`
unfoldable pub decision_for : Candidate → SchedulingAlgorithm → ℕ → SchedulerDecision
decision_for candidate algorithm rank = record {
  job_id = candidate.job.id;
  effective_priority = candidate.effective_priority;
  predicted_service_ms = candidate.predicted_service_ms;
  explanation = record {
    algorithm = algorithm;
    rank = rank;
    criterion = criterion_of algorithm;
    primary_value = primary_of algorithm candidate;
  };
}

-- `job.status !== 'READY' || job.queuedAtMs > nowMs`
abbrev pub is_skipped : PrintJob → ℕ → Bool
is_skipped job now_ms =
    not (same_job_status job.status JobStatus.ready) || ltb now_ms job.queued_at_ms

-- The loop of `candidatesFor`, one job at a time.
pub record Collected : Type 0 where
  pub candidates : List Candidate
  pub blocked : List PrintJob

abbrev collect : Collected → PrintJob → Option Candidate → Collected
collect acc job none = record acc { blocked = acc.blocked ++ job ∷ [] }
collect acc job (some c) = record acc { candidates = acc.candidates ++ c ∷ [] }

-- The loop of `selectNextJob`, one job at a time.
pub record Scanned : Type 0 where
  pub selected : Option Candidate
  pub blocked : List PrintJob

abbrev pub better : SchedulingAlgorithm → Option Candidate → Candidate → Option Candidate
better algorithm none c = some c
better algorithm (some best) c = if is_lt (comparator algorithm c best) then some c else some best

abbrev scan : SchedulingAlgorithm → Scanned → PrintJob → Option Candidate → Scanned
scan algorithm acc job none = record acc { blocked = acc.blocked ++ job ∷ [] }
scan algorithm acc job (some c) = record acc { selected = better algorithm acc.selected c }

module _ (online : List PrinterProfile) (config : DomainSchedulerConfig) (now_ms : ℕ) where
  -- What both loops do with a job, `f` apart.
  abbrev visit :
      {S : Type 0} → (S → PrintJob → Option Candidate → S) → S → PrintJob → Result Failure S
  visit f acc job =
      if is_skipped job now_ms then ok acc else elim (candidate_for job online config now_ms) [
        | err e ↦ err e
        | ok found ↦ ok (f acc job found)
      ]

  -- `candidatesFor`, over the printers that are online.
  unfoldable pub candidates_for : List PrintJob → Result Failure Collected
  candidates_for jobs = fold_result (visit collect) (record { candidates = []; blocked = [] }) jobs

  unfoldable pub scan_jobs : List PrintJob → Result Failure Scanned
  scan_jobs jobs =
      fold_result (visit (scan config.algorithm)) (record { selected = none; blocked = [] }) jobs

-- `candidates.map((candidate, index) => decisionFor(candidate, algorithm, index + 1))`
unfoldable pub decisions_from : SchedulingAlgorithm → ℕ → List Candidate → List SchedulerDecision
decisions_from algorithm rank [] = []
decisions_from algorithm rank (c ∷ cs) =
    decision_for c algorithm rank ∷ decisions_from algorithm (rank + 1) cs

abbrev pub job_ids : List PrintJob → List Uuid
job_ids = map (λ job. job.id)

abbrev ranking_of : SchedulingAlgorithm → Collected → SchedulerRanking
ranking_of algorithm found = record {
  decisions = decisions_from algorithm 1 (sort (comparator algorithm) found.candidates);
  blocked_job_ids = job_ids (sort by_arrival found.blocked);
}

abbrev selection_of : SchedulingAlgorithm → Scanned → SchedulerSelection
selection_of algorithm found = record {
  selected = elim found.selected [ none ↦ none | some c ↦ some (decision_for c algorithm 1) ];
  blocked_job_ids = job_ids (sort by_arrival found.blocked);
}

-- `rankJobs`
unfoldable pub rank_jobs :
    List PrintJob
    → List PrinterProfile
    → DomainSchedulerConfig
    → ℕ
    → Result Failure SchedulerRanking
rank_jobs jobs printers config now_ms =
    if bad_inputs config now_ms
    then err range_error
    else elim (candidates_for (select is_online printers) config now_ms jobs) [
      | err e ↦ err e
      | ok found ↦ ok (ranking_of config.algorithm found)
    ]

-- `selectNextJob`
unfoldable pub select_next_job :
    List PrintJob
    → List PrinterProfile
    → DomainSchedulerConfig
    → ℕ
    → Result Failure SchedulerSelection
select_next_job jobs printers config now_ms =
    if bad_inputs config now_ms
    then err range_error
    else elim (scan_jobs (select is_online printers) config now_ms jobs) [
      | err e ↦ err e
      | ok found ↦ ok (selection_of config.algorithm found)
    ]
