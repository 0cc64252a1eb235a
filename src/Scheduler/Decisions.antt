-- ===== src/Scheduler/Decisions.antt =====
-- What `rankJobs` returns, told without its comparator and its loop.
use mathlib.Core.List.{Perm, map-append, append-nil, append_assoc, perm_middle}
use mathlib.Core.List.Perm
use os_mini_project.Common.{
  ℕ, ◌+◌, ◌-◌, ◌*◌, ◌/◌, ◌≤◌, ◌<◌, ◌≡◌, refl, sym, ap, ◌∙◌, subst, ◌⊎◌, Result-cases, ok-injective,
  ok-ne-err, fold_result, not, min, Option, none, some, List, [], ◌∷◌, ◌++◌, map, inl, inr, arith,
  Bool-cases, select, All, false, ◌&&◌, leb, ltb, Ordering, ok,
}
use os_mini_project.Common.Sort.{sort, is_lt}
use os_mini_project.Common.Sort.Laws.{sort-perm, IsSorted, sort-IsSorted}
use os_mini_project.Common.Sort.Entries.{Pairwise, sort-All, All-append}
use os_mini_project.Entities.{
  PrintJob, PrinterProfile, DomainSchedulerConfig, SchedulingAlgorithm, fcfs, sjf, JobStatus,
  same_job_status, priority_aging,
}
use os_mini_project.Scheduler.{
  Candidate, SchedulerRanking, SchedulerDecision, Collected, is_online, is_skipped, bad_inputs,
  by_arrival, comparator, candidate_for, candidates_for, visit, collect, decision_for,
  decisions_from, job_ids, ranking_of, rank_jobs, predicted_service_ms,
  effective_priority_unchecked,
}
use os_mini_project.Scheduler.Ranking.{comparator-IsComparator, by_arrival-IsComparator}

-- The first job was queued earlier; at the same time, the sequence number tells, and then the id.
abbrev pub Arrives : PrintJob → PrintJob → Type 0
Arrives a b =
    (a.queued_at_ms < b.queued_at_ms)
    ⊎ ((a.queued_at_ms ≡ b.queued_at_ms)
        × ((a.sequence < b.sequence) ⊎ ((a.sequence ≡ b.sequence) × (a.id ≤ b.id))))

-- The first candidate may stand before the second.
abbrev pub Precedes : SchedulingAlgorithm → Candidate → Candidate → Type 0
Precedes fcfs c d = Arrives c.job d.job
Precedes sjf c d =
    (c.predicted_service_ms < d.predicted_service_ms)
    ⊎ ((c.predicted_service_ms ≡ d.predicted_service_ms) × Arrives c.job d.job)
Precedes priority_aging c d =
    (d.effective_priority < c.effective_priority)
    ⊎ ((c.effective_priority ≡ d.effective_priority) × Arrives c.job d.job)

-- The decisions say of each candidate what it has, and number the candidates from `rank`.
abbrev pub Decided : ℕ → List Candidate → List SchedulerDecision → Type 0
Decided rank [] [] = Unit {0}
Decided rank [] (d ∷ ds) = ⊥
Decided rank (c ∷ cs) [] = ⊥
Decided rank (c ∷ cs) (d ∷ ds) =
    (d.job_id ≡ c.job.id)
    × (d.effective_priority ≡ c.effective_priority)
    × (d.predicted_service_ms ≡ c.predicted_service_ms)
    × (d.explanation.rank ≡ rank)
    × Decided (rank + 1) cs ds

-- The jobs that are ready and have arrived.
abbrev pub eligible : ℕ → List PrintJob → List PrintJob
eligible now_ms =
    select (λ job. same_job_status job.status JobStatus.ready && leb job.queued_at_ms now_ms)

abbrev pub jobs_of : List Candidate → List PrintJob
jobs_of = map (λ c. c.job)

module _ (online : List PrinterProfile) (config : DomainSchedulerConfig) (now_ms : ℕ) where
  -- The priority grows with the intervals that the job has waited, up to the cap.
  abbrev pub IsCandidate : Candidate → Type 0
  IsCandidate c =
      (predicted_service_ms c.job online ≡ ok (some c.predicted_service_ms))
      × (c.effective_priority
          ≡ min config.priority_cap (
              c.job.base_priority
              + ((now_ms - c.job.queued_at_ms) / config.aging_interval_ms) * config.aging_factor))

  -- No printer that is online fits the job.
  abbrev pub IsBlocked : PrintJob → Type 0
  IsBlocked job = predicted_service_ms job online ≡ ok none

  -- A ranking read as two lists: candidates and blocked jobs.
  pub record Ranked (jobs : List PrintJob) (r : SchedulerRanking) : Type 0 where
    pub order : List Candidate
    pub blocked : List PrintJob
    pub decided : Decided 1 order r.decisions
    pub sorted : Pairwise (Precedes config.algorithm) order
    pub made : All IsCandidate order
    pub blocked_ids : r.blocked_job_ids ≡ job_ids blocked
    pub blocked_sorted : Pairwise Arrives blocked
    pub without_printer : All IsBlocked blocked
    pub shared_out : Perm (jobs_of order ++ blocked) (eligible now_ms jobs)

  candidate_for-IsCandidate :
      (job : PrintJob) (c : Candidate)
      → candidate_for job online config now_ms ≡ ok (some c)
      → (c.job ≡ job) × IsCandidate c
  unfolding candidate_for effective_priority_unchecked
  candidate_for-IsCandidate job c h = (ground arith, (ground arith, ground arith))

  candidate_for-IsBlocked :
      (job : PrintJob) → candidate_for job online config now_ms ≡ ok none → IsBlocked job
  unfolding candidate_for
  candidate_for-IsBlocked job h = ground arith

  skipped-eq :
      (job : PrintJob)
      → (same_job_status job.status JobStatus.ready && leb job.queued_at_ms now_ms)
        ≡ not (is_skipped job now_ms)
  skipped-eq job = ground arith

Arrives-of : (a b : PrintJob) → is_lt (by_arrival b a) ≡ false → Arrives a b
Arrives-of a b h = elim (Bool-cases (ltb a.queued_at_ms b.queued_at_ms)) [
  | inl earlier ↦ inl (ground (arith, earlier))
  | inr not_earlier ↦
      let same : a.queued_at_ms ≡ b.queued_at_ms = ground (arith, h, not_earlier) in
      elim (Bool-cases (ltb a.sequence b.sequence)) [
        | inl first ↦ inr (same, inl (ground (arith, first)))
        | inr not_first ↦
            let alike : a.sequence ≡ b.sequence = ground (arith, h, same, not_first) in
            inr (same, inr (alike, ground (arith, h, same, alike)))
      ]
]

Precedes-of :
    (algorithm : SchedulingAlgorithm) (c d : Candidate)
    → is_lt (comparator algorithm d c) ≡ false
    → Precedes algorithm c d
Precedes-of fcfs c d h = Arrives-of c.job d.job h
Precedes-of sjf c d h = elim (Bool-cases (ltb c.predicted_service_ms d.predicted_service_ms)) [
  | inl shorter ↦ inl (ground (arith, shorter))
  | inr not_shorter ↦
      let same : c.predicted_service_ms ≡ d.predicted_service_ms = ground (arith, h, not_shorter) in
      inr (same, Arrives-of c.job d.job (ground (arith, h, same)))
]
Precedes-of priority_aging c d h =
    elim (Bool-cases (ltb d.effective_priority c.effective_priority)) [
      | inl higher ↦ inl (ground (arith, higher))
      | inr not_higher ↦
          let same : c.effective_priority ≡ d.effective_priority = ground (arith, h, not_higher) in
          inr (same, Arrives-of c.job d.job (ground (arith, h, same)))
    ]

module _ {A : Type 0} (cmp : A → A → Ordering) (R : A → A → Type 0)
    (of : (a b : A) → is_lt (cmp b a) ≡ false → R a b) where
  All-of : (x : A) (ys : List A) → All (λ y. is_lt (cmp y x) ≡ false) ys → All (R x) ys
  All-of x [] h = tt
  All-of x (y ∷ ys) h = (of x y h.0, All-of x ys h.1)

  Pairwise-of : (xs : List A) → IsSorted cmp xs → Pairwise R xs
  Pairwise-of [] h = tt
  Pairwise-of (x ∷ xs) h = (All-of x xs h.0, Pairwise-of xs h.1)

decisions_from-Decided :
    (algorithm : SchedulingAlgorithm) (rank : ℕ) (cs : List Candidate)
    → Decided rank cs (decisions_from algorithm rank cs)
unfolding decisions_from decision_for
decisions_from-Decided algorithm rank [] = tt
decisions_from-Decided algorithm rank (c ∷ cs) =
    (refl, refl, refl, refl, decisions_from-Decided algorithm (rank + 1) cs)

abbrev jobs_in : Collected → List PrintJob
jobs_in found = jobs_of found.candidates ++ found.blocked

collect-perm :
    (acc : Collected) (job : PrintJob) (found : Option Candidate)
    → ((c : Candidate) → found ≡ some c → c.job ≡ job)
    → Perm (jobs_in (collect acc job found)) (job ∷ jobs_in acc)
collect-perm acc job none same =
    rw (← append_assoc) (Perm.trans (perm_middle _ []) (rw append-nil Perm.rfl))
collect-perm acc job (some c) same =
    rw (map-append (λ (d : Candidate). d.job) acc.candidates (c ∷ []), append_assoc, same c refl)
      (perm_middle (jobs_of acc.candidates) acc.blocked)

module _ (online : List PrinterProfile) (config : DomainSchedulerConfig) (now_ms : ℕ) where
  abbrev WellMade : Collected → Type 0
  WellMade found =
      All (IsCandidate online config now_ms) found.candidates
      × All (IsBlocked online config now_ms) found.blocked

  collect-WellMade :
      (acc : Collected) (job : PrintJob) (found : Option Candidate)
      → candidate_for job online config now_ms ≡ ok found
      → WellMade acc
      → WellMade (collect acc job found)
  collect-WellMade acc job none e h = (
    h.0,
    All-append (IsBlocked online config now_ms) acc.blocked (job ∷ []) h.1
        (candidate_for-IsBlocked online config now_ms job e, tt),
  )
  collect-WellMade acc job (some c) e h = (
    All-append (IsCandidate online config now_ms) acc.candidates (c ∷ []) h.0
        ((candidate_for-IsCandidate online config now_ms job c e).1, tt),
    h.1,
  )

  fold-collected :
      (acc : Collected) (jobs : List PrintJob) (found : Collected)
      → WellMade acc
      → fold_result (visit online config now_ms collect) acc jobs ≡ ok found
      → WellMade found × Perm (jobs_in found) (eligible now_ms jobs ++ jobs_in acc)
  fold-collected acc [] found w h =
      subst (λ f. WellMade f × Perm (jobs_in f) (jobs_in acc)) (ok-injective h) (w, Perm.rfl)
  fold-collected acc (job ∷ jobs) found w h = elim (Bool-cases (is_skipped job now_ms)) [
    | inl skipped ↦
        rw (skipped-eq online config now_ms job, skipped)
          (fold-collected acc jobs found w (rw (skipped, fold_result) at h))
    | inr kept ↦ elim (Result-cases (candidate_for job online config now_ms)) [
      | inl (o, e) ↦
          let (well, perm) =
            fold-collected (collect acc job o) jobs found (collect-WellMade acc job o e w)
              (rw (kept, e, fold_result) at h) in
          rw (skipped-eq online config now_ms job, kept)
            (
              well,
              Perm.trans perm (
                  Perm.trans
                    (Perm.append Perm.rfl (
                      collect-perm acc job o (λ c same.
                        (candidate_for-IsCandidate online config now_ms job c (e ∙ ap ok same)).0)))
                    (perm_middle (eligible now_ms jobs) (jobs_in acc))),
            )
      | inr (e, eq) ↦ absurd (ok-ne-err (sym (rw (kept, eq, fold_result) at h)))
    ]
  ]

  candidates_for-collected :
      (jobs : List PrintJob) (found : Collected)
      → candidates_for online config now_ms jobs ≡ ok found
      → WellMade found × Perm (jobs_in found) (eligible now_ms jobs)
  unfolding candidates_for
  candidates_for-collected jobs found h = rw append-nil at (fold-collected _ jobs found (tt, tt) h)

  ranking_of-Ranked :
      (jobs : List PrintJob) (found : Collected)
      → candidates_for online config now_ms jobs ≡ ok found
      → Ranked online config now_ms jobs (ranking_of config.algorithm found)
  ranking_of-Ranked jobs found h =
      let ((made, blocked), perm) = candidates_for-collected jobs found h in
      let cmp = comparator config.algorithm in
      record {
        order = sort cmp found.candidates;
        blocked = sort by_arrival found.blocked;
        decided = decisions_from-Decided config.algorithm 1 (sort cmp found.candidates);
        sorted =
            Pairwise-of cmp (Precedes config.algorithm) (Precedes-of config.algorithm)
              (sort cmp found.candidates)
              (sort-IsSorted cmp (comparator-IsComparator config.algorithm) found.candidates);
        made = sort-All cmp (IsCandidate online config now_ms) found.candidates made;
        blocked_ids = refl;
        blocked_sorted =
            Pairwise-of by_arrival Arrives Arrives-of (sort by_arrival found.blocked)
              (sort-IsSorted by_arrival by_arrival-IsComparator found.blocked);
        without_printer =
            sort-All by_arrival (IsBlocked online config now_ms) found.blocked blocked;
        shared_out =
            Perm.trans
              (Perm.append (Perm.map _ (sort-perm cmp found.candidates))
                (sort-perm by_arrival found.blocked))
              perm;
      }

-- Whenever `rankJobs` returns, its decisions are those of a list of candidates, numbered from 1, in the
-- order of the algorithm: by arrival (queue time, then sequence number, then id), by predicted service
-- or by effective priority, the highest first, both then by arrival. The candidates' jobs and the
-- blocked jobs, which come by arrival too, are the given jobs that are ready and have arrived, each as
-- often as it is given; a candidate has its job's predicted service over the printers that are online
-- and the priority that its waiting time gives, and a blocked job has no printer online that fits.
pub rank_jobs-Ranked :
    (jobs : List PrintJob) (printers : List PrinterProfile) (config : DomainSchedulerConfig)
    (now_ms : ℕ) (r : SchedulerRanking)
    → rank_jobs jobs printers config now_ms ≡ ok r
    → Ranked (select is_online printers) config now_ms jobs r
unfolding rank_jobs
rank_jobs-Ranked jobs printers config now_ms r h = elim (Bool-cases (bad_inputs config now_ms)) [
  | inl bad ↦ absurd (ok-ne-err (sym (rw bad at h)))
  | inr good ↦ elim (Result-cases (candidates_for (select is_online printers) config now_ms jobs)) [
    | inl (found, e) ↦
        subst (Ranked (select is_online printers) config now_ms jobs)
          (ok-injective (rw (good, e) at h))
          (ranking_of-Ranked (select is_online printers) config now_ms jobs found e)
    | inr (x, e) ↦ absurd (ok-ne-err (sym (rw (good, e) at h)))
  ]
]
