-- ===== src/Application/Benchmark/Rounds.antt =====
-- The parts of a round: what has arrived, and the job that is taken.
use mathlib.Core.List.{Perm, append_assoc, perm_middle, append-nil}
use mathlib.Core.List.Perm
use os_mini_project.Common.{
  ℕ, suc, length, length-append, ◌≤◌, ◌≡◌, refl, sym, ap, subst, ◌∙◌, inl, inr, true, false, List,
  [], ◌∷◌, ◌++◌, leb, Bool-cases, All, Ordering, arith,
}
use os_mini_project.Common.Sort.{is_lt}
use os_mini_project.Common.Sort.Laws.{
  IsComparator, compare-IsComparator, compare-IsComparator_down, then_by-IsComparator,
}
use os_mini_project.Common.Sort.Entries.{All-append, All-map}
use os_mini_project.Entities.{SchedulingAlgorithm, fcfs, sjf, priority_aging}
use os_mini_project.Application.Benchmark.{
  BenchmarkJob, Aging, by_arrival, compare_jobs, effective_priority, arrived, take_best,
}

pub arrived-append :
    (now_ms : ℕ) (jobs : List BenchmarkJob)
    → (arrived now_ms jobs).0 ++ (arrived now_ms jobs).1 ≡ jobs
unfolding arrived
arrived-append now_ms [] = refl
arrived-append now_ms (job ∷ jobs) = elim (Bool-cases (leb job.arrival_time_ms now_ms)) [
  | inl come ↦ rw come (ap (◌∷◌ job) (arrived-append now_ms jobs))
  | inr late ↦ rw late refl
]

pub arrived-All :
    (now_ms : ℕ) (jobs : List BenchmarkJob)
    → All (λ job. job.arrival_time_ms ≤ now_ms) (arrived now_ms jobs).0
unfolding arrived
arrived-All now_ms [] = tt
arrived-All now_ms (job ∷ jobs) = elim (Bool-cases (leb job.arrival_time_ms now_ms)) [
  | inl come ↦ rw come (ground arith, arrived-All now_ms jobs)
  | inr late ↦ rw late tt
]

module _ (cmp : BenchmarkJob → BenchmarkJob → Ordering) where
  pub take_best-perm :
      (before : List BenchmarkJob) (best : BenchmarkJob) (behind jobs : List BenchmarkJob)
      → let (taken, left) = take_best cmp before best behind jobs in
        Perm (taken ∷ left) ((before ++ best ∷ behind) ++ jobs)
  unfolding take_best
  take_best-perm before best behind [] = rw append-nil (Perm.symm (perm_middle before behind))
  take_best-perm before best behind (job ∷ jobs) = elim (Bool-cases (is_lt (cmp job best))) [
    | inl better ↦
        rw (better, take_best)
          (subst (Perm _) (append_assoc (before ++ best ∷ behind) (job ∷ []) jobs)
            (take_best-perm (before ++ best ∷ behind) job [] jobs))
    | inr worse ↦
        rw (worse, take_best)
          (subst (Perm _)
            (ap (λ zs. zs ++ jobs) (sym (append_assoc before (best ∷ behind) (job ∷ [])))
              ∙ append_assoc (before ++ best ∷ behind) (job ∷ []) jobs)
            (take_best-perm before best (behind ++ job ∷ []) jobs))
  ]

  -- `x` does not come before `y`.
  abbrev pub NotBefore : BenchmarkJob → BenchmarkJob → Type 0
  NotBefore y x = is_lt (cmp x y) ≡ false

  NotBefore-better :
      (best job x : BenchmarkJob)
      → IsComparator cmp
      → is_lt (cmp job best) ≡ true
      → NotBefore best x
      → NotBefore job x
  NotBefore-better best job x c better h = ground (arith, c.lt_trans x job best)

  NotBefore-itself :
      (best job : BenchmarkJob)
      → IsComparator cmp
      → is_lt (cmp job best) ≡ true
      → NotBefore job best
  NotBefore-itself best job c better = ground (arith, c.swap job best)

  put_between :
      (P : BenchmarkJob → Type 0) (xs ys : List BenchmarkJob) (y : BenchmarkJob)
      → P y
      → All P (xs ++ ys)
      → All P (xs ++ y ∷ ys)
  put_between P [] ys y h k = (h, k)
  put_between P (x ∷ xs) ys y h k = (k.0, put_between P xs ys y h k.1)

  -- No job that is left comes before the one that is taken.
  pub take_best-least :
      (before : List BenchmarkJob) (best : BenchmarkJob) (behind jobs : List BenchmarkJob)
      → IsComparator cmp
      → All (NotBefore best) (before ++ behind)
      → let (taken, left) = take_best cmp before best behind jobs in All (NotBefore taken) left
  unfolding take_best
  take_best-least before best behind [] c h = h
  take_best-least before best behind (job ∷ jobs) c h = elim (Bool-cases (is_lt (cmp job best))) [
    | inl better ↦
        rw (better, take_best)
          (take_best-least (before ++ best ∷ behind) job [] jobs c (
            rw append-nil (
              put_between (NotBefore job) before behind best (NotBefore-itself best job c better) (
                All-map (NotBefore best) (NotBefore job) (before ++ behind)
                  (λ x. NotBefore-better best job x c better) h))))
    | inr worse ↦
        rw (worse, take_best)
          (take_best-least before best (behind ++ job ∷ []) jobs c (
            subst (All (NotBefore best)) (append_assoc before behind (job ∷ []))
              (All-append (NotBefore best) (before ++ behind) (job ∷ []) h (worse, tt))))
  ]

-- What holds of every job that is ready holds of the one that is taken and of the others.
pub take_best-All :
    (cmp : BenchmarkJob → BenchmarkJob → Ordering) (P : BenchmarkJob → Type 0)
    (before : List BenchmarkJob) (best : BenchmarkJob) (behind jobs : List BenchmarkJob)
    → All P before
    → P best
    → All P behind
    → All P jobs
    → let (taken, left) = take_best cmp before best behind jobs in P taken × All P left
unfolding take_best
take_best-All cmp P before best behind [] h b k l = (b, All-append P before behind h k)
take_best-All cmp P before best behind (job ∷ jobs) h b k l =
    elim (Bool-cases (is_lt (cmp job best))) [
      | inl better ↦
          rw (better, take_best)
            (take_best-All cmp P (before ++ best ∷ behind) job [] jobs
              (All-append P before (best ∷ behind) h (b, k)) l.0 tt l.1)
      | inr worse ↦
          rw (worse, take_best)
            (take_best-All cmp P before best (behind ++ job ∷ []) jobs h b
              (All-append P behind (job ∷ []) k (l.0, tt)) l.1)
    ]

pub arrived-keeps :
    (P : BenchmarkJob → Type 0) (now_ms : ℕ) (jobs : List BenchmarkJob)
    → All P jobs
    → All P (arrived now_ms jobs).0 × All P (arrived now_ms jobs).1
unfolding arrived
arrived-keeps P now_ms [] h = (tt, tt)
arrived-keeps P now_ms (job ∷ jobs) h = elim (Bool-cases (leb job.arrival_time_ms now_ms)) [
  | inl come ↦ let (a, b) = arrived-keeps P now_ms jobs h.1 in rw come ((h.0, a), b)
  | inr late ↦ rw late (tt, h)
]

pub take_best-length :
    (cmp : BenchmarkJob → BenchmarkJob → Ordering) (before : List BenchmarkJob)
    (best : BenchmarkJob) (behind jobs : List BenchmarkJob)
    → suc (length (take_best cmp before best behind jobs).1)
      ≡ length ((before ++ best ∷ behind) ++ jobs)
unfolding take_best
take_best-length cmp before best behind [] = omega (
  arith,
  length-append (before ++ best ∷ behind) [],
  length-append before (best ∷ behind),
  length-append before behind,
)
take_best-length cmp before best behind (job ∷ jobs) = elim (Bool-cases (is_lt (cmp job best))) [
  | inl better ↦
      rw (better, take_best)
        (take_best-length cmp (before ++ best ∷ behind) job [] jobs
          ∙ ap length (append_assoc (before ++ best ∷ behind) (job ∷ []) jobs))
  | inr worse ↦
      rw (worse, take_best) omega
        (
          arith,
          take_best-length cmp before best (behind ++ job ∷ []) jobs,
          length-append (before ++ best ∷ (behind ++ job ∷ [])) jobs,
          length-append before (best ∷ (behind ++ job ∷ [])),
          length-append behind (job ∷ []),
          length-append (before ++ best ∷ behind) (job ∷ jobs),
          length-append before (best ∷ behind),
        )
]

by_arrival-IsComparator : IsComparator by_arrival
by_arrival-IsComparator =
    then_by-IsComparator _ _ (compare-IsComparator (λ (j : BenchmarkJob). j.arrival_time_ms))
      (compare-IsComparator (λ (j : BenchmarkJob). j.id))

compare_jobs-IsComparator :
    (algorithm : SchedulingAlgorithm) (now_ms : ℕ) (aging : Aging)
    → IsComparator (compare_jobs algorithm now_ms aging)
compare_jobs-IsComparator fcfs now_ms aging = by_arrival-IsComparator
compare_jobs-IsComparator sjf now_ms aging =
    then_by-IsComparator _ _ (compare-IsComparator (λ (j : BenchmarkJob). j.pages))
      by_arrival-IsComparator
compare_jobs-IsComparator priority_aging now_ms aging =
    then_by-IsComparator _ _
      (compare-IsComparator_down (λ (j : BenchmarkJob). effective_priority j now_ms aging))
      by_arrival-IsComparator

-- The job that a round takes out of those that are ready is one that no other comes before under
-- the algorithm, and the others stay, each as often as it was there.
pub take_best-Best :
    (algorithm : SchedulingAlgorithm) (now_ms : ℕ) (aging : Aging) (job : BenchmarkJob)
    (jobs : List BenchmarkJob)
    → let (taken, left) = take_best (compare_jobs algorithm now_ms aging) [] job [] jobs in
      Perm (taken ∷ left) (job ∷ jobs)
      × All (λ x. is_lt (compare_jobs algorithm now_ms aging x taken) ≡ false) left
take_best-Best algorithm now_ms aging job jobs = (
  take_best-perm (compare_jobs algorithm now_ms aging) [] job [] jobs,
  take_best-least (compare_jobs algorithm now_ms aging) [] job [] jobs
      (compare_jobs-IsComparator algorithm now_ms aging) tt,
)
