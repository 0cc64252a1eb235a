-- ===== src/Coordinator/Work/Choice.antt =====
-- The printer that `bestPrinterFor` chooses.
use os_mini_project.Common.{
  some-injective, ℕ, ◌-◌, ◌*◌, ◌≤◌, ◌<◌, ◌≡◌, inl, inr, Bool, true, some, List, [], ◌∷◌, arith, All,
  Bool-cases, select, head?, subst,
}
use os_mini_project.Common.Sort.{sort}
use os_mini_project.Common.Sort.Entries.{All-sort, sort-All, All-map}
use os_mini_project.Common.Sort.Laws.{
  IsComparator, compare-IsComparator, compare-IsComparator_down, then_by-IsComparator, InOrder,
  IsSorted, sort-IsSorted,
}
use os_mini_project.Entities.{PrintJob, PrinterState}
use os_mini_project.Scheduler.{supports}
use os_mini_project.Coordinator.Work.Dispatch.{faster, best_printer_for}

faster-IsComparator : (pages : ℕ) → IsComparator (faster pages)
faster-IsComparator pages =
    then_by-IsComparator _ _
      (compare-IsComparator_down (λ (p : PrinterState). pages * p.pages_per_minute))
      (compare-IsComparator (λ (p : PrinterState). p.id))

module _ {A : Type 0} (test : A → Bool) where
  select-All : (xs : List A) → All (λ x. test x ≡ true) (select test xs)
  select-All [] = tt
  select-All (x ∷ xs) = elim (Bool-cases (test x)) [
    | inl passes ↦ rw passes (passes, select-All xs)
    | inr fails ↦ rw fails (select-All xs)
  ]

  All-of_select :
      (P : A → Type 0) (xs : List A) → All P (select test xs) → All (λ x. test x ≡ true → P x) xs
  All-of_select P [] h = tt
  All-of_select P (x ∷ xs) h = elim (Bool-cases (test x)) [
    | inl passes ↦
        let k : P x × All P (select test xs) = rw passes at h in (λ _. k.0, All-of_select P xs k.1)
    | inr fails ↦ (λ passed. ground arith, All-of_select P xs (rw fails at h))
  ]

abbrev fits : PrintJob → PrinterState → Bool
fits job p = supports p.profile job

abbrev NotFaster : PrintJob → PrinterState → PrinterState → Type 0
NotFaster job p q = q.pages_per_minute ≤ p.pages_per_minute

times_cancel : (n a b : ℕ) → 0 < n → n * a ≤ n * b → a ≤ b
times_cancel n a b h k = grind arith

in_order :
    (job : PrintJob) (p q : PrinterState)
    → job.pages_completed < job.pages
    → InOrder (faster (job.pages - job.pages_completed)) p q
    → NotFaster job p q
in_order job p q left h =
    times_cancel (job.pages - job.pages_completed) q.pages_per_minute p.pages_per_minute
      (omega arith) (ground arith)

-- What the head of a sorted list of fitting printers is worth.
head_is_best :
    (job : PrintJob) (sorted : List PrinterState) (p : PrinterState)
    → job.pages_completed < job.pages
    → IsSorted (faster (job.pages - job.pages_completed)) sorted
    → All (λ q. fits job q ≡ true) sorted
    → head? sorted ≡ some p
    → (fits job p ≡ true) × All (NotFaster job p) sorted
head_is_best job [] p left s f h = ground arith
head_is_best job (q ∷ qs) p left s f h =
    let same : q ≡ p = some-injective h in
    subst (λ o. (fits job o ≡ true) × All (NotFaster job o) (q ∷ qs)) same
      (f.0, (omega arith, All-map _ (NotFaster job q) qs (λ x. in_order job q x left) s.0))

-- Whenever `bestPrinterFor` finds a printer for a job with pages left, the printer fits the job, and
-- no other of the given printers that fits it is faster.
pub best_printer_for-fastest :
    (job : PrintJob) (printers : List PrinterState) (p : PrinterState)
    → job.pages_completed < job.pages
    → best_printer_for job printers ≡ some p
    → (supports p.profile job ≡ true)
      × All (λ q. supports q.profile job ≡ true → q.pages_per_minute ≤ p.pages_per_minute) printers
unfolding best_printer_for
best_printer_for-fastest job printers p left h =
    let cmp = faster (job.pages - job.pages_completed) in
    let chosen = select (fits job) printers in
    let (fit, best) =
      head_is_best job (sort cmp chosen) p left
        (sort-IsSorted cmp (faster-IsComparator (job.pages - job.pages_completed)) chosen)
        (sort-All cmp (λ q. fits job q ≡ true) chosen (select-All (fits job) printers)) h in
    (
      fit,
      All-of_select (fits job) (NotFaster job p) printers
          (All-sort cmp (NotFaster job p) chosen best),
    )
