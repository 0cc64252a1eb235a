-- ===== src/Coordinator/Jobs/Submission.antt =====
-- The jobs that a submission makes.
use os_mini_project.Common.{
  ℕ, ◌+◌, ◌≡◌, refl, ap, ◌∙◌, sym, subst, ◌⊎◌, inl, inr, true, false, List, [], ◌∷◌, Result, ok,
  err, arith, ok-injective, ok-ne-err,
}
use os_mini_project.Common.Dict.{has}
use os_mini_project.Entities.{PrintJob, Failure}
use os_mini_project.Lifecycle.{
  transition_job, can_transition, checked, patched, assert_job_invariants,
}
use os_mini_project.Lifecycle.Laws.{IsLawful, assert_job_invariants-IsLawful}
use os_mini_project.Coordinator.State.{QueueCoordinator, JobSubmission}
use os_mini_project.Coordinator.Jobs.{new_job, new_jobs, is_before_printing}

-- What `#newJob` makes of a submission.
pub record IsNew (s : JobSubmission) (sequence : ℕ) (now_ms : ℕ) (job : PrintJob) : Type 0 where
  pub same_id : job.id ≡ s.id
  pub numbered : job.sequence ≡ sequence
  pub submitted_now : job.submitted_at_ms ≡ now_ms
  pub queued_after_delay : job.queued_at_ms ≡ now_ms + s.input.arrival_delay_ms
  pub unprinted : job.pages_completed ≡ 0
  pub waits : is_before_printing job.status ≡ true
  pub lawful : IsLawful job

new_job-passes :
    (s : JobSubmission) (sequence now_ms : ℕ) (c d : QueueCoordinator) (job : PrintJob)
    → new_job s sequence now_ms c ≡ (ok job, d)
    → assert_job_invariants job ≡ ok tt
unfolding new_job transition_job can_transition checked patched assert_job_invariants
new_job-passes s sequence now_ms c d job h = ground arith

new_job-IsNew :
    (s : JobSubmission) (sequence now_ms : ℕ) (c d : QueueCoordinator) (job : PrintJob)
    → new_job s sequence now_ms c ≡ (ok job, d)
    → (d ≡ c) × (has s.id c.jobs ≡ false) × IsNew s sequence now_ms job
unfolding new_job transition_job can_transition checked patched assert_job_invariants
new_job-IsNew s sequence now_ms c d job h = (
  ground arith,
  ground arith,
  record {
    same_id = ground arith;
    numbered = ground arith;
    submitted_now = ground arith;
    queued_after_delay = ground arith;
    unprinted = ground arith;
    waits = ground arith;
    lawful = assert_job_invariants-IsLawful job (new_job-passes s sequence now_ms c d job h);
  },
)

-- The jobs of a burst, one for each submission, with consecutive sequence numbers.
abbrev pub AreNew : List JobSubmission → ℕ → ℕ → List PrintJob → Type 0
AreNew [] sequence now_ms [] = Unit
AreNew [] sequence now_ms (job ∷ jobs) = ⊥
AreNew (s ∷ ss) sequence now_ms [] = ⊥
AreNew (s ∷ ss) sequence now_ms (job ∷ jobs) =
    IsNew s sequence now_ms job × AreNew ss (sequence + 1) now_ms jobs

module _ {S A : Type 0} where
  outcome_cases :
      (p : Result Failure A × S)
      → ((a : A) × (s : S) × (p ≡ (ok a, s))) ⊎ ((e : Failure) × (s : S) × (p ≡ (err e, s)))
  outcome_cases (ok a, s) = inl (a, s, refl)
  outcome_cases (err e, s) = inr (e, s, refl)

new_jobs-step :
    (s : JobSubmission) (ss : List JobSubmission) (sequence now_ms : ℕ) (c d e : QueueCoordinator)
    (job : PrintJob) (r : Result Failure (List PrintJob))
    → new_job s sequence now_ms c ≡ (ok job, d)
    → new_jobs ss (sequence + 1) now_ms d ≡ (r, e)
    → new_jobs (s ∷ ss) sequence now_ms c
      ≡ (elim r [ ok rest ↦ ok (job ∷ rest) | err x ↦ err x ], e)
unfolding new_jobs
new_jobs-step s ss sequence now_ms c d e job r h k = ground arith

new_jobs-throws :
    (s : JobSubmission) (ss : List JobSubmission) (sequence now_ms : ℕ) (c d : QueueCoordinator)
    (x : Failure)
    → new_job s sequence now_ms c ≡ (err x, d)
    → new_jobs (s ∷ ss) sequence now_ms c ≡ (err x, d)
unfolding new_jobs
new_jobs-throws s ss sequence now_ms c d x h = ground arith

-- `submitBurst` turns submissions into jobs without changing the coordinator. Whenever it does not
-- throw, there is one job for each submission, in order, with its id and the next sequence number,
-- submitted now and queued after its delay; no page is printed; it is QUEUED, READY or BLOCKED; and
-- it is lawful.
pub new_jobs-AreNew :
    (ss : List JobSubmission) (sequence now_ms : ℕ) (c d : QueueCoordinator) (jobs : List PrintJob)
    → new_jobs ss sequence now_ms c ≡ (ok jobs, d)
    → (d ≡ c) × AreNew ss sequence now_ms jobs
unfolding new_jobs
new_jobs-AreNew [] sequence now_ms c d jobs h =
    (sym (ap (λ p. p.1) h), subst (AreNew [] sequence now_ms) (ok-injective (ap (λ p. p.0) h)) tt)
new_jobs-AreNew (s ∷ ss) sequence now_ms c d jobs h =
    elim (outcome_cases (new_job s sequence now_ms c)) [
      | inl (job, c1, made) ↦ elim (outcome_cases (new_jobs ss (sequence + 1) now_ms c1)) [
        | inl (rest, c2, more) ↦
            let (same, _, first) = new_job-IsNew s sequence now_ms c c1 job made in
            let (kept, others) = new_jobs-AreNew ss (sequence + 1) now_ms c1 c2 rest more in
            let ended =
              sym (new_jobs-step s ss sequence now_ms c c1 c2 job (ok rest) made more) ∙ h in
            (
              sym (ap (λ p. p.1) ended) ∙ kept ∙ same,
              subst (AreNew (s ∷ ss) sequence now_ms) (ok-injective (ap (λ p. p.0) ended))
                  (first, others),
            )
        | inr (e, c2, threw) ↦ absurd (
            ok-ne-err (
              sym (
                ap (λ p. p.0)
                  (sym (new_jobs-step s ss sequence now_ms c c1 c2 job (err e) made threw) ∙ h))))
      ]
      | inr (e, c1, threw) ↦ absurd (
          ok-ne-err
            (sym (ap (λ p. p.0) (sym (new_jobs-throws s ss sequence now_ms c c1 e threw) ∙ h))))
    ]
