-- ===== src/Lifecycle/Laws.antt =====
-- What a job satisfies after a transition, and where the state machine ends.
use os_mini_project.Common.{
  ℕ, ◌+◌, ◌≤◌, ◌<◌, ◌≡◌, refl, ◌⊎◌, inl, inr, true, false, none, some, arith, ok, err, ok-ne-err,
  sym, subst, is_some, Bool-cases, Option-cases,
}
use os_mini_project.Entities.{
  JobStatus, PrintJob, invalid_job_transition, is_terminal_status, is_blank,
}
use os_mini_project.Lifecycle.{
  can_transition, TransitionPatch, breaks_invariants, assert_job_invariants, patched, checked,
  transition_job, lacks_id,
}

-- What `assertJobInvariants` promises of a job that it lets pass, apart from the safety of the numbers.
pub record IsLawful (job : PrintJob) : Type 0 where
  pub some_pages : 1 ≤ job.pages
  pub pages_bounded : job.pages ≤ 10_000
  pub progress_bounded : job.pages_completed ≤ job.pages
  pub priority_bounded : job.base_priority ≤ 100
  pub named : is_blank job.document_name ≡ false
  pub queued_after_submission : job.submitted_at_ms ≤ job.queued_at_ms
  pub started_after_queue : (t : ℕ) → job.started_at_ms ≡ some t → job.queued_at_ms ≤ t
  pub completed_after_start :
      (t : ℕ) → job.completed_at_ms ≡ some t → (s : ℕ) × (job.started_at_ms ≡ some s) × (s ≤ t)
  pub printer_while_active :
      (job.status ≡ JobStatus.printing) ⊎ (job.status ≡ JobStatus.paused)
      → lacks_id job.assigned_printer_id ≡ false
  pub no_printer_at_end : is_terminal_status job.status ≡ true → job.assigned_printer_id ≡ none
  pub pages_left : is_terminal_status job.status ≡ false → job.pages_completed < job.pages
  pub all_printed :
      job.status ≡ JobStatus.completed
      → (job.pages_completed ≡ job.pages) × (is_some job.completed_at_ms ≡ true)

IsLawful-of_passes : (job : PrintJob) → breaks_invariants job ≡ false → IsLawful job
IsLawful-of_passes job h = record {
  some_pages = ground arith;
  pages_bounded = ground arith;
  progress_bounded = ground arith;
  priority_bounded = ground arith;
  named = ground arith;
  queued_after_submission = ground arith;
  started_after_queue = λ t e. ground arith;
  completed_after_start = λ t e. elim (Option-cases job.started_at_ms) [
    | inl never ↦ absurd (ground arith)
    | inr (s, started) ↦ (s, started, ground arith)
  ];
  printer_while_active = λ e. ground arith;
  no_printer_at_end = λ e. ground arith;
  pages_left = λ e. ground arith;
  all_printed = λ e. ground arith;
}

-- Whenever `assertJobInvariants` lets a job pass, the job is lawful.
pub assert_job_invariants-IsLawful :
    (job : PrintJob) → assert_job_invariants job ≡ ok tt → IsLawful job
unfolding assert_job_invariants
assert_job_invariants-IsLawful job h = IsLawful-of_passes job (ground arith)

checked-ok :
    (job next : PrintJob) → checked job ≡ ok next → (breaks_invariants job ≡ false) × (job ≡ next)
unfolding checked assert_job_invariants
checked-ok job next h = (ground arith, ground arith)

transition_job-patched :
    (job : PrintJob) (status : JobStatus) (patch : TransitionPatch) (next : PrintJob)
    → transition_job job status patch ≡ ok next
    → (can_transition job.status status ≡ true) × (checked (patched job status patch) ≡ ok next)
unfolding transition_job
transition_job-patched job status patch next h =
    elim (Bool-cases (can_transition job.status status)) [
      | inl allowed ↦ (allowed, rw allowed at h)
      | inr refused ↦ absurd (ok-ne-err (sym (rw refused at h)))
    ]

-- Whenever `transitionJob` returns, the table allows the step; the new job has the new status, a
-- version one higher, and the same identity, pages and place in the queue; and it is lawful.
pub transition_job-IsLawful :
    (job : PrintJob) (status : JobStatus) (patch : TransitionPatch) (next : PrintJob)
    → transition_job job status patch ≡ ok next
    → (can_transition job.status status ≡ true)
      × (next.status ≡ status)
      × (next.version ≡ job.version + 1)
      × ((next.id ≡ job.id)
          × (next.pages ≡ job.pages)
          × (next.sequence ≡ job.sequence)
          × (next.queued_at_ms ≡ job.queued_at_ms))
      × IsLawful next
unfolding patched
transition_job-IsLawful job status patch next h =
    let (allowed, passed) = transition_job-patched job status patch next h in
    let (good, same) = checked-ok (patched job status patch) next passed in
    subst
      (λ n.
        (can_transition job.status status ≡ true)
        × (n.status ≡ status)
        × (n.version ≡ job.version + 1)
        × ((n.id ≡ job.id)
            × (n.pages ≡ job.pages)
            × (n.sequence ≡ job.sequence)
            × (n.queued_at_ms ≡ job.queued_at_ms))
        × IsLawful n)
      same
      (
        allowed,
        refl,
        refl,
        (refl, refl, refl, refl),
        IsLawful-of_passes (patched job status patch) good,
      )

terminal_has_no_way :
    (from to : JobStatus) → is_terminal_status from ≡ true → can_transition from to ≡ false
unfolding can_transition
terminal_has_no_way from to h = ground arith

-- A job that is completed, cancelled or failed stays so: `transitionJob` refuses every status,
-- whatever the patch.
pub transition_job_terminal :
    (job : PrintJob) (status : JobStatus) (patch : TransitionPatch)
    → is_terminal_status job.status ≡ true
    → transition_job job status patch ≡ err invalid_job_transition
unfolding transition_job
transition_job_terminal job status patch h = rw (terminal_has_no_way job.status status h)
