-- ===== src/Coordinator/Work/Laws.antt =====
-- What a page does to a job, and that page by page every job ends.
use os_mini_project.Common.{
  ℕ, ◌+◌, ◌≤◌, ◌<◌, ◌≡◌, refl, true, false, none, some, List, [], ◌∷◌, Result, ok, err, arith,
  is_safe_integer, max_safe_integer, length, All,
}
use os_mini_project.Entities.{JobStatus, PrintJob, Failure}
use os_mini_project.Lifecycle.{
  breaks_invariants, transition_job, can_transition, checked, patched, assert_job_invariants,
}
use os_mini_project.Coordinator.Work.Pages.{end_of_page, job_after_page, progressed}

-- A job in the middle of printing that satisfies `assertJobInvariants`.
pub record IsPrinting (job : PrintJob) : Type 0 where
  pub printing : job.status ≡ JobStatus.printing
  pub lawful : breaks_invariants job ≡ false

-- The job after its last page, and after the page at which it is cancelled.
abbrev pub completed_of : PrintJob → ℕ → PrintJob
completed_of job now_ms = record job {
  status = JobStatus.completed;
  pages_completed = job.pages_completed + 1;
  completed_at_ms = some now_ms;
  last_progress_at_ms = some now_ms;
  assigned_printer_id = none;
  version = job.version + 1 + 1;
}

abbrev pub stopped_of : PrintJob → ℕ → PrintJob
stopped_of job now_ms = record job {
  status = JobStatus.cancelled;
  pages_completed = job.pages_completed + 1;
  last_progress_at_ms = some now_ms;
  assigned_printer_id = none;
  version = job.version + 1 + 1;
}

page_completes :
    (job : PrintJob) (now_ms started_ms : ℕ)
    → IsPrinting job
    → is_safe_integer now_ms ≡ true
    → is_safe_integer (job.version + 2) ≡ true
    → job.started_at_ms ≡ some started_ms
    → started_ms ≤ now_ms
    → job.cancellation_requested_at_ms ≡ none
    → job.pages_completed + 1 ≡ job.pages
    → job_after_page job now_ms (end_of_page job) ≡ ok (completed_of job now_ms)
unfolding transition_job can_transition checked patched assert_job_invariants
page_completes job now_ms started_ms v now safe started later unmarked last =
    ground (arith, v.printing, v.lawful)

page_cancels :
    (job : PrintJob) (now_ms t : ℕ)
    → IsPrinting job
    → is_safe_integer now_ms ≡ true
    → is_safe_integer (job.version + 2) ≡ true
    → job.cancellation_requested_at_ms ≡ some t
    → job_after_page job now_ms (end_of_page job) ≡ ok (stopped_of job now_ms)
unfolding transition_job can_transition checked patched assert_job_invariants
page_cancels job now_ms t v now safe marked = ground (arith, v.printing, v.lawful)

page_goes_on :
    (job : PrintJob) (now_ms : ℕ)
    → IsPrinting job
    → is_safe_integer now_ms ≡ true
    → is_safe_integer (job.version + 2) ≡ true
    → job.cancellation_requested_at_ms ≡ none
    → job.pages_completed + 1 < job.pages
    → (job_after_page job now_ms (end_of_page job) ≡ ok (progressed job now_ms))
      × IsPrinting (progressed job now_ms)
unfolding checked assert_job_invariants
page_goes_on job now_ms v now safe unmarked more = (
  ground (arith, v.printing, v.lawful),
  record { printing = v.printing; lawful = ground (arith, v.printing, v.lawful) },
)

-- One page of a printing job that satisfies `assertJobInvariants`, at a safe time not before its
-- start and with safe versions: a job with a cancellation mark ends CANCELLED, whatever pages are
-- left; any other ends COMPLETED with its last page, at this time; and otherwise it goes on printing.
-- In each case one page more is printed.
pub page_outcome :
    (job : PrintJob) (now_ms started_ms : ℕ)
    → IsPrinting job
    → is_safe_integer now_ms ≡ true
    → is_safe_integer (job.version + 2) ≡ true
    → job.started_at_ms ≡ some started_ms
    → started_ms ≤ now_ms
    → ((t : ℕ)
        → job.cancellation_requested_at_ms ≡ some t
        → job_after_page job now_ms (end_of_page job) ≡ ok (stopped_of job now_ms))
      × (job.cancellation_requested_at_ms ≡ none
          → job.pages_completed + 1 ≡ job.pages
          → job_after_page job now_ms (end_of_page job) ≡ ok (completed_of job now_ms))
      × (job.cancellation_requested_at_ms ≡ none
          → job.pages_completed + 1 < job.pages
          → (job_after_page job now_ms (end_of_page job) ≡ ok (progressed job now_ms))
            × IsPrinting (progressed job now_ms))
page_outcome job now_ms started_ms v now safe started later = (
  λ t marked. page_cancels job now_ms t v now safe marked,
  λ unmarked last. page_completes job now_ms started_ms v now safe started later unmarked last,
  λ unmarked more. page_goes_on job now_ms v now safe unmarked more,
)

-- A page at each of these times, until one is refused.
abbrev pub print_pages : List ℕ → PrintJob → Result Failure PrintJob
print_pages [] job = ok job
print_pages (t ∷ ts) job = elim (job_after_page job t (end_of_page job)) [
  | ok next ↦ print_pages ts next
  | err e ↦ err e
]

-- Every printing job that satisfies `assertJobInvariants` ends: without a cancellation mark, as many
-- pages as are left, at any safe times not before its start, complete it, if its version stays safe.
pub print_pages_completes :
    (times : List ℕ) (job : PrintJob) (started_ms : ℕ)
    → IsPrinting job
    → job.cancellation_requested_at_ms ≡ none
    → job.started_at_ms ≡ some started_ms
    → All (λ t. (started_ms ≤ t) × (t ≤ max_safe_integer)) times
    → 0 < length times
    → job.pages_completed + length times ≡ job.pages
    → job.version + length times + 1 ≤ max_safe_integer
    → (done : PrintJob) × (print_pages times job ≡ ok done)
      × (done.status ≡ JobStatus.completed)
      × (done.pages_completed ≡ job.pages)
print_pages_completes [] job started_ms v unmarked started safe some_page left versions =
    absurd (omega arith)
print_pages_completes (t ∷ []) job started_ms v unmarked started safe some_page left versions = (
  completed_of job t,
  rw
      (
        page_completes job t started_ms v (ground (arith, safe.0)) (ground arith) started safe.0.0
            unmarked (omega arith),
        print_pages,
      )
      refl,
  refl,
  omega arith,
)
print_pages_completes (t ∷ u ∷ ts) job started_ms v unmarked started safe some_page left versions =
    let (went_on, v') =
      page_goes_on job t v (ground (arith, safe.0)) (ground arith) unmarked (omega arith) in
    let (done, ran, status, pages) =
      print_pages_completes (u ∷ ts) (progressed job t) started_ms v' unmarked started safe.1
        (omega arith) (omega arith) (omega arith) in
    (done, rw (went_on, print_pages) ran, status, pages)
