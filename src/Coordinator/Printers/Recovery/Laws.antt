-- ===== src/Coordinator/Printers/Recovery/Laws.antt =====
-- What `recoverStalledJob` makes of the job whose worker stalled.
use os_mini_project.Common.{
  ℕ, some, ◌+◌, ◌≤◌, ◌<◌, ◌≡◌, refl, inl, inr, true, false, none, ok, arith, is_safe_integer, leb,
  Bool-cases,
}
use os_mini_project.Entities.{JobStatus, PrintJob}
use os_mini_project.Lifecycle.{
  breaks_invariants, transition_job, can_transition, checked, patched, assert_job_invariants,
}
use os_mini_project.Common.Dict.{get}
use os_mini_project.Coordinator.State.{QueueCoordinator, job_value}
use os_mini_project.Coordinator.Jobs.{cancel_job_action}
use os_mini_project.Coordinator.Jobs.Laws.{cancel_job_marked_waits}
use os_mini_project.Coordinator.Printers.Recovery.{after_stall}

third :
    (job : PrintJob)
    → job.status ≡ JobStatus.printing
    → breaks_invariants job ≡ false
    → is_safe_integer (job.retry_count + 1) ≡ true
    → is_safe_integer (job.version + 2) ≡ true
    → 2 ≤ job.retry_count
    → after_stall job
      ≡ ok (record job {
        status = JobStatus.failed;
        assigned_printer_id = none;
        retry_count = job.retry_count + 1;
        version = job.version + 1;
      })
unfolding after_stall transition_job can_transition checked patched assert_job_invariants
third job printing lawful retry safe many = ground arith

earlier :
    (job : PrintJob)
    → job.status ≡ JobStatus.printing
    → breaks_invariants job ≡ false
    → is_safe_integer (job.retry_count + 1) ≡ true
    → is_safe_integer (job.version + 2) ≡ true
    → job.retry_count < 2
    → after_stall job
      ≡ ok (record job {
        status = JobStatus.ready;
        assigned_printer_id = none;
        retry_count = job.retry_count + 1;
        version = job.version + 1 + 1;
      })
unfolding after_stall transition_job can_transition checked patched assert_job_invariants
earlier job printing lawful retry safe few = ground arith

-- A printing job that satisfies `assertJobInvariants`, and whose counters stay safe integers, is
-- always given a next state: its third stall makes it FAILED, an earlier one READY. It has no
-- printer any more, one more retry is counted, the version grows by the number of its steps, and
-- everything else is kept: the pages printed, the time at which it was queued and its sequence
-- number, which give its place in the queue, and a wish to cancel it.
pub after_stall_outcome :
    (job : PrintJob)
    → job.status ≡ JobStatus.printing
    → breaks_invariants job ≡ false
    → is_safe_integer (job.retry_count + 1) ≡ true
    → is_safe_integer (job.version + 2) ≡ true
    → (next : PrintJob) × (after_stall job ≡ ok next)
      × (2 ≤ job.retry_count → (next.status ≡ JobStatus.failed) × (next.version ≡ job.version + 1))
      × (job.retry_count < 2 → (next.status ≡ JobStatus.ready) × (next.version ≡ job.version + 2))
      × (next ≡ record job {
        status = next.status;
        assigned_printer_id = none;
        retry_count = job.retry_count + 1;
        version = next.version;
      })
after_stall_outcome job printing lawful retry safe = elim (Bool-cases (leb 2 job.retry_count)) [
  | inl many ↦ (
    record job {
      status = JobStatus.failed;
      assigned_printer_id = none;
      retry_count = job.retry_count + 1;
      version = job.version + 1;
    },
    third job printing lawful retry safe (ground arith),
    λ k. (refl, refl),
    λ k. absurd (ground arith),
    refl,
  )
  | inr few ↦ (
    record job {
      status = JobStatus.ready;
      assigned_printer_id = none;
      retry_count = job.retry_count + 1;
      version = job.version + 1 + 1;
    },
    earlier job printing lawful retry safe (ground arith),
    λ k. absurd (ground arith),
    λ k. (refl, omega arith),
    refl,
  )
]

-- A job at a printer, lawful, marked for cancellation, and with safe counters, whose worker stalls for
-- the first or the second time goes back to READY with its mark. From then on, whatever the
-- coordinator that holds it, `cancelJob` answers the job as it is and changes nothing: the job waits
-- on, with its slot in the buffer, although it was cancelled twice.
pub after_stall-cancel_job_ignored :
    (job : PrintJob) (marked_at_ms : ℕ)
    → job.status ≡ JobStatus.printing
    → breaks_invariants job ≡ false
    → is_safe_integer (job.retry_count + 1) ≡ true
    → is_safe_integer (job.version + 2) ≡ true
    → job.retry_count < 2
    → job.cancellation_requested_at_ms ≡ some marked_at_ms
    → (next : PrintJob) × (after_stall job ≡ ok next)
      × (next.status ≡ JobStatus.ready)
      × ((c : QueueCoordinator)
          → get job.id c.jobs ≡ some next
          → cancel_job_action job.id c ≡ (ok (job_value next), c))
after_stall-cancel_job_ignored job marked_at_ms printing lawful retry safe few marked = (
  _,
  earlier job printing lawful retry safe few,
  refl,
  λ c known. cancel_job_marked_waits job.id _ c marked_at_ms known refl marked,
)
