-- ===== src/Coordinator/Jobs/Laws.antt =====
-- What `cancelJob` does to a job, and what new jobs look like.
use os_mini_project.Common.{
  ℕ, ◌+◌, ◌≡◌, ◌∙◌, subst, refl, true, false, none, some, ok, arith, is_safe_integer,
}
use os_mini_project.Common.Dict.{get, put, get-put_self}
use os_mini_project.Entities.{Uuid, JobStatus, PrintJob, is_terminal_status}
use os_mini_project.Lifecycle.{
  breaks_invariants, transition_job, can_transition, checked, patched, assert_job_invariants,
}
use os_mini_project.Sync.Buffer
use os_mini_project.Coordinator.State.{QueueCoordinator, job_value, now_of, event}
use os_mini_project.Coordinator.Jobs.{
  cancel_job_action, cancel_marked, cancelled_job, is_active, is_before_printing, cancel_event,
}

-- The job as `cancelJob` leaves it when no printer has it.
abbrev pub cancelled_of : PrintJob → PrintJob
cancelled_of job = record job {
  status = JobStatus.cancelled;
  assigned_printer_id = none;
  version = job.version + 1;
}

cancelled_of-passes :
    (job : PrintJob)
    → breaks_invariants job ≡ false
    → is_safe_integer (job.version + 1) ≡ true
    → breaks_invariants (cancelled_of job) ≡ false
cancelled_of-passes job lawful safe = ground arith

cancelled_job-waiting :
    (job : PrintJob) (c : QueueCoordinator)
    → is_before_printing job.status ≡ true
    → breaks_invariants job ≡ false
    → is_safe_integer (job.version + 1) ≡ true
    → cancelled_job job c
      ≡ (ok (cancelled_of job), record c { buffer = (Buffer.remove job.id c.buffer).1 })
unfolding cancelled_job transition_job can_transition checked patched assert_job_invariants
cancelled_job-waiting job c waiting lawful safe =
    ground (arith, cancelled_of-passes job lawful safe)

cancel_job_action-unmarked :
    (id : Uuid) (job : PrintJob) (c : QueueCoordinator)
    → get id c.jobs ≡ some job
    → is_terminal_status job.status ≡ false
    → job.cancellation_requested_at_ms ≡ none
    → cancel_job_action id c ≡ cancel_marked job c
unfolding cancel_job_action
cancel_job_action-unmarked id job c known open_job unmarked = ground arith

-- What is left of `cancelJob` once the job is changed.
abbrev stored : PrintJob → PrintJob → QueueCoordinator → QueueCoordinator
stored job next c =
    (event (cancel_event job.id next.status)
      (record c { jobs = put next.id next c.jobs; state_version = c.state_version + 1 })).1

cancel_marked-stored :
    (job next : PrintJob) (c d : QueueCoordinator)
    → cancelled_job job c ≡ (ok next, d)
    → breaks_invariants next ≡ false
    → cancel_marked job c ≡ (ok (job_value next), stored job next d)
unfolding cancel_marked assert_job_invariants
cancel_marked-stored job next c d changed passes = ground arith

cancel_job_action-waiting :
    (id : Uuid) (job : PrintJob) (c : QueueCoordinator)
    → get id c.jobs ≡ some job
    → is_before_printing job.status ≡ true
    → job.cancellation_requested_at_ms ≡ none
    → breaks_invariants job ≡ false
    → is_safe_integer (job.version + 1) ≡ true
    → cancel_job_action id c ≡ (
      ok (job_value (cancelled_of job)),
      stored job (cancelled_of job) (record c { buffer = (Buffer.remove job.id c.buffer).1 }),
    )
cancel_job_action-waiting id job c known waiting unmarked lawful safe =
    cancel_job_action-unmarked id job c known (ground arith) unmarked
    ∙ cancel_marked-stored job (cancelled_of job) c _
        (cancelled_job-waiting job c waiting lawful safe) (cancelled_of-passes job lawful safe)

-- `cancelJob` on a job that waits and is not marked as cancelled (the job satisfies
-- `assertJobInvariants` and its version stays safe) ends it: the job is CANCELLED with no printer,
-- its slot in the buffer is given up, and the state version grows by one.
pub cancel_job_waiting :
    (id : Uuid) (job : PrintJob) (c : QueueCoordinator)
    → get id c.jobs ≡ some job
    → is_before_printing job.status ≡ true
    → job.cancellation_requested_at_ms ≡ none
    → breaks_invariants job ≡ false
    → is_safe_integer (job.version + 1) ≡ true
    → let (r, d) = cancel_job_action id c in
      (r ≡ ok (job_value (cancelled_of job)))
      × (get job.id d.jobs ≡ some (cancelled_of job))
      × (d.buffer ≡ (Buffer.remove job.id c.buffer).1)
      × (d.state_version ≡ c.state_version + 1)
cancel_job_waiting id job c known waiting unmarked lawful safe =
    rw (cancel_job_action-waiting id job c known waiting unmarked lawful safe)
      (refl, get-put_self job.id (cancelled_of job) c.jobs, refl, refl)

-- The job as `cancelJob` marks it.
abbrev pub marked_at : ℕ → PrintJob → PrintJob
marked_at now_ms job = record job {
  cancellation_requested_at_ms = some now_ms;
  version = job.version + 1;
}

marked_at-passes :
    (now_ms : ℕ) (job : PrintJob)
    → breaks_invariants job ≡ false
    → is_safe_integer (job.version + 1) ≡ true
    → is_safe_integer now_ms ≡ true
    → breaks_invariants (marked_at now_ms job) ≡ false
marked_at-passes now_ms job lawful safe now = ground arith

cancelled_job-active :
    (job : PrintJob) (c : QueueCoordinator)
    → is_active job.status ≡ true
    → cancelled_job job c ≡ (ok (marked_at (now_of c) job), c)
unfolding cancelled_job
cancelled_job-active job c active = ground arith

cancel_job_action-active :
    (id : Uuid) (job : PrintJob) (c : QueueCoordinator)
    → get id c.jobs ≡ some job
    → is_active job.status ≡ true
    → job.cancellation_requested_at_ms ≡ none
    → breaks_invariants job ≡ false
    → is_safe_integer (job.version + 1) ≡ true
    → is_safe_integer (now_of c) ≡ true
    → cancel_job_action id c
      ≡ (ok (job_value (marked_at (now_of c) job)), stored job (marked_at (now_of c) job) c)
cancel_job_action-active id job c known active unmarked lawful safe now =
    cancel_job_action-unmarked id job c known (ground arith) unmarked
    ∙ cancel_marked-stored job (marked_at (now_of c) job) c c (cancelled_job-active job c active)
        (marked_at-passes (now_of c) job lawful safe now)

cancel_job_action-marked :
    (id : Uuid) (job : PrintJob) (c : QueueCoordinator) (t : ℕ)
    → get id c.jobs ≡ some job
    → is_terminal_status job.status ≡ false
    → job.cancellation_requested_at_ms ≡ some t
    → cancel_job_action id c ≡ (ok (job_value job), c)
unfolding cancel_job_action
cancel_job_action-marked id job c t known open_job marked = ground arith

-- `cancelJob` on a job that is at a printer and not yet marked only marks it with the present time;
-- the job keeps its status, its printer and its slot. A second `cancelJob` answers with the same
-- job and changes nothing.
pub cancel_job_active :
    (id : Uuid) (job : PrintJob) (c : QueueCoordinator)
    → job.id ≡ id
    → get id c.jobs ≡ some job
    → is_active job.status ≡ true
    → job.cancellation_requested_at_ms ≡ none
    → breaks_invariants job ≡ false
    → is_safe_integer (job.version + 1) ≡ true
    → is_safe_integer (now_of c) ≡ true
    → let marked = marked_at (now_of c) job in
      let (r, d) = cancel_job_action id c in
      (r ≡ ok (job_value marked))
      × (d.buffer ≡ c.buffer)
      × (cancel_job_action id d ≡ (ok (job_value marked), d))
cancel_job_active id job c same known active unmarked lawful safe now =
    rw (cancel_job_action-active id job c known active unmarked lawful safe now) (
      refl,
      refl,
      cancel_job_action-marked id (marked_at (now_of c) job) _ (now_of c)
          (subst
            (λ k.
              get k (put job.id (marked_at (now_of c) job) c.jobs)
              ≡ some (marked_at (now_of c) job))
            same (get-put_self job.id (marked_at (now_of c) job) c.jobs))
          (ground arith) refl,
    )

pub cancel_job_marked_waits :
    (id : Uuid) (job : PrintJob) (c : QueueCoordinator) (t : ℕ)
    → get id c.jobs ≡ some job
    → is_before_printing job.status ≡ true
    → job.cancellation_requested_at_ms ≡ some t
    → cancel_job_action id c ≡ (ok (job_value job), c)
cancel_job_marked_waits id job c t known waiting marked =
    cancel_job_action-marked id job c t known (ground arith) marked
