-- ===== src/Lifecycle/Samples.antt =====
-- Runs of the job's state machine.
use os_mini_project.Common.{◌+◌, ◌≡◌, refl, true, none, some}
use os_mini_project.Entities.{JobStatus, PrintJob, is_blank}
use os_mini_project.Entities.Samples.{printing_job}
use os_mini_project.Lifecycle.{
  TransitionPatch, no_patch, clear_printer, can_transition, transition_job, patched, checked,
  assert_job_invariants,
}
use os_mini_project.Lifecycle.Laws.{IsLawful, transition_job-IsLawful}

-- All the pages of a job are printed.
abbrev completing : TransitionPatch
completing = record no_patch {
  pages_completed = some 20;
  completed_at_ms = some 4000;
  assigned_printer = clear_printer;
}

abbrev completed_job : PrintJob
completed_job = record (printing_job 1 20 0 7) {
  status = JobStatus.completed;
  pages_completed = 20;
  completed_at_ms = some 4000;
  assigned_printer_id = none;
  version = 2;
}

transition_job-IsLawful_example :
    (can_transition JobStatus.printing JobStatus.completed ≡ true)
    × (completed_job.status ≡ JobStatus.completed)
    × (completed_job.version ≡ (printing_job 1 20 0 7).version + 1)
    × ((completed_job.id ≡ 1)
        × (completed_job.pages ≡ 20)
        × (completed_job.sequence ≡ 1)
        × (completed_job.queued_at_ms ≡ 0))
    × IsLawful completed_job
unfolding transition_job can_transition patched checked assert_job_invariants is_blank
transition_job-IsLawful_example =
    transition_job-IsLawful (printing_job 1 20 0 7) JobStatus.completed completing completed_job
      refl
