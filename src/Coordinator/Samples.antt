-- ===== src/Coordinator/Samples.antt =====
-- Runs of the coordinator on one printer and two jobs.
use os_mini_project.Common.{
  ◌↔◌, List, All, ℕ, ◌+◌, ◌≤◌, ◌<◌, ◌≡◌, refl, true, false, none, some, [], ◌∷◌, arith, ok, err,
}
use os_mini_project.Common.Dict.{get}
use os_mini_project.Common.Sort.{sort, insert}
use os_mini_project.Entities.{
  ColorMode, Uuid, JobStatus, PrinterStatus, PrintJob, PrinterState, is_blank, domain,
  invalid_transition, priority_aging, one,
}
use os_mini_project.Entities.Samples.{ready_job, printing_job, mono_printer, config_of}
use os_mini_project.Lifecycle.{
  transition_job, can_transition, checked, patched, assert_job_invariants,
}
use os_mini_project.Sync.Buffer
use os_mini_project.Sync.FairMutex
use os_mini_project.Sync.LeaseMutex.{inspect}
use os_mini_project.Coordinator.State.{
  JobSubmission, has_compatible_printer, QueueCoordinator, CoordinatorSnapshot, CommandMeta,
  job_value, cancel_job as cancel_type,
}
use os_mini_project.Coordinator.Checks.{
  snapshot_printers, snapshot, assert_job, assert_jobs, assert_printers, assert_system_invariants,
  assert_invariants,
}
use os_mini_project.Coordinator.Checks.Sound.{SystemSound}
use os_mini_project.Coordinator.Checks.Laws.{assert_system_invariants-SystemSound}
use os_mini_project.Coordinator.Execute.{attempt, execute}
use os_mini_project.Coordinator.Execute.Laws.{execute_accepted_sound}
use os_mini_project.Coordinator.Jobs.Submission.{AreNew, new_jobs-AreNew}
use os_mini_project.Coordinator.Jobs.{
  new_job, new_jobs, cancel_job_action, cancel_marked, cancelled_job,
}
use os_mini_project.Coordinator.Jobs.Laws.{
  cancelled_of, marked_at, cancel_job_waiting, cancel_job_active,
}
use os_mini_project.Coordinator.Work.Dispatch.{best_printer_for}
use os_mini_project.Coordinator.Work.Pages.{job_after_page, end_of_page, progressed}
use os_mini_project.Coordinator.Work.Choice.{best_printer_for-fastest}
use os_mini_project.Coordinator.Work.Laws.{
  IsPrinting, completed_of, stopped_of, page_outcome, print_pages, print_pages_completes,
}
use os_mini_project.Scheduler.{supports}
use os_mini_project.Coordinator.Printers.Recovery.{after_stall}
use os_mini_project.Coordinator.Printers.Recovery.Laws.{
  after_stall_outcome, after_stall-cancel_job_ignored,
}

abbrev printer : PrinterState
printer = record {
  profile = record (mono_printer 7 30) { status = PrinterStatus.printing };
  name = 112 ∷ [];
  active_job_id = some 1;
  version = 1;
}

-- Job 1 is printed by printer 7, job 2 waits, and command 90 was refused earlier.
abbrev two_jobs : QueueCoordinator
two_jobs = record {
  queue_mutex = FairMutex.unlocked;
  buffer = record { capacity = 3; items = (1, 1) ∷ (2, 2) ∷ [] };
  printer_permits = record { permits = 0; maximum_permits = 1; active = 61 ∷ []; waiters = [] };
  printer_mutexes =
      (
        7,
        record {
          owner = some (record {
            owner_worker_id = 3;
            lease_id = 51;
            acquired_at_ms = 10;
            expires_at_ms = 5010;
          });
          fence_token = 0;
          waiters = [];
        },
      )
      ∷ [];
  unavailable_permits = [];
  active_workers =
      (
        7,
        record {
          lease = record { owner_worker_id = 3; lease_id = 51; fence_token = 0; released = false };
          permit = record { token = 61; released = false };
          worker_id = 3;
        },
      )
      ∷ [];
  jobs = (1, printing_job 1 20 0 7) ∷ (2, ready_job 2 3 5) ∷ [];
  printers = (7, printer) ∷ [];
  command_results = (90, err (domain invalid_transition)) ∷ [];
  events = [];
  scheduler = config_of priority_aging;
  state_version = 4;
  next_sequence = 3;
  metrics_sequence_start = 1;
  worker_lease_ms = 5000;
  clock = record {
    simulation_time_ms = 20;
    speed_multiplier = one;
    paused = false;
    last_real_time_ms = 20;
    fractional_quarters = 0;
  };
}

abbrev fresh : ℕ → Uuid
fresh n = 100 + n

abbrev meta : CommandMeta
meta = record { command_id = 91; expected_state_version = none }

execute_accepted_sound_example :
    (s : CoordinatorSnapshot) × (snapshot
        (execute fresh meta cancel_type (cancel_job_action 2) two_jobs).1
      ≡ ok s)
    × SystemSound s
unfolding execute attempt assert_invariants assert_system_invariants assert_job assert_jobs
    assert_printers snapshot snapshot_printers cancel_job_action cancel_marked cancelled_job
    transition_job can_transition checked patched assert_job_invariants is_blank Buffer.remove
    inspect FairMutex.acquire FairMutex.grant FairMutex.release
execute_accepted_sound_example =
    execute_accepted_sound fresh meta cancel_type (cancel_job_action 2) two_jobs _
      (job_value (cancelled_of (ready_job 2 3 5))) (refl, refl) refl refl

abbrev stale_meta : CommandMeta
stale_meta = record { command_id = 91; expected_state_version = some 5 }

abbrev shown : CoordinatorSnapshot
shown = record {
  state_version = 4;
  queue_capacity = 3;
  active_buffer_job_ids = 1 ∷ 2 ∷ [];
  available_printer_permits = 0;
  jobs = printing_job 1 20 0 7 ∷ ready_job 2 3 5 ∷ [];
  printers =
      record {
        state = printer;
        mutex = record {
          locked = true;
          owner_worker_id = some 3;
          lease_id = some 51;
          acquired_at_ms = some 10;
          expires_at_ms = some 5010;
          fence_token = 0;
          waiters = 0;
        };
      }
      ∷ [];
}

assert_system_invariants-SystemSound_example :
    (assert_system_invariants shown ≡ ok tt) ↔ SystemSound shown
assert_system_invariants-SystemSound_example = assert_system_invariants-SystemSound shown

-- The second stall of a job.
abbrev stalled_job : PrintJob
stalled_job = record (printing_job 1 20 0 7) {
  retry_count = 1;
  cancellation_requested_at_ms = some 15;
}

after_stall_outcome_example :
    (next : PrintJob) × (after_stall stalled_job ≡ ok next)
    × (2 ≤ 1 → (next.status ≡ JobStatus.failed) × (next.version ≡ stalled_job.version + 1))
    × (1 < 2 → (next.status ≡ JobStatus.ready) × (next.version ≡ stalled_job.version + 2))
    × (next ≡ record stalled_job {
      status = next.status;
      assigned_printer_id = none;
      retry_count = 2;
      version = next.version;
    })
unfolding is_blank
after_stall_outcome_example = after_stall_outcome stalled_job refl refl refl refl

cancel_job_waiting_example :
    let (r, d) = cancel_job_action 2 two_jobs in
    (r ≡ ok (job_value (cancelled_of (ready_job 2 3 5))))
    × (get 2 d.jobs ≡ some (cancelled_of (ready_job 2 3 5)))
    × (d.buffer ≡ (Buffer.remove 2 two_jobs.buffer).1)
    × (d.state_version ≡ 5)
unfolding is_blank
cancel_job_waiting_example =
    cancel_job_waiting 2 (ready_job 2 3 5) two_jobs refl refl refl refl refl

cancel_job_active_example :
    let marked = marked_at 20 (printing_job 1 20 0 7) in
    let (r, d) = cancel_job_action 1 two_jobs in
    (r ≡ ok (job_value marked))
    × (d.buffer ≡ two_jobs.buffer)
    × (cancel_job_action 1 d ≡ (ok (job_value marked), d))
unfolding is_blank
cancel_job_active_example =
    cancel_job_active 1 (printing_job 1 20 0 7) two_jobs refl refl refl refl refl refl refl

after_stall-cancel_job_ignored_example :
    (next : PrintJob) × (after_stall stalled_job ≡ ok next)
    × (next.status ≡ JobStatus.ready)
    × ((c : QueueCoordinator)
        → get 1 c.jobs ≡ some next
        → cancel_job_action 1 c ≡ (ok (job_value next), c))
unfolding is_blank
after_stall-cancel_job_ignored_example =
    after_stall-cancel_job_ignored stalled_job 15 refl refl refl refl (omega arith) refl

abbrev fast_printer : PrinterState
fast_printer = record printer { profile = mono_printer 8 60; active_job_id = none }

abbrev other_fast_printer : PrinterState
other_fast_printer = record printer { profile = mono_printer 9 60; active_job_id = none }

best_printer_for-fastest_example :
    (supports fast_printer.profile (ready_job 2 3 5) ≡ true)
    × All
        (λ q.
          supports q.profile (ready_job 2 3 5) ≡ true
          → q.pages_per_minute ≤ fast_printer.pages_per_minute)
        (printer ∷ other_fast_printer ∷ fast_printer ∷ [])
unfolding best_printer_for sort insert
best_printer_for-fastest_example =
    best_printer_for-fastest (ready_job 2 3 5) (printer ∷ other_fast_printer ∷ fast_printer ∷ [])
      fast_printer (omega arith) refl

-- Two pages of three are printed.
abbrev near_end : PrintJob
near_end = record (printing_job 1 3 0 7) { pages_completed = 2 }

page_outcome_example :
    ((t : ℕ)
      → near_end.cancellation_requested_at_ms ≡ some t
      → job_after_page near_end 2000 (end_of_page near_end) ≡ ok (stopped_of near_end 2000))
    × (near_end.cancellation_requested_at_ms ≡ none
        → near_end.pages_completed + 1 ≡ near_end.pages
        → job_after_page near_end 2000 (end_of_page near_end) ≡ ok (completed_of near_end 2000))
    × (near_end.cancellation_requested_at_ms ≡ none
        → near_end.pages_completed + 1 < near_end.pages
        → (job_after_page near_end 2000 (end_of_page near_end) ≡ ok (progressed near_end 2000))
          × IsPrinting (progressed near_end 2000))
unfolding is_blank
page_outcome_example =
    page_outcome near_end 2000 0 (record { printing = refl; lawful = refl }) refl refl refl
      (omega arith)

print_pages_completes_example :
    (done : PrintJob) × (print_pages (1000 ∷ 2000 ∷ 3000 ∷ []) (printing_job 1 3 0 7) ≡ ok done)
    × (done.status ≡ JobStatus.completed)
    × (done.pages_completed ≡ 3)
unfolding is_blank
print_pages_completes_example =
    print_pages_completes (1000 ∷ 2000 ∷ 3000 ∷ []) (printing_job 1 3 0 7) 0
      (record { printing = refl; lawful = refl }) refl refl
      ((omega arith, omega arith), ((omega arith, omega arith), ((omega arith, omega arith), tt)))
      (omega arith) refl (omega arith)

abbrev submission : Uuid → ℕ → JobSubmission
submission id delay = record {
  id = id;
  owner_id = 9;
  input = record {
    document_name = 97 ∷ [];
    pages = 4;
    base_priority = 5;
    color_mode = ColorMode.mono;
    duplex = false;
    arrival_delay_ms = delay;
  };
}

-- One job that is ready at once, and one that arrives later.
abbrev submitted_jobs : List PrintJob
submitted_jobs =
    record (ready_job 5 4 20) { submitted_at_ms = 20; sequence = 3 }
    ∷ record (ready_job 6 4 120) { submitted_at_ms = 20; sequence = 4; status = JobStatus.queued }
    ∷ []

new_jobs-AreNew_example :
    (two_jobs ≡ two_jobs) × AreNew (submission 5 0 ∷ submission 6 100 ∷ []) 3 20 submitted_jobs
unfolding new_jobs new_job checked assert_job_invariants is_blank has_compatible_printer
new_jobs-AreNew_example =
    new_jobs-AreNew (submission 5 0 ∷ submission 6 100 ∷ []) 3 20 two_jobs two_jobs submitted_jobs
      refl
