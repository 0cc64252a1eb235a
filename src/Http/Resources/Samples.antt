-- ===== src/Http/Resources/Samples.antt =====
-- The metrics of a simulation with a completed job, a job at a printer and a job that waits.
use os_mini_project.Common.{true, false, ◌≡◌, refl, none, some, List, [], ◌∷◌, arith, ok, err}
use os_mini_project.Entities.{JobStatus, PrinterStatus, PrintJob, PrinterState, fcfs, one, is_blank}
use os_mini_project.Entities.Samples.{printing_job, ready_job, mono_printer}
use os_mini_project.Lifecycle.{assert_job_invariants}
use os_mini_project.Scheduler.{candidates_for, candidate_for, predicted_service_ms}
use os_mini_project.Sync.FairMutex
use os_mini_project.Sync.LeaseMutex.{inspect}
use os_mini_project.Coordinator.State.{QueueCoordinator, CoordinatorSnapshot}
use os_mini_project.Coordinator.Checks.{snapshot, snapshot_printers}
use os_mini_project.Http.Resources.{JobResource, MetricsResource, job_resources, metrics_resource}
use os_mini_project.Http.Resources.Returns.{IsSensible, metrics_resource-IsSensible}

abbrev done : PrintJob
done = record (printing_job 1 20 0 7) {
  status = JobStatus.completed;
  pages_completed = 20;
  completed_at_ms = some 4000;
  assigned_printer_id = none;
}

abbrev printer : PrinterState
printer = record {
  profile = record (mono_printer 7 30) { status = PrinterStatus.printing };
  name = 112 ∷ [];
  active_job_id = some 3;
  version = 1;
}

abbrev at_work : PrintJob
at_work = record (printing_job 3 20 0 7) { sequence = 3 }

abbrev after_work : QueueCoordinator
after_work = record {
  queue_mutex = FairMutex.unlocked;
  buffer = record { capacity = 2; items = (3, 3) ∷ (2, 2) ∷ [] };
  printer_permits = record { permits = 0; maximum_permits = 1; active = 61 ∷ []; waiters = [] };
  printer_mutexes =
      (
        7,
        record {
          owner = some (record {
            owner_worker_id = 3;
            lease_id = 51;
            acquired_at_ms = 10;
            expires_at_ms = 5010;
          });
          waiters = [];
          fence_token = 1;
        },
      )
      ∷ [];
  unavailable_permits = [];
  active_workers =
      (
        7,
        record {
          lease = record { owner_worker_id = 3; lease_id = 51; fence_token = 1; released = false };
          permit = record { token = 61; released = false };
          worker_id = 3;
        },
      )
      ∷ [];
  jobs = (1, done) ∷ (2, ready_job 2 3 5) ∷ (3, at_work) ∷ [];
  printers = (7, printer) ∷ [];
  command_results = [];
  events = [];
  scheduler = record {
    algorithm = fcfs;
    aging_interval_ms = 5_000;
    aging_factor = 2;
    priority_cap = 100;
  };
  state_version = 3;
  next_sequence = 4;
  metrics_sequence_start = 1;
  worker_lease_ms = 1_000;
  clock = record {
    simulation_time_ms = 9_000;
    speed_multiplier = one;
    paused = false;
    last_real_time_ms = 0;
    fractional_quarters = 0;
  };
}

abbrev shown : CoordinatorSnapshot
shown = record {
  state_version = 3;
  queue_capacity = 2;
  active_buffer_job_ids = 3 ∷ 2 ∷ [];
  available_printer_permits = 0;
  jobs = done ∷ ready_job 2 3 5 ∷ at_work ∷ [];
  printers =
      record {
        state = printer;
        mutex = record {
          locked = true;
          owner_worker_id = some 3;
          lease_id = some 51;
          acquired_at_ms = some 10;
          expires_at_ms = some 5010;
          fence_token = 1;
          waiters = 0;
        };
      }
      ∷ [];
}

abbrev listed : List JobResource
unfolding job_resources candidates_for candidate_for predicted_service_ms
listed = elim (job_resources 5 after_work shown) [ err e ↦ [] | ok jobs ↦ jobs ]

metrics_resource-IsSensible_example :
    (m : MetricsResource) × (metrics_resource after_work listed none none ≡ ok m)
    × IsSensible listed m
unfolding job_resources candidates_for candidate_for predicted_service_ms snapshot
    assert_job_invariants is_blank snapshot_printers inspect
metrics_resource-IsSensible_example =
    metrics_resource-IsSensible 5 after_work shown listed none none refl (refl, (refl, (refl, tt)))
      refl (omega arith) (omega arith)
