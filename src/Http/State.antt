-- ===== src/Http/State.antt =====
-- `stateResource` of apps/api/src/http/resources.ts: a simulation with its jobs, printers, metrics and
-- warnings.
use os_mini_project.Common.{
  ℕ, ◌+◌, Bool, Option, none, some, List, map, select, length, Result, ok, err,
}
use os_mini_project.Entities.{Uuid, PrinterStatus, SpeedMultiplier, DomainSchedulerConfig, Failure}
use os_mini_project.Coordinator.State.{
  QueueCoordinator, CoordinatorSnapshot, PrinterSnapshot, now_of,
}
use os_mini_project.Coordinator.Checks.{snapshot}
use os_mini_project.Http.Resources.{
  JobResource, MetricsResource, present, is_starving, starvation_warning_ms, job_resources,
  metrics_resource,
}

-- `alerts`; severity and code are always the same.
pub record Alert : Type 0 where
  pub id : Uuid
  pub raised_at : ℕ

pub record MutexResource : Type 0 where
  pub locked : Bool
  pub owner_worker_id : Option Uuid
  pub lease_id : Option Uuid
  pub acquired_at : Option ℕ
  pub expires_at : Option ℕ
  pub fence_token : ℕ
  pub waiters : ℕ

pub record PrinterResource : Type 0 where
  pub id : Uuid
  pub simulation_id : Uuid
  pub name : List ℕ
  pub status : PrinterStatus
  pub pages_per_minute : ℕ
  pub supports_color : Bool
  pub supports_duplex : Bool
  pub active_job_id : Option Uuid
  pub mutex : MutexResource
  pub version : ℕ

pub record SimulationResource : Type 0 where
  pub id : Uuid
  pub paused : Bool
  pub simulation_time_ms : ℕ
  pub speed_multiplier : SpeedMultiplier
  pub queue_capacity : ℕ
  pub queue_used : ℕ
  pub state_version : ℕ
  pub scheduler : DomainSchedulerConfig

pub record StateSnapshot : Type 0 where
  pub simulation : SimulationResource
  pub jobs : List JobResource
  pub printers : List PrinterResource
  pub metrics : MetricsResource
  pub alerts : List Alert

-- `printerResource`
unfoldable pub printer_resource : Uuid → PrinterSnapshot → PrinterResource
printer_resource simulation_id printer = record {
  id = printer.state.profile.id;
  simulation_id = simulation_id;
  name = printer.state.name;
  status = printer.state.profile.status;
  pages_per_minute = printer.state.profile.pages_per_minute;
  supports_color = printer.state.profile.supports_color;
  supports_duplex = printer.state.profile.supports_duplex;
  active_job_id = present printer.state.active_job_id;
  mutex = record {
    locked = printer.mutex.locked;
    owner_worker_id = present printer.mutex.owner_worker_id;
    lease_id = present printer.mutex.lease_id;
    acquired_at = printer.mutex.acquired_at_ms;
    expires_at = printer.mutex.expires_at_ms;
    fence_token = printer.mutex.fence_token;
    waiters = printer.mutex.waiters;
  };
  version = printer.state.version;
}

abbrev alert_of : JobResource → Alert
alert_of job = record { id = job.id; raised_at = job.queued_at + starvation_warning_ms }

abbrev state_of :
    Uuid
    → QueueCoordinator
    → CoordinatorSnapshot
    → List JobResource
    → List Alert
    → Result Failure MetricsResource
    → Result Failure StateSnapshot
unfolding printer_resource
state_of simulation_id c s jobs alerts (err e) = err e
state_of simulation_id c s jobs alerts (ok metrics) = ok (record {
  simulation = record {
    id = simulation_id;
    paused = c.clock.paused;
    simulation_time_ms = now_of c;
    speed_multiplier = c.clock.speed_multiplier;
    queue_capacity = s.queue_capacity;
    queue_used = length s.active_buffer_job_ids;
    state_version = s.state_version;
    scheduler = c.scheduler;
  };
  jobs = jobs;
  printers = map (printer_resource simulation_id) s.printers;
  metrics = metrics;
  alerts = alerts;
})

abbrev state_with :
    Uuid
    → QueueCoordinator
    → CoordinatorSnapshot
    → Result Failure (List JobResource)
    → Result Failure StateSnapshot
unfolding state_of metrics_resource
state_with simulation_id c s (err e) = err e
state_with simulation_id c s (ok jobs) =
    let alerts = map alert_of (select (is_starving (now_of c)) jobs) in
    state_of simulation_id c s jobs alerts (metrics_resource c jobs (some (length alerts)) none)

-- `stateResource`
unfoldable pub state_resource : Uuid → QueueCoordinator → Result Failure StateSnapshot
unfolding state_with job_resources
state_resource simulation_id c = elim (snapshot c) [
  | err e ↦ err e
  | ok s ↦ state_with simulation_id c s (job_resources simulation_id c s)
]
