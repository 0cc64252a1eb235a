-- ===== src/Entities/Samples.antt =====
-- Jobs and printers that the tests of several modules share.
use os_mini_project.Common.{ℕ, ◌*◌, true, false, none, some, [], ◌∷◌}
use os_mini_project.Entities.{
  Uuid, JobStatus, PrinterStatus, ColorMode, PrintJob, PrinterProfile, DomainSchedulerConfig,
  SchedulingAlgorithm, rate_unit,
}

-- A job with this id, length and queue time that is ready.
abbrev pub ready_job : Uuid → ℕ → ℕ → PrintJob
ready_job id pages queued_at_ms = record {
  id = id;
  owner_id = 9;
  document_name = 97 ∷ [];
  pages = pages;
  pages_completed = 0;
  base_priority = 5;
  color_mode = ColorMode.mono;
  duplex = false;
  status = JobStatus.ready;
  submitted_at_ms = 0;
  queued_at_ms = queued_at_ms;
  started_at_ms = none;
  completed_at_ms = none;
  assigned_printer_id = none;
  cancellation_requested_at_ms = none;
  last_progress_at_ms = none;
  retry_count = 0;
  sequence = id;
  version = 0;
}

-- The same job at a printer.
abbrev pub printing_job : Uuid → ℕ → ℕ → Uuid → PrintJob
printing_job id pages queued_at_ms printer_id = record (ready_job id pages queued_at_ms) {
  status = JobStatus.printing;
  started_at_ms = some queued_at_ms;
  assigned_printer_id = some printer_id;
  version = 1;
}

-- A monochrome printer that prints so many pages per minute.
abbrev pub mono_printer : Uuid → ℕ → PrinterProfile
mono_printer id speed = record {
  id = id;
  status = PrinterStatus.ready;
  pages_per_minute = speed * rate_unit;
  supports_color = false;
  supports_duplex = true;
}

abbrev pub config_of : SchedulingAlgorithm → DomainSchedulerConfig
config_of algorithm = record {
  algorithm = algorithm;
  aging_interval_ms = 1000;
  aging_factor = 2;
  priority_cap = 10;
}
