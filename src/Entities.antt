-- ===== src/Entities.antt =====
-- apps/api/src/domain/entities.ts and errors.ts, with the enums of packages/contracts/src/primitives.ts.
-- Numbers are the non-negative safe integers that the code asks for; that they are safe is tested
-- where the code tests it. An identifier is a UUID read as a number, and 0 is the empty string.
-- A name is its list of UTF-16 code units. An optional property is an `Option`.
pub mod Samples
use os_mini_project.Common.{ℕ, Bool, true, false, ◌||◌, Option, List, ◌==◌, leb, ◌&&◌, all}

abbrev pub Uuid : Type 0
Uuid = ℕ

-- `!id` of a string.
abbrev pub is_empty : Uuid → Bool
is_empty id = id == 0

pub data JobStatus : Type 0 where
  queued ready printing paused blocked completed cancelled failed : JobStatus

pub data PrinterStatus : Type 0 where
  ready reserved printing jammed error offline : PrinterStatus

pub data SchedulingAlgorithm : Type 0 where
  fcfs sjf priority_aging : SchedulingAlgorithm

pub data ColorMode : Type 0 where
  mono color : ColorMode

pub data SpeedMultiplier : Type 0 where
  quarter half one two four : SpeedMultiplier

-- `===` on the enums.
abbrev pub same_job_status : JobStatus → JobStatus → Bool
same_job_status JobStatus.queued JobStatus.queued = true
same_job_status JobStatus.ready JobStatus.ready = true
same_job_status JobStatus.printing JobStatus.printing = true
same_job_status JobStatus.paused JobStatus.paused = true
same_job_status JobStatus.blocked JobStatus.blocked = true
same_job_status JobStatus.completed JobStatus.completed = true
same_job_status JobStatus.cancelled JobStatus.cancelled = true
same_job_status JobStatus.failed JobStatus.failed = true
same_job_status _ _ = false

abbrev pub same_printer_status : PrinterStatus → PrinterStatus → Bool
same_printer_status PrinterStatus.ready PrinterStatus.ready = true
same_printer_status PrinterStatus.reserved PrinterStatus.reserved = true
same_printer_status PrinterStatus.printing PrinterStatus.printing = true
same_printer_status PrinterStatus.jammed PrinterStatus.jammed = true
same_printer_status PrinterStatus.error PrinterStatus.error = true
same_printer_status PrinterStatus.offline PrinterStatus.offline = true
same_printer_status _ _ = false

abbrev pub is_mono : ColorMode → Bool
is_mono ColorMode.mono = true
is_mono ColorMode.color = false

pub record PrintJob : Type 0 where
  pub id : Uuid
  pub owner_id : Uuid
  pub document_name : List ℕ
  pub pages : ℕ
  pub pages_completed : ℕ
  pub base_priority : ℕ
  pub color_mode : ColorMode
  pub duplex : Bool
  pub status : JobStatus
  pub submitted_at_ms : ℕ
  pub queued_at_ms : ℕ
  pub started_at_ms : Option ℕ
  pub completed_at_ms : Option ℕ
  pub assigned_printer_id : Option Uuid
  pub cancellation_requested_at_ms : Option ℕ
  pub last_progress_at_ms : Option ℕ
  pub retry_count : ℕ
  pub sequence : ℕ
  pub version : ℕ

-- Printer speeds are fractions in JavaScript, from 1 to 600 pages per minute. A double in that
-- range is a whole number of these units.
abbrev pub rate_unit : ℕ
rate_unit = 4503599627370496

-- `pages_per_minute` counts units of `1 / rate_unit`. The id is a string, the speed a number.
pub record PrinterProfile : Type 0 where
  pub id : Uuid
  pub status : PrinterStatus
  pub pages_per_minute : ℕ
  pub supports_color : Bool
  pub supports_duplex : Bool

pub record PrinterState : Type 0 where
  pub profile : PrinterProfile
  pub open profile use *
  pub name : List ℕ
  pub active_job_id : Option Uuid
  pub version : ℕ

pub record DomainSchedulerConfig : Type 0 where
  pub algorithm : SchedulingAlgorithm
  pub aging_interval_ms : ℕ
  pub aging_factor : ℕ
  pub priority_cap : ℕ

pub record SimulationClockState : Type 0 where
  pub simulation_time_ms : ℕ
  pub speed_multiplier : SpeedMultiplier
  pub paused : Bool

abbrev pub is_terminal_status : JobStatus → Bool
is_terminal_status status =
    same_job_status status JobStatus.completed
    || same_job_status status JobStatus.cancelled
    || same_job_status status JobStatus.failed

pub data DomainErrorCode : Type 0 where
  fence_token_mismatch idempotency_conflict invariant_violation invalid_transition : DomainErrorCode
  job_version_conflict lease_expired lock_not_owned no_compatible_printer : DomainErrorCode
  persistence_unavailable queue_capacity_exceeded resource_busy : DomainErrorCode
  state_version_conflict : DomainErrorCode

-- What the domain throws: a `DomainError` with its code, lifecycle.ts's `InvalidJobTransitionError`
-- (which is no `DomainError`), or one of JavaScript's own classes. Messages are left out.
pub data Failure : Type 0 where
  domain : DomainErrorCode → Failure
  invalid_job_transition range_error type_error plain_error : Failure

-- JavaScript's white space, which `trim` removes.
abbrev pub is_white_space : ℕ → Bool
is_white_space c =
    (leb 9 c && leb c 13)
    || c == 32
    || c == 160
    || c == 0x1680
    || (leb 0x2000 c && leb c 0x200a)
    || c == 0x2028
    || c == 0x2029
    || c == 0x202f
    || c == 0x205f
    || c == 0x3000
    || c == 0xfeff

-- `!name.trim()`
unfoldable pub is_blank : List ℕ → Bool
is_blank name = all is_white_space name
