-- ===== src/Coordinator/Checks.antt =====
-- `snapshot`, `assertSystemInvariants` and `assertPrinter`.
pub mod Laws
pub mod Sound
use os_mini_project.Common.{
  ℕ, zero, suc, ◌*◌, Bool, true, false, ◌||◌, ◌&&◌, not, Option, none, some, List, [], ◌∷◌, ltb,
  ◌==◌, if◌then◌else◌, is_some, length, select, count, head?, contains, is_distinct, Result, ok,
  err, or_default,
}
use os_mini_project.Common.Dict.{Dict, get, values}
use os_mini_project.Entities.{
  Uuid, JobStatus, PrinterStatus, PrintJob, PrinterState, Failure, domain, range_error, type_error,
  invariant_violation, same_job_status, same_printer_status, is_terminal_status, is_blank, is_empty,
  rate_unit,
}
use os_mini_project.Lifecycle.{assert_job_invariants, lacks_id}
use os_mini_project.Sync.Buffer
use os_mini_project.Sync.LeaseMutex.{BinaryLeaseMutex, LeaseInspection, inspect}
use os_mini_project.Coordinator.State.{
  QueueCoordinator, CoordinatorSnapshot, PrinterSnapshot, Method,
}

abbrev with_mutex : PrinterState → Option BinaryLeaseMutex → Result Failure PrinterSnapshot
with_mutex printer none = err range_error
with_mutex printer (some m) = ok (record { state = printer; mutex = inspect m })

-- The printers of `snapshot`; `#mutexFor` throws where a printer has no mutex.
unfoldable pub snapshot_printers :
    List PrinterState → Dict BinaryLeaseMutex → Result Failure (List PrinterSnapshot)
snapshot_printers [] mutexes = ok []
snapshot_printers (p ∷ ps) mutexes =
    let rest = snapshot_printers ps mutexes in
    elim (with_mutex p (get p.id mutexes)) [
      | err e ↦ err e
      | ok s ↦ elim rest [ err e ↦ err e | ok ss ↦ ok (s ∷ ss) ]
    ]

-- `snapshot`
unfoldable pub snapshot : QueueCoordinator → Result Failure CoordinatorSnapshot
snapshot c = elim (snapshot_printers (values c.printers) c.printer_mutexes) [
  | err e ↦ err e
  | ok printers ↦ ok (record {
    state_version = c.state_version;
    queue_capacity = c.buffer.capacity;
    active_buffer_job_ids = Buffer.snapshot c.buffer;
    available_printer_permits = c.printer_permits.permits;
    jobs = values c.jobs;
    printers = printers;
  })
]

-- `failInvariant`
abbrev pub fail_if : Bool → Result Failure (Unit {0})
fail_if true = err (domain invariant_violation)
fail_if false = ok tt

infixl 5 ◌then_check◌
abbrev pub ◌then_check◌ :
    Result Failure (Unit {0}) → Result Failure (Unit {0}) → Result Failure (Unit {0})
ok _ then_check r = r
err e then_check r = err e

-- `printer.activeJobId ? [printer.activeJobId] : []`
abbrev pub assignments : List PrinterSnapshot → List Uuid
assignments [] = []
assignments (p ∷ ps) =
    let rest = assignments ps in
    if lacks_id p.active_job_id then rest else or_default p.active_job_id 0 ∷ rest

-- `a === b` where either may be undefined, and `b` is not.
abbrev pub is_id : Option Uuid → Uuid → Bool
is_id none id = false
is_id (some j) id = j == id

abbrev same_id : Option Uuid → Option Uuid → Bool
same_id none none = true
same_id none (some b) = false
same_id (some a) none = false
same_id (some a) (some b) = a == b

-- The owner test of a printing or paused job: there is one owner, it is the printer that the job
-- names, and its mutex is locked.
abbrev pub bad_owners : List PrinterSnapshot → PrintJob → Bool
bad_owners [] job = true
bad_owners (owner ∷ []) job =
    not (same_id (some owner.id) job.assigned_printer_id) || not owner.mutex.locked
bad_owners (owner ∷ other ∷ more) job = true

abbrev pub owners_of : Uuid → List PrinterSnapshot → List PrinterSnapshot
owners_of id = select (λ p. is_id p.active_job_id id)

abbrev pub is_active_status : JobStatus → Bool
is_active_status status =
    same_job_status status JobStatus.printing || same_job_status status JobStatus.paused

-- `a === b` on Booleans.
abbrev same_bool : Bool → Bool → Bool
same_bool true b = b
same_bool false b = not b

-- The body of the loop over the jobs.
unfoldable pub assert_job : CoordinatorSnapshot → PrintJob → Result Failure (Unit {0})
assert_job s job =
    assert_job_invariants job
    then_check fail_if
        (same_bool (is_terminal_status job.status) (contains job.id s.active_buffer_job_ids))
    then_check fail_if (is_active_status job.status && bad_owners (owners_of job.id s.printers) job)

unfoldable pub assert_jobs : CoordinatorSnapshot → List PrintJob → Result Failure (Unit {0})
unfolding assert_job
assert_jobs s [] = ok tt
assert_jobs s (job ∷ jobs) = assert_job s job then_check assert_jobs s jobs

-- The test in the loop over the printers.
abbrev pub bad_printer : PrinterSnapshot → Bool
bad_printer p =
    let active = is_some p.active_job_id && p.mutex.locked in
    (same_printer_status p.status PrinterStatus.printing && not active)
    || (active
        && not (same_printer_status p.status PrinterStatus.printing)
        && not (same_printer_status p.status PrinterStatus.jammed)
        && not (same_printer_status p.status PrinterStatus.error))

unfoldable pub assert_printers : List PrinterSnapshot → Result Failure (Unit {0})
assert_printers [] = ok tt
assert_printers (p ∷ ps) = fail_if (bad_printer p) then_check assert_printers ps

abbrev pub ready_printers : List PrinterSnapshot → ℕ
ready_printers = count (λ p. same_printer_status p.status PrinterStatus.ready)

-- `assertSystemInvariants`
unfoldable pub assert_system_invariants : CoordinatorSnapshot → Result Failure (Unit {0})
unfolding assert_jobs assert_printers
assert_system_invariants s =
    fail_if (not (is_distinct (assignments s.printers)))
    then_check fail_if (not (is_distinct s.active_buffer_job_ids))
    then_check fail_if (ltb s.queue_capacity (length s.active_buffer_job_ids))
    then_check assert_jobs s s.jobs
    then_check assert_printers s.printers
    then_check fail_if (not (s.available_printer_permits == ready_printers s.printers))

abbrev pub check_snapshot : Result Failure CoordinatorSnapshot → Result Failure (Unit {0})
check_snapshot (ok s) = assert_system_invariants s
check_snapshot (err e) = err e

-- `assertInvariants`
unfoldable pub assert_invariants : Method (Unit {0})
unfolding snapshot assert_system_invariants
assert_invariants c = (check_snapshot (snapshot c), c)

-- `assertPrinter`
unfoldable pub assert_printer : PrinterState → Result Failure (Unit {0})
assert_printer printer =
    if is_empty printer.id || is_blank printer.name
    then err type_error
    else if ltb printer.pages_per_minute rate_unit || ltb (600 * rate_unit) printer.pages_per_minute
    then err range_error
    else if not (same_printer_status printer.status PrinterStatus.ready)
        && not (same_printer_status printer.status PrinterStatus.offline)
    then err (domain invariant_violation)
    else if not (lacks_id printer.active_job_id)
    then err (domain invariant_violation)
    else ok tt
