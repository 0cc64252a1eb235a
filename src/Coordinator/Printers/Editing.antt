-- ===== src/Coordinator/Printers/Editing.antt =====
-- `addPrinter` and `updatePrinter`.
use os_mini_project.Common.{
  ℕ, ◌+◌, Bool, true, false, ◌||◌, ◌&&◌, not, Option, none, some, List, ◌==◌, if◌then◌else◌,
  or_default, any, same_text, err, ◌>>=◌, ◌>>◌, throw_if, pure, gets, lift, modify,
}
use os_mini_project.Common.Dict.{has, put, values}
use os_mini_project.Entities.{
  Uuid, PrinterStatus, PrinterState, domain, invariant_violation, invalid_transition,
  state_version_conflict, plain_error, same_printer_status, is_mono,
}
use os_mini_project.Sync.Semaphore
use os_mini_project.Sync.LeaseMutex.{unlocked}
use os_mini_project.Coordinator.State.{
  CommandMeta, create_printer, update_printer as update_printer_type, printer_created,
  printer_status_updated, Value, printer_value, Method, job_for, printer_for, event, bump_version,
  set_printer,
}
use os_mini_project.Coordinator.Checks.{assert_printer}
use os_mini_project.Coordinator.Execute.{execute}
use os_mini_project.Coordinator.Printers.Permits.{
  return_permit, take_permit, reconcile_compatibility, real_id,
}

-- The action of `addPrinter`.
unfoldable pub add_printer_action : (ℕ → Uuid) → PrinterState → Method Value
unfolding take_permit reconcile_compatibility
add_printer_action fresh printer = do
  lift (assert_printer printer)
  known ← gets (λ c. has printer.id c.printers)
  throw_if known (domain invariant_violation)
  named ← gets (λ c. any (λ (p : PrinterState). same_text p.name printer.name) (values c.printers))
  throw_if named (domain invariant_violation)
  modify (λ c. record c {
    printer_permits = Semaphore.add_available_slot c.printer_permits;
    printers = put printer.id printer c.printers;
    printer_mutexes = put printer.id unlocked c.printer_mutexes;
  })
  if same_printer_status printer.status PrinterStatus.offline
      then take_permit plain_error printer.id (fresh 2)
      else pure tt
  bump_version
  reconcile_compatibility
  event (printer_created printer.id)
  pure (printer_value printer)

-- `addPrinter`
unfoldable pub add_printer : (ℕ → Uuid) → CommandMeta → PrinterState → Method Value
unfolding execute add_printer_action
add_printer fresh meta printer =
    execute fresh meta create_printer (add_printer_action fresh printer)

-- `UpdatePrinterRequest` of packages/contracts/src/requests.ts; a name is never empty there.
pub record UpdatePrinterRequest : Type 0 where
  pub expected_printer_version : ℕ
  pub name : Option (List ℕ)
  pub pages_per_minute : Option ℕ
  pub supports_color : Option Bool
  pub supports_duplex : Option Bool
  pub online : Option Bool

abbrev is_taken : Option (List ℕ) → Uuid → List PrinterState → Bool
is_taken none id printers = false
is_taken (some name) id printers =
    any (λ (p : PrinterState). not (p.id == id) && same_text p.name name) printers

abbrev is_false : Option Bool → Bool
is_false none = false
is_false (some b) = not b

-- The tests on the active job: its needs stay, and the printer is not taken offline.
abbrev check_active : Option Uuid → Bool → Bool → Option Bool → Method (Unit {0})
check_active none color duplex online = pure tt
check_active (some id) color duplex online = do
  job ← job_for id
  throw_if ((not (is_mono job.color_mode) && not color) || (job.duplex && not duplex))
      (domain invalid_transition)
  throw_if (is_false online) (domain invalid_transition)

abbrev target_of : Bool → PrinterStatus
target_of true = PrinterStatus.ready
target_of false = PrinterStatus.offline

abbrev needs_recovery : PrinterStatus → Bool
needs_recovery status =
    same_printer_status status PrinterStatus.printing
    || same_printer_status status PrinterStatus.jammed
    || same_printer_status status PrinterStatus.error

-- The part under `patch.online !== undefined`, which returns the new status.
unfoldable pub change_online : (ℕ → Uuid) → PrinterState → Option Bool → Method PrinterStatus
unfolding return_permit take_permit
change_online fresh printer none = pure printer.status
change_online fresh printer (some online) =
    if needs_recovery printer.status
    then (if not (same_printer_status printer.status PrinterStatus.printing) || not online
        then lift (err (domain invalid_transition))
        else pure printer.status)
    else if same_printer_status printer.status (target_of online)
    then pure printer.status
    else (do
      if online
          then return_permit printer.id (fresh 2)
          else take_permit (domain invariant_violation) printer.id (fresh 2)
      pure (target_of online))

abbrev edited : PrinterState → UpdatePrinterRequest → PrinterStatus → PrinterState
edited printer patch status = record printer {
  profile = record {
    id = printer.id;
    status = status;
    pages_per_minute = or_default patch.pages_per_minute printer.pages_per_minute;
    supports_color = or_default patch.supports_color printer.supports_color;
    supports_duplex = or_default patch.supports_duplex printer.supports_duplex;
  };
  name = or_default patch.name printer.name;
  version = printer.version + 1;
}

-- The action of `updatePrinter`.
unfoldable pub update_printer_action : (ℕ → Uuid) → Uuid → UpdatePrinterRequest → Method Value
unfolding change_online reconcile_compatibility
update_printer_action fresh printer_id patch = do
  printer ← printer_for printer_id
  throw_if (not (printer.version == patch.expected_printer_version)) (domain state_version_conflict)
  taken ← gets (λ c. is_taken patch.name printer_id (values c.printers))
  throw_if taken (domain invariant_violation)
  check_active (real_id printer.active_job_id)
      (or_default patch.supports_color printer.supports_color)
      (or_default patch.supports_duplex printer.supports_duplex) patch.online
  status ← change_online fresh printer patch.online
  let updated = edited printer patch status
  set_printer printer_id updated
  bump_version
  reconcile_compatibility
  event (printer_status_updated printer_id status)
  pure (printer_value updated)

-- `updatePrinter`
unfoldable pub update_printer :
    (ℕ → Uuid) → CommandMeta → Uuid → UpdatePrinterRequest → Method Value
unfolding execute update_printer_action
update_printer fresh meta printer_id patch =
    execute fresh meta update_printer_type (update_printer_action fresh printer_id patch)
