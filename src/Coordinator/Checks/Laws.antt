-- ===== src/Coordinator/Checks/Laws.antt =====
-- `assertSystemInvariants` lets exactly the sound systems pass.
use os_mini_project.Common.{
  ◌≡◌, refl, ◌⊎◌, ◌↔◌, inl, inr, Bool, true, false, not, ◌&&◌, ◌||◌, is_some, Option, none, some,
  List, [], ◌∷◌, arith, Result, ok, err, length, All, is_distinct, ok-ne-err, sym, ltb, ◌==◌,
  Bool-cases, Option-cases,
}
use os_mini_project.Common.Distinct.{
  is_distinct-Distinct, Distinct-is_distinct, absent-All, All-absent,
}
use os_mini_project.Entities.{
  PrinterStatus, PrintJob, Failure, Uuid, same_printer_status, is_terminal_status,
}
use os_mini_project.Lifecycle.Laws.{assert_job_invariants-IsLawful}
use os_mini_project.Coordinator.State.{CoordinatorSnapshot, PrinterSnapshot}
use os_mini_project.Coordinator.Checks.{
  assignments, assert_job, assert_jobs, assert_printers, ready_printers, assert_system_invariants,
  owners_of, bad_owners, ◌then_check◌, fail_if, is_active_status, bad_printer,
}
use os_mini_project.Coordinator.Checks.Sound.{
  OnlyHolder, JobSound, PrinterSound, SystemSound, contains-IsIn, IsIn-contains, owner-OnlyHolder,
  OnlyHolder-owner, assignments-OneEach, OneEach-assignments,
}

then_check-ok :
    (r q : Result Failure (Unit {0})) → r then_check q ≡ ok tt → (r ≡ ok tt) × (q ≡ ok tt)
then_check-ok (ok _) q h = (refl, h)
then_check-ok (err e) q h = absurd (ok-ne-err (sym h))

fail_if-ok : (b : Bool) → fail_if b ≡ ok tt → b ≡ false
fail_if-ok true h = absurd (ok-ne-err (sym h))
fail_if-ok false h = refl

pass_if : (b : Bool) → b ≡ false → fail_if b ≡ ok tt
pass_if b h = rw h refl

both_pass : (r q : Result Failure (Unit {0})) → r ≡ ok tt → q ≡ ok tt → r then_check q ≡ ok tt
both_pass r q h k = rw (h, k) refl

module _ (s : CoordinatorSnapshot) (job : PrintJob) where
  owned_by :
      (os : List PrinterSnapshot)
      → owners_of job.id s.printers ≡ os
      → bad_owners os job ≡ false
      → (p : PrinterSnapshot) × OnlyHolder job.id p s.printers
        × (job.assigned_printer_id ≡ some p.id)
        × (p.mutex.locked ≡ true)
  owned_by [] e good = absurd (ground arith)
  owned_by (p ∷ []) e good = (p, owner-OnlyHolder job.id p s.printers e, ground arith, ground arith)
  owned_by (p ∷ q ∷ ps) e good = absurd (ground arith)

  assert_job-JobSound : assert_job s job ≡ ok tt → JobSound s job
  unfolding assert_job
  assert_job-JobSound h =
      let (h', owner) = then_check-ok _ _ h in
      let (passes, member) = then_check-ok _ _ h' in
      record {
        passes = passes;
        lawful = assert_job_invariants-IsLawful job passes;
        open_buffered = λ e. contains-IsIn job.id s.active_buffer_job_ids (ground arith);
        ended_unbuffered = λ e. absent-All job.id s.active_buffer_job_ids (ground arith);
        owned = λ e. owned_by (owners_of job.id s.printers) refl (ground arith);
      }

  good_owners :
      JobSound s job
      → (is_active_status job.status && bad_owners (owners_of job.id s.printers) job) ≡ false
  good_owners h = elim (Bool-cases (is_active_status job.status)) [
    | inl active ↦
        let (p, only, named, locked) = h.owned (ground arith) in
        rw (OnlyHolder-owner job.id p s.printers only) (ground (arith, named, locked))
    | inr other ↦ rw other refl
  ]

  JobSound-assert_job : JobSound s job → assert_job s job ≡ ok tt
  unfolding assert_job
  JobSound-assert_job h =
      both_pass _ _
        (both_pass _ _ h.passes (
          pass_if _ (elim (Bool-cases (is_terminal_status job.status)) [
            | inl ended ↦
                ground (
                  arith,
                  ended,
                  All-absent job.id s.active_buffer_job_ids (h.ended_unbuffered ended),
                )
            | inr open_one ↦ ground (
              arith,
              open_one,
              IsIn-contains job.id s.active_buffer_job_ids (h.open_buffered open_one),
            )
          ])))
        (pass_if _ (good_owners h))

assert_jobs-All :
    (s : CoordinatorSnapshot) (jobs : List PrintJob)
    → assert_jobs s jobs ≡ ok tt
    → All (JobSound s) jobs
unfolding assert_jobs
assert_jobs-All s [] h = tt
assert_jobs-All s (job ∷ jobs) h =
    let (first, rest) = then_check-ok _ _ h in
    (assert_job-JobSound s job first, assert_jobs-All s jobs rest)

All-assert_jobs :
    (s : CoordinatorSnapshot) (jobs : List PrintJob)
    → All (JobSound s) jobs
    → assert_jobs s jobs ≡ ok tt
unfolding assert_jobs
All-assert_jobs s [] h = refl
All-assert_jobs s (job ∷ jobs) h =
    both_pass _ _ (JobSound-assert_job s job h.0) (All-assert_jobs s jobs h.1)

bad_printer-PrinterSound : (p : PrinterSnapshot) → bad_printer p ≡ false → PrinterSound p
bad_printer-PrinterSound p h = elim (Option-cases p.active_job_id) [
  | inl never ↦ record { busy = λ e. absurd (ground arith); idle = λ e. inl never }
  | inr (id, held) ↦ record {
    busy = λ e. ((id, held), ground arith);
    idle = λ e. inr (ground arith);
  }
]

in_status :
    {locked : Bool} (status : PrinterStatus) (active : Option Uuid)
    → (status ≡ PrinterStatus.printing → ((id : Uuid) × (active ≡ some id)) × (locked ≡ true))
    → ((status ≡ PrinterStatus.ready)
          ⊎ ((status ≡ PrinterStatus.offline) ⊎ (status ≡ PrinterStatus.reserved))
        → (active ≡ none) ⊎ (locked ≡ false))
    → (same_printer_status status PrinterStatus.printing && not (is_some active && locked)
        || is_some active
          && locked
          && not (same_printer_status status PrinterStatus.printing)
          && not (same_printer_status status PrinterStatus.jammed)
          && not (same_printer_status status PrinterStatus.error))
      ≡ false
in_status PrinterStatus.ready active busy idle = elim (idle (inl refl)) [
  | inl none_held ↦ ground (arith, none_held)
  | inr free ↦ ground (arith, free)
]
in_status PrinterStatus.offline active busy idle = elim (idle (inr (inl refl))) [
  | inl none_held ↦ ground (arith, none_held)
  | inr free ↦ ground (arith, free)
]
in_status PrinterStatus.reserved active busy idle = elim (idle (inr (inr refl))) [
  | inl none_held ↦ ground (arith, none_held)
  | inr free ↦ ground (arith, free)
]
in_status PrinterStatus.printing active busy idle =
    let ((id, held), locked) = busy refl in ground (arith, held, locked)
in_status PrinterStatus.jammed active busy idle = ground arith
in_status PrinterStatus.error active busy idle = ground arith

PrinterSound-bad_printer : (p : PrinterSnapshot) → PrinterSound p → bad_printer p ≡ false
PrinterSound-bad_printer p h = in_status p.status p.active_job_id h.busy h.idle

assert_printers-All : (ps : List PrinterSnapshot) → assert_printers ps ≡ ok tt → All PrinterSound ps
unfolding assert_printers
assert_printers-All [] h = tt
assert_printers-All (p ∷ ps) h =
    let (first, rest) = then_check-ok _ _ h in
    (bad_printer-PrinterSound p (fail_if-ok _ first), assert_printers-All ps rest)

All-assert_printers : (ps : List PrinterSnapshot) → All PrinterSound ps → assert_printers ps ≡ ok tt
unfolding assert_printers
All-assert_printers [] h = refl
All-assert_printers (p ∷ ps) h =
    both_pass _ _ (pass_if _ (PrinterSound-bad_printer p h.0)) (All-assert_printers ps h.1)

pub assert_system_invariants_sound :
    (s : CoordinatorSnapshot) → assert_system_invariants s ≡ ok tt → SystemSound s
unfolding assert_system_invariants
assert_system_invariants_sound s h =
    let (h4, permits) = then_check-ok _ _ h in
    let (h3, printers) = then_check-ok _ _ h4 in
    let (h2, jobs) = then_check-ok _ _ h3 in
    let (h1, capacity) = then_check-ok _ _ h2 in
    let (one_each, once) = then_check-ok _ _ h1 in
    let distinct : is_distinct (assignments s.printers) ≡ true =
      ground (arith, fail_if-ok (not (is_distinct (assignments s.printers))) one_each) in
    let unrepeated : is_distinct s.active_buffer_job_ids ≡ true =
      ground (arith, fail_if-ok (not (is_distinct s.active_buffer_job_ids)) once) in
    record {
      one_printer_each =
          assignments-OneEach s.printers (is_distinct-Distinct (assignments s.printers) distinct);
      buffered_once = is_distinct-Distinct s.active_buffer_job_ids unrepeated;
      within_capacity =
          ground
            (arith, fail_if-ok (ltb s.queue_capacity (length s.active_buffer_job_ids)) capacity);
      jobs_sound = assert_jobs-All s s.jobs jobs;
      printers_sound = assert_printers-All s.printers printers;
      permits_count = ground (
        arith,
        fail_if-ok (not (s.available_printer_permits == ready_printers s.printers)) permits,
      );
    }

sound_lets_pass : (s : CoordinatorSnapshot) → SystemSound s → assert_system_invariants s ≡ ok tt
unfolding assert_system_invariants
sound_lets_pass s h =
    let distinct =
      Distinct-is_distinct (assignments s.printers)
        (OneEach-assignments s.printers h.one_printer_each) in
    let unrepeated = Distinct-is_distinct s.active_buffer_job_ids h.buffered_once in
    both_pass _ _
      (both_pass _ _
        (both_pass _ _
          (both_pass _ _
            (both_pass _ _ (pass_if _ (rw distinct refl)) (pass_if _ (rw unrepeated refl)))
            (pass_if _ (ground (arith, h.within_capacity))))
          (All-assert_jobs s s.jobs h.jobs_sound))
        (All-assert_printers s.printers h.printers_sound))
      (pass_if _ (ground (arith, h.permits_count)))

-- `assertSystemInvariants` lets a snapshot pass exactly where the system is sound: no two printers have
-- one job; the buffer is within its capacity and repeats no id; every job passes
-- `assertJobInvariants`, is in the buffer exactly until it ends, and has one printer, named by it and
-- locked, while it is active; a printer that prints has a job and a locked mutex, and one that is ready,
-- offline or reserved lacks one of them; and there are as many permits as ready printers. Ids in the
-- buffer that are of no job are neither asked for nor excluded.
pub assert_system_invariants-SystemSound :
    (s : CoordinatorSnapshot) → (assert_system_invariants s ≡ ok tt) ↔ SystemSound s
assert_system_invariants-SystemSound s = (assert_system_invariants_sound s, sound_lets_pass s)
