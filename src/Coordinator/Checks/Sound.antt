-- ===== src/Coordinator/Checks/Sound.antt =====
-- Sound systems, told without the tests of `assertSystemInvariants`.
use os_mini_project.Common.{
  ℕ, ◌≤◌, ◌≡◌, ◌≢◌, refl, sym, ap, ◌∙◌, ◌⊎◌, inl, inr, true, false, Option, none, some, List, [],
  ◌∷◌, arith, ok, length, All, Bool-cases, Option-cases, ◌==◌, contains, some-injective,
}
use os_mini_project.Common.Distinct.{Distinct}
use os_mini_project.Entities.{Uuid, JobStatus, PrinterStatus, PrintJob, is_terminal_status}
use os_mini_project.Lifecycle.{assert_job_invariants, lacks_id}
use os_mini_project.Lifecycle.Laws.{IsLawful}
use os_mini_project.Coordinator.State.{CoordinatorSnapshot, PrinterSnapshot}
use os_mini_project.Coordinator.Checks.{assignments, owners_of, is_id, ready_printers}

abbrev pub Lacks : Uuid → PrinterSnapshot → Type 0
Lacks id p = p.active_job_id ≢ some id

-- No two printers have one job; the empty id stands for no job.
abbrev pub OneEach : List PrinterSnapshot → Type 0
OneEach [] = Unit {0}
OneEach (p ∷ ps) =
    ((id : Uuid) → id ≢ 0 → p.active_job_id ≡ some id → All (Lacks id) ps) × OneEach ps

-- Of the printers, `p` is the one that has the job.
abbrev pub OnlyHolder : Uuid → PrinterSnapshot → List PrinterSnapshot → Type 0
OnlyHolder id p [] = ⊥
OnlyHolder id p (q ∷ qs) =
    ((q ≡ p) × (q.active_job_id ≡ some id) × All (Lacks id) qs) ⊎ (Lacks id q × OnlyHolder id p qs)

abbrev pub IsIn : ℕ → List ℕ → Type 0
IsIn k [] = ⊥
IsIn k (x ∷ xs) = (k ≡ x) ⊎ IsIn k xs

-- A job in its system: it passes the tests of its own, it is in the buffer exactly until it ends, and
-- while it is active it has one printer, which it names, and whose mutex is locked.
pub record JobSound (s : CoordinatorSnapshot) (job : PrintJob) : Type 0 where
  pub passes : assert_job_invariants job ≡ ok tt
  pub lawful : IsLawful job
  pub open_buffered : is_terminal_status job.status ≡ false → IsIn job.id s.active_buffer_job_ids
  pub ended_unbuffered :
      is_terminal_status job.status ≡ true → All (λ id. job.id ≢ id) s.active_buffer_job_ids
  pub owned :
      (job.status ≡ JobStatus.printing) ⊎ (job.status ≡ JobStatus.paused)
      → (p : PrinterSnapshot) × OnlyHolder job.id p s.printers
        × (job.assigned_printer_id ≡ some p.id)
        × (p.mutex.locked ≡ true)

-- A printer that prints has a job and a locked mutex; one that is ready, offline or reserved lacks one of them.
pub record PrinterSound (p : PrinterSnapshot) : Type 0 where
  pub busy :
      p.status ≡ PrinterStatus.printing
      → ((id : Uuid) × (p.active_job_id ≡ some id)) × (p.mutex.locked ≡ true)
  pub idle :
      (p.status ≡ PrinterStatus.ready)
        ⊎ ((p.status ≡ PrinterStatus.offline) ⊎ (p.status ≡ PrinterStatus.reserved))
      → (p.active_job_id ≡ none) ⊎ (p.mutex.locked ≡ false)

pub record SystemSound (s : CoordinatorSnapshot) : Type 0 where
  pub one_printer_each : OneEach s.printers
  pub buffered_once : Distinct s.active_buffer_job_ids
  pub within_capacity : length s.active_buffer_job_ids ≤ s.queue_capacity
  pub jobs_sound : All (JobSound s) s.jobs
  pub printers_sound : All PrinterSound s.printers
  pub permits_count : s.available_printer_permits ≡ ready_printers s.printers

pub contains-IsIn : (k : ℕ) (xs : List ℕ) → contains k xs ≡ true → IsIn k xs
contains-IsIn k [] h = absurd (ground arith)
contains-IsIn k (x ∷ xs) h = elim (Bool-cases (k == x)) [
  | inl same ↦ inl (ground (arith, same))
  | inr other ↦ inr (contains-IsIn k xs (ground (arith, h, other)))
]

pub IsIn-contains : (k : ℕ) (xs : List ℕ) → IsIn k xs → contains k xs ≡ true
IsIn-contains k [] h = absurd h
IsIn-contains k (x ∷ xs) (inl same) = ground (arith, same)
IsIn-contains k (x ∷ xs) (inr rest) = ground (arith, IsIn-contains k xs rest)

has_id : (o : Option Uuid) (id : Uuid) → is_id o id ≡ true → o ≡ some id
has_id none id h = absurd (ground arith)
has_id (some j) id h = ap some (ground arith)

lacks : (o : Option Uuid) (id : Uuid) → is_id o id ≡ false → o ≢ some id
lacks none id h e = absurd (ground arith)
lacks (some j) id h e = absurd (ground (arith, some-injective e))

none-Lacks : (id : Uuid) (ps : List PrinterSnapshot) → owners_of id ps ≡ [] → All (Lacks id) ps
none-Lacks id [] h = tt
none-Lacks id (p ∷ ps) h = elim (Bool-cases (is_id p.active_job_id id)) [
  | inl held ↦ absurd (ground (arith, held, h))
  | inr free ↦ (lacks p.active_job_id id free, none-Lacks id ps (ground (arith, free, h)))
]

Lacks-none : (id : Uuid) (ps : List PrinterSnapshot) → All (Lacks id) ps → owners_of id ps ≡ []
Lacks-none id [] h = refl
Lacks-none id (p ∷ ps) h = elim (Bool-cases (is_id p.active_job_id id)) [
  | inl held ↦ absurd (h.0 (has_id p.active_job_id id held))
  | inr free ↦ rw free (Lacks-none id ps h.1)
]

pub owner-OnlyHolder :
    (id : Uuid) (p : PrinterSnapshot) (ps : List PrinterSnapshot)
    → owners_of id ps ≡ p ∷ []
    → OnlyHolder id p ps
owner-OnlyHolder id p [] h = absurd (ground arith)
owner-OnlyHolder id p (q ∷ qs) h = elim (Bool-cases (is_id q.active_job_id id)) [
  | inl held ↦ inl (
    ground (arith, held, h),
    has_id q.active_job_id id held,
    none-Lacks id qs (ground (arith, held, h)),
  )
  | inr free ↦
      inr (lacks q.active_job_id id free, owner-OnlyHolder id p qs (ground (arith, free, h)))
]

pub OnlyHolder-owner :
    (id : Uuid) (p : PrinterSnapshot) (ps : List PrinterSnapshot)
    → OnlyHolder id p ps
    → owners_of id ps ≡ p ∷ []
OnlyHolder-owner id p [] h = absurd h
OnlyHolder-owner id p (q ∷ qs) (inl (same, holds, rest)) =
    let held : is_id q.active_job_id id ≡ true = rw holds (ground arith) in
    rw (held, Lacks-none id qs rest, same) refl
OnlyHolder-owner id p (q ∷ qs) (inr (free, rest)) = elim (Bool-cases (is_id q.active_job_id id)) [
  | inl held ↦ absurd (free (has_id q.active_job_id id held))
  | inr other ↦ rw other (OnlyHolder-owner id p qs rest)
]

apart-Lacks :
    (id : Uuid) (ps : List PrinterSnapshot)
    → id ≢ 0
    → All (λ j. id ≢ j) (assignments ps)
    → All (Lacks id) ps
apart-Lacks id [] some_id h = tt
apart-Lacks id (p ∷ ps) some_id h = elim (Bool-cases (lacks_id p.active_job_id)) [
  | inl free ↦ (λ e. ground (arith, e, free, some_id), apart-Lacks id ps some_id (rw free at h))
  | inr held ↦
      let (first, rest) = rw held at h in (λ e. first (rw e refl), apart-Lacks id ps some_id rest)
]

Lacks-apart :
    (id : Uuid) (ps : List PrinterSnapshot) → All (Lacks id) ps → All (λ j. id ≢ j) (assignments ps)
Lacks-apart id [] h = tt
Lacks-apart id (p ∷ ps) h = elim (Option-cases p.active_job_id) [
  | inl never ↦ rw never (Lacks-apart id ps h.1)
  | inr (j, e) ↦ elim (Bool-cases (j == 0)) [
    | inl empty ↦ rw (e, empty) (Lacks-apart id ps h.1)
    | inr full ↦ rw (e, full) (λ same. h.0 (e ∙ ap some (sym same)), Lacks-apart id ps h.1)
  ]
]

pub assignments-OneEach : (ps : List PrinterSnapshot) → Distinct (assignments ps) → OneEach ps
assignments-OneEach [] h = tt
assignments-OneEach (p ∷ ps) h = elim (Bool-cases (lacks_id p.active_job_id)) [
  | inl free ↦ (
    λ id some_id e. absurd (ground (arith, e, free, some_id)),
    assignments-OneEach ps (rw free at h),
  )
  | inr held ↦
      let (first, rest) = rw held at h in
      (λ id some_id e. apart-Lacks id ps some_id (rw e at first), assignments-OneEach ps rest)
]

pub OneEach-assignments : (ps : List PrinterSnapshot) → OneEach ps → Distinct (assignments ps)
OneEach-assignments [] h = tt
OneEach-assignments (p ∷ ps) h = elim (Option-cases p.active_job_id) [
  | inl never ↦ rw never (OneEach-assignments ps h.1)
  | inr (j, e) ↦ elim (Bool-cases (j == 0)) [
    | inl empty ↦ rw (e, empty) (OneEach-assignments ps h.1)
    | inr full ↦
        rw (e, full)
          (
            Lacks-apart j ps (h.0 j (λ z. absurd (ground (arith, full, z))) e),
            OneEach-assignments ps h.1,
          )
  ]
]
