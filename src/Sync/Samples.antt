-- ===== src/Sync/Samples.antt =====
-- Runs of the buffer and the locks.
use os_mini_project.Common.{
  ℕ, ◌+◌, ◌≤◌, ◌<◌, ◌≡◌, ◌⊎◌, inr, refl, false, some, List, [], ◌∷◌, length, arith, ok, err,
}
use os_mini_project.Entities.{
  Uuid, domain, fence_token_mismatch, invariant_violation, queue_capacity_exceeded,
}
use os_mini_project.Sync.Buffer.{
  BoundedBuffer, BurstPushResult, atomic, available_capacity, push_burst, set_all, size,
}
use os_mini_project.Sync.Buffer.Laws.{Pushed, push_burst-Pushed, push_burst_outcomes, AreFresh}
use os_mini_project.Sync.Semaphore.{CountingSemaphore, SemaphorePermit}
use os_mini_project.Sync.Semaphore
use os_mini_project.Sync.Semaphore.Laws.{
  run-create_bounded, release_serves_oldest, release_twice, after-IsFair, IsFair,
  add_available_slot_unfair,
}
use os_mini_project.Sync.Semaphore.Laws as SemaphoreLaws
use os_mini_project.Sync.FairMutex.{FairMutex, MutexHandle, coordinator}
use os_mini_project.Sync.FairMutex.Laws.{run-IsFair, release_cases}
use os_mini_project.Sync.FairMutex.Laws as FairLaws
use os_mini_project.Sync.LeaseMutex.{
  BinaryLeaseMutex, LeaseHandle, LeaseWaiter, Served, fence_expired, renew, assert_owned, owns,
  expiry, restore, inspect,
}
use os_mini_project.Sync.LeaseMutex
use os_mini_project.Sync.LeaseMutex.Laws.{
  fenced_handle_refused, assert_owned_unique, restore-inspect,
}
use os_mini_project.Sync.LeaseMutex.Laws as LeaseLaws

-- A buffer of four places with two items.
abbrev half_full : BoundedBuffer Uuid
half_full = record { capacity = 4; items = (1, 1) ∷ (2, 2) ∷ [] }

abbrev filled : BoundedBuffer Uuid
filled = record { capacity = 4; items = (1, 1) ∷ (2, 2) ∷ (3, 3) ∷ (4, 4) ∷ [] }

push_burst-Pushed_example :
    Pushed
      (λ id. id)
      (3 ∷ 4 ∷ 5 ∷ [])
      available_capacity
      half_full
      filled
      (record { accepted = 3 ∷ 4 ∷ []; rejected = 5 ∷ [] })
unfolding push_burst set_all
push_burst-Pushed_example =
    push_burst-Pushed (λ id. id) (3 ∷ 4 ∷ 5 ∷ []) available_capacity half_full filled
      (record { accepted = 3 ∷ 4 ∷ []; rejected = 5 ∷ [] }) (omega arith) refl

-- One permit of two is free.
abbrev one_free : CountingSemaphore
one_free = record { permits = 1; maximum_permits = 2; active = 11 ∷ []; waiters = [] }

-- No permit is free, and two wait.
abbrev two_wait : CountingSemaphore
two_wait = record { permits = 0; maximum_permits = 1; active = 11 ∷ []; waiters = 21 ∷ 22 ∷ [] }

abbrev held_permit : SemaphorePermit
held_permit = record { token = 11; released = false }

abbrev semaphore_calls : List SemaphoreLaws.Call
semaphore_calls =
    SemaphoreLaws.tries 11
    ∷ SemaphoreLaws.acquires 12 31 100
    ∷ SemaphoreLaws.acquires 13 32 100
    ∷ SemaphoreLaws.releases held_permit 14
    ∷ SemaphoreLaws.releases held_permit 15
    ∷ SemaphoreLaws.adds_slot
    ∷ []

run-create_bounded_example :
    let s =
      SemaphoreLaws.run semaphore_calls
        (record { permits = 2; maximum_permits = 2; active = []; waiters = [] }) in
    s.permits + length s.active ≤ s.maximum_permits
unfolding Semaphore.create
run-create_bounded_example = run-create_bounded 2 2 _ semaphore_calls refl

push_burst_outcomes_example :
    (¬ AreFresh (λ id. id) (3 ∷ 4 ∷ 5 ∷ []) half_full
      → push_burst (λ id. id) (3 ∷ 4 ∷ 5 ∷ []) atomic half_full
        ≡ (err (domain invariant_violation), half_full))
    × (AreFresh (λ id. id) (3 ∷ 4 ∷ 5 ∷ []) half_full
        → atomic ≡ atomic
        → half_full.capacity < size half_full + length {A = Uuid} (3 ∷ 4 ∷ 5 ∷ [])
        → push_burst (λ id. id) (3 ∷ 4 ∷ 5 ∷ []) atomic half_full
          ≡ (err (domain queue_capacity_exceeded), half_full))
    × (AreFresh (λ id. id) (3 ∷ 4 ∷ 5 ∷ []) half_full
        → (atomic ≡ available_capacity)
          ⊎ (size half_full + length {A = Uuid} (3 ∷ 4 ∷ 5 ∷ []) ≤ half_full.capacity)
        → (r : BurstPushResult Uuid) × ((push_burst (λ id. id) (3 ∷ 4 ∷ 5 ∷ []) atomic half_full).0
            ≡ ok r))
push_burst_outcomes_example =
    push_burst_outcomes (λ id. id) (3 ∷ 4 ∷ 5 ∷ []) atomic half_full (omega arith)

add_available_slot_unfair_example :
    let (r, s') = Semaphore.acquire 12 31 100 (Semaphore.add_available_slot two_wait) in
    (¬ IsFair (Semaphore.add_available_slot two_wait))
    × (r ≡ ok (Semaphore.granted (record { token = 12; released = false })))
    × (s'.permits ≡ 0)
    × (s'.waiters ≡ 21 ∷ 22 ∷ [])
    × ((Semaphore.time_out 21 s').waiters ≡ 22 ∷ [])
add_available_slot_unfair_example =
    add_available_slot_unfair two_wait 21 31 100 (22 ∷ []) 12 refl refl refl

abbrev first_owner : MutexHandle
first_owner = record { owner_id = coordinator 5; token = 41; released = false }

abbrev queued_mutex : FairMutex
queued_mutex = record {
  owner = some (record { owner_id = coordinator 5; token = 41 });
  waiters = record { waiter = 31; owner_id = coordinator 6 } ∷ [];
}

abbrev mutex_calls : List FairLaws.Call
mutex_calls =
    FairLaws.acquires (coordinator 7) 42 32 100
    ∷ FairLaws.times_out 31
    ∷ FairLaws.releases first_owner 43
    ∷ FairLaws.releases first_owner 44
    ∷ []

run-IsFair_example : FairLaws.IsFair (FairLaws.run mutex_calls queued_mutex)
run-IsFair_example = run-IsFair mutex_calls queued_mutex (inr (λ h. cc))

-- A lease of worker 3 until 500, with worker 4 waiting for a lease of 200.
abbrev leased : BinaryLeaseMutex
leased = record {
  owner =
      some
        (record { owner_worker_id = 3; lease_id = 51; acquired_at_ms = 100; expires_at_ms = 500 });
  fence_token = 6;
  waiters = record { waiter = 33; owner_worker_id = 4; lease_duration_ms = 200 } ∷ [];
}

abbrev lease : LeaseHandle
lease = record { owner_worker_id = 3; lease_id = 51; fence_token = 6; released = false }

-- The mutex after it was fenced at 600.
abbrev fenced : BinaryLeaseMutex
fenced = record {
  owner =
      some
        (record { owner_worker_id = 4; lease_id = 52; acquired_at_ms = 600; expires_at_ms = 800 });
  fence_token = 7;
  waiters = [];
}

abbrev served : ℕ × Served
served =
    (7, some (33, record { owner_worker_id = 4; lease_id = 52; fence_token = 7; released = false }))

abbrev lease_calls : List LeaseLaws.Call
lease_calls = LeaseLaws.acquires 650 53 3 100 34 100 ∷ LeaseLaws.releases 660 lease 54 ∷ []

fenced_handle_refused_example :
    (renew 700 lease 100 (LeaseLaws.run lease_calls fenced)
      ≡ (err (domain fence_token_mismatch), LeaseLaws.run lease_calls fenced))
    × (LeaseMutex.release 700 lease 55 (LeaseLaws.run lease_calls fenced)
        ≡ (err (domain fence_token_mismatch), LeaseLaws.run lease_calls fenced))
unfolding fence_expired LeaseMutex.grant
fenced_handle_refused_example =
    fenced_handle_refused 600 lease 52 leased fenced served lease_calls 700 100 55 refl refl
      (omega arith) (omega arith)
