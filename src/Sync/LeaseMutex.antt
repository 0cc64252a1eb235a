-- ===== src/Sync/LeaseMutex.antt =====
-- apps/api/src/domain/synchronization/binary-lease-mutex.ts, with the conventions of
-- Semaphore.antt. The clock that the constructor takes is the argument `now` of each call.
pub mod Laws
use os_mini_project.Common.{
  ℕ, ◌+◌, ◌≡◌, Bool, true, false, ◌||◌, ◌&&◌, not, Option, none, some, List, [], ◌∷◌, ◌++◌, ltb,
  leb, ◌==◌, if◌then◌else◌, is_safe_integer, Result, ok, err, Action,
}
use os_mini_project.Entities.{
  Uuid, Failure, domain, range_error, type_error, resource_busy, lock_not_owned,
  fence_token_mismatch, lease_expired, is_empty,
}

pub record LeaseOwner : Type 0 where
  pub owner_worker_id : Uuid
  pub lease_id : Uuid
  pub acquired_at_ms : ℕ
  pub expires_at_ms : ℕ

pub record LeaseHandle : Type 0 where
  pub owner_worker_id : Uuid
  pub lease_id : Uuid
  pub fence_token : ℕ
  pub released : Bool

pub record LeaseWaiter : Type 0 where
  pub waiter : ℕ
  pub owner_worker_id : Uuid
  pub lease_duration_ms : ℕ

pub record BinaryLeaseMutex : Type 0 where
  pub owner : Option LeaseOwner
  pub fence_token : ℕ
  pub waiters : List LeaseWaiter

-- `LeaseInspection`
pub record LeaseInspection : Type 0 where
  pub locked : Bool
  pub owner_worker_id : Option Uuid
  pub lease_id : Option Uuid
  pub acquired_at_ms : Option ℕ
  pub expires_at_ms : Option ℕ
  pub fence_token : ℕ
  pub waiters : ℕ

pub data Acquired : Type 0 where
  granted : LeaseHandle → Acquired
  pending : ℕ → Acquired

-- The constructor with no initial inspection.
abbrev pub unlocked : BinaryLeaseMutex
unlocked = record { owner = none; fence_token = 0; waiters = [] }

-- The constructor's test of an initial inspection: an owner if every part is there. A worker's and
-- a lease's id count only if they are not empty.
abbrev restored_owner : Bool → Option Uuid → Option Uuid → Option ℕ → Option ℕ → Option LeaseOwner
restored_owner true (some worker) (some lease) (some acquired) (some expires) =
    if is_empty worker || is_empty lease
    then none
    else some (record {
      owner_worker_id = worker;
      lease_id = lease;
      acquired_at_ms = acquired;
      expires_at_ms = expires;
    })
restored_owner _ _ _ _ _ = none

-- The constructor with an initial inspection.
unfoldable pub restore : LeaseInspection → BinaryLeaseMutex
restore i = record {
  owner = restored_owner i.locked i.owner_worker_id i.lease_id i.acquired_at_ms i.expires_at_ms;
  fence_token = i.fence_token;
  waiters = [];
}

-- `#handle`
abbrev handle_of : LeaseOwner → ℕ → LeaseHandle
handle_of owner fence_token = record {
  owner_worker_id = owner.owner_worker_id;
  lease_id = owner.lease_id;
  fence_token = fence_token;
  released = false;
}

unfoldable pub restored_handle : BinaryLeaseMutex → Result Failure LeaseHandle
restored_handle m = elim m.owner [
  | none ↦ err (domain lock_not_owned)
  | some owner ↦ ok (handle_of owner m.fence_token)
]

abbrev count_waiters : List LeaseWaiter → ℕ
count_waiters [] = 0
count_waiters (w ∷ ws) = count_waiters ws + 1

unfoldable pub inspect : BinaryLeaseMutex → LeaseInspection
inspect m = elim m.owner [
  | none ↦ record {
    locked = false;
    owner_worker_id = none;
    lease_id = none;
    acquired_at_ms = none;
    expires_at_ms = none;
    fence_token = m.fence_token;
    waiters = count_waiters m.waiters;
  }
  | some owner ↦ record {
    locked = true;
    owner_worker_id = some owner.owner_worker_id;
    lease_id = some owner.lease_id;
    acquired_at_ms = some owner.acquired_at_ms;
    expires_at_ms = some owner.expires_at_ms;
    fence_token = m.fence_token;
    waiters = count_waiters m.waiters;
  }
]

-- `#grant`
unfoldable pub grant : ℕ → Uuid → Uuid → ℕ → BinaryLeaseMutex → LeaseHandle × BinaryLeaseMutex
grant now uuid worker duration m =
    let owner : LeaseOwner = record {
      owner_worker_id = worker;
      lease_id = uuid;
      acquired_at_ms = now;
      expires_at_ms = now + duration;
    } in
    (handle_of owner m.fence_token, record m { owner = some owner })

-- `assertDuration`, where 0 is refused.
abbrev bad_duration : ℕ → Bool
bad_duration duration = not (is_safe_integer duration) || ltb duration 1

abbrev acquire_from :
    Option LeaseOwner → ℕ → Uuid → Uuid → ℕ → ℕ → ℕ → Action BinaryLeaseMutex Failure Acquired
unfolding grant
acquire_from none now uuid worker duration waiter timeout_ms m =
    let (handle, m') = grant now uuid worker duration m in (ok (granted handle), m')
acquire_from (some owner) now uuid worker duration waiter timeout_ms m =
    if timeout_ms == 0 then (err (domain resource_busy), m) else (
      ok (pending waiter),
      record m {
        waiters =
            m.waiters
            ++ record { waiter = waiter; owner_worker_id = worker; lease_duration_ms = duration }
              ∷ [];
      },
    )

unfoldable pub acquire : ℕ → Uuid → Uuid → ℕ → ℕ → ℕ → Action BinaryLeaseMutex Failure Acquired
unfolding grant
acquire now uuid worker duration waiter timeout_ms m =
    if is_empty worker
    then (err type_error, m)
    else if bad_duration duration
    then (err range_error, m)
    else if not (is_safe_integer timeout_ms)
    then (err range_error, m)
    else acquire_from m.owner now uuid worker duration waiter timeout_ms m

abbrev pub owns : Option LeaseOwner → Uuid → Bool
owns none lease_id = false
owns (some owner) lease_id = owner.lease_id == lease_id

-- The instant from which the lease has run out.
abbrev pub expiry : Option LeaseOwner → ℕ
expiry none = 0
expiry (some owner) = owner.expires_at_ms

unfoldable pub assert_owned : ℕ → Uuid → ℕ → BinaryLeaseMutex → Result Failure (Unit {0})
assert_owned now lease_id fence_token m =
    if not (fence_token == m.fence_token)
    then err (domain fence_token_mismatch)
    else if not (owns m.owner lease_id)
    then err (domain lock_not_owned)
    else if leb (expiry m.owner) now
    then err (domain lease_expired)
    else ok tt

abbrev without : ℕ → List LeaseWaiter → List LeaseWaiter
without k [] = []
without k (w ∷ ws) = let rest = without k ws in if k == w.waiter then ws else w ∷ rest

-- The callback of a waiter's timer.
unfoldable pub time_out : ℕ → BinaryLeaseMutex → BinaryLeaseMutex
time_out waiter m = record m { waiters = without waiter m.waiters }

abbrev pub Served : Type 0
Served = Option (ℕ × LeaseHandle)

-- `#grantNext`, on the queue of waiters.
grant_next : List LeaseWaiter → ℕ → Uuid → BinaryLeaseMutex → Served × BinaryLeaseMutex
unfolding grant
grant_next [] now uuid m = (none, m)
grant_next (w ∷ rest) now uuid m =
    let (handle, m') =
      grant now uuid w.owner_worker_id w.lease_duration_ms (record m { waiters = rest }) in
    (some (w.waiter, handle), m')

-- `fenceExpired` returns the new fence token; the waiter that it serves is reported beside it.
unfoldable pub fence_expired : ℕ → Uuid → ℕ → Uuid → Action BinaryLeaseMutex Failure (ℕ × Served)
unfolding grant_next
fence_expired now lease_id expected uuid m =
    if not (expected == m.fence_token)
    then (err (domain fence_token_mismatch), m)
    else if not (owns m.owner lease_id)
    then (err (domain lock_not_owned), m)
    else if ltb now (expiry m.owner)
    then (err (domain resource_busy), m)
    else let (served, m') =
        grant_next m.waiters now uuid
          (record m { fence_token = m.fence_token + 1; owner = none }) in
      (ok (m'.fence_token, served), m')

abbrev extended : Option LeaseOwner → ℕ → Option LeaseOwner
extended none expires = none
extended (some owner) expires = some (record owner { expires_at_ms = expires })

-- `renew` of a handle.
unfoldable pub renew : ℕ → LeaseHandle → ℕ → Action BinaryLeaseMutex Failure (Unit {0})
unfolding assert_owned
renew now handle duration m =
    if bad_duration duration
    then (err range_error, m)
    else elim (assert_owned now handle.lease_id handle.fence_token m) [
      | err e ↦ (err e, m)
      | ok _ ↦ (ok tt, record m { owner = extended m.owner (now + duration) })
    ]

-- `release` of a handle, which is `record handle { released = true }` from then on.
unfoldable pub release : ℕ → LeaseHandle → Uuid → Action BinaryLeaseMutex Failure Served
unfolding assert_owned grant_next
release now handle uuid m =
    if handle.released
    then (err (domain lock_not_owned), m)
    else elim (assert_owned now handle.lease_id handle.fence_token m) [
      | err e ↦ (err e, m)
      | ok _ ↦
          let (served, m') = grant_next m.waiters now uuid (record m { owner = none }) in
          (ok served, m')
    ]
