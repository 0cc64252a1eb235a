-- ===== src/Sync/Semaphore.antt =====
-- apps/api/src/domain/synchronization/counting-semaphore.ts. A UUID that `randomUUID` returns is an
-- argument `uuid`; a promise that is not settled at once is the number of its waiter, and the call
-- that settles it reports that number.
pub mod Laws
use os_mini_project.Common.{
  ℕ, suc, ◌+◌, ◌-◌, ◌≡◌, Bool, true, false, ◌||◌, not, Option, none, some, List, [], ◌∷◌, ◌++◌, ltb,
  ◌==◌, if◌then◌else◌, is_safe_integer, contains, remove, Result, ok, err, Action,
}
use os_mini_project.Entities.{
  Uuid, Failure, domain, range_error, resource_busy, lock_not_owned, invariant_violation,
}

-- `released` is the variable that the closure of `#grant` keeps.
pub record SemaphorePermit : Type 0 where
  pub token : Uuid
  pub released : Bool

pub record CountingSemaphore : Type 0 where
  pub permits : ℕ
  pub maximum_permits : ℕ
  pub active : List Uuid
  pub waiters : List ℕ

-- A promise: settled with a permit, or left to a waiter in the queue.
pub data Acquired : Type 0 where
  granted : SemaphorePermit → Acquired
  pending : ℕ → Acquired

-- The constructor.
unfoldable pub create : ℕ → ℕ → Result Failure CountingSemaphore
create maximum_permits initial_permits =
    if not (is_safe_integer maximum_permits)
    then err range_error
    else if not (is_safe_integer initial_permits) || ltb maximum_permits initial_permits
    then err range_error
    else ok (record {
      permits = initial_permits;
      maximum_permits = maximum_permits;
      active = [];
      waiters = [];
    })

-- `#grant`
unfoldable pub grant : Uuid → Action CountingSemaphore Failure SemaphorePermit
grant uuid s = if s.permits == 0 then (err (domain resource_busy), s) else (
  ok (record { token = uuid; released = false }),
  record s { permits = s.permits - 1; active = s.active ++ uuid ∷ [] },
)

abbrev some_when_ok : Result Failure SemaphorePermit → Option SemaphorePermit
some_when_ok (ok p) = some p
some_when_ok (err e) = none

-- `tryAcquire`; `#grant` cannot throw after the test.
unfoldable pub try_acquire : Uuid → CountingSemaphore → Option SemaphorePermit × CountingSemaphore
unfolding grant
try_acquire uuid s =
    if s.permits == 0 then (none, s) else let (r, s') = grant uuid s in (some_when_ok r, s')

-- `acquire`, up to the moment when its promise is settled or its waiter queued.
unfoldable pub acquire : Uuid → ℕ → ℕ → Action CountingSemaphore Failure Acquired
unfolding try_acquire
acquire uuid waiter timeout_ms s =
    if not (is_safe_integer timeout_ms)
    then (err range_error, s)
    else let (permit, s') = try_acquire uuid s in
      elim permit [
        | some p ↦ (ok (granted p), s')
        | none ↦
            if timeout_ms == 0
            then (err (domain resource_busy), s')
            else (ok (pending waiter), record s' { waiters = s'.waiters ++ waiter ∷ [] })
      ]

-- The callback of a waiter's timer: it leaves the queue, and its promise is rejected.
unfoldable pub time_out : ℕ → CountingSemaphore → CountingSemaphore
time_out waiter s = record s { waiters = remove waiter s.waiters }

unfoldable pub add_available_slot : CountingSemaphore → CountingSemaphore
add_available_slot s = record s { maximum_permits = s.maximum_permits + 1; permits = s.permits + 1 }

-- What `release` settles: the waiter that it serves, and that waiter's permit.
abbrev pub Served : Type 0
Served = Option (ℕ × SemaphorePermit)

abbrev serve :
    ℕ
    → Result Failure SemaphorePermit × CountingSemaphore
    → Result Failure Served × CountingSemaphore
serve waiter (ok permit, s) = (ok (some (waiter, permit)), s)
serve waiter (err e, s) = (err e, s)

-- The end of `release`, on the queue of waiters.
hand_back : List ℕ → Uuid → Action CountingSemaphore Failure Served
unfolding grant
hand_back [] uuid s =
    let s' = record s { permits = s.permits + 1 } in
    if ltb s'.maximum_permits s'.permits
    then (err (domain invariant_violation), s')
    else (ok none, s')
hand_back (waiter ∷ rest) uuid s =
    serve waiter (grant uuid (record s { waiters = rest; permits = s.permits + 1 }))

-- `release` of a permit. `uuid` is drawn if a waiter is served. The caller's permit is then
-- `record permit { released = true }`.
unfoldable pub release : SemaphorePermit → Uuid → Action CountingSemaphore Failure Served
unfolding hand_back
release permit uuid s =
    if permit.released || not (contains permit.token s.active)
    then (err (domain lock_not_owned), s)
    else hand_back s.waiters uuid (record s { active = remove permit.token s.active })
