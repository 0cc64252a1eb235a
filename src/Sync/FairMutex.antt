-- ===== src/Sync/FairMutex.antt =====
-- apps/api/src/domain/synchronization/fair-mutex.ts, with the conventions of Semaphore.antt.
pub mod Laws
use os_mini_project.Common.{
  ℕ, ◌≡◌, Bool, true, false, ◌||◌, ◌&&◌, not, Option, none, some, List, [], ◌∷◌, ◌++◌, ◌==◌,
  same_text, if◌then◌else◌, is_safe_integer, Result, ok, err, Action,
}
use os_mini_project.Entities.{
  Uuid, Failure, domain, range_error, type_error, resource_busy, lock_not_owned, is_blank,
}

-- An owner id: the text `coordinator:<command id>` of coordinator.ts, or any other text.
pub data OwnerId : Type 0 where
  coordinator : Uuid → OwnerId
  named : List ℕ → OwnerId

abbrev is_blank_owner : OwnerId → Bool
is_blank_owner (coordinator id) = false
is_blank_owner (named text) = is_blank text

pub record MutexOwner : Type 0 where
  pub owner_id : OwnerId
  pub token : Uuid

pub record MutexHandle : Type 0 where
  pub owner_id : OwnerId
  pub token : Uuid
  pub released : Bool

pub record Waiter : Type 0 where
  pub waiter : ℕ
  pub owner_id : OwnerId

pub record FairMutex : Type 0 where
  pub owner : Option MutexOwner
  pub waiters : List Waiter

pub data Acquired : Type 0 where
  granted : MutexHandle → Acquired
  pending : ℕ → Acquired

abbrev pub unlocked : FairMutex
unlocked = record { owner = none; waiters = [] }

-- `#grant`
unfoldable pub grant : OwnerId → Uuid → FairMutex → MutexHandle × FairMutex
grant owner_id uuid m = (
  record { owner_id = owner_id; token = uuid; released = false },
  record m { owner = some (record { owner_id = owner_id; token = uuid }) },
)

abbrev acquire_from : Option MutexOwner → OwnerId → Uuid → ℕ → ℕ → Action FairMutex Failure Acquired
unfolding grant
acquire_from none owner_id uuid waiter timeout_ms m =
    let (handle, m') = grant owner_id uuid m in (ok (granted handle), m')
acquire_from (some owner) owner_id uuid waiter timeout_ms m =
    if timeout_ms == 0 then (err (domain resource_busy), m) else (
      ok (pending waiter),
      record m { waiters = m.waiters ++ record { waiter = waiter; owner_id = owner_id } ∷ [] },
    )

unfoldable pub acquire : OwnerId → Uuid → ℕ → ℕ → Action FairMutex Failure Acquired
unfolding grant
acquire owner_id uuid waiter timeout_ms m =
    if is_blank_owner owner_id
    then (err type_error, m)
    else if not (is_safe_integer timeout_ms)
    then (err range_error, m)
    else acquire_from m.owner owner_id uuid waiter timeout_ms m

abbrev without : ℕ → List Waiter → List Waiter
without k [] = []
without k (w ∷ ws) = let rest = without k ws in if k == w.waiter then ws else w ∷ rest

-- The callback of a waiter's timer.
unfoldable pub time_out : ℕ → FairMutex → FairMutex
time_out waiter m = record m { waiters = without waiter m.waiters }

-- `this.#owner?.token !== token`, negated.
abbrev pub is_owned_by : Option MutexOwner → Uuid → Bool
is_owned_by none token = false
is_owned_by (some owner) token = owner.token == token

abbrev pub Served : Type 0
Served = Option (ℕ × MutexHandle)

-- `#grantNext`, on the queue of waiters.
grant_next : List Waiter → Uuid → FairMutex → Served × FairMutex
unfolding grant
grant_next [] uuid m = (none, m)
grant_next (w ∷ rest) uuid m =
    let (handle, m') = grant w.owner_id uuid (record m { waiters = rest }) in
    (some (w.waiter, handle), m')

-- `release` of a handle, which is `record handle { released = true }` from then on.
unfoldable pub release : MutexHandle → Uuid → Action FairMutex Failure Served
unfolding grant_next
release handle uuid m =
    if handle.released
    then (err (domain lock_not_owned), m)
    else if not (is_owned_by m.owner handle.token)
    then (err (domain lock_not_owned), m)
    else let (served, m') = grant_next m.waiters uuid (record m { owner = none }) in (ok served, m')
