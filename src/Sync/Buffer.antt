-- ===== src/Sync/Buffer.antt =====
-- apps/api/src/domain/synchronization/bounded-buffer.ts, generic in the items and their keys.
pub mod Laws
use os_mini_project.Common.{
  ℕ, ◌-◌, Bool, true, false, ◌||◌, ◌&&◌, not, Option, none, List, [], ◌∷◌, map, ltb, if◌then◌else◌,
  is_safe_integer, any, take, drop, length, is_distinct, Result, ok, err, Action, pure, throw,
}
use os_mini_project.Common.Dict.{Dict, get, has, put, delete, values, keys}
use os_mini_project.Entities.{
  Uuid, Failure, domain, range_error, invariant_violation, queue_capacity_exceeded,
}

pub data BurstMode : Type 0 where
  atomic available_capacity : BurstMode

pub record BurstPushResult (T : Type 0) : Type 0 where
  pub accepted : List T
  pub rejected : List T

pub record BoundedBuffer (T : Type 0) : Type 0 where
  pub capacity : ℕ
  pub items : Dict T

abbrev is_atomic : BurstMode → Bool
is_atomic atomic = true
is_atomic available_capacity = false

module _ {T : Type 0} where
  -- The constructor.
  unfoldable pub create : ℕ → Result Failure (BoundedBuffer T)
  create capacity =
      if not (is_safe_integer capacity) || ltb capacity 1
      then err range_error
      else ok (record { capacity = capacity; items = [] })

  -- `get size`
  abbrev pub size : BoundedBuffer T → ℕ
  size b = length b.items

  abbrev pub snapshot : BoundedBuffer T → List T
  snapshot b = values b.items

  -- `get(key)` and then `delete(key)`.
  unfoldable pub remove : Uuid → BoundedBuffer T → Option T × BoundedBuffer T
  remove key b = (get key b.items, record b { items = delete key b.items })

  unfoldable pub resize : ℕ → Action (BoundedBuffer T) Failure (Unit {0})
  resize capacity b =
      if not (is_safe_integer capacity) || ltb capacity (size b)
      then (err (domain queue_capacity_exceeded), b)
      else (ok tt, record b { capacity = capacity })

  unfoldable pub clear : BoundedBuffer T → BoundedBuffer T
  clear b = record b { items = [] }

module _ {T : Type 0} (key_of : T → Uuid) where
  -- The loop `for (const item of accepted) this.#items.set(...)`.
  unfoldable pub set_all : List T → Dict T → Dict T
  set_all [] d = d
  set_all (item ∷ rest) d = set_all rest (put (key_of item) item d)

  abbrev pub has_clash : List T → BoundedBuffer T → Bool
  has_clash items b =
      not (is_distinct (map key_of items)) || any (λ key. has key b.items) (map key_of items)

  -- `capacity - size` is never negative: `Fits` of Laws is an invariant.
  unfoldable pub push_burst :
      List T → BurstMode → Action (BoundedBuffer T) Failure (BurstPushResult T)
  unfolding set_all
  push_burst items mode b =
      let available = b.capacity - size b in
      if has_clash items b
      then (err (domain invariant_violation), b)
      else if is_atomic mode && ltb available (length items)
      then (err (domain queue_capacity_exceeded), b)
      else (
        ok (record { accepted = take available items; rejected = drop available items }),
        record b { items = set_all (take available items) b.items },
      )

  -- `push`
  unfoldable pub push : T → Action (BoundedBuffer T) Failure (Unit {0})
  unfolding push_burst
  push item b =
      let (r, b') = push_burst (item ∷ []) atomic b in
      elim r [ ok _ ↦ (ok tt, b') | err e ↦ (err e, b') ]
