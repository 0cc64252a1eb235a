-- ===== src/Sync/LeaseMutex/Laws.antt =====
-- Fencing: once an expired lease has been fenced, its handle is refused for ever. A lease that
-- passes the check is the one lease, and has not run out.
use os_mini_project.Common.{
  ℕ, ◌+◌, ◌≤◌, ◌<◌, ◌≡◌, refl, ◌≢◌, false, Option, none, some, List, [], ◌∷◌, arith, ok, err,
  max_safe_integer,
}
use os_mini_project.Entities.{Uuid, domain, fence_token_mismatch}
use os_mini_project.Sync.LeaseMutex.{
  BinaryLeaseMutex, LeaseOwner, LeaseHandle, LeaseWaiter, acquire, grant, assert_owned,
  fence_expired, renew, release, time_out, grant_next, Served, restore, inspect, expiry,
}

-- The calls on a mutex, with the time and the UUID that each reads.
pub data Call : Type 0 where
  acquires : ℕ → Uuid → Uuid → ℕ → ℕ → ℕ → Call
  renews : ℕ → LeaseHandle → ℕ → Call
  releases : ℕ → LeaseHandle → Uuid → Call
  fences : ℕ → Uuid → ℕ → Uuid → Call
  times_out : ℕ → Call

unfoldable pub after : Call → BinaryLeaseMutex → BinaryLeaseMutex
after (acquires now uuid worker duration waiter timeout) m =
    (acquire now uuid worker duration waiter timeout m).1
after (renews now handle duration) m = (renew now handle duration m).1
after (releases now handle uuid) m = (release now handle uuid m).1
after (fences now lease_id expected uuid) m = (fence_expired now lease_id expected uuid m).1
after (times_out waiter) m = time_out waiter m

abbrev pub run : List Call → BinaryLeaseMutex → BinaryLeaseMutex
run [] m = m
run (k ∷ ks) m = run ks (after k m)

grant_next-fence_token :
    (ws : List LeaseWaiter) (now : ℕ) (uuid : Uuid) (m : BinaryLeaseMutex)
    → (grant_next ws now uuid m).1.fence_token ≡ m.fence_token
unfolding grant_next grant
grant_next-fence_token [] now uuid m = refl
grant_next-fence_token (w ∷ ws) now uuid m = refl

after-fence_token : (k : Call) (m : BinaryLeaseMutex) → m.fence_token ≤ (after k m).fence_token
unfolding after
after-fence_token (acquires now uuid worker duration waiter timeout) m =
    unfold acquire grant in ground arith
after-fence_token (renews now handle duration) m = unfold renew assert_owned in ground arith
after-fence_token (releases now handle uuid) m =
    unfold release assert_owned in
    ground (arith, grant_next-fence_token m.waiters now uuid (record m { owner = none }))
after-fence_token (fences now lease_id expected uuid) m =
    unfold fence_expired in
    ground (
      arith,
      grant_next-fence_token m.waiters now uuid
          (record m { fence_token = m.fence_token + 1; owner = none }),
    )
after-fence_token (times_out waiter) m = unfold time_out in omega arith

run-fence_token : (ks : List Call) (m : BinaryLeaseMutex) → m.fence_token ≤ (run ks m).fence_token
run-fence_token [] m = omega arith
run-fence_token (k ∷ ks) m = omega (arith, after-fence_token k m, run-fence_token ks (after k m))

fence_expired-fence_token :
    (now : ℕ) (lease_id : Uuid) (expected : ℕ) (uuid : Uuid) (m m' : BinaryLeaseMutex)
    (r : ℕ × Served)
    → fence_expired now lease_id expected uuid m ≡ (ok r, m')
    → (expected ≡ m.fence_token) × (m'.fence_token ≡ m.fence_token + 1)
unfolding fence_expired
fence_expired-fence_token now lease_id expected uuid m m' r h = ground (
  arith,
  grant_next-fence_token m.waiters now uuid
      (record m { fence_token = m.fence_token + 1; owner = none }),
)

-- Once `fenceExpired` has gone through, the handle with the fence token that it was given is refused
-- for ever: after any further calls, at any time, both its `renew` (for a valid duration) and its
-- `release` (were it not yet released) throw FENCE_TOKEN_MISMATCH and change nothing.
pub fenced_handle_refused :
    (now : ℕ) (handle : LeaseHandle) (uuid : Uuid) (m m' : BinaryLeaseMutex) (r : ℕ × Served)
    (ks : List Call) (later duration : ℕ) (later_uuid : Uuid)
    → fence_expired now handle.lease_id handle.fence_token uuid m ≡ (ok r, m')
    → handle.released ≡ false
    → 1 ≤ duration
    → duration ≤ max_safe_integer
    → (renew later handle duration (run ks m') ≡ (err (domain fence_token_mismatch), run ks m'))
      × (release later handle later_uuid (run ks m')
          ≡ (err (domain fence_token_mismatch), run ks m'))
unfolding renew release assert_owned
fenced_handle_refused now handle uuid m m' r ks later duration later_uuid h fresh some_time safe =
    let fenced = fence_expired-fence_token now handle.lease_id handle.fence_token uuid m m' r h in
    (ground (arith, fenced, run-fence_token ks m'), ground (arith, fenced, run-fence_token ks m'))

-- The mutex has passed to the oldest waiter, for the time that the waiter had asked for, or has become
-- free where nobody waits; the fence token is one higher.
abbrev pub IsTaken : ℕ → Uuid → BinaryLeaseMutex → BinaryLeaseMutex → Type 0
IsTaken now uuid m m' =
    (m'.fence_token ≡ m.fence_token + 1)
    × (m.waiters ≡ [] → (m'.owner ≡ none) × (m'.waiters ≡ []))
    × ((w : LeaseWaiter) (ws : List LeaseWaiter)
        → m.waiters ≡ w ∷ ws
        → (m'.owner
            ≡ some (record {
              owner_worker_id = w.owner_worker_id;
              lease_id = uuid;
              acquired_at_ms = now;
              expires_at_ms = now + w.lease_duration_ms;
            }))
          × (m'.waiters ≡ ws))

-- At most one lease passes the check of `assertOwned`, and it has not run out.
pub assert_owned_unique :
    (now : ℕ) (first second : Uuid) (first_token second_token : ℕ) (m : BinaryLeaseMutex)
    → assert_owned now first first_token m ≡ ok tt
    → assert_owned now second second_token m ≡ ok tt
    → (first ≡ second) × (first_token ≡ second_token) × (now < expiry m.owner)
unfolding assert_owned
assert_owned_unique now first second first_token second_token m h k = ground arith

-- No owner, or one whose ids are not empty, as `acquire` and `randomUUID` make them.
abbrev pub HasIds : Option LeaseOwner → Type 0
HasIds none = Unit {0}
HasIds (some owner) = (owner.owner_worker_id ≢ 0) × (owner.lease_id ≢ 0)

-- A mutex restored from its inspection has the same owner, until the same time, and the same fence
-- token; who waited is lost.
pub restore-inspect :
    (m : BinaryLeaseMutex) → HasIds m.owner → restore (inspect m) ≡ record m { waiters = [] }
unfolding restore inspect
restore-inspect m h = ground arith
