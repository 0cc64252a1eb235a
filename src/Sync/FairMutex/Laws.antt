-- ===== src/Sync/FairMutex/Laws.antt =====
-- The queue mutex is handed over in the order of arrival, and only by its owner.
use os_mini_project.Common.{
  ℕ, ◌≡◌, refl, ◌≢◌, ◌⊎◌, inl, inr, true, false, none, some, List, [], ◌∷◌, arith, ok, err,
}
use os_mini_project.Entities.{Uuid, domain, lock_not_owned}
use os_mini_project.Sync.FairMutex.{
  FairMutex, MutexHandle, Waiter, OwnerId, acquire, grant, grant_next, release, time_out,
  is_owned_by, without,
}

-- Nobody waits for a free mutex.
abbrev pub IsFair : FairMutex → Type 0
IsFair m = (m.waiters ≡ []) ⊎ (m.owner ≢ none)

-- The calls on a mutex.
pub data Call : Type 0 where
  acquires : OwnerId → Uuid → ℕ → ℕ → Call
  releases : MutexHandle → Uuid → Call
  times_out : ℕ → Call

unfoldable pub after : Call → FairMutex → FairMutex
after (acquires owner_id uuid waiter timeout) m = (acquire owner_id uuid waiter timeout m).1
after (releases handle uuid) m = (release handle uuid m).1
after (times_out waiter) m = time_out waiter m

abbrev pub run : List Call → FairMutex → FairMutex
run [] m = m
run (k ∷ ks) m = run ks (after k m)

without-nil : (k : ℕ) (ws : List Waiter) → ws ≡ [] → without k ws ≡ []
without-nil k [] h = refl
without-nil k (w ∷ ws) h = ground arith

after-IsFair : (k : Call) (m : FairMutex) → IsFair m → IsFair (after k m)
unfolding after
after-IsFair (acquires owner_id uuid waiter timeout) m f = unfold acquire grant in ground arith
after-IsFair (releases handle uuid) m f = unfold release grant_next grant in ground arith
after-IsFair (times_out waiter) m (inl e) = unfold time_out in inl (without-nil waiter m.waiters e)
after-IsFair (times_out waiter) m (inr e) = unfold time_out in inr e

-- No history of calls, with forged and used handles too, leaves anyone waiting for a free mutex.
pub run-IsFair : (ks : List Call) (m : FairMutex) → IsFair m → IsFair (run ks m)
run-IsFair [] m f = f
run-IsFair (k ∷ ks) m f = run-IsFair ks (after k m) (after-IsFair k m f)

-- What `release` does on every branch: a handle that was released, or whose token is not the
-- owner's, is refused and nothing changes; the owner's handle gives the mutex to the oldest waiter
-- under a new token, or leaves it free if nobody waits.
pub release_cases :
    (handle : MutexHandle) (uuid : Uuid) (m : FairMutex)
    → let (r, m') = release handle uuid m in
      ((handle.released ≡ true) ⊎ (is_owned_by m.owner handle.token ≡ false)
        → (r ≡ err (domain lock_not_owned)) × (m' ≡ m))
      × (handle.released ≡ false
          → is_owned_by m.owner handle.token ≡ true
          → m.waiters ≡ []
          → (r ≡ ok none) × (m'.owner ≡ none))
      × ((w : Waiter) (ws : List Waiter)
          → handle.released ≡ false
          → is_owned_by m.owner handle.token ≡ true
          → m.waiters ≡ w ∷ ws
          → (r
              ≡ ok (
                  some
                    (w.waiter, record { owner_id = w.owner_id; token = uuid; released = false })))
            × (m'.owner ≡ some (record { owner_id = w.owner_id; token = uuid }))
            × (m'.waiters ≡ ws))
unfolding release grant_next grant
release_cases handle uuid m = (λ h. ground arith, λ h k e. ground arith, λ w ws h k e. ground arith)
