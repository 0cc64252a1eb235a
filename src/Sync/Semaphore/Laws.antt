-- ===== src/Sync/Semaphore/Laws.antt =====
-- The permits of the semaphore are never more than its maximum, a permit is good for one release,
-- and a release goes to the oldest waiter.
use os_mini_project.Common.{
  ℕ, ◌+◌, ◌≤◌, ◌≡◌, refl, ◌≢◌, ◌⊎◌, inl, inr, true, false, none, some, List, [], ◌∷◌, ◌++◌, arith,
  length, length-append, contains, remove, is_distinct, Bool-cases, ok, err, ◌==◌, not, ◌||◌,
  is_safe_integer,
}
use os_mini_project.Entities.{Uuid, domain, lock_not_owned}
use os_mini_project.Sync.Semaphore.{
  CountingSemaphore, SemaphorePermit, create, grant, try_acquire, acquire, time_out,
  add_available_slot, hand_back, release, granted,
}

-- Every permit is free or handed out, up to the maximum.
pub record Inv (s : CountingSemaphore) : Type 0 where
  pub bounded : s.permits + length s.active ≤ s.maximum_permits

pub create-Inv :
    (maximum initial : ℕ) (s : CountingSemaphore) → create maximum initial ≡ ok s → Inv s
unfolding create
create-Inv maximum initial s h = record { bounded = ground arith }

length-remove : (k : ℕ) (xs : List ℕ) → contains k xs ≡ true → length (remove k xs) + 1 ≡ length xs
length-remove k [] h = ground arith
length-remove k (x ∷ xs) h = ground (arith, length-remove k xs)

length-remove-le : (k : ℕ) (xs : List ℕ) → length (remove k xs) ≤ length xs
length-remove-le k [] = omega arith
length-remove-le k (x ∷ xs) = ground (arith, length-remove-le k xs)

pub try_acquire-Inv : (uuid : Uuid) (s : CountingSemaphore) → Inv s → Inv (try_acquire uuid s).1
unfolding try_acquire grant
try_acquire-Inv uuid s v = record {
  bounded = ground (arith, length-append s.active (uuid ∷ []), v.bounded);
}

acquire-Inv :
    (uuid : Uuid) (waiter timeout : ℕ) (s : CountingSemaphore)
    → Inv s
    → Inv (acquire uuid waiter timeout s).1
unfolding acquire try_acquire grant
acquire-Inv uuid waiter timeout s v = record {
  bounded = ground (arith, length-append s.active (uuid ∷ []), v.bounded);
}

hand_back-Inv :
    (ws : List ℕ) (uuid : Uuid) (s : CountingSemaphore)
    → s.permits + length s.active + 1 ≤ s.maximum_permits
    → Inv (hand_back ws uuid s).1
unfolding hand_back grant
hand_back-Inv [] uuid s v = record { bounded = ground arith }
hand_back-Inv (w ∷ ws) uuid s v = record {
  bounded = ground (arith, length-append s.active (uuid ∷ []));
}

pub release-Inv :
    (permit : SemaphorePermit) (uuid : Uuid) (s : CountingSemaphore)
    → Inv s
    → Inv (release permit uuid s).1
unfolding release
release-Inv permit uuid s v =
    elim (Bool-cases (permit.released || not (contains permit.token s.active))) [
      | inl refused ↦ rw refused v
      | inr valid ↦ rw valid (
          hand_back-Inv s.waiters uuid _
            (ground (arith, v.bounded, length-remove permit.token s.active)))
    ]

-- The calls on a semaphore. A caller may release any permit, forged or used.
pub data Call : Type 0 where
  tries : Uuid → Call
  acquires : Uuid → ℕ → ℕ → Call
  releases : SemaphorePermit → Uuid → Call
  times_out : ℕ → Call
  adds_slot : Call

unfoldable pub after : Call → CountingSemaphore → CountingSemaphore
after (tries uuid) s = (try_acquire uuid s).1
after (acquires uuid waiter timeout) s = (acquire uuid waiter timeout s).1
after (releases permit uuid) s = (release permit uuid s).1
after (times_out waiter) s = time_out waiter s
after adds_slot s = add_available_slot s

abbrev pub run : List Call → CountingSemaphore → CountingSemaphore
run [] s = s
run (k ∷ ks) s = run ks (after k s)

after-Inv : (k : Call) (s : CountingSemaphore) → Inv s → Inv (after k s)
unfolding after time_out add_available_slot
after-Inv (tries uuid) s v = try_acquire-Inv uuid s v
after-Inv (acquires uuid waiter timeout) s v = acquire-Inv uuid waiter timeout s v
after-Inv (releases permit uuid) s v = release-Inv permit uuid s v
after-Inv (times_out waiter) s v = record { bounded = v.bounded }
after-Inv adds_slot s v = record { bounded = omega (arith, v.bounded) }

run-Inv : (ks : List Call) (s : CountingSemaphore) → Inv s → Inv (run ks s)
run-Inv [] s v = v
run-Inv (k ∷ ks) s v = run-Inv ks (after k s) (after-Inv k s v)

-- From any semaphore that the constructor makes, any calls, with forged and used permits too: the
-- free permits and those handed out are together at most the maximum.
pub run-create_bounded :
    (maximum initial : ℕ) (s : CountingSemaphore) (ks : List Call)
    → create maximum initial ≡ ok s
    → (run ks s).permits + length (run ks s).active ≤ (run ks s).maximum_permits
run-create_bounded maximum initial s ks h = (run-Inv ks s (create-Inv maximum initial s h)).bounded

-- `release` of a permit that is handed out and not yet released does not throw; the test of the
-- bound at its end never fails. If nobody waits, one more permit is free. Otherwise the oldest
-- waiter is served with a new permit, and the number of free permits is as before.
pub release_serves_oldest :
    (permit : SemaphorePermit) (uuid : Uuid) (s : CountingSemaphore)
    → Inv s
    → permit.released ≡ false
    → contains permit.token s.active ≡ true
    → let (r, s') = release permit uuid s in
      (s.waiters ≡ [] → (r ≡ ok none) × (s'.permits ≡ s.permits + 1) × (s'.waiters ≡ []))
      × ((w : ℕ) (ws : List ℕ)
          → s.waiters ≡ w ∷ ws
          → (r ≡ ok (some (w, record { token = uuid; released = false })))
            × (s'.permits ≡ s.permits)
            × (s'.waiters ≡ ws))
unfolding release hand_back grant
release_serves_oldest permit uuid s v fresh held = (
  λ e. ground (arith, length-remove permit.token s.active held, v.bounded),
  λ w ws e. ground arith,
)

contains-remove : (k : ℕ) (xs : List ℕ) → is_distinct xs ≡ true → contains k (remove k xs) ≡ false
contains-remove k [] d = refl
contains-remove k (x ∷ xs) d = ground (arith, contains-remove k xs)

contains-append : (k u : ℕ) (xs : List ℕ) → contains k (xs ++ u ∷ []) ≡ contains k xs || k == u
contains-append k u [] = ground arith
contains-append k u (x ∷ xs) = ground (arith, contains-append k u xs)

hand_back-active :
    (k : ℕ) (ws : List ℕ) (uuid : Uuid) (s : CountingSemaphore)
    → k ≢ uuid
    → contains k (hand_back ws uuid s).1.active ≡ contains k s.active
unfolding hand_back grant
hand_back-active k [] uuid s ne = ground arith
hand_back-active k (w ∷ ws) uuid s ne = ground (arith, contains-append k uuid s.active)

-- A permit is good for one release. Where the tokens handed out are distinct, and the UUID drawn
-- for a waiter is not the token, a second release of the token is refused, through a copy of the
-- permit too, and changes nothing.
pub release_twice :
    (permit : SemaphorePermit) (uuid later_uuid : Uuid) (s : CountingSemaphore)
    → is_distinct s.active ≡ true
    → permit.token ≢ uuid
    → contains permit.token s.active ≡ true
    → permit.released ≡ false
    → let s' = (release permit uuid s).1 in
      release permit later_uuid s' ≡ (err (domain lock_not_owned), s')
unfolding release
release_twice permit uuid later_uuid s d ne held fresh = ground (
  arith,
  hand_back-active permit.token s.waiters uuid (record s { active = remove permit.token s.active })
      ne,
  contains-remove permit.token s.active d,
)

-- Nobody waits while a permit is free.
abbrev pub IsFair : CountingSemaphore → Type 0
IsFair s = (s.waiters ≡ []) ⊎ (s.permits ≡ 0)

remove-nil : (k : ℕ) (xs : List ℕ) → xs ≡ [] → remove k xs ≡ []
remove-nil k [] h = refl
remove-nil k (x ∷ xs) h = ground arith

-- Every call but `addAvailableSlot` keeps the semaphore fair.
pub after-IsFair :
    (k : Call) (s : CountingSemaphore) → k ≢ adds_slot → IsFair s → IsFair (after k s)
unfolding after time_out
after-IsFair (tries uuid) s ne f = unfold try_acquire grant in ground arith
after-IsFair (acquires uuid waiter timeout) s ne f =
    unfold acquire try_acquire grant in ground arith
after-IsFair (releases permit uuid) s ne f = unfold release hand_back grant in ground arith
after-IsFair (times_out waiter) s ne (inl e) = inl (remove-nil waiter s.waiters e)
after-IsFair (times_out waiter) s ne (inr e) = inr e
after-IsFair adds_slot s ne f = absurd (ne refl)

-- Where the permits have run out and someone waits, `addAvailableSlot` wakes nobody, and the next
-- caller of `acquire`, who need not wait, overtakes everybody: that call is granted the new permit at
-- once, the permits have run out again, and the queue of waiters is what it was. The oldest waiter
-- can then time out without ever having been served.
pub add_available_slot_unfair :
    (s : CountingSemaphore) (first newcomer timeout_ms : ℕ) (others : List ℕ) (uuid : Uuid)
    → s.permits ≡ 0
    → s.waiters ≡ first ∷ others
    → is_safe_integer timeout_ms ≡ true
    → let (r, s') = acquire uuid newcomer timeout_ms (add_available_slot s) in
      (¬ IsFair (add_available_slot s))
      × (r ≡ ok (granted (record { token = uuid; released = false })))
      × (s'.permits ≡ 0)
      × (s'.waiters ≡ first ∷ others)
      × ((time_out first s').waiters ≡ others)
unfolding add_available_slot acquire try_acquire grant time_out
add_available_slot_unfair s first newcomer timeout_ms others uuid empty waits safe = (
  λ f. elim f [ inl e ↦ absurd (ground arith) | inr e ↦ absurd (omega arith) ],
  ground arith,
  ground arith,
  ground arith,
  ground arith,
)
