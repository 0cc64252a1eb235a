-- ===== src/Application/Burst/Returns.antt =====
-- When a burst is generated.
use os_mini_project.Common.{
  ℕ, zero, suc, ◌+◌, ◌-◌, ◌*◌, ◌≤◌, ◌<◌, ◌≡◌, refl, inl, inr, ◌⊎◌, Bool, false, List, [], ◌∷◌,
  arith, Result, ok,
}
use os_mini_project.Entities.{Uuid, Failure}
use os_mini_project.Coordinator.State.{JobSubmission}
use os_mini_project.Application.Burst.{
  Arrival, simultaneous, uniform_interval, CreateBurstRequest, Numerics, next_delay,
  submissions_from, generate_burst, with_rest, first_state,
}

-- The jobs come at regular times.
abbrev pub HasGap : Arrival → ℕ → Type 0
HasGap arrival gap_ms =
    (arrival ≡ uniform_interval gap_ms) ⊎ ((arrival ≡ simultaneous) × (gap_ms ≡ 0))

abbrev Returns : Result Failure (List JobSubmission) → Type 0
Returns r = (jobs : List JobSubmission) × (r ≡ ok jobs)

with_rest-Returns :
    (late : Bool) (job : JobSubmission) (rest : Result Failure (List JobSubmission))
    → late ≡ false
    → Returns rest
    → Returns (with_rest late job rest)
with_rest-Returns late job rest h (more, e) = (job ∷ more, rw (h, e) refl)

module _ (m : Numerics) (request : CreateBurstRequest) (owner_id : Uuid) (gap_ms : ℕ)
    (regular : HasGap request.arrival gap_ms) where
  regular_delay :
      (index delay_ms state : ℕ)
      → 0 < index
      → (next_delay m request.arrival index delay_ms state).0 ≡ delay_ms + gap_ms
  unfolding next_delay
  regular_delay zero delay_ms state later = absurd (omega arith)
  regular_delay (suc index) delay_ms state later = elim regular [
    | inl spaced ↦ rw spaced refl
    | inr (together, none_between) ↦ rw together (omega (arith, none_between))
  ]

  submissions_from-Returns :
      (n index delay_ms state : ℕ)
      → 0 < index
      → (0 < n → delay_ms + n * gap_ms ≤ 3_600_000)
      → Returns (submissions_from m request owner_id n index delay_ms state)
  unfolding submissions_from
  submissions_from-Returns zero index delay_ms state later h = ([], refl)
  submissions_from-Returns (suc n) index delay_ms state later h =
      let delay = regular_delay index delay_ms state later in
      let most : delay_ms + suc n * gap_ms ≤ 3_600_000 = h (omega arith) in
      let in_time : delay_ms + gap_ms ≤ 3_600_000 = grind (arith, most) in
      with_rest-Returns _ _ _ (ground (arith, delay, in_time))
        (submissions_from-Returns n (index + 1) _ _ (omega arith) (λ k. grind (arith, delay, most)))

  burst-Returns :
      (n : ℕ)
      → (n - 1) * gap_ms ≤ 3_600_000
      → Returns (submissions_from m request owner_id n 0 0 (first_state request.seed))
  unfolding submissions_from next_delay
  burst-Returns zero h = ([], refl)
  burst-Returns (suc n) h =
      let spread : n * gap_ms ≤ 3_600_000 = grind (arith, h) in
      with_rest-Returns _ _ _ refl
        (submissions_from-Returns n 1 0 _ (omega arith) (λ k. omega (arith, spread)))

  -- Jobs that come at once, or at intervals whose sum stays within an hour, are generated.
  pub generate_burst-Returns :
      (request.count - 1) * gap_ms ≤ 3_600_000
      → (jobs : List JobSubmission) × (generate_burst m request owner_id ≡ ok jobs)
  unfolding generate_burst
  generate_burst-Returns h = burst-Returns request.count h
