-- ===== src/Application/Burst/Generated.antt =====
-- What a generated burst is like.
use os_mini_project.Common.{
  ℕ, zero, suc, ◌+◌, ◌-◌, ◌^◌, ◌≤◌, ◌<◌, ◌≡◌, refl, sym, subst, Bool, true, false, List, [], ◌∷◌,
  map, All, arith, Result, ok, err, ok-injective, ok-ne-err,
}
use os_mini_project.Common.Sort.Entries.{Pairwise, All-map}
use os_mini_project.Entities.{Uuid, Failure}
use os_mini_project.Coordinator.State.{JobSubmission}
use os_mini_project.Application.Burst.{
  Distribution, fixed, uniform, bounded_normal, Arrival, simultaneous, uniform_interval, poisson,
  CreateBurstRequest, Numerics, sample, next_delay, submission, submissions_from, generate_burst,
  with_rest, next_state, first_state,
}
use os_mini_project.Application.Burst.Random.{
  IsState, next_state-IsState, first_state-IsState, scaled-below,
}

-- The bounds are in order.
abbrev pub IsProper : Distribution → Type 0
IsProper (fixed value) = Unit
IsProper (uniform low high) = low ≤ high
IsProper (bounded_normal low high) = low ≤ high

abbrev pub IsIn : Distribution → ℕ → Type 0
IsIn (fixed value) n = n ≡ value
IsIn (uniform low high) n = (low ≤ n) × (n ≤ high)
IsIn (bounded_normal low high) n = (low ≤ n) × (n ≤ high)

module _ (m : Numerics) where
  sample-IsIn :
      (d : Distribution) (state : ℕ)
      → IsProper d
      → IsState state
      → IsIn d (sample m d state).0 × IsState (sample m d state).1
  unfolding sample
  sample-IsIn (fixed value) state h k = (refl, k)
  sample-IsIn (uniform low high) state h k =
      let next = next_state-IsState state k in
      let below = scaled-below (next_state state) (high - low + 1) next.1 (omega arith) in
      ((omega arith, omega (arith, below, h)), next)
  sample-IsIn (bounded_normal low high) state h k =
      ((omega (arith, h), omega (arith, h)), next_state-IsState _ (next_state-IsState state k))

  next_delay-grows :
      (arrival : Arrival) (index delay_ms state : ℕ)
      → IsState state
      → (delay_ms ≤ (next_delay m arrival index delay_ms state).0)
        × IsState (next_delay m arrival index delay_ms state).1
  unfolding next_delay
  next_delay-grows arrival zero delay_ms state h = (omega arith, h)
  next_delay-grows simultaneous (suc index) delay_ms state h = (omega arith, h)
  next_delay-grows (uniform_interval interval_ms) (suc index) delay_ms state h = (omega arith, h)
  next_delay-grows (poisson mean_ms) (suc index) delay_ms state h =
      (omega arith, next_state-IsState state h)

  module _ (request : CreateBurstRequest) (owner_id : Uuid) where
    -- A job of the burst is as the request asks for, and comes after `delay_ms`.
    abbrev pub IsAsked : ℕ → JobSubmission → Type 0
    IsAsked delay_ms job =
        (job.owner_id ≡ owner_id)
        × IsIn request.pages job.input.pages
        × IsIn request.priority job.input.base_priority
        × (delay_ms ≤ job.input.arrival_delay_ms)
        × (job.input.arrival_delay_ms ≤ 3_600_000)

    abbrev pub ids_from : ℕ → ℕ → List Uuid
    ids_from zero index = []
    ids_from (suc n) index = m.deterministic_uuid request.seed index ∷ ids_from n (index + 1)

    abbrev pub NotLater : JobSubmission → JobSubmission → Type 0
    NotLater a b = a.input.arrival_delay_ms ≤ b.input.arrival_delay_ms

    pub record IsBurst (n index delay_ms : ℕ) (jobs : List JobSubmission) : Type 0 where
      pub asked : All (IsAsked delay_ms) jobs
      pub in_order : Pairwise NotLater jobs
      pub ids : map (λ job. job.id) jobs ≡ ids_from n index

    with_rest-ok :
        (late : Bool) (job : JobSubmission) (rest : Result Failure (List JobSubmission))
        (jobs : List JobSubmission)
        → with_rest late job rest ≡ ok jobs
        → (late ≡ false) × ((more : List JobSubmission) × (rest ≡ ok more) × (job ∷ more ≡ jobs))
    with_rest-ok true job rest jobs h = absurd (ok-ne-err (sym h))
    with_rest-ok false job (err e) jobs h = absurd (ok-ne-err (sym h))
    with_rest-ok false job (ok more) jobs h = (refl, (more, refl, ok-injective h))

    submission-IsAsked :
        (index delay_ms state : ℕ)
        → IsProper request.pages
        → IsProper request.priority
        → IsState state
        → delay_ms ≤ 3_600_000
        → IsAsked delay_ms (submission m request owner_id index delay_ms state).0
          × IsState (submission m request owner_id index delay_ms state).1
    unfolding submission
    submission-IsAsked index delay_ms state h k r late =
        let a = sample-IsIn request.pages state h r in
        let b = sample-IsIn request.priority (sample m request.pages state).1 k a.1 in
        ((refl, a.0, b.0, omega arith, late), next_state-IsState _ (next_state-IsState _ b.1))

    prepend-IsBurst :
        (n index delay_ms next_ms : ℕ) (job : JobSubmission) (more : List JobSubmission)
        → delay_ms ≤ next_ms
        → IsAsked next_ms job
        → job.input.arrival_delay_ms ≡ next_ms
        → job.id ≡ m.deterministic_uuid request.seed index
        → IsBurst n (index + 1) next_ms more
        → IsBurst (suc n) index delay_ms (job ∷ more)
    prepend-IsBurst n index delay_ms next_ms job more later (o, p, q, d, e) at id b = record {
      asked = (
        (o, p, q, omega (arith, later, d), e),
        All-map (IsAsked next_ms) (IsAsked delay_ms) more
            (λ x (o, p, q, d, e). (o, p, q, omega (arith, later, d), e)) b.asked,
      );
      in_order = (
        All-map (IsAsked next_ms) (NotLater job) more (λ x (_, _, _, d, _). omega (arith, d, at))
            b.asked,
        b.in_order,
      );
      ids = rw (id, b.ids) refl;
    }

    submissions_from-IsBurst :
        (n index delay_ms state : ℕ) (jobs : List JobSubmission)
        → IsProper request.pages
        → IsProper request.priority
        → IsState state
        → submissions_from m request owner_id n index delay_ms state ≡ ok jobs
        → IsBurst n index delay_ms jobs
    unfolding submissions_from submission
    submissions_from-IsBurst zero index delay_ms state jobs h k r e =
        subst (IsBurst zero index delay_ms) (ok-injective e)
          (record { asked = tt; in_order = tt; ids = refl })
    submissions_from-IsBurst (suc n) index delay_ms state jobs h k r e =
        let next = next_delay m request.arrival index delay_ms state in
        let (later, after) = next_delay-grows request.arrival index delay_ms state r in
        let job = submission m request owner_id index next.0 next.1 in
        let (in_time, (more, rest, all)) = with_rest-ok _ job.0 _ jobs e in
        let bound : next.0 ≤ 3_600_000 = ground arith in
        let (asked, last) = submission-IsAsked index next.0 next.1 h k after bound in
        subst (IsBurst (suc n) index delay_ms) all (
          prepend-IsBurst n index delay_ms next.0 job.0 more later asked refl refl
            (submissions_from-IsBurst n (index + 1) next.0 job.1 more h k last rest))

  -- Whenever `generateBurst` returns for a 32-bit seed and bounds in order, there is one job per count
  -- with the ids of the indexes from 0 on, of the given owner, with pages and priorities within their
  -- bounds, and with delays that never decrease and stay within an hour.
  pub generate_burst-IsBurst :
      (request : CreateBurstRequest) (owner_id : Uuid) (jobs : List JobSubmission)
      → request.seed < 2 ^ 32
      → IsProper request.pages
      → IsProper request.priority
      → generate_burst m request owner_id ≡ ok jobs
      → IsBurst request owner_id request.count 0 0 jobs
  unfolding generate_burst
  generate_burst-IsBurst request owner_id jobs seed h k e =
      submissions_from-IsBurst request owner_id request.count 0 0 (first_state request.seed) jobs h
        k (first_state-IsState request.seed seed) e
