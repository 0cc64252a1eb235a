-- ===== src/Scheduler/Aging.antt =====
-- Priority aging: bounds, monotonicity, and that no job starves.
use os_mini_project.Common.{
  ℕ, ◌+◌, ◌-◌, ◌*◌, ◌/◌, ◌≤◌, ◌<◌, ◌≡◌, min, Ordering, false, some, List, ok, arith,
}
use os_mini_project.Entities.{PrintJob, PrinterProfile, DomainSchedulerConfig, priority_aging}
use os_mini_project.Scheduler.{
  Candidate, bad_aging, effective_priority_unchecked, effective_priority, candidate_for, comparator,
}

-- Whenever `effectivePriority` returns, the result is at most the cap, and at least the base
-- priority, or the cap where that is lower.
pub effective_priority_bounds :
    (job : PrintJob) (now_ms : ℕ) (config : DomainSchedulerConfig) (p : ℕ)
    → effective_priority job now_ms config ≡ ok p
    → (p ≤ config.priority_cap) × (min config.priority_cap job.base_priority ≤ p)
unfolding effective_priority effective_priority_unchecked
effective_priority_bounds job now_ms config p h = ground arith

div_mono : (a b n : ℕ) → a ≤ b → a / n ≤ b / n
div_mono a b n h = grind arith

effective_mono :
    (job : PrintJob) (now_ms later_ms : ℕ) (config : DomainSchedulerConfig)
    → now_ms ≤ later_ms
    → effective_priority_unchecked job now_ms config
      ≤ effective_priority_unchecked job later_ms config
unfolding effective_priority_unchecked
effective_mono job now_ms later_ms config h = grind (
  arith,
  div_mono (now_ms - job.queued_at_ms) (later_ms - job.queued_at_ms) config.aging_interval_ms,
)

intervals_waited : (c i w : ℕ) → 0 < i → c * i ≤ w → c ≤ w / i
intervals_waited c i w h k = grind arith

le_of_factor : (c k f : ℕ) → c ≤ k → 1 ≤ f → c ≤ k * f
le_of_factor c k f h g = grind arith

good_config :
    (config : DomainSchedulerConfig)
    → bad_aging config ≡ false
    → (0 < config.aging_interval_ms) × (1 ≤ config.aging_factor)
good_config config good = ground arith

-- A job that has waited as many intervals as the cap has points is at the cap.
effective-eq-cap :
    (job : PrintJob) (now_ms : ℕ) (config : DomainSchedulerConfig)
    → bad_aging config ≡ false
    → job.queued_at_ms + config.priority_cap * config.aging_interval_ms ≤ now_ms
    → effective_priority_unchecked job now_ms config ≡ config.priority_cap
unfolding effective_priority_unchecked
effective-eq-cap job now_ms config good waited =
    let (some_time, some_factor) = good_config config good in
    let waited_long =
      intervals_waited config.priority_cap config.aging_interval_ms (now_ms - job.queued_at_ms)
        some_time (omega arith) in
    omega (
      arith,
      le_of_factor config.priority_cap ((now_ms - job.queued_at_ms) / config.aging_interval_ms)
          config.aging_factor waited_long some_factor,
    )

candidate_for-effective :
    (job : PrintJob) (online : List PrinterProfile) (config : DomainSchedulerConfig) (now_ms : ℕ)
    (c : Candidate)
    → candidate_for job online config now_ms ≡ ok (some c)
    → (c.job ≡ job) × (c.effective_priority ≡ effective_priority_unchecked job now_ms config)
unfolding candidate_for
candidate_for-effective job online config now_ms c h = (ground arith, ground arith)

effective-le-cap :
    (job : PrintJob) (now_ms : ℕ) (config : DomainSchedulerConfig)
    → effective_priority_unchecked job now_ms config ≤ config.priority_cap
unfolding effective_priority_unchecked
effective-le-cap job now_ms config = omega arith

-- No job starves: under priority aging with a valid configuration, a job that has waited for the
-- cap's number of aging intervals comes before every job that was queued later, whatever the two
-- base priorities.
pub waited_comes_first :
    (job other : PrintJob) (online : List PrinterProfile) (config : DomainSchedulerConfig)
    (now_ms : ℕ) (c d : Candidate)
    → bad_aging config ≡ false
    → candidate_for job online config now_ms ≡ ok (some c)
    → candidate_for other online config now_ms ≡ ok (some d)
    → job.queued_at_ms + config.priority_cap * config.aging_interval_ms ≤ now_ms
    → job.queued_at_ms < other.queued_at_ms
    → comparator priority_aging c d ≡ Ordering.lt
waited_comes_first job other online config now_ms c d good hc hd waited later = ground (
  arith,
  candidate_for-effective job online config now_ms c hc,
  candidate_for-effective other online config now_ms d hd,
  effective-eq-cap job now_ms config good waited,
  effective-le-cap other now_ms config,
)

-- Time only raises an effective priority: if `effectivePriority` returns at a time and at a later
-- one, the later result is at least the earlier.
pub effective_priority_mono :
    (job : PrintJob) (now_ms later_ms : ℕ) (config : DomainSchedulerConfig) (p q : ℕ)
    → now_ms ≤ later_ms
    → effective_priority job now_ms config ≡ ok p
    → effective_priority job later_ms config ≡ ok q
    → p ≤ q
unfolding effective_priority
effective_priority_mono job now_ms later_ms config p q h hp hq =
    ground (arith, effective_mono job now_ms later_ms config h)
