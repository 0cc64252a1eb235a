-- ===== src/Metrics/Laws.antt =====
-- What the timing of a job and the summary of samples promise.
use os_mini_project.Common.{
  ℕ, zero, suc, ◌+◌, ◌-◌, ◌*◌, ◌≤◌, ◌<◌, ◌≡◌, refl, Bool, some, List, [], ◌∷◌, compare, leb, length,
  count, get_elem?, All, ok, arith, ceil_div, ◌↔◌, subst, some-injective, max_safe_integer,
}
use os_mini_project.Common.Sort.{sort}
use os_mini_project.Common.Sort.Laws.{
  IsSorted, sort-IsSorted, compare-IsComparator, count-sort, length-sort, InOrder,
}
use os_mini_project.Metrics.{JobTimingInput, JobTiming, calculate_job_timing, p95_index, summarize}

pub calculate_job_timing_iff :
    (i : JobTimingInput)
    → ((t : JobTiming) × (calculate_job_timing i ≡ ok t)
        × (t.wait_ms + t.service_ms ≡ t.turnaround_ms)
        × (i.arrival_ms + t.turnaround_ms ≡ i.completion_ms)
        × (i.arrival_ms + t.response_ms ≡ i.first_start_ms)
        × (t.service_ms ≡ i.service_ms))
      ↔ ((i.arrival_ms ≤ i.first_start_ms)
          × (i.first_start_ms ≤ i.completion_ms)
          × (i.arrival_ms + i.service_ms ≤ i.completion_ms)
          × (i.completion_ms ≤ max_safe_integer))
unfolding calculate_job_timing
calculate_job_timing_iff i = (
  λ (t, h, _, _, _, _). (ground arith, ground arith, ground arith, ground arith),
  λ (a, b, c, d). (
    record {
      response_ms = i.first_start_ms - i.arrival_ms;
      wait_ms = (i.completion_ms - i.arrival_ms) - i.service_ms;
      service_ms = i.service_ms;
      turnaround_ms = i.completion_ms - i.arrival_ms;
    },
    ground arith,
    omega arith,
    omega arith,
    omega arith,
    refl,
  ),
)

abbrev pub at_most : ℕ → ℕ → Bool
at_most p v = leb v p

get_elem?-some : (i : ℕ) (xs : List ℕ) → i < length xs → (p : ℕ) × (get_elem? xs i ≡ some p)
get_elem?-some i [] h = absurd (omega arith)
get_elem?-some zero (x ∷ xs) h = (x, refl)
get_elem?-some (suc i) (x ∷ xs) h = get_elem?-some i xs (omega arith)

All-get : (P : ℕ → Type 0) (i p : ℕ) (xs : List ℕ) → All P xs → get_elem? xs i ≡ some p → P p
All-get P i p [] a h = absurd (ground arith)
All-get P zero p (x ∷ xs) a h = subst P (some-injective h) a.0
All-get P (suc i) p (x ∷ xs) a h = All-get P i p xs a.1 h

least_first :
    (x p i : ℕ) (xs : List ℕ) → All (InOrder compare x) xs → get_elem? xs i ≡ some p → x ≤ p
least_first x p i xs a h = ground (arith, All-get (InOrder compare x) i p xs a h)

-- In a sorted list, the entry at an index has that many entries before it that are no larger.
sorted-count :
    (i p : ℕ) (xs : List ℕ)
    → IsSorted compare xs
    → get_elem? xs i ≡ some p
    → i + 1 ≤ count (at_most p) xs
sorted-count i p [] s h = ground arith
sorted-count zero p (x ∷ xs) s h = ground arith
sorted-count (suc i) p (x ∷ xs) s h =
    ground (arith, least_first x p i xs s.0 h, sorted-count i p xs s.1 h)

p95_index-inside : (n : ℕ) → 0 < n → p95_index n < n
unfolding ceil_div
p95_index-inside n h = omega arith

reaches : (m n a b : ℕ) → m ≡ n → a ≡ b → p95_index m + 1 ≤ a → 19 * n ≤ 20 * b
unfolding ceil_div
reaches m n a b e f h = omega arith

-- The 95th percentile of any samples is a number that at least 95 % of them do not exceed.
pub summarize_p95 :
    (v : ℕ) (vs : List ℕ)
    → (p : ℕ) × ((summarize (v ∷ vs)).p95 ≡ some p)
      × (19 * length (v ∷ vs) ≤ 20 * count (at_most p) (v ∷ vs))
unfolding summarize
summarize_p95 v vs =
    let sorted = sort compare (v ∷ vs) in
    let same : length sorted ≡ length (v ∷ vs) = length-sort compare (v ∷ vs) in
    let (p, found) =
      get_elem?-some (p95_index (length sorted)) sorted
        (p95_index-inside (length sorted) (omega (arith, same))) in
    let enough =
      sorted-count (p95_index (length sorted)) p sorted
        (sort-IsSorted compare (compare-IsComparator (λ n. n)) (v ∷ vs)) found in
    (
      p,
      found,
      reaches (length sorted) (length (v ∷ vs)) _ _ same (count-sort compare (at_most p) (v ∷ vs))
          enough,
    )
