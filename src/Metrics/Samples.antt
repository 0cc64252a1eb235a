-- ===== src/Metrics/Samples.antt =====
-- Runs of the metrics.
use os_mini_project.Common.{ℕ, ◌*◌, ◌≤◌, ◌≡◌, List, [], ◌∷◌, some, refl, true, count, length}
use os_mini_project.Common.Double.{Double, of_nat, exceeds}
use os_mini_project.Metrics.{JobTimingInput, summarize, fairness_index}
use os_mini_project.Metrics.Laws.{summarize_p95, at_most}

abbrev served : JobTimingInput
served = record { arrival_ms = 10; first_start_ms = 15; completion_ms = 40; service_ms = 20 }

abbrev samples : List ℕ
samples = 3 ∷ 9 ∷ 4 ∷ []

summarize_p95_example :
    (p : ℕ) × ((summarize samples).p95 ≡ some p)
    × (19 * length samples ≤ 20 * count (at_most p) samples)
summarize_p95_example = summarize_p95 3 (9 ∷ 4 ∷ [])

-- Five jobs that wait for 8 ms each come to 1.0000000000000002.
fairness_over_one :
    (f : Double) × (fairness_index (8 ∷ 8 ∷ 8 ∷ 8 ∷ 8 ∷ []) ≡ some f)
    × (exceeds f (of_nat 1) ≡ true)
unfolding fairness_index
fairness_over_one = (_, refl, refl)
