-- ===== src/Common/Distinct.antt =====
-- Lists of different numbers, told without a test.
use os_mini_project.Common.{
  ℕ, ◌≡◌, ◌≢◌, refl, true, false, List, [], ◌∷◌, arith, All, contains, is_distinct,
}

-- Every number differs from all that come behind it.
abbrev pub Distinct : List ℕ → Type 0
Distinct [] = Unit {0}
Distinct (x ∷ xs) = All (λ y. x ≢ y) xs × Distinct xs

pub absent-All : (k : ℕ) (xs : List ℕ) → contains k xs ≡ false → All (λ x. k ≢ x) xs
absent-All k [] h = tt
absent-All k (x ∷ xs) h = (ground arith, absent-All k xs (ground arith))

pub All-absent : (k : ℕ) (xs : List ℕ) → All (λ x. k ≢ x) xs → contains k xs ≡ false
All-absent k [] h = refl
All-absent k (x ∷ xs) h = ground (arith, h.0, All-absent k xs h.1)

pub is_distinct-Distinct : (xs : List ℕ) → is_distinct xs ≡ true → Distinct xs
is_distinct-Distinct [] h = tt
is_distinct-Distinct (x ∷ xs) h =
    (absent-All x xs (ground arith), is_distinct-Distinct xs (ground arith))

pub Distinct-is_distinct : (xs : List ℕ) → Distinct xs → is_distinct xs ≡ true
Distinct-is_distinct [] h = refl
Distinct-is_distinct (x ∷ xs) h = ground (arith, All-absent x xs h.0, Distinct-is_distinct xs h.1)
