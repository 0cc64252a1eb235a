-- ===== src/Common/Dict.antt =====
-- A JavaScript Map keyed by identifiers: insertion order, and `set` on a known key keeps its place.
use Prim.Native.Nat.{ℕ, suc, ◌+◌}
use mathlib.Core.Path.{◌≡◌, refl}
use mathlib.Core.Logic.{◌≢◌}
use mathlib.Core.Bool.{Bool, true, false}
use mathlib.Core.List.{List, [], ◌∷◌}
use mathlib.Core.Option.{Option, none, some}
use native.Mathlib.Omega.{arith}
use os_mini_project.Common.Tests.{◌==◌, if◌then◌else◌}

abbrev pub Dict {ℓ} : Type ℓ → Type ℓ
Dict V = List (ℕ × V)

module _ {ℓ} {V : Type ℓ} where
  abbrev pub get : ℕ → Dict V → Option V
  get k [] = none
  get k ((j, v) ∷ d) = let rest = get k d in if k == j then some v else rest

  abbrev pub has : ℕ → Dict V → Bool
  has k d = elim (get k d) [ none ↦ false | some _ ↦ true ]

  abbrev pub put : ℕ → V → Dict V → Dict V
  put k v [] = (k, v) ∷ []
  put k v ((j, w) ∷ d) = let rest = put k v d in if k == j then (j, v) ∷ d else (j, w) ∷ rest

  abbrev pub delete : ℕ → Dict V → Dict V
  delete k [] = []
  delete k ((j, w) ∷ d) = let rest = delete k d in if k == j then d else (j, w) ∷ rest

  abbrev pub values : Dict V → List V
  values [] = []
  values ((j, v) ∷ d) = v ∷ values d

  abbrev pub keys : Dict V → List ℕ
  keys [] = []
  keys ((j, v) ∷ d) = j ∷ keys d

  -- How many values pass a test.
  abbrev pub count_values : (V → Bool) → Dict V → ℕ
  count_values test [] = 0
  count_values test ((j, v) ∷ d) =
      let rest = count_values test d in if test v then suc rest else rest

module _ {ℓ} {V : Type ℓ} where
  pub get-put :
      (k j : ℕ) (v : V) (d : Dict V) → get j (put k v d) ≡ (if j == k then some v else get j d)
  get-put k j v [] = refl
  get-put k j v ((i, w) ∷ d) = ground (arith, get-put k j v d)

  pub get-put_self : (k : ℕ) (v : V) (d : Dict V) → get k (put k v d) ≡ some v
  get-put_self k v d = ground (arith, get-put k k v d)

  pub get-put_ne : (k j : ℕ) (v : V) (d : Dict V) → j ≢ k → get j (put k v d) ≡ get j d
  get-put_ne k j v d h = ground (arith, get-put k j v d)

  -- Replacing a value changes a count by what the two values contribute.
  pub count-put :
      (test : V → Bool) (k : ℕ) (v w : V) (d : Dict V)
      → get k d ≡ some w
      → count_values test (put k v d) + (if test w then 1 else 0)
        ≡ count_values test d + (if test v then 1 else 0)
  count-put test k v w [] h = ground arith
  count-put test k v w ((j, u) ∷ d) h = ground (arith, count-put test k v w d)

  pub count-put_new :
      (test : V → Bool) (k : ℕ) (v : V) (d : Dict V)
      → get k d ≡ none
      → count_values test (put k v d) ≡ count_values test d + (if test v then 1 else 0)
  count-put_new test k v [] h = ground arith
  count-put_new test k v ((j, u) ∷ d) h = ground (arith, count-put_new test k v d)

  pub count-delete :
      (test : V → Bool) (k : ℕ) (w : V) (d : Dict V)
      → get k d ≡ some w
      → count_values test (delete k d) + (if test w then 1 else 0) ≡ count_values test d
  count-delete test k w [] h = ground arith
  count-delete test k w ((j, u) ∷ d) h = ground (arith, count-delete test k w d)

  pub get-delete_ne : (k j : ℕ) (d : Dict V) → j ≢ k → get j (delete k d) ≡ get j d
  get-delete_ne k j [] h = refl
  get-delete_ne k j ((i, w) ∷ d) h = ground (arith, get-delete_ne k j d h)
