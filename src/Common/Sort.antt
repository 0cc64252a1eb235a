-- ===== src/Common/Sort.antt =====
-- `Array.prototype.sort` with a comparator: a stable sort, here by insertion. The sign of what the
-- comparator returns is an `Ordering`.
pub mod Laws
pub mod Entries
use Prim.Native.Nat.{Ordering}
use mathlib.Core.Bool.{Bool, true, false}
use mathlib.Core.List.{List, [], ◌∷◌}
use os_mini_project.Common.Tests.{if◌then◌else◌}

-- `compare(a, b) < 0`
abbrev pub is_lt : Ordering → Bool
is_lt Ordering.lt = true
is_lt Ordering.eq = false
is_lt Ordering.gt = false

-- `first || second` on two signs.
abbrev pub then_by : Ordering → Ordering → Ordering
then_by Ordering.eq o = o
then_by Ordering.lt _ = Ordering.lt
then_by Ordering.gt _ = Ordering.gt

module _ {ℓ} {A : Type ℓ} (cmp : A → A → Ordering) where
  -- Behind the entries that come before `x`, and in front of its equals, which stood behind it.
  unfoldable pub insert : A → List A → List A
  insert x [] = x ∷ []
  insert x (y ∷ ys) = let rest = insert x ys in if is_lt (cmp y x) then y ∷ rest else x ∷ y ∷ ys

  unfoldable pub sort : List A → List A
  unfolding insert
  sort [] = []
  sort (x ∷ xs) = insert x (sort xs)
