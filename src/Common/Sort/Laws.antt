-- ===== src/Common/Sort/Laws.antt =====
-- What a comparator has to satisfy, and what the sort then gives.
use Prim.Native.Nat.{ℕ, suc, compare, Ordering}
use mathlib.Core.Path.{◌≡◌, refl}
use mathlib.Core.Bool.{Bool, false}
use mathlib.Core.Logic.{inl, inr}
use mathlib.Core.List.{List, [], ◌∷◌, ◌++◌, Perm}
use mathlib.Core.List.Perm
use mathlib.Core.Option.{Option, none, some}
use native.Mathlib.Omega.{arith}
use os_mini_project.Common.Tests.{if◌then◌else◌, Bool-cases}
use os_mini_project.Common.Lists.{head?, All, count, length}
use os_mini_project.Common.Sort.{is_lt, then_by, insert, sort}

abbrev pub opposite : Ordering → Ordering
opposite Ordering.lt = Ordering.gt
opposite Ordering.eq = Ordering.eq
opposite Ordering.gt = Ordering.lt

-- A total preorder, told by signs.
pub record IsComparator {ℓ} {A : Type ℓ} (cmp : A → A → Ordering) : Type ℓ where
  pub swap : (a b : A) → cmp b a ≡ opposite (cmp a b)
  pub eq_left : (a b c : A) → cmp a b ≡ Ordering.eq → cmp a c ≡ cmp b c
  pub lt_trans : (a b c : A) → cmp a b ≡ Ordering.lt → cmp b c ≡ Ordering.lt → cmp a c ≡ Ordering.lt

-- Numbers by their size.
pub compare-IsComparator {ℓ} :
    {A : Type ℓ} (key : A → ℕ) → IsComparator (λ a b. compare (key a) (key b))
compare-IsComparator key = record {
  swap = λ a b. ground arith;
  eq_left = λ a b c h. ground arith;
  lt_trans = λ a b c h k. ground arith;
}

-- Numbers by their size, the largest first.
pub compare-IsComparator_down {ℓ} :
    {A : Type ℓ} (key : A → ℕ) → IsComparator (λ a b. compare (key b) (key a))
compare-IsComparator_down key = record {
  swap = λ a b. ground arith;
  eq_left = λ a b c h. ground arith;
  lt_trans = λ a b c h k. ground arith;
}

-- `first || second`
pub then_by-IsComparator {ℓ} :
    {A : Type ℓ} (f g : A → A → Ordering)
    → IsComparator f
    → IsComparator g
    → IsComparator (λ a b. then_by (f a b) (g a b))
then_by-IsComparator f g cf cg = record {
  swap = λ a b. ground (arith, cf.swap a b, cg.swap a b);
  eq_left = λ a b c h. ground (arith, cf.eq_left a b c, cg.eq_left a b c);
  lt_trans = λ a b c h k. ground (
    arith,
    cf.lt_trans a b c,
    cg.lt_trans a b c,
    cf.eq_left a b c,
    cf.swap a b,
    cf.swap b c,
    cf.swap a c,
    cf.eq_left c b a,
  );
}

module _ {ℓ} {A : Type ℓ} (cmp : A → A → Ordering) where
  insert-perm : (x : A) (ys : List A) → Perm (insert cmp x ys) (x ∷ ys)
  unfolding insert
  insert-perm x [] = Perm.rfl
  insert-perm x (y ∷ ys) = elim (Bool-cases (is_lt (cmp y x))) [
    | inl before ↦ rw before (Perm.trans (Perm.cons y (insert-perm x ys)) (Perm.swap x y ys))
    | inr behind ↦ rw behind Perm.rfl
  ]

  -- The sort keeps every entry, as often as it was there.
  pub sort-perm : (xs : List A) → Perm (sort cmp xs) xs
  unfolding sort
  sort-perm [] = Perm.rfl
  sort-perm (x ∷ xs) = Perm.trans (insert-perm x (sort cmp xs)) (Perm.cons x (sort-perm xs))

  -- `b` does not come before `a`.
  abbrev pub InOrder : A → A → Type 0
  InOrder a b = is_lt (cmp b a) ≡ false

  abbrev pub IsSorted : List A → Type 0
  IsSorted [] = Unit
  IsSorted (x ∷ xs) = All (InOrder x) xs × IsSorted xs

  -- The first of the two, unless the second comes before it.
  abbrev pub first_of_two : A → Option A → A
  first_of_two a none = a
  first_of_two a (some b) = if is_lt (cmp b a) then b else a

  head-insert : (x : A) (ys : List A) → head? (insert cmp x ys) ≡ some (first_of_two x (head? ys))
  unfolding insert
  head-insert x [] = refl
  head-insert x (y ∷ ys) = ground arith

  pub head-sort :
      (x : A) (xs : List A)
      → head? (sort cmp (x ∷ xs)) ≡ some (first_of_two x (head? (sort cmp xs)))
  unfolding sort
  head-sort x xs = head-insert x (sort cmp xs)

  -- One step of a search for the first entry: a new one wins only if it comes before.
  abbrev pub pick : Option A → A → Option A
  pick none a = some a
  pick (some b) a = if is_lt (cmp a b) then some a else some b

  abbrev pub pick_all : Option A → List A → Option A
  pick_all best [] = best
  pick_all best (x ∷ xs) = pick_all (pick best x) xs

  pub pick_all-append :
      (best : Option A) (xs : List A) (x : A)
      → pick_all best (xs ++ x ∷ []) ≡ pick (pick_all best xs) x
  pick_all-append best [] x = refl
  pick_all-append best (y ∷ xs) x = pick_all-append (pick best y) xs x

module _ {ℓ} {A : Type ℓ} (cmp : A → A → Ordering) (c : IsComparator cmp) where
  first_assoc :
      (a b : A) (m : Option A)
      → first_of_two cmp (first_of_two cmp a (some b)) m
        ≡ first_of_two cmp a (some (first_of_two cmp b m))
  first_assoc a b none = refl
  first_assoc a b (some m) = ground (
    arith,
    c.swap a b,
    c.swap b m,
    c.swap a m,
    c.lt_trans m b a,
    c.lt_trans a b m,
    c.eq_left a b m,
    c.eq_left b m a,
    c.eq_left m b a,
  )

  pick_all-first :
      (a : A) (xs : List A)
      → pick_all cmp (some a) xs ≡ some (first_of_two cmp a (head? (sort cmp xs)))
  unfolding sort
  pick_all-first a [] = refl
  pick_all-first a (x ∷ xs) =
      rw (head-insert cmp x (sort cmp xs), ← first_assoc a x (head? (sort cmp xs)))
        (elim (Bool-cases (is_lt (cmp x a))) [
          | inl before ↦ rw before (pick_all-first x xs)
          | inr behind ↦ rw behind (pick_all-first a xs)
        ])

  -- A single pass finds the head of the sorted list.
  pub pick_all-eq-head : (xs : List A) → pick_all cmp none xs ≡ head? (sort cmp xs)
  unfolding sort
  pick_all-eq-head [] = refl
  pick_all-eq-head (x ∷ xs) = rw (head-insert cmp x (sort cmp xs)) (pick_all-first x xs)

  All-InOrder_trans :
      (x y : A) (zs : List A) → InOrder cmp x y → All (InOrder cmp y) zs → All (InOrder cmp x) zs
  All-InOrder_trans x y [] h k = tt
  All-InOrder_trans x y (z ∷ zs) h k = (
    ground (
      arith,
      k.0,
      c.swap x y,
      c.swap y z,
      c.swap x z,
      c.lt_trans z x y,
      c.lt_trans x y z,
      c.eq_left x y z,
      c.eq_left y z x,
    ),
    All-InOrder_trans x y zs h k.1,
  )

  insert-All : (P : A → Type 0) (x : A) (ys : List A) → P x → All P ys → All P (insert cmp x ys)
  unfolding insert
  insert-All P x [] h k = (h, tt)
  insert-All P x (y ∷ ys) h k = elim (Bool-cases (is_lt (cmp y x))) [
    | inl before ↦ rw before (k.0, insert-All P x ys h k.1)
    | inr behind ↦ rw behind (h, k)
  ]

  insert-IsSorted : (x : A) (ys : List A) → IsSorted cmp ys → IsSorted cmp (insert cmp x ys)
  unfolding insert
  insert-IsSorted x [] s = (tt, tt)
  insert-IsSorted x (y ∷ ys) s = elim (Bool-cases (is_lt (cmp y x))) [
    | inl before ↦
        rw before (
          insert-All (InOrder cmp y) x ys (ground (arith, c.swap x y)) s.0,
          insert-IsSorted x ys s.1,
        )
    | inr behind ↦ rw behind ((behind, All-InOrder_trans x y ys behind s.0), s)
  ]

  -- The sort leaves no entry in front of one that comes before it.
  pub sort-IsSorted : (xs : List A) → IsSorted cmp (sort cmp xs)
  unfolding sort
  sort-IsSorted [] = tt
  sort-IsSorted (x ∷ xs) = insert-IsSorted x (sort cmp xs) (sort-IsSorted xs)

module _ {ℓ} {A : Type ℓ} (cmp : A → A → Ordering) where
  count-insert :
      (test : A → Bool) (x : A) (ys : List A) → count test (insert cmp x ys) ≡ count test (x ∷ ys)
  unfolding insert
  count-insert test x [] = refl
  count-insert test x (y ∷ ys) = ground (arith, count-insert test x ys)

  -- The sort keeps how many entries pass a test.
  pub count-sort : (test : A → Bool) (xs : List A) → count test (sort cmp xs) ≡ count test xs
  unfolding sort
  count-sort test [] = refl
  count-sort test (x ∷ xs) = ground (arith, count-insert test x (sort cmp xs), count-sort test xs)

  length-insert : (x : A) (ys : List A) → length (insert cmp x ys) ≡ suc (length ys)
  unfolding insert
  length-insert x [] = refl
  length-insert x (y ∷ ys) = ground (arith, length-insert x ys)

  pub length-sort : (xs : List A) → length (sort cmp xs) ≡ length xs
  unfolding sort
  length-sort [] = refl
  length-sort (x ∷ xs) = ground (arith, length-insert x (sort cmp xs), length-sort xs)
