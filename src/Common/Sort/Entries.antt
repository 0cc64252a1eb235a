-- ===== src/Common/Sort/Entries.antt =====
-- What sorting keeps of the entries of a list.
use Prim.Native.Nat.{Ordering}
use mathlib.Core.Logic.{inl, inr}
use mathlib.Core.List.{List, [], ◌∷◌, ◌++◌}
use os_mini_project.Common.Tests.{Bool-cases}
use os_mini_project.Common.Lists.{All}
use os_mini_project.Common.Sort.{is_lt, insert, sort}

module _ {ℓ} {A : Type ℓ} (cmp : A → A → Ordering) (P : A → Type 0) where
  All-insert : (x : A) (ys : List A) → All P (insert cmp x ys) → P x × All P ys
  unfolding insert
  All-insert x [] h = h
  All-insert x (y ∷ ys) h = elim (Bool-cases (is_lt (cmp y x))) [
    | inl before ↦
        let k : P y × All P (insert cmp x ys) = rw before at h in
        let (px, rest) = All-insert x ys k.1 in (px, (k.0, rest))
    | inr behind ↦ rw behind at h
  ]

  -- What holds of every entry of the sorted list holds of every entry, and back.
  pub All-sort : (xs : List A) → All P (sort cmp xs) → All P xs
  unfolding sort
  All-sort [] h = tt
  All-sort (x ∷ xs) h = let (px, rest) = All-insert x (sort cmp xs) h in (px, All-sort xs rest)

  pub insert-All : (x : A) (ys : List A) → P x → All P ys → All P (insert cmp x ys)
  unfolding insert
  insert-All x [] h k = (h, tt)
  insert-All x (y ∷ ys) h k = elim (Bool-cases (is_lt (cmp y x))) [
    | inl before ↦ rw before (k.0, insert-All x ys h k.1)
    | inr behind ↦ rw behind (h, k)
  ]

  pub sort-All : (xs : List A) → All P xs → All P (sort cmp xs)
  unfolding sort
  sort-All [] h = tt
  sort-All (x ∷ xs) h = insert-All x (sort cmp xs) h.0 (sort-All xs h.1)

module _ {ℓ} {A : Type ℓ} where
  pub All-map : (P Q : A → Type 0) (xs : List A) → ((x : A) → P x → Q x) → All P xs → All Q xs
  All-map P Q [] f h = tt
  All-map P Q (x ∷ xs) f h = (f x h.0, All-map P Q xs f h.1)

  pub All-append : (P : A → Type 0) (xs ys : List A) → All P xs → All P ys → All P (xs ++ ys)
  All-append P [] ys h k = k
  All-append P (x ∷ xs) ys h k = (h.0, All-append P xs ys h.1 k)

  pub All-both : (P Q : A → Type 0) (xs : List A) → All P xs → All Q xs → All (λ x. P x × Q x) xs
  All-both P Q [] h k = tt
  All-both P Q (x ∷ xs) h k = ((h.0, k.0), All-both P Q xs h.1 k.1)

  -- A relation between every entry and each that stands behind it.
  abbrev pub Pairwise : (A → A → Type 0) → List A → Type 0
  Pairwise R [] = Unit
  Pairwise R (x ∷ xs) = All (R x) xs × Pairwise R xs

  pub Pairwise-append_one :
      (R : A → A → Type 0) (xs : List A) (y : A)
      → Pairwise R xs
      → All (λ x. R x y) xs
      → Pairwise R (xs ++ y ∷ [])
  Pairwise-append_one R [] y h k = (tt, tt)
  Pairwise-append_one R (x ∷ xs) y h k =
      (All-append (R x) xs (y ∷ []) h.0 (k.0, tt), Pairwise-append_one R xs y h.1 k.1)

module _ {ℓ} {A : Type ℓ} (cmp : A → A → Ordering) (R : A → A → Type 0) where
  insert-Pairwise :
      (x : A) (ys : List A)
      → ((a b : A) → R a b → R b a)
      → All (R x) ys
      → Pairwise R ys
      → Pairwise R (insert cmp x ys)
  unfolding insert
  insert-Pairwise x [] swap h k = (tt, tt)
  insert-Pairwise x (y ∷ ys) swap h k = elim (Bool-cases (is_lt (cmp y x))) [
    | inl before ↦
        rw before (insert-All cmp (R y) x ys (swap x y h.0) k.0, insert-Pairwise x ys swap h.1 k.1)
    | inr behind ↦ rw behind (h, k)
  ]

  -- A symmetric relation between any two entries is kept.
  pub sort-Pairwise :
      (xs : List A) → ((a b : A) → R a b → R b a) → Pairwise R xs → Pairwise R (sort cmp xs)
  unfolding sort
  sort-Pairwise [] swap h = tt
  sort-Pairwise (x ∷ xs) swap h =
      insert-Pairwise x (sort cmp xs) swap (sort-All cmp (R x) xs h.0) (sort-Pairwise xs swap h.1)
