-- ===== src/Common/Some.antt =====
-- A property of some entry of a list.
use Prim.Native.Nat.{Ordering}
use mathlib.Core.Path.{◌≡◌}
use mathlib.Core.Logic.{◌⊎◌, inl, inr}
use mathlib.Core.Bool.{Bool, true}
use mathlib.Core.List.{List, [], ◌∷◌, ◌++◌}
use os_mini_project.Common.Tests.{Bool-cases}
use os_mini_project.Common.Lists.{All, select}
use os_mini_project.Common.Sort.{is_lt, insert, sort}

module _ {ℓ} {A : Type ℓ} where
  abbrev pub Some : (A → Type 0) → List A → Type 0
  Some P [] = ⊥
  Some P (x ∷ xs) = P x ⊎ Some P xs

  pub Some-map : (P Q : A → Type 0) (xs : List A) → ((x : A) → P x → Q x) → Some P xs → Some Q xs
  Some-map P Q [] f h = absurd h
  Some-map P Q (x ∷ xs) f (inl h) = inl (f x h)
  Some-map P Q (x ∷ xs) f (inr h) = inr (Some-map P Q xs f h)

  pub Some-append_left : (P : A → Type 0) (xs ys : List A) → Some P xs → Some P (xs ++ ys)
  Some-append_left P [] ys h = absurd h
  Some-append_left P (x ∷ xs) ys (inl h) = inl h
  Some-append_left P (x ∷ xs) ys (inr h) = inr (Some-append_left P xs ys h)

  pub Some-append_right : (P : A → Type 0) (xs ys : List A) → Some P ys → Some P (xs ++ ys)
  Some-append_right P [] ys h = h
  Some-append_right P (x ∷ xs) ys h = inr (Some-append_right P xs ys h)

  -- An entry that a test selects is one that passes it.
  pub Some-select :
      (P : A → Type 0) (test : A → Bool) (xs : List A)
      → Some P (select test xs)
      → Some (λ x. P x × (test x ≡ true)) xs
  Some-select P test [] h = absurd h
  Some-select P test (x ∷ xs) h = elim (Bool-cases (test x)) [
    | inl passes ↦
        let k : P x ⊎ Some P (select test xs) = rw passes at h in
        elim k [ inl k ↦ inl (k, passes) | inr k ↦ inr (Some-select P test xs k) ]
    | inr fails ↦ inr (Some-select P test xs (rw fails at h))
  ]

  pub select-All :
      (P : A → Type 0) (test : A → Bool) (xs : List A) → All P xs → All P (select test xs)
  select-All P test [] h = tt
  select-All P test (x ∷ xs) h = elim (Bool-cases (test x)) [
    | inl passes ↦ rw passes (h.0, select-All P test xs h.1)
    | inr fails ↦ rw fails (select-All P test xs h.1)
  ]

module _ {ℓ} {A : Type ℓ} (cmp : A → A → Ordering) (P : A → Type 0) where
  Some-insert : (x : A) (ys : List A) → Some P (insert cmp x ys) → P x ⊎ Some P ys
  unfolding insert
  Some-insert x [] h = h
  Some-insert x (y ∷ ys) h = elim (Bool-cases (is_lt (cmp y x))) [
    | inl before ↦
        let k : P y ⊎ Some P (insert cmp x ys) = rw before at h in
        elim k [
          | inl k ↦ inr (inl k)
          | inr k ↦ elim (Some-insert x ys k) [ inl k ↦ inl k | inr k ↦ inr (inr k) ]
        ]
    | inr behind ↦ rw behind at h
  ]

  pub Some-sort : (xs : List A) → Some P (sort cmp xs) → Some P xs
  unfolding sort
  Some-sort [] h = h
  Some-sort (x ∷ xs) h = elim (Some-insert x (sort cmp xs) h) [
    | inl k ↦ inl k
    | inr k ↦ inr (Some-sort xs k)
  ]
