-- ===== src/Common/Actions.antt =====
-- Code that mutates an object and may throw. What was written before a throw stays written, so the
-- state comes back beside the error too.
use mathlib.Core.Path.{◌≡◌, refl, sym, subst, ap, ◌∙◌}
use mathlib.Core.Logic.{◌⊎◌, inl, inr}
use mathlib.Core.Bool.{Bool, true, false}
use mathlib.Core.List.{List, [], ◌∷◌}
use mathlib.Core.Option.{Option, none, some}
use os_mini_project.Common.Lists.{All}

pub data Result {ℓ} (E : Type ℓ) (A : Type ℓ) : Type ℓ where
  ok : A → Result E A
  err : E → Result E A

-- A call on an object of type `S` that returns an `A` or throws an `E`.
abbrev pub Action : Type 0 → Type 0 → Type 0 → Type 0
Action S E A = S → Result E A × S

module _ {S E A : Type 0} where
  abbrev pub pure : A → Action S E A
  pure a s = (ok a, s)

  abbrev pub throw : E → Action S E A
  throw e s = (err e, s)

  abbrev pub lift : Result E A → Action S E A
  lift r s = (r, s)

  abbrev pub gets : (S → A) → Action S E A
  gets f s = (ok (f s), s)

  abbrev pub or_throw : Option A → E → Action S E A
  or_throw none e = throw e
  or_throw (some a) _ = pure a

module _ {S E : Type 0} where
  abbrev pub throw_if : Bool → E → Action S E (Unit {0})
  throw_if true e = throw e
  throw_if false e = pure tt

  abbrev pub modify : (S → S) → Action S E (Unit {0})
  modify f s = (ok tt, f s)

module _ {S E A B : Type 0} where
  infixl 5 ◌>>=◌ ◌>>◌
  abbrev pub ◌>>=◌ : Action S E A → (A → Action S E B) → Action S E B
  ◌>>=◌ m f s = let (r, s') = m s in elim r [ ok a ↦ f a s' | err e ↦ (err e, s') ]

  abbrev pub ◌>>◌ : Action S E A → Action S E B → Action S E B
  m >> k = m >>= λ _. k

  pub bind-ok :
      (m : Action S E A) (f : A → Action S E B) (s t : S) (a : A)
      → m s ≡ (ok a, t)
      → (m >>= f) s ≡ f a t
  bind-ok m f s t a e = ap (λ p. let (r, u) = p in elim r [ ok b ↦ f b u | err e ↦ (err e, u) ]) e

  pub bind-err :
      (m : Action S E A) (f : A → Action S E B) (s t : S) (e : E)
      → m s ≡ (err e, t)
      → (m >>= f) s ≡ (err e, t)
  bind-err m f s t e h = ap (λ p. let (r, u) = p in elim r [ ok b ↦ f b u | err e ↦ (err e, u) ]) h

-- A loop over a list whose body may throw.
abbrev pub fold_result : {S E A : Type 0} → (S → A → Result E S) → S → List A → Result E S
fold_result step s [] = ok s
fold_result step s (x ∷ xs) = elim (step s x) [ ok s' ↦ fold_result step s' xs | err e ↦ err e ]

abbrev pub map_result : {E A B : Type 0} → (A → B) → Result E A → Result E B
map_result f (ok a) = ok (f a)
map_result f (err e) = err e

abbrev after_step : {S E A : Type 0} → (S → A → Result E S) → List A → Result E S → Result E S
after_step step xs (ok s) = fold_result step s xs
after_step step xs (err e) = err e

module _ {S T E A : Type 0} (h : S → T) (f : S → A → Result E S) (g : T → A → Result E T) where
  module _ (same : (s : S) (a : A) → g (h s) a ≡ map_result h (f s a)) where
    -- Two loops whose bodies agree under `h` agree under `h`.
    pub fold_result-map :
        (s : S) (xs : List A) → fold_result g (h s) xs ≡ map_result h (fold_result f s xs)
    fold_result-map s [] = refl
    fold_result-map s (x ∷ xs) =
        ap (after_step g xs) (same s x) ∙ next (f s x) (λ s'. fold_result-map s' xs)
      where
        next :
            (r : Result E S)
            → ((s' : S) → fold_result g (h s') xs ≡ map_result h (fold_result f s' xs))
            → after_step g xs (map_result h r) ≡ map_result h (after_step f xs r)
        next (ok s') ih = ih s'
        next (err e) ih = refl

abbrev join : {E B : Type 0} → Result E B → Result E (List B) → Result E (List B)
join (err e) rest = err e
join (ok b) (err e) = err e
join (ok b) (ok bs) = ok (b ∷ bs)

-- `map` with a function that may throw: the first throw ends it.
abbrev pub traverse : {E A B : Type 0} → (A → Result E B) → List A → Result E (List B)
traverse f [] = ok []
traverse f (x ∷ xs) = join (f x) (traverse f xs)

module _ {E A : Type 0} where
  pub ok-injective : {a b : A} → ◌≡◌ {A = Result E A} (ok a) (ok b) → a ≡ b
  ok-injective h = cc

  pub Result-cases : (r : Result E A) → ((a : A) × (r ≡ ok a)) ⊎ ((e : E) × (r ≡ err e))
  Result-cases (ok a) = inl (a, refl)
  Result-cases (err e) = inr (e, refl)

  pub ok-ne-err : {a : A} {e : E} → ◌≡◌ {A = Result E A} (ok a) (err e) → ⊥
  ok-ne-err h = cc

module _ {E A B : Type 0} (f : A → Result E B) where
  join-ok :
      (r : Result E B) (rest : Result E (List B)) (bs : List B)
      → join r rest ≡ ok bs
      → (b : B) × (more : List B) × (r ≡ ok b) × (rest ≡ ok more) × (b ∷ more ≡ bs)
  join-ok (err e) rest bs h = absurd (ok-ne-err (sym h))
  join-ok (ok b) (err e) bs h = absurd (ok-ne-err (sym h))
  join-ok (ok b) (ok more) bs h = (b, more, refl, refl, ok-injective h)

  -- What the function makes of entries with `P` has `Q`.
  pub traverse-All :
      (P : A → Type 0) (Q : B → Type 0) (xs : List A) (bs : List B)
      → ((x : A) (b : B) → f x ≡ ok b → P x → Q b)
      → All P xs
      → traverse f xs ≡ ok bs
      → All Q bs
  traverse-All P Q [] bs h k e = subst (All Q) (ok-injective e) tt
  traverse-All P Q (x ∷ xs) bs h k e =
      let (b, more, made, rest, all) = join-ok (f x) (traverse f xs) bs e in
      subst (All Q) all (h x b made k.0, traverse-All P Q xs more h k.1 rest)

  -- If the function returns on every entry, so does the whole.
  pub traverse-ok :
      (xs : List A) → All (λ x. (b : B) × (f x ≡ ok b)) xs → (bs : List B) × (traverse f xs ≡ ok bs)
  traverse-ok [] h = ([], refl)
  traverse-ok (x ∷ xs) ((b, e), k) = let (bs, d) = traverse-ok xs k in (b ∷ bs, rw (e, d) refl)
