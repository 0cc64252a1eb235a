-- ===== src/Sync/Buffer/Laws.antt =====
-- The buffer is a bounded queue of distinct keys: what is pushed comes behind what was there, and
-- the number of items never exceeds the capacity.
use mathlib.Core.List.{append-nil, append_assoc}
use os_mini_project.Common.{
  ℕ, zero, suc, ◌+◌, ◌-◌, ◌≤◌, ◌<◌, ◌≡◌, ◌≢◌, refl, ap, sym, subst₂, ◌⊎◌, inl, inr, ◌∙◌, true,
  false, List, [], ◌∷◌, ◌++◌, map, arith, ok, err, Bool-cases, ◌||◌, ltb, any, is_distinct, All,
  contains, take, drop, length, take-append-drop, length-take, ◌==◌,
}
use os_mini_project.Common.Distinct.{Distinct, is_distinct-Distinct, Distinct-is_distinct}
use os_mini_project.Common.Dict.{Dict, has, put, values}
use os_mini_project.Entities.{Uuid, domain, invariant_violation, queue_capacity_exceeded}
use os_mini_project.Sync.Buffer.{
  BoundedBuffer, BurstMode, BurstPushResult, atomic, available_capacity, size, snapshot, set_all,
  push_burst, has_clash,
}

abbrev pub Fits : {T : Type 0} → BoundedBuffer T → Type 0
Fits b = size b ≤ b.capacity

module _ {T : Type 0} (key_of : T → Uuid) where
  put-append :
      (k : Uuid) (item : T) (d : Dict T) → has k d ≡ false → put k item d ≡ d ++ (k, item) ∷ []
  put-append k item [] h = refl
  put-append k item ((j, v) ∷ d) h = ground (arith, put-append k item d)

  has-append :
      (k j : Uuid) (item : T) (d : Dict T) → has k (d ++ (j, item) ∷ []) ≡ has k d || k == j
  has-append k j item [] = ground arith
  has-append k j item ((i, v) ∷ d) = ground (arith, has-append k j item d)

  any-has-append :
      (k : Uuid) (item : T) (d : Dict T) (ks : List ℕ)
      → any (λ j. has j (d ++ (k, item) ∷ [])) ks ≡ any (λ j. has j d) ks || contains k ks
  any-has-append k item d [] = refl
  any-has-append k item d (j ∷ ks) =
      ground (arith, has-append j k item d, any-has-append k item d ks)

  values-append :
      (d : Dict T) (k : Uuid) (item : T) → values (d ++ (k, item) ∷ []) ≡ values d ++ item ∷ []
  values-append [] k item = refl
  values-append ((j, v) ∷ d) k item = ap (◌∷◌ v) (values-append d k item)

  length-append_one :
      (d : Dict T) (k : Uuid) (item : T) → length (d ++ (k, item) ∷ []) ≡ suc (length d)
  length-append_one [] k item = refl
  length-append_one ((j, v) ∷ d) k item = ap suc (length-append_one d k item)

  -- No key twice, and none that the dictionary has.
  record AreNew (items : List T) (d : Dict T) : Type 0 where
    distinct : is_distinct (map key_of items) ≡ true
    unknown : any (λ k. has k d) (map key_of items) ≡ false

  AreNew-tail :
      (item : T) (items : List T) (d : Dict T)
      → AreNew (item ∷ items) d
      → AreNew items (d ++ (key_of item, item) ∷ [])
  AreNew-tail item items d n = record {
    distinct = ground (arith, n.distinct);
    unknown =
        ground
          (arith, n.distinct, n.unknown, any-has-append (key_of item) item d (map key_of items));
  }

  set_all-values :
      (items : List T) (d : Dict T)
      → AreNew items d
      → (values (set_all key_of items d) ≡ values d ++ items)
        × (length (set_all key_of items d) ≡ length d + length items)
  unfolding set_all
  set_all-values [] d n = (sym (append-nil (values d)), omega arith)
  set_all-values (item ∷ items) d n =
      let (same, longer) =
        set_all-values items (d ++ (key_of item, item) ∷ []) (AreNew-tail item items d n) in
      rw (put-append (key_of item) item d (ground (arith, n.unknown))) (
        same
            ∙ ap (λ vs. vs ++ items) (values-append d (key_of item) item)
            ∙ append_assoc (values d) (item ∷ []) items,
        omega (arith, longer, length-append_one d (key_of item) item),
      )

  contains-take :
      (k n : ℕ) (items : List T)
      → contains k (map key_of items) ≡ false
      → contains k (map key_of (take n items)) ≡ false
  contains-take k zero items h = refl
  contains-take k (suc n) [] h = refl
  contains-take k (suc n) (x ∷ xs) h = ground (arith, contains-take k n xs)

  AreNew-take : (n : ℕ) (items : List T) (d : Dict T) → AreNew items d → AreNew (take n items) d
  AreNew-take zero items d v = record { distinct = refl; unknown = refl }
  AreNew-take (suc n) [] d v = record { distinct = refl; unknown = refl }
  AreNew-take (suc n) (x ∷ xs) d v =
      let rest =
        AreNew-take n xs d
          (record { distinct = ground (arith, v.distinct); unknown = ground (arith, v.unknown) }) in
      record {
        distinct = ground (arith, v.distinct, rest.distinct, contains-take (key_of x) n xs);
        unknown = ground (arith, v.unknown, rest.unknown);
      }

  -- What a burst that went through has done to the buffer.
  pub record Pushed (items : List T) (mode : BurstMode) (b b' : BoundedBuffer T)
      (r : BurstPushResult T) : Type 0 where
    pub shared_out : r.accepted ++ r.rejected ≡ items
    pub behind : snapshot b' ≡ snapshot b ++ r.accepted
    pub fits : Fits b'
    pub capacity_kept : b'.capacity ≡ b.capacity
    pub all_or_none : mode ≡ atomic → r.rejected ≡ []
    pub greedy : r.rejected ≢ [] → size b' ≡ b'.capacity

  abbrev available : BoundedBuffer T → ℕ
  available b = b.capacity - size b

  abbrev result_of : List T → BoundedBuffer T → BurstPushResult T
  result_of items b = record {
    accepted = take (available b) items;
    rejected = drop (available b) items;
  }

  abbrev filled : List T → BoundedBuffer T → BoundedBuffer T
  filled items b = record b { items = set_all key_of (take (available b) items) b.items }

  -- How `pushBurst` comes to return.
  record Returned (items : List T) (mode : BurstMode) (b b' : BoundedBuffer T)
      (r : BurstPushResult T) : Type 0 where
    no_clash : has_clash key_of items b ≡ false
    room : mode ≡ atomic → length items ≤ available b
    result : result_of items b ≡ r
    state : filled items b ≡ b'

  push_burst-Returned :
      (items : List T) (mode : BurstMode) (b b' : BoundedBuffer T) (r : BurstPushResult T)
      → push_burst key_of items mode b ≡ (ok r, b')
      → Returned items mode b b' r
  unfolding push_burst
  push_burst-Returned items mode b b' r h = record {
    no_clash = ground arith;
    room = λ m. ground arith;
    result = ground arith;
    state = ground arith;
  }

  drop-nil : (n : ℕ) (items : List T) → length items ≤ n → drop n items ≡ []
  drop-nil zero [] h = refl
  drop-nil zero (x ∷ xs) h = absurd (omega arith)
  drop-nil (suc n) [] h = refl
  drop-nil (suc n) (x ∷ xs) h = drop-nil n xs (omega arith)

  filled-Pushed :
      (items : List T) (mode : BurstMode) (b : BoundedBuffer T)
      → Fits b
      → AreNew items b.items
      → (mode ≡ atomic → length items ≤ available b)
      → Pushed items mode b (filled items b) (result_of items b)
  filled-Pushed items mode b f new room =
      let n = available b in
      let (same, longer) =
        set_all-values (take n items) b.items (AreNew-take n items b.items new) in
      record {
        shared_out = take-append-drop n items;
        behind = same;
        fits = omega (arith, f, longer, length-take n items);
        capacity_kept = refl;
        all_or_none = λ m. drop-nil n items (room m);
        greedy = λ some_rejected. elim (Bool-cases (ltb n (length items))) [
          | inl more ↦ ground (arith, f, longer, length-take n items)
          | inr fewer ↦ absurd (some_rejected (drop-nil n items (ground arith)))
        ];
      }

  -- `pushBurst` on a buffer within its capacity, when it returns: what was accepted is a first part
  -- of the items and comes behind the old ones in order; what was rejected is the rest; the size
  -- stays within the capacity, which is not changed; in ATOMIC mode nothing is rejected, and
  -- otherwise something is rejected only when the buffer is then full.
  pub push_burst-Pushed :
      (items : List T) (mode : BurstMode) (b b' : BoundedBuffer T) (r : BurstPushResult T)
      → Fits b
      → push_burst key_of items mode b ≡ (ok r, b')
      → Pushed items mode b b' r
  push_burst-Pushed items mode b b' r f h =
      let back = push_burst-Returned items mode b b' r h in
      subst₂ (Pushed items mode b) back.state back.result (
        filled-Pushed items mode b f
          (record {
            distinct = ground (arith, back.no_clash);
            unknown = ground (arith, back.no_clash);
          })
          back.room)

  absent-has : (key : ℕ) (d : Dict T) → has key d ≡ false → All (λ (e : ℕ × T). key ≢ e.0) d
  absent-has key [] h = tt
  absent-has key (e ∷ d) h = (ground arith, absent-has key d (ground arith))

  has-absent : (key : ℕ) (d : Dict T) → All (λ (e : ℕ × T). key ≢ e.0) d → has key d ≡ false
  has-absent key [] h = refl
  has-absent key (e ∷ d) h = ground (arith, h.0, has-absent key d h.1)

  -- The items' keys are all different, and none of them is in the buffer.
  abbrev pub AreFresh : List T → BoundedBuffer T → Type 0
  AreFresh items b =
      Distinct (map key_of items)
      × All (λ key. All (λ (e : ℕ × T). key ≢ e.0) b.items) (map key_of items)

  keys_absent :
      (keys : List ℕ) (d : Dict T)
      → any (λ key. has key d) keys ≡ false
      → All (λ key. All (λ (e : ℕ × T). key ≢ e.0) d) keys
  keys_absent [] d h = tt
  keys_absent (key ∷ keys) d h =
      (absent-has key d (ground arith), keys_absent keys d (ground arith))

  none_has :
      (keys : List ℕ) (d : Dict T)
      → All (λ key. All (λ (e : ℕ × T). key ≢ e.0) d) keys
      → any (λ key. has key d) keys ≡ false
  none_has [] d h = refl
  none_has (key ∷ keys) d h = ground (arith, has-absent key d h.0, none_has keys d h.1)

  has_clash-AreFresh :
      (items : List T) (b : BoundedBuffer T) → has_clash key_of items b ≡ false → AreFresh items b
  has_clash-AreFresh items b h = (
    is_distinct-Distinct (map key_of items) (ground arith),
    keys_absent (map key_of items) b.items (ground arith),
  )

  AreFresh-has_clash :
      (items : List T) (b : BoundedBuffer T) → AreFresh items b → has_clash key_of items b ≡ false
  AreFresh-has_clash items b h =
      ground (
        arith,
        Distinct-is_distinct (map key_of items) h.0,
        none_has (map key_of items) b.items h.1,
      )

  -- How `pushBurst` ends on a buffer within its capacity: with INVARIANT_VIOLATION exactly where two
  -- items have one key or an item has a key of the buffer; with QUEUE_CAPACITY_EXCEEDED exactly where
  -- this is not so and the mode is ATOMIC with more items than there is room for; otherwise it
  -- returns. When it throws, the buffer is as it was.
  pub push_burst_outcomes :
      (items : List T) (mode : BurstMode) (b : BoundedBuffer T)
      → Fits b
      → (¬ AreFresh items b
          → push_burst key_of items mode b ≡ (err (domain invariant_violation), b))
        × (AreFresh items b
            → mode ≡ atomic
            → b.capacity < size b + length items
            → push_burst key_of items mode b ≡ (err (domain queue_capacity_exceeded), b))
        × (AreFresh items b
            → (mode ≡ available_capacity) ⊎ (size b + length items ≤ b.capacity)
            → (r : BurstPushResult T) × ((push_burst key_of items mode b).0 ≡ ok r))
  unfolding push_burst
  push_burst_outcomes items mode b f = (
    λ stale. elim (Bool-cases (has_clash key_of items b)) [
      | inl clash ↦ rw clash refl
      | inr fresh ↦ absurd (stale (has_clash-AreFresh items b fresh))
    ],
    λ h m full. rw (AreFresh-has_clash items b h) (ground (arith, f)),
    λ h room. (result_of items b, rw (AreFresh-has_clash items b h) (ground (arith, f))),
  )
