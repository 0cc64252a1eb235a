-- ===== src/Agents/Daemon/Laws.antt =====
-- When the circuit of the automation daemon opens.
use os_mini_project.Common.{
  ℕ, ◌+◌, ◌≤◌, ◌<◌, ◌≡◌, refl, sym, ◌∙◌, inl, inr, ap, Bool, true, false, ◌&&◌, none, List, [], ◌∷◌,
  ◌++◌, ltb, leb, or_default, select, length, arith, Bool-cases, any, ◌==◌,
}
use os_mini_project.Entities.{Uuid}
use os_mini_project.Agents.Daemon.{
  AutomationDaemon, TickOutcome, idle, acted, failed, create, begin_tick, drop_old, with_failure,
  end_tick, is_open,
}

-- What the daemon goes through: a call of `tickSimulation` starts, or one ends.
pub data DaemonCall : Type 0 where
  begins : ℕ → Uuid → DaemonCall
  ends : TickOutcome → ℕ → Uuid → DaemonCall

abbrev pub time_of : DaemonCall → ℕ
time_of (begins now id) = now
time_of (ends outcome now id) = now

-- The daemon after some calls, the last one first.
unfoldable pub after : List DaemonCall → AutomationDaemon
unfolding begin_tick end_tick
after [] = create
after (begins now id ∷ calls) = or_default (begin_tick now id (after calls)) (after calls)
after (ends outcome now id ∷ calls) = end_tick outcome now id (after calls)

-- The calls come in the order of time, which has begun, and the last one at `last` at the latest.
abbrev pub InTime : ℕ → List DaemonCall → Type 0
InTime last [] = 0 < last
InTime last (call ∷ calls) = (time_of call ≤ last) × InTime (time_of call) calls

-- The times of the failures since a tick last acted, the first one first.
abbrev pub failures_since : List DaemonCall → List ℕ
failures_since [] = []
failures_since (begins now id ∷ calls) = failures_since calls
failures_since (ends idle now id ∷ calls) = failures_since calls
failures_since (ends acted now id ∷ calls) = []
failures_since (ends failed now id ∷ calls) = failures_since calls ++ now ∷ []

-- Not longer than ten seconds ago.
abbrev pub is_recent : ℕ → ℕ → Bool
is_recent now time = leb now (time + 10_000)

-- Times from `lo` to `hi` that do not decrease.
abbrev Ascending : ℕ → ℕ → List ℕ → Type 0
Ascending lo hi [] = lo ≤ hi
Ascending lo hi (time ∷ times) = (lo ≤ time) × Ascending time hi times

later :
    (lo hi last : ℕ) (times : List ℕ) → Ascending lo hi times → hi ≤ last → Ascending lo last times
later lo hi last [] h k = omega (arith, h, k)
later lo hi last (time ∷ times) h k = (h.0, later time hi last times h.1 k)

earlier :
    (lo first hi : ℕ) (times : List ℕ)
    → first ≤ lo
    → Ascending lo hi times
    → Ascending first hi times
earlier lo first hi [] k h = omega (arith, h, k)
earlier lo first hi (time ∷ times) k h = (omega (arith, k, h.0), h.1)

joined :
    (lo now : ℕ) (times : List ℕ) → Ascending lo now times → Ascending lo now (times ++ now ∷ [])
joined lo now [] h = (h, omega arith)
joined lo now (time ∷ times) h = (h.0, joined time now times h.1)

all_recent :
    (now lo hi : ℕ) (times : List ℕ)
    → Ascending lo hi times
    → now ≤ lo + 10_000
    → select (is_recent now) times ≡ times
all_recent now lo hi [] h k = refl
all_recent now lo hi (time ∷ times) h k =
    let rest = all_recent now time hi times h.1 (omega (arith, h.0, k)) in
    let recent : is_recent now time ≡ true = ground (arith, h.0, k) in rw (recent, rest) refl

-- Since the times ascend, the loop leaves those that are recent.
drop_old-select :
    (now lo hi : ℕ) (times : List ℕ)
    → 0 < lo
    → Ascending lo hi times
    → drop_old now times ≡ select (is_recent now) times
drop_old-select now lo hi [] pos h = refl
drop_old-select now lo hi (time ∷ times) pos h = elim (Bool-cases (is_recent now time)) [
  | inl recent ↦
      let stays : ltb 0 time && ltb (time + 10_000) now ≡ false = ground (arith, recent) in
      let rest = all_recent now time hi times h.1 (ground (arith, recent)) in
      rw (stays, recent, rest) refl
  | inr old ↦
      let goes : ltb 0 time && ltb (time + 10_000) now ≡ true = ground (arith, old, pos, h.0) in
      let rest = drop_old-select now time hi times (omega (arith, pos, h.0)) h.1 in
      rw (goes, old) rest
]

select-Ascending :
    (now lo hi : ℕ) (times : List ℕ)
    → Ascending lo hi times
    → Ascending lo hi (select (is_recent now) times)
select-Ascending now lo hi [] h = h
select-Ascending now lo hi (time ∷ times) h =
    let rest = select-Ascending now time hi times h.1 in
    elim (Bool-cases (is_recent now time)) [
      | inl recent ↦ rw recent (h.0, rest)
      | inr old ↦ rw old (earlier time lo hi (select (is_recent now) times) h.0 rest)
    ]

-- What is recent later is recent now.
select-select :
    (now later_on : ℕ) (times : List ℕ)
    → now ≤ later_on
    → select (is_recent later_on) (select (is_recent now) times) ≡ select (is_recent later_on) times
select-select now later_on [] h = refl
select-select now later_on (time ∷ times) h =
    let rest = select-select now later_on times h in
    elim (Bool-cases (is_recent now time)) [
      | inl recent ↦ rw (recent, rest) refl
      | inr old ↦
          let older : is_recent later_on time ≡ false = ground (arith, old, h) in
          rw (old, older) rest
    ]

select-append :
    (now : ℕ) (xs ys : List ℕ)
    → select (is_recent now) (xs ++ ys) ≡ select (is_recent now) xs ++ select (is_recent now) ys
select-append now [] ys = refl
select-append now (x ∷ xs) ys =
    let rest = select-append now xs ys in
    elim (Bool-cases (is_recent now x)) [
      | inl recent ↦ rw (recent, rest) refl
      | inr old ↦ rw (old, rest) refl
    ]

-- The failures that the daemon holds ascend, and those of them that are recent at a later time are the
-- recent ones of all failures since a tick last acted.
abbrev Tracks : ℕ → List ℕ → List ℕ → Type 0
Tracks last held all =
    Ascending 1 last held
    × ((now : ℕ) → last ≤ now → select (is_recent now) held ≡ select (is_recent now) all)

on_failure :
    (now : ℕ) (held all : List ℕ)
    → Tracks now held all
    → Tracks now (drop_old now (held ++ now ∷ [])) (all ++ now ∷ [])
on_failure now held all h =
    let in_order = joined 1 now held h.0 in
    let dropped = drop_old-select now 1 now (held ++ now ∷ []) (omega arith) in_order in
    (
      rw dropped (select-Ascending now 1 now (held ++ now ∷ []) in_order),
      λ later_on k.
          ap (select (is_recent later_on)) dropped
          ∙ select-select now later_on (held ++ now ∷ []) k
          ∙ select-append later_on held (now ∷ [])
          ∙ ap (λ times. times ++ select (is_recent later_on) (now ∷ [])) (h.1 later_on k)
          ∙ sym (select-append later_on all (now ∷ [])),
    )

moved : (now last : ℕ) (held all : List ℕ) → now ≤ last → Tracks now held all → Tracks last held all
moved now last held all k h =
    (later 1 now last held h.0 k, λ later_on m. h.1 later_on (omega (arith, k, m)))

begin_tick-failures :
    (now : ℕ) (id : Uuid) (d : AutomationDaemon)
    → (or_default (begin_tick now id d) d).failures ≡ d.failures
unfolding begin_tick
begin_tick-failures now id d = ground arith

begun : (last : ℕ) (calls : List DaemonCall) → InTime last calls → 0 < last
begun last [] h = h
begun last (call ∷ calls) h = omega (arith, h.0, begun (time_of call) calls h.1)

after-Tracks :
    (last : ℕ) (calls : List DaemonCall)
    → InTime last calls
    → Tracks last (after calls).failures (failures_since calls)
unfolding with_failure after
after-Tracks last [] h = (omega (arith, h), λ now k. refl)
after-Tracks last (begins now id ∷ calls) h =
    rw (begin_tick-failures now id (after calls))
      (moved now last _ _ h.0 (after-Tracks now calls h.1))
after-Tracks last (ends idle now id ∷ calls) h = moved now last _ _ h.0 (after-Tracks now calls h.1)
after-Tracks last (ends acted now id ∷ calls) h =
    (omega (arith, h.0, begun now calls h.1), λ later_on k. refl)
after-Tracks last (ends failed now id ∷ calls) h =
    moved now last _ _ h.0 (on_failure now _ _ (after-Tracks now calls h.1))

-- What the daemon holds after a failure.
held-recent :
    (now : ℕ) (held all : List ℕ)
    → Tracks now held all
    → drop_old now (held ++ now ∷ []) ≡ select (is_recent now) (all ++ now ∷ [])
held-recent now held all h =
    let dropped =
      drop_old-select now 1 now (held ++ now ∷ []) (omega arith) (joined 1 now held h.0) in
    dropped
    ∙ sym (select-select now now (held ++ now ∷ []) (omega arith))
    ∙ sym (ap (select (is_recent now)) dropped)
    ∙ (on_failure now held all h).1 now (omega arith)

blocked_tick :
    (until time : ℕ) (id : Uuid) (d : AutomationDaemon)
    → d.circuit_open_until ≡ until
    → time < until
    → begin_tick time id d ≡ none
unfolding begin_tick
blocked_tick until time id d e h =
    let blocked : is_open time d ≡ true = ground (arith, e, h) in
    elim (Bool-cases (any (λ i. i == id) d.in_flight)) [
      | inl busy ↦ rw busy refl
      | inr free ↦ rw (free, blocked) refl
    ]

with_failure-opens :
    (now : ℕ) (d : AutomationDaemon) (all : List ℕ)
    → Tracks now d.failures all
    → let failures = length (select (is_recent now) (all ++ now ∷ [])) in
      (3 ≤ failures → (with_failure now d).circuit_open_until ≡ now + 5_000)
      × (failures < 3 → (with_failure now d).circuit_open_until ≡ d.circuit_open_until)
unfolding with_failure
with_failure-opens now d all h =
    rw (held-recent now d.failures all h) (λ many. ground (arith, many), λ few. ground (arith, few))

-- In any history of ticks in the order of time, a failure opens the circuit for five seconds exactly
-- where it is at least the third within the last ten seconds and since a tick last acted: then no tick
-- begins before the five seconds are over. Otherwise the circuit stays as it was.
pub failure-opens :
    (calls : List DaemonCall) (now : ℕ) (simulation_id : Uuid)
    → InTime now calls
    → let d = end_tick failed now simulation_id (after calls) in
      let failures = length (select (is_recent now) (failures_since calls ++ now ∷ [])) in
      (3 ≤ failures
        → (d.circuit_open_until ≡ now + 5_000)
          × ((time : ℕ) (id : Uuid) → time < now + 5_000 → begin_tick time id d ≡ none))
      × (failures < 3 → d.circuit_open_until ≡ (after calls).circuit_open_until)
unfolding end_tick
failure-opens calls now simulation_id h =
    let (many, few) =
      with_failure-opens now (after calls) (failures_since calls) (after-Tracks now calls h) in
    (
      λ failures. (
        many failures,
        λ time id early.
            blocked_tick (now + 5_000) time id (end_tick failed now simulation_id (after calls))
              (many failures) early,
      ),
      few,
    )
