-- ===== src/Application/Timeline.antt =====
-- apps/api/src/application/analytics.ts: the intervals and the queue depths that a list of saved
-- events tells. Of an event's data only the printer, the job and the status are read. An interval's
-- id is a text made of its other fields; how two ids compare is an argument.
pub mod Gaps
pub mod Window
mod Samples
use os_mini_project.Common.{
  ℕ, ◌+◌, ◌-◌, min, max, compare, Ordering, Bool, true, false, ◌||◌, ◌&&◌, not, Option, none, some,
  List, [], ◌∷◌, ◌++◌, ltb, leb, ◌==◌, if◌then◌else◌, select, or_default,
}
use os_mini_project.Common.Sort.{sort, then_by}
use os_mini_project.Entities.{Uuid, PrinterStatus, same_printer_status}

-- The types of events that are told apart.
pub data EventType : Type 0 where
  job_submitted job_completed job_cancelled job_failed job_dispatched printer_jammed : EventType
  printer_recovered printer_updated mutex_force_released other : EventType

-- `PersistedEvent`, as far as it is read.
pub record PersistedEvent : Type 0 where
  pub type : EventType
  pub simulation_time_ms : ℕ
  pub printer_id : Option Uuid
  pub job_id : Option Uuid
  pub status : Option PrinterStatus

pub data Kind : Type 0 where
  execution mutex jam offline idle : Kind

abbrev pub same_kind : Kind → Kind → Bool
same_kind execution execution = true
same_kind mutex mutex = true
same_kind jam jam = true
same_kind offline offline = true
same_kind idle idle = true
same_kind _ _ = false

pub record OpenInterval : Type 0 where
  pub kind : Kind
  pub printer_id : Uuid
  pub job_id : Option Uuid
  pub start_ms : ℕ

pub record Interval : Type 0 where
  pub kind : Kind
  pub printer_id : Uuid
  pub job_id : Option Uuid
  pub start_ms : ℕ
  pub end_ms : ℕ

pub record QueueDepth : Type 0 where
  pub time_ms : ℕ
  pub depth : ℕ

-- The variables of `buildTimeline`. The keys of the map are the kinds and printers of its values.
pub record Progress : Type 0 where
  pub open_intervals : List OpenInterval
  pub closed : List Interval
  pub queue_depth : List QueueDepth
  pub depth : ℕ

pub record Filters : Type 0 where
  pub printer_id : Option Uuid
  pub job_id : Option Uuid

pub record TimelineResource : Type 0 where
  pub from_ms : ℕ
  pub to_ms : ℕ
  pub intervals : List Interval
  pub queue_depth : List QueueDepth

abbrev has_key : Kind → Uuid → OpenInterval → Bool
has_key kind printer_id value = same_kind kind value.kind && printer_id == value.printer_id

-- `open.set`
abbrev pub set_open : OpenInterval → List OpenInterval → List OpenInterval
set_open interval [] = interval ∷ []
set_open interval (value ∷ values) =
    let rest = set_open interval values in
    if has_key interval.kind interval.printer_id value then interval ∷ values else value ∷ rest

-- `open.get` and `open.delete`
abbrev pub take_open : Kind → Uuid → List OpenInterval → Option OpenInterval × List OpenInterval
take_open kind printer_id [] = (none, [])
take_open kind printer_id (value ∷ values) =
    let rest = take_open kind printer_id values in
    if has_key kind printer_id value then (some value, values) else (rest.0, value ∷ rest.1)

-- `pushInterval`
unfoldable pub push_interval : ℕ → ℕ → OpenInterval → ℕ → List Interval → List Interval
push_interval from_ms to_ms value end_ms intervals =
    let start_ms = max from_ms value.start_ms in
    let clipped_end = min to_ms end_ms in
    if leb clipped_end start_ms
    then intervals
    else intervals
      ++ record {
        kind = value.kind;
        printer_id = value.printer_id;
        job_id = value.job_id;
        start_ms = start_ms;
        end_ms = clipped_end;
      }
        ∷ []

abbrev pub start : OpenInterval → Progress → Progress
start interval p = record p { open_intervals = set_open interval p.open_intervals }

abbrev pub close : ℕ → ℕ → ℕ → Option OpenInterval × List OpenInterval → Progress → Progress
unfolding push_interval
close from_ms to_ms end_ms (none, _) p = p
close from_ms to_ms end_ms (some current, rest) p = record p {
  open_intervals = rest;
  closed = push_interval from_ms to_ms current end_ms p.closed;
}

-- `stop`
unfoldable pub stop : ℕ → ℕ → Kind → Uuid → ℕ → Progress → Progress
unfolding close
stop from_ms to_ms kind printer_id end_ms p =
    close from_ms to_ms end_ms (take_open kind printer_id p.open_intervals) p

abbrev is_submitted : EventType → Bool
is_submitted job_submitted = true
is_submitted _ = false

abbrev is_ended : EventType → Bool
is_ended job_completed = true
is_ended job_cancelled = true
is_ended job_failed = true
is_ended _ = false

-- The depth after an event; subtraction stops at 0, as `Math.max(0, depth - 1)` does.
abbrev pub next_depth : EventType → ℕ → ℕ
next_depth type depth =
    if is_submitted type then depth + 1 else if is_ended type then depth - 1 else depth

-- The first part of the loop's body.
abbrev pub count_depth : ℕ → PersistedEvent → Progress → Progress
count_depth from_ms event p =
    let depth = next_depth event.type p.depth in
    record p {
      depth = depth;
      queue_depth =
          if leb from_ms event.simulation_time_ms
            && (is_submitted event.type || is_ended event.type)
          then p.queue_depth ++ record { time_ms = event.simulation_time_ms; depth = depth } ∷ []
          else p.queue_depth;
    }

abbrev opened : Kind → Uuid → Option Uuid → ℕ → OpenInterval
opened kind printer_id job_id start_ms = record {
  kind = kind;
  printer_id = printer_id;
  job_id = job_id;
  start_ms = start_ms;
}

abbrev pub recovered : ℕ → ℕ → Uuid → ℕ → Option Uuid → Progress → Progress
unfolding stop
recovered from_ms to_ms printer_id time_ms none = stop from_ms to_ms mutex printer_id time_ms
recovered from_ms to_ms printer_id time_ms (some job_id) =
    start (opened execution printer_id (some job_id) time_ms)

abbrev pub updated : ℕ → ℕ → Uuid → ℕ → Option PrinterStatus → Progress → Progress
unfolding stop
updated from_ms to_ms printer_id time_ms (some PrinterStatus.offline) =
    start (opened offline printer_id none time_ms)
updated from_ms to_ms printer_id time_ms (some PrinterStatus.ready) =
    stop from_ms to_ms offline printer_id time_ms
updated from_ms to_ms printer_id time_ms _ = λ p. p

abbrev pub ended : ℕ → ℕ → Uuid → ℕ → Progress → Progress
unfolding stop
ended from_ms to_ms printer_id time_ms p =
    stop from_ms to_ms mutex printer_id time_ms (stop from_ms to_ms execution printer_id time_ms p)

-- The second part of the loop's body, for an event with a printer.
abbrev pub change :
    ℕ → ℕ → EventType → Uuid → Option Uuid → Option PrinterStatus → ℕ → Progress → Progress
unfolding stop recovered updated ended
change from_ms to_ms job_dispatched printer_id job_id status time_ms p =
    start (opened mutex printer_id job_id time_ms)
      (start (opened execution printer_id job_id time_ms) p)
change from_ms to_ms printer_jammed printer_id job_id status time_ms p =
    start (opened jam printer_id job_id time_ms) (stop from_ms to_ms execution printer_id time_ms p)
change from_ms to_ms printer_recovered printer_id job_id status time_ms p =
    recovered from_ms to_ms printer_id time_ms job_id (stop from_ms to_ms jam printer_id time_ms p)
change from_ms to_ms printer_updated printer_id job_id status time_ms p =
    updated from_ms to_ms printer_id time_ms status p
change from_ms to_ms job_completed printer_id job_id status time_ms p =
    ended from_ms to_ms printer_id time_ms p
change from_ms to_ms job_cancelled printer_id job_id status time_ms p =
    ended from_ms to_ms printer_id time_ms p
change from_ms to_ms job_failed printer_id job_id status time_ms p =
    ended from_ms to_ms printer_id time_ms p
change from_ms to_ms mutex_force_released printer_id job_id status time_ms p =
    ended from_ms to_ms printer_id time_ms p
change from_ms to_ms job_submitted printer_id job_id status time_ms p = p
change from_ms to_ms other printer_id job_id status time_ms p = p

abbrev pub change_at : ℕ → ℕ → PersistedEvent → Option Uuid → Progress → Progress
unfolding change
change_at from_ms to_ms event none p = p
change_at from_ms to_ms event (some printer_id) p =
    change from_ms to_ms event.type printer_id event.job_id event.status event.simulation_time_ms p

-- The loop over the events.
unfoldable pub read_events : ℕ → ℕ → List PersistedEvent → Progress → Progress
unfolding change_at
read_events from_ms to_ms [] p = p
read_events from_ms to_ms (event ∷ events) p =
    read_events from_ms to_ms events
      (change_at from_ms to_ms event event.printer_id (count_depth from_ms event p))

-- The loop over the intervals that are still open.
unfoldable pub close_all : ℕ → ℕ → List OpenInterval → List Interval → List Interval
unfolding push_interval
close_all from_ms to_ms [] closed = closed
close_all from_ms to_ms (value ∷ values) closed =
    close_all from_ms to_ms values (push_interval from_ms to_ms value to_ms closed)

abbrev pub is_occupied : Uuid → Interval → Bool
is_occupied printer_id item = item.printer_id == printer_id && not (same_kind item.kind mutex)

abbrev pub idle_interval : Uuid → ℕ → ℕ → Interval
idle_interval printer_id start_ms end_ms = record {
  kind = idle;
  printer_id = printer_id;
  job_id = none;
  start_ms = start_ms;
  end_ms = end_ms;
}

-- The idle intervals before, between and behind those that are occupied.
unfoldable pub gaps : Uuid → ℕ → ℕ → List Interval → List Interval
gaps printer_id cursor to_ms [] =
    if ltb cursor to_ms then idle_interval printer_id cursor to_ms ∷ [] else []
gaps printer_id cursor to_ms (item ∷ items) =
    let rest = gaps printer_id (max cursor item.end_ms) to_ms items in
    if ltb cursor item.start_ms then idle_interval printer_id cursor item.start_ms ∷ rest else rest

abbrev pub by_start : Interval → Interval → Ordering
by_start left right = compare left.start_ms right.start_ms

abbrev pub occupied : Uuid → List Interval → List Interval
occupied printer_id intervals = sort by_start (select (is_occupied printer_id) intervals)

-- `addIdleIntervals`
unfoldable pub add_idle_intervals : ℕ → ℕ → Uuid → List Interval → List Interval
unfolding gaps
add_idle_intervals from_ms to_ms printer_id intervals =
    intervals ++ gaps printer_id from_ms to_ms (occupied printer_id intervals)

-- The loop over the visible printers.
unfoldable pub add_all_idle : ℕ → ℕ → List Uuid → List Interval → List Interval
unfolding add_idle_intervals
add_all_idle from_ms to_ms [] intervals = intervals
add_all_idle from_ms to_ms (printer_id ∷ printer_ids) intervals =
    add_all_idle from_ms to_ms printer_ids (add_idle_intervals from_ms to_ms printer_id intervals)

-- `depthAt`
unfoldable pub depth_at : List PersistedEvent → ℕ → ℕ → ℕ
depth_at [] at_ms depth = depth
depth_at (event ∷ events) at_ms depth =
    let rest = depth_at events at_ms (next_depth event.type depth) in
    if leb at_ms event.simulation_time_ms then depth else rest

abbrev matches : Option Uuid → Option Uuid → Bool
matches none id = true
matches (some wanted) none = false
matches (some wanted) (some id) = wanted == id

abbrev pub is_wanted : Filters → Interval → Bool
is_wanted filters item =
    matches filters.printer_id (some item.printer_id) && matches filters.job_id item.job_id

abbrev pub visible_printers : Option Uuid → List Uuid → List Uuid
visible_printers none printer_ids = printer_ids
visible_printers (some printer_id) printer_ids = printer_id ∷ []

abbrev pub nothing_yet : Progress
nothing_yet = record { open_intervals = []; closed = []; queue_depth = []; depth = 0 }

-- `buildTimeline`
unfoldable pub build_timeline :
    (Interval → Interval → Ordering)
    → List PersistedEvent
    → List Uuid
    → ℕ
    → ℕ
    → Filters
    → TimelineResource
unfolding read_events close_all add_all_idle depth_at sort
build_timeline compare_ids events printer_ids from_ms to_ms filters =
    let p = read_events from_ms to_ms events nothing_yet in
    let closed = close_all from_ms to_ms p.open_intervals p.closed in
    let intervals =
      add_all_idle from_ms to_ms (visible_printers filters.printer_id printer_ids) closed in
    record {
      from_ms = from_ms;
      to_ms = to_ms;
      intervals =
          sort (λ left right. then_by (by_start left right) (compare_ids left right))
            (select (is_wanted filters) intervals);
      queue_depth = record { time_ms = from_ms; depth = depth_at events from_ms 0 } ∷ p.queue_depth;
    }
