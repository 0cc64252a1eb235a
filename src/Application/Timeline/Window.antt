-- ===== src/Application/Timeline/Window.antt =====
-- Every interval of a timeline lies in its window.
use os_mini_project.Common.{
  ℕ, ◌≤◌, ◌<◌, inl, inr, Option, none, some, List, [], ◌∷◌, All, arith, ltb, leb, Bool-cases, max,
  min, Ordering,
}
use os_mini_project.Common.Sort.Entries.{All-append, sort-All}
use os_mini_project.Common.Some.{select-All}
use os_mini_project.Entities.{Uuid, PrinterStatus}
use os_mini_project.Application.Timeline.{
  EventType, job_submitted, job_completed, job_cancelled, job_failed, job_dispatched,
  printer_jammed, printer_recovered, printer_updated, mutex_force_released, other, PersistedEvent,
  Kind, OpenInterval, Interval, Progress, Filters, push_interval, close, stop, change, change_at,
  count_depth, read_events, close_all, gaps, by_start, occupied, is_occupied, add_idle_intervals,
  add_all_idle, build_timeline, is_wanted, visible_printers, execution, mutex, jam, offline,
  recovered, updated, take_open, ended, nothing_yet,
}

module _ (from_ms to_ms : ℕ) where
  -- The interval is not empty and lies in the window.
  abbrev pub InWindow : Interval → Type 0
  InWindow i = (from_ms ≤ i.start_ms) × (i.start_ms < i.end_ms) × (i.end_ms ≤ to_ms)

  push_interval-InWindow :
      (value : OpenInterval) (end_ms : ℕ) (intervals : List Interval)
      → All InWindow intervals
      → All InWindow (push_interval from_ms to_ms value end_ms intervals)
  unfolding push_interval
  push_interval-InWindow value end_ms intervals h =
      elim (Bool-cases (leb (min to_ms end_ms) (max from_ms value.start_ms))) [
        | inl empty ↦ rw empty h
        | inr full ↦
            rw full
              (All-append InWindow intervals _ h ((omega arith, ground arith, omega arith), tt))
      ]

  close-InWindow :
      (end_ms : ℕ) (found : Option OpenInterval × List OpenInterval) (p : Progress)
      → All InWindow p.closed
      → All InWindow (close from_ms to_ms end_ms found p).closed
  unfolding close
  close-InWindow end_ms (none, rest) p h = h
  close-InWindow end_ms (some value, rest) p h = push_interval-InWindow value end_ms p.closed h

  stop-InWindow :
      (kind : Kind) (printer_id : Uuid) (end_ms : ℕ) (p : Progress)
      → All InWindow p.closed
      → All InWindow (stop from_ms to_ms kind printer_id end_ms p).closed
  unfolding stop
  stop-InWindow kind printer_id end_ms p h =
      close-InWindow end_ms (take_open kind printer_id p.open_intervals) p h

  ended-InWindow :
      (printer_id : Uuid) (time_ms : ℕ) (p : Progress)
      → All InWindow p.closed
      → All InWindow (ended from_ms to_ms printer_id time_ms p).closed
  unfolding ended
  ended-InWindow printer_id time_ms p h =
      stop-InWindow mutex printer_id time_ms (stop from_ms to_ms execution printer_id time_ms p)
        (stop-InWindow execution printer_id time_ms p h)

  recovered-InWindow :
      (printer_id : Uuid) (time_ms : ℕ) (job_id : Option Uuid) (p : Progress)
      → All InWindow p.closed
      → All InWindow (recovered from_ms to_ms printer_id time_ms job_id p).closed
  unfolding recovered
  recovered-InWindow printer_id time_ms none p h = stop-InWindow mutex printer_id time_ms p h
  recovered-InWindow printer_id time_ms (some job_id) p h = h

  updated-InWindow :
      (printer_id : Uuid) (time_ms : ℕ) (status : Option PrinterStatus) (p : Progress)
      → All InWindow p.closed
      → All InWindow (updated from_ms to_ms printer_id time_ms status p).closed
  unfolding updated
  updated-InWindow printer_id time_ms none p h = h
  updated-InWindow printer_id time_ms (some PrinterStatus.offline) p h = h
  updated-InWindow printer_id time_ms (some PrinterStatus.ready) p h =
      stop-InWindow offline printer_id time_ms p h
  updated-InWindow printer_id time_ms (some PrinterStatus.reserved) p h = h
  updated-InWindow printer_id time_ms (some PrinterStatus.printing) p h = h
  updated-InWindow printer_id time_ms (some PrinterStatus.jammed) p h = h
  updated-InWindow printer_id time_ms (some PrinterStatus.error) p h = h

  change-InWindow :
      (type : EventType) (printer_id : Uuid) (job_id : Option Uuid) (status : Option PrinterStatus)
      (time_ms : ℕ) (p : Progress)
      → All InWindow p.closed
      → All InWindow (change from_ms to_ms type printer_id job_id status time_ms p).closed
  unfolding change
  change-InWindow job_dispatched printer_id job_id status time_ms p h = h
  change-InWindow printer_jammed printer_id job_id status time_ms p h =
      stop-InWindow execution printer_id time_ms p h
  change-InWindow printer_recovered printer_id job_id status time_ms p h =
      recovered-InWindow printer_id time_ms job_id (stop from_ms to_ms jam printer_id time_ms p)
        (stop-InWindow jam printer_id time_ms p h)
  change-InWindow printer_updated printer_id job_id status time_ms p h =
      updated-InWindow printer_id time_ms status p h
  change-InWindow job_completed printer_id job_id status time_ms p h =
      ended-InWindow printer_id time_ms p h
  change-InWindow job_cancelled printer_id job_id status time_ms p h =
      ended-InWindow printer_id time_ms p h
  change-InWindow job_failed printer_id job_id status time_ms p h =
      ended-InWindow printer_id time_ms p h
  change-InWindow mutex_force_released printer_id job_id status time_ms p h =
      ended-InWindow printer_id time_ms p h
  change-InWindow job_submitted printer_id job_id status time_ms p h = h
  change-InWindow other printer_id job_id status time_ms p h = h

  change_at-InWindow :
      (event : PersistedEvent) (printer_id : Option Uuid) (p : Progress)
      → All InWindow p.closed
      → All InWindow (change_at from_ms to_ms event printer_id p).closed
  unfolding change_at
  change_at-InWindow event none p h = h
  change_at-InWindow event (some printer_id) p h =
      change-InWindow event.type printer_id event.job_id event.status event.simulation_time_ms p h

  read_events-InWindow :
      (events : List PersistedEvent) (p : Progress)
      → All InWindow p.closed
      → All InWindow (read_events from_ms to_ms events p).closed
  unfolding read_events
  read_events-InWindow [] p h = h
  read_events-InWindow (event ∷ events) p h =
      read_events-InWindow events
        (change_at from_ms to_ms event event.printer_id (count_depth from_ms event p))
        (change_at-InWindow event event.printer_id (count_depth from_ms event p) h)

  close_all-InWindow :
      (values : List OpenInterval) (closed : List Interval)
      → All InWindow closed
      → All InWindow (close_all from_ms to_ms values closed)
  unfolding close_all
  close_all-InWindow [] closed h = h
  close_all-InWindow (value ∷ values) closed h =
      close_all-InWindow values _ (push_interval-InWindow value to_ms closed h)

  gaps-InWindow :
      (printer_id : Uuid) (cursor : ℕ) (items : List Interval)
      → from_ms ≤ cursor
      → All InWindow items
      → All InWindow (gaps printer_id cursor to_ms items)
  unfolding gaps
  gaps-InWindow printer_id cursor [] h k = elim (Bool-cases (ltb cursor to_ms)) [
    | inl more ↦ rw more ((h, ground arith, omega arith), tt)
    | inr none_left ↦ rw none_left tt
  ]
  gaps-InWindow printer_id cursor (item ∷ items) h ((a, b, c), k) =
      let later = gaps-InWindow printer_id (max cursor item.end_ms) items (omega (arith, h)) k in
      elim (Bool-cases (ltb cursor item.start_ms)) [
        | inl free ↦ rw free ((h, ground arith, omega (arith, b, c)), later)
        | inr taken ↦ rw taken later
      ]

  add_all_idle-InWindow :
      (printer_ids : List Uuid) (intervals : List Interval)
      → All InWindow intervals
      → All InWindow (add_all_idle from_ms to_ms printer_ids intervals)
  unfolding add_all_idle add_idle_intervals
  add_all_idle-InWindow [] intervals h = h
  add_all_idle-InWindow (printer_id ∷ printer_ids) intervals h =
      add_all_idle-InWindow printer_ids _ (
        All-append InWindow intervals _ h (
          gaps-InWindow printer_id from_ms (occupied printer_id intervals) (omega arith) (
            sort-All by_start InWindow _
              (select-All InWindow (is_occupied printer_id) intervals h))))

  -- Whatever the events, the printers and the filters are, each interval of the timeline takes some
  -- time, starts in the window and ends in it.
  pub build_timeline-InWindow :
      (compare_ids : Interval → Interval → Ordering) (events : List PersistedEvent)
      (printer_ids : List Uuid) (filters : Filters)
      → All InWindow (build_timeline compare_ids events printer_ids from_ms to_ms filters).intervals
  unfolding build_timeline
  build_timeline-InWindow compare_ids events printer_ids filters = sort-All _ InWindow _ (
      select-All InWindow (is_wanted filters) _ (
        add_all_idle-InWindow (visible_printers filters.printer_id printer_ids) _ (
          close_all-InWindow (read_events from_ms to_ms events nothing_yet).open_intervals _
            (read_events-InWindow events nothing_yet tt))))
