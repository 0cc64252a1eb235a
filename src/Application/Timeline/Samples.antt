-- ===== src/Application/Timeline/Samples.antt =====
-- A timeline of one printer.
use os_mini_project.Common.{ℕ, none, some, List, [], ◌∷◌, All, compare, Ordering}
use os_mini_project.Common.Some.{Some}
use os_mini_project.Application.Timeline.{
  PersistedEvent, EventType, job_submitted, job_dispatched, printer_jammed, printer_recovered,
  Filters, Interval, execution, mutex, build_timeline,
}
use os_mini_project.Application.Timeline.Window.{InWindow, build_timeline-InWindow}

abbrev event : EventType → ℕ → PersistedEvent
event type simulation_time_ms = record {
  type = type;
  simulation_time_ms = simulation_time_ms;
  printer_id = some 7;
  job_id = some 1;
  status = none;
}

abbrev events : List PersistedEvent
events =
    event job_submitted 10
    ∷ event job_dispatched 20
    ∷ event printer_jammed 50
    ∷ event printer_recovered 80
    ∷ []

abbrev by_end : Interval → Interval → Ordering
by_end a b = compare a.end_ms b.end_ms

abbrev all_of_them : Filters
all_of_them = record { printer_id = none; job_id = none }

build_timeline-InWindow_example :
    All (InWindow 30 90) (build_timeline by_end events (7 ∷ 8 ∷ []) 30 90 all_of_them).intervals
build_timeline-InWindow_example =
    build_timeline-InWindow 30 90 by_end events (7 ∷ 8 ∷ []) all_of_them

abbrev busy : List Interval
busy =
    record { kind = execution; printer_id = 7; job_id = some 1; start_ms = 40; end_ms = 60 }
    ∷ record { kind = mutex; printer_id = 7; job_id = some 1; start_ms = 35; end_ms = 80 }
    ∷ []
