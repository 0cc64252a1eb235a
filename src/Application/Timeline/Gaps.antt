-- ===== src/Application/Timeline/Gaps.antt =====
-- The idle intervals of a printer fill the window and meet none of its other intervals.
use os_mini_project.Common.{ℕ, ◌≤◌, ◌<◌, ◌≡◌, ◌⊎◌, false}
use os_mini_project.Common.Some.{Some}
use os_mini_project.Entities.{Uuid}
use os_mini_project.Application.Timeline.{Interval, mutex, same_kind}

-- The interval shows what the printer is at the time.
abbrev pub Shows : Uuid → ℕ → Interval → Type 0
Shows printer_id t i =
    (i.printer_id ≡ printer_id)
    × (same_kind i.kind mutex ≡ false)
    × (i.start_ms ≤ t)
    × (t < i.end_ms)

abbrev pub Apart : Interval → Interval → Type 0
Apart a b = (a.end_ms ≤ b.start_ms) ⊎ (b.end_ms ≤ a.start_ms)

abbrev Holds : ℕ → Interval → Type 0
Holds t i = (i.start_ms ≤ t) × (t < i.end_ms)
