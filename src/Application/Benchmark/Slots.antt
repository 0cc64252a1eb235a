-- ===== src/Application/Benchmark/Slots.antt =====
-- What a round of the benchmark keeps: the bookings of the printers do not overlap.
use os_mini_project.Common.{
  ℕ, ◌+◌, ◌≤◌, ◌≡◌, ◌≢◌, refl, sym, ◌∙◌, inl, inr, ◌⊎◌, List, [], ◌∷◌, ◌++◌, All, arith, map, max,
  length, ◌*◌,
}
use os_mini_project.Common.Sort.{sort, insert}
use os_mini_project.Common.Sort.Entries.{
  All-map, All-append, sort-All, sort-Pairwise, Pairwise, Pairwise-append_one,
}
use os_mini_project.Application.Benchmark.{
  BenchmarkJob, BenchmarkPrinter, BenchmarkJobResult, PrinterModel, duration_of, maximum, sooner,
}

-- A job that a run of the printers has served, from among those with `P`.
abbrev pub IsRun : PrinterModel → (BenchmarkJob → Type 0) → BenchmarkJobResult → Type 0
IsRun model P r =
    (job : BenchmarkJob) × P job
    × (r.job_id ≡ job.id)
    × (job.arrival_time_ms + r.wait_ms ≡ r.start_ms)
    × (r.start_ms + duration_of job model ≡ r.end_ms)
    × (job.arrival_time_ms + r.turnaround_ms ≡ r.end_ms)

-- Two jobs on one printer: the one ends before the other starts.
abbrev pub Apart : BenchmarkJobResult → BenchmarkJobResult → Type 0
Apart a b = a.printer ≡ b.printer → (a.end_ms ≤ b.start_ms) ⊎ (b.end_ms ≤ a.start_ms)

pub Apart-swap : (a b : BenchmarkJobResult) → Apart a b → Apart b a
Apart-swap a b h same = elim (h (sym same)) [ inl x ↦ inr x | inr x ↦ inl x ]

-- The printer is not free before the job has ended.
abbrev pub Booked : BenchmarkJobResult → BenchmarkPrinter → Type 0
Booked r q = r.printer ≡ q.id → r.end_ms ≤ q.available_at

abbrev pub Different : BenchmarkPrinter → BenchmarkPrinter → Type 0
Different a b = a.id ≢ b.id

-- The printer is free when the last of the jobs has ended.
abbrev pub Within : List BenchmarkJobResult → BenchmarkPrinter → Type 0
Within rs q = q.available_at ≤ maximum (map (λ r. r.end_ms) rs)

maximum-append_one :
    (rs : List BenchmarkJobResult) (r : BenchmarkJobResult)
    → maximum (map (λ r. r.end_ms) (rs ++ r ∷ [])) ≡ max (maximum (map (λ r. r.end_ms) rs)) r.end_ms
maximum-append_one [] r = omega arith
maximum-append_one (a ∷ rs) r = omega (arith, maximum-append_one rs r)

-- The bookings `rs` of the printers `qs`.
pub record IsBooking (qs : List BenchmarkPrinter) (rs : List BenchmarkJobResult) : Type 0 where
  pub different : Pairwise Different qs
  pub booked : All (λ r. All (Booked r) qs) rs
  pub apart : Pairwise Apart rs
  pub within : All (Within rs) qs

pub sort-IsBooking :
    (qs : List BenchmarkPrinter) (rs : List BenchmarkJobResult)
    → IsBooking qs rs
    → IsBooking (sort sooner qs) rs
sort-IsBooking qs rs b = record {
  different = sort-Pairwise sooner Different qs (λ x y h e. h (sym e)) b.different;
  booked = All-map _ _ rs (λ r. sort-All sooner (Booked r) qs) b.booked;
  apart = b.apart;
  within = sort-All sooner (Within rs) qs b.within;
}

nothing_else :
    (r : BenchmarkJobResult) (id : ℕ) (qs : List BenchmarkPrinter) (available_at : ℕ)
    → r.printer ≡ id
    → All (Different (record { id = id; available_at = available_at })) qs
    → All (Booked r) qs
nothing_else r id [] available_at e h = tt
nothing_else r id (q ∷ qs) available_at e h =
    (λ same. absurd (h.0 (omega (arith, same, e))), nothing_else r id qs available_at e h.1)

-- A job that starts once the first printer is free is booked on it.
pub append-IsBooking :
    (printer : BenchmarkPrinter) (others : List BenchmarkPrinter) (rs : List BenchmarkJobResult)
    (r : BenchmarkJobResult)
    → IsBooking (printer ∷ others) rs
    → r.printer ≡ printer.id
    → printer.available_at ≤ r.start_ms
    → r.start_ms ≤ r.end_ms
    → IsBooking (record { id = printer.id; available_at = r.end_ms } ∷ others) (rs ++ r ∷ [])
append-IsBooking printer others rs r b same free lasts =
    let now : BenchmarkPrinter = record { id = printer.id; available_at = r.end_ms } in
    record {
      different = b.different;
      booked =
          All-append (λ a. All (Booked a) (now ∷ others)) rs (r ∷ [])
            (All-map (λ a. All (Booked a) (printer ∷ others)) (λ a. All (Booked a) (now ∷ others))
              rs (λ a (h, k). (λ e. omega (arith, h e, free, lasts), k)) b.booked)
            ((λ e. omega arith, nothing_else r printer.id others r.end_ms same b.different.0), tt);
      apart = Pairwise-append_one Apart rs r b.apart (
          All-map (λ a. All (Booked a) (printer ∷ others)) (λ a. Apart a r) rs
            (λ a (h, _) e. inl (omega (arith, h (e ∙ same), free))) b.booked);
      within = (
        omega (arith, maximum-append_one rs r),
        All-map (Within rs) (Within (rs ++ r ∷ [])) others
            (λ q h. omega (arith, h, maximum-append_one rs r)) b.within.1,
      );
    }

-- For how long the printers are taken altogether.
abbrev pub taken_ms : List BenchmarkPrinter → ℕ
taken_ms [] = 0
taken_ms (q ∷ qs) = q.available_at + taken_ms qs

taken_ms-insert :
    (q : BenchmarkPrinter) (qs : List BenchmarkPrinter)
    → taken_ms (insert sooner q qs) ≡ q.available_at + taken_ms qs
unfolding insert
taken_ms-insert q [] = refl
taken_ms-insert q (r ∷ qs) = ground (arith, taken_ms-insert q qs)

pub taken_ms-sort : (qs : List BenchmarkPrinter) → taken_ms (sort sooner qs) ≡ taken_ms qs
unfolding sort
taken_ms-sort [] = refl
taken_ms-sort (q ∷ qs) = omega (arith, taken_ms-insert q (sort sooner qs), taken_ms-sort qs)

pub taken_ms-bound :
    (qs : List BenchmarkPrinter) (rs : List BenchmarkJobResult)
    → All (Within rs) qs
    → taken_ms qs ≤ length qs * maximum (map (λ r. r.end_ms) rs)
taken_ms-bound [] rs h = omega arith
taken_ms-bound (q ∷ qs) rs h = grind (arith, h.0, taken_ms-bound qs rs h.1)
