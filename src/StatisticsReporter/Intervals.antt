-- ===== src/StatisticsReporter/Intervals.antt =====
-- The times of the reports of one thread.
use logging.Prelude.{
  ℕ, ◌+◌, ◌*◌, ◌≤◌, ◌≡◌, sym, subst, inl, inr, Bool, true, false, not, ◌&&◌, ◌||◌, Option, none,
  some, List, [], ◌∷◌, arith, Bool-cases,
}
use logging.StatisticsReporter.Reporter.{
  report_statistics, increment_message_too_long, increment_no_slot_available, Report,
  StatisticsReporter, is_report_overdue, update,
}

-- One thing that happens to the reporter.
pub data Event : Type 0 where
  no_slot : Event
  too_long : Event
  updated : ℕ → Bool → Bool → Event

unfoldable pub happen : Event → StatisticsReporter → StatisticsReporter × Option (Option Report)
happen no_slot s = (increment_no_slot_available s, none)
happen too_long s = (increment_message_too_long s, none)
happen (updated now spurious start_record) s = update now spurious start_record s

abbrev pub time_of : Event → ℕ → ℕ
time_of no_slot last = last
time_of too_long last = last
time_of (updated now _ _) last = now

abbrev with_report : Option (Option Report) → ℕ → List ℕ → List ℕ
with_report none time rest = rest
with_report (some r) time rest = time ∷ rest

-- The times at which a report was tried.
unfoldable pub report_times : List Event → StatisticsReporter → List ℕ
report_times [] s = []
report_times (e ∷ es) s =
    let happened = happen e s in
    let rest = report_times es happened.0 in with_report happened.1 (time_of e 0) rest

-- Each time is at least `gap` behind the one before it, the first behind `from`.
abbrev pub Spaced : ℕ → ℕ → List ℕ → Type 0
Spaced gap from [] = Unit
Spaced gap from (t ∷ ts) = (from + gap ≤ t) × Spaced gap t ts

-- The clock does not run backwards.
abbrev pub IsSteady : ℕ → List Event → Type 0
IsSteady now [] = Unit
IsSteady now (e ∷ es) = (now ≤ time_of e now) × IsSteady (time_of e now) es

overdue_gap :
    (now last interval : ℕ)
    → last ≤ now
    → is_report_overdue now last interval ≡ true
    → last + interval * 1000000000 ≤ now
unfolding is_report_overdue
overdue_gap now last interval h e = ground arith

reported : ℕ → StatisticsReporter → StatisticsReporter
reported now s = record s { last_report_time_point_nanoseconds = now; currently_reporting = false }

is_due : ℕ → Bool → StatisticsReporter → Bool
is_due now spurious s =
    is_report_overdue now s.last_report_time_point_nanoseconds s.report_interval
    && not (s.currently_reporting || spurious)

update-not_due :
    (now : ℕ) (spurious start_record : Bool) (s : StatisticsReporter)
    → is_due now spurious s ≡ false
    → update now spurious start_record s ≡ (s, none)
unfolding update is_due
update-not_due now spurious start_record s e = ground arith

update-due :
    (now : ℕ) (spurious start_record : Bool) (s : StatisticsReporter)
    → is_due now spurious s ≡ true
    → (r : Option Report) × (update now spurious start_record s ≡ (reported now s, some r))
unfolding update is_due reported
update-due now spurious start_record s e = (
  report_statistics start_record s.no_slot_available_counter s.message_too_long_counter
      s.number_of_slots s.slot_size_bytes,
  ground arith,
)

due_overdue :
    (now : ℕ) (spurious : Bool) (s : StatisticsReporter)
    → is_due now spurious s ≡ true
    → is_report_overdue now s.last_report_time_point_nanoseconds s.report_interval ≡ true
unfolding is_due
due_overdue now spurious s e = ground arith

-- While the clock does not run backwards, the reports of one thread are at least the report interval
-- apart, whatever is counted in between and however often the reporter is updated.
pub report_times-Spaced :
    (es : List Event) (now : ℕ) (s : StatisticsReporter)
    → s.last_report_time_point_nanoseconds ≤ now
    → IsSteady now es
    → Spaced
        (s.report_interval * 1000000000)
        s.last_report_time_point_nanoseconds
        (report_times es s)
unfolding report_times happen increment_no_slot_available increment_message_too_long reported
report_times-Spaced [] now s h st = tt
report_times-Spaced (no_slot ∷ es) now s h (b, st) =
    report_times-Spaced es now (increment_no_slot_available s) h st
report_times-Spaced (too_long ∷ es) now s h (b, st) =
    report_times-Spaced es now (increment_message_too_long s) h st
report_times-Spaced (updated time spurious start_record ∷ es) now s h (b, st) =
    elim (Bool-cases (is_due time spurious s)) [
      | inr e ↦
          subst Goal (sym (update-not_due time spurious start_record s e))
            (report_times-Spaced es time s (omega arith) st)
      | inl e ↦
          let (r, u) = update-due time spurious start_record s e in
          subst Goal (sym u) (
            overdue_gap time s.last_report_time_point_nanoseconds s.report_interval (omega arith)
                (due_overdue time spurious s e),
            report_times-Spaced es time (reported time s) (omega arith) st,
          )
    ]
  where
    Goal : StatisticsReporter × Option (Option Report) → Type 0
    Goal (t, r) =
        Spaced (s.report_interval * 1000000000) s.last_report_time_point_nanoseconds
          (with_report r time (report_times es t))
