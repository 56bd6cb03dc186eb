-- ===== src/StatisticsReporter/Tests.antt =====
-- The theorems at a reporter with an interval of ten seconds.
use logging.Prelude.{◌*◌, ◌≡◌, refl, true, false, List, [], ◌∷◌, arith}
use logging.Channel.State.{set_at}
use logging.StatisticsReporter.Reporter.{
  report_statistics, increment_no_slot_available, update, make_reporter, is_report_overdue,
  StatisticsReporter,
}
use logging.StatisticsReporter.Intervals.{
  happen, Event, no_slot, updated, report_times, Spaced, report_times-Spaced,
}
use logging.StatisticsReporter.Concurrent.{
  System, initial, Reachable, here, next, check, take_flag, outside, overdue, reporting, is_inside,
  one_reporter,
}

abbrev ten_seconds : StatisticsReporter
ten_seconds = make_reporter 10 4 1000

-- Updates after 10, 15 and 25 seconds, with a lost message in between.
abbrev some_events : List Event
some_events =
    updated 10000000000 false true
    ∷ no_slot
    ∷ updated 15000000000 false true
    ∷ updated 25000000000 false true
    ∷ []

report_times-Spaced_example :
    Spaced
      (ten_seconds.report_interval * 1000000000)
      ten_seconds.last_report_time_point_nanoseconds
      (report_times some_events ten_seconds)
unfolding make_reporter
report_times-Spaced_example =
    report_times-Spaced some_events 0 ten_seconds (omega arith)
      (omega arith, (omega arith, (omega arith, (omega arith, tt))))

report_times_run : report_times some_events ten_seconds ≡ 10000000000 ∷ 25000000000 ∷ []
unfolding report_times happen update is_report_overdue make_reporter increment_no_slot_available
    report_statistics
report_times_run = refl

abbrev checked : System
checked = record (initial 10 4 1000) { threads = set_at 7 (overdue 10000000000) (λ i. outside) }

abbrev acquired : System
acquired = record checked {
  reporter = record (make_reporter 10 4 1000) { currently_reporting = true };
  threads = set_at 7 (reporting 10000000000) checked.threads;
}

acquired-Reachable : Reachable (initial 10 4 1000) acquired
unfolding is_report_overdue make_reporter
acquired-Reachable =
    next (next here (check (initial 10 4 1000) 7 10000000000 refl refl))
      (take_flag checked 7 10000000000 refl refl)

one_reporter_example :
    (is_inside (acquired.threads 8) ≡ false) × (acquired.reporter.currently_reporting ≡ true)
unfolding is_inside
one_reporter_example = one_reporter 10 4 1000 acquired-Reachable 7 8 (omega arith) refl
