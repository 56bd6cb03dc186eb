-- ===== src/StatisticsReporter/Reporter.antt =====
-- statistics_reporter.cpp: the state of a reporter and its operations. Times are the nanoseconds of
-- `std::chrono::steady_clock` since its epoch. A report is what `ReportStatisticsViaRecorder` hands to
-- the recorder, which belongs to the caller: `start_record` tells whether it gives a slot.
use logging.Prelude.{
  ℕ, ◌-◌, ◌/◌, Bool, false, ◌&&◌, ◌||◌, Option, none, some, ltb, leb, ◌==◌, if◌then◌else◌, add64,
}

pub record StatisticsReporter : Type 0 where
  pub report_interval : ℕ
  pub number_of_slots : ℕ
  pub slot_size_bytes : ℕ
  pub no_slot_available_counter : ℕ
  pub message_too_long_counter : ℕ
  pub last_report_time_point_nanoseconds : ℕ
  pub currently_reporting : Bool

unfoldable pub make_reporter : ℕ → ℕ → ℕ → StatisticsReporter
make_reporter report_interval number_of_slots slot_size_bytes = record {
  report_interval = report_interval;
  number_of_slots = number_of_slots;
  slot_size_bytes = slot_size_bytes;
  no_slot_available_counter = 0;
  message_too_long_counter = 0;
  last_report_time_point_nanoseconds = 0;
  currently_reporting = false;
}

-- `duration_cast` to seconds cuts towards zero, so a time before the last report is less than any
-- interval but the empty one.
unfoldable pub is_report_overdue : ℕ → ℕ → ℕ → Bool
is_report_overdue now last_report_time_nsec report_interval =
    if ltb now last_report_time_nsec
    then (report_interval == 0) && ltb (last_report_time_nsec - now) 1000000000
    else leb report_interval ((now - last_report_time_nsec) / 1000000000)

pub data ReportLevel : Type 0 where
  info : ReportLevel
  warn : ReportLevel

pub record Report : Type 0 where
  pub level : ReportLevel
  pub number_of_slots : ℕ
  pub slot_size_bytes : ℕ
  pub no_slot_available : ℕ
  pub message_too_long : ℕ

unfoldable pub report_statistics : Bool → ℕ → ℕ → ℕ → ℕ → Option Report
report_statistics start_record no_slot_available_counter message_too_long_counter number_of_slots
      slot_size_bytes =
    if start_record
    then some (record {
      level =
          if ltb 0 no_slot_available_counter || ltb 0 message_too_long_counter then warn else info;
      number_of_slots = number_of_slots;
      slot_size_bytes = slot_size_bytes;
      no_slot_available = no_slot_available_counter;
      message_too_long = message_too_long_counter;
    })
    else none

unfoldable pub increment_no_slot_available : StatisticsReporter → StatisticsReporter
increment_no_slot_available s = record s {
  no_slot_available_counter = add64 s.no_slot_available_counter 1;
}

unfoldable pub increment_message_too_long : StatisticsReporter → StatisticsReporter
increment_message_too_long s = record s {
  message_too_long_counter = add64 s.message_too_long_counter 1;
}

-- `Update` of one thread. `spurious` is whether `compare_exchange_weak` fails without a reason. The
-- result is `none` when no report was tried.
unfoldable pub update :
    ℕ → Bool → Bool → StatisticsReporter → StatisticsReporter × Option (Option Report)
update now spurious start_record s =
    if is_report_overdue now s.last_report_time_point_nanoseconds s.report_interval
    then if s.currently_reporting || spurious then (s, none) else (
      record s { last_report_time_point_nanoseconds = now; currently_reporting = false },
      some (
          report_statistics start_record s.no_slot_available_counter s.message_too_long_counter
            s.number_of_slots s.slot_size_bytes),
    )
    else (s, none)
