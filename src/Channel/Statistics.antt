-- ===== src/Channel/Statistics.antt =====
-- `ShowStats` of dlt_log_channel.h. The text that goes to the logger is modelled by what is written
-- into it: a report of each kind of message, and the bytes of each message identifier, which the
-- source sorts by size. The result of `Bind` that it appends to a report is left out.
use logging.Prelude.{ℕ, ◌*◌, ◌/◌, List, [], ltb, if◌then◌else◌}
use logging.Channel.State.{DltLogChannelStatistics, Channel}

pub record Report : Type 0 where
  pub count : ℕ
  pub size : ℕ
  pub kib_per_second : ℕ
  pub failures : ℕ
  -- `send_errno_count`, which is shown when there was a failure
  pub errors : List (List ℕ × ℕ)

abbrev bandwidth_denominator : ℕ
bandwidth_denominator = 10 * 1024

unfoldable pub report_of : DltLogChannelStatistics → Report
report_of s = record {
  count = s.stats_msgcnt;
  size = s.stats_totalsize;
  kib_per_second = s.stats_totalsize / bandwidth_denominator;
  failures = s.send_failures_count;
  errors = if ltb 0 s.send_failures_count then s.send_errno_count else [];
}

-- The counters start again. The counts of each error stay.
unfoldable pub clear_stats : DltLogChannelStatistics → DltLogChannelStatistics
clear_stats s = record s { stats_msgcnt = 0; stats_totalsize = 0; send_failures_count = 0 }

-- `ShowAndClearStatsNonVerbose`, with a sort for `std::sort` by descending size: the new statistics,
-- and what is reported.
unfoldable pub show_non_verbose :
    (List (ℕ × ℕ) → List (ℕ × ℕ)) → Channel → Channel × (Report × List (ℕ × ℕ))
show_non_verbose sort s = (
  record s { non_verbose = clear_stats s.non_verbose; message_id_data_stats = [] },
  (report_of s.non_verbose, sort s.message_id_data_stats),
)

unfoldable pub show_stats :
    (List (ℕ × ℕ) → List (ℕ × ℕ)) → Channel → Channel × (Report × (Report × List (ℕ × ℕ)))
show_stats sort s =
    let (t, reported) = show_non_verbose sort (record s { verbose = clear_stats s.verbose }) in
    (t, (report_of s.verbose, reported))
