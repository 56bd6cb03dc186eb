-- ===== src/Router/Session.antt =====
-- data_router.cpp: SourceSession, the session of one logging process. What it does is a list of outputs.
-- Times that are only measured and shown are left out.
use logging.Prelude.{
  ℕ, ◌*◌, ◌/◌, Bool, true, false, Option, none, some, List, [], ◌∷◌, map, ltb, ◌==◌, if◌then◌else◌,
  add32,
}
use logging.Router.Parser.{same_bytes, LogParser, HandlerCall}
use logging.SharedMemory.Reader.{SharedMemoryReader}
use logging.SharedMemory.Writer.{SharedData}

pub record StatsData (Quota : Type 0) : Type 0 where
  pub message_count : ℕ
  pub message_count_dropped : ℕ
  pub size_dropped : ℕ
  pub message_count_dropped_invalid_size : ℕ
  pub max_bytes_in_buffer : ℕ
  pub totalsize : ℕ
  pub quota_k_bps : Quota
  pub quota_enforcement_enabled : Bool
  pub quota_overlimit_detected : Bool
  pub start : ℕ
  pub name : List ℕ
  pub count_acquire_requests : ℕ

-- `LocalSubscriberData` and `CommandData` are the fields before `stats`.
pub record SourceSession (Descriptor Quota : Type 0) : Type 0 where
  pub detach_on_closed_processed : Bool
  pub enabled_logging_at_server : Bool
  pub command_detach_on_closed : Bool
  pub acquire_requested : Bool
  pub ticks_without_write : ℕ
  pub block_expected_to_be_next : Option ℕ
  pub data_acquired : Option ℕ
  pub stats : StatsData Quota
  pub reader : SharedMemoryReader
  pub parser : LogParser Descriptor

-- The numbers of a line of statistics.
pub record ShownStatistics : Type 0 where
  pub message_count : ℕ
  pub totalsize : ℕ
  pub quota_enforcement : Bool
  pub buffer_watermark_kb : ℕ
  pub buffer_size_kb : ℕ
  pub buffer_watermark_percent : Option ℕ
  pub message_count_dropped : ℕ
  pub count_acquire_requests : ℕ

-- What a session does: calls of handlers, requests to its client, and lines of the log.
pub data SessionOutput (Descriptor TimePoint : Type 0) : Type 0 where
  handled : HandlerCall Descriptor TimePoint → SessionOutput Descriptor TimePoint
  acquisition_finalized : ℕ → SessionOutput Descriptor TimePoint
  acquire_request_sent : SessionOutput Descriptor TimePoint
  drops_detected : ℕ → ℕ → SessionOutput Descriptor TimePoint
  invalid_drops_detected : ℕ → SessionOutput Descriptor TimePoint
  detached_logs_processed : Option ℕ → SessionOutput Descriptor TimePoint
  rate_not_calculated : SessionOutput Descriptor TimePoint
  quota_exceeded : SessionOutput Descriptor TimePoint
  statistics_shown : ShownStatistics → SessionOutput Descriptor TimePoint

-- What a tick meets: the memory that is shared with the client each time that it is looked at, whether
-- a request is accepted, and the time in milliseconds.
pub record TickEnvironment : Type 0 where
  pub at_finalization : SharedData
  pub at_read : SharedData
  pub at_read_detached : SharedData
  pub at_peek : SharedData
  pub at_statistics : SharedData
  pub request_accepted : Bool
  pub now : ℕ

abbrev pub k_ticks_without_acquire_while_no_writes : ℕ
k_ticks_without_acquire_while_no_writes = 10

-- `DR`, the router itself.
abbrev datarouter_name : List ℕ
datarouter_name = 68 ∷ 82 ∷ []

-- The constructor, with `std::numeric_limits<double>::max()` as `unlimited`.
unfoldable pub new_source_session :
    {Descriptor Quota : Type 0}
    → Quota
    → List ℕ
    → Bool
    → Quota
    → Bool
    → ℕ
    → SharedMemoryReader
    → LogParser Descriptor
    → SourceSession Descriptor Quota
new_source_session unlimited name is_dlt_enabled quota quota_enforcement_enabled now reader parser =
    record {
      detach_on_closed_processed = false;
      enabled_logging_at_server = is_dlt_enabled;
      command_detach_on_closed = false;
      acquire_requested = false;
      ticks_without_write = 0;
      block_expected_to_be_next = none;
      data_acquired = none;
      stats = record {
        message_count = 0;
        message_count_dropped = 0;
        size_dropped = 0;
        message_count_dropped_invalid_size = 0;
        max_bytes_in_buffer = 0;
        totalsize = 0;
        quota_k_bps = if same_bytes name datarouter_name then unlimited else quota;
        quota_enforcement_enabled = quota_enforcement_enabled;
        quota_overlimit_detected = false;
        start = now;
        name = name;
        count_acquire_requests = 0;
      };
      reader = reader;
      parser = parser;
    }

module _ {Quota : Type 0} where
  abbrev watermark_kb : StatsData Quota → ℕ → ℕ
  watermark_kb stats size_kb =
      if ltb 0 stats.message_count_dropped then size_kb else stats.max_bytes_in_buffer / 1024

  unfoldable pub shown_statistics : ℕ → StatsData Quota → ShownStatistics
  shown_statistics ring_buffer_size stats =
      let size_kb = ring_buffer_size / 1024 / 2 in
      record {
        message_count = stats.message_count;
        totalsize = stats.totalsize;
        quota_enforcement = stats.quota_overlimit_detected;
        buffer_watermark_kb = watermark_kb stats size_kb;
        buffer_size_kb = size_kb;
        buffer_watermark_percent =
            if size_kb == 0 then none else some (100 * watermark_kb stats size_kb / size_kb);
        message_count_dropped = stats.message_count_dropped;
        count_acquire_requests = stats.count_acquire_requests;
      }

module _ {Descriptor Quota : Type 0} where
  unfoldable pub on_acquire_response :
      ℕ → SourceSession Descriptor Quota → SourceSession Descriptor Quota
  on_acquire_response acquired_buffer s = record s {
    data_acquired = some acquired_buffer;
    block_expected_to_be_next = some (add32 acquired_buffer 1);
  }

  unfoldable pub on_closed_by_peer : SourceSession Descriptor Quota → SourceSession Descriptor Quota
  on_closed_by_peer s = record s { command_detach_on_closed = true }

  unfoldable pub set_logging_client_enabled :
      Bool → SourceSession Descriptor Quota → SourceSession Descriptor Quota
  set_logging_client_enabled enable s = record s { enabled_logging_at_server = enable }

  unfoldable pub is_source_closed : SourceSession Descriptor Quota → Bool
  is_source_closed s = s.detach_on_closed_processed

  -- `ForEachSource` of the router.
  unfoldable pub for_each_source :
      Bool → List (SourceSession Descriptor Quota) → List (SourceSession Descriptor Quota)
  unfolding set_logging_client_enabled
  for_each_source enable sources = map (set_logging_client_enabled enable) sources

  -- `ShowStats`
  unfoldable pub show_stats :
      {TimePoint : Type 0}
      → ℕ
      → ℕ
      → SourceSession Descriptor Quota
      → SourceSession Descriptor Quota × List (SessionOutput Descriptor TimePoint)
  unfolding shown_statistics
  show_stats ring_buffer_size now s = (
    record s {
      stats = record (s.stats) {
        start = now;
        message_count = 0;
        totalsize = 0;
        quota_overlimit_detected = false;
      };
    },
    statistics_shown (shown_statistics ring_buffer_size s.stats) ∷ [],
  )
