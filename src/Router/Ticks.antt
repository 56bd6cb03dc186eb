-- ===== src/Router/Ticks.antt =====
-- data_router.cpp: SourceSession::Tick in its parts. A tick is one step: what the other threads do to a
-- session comes before or after it.
use logging.Prelude.{
  ℕ, ◌+◌, ◌-◌, ◌%◌, Bool, true, false, not, ◌&&◌, ◌||◌, Option, none, some, List, [], ◌∷◌, ◌++◌,
  map, ltb, ◌==◌, if◌then◌else◌, add64, sub64,
}
use logging.Router.Session.{
  StatsData, SourceSession, SessionOutput, TickEnvironment, k_ticks_without_acquire_while_no_writes,
  on_acquire_response, on_closed_by_peer, set_logging_client_enabled, show_stats, handled,
  acquisition_finalized, acquire_request_sent, drops_detected, invalid_drops_detected,
  detached_logs_processed, rate_not_calculated, quota_exceeded,
}
use logging.Router.Parser.{LogParser, add_incoming_type, parse_shared_memory_record}
use logging.DltServer.Maps.{value_or}
use logging.Queue.Alternating.{is_block_released_by_writers}
use logging.SharedMemory.Reader.{
  notify_acquisition_set_reader, peek_number_of_bytes_acquired_in_buffer, read_shared,
  read_detached,
}
use logging.SharedMemory.Writer.{SharedData}
use logging.SharedMemory.Records.{HeaderLayout, CallbackCall, type_registration, new_record}

-- What happens to a session.
pub data SessionEvent : Type 0 where
  ticked : TickEnvironment → SessionEvent
  acquire_responded : ℕ → SessionEvent
  closed_by_peer : SessionEvent
  logging_enabled : Bool → SessionEvent
  shown : ℕ → ℕ → SessionEvent

abbrev has_bytes : Option ℕ → Bool
has_bytes none = false
has_bytes (some n) = ltb 0 n

-- After the calls of the two callbacks: the parser, what the handlers were called with, and how many
-- records were parsed.
abbrev Routed : Type 0 → Type 0 → Type 0
Routed Descriptor TimePoint = LogParser Descriptor × (List (SessionOutput Descriptor TimePoint) × ℕ)

-- After a read: the session, the outputs, and the numbers of records and of bytes.
abbrev pub Processed : Type 0 → Type 0 → Type 0 → Type 0
Processed Descriptor Quota TimePoint =
    (SourceSession Descriptor Quota × List (SessionOutput Descriptor TimePoint)) × (ℕ × ℕ)

module _ {Descriptor TimePoint : Type 0} where
  abbrev pub finalized_output : Option ℕ → Bool → List (SessionOutput Descriptor TimePoint)
  finalized_output none b = []
  finalized_output (some acquired_buffer) b =
      if b then acquisition_finalized acquired_buffer ∷ [] else []

module _ {Descriptor TimePoint : Type 0} (get_dlt_msg_desc : List ℕ → Option Descriptor) where
  -- `quota_limit_exceeded` leaves the records out.
  unfoldable pub route_calls :
      Bool → List (CallbackCall TimePoint) → LogParser Descriptor → Routed Descriptor TimePoint
  route_calls quota_limit_exceeded [] parser = (parser, ([], 0))
  route_calls quota_limit_exceeded (type_registration type_id bytes ∷ calls) parser =
      route_calls quota_limit_exceeded calls
        (add_incoming_type get_dlt_msg_desc type_id bytes parser)
  route_calls quota_limit_exceeded (new_record header bytes ∷ calls) parser =
      let (parser', (outputs, count)) = route_calls quota_limit_exceeded calls parser in
      if quota_limit_exceeded then (parser', (outputs, count)) else (
        parser',
        (map handled (parse_shared_memory_record parser header bytes) ++ outputs, count + 1),
      )

module _ {Descriptor Quota TimePoint : Type 0} (layout : HeaderLayout TimePoint)
    (get_dlt_msg_desc : List ℕ → Option Descriptor) where
  -- `TryFinalizeAcquisition`, and whether it did.
  unfoldable pub try_finalize_acquisition :
      TickEnvironment → SourceSession Descriptor Quota → SourceSession Descriptor Quota × Bool
  try_finalize_acquisition env s = elim s.data_acquired [
    | none ↦ (s, false)
    | some acquired_buffer ↦
        if is_block_released_by_writers env.at_finalization.control_block acquired_buffer
        then (
          record s {
            reader = (notify_acquisition_set_reader env.at_finalization acquired_buffer s.reader).0;
            data_acquired = none;
          },
          true,
        )
        else (s, false)
  ]

  -- `RequestAcquire` through the handle of a session, and what it answers.
  unfoldable pub request_acquire :
      Bool
      → SourceSession Descriptor Quota
      → SourceSession Descriptor Quota × List (SessionOutput Descriptor TimePoint)
  request_acquire accepted s =
      if accepted
      then (
        record s {
          acquire_requested = true;
          stats = record (s.stats) {
            count_acquire_requests = add64 s.stats.count_acquire_requests 1;
          };
        },
        acquire_request_sent ∷ [],
      )
      else (record s { acquire_requested = false }, [])

  -- The request for the next block, when none is outstanding.
  unfoldable pub request_next :
      TickEnvironment
      → SourceSession Descriptor Quota
      → SourceSession Descriptor Quota × List (SessionOutput Descriptor TimePoint)
  unfolding request_acquire
  request_next env s = elim s.block_expected_to_be_next [
    | none ↦ request_acquire env.request_accepted s
    | some block ↦
        if has_bytes (peek_number_of_bytes_acquired_in_buffer env.at_peek block)
          || ltb k_ticks_without_acquire_while_no_writes s.ticks_without_write
        then request_acquire env.request_accepted s
        else (record s { ticks_without_write = (s.ticks_without_write + 1) % 256 }, [])
  ]

  -- The last part of `ProcessAndRouteLogMessages`.
  unfoldable pub update_request :
      TickEnvironment
      → Bool
      → SourceSession Descriptor Quota
      → SourceSession Descriptor Quota × List (SessionOutput Descriptor TimePoint)
  unfolding request_next
  update_request env acquire_finalized s =
      if acquire_finalized
      then (record s { acquire_requested = false; ticks_without_write = 0 }, [])
      else if not s.acquire_requested
          && (s.enabled_logging_at_server && not s.command_detach_on_closed)
      then request_next env s
      else (s, [])

  -- `ProcessDetachedLogs`. Its records are not counted, and the quota does not matter.
  unfoldable pub process_detached_logs :
      TickEnvironment → Processed Descriptor Quota TimePoint → Processed Descriptor Quota TimePoint
  process_detached_logs env ((s, outputs), (message_count, bytes)) =
      let (reader, (size, calls)) = read_detached layout env.at_read_detached s.reader in
      let (parser, (more, count)) = route_calls get_dlt_msg_desc false calls s.parser in
      (
        (
          record s { reader = reader; parser = parser; detach_on_closed_processed = true },
          outputs ++ (more ++ detached_logs_processed size ∷ []),
        ),
        (message_count, value_or size bytes),
      )

  -- `Read` with its callbacks.
  unfoldable pub process_logs :
      TickEnvironment → SourceSession Descriptor Quota → Processed Descriptor Quota TimePoint
  process_logs env s =
      let (reader, (size, calls)) = read_shared layout env.at_read s.reader in
      let (parser, (outputs, count)) =
        route_calls get_dlt_msg_desc s.stats.quota_overlimit_detected calls s.parser in
      ((record s { reader = reader; parser = parser }, outputs), (count, value_or size 0))

  -- `Read`, and `ReadDetached` when the peer is gone.
  unfoldable pub read_logs :
      TickEnvironment → SourceSession Descriptor Quota → Processed Descriptor Quota TimePoint
  read_logs env s =
      if s.command_detach_on_closed
      then process_detached_logs env (process_logs env s)
      else process_logs env s

  -- `ProcessAndRouteLogMessages`
  unfoldable pub process_and_route_log_messages :
      TickEnvironment → Bool → SourceSession Descriptor Quota → Processed Descriptor Quota TimePoint
  process_and_route_log_messages env acquire_finalized s =
      let ((t, outputs), numbers) = read_logs env s in
      let (u, more) = update_request env acquire_finalized t in ((u, outputs ++ more), numbers)

  -- The first part of `UpdateAndLogStats`: the drops since the last time.
  unfoldable pub update_drops :
      SharedData → StatsData Quota → StatsData Quota × List (SessionOutput Descriptor TimePoint)
  update_drops shared_data stats =
      let dropped = shared_data.number_of_drops_buffer_full in
      let size = shared_data.size_of_drops_buffer_full in
      if dropped == stats.message_count_dropped then (stats, []) else (
        record stats { message_count_dropped = dropped; size_dropped = size },
        drops_detected (sub64 dropped stats.message_count_dropped) (sub64 size stats.size_dropped)
            ∷ [],
      )

  unfoldable pub update_invalid_drops :
      SharedData → StatsData Quota → StatsData Quota × List (SessionOutput Descriptor TimePoint)
  update_invalid_drops shared_data stats =
      let dropped = shared_data.number_of_drops_invalid_size in
      if dropped == stats.message_count_dropped_invalid_size then (stats, []) else (
        record stats { message_count_dropped_invalid_size = dropped },
        invalid_drops_detected (sub64 dropped stats.message_count_dropped_invalid_size) ∷ [],
      )

  unfoldable pub update_totals : ℕ → ℕ → StatsData Quota → StatsData Quota
  update_totals message_count bytes stats = record stats {
    message_count = add64 stats.message_count message_count;
    totalsize = add64 stats.totalsize bytes;
    max_bytes_in_buffer =
        if ltb stats.max_bytes_in_buffer bytes then bytes else stats.max_bytes_in_buffer;
  }

  module _ (exceeds : ℕ → ℕ → Quota → Bool) where
    -- `CheckAndSetQuotaEnforcement`. `exceeds` compares the rate of a number of bytes in a number of
    -- milliseconds with a quota, in floating point numbers.
    unfoldable pub check_and_set_quota_enforcement :
        ℕ → StatsData Quota → StatsData Quota × List (SessionOutput Descriptor TimePoint)
    check_and_set_quota_enforcement now stats =
        let tstat_in_msec = now - stats.start in
        if not stats.quota_overlimit_detected && stats.quota_enforcement_enabled
        then if tstat_in_msec == 0
          then (stats, rate_not_calculated ∷ [])
          else if exceeds stats.totalsize tstat_in_msec stats.quota_k_bps
          then (record stats { quota_overlimit_detected = true }, quota_exceeded ∷ [])
          else (stats, [])
        else (stats, [])

    -- `UpdateAndLogStats`
    unfoldable pub update_and_log_stats :
        TickEnvironment
        → ℕ
        → ℕ
        → SourceSession Descriptor Quota
        → SourceSession Descriptor Quota × List (SessionOutput Descriptor TimePoint)
    unfolding update_drops update_invalid_drops update_totals check_and_set_quota_enforcement
    update_and_log_stats env message_count bytes s =
        let (a, drops) = update_drops env.at_statistics s.stats in
        let (b, invalid) = update_invalid_drops env.at_statistics a in
        let (c, quota) =
          check_and_set_quota_enforcement env.now (update_totals message_count bytes b) in
        (record s { stats = c }, drops ++ (invalid ++ quota))

    -- `Tick` of a session that is not closed.
    unfoldable pub process_tick :
        TickEnvironment
        → SourceSession Descriptor Quota
        → SourceSession Descriptor Quota × List (SessionOutput Descriptor TimePoint)
    process_tick env s =
        let (t, acquire_finalized) = try_finalize_acquisition env s in
        let ((u, outputs), (message_count, bytes)) =
          process_and_route_log_messages env acquire_finalized t in
        let (v, logged) = update_and_log_stats env message_count bytes u in
        (v, finalized_output s.data_acquired acquire_finalized ++ (outputs ++ logged))

    -- `Tick`
    unfoldable pub tick :
        TickEnvironment
        → SourceSession Descriptor Quota
        → SourceSession Descriptor Quota × List (SessionOutput Descriptor TimePoint)
    tick env s = if s.detach_on_closed_processed then (s, []) else process_tick env s

    unfoldable pub happen :
        SessionEvent
        → SourceSession Descriptor Quota
        → SourceSession Descriptor Quota × List (SessionOutput Descriptor TimePoint)
    happen (ticked env) s = tick env s
    happen (acquire_responded acquired_buffer) s = (on_acquire_response acquired_buffer s, [])
    happen closed_by_peer s = (on_closed_by_peer s, [])
    happen (logging_enabled enable) s = (set_logging_client_enabled enable s, [])
    happen (shown ring_buffer_size now) s = show_stats ring_buffer_size now s

    unfoldable pub happen_all :
        List SessionEvent
        → SourceSession Descriptor Quota
        → SourceSession Descriptor Quota × List (SessionOutput Descriptor TimePoint)
    happen_all [] s = (s, [])
    happen_all (e ∷ es) s =
        let (t, outputs) = happen e s in let (u, more) = happen_all es t in (u, outputs ++ more)
