-- ===== src/Router/Tests.antt =====
-- The theorems at a client that logs a record of type 5, with times of one bit, descriptors and quotas that
-- are numbers, and a rate in bytes for each millisecond.
use logging.Prelude.{
  ℕ, ◌+◌, ◌*◌, ◌≤◌, ◌≡◌, refl, Bool, true, false, Option, none, some, List, [], ◌∷◌, ◌++◌, arith,
  ltb, ◌==◌, if◌then◌else◌, length, get_or, take, drop, replicate,
}
use logging.Queue.Bytes.{to_bytes, of_bytes}
use logging.Queue.ControlBlock.{LinearControlBlock}
use logging.Queue.Concurrent.{fresh_block}
use logging.Queue.Drain.{put_all}
use logging.SharedMemory.Records.{BufferEntryHeader, HeaderLayout}
use logging.SharedMemory.Writer.{SharedData}
use logging.SharedMemory.Reader.{new_shared_memory_reader}
use logging.Router.Parser.{
  LogParser, new_log_parser, equal_range, add_incoming_type, parse_shared_memory_record,
  type_handler, any_handler,
}
use logging.Router.Registration.{registration, add_all, info_of, parse-registered}
use logging.Router.Session.{
  SourceSession, TickEnvironment, new_source_session, on_closed_by_peer, is_source_closed,
}
use logging.Router.Ticks.{
  SessionEvent, tick, happen_all, ticked, acquire_responded, logging_enabled,
}
use logging.Router.Requests.{one_request}
use logging.Router.Quota.{over_quota_silent}
use logging.Router.Closing.{IsIdle, closed_is_final}
use logging.Router.Outputs.{is_finalization, is_handled, is_request, total}

abbrev bit_header_layout : HeaderLayout Bool
bit_header_layout = record {
  size_of_header = 16;
  header_bytes = λ h.
      (if h.time_stamp then 1 else 0)
      ∷ (replicate 7 0 ++ (to_bytes 2 h.type_identifier ++ replicate 6 0));
  header_of = λ bytes. record {
    time_stamp = get_or bytes 0 0 == 1;
    type_identifier = of_bytes (take 2 (drop 8 bytes));
  };
}

abbrev record_header : BufferEntryHeader Bool
record_header = record { time_stamp = true; type_identifier = 5 }

abbrev client_block : LinearControlBlock
client_block =
    put_all (fresh_block (replicate 64 0))
      ((bit_header_layout.header_bytes record_header ++ 1 ∷ 2 ∷ 3 ∷ []) ∷ [])

abbrev client_data : SharedData
client_data = record {
  control_block = record {
    control_block_even = client_block;
    control_block_odd = fresh_block (replicate 64 0);
    switch_count = 1;
  };
  number_of_drops_buffer_full = 2;
  size_of_drops_buffer_full = 40;
  number_of_drops_invalid_size = 0;
  number_of_drops_type_registration_failed = 0;
  writer_detached = false;
}

abbrev at_tick : TickEnvironment
at_tick = record {
  at_finalization = client_data;
  at_read = client_data;
  at_read_detached = client_data;
  at_peek = client_data;
  at_statistics = client_data;
  request_accepted = true;
  now = 7;
}

abbrev message_descriptor : List ℕ → Option ℕ
message_descriptor name = if length name == 2 then some 1 else none

abbrev rate_exceeds : ℕ → ℕ → ℕ → Bool
rate_exceeds bytes msec quota = ltb (quota * msec) bytes

-- The handler 3 is for the type `T1`, and the handler 9 for all types.
abbrev two_handlers : LogParser ℕ
two_handlers = new_log_parser ((84 ∷ 49 ∷ [], 3) ∷ (84 ∷ 50 ∷ [], 4) ∷ []) (9 ∷ [])

abbrev ecu : List ℕ
ecu = 69 ∷ 67 ∷ 85 ∷ 49 ∷ []

abbrev app : List ℕ
app = 65 ∷ 80 ∷ 80 ∷ 49 ∷ []

abbrev new_session : SourceSession ℕ ℕ
new_session =
    new_source_session 1000000 (65 ∷ []) true 1 true 0 (new_shared_memory_reader client_data)
      (add_incoming_type message_descriptor 5 (registration ecu app (84 ∷ 49 ∷ []) []) two_handlers)

abbrev over_quota_session : SourceSession ℕ ℕ
over_quota_session = record new_session {
  stats = record (new_session.stats) { quota_overlimit_detected = true };
}

abbrev some_events : List SessionEvent
some_events = ticked at_tick ∷ acquire_responded 0 ∷ logging_enabled true ∷ ticked at_tick ∷ []

parse-registered_example :
    parse_shared_memory_record
      (add_all message_descriptor ((5, registration app ecu (84 ∷ 50 ∷ []) []) ∷ []) (
        add_incoming_type message_descriptor 5
          (registration ecu app (84 ∷ 49 ∷ []) (7 ∷ []))
          two_handlers))
      record_header
      (1 ∷ 2 ∷ 3 ∷ [])
    ≡ type_handler 3 true (1 ∷ 2 ∷ 3 ∷ [])
      ∷ any_handler 9
          (info_of message_descriptor 5 ecu app (84 ∷ 49 ∷ []) (7 ∷ []))
          true
          (1 ∷ 2 ∷ 3 ∷ [])
      ∷ []
unfolding new_log_parser equal_range
parse-registered_example =
    parse-registered message_descriptor ecu app (84 ∷ 49 ∷ []) (7 ∷ []) refl refl (omega arith)
      (omega arith) two_handlers ((5, registration app ecu (84 ∷ 50 ∷ []) []) ∷ []) record_header
      (1 ∷ 2 ∷ 3 ∷ []) refl (omega arith)

one_request_example :
    let outputs =
      (happen_all bit_header_layout message_descriptor rate_exceeds some_events new_session).1 in
    total is_request outputs ≤ total is_finalization outputs + 1
unfolding new_source_session
one_request_example =
    one_request bit_header_layout message_descriptor rate_exceeds some_events new_session refl

over_quota_silent_example :
    let (t, outputs) =
      happen_all bit_header_layout message_descriptor rate_exceeds some_events over_quota_session in
    (total is_handled outputs ≡ 0) × (t.stats.quota_overlimit_detected ≡ true)
unfolding new_source_session
over_quota_silent_example =
    over_quota_silent bit_header_layout message_descriptor rate_exceeds some_events
      over_quota_session refl refl refl

closed_is_final_example :
    let t =
      (tick bit_header_layout message_descriptor rate_exceeds at_tick
        (on_closed_by_peer new_session)).0 in
    (is_source_closed t ≡ true)
    × IsIdle bit_header_layout message_descriptor rate_exceeds
        (happen_all bit_header_layout message_descriptor rate_exceeds some_events t)
closed_is_final_example =
    closed_is_final bit_header_layout message_descriptor rate_exceeds at_tick some_events
      new_session
