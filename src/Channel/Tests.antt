-- ===== src/Channel/Tests.antt =====
-- The theorems at a channel of ECU `ECU1` and level 4, and runs of it.
use logging.Prelude.{
  ℕ, ◌+◌, ◌≡◌, refl, true, Option, none, some, List, [], ◌∷◌, arith, length, drop, replicate,
}
use logging.DltServer.Ids.{DltidT}
use logging.DltFormat.Payload.{concat}
use logging.Queue.Bytes.{to_bytes, write_at}
use logging.DltServer.Maps.{find_entry, assign}
use logging.Channel.Output.{
  send_non_verbose, flush, flush_unprotected, send_udp, close_buffer, send_batch,
  count_batch_failure, send, put_packet, enqueue, start_buffer, switch_type,
}
use logging.Channel.State.{count_failure, count_message, mmsg_span, initial_channel, Call, Channel}
use logging.Channel.Delivery.Operation.{non_verbose, verbose, file_transfer, flushing}
use logging.Channel.Sequences.{run, ArePlausible}
use logging.Channel.Headers.{
  swap32, swap16, id_bytes, construct_dlt_standard_header_extra, construct_dlt_standard_header,
  construct_non_verbose_header, LogEntry, construct_verbose_packet, construct_non_verbose_packet,
}
use logging.Channel.Delivery.{operate-perform, perform, operate, Operation}
use logging.Channel.Sizes.{run-AreWithin, AreWithin, AreSmall}
use logging.Channel.Specification.{all_datagrams, stream_of, Reaches}
use logging.Channel.Decoding.{
  decode-construct_verbose_packet, decode-construct_non_verbose_packet, decode_extension,
  decode_msgid, decode_header,
}
use logging.Channel.Guarantees.{initial_channel-IsReady}
use logging.Channel.Interleaving.{
  ChannelStep, ft_begun, ft_ended, operated, packets_of_steps, Pending, run_steps,
  run_steps-packets_of,
}

abbrev ecu1 : DltidT
ecu1 = record { byte0 = 69; byte1 = 67; byte2 = 85; byte3 = 49 }

abbrev hello : LogEntry
hello = record {
  app_id = ecu1;
  ctx_id = ecu1;
  payload = 104 ∷ 105 ∷ [];
  num_of_args = 1;
  log_level = 4;
}

-- A socket that refuses every call.
abbrev broken_socket : List Call → Option (List ℕ)
broken_socket calls = some (101 ∷ [])

abbrev some_operations : List Operation
some_operations =
    non_verbose 4 77 1000 (1 ∷ 2 ∷ [])
    ∷ verbose 1001 hello
    ∷ verbose 1002 hello
    ∷ file_transfer 1003 hello
    ∷ non_verbose 5 78 1004 (3 ∷ [])
    ∷ []

some_operations-ArePlausible : ArePlausible some_operations
some_operations-ArePlausible = (tt, (omega arith, (omega arith, (tt, (tt, tt)))))

some_operations-AreSmall : AreSmall some_operations
some_operations-AreSmall =
    (omega arith, (omega arith, (omega arith, (omega arith, (omega arith, tt)))))

decode-construct_non_verbose_packet_example :
    let packet = construct_non_verbose_packet (1 ∷ 2 ∷ []) 77 ecu1 9 1000 in
    (decode_header packet ≡ record { htyp = 52; mcnt = 9; len = 18; ecu = ecu1; tmsp = 1000 })
    × (decode_msgid packet ≡ 77)
    × (drop 16 packet ≡ 1 ∷ 2 ∷ [])
decode-construct_non_verbose_packet_example =
    decode-construct_non_verbose_packet (1 ∷ 2 ∷ []) 77 ecu1 9 1000 (omega arith) (omega arith)
      (omega arith)

decode-construct_verbose_packet_example :
    let packet = construct_verbose_packet hello ecu1 9 1000 in
    (decode_header packet ≡ record { htyp = 53; mcnt = 9; len = 24; ecu = ecu1; tmsp = 1000 })
    × (decode_extension packet
        ≡ record { level = 4; is_verbose = true; noar = 1; apid = ecu1; ctid = ecu1 })
    × (drop 22 packet ≡ 104 ∷ 105 ∷ [])
decode-construct_verbose_packet_example =
    decode-construct_verbose_packet hello ecu1 9 1000 (omega arith) (omega arith) (omega arith)

operate-perform_example :
    Reaches
      (operate broken_socket (verbose 1001 hello) (initial_channel ecu1 4))
      (perform (verbose 1001 hello) (stream_of (initial_channel ecu1 4)))
operate-perform_example =
    operate-perform broken_socket (verbose 1001 hello) (initial_channel ecu1 4) (omega arith)
      (initial_channel-IsReady ecu1 4)

-- A verbose message comes between the two steps of a file transfer message.
abbrev some_steps : List ChannelStep
some_steps =
    operated (non_verbose 4 77 1000 (1 ∷ 2 ∷ []))
    ∷ ft_begun 1001 hello
    ∷ operated (verbose 1002 hello)
    ∷ ft_ended
    ∷ []

run_steps-packets_of_example :
    (t : Channel) × (left : Pending) × (run_steps broken_socket some_steps none
        (initial_channel ecu1 4)
      ≡ some (t, left))
    × (u : Channel) × (flush broken_socket t ≡ some u)
    × (concat (all_datagrams u.calls) ≡ packets_of_steps ecu1 4 0 none some_steps)
run_steps-packets_of_example =
    run_steps-packets_of broken_socket ecu1 4 some_steps (tt, (omega arith, tt))

run-AreWithin_example :
    (t : Channel) × (run broken_socket some_operations (initial_channel ecu1 4) ≡ some t)
    × AreWithin (all_datagrams t.calls)
run-AreWithin_example =
    run-AreWithin broken_socket ecu1 4 some_operations some_operations-ArePlausible
      some_operations-AreSmall

-- What the statistics say of failed calls.
abbrev failures : Option Channel → ℕ
failures none = 0
failures (some s) = s.verbose.send_failures_count + s.non_verbose.send_failures_count

abbrev call_count : Option Channel → ℕ
call_count none = 0
call_count (some s) = length s.calls

abbrev large : Operation
large = non_verbose 4 77 1000 (replicate 1000 7)

-- Five large messages and a flush: both calls fail, and one failure is counted, since the fifth
-- message was counted before the batch that it did not join.
abbrev five_large : Option Channel
five_large =
    run broken_socket (large ∷ large ∷ large ∷ large ∷ large ∷ flushing ∷ [])
      (initial_channel ecu1 4)

five_large_failures : (call_count five_large ≡ 2) × (failures five_large ≡ 1)
unfolding run operate send_non_verbose initial_channel flush flush_unprotected send_udp close_buffer
    send_batch count_batch_failure count_failure count_message send put_packet enqueue start_buffer
    switch_type mmsg_span construct_non_verbose_packet construct_non_verbose_header
    construct_dlt_standard_header construct_dlt_standard_header_extra id_bytes to_bytes swap16
    swap32 write_at assign find_entry
five_large_failures = (refl, refl)
