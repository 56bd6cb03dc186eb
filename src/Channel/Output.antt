-- ===== src/Channel/Output.antt =====
-- dlt_log_channel.h and dlt_log_channel.cpp: the state of a channel and its operations. `mutex_`
-- serialises them, so an operation is one step; only `SendFtVerbose` takes its counter and makes its
-- header before it has the lock, and is two steps (Channel/Interleaving). An operation that is `none` has thrown out of
-- `std::array::at`. Sizes of objects in memory and sums of two of them are below 2^64.
use logging.Prelude.{
  ℕ, ◌+◌, ◌%◌, Bool, true, false, ◌&&◌, ◌||◌, Option, none, some, List, [], ◌∷◌, ◌++◌, ltb, leb,
  if◌then◌else◌, length, u32_mod, add64, add32,
}
use logging.DltServer.Maps.{find_entry, assign, value_or}
use logging.DltServer.Config.{string_key}
use logging.Queue.Bytes.{write_at}
use logging.Channel.Headers.{
  nv_header_size, construct_verbose_header, verbose_header_size, construct_non_verbose_header,
  construct_verbose_packet, verbose_header, construct_non_verbose_packet, LogEntry,
}
use logging.Channel.State.{
  DltLogChannelStatistics, Call, Channel, udp_max_payload, vector_count, set_at, map_option, ◌>>=◌,
  mmsg_span, number_key, count_failure, count_message,
}

-- `SendUdp` up to the send: the current buffer, when it holds something, becomes a datagram.
unfoldable pub close_buffer : Channel → Option Channel
close_buffer s =
    if ltb 0 s.prebuf_size
    then if ltb s.vector_index vector_count
      then some (record s {
        iov_len = set_at s.vector_index s.prebuf_size s.iov_len;
        vector_index = add32 s.vector_index 1;
        prebuf_size = 0;
      })
      else none
    else some s

-- The part of `SendFtVerbose` before it takes the lock: the packet, with the counter that it took.
unfoldable pub begin_ft_verbose : ℕ → LogEntry → Channel → Channel × List ℕ
begin_ft_verbose tmsp entry s = (
  record s { mcnt = (s.mcnt + 1) % 256 },
  verbose_header (length entry.payload + verbose_header_size) entry s.ecu s.mcnt tmsp
      ++ entry.payload,
)

-- `out_.Send`: the call is made, and its error is returned. What the socket answers to a call may
-- depend on all the calls so far.
module _ (socket : List Call → Option (List ℕ)) where
  unfoldable pub send : Call → Channel → Channel × Option (List ℕ)
  send call s = let calls = s.calls ++ (call ∷ []) in (record s { calls = calls }, socket calls)

  abbrev count_failure_if : Bool → List ℕ → DltLogChannelStatistics → DltLogChannelStatistics
  count_failure_if b error s = if b then count_failure error s else s

  unfoldable pub count_batch_failure : Option (List ℕ) → Channel → Channel
  count_batch_failure none s = s
  count_batch_failure (some error) s = record s {
    verbose = count_failure_if (ltb 0 s.count_verbose_messages_in_buffer) error s.verbose;
    non_verbose =
        count_failure_if (ltb 0 s.count_nonverbose_messages_in_buffer) error s.non_verbose;
  }

  unfoldable pub send_batch : Channel → Channel
  send_batch s =
      let (t, error) = send (mmsg_span s.vector_index s.prebuf_data s.iov_len) s in
      record (count_batch_failure error t) {
        vector_index = 0;
        count_verbose_messages_in_buffer = 0;
        count_nonverbose_messages_in_buffer = 0;
      }

  unfoldable pub send_udp : Bool → Channel → Option Channel
  send_udp flush s = do
    t ← close_buffer s
    some (
        if (flush && ltb 0 t.vector_index) || leb vector_count t.vector_index
        then send_batch t
        else t)

  unfoldable pub flush_unprotected : Channel → Option Channel
  flush_unprotected = send_udp true

  -- `construct(dest, mcnt_++)` at `prebuf_size_` in the current buffer, and `prebuf_size_ += full_size`
  unfoldable pub put_packet : (ℕ → List ℕ) → ℕ → Channel → Option Channel
  put_packet construct full_size s =
      if ltb s.vector_index vector_count
      then some (record s {
        prebuf_data =
            set_at s.vector_index
              (write_at (s.prebuf_data s.vector_index) s.prebuf_size (construct s.mcnt))
              s.prebuf_data;
        mcnt = (s.mcnt + 1) % 256;
        prebuf_size = s.prebuf_size + full_size;
      })
      else none

  -- A message bigger than a buffer, sent as one datagram of its own.
  unfoldable pub send_big : (ℕ → List ℕ) → Channel → Channel × Option (List ℕ)
  send_big construct s = send (construct s.mcnt ∷ []) (record s { mcnt = (s.mcnt + 1) % 256 })

  unfoldable pub count_big_failure : Bool → Channel × Option (List ℕ) → Channel
  count_big_failure is_verbose (s, none) = s
  count_big_failure true (s, some error) = record s { verbose = count_failure error s.verbose }
  count_big_failure false (s, some error) = record s {
    non_verbose = count_failure error s.non_verbose;
  }

  abbrev pub set_type : Bool → Channel → Channel
  set_type is_verbose s = record s { prebuf_is_verbose = is_verbose }

  -- The buffer is closed when the type of the messages changes.
  unfoldable pub switch_type : Bool → Channel → Option Channel
  switch_type true s =
      if s.prebuf_is_verbose then some s else map_option (set_type true) (send_udp false s)
  switch_type false s =
      if s.prebuf_is_verbose then map_option (set_type false) (send_udp false s) else some s

  -- What follows `FlushUnprotected` for a message that no buffer holds.
  unfoldable pub flush_and_send : Bool → (ℕ → List ℕ) → Channel → Option Channel
  flush_and_send is_verbose big s =
      map_option (λ t. count_big_failure is_verbose (send_big big t)) (flush_unprotected s)

  -- The message does not fit in the current buffer. `packet` is what is constructed in a buffer,
  -- `big` what is sent when no buffer holds the message.
  unfoldable pub start_buffer : Bool → (ℕ → List ℕ) → (ℕ → List ℕ) → ℕ → Channel → Option Channel
  start_buffer is_verbose packet big full_size s = do
    t ← send_udp false s
    if ltb full_size udp_max_payload
        then put_packet packet full_size t
        else flush_and_send is_verbose big t

  -- The common part of `SendNonVerbose` and `SendVerbose`, after the statistics.
  unfoldable pub enqueue : Bool → (ℕ → List ℕ) → (ℕ → List ℕ) → ℕ → Channel → Option Channel
  enqueue is_verbose packet big full_size s = do
    t ← switch_type is_verbose s
    if leb (t.prebuf_size + full_size) udp_max_payload
        then put_packet packet full_size t
        else start_buffer is_verbose packet big full_size t

  unfoldable pub send_non_verbose : ℕ → ℕ → ℕ → List ℕ → Channel → Option Channel
  send_non_verbose log_level msgid tmsp data_ s =
      let size = length data_ in
      let counted = record s {
        non_verbose = count_message size s.non_verbose;
        count_nonverbose_messages_in_buffer = (s.count_nonverbose_messages_in_buffer + 1) % 256;
        message_id_data_stats =
            assign msgid (add64 (value_or (find_entry msgid s.message_id_data_stats) 0) size)
              s.message_id_data_stats;
      } in
      let packet = λ (mcnt : ℕ). construct_non_verbose_packet data_ msgid s.ecu mcnt tmsp in
      let big = λ (mcnt : ℕ). construct_non_verbose_header size msgid s.ecu mcnt tmsp ++ data_ in
      let sent = enqueue false packet big (nv_header_size + size) counted in
      if ltb s.channel_threshold log_level then some s else sent

  unfoldable pub send_verbose : ℕ → LogEntry → Channel → Option Channel
  send_verbose tmsp entry s =
      let data_size = length entry.payload % u32_mod in
      let counted = record s {
        verbose = count_message data_size s.verbose;
        count_verbose_messages_in_buffer = (s.count_verbose_messages_in_buffer + 1) % 256;
      } in
      let packet = λ (mcnt : ℕ). construct_verbose_packet entry s.ecu mcnt tmsp in
      let big = λ (mcnt : ℕ). construct_verbose_header entry s.ecu mcnt tmsp ++ entry.payload in
      let sent = enqueue true packet big (verbose_header_size + data_size) counted in
      if ltb s.channel_threshold entry.log_level then some s else sent

  -- The part of `SendFtVerbose` with the lock held.
  unfoldable pub end_ft_verbose : ℕ → List ℕ → Channel → Option Channel
  end_ft_verbose data_size packet s = do
    t ← flush_unprotected s
    let (u, error) = send (packet ∷ []) t
    let v = count_big_failure true (u, error)
    some (record v { verbose = count_message (data_size + verbose_header_size) v.verbose })

  -- The pause between file transfer messages is not modelled. `entry` gives the extended header, and
  -- its payload is the data.
  unfoldable pub send_ft_verbose : ℕ → LogEntry → Channel → Option Channel
  unfolding begin_ft_verbose end_ft_verbose
  send_ft_verbose tmsp entry s =
      let (t, packet) = begin_ft_verbose tmsp entry s in
      end_ft_verbose (length entry.payload) packet t

  unfoldable pub flush : Channel → Option Channel
  flush = flush_unprotected
