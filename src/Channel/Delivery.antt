-- ===== src/Channel/Delivery.antt =====
-- What the operations of a channel deliver: each does what the specification says, and over any
-- sequence of them no packet is lost, repeated, reordered or split.
use logging.Prelude.{
  ℕ, ◌+◌, ◌%◌, ◌≤◌, ◌<◌, ◌≡◌, refl, ap, ◌∙◌, inl, inr, Bool, true, false, Option, List, [], ◌∷◌,
  ◌++◌, arith, ltb, ◌==◌, if◌then◌else◌, Bool-cases, length, length-append, u32_mod,
}
use logging.DltServer.Ids.{DltidT}
use logging.Channel.Batches.{send_udp_lem}
use logging.Channel.Packets.{count_big_failure_lem, send_lem}
use logging.Channel.Refinement.{enqueue_lem}
use logging.Channel.Headers.{
  construct_verbose_packet_whole, construct_verbose_packet, length-construct_verbose_header,
  length-construct_non_verbose_packet, verbose_header_size, construct_verbose_header,
  nv_header_size, verbose_header, construct_non_verbose_packet, LogEntry,
}
use logging.Channel.Output.{
  count_big_failure, send, flush_unprotected, flush, begin_ft_verbose, end_ft_verbose,
  send_ft_verbose, send_verbose, send_non_verbose,
}
use logging.Channel.State.{udp_max_payload, DltLogChannelStatistics, Channel, Call}
use logging.Channel.Specification.{close, Reaches, send_alone, IsReady, stream_of, accept, Stream}

-- One call of an operation of the channel.
pub data Operation : Type 0 where
  non_verbose : ℕ → ℕ → ℕ → List ℕ → Operation
  verbose : ℕ → LogEntry → Operation
  file_transfer : ℕ → LogEntry → Operation
  flushing : Operation

unfoldable pub file_transfer_packet : ℕ → LogEntry → DltidT → ℕ → List ℕ
file_transfer_packet tmsp entry ecu mcnt =
    verbose_header (length entry.payload + verbose_header_size) entry ecu mcnt tmsp ++ entry.payload

-- The whole verbose message, whether it fits a buffer or not.
unfoldable pub whole_verbose_packet : ℕ → LogEntry → DltidT → ℕ → List ℕ
whole_verbose_packet tmsp entry ecu mcnt =
    construct_verbose_header entry ecu mcnt tmsp ++ entry.payload

-- What an operation does to the stream.
unfoldable pub perform : Operation → Stream → Stream
perform (non_verbose log_level msgid tmsp data_) st =
    if ltb st.threshold log_level
    then st
    else accept false (λ m. construct_non_verbose_packet data_ msgid st.ecu m tmsp) st
perform (verbose tmsp entry) st =
    if ltb st.threshold entry.log_level
    then st
    else accept true (whole_verbose_packet tmsp entry st.ecu) st
perform (file_transfer tmsp entry) st =
    send_alone (file_transfer_packet tmsp entry st.ecu st.next_mcnt) (close st)
perform flushing st = close st

-- A packet that took its counter before goes out as a datagram of its own.
abbrev pub send_now : List ℕ → Stream → Stream
send_now packet st = record st { finished = st.finished ++ (packet ∷ []) }

-- The payload is the memory of a span, whose size fits the 32-bit arithmetic of `SendVerbose`.
abbrev pub IsPlausible : Operation → Type 0
IsPlausible (verbose tmsp entry) = length entry.payload < u32_mod
IsPlausible (non_verbose _ _ _ _) = Unit
IsPlausible (file_transfer _ _) = Unit
IsPlausible flushing = Unit

module _ (socket : List Call → Option (List ℕ)) where
  unfoldable pub operate : Operation → Channel → Option Channel
  operate (non_verbose log_level msgid tmsp data_) =
      send_non_verbose socket log_level msgid tmsp data_
  operate (verbose tmsp entry) = send_verbose socket tmsp entry
  operate (file_transfer tmsp entry) = send_ft_verbose socket tmsp entry
  operate flushing = flush socket

  Reaches-if :
      (b : Bool) {o p : Option Channel} {st su : Stream}
      → Reaches o st
      → Reaches p su
      → Reaches (if b then o else p) (if b then st else su)
  Reaches-if true h k = h
  Reaches-if false h k = k

  -- The statistics are no part of the stream.
  pub IsReady-counted :
      (s : Channel) (v n : DltLogChannelStatistics) (i c d : ℕ) (m : List (ℕ × ℕ))
      → IsReady s
      → IsReady (record s {
        verbose = v;
        non_verbose = n;
        message_id_data_stats = m;
        mcnt = i;
        count_verbose_messages_in_buffer = c;
        count_nonverbose_messages_in_buffer = d;
      })
  IsReady-counted s v n i c d m r = record {
    index_bound = r.index_bound;
    size_bound = r.size_bound;
    buffer_size = r.buffer_size;
  }

  send_non_verbose_lem :
      (log_level msgid tmsp : ℕ) (data_ : List ℕ) (s : Channel)
      → IsReady s
      → Reaches
          (send_non_verbose socket log_level msgid tmsp data_ s)
          (perform (non_verbose log_level msgid tmsp data_) (stream_of s))
  unfolding send_non_verbose perform stream_of construct_non_verbose_packet
  send_non_verbose_lem log_level msgid tmsp data_ s r =
      Reaches-if (ltb s.channel_threshold log_level) (s, refl, r, refl)
        (enqueue_lem socket false _ _ (nv_header_size + length data_)
          (λ m. length-construct_non_verbose_packet data_ msgid s.ecu m tmsp) (λ h m. refl) _
          (IsReady-counted s _ _ _ _ _ _ r))

  send_verbose_lem :
      (tmsp : ℕ) (entry : LogEntry) (s : Channel)
      → length entry.payload < u32_mod
      → IsReady s
      → Reaches (send_verbose socket tmsp entry s) (perform (verbose tmsp entry) (stream_of s))
  unfolding send_verbose perform stream_of whole_verbose_packet
  send_verbose_lem tmsp entry s h r =
      Reaches-if (ltb s.channel_threshold entry.log_level) (s, refl, r, refl)
        (enqueue_lem socket true _ _ (verbose_header_size + length entry.payload % u32_mod)
          (λ m. verbose_size m) (λ l m. verbose_whole m l) _ (IsReady-counted s _ _ _ _ _ _ r))
    where
      verbose_size :
          (m : ℕ)
          → length (construct_verbose_header entry s.ecu m tmsp ++ entry.payload)
            ≡ verbose_header_size + length entry.payload % u32_mod
      verbose_size m = omega (
        arith,
        h,
        length-append (construct_verbose_header entry s.ecu m tmsp) entry.payload,
        length-construct_verbose_header entry s.ecu m tmsp,
      )

      verbose_whole :
          (m : ℕ)
          → verbose_header_size + length entry.payload % u32_mod ≤ udp_max_payload
          → construct_verbose_packet entry s.ecu m tmsp
            ≡ construct_verbose_header entry s.ecu m tmsp ++ entry.payload
      verbose_whole m l = construct_verbose_packet_whole entry s.ecu m tmsp (omega arith)

  pub end_ft_verbose_lem :
      (data_size : ℕ) (packet : List ℕ) (s : Channel)
      → IsReady s
      → Reaches (end_ft_verbose socket data_size packet s) (send_now packet (close (stream_of s)))
  unfolding end_ft_verbose flush_unprotected stream_of
  end_ft_verbose_lem data_size packet s r =
      let (t, e, ready, size, index, stream) = send_udp_lem socket true s r in
      let (ready', stream') = send_lem socket packet t ready (index refl) in
      let (ready'', stream'') =
        count_big_failure_lem socket true (send socket (packet ∷ []) t) ready' in
      rw e (
        _,
        refl,
        IsReady-counted (count_big_failure socket true (send socket (packet ∷ []) t)) _ _ _ _ _ _
            ready'',
        stream'' ∙ (stream' ∙ ap (send_now packet) stream),
      )

  -- The counter is taken before the flush, which leaves it alone.
  ft_eq :
      (packet : List ℕ) (st : Stream)
      → send_now packet (close (record st { next_mcnt = (st.next_mcnt + 1) % 256 }))
        ≡ send_alone packet (close st)
  unfolding close
  ft_eq packet st = elim (Bool-cases (length st.current == 0)) [
    | inl h ↦ rw h refl
    | inr h ↦ rw h refl
  ]

  send_ft_verbose_lem :
      (tmsp : ℕ) (entry : LogEntry) (s : Channel)
      → IsReady s
      → Reaches
          (send_ft_verbose socket tmsp entry s)
          (perform (file_transfer tmsp entry) (stream_of s))
  unfolding send_ft_verbose perform file_transfer_packet stream_of
  send_ft_verbose_lem tmsp entry s r =
      let (begun, packet) = begin_ft_verbose tmsp entry s in
      let (t, e, ready, stream) =
        end_ft_verbose_lem (length entry.payload) packet begun (IsReady-counted s _ _ _ _ _ _ r) in
      (t, e, ready, stream ∙ ft_eq packet (stream_of s))

  -- An operation returns in every state whose indices are in range, keeps them there, and does to
  -- the stream of datagrams what the specification says, whatever the socket answers.
  pub operate-perform :
      (op : Operation) (s : Channel)
      → IsPlausible op
      → IsReady s
      → Reaches (operate op s) (perform op (stream_of s))
  unfolding operate perform flush flush_unprotected
  operate-perform (non_verbose log_level msgid tmsp data_) s p r =
      send_non_verbose_lem log_level msgid tmsp data_ s r
  operate-perform (verbose tmsp entry) s p r = send_verbose_lem tmsp entry s p r
  operate-perform (file_transfer tmsp entry) s p r = send_ft_verbose_lem tmsp entry s r
  operate-perform flushing s p r =
      let (t, e, ready, size, index, stream) = send_udp_lem socket true s r in (t, e, ready, stream)
