-- ===== src/Channel/Refinement.antt =====
-- Every operation of the channel does to the stream what the specification says.
use logging.Prelude.{
  ℕ, ◌+◌, ◌≤◌, ◌≡◌, refl, sym, ap, subst, ◌∙◌, inl, inr, Bool, true, false, Option, some, List,
  arith, dec_le, ltb, leb, if◌then◌else◌, Bool-cases, length,
}
use logging.Channel.Buffers.{length-stream_of}
use logging.Channel.Batches.{send_udp_lem}
use logging.Channel.Output.{
  send_udp, set_type, enqueue, switch_type, flush_unprotected, start_buffer, flush_and_send,
  count_big_failure, send_big, put_packet,
}
use logging.Channel.State.{map_option, udp_max_payload, Channel, Call}
use logging.Channel.Specification.{
  place, accept, same_type, change_type, send_alone, Stream, close, append_packet, Reaches, IsReady,
  stream_of,
}
use logging.Channel.Packets.{
  send_alone_eq, append_packet_eq, le→leb, gt→leb, place-fits, place-new, put_packet_lem,
  close-next_mcnt, close-close, count_big_failure_lem, send_big_lem, mcnt_kept,
}

module _ (socket : List Call → Option (List ℕ)) where
  switch_type-same :
      (b : Bool) (s : Channel)
      → same_type b s.prebuf_is_verbose ≡ true
      → switch_type socket b s ≡ some s
  unfolding switch_type
  switch_type-same true s e = ground arith
  switch_type-same false s e = ground arith

  switch_type-other :
      (b : Bool) (s : Channel)
      → same_type b s.prebuf_is_verbose ≡ false
      → switch_type socket b s ≡ map_option (set_type socket b) (send_udp socket false s)
  unfolding switch_type
  switch_type-other true s e = ground arith
  switch_type-other false s e = ground arith

  change_type-same :
      (b : Bool) (st : Stream) → same_type b st.is_verbose ≡ true → change_type b st ≡ st
  unfolding change_type
  change_type-same b st e = ground arith

  change_type-other :
      (b : Bool) (st : Stream)
      → same_type b st.is_verbose ≡ false
      → change_type b st ≡ record (close st) { is_verbose = b }
  unfolding change_type
  change_type-other b st e = ground arith

  set_type_lem :
      (is_verbose : Bool) (s : Channel)
      → IsReady s
      → Reaches
          (map_option (set_type socket is_verbose) (send_udp socket false s))
          (record (close (stream_of s)) { is_verbose = is_verbose })
  unfolding stream_of
  set_type_lem is_verbose s r =
      let (t, e, ready, size, index, stream) = send_udp_lem socket false s r in
      (
        set_type socket is_verbose t,
        ap (map_option (set_type socket is_verbose)) e,
        record {
          index_bound = ready.index_bound;
          size_bound = ready.size_bound;
          buffer_size = ready.buffer_size;
        },
        type_eq stream,
      )
    where
      type_eq :
          {st su : Stream}
          → st ≡ su
          → ◌≡◌ {A = Stream}
              (record st { is_verbose = is_verbose })
              (record su { is_verbose = is_verbose })
      type_eq e = cc

  switch_type_lem :
      (is_verbose : Bool) (s : Channel)
      → IsReady s
      → Reaches (switch_type socket is_verbose s) (change_type is_verbose (stream_of s))
  unfolding stream_of
  switch_type_lem b s r = elim (Bool-cases (same_type b s.prebuf_is_verbose)) [
    | inl e ↦ (s, switch_type-same b s e, r, sym (change_type-same b (stream_of s) e))
    | inr e ↦
        let (t, sent, ready, stream) = set_type_lem b s r in
        (
          t,
          switch_type-other b s e ∙ sent,
          ready,
          stream ∙ sym (change_type-other b (stream_of s) e),
        )
  ]

  switch_mcnt :
      (b : Bool) (t s : Channel)
      → stream_of t ≡ change_type b (stream_of s)
      → t.mcnt ≡ (stream_of s).next_mcnt
  unfolding stream_of
  switch_mcnt b t s e =
      ap (λ st. st.next_mcnt) e ∙ elim (Bool-cases (same_type b s.prebuf_is_verbose)) [
        | inl h ↦ ap (λ st. st.next_mcnt) (change_type-same b (stream_of s) h)
        | inr h ↦
            ap (λ st. st.next_mcnt) (change_type-other b (stream_of s) h)
            ∙ close-next_mcnt (stream_of s)
      ]

  module _ (is_verbose : Bool) (packet big : ℕ → List ℕ) (full_size : ℕ)
      (big_size : (m : ℕ) → length (big m) ≡ full_size)
      (packet_big : full_size ≤ udp_max_payload → (m : ℕ) → packet m ≡ big m) where
    put_lem :
        (s : Channel)
        → IsReady s
        → s.prebuf_size + full_size ≤ udp_max_payload
        → Reaches (put_packet socket packet full_size s) (append_packet (big s.mcnt) (stream_of s))
    put_lem s r h =
        subst (λ p. Reaches (put_packet socket packet full_size s) (append_packet p (stream_of s)))
          (packet_big (omega arith) s.mcnt)
          (put_packet_lem socket packet full_size s r h
            (ap (length {A = ℕ}) (packet_big (omega arith) s.mcnt) ∙ big_size s.mcnt))

    flush_and_send_lem :
        (s : Channel)
        → IsReady s
        → Reaches
            (flush_and_send socket is_verbose big s)
            (send_alone (big s.mcnt) (close (stream_of s)))
    unfolding flush_and_send flush_unprotected
    flush_and_send_lem s r =
        let (t, e, ready, size, index, stream) = send_udp_lem socket true s r in
        let (ready', stream') = send_big_lem socket big t ready (index refl) in
        let (ready'', stream'') =
          count_big_failure_lem socket is_verbose (send_big socket big t) ready' in
        (
          count_big_failure socket is_verbose (send_big socket big t),
          rw e refl,
          ready'',
          stream'' ∙ (stream' ∙ send_alone_eq big (mcnt_kept t s stream) stream),
        )

    -- A message that does not fit in the current datagram, which is closed.
    start_buffer_lem :
        (s : Channel)
        → IsReady s
        → Reaches (start_buffer socket is_verbose packet big full_size s) (
            if ltb full_size udp_max_payload
            then append_packet (big s.mcnt) (close (stream_of s))
            else send_alone (big s.mcnt) (close (stream_of s)))
    unfolding start_buffer
    start_buffer_lem s r =
        let (t, e, ready, size, index, stream) = send_udp_lem socket false s r in
        rw e (elim (Bool-cases (ltb full_size udp_max_payload)) [
          | inl small ↦ rw small (
              subst (λ st. Reaches (put_packet socket packet full_size t) st)
                (append_packet_eq big (mcnt_kept t s stream) stream)
                (put_lem t ready (ground arith)))
          | inr big_one ↦ rw big_one (
              subst (λ st. Reaches (flush_and_send socket is_verbose big t) st)
                (send_alone_eq big (mcnt_kept t s stream)
                  (ap close stream ∙ close-close (stream_of s)))
                (flush_and_send_lem t ready))
        ])

    place_lem :
        (s : Channel)
        → IsReady s
        → Reaches
            (if leb (s.prebuf_size + full_size) udp_max_payload
              then put_packet socket packet full_size s
              else start_buffer socket is_verbose packet big full_size s)
            (place (big s.mcnt) (stream_of s))
    place_lem s r =
        let cur = length-stream_of s r in
        let size = big_size s.mcnt in
        elim (dec_le (s.prebuf_size + full_size) udp_max_payload) [
          | yes h ↦
              subst
                (λ b.
                  Reaches
                    (if b
                      then put_packet socket packet full_size s
                      else start_buffer socket is_verbose packet big full_size s)
                    (place (big s.mcnt) (stream_of s)))
                (sym (le→leb h))
                (subst (Reaches (put_packet socket packet full_size s))
                  (sym (place-fits (big s.mcnt) (stream_of s) (omega arith))) (put_lem s r h))
          | no h ↦
              subst
                (λ b.
                  Reaches
                    (if b
                      then put_packet socket packet full_size s
                      else start_buffer socket is_verbose packet big full_size s)
                    (place (big s.mcnt) (stream_of s)))
                (sym (gt→leb h))
                (subst (Reaches (start_buffer socket is_verbose packet big full_size s))
                  (sym (place-new (big s.mcnt) (stream_of s) size (omega arith)))
                  (start_buffer_lem s r))
        ]

    -- The operation after its statistics: it returns, and does what the specification says.
    pub enqueue_lem :
        (s : Channel)
        → IsReady s
        → Reaches
            (enqueue socket is_verbose packet big full_size s)
            (accept is_verbose big (stream_of s))
    unfolding enqueue accept
    enqueue_lem s r =
        let (t, e, ready, stream) = switch_type_lem is_verbose s r in
        rw e (
          subst (Reaches _) (place_eq (switch_mcnt is_verbose t s stream) stream)
            (place_lem t ready))
      where
        place_eq :
            {m n : ℕ} {st su : Stream} → m ≡ n → st ≡ su → place (big m) st ≡ place (big n) su
        place_eq e f = cc
