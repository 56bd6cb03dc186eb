-- ===== src/Channel/Batches.antt =====
-- `SendUdp`: sending a batch leaves the stream as the specification says.
use logging.Prelude.{
  ℕ, ◌≡◌, refl, sym, ap, ◌∙◌, inl, inr, Bool, true, false, ◌&&◌, ◌||◌, Option, none, some, List, [],
  ◌∷◌, ◌++◌, append-nil, arith, ltb, leb, Bool-cases, take,
}
use logging.Channel.Output.{send_udp, send, send_batch, count_batch_failure, close_buffer}
use logging.Channel.State.{Call, vector_count, mmsg_span, Channel}
use logging.Channel.Specification.{all_datagrams-append, all_datagrams, IsReady, close, stream_of}
use logging.Channel.Buffers.{IsFilled, close_buffer_lem, Stream-ext}

pub all_datagrams-snoc :
    (cs : List Call) (c : Call) → all_datagrams (cs ++ (c ∷ [])) ++ [] ≡ all_datagrams cs ++ c
unfolding all_datagrams
all_datagrams-snoc cs c =
    rw (all_datagrams-append cs (c ∷ []), append-nil c) (append-nil (all_datagrams cs ++ c))

reset_counters : Channel → Channel
reset_counters s = record s {
  vector_index = 0;
  count_verbose_messages_in_buffer = 0;
  count_nonverbose_messages_in_buffer = 0;
}

abbrev IsFlushed : Channel → Channel → Type 0
IsFlushed s t =
    IsReady t
    × (t.vector_index ≡ 0)
    × (t.prebuf_size ≡ 0)
    × (stream_of t ≡ record (stream_of s) { finished = all_datagrams s.calls ++ []; current = [] })

module _ (socket : List Call → Option (List ℕ)) where
  reset_counters-IsFlushed :
      (error : Option (List ℕ)) (s : Channel)
      → IsFilled s
      → IsFlushed s (reset_counters (count_batch_failure socket error s))
  unfolding count_batch_failure stream_of mmsg_span reset_counters
  reset_counters-IsFlushed none s f = (
    record {
      index_bound = omega arith;
      size_bound = omega (arith, f.is_closed);
      buffer_size = f.buffer_size;
    },
    refl,
    f.is_closed,
    Stream-ext refl (ap (λ n. take n (s.prebuf_data 0)) f.is_closed) refl refl refl refl,
  )
  reset_counters-IsFlushed (some error) s f = (
    record {
      index_bound = omega arith;
      size_bound = omega (arith, f.is_closed);
      buffer_size = f.buffer_size;
    },
    refl,
    f.is_closed,
    Stream-ext refl (ap (λ n. take n (s.prebuf_data 0)) f.is_closed) refl refl refl refl,
  )

  abbrev IsSent : Channel → Channel → Type 0
  IsSent s t = IsReady t × (t.vector_index ≡ 0) × (t.prebuf_size ≡ 0) × (stream_of t ≡ stream_of s)

  send_batch_lem : (s : Channel) → IsFilled s → IsSent s (send_batch socket s)
  unfolding send_batch send stream_of reset_counters all_datagrams
  send_batch_lem s f =
      let batch = mmsg_span s.vector_index s.prebuf_data s.iov_len in
      let calls = s.calls ++ (batch ∷ []) in
      let (ready, index, size, stream) =
        reset_counters-IsFlushed (socket calls) (record s { calls = calls })
          (record {
            index_bound = f.index_bound;
            is_closed = f.is_closed;
            buffer_size = f.buffer_size;
          }) in
      (
        ready,
        index,
        size,
        stream
            ∙ Stream-ext (all_datagrams-snoc s.calls batch)
                (ap (λ n. take n (s.prebuf_data s.vector_index)) (sym f.is_closed)) refl refl refl
                refl,
      )

  must_send : Bool → Channel → Bool
  must_send flush t = (flush && ltb 0 t.vector_index) || leb vector_count t.vector_index

  send_udp-send :
      (flush : Bool) (s t : Channel)
      → close_buffer s ≡ some t
      → must_send flush t ≡ true
      → send_udp socket flush s ≡ some (send_batch socket t)
  unfolding send_udp must_send
  send_udp-send flush s t e h = rw (e, h) refl

  send_udp-keep :
      (flush : Bool) (s t : Channel)
      → close_buffer s ≡ some t
      → must_send flush t ≡ false
      → send_udp socket flush s ≡ some t
  unfolding send_udp must_send
  send_udp-keep flush s t e h = rw (e, h) refl

  keep_IsReady : (flush : Bool) {t : Channel} → IsFilled t → must_send flush t ≡ false → IsReady t
  unfolding must_send
  keep_IsReady flush {t} f e = record {
    index_bound = (ground arith);
    size_bound = omega (arith, f.is_closed);
    buffer_size = f.buffer_size;
  }

  keep_empty :
      (flush : Bool) (t : Channel) → must_send flush t ≡ false → flush ≡ true → t.vector_index ≡ 0
  unfolding must_send
  keep_empty flush t e h = ground arith

  -- `SendUdp` closes the current datagram, and sends only what the stream holds already.
  pub send_udp_lem :
      (flush : Bool) (s : Channel)
      → IsReady s
      → (t : Channel) × (send_udp socket flush s ≡ some t)
        × IsReady t
        × (t.prebuf_size ≡ 0)
        × (flush ≡ true → t.vector_index ≡ 0)
        × (stream_of t ≡ close (stream_of s))
  send_udp_lem flush s r =
      let (t, closed, filled, stream) = close_buffer_lem s r in
      elim (Bool-cases (must_send flush t)) [
        | inl e ↦
            let (ready, index, size, same) = send_batch_lem t filled in
            (
              send_batch socket t,
              send_udp-send flush s t closed e,
              ready,
              size,
              λ b. index,
              same ∙ stream,
            )
        | inr e ↦ (
          t,
          send_udp-keep flush s t closed e,
          keep_IsReady flush filled e,
          filled.is_closed,
          keep_empty flush t e,
          stream,
        )
      ]
