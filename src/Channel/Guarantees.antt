-- ===== src/Channel/Guarantees.antt =====
-- A channel from its construction, through any sequence of operations, and a flush of it.
use logging.Prelude.{
  ℕ, ◌≡◌, refl, sym, ap, ◌∙◌, true, false, Option, some, List, [], ◌∷◌, ◌++◌, append-nil, arith,
  length-replicate,
}
use logging.DltFormat.Payload.{concat}
use logging.DltServer.Ids.{DltidT}
use logging.Channel.Batches.{send_udp_lem}
use logging.Channel.Packets.{close-current, mmsg_span-zero}
use logging.Channel.State.{mmsg_span, Channel, Call, initial_channel}
use logging.Channel.Output.{flush_unprotected, flush}
use logging.Channel.Specification.{Reaches, all_datagrams, close, stream_of, IsReady, Stream}
use logging.Channel.Delivery.{operate-perform, Operation}
use logging.Channel.Sequences.{
  unextended, close-IsExtended, perform_all, ArePlausible, run, stream_bytes,
}

pub initial_channel-IsReady :
    (ecu : DltidT) (threshold : ℕ) → IsReady (initial_channel ecu threshold)
unfolding initial_channel
initial_channel-IsReady ecu threshold = record {
  index_bound = omega arith;
  size_bound = omega arith;
  buffer_size = λ i. length-replicate {A = ℕ} 1472 0;
}

-- The stream of a new channel is empty.
abbrev pub empty_stream : DltidT → ℕ → Stream
empty_stream ecu threshold = record {
  finished = [];
  current = [];
  is_verbose = false;
  next_mcnt = 0;
  ecu = ecu;
  threshold = threshold;
}

pub stream_of-initial_channel :
    (ecu : DltidT) (threshold : ℕ)
    → stream_of (initial_channel ecu threshold) ≡ empty_stream ecu threshold
unfolding initial_channel stream_of all_datagrams mmsg_span
stream_of-initial_channel ecu threshold = refl

pub concat-close : (st : Stream) → concat (close st).finished ≡ stream_bytes st
unfolding stream_bytes
concat-close st =
    sym (append-nil (concat (close st).finished))
    ∙ (ap (λ l. concat (close st).finished ++ l) (sym (close-current st))
        ∙ ((close-IsExtended st (unextended st)).bytes ∙ append-nil (stream_bytes st)))

module _ (socket : List Call → Option (List ℕ)) where
  pub run-perform_all :
      (ops : List Operation) (s : Channel)
      → ArePlausible ops
      → IsReady s
      → Reaches (run socket ops s) (perform_all ops (stream_of s))
  unfolding run perform_all
  run-perform_all [] s p r = (s, refl, r, refl)
  run-perform_all (op ∷ ops) s (p, ps) r =
      let (t, e, ready, stream) = operate-perform socket op s p r in
      let (u, e', ready', stream') = run-perform_all ops t ps ready in
      (u, rw e e', ready', stream' ∙ ap (perform_all ops) stream)

  -- A flush leaves nothing in the buffers.
  pub flush_lem :
      (s : Channel)
      → IsReady s
      → (t : Channel) × (flush socket s ≡ some t)
        × (all_datagrams t.calls ≡ (close (stream_of s)).finished)
  unfolding flush flush_unprotected stream_of
  flush_lem s r =
      let (t, e, ready, size, index, stream) = send_udp_lem socket true s r in
      (
        t,
        e,
        sym (append-nil _)
            ∙ (ap (λ l. all_datagrams t.calls ++ l)
                  (sym (mmsg_span-zero t.vector_index t.prebuf_data t.iov_len (index refl)))
                ∙ ap (λ st. st.finished) stream),
      )
