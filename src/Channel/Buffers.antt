-- ===== src/Channel/Buffers.antt =====
-- A buffer that is closed joins the datagrams that wait, which the stream does not tell apart from
-- those that were sent.
use logging.Prelude.{
  ℕ, zero, suc, ◌≤◌, ◌≡◌, refl, sym, ◌∙◌, some, List, [], ◌∷◌, ◌++◌, append_assoc, arith, dec_lt,
  length, take, length-take, add32,
}
use logging.Channel.Output.{close_buffer}
use logging.Channel.State.{udp_max_payload, set_at, vector_count, mmsg_span, Channel}
use logging.Channel.Specification.{all_datagrams, Stream, IsReady, close, stream_of}

mmsg_span-set_at :
    (n k v : ℕ) (buffers : ℕ → List ℕ) (sizes : ℕ → ℕ)
    → n ≤ k
    → mmsg_span n buffers (set_at k v sizes) ≡ mmsg_span n buffers sizes
unfolding mmsg_span
mmsg_span-set_at zero k v b z h = refl
mmsg_span-set_at (suc n) k v b z h = ground (arith, mmsg_span-set_at n k v b z (omega arith))

pub mmsg_span-set_buffer :
    (n k : ℕ) (v : List ℕ) (buffers : ℕ → List ℕ) (sizes : ℕ → ℕ)
    → n ≤ k
    → mmsg_span n (set_at k v buffers) sizes ≡ mmsg_span n buffers sizes
unfolding mmsg_span
mmsg_span-set_buffer zero k v b z h = refl
mmsg_span-set_buffer (suc n) k v b z h =
    ground (arith, mmsg_span-set_buffer n k v b z (omega arith))

-- The buffers are within their size, of which any number of entries may be waiting.
pub record IsFilled (s : Channel) : Type 0 where
  pub index_bound : s.vector_index ≤ vector_count
  pub is_closed : s.prebuf_size ≡ 0
  pub buffer_size : (i : ℕ) → length (s.prebuf_data i) ≡ udp_max_payload

pub close_empty : (st : Stream) → length st.current ≡ 0 → close st ≡ st
unfolding close
close_empty st e = ground arith

pub close_full :
    (st : Stream)
    → 1 ≤ length st.current
    → close st ≡ record st { finished = st.finished ++ (st.current ∷ []); current = [] }
unfolding close
close_full st h = ground arith

pub Stream-ext :
    {s t : Stream}
    → s.finished ≡ t.finished
    → s.current ≡ t.current
    → s.is_verbose ≡ t.is_verbose
    → s.next_mcnt ≡ t.next_mcnt
    → s.ecu ≡ t.ecu
    → s.threshold ≡ t.threshold
    → s ≡ t
Stream-ext e f g h i j = cc

closed_buffer : Channel → Channel
closed_buffer s = record s {
  iov_len = set_at s.vector_index s.prebuf_size s.iov_len;
  vector_index = add32 s.vector_index 1;
  prebuf_size = 0;
}

close_buffer-full :
    (s : Channel) → IsReady s → 1 ≤ s.prebuf_size → close_buffer s ≡ some (closed_buffer s)
unfolding close_buffer closed_buffer
close_buffer-full s r h = let b = r.index_bound in ground arith

close_buffer-empty : (s : Channel) → s.prebuf_size ≡ 0 → close_buffer s ≡ some s
unfolding close_buffer
close_buffer-empty s e = ground arith

mmsg_span-closed :
    (n len : ℕ) (buffers : ℕ → List ℕ) (sizes : ℕ → ℕ)
    → mmsg_span (suc n) buffers (set_at n len sizes)
      ≡ mmsg_span n buffers sizes ++ (take len (buffers n) ∷ [])
unfolding mmsg_span
mmsg_span-closed n len b z = ground (arith, mmsg_span-set_at n n len b z (omega arith))

next_index : (s : Channel) → IsReady s → add32 s.vector_index 1 ≡ suc s.vector_index
next_index s r = omega (arith, r.index_bound)

pub length-stream_of : (s : Channel) → IsReady s → length (stream_of s).current ≡ s.prebuf_size
unfolding stream_of
length-stream_of s r = omega (
  arith,
  length-take s.prebuf_size (s.prebuf_data s.vector_index),
  r.size_bound,
  r.buffer_size s.vector_index,
)

stream_of-closed_buffer :
    (s : Channel)
    → IsReady s
    → 1 ≤ s.prebuf_size
    → stream_of (closed_buffer s) ≡ close (stream_of s)
unfolding stream_of closed_buffer
stream_of-closed_buffer s r h =
    Stream-ext finished_eq refl refl refl refl refl
    ∙ sym (close_full (stream_of s) (omega (arith, h, length-stream_of s r)))
  where
    finished_eq :
        (stream_of (closed_buffer s)).finished
        ≡ (stream_of s).finished ++ ((stream_of s).current ∷ [])
    finished_eq =
        rw (next_index s r, mmsg_span-closed s.vector_index s.prebuf_size s.prebuf_data s.iov_len)
          (sym (append_assoc (all_datagrams s.calls) _ _))

closed_buffer-IsFilled : (s : Channel) → IsReady s → IsFilled (closed_buffer s)
unfolding closed_buffer
closed_buffer-IsFilled s r = record {
  index_bound = omega (arith, r.index_bound);
  is_closed = refl;
  buffer_size = r.buffer_size;
}

pub close_buffer_lem :
    (s : Channel)
    → IsReady s
    → (t : Channel) × (close_buffer s ≡ some t) × IsFilled t × (stream_of t ≡ close (stream_of s))
close_buffer_lem s r = elim (dec_lt 0 s.prebuf_size) [
  | no h ↦ (
    s,
    close_buffer-empty s (omega arith),
    record {
      index_bound = omega (arith, r.index_bound);
      is_closed = omega arith;
      buffer_size = r.buffer_size;
    },
    sym (close_empty (stream_of s) (omega (arith, length-stream_of s r))),
  )
  | yes h ↦ (
    closed_buffer s,
    close_buffer-full s r h,
    closed_buffer-IsFilled s r,
    stream_of-closed_buffer s r h,
  )
]
