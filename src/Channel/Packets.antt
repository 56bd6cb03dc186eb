-- ===== src/Channel/Packets.antt =====
-- A packet put into the current buffer, and one sent on its own, as the specification has them.
use logging.Prelude.{
  ℕ, zero, suc, ◌+◌, ◌%◌, ◌≤◌, ◌<◌, ◌≡◌, refl, sym, ap, ◌∙◌, Bool, true, false, Option, none, some,
  List, [], ◌∷◌, ◌++◌, append-nil, append_assoc, arith, ℕ_discrete, ltb, leb, if◌then◌else◌, length,
  take, drop, length-append, length-take, take-append,
}
use logging.Channel.Buffers.{mmsg_span-set_buffer, close_empty, Stream-ext}
use logging.Channel.Batches.{all_datagrams-snoc}
use logging.Queue.Bytes.{write_at, length-write_at}
use logging.Channel.Output.{send, count_big_failure, send_big, put_packet}
use logging.Channel.State.{mmsg_span, udp_max_payload, vector_count, Channel, Call, set_at}
use logging.Channel.Specification.{
  place, send_alone, Stream, close, all_datagrams, append_packet, Reaches, IsReady, stream_of,
}

-- What a write at the end of the used part makes of that part.
pub take-write_at :
    (buffer packet : List ℕ) (n full : ℕ)
    → n + full ≤ length buffer
    → length packet ≡ full
    → take (n + full) (write_at buffer n packet) ≡ take n buffer ++ packet
unfolding write_at
take-write_at buffer packet n full h e =
    rw (sym (append_assoc (take n buffer) packet (drop (n + length packet) buffer))) (
      take-append (take n buffer ++ packet) (drop (n + length packet) buffer)
        (omega (arith, length-append (take n buffer) packet, length-take n buffer)))

pub set_at_same : {A : Type 0} (k : ℕ) (v : A) (f : ℕ → A) → set_at k v f k ≡ v
set_at_same k v f = ground arith

pub length-set_at :
    {n : ℕ} (k : ℕ) (v : List ℕ) (f : ℕ → List ℕ) (i : ℕ)
    → length (f i) ≡ n
    → length v ≡ n
    → length (set_at k v f i) ≡ n
length-set_at k v f i e h = ground arith

pub mmsg_span-zero : (n : ℕ) (b : ℕ → List ℕ) (z : ℕ → ℕ) → n ≡ 0 → mmsg_span n b z ≡ []
unfolding mmsg_span
mmsg_span-zero zero b z e = refl
mmsg_span-zero (suc n) b z e = absurd (omega arith)

pub empty_of_length : (xs : List ℕ) → length xs ≡ 0 → xs ≡ []
empty_of_length [] e = refl
empty_of_length (x ∷ xs) e = absurd (omega arith)

pub send_alone_eq :
    (big : ℕ → List ℕ) {m n : ℕ} {st su : Stream}
    → m ≡ n
    → st ≡ su
    → send_alone (big m) st ≡ send_alone (big n) su
send_alone_eq big e f = cc

pub append_packet_eq :
    (big : ℕ → List ℕ) {m n : ℕ} {st su : Stream}
    → m ≡ n
    → st ≡ su
    → append_packet (big m) st ≡ append_packet (big n) su
append_packet_eq big e f = cc

pub le→leb : {a b : ℕ} → a ≤ b → leb a b ≡ true
le→leb {a} {b} h = ground arith

pub gt→leb : {a b : ℕ} → ¬ (a ≤ b) → leb a b ≡ false
gt→leb {a} {b} h = ground arith

pub place-fits :
    (packet : List ℕ) (st : Stream)
    → length st.current + length packet ≤ udp_max_payload
    → place packet st ≡ append_packet packet st
unfolding place
place-fits p st h = rw (le→leb h) refl

pub place-new :
    (packet : List ℕ) (st : Stream) {n : ℕ}
    → length packet ≡ n
    → ¬ (length st.current + length packet ≤ udp_max_payload)
    → place packet st ≡ (
        if ltb n udp_max_payload
        then append_packet packet (close st)
        else send_alone packet (close st))
unfolding place
place-new p st e h = rw (gt→leb h, e) refl

pub close-current : (st : Stream) → (close st).current ≡ []
unfolding close
close-current st = elim (ℕ_discrete (length st.current) 0) [
  | yes e ↦ ground (arith, empty_of_length st.current e)
  | no h ↦ ground arith
]

pub with_packet : (ℕ → List ℕ) → ℕ → Channel → Channel
with_packet construct full_size s = record s {
  prebuf_data =
      set_at s.vector_index
        (write_at (s.prebuf_data s.vector_index) s.prebuf_size (construct s.mcnt)) s.prebuf_data;
  mcnt = (s.mcnt + 1) % 256;
  prebuf_size = s.prebuf_size + full_size;
}

pub close-next_mcnt : (st : Stream) → (close st).next_mcnt ≡ st.next_mcnt
unfolding close
close-next_mcnt st = ground arith

pub close-close : (st : Stream) → close (close st) ≡ close st
close-close st = close_empty (close st) (ap (length {A = ℕ}) (close-current st))

pub mcnt_kept : (t s : Channel) → stream_of t ≡ close (stream_of s) → t.mcnt ≡ s.mcnt
unfolding stream_of
mcnt_kept t s e = ap (λ st. st.next_mcnt) e ∙ close-next_mcnt (stream_of s)

module _ (socket : List Call → Option (List ℕ)) where
  pub put_packet-index :
      (construct : ℕ → List ℕ) (full_size : ℕ) (s : Channel)
      → s.vector_index < vector_count
      → put_packet socket construct full_size s ≡ some (with_packet construct full_size s)
  unfolding put_packet with_packet
  put_packet-index construct full_size s h = ground arith

  pub put_packet_lem :
      (construct : ℕ → List ℕ) (full_size : ℕ) (s : Channel)
      → IsReady s
      → s.prebuf_size + full_size ≤ udp_max_payload
      → length (construct s.mcnt) ≡ full_size
      → Reaches
          (put_packet socket construct full_size s)
          (append_packet (construct s.mcnt) (stream_of s))
  unfolding with_packet stream_of
  put_packet_lem construct full_size s r h e = (
    with_packet construct full_size s,
    put_packet-index construct full_size s r.index_bound,
    record {
      index_bound = r.index_bound;
      size_bound = h;
      buffer_size = λ i. length-set_at s.vector_index _ s.prebuf_data i (r.buffer_size i) (
          length-write_at (s.prebuf_data s.vector_index) s.prebuf_size (construct s.mcnt)
            (omega (arith, h, e, r.buffer_size s.vector_index))
          ∙ r.buffer_size s.vector_index);
    },
    Stream-ext
        (ap (λ c. all_datagrams s.calls ++ c)
          (mmsg_span-set_buffer s.vector_index s.vector_index _ s.prebuf_data s.iov_len
            (omega arith)))
        (rw
          (set_at_same s.vector_index
            (write_at (s.prebuf_data s.vector_index) s.prebuf_size (construct s.mcnt))
            s.prebuf_data)
          (take-write_at (s.prebuf_data s.vector_index) (construct s.mcnt) s.prebuf_size full_size
            (omega (arith, h, r.buffer_size s.vector_index)) e))
        refl refl refl refl,
  )

  pub count_big_failure_lem :
      (is_verbose : Bool) (r : Channel × Option (List ℕ))
      → IsReady r.0
      → IsReady (count_big_failure socket is_verbose r)
        × (stream_of (count_big_failure socket is_verbose r) ≡ stream_of r.0)
  unfolding count_big_failure stream_of
  count_big_failure_lem b (s, none) r = (r, refl)
  count_big_failure_lem true (s, some error) r = (
    record { index_bound = r.index_bound; size_bound = r.size_bound; buffer_size = r.buffer_size },
    refl,
  )
  count_big_failure_lem false (s, some error) r = (
    record { index_bound = r.index_bound; size_bound = r.size_bound; buffer_size = r.buffer_size },
    refl,
  )

  -- When no datagram waits, what is handed to the socket comes after the whole stream.
  pub send_lem :
      (packet : List ℕ) (s : Channel)
      → IsReady s
      → s.vector_index ≡ 0
      → IsReady (send socket (packet ∷ []) s).0
        × (stream_of (send socket (packet ∷ []) s).0
            ≡ record (stream_of s) { finished = (stream_of s).finished ++ (packet ∷ []) })
  unfolding send stream_of mmsg_span
  send_lem packet s r e = (
    record { index_bound = r.index_bound; size_bound = r.size_bound; buffer_size = r.buffer_size },
    Stream-ext
        (rw
          (
            mmsg_span-zero s.vector_index s.prebuf_data s.iov_len e,
            append-nil (all_datagrams s.calls),
          )
          (all_datagrams-snoc s.calls (packet ∷ [])))
        refl refl refl refl refl,
  )

  pub send_big_lem :
      (big : ℕ → List ℕ) (s : Channel)
      → IsReady s
      → s.vector_index ≡ 0
      → IsReady (send_big socket big s).0
        × (stream_of (send_big socket big s).0 ≡ send_alone (big s.mcnt) (stream_of s))
  unfolding send_big stream_of
  send_big_lem big s r e =
      send_lem (big s.mcnt) (record s { mcnt = (s.mcnt + 1) % 256 })
        (record {
          index_bound = r.index_bound;
          size_bound = r.size_bound;
          buffer_size = r.buffer_size;
        })
        e
