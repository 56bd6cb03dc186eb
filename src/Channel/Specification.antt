-- ===== src/Channel/Specification.antt =====
-- What a channel promises, without its buffers, batches and statistics: a stream of datagrams, of
-- which the last may still grow.
use logging.DltServer.Ids.{DltidT}
use logging.Prelude.{
  ℕ, ◌+◌, ◌%◌, ◌≤◌, ◌<◌, ◌≡◌, refl, sym, ap, ◌∙◌, Bool, true, false, not, Option, some, List, [],
  ◌∷◌, ◌++◌, append_assoc, ltb, leb, ◌==◌, if◌then◌else◌, length, take,
}
use logging.Channel.State.{Call, Channel, mmsg_span, udp_max_payload, vector_count}

pub record Stream : Type 0 where
  pub finished : List (List ℕ)
  pub current : List ℕ
  pub is_verbose : Bool
  pub next_mcnt : ℕ
  pub ecu : DltidT
  pub threshold : ℕ

-- A datagram that holds nothing is not sent.
unfoldable pub close : Stream → Stream
close st =
    if length st.current == 0
    then st
    else record st { finished = st.finished ++ (st.current ∷ []); current = [] }

abbrev pub append_packet : List ℕ → Stream → Stream
append_packet packet st = record st {
  current = st.current ++ packet;
  next_mcnt = (st.next_mcnt + 1) % 256;
}

abbrev pub send_alone : List ℕ → Stream → Stream
send_alone packet st = record st {
  finished = st.finished ++ (packet ∷ []);
  next_mcnt = (st.next_mcnt + 1) % 256;
}

-- The packet joins the current datagram while that stays within a UDP payload.
unfoldable pub place : List ℕ → Stream → Stream
unfolding close
place packet st =
    if leb (length st.current + length packet) udp_max_payload
    then append_packet packet st
    else if ltb (length packet) udp_max_payload
    then append_packet packet (close st)
    else send_alone packet (close st)

abbrev pub same_type : Bool → Bool → Bool
same_type true b = b
same_type false b = not b

unfoldable pub change_type : Bool → Stream → Stream
change_type is_verbose st =
    if same_type is_verbose st.is_verbose then st else record (close st) { is_verbose = is_verbose }

-- `construct` makes the packet from the message counter.
unfoldable pub accept : Bool → (ℕ → List ℕ) → Stream → Stream
accept is_verbose construct st = place (construct st.next_mcnt) (change_type is_verbose st)

unfoldable pub all_datagrams : List Call → List (List ℕ)
all_datagrams [] = []
all_datagrams (c ∷ cs) = c ++ all_datagrams cs

-- The stream that a channel stands for.
unfoldable pub stream_of : Channel → Stream
unfolding all_datagrams
stream_of s = record {
  finished = all_datagrams s.calls ++ mmsg_span s.vector_index s.prebuf_data s.iov_len;
  current = take s.prebuf_size (s.prebuf_data s.vector_index);
  is_verbose = s.prebuf_is_verbose;
  next_mcnt = s.mcnt;
  ecu = s.ecu;
  threshold = s.channel_threshold;
}

-- The indices are in range and the buffers keep their size.
pub record IsReady (s : Channel) : Type 0 where
  pub index_bound : s.vector_index < vector_count
  pub size_bound : s.prebuf_size ≤ udp_max_payload
  pub buffer_size : (i : ℕ) → length (s.prebuf_data i) ≡ udp_max_payload

-- The operation returns, in a state that stands for that stream.
abbrev pub Reaches : Option Channel → Stream → Type 0
Reaches result st = (t : Channel) × (result ≡ some t) × IsReady t × (stream_of t ≡ st)

pub all_datagrams-append :
    (cs ds : List Call) → all_datagrams (cs ++ ds) ≡ all_datagrams cs ++ all_datagrams ds
unfolding all_datagrams
all_datagrams-append [] ds = refl
all_datagrams-append (c ∷ cs) ds =
    ap (λ r. c ++ r) (all_datagrams-append cs ds) ∙ sym (append_assoc c _ _)
