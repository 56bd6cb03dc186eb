-- ===== src/Channel/Sequences.antt =====
-- Sequences of operations on a channel, from its construction to a flush.
use logging.Prelude.{
  ℕ, ◌+◌, ◌%◌, ◌≡◌, refl, sym, ap, subst, ◌∙◌, Bool, true, false, Option, none, some, List, [], ◌∷◌,
  ◌++◌, append-nil, append_assoc, arith, ℕ_discrete, ltb, leb, if◌then◌else◌, length,
}
use logging.DltFormat.Payload.{concat}
use logging.DltServer.Ids.{DltidT}
use logging.Channel.Buffers.{close_empty, close_full}
use logging.Channel.Packets.{close-current}
use logging.Channel.Delivery.Operation.{non_verbose, verbose, file_transfer, flushing}
use logging.Channel.Delivery.{
  file_transfer_packet, file_transfer, whole_verbose_packet, verbose, operate, non_verbose,
  IsPlausible, Operation, perform,
}
use logging.Channel.Specification.{
  same_type, send_alone, append_packet, change_type, accept, Stream, place, close,
}
use logging.Channel.State.{udp_max_payload, ◌>>=◌, Channel, Call}
use logging.Channel.Headers.{construct_non_verbose_packet}

unfoldable pub run : (List Call → Option (List ℕ)) → List Operation → Channel → Option Channel
run socket [] s = some s
run socket (op ∷ ops) s = operate socket op s >>= run socket ops

unfoldable pub perform_all : List Operation → Stream → Stream
perform_all [] st = st
perform_all (op ∷ ops) st = perform_all ops (perform op st)

abbrev pub ArePlausible : List Operation → Type 0
ArePlausible [] = Unit
ArePlausible (op ∷ ops) = IsPlausible op × ArePlausible ops

-- The packet of an operation, for the counter `mcnt`, unless its level is above the threshold.
unfoldable pub packet_of : DltidT → ℕ → ℕ → Operation → Option (List ℕ)
packet_of ecu threshold mcnt (non_verbose log_level msgid tmsp data_) =
    if ltb threshold log_level
    then none
    else some (construct_non_verbose_packet data_ msgid ecu mcnt tmsp)
packet_of ecu threshold mcnt (verbose tmsp entry) =
    if ltb threshold entry.log_level then none else some (whole_verbose_packet tmsp entry ecu mcnt)
packet_of ecu threshold mcnt (file_transfer tmsp entry) =
    some (file_transfer_packet tmsp entry ecu mcnt)
packet_of ecu threshold mcnt flushing = none

abbrev pub next_counter : ℕ → Option (List ℕ) → ℕ
next_counter mcnt none = mcnt
next_counter mcnt (some packet) = (mcnt + 1) % 256

abbrev pub bytes_of : Option (List ℕ) → List ℕ
bytes_of none = []
bytes_of (some packet) = packet

unfoldable pub stream_bytes : Stream → List ℕ
stream_bytes st = concat st.finished ++ st.current

pub concat-snoc : (ds : List (List ℕ)) (d : List ℕ) → concat (ds ++ (d ∷ [])) ≡ concat ds ++ d
unfolding concat
concat-snoc [] d = append-nil d
concat-snoc (c ∷ ds) d = ap (λ r. c ++ r) (concat-snoc ds d) ∙ sym (append_assoc c (concat ds) d)

-- What is done to the bytes and the counter of a stream.
pub record IsExtended (st : Stream) (packet : Option (List ℕ)) (su : Stream) : Type 0 where
  pub bytes : stream_bytes su ≡ stream_bytes st ++ bytes_of packet
  pub counter : su.next_mcnt ≡ next_counter st.next_mcnt packet
  pub same_ecu : su.ecu ≡ st.ecu
  pub same_threshold : su.threshold ≡ st.threshold

pub unextended : (st : Stream) → IsExtended st none st
unextended st = record {
  bytes = sym (append-nil (stream_bytes st));
  counter = refl;
  same_ecu = refl;
  same_threshold = refl;
}

pub close-IsExtended :
    (st : Stream) {su : Stream} → IsExtended st none su → IsExtended st none (close su)
unfolding stream_bytes
close-IsExtended st {su} x = elim (ℕ_discrete (length su.current) 0) [
  | yes h ↦ subst (IsExtended st none) (sym (close_empty su h)) x
  | no h ↦ subst (IsExtended st none) (sym (close_full su (omega arith))) (record {
    bytes = append-nil _ ∙ (concat-snoc su.finished su.current ∙ x.bytes);
    counter = x.counter;
    same_ecu = x.same_ecu;
    same_threshold = x.same_threshold;
  })
]

append_packet-IsExtended :
    (p : List ℕ) (st : Stream) {su : Stream}
    → IsExtended st none su
    → IsExtended st (some p) (append_packet p su)
unfolding stream_bytes
append_packet-IsExtended p st {su} x = record {
  bytes =
      sym (append_assoc (concat su.finished) su.current p)
      ∙ ap (λ r. r ++ p) (x.bytes ∙ append-nil _);
  counter = ap (λ n. (n + 1) % 256) x.counter;
  same_ecu = x.same_ecu;
  same_threshold = x.same_threshold;
}

pub alone_bytes :
    (p r : List ℕ) (su : Stream)
    → su.current ≡ []
    → stream_bytes su ≡ r ++ []
    → stream_bytes (send_alone p su) ≡ r ++ p
unfolding stream_bytes
alone_bytes p r su c b =
    ap (λ l. concat (su.finished ++ (p ∷ [])) ++ l) c
    ∙ (append-nil _ ∙ (concat-snoc su.finished p ∙ ap (λ l. l ++ p) finished_eq))
  where
    finished_eq : concat su.finished ≡ r
    finished_eq =
        sym (append-nil (concat su.finished))
        ∙ (ap (λ l. concat su.finished ++ l) (sym c) ∙ (b ∙ append-nil r))

send_alone-IsExtended :
    (p : List ℕ) (st : Stream) {su : Stream}
    → su.current ≡ []
    → IsExtended st none su
    → IsExtended st (some p) (send_alone p su)
send_alone-IsExtended p st {su} c x = record {
  bytes = alone_bytes p (stream_bytes st) su c x.bytes;
  counter = ap (λ n. (n + 1) % 256) x.counter;
  same_ecu = x.same_ecu;
  same_threshold = x.same_threshold;
}

if_both :
    {st s t : Stream} {o : Option (List ℕ)} (b : Bool)
    → IsExtended st o s
    → IsExtended st o t
    → IsExtended st o (if b then s else t)
if_both true x y = x
if_both false x y = y

place-IsExtended :
    (p : List ℕ) (st : Stream) {su : Stream}
    → IsExtended st none su
    → IsExtended st (some p) (place p su)
unfolding place
place-IsExtended p st {su} x =
    if_both (leb (length su.current + length p) udp_max_payload) (append_packet-IsExtended p st x) (
      if_both (ltb (length p) udp_max_payload)
        (append_packet-IsExtended p st (close-IsExtended st x))
        (send_alone-IsExtended p st (close-current su) (close-IsExtended st x)))

accept-IsExtended :
    (b : Bool) (construct : ℕ → List ℕ) (st : Stream)
    → IsExtended st (some (construct st.next_mcnt)) (accept b construct st)
unfolding accept change_type stream_bytes
accept-IsExtended b construct st =
    let x = close-IsExtended st (unextended st) in
    place-IsExtended (construct st.next_mcnt) st (
      if_both (same_type b st.is_verbose) (unextended st) (record {
        bytes = x.bytes;
        counter = x.counter;
        same_ecu = x.same_ecu;
        same_threshold = x.same_threshold;
      }))

refused :
    {st su : Stream} {p : List ℕ} (c : Bool)
    → IsExtended st (some p) su
    → IsExtended st (if c then none else some p) (if c then st else su)
refused {st} true x = unextended st
refused false x = x

pub perform-IsExtended :
    (op : Operation) (st : Stream)
    → IsExtended st (packet_of st.ecu st.threshold st.next_mcnt op) (perform op st)
unfolding perform packet_of
perform-IsExtended (non_verbose log_level msgid tmsp data_) st =
    refused (ltb st.threshold log_level) (accept-IsExtended false _ st)
perform-IsExtended (verbose tmsp entry) st =
    refused (ltb st.threshold entry.log_level) (accept-IsExtended true _ st)
perform-IsExtended (file_transfer tmsp entry) st =
    send_alone-IsExtended _ st (close-current st) (close-IsExtended st (unextended st))
perform-IsExtended flushing st = close-IsExtended st (unextended st)
