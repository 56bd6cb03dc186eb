-- ===== src/Channel/Sizes.antt =====
-- The sizes of the datagrams of a channel.
use logging.Prelude.{
  ℕ, ◌+◌, ◌≤◌, ◌≡◌, refl, sym, ap, subst, Bool, true, false, Option, some, List, [], ◌∷◌, ◌++◌,
  arith, ℕ_discrete, ltb, leb, if◌then◌else◌, leb→le, length, length-append,
}
use logging.DltServer.Ids.{DltidT}
use logging.Channel.Buffers.{close_empty, close_full}
use logging.Channel.Packets.{close-current}
use logging.Channel.Delivery.Operation.{non_verbose, verbose, file_transfer, flushing}
use logging.Channel.Guarantees.{run-perform_all, initial_channel-IsReady, stream_of-initial_channel}
use logging.Channel.Sequences.{run, ArePlausible, perform_all}
use logging.Channel.Specification.{
  all_datagrams, same_type, change_type, stream_of, accept, close, Stream, place,
}
use logging.Channel.State.{initial_channel, Channel, Call, udp_max_payload}
use logging.Channel.Delivery.{
  file_transfer_packet, whole_verbose_packet, file_transfer, verbose, perform, non_verbose,
  Operation,
}
use logging.Channel.Headers.{
  length-verbose_header, verbose_header, length-construct_verbose_header, construct_verbose_header,
  length-construct_non_verbose_packet, verbose_header_size, nv_header_size,
}

abbrev pub AreWithin : List (List ℕ) → Type 0
AreWithin [] = Unit
AreWithin (d ∷ ds) = (length d ≤ udp_max_payload) × AreWithin ds

-- The message with its header fits a UDP payload.
abbrev pub IsSmall : Operation → Type 0
IsSmall (non_verbose _ _ _ data_) = nv_header_size + length data_ ≤ udp_max_payload
IsSmall (verbose _ entry) = verbose_header_size + length entry.payload ≤ udp_max_payload
IsSmall (file_transfer _ entry) = verbose_header_size + length entry.payload ≤ udp_max_payload
IsSmall flushing = Unit

abbrev pub AreSmall : List Operation → Type 0
AreSmall [] = Unit
AreSmall (op ∷ ops) = IsSmall op × AreSmall ops

AreWithin-snoc :
    (ds : List (List ℕ)) (d : List ℕ)
    → AreWithin ds
    → length d ≤ udp_max_payload
    → AreWithin (ds ++ (d ∷ []))
AreWithin-snoc [] d w h = (h, tt)
AreWithin-snoc (c ∷ ds) d (l, w) h = (l, AreWithin-snoc ds d w h)

AreWithin-prefix : (ds es : List (List ℕ)) → AreWithin (ds ++ es) → AreWithin ds
AreWithin-prefix [] es w = tt
AreWithin-prefix (d ∷ ds) es (l, w) = (l, AreWithin-prefix ds es w)

record IsSized (st : Stream) : Type 0 where
  finished_within : AreWithin st.finished
  current_bound : length st.current ≤ udp_max_payload

close-IsSized : (st : Stream) → IsSized st → IsSized (close st)
close-IsSized st z = elim (ℕ_discrete (length st.current) 0) [
  | yes h ↦ subst IsSized (sym (close_empty st h)) z
  | no h ↦ subst IsSized (sym (close_full st (omega arith))) (record {
    finished_within = AreWithin-snoc st.finished st.current z.finished_within z.current_bound;
    current_bound = omega arith;
  })
]

IsSized-if :
    {s t : Stream} (b : Bool) → (b ≡ true → IsSized s) → IsSized t → IsSized (if b then s else t)
IsSized-if true x y = x refl
IsSized-if false x y = y

place-IsSized :
    (p : List ℕ) (st : Stream) → length p ≤ udp_max_payload → IsSized st → IsSized (place p st)
unfolding place
place-IsSized p st h z =
    let c = close-IsSized st z in
    IsSized-if (leb (length st.current + length p) udp_max_payload)
      (λ fits. record {
        finished_within = z.finished_within;
        current_bound = omega (
          arith,
          length-append st.current p,
          leb→le (length st.current + length p) udp_max_payload fits,
        );
      })
      (IsSized-if (ltb (length p) udp_max_payload)
        (λ small. record {
          finished_within = c.finished_within;
          current_bound =
              omega (arith, length-append (close st).current p, length_empty (close-current st));
        })
        (record {
          finished_within = AreWithin-snoc (close st).finished p c.finished_within h;
          current_bound = c.current_bound;
        }))
  where
    length_empty : {xs : List ℕ} → xs ≡ [] → length xs ≡ 0
    length_empty e = ap (length {A = ℕ}) e

accept-IsSized :
    (b : Bool) (construct : ℕ → List ℕ) (st : Stream)
    → length (construct st.next_mcnt) ≤ udp_max_payload
    → IsSized st
    → IsSized (accept b construct st)
unfolding accept change_type
accept-IsSized b construct st h z =
    let c = close-IsSized st z in
    place-IsSized (construct st.next_mcnt) _ h (
      IsSized-if (same_type b st.is_verbose) (λ e. z)
        (record { finished_within = c.finished_within; current_bound = c.current_bound }))

perform-IsSized : (op : Operation) (st : Stream) → IsSmall op → IsSized st → IsSized (perform op st)
unfolding perform whole_verbose_packet file_transfer_packet
perform-IsSized (non_verbose log_level msgid tmsp data_) st h z =
    IsSized-if (ltb st.threshold log_level) (λ e. z)
      (accept-IsSized false _ st
        (omega (arith, length-construct_non_verbose_packet data_ msgid st.ecu st.next_mcnt tmsp)) z)
perform-IsSized (verbose tmsp entry) st h z =
    IsSized-if (ltb st.threshold entry.log_level) (λ e. z)
      (accept-IsSized true _ st
        (omega (
          arith,
          length-append (construct_verbose_header entry st.ecu st.next_mcnt tmsp) entry.payload,
          length-construct_verbose_header entry st.ecu st.next_mcnt tmsp,
        ))
        z)
perform-IsSized (file_transfer tmsp entry) st h z =
    let c = close-IsSized st z in
    let header =
      verbose_header (length entry.payload + verbose_header_size) entry st.ecu st.next_mcnt tmsp in
    record {
      finished_within =
          AreWithin-snoc (close st).finished (header ++ entry.payload) c.finished_within (
            omega (
              arith,
              length-append header entry.payload,
              length-verbose_header (length entry.payload + verbose_header_size) entry st.ecu
                  st.next_mcnt tmsp,
            ));
      current_bound = c.current_bound;
    }
perform-IsSized flushing st h z = close-IsSized st z

perform_all-IsSized :
    (ops : List Operation) (st : Stream) → AreSmall ops → IsSized st → IsSized (perform_all ops st)
unfolding perform_all
perform_all-IsSized [] st h z = z
perform_all-IsSized (op ∷ ops) st (h, hs) z =
    perform_all-IsSized ops (perform op st) hs (perform-IsSized op st h z)

-- When every message with its header fits a UDP payload, no sequence of operations hands the socket
-- a datagram that is larger than a UDP payload.
pub run-AreWithin :
    (socket : List Call → Option (List ℕ)) (ecu : DltidT) (threshold : ℕ) (ops : List Operation)
    → ArePlausible ops
    → AreSmall ops
    → (t : Channel) × (run socket ops (initial_channel ecu threshold) ≡ some t)
      × AreWithin (all_datagrams t.calls)
unfolding stream_of
run-AreWithin socket ecu threshold ops p h =
    let (t, e, ready, stream) =
      run-perform_all socket ops (initial_channel ecu threshold) p
        (initial_channel-IsReady ecu threshold) in
    let sized = subst IsSized (sym stream) (
      perform_all-IsSized ops (stream_of (initial_channel ecu threshold)) h (
        subst IsSized (sym (stream_of-initial_channel ecu threshold))
          (record { finished_within = tt; current_bound = omega arith }))) in
    (t, e, AreWithin-prefix (all_datagrams t.calls) _ sized.finished_within)
