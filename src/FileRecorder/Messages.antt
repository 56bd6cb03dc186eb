-- ===== src/FileRecorder/Messages.antt =====
-- Messages go through the builder one after the other: what its spans hold in sequence.
use logging.Prelude.{
  ℕ, suc, ◌+◌, ◌%◌, ◌≤◌, ◌<◌, ◌≡◌, refl, ap, ◌∙◌, List, [], ◌∷◌, ◌++◌, append-nil, arith, length,
}
use logging.Channel.Headers.{LogEntry, id_bytes}
use logging.Channel.State.{set_at}
use logging.DltServer.Ids.{DltidT}
use logging.Queue.Bytes.{to_bytes}
use logging.FileRecorder.MessageBuilder.{
  SvpTime, DltMessageBuilder, make_builder, set_next_message, drain_spans, get_next_span, next_span,
  construct_storage_verbose_packet, construct_dlt_storage_header, dlt_header, max_dlt_header_size,
  construct_dlt_standard_header_types, construct_dlt_standard_header_extra,
  construct_dlt_extended_header,
}

-- A message: the slot of its record, the entry that was logged there, and the time.
pub record Message : Type 0 where
  pub slot : ℕ
  pub entry : LogEntry
  pub time : SvpTime

unfoldable pub packet : DltidT → ℕ → Message → List ℕ
packet ecu message_count m =
    (construct_dlt_storage_header m.time.sec m.time.ms
      ++ dlt_header m.entry ecu message_count m.time)
    ++ m.entry.payload

-- Each message is logged in its slot, given to the builder, and its spans are taken.
unfoldable pub write_messages :
    (List ℕ → List ℕ → List ℕ)
    → List Message
    → (ℕ → LogEntry)
    → DltMessageBuilder
    → DltMessageBuilder × List ℕ
write_messages put [] store b = (b, [])
write_messages put (m ∷ ms) store b =
    let logged = set_at m.slot m.entry store in
    let ((c, store'), bytes) = drain_spans 3 logged (set_next_message put m.time logged m.slot b) in
    let (d, rest) = write_messages put ms store' c in (d, bytes ++ rest)

-- The packets with consecutive message counts.
unfoldable pub packets : DltidT → ℕ → List Message → List ℕ
packets ecu message_count [] = []
packets ecu message_count (m ∷ ms) =
    packet ecu message_count m ++ packets ecu ((message_count + 1) % 256) ms

abbrev idle_builder : DltidT → ℕ → DltMessageBuilder
idle_builder ecu message_count = record (make_builder ecu) { message_count = message_count }

length-storage_header : (s us : ℕ) → length (construct_dlt_storage_header s us) ≡ 16
unfolding construct_dlt_storage_header to_bytes
length-storage_header s us = refl

length-dlt_header :
    (entry : LogEntry) (ecu : DltidT) (message_count : ℕ) (time : SvpTime)
    → length (dlt_header entry ecu message_count time) ≡ 22
unfolding dlt_header construct_dlt_standard_header_types construct_dlt_standard_header_extra
    construct_dlt_extended_header id_bytes to_bytes
length-dlt_header entry ecu message_count time = refl

module _ (put : List ℕ → List ℕ → List ℕ)
    (put_room : (held bytes : List ℕ)
      → length held + length bytes ≤ max_dlt_header_size
      → put held bytes ≡ held ++ bytes) where
  header_bytes :
      (entry : LogEntry) (ecu : DltidT) (message_count : ℕ) (time : SvpTime)
      → construct_storage_verbose_packet put [] entry ecu message_count time
        ≡ construct_dlt_storage_header time.sec time.ms ++ dlt_header entry ecu message_count time
  unfolding construct_storage_verbose_packet
  header_bytes entry ecu message_count time =
      let storage = construct_dlt_storage_header time.sec time.ms in
      let size = length-storage_header time.sec time.ms in
      ap (λ held. put held (dlt_header entry ecu message_count time))
        (put_room [] storage (omega arith))
      ∙ put_room storage (dlt_header entry ecu message_count time)
          (omega (arith, size, length-dlt_header entry ecu message_count time))

  -- A message leaves the builder in three calls, and any further call adds nothing.
  drain_spans-packet :
      (ecu : DltidT) (message_count n : ℕ) (m : Message) (store : ℕ → LogEntry)
      → let logged = set_at m.slot m.entry store in
        let drained =
          drain_spans
            (suc (suc (suc n)))
            logged
            (set_next_message put m.time logged m.slot (idle_builder ecu message_count)) in
        (drained.0.0 ≡ idle_builder ecu ((message_count + 1) % 256))
        × (drained.1 ≡ packet ecu message_count m)
  unfolding drain_spans get_next_span next_span set_next_message make_builder packet
  drain_spans-packet ecu message_count n m store = (
    refl,
    ap
          (λ (e : LogEntry).
            construct_storage_verbose_packet put [] e ecu message_count m.time ++ (e.payload ++ []))
          (set_at_same m.slot m.entry store)
        ∙ (ap (λ h. h ++ (m.entry.payload ++ [])) (header_bytes m.entry ecu message_count m.time)
            ∙ ap
                (λ p.
                  (construct_dlt_storage_header m.time.sec m.time.ms
                    ++ dlt_header m.entry ecu message_count m.time)
                  ++ p)
                (append-nil m.entry.payload)),
  )
    where
      set_at_same : {A : Type 0} (k : ℕ) (v : A) (f : ℕ → A) → set_at k v f k ≡ v
      set_at_same k v f = ground arith

  -- What the builder gives out for any messages is their packets in order, each a storage header,
  -- a header with the next message count and the payload, and the builder is idle again. The header
  -- buffer is that of a library, which takes bytes while there is room for them.
  pub write_messages-packets :
      (ecu : DltidT) (message_count : ℕ) (ms : List Message) (store : ℕ → LogEntry)
      → message_count < 256
      → ((write_messages put ms store (idle_builder ecu message_count)).1
          ≡ packets ecu message_count ms)
        × ((write_messages put ms store (idle_builder ecu message_count)).0
            ≡ idle_builder ecu ((message_count + length ms) % 256))
  unfolding write_messages packets drain_spans packet get_next_span set_next_message next_span
      make_builder
  write_messages-packets ecu message_count [] store h = (refl, ap (idle_builder ecu) (omega arith))
  write_messages-packets ecu message_count (m ∷ ms) store h =
      let (idle, bytes) = drain_spans-packet ecu message_count 0 m store in
      let (rest, idle') =
        write_messages-packets ecu ((message_count + 1) % 256) ms _ (omega arith) in
      (append_eq bytes rest, idle' ∙ ap (idle_builder ecu) (omega arith))
    where
      append_eq : {a b c d : List ℕ} → a ≡ b → c ≡ d → a ++ c ≡ b ++ d
      append_eq e f = cc
