-- ===== src/FileRecorder/Reading.antt =====
-- A reader of a DLT file, which finds the end of a message by the length in its header, and the round
-- trip of the file recorder's messages through it.
use logging.Prelude.{
  ℕ, zero, suc, ◌+◌, ◌-◌, ◌%◌, ◌≤◌, ◌<◌, min, ◌≡◌, refl, sym, ap, ◌∙◌, Bool, true, List, [], ◌∷◌,
  ◌++◌, arith, length, take, drop, take-append, drop-append, drop-drop, u32_mod,
}
use logging.Channel.Headers.{swap16, swap32, id_bytes}
use logging.Channel.Decoding.{
  Decoded, DecodedExtension, decode_header, decode_extension, field, swap16_be, swap32_be,
  to_bytes4,
}
use logging.DltServer.Ids.{DltidT, dltid}
use logging.Queue.Bytes.{to_bytes, of_bytes}
use logging.FileRecorder.MessageBuilder.{
  construct_dlt_storage_header, dlt_header, construct_dlt_standard_header_types,
  construct_dlt_standard_header_extra, construct_dlt_extended_header,
}
use logging.FileRecorder.Messages.{Message, packet, packets}

pub record Stored : Type 0 where
  pub sec : ℕ
  pub header : Decoded
  pub extension : DecodedExtension
  pub payload : List ℕ

unfoldable pub read_stored : List ℕ → Stored
unfolding of_bytes
read_stored bytes =
    let message = drop 16 bytes in
    let head = decode_header message in
    record {
      sec = of_bytes (field bytes 4 4);
      header = head;
      extension = decode_extension message;
      payload = take (head.len - 22) (drop 22 message);
    }

-- At most `fuel` messages.
unfoldable pub read_file : ℕ → List ℕ → List Stored
unfolding decode_header
read_file zero bytes = []
read_file (suc fuel) bytes =
    let message = drop 16 bytes in
    read_stored bytes ∷ read_file fuel (drop (decode_header message).len message)

-- What stands in the file of a message.
unfoldable pub stored : DltidT → ℕ → Message → Stored
stored ecu message_count m = record {
  sec = m.time.sec;
  header = record {
    htyp = 53;
    mcnt = message_count;
    len = 22 + length m.entry.payload;
    ecu = ecu;
    tmsp = m.time.timestamp;
  };
  extension = record {
    level = m.entry.log_level;
    is_verbose = true;
    noar = m.entry.num_of_args;
    apid = m.entry.app_id;
    ctid = m.entry.ctx_id;
  };
  payload = m.entry.payload;
}

unfoldable pub all_stored : DltidT → ℕ → List Message → List Stored
all_stored ecu message_count [] = []
all_stored ecu message_count (m ∷ ms) =
    stored ecu message_count m ∷ all_stored ecu ((message_count + 1) % 256) ms

-- The payload is not cut, and the numbers are within their types.
pub record IsStorable (m : Message) : Type 0 where
  pub payload_bound : length m.entry.payload + 38 ≤ 65535
  pub level_bound : m.entry.log_level < 8
  pub timestamp_bound : m.time.timestamp < u32_mod
  pub sec_bound : m.time.sec < u32_mod

abbrev pub AreStorable : List Message → Type 0
AreStorable [] = Unit
AreStorable (m ∷ ms) = IsStorable m × AreStorable ms

Decoded-ext :
    {c l l' t t' : ℕ} {ecu : DltidT}
    → l ≡ l'
    → t ≡ t'
    → ◌≡◌ {A = Decoded}
        (record { htyp = 53; mcnt = c; len = l; ecu = ecu; tmsp = t })
        (record { htyp = 53; mcnt = c; len = l'; ecu = ecu; tmsp = t' })
Decoded-ext e f = cc

extension_ext :
    {n l l' : ℕ} {b b' : Bool} {app_id ctx_id : DltidT}
    → l ≡ l'
    → b ≡ b'
    → ◌≡◌ {A = DecodedExtension}
        (record { level = l; is_verbose = b; noar = n; apid = app_id; ctid = ctx_id })
        (record { level = l'; is_verbose = b'; noar = n; apid = app_id; ctid = ctx_id })
extension_ext e f = cc

header_read :
    (ecu : DltidT) (message_count : ℕ) (m : Message) (rest : List ℕ)
    → IsStorable m
    → decode_header (drop 16 (packet ecu message_count m ++ rest))
      ≡ (stored ecu message_count m).header
unfolding packet construct_dlt_storage_header dlt_header construct_dlt_standard_header_types
    construct_dlt_standard_header_extra construct_dlt_extended_header id_bytes to_bytes
    decode_header dltid swap16 swap32 stored
header_read ecu message_count m rest h =
    Decoded-ext
      (swap16_be ((22 + min (length m.entry.payload) 65497) % 65536) (omega arith)
        ∙ omega (arith, h.payload_bound))
      (swap32_be m.time.timestamp h.timestamp_bound)

extension_read :
    (ecu : DltidT) (message_count : ℕ) (m : Message) (rest : List ℕ)
    → IsStorable m
    → decode_extension (drop 16 (packet ecu message_count m ++ rest))
      ≡ (stored ecu message_count m).extension
unfolding packet construct_dlt_storage_header dlt_header construct_dlt_standard_header_types
    construct_dlt_standard_header_extra construct_dlt_extended_header id_bytes to_bytes
    decode_extension dltid swap16 swap32 stored
extension_read ecu message_count m rest h =
    extension_ext (omega (arith, h.level_bound)) (ground arith)

behind_header :
    (ecu : DltidT) (message_count : ℕ) (m : Message) (rest : List ℕ)
    → drop 22 (drop 16 (packet ecu message_count m ++ rest)) ≡ m.entry.payload ++ rest
unfolding packet construct_dlt_storage_header dlt_header construct_dlt_standard_header_types
    construct_dlt_standard_header_extra construct_dlt_extended_header id_bytes to_bytes
behind_header ecu message_count m rest = refl

sec_read :
    (ecu : DltidT) (message_count : ℕ) (m : Message) (rest : List ℕ)
    → IsStorable m
    → of_bytes (field (packet ecu message_count m ++ rest) 4 4) ≡ m.time.sec
unfolding packet construct_dlt_storage_header to_bytes of_bytes
sec_read ecu message_count m rest h = to_bytes4 m.time.sec h.sec_bound

Stored-ext :
    {s t : Stored}
    → s.sec ≡ t.sec
    → s.header ≡ t.header
    → s.extension ≡ t.extension
    → s.payload ≡ t.payload
    → s ≡ t
Stored-ext e f g h = cc

message_read :
    (ecu : DltidT) (message_count : ℕ) (m : Message) (rest : List ℕ)
    → IsStorable m
    → read_stored (packet ecu message_count m ++ rest) ≡ stored ecu message_count m
unfolding read_stored stored
message_read ecu message_count m rest h =
    Stored-ext (sec_read ecu message_count m rest h) head
      (extension_read ecu message_count m rest h)
      (rw (ap (λ (d : Decoded). d.len) head, behind_header ecu message_count m rest)
        (take-append m.entry.payload rest (omega arith)))
  where
    head :
        decode_header (drop 16 (packet ecu message_count m ++ rest))
        ≡ (stored ecu message_count m).header
    head = header_read ecu message_count m rest h

message_skipped :
    (ecu : DltidT) (message_count : ℕ) (m : Message) (rest : List ℕ)
    → IsStorable m
    → let message = drop 16 (packet ecu message_count m ++ rest) in
      drop (decode_header message).len message ≡ rest
unfolding stored
message_skipped ecu message_count m rest h =
    ap (λ (d : Decoded). drop d.len (drop 16 (packet ecu message_count m ++ rest)))
      (header_read ecu message_count m rest h)
    ∙ (sym (drop-drop 22 (length m.entry.payload) (drop 16 (packet ecu message_count m ++ rest)))
        ∙ (ap (drop (length m.entry.payload)) (behind_header ecu message_count m rest)
            ∙ drop-append m.entry.payload rest refl))

-- From the bytes of recorded messages whose payloads are not cut, a reader gets every message back
-- in order, with its second, its consecutive message count, ECU, timestamp, level, number of
-- arguments, identifiers and payload.
pub read_file-packets :
    (ecu : DltidT) (message_count : ℕ) (ms : List Message)
    → AreStorable ms
    → read_file (length ms) (packets ecu message_count ms) ≡ all_stored ecu message_count ms
unfolding read_file packets all_stored
read_file-packets ecu message_count [] h = refl
read_file-packets ecu message_count (m ∷ ms) (h, hs) =
    let rest = packets ecu ((message_count + 1) % 256) ms in
    cons_eq (message_read ecu message_count m rest h) (
      ap (read_file (length ms)) (message_skipped ecu message_count m rest h)
      ∙ read_file-packets ecu ((message_count + 1) % 256) ms hs)
  where
    cons_eq : {a b : Stored} {s t : List Stored} → a ≡ b → s ≡ t → a ∷ s ≡ b ∷ t
    cons_eq e f = cc
