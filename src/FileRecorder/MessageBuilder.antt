-- ===== src/FileRecorder/MessageBuilder.antt =====
-- dlt_message_builder.cpp with dlt_message_builder_types.h. A log record is a slot that the builder
-- refers to, so its entry is in a store that the recorder shares. The clocks are read by the caller
-- of `set_next_message`. The payload buffer for headers comes from another library: `put` is its
-- `Put`, from the bytes it holds and the bytes offered to the bytes it holds then.
use logging.Prelude.{
  ℕ, zero, suc, ◌+◌, ◌-◌, ◌*◌, ◌%◌, min, Bool, true, Option, none, some, List, [], ◌∷◌, ◌++◌,
  if◌then◌else◌, length, u16_mod,
}
use logging.Channel.Headers.{LogEntry, swap16, swap32, id_bytes}
use logging.Channel.State.{set_at}
use logging.DltServer.Ids.{DltidT}
use logging.Queue.Bytes.{to_bytes}

abbrev dlt_message_size : ℕ
dlt_message_size = 65535

abbrev pub dlt_header_size : ℕ
dlt_header_size = 22

abbrev pub dlt_storage_header_size : ℕ
dlt_storage_header_size = 16

abbrev pub max_dlt_header_size : ℕ
max_dlt_header_size = 512

-- `SVPTime`
pub record SvpTime : Type 0 where
  pub timestamp : ℕ
  pub sec : ℕ
  pub ms : ℕ

unfoldable pub construct_dlt_storage_header : ℕ → ℕ → List ℕ
construct_dlt_storage_header secs microsecs =
    (68 ∷ 76 ∷ 84 ∷ 1 ∷ [])
    ++ (to_bytes 4 secs ++ (to_bytes 4 microsecs ++ (69 ∷ 67 ∷ 85 ∷ 0 ∷ [])))

-- `htons` and `htonl` swap the bytes of a little-endian number.
unfoldable pub construct_dlt_standard_header_types : ℕ → ℕ → Bool → List ℕ
construct_dlt_standard_header_types msg_size message_count use_extended_header =
    (if use_extended_header then 4 + 16 + 32 + 1 else 4 + 16 + 32)
    ∷ message_count
    ∷ to_bytes 2 (swap16 msg_size)

unfoldable pub construct_dlt_standard_header_extra : DltidT → ℕ → List ℕ
construct_dlt_standard_header_extra ecu tmsp = id_bytes ecu ++ to_bytes 4 (swap32 tmsp)

unfoldable pub construct_dlt_extended_header : ℕ → ℕ → DltidT → DltidT → List ℕ
construct_dlt_extended_header log_level number_of_arguments app_id ctx_id =
    let level_normalized = log_level % 8 in
    (level_normalized * 16 + 1) % 256 ∷ number_of_arguments ∷ (id_bytes app_id ++ id_bytes ctx_id)

-- The object representation of the `DltVerboseHeader` of `ConstructStorageVerbosePacket`.
unfoldable pub dlt_header : LogEntry → DltidT → ℕ → SvpTime → List ℕ
dlt_header entry ecu message_count svp_time =
    let size =
      min (length entry.payload) (dlt_message_size - (dlt_storage_header_size + dlt_header_size)) in
    let header_size = (dlt_header_size + size) % u16_mod in
    construct_dlt_standard_header_types header_size message_count true
    ++ (construct_dlt_standard_header_extra ecu svp_time.timestamp
        ++ construct_dlt_extended_header entry.log_level entry.num_of_args entry.app_id
            entry.ctx_id)

pub data ParsingPhase : Type 0 where
  header : ParsingPhase
  payload : ParsingPhase
  reinitialize : ParsingPhase

pub record DltMessageBuilder : Type 0 where
  pub log_record : Option ℕ
  pub header_payload : List ℕ
  pub parsing_phase : ParsingPhase
  pub ecu_id : DltidT
  pub message_count : ℕ

unfoldable pub make_builder : DltidT → DltMessageBuilder
make_builder ecu_id = record {
  log_record = none;
  header_payload = [];
  parsing_phase = header;
  ecu_id = ecu_id;
  message_count = 0;
}

module _ (put : List ℕ → List ℕ → List ℕ) where
  unfoldable pub construct_storage_verbose_packet :
      List ℕ → LogEntry → DltidT → ℕ → SvpTime → List ℕ
  construct_storage_verbose_packet header_payload entry ecu message_count svp_time =
      put (put header_payload (construct_dlt_storage_header svp_time.sec svp_time.ms))
        (dlt_header entry ecu message_count svp_time)

  unfoldable pub set_next_message :
      SvpTime → (ℕ → LogEntry) → ℕ → DltMessageBuilder → DltMessageBuilder
  set_next_message svp_time store log_record b = record b {
    log_record = some log_record;
    message_count = (b.message_count + 1) % 256;
    header_payload =
        construct_storage_verbose_packet b.header_payload (store log_record) b.ecu_id
          b.message_count svp_time;
  }

-- The builder and the records after the call, and the span that is returned.
abbrev pub SpanResult : Type 0
SpanResult = (DltMessageBuilder × (ℕ → LogEntry)) × Option (List ℕ)

unfoldable pub next_span : ParsingPhase → ℕ → (ℕ → LogEntry) → DltMessageBuilder → SpanResult
next_span header slot store b =
    ((record b { parsing_phase = payload }, store), some b.header_payload)
next_span payload slot store b =
    ((record b { parsing_phase = reinitialize }, store), some (store slot).payload)
next_span reinitialize slot store b = (
  (
    record b { parsing_phase = header; header_payload = []; log_record = none },
    set_at slot (record (store slot) { payload = [] }) store,
  ),
  none,
)

unfoldable pub get_next_span : (ℕ → LogEntry) → DltMessageBuilder → SpanResult
get_next_span store b = elim b.log_record [
  | none ↦ ((b, store), none)
  | some slot ↦ next_span b.parsing_phase slot store b
]

-- A reader that takes spans until there is none, at most `fuel` of them.
unfoldable pub drain_spans :
    ℕ → (ℕ → LogEntry) → DltMessageBuilder → (DltMessageBuilder × (ℕ → LogEntry)) × List ℕ
drain_spans zero store b = ((b, store), [])
drain_spans (suc fuel) store b =
    let ((c, store'), span) = get_next_span store b in
    let ((d, store''), bytes) = drain_spans fuel store' c in
    elim span [ none ↦ ((c, store'), []) | some s ↦ ((d, store''), s ++ bytes) ]
