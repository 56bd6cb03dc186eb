-- ===== src/Channel/Headers.antt =====
-- dlt_headers.h, with the structures and the byte order macros of dlt_common.h: the object
-- representation of each packed header, on a little-endian target.
use logging.Prelude.{
  ℕ, ◌+◌, ◌-◌, ◌*◌, ◌/◌, ◌%◌, ◌≤◌, min, ◌≡◌, refl, ap, Bool, true, false, List, [], ◌∷◌, ◌++◌,
  arith, if◌then◌else◌, length, take, take_all, u32_mod,
}
use logging.Queue.Bytes.{to_bytes}
use logging.DltServer.Ids.{DltidT}

-- `DLT_SWAP_16`; the two masked bytes do not overlap, so that `|` is a sum.
unfoldable pub swap16 : ℕ → ℕ
swap16 value = value / 256 % 256 + 256 * (value % 256)

-- `DLT_SWAP_32`
unfoldable pub swap32 : ℕ → ℕ
swap32 value =
    value / 16777216 % 256
    + 65536 * (value / 256 % 256)
    + 256 * (value / 65536 % 256)
    + 16777216 * (value % 256)

-- `char[DLT_ID_SIZE]` with the bytes of `DltidT::Data`
unfoldable pub id_bytes : DltidT → List ℕ
id_bytes d = d.byte0 ∷ d.byte1 ∷ d.byte2 ∷ d.byte3 ∷ []

abbrev pub htyp_weid_wtms_vers : ℕ
htyp_weid_wtms_vers = 4 + 16 + 32

-- `DltStandardHeader`: `htyp`, `mcnt`, `len`
unfoldable pub construct_dlt_standard_header : ℕ → ℕ → Bool → List ℕ
unfolding swap16
construct_dlt_standard_header msg_size mcnt useextheader =
    (if useextheader then htyp_weid_wtms_vers + 1 else htyp_weid_wtms_vers)
    ∷ mcnt
    ∷ to_bytes 2 (swap16 msg_size)

-- `DltStandardHeaderExtra`: `ecu`, `tmsp`
unfoldable pub construct_dlt_standard_header_extra : DltidT → ℕ → List ℕ
construct_dlt_standard_header_extra ecu tmsp = id_bytes ecu ++ to_bytes 4 (swap32 tmsp)

-- `DltExtendedHeader`: `msin`, `noar`, `apid`, `ctid`. The message type is `DLT_TYPE_LOG`, which
-- is zero, and the bits of the level stand above the verbose bit.
unfoldable pub construct_dlt_extended_header : ℕ → ℕ → DltidT → DltidT → List ℕ
construct_dlt_extended_header loglevel nor app_id ctx_id =
    (loglevel * 16 + 1) % 256 ∷ nor ∷ (id_bytes app_id ++ id_bytes ctx_id)

-- `sizeof(DltNvHeaderWithMsgid)` and `sizeof(DltVerboseHeader)`
abbrev pub nv_header_size : ℕ
nv_header_size = 4 + 8 + 4

abbrev pub verbose_header_size : ℕ
verbose_header_size = 4 + 8 + 10

abbrev pub dlt_message_size : ℕ
dlt_message_size = 65536

-- The members of `LogEntryDeserializationReflection`
pub record LogEntry : Type 0 where
  pub app_id : DltidT
  pub ctx_id : DltidT
  pub payload : List ℕ
  pub num_of_args : ℕ
  pub log_level : ℕ

-- The three parts of `DltVerboseHeader`.
unfoldable pub verbose_header : ℕ → LogEntry → DltidT → ℕ → ℕ → List ℕ
verbose_header msg_size entry ecu mcnt tmsp =
    construct_dlt_standard_header msg_size mcnt true
    ++ (construct_dlt_standard_header_extra ecu tmsp
        ++ construct_dlt_extended_header entry.log_level entry.num_of_args entry.app_id
            entry.ctx_id)

unfoldable pub construct_verbose_header : LogEntry → DltidT → ℕ → ℕ → List ℕ
construct_verbose_header entry ecu mcnt tmsp =
    let payload_size =
      min (length entry.payload % u32_mod) (dlt_message_size - verbose_header_size) in
    verbose_header (verbose_header_size + payload_size) entry ecu mcnt tmsp

unfoldable pub construct_verbose_packet : LogEntry → DltidT → ℕ → ℕ → List ℕ
construct_verbose_packet entry ecu mcnt tmsp =
    let size = min (length entry.payload) (dlt_message_size - verbose_header_size) in
    construct_verbose_header entry ecu mcnt tmsp ++ take size entry.payload

unfoldable pub construct_non_verbose_header : ℕ → ℕ → DltidT → ℕ → ℕ → List ℕ
construct_non_verbose_header size msgid ecu mcnt tmsp =
    construct_dlt_standard_header (nv_header_size + size) mcnt false
    ++ (construct_dlt_standard_header_extra ecu tmsp ++ to_bytes 4 msgid)

unfoldable pub construct_non_verbose_packet : List ℕ → ℕ → DltidT → ℕ → ℕ → List ℕ
construct_non_verbose_packet data_ msgid ecu mcnt tmsp =
    construct_non_verbose_header (length data_) msgid ecu mcnt tmsp ++ data_

-- `DltStorageHeader`: the pattern, the seconds, the microseconds and the ECU of a stored message.
-- The microseconds are a 32-bit pattern.
unfoldable pub construct_dlt_storage_header : ℕ → ℕ → List ℕ
construct_dlt_storage_header secs microsecs =
    (68 ∷ 76 ∷ 84 ∷ 1 ∷ [])
    ++ (to_bytes 4 secs ++ (to_bytes 4 microsecs ++ (69 ∷ 67 ∷ 85 ∷ 0 ∷ [])))

abbrev pub storage_header_size : ℕ
storage_header_size = 4 + 4 + 4 + 4

unfoldable pub construct_storage_verbose_packet : LogEntry → DltidT → ℕ → ℕ → ℕ → ℕ → List ℕ
construct_storage_verbose_packet entry ecu mcnt tmsp secs microsecs =
    let size =
      min (length entry.payload) (dlt_message_size - (storage_header_size + verbose_header_size)) in
    construct_dlt_storage_header secs microsecs
    ++ (verbose_header (verbose_header_size + size) entry ecu mcnt tmsp ++ take size entry.payload)

pub length-construct_non_verbose_packet :
    (data_ : List ℕ) (msgid : ℕ) (ecu : DltidT) (mcnt tmsp : ℕ)
    → length (construct_non_verbose_packet data_ msgid ecu mcnt tmsp)
      ≡ nv_header_size + length data_
unfolding construct_non_verbose_packet construct_non_verbose_header construct_dlt_standard_header
    construct_dlt_standard_header_extra id_bytes to_bytes
length-construct_non_verbose_packet data_ msgid ecu mcnt tmsp = omega arith

pub length-verbose_header :
    (msg_size : ℕ) (entry : LogEntry) (ecu : DltidT) (mcnt tmsp : ℕ)
    → length (verbose_header msg_size entry ecu mcnt tmsp) ≡ verbose_header_size
unfolding verbose_header construct_dlt_standard_header construct_dlt_standard_header_extra
    construct_dlt_extended_header id_bytes to_bytes
length-verbose_header msg_size entry ecu mcnt tmsp = refl

pub length-construct_verbose_header :
    (entry : LogEntry) (ecu : DltidT) (mcnt tmsp : ℕ)
    → length (construct_verbose_header entry ecu mcnt tmsp) ≡ verbose_header_size
unfolding construct_verbose_header
length-construct_verbose_header entry ecu mcnt tmsp = length-verbose_header _ entry ecu mcnt tmsp

-- A payload that fits a DLT message is not cut.
pub construct_verbose_packet_whole :
    (entry : LogEntry) (ecu : DltidT) (mcnt tmsp : ℕ)
    → length entry.payload + verbose_header_size ≤ dlt_message_size
    → construct_verbose_packet entry ecu mcnt tmsp
      ≡ construct_verbose_header entry ecu mcnt tmsp ++ entry.payload
unfolding construct_verbose_packet
construct_verbose_packet_whole entry ecu mcnt tmsp h =
    ap (λ p. construct_verbose_header entry ecu mcnt tmsp ++ p)
      (take_all (min (length entry.payload) (dlt_message_size - verbose_header_size)) entry.payload
        (omega arith))
