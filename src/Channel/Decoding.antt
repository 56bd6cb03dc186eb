-- ===== src/Channel/Decoding.antt =====
-- A receiver of DLT messages, which reads the fields in the order and the byte order that the DLT
-- protocol gives them, and the round trips of dlt_headers.h through it.
use logging.Prelude.{
  ℕ, ◌+◌, ◌*◌, ◌/◌, ◌%◌, ◌<◌, min, ◌≡◌, refl, ◌∙◌, Bool, true, List, [], ◌∷◌, arith, ◌==◌, length,
  get_or, take, drop, take_all, u32_mod, u16_mod,
}
use logging.Queue.Bytes.{to_bytes, of_bytes}
use logging.DltServer.Ids.{DltidT, dltid}
use logging.Channel.Headers.{
  verbose_header_size, LogEntry, construct_dlt_extended_header, verbose_header,
  construct_verbose_header, construct_verbose_packet, nv_header_size, swap32, swap16, id_bytes,
  construct_dlt_standard_header_extra, construct_dlt_standard_header, construct_non_verbose_header,
  construct_non_verbose_packet,
}

-- A number with the most significant byte first.
abbrev of_be : ℕ → List ℕ → ℕ
of_be acc [] = acc
of_be acc (b ∷ bs) = of_be (acc * 256 + b) bs

abbrev pub field : List ℕ → ℕ → ℕ → List ℕ
field message offset size = take size (drop offset message)

pub record Decoded : Type 0 where
  pub htyp : ℕ
  pub mcnt : ℕ
  pub len : ℕ
  pub ecu : DltidT
  pub tmsp : ℕ

unfoldable pub decode_header : List ℕ → Decoded
unfolding dltid
decode_header message = record {
  htyp = get_or message 0 0;
  mcnt = get_or message 1 0;
  len = of_be 0 (field message 2 2);
  ecu = dltid (field message 4 4);
  tmsp = of_be 0 (field message 8 4);
}

-- The identifier of a non-verbose message is in the sender's byte order.
unfoldable pub decode_msgid : List ℕ → ℕ
unfolding of_bytes
decode_msgid message = of_bytes (field message 12 4)

pub record DecodedExtension : Type 0 where
  pub level : ℕ
  pub is_verbose : Bool
  pub noar : ℕ
  pub apid : DltidT
  pub ctid : DltidT

unfoldable pub decode_extension : List ℕ → DecodedExtension
unfolding dltid
decode_extension message = record {
  level = get_or message 12 0 / 16;
  is_verbose = get_or message 12 0 % 2 == 1;
  noar = get_or message 13 0;
  apid = dltid (field message 14 4);
  ctid = dltid (field message 18 4);
}

pub swap16_be : (v : ℕ) → v < u16_mod → of_be 0 (to_bytes 2 (swap16 v)) ≡ v
unfolding to_bytes swap16
swap16_be v h = omega arith

pub swap32_be : (v : ℕ) → v < u32_mod → of_be 0 (to_bytes 4 (swap32 v)) ≡ v
unfolding to_bytes swap32
swap32_be v h = omega arith

pub to_bytes4 : (v : ℕ) → v < u32_mod → of_bytes (to_bytes 4 v) ≡ v
unfolding to_bytes of_bytes
to_bytes4 v h = omega arith

-- The header and the data of a non-verbose message of fewer than 65536 bytes are read back.
pub decode-construct_non_verbose_packet :
    (data_ : List ℕ) (msgid : ℕ) (ecu : DltidT) (mcnt tmsp : ℕ)
    → nv_header_size + length data_ < u16_mod
    → msgid < u32_mod
    → tmsp < u32_mod
    → let packet = construct_non_verbose_packet data_ msgid ecu mcnt tmsp in
      (decode_header packet ≡ record {
        htyp = 52;
        mcnt = mcnt;
        len = nv_header_size + length data_;
        ecu = ecu;
        tmsp = tmsp;
      })
      × (decode_msgid packet ≡ msgid)
      × (drop nv_header_size packet ≡ data_)
unfolding construct_non_verbose_packet construct_non_verbose_header construct_dlt_standard_header
    construct_dlt_standard_header_extra id_bytes decode_header decode_msgid to_bytes of_bytes swap16
    swap32 dltid
decode-construct_non_verbose_packet data_ msgid ecu mcnt tmsp h hm ht =
    (header_eq (swap16_be (16 + length data_) h) (swap32_be tmsp ht), to_bytes4 msgid hm, refl)
  where
    header_eq :
        {l l' t t' : ℕ}
        → l ≡ l'
        → t ≡ t'
        → ◌≡◌ {A = Decoded}
            (record { htyp = 52; mcnt = mcnt; len = l; ecu = ecu; tmsp = t })
            (record { htyp = 52; mcnt = mcnt; len = l'; ecu = ecu; tmsp = t' })
    header_eq e f = cc

-- The header, the extended header and the payload of a verbose message whose payload fits are read
-- back.
pub decode-construct_verbose_packet :
    (entry : LogEntry) (ecu : DltidT) (mcnt tmsp : ℕ)
    → verbose_header_size + length entry.payload < u16_mod
    → entry.log_level < 16
    → tmsp < u32_mod
    → let packet = construct_verbose_packet entry ecu mcnt tmsp in
      (decode_header packet ≡ record {
        htyp = 53;
        mcnt = mcnt;
        len = verbose_header_size + length entry.payload;
        ecu = ecu;
        tmsp = tmsp;
      })
      × (decode_extension packet ≡ record {
        level = entry.log_level;
        is_verbose = true;
        noar = entry.num_of_args;
        apid = entry.app_id;
        ctid = entry.ctx_id;
      })
      × (drop verbose_header_size packet ≡ entry.payload)
unfolding construct_verbose_packet construct_verbose_header verbose_header
    construct_dlt_standard_header construct_dlt_standard_header_extra construct_dlt_extended_header
    id_bytes decode_header decode_extension to_bytes swap16 swap32 dltid
decode-construct_verbose_packet entry ecu mcnt tmsp h hl ht = (
  header_eq
      (swap16_be (22 + min (length entry.payload % 4294967296) 65514) (omega arith) ∙ omega arith)
      (swap32_be tmsp ht),
  extension_eq (omega arith) (ground arith),
  take_all (min (length entry.payload) 65514) entry.payload (omega arith),
)
  where
    header_eq :
        {l l' t t' : ℕ}
        → l ≡ l'
        → t ≡ t'
        → ◌≡◌ {A = Decoded}
            (record { htyp = 53; mcnt = mcnt; len = l; ecu = ecu; tmsp = t })
            (record { htyp = 53; mcnt = mcnt; len = l'; ecu = ecu; tmsp = t' })
    header_eq e f = cc

    extension_eq :
        {l l' : ℕ} {b b' : Bool}
        → l ≡ l'
        → b ≡ b'
        → ◌≡◌ {A = DecodedExtension}
            (record {
              level = l;
              is_verbose = b;
              noar = entry.num_of_args;
              apid = entry.app_id;
              ctid = entry.ctx_id;
            })
            (record {
              level = l';
              is_verbose = b';
              noar = entry.num_of_args;
              apid = entry.app_id;
              ctid = entry.ctx_id;
            })
    extension_eq e f = cc
