-- ===== src/DltFormat/Arguments.antt =====
-- dlt_format.cpp: `TypeInfo`, `LogData` and the overloads of `Log` for Booleans, numbers and raw
-- buffers and strings. `SetBit` and `CheckBit` are not code of this repository. A value in memory is
-- a number that holds its bits (two's complement, or the format of a float), least byte first.
use logging.Prelude.{
  ℕ, zero, suc, ◌+◌, ◌-◌, ◌*◌, ◌/◌, ◌%◌, ◌^◌, min, Bool, not, ◌&&◌, ◌||◌, Option, none, some, List,
  [], ◌∷◌, ltb, leb, ◌==◌, if◌then◌else◌, length, take,
}
use logging.Queue.Bytes.{to_bytes}
use logging.DltFormat.Payload.{
  clamp_add_null_terminator, max_u16, store, k_not_added, clamp_to, VerbosePayload,
  AddArgumentResult,
}

-- `std::uint32_t` with the bits that are set in one of two.
unfoldable pub bit_or : ℕ → ℕ → ℕ → ℕ
bit_or zero a b = 0
bit_or (suc w) a b = (if (a % 2 == 0) && (b % 2 == 0) then 0 else 1) + 2 * bit_or w (a / 2) (b / 2)

abbrev type_bool_bit : ℕ
type_bool_bit = 4

abbrev pub type_signed_bit : ℕ
type_signed_bit = 5

abbrev pub type_unsigned_bit : ℕ
type_unsigned_bit = 6

abbrev type_float_bit : ℕ
type_float_bit = 7

abbrev pub type_string_bit : ℕ
type_string_bit = 9

abbrev pub type_raw_bit : ℕ
type_raw_bit = 10

abbrev trace_info_bit : ℕ
trace_info_bit = 13

pub data TypeLength : Type 0 where
  k_8_bit k_16_bit k_32_bit k_64_bit : TypeLength

abbrev pub length_code : TypeLength → ℕ
length_code k_8_bit = 1
length_code k_16_bit = 2
length_code k_32_bit = 3
length_code k_64_bit = 4

-- The numbers that `Log` takes: the overloads for integers, hexadecimal and binary wrappers.
pub data Integer : Type 0 where
  uint8 uint16 uint32 uint64 int8 int16 int32 int64 : Integer
  log_hex8 log_hex16 log_hex32 log_hex64 log_bin8 log_bin16 log_bin32 log_bin64 : Integer

unfoldable pub type_bit : Integer → ℕ
type_bit int8 = type_signed_bit
type_bit int16 = type_signed_bit
type_bit int32 = type_signed_bit
type_bit int64 = type_signed_bit
type_bit _ = type_unsigned_bit

unfoldable pub type_length : Integer → TypeLength
type_length uint8 = k_8_bit
type_length uint16 = k_16_bit
type_length uint32 = k_32_bit
type_length uint64 = k_64_bit
type_length int8 = k_8_bit
type_length int16 = k_16_bit
type_length int32 = k_32_bit
type_length int64 = k_64_bit
type_length log_hex8 = k_8_bit
type_length log_hex16 = k_16_bit
type_length log_hex32 = k_32_bit
type_length log_hex64 = k_64_bit
type_length log_bin8 = k_8_bit
type_length log_bin16 = k_16_bit
type_length log_bin32 = k_32_bit
type_length log_bin64 = k_64_bit

-- `sizeof` of a number of that length.
abbrev pub size_of : TypeLength → ℕ
size_of k_8_bit = 1
size_of k_16_bit = 2
size_of k_32_bit = 4
size_of k_64_bit = 8

abbrev pub header_size : ℕ
header_size = 4 + 2

-- The two functions of score/platform that `TypeInfo` calls.
pub record BitFunctions : Type 0 where
  pub set_bit : ℕ → ℕ → ℕ
  pub check_bit : ℕ → ℕ → Bool

module _ (bits : BitFunctions) where
  abbrev type_info : ℕ → ℕ
  type_info type_ = bits.set_bit 0 type_

  abbrev set_length : TypeLength → ℕ → Option ℕ
  set_length l underlying_type = some (bit_or 32 underlying_type (length_code l))

  -- The encoding of strings: `kUTF8` is 1.
  unfoldable pub set_encoding : ℕ → ℕ → Option ℕ
  set_encoding encoding underlying_type =
      if not (
        bits.check_bit underlying_type type_string_bit
        || bits.check_bit underlying_type trace_info_bit)
      then none
      else some (bit_or 32 underlying_type (encoding * 2 ^ 15))

  unfoldable pub set_representation : ℕ → ℕ → Option ℕ
  set_representation encoding underlying_type =
      if not (
        bits.check_bit underlying_type type_unsigned_bit
        || bits.check_bit underlying_type type_signed_bit)
      then none
      else some (bit_or 32 underlying_type (encoding * 2 ^ 15))

  module _ {P : Type 0} (ops : VerbosePayload P) where
    unfoldable pub log_data : P → ℕ → ℕ → ℕ → TypeLength → P × AddArgumentResult
    log_data payload data_ repr type_ l = elim (set_length l (type_info type_)) [
      | none ↦ (payload, k_not_added)
      | some info ↦ elim (set_representation repr info) [
        | none ↦ (payload, k_not_added)
        | some info' ↦ store ops payload (to_bytes 4 info' ∷ to_bytes (size_of l) data_ ∷ [])
      ]
    ]

    unfoldable pub log_integer : Integer → P → ℕ → ℕ → P × AddArgumentResult
    log_integer kind payload data_ repr =
        log_data payload data_ repr (type_bit kind) (type_length kind)

    unfoldable pub log_bool : P → Bool → P × AddArgumentResult
    log_bool payload data_ = elim (set_length k_8_bit (type_info type_bool_bit)) [
      | none ↦ (payload, k_not_added)
      | some info ↦ store ops payload (to_bytes 4 info ∷ to_bytes 1 (if data_ then 1 else 0) ∷ [])
    ]

    unfoldable pub log_float : P → ℕ → P × AddArgumentResult
    log_float payload data_ = elim (set_length k_32_bit (type_info type_float_bit)) [
      | none ↦ (payload, k_not_added)
      | some info ↦ store ops payload (to_bytes 4 info ∷ to_bytes 4 data_ ∷ [])
    ]

    unfoldable pub log_double : P → ℕ → P × AddArgumentResult
    log_double payload data_ = elim (set_length k_64_bit (type_info type_float_bit)) [
      | none ↦ (payload, k_not_added)
      | some info ↦ store ops payload (to_bytes 4 info ∷ to_bytes 8 data_ ∷ [])
    ]

    unfoldable pub try_store : P → ℕ → ℕ → List ℕ → P × AddArgumentResult
    try_store payload info max_string_len_incl_null data_ =
        let max_string_len =
          if ltb 0 max_string_len_incl_null then max_string_len_incl_null - 1 else 0 in
        let cropped_length_size =
          if ltb max_string_len (length data_) then max_string_len else length data_ in
        let length_cropped = clamp_to max_u16 cropped_length_size in
        let length_incl_null = clamp_add_null_terminator length_cropped in
        store ops payload (
          to_bytes 4 info ∷ to_bytes 2 length_incl_null ∷ take length_cropped data_ ∷ (0 ∷ []) ∷ [])

    unfoldable pub log_string : P → List ℕ → P × AddArgumentResult
    log_string payload data_ = elim (set_encoding 1 (type_info type_string_bit)) [
      | none ↦ (payload, k_not_added)
      | some info ↦
          if leb (ops.remaining_capacity payload) header_size
          then (payload, k_not_added)
          else (let capacity_after_header = ops.remaining_capacity payload - header_size in
              try_store payload info (min capacity_after_header max_u16) data_)
    ]

    unfoldable pub log_raw_buffer : P → List ℕ → P × AddArgumentResult
    log_raw_buffer payload data_ =
        if leb (ops.remaining_capacity payload) header_size
        then (payload, k_not_added)
        else (let max_length = clamp_to max_u16 (ops.remaining_capacity payload - header_size) in
            let length_cropped =
              if ltb max_length (length data_) then max_length else length data_ in
            store ops payload (
              to_bytes 4 (type_info type_raw_bit)
              ∷ to_bytes 2 length_cropped
              ∷ take length_cropped data_
              ∷ []))
