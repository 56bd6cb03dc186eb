-- ===== src/DltFormat/TypeInformation.antt =====
-- The type information that the protocol gives for the numbers, and that `TypeInfo` makes of it.
use logging.Prelude.{ℕ, zero, suc, ◌+◌, ◌*◌, ◌/◌, ◌%◌, ◌^◌, ◌<◌, ◌≡◌, refl, true, not, arith, ◌==◌}
use logging.DltFormat.Arguments.{
  BitFunctions, size_of, Integer, type_bit, type_length, length_code, bit_or, uint8, uint16, uint32,
  uint64, int8, int16, int32, int64, log_hex8, log_hex16, log_hex32, log_hex64, log_bin8, log_bin16,
  log_bin32, log_bin64,
}

-- The type information of a number before its representation is set.
abbrev pub plain_info : BitFunctions → Integer → ℕ
plain_info bits kind = bit_or 32 (bits.set_bit 0 (type_bit kind)) (length_code (type_length kind))

-- The size of a number in bytes.
abbrev pub number_size : Integer → ℕ
number_size uint8 = 1
number_size uint16 = 2
number_size uint32 = 4
number_size uint64 = 8
number_size int8 = 1
number_size int16 = 2
number_size int32 = 4
number_size int64 = 8
number_size log_hex8 = 1
number_size log_hex16 = 2
number_size log_hex32 = 4
number_size log_hex64 = 8
number_size log_bin8 = 1
number_size log_bin16 = 2
number_size log_bin32 = 4
number_size log_bin64 = 8

-- The type information of the protocol without the representation, which is in the bits from 15 on:
-- 32 stands for a signed and 64 for an unsigned number, and 1 to 4 for 8 to 64 bits.
abbrev pub protocol_info : Integer → ℕ
protocol_info uint8 = 65
protocol_info uint16 = 66
protocol_info uint32 = 67
protocol_info uint64 = 68
protocol_info int8 = 33
protocol_info int16 = 34
protocol_info int32 = 35
protocol_info int64 = 36
protocol_info log_hex8 = 65
protocol_info log_hex16 = 66
protocol_info log_hex32 = 67
protocol_info log_hex64 = 68
protocol_info log_bin8 = 65
protocol_info log_bin16 = 66
protocol_info log_bin32 = 67
protocol_info log_bin64 = 68

-- What the two functions on bits are documented to do, where the code calls them.
pub record BitLaws (bits : BitFunctions) : Type 0 where
  pub set_bit_lem : (n : ℕ) → n < 32 → bits.set_bit 0 n ≡ 2 ^ n
  pub check_bit_lem : (v n : ℕ) → n < 32 → bits.check_bit v n ≡ not (v / 2 ^ n % 2 == 0)

pub size_of-number_size : (kind : Integer) → size_of (type_length kind) ≡ number_size kind
unfolding type_length
size_of-number_size uint8 = refl
size_of-number_size uint16 = refl
size_of-number_size uint32 = refl
size_of-number_size uint64 = refl
size_of-number_size int8 = refl
size_of-number_size int16 = refl
size_of-number_size int32 = refl
size_of-number_size int64 = refl
size_of-number_size log_hex8 = refl
size_of-number_size log_hex16 = refl
size_of-number_size log_hex32 = refl
size_of-number_size log_hex64 = refl
size_of-number_size log_bin8 = refl
size_of-number_size log_bin16 = refl
size_of-number_size log_bin32 = refl
size_of-number_size log_bin64 = refl

pub plain_info-protocol_info :
    (bits : BitFunctions) (laws : BitLaws bits) (kind : Integer)
    → (plain_info bits kind ≡ protocol_info kind)
      × (bits.check_bit (plain_info bits kind) (type_bit kind) ≡ true)
unfolding type_length type_bit bit_or
plain_info-protocol_info bits laws uint8 = (
  rw (laws.set_bit_lem 6 (omega arith)) refl,
  rw (laws.set_bit_lem 6 (omega arith), laws.check_bit_lem 65 6 (omega arith)) refl,
)
plain_info-protocol_info bits laws uint16 = (
  rw (laws.set_bit_lem 6 (omega arith)) refl,
  rw (laws.set_bit_lem 6 (omega arith), laws.check_bit_lem 66 6 (omega arith)) refl,
)
plain_info-protocol_info bits laws uint32 = (
  rw (laws.set_bit_lem 6 (omega arith)) refl,
  rw (laws.set_bit_lem 6 (omega arith), laws.check_bit_lem 67 6 (omega arith)) refl,
)
plain_info-protocol_info bits laws uint64 = (
  rw (laws.set_bit_lem 6 (omega arith)) refl,
  rw (laws.set_bit_lem 6 (omega arith), laws.check_bit_lem 68 6 (omega arith)) refl,
)
plain_info-protocol_info bits laws int8 = (
  rw (laws.set_bit_lem 5 (omega arith)) refl,
  rw (laws.set_bit_lem 5 (omega arith), laws.check_bit_lem 33 5 (omega arith)) refl,
)
plain_info-protocol_info bits laws int16 = (
  rw (laws.set_bit_lem 5 (omega arith)) refl,
  rw (laws.set_bit_lem 5 (omega arith), laws.check_bit_lem 34 5 (omega arith)) refl,
)
plain_info-protocol_info bits laws int32 = (
  rw (laws.set_bit_lem 5 (omega arith)) refl,
  rw (laws.set_bit_lem 5 (omega arith), laws.check_bit_lem 35 5 (omega arith)) refl,
)
plain_info-protocol_info bits laws int64 = (
  rw (laws.set_bit_lem 5 (omega arith)) refl,
  rw (laws.set_bit_lem 5 (omega arith), laws.check_bit_lem 36 5 (omega arith)) refl,
)
plain_info-protocol_info bits laws log_hex8 = (
  rw (laws.set_bit_lem 6 (omega arith)) refl,
  rw (laws.set_bit_lem 6 (omega arith), laws.check_bit_lem 65 6 (omega arith)) refl,
)
plain_info-protocol_info bits laws log_hex16 = (
  rw (laws.set_bit_lem 6 (omega arith)) refl,
  rw (laws.set_bit_lem 6 (omega arith), laws.check_bit_lem 66 6 (omega arith)) refl,
)
plain_info-protocol_info bits laws log_hex32 = (
  rw (laws.set_bit_lem 6 (omega arith)) refl,
  rw (laws.set_bit_lem 6 (omega arith), laws.check_bit_lem 67 6 (omega arith)) refl,
)
plain_info-protocol_info bits laws log_hex64 = (
  rw (laws.set_bit_lem 6 (omega arith)) refl,
  rw (laws.set_bit_lem 6 (omega arith), laws.check_bit_lem 68 6 (omega arith)) refl,
)
plain_info-protocol_info bits laws log_bin8 = (
  rw (laws.set_bit_lem 6 (omega arith)) refl,
  rw (laws.set_bit_lem 6 (omega arith), laws.check_bit_lem 65 6 (omega arith)) refl,
)
plain_info-protocol_info bits laws log_bin16 = (
  rw (laws.set_bit_lem 6 (omega arith)) refl,
  rw (laws.set_bit_lem 6 (omega arith), laws.check_bit_lem 66 6 (omega arith)) refl,
)
plain_info-protocol_info bits laws log_bin32 = (
  rw (laws.set_bit_lem 6 (omega arith)) refl,
  rw (laws.set_bit_lem 6 (omega arith), laws.check_bit_lem 67 6 (omega arith)) refl,
)
plain_info-protocol_info bits laws log_bin64 = (
  rw (laws.set_bit_lem 6 (omega arith)) refl,
  rw (laws.set_bit_lem 6 (omega arith), laws.check_bit_lem 68 6 (omega arith)) refl,
)

pub bits_apart :
    (info repr : ℕ)
    → bit_or 32 info (0 * 2 ^ 15) ≡ info + 32768 * 0
    → bit_or 32 info (1 * 2 ^ 15) ≡ info + 32768 * 1
    → bit_or 32 info (2 * 2 ^ 15) ≡ info + 32768 * 2
    → bit_or 32 info (3 * 2 ^ 15) ≡ info + 32768 * 3
    → repr < 4
    → bit_or 32 info (repr * 2 ^ 15) ≡ info + 32768 * repr
bits_apart info zero a b c d h = a
bits_apart info (suc zero) a b c d h = b
bits_apart info (suc (suc zero)) a b c d h = c
bits_apart info (suc (suc (suc zero))) a b c d h = d
bits_apart info (suc (suc (suc (suc n)))) a b c d h = absurd (omega arith)

-- The bits of the representation are apart from those of the others.
pub bit_or-protocol_info :
    (kind : Integer) (repr : ℕ)
    → repr < 4
    → bit_or 32 (protocol_info kind) (repr * 2 ^ 15) ≡ protocol_info kind + 32768 * repr
unfolding bit_or
bit_or-protocol_info uint8 repr h = bits_apart 65 repr refl refl refl refl h
bit_or-protocol_info uint16 repr h = bits_apart 66 repr refl refl refl refl h
bit_or-protocol_info uint32 repr h = bits_apart 67 repr refl refl refl refl h
bit_or-protocol_info uint64 repr h = bits_apart 68 repr refl refl refl refl h
bit_or-protocol_info int8 repr h = bits_apart 33 repr refl refl refl refl h
bit_or-protocol_info int16 repr h = bits_apart 34 repr refl refl refl refl h
bit_or-protocol_info int32 repr h = bits_apart 35 repr refl refl refl refl h
bit_or-protocol_info int64 repr h = bits_apart 36 repr refl refl refl refl h
bit_or-protocol_info log_hex8 repr h = bits_apart 65 repr refl refl refl refl h
bit_or-protocol_info log_hex16 repr h = bits_apart 66 repr refl refl refl refl h
bit_or-protocol_info log_hex32 repr h = bits_apart 67 repr refl refl refl refl h
bit_or-protocol_info log_hex64 repr h = bits_apart 68 repr refl refl refl refl h
bit_or-protocol_info log_bin8 repr h = bits_apart 65 repr refl refl refl refl h
bit_or-protocol_info log_bin16 repr h = bits_apart 66 repr refl refl refl refl h
bit_or-protocol_info log_bin32 repr h = bits_apart 67 repr refl refl refl refl h
bit_or-protocol_info log_bin64 repr h = bits_apart 68 repr refl refl refl refl h
