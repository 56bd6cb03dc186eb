-- ===== src/FileTransfer/Arguments.antt =====
-- The packages as lists of DLT arguments, each a type info and a value.
use logging.Prelude.{
  ℕ, ◌+◌, ◌-◌, ◌%◌, ◌≤◌, ◌<◌, ◌≡◌, refl, List, [], ◌∷◌, ◌++◌, arith, length, length-append, u16_mod,
}
use logging.Queue.Bytes.{to_bytes, write_at}
use logging.FileTransfer.Packages.{
  Writer, copy, strg_utf8, uint_32bit, uint_16bit, sint_16bit, rawd, copy_flag, copy_uint32,
  copy_uint16, copy_string, copy_error,
}

pub data Argument : Type 0 where
  flag : List ℕ → Argument
  uint32 : ℕ → Argument
  uint16 : ℕ → Argument
  text : List ℕ → Argument
  code : ℕ → Argument
  linux_code : ℕ → Argument
  raw : List ℕ → Argument

unfoldable pub encode : Argument → List ℕ
encode (flag f) = to_bytes 4 strg_utf8 ++ (to_bytes 2 5 ++ f)
encode (uint32 v) = to_bytes 4 uint_32bit ++ to_bytes 4 v
encode (uint16 v) = to_bytes 4 uint_16bit ++ to_bytes 2 v
encode (text chars) =
    to_bytes 4 strg_utf8 ++ (to_bytes 2 ((length chars + 1) % u16_mod) ++ (chars ++ (0 ∷ [])))
encode (code v) = to_bytes 4 sint_16bit ++ to_bytes 2 v
encode (linux_code v) = to_bytes 4 sint_16bit ++ to_bytes 2 v
encode (raw bytes) = to_bytes 4 rawd ++ (to_bytes 2 (length bytes) ++ bytes)

unfoldable pub encode_all : List Argument → List ℕ
encode_all [] = []
encode_all (a ∷ rest) = encode a ++ encode_all rest

-- A flag is four characters and a zero, and `errno` fits in 16 bits.
abbrev pub IsRegular : Argument → Type 0
IsRegular (flag f) = length f ≡ 5
IsRegular (uint32 v) = Unit
IsRegular (uint16 v) = Unit
IsRegular (text chars) = Unit
IsRegular (code v) = Unit
IsRegular (linux_code v) = v < u16_mod
IsRegular (raw bytes) = Unit

abbrev pub AreRegular : List Argument → Type 0
AreRegular [] = Unit
AreRegular (a ∷ rest) = IsRegular a × AreRegular rest

unfoldable pub count_raw : List ℕ → Writer → Writer
count_raw bytes w =
    let filled = record w { buffer = write_at w.buffer (w.buffersize + 2) bytes } in
    let counted = copy (to_bytes 2 (length bytes)) 2 filled in
    record counted { buffersize = counted.buffersize + length bytes }

unfoldable pub copy_raw : List ℕ → Writer → Writer
copy_raw bytes w = let typed = copy (to_bytes 4 rawd) 4 w in count_raw bytes typed

unfoldable pub copy_argument : Argument → Writer → Writer
copy_argument (flag f) = copy_flag f
copy_argument (uint32 v) = copy_uint32 v
copy_argument (uint16 v) = copy_uint16 v
copy_argument (text chars) = copy_string chars
copy_argument (code v) = copy_error 2 v
copy_argument (linux_code v) = copy_error 4 v
copy_argument (raw bytes) = copy_raw bytes

unfoldable pub copy_all : List Argument → Writer → Writer
copy_all [] w = w
copy_all (a ∷ rest) w = copy_all rest (copy_argument a w)

abbrev pub size_of : Argument → ℕ
size_of (flag f) = 11
size_of (uint32 v) = 8
size_of (uint16 v) = 6
size_of (text chars) = 7 + length chars
size_of (code v) = 6
size_of (linux_code v) = 6
size_of (raw bytes) = 6 + length bytes

pub length-encode : (a : Argument) → IsRegular a → length (encode a) ≡ size_of a
unfolding encode to_bytes
length-encode (flag f) r = omega (arith, r)
length-encode (uint32 v) r = refl
length-encode (uint16 v) r = refl
length-encode (text chars) r = omega (arith, length-append chars (0 ∷ []))
length-encode (code v) r = refl
length-encode (linux_code v) r = refl
length-encode (raw bytes) r = omega arith

abbrev pub size_of_all : List Argument → ℕ
size_of_all [] = 0
size_of_all (a ∷ rest) = size_of a + size_of_all rest

pub length-encode_all :
    (args : List Argument) → AreRegular args → length (encode_all args) ≡ size_of_all args
unfolding encode_all
length-encode_all [] r = refl
length-encode_all (a ∷ rest) (r, rs) = omega (
  arith,
  length-append (encode a) (encode_all rest),
  length-encode a r,
  length-encode_all rest rs,
)

-- How many bytes the copies of an argument touch.
abbrev pub room_of : Argument → ℕ
room_of (linux_code v) = 8
room_of (flag f) = 11
room_of (uint32 v) = 8
room_of (uint16 v) = 6
room_of (text chars) = 7 + length chars
room_of (code v) = 6
room_of (raw bytes) = 6 + length bytes

abbrev pub Fits : List Argument → ℕ → Type 0
Fits [] k = Unit
Fits (a ∷ rest) k = (room_of a ≤ k) × Fits rest (k - size_of a)
