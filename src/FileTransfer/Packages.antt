-- ===== src/FileTransfer/Packages.antt =====
-- The packages of dlt_protocol.h. Each function writes into the span it is given, one `memcpy` after
-- the other, and returns the used part and the number of arguments; `buffersize` stays far below
-- 2^32. The base name of a path, the file and `errno` are arguments.
use logging.Prelude.{
  ℕ, ◌+◌, ◌-◌, ◌*◌, ◌%◌, Option, none, some, List, [], ◌∷◌, ltb, ◌==◌, if◌then◌else◌, length, take,
  drop, u32_mod, u16_mod,
}
use logging.Queue.Bytes.{to_bytes, write_at}

-- `buffer` and `buffersize`
pub record Writer : Type 0 where
  pub buffer : List ℕ
  pub buffersize : ℕ

-- `memcpy` of the bytes to the end of what is written, and `buffersize += advance`
unfoldable pub copy : List ℕ → ℕ → Writer → Writer
copy bytes advance w = record {
  buffer = write_at w.buffer w.buffersize bytes;
  buffersize = w.buffersize + advance;
}

abbrev pub file_buffer_size : ℕ
file_buffer_size = 1024

abbrev pub strg_utf8 : ℕ
strg_utf8 = 512 + 32768

abbrev pub uint_32bit : ℕ
uint_32bit = 64 + 3

abbrev pub uint_16bit : ℕ
uint_16bit = 64 + 2

abbrev pub sint_16bit : ℕ
sint_16bit = 32 + 2

abbrev pub rawd : ℕ
rawd = 1024

-- A type info, the length of a flag with its zero, and the flag.
unfoldable pub copy_flag : List ℕ → Writer → Writer
copy_flag transfer_type w =
    copy transfer_type 5 (copy (to_bytes 2 5) 2 (copy (to_bytes 4 strg_utf8) 4 w))

unfoldable pub copy_uint32 : ℕ → Writer → Writer
copy_uint32 value w = copy (to_bytes 4 value) 4 (copy (to_bytes 4 uint_32bit) 4 w)

unfoldable pub copy_uint16 : ℕ → Writer → Writer
copy_uint16 value w = copy (to_bytes 2 value) 2 (copy (to_bytes 4 uint_16bit) 4 w)

-- The terminating zero of a string is not written, only passed over.
unfoldable pub copy_string : List ℕ → Writer → Writer
copy_string chars w =
    copy chars (length chars + 1)
      (copy (to_bytes 2 ((length chars + 1) % u16_mod)) 2 (copy (to_bytes 4 strg_utf8) 4 w))

-- `errno` is copied with its four bytes, of which the next copy replaces two.
unfoldable pub copy_error : ℕ → ℕ → Writer → Writer
copy_error size value w = copy (to_bytes size value) 2 (copy (to_bytes 4 sint_16bit) 4 w)

abbrev pub Package : Type 0
Package = Option (List ℕ × ℕ)

unfoldable pub finish : ℕ → Writer → Package
finish nor w = some (take w.buffersize w.buffer, nor)

unfoldable pub start : List ℕ → Writer
start data_span = record { buffer = data_span; buffersize = 0 }

abbrev pub flst : List ℕ
flst = 70 ∷ 76 ∷ 83 ∷ 84 ∷ 0 ∷ []

abbrev pub flda : List ℕ
flda = 70 ∷ 76 ∷ 68 ∷ 65 ∷ 0 ∷ []

abbrev pub flfi : List ℕ
flfi = 70 ∷ 76 ∷ 70 ∷ 73 ∷ 0 ∷ []

abbrev pub flif : List ℕ
flif = 70 ∷ 76 ∷ 73 ∷ 70 ∷ 0 ∷ []

abbrev pub fler : List ℕ
fler = 70 ∷ 76 ∷ 69 ∷ 82 ∷ 0 ∷ []

unfoldable pub package_file_header : List ℕ → ℕ → List ℕ → ℕ → List ℕ → ℕ → Package
package_file_header data_span serialno alias fsize creationdate packagecount =
    let buffersize_limit =
      4
      + 2
      + 5
      + 4
      + 4
      + 4
      + 2
      + (length alias + 1)
      + 4
      + 4
      + 4
      + 2
      + (length creationdate + 1)
      + 4
      + 4
      + 4
      + 2
      + 4
      + 2
      + 5 in
    if ltb (length data_span) buffersize_limit
    then none
    else finish 8 (
        copy_flag flst (
          copy_uint16 file_buffer_size (
            copy_uint32 packagecount (
              copy_string creationdate (
                copy_uint32 fsize
                  (copy_string alias (copy_uint32 serialno (copy_flag flst (start data_span)))))))))

-- The contents of the file are `contents`; `fseek` beyond its end succeeds and `fread` then reads
-- nothing.
unfoldable pub package_file_data : List ℕ → List ℕ → ℕ → ℕ → Package
package_file_data buffer_in contents serialno pkgno =
    let offset = (pkgno + u32_mod - 1) % u32_mod * file_buffer_size % u32_mod in
    let read = take file_buffer_size (drop offset contents) in
    let buffersize_max = 4 + 2 + 5 + 4 + 4 + 4 + 4 + 4 + 2 + file_buffer_size + 4 + 2 + 5 in
    let head = copy_uint32 pkgno (copy_uint32 serialno (copy_flag flda (start buffer_in))) in
    let typed = copy (to_bytes 4 rawd) 4 head in
    let filled = record typed { buffer = write_at typed.buffer (typed.buffersize + 2) read } in
    let counted = copy (to_bytes 2 (length read)) 2 filled in
    if ltb (length buffer_in) buffersize_max
    then none
    else finish 5
        (copy_flag flda (record counted { buffersize = counted.buffersize + length read }))

unfoldable pub package_file_end : List ℕ → ℕ → Package
package_file_end data_buffer serialno =
    if ltb (length data_buffer) (4 + 2 + 5 + 4 + 4 + 4 + 2 + 5)
    then none
    else finish 3 (copy_flag flfi (copy_uint32 serialno (copy_flag flfi (start data_buffer))))

unfoldable pub package_file_information : List ℕ → ℕ → List ℕ → ℕ → List ℕ → ℕ → Package
package_file_information data_span serialno alias fsize creationdate packagecount =
    let buffersize_max =
      4
      + 2
      + 5
      + 4
      + 4
      + 4
      + 2
      + (length alias + 1)
      + 4
      + 4
      + 4
      + 2
      + (length creationdate + 1)
      + 4
      + 4
      + 4
      + 2
      + 5 in
    if ltb (length data_span) buffersize_max
    then none
    else finish 7 (
        copy_flag flif (
          copy_uint32 packagecount (
            copy_string creationdate (
              copy_uint32 fsize
                (copy_string alias (copy_uint32 serialno (copy_flag flif (start data_span))))))))

abbrev enoent : ℕ
enoent = 2

-- There is no test of the size of the span. `errorcode` is the 16-bit pattern of a signed number.
unfoldable pub package_file_error : List ℕ → ℕ → ℕ → ℕ → List ℕ → ℕ → List ℕ → ℕ → List ℕ → Package
package_file_error data_span errno errorcode serialno alias fsize creationdate packagecount
      error_msg =
    let codes = copy_error 4 errno (copy_error 2 errorcode (copy_flag fler (start data_span))) in
    let file = copy_uint32 packagecount (
      copy_string creationdate
        (copy_uint32 fsize (copy_string alias (copy_uint32 serialno codes)))) in
    if errno == enoent
    then finish 5 (copy_flag fler (copy_string alias codes))
    else if length error_msg == 0
    then finish 9 (copy_flag fler file)
    else finish 10 (copy_flag fler (copy_string error_msg file))
