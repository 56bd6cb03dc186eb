-- ===== src/DltServer/Ids.antt =====
-- dltid.h, and the two helpers on identifiers of diagnostic_job_parser.cpp. A `char` is its byte.
use logging.Prelude.{
  ℕ, suc, ◌-◌, ◌≡◌, refl, ◌↔◌, Bool, true, ◌&&◌, List, [], ◌∷◌, ◌++◌, append_assoc, arith, ◌==◌,
  if◌then◌else◌, length, get_or, take, drop, replicate, drop-append,
}

pub record DltidT : Type 0 where
  pub byte0 : ℕ
  pub byte1 : ℕ
  pub byte2 : ℕ
  pub byte3 : ℕ

-- `DltidT{}`
abbrev pub no_id : DltidT
no_id = record { byte0 = 0; byte1 = 0; byte2 = 0; byte3 = 0 }

abbrev bytes_of : DltidT → List ℕ
bytes_of d = d.byte0 ∷ d.byte1 ∷ d.byte2 ∷ d.byte3 ∷ []

-- `DltidT(std::string_view)`: at most four characters are taken, the others stay zero.
unfoldable pub dltid : List ℕ → DltidT
dltid str = record {
  byte0 = get_or str 0 0;
  byte1 = get_or str 1 0;
  byte2 = get_or str 2 0;
  byte3 = get_or str 3 0;
}

-- What `std::string_view{const char*}` sees of a string: the characters before the first zero.
c_string : List ℕ → List ℕ
c_string [] = []
c_string (c ∷ cs) = if c == 0 then [] else c ∷ c_string cs

unfoldable pub extract_id : List ℕ → ℕ → DltidT
unfolding dltid c_string
extract_id message offset = dltid (c_string (drop offset message))

-- The bytes that are not zero, counted; the conversion to a string takes that many from the front.
count_nonzero : List ℕ → ℕ
count_nonzero [] = 0
count_nonzero (c ∷ cs) = if c == 0 then count_nonzero cs else suc (count_nonzero cs)

pub to_string : DltidT → List ℕ
unfolding count_nonzero
to_string d = take (count_nonzero (bytes_of d)) (bytes_of d)

-- `chunk.resize(4, 0)` on a string of at most four characters.
unfoldable pub append_id : DltidT → List ℕ → List ℕ
unfolding to_string
append_id name message =
    let chunk = take 4 (to_string name) in message ++ (chunk ++ replicate (4 - length chunk) 0)

abbrev pub dltid_eq : DltidT → DltidT → Bool
dltid_eq a b =
    (a.byte0 == b.byte0) && (a.byte1 == b.byte1) && (a.byte2 == b.byte2) && (a.byte3 == b.byte3)

pub dltid_eq_iff : (a b : DltidT) → (dltid_eq a b ≡ true) ↔ (a ≡ b)
dltid_eq_iff a b = ground arith

-- No zero byte stands before one that is not zero, as in every identifier made from a C string.
abbrev IsPadded : DltidT → Type 0
IsPadded d = (d.byte0 ≡ 0 → d.byte1 ≡ 0) × (d.byte1 ≡ 0 → d.byte2 ≡ 0) × (d.byte2 ≡ 0 → d.byte3 ≡ 0)

extract_id-IsPadded : (message : List ℕ) (offset : ℕ) → IsPadded (extract_id message offset)
unfolding extract_id
extract_id-IsPadded message offset = padded (drop offset message)
  where
    padded : (cs : List ℕ) → IsPadded (dltid (c_string cs))
    padded [] = ground arith
    padded (a ∷ []) = ground arith
    padded (a ∷ b ∷ []) = ground arith
    padded (a ∷ b ∷ c ∷ []) = ground arith
    padded (a ∷ b ∷ c ∷ d ∷ r) = ground arith

chunk_bytes :
    (d : DltidT)
    → IsPadded d
    → take 4 (to_string d) ++ replicate (4 - length (take 4 (to_string d))) 0 ≡ bytes_of d
unfolding to_string
chunk_bytes d p = ground arith

read_bytes : (d : DltidT) (rest : List ℕ) → IsPadded d → dltid (c_string (bytes_of d ++ rest)) ≡ d
unfolding dltid c_string
read_bytes d rest p = ground arith

-- An identifier appended to a message is read back from there by `ExtractId`, whatever follows.
pub extract_id-append_id :
    (d : DltidT) (message rest : List ℕ)
    → IsPadded d
    → extract_id (append_id d message ++ rest) (length message) ≡ d
unfolding extract_id append_id
extract_id-append_id d message rest p =
    rw
      (
        chunk_bytes d p,
        append_assoc message (bytes_of d) rest,
        drop-append message (bytes_of d ++ rest) refl,
      )
      (read_bytes d rest p)
