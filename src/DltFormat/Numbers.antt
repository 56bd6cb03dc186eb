-- ===== src/DltFormat/Numbers.antt =====
-- What `Log` writes for a number, a Boolean or a float: all of it or nothing, and it reads back.
use logging.Prelude.{
  ℕ, ◌+◌, ◌*◌, ◌^◌, ◌≤◌, ◌<◌, ◌≡◌, sym, ap, subst, ◌∙◌, ◌⊎◌, inl, inr, Bool, true, ◌||◌, List, [],
  ◌∷◌, ◌++◌, append-nil, arith, dec_le, if◌then◌else◌, length, take, drop, length-append,
  take-append, drop-append,
}
use logging.Queue.Bytes.{length-to_bytes, to_bytes, of_bytes}
use logging.DltFormat.Payload.{
  store_full, VerbosePayload, AddArgumentResult, PayloadLaws, k_added, k_not_added, store, total,
  sizes, concat, store_fits,
}
use logging.DltFormat.Arguments.{
  BitFunctions, TypeLength, k_8_bit, k_16_bit, k_32_bit, k_64_bit, size_of, Integer, type_bit,
  type_length, bit_or, log_integer, log_data, set_representation, log_bool, type_unsigned_bit,
  type_signed_bit, log_float, log_double, uint8, uint16, uint32, uint64, int8, int16, int32, int64,
  log_hex8, log_hex16, log_hex32, log_hex64, log_bin8, log_bin16, log_bin32, log_bin64,
}
use logging.DltFormat.TypeInformation.{
  plain_info, number_size, protocol_info, BitLaws, size_of-number_size, plain_info-protocol_info,
  bit_or-protocol_info,
}

of_bytes-size_of :
    (l : TypeLength) (data_ : ℕ)
    → data_ < 256 ^ size_of l
    → of_bytes (to_bytes (size_of l) data_) ≡ data_
unfolding to_bytes of_bytes
of_bytes-size_of k_8_bit data_ h = omega arith
of_bytes-size_of k_16_bit data_ h = omega arith
of_bytes-size_of k_32_bit data_ h = omega arith
of_bytes-size_of k_64_bit data_ h = omega arith

signed_or_unsigned :
    (kind : Integer) (f : ℕ → Bool)
    → f (type_bit kind) ≡ true
    → (f type_unsigned_bit || f type_signed_bit) ≡ true
unfolding type_bit
signed_or_unsigned uint8 f h = ground arith
signed_or_unsigned uint16 f h = ground arith
signed_or_unsigned uint32 f h = ground arith
signed_or_unsigned uint64 f h = ground arith
signed_or_unsigned int8 f h = ground arith
signed_or_unsigned int16 f h = ground arith
signed_or_unsigned int32 f h = ground arith
signed_or_unsigned int64 f h = ground arith
signed_or_unsigned log_hex8 f h = ground arith
signed_or_unsigned log_hex16 f h = ground arith
signed_or_unsigned log_hex32 f h = ground arith
signed_or_unsigned log_hex64 f h = ground arith
signed_or_unsigned log_bin8 f h = ground arith
signed_or_unsigned log_bin16 f h = ground arith
signed_or_unsigned log_bin32 f h = ground arith
signed_or_unsigned log_bin64 f h = ground arith

module _ {P : Type 0} {ops : VerbosePayload P} (laws : PayloadLaws ops) (bits : BitFunctions) where
  -- The type information and the number are added, and read back; or there is no room for both, and
  -- nothing is added.
  pub NumberLogged : P → ℕ → ℕ → ℕ → P × AddArgumentResult → Type 0
  NumberLogged payload info size data_ (payload', result) =
      let room = ops.remaining_capacity payload in
      ((4 + size ≤ room)
        × (result ≡ k_added)
        × ((added : List ℕ) × (laws.content payload' ≡ laws.content payload ++ added)
            × (length added ≡ 4 + size)
            × (take 4 added ≡ to_bytes 4 info)
            × (of_bytes (drop 4 added) ≡ data_)))
      ⊎ ((room < 4 + size) × (result ≡ k_not_added) × (payload' ≡ payload))

  store-NumberLogged :
      (payload : P) (info data_ : ℕ) (l : TypeLength)
      → data_ < 256 ^ size_of l
      → NumberLogged payload info
          (size_of l)
          data_
          (store ops payload (to_bytes 4 info ∷ to_bytes (size_of l) data_ ∷ []))
  unfolding NumberLogged total sizes concat
  store-NumberLogged payload info data_ l h =
      let parts = to_bytes 4 info ∷ to_bytes (size_of l) data_ ∷ [] in
      let info_size : length (to_bytes 4 info) ≡ 4 = length-to_bytes 4 info in
      let data_size : length (to_bytes (size_of l) data_) ≡ size_of l =
        length-to_bytes (size_of l) data_ in
      let size : total (sizes parts) ≡ 4 + size_of l = omega arith in
      elim (dec_le (4 + size_of l) (ops.remaining_capacity payload)) [
        | yes room ↦
            let (added, content, left) = store_fits laws payload parts (omega arith) in
            inl (
              room,
              added,
              (
                concat parts,
                content,
                omega (
                  arith,
                  length-append (to_bytes 4 info) (to_bytes (size_of l) data_ ++ []),
                  length-append (to_bytes (size_of l) data_) [],
                ),
                take-append (to_bytes 4 info) (to_bytes (size_of l) data_ ++ []) (sym info_size),
                ap of_bytes (
                      drop-append (to_bytes 4 info) (to_bytes (size_of l) data_ ++ [])
                        (sym info_size)
                      ∙ append-nil _)
                    ∙ of_bytes-size_of l data_ h,
              ),
            )
        | no full ↦
            let e = store_full laws payload parts (omega arith) in
            inr (omega arith, ap (λ r. r.1) e, ap (λ r. r.0) e)
      ]

  log_integer-store :
      (kind : Integer) (payload : P) (data_ repr : ℕ)
      → bits.check_bit (plain_info bits kind) (type_bit kind) ≡ true
      → data_ < 256 ^ size_of (type_length kind)
      → NumberLogged payload
          (bit_or 32 (plain_info bits kind) (repr * 2 ^ 15))
          (size_of (type_length kind))
          data_
          (log_integer bits ops kind payload data_ repr)
  unfolding log_integer log_data set_representation
  log_integer-store kind payload data_ repr check h =
      rw
        (
          signed_or_unsigned kind (bits.check_bit (plain_info bits kind)) check,
          log_integer,
          log_data,
          set_representation,
        )
        (store-NumberLogged payload _ data_ (type_length kind) h)

  -- Each of the sixteen kinds of numbers is added whole or not at all: the type information that the
  -- protocol gives for its kind and representation (one of four), and then the number, in one, two,
  -- four or eight bytes. The number is one that fits its size, and the two functions on bits set and
  -- test a bit as documented.
  pub log_integer-NumberLogged :
      (bit_laws : BitLaws bits) (kind : Integer) (payload : P) (data_ repr : ℕ)
      → repr < 4
      → data_ < 256 ^ number_size kind
      → NumberLogged payload
          (protocol_info kind + 32768 * repr)
          (number_size kind)
          data_
          (log_integer bits ops kind payload data_ repr)
  log_integer-NumberLogged bit_laws kind payload data_ repr r h =
      let (e, check) = plain_info-protocol_info bits bit_laws kind in
      let size = size_of-number_size kind in
      let info : bit_or 32 (plain_info bits kind) (repr * 2 ^ 15)
          ≡ protocol_info kind + 32768 * repr =
        ap (λ n. bit_or 32 n (repr * 2 ^ 15)) e ∙ bit_or-protocol_info kind repr r in
      subst
        (λ n.
          NumberLogged payload n (number_size kind) data_
            (log_integer bits ops kind payload data_ repr))
        info
        (subst
          (λ n.
            NumberLogged payload (bit_or 32 (plain_info bits kind) (repr * 2 ^ 15)) n data_
              (log_integer bits ops kind payload data_ repr))
          size (log_integer-store kind payload data_ repr check (rw size h)))

  -- A Boolean is logged as one byte, and a float and a double as their bits, whole or not at all.
  pub log_bool_float_double-NumberLogged :
      (payload : P) (flag : Bool) (float_ double_ : ℕ)
      → float_ < 2 ^ 32
      → double_ < 2 ^ 64
      → NumberLogged payload
          (bit_or 32 (bits.set_bit 0 4) 1)
          1
          (if flag then 1 else 0)
          (log_bool bits ops payload flag)
        × NumberLogged payload
            (bit_or 32 (bits.set_bit 0 7) 3)
            4
            float_
            (log_float bits ops payload float_)
        × NumberLogged payload
            (bit_or 32 (bits.set_bit 0 7) 4)
            8
            double_
            (log_double bits ops payload double_)
  unfolding log_bool log_float log_double
  log_bool_float_double-NumberLogged payload flag float_ double_ f d = (
    store-NumberLogged payload _ _ k_8_bit (ground arith),
    store-NumberLogged payload _ _ k_32_bit f,
    store-NumberLogged payload _ _ k_64_bit d,
  )
