-- ===== src/DltFormat/Strings.antt =====
-- What `Log` writes for a string, read back by a reader of its own that follows the layout of the
-- DLT protocol.
use logging.Prelude.{
  ℕ, zero, suc, ◌+◌, ◌-◌, ◌*◌, ◌^◌, ◌≤◌, ◌<◌, min, ◌≡◌, refl, sym, ap, subst, ◌∙◌, ◌⊎◌, inl, inr,
  true, false, ◌&&◌, Option, none, some, List, [], ◌∷◌, ◌++◌, arith, dec_le, ltb, leb, ◌==◌,
  if◌then◌else◌, length, get_or, take, drop, length-append, length-take, take-append, take_all,
}
use logging.Queue.Bytes.{to_bytes, of_bytes}
use logging.DltFormat.Payload.{
  store_fits, clamp_to, clamp_add_null_terminator, VerbosePayload, AddArgumentResult, PayloadLaws,
  k_added, k_not_added, store, total, sizes, concat, max_u16,
}
use logging.DltFormat.Arguments.{
  bit_or, BitFunctions, log_string, try_store, set_encoding, header_size, type_string_bit,
}

-- A reader of one argument: 4 bytes of type information, 16 bits of length, and what they count. The
-- length of a string counts a zero at its end.
abbrev string_of : ℕ → List ℕ → Option (List ℕ × List ℕ)
string_of n body =
    if ltb 0 n && (leb n (length body) && (get_or body (n - 1) 1 == 0))
    then some (take (n - 1) body, drop n body)
    else none

decode_string : List ℕ → Option (List ℕ × List ℕ)
decode_string bytes = string_of (of_bytes (take 2 (drop 4 bytes))) (drop 6 bytes)

get_or-end : (s : List ℕ) (x d : ℕ) → get_or (s ++ x ∷ []) (length s) d ≡ x
get_or-end [] x d = refl
get_or-end (y ∷ s) x d = get_or-end s x d

pub drop_all : (n : ℕ) (xs : List ℕ) → length xs ≤ n → drop n xs ≡ []
drop_all zero [] h = refl
drop_all (suc n) [] h = refl
drop_all zero (x ∷ xs) h = absurd (omega arith)
drop_all (suc n) (x ∷ xs) h = drop_all n xs (omega arith)

string_of_lem : (s : List ℕ) (n : ℕ) → n ≡ length s + 1 → string_of n (s ++ 0 ∷ []) ≡ some (s, [])
string_of_lem s n e =
    let prev : n - 1 ≡ length s = omega arith in
    let whole : length (s ++ 0 ∷ []) ≡ n = omega (arith, length-append s (0 ∷ []), e) in
    let zero_there : get_or (s ++ 0 ∷ []) (n - 1) 1 ≡ 0 = rw prev (get_or-end s 0 1) in
    let string_there : take (n - 1) (s ++ 0 ∷ []) ≡ s = take-append s (0 ∷ []) prev in
    let all_there : drop n (s ++ 0 ∷ []) ≡ [] = drop_all n (s ++ 0 ∷ []) (omega arith) in
    ground arith

decode_string_lem :
    (info : ℕ) (s : List ℕ)
    → length s < max_u16
    → decode_string (to_bytes 4 info ++ (to_bytes 2 (length s + 1) ++ (s ++ ((0 ∷ []) ++ []))))
      ≡ some (s, [])
unfolding decode_string to_bytes of_bytes
decode_string_lem info s h = string_of_lem s (of_bytes (to_bytes 2 (length s + 1))) (omega arith)

-- The number of bytes of a string of size `n` that `TryStore` keeps.
abbrev cropped : ℕ → ℕ → ℕ
cropped m n =
    let max_string_len = if ltb 0 m then m - 1 else 0 in
    clamp_to max_u16 (if ltb max_string_len n then max_string_len else n)

take-cropped :
    (m : ℕ) (data_ : List ℕ)
    → 0 < m
    → m ≤ max_u16
    → take (cropped m (length data_)) data_ ≡ take (m - 1) data_
take-cropped m data_ pos h = elim (dec_le (length data_) (m - 1)) [
  | yes le ↦ take_all _ data_ (ground arith) ∙ sym (take_all (m - 1) data_ le)
  | no more ↦ ap (λ k. take k data_) (ground arith)
]

cropped_size :
    (m : ℕ) (data_ : List ℕ)
    → 0 < m
    → m ≤ max_u16
    → clamp_add_null_terminator (cropped m (length data_)) ≡ length (take (m - 1) data_) + 1
cropped_size m data_ pos h = ground (arith, length-take (m - 1) data_)

module _ {P : Type 0} {ops : VerbosePayload P} (laws : PayloadLaws ops) (bits : BitFunctions) where
  try_store_lem :
      (payload : P) (info m : ℕ) (data_ : List ℕ)
      → 0 < m
      → m ≤ max_u16
      → let s = take (m - 1) data_ in
        try_store bits ops payload info m data_
        ≡ store ops payload (to_bytes 4 info ∷ to_bytes 2 (length s + 1) ∷ s ∷ (0 ∷ []) ∷ [])
  unfolding try_store
  try_store_lem payload info m data_ pos h =
      ap
        (λ x.
          store ops payload (
            to_bytes 4 info ∷ to_bytes 2 x ∷ take (cropped m (length data_)) data_ ∷ (0 ∷ []) ∷ []))
        (cropped_size m data_ pos h)
      ∙ ap
          (λ x.
            store ops payload
              (to_bytes 4 info ∷ to_bytes 2 (length (take (m - 1) data_) + 1) ∷ x ∷ (0 ∷ []) ∷ []))
          (take-cropped m data_ pos h)

  -- The string that there is room for is added, and what is added reads back as that string; or
  -- there is no room for a header and one more byte, and nothing is added.
  pub StringLogged : P → List ℕ → P × AddArgumentResult → Type 0
  StringLogged payload data_ (payload', result) =
      let room = ops.remaining_capacity payload in
      ((header_size < room)
        × (result ≡ k_added)
        × ((added : List ℕ) × (laws.content payload' ≡ laws.content payload ++ added)
            × (ops.remaining_capacity payload' < room)
            × (decode_string added ≡ some (take (min (room - header_size) max_u16 - 1) data_, []))))
      ⊎ ((room ≤ header_size) × (result ≡ k_not_added) × (payload' ≡ payload))

  store-StringLogged :
      (payload : P) (info m : ℕ) (data_ : List ℕ)
      → header_size < ops.remaining_capacity payload
      → m ≡ min (ops.remaining_capacity payload - header_size) max_u16
      → let s = take (m - 1) data_ in
        StringLogged payload data_
          (store ops payload (to_bytes 4 info ∷ to_bytes 2 (length s + 1) ∷ s ∷ (0 ∷ []) ∷ []))
  unfolding StringLogged total sizes to_bytes concat
  store-StringLogged payload info m data_ room e =
      let s = take (m - 1) data_ in
      let size : length s < m = omega (arith, length-take (m - 1) data_) in
      let parts = to_bytes 4 info ∷ to_bytes 2 (length s + 1) ∷ s ∷ (0 ∷ []) ∷ [] in
      let (added, content, left) = store_fits laws payload parts (omega arith) in
      inl (
        room,
        added,
        (
          concat parts,
          content,
          omega arith,
          decode_string_lem info s (omega arith) ∙ ap (λ k. some (take (k - 1) data_, [])) e,
        ),
      )

  module _ (check_set : bits.check_bit (bits.set_bit 0 type_string_bit) type_string_bit ≡ true)
      (payload : P) (data_ : List ℕ) where
    log_string_full :
        ops.remaining_capacity payload ≤ header_size
        → log_string bits ops payload data_ ≡ (payload, k_not_added)
    unfolding log_string set_encoding
    log_string_full le =
        let full : leb (ops.remaining_capacity payload) header_size ≡ true = ground arith in
        rw (check_set, full, log_string) refl

    log_string_room :
        header_size < ops.remaining_capacity payload
        → log_string bits ops payload data_
          ≡ try_store bits ops payload
              (bit_or 32 (bits.set_bit 0 type_string_bit) (1 * 2 ^ 15))
              (min (ops.remaining_capacity payload - header_size) max_u16)
              data_
    unfolding log_string set_encoding
    log_string_room lt =
        let room : leb (ops.remaining_capacity payload) header_size ≡ false = ground arith in
        rw (check_set, room, log_string) refl

  -- A string is added whenever there is room for the header and one more byte: as much of it as
  -- there is room for, and it reads back as that. Else the payload is as it was. The bit for strings
  -- has to test as set after it was set.
  pub log_string-decode_string :
      (check_set : bits.check_bit (bits.set_bit 0 type_string_bit) type_string_bit ≡ true)
      (payload : P) (data_ : List ℕ)
      → StringLogged payload data_ (log_string bits ops payload data_)
  unfolding StringLogged
  log_string-decode_string check_set payload data_ =
      elim (dec_le (ops.remaining_capacity payload) header_size) [
        | yes le ↦
            subst (StringLogged payload data_) (sym (log_string_full check_set payload data_ le))
              (inr (le, refl, refl))
        | no more ↦
            let m = min (ops.remaining_capacity payload - header_size) max_u16 in
            subst (StringLogged payload data_)
              (sym (
                log_string_room check_set payload data_ (omega arith)
                ∙ try_store_lem payload _ m data_ (omega arith) (omega arith)))
              (store-StringLogged payload _ m data_ (omega arith) refl)
      ]
