-- ===== src/DltFormat/Buffers.antt =====
-- What `Log` writes for a raw buffer, read back by a reader of its own.
use logging.Prelude.{
  ℕ, zero, suc, ◌-◌, ◌≤◌, ◌<◌, min, ◌≡◌, refl, sym, ap, subst, ◌∙◌, ◌⊎◌, inl, inr, true, false,
  Option, none, some, List, [], ◌∷◌, ◌++◌, append-nil, arith, dec_le, ltb, leb, if◌then◌else◌,
  length, take, drop, length-take, take_all,
}
use logging.Queue.Bytes.{to_bytes, of_bytes}
use logging.DltFormat.Payload.{
  store_fits, clamp_to, VerbosePayload, AddArgumentResult, PayloadLaws, k_added, k_not_added, store,
  total, sizes, concat, max_u16,
}
use logging.DltFormat.Arguments.{type_raw_bit, BitFunctions, log_raw_buffer, header_size}
use logging.DltFormat.Strings.{drop_all}

abbrev buffer_of : ℕ → List ℕ → Option (List ℕ × List ℕ)
buffer_of n body = if leb n (length body) then some (take n body, drop n body) else none

decode_raw_buffer : List ℕ → Option (List ℕ × List ℕ)
decode_raw_buffer bytes = buffer_of (of_bytes (take 2 (drop 4 bytes))) (drop 6 bytes)

buffer_of_lem : (s : List ℕ) (n : ℕ) → n ≡ length s → buffer_of n (s ++ []) ≡ some (s, [])
buffer_of_lem s n e =
    let whole : s ++ [] ≡ s = append-nil s in
    let buffer_there : take n s ≡ s = take_all n s (omega arith) in
    let all_there : drop n s ≡ [] = drop_all n s (omega arith) in rw whole (ground arith)

decode_raw_buffer_lem :
    (info : ℕ) (s : List ℕ)
    → length s ≤ max_u16
    → decode_raw_buffer (to_bytes 4 info ++ (to_bytes 2 (length s) ++ (s ++ []))) ≡ some (s, [])
unfolding decode_raw_buffer to_bytes of_bytes
decode_raw_buffer_lem info s h = buffer_of_lem s (of_bytes (to_bytes 2 (length s))) (omega arith)

-- The number of bytes of a raw buffer that `Log` keeps.
buffer_size :
    (room : ℕ) (data_ : List ℕ)
    → (if ltb (clamp_to max_u16 room) (length data_) then clamp_to max_u16 room else length data_)
      ≡ length (take (min room max_u16) data_)
buffer_size room data_ = ground (arith, length-take (min room max_u16) data_)

take_min_length : (m : ℕ) (data_ : List ℕ) → take (length (take m data_)) data_ ≡ take m data_
take_min_length zero data_ = refl
take_min_length (suc m) [] = refl
take_min_length (suc m) (x ∷ data_) = ap (λ r. x ∷ r) (take_min_length m data_)

module _ {P : Type 0} {ops : VerbosePayload P} (laws : PayloadLaws ops) (bits : BitFunctions) where
  -- The part of a raw buffer that there is room for is added, and what is added reads back as that
  -- part; or there is no room for a header and one more byte, and nothing is added.
  pub BufferLogged : P → List ℕ → P × AddArgumentResult → Type 0
  BufferLogged payload data_ (payload', result) =
      let room = ops.remaining_capacity payload in
      ((header_size < room)
        × (result ≡ k_added)
        × ((added : List ℕ) × (laws.content payload' ≡ laws.content payload ++ added)
            × (ops.remaining_capacity payload' < room)
            × (decode_raw_buffer added ≡ some (take (min (room - header_size) max_u16) data_, []))))
      ⊎ ((room ≤ header_size) × (result ≡ k_not_added) × (payload' ≡ payload))

  store-BufferLogged :
      (payload : P) (info m : ℕ) (data_ : List ℕ)
      → header_size < ops.remaining_capacity payload
      → m ≡ min (ops.remaining_capacity payload - header_size) max_u16
      → let s = take m data_ in
        BufferLogged payload data_
          (store ops payload (to_bytes 4 info ∷ to_bytes 2 (length s) ∷ s ∷ []))
  unfolding BufferLogged total sizes to_bytes concat
  store-BufferLogged payload info m data_ room e =
      let s = take m data_ in
      let size : length s ≤ m = omega (arith, length-take m data_) in
      let parts = to_bytes 4 info ∷ to_bytes 2 (length s) ∷ s ∷ [] in
      let (added, content, left) = store_fits laws payload parts (omega arith) in
      inl (
        room,
        added,
        (
          concat parts,
          content,
          omega arith,
          decode_raw_buffer_lem info s (omega arith) ∙ ap (λ k. some (take k data_, [])) e,
        ),
      )

  log_raw_buffer_full :
      (payload : P) (data_ : List ℕ)
      → ops.remaining_capacity payload ≤ header_size
      → log_raw_buffer bits ops payload data_ ≡ (payload, k_not_added)
  unfolding log_raw_buffer
  log_raw_buffer_full payload data_ le =
      let full : leb (ops.remaining_capacity payload) header_size ≡ true = ground arith in
      rw full refl

  log_raw_buffer_room :
      (payload : P) (data_ : List ℕ)
      → header_size < ops.remaining_capacity payload
      → let s = take (min (ops.remaining_capacity payload - header_size) max_u16) data_ in
        log_raw_buffer bits ops payload data_
        ≡ store ops payload
            (to_bytes 4 (bits.set_bit 0 type_raw_bit) ∷ to_bytes 2 (length s) ∷ s ∷ [])
  unfolding log_raw_buffer
  log_raw_buffer_room payload data_ lt =
      let room = ops.remaining_capacity payload in
      let free : leb room header_size ≡ false = ground arith in
      let m = min (room - header_size) max_u16 in
      rw (free, buffer_size (room - header_size) data_)
        (ap
          (λ x. store ops payload (
            to_bytes 4 (bits.set_bit 0 type_raw_bit) ∷ to_bytes 2 (length (take m data_)) ∷ x ∷ []))
          (take_min_length m data_))

  -- As much of a raw buffer as there is room for is added whenever there is room for the header and
  -- one more byte, and it reads back as that part. Else the payload is as it was.
  pub log_raw_buffer-decode_raw_buffer :
      (payload : P) (data_ : List ℕ)
      → BufferLogged payload data_ (log_raw_buffer bits ops payload data_)
  unfolding BufferLogged
  log_raw_buffer-decode_raw_buffer payload data_ =
      let room = ops.remaining_capacity payload in
      elim (dec_le room header_size) [
        | yes le ↦
            subst (BufferLogged payload data_) (sym (log_raw_buffer_full payload data_ le))
              (inr (le, refl, refl))
        | no more ↦
            let m = min (room - header_size) max_u16 in
            subst (BufferLogged payload data_)
              (sym (log_raw_buffer_room payload data_ (omega arith)))
              (store-BufferLogged payload _ m data_ (omega arith) refl)
      ]
