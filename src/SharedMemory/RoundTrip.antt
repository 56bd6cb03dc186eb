-- ===== src/SharedMemory/RoundTrip.antt =====
-- What `AllocAndWrite` and `TryRegisterType` write to a buffer reaches the callbacks of the reader.
use logging.Prelude.{
  ℕ, ◌<◌, ◌≡◌, refl, sym, ap, ◌∙◌, inl, inr, false, List, [], ◌∷◌, ◌++◌, map, append-nil,
  append_assoc, arith, ltb, ◌==◌, if◌then◌else◌, Bool-cases, length, length-append, take-append,
  drop-append,
}
use logging.Queue.Bytes.{to_bytes, of_bytes, length-to_bytes}
use logging.Queue.ControlBlock.{LinearControlBlock}
use logging.Queue.LinearReader.{create_linear_reader_from_control_block}
use logging.Queue.RoundTrip.{Holds, entry_fits}
use logging.Queue.Drain.{put_all, accepted}
use logging.SharedMemory.Records.{
  HeaderLayout, HeaderLaws, CallbackCall, get_register_type_token, dispatch, dispatch_payload,
  read_linear_buffer, new_record, type_registration,
}
use logging.SharedMemory.Reading.{dispatch_all, dispatch-header_bytes, read_linear_buffer-put_all}

-- What a logging process writes: a record of a type, or the registration of a type.
pub data Written (TimePoint : Type 0) : Type 0 where
  wrote_record : TimePoint → ℕ → List ℕ → Written TimePoint
  wrote_type : TimePoint → ℕ → List ℕ → Written TimePoint

-- The largest identifier is that of registrations.
abbrev pub HasIdentifier : {TimePoint : Type 0} → Written TimePoint → Type 0
HasIdentifier (wrote_record time_stamp identifier payload) = identifier < 65535
HasIdentifier (wrote_type time_stamp identifier info) = identifier < 65536

abbrev pub HaveIdentifiers : {TimePoint : Type 0} → List (Written TimePoint) → Type 0
HaveIdentifiers [] = Unit
HaveIdentifiers (w ∷ ws) = HasIdentifier w × HaveIdentifiers ws

identifier_back : (n : ℕ) → n < 65536 → of_bytes (to_bytes 2 n) ≡ n
unfolding to_bytes of_bytes
identifier_back n le = omega arith

-- The callback that is due for it.
abbrev pub delivered : {TimePoint : Type 0} → Written TimePoint → CallbackCall TimePoint
delivered (wrote_record time_stamp identifier payload) =
    new_record (record { time_stamp = time_stamp; type_identifier = identifier }) payload
delivered (wrote_type time_stamp identifier info) = type_registration identifier info

module _ {TimePoint : Type 0} (layout : HeaderLayout TimePoint) where
  -- The bytes of its entry.
  abbrev pub entry_of : Written TimePoint → List ℕ
  entry_of (wrote_record time_stamp identifier payload) =
      layout.header_bytes (record { time_stamp = time_stamp; type_identifier = identifier })
      ++ payload
  entry_of (wrote_type time_stamp identifier info) =
      layout.header_bytes
        (record { time_stamp = time_stamp; type_identifier = get_register_type_token })
      ++ (to_bytes 2 identifier ++ info)

  -- What a bounded queue of `capacity` bytes keeps of them, when it holds the entries `ps`.
  unfoldable pub kept : ℕ → List (List ℕ) → List (Written TimePoint) → List (Written TimePoint)
  kept capacity ps [] = []
  kept capacity ps (w ∷ ws) =
      if entry_fits capacity ps (entry_of w)
      then w ∷ kept capacity (ps ++ (entry_of w ∷ [])) ws
      else kept capacity ps ws

  accepted-kept :
      (capacity : ℕ) (ps : List (List ℕ)) (ws : List (Written TimePoint))
      → accepted capacity ps (map entry_of ws) ≡ ps ++ map entry_of (kept capacity ps ws)
  unfolding accepted kept
  accepted-kept capacity ps [] = simp (append-nil)
  accepted-kept capacity ps (w ∷ ws) = elim (Bool-cases (entry_fits capacity ps (entry_of w))) [
    | inl e ↦
        rw (e, accepted)
          (accepted-kept capacity (ps ++ (entry_of w ∷ [])) ws
            ∙ append_assoc ps (entry_of w ∷ []) _)
    | inr e ↦ rw (e, accepted) (accepted-kept capacity ps ws)
  ]

  module _ (laws : HeaderLaws layout) where
    dispatch-entry_of :
        (w : Written TimePoint) → HasIdentifier w → dispatch layout (entry_of w) ≡ delivered w ∷ []
    unfolding dispatch_payload
    dispatch-entry_of (wrote_record time_stamp identifier payload) h =
        let plain : (identifier == get_register_type_token) ≡ false = ground arith in
        dispatch-header_bytes layout laws _ payload (omega arith) ∙ rw plain refl
    dispatch-entry_of (wrote_type time_stamp identifier info) h =
        let size = length-to_bytes 2 identifier in
        let whole : ltb (length (to_bytes 2 identifier ++ info)) 2 ≡ false =
          ground (arith, length-append (to_bytes 2 identifier) info) in
        dispatch-header_bytes layout laws _ (to_bytes 2 identifier ++ info) (omega arith)
        ∙ rw
            (
              whole,
              take-append (to_bytes 2 identifier) info (sym size),
              drop-append (to_bytes 2 identifier) info (sym size),
              identifier_back identifier h,
            )
            refl

    dispatch_all-delivered :
        (ps : List (List ℕ)) (capacity : ℕ) (ws : List (Written TimePoint))
        → HaveIdentifiers ws
        → dispatch_all layout (map entry_of (kept capacity ps ws))
          ≡ map delivered (kept capacity ps ws)
    unfolding dispatch_all kept
    dispatch_all-delivered ps capacity [] h = refl
    dispatch_all-delivered ps capacity (w ∷ ws) (h, hs) =
        elim (Bool-cases (entry_fits capacity ps (entry_of w))) [
          | inl e ↦
              rw (e, dispatch-entry_of w h)
                (ap (λ l. delivered w ∷ l)
                  (dispatch_all-delivered (ps ++ (entry_of w ∷ [])) capacity ws hs))
          | inr e ↦ rw e (dispatch_all-delivered ps capacity ws hs)
        ]

    -- When a buffer started empty and records and registrations were written to it by one writer after
    -- another, the loop over its entries calls the callback for records with the time, the identifier
    -- and the payload of each record, and the one for registrations with the identifier and the
    -- information of each registration, in order: for those whose entry a bounded queue of that many
    -- bytes accepts, and for no other. Identifiers are below 65536, and those of records below 65535.
    pub read_linear_buffer-delivered :
        (cb : LinearControlBlock) (ws : List (Written TimePoint))
        → HaveIdentifiers ws
        → Holds cb []
        → (read_linear_buffer layout
            (create_linear_reader_from_control_block (put_all cb (map entry_of ws)))).1
          ≡ map delivered (kept (length cb.data_) [] ws)
    read_linear_buffer-delivered cb ws named h =
        read_linear_buffer-put_all layout cb (map entry_of ws) h
        ∙ ap (dispatch_all layout) (accepted-kept (length cb.data_) [] ws)
        ∙ dispatch_all-delivered [] (length cb.data_) ws named
