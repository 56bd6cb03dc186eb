-- ===== src/SharedMemory/Reading.antt =====
-- The reader against the writer of the records, and its states.
use logging.Prelude.{
  ℕ, zero, suc, ◌+◌, ◌≤◌, ◌<◌, min, ◌≡◌, refl, sym, ap, ◌∙◌, ◌⊎◌, inl, inr, Bool, true, false, ◌||◌,
  Option, none, some, List, [], ◌∷◌, ◌++◌, arith, ltb, if◌then◌else◌, Bool-cases, Option-cases,
  length, take, drop, length-append, take-append, drop-append, u64_mod,
}
use logging.Queue.Bytes.{of_bytes}
use logging.Queue.Bytes.{subspan}
use logging.Queue.ControlBlock.{
  do_bytes_fit_iff, do_bytes_fit_in_remaining_capacity, fits_not, LinearControlBlock,
}
use logging.Queue.LinearReader.{LinearReader, read, create_linear_reader_from_control_block}
use logging.Queue.RoundTrip.{Holds}
use logging.Queue.LinearReader.{create_linear_reader_from_data_and_length}
use logging.Queue.Bytes.{length-subspan}
use logging.Queue.Drain.{put_all-Holds, drain, drain-put_all, put_all, accepted}
use logging.SharedMemory.Records.{
  BufferEntryHeader, HeaderLayout, HeaderLaws, CallbackCall, get_register_type_token, dispatch,
  dispatch_payload, read_entries, read_linear_buffer,
}
use logging.SharedMemory.Writer.{SharedData}
use logging.SharedMemory.Reader.{
  SharedMemoryReader, read_shared, read_acquired, read_after_detach, is_writer_detached,
}

module _ {TimePoint : Type 0} (layout : HeaderLayout TimePoint) where
  unfoldable pub dispatch_all : List (List ℕ) → List (CallbackCall TimePoint)
  dispatch_all [] = []
  dispatch_all (entry ∷ rest) = dispatch layout entry ++ dispatch_all rest

  dispatch_next :
      (o : Option (List ℕ)) (calls : List (CallbackCall TimePoint)) (entries : List (List ℕ))
      → calls ≡ dispatch_all entries
      → (elim o as (λ x. List (CallbackCall TimePoint)) [
        | none ↦ []
        | some entry ↦ dispatch layout entry ++ calls
      ])
        ≡ dispatch_all (elim o as (λ x. List (List ℕ)) [ none ↦ [] | some p ↦ p ∷ entries ])
  unfolding dispatch_all
  dispatch_next none calls entries e = refl
  dispatch_next (some entry) calls entries e = ap (λ x. dispatch layout entry ++ x) e

  read_entries-drain :
      (fuel : ℕ) (r : LinearReader) → read_entries layout fuel r ≡ dispatch_all (drain fuel r)
  unfolding read_entries drain dispatch_all
  read_entries-drain zero r = refl
  read_entries-drain (suc fuel) r =
      dispatch_next (read r).1 _ _ (read_entries-drain fuel (read r).0)

  -- One round moves on by 8 bytes or more, inside the data.
  read_moves :
      (r : LinearReader) (p : List ℕ)
      → length r.data_ < u64_mod
      → (read r).1 ≡ some p
      → (r.read_index + 8 ≤ (read r).0.read_index)
        × ((read r).0.read_index ≤ length r.data_)
        × ((read r).0.data_ ≡ r.data_)
  unfolding read
  read_moves r p small e =
      ground (
        arith,
        do_bytes_fit_iff r.data_ r.read_index (8 + of_bytes (subspan r.data_ r.read_index 8)),
      )

  read_beyond : (r : LinearReader) → length r.data_ < r.read_index → (read r).1 ≡ none
  unfolding read
  read_beyond r h =
      let e : do_bytes_fit_in_remaining_capacity r.data_ r.read_index 8 ≡ false =
        fits_not r.data_ r.read_index 8 (omega arith) in
      rw e refl

  read_entries_beyond :
      (fuel : ℕ) (r : LinearReader)
      → length r.data_ < r.read_index
      → read_entries layout fuel r ≡ []
  unfolding read_entries
  read_entries_beyond zero r h = refl
  read_entries_beyond (suc fuel) r h = rw (read_beyond r h, read_entries) refl

  -- More rounds than there are bytes left change nothing.
  read_entries_enough :
      (fuel more : ℕ) (r : LinearReader)
      → length r.data_ < u64_mod
      → length r.data_ < fuel + r.read_index
      → read_entries layout (fuel + more) r ≡ read_entries layout fuel r
  unfolding read_entries
  read_entries_enough zero more r small enough = read_entries_beyond _ r (omega arith)
  read_entries_enough (suc fuel) more r small enough =
      ap (λ k. read_entries layout k r) (next fuel more)
      ∙ one_round (Option-cases (read r).1) (λ p e.
        let (on, inside, same) = read_moves r p small e in
        read_entries_enough fuel more (read r).0 (omega (arith, ap length same))
          (omega (arith, ap length same)))
    where
      next : (fuel more : ℕ) → suc fuel + more ≡ suc (fuel + more)
      next fuel more = omega arith

      one_round :
          ((read r).1 ≡ none) ⊎ ((p : List ℕ) × ((read r).1 ≡ some p))
          → ((p : List ℕ)
              → (read r).1 ≡ some p
              → read_entries layout (fuel + more) (read r).0 ≡ read_entries layout fuel (read r).0)
          → read_entries layout (suc (fuel + more)) r ≡ read_entries layout (suc fuel) r
      one_round (inl e) rest = rw (e, read_entries) refl
      one_round (inr (p, e)) rest =
          rw (e, read_entries) (ap (λ x. dispatch layout p ++ x) (rest p e))

  -- The loop over the entries of a buffer ends, whatever the bytes are: it makes the same calls with
  -- any larger number of rounds, since each moves on by eight bytes or more inside the data.
  pub read_linear_buffer-enough :
      (more : ℕ) (r : LinearReader)
      → length r.data_ < u64_mod
      → read_entries layout (suc (length r.data_) + more) r ≡ (read_linear_buffer layout r).1
  unfolding read_linear_buffer
  read_linear_buffer-enough more r small =
      read_entries_enough (suc (length r.data_)) more r small (omega arith)

  -- What the reader of a buffer calls the callbacks with, when the buffer started empty and was
  -- written by one writer after another: the records in the entries that a bounded queue of that
  -- many bytes accepts, in order.
  pub read_linear_buffer-put_all :
      (cb : LinearControlBlock) (entries : List (List ℕ))
      → Holds cb []
      → (read_linear_buffer layout (create_linear_reader_from_control_block (put_all cb entries))).1
        ≡ dispatch_all (accepted (length cb.data_) [] entries)
  unfolding read_linear_buffer create_linear_reader_from_control_block
      create_linear_reader_from_data_and_length
  read_linear_buffer-put_all cb entries h =
      let r = create_linear_reader_from_control_block (put_all cb entries) in
      let kept = accepted (length cb.data_) [] entries in
      let written = put_all cb entries in
      let h' = put_all-Holds cb [] entries h in
      let sized : length r.data_ ≡ min written.written_index (length written.data_) =
        length-subspan written.data_ 0 (min written.written_index (length written.data_))
          (omega arith) in
      sym (
        read_entries_enough (suc (length r.data_)) (length kept) r (omega (arith, sized, h'.size))
          (omega arith))
      ∙ read_entries-drain _ r
      ∙ ap dispatch_all
          (drain-put_all (suc (length r.data_) + length kept) cb entries h (omega arith))

  module _ (laws : HeaderLaws layout) where
    -- A record with the header that was written comes out as that record; one with the identifier
    -- of registrations comes out as a registration, when its payload has the two bytes of one.
    pub dispatch-header_bytes :
        (h : BufferEntryHeader TimePoint) (payload : List ℕ)
        → h.type_identifier ≤ get_register_type_token
        → dispatch layout (layout.header_bytes h ++ payload) ≡ dispatch_payload layout h payload
    unfolding dispatch
    dispatch-header_bytes h payload le =
        let bytes = layout.header_bytes h in
        let size = laws.length-header_bytes h in
        let header_there : take layout.size_of_header (bytes ++ payload) ≡ bytes =
          take-append bytes payload (sym size) in
        let payload_there : drop layout.size_of_header (bytes ++ payload) ≡ payload =
          drop-append bytes payload (sym size) in
        let whole : ltb (length (bytes ++ payload)) layout.size_of_header ≡ false =
          ground (arith, length-append bytes payload) in
        rw (whole, header_there, payload_there, laws.header_of-header_bytes h le) refl

  read_shared_finished :
      (shared_data : SharedData) (reader : SharedMemoryReader)
      → reader.finished_reading_after_detach ≡ true
      → read_shared layout shared_data reader ≡ (reader, (none, []))
  unfolding read_shared
  read_shared_finished shared_data reader e = rw e refl

  read_shared_idle :
      (shared_data : SharedData) (reader : SharedMemoryReader)
      → reader.linear_reader ≡ none
      → is_writer_detached shared_data reader ≡ false
      → read_shared layout shared_data reader ≡ (reader, (none, []))
  unfolding read_shared read_acquired read_after_detach
  read_shared_idle shared_data reader e d = elim (Bool-cases reader.finished_reading_after_detach) [
    | inl f ↦ read_shared_finished shared_data reader f
    | inr f ↦ rw (f, e, d) refl
  ]

  module _ (shared_data : SharedData) where
    read_acquired-linear_reader :
        (reader : SharedMemoryReader) → (read_acquired layout reader).0.linear_reader ≡ none
    unfolding read_acquired
    read_acquired-linear_reader reader = elim (Option-cases reader.linear_reader) [
      | inl e ↦ rw e refl
      | inr (linear, e) ↦ rw e refl
    ]

    -- Nothing is left to read: all is read after a detach, or no buffer is acquired.
    Settled : SharedMemoryReader → Type 0
    Settled reader =
        (reader.finished_reading_after_detach ≡ true)
        ⊎ ((reader.linear_reader ≡ none) × (is_writer_detached shared_data reader ≡ false))

    Settled-if :
        (b : Bool) (x y : SharedMemoryReader × (Option ℕ × List (CallbackCall TimePoint)))
        → (b ≡ true → Settled x.0)
        → (b ≡ false → Settled y.0)
        → Settled (if b then x else y).0
    Settled-if true x y t f = t refl
    Settled-if false x y t f = f refl

    read_shared-Settled :
        (reader : SharedMemoryReader) → Settled (read_shared layout shared_data reader).0
    unfolding read_shared read_after_detach Settled
    read_shared-Settled reader =
        Settled-if reader.finished_reading_after_detach _ _ (λ e. inl e)
          (λ e.
            Settled-if (is_writer_detached shared_data (read_acquired layout reader).0) _ _
              (λ d. inl refl) (λ d. inr (read_acquired-linear_reader reader, d)))

    -- After a call of `Read` another call, with no new acquisition and no detach of the writer in
    -- between, whatever the shared memory holds by then, returns nothing, calls no callback and leaves
    -- the reader as it is: no record is delivered twice.
    pub read_shared-read_shared :
        (reader : SharedMemoryReader) (later : SharedData)
        → later.writer_detached ≡ shared_data.writer_detached
        → let reader' = (read_shared layout shared_data reader).0 in
          read_shared layout later reader' ≡ (reader', (none, []))
    unfolding Settled
    read_shared-read_shared reader later same =
        let reader' = (read_shared layout shared_data reader).0 in
        elim (read_shared-Settled reader) [
          | inl finished ↦ read_shared_finished later reader' finished
          | inr (no_buffer, attached) ↦
              read_shared_idle later reader' no_buffer
                (ap (λ b. reader'.is_writer_detached_ || b) same ∙ attached)
        ]
