-- ===== src/SharedMemory/Writing.antt =====
-- Every call of `AllocAndWrite` writes its entry or is counted as a drop.
use logging.Prelude.{
  ℕ, ◌+◌, ◌≤◌, ◌<◌, ◌≡◌, refl, sym, ap, subst, ◌∙◌, ◌⊎◌, inl, inr, Bool, true, false, Option, none,
  List, [], ◌∷◌, ◌++◌, arith, dec_lt, ltb, Bool-cases, length, length-append, add64, sub64,
}
use logging.Queue.ControlBlock.{LinearControlBlock, get_max_acquire_length_bytes}
use logging.Queue.LinearWriter.{acquire, release}
use logging.Queue.RoundTrip.{
  acquire_full, acquire_long, acquire_room, entry_fits, entry_fits_parts, Holds, put_entry,
  put_entry_accepts, put_entry_room,
}
use logging.Queue.Alternating.{
  acquire_alternating, AlternatingAcquiredData, AlternatingControlBlock,
  AlternatingControlBlockSelectId, select_linear_control_block, select_linear_control_block_id,
  set_block,
}
use logging.SharedMemory.Records.{BufferEntryHeader, HeaderLayout, HeaderLaws}
use logging.SharedMemory.Writer.{
  SharedData, get_max_payload_size, finish_alloc_and_write, alloc_and_write,
}
use logging.SharedMemory.Undisturbed.{
  acquire_alternating_alone, alone, finish_acquired, idle_again, set_block_same,
}

module _ {TimePoint : Type 0} (layout : HeaderLayout TimePoint) where
  module _ (laws : HeaderLaws layout) (s : SharedData) (ps : List (List ℕ)) where
    -- The id of the block that is active for writing, and the block.
    abbrev pub active_id : AlternatingControlBlockSelectId
    active_id = select_linear_control_block_id s.control_block.switch_count

    abbrev pub active_block : LinearControlBlock
    active_block = select_linear_control_block active_id s.control_block

    -- The entry is behind those that were there, no writer is left over, and all else is as it was.
    abbrev pub IsAppended : List ℕ → SharedData × Bool → Type 0
    IsAppended bytes (s', called) =
        (called ≡ true)
        × ((block : LinearControlBlock) × Holds block (ps ++ bytes ∷ [])
            × (block.number_of_writers ≡ 0)
            × (s' ≡ record s { control_block = set_block active_id block s.control_block }))

    -- The three outcomes, each with its exact condition: the entry is written; the buffer is full, and
    -- the drop and its size are counted; or the payload is too long, and the drop is counted.
    abbrev pub Accounted : BufferEntryHeader TimePoint → List ℕ → SharedData × Bool → Type 0
    Accounted header payload (s', called) =
        let bytes = layout.header_bytes header ++ payload in
        let fitting = entry_fits (length active_block.data_) ps bytes in
        ((length payload ≤ get_max_payload_size) × (fitting ≡ true) × IsAppended bytes (s', called))
        ⊎ (((length payload ≤ get_max_payload_size)
              × (fitting ≡ false)
              × (called ≡ false)
              × (s' ≡ record s {
                number_of_drops_buffer_full = add64 s.number_of_drops_buffer_full 1;
                size_of_drops_buffer_full =
                    add64 s.size_of_drops_buffer_full (length payload + layout.size_of_header);
              }))
            ⊎ ((get_max_payload_size < length payload)
                × (called ≡ false)
                × (s' ≡ record s {
                  number_of_drops_invalid_size = add64 s.number_of_drops_invalid_size 1;
                })))

    module _ (h : Holds active_block ps) (idle : active_block.number_of_writers ≡ 0)
        (header : BufferEntryHeader TimePoint) (payload : List ℕ) where
      abbrev bytes : List ℕ
      bytes = layout.header_bytes header ++ payload

      abbrev entering : LinearControlBlock
      entering = record active_block { number_of_writers = add64 active_block.number_of_writers 1 }

      -- `AllocAndWrite` from `Acquire` on, with the size of the whole entry.
      abbrev continued : SharedData × Bool
      continued =
          let (control_block, acquired) =
            acquire_alternating alone s.control_block (length bytes) in
          finish_alloc_and_write layout alone header payload (length bytes)
            (record s { control_block = control_block }, acquired)

      continued_room :
          length bytes ≤ get_max_acquire_length_bytes
          → active_block.acquired_index + (length bytes + 8) ≤ length active_block.data_
          → continued ≡ (
            record s {
              control_block = set_block active_id (put_entry active_block bytes).0 s.control_block;
            },
            true,
          )
      unfolding release
      continued_room short room =
          let few : add64 active_block.number_of_writers 1 < 64 = rw idle (omega arith) in
          let acquired = acquire_room entering (length bytes) few h.size short room in
          let e =
            acquire_alternating_alone s.control_block (length bytes) active_id _ refl acquired in
          rw (e, finish_acquired layout active_id header payload (length bytes) s)
            (rw (put_entry_room active_block bytes h.few h.size short room, idle) refl)

      continued_full :
          entry_fits (length active_block.data_) ps bytes ≡ false
          → continued ≡ (
            record s {
              number_of_drops_buffer_full = add64 s.number_of_drops_buffer_full 1;
              size_of_drops_buffer_full = add64 s.size_of_drops_buffer_full (length bytes);
            },
            false,
          )
      unfolding finish_alloc_and_write entry_fits
      continued_full full =
          ap
            (λ (r : AlternatingControlBlock × Option AlternatingAcquiredData).
              finish_alloc_and_write layout alone header payload (length bytes)
                (record s { control_block = r.0 }, r.1))
            (acquire_alternating_alone s.control_block (length bytes) active_id none refl rejected
              ∙ ap (λ b. (b, none)) back)
        where
          few : add64 active_block.number_of_writers 1 < 64
          few = rw idle (omega arith)

          rejected : acquire (λ c. c) entering (length bytes) ≡ (entering, none)
          rejected = elim (dec_lt get_max_acquire_length_bytes (length bytes)) [
            | yes long ↦ acquire_long entering (length bytes) few h.size long
            | no short ↦
                acquire_full entering (length bytes) few h.size (ground (arith, h.acquired))
          ]

          none_left : sub64 (add64 active_block.number_of_writers 1) 1 ≡ 0
          none_left = rw idle refl

          back :
              set_block active_id
                (record entering {
                  number_of_writers = sub64 (add64 active_block.number_of_writers 1) 1;
                })
                s.control_block
              ≡ s.control_block
          back =
              ap
                (λ n.
                  set_block active_id (record active_block { number_of_writers = n })
                    s.control_block)
                none_left
              ∙ ap (λ b. set_block active_id b s.control_block) (idle_again active_block idle)
              ∙ set_block_same active_id s.control_block

      written_idle :
          length bytes ≤ get_max_acquire_length_bytes
          → active_block.acquired_index + (length bytes + 8) ≤ length active_block.data_
          → (put_entry active_block bytes).0.number_of_writers ≡ 0
      unfolding release
      written_idle short room =
          rw (put_entry_room active_block bytes h.few h.size short room, idle) refl

      continued-Accounted :
          length payload ≤ get_max_payload_size
          → length bytes ≡ length payload + layout.size_of_header
          → Accounted header payload continued
      continued-Accounted short size =
          elim (Bool-cases (entry_fits (length active_block.data_) ps bytes)) [
            | inl e ↦
                let (le, room) = entry_fits_parts (length active_block.data_) ps bytes e in
                let inside : active_block.acquired_index + (length bytes + 8)
                    ≤ length active_block.data_ =
                  omega (arith, h.acquired, room) in
                let (_, holds, _) = put_entry_accepts active_block ps bytes h le room in
                subst (Accounted header payload) (sym (continued_room le inside)) (
                  inl (
                    short,
                    e,
                    (refl, ((put_entry active_block bytes).0, holds, written_idle le inside, refl)),
                  ))
            | inr e ↦ subst (Accounted header payload) (sym (continued_full e)) (
                inr (
                  inl (
                    short,
                    e,
                    refl,
                    ap
                        (λ n. record s {
                          number_of_drops_buffer_full = add64 s.number_of_drops_buffer_full 1;
                          size_of_drops_buffer_full = add64 s.size_of_drops_buffer_full n;
                        })
                        size,
                  )))
          ]

    -- A call that no other thread interferes with, of a writer to an idle active block that holds some
    -- entries, has exactly one of three outcomes. When the payload has at most 65500 bytes and the
    -- entry fits behind the others, the entry, which is the header and the payload, is behind the
    -- others in the block and no writer is left over; nothing else changes. When it does not fit, one
    -- drop and its size are counted; when the payload is longer, one drop of invalid size. Nothing
    -- else changes in these cases.
    pub alloc_and_write-Accounted :
        (h : Holds active_block ps) (idle : active_block.number_of_writers ≡ 0)
        (timestamp : TimePoint) (type_identifier : ℕ) (payload : List ℕ)
        → Accounted
            (record { time_stamp = timestamp; type_identifier = type_identifier })
            payload
            (alloc_and_write layout alone timestamp type_identifier payload s)
    unfolding alloc_and_write
    alloc_and_write-Accounted h idle timestamp type_identifier payload =
        elim (dec_lt get_max_payload_size (length payload)) [
          | yes long ↦
              let test : ltb get_max_payload_size (length payload) ≡ true = ground arith in
              rw test (inr (inr (long, refl, refl)))
          | no short ↦
              let test : ltb get_max_payload_size (length payload) ≡ false = ground arith in
              let shortened : alloc_and_write layout alone timestamp type_identifier payload s
                  ≡ continued h idle header payload =
                rw (test, ← size) refl in
              subst (Accounted header payload) (sym shortened)
                (continued-Accounted h idle header payload (omega arith) size)
        ]
      where
        header : BufferEntryHeader TimePoint
        header = record { time_stamp = timestamp; type_identifier = type_identifier }

        size :
            length (layout.header_bytes header ++ payload) ≡ length payload + layout.size_of_header
        size = omega (
          arith,
          length-append (layout.header_bytes header) payload,
          laws.length-header_bytes header,
        )
