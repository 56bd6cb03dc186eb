-- ===== src/SharedMemory/Records.antt =====
-- common.h and shared_memory_reader.cpp: the entries of a buffer and `ReadLinearBuffer`. The calls of
-- the two callbacks are the list of their arguments, in order.
use logging.Prelude.{
  ℕ, zero, suc, ◌≤◌, ◌≡◌, none, some, List, [], ◌∷◌, ◌++◌, ltb, ◌==◌, if◌then◌else◌, length, take,
  drop,
}
use logging.Queue.Bytes.{of_bytes}
use logging.Queue.LinearReader.{LinearReader, read, get_size_of_whole_data_buffer}

-- `GetRegisterTypeToken()`, the largest `std::uint16_t`.
abbrev pub get_register_type_token : ℕ
get_register_type_token = 65535

-- `BufferEntryHeader`. A point in time is of a type that is not code of this repository.
pub record BufferEntryHeader (TimePoint : Type 0) : Type 0 where
  pub time_stamp : TimePoint
  pub type_identifier : ℕ

-- The bytes of a header in memory, which the code copies: the compiler lays them out.
pub record HeaderLayout (TimePoint : Type 0) : Type 0 where
  pub size_of_header : ℕ
  pub header_bytes : BufferEntryHeader TimePoint → List ℕ
  pub header_of : List ℕ → BufferEntryHeader TimePoint

-- What is copied out is what was copied in.
pub record HeaderLaws {TimePoint : Type 0} (layout : HeaderLayout TimePoint) : Type 0 where
  pub length-header_bytes :
      (h : BufferEntryHeader TimePoint) → length (layout.header_bytes h) ≡ layout.size_of_header
  pub header_of-header_bytes :
      (h : BufferEntryHeader TimePoint)
      → h.type_identifier ≤ get_register_type_token
      → layout.header_of (layout.header_bytes h) ≡ h

-- A call of `type_registration_callback` or of `new_message_callback`.
pub data CallbackCall (TimePoint : Type 0) : Type 0 where
  type_registration : ℕ → List ℕ → CallbackCall TimePoint
  new_record : BufferEntryHeader TimePoint → List ℕ → CallbackCall TimePoint

module _ {TimePoint : Type 0} (layout : HeaderLayout TimePoint) where
  unfoldable pub dispatch_payload :
      BufferEntryHeader TimePoint → List ℕ → List (CallbackCall TimePoint)
  dispatch_payload header payload_span =
      if header.type_identifier == get_register_type_token
      then if ltb (length payload_span) 2
        then []
        else type_registration (of_bytes (take 2 payload_span)) (drop 2 payload_span) ∷ []
      else new_record header payload_span ∷ []

  -- The body of the loop, for one entry that was read.
  unfoldable pub dispatch : List ℕ → List (CallbackCall TimePoint)
  dispatch entry =
      if ltb (length entry) layout.size_of_header
      then []
      else dispatch_payload (layout.header_of (take layout.size_of_header entry))
          (drop layout.size_of_header entry)

  -- The loop, in at most `fuel` rounds.
  unfoldable pub read_entries : ℕ → LinearReader → List (CallbackCall TimePoint)
  read_entries zero r = []
  read_entries (suc fuel) r =
      let (r', read_result) = read r in
      elim read_result [ none ↦ [] | some entry ↦ dispatch entry ++ read_entries fuel r' ]

  -- Every round but the last moves on, so the length of the data bounds them.
  unfoldable pub read_linear_buffer : LinearReader → ℕ × List (CallbackCall TimePoint)
  read_linear_buffer r = (get_size_of_whole_data_buffer r, read_entries (suc (length r.data_)) r)
