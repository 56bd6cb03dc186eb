-- ===== src/SharedMemory/Writer.antt =====
-- shared_memory_writer.h and shared_memory_writer.cpp. What other threads do to the two blocks between
-- the accesses of a call is `others`; they count no drops during the call, so what is said of the drop
-- counters is said of a call that no other thread interferes with.
use logging.Prelude.{
  ℕ, ◌+◌, ◌%◌, Bool, true, false, Option, none, some, List, ◌++◌, ltb, if◌then◌else◌, length,
  u16_mod, add64,
}
use logging.Queue.Bytes.{to_bytes, write_at}
use logging.Queue.Alternating.{
  AlternatingControlBlock, AlternatingAcquiredData, acquire_alternating, release_alternating,
  switch, select_linear_control_block, set_block,
}
use logging.SharedMemory.Records.{HeaderLayout, BufferEntryHeader, get_register_type_token}

pub record SharedData : Type 0 where
  pub control_block : AlternatingControlBlock
  pub number_of_drops_buffer_full : ℕ
  pub size_of_drops_buffer_full : ℕ
  pub number_of_drops_invalid_size : ℕ
  pub number_of_drops_type_registration_failed : ℕ
  pub writer_detached : Bool

abbrev pub get_max_payload_size : ℕ
get_max_payload_size = 65500

-- `SharedMemoryWriter::ReadAcquire`, with the number of the buffer that is to be read.
unfoldable pub read_acquire : SharedData → SharedData × ℕ
read_acquire shared_data =
    let (control_block, acquired) = switch shared_data.control_block in
    (record shared_data { control_block = control_block }, acquired)

unfoldable detach_writer : SharedData → SharedData
detach_writer shared_data = record shared_data { writer_detached = true }

unfoldable increment_type_registration_failures : SharedData → SharedData
increment_type_registration_failures shared_data = record shared_data {
  number_of_drops_type_registration_failed =
      add64 shared_data.number_of_drops_type_registration_failed 1;
}

module _ {TimePoint : Type 0} (layout : HeaderLayout TimePoint)
    (others : ℕ → AlternatingControlBlock → AlternatingControlBlock) where
  -- The bytes of the entry are written to the range that was acquired.
  write_entry : AlternatingAcquiredData → List ℕ → AlternatingControlBlock → AlternatingControlBlock
  write_entry acquired_data bytes control_block =
      let cb = select_linear_control_block acquired_data.control_block_id control_block in
      set_block acquired_data.control_block_id
        (record cb { data_ = write_at cb.data_ acquired_data.span.offset bytes }) control_block

  -- The end of `AllocAndWrite`, after `Acquire`. What the callback writes is `payload`.
  unfoldable pub finish_alloc_and_write :
      BufferEntryHeader TimePoint
      → List ℕ
      → ℕ
      → SharedData × Option AlternatingAcquiredData
      → SharedData × Bool
  unfolding write_entry
  finish_alloc_and_write header payload total_size (shared_data, none) = (
    record shared_data {
      number_of_drops_buffer_full = add64 shared_data.number_of_drops_buffer_full 1;
      size_of_drops_buffer_full = add64 shared_data.size_of_drops_buffer_full total_size;
    },
    false,
  )
  finish_alloc_and_write header payload total_size (shared_data, some acquired_data) = (
    record shared_data {
      control_block =
          release_alternating
            (others 9 (
              write_entry acquired_data (layout.header_bytes header ++ payload)
                (others 8 shared_data.control_block)))
            acquired_data;
    },
    true,
  )

  -- `AllocAndWrite`, with whether the callback was called.
  unfoldable pub alloc_and_write : TimePoint → ℕ → List ℕ → SharedData → SharedData × Bool
  alloc_and_write timestamp type_identifier payload shared_data =
      if ltb get_max_payload_size (length payload)
      then (
        record shared_data {
          number_of_drops_invalid_size = add64 shared_data.number_of_drops_invalid_size 1;
        },
        false,
      )
      else (let total_size = length payload + layout.size_of_header in
          let (control_block, acquired) =
            acquire_alternating others shared_data.control_block total_size in
          finish_alloc_and_write
            (record { time_stamp = timestamp; type_identifier = type_identifier }) payload
            total_size (record shared_data { control_block = control_block }, acquired))

  -- `TryRegisterType`: the counter of the writer moves on only when the callback is called.
  unfoldable try_register_type : TimePoint → List ℕ → SharedData × ℕ → (SharedData × ℕ) × Option ℕ
  try_register_type timestamp info (shared_data, type_identifier) =
      let (shared_data', called) =
        alloc_and_write timestamp get_register_type_token (to_bytes 2 type_identifier ++ info)
          shared_data in
      if called
      then ((shared_data', (type_identifier + 1) % u16_mod), some type_identifier)
      else ((shared_data', type_identifier), none)
