-- ===== src/SharedMemory/Reader.antt =====
-- shared_memory_reader.cpp: the reader and its states. The result of a call is the new reader, the
-- number that it returns, and the calls of the callbacks. A call sees the shared memory as it is at one
-- time; the next call may see another.
use logging.Prelude.{
  ℕ, Bool, true, false, not, ◌||◌, Option, none, some, List, [], ◌++◌, if◌then◌else◌, add64, add32,
}
use logging.Queue.LinearReader.{LinearReader, get_size_of_whole_data_buffer}
use logging.Queue.Alternating.{
  create_linear_reader, is_block_released_by_writers, select_linear_control_block,
  select_linear_control_block_id,
}
use logging.SharedMemory.Records.{HeaderLayout, CallbackCall, read_linear_buffer}
use logging.SharedMemory.Writer.{SharedData}

pub record SharedMemoryReader : Type 0 where
  pub linear_reader : Option LinearReader
  pub number_of_acquired_bytes : ℕ
  pub finished_reading_after_detach : Bool
  pub buffer_expected_to_read_next : ℕ
  pub is_writer_detached_ : Bool

-- The constructor.
abbrev pub new_shared_memory_reader : SharedData → SharedMemoryReader
new_shared_memory_reader shared_data = record {
  linear_reader = none;
  number_of_acquired_bytes = 0;
  finished_reading_after_detach = false;
  buffer_expected_to_read_next = shared_data.control_block.switch_count;
  is_writer_detached_ = false;
}

abbrev pub is_writer_detached : SharedData → SharedMemoryReader → Bool
is_writer_detached shared_data reader = reader.is_writer_detached_ || shared_data.writer_detached

abbrev pub detach_reader : SharedMemoryReader → SharedMemoryReader
detach_reader reader = record reader { is_writer_detached_ = true }

-- `NotifyAcquisitionSetReader`
unfoldable pub notify_acquisition_set_reader :
    SharedData → ℕ → SharedMemoryReader → SharedMemoryReader × Option ℕ
notify_acquisition_set_reader shared_data acquired_buffer reader =
    if not (is_block_released_by_writers shared_data.control_block acquired_buffer)
    then (reader, none)
    else (let linear = create_linear_reader shared_data.control_block acquired_buffer in
        (
          record reader {
            linear_reader = some linear;
            number_of_acquired_bytes = get_size_of_whole_data_buffer linear;
            buffer_expected_to_read_next = add32 acquired_buffer 1;
          },
          some (get_size_of_whole_data_buffer linear),
        ))

abbrev pub peek_number_of_bytes_acquired_in_buffer : SharedData → ℕ → Option ℕ
peek_number_of_bytes_acquired_in_buffer shared_data count =
    some
      (select_linear_control_block (select_linear_control_block_id count)
        shared_data.control_block).acquired_index

module _ {TimePoint : Type 0} (layout : HeaderLayout TimePoint) where
  abbrev Outcome : Type 0
  Outcome = SharedMemoryReader × (Option ℕ × List (CallbackCall TimePoint))

  -- `return_written_bytes`, with what is read from a buffer after it.
  add_written : Option ℕ → ℕ → Option ℕ
  add_written none n = some n
  add_written (some m) n = some (add64 m n)

  -- The part of `Read` for the buffer of the last acquisition.
  unfoldable pub read_acquired : SharedMemoryReader → Outcome
  read_acquired reader = elim reader.linear_reader [
    | none ↦ (reader, (none, []))
    | some linear ↦
        let (size, calls) = read_linear_buffer layout linear in
        (record reader { linear_reader = none }, (some size, calls))
  ]

  -- The part of `Read` for the last buffer of a writer that is gone.
  unfoldable pub read_after_detach : SharedData → Outcome → Outcome
  unfolding add_written
  read_after_detach shared_data (reader, (written, calls)) =
      let (size, more) =
        read_linear_buffer layout
          (create_linear_reader shared_data.control_block reader.buffer_expected_to_read_next) in
      if is_writer_detached shared_data reader
      then (
        record reader { finished_reading_after_detach = true },
        (add_written written size, calls ++ more),
      )
      else (reader, (written, calls))

  -- `SharedMemoryReader::Read`
  unfoldable pub read_shared : SharedData → SharedMemoryReader → Outcome
  read_shared shared_data reader =
      if reader.finished_reading_after_detach
      then (reader, (none, []))
      else read_after_detach shared_data (read_acquired reader)

  unfoldable pub read_detached : SharedData → SharedMemoryReader → Outcome
  read_detached shared_data reader = read_shared shared_data (detach_reader reader)
