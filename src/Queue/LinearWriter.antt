-- ===== src/Queue/LinearWriter.antt =====
-- wait_free_linear_writer.cpp: acquiring a range of the buffer, and releasing it. The hook that runs
-- between the load and the increment of `acquired_index` is a function on the shared state, so it
-- can stand for whatever the other writers do there; `pre_acquire_hook = λ cb. cb` is no hook.
use logging.Prelude.{ℕ, Option, none, some, ltb, leb, not, if◌then◌else◌, add64, sub64}
use logging.Queue.Bytes.{to_bytes, write_at}
use logging.Queue.ControlBlock.{
  LinearControlBlock, get_length_offset_bytes, get_max_acquire_length_bytes,
  get_max_number_of_concurrent_writers, get_max_linear_buffer_capacity_bytes,
  do_bytes_fit_in_remaining_capacity,
}

-- `AcquiredData::data`, a span: where it starts in the buffer, and its size.
pub record AcquiredData : Type 0 where
  pub offset : ℕ
  pub size : ℕ

unfoldable pub terminate_buffer : LinearControlBlock → ℕ → ℕ → LinearControlBlock
terminate_buffer cb offset len = record cb {
  data_ =
      if do_bytes_fit_in_remaining_capacity cb.data_ offset get_length_offset_bytes
      then write_at cb.data_ offset (to_bytes 8 len)
      else cb.data_;
  written_index = add64 cb.written_index (add64 len get_length_offset_bytes);
}

module _ (pre_acquire_hook : LinearControlBlock → LinearControlBlock) where
  -- The part of `CheckAndGetAcquireOffset` after its first checks.
  fetch_offset : LinearControlBlock → ℕ → LinearControlBlock × Option ℕ
  fetch_offset control_block len =
      let total_acquired_length = add64 len get_length_offset_bytes in
      let hooked = pre_acquire_hook control_block in
      let offset = hooked.acquired_index in
      let cb = record hooked {
        acquired_index = add64 hooked.acquired_index total_acquired_length;
      } in
      if not (do_bytes_fit_in_remaining_capacity cb.data_ offset total_acquired_length)
      then (terminate_buffer cb offset len, none)
      else (cb, some offset)

  check_and_get_acquire_offset : LinearControlBlock → ℕ → ℕ → LinearControlBlock × Option ℕ
  check_and_get_acquire_offset cb len writer_concurrency =
      if ltb get_max_number_of_concurrent_writers writer_concurrency
      then (cb, none)
      else if ltb get_max_acquire_length_bytes len
      then (cb, none)
      else if leb get_max_linear_buffer_capacity_bytes cb.acquired_index
      then (cb, none)
      else if not (
          do_bytes_fit_in_remaining_capacity cb.data_ cb.acquired_index
            (add64 len get_length_offset_bytes))
      then (cb, none)
      else fetch_offset cb len

  finish_acquire : ℕ → LinearControlBlock × Option ℕ → LinearControlBlock × Option AcquiredData
  finish_acquire len (cb, none) =
      (record cb { number_of_writers = sub64 cb.number_of_writers 1 }, none)
  finish_acquire len (cb, some offset) = (
    record cb { data_ = write_at cb.data_ offset (to_bytes 8 len) },
    some (record { offset = add64 offset get_length_offset_bytes; size = len }),
  )

  unfoldable pub acquire : LinearControlBlock → ℕ → LinearControlBlock × Option AcquiredData
  unfolding finish_acquire check_and_get_acquire_offset fetch_offset
  acquire control_block len =
      let cb = record control_block {
        number_of_writers = add64 control_block.number_of_writers 1;
      } in
      finish_acquire len (check_and_get_acquire_offset cb len cb.number_of_writers)

unfoldable pub release : LinearControlBlock → AcquiredData → LinearControlBlock
release cb acquired_data = record cb {
  written_index = add64 cb.written_index (add64 acquired_data.size get_length_offset_bytes);
  number_of_writers = sub64 cb.number_of_writers 1;
}
