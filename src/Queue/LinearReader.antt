-- ===== src/Queue/LinearReader.antt =====
-- linear_reader.cpp: reading the entries of a buffer one after another.
use logging.Prelude.{ℕ, List, Option, none, some, ltb, not, if◌then◌else◌, add64, min}
use logging.Queue.Bytes.{of_bytes, subspan}
use logging.Queue.ControlBlock.{
  LinearControlBlock, get_length_offset_bytes, get_max_acquire_length_bytes,
  get_data_size_as_length, do_bytes_fit_in_remaining_capacity,
}

pub record LinearReader : Type 0 where
  pub data_ : List ℕ
  pub read_index : ℕ

-- `Read` once the length prefix has been copied out.
read_entry : LinearReader → ℕ → LinearReader × Option (List ℕ)
read_entry r len =
    let offset = r.read_index in
    if ltb get_max_acquire_length_bytes len
    then (record r { read_index = get_data_size_as_length r.data_ }, none)
    else (let r' = record r {
      read_index = add64 r.read_index (add64 len get_length_offset_bytes);
    } in
        if not
          (do_bytes_fit_in_remaining_capacity r.data_ offset (add64 get_length_offset_bytes len))
        then (r', none)
        else (r', some (subspan r.data_ (add64 offset get_length_offset_bytes) len)))

unfoldable pub read : LinearReader → LinearReader × Option (List ℕ)
unfolding read_entry
read r =
    if not (do_bytes_fit_in_remaining_capacity r.data_ r.read_index get_length_offset_bytes)
    then (r, none)
    else read_entry r (of_bytes (subspan r.data_ r.read_index get_length_offset_bytes))

unfoldable pub get_size_of_whole_data_buffer : LinearReader → ℕ
get_size_of_whole_data_buffer r = get_data_size_as_length r.data_

unfoldable pub create_linear_reader_from_data_and_length : List ℕ → ℕ → LinearReader
create_linear_reader_from_data_and_length data_ number_of_bytes_written = record {
  data_ = subspan data_ 0 (min number_of_bytes_written (get_data_size_as_length data_));
  read_index = 0;
}

unfoldable pub create_linear_reader_from_control_block : LinearControlBlock → LinearReader
unfolding create_linear_reader_from_data_and_length
create_linear_reader_from_control_block cb =
    create_linear_reader_from_data_and_length cb.data_ cb.written_index
