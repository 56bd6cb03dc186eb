-- ===== src/Queue/ControlBlock.antt =====
-- linear_control_block.h and linear_control_block.cpp: the shared state of one linear buffer. An
-- atomic is a number below 2 ^ 64, and the span `data` is the list of the bytes that it covers.
use logging.Prelude.{
  ℕ, ◌+◌, ◌-◌, ◌*◌, ◌≤◌, ◌↔◌, ◌≡◌, Bool, true, false, List, arith, length, ltb, if◌then◌else◌,
  u64_mod,
}

pub record LinearControlBlock : Type 0 where
  pub data_ : List ℕ
  pub acquired_index : ℕ
  pub written_index : ℕ
  pub number_of_writers : ℕ

abbrev pub get_length_offset_bytes : ℕ
get_length_offset_bytes = 8

abbrev pub get_max_acquire_length_bytes : ℕ
get_max_acquire_length_bytes = 134217728

abbrev pub get_max_number_of_concurrent_writers : ℕ
get_max_number_of_concurrent_writers = 64

abbrev pub get_max_linear_buffer_capacity_bytes : ℕ
get_max_linear_buffer_capacity_bytes =
    u64_mod
    - 1
    - get_max_number_of_concurrent_writers
      * (get_max_acquire_length_bytes + get_length_offset_bytes)

abbrev pub get_data_size_as_length : List ℕ → ℕ
get_data_size_as_length data_ = length data_

unfoldable pub do_bytes_fit_in_remaining_capacity : List ℕ → ℕ → ℕ → Bool
do_bytes_fit_in_remaining_capacity buffer offset number_of_bytes =
    let buffer_size = get_data_size_as_length buffer in
    if ltb buffer_size offset
    then false
    else if ltb (buffer_size - offset) number_of_bytes
    then false
    else true

-- The test holds exactly when the range ends inside the buffer.
pub do_bytes_fit_iff :
    (buffer : List ℕ) (offset n : ℕ)
    → (do_bytes_fit_in_remaining_capacity buffer offset n ≡ true) ↔ (offset + n ≤ length buffer)
unfolding do_bytes_fit_in_remaining_capacity
do_bytes_fit_iff buffer offset n = ground arith

pub fits :
    (buffer : List ℕ) (offset n : ℕ)
    → offset + n ≤ length buffer
    → do_bytes_fit_in_remaining_capacity buffer offset n ≡ true
fits buffer offset n = (do_bytes_fit_iff buffer offset n).1

pub fits_not :
    (buffer : List ℕ) (offset n : ℕ)
    → length buffer + 1 ≤ offset + n
    → do_bytes_fit_in_remaining_capacity buffer offset n ≡ false
unfolding do_bytes_fit_in_remaining_capacity
fits_not buffer offset n h = ground arith
