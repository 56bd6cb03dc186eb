-- ===== src/Queue/Alternating.antt =====
-- alternating_control_block.h/.cpp, wait_free_alternating_writer.cpp, alternating_reader_proxy.cpp
-- and alternating_reader.cpp: two linear buffers, one for writing and one for reading, and the
-- counter whose parity says which is which.
pub mod Interleaving
pub mod Counting
pub mod Exclusive
use logging.Prelude.{
  ℕ, zero, suc, ◌+◌, ◌-◌, ◌*◌, ◌/◌, ◌%◌, ◌^◌, ◌≤◌, ◌<◌, min, ◌≡◌, refl, sym, ap, subst, ◌∙◌, ◌≡⟨◌⟩◌,
  ◌∎, ◌≢◌, ◌↔◌, ◌⊎◌, inl, inr, Bool, true, false, not, ◌&&◌, ◌||◌, Option, none, some, List, [],
  ◌∷◌, ◌++◌, map, append-nil, append_assoc, arith, dec_lt, dec_le, ℕ_discrete, ltb, leb, ◌==◌,
  if◌then◌else◌, ltb→lt, lt→ltb, leb→le, ==_iff, Bool-cases, Option-cases, length, get_elem?,
  get_or, take, drop, replicate, length-append, length-take, length-drop, length-replicate,
  take-append, drop-append, take_all, take-append-drop, drop-drop, u64_mod, u32_mod, u16_mod, add64,
  sub64, add32,
}
use logging.Queue.ControlBlock.{LinearControlBlock}
use logging.Queue.LinearWriter.{AcquiredData, acquire, release}
use logging.Queue.LinearReader.{LinearReader, create_linear_reader_from_data_and_length}

pub data AlternatingControlBlockSelectId : Type 0 where
  block_even block_odd : AlternatingControlBlockSelectId

pub record AlternatingControlBlock : Type 0 where
  pub control_block_even : LinearControlBlock
  pub control_block_odd : LinearControlBlock
  pub switch_count : ℕ  -- switch_count_points_active_for_writing, a std::uint32_t

abbrev initialize_alternating_control_block : AlternatingControlBlock → AlternatingControlBlock
initialize_alternating_control_block acb = record acb { switch_count = 1 }

abbrev pub select_linear_control_block_id : ℕ → AlternatingControlBlockSelectId
select_linear_control_block_id count = if count % 2 == 0 then block_even else block_odd

abbrev pub get_opposite_linear_control_block :
    AlternatingControlBlockSelectId → AlternatingControlBlockSelectId
get_opposite_linear_control_block block_odd = block_even
get_opposite_linear_control_block block_even = block_odd

-- `SelectLinearControlBlockReference`, read; `set_block` is a write through that reference.
abbrev pub select_linear_control_block :
    AlternatingControlBlockSelectId → AlternatingControlBlock → LinearControlBlock
select_linear_control_block block_even acb = acb.control_block_even
select_linear_control_block block_odd acb = acb.control_block_odd

abbrev pub set_block :
    AlternatingControlBlockSelectId
    → LinearControlBlock
    → AlternatingControlBlock
    → AlternatingControlBlock
set_block block_even cb acb = record acb { control_block_even = cb }
set_block block_odd cb acb = record acb { control_block_odd = cb }

-- `number_of_writers.fetch_add(1)` and `number_of_writers.fetch_sub(1)` on one of the blocks.
abbrev pub add_writer :
    AlternatingControlBlockSelectId → AlternatingControlBlock → AlternatingControlBlock
add_writer id acb =
    let cb = select_linear_control_block id acb in
    set_block id (record cb { number_of_writers = add64 cb.number_of_writers 1 }) acb

abbrev pub release_block :
    AlternatingControlBlockSelectId → AlternatingControlBlock → AlternatingControlBlock
release_block id acb =
    let cb = select_linear_control_block id acb in
    set_block id (record cb { number_of_writers = sub64 cb.number_of_writers 1 }) acb

pub record AlternatingAcquiredData : Type 0 where
  pub span : AcquiredData
  pub control_block_id : AlternatingControlBlockSelectId

-- What other threads and the reader do before the `k`-th access of a writer is `others k`.
module _ (others : ℕ → AlternatingControlBlock → AlternatingControlBlock) where
  -- The counter has moved by one since it was loaded: the other block is taken, and it is kept if
  -- the counter has not moved again.
  acquire_opposite_block :
      ℕ → AlternatingControlBlock → AlternatingControlBlock × Option AlternatingControlBlockSelectId
  acquire_opposite_block loaded acb =
      let candidate = select_linear_control_block_id loaded in
      let changed = get_opposite_linear_control_block candidate in
      let acb₁ = others 3 (add_writer changed (others 2 acb)) in
      let second_check = acb₁.switch_count in
      let acb₂ = release_block candidate (others 4 acb₁) in
      if not (second_check == add32 loaded 1)
      then (release_block changed (others 5 acb₂), none)
      else (acb₂, some changed)

  acquire_block :
      ℕ → AlternatingControlBlock → AlternatingControlBlock × Option AlternatingControlBlockSelectId
  unfolding acquire_opposite_block
  acquire_block loaded acb =
      let candidate = select_linear_control_block_id loaded in
      let acb₁ = others 1 (add_writer candidate (others 0 acb)) in
      let check = acb₁.switch_count in
      if check == loaded
      then (acb₁, some candidate)
      else if check == add32 loaded 1
      then acquire_opposite_block loaded acb₁
      else (release_block candidate (others 2 acb₁), none)

  wrap_acquired :
      AlternatingControlBlockSelectId → Option AcquiredData → Option AlternatingAcquiredData
  wrap_acquired id none = none
  wrap_acquired id (some a) = some (record { span = a; control_block_id = id })

  acquire_linear_data_on_acquired_block :
      AlternatingControlBlockSelectId
      → ℕ
      → AlternatingControlBlock
      → AlternatingControlBlock × Option AlternatingAcquiredData
  unfolding wrap_acquired
  acquire_linear_data_on_acquired_block id len acb =
      let (cb, acquired) = acquire (λ c. c) (select_linear_control_block id acb) len in
      (set_block id cb acb, wrap_acquired id acquired)

  acquire_on :
      ℕ
      → AlternatingControlBlock × Option AlternatingControlBlockSelectId
      → AlternatingControlBlock × Option AlternatingAcquiredData
  unfolding acquire_linear_data_on_acquired_block
  acquire_on len (acb, none) = (acb, none)
  acquire_on len (acb, some id) =
      let (acb', acquired) = acquire_linear_data_on_acquired_block id len (others 6 acb) in
      (release_block id (others 7 acb'), acquired)

  -- `WaitFreeAlternatingWriter::Acquire`.
  unfoldable pub acquire_alternating :
      AlternatingControlBlock → ℕ → AlternatingControlBlock × Option AlternatingAcquiredData
  unfolding acquire_on acquire_block
  acquire_alternating acb len = acquire_on len (acquire_block acb.switch_count acb)

unfoldable pub release_alternating :
    AlternatingControlBlock → AlternatingAcquiredData → AlternatingControlBlock
release_alternating acb a =
    set_block a.control_block_id
      (release (select_linear_control_block a.control_block_id acb) a.span) acb

-- `AlternatingReaderProxy::Switch`: the block that was read starts anew and the counter moves on.
pub switch : AlternatingControlBlock → AlternatingControlBlock × ℕ
switch acb =
    let active = select_linear_control_block_id acb.switch_count in
    let restarting = get_opposite_linear_control_block active in
    let acb₁ =
      set_block restarting
        (record (select_linear_control_block restarting acb) {
          acquired_index = 0;
          written_index = 0;
        })
        acb in
    (record acb₁ { switch_count = add32 acb₁.switch_count 1 }, acb₁.switch_count)

-- `AlternatingReadOnlyReader`, whose two spans are those of the two blocks.
unfoldable pub create_linear_reader : AlternatingControlBlock → ℕ → LinearReader
create_linear_reader acb block_id_count =
    let block = select_linear_control_block (select_linear_control_block_id block_id_count) acb in
    create_linear_reader_from_data_and_length block.data_ block.written_index

abbrev pub is_block_released_by_writers : AlternatingControlBlock → ℕ → Bool
is_block_released_by_writers acb block_id_count =
    let block = select_linear_control_block (select_linear_control_block_id block_id_count) acb in
    (block.number_of_writers == 0) && (block.written_index == block.acquired_index)
