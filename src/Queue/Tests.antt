-- ===== src/Queue/Tests.antt =====
-- The theorems at concrete inputs: a buffer of 64 bytes, two writers, and the reader.
use logging.Prelude.{
  ℕ, ◌+◌, ◌≤◌, ◌<◌, ◌≡◌, refl, ◌⊎◌, true, false, List, [], ◌∷◌, ◌++◌, arith, ℕ_discrete,
  if◌then◌else◌, length, replicate, u64_mod,
}
use logging.Queue.Bytes.{subspan, to_bytes, write_at}
use logging.Queue.ControlBlock.{LinearControlBlock, do_bytes_fit_in_remaining_capacity}
use logging.Queue.RoundTrip.{Holds, put_entry, put_entry-Holds, entry_fits, encode}
use logging.Queue.Drain.{drain, drain-put_all, put_all, accepted}
use logging.Queue.LinearReader.{create_linear_reader_from_control_block}
use logging.Queue.Concurrent.{
  store, outside, enter, admit, see_room, fetch, prefix, publish, leave, System, run, Reach, start,
  later, fresh_block,
}
use logging.Queue.Alternating.{
  AlternatingControlBlock, AlternatingControlBlockSelectId, block_even, block_odd,
  select_linear_control_block,
}
use logging.Queue.Alternating.Interleaving.{
  WriterStep, one_more, none_yet, load, try, AlternatingReach,
}
use logging.Queue.Alternating.Exclusive.{SameContents, reader_has_block}
use logging.Queue.Concurrent.Safety.{
  acquired_index_no_overflow, owned_disjoint, no_writers_released, owned_bytes_kept,
}

abbrev buffer : List ℕ
buffer = replicate 64 0

-- Writer 0 is about to take a range.
unfoldable first_committed : (s : System) × Reach 2 buffer s
unfolding ℕ_discrete do_bytes_fit_in_remaining_capacity
first_committed = (
  _,
  later
      (later (later start (run 0 (omega arith) (enter 4 (omega arith))))
        (run 0 (omega arith) (admit (omega arith) (omega arith))))
      (run 0 (omega arith) (see_room (omega arith) refl)),
)

acquired_index_no_overflow_example : 0 + (4 + 8) < u64_mod
unfolding ℕ_discrete do_bytes_fit_in_remaining_capacity first_committed
acquired_index_no_overflow_example =
    acquired_index_no_overflow (omega arith) (first_committed.1) 0 (omega arith) 4 refl

-- Writer 0 owns an entry of 4 bytes at 0 and writer 1 one of 3 bytes at 12.
unfoldable two_owners : (s : System) × Reach 2 buffer s
unfolding ℕ_discrete do_bytes_fit_in_remaining_capacity first_committed write_at to_bytes
two_owners = (
  _,
  later
      (later
        (later
          (later
            (later
              (later (later first_committed.1 (run 0 (omega arith) (fetch refl)))
                (run 0 (omega arith) prefix))
              (run 1 (omega arith) (enter 3 (omega arith))))
            (run 1 (omega arith) (admit (omega arith) (omega arith))))
          (run 1 (omega arith) (see_room (omega arith) refl)))
        (run 1 (omega arith) (fetch refl)))
      (run 1 (omega arith) prefix),
)

owned_disjoint_example : ((0 + (4 + 8) ≤ 12) ⊎ (12 + (3 + 8) ≤ 0)) × (0 + (4 + 8) ≤ 64)
unfolding ℕ_discrete do_bytes_fit_in_remaining_capacity first_committed two_owners
owned_disjoint_example =
    owned_disjoint (omega arith) (omega arith) (two_owners.1) 0 1 0 4 12 3 (λ e. omega (arith, e))
      refl refl

owned_bytes_kept_example :
    subspan (write_at (two_owners.0).block.data_ 8 (1 ∷ 2 ∷ 3 ∷ 4 ∷ [])) 12 (3 + 8)
    ≡ subspan (two_owners.0).block.data_ 12 (3 + 8)
unfolding ℕ_discrete do_bytes_fit_in_remaining_capacity first_committed two_owners
owned_bytes_kept_example =
    owned_bytes_kept (omega arith) (omega arith) (two_owners.1) 0 1 12 3 (λ e. omega (arith, e))
      (store (1 ∷ 2 ∷ 3 ∷ 4 ∷ []) refl) refl

-- Both have written and released what they had.
unfoldable all_released : (s : System) × Reach 2 buffer s
unfolding ℕ_discrete do_bytes_fit_in_remaining_capacity first_committed two_owners write_at to_bytes
all_released = (
  _,
  later
      (later (later (later two_owners.1 (run 0 (omega arith) publish)) (run 0 (omega arith) leave))
        (run 1 (omega arith) publish))
      (run 1 (omega arith) leave),
)

no_writers_released_example :
    (((all_released.0).pc 1) ≡ outside)
    × ((all_released.0).block.written_index ≡ (all_released.0).block.acquired_index)
unfolding ℕ_discrete do_bytes_fit_in_remaining_capacity first_committed two_owners all_released
no_writers_released_example =
    no_writers_released (omega arith) (all_released.1) refl 1 (omega arith)

abbrev empty_block : LinearControlBlock
empty_block = fresh_block buffer

empty_block-Holds : Holds empty_block []
unfolding encode
empty_block-Holds = record {
  rest = buffer;
  layout = refl;
  acquired = refl;
  written = refl;
  few = omega arith;
  size = omega arith;
}

abbrev entry : List ℕ
entry = 7 ∷ 8 ∷ 9 ∷ []

put_entry-Holds_example :
    ((put_entry empty_block entry).1 ≡ entry_fits 64 [] entry)
    × Holds
        (put_entry empty_block entry).0
        (if entry_fits 64 [] entry then [] ++ entry ∷ [] else [])
    × (length (put_entry empty_block entry).0.data_ ≡ 64)
    × ((entry_fits 64 [] entry ≡ true) ⊎ (put_entry empty_block entry ≡ (empty_block, false)))
put_entry-Holds_example = put_entry-Holds empty_block [] entry empty_block-Holds

drain-put_all_example :
    drain 9 (create_linear_reader_from_control_block (put_all empty_block (entry ∷ entry ∷ [])))
    ≡ accepted 64 [] (entry ∷ entry ∷ [])
unfolding accepted entry_fits encode to_bytes
drain-put_all_example =
    drain-put_all 9 empty_block (entry ∷ entry ∷ []) empty_block-Holds (omega arith)

abbrev two_blocks : AlternatingControlBlock
two_blocks = record {
  control_block_even = empty_block;
  control_block_odd = empty_block;
  switch_count = 1;
}

-- The even block while writer 0 loads the counter and enters the odd one.
reader_has_block_example : SameContents empty_block empty_block
unfolding ℕ_discrete
reader_has_block_example =
    reader_has_block {n = 2} block_even (omega arith) no_writers AlternatingReach.start (λ e. cc)
      refl
      (one_more (one_more none_yet (WriterStep.run 0 (omega arith) (load 4)))
        (WriterStep.run 0 (omega arith) try))
  where
    no_writers :
        (c : AlternatingControlBlockSelectId)
        → (select_linear_control_block c two_blocks).number_of_writers ≡ 0
    no_writers block_even = refl
    no_writers block_odd = refl
