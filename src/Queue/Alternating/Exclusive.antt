-- ===== src/Queue/Alternating/Exclusive.antt =====
-- The reader has a block to itself once it is not the active one and counts no writer.
use logging.Prelude.{ℕ, ◌^◌, ◌<◌, ◌≡◌, refl, ◌∙◌, ◌≢◌, arith}
use logging.Queue.ControlBlock.{LinearControlBlock}
use logging.Queue.Concurrent.{WriterPc, outside}
use logging.Queue.Concurrent.Invariant.Counters.{inside}
use logging.Queue.Concurrent.Weights.{weight-le-sum_below}
use logging.Queue.Alternating.{
  AlternatingControlBlock, AlternatingControlBlockSelectId, select_linear_control_block_id,
  select_linear_control_block,
}
use logging.Queue.Alternating.Interleaving.{
  AlternatingPc, AlternatingMove, load, check_same, recheck_same, use_span, AlternatingSystem, run,
  AlternatingReach, WriterSteps, none_yet, one_more,
}
use logging.Queue.Alternating.Counting.{
  count_in, engaged, writers_of, engaged-le, AlternatingReach-IsCounted,
}

-- No thread below `n` is engaged with the block, and the block is not the active one.
pub record IsQuiet (n : ℕ) (b : AlternatingControlBlockSelectId) (s : AlternatingSystem)
    : Type 0 where
  pub inactive : select_linear_control_block_id s.blocks.switch_count ≢ b
  pub nobody : (i : ℕ) → i < n → engaged b (s.pc i) ≡ 0

-- Contents and indices of a block, without its counter of writers.
pub record SameContents (cb cb' : LinearControlBlock) : Type 0 where
  pub same_data : cb'.data_ ≡ cb.data_
  pub same_acquired : cb'.acquired_index ≡ cb.acquired_index
  pub same_written : cb'.written_index ≡ cb.written_index

inside-outside_ne : (p : WriterPc) → p ≢ outside → inside p ≡ 1
inside-outside_ne outside h = absurd (h refl)
inside-outside_ne _ h = refl

module _ {acb : AlternatingControlBlock} (b : AlternatingControlBlockSelectId)
    (inactive : select_linear_control_block_id acb.switch_count ≢ b) where
  -- A thread becomes engaged only with the active block.
  Move-engaged :
      {acb' : AlternatingControlBlock} {p p' : AlternatingPc}
      → AlternatingMove acb p acb' p'
      → engaged b p ≡ 0
      → engaged b p' ≡ 0
  Move-engaged (load len) h = ground arith
  Move-engaged (check_same {len} {c} e) h = ground arith
  Move-engaged (recheck_same {len} {c} e) h = ground arith
  Move-engaged (use_span {id} {p} r mv) h = ground (arith, inside-outside_ne p r)
  Move-engaged _ h = ground arith

  -- And a thread that is not engaged with the block leaves its contents alone.
  Move-SameContents :
      {acb' : AlternatingControlBlock} {p p' : AlternatingPc}
      → AlternatingMove acb p acb' p'
      → engaged b p ≡ 0
      → SameContents (select_linear_control_block b acb) (select_linear_control_block b acb')
  Move-SameContents (load len) h = ground arith
  Move-SameContents (use_span {id} {p} r mv) h = ground (arith, inside-outside_ne p r)
  Move-SameContents _ h = ground arith

AlternatingMove-switch_count :
    {acb acb' : AlternatingControlBlock} {p p' : AlternatingPc}
    → AlternatingMove acb p acb' p'
    → acb'.switch_count ≡ acb.switch_count
AlternatingMove-switch_count (load len) = refl
AlternatingMove-switch_count _ = ground arith

SameContents-trans :
    {c d e : LinearControlBlock} → SameContents c d → SameContents d e → SameContents c e
SameContents-trans p q = record {
  same_data = q.same_data ∙ p.same_data;
  same_acquired = q.same_acquired ∙ p.same_acquired;
  same_written = q.same_written ∙ p.same_written;
}

-- A block that is quiet stays so, and keeps its contents, whatever the writers do.
WriterSteps-IsQuiet :
    {n : ℕ} (b : AlternatingControlBlockSelectId) {s t : AlternatingSystem}
    → IsQuiet n b s
    → WriterSteps n s t
    → IsQuiet n b t
      × SameContents
          (select_linear_control_block b s.blocks)
          (select_linear_control_block b t.blocks)
WriterSteps-IsQuiet b q none_yet =
    (q, record { same_data = refl; same_acquired = refl; same_written = refl })
WriterSteps-IsQuiet b q (one_more steps (run i {acb} {p} below mv)) =
    let (quiet, same) = WriterSteps-IsQuiet b q steps in
    (
      record {
        inactive = rw (AlternatingMove-switch_count mv) quiet.inactive;
        nobody = λ j lt.
            ground
              (arith, quiet.nobody j lt, quiet.nobody i below, Move-engaged b quiet.inactive mv);
      },
      SameContents-trans same (Move-SameContents b quiet.inactive mv (quiet.nobody i below)),
    )

-- In a reachable state nobody is engaged with a block that counts no writer.
no_writers-IsQuiet :
    {n : ℕ} {init : AlternatingControlBlock} (b : AlternatingControlBlockSelectId)
    {s : AlternatingSystem}
    → n < 2 ^ 62
    → ((c : AlternatingControlBlockSelectId)
        → (select_linear_control_block c init).number_of_writers ≡ 0)
    → AlternatingReach n init s
    → select_linear_control_block_id s.blocks.switch_count ≢ b
    → (select_linear_control_block b s.blocks).number_of_writers ≡ 0
    → IsQuiet n b s
unfolding writers_of
no_writers-IsQuiet {n} b {s} few z r inactive free = record {
  inactive = inactive;
  nobody = λ i below. omega (
    arith,
    free,
    AlternatingReach-IsCounted few z r b,
    weight-le-sum_below (count_in b) n s.pc i below,
    engaged-le b (s.pc i),
  );
}

-- The reader has a block to itself: once the block is not the active one and its counter of writers
-- has been seen at zero, no step of any writer, however many follow until the reader switches again,
-- changes the bytes of the block, its acquired index or its written index. For fewer than 2 ^ 62
-- writers in any interleaving, and whenever the reader switched before.
pub reader_has_block :
    {n : ℕ} {init : AlternatingControlBlock} (b : AlternatingControlBlockSelectId)
    {s t : AlternatingSystem}
    → n < 2 ^ 62
    → ((c : AlternatingControlBlockSelectId)
        → (select_linear_control_block c init).number_of_writers ≡ 0)
    → AlternatingReach n init s
    → select_linear_control_block_id s.blocks.switch_count ≢ b
    → (select_linear_control_block b s.blocks).number_of_writers ≡ 0
    → WriterSteps n s t
    → SameContents (select_linear_control_block b s.blocks) (select_linear_control_block b t.blocks)
reader_has_block b few z r inactive free steps =
    (WriterSteps-IsQuiet b (no_writers-IsQuiet b few z r inactive free) steps).1
