-- ===== src/SharedMemory/Undisturbed.antt =====
-- `Acquire` and what follows it in `AllocAndWrite`, when no other thread does anything meanwhile.
use logging.Prelude.{
  ℕ, ◌≡◌, refl, sym, true, Option, none, some, List, ◌++◌, arith, ◌==◌, add64, sub64,
}
use logging.Queue.Bytes.{write_at}
use logging.Queue.ControlBlock.{LinearControlBlock}
use logging.Queue.LinearWriter.{AcquiredData, acquire, release}
use logging.Queue.Alternating.{
  acquire_alternating, AlternatingAcquiredData, AlternatingControlBlock,
  AlternatingControlBlockSelectId, block_even, block_odd, release_alternating,
  select_linear_control_block, select_linear_control_block_id, set_block,
}
use logging.SharedMemory.Records.{BufferEntryHeader, HeaderLayout}
use logging.SharedMemory.Writer.{SharedData, finish_alloc_and_write}

-- No other thread does anything during the call.
abbrev pub alone : ℕ → AlternatingControlBlock → AlternatingControlBlock
alone k acb = acb

abbrev pub wrapped :
    AlternatingControlBlockSelectId → Option AcquiredData → Option AlternatingAcquiredData
wrapped id none = none
wrapped id (some a) = some (record { span = a; control_block_id = id })

pub ==_refl : (n : ℕ) → (n == n) ≡ true
==_refl n = ground arith

module _ (acb : AlternatingControlBlock) (len : ℕ) {cb : LinearControlBlock} where
  pub acquire_alternating_alone :
      (id : AlternatingControlBlockSelectId) (acquired : Option AcquiredData)
      → select_linear_control_block_id acb.switch_count ≡ id
      → acquire
          (λ c. c)
          (record (select_linear_control_block id acb) {
            number_of_writers = add64 (select_linear_control_block id acb).number_of_writers 1;
          })
          len
        ≡ (cb, acquired)
      → acquire_alternating alone acb len ≡ (
        set_block id (record cb { number_of_writers = sub64 cb.number_of_writers 1 }) acb,
        wrapped id acquired,
      )
  unfolding acquire_alternating
  acquire_alternating_alone block_even none e h =
      rw (e, ==_refl acb.switch_count, h, acquire_alternating) refl
  acquire_alternating_alone block_even (some a) e h =
      rw (e, ==_refl acb.switch_count, h, acquire_alternating) refl
  acquire_alternating_alone block_odd none e h =
      rw (e, ==_refl acb.switch_count, h, acquire_alternating) refl
  acquire_alternating_alone block_odd (some a) e h =
      rw (e, ==_refl acb.switch_count, h, acquire_alternating) refl

pub set_block_same :
    (id : AlternatingControlBlockSelectId) (acb : AlternatingControlBlock)
    → set_block id (select_linear_control_block id acb) acb ≡ acb
set_block_same block_even acb = refl
set_block_same block_odd acb = refl

pub idle_again :
    (cb : LinearControlBlock) → cb.number_of_writers ≡ 0 → record cb { number_of_writers = 0 } ≡ cb
idle_again cb e i = record cb { number_of_writers = sym e i }

module _ {TimePoint : Type 0} (layout : HeaderLayout TimePoint) where
  pub finish_acquired :
      (id : AlternatingControlBlockSelectId) (header : BufferEntryHeader TimePoint)
      (payload : List ℕ) (total_size : ℕ) (s : SharedData) (cb : LinearControlBlock)
      (a : AcquiredData)
      → finish_alloc_and_write layout alone header payload total_size (
        record s { control_block = set_block id cb s.control_block },
        some (record { span = a; control_block_id = id }),
      )
        ≡ (
          record s {
            control_block =
                set_block id
                  (release
                    (record cb {
                      data_ = write_at cb.data_ a.offset (layout.header_bytes header ++ payload);
                    })
                    a)
                  s.control_block;
          },
          true,
        )
  unfolding finish_alloc_and_write release_alternating
  finish_acquired block_even header payload total_size s cb a = refl
  finish_acquired block_odd header payload total_size s cb a = refl
