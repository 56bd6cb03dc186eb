-- ===== src/Queue/Alternating/Interleaving.antt =====
-- Any number of writers and one reader on the two blocks, an atomic access at a time. A writer is
-- where it stands in `WaitFreeAlternatingWriter::Acquire` and `Release`; on its block it makes the
-- moves of the linear writer.
use logging.Prelude.{ℕ, ◌<◌, ◌≡◌, ◌≢◌, Bool, true, false, add32}
use logging.Queue.ControlBlock.{LinearControlBlock}
use logging.Queue.Concurrent.{WriterPc, outside, holding, Move}
use logging.Queue.Concurrent.Weights.{moved}
use logging.Queue.Alternating.{
  AlternatingControlBlock, AlternatingControlBlockSelectId, select_linear_control_block_id,
  get_opposite_linear_control_block, select_linear_control_block, set_block, add_writer,
  release_block, switch,
}

pub data AlternatingPc : Type 0 where
  idle : AlternatingPc
  loaded : (len count : ℕ) → AlternatingPc  -- after the load in `Acquire`
  tried : (len count : ℕ) → AlternatingPc  -- the candidate is counted
  giving_up : (count : ℕ) → AlternatingPc  -- more than one switch: before the last `fetch_sub`
  crossing : (len count : ℕ) → AlternatingPc  -- one switch: before the other block is counted
  both : (len count : ℕ) → AlternatingPc  -- both blocks are counted
  rechecked : (len count : ℕ) (same : Bool) → AlternatingPc  -- after the second check's load
  dropping : (count : ℕ) → AlternatingPc  -- the candidate is released, the other one not yet
  chosen : (len : ℕ) (id : AlternatingControlBlockSelectId) → AlternatingPc  -- `AcquireBlock` returned
  writing : (id : AlternatingControlBlockSelectId) (p : WriterPc) → AlternatingPc  -- in the linear `Acquire`
  owning : (id : AlternatingControlBlockSelectId) (p : WriterPc) → AlternatingPc  -- after `ReleaseBlock`

abbrev pub opposite_of : ℕ → AlternatingControlBlockSelectId
opposite_of count = get_opposite_linear_control_block (select_linear_control_block_id count)

-- A linear `Acquire` that starts asks for the length that `Acquire` was given.
abbrev Begins : ℕ → WriterPc → Type 0
Begins len (WriterPc.counted l) = l ≡ len
Begins len _ = ⊥

-- The linear `Acquire` has returned, with a span or without.
abbrev Returned : WriterPc → Type 0
Returned outside = Unit {0}
Returned (holding _ _) = Unit {0}
Returned _ = ⊥

pub data AlternatingMove (acb : AlternatingControlBlock)
    : AlternatingPc → AlternatingControlBlock → AlternatingPc → Type 0 where
  load : (len : ℕ) → AlternatingMove acb idle acb (loaded len acb.switch_count)
  try :
      {len c : ℕ}
      → AlternatingMove acb
          (loaded len c)
          (add_writer (select_linear_control_block_id c) acb)
          (tried len c)
  check_same :
      {len c : ℕ}
      → acb.switch_count ≡ c
      → AlternatingMove acb (tried len c) acb (chosen len (select_linear_control_block_id c))
  check_next :
      {len c : ℕ}
      → acb.switch_count ≢ c
      → acb.switch_count ≡ add32 c 1
      → AlternatingMove acb (tried len c) acb (crossing len c)
  check_late :
      {len c : ℕ}
      → acb.switch_count ≢ c
      → acb.switch_count ≢ add32 c 1
      → AlternatingMove acb (tried len c) acb (giving_up c)
  give_up :
      {c : ℕ}
      → AlternatingMove acb
          (giving_up c)
          (release_block (select_linear_control_block_id c) acb)
          idle
  take_other :
      {len c : ℕ}
      → AlternatingMove acb (crossing len c) (add_writer (opposite_of c) acb) (both len c)
  recheck_same :
      {len c : ℕ}
      → acb.switch_count ≡ add32 c 1
      → AlternatingMove acb (both len c) acb (rechecked len c true)
  recheck_late :
      {len c : ℕ}
      → acb.switch_count ≢ add32 c 1
      → AlternatingMove acb (both len c) acb (rechecked len c false)
  drop_candidate :
      {len c : ℕ}
      → AlternatingMove acb
          (rechecked len c true)
          (release_block (select_linear_control_block_id c) acb)
          (chosen len (opposite_of c))
  drop_both :
      {len c : ℕ}
      → AlternatingMove acb
          (rechecked len c false)
          (release_block (select_linear_control_block_id c) acb)
          (dropping c)
  drop_other : {c : ℕ} → AlternatingMove acb (dropping c) (release_block (opposite_of c) acb) idle
  begin :
      {len : ℕ} {id : AlternatingControlBlockSelectId} {cb : LinearControlBlock} {p : WriterPc}
      → Move (select_linear_control_block id acb) outside cb p
      → Begins len p
      → AlternatingMove acb (chosen len id) (set_block id cb acb) (writing id p)
  work :
      {id : AlternatingControlBlockSelectId} {p p' : WriterPc} {cb : LinearControlBlock}
      → ¬ Returned p
      → Move (select_linear_control_block id acb) p cb p'
      → AlternatingMove acb (writing id p) (set_block id cb acb) (writing id p')
  let_go :
      {id : AlternatingControlBlockSelectId} {p : WriterPc}
      → Returned p
      → AlternatingMove acb (writing id p) (release_block id acb) (owning id p)
  use_span :
      {id : AlternatingControlBlockSelectId} {p p' : WriterPc} {cb : LinearControlBlock}
      → p ≢ outside
      → Move (select_linear_control_block id acb) p cb p'
      → AlternatingMove acb (owning id p) (set_block id cb acb) (owning id p')
  done : {id : AlternatingControlBlockSelectId} → AlternatingMove acb (owning id outside) acb idle

pub record AlternatingSystem : Type 0 where
  pub blocks : AlternatingControlBlock
  pub pc : ℕ → AlternatingPc

-- A step of one of the writers, numbered below `n`.
pub data WriterStep (n : ℕ) (s : AlternatingSystem) : AlternatingSystem → Type 0 where
  run :
      (i : ℕ) {acb : AlternatingControlBlock} {p : AlternatingPc}
      → i < n
      → AlternatingMove s.blocks (s.pc i) acb p
      → WriterStep n s (record { blocks = acb; pc = moved s.pc i p })

-- The reader may switch at any time, also against the assumption that it has released the block.
pub data AlternatingStep (n : ℕ) (s : AlternatingSystem) : AlternatingSystem → Type 0 where
  by_writer : {t : AlternatingSystem} → WriterStep n s t → AlternatingStep n s t
  by_reader : AlternatingStep n s (record { blocks = (switch s.blocks).0; pc = s.pc })

pub data AlternatingReach (n : ℕ) (init : AlternatingControlBlock)
    : AlternatingSystem → Type 0 where
  start : AlternatingReach n init (record { blocks = init; pc = λ _. idle })
  later :
      {s t : AlternatingSystem}
      → AlternatingReach n init s
      → AlternatingStep n s t
      → AlternatingReach n init t

pub data WriterSteps (n : ℕ) (s : AlternatingSystem) : AlternatingSystem → Type 0 where
  none_yet : WriterSteps n s s
  one_more : {t u : AlternatingSystem} → WriterSteps n s t → WriterStep n t u → WriterSteps n s u
