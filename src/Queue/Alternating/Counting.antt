-- ===== src/Queue/Alternating/Counting.antt =====
-- The writers that each block counts: `number_of_writers` of a block is their number.
use logging.Prelude.{ℕ, ◌+◌, ◌*◌, ◌^◌, ◌≤◌, ◌<◌, ◌≡◌, refl, sym, ◌∙◌, true, arith, u64_mod}
use logging.Queue.ControlBlock.{LinearControlBlock}
use logging.Queue.LinearWriter.{terminate_buffer}
use logging.Queue.Concurrent.{
  WriterPc, Move, enter, turn_away, admit, see_full, see_room, fetch, lose, give_up, prefix, store,
  publish, leave,
}
use logging.Queue.Concurrent.Invariant.Counters.{inside}
use logging.Queue.Concurrent.Weights.{
  sum_below, sum_below-moved, sum_below-le, sum_below-le-scaled, weight-le-sum_below,
  sum_below-zero,
}
use logging.Queue.Alternating.{
  AlternatingControlBlock, AlternatingControlBlockSelectId, block_even, block_odd,
  select_linear_control_block_id, select_linear_control_block, switch,
}
use logging.Queue.Alternating.Interleaving.{
  AlternatingPc, tried, giving_up, crossing, both, rechecked, dropping, chosen, writing, owning,
  opposite_of, AlternatingMove, load, begin, work, use_span, AlternatingSystem, WriterStep, run,
  by_writer, by_reader, AlternatingReach, start, later,
}

-- 1 if the two blocks are the same.
abbrev same_block : AlternatingControlBlockSelectId → AlternatingControlBlockSelectId → ℕ
same_block block_even block_even = 1
same_block block_odd block_odd = 1
same_block _ _ = 0

-- How often a thread is counted in `number_of_writers` of a block.
abbrev pub count_in : AlternatingControlBlockSelectId → AlternatingPc → ℕ
count_in b (tried len c) = same_block b (select_linear_control_block_id c)
count_in b (giving_up c) = same_block b (select_linear_control_block_id c)
count_in b (crossing len c) = same_block b (select_linear_control_block_id c)
count_in b (both len c) = 1
count_in b (rechecked len c same) = 1
count_in b (dropping c) = same_block b (opposite_of c)
count_in b (chosen len id) = same_block b id
count_in b (writing id p) = same_block b id * (1 + inside p)
count_in b (owning id p) = same_block b id * inside p
count_in b _ = 0

-- The thread may still read or write the contents of the block, or its two indices.
abbrev pub engaged : AlternatingControlBlockSelectId → AlternatingPc → ℕ
engaged b (rechecked len c true) = same_block b (opposite_of c)
engaged b (chosen len id) = same_block b id
engaged b (writing id p) = same_block b id
engaged b (owning id p) = same_block b id * inside p
engaged b _ = 0

unfoldable pub writers_of : AlternatingControlBlockSelectId → AlternatingControlBlock → ℕ
writers_of b acb = (select_linear_control_block b acb).number_of_writers

-- A move of the linear writer changes its counter as it changes its own place.
Move-writers :
    {cb cb' : LinearControlBlock} {p p' : WriterPc}
    → Move cb p cb' p'
    → inside p ≤ cb.number_of_writers
    → cb.number_of_writers + 1 < u64_mod
    → cb'.number_of_writers + inside p ≡ cb.number_of_writers + inside p'
unfolding terminate_buffer
Move-writers (enter len _) h k = omega arith
Move-writers leave h k = omega arith
Move-writers (turn_away _) h k = refl
Move-writers (admit _ _) h k = refl
Move-writers (see_full _) h k = refl
Move-writers (see_room _ _) h k = refl
Move-writers (fetch _) h k = refl
Move-writers (lose _) h k = refl
Move-writers give_up h k = refl
Move-writers prefix h k = refl
Move-writers (store _ _) h k = refl
Move-writers publish h k = refl

-- So for a writer on the two blocks, and for each block.
AlternatingMove-writers :
    {acb acb' : AlternatingControlBlock} {p p' : AlternatingPc}
    → AlternatingMove acb p acb' p'
    → (b : AlternatingControlBlockSelectId) → count_in b p ≤ writers_of b acb
    → writers_of b acb + 2 < u64_mod
    → writers_of b acb' + count_in b p ≡ writers_of b acb + count_in b p'
unfolding writers_of
AlternatingMove-writers (load len) b h k = ground arith
AlternatingMove-writers (work {id} {p} {p'} {cb} r mv) b h k = ground (arith, Move-writers mv)
AlternatingMove-writers (begin {len} {id} {cb} {p} mv e) b h k = ground (arith, Move-writers mv)
AlternatingMove-writers (use_span {id} {p} {p'} {cb} r mv) b h k = ground (arith, Move-writers mv)
AlternatingMove-writers _ b h k = ground arith

count_in-le : (b : AlternatingControlBlockSelectId) (p : AlternatingPc) → count_in b p ≤ 2 * 1
count_in-le b (writing id p) = ground arith
count_in-le b _ = ground arith

pub engaged-le :
    (b : AlternatingControlBlockSelectId) (p : AlternatingPc) → engaged b p ≤ count_in b p
engaged-le b (rechecked len c true) = ground arith
engaged-le b _ = ground arith

abbrev one : AlternatingPc → ℕ
one p = 1

total-le :
    (b : AlternatingControlBlockSelectId) (n : ℕ) (pc : ℕ → AlternatingPc)
    → sum_below (count_in b) n pc ≤ 2 * n
total-le b n pc = omega (
  arith,
  sum_below-le-scaled (count_in b) one 2 n pc (λ i. count_in-le b (pc i)),
  sum_below-le one n pc (λ a. omega arith),
)

-- `number_of_writers` of each block is the number of times that the threads are counted there.
abbrev IsCounted : ℕ → AlternatingSystem → Type 0
IsCounted n s =
    (b : AlternatingControlBlockSelectId) → writers_of b s.blocks ≡ sum_below (count_in b) n s.pc

WriterStep-IsCounted :
    {n : ℕ} {s t : AlternatingSystem}
    → n < 2 ^ 62
    → IsCounted n s
    → WriterStep n s t
    → IsCounted n t
WriterStep-IsCounted {n} {s} few inv (run i {acb} {p} below mv) b = omega (
  arith,
  inv b,
  total-le b n s.pc,
  weight-le-sum_below (count_in b) n s.pc i below,
  sum_below-moved (count_in b) n s.pc i p below,
  AlternatingMove-writers mv b,
)

switch-writers :
    (acb : AlternatingControlBlock) (b : AlternatingControlBlockSelectId)
    → writers_of b (switch acb).0 ≡ writers_of b acb
unfolding writers_of switch
switch-writers acb b = ground arith

pub AlternatingReach-IsCounted :
    {n : ℕ} {init : AlternatingControlBlock} {s : AlternatingSystem}
    → n < 2 ^ 62
    → ((b : AlternatingControlBlockSelectId)
        → (select_linear_control_block b init).number_of_writers ≡ 0)
    → AlternatingReach n init s
    → IsCounted n s
unfolding writers_of
AlternatingReach-IsCounted {n} few z start =
    λ b. z b ∙ sym (sum_below-zero (count_in b) n _ (λ _. refl))
AlternatingReach-IsCounted few z (later r (by_writer st)) =
    WriterStep-IsCounted few (AlternatingReach-IsCounted few z r) st
AlternatingReach-IsCounted few z (later {s} r by_reader) =
    λ b. switch-writers s.blocks b ∙ AlternatingReach-IsCounted few z r b
