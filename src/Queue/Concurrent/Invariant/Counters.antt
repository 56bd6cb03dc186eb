-- ===== src/Queue/Concurrent/Invariant/Counters.antt =====
-- The three atomics against what the threads hold.
use logging.Prelude.{ℕ, ◌+◌, ◌*◌, ◌≤◌, ◌<◌, ◌≡◌, arith, u64_mod}
use logging.Queue.ControlBlock.{LinearControlBlock, get_max_acquire_length_bytes}
use logging.Queue.LinearWriter.{terminate_buffer}
use logging.Queue.Concurrent.{
  WriterPc, outside, admitted, committed, fetched, failed, holding, Move, enter, turn_away, admit,
  see_full, see_room, fetch, lose, give_up, prefix, store, publish, leave,
}
use logging.Queue.Concurrent.Weights.{
  sum_below-gap, sum_below-le, moved, sum_below, sum_below-moved, weight-le-sum_below,
  sum_below-le-scaled,
}

-- Counted in `number_of_writers`.
abbrev pub inside : WriterPc → ℕ
inside outside = 0
inside _ = 1

-- Past the check of `writer_concurrency`, and not yet on the way out.
abbrev pub past_check : WriterPc → ℕ
past_check (admitted _) = 1
past_check (committed _) = 1
past_check (fetched _ _) = 1
past_check (failed _ _) = 1
past_check (holding _ _) = 1
past_check _ = 0

-- Bytes added to `acquired_index` and not yet to `written_index`.
abbrev pub pending : WriterPc → ℕ
pending (fetched len _) = len + 8
pending (failed len _) = len + 8
pending (holding len _) = len + 8
pending _ = 0

-- Bytes that the thread is about to add to `acquired_index`.
abbrev pub planned : WriterPc → ℕ
planned (committed len) = len + 8
planned _ = 0

-- The length that a thread past the check asks for is within the limit.
abbrev IsShort : WriterPc → Type 0
IsShort (admitted len) = len ≤ get_max_acquire_length_bytes
IsShort (committed len) = len ≤ get_max_acquire_length_bytes
IsShort (fetched len _) = len ≤ get_max_acquire_length_bytes
IsShort (failed len _) = len ≤ get_max_acquire_length_bytes
IsShort (holding len _) = len ≤ get_max_acquire_length_bytes
IsShort _ = Unit {0}

pub record CountersInv (n : ℕ) (cb : LinearControlBlock) (pc : ℕ → WriterPc) : Type 0 where
  pub few : n < u64_mod
  pub writers : cb.number_of_writers ≡ sum_below inside n pc
  pub balance : cb.acquired_index ≡ cb.written_index + sum_below pending n pc
  pub headroom : cb.acquired_index + sum_below planned n pc < u64_mod
  pub concurrency : sum_below past_check n pc ≤ 64
  pub short : (i : ℕ) → IsShort (pc i)

planned-le : (p : WriterPc) → IsShort p → planned p ≤ 134217736 * past_check p
planned-le (committed len) s = omega arith
planned-le outside s = omega arith
planned-le _ s = omega arith

module _ {n : ℕ} {cb : LinearControlBlock} {pc : ℕ → WriterPc} (inv : CountersInv n cb pc)
    (i : ℕ) where
  open inv use {short}

  -- The four sums after thread `i` has gone from `p` to `p'`.
  record Sums (p p' : WriterPc) : Type 0 where
    here : IsShort p
    sum_inside : sum_below inside n (moved pc i p') + inside p ≡ sum_below inside n pc + inside p'
    sum_past :
        sum_below past_check n (moved pc i p') + past_check p
        ≡ sum_below past_check n pc + past_check p'
    sum_pending :
        sum_below pending n (moved pc i p') + pending p ≡ sum_below pending n pc + pending p'
    sum_planned :
        sum_below planned n (moved pc i p') + planned p ≡ sum_below planned n pc + planned p'
    inside_le : sum_below inside n (moved pc i p') ≤ n
    past_gap : sum_below past_check n pc + inside p ≤ sum_below inside n pc + past_check p
    pending_le : pending p ≤ sum_below pending n pc
    planned_le :
        IsShort p'
        → sum_below planned n (moved pc i p') ≤ 134217736 * sum_below past_check n (moved pc i p')

  IsShort-moved : (p' : WriterPc) → IsShort p' → (j : ℕ) → IsShort (moved pc i p' j)
  IsShort-moved p' s j = ground (arith, short j)

  sums : i < n → (p' : WriterPc) → Sums (pc i) p'
  sums below p' = record {
    here = short i;
    sum_inside = sum_below-moved inside n pc i p' below;
    sum_past = sum_below-moved past_check n pc i p' below;
    sum_pending = sum_below-moved pending n pc i p' below;
    sum_planned = sum_below-moved planned n pc i p' below;
    inside_le = sum_below-le inside n (moved pc i p') (λ a. ground arith);
    past_gap = sum_below-gap past_check inside n pc (λ a. ground arith) i below;
    pending_le = weight-le-sum_below pending n pc i below;
    planned_le = λ s.
        sum_below-le-scaled planned past_check 134217736 n (moved pc i p')
          (λ j. planned-le _ (IsShort-moved p' s j));
  }

  -- The counters after one move, field by field.
  Move-IsShort :
      {p p' : WriterPc} {cb' : LinearControlBlock} → Move cb p cb' p' → IsShort p → IsShort p'
  Move-IsShort (enter len _) s = tt
  Move-IsShort (turn_away _) s = tt
  Move-IsShort (admit _ h) s = h
  Move-IsShort (see_full _) s = tt
  Move-IsShort (see_room _ _) s = s
  Move-IsShort (fetch _) s = s
  Move-IsShort (lose _) s = s
  Move-IsShort give_up s = tt
  Move-IsShort prefix s = s
  Move-IsShort (store _ _) s = s
  Move-IsShort publish s = tt
  Move-IsShort leave s = tt

  Kept : LinearControlBlock → WriterPc → Type 0
  Kept cb' p' =
      (cb'.number_of_writers ≡ sum_below inside n (moved pc i p'))
      × (cb'.acquired_index ≡ cb'.written_index + sum_below pending n (moved pc i p'))
      × (cb'.acquired_index + sum_below planned n (moved pc i p') < u64_mod)
      × (sum_below past_check n (moved pc i p') ≤ 64)

  Move-Kept :
      {p p' : WriterPc} {cb' : LinearControlBlock} → Move cb p cb' p' → Sums p p' → Kept cb' p'
  unfolding Kept terminate_buffer
  Move-Kept (enter len small) f =
      omega (arith, inv.few, inv.writers, inv.balance, inv.headroom, inv.concurrency)
  Move-Kept (turn_away h) f = omega (arith, inv.writers, inv.balance, inv.headroom, inv.concurrency)
  Move-Kept (admit h k) f = omega (arith, inv.writers, inv.balance, inv.headroom, inv.concurrency)
  Move-Kept (see_full h) f = omega (arith, inv.writers, inv.balance, inv.headroom, inv.concurrency)
  Move-Kept (see_room h k) f =
      omega (arith, inv.writers, inv.balance, inv.headroom, inv.concurrency)
  Move-Kept (fetch h) f = omega (arith, inv.writers, inv.balance, inv.headroom, inv.concurrency)
  Move-Kept (lose h) f = omega (arith, inv.writers, inv.balance, inv.headroom, inv.concurrency)
  Move-Kept give_up f = omega (arith, inv.writers, inv.balance, inv.headroom, inv.concurrency)
  Move-Kept prefix f = omega (arith, inv.writers, inv.balance, inv.headroom, inv.concurrency)
  Move-Kept (store b h) f = omega (arith, inv.writers, inv.balance, inv.headroom, inv.concurrency)
  Move-Kept publish f = omega (arith, inv.writers, inv.balance, inv.headroom, inv.concurrency)
  Move-Kept leave f =
      omega (arith, inv.few, inv.writers, inv.balance, inv.headroom, inv.concurrency)

  pub Move-CountersInv :
      {p' : WriterPc} {cb' : LinearControlBlock}
      → i < n
      → Move cb (pc i) cb' p'
      → CountersInv n cb' (moved pc i p')
  unfolding Kept
  Move-CountersInv {p'} below mv =
      let (writers, balance, headroom, concurrency) = Move-Kept mv (sums below p') in
      record {
        few = inv.few;
        writers = writers;
        balance = balance;
        headroom = headroom;
        concurrency = concurrency;
        short = IsShort-moved p' (Move-IsShort mv (short i));
      }
