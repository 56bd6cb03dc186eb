-- ===== src/Queue/Concurrent/Safety.antt =====
-- What the writers of one linear buffer promise one another and the reader, for any number of
-- threads and any interleaving.
use logging.Prelude.{
  ℕ, ◌+◌, ◌≤◌, ◌<◌, ◌≡◌, refl, ◌≢◌, ◌⊎◌, none, some, List, arith, length, u64_mod, add64,
}
use logging.Queue.Bytes.{subspan, subspan-write_at_apart, to_bytes, length-to_bytes}
use logging.Queue.ControlBlock.{LinearControlBlock, do_bytes_fit_iff}
use logging.Queue.LinearWriter.{terminate_buffer}
use logging.Queue.Concurrent.{
  WriterPc, outside, committed, fetched, failed, holding, Move, give_up, prefix, store, System,
  Reach,
}
use logging.Queue.Concurrent.Weights.{sum_below-zero_below, sum_below, weight-le-sum_below}
use logging.Queue.Concurrent.Invariant.Counters.{CountersInv, inside, past_check, pending}
use logging.Queue.Concurrent.Invariant.Ranges.{RangesInv, region, owned}
use logging.Queue.Concurrent.Invariant.{CountersInv-no_wrap, Reach-CountersInv, Reach-RangesInv}

-- However many threads write (fewer than 2 ^ 64), none of them ever wraps `acquired_index`: when a
-- thread is about to add the size of its entry, the sum is below 2 ^ 64.
pub acquired_index_no_overflow :
    {n : ℕ} {data_ : List ℕ} {s : System}
    → n < u64_mod
    → Reach n data_ s
    → (i : ℕ) → i < n
    → (len : ℕ) → s.pc i ≡ committed len
    → s.block.acquired_index + (len + 8) < u64_mod
acquired_index_no_overflow few r i below len e =
    CountersInv-no_wrap (Reach-CountersInv few r) i below len e

-- Two threads never own overlapping entries, and an entry that a thread owns lies inside the buffer,
-- for fewer than 2 ^ 64 threads and a buffer that is shorter than 2 ^ 64 bytes.
pub owned_disjoint :
    {n : ℕ} {data_ : List ℕ} {s : System}
    → n < u64_mod
    → length data_ < u64_mod
    → Reach n data_ s
    → (i j o l o' l' : ℕ) → i ≢ j
    → owned (s.pc i) ≡ some (o, l)
    → owned (s.pc j) ≡ some (o', l')
    → ((o + (l + 8) ≤ o') ⊎ (o' + (l' + 8) ≤ o)) × (o + (l + 8) ≤ length s.block.data_)
owned_disjoint {data_} {s} few small r i j o l o' l' d q q' = (
  inv.apart i j o l o' l' d (owned-region (s.pc i) q) (owned-region (s.pc j) q'),
  omega (arith, inv.same_size, inv.in_buffer i o l q),
)
  where
    inv : RangesInv (length data_) s.block s.pc
    inv = Reach-RangesInv few small r

    owned-region : (p : WriterPc) {o l : ℕ} → owned p ≡ some (o, l) → region p ≡ some (o, l)
    owned-region (fetched len offset) e = e
    owned-region (holding len offset) e = e
    owned-region outside e = cc
    owned-region _ e = cc

sum_below-empty :
    (w : WriterPc → ℕ) (n : ℕ) (pc : ℕ → WriterPc)
    → sum_below w n pc ≡ 0
    → (i : ℕ) → i < n
    → w (pc i) ≡ 0
sum_below-empty w n pc e i below = omega (arith, e, weight-le-sum_below w n pc i below)

-- The reader's test: with no writer counted every thread is outside `Acquire` and `Release`, and as
-- many bytes are written as were acquired, for fewer than 2 ^ 64 threads.
pub no_writers_released :
    {n : ℕ} {data_ : List ℕ} {s : System}
    → n < u64_mod
    → Reach n data_ s
    → s.block.number_of_writers ≡ 0
    → (i : ℕ) → i < n
    → (s.pc i ≡ outside) × (s.block.written_index ≡ s.block.acquired_index)
no_writers_released {n} {s} few r e i below = (
  only_outside (s.pc i) (empty i below),
  omega (
    arith,
    inv.balance,
    sum_below-zero_below pending n s.pc
        (λ j below_j. rw (only_outside (s.pc j) (empty j below_j)) refl),
  ),
)
  where
    inv : CountersInv n s.block s.pc
    inv = Reach-CountersInv few r

    empty : (i : ℕ) → i < n → inside (s.pc i) ≡ 0
    empty = sum_below-empty inside n s.pc (omega (arith, e, inv.writers))

    only_outside : (p : WriterPc) → inside p ≡ 0 → p ≡ outside
    only_outside outside h = refl
    only_outside _ h = absurd (omega arith)

-- Once as many bytes are written as were acquired, no thread below `n` has a range any more, for
-- fewer than 2 ^ 64 threads.
pub all_written_released :
    {n : ℕ} {data_ : List ℕ} {s : System}
    → n < u64_mod
    → Reach n data_ s
    → s.block.written_index ≡ s.block.acquired_index
    → (i : ℕ) → i < n
    → region (s.pc i) ≡ none
all_written_released {n} {s} few r e i below =
    no_region (s.pc i) (sum_below-empty pending n s.pc (omega (arith, e, inv.balance)) i below)
  where
    inv : CountersInv n s.block s.pc
    inv = Reach-CountersInv few r

    no_region : (p : WriterPc) → pending p ≡ 0 → region p ≡ none
    no_region (fetched len offset) h = absurd (omega arith)
    no_region (failed len offset) h = absurd (omega arith)
    no_region (holding len offset) h = absurd (omega arith)
    no_region outside h = refl
    no_region _ h = refl

-- At most 64 threads are at any time between the check of `writer_concurrency` and their release,
-- for fewer than 2 ^ 64 threads.
pub at_most_64_writers :
    {n : ℕ} {data_ : List ℕ} {s : System}
    → n < u64_mod
    → Reach n data_ s
    → sum_below past_check n s.pc ≤ 64
at_most_64_writers few r = (Reach-CountersInv few r).concurrency

module _ {size : ℕ} {cb : LinearControlBlock} {pc : ℕ → WriterPc} (inv : RangesInv size cb pc)
    (small : size < u64_mod) (i j o l : ℕ) (d : j ≢ i) (own : owned (pc j) ≡ some (o, l)) where
  own_region : region (pc j) ≡ some (o, l)
  own_region = ground arith

  Move-subspan :
      {p p' : WriterPc} {cb' : LinearControlBlock}
      → Move cb p cb' p'
      → p ≡ pc i
      → subspan cb'.data_ o (l + 8) ≡ subspan cb.data_ o (l + 8)
  unfolding terminate_buffer
  Move-subspan (give_up {len} {offset}) e = ground (
    arith,
    own_region,
    inv.same_size,
    inv.apart i j offset len o l,
    length-to_bytes 8 len,
    do_bytes_fit_iff cb.data_ offset 8,
    subspan-write_at_apart cb.data_ (to_bytes 8 len) o (l + 8) offset,
  )
  Move-subspan (prefix {len} {offset}) e = ground (
    arith,
    own_region,
    inv.same_size,
    inv.in_buffer i offset len,
    inv.apart i j offset len o l,
    length-to_bytes 8 len,
    subspan-write_at_apart cb.data_ (to_bytes 8 len) o (l + 8) offset,
  )
  Move-subspan (store {len} {offset} b h) e = ground (
    arith,
    h,
    own_region,
    inv.same_size,
    inv.in_buffer i offset len,
    inv.apart i j offset len o l,
    subspan-write_at_apart cb.data_ b o (l + 8) (add64 offset 8),
  )
  Move-subspan _ e = refl

-- A step of a thread leaves every byte of an entry that another thread owns as it was, the length
-- prefix included, for fewer than 2 ^ 64 threads and a buffer that is shorter than 2 ^ 64 bytes.
pub owned_bytes_kept :
    {n : ℕ} {data_ : List ℕ} {s : System} {cb : LinearControlBlock} {p : WriterPc}
    → n < u64_mod
    → length data_ < u64_mod
    → Reach n data_ s
    → (i j o l : ℕ) → j ≢ i
    → Move s.block (s.pc i) cb p
    → owned (s.pc j) ≡ some (o, l)
    → subspan cb.data_ o (l + 8) ≡ subspan s.block.data_ o (l + 8)
owned_bytes_kept few small r i j o l d mv own =
    Move-subspan (Reach-RangesInv few small r) small i j o l d own mv refl
