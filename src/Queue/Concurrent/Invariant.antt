-- ===== src/Queue/Concurrent/Invariant.antt =====
-- What holds of the counters and of the acquired ranges in every reachable state.
pub mod Counters
pub mod Ranges
use logging.Prelude.{
  ℕ, zero, suc, ◌+◌, ◌-◌, ◌*◌, ◌/◌, ◌%◌, ◌^◌, ◌≤◌, ◌<◌, min, ◌≡◌, refl, sym, ap, subst, ◌∙◌, ◌≡⟨◌⟩◌,
  ◌∎, ◌≢◌, ◌↔◌, ◌⊎◌, inl, inr, Bool, true, false, not, ◌&&◌, ◌||◌, Option, none, some, List, [],
  ◌∷◌, ◌++◌, map, append-nil, append_assoc, arith, dec_lt, dec_le, ℕ_discrete, ltb, leb, ◌==◌,
  if◌then◌else◌, ltb→lt, lt→ltb, leb→le, ==_iff, Bool-cases, Option-cases, length, get_elem?,
  get_or, take, drop, replicate, length-append, length-take, length-drop, length-replicate,
  take-append, drop-append, take_all, take-append-drop, drop-drop, u64_mod, u32_mod, u16_mod, add64,
  sub64, add32,
}
use Counters.{CountersInv, planned, Move-CountersInv}
use Ranges.{RangesInv, Move-RangesInv}
use logging.Queue.ControlBlock.{LinearControlBlock}
use logging.Queue.Concurrent.{
  WriterPc, outside, committed, System, Step, run, Reach, start, later, fresh_block,
}
use logging.Queue.Concurrent.Weights.{sum_below, sum_below-zero, weight-le-sum_below}

-- The next `fetch_add` on `acquired_index` does not wrap.
pub CountersInv-no_wrap :
    {n : ℕ} {cb : LinearControlBlock} {pc : ℕ → WriterPc}
    → CountersInv n cb pc
    → (i : ℕ) → i < n
    → (len : ℕ) → pc i ≡ committed len
    → cb.acquired_index + (len + 8) < u64_mod
CountersInv-no_wrap {n} {cb} {pc} c i below len e =
    ground (arith, c.headroom, weight-le-sum_below planned n pc i)

pub Reach-CountersInv :
    {n : ℕ} {data_ : List ℕ} {s : System}
    → n < u64_mod
    → Reach n data_ s
    → CountersInv n s.block s.pc
Reach-CountersInv {n} few start = record {
  few = few;
  writers = sym (sum_below-zero _ n _ (λ _. refl));
  balance = omega (arith, sum_below-zero Counters.pending n (λ _. outside) (λ _. refl));
  headroom = omega (arith, sum_below-zero planned n (λ _. outside) (λ _. refl));
  concurrency = omega (arith, sum_below-zero Counters.past_check n (λ _. outside) (λ _. refl));
  short = λ _. tt;
}
Reach-CountersInv few (later r (run i below mv)) =
    Move-CountersInv (Reach-CountersInv few r) i below mv

pub Reach-RangesInv :
    {n : ℕ} {data_ : List ℕ} {s : System}
    → n < u64_mod
    → length data_ < u64_mod
    → Reach n data_ s
    → RangesInv (length data_) s.block s.pc
Reach-RangesInv few small start = record {
  same_size = refl;
  below_index = λ i o l q. cc;
  in_buffer = λ i o l q. cc;
  apart = λ i j o l o' l' d q r. cc;
}
Reach-RangesInv few small (later r (run i below mv)) =
    Move-RangesInv (Reach-RangesInv few small r) i
      (CountersInv-no_wrap (Reach-CountersInv few r) i below) small mv
