-- ===== src/Queue/Concurrent/Invariant/Ranges.antt =====
-- The ranges that the threads have acquired: inside the buffer, and pairwise apart.
use logging.Prelude.{
  ℕ, ◌+◌, ◌≤◌, ◌<◌, ◌≡◌, refl, ◌≢◌, ◌⊎◌, Option, none, some, arith, length, u64_mod, add64,
}
use logging.Queue.Bytes.{to_bytes, length-write_at, length-to_bytes}
use logging.Queue.ControlBlock.{LinearControlBlock, do_bytes_fit_iff}
use logging.Queue.LinearWriter.{terminate_buffer}
use logging.Queue.Concurrent.{
  WriterPc, committed, fetched, failed, holding, Move, fetch, lose, give_up, prefix, store,
}
use logging.Queue.Concurrent.Weights.{moved}

-- Offset and length of an acquired entry, its length prefix not counted.
abbrev pub region : WriterPc → Option (ℕ × ℕ)
region (fetched len offset) = some (offset, len)
region (failed len offset) = some (offset, len)
region (holding len offset) = some (offset, len)
region _ = none

-- A successful acquisition.
abbrev pub owned : WriterPc → Option (ℕ × ℕ)
owned (fetched len offset) = some (offset, len)
owned (holding len offset) = some (offset, len)
owned _ = none

pub record RangesInv (size : ℕ) (cb : LinearControlBlock) (pc : ℕ → WriterPc) : Type 0 where
  pub same_size : length cb.data_ ≡ size
  pub below_index : (i o l : ℕ) → region (pc i) ≡ some (o, l) → o + (l + 8) ≤ cb.acquired_index
  pub in_buffer : (i o l : ℕ) → owned (pc i) ≡ some (o, l) → o + (l + 8) ≤ size
  pub apart :
      (i j o l o' l' : ℕ)
      → i ≢ j
      → region (pc i) ≡ some (o, l)
      → region (pc j) ≡ some (o', l')
      → (o + (l + 8) ≤ o') ⊎ (o' + (l' + 8) ≤ o)

module _ {size : ℕ} {cb : LinearControlBlock} {pc : ℕ → WriterPc} (inv : RangesInv size cb pc)
    (i : ℕ) (no_wrap : (len : ℕ) → pc i ≡ committed len → cb.acquired_index + (len + 8) < u64_mod)
    (small : size < u64_mod) where
  open inv use {same_size, below_index, in_buffer, apart}

  Move-size :
      {p p' : WriterPc} {cb' : LinearControlBlock}
      → Move cb p cb' p'
      → p ≡ pc i
      → length cb'.data_ ≡ size
  unfolding terminate_buffer
  Move-size (give_up {len} {offset}) e = ground (
    arith,
    same_size,
    length-to_bytes 8 len,
    do_bytes_fit_iff cb.data_ offset 8,
    length-write_at cb.data_ offset (to_bytes 8 len),
  )
  Move-size (prefix {len} {offset}) e = omega (
    arith,
    same_size,
    in_buffer i offset len (rw (← e) refl),
    length-to_bytes 8 len,
    length-write_at cb.data_ offset (to_bytes 8 len),
  )
  Move-size (store {len} {offset} b h) e = omega (
    arith,
    h,
    same_size,
    in_buffer i offset len (rw (← e) refl),
    length-write_at cb.data_ (add64 offset 8) b,
  )
  Move-size _ e = same_size

  Move-below :
      {p p' : WriterPc} {cb' : LinearControlBlock}
      → Move cb p cb' p'
      → p ≡ pc i
      → (j o l : ℕ) → region (moved pc i p' j) ≡ some (o, l)
      → o + (l + 8) ≤ cb'.acquired_index
  unfolding terminate_buffer
  Move-below (fetch {len} h) e j o l q = ground (arith, below_index j o l, no_wrap len)
  Move-below (lose {len} h) e j o l q = ground (arith, below_index j o l, no_wrap len)
  Move-below _ e j o l q = ground (arith, below_index j o l)

  Move-in_buffer :
      {p p' : WriterPc} {cb' : LinearControlBlock}
      → Move cb p cb' p'
      → p ≡ pc i
      → (j o l : ℕ) → owned (moved pc i p' j) ≡ some (o, l)
      → o + (l + 8) ≤ size
  Move-in_buffer (fetch {len} h) e j o l q = ground (
    arith,
    in_buffer j o l,
    same_size,
    no_wrap len,
    do_bytes_fit_iff cb.data_ cb.acquired_index (add64 len 8),
  )
  Move-in_buffer (lose {len} h) e j o l q = ground (arith, in_buffer j o l)
  Move-in_buffer _ e j o l q = ground (arith, in_buffer j o l)

  Move-apart :
      {p p' : WriterPc} {cb' : LinearControlBlock}
      → Move cb p cb' p'
      → p ≡ pc i
      → (j k o l o' l' : ℕ) → j ≢ k
      → region (moved pc i p' j) ≡ some (o, l)
      → region (moved pc i p' k) ≡ some (o', l')
      → (o + (l + 8) ≤ o') ⊎ (o' + (l' + 8) ≤ o)
  Move-apart (fetch {len} h) e j k o l o' l' d q r =
      ground (arith, apart j k o l o' l', below_index j o l, below_index k o' l')
  Move-apart (lose {len} h) e j k o l o' l' d q r =
      ground (arith, apart j k o l o' l', below_index j o l, below_index k o' l')
  Move-apart _ e j k o l o' l' d q r = ground (arith, apart j k o l o' l')

  pub Move-RangesInv :
      {p' : WriterPc} {cb' : LinearControlBlock}
      → Move cb (pc i) cb' p'
      → RangesInv size cb' (moved pc i p')
  Move-RangesInv mv = record {
    same_size = Move-size mv refl;
    below_index = Move-below mv refl;
    in_buffer = Move-in_buffer mv refl;
    apart = Move-apart mv refl;
  }
