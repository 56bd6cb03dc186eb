-- ===== src/Queue/Concurrent.antt =====
-- Any number of threads that write to one linear buffer at the same time: each atomic access of
-- wait_free_linear_writer.cpp is a step of its own, in any order. A thread is where it stands in
-- `Acquire` or `Release`, with the local variables that are live there.
pub mod Weights
pub mod Invariant
pub mod Safety
use logging.Prelude.{
  ℕ, zero, suc, ◌+◌, ◌-◌, ◌*◌, ◌/◌, ◌%◌, ◌^◌, ◌≤◌, ◌<◌, min, ◌≡◌, refl, sym, ap, subst, ◌∙◌, ◌≡⟨◌⟩◌,
  ◌∎, ◌≢◌, ◌↔◌, ◌⊎◌, inl, inr, Bool, true, false, not, ◌&&◌, ◌||◌, Option, none, some, List, [],
  ◌∷◌, ◌++◌, map, append-nil, append_assoc, arith, dec_lt, dec_le, ℕ_discrete, ltb, leb, ◌==◌,
  if◌then◌else◌, ltb→lt, lt→ltb, leb→le, ==_iff, Bool-cases, Option-cases, length, get_elem?,
  get_or, take, drop, replicate, length-append, length-take, length-drop, length-replicate,
  take-append, drop-append, take_all, take-append-drop, drop-drop, u64_mod, u32_mod, u16_mod, add64,
  sub64, add32,
}
use Weights.{moved}
use logging.Queue.Bytes.{to_bytes, write_at}
use logging.Queue.ControlBlock.{
  LinearControlBlock, get_max_acquire_length_bytes, get_max_number_of_concurrent_writers,
  get_max_linear_buffer_capacity_bytes, do_bytes_fit_in_remaining_capacity,
}
use logging.Queue.LinearWriter.{terminate_buffer}

pub data WriterPc : Type 0 where
  outside : WriterPc
  counted : (len : ℕ) → WriterPc  -- after `++number_of_writers`
  admitted : (len : ℕ) → WriterPc  -- `writer_concurrency` and `length` are within their limits
  committed : (len : ℕ) → WriterPc  -- the load of `acquired_index` found room
  fetched : (len offset : ℕ) → WriterPc  -- the range lies inside the buffer
  failed : (len offset : ℕ) → WriterPc  -- the range does not, `TerminateBuffer` follows
  holding : (len offset : ℕ) → WriterPc  -- `Acquire` has returned the span
  leaving : WriterPc  -- before `number_of_writers--`

-- One access of one thread.
pub data Move (cb : LinearControlBlock) : WriterPc → LinearControlBlock → WriterPc → Type 0 where
  enter :
      (len : ℕ)
      → len < u64_mod
      → Move cb outside
          (record cb { number_of_writers = add64 cb.number_of_writers 1 })
          (counted len)
  turn_away :
      {len : ℕ}
      → (get_max_number_of_concurrent_writers < cb.number_of_writers)
        ⊎ (get_max_acquire_length_bytes < len)
      → Move cb (counted len) cb leaving
  admit :
      {len : ℕ}
      → cb.number_of_writers ≤ get_max_number_of_concurrent_writers
      → len ≤ get_max_acquire_length_bytes
      → Move cb (counted len) cb (admitted len)
  see_full :
      {len : ℕ}
      → (get_max_linear_buffer_capacity_bytes ≤ cb.acquired_index)
        ⊎ (do_bytes_fit_in_remaining_capacity cb.data_ cb.acquired_index (add64 len 8) ≡ false)
      → Move cb (admitted len) cb leaving
  see_room :
      {len : ℕ}
      → cb.acquired_index < get_max_linear_buffer_capacity_bytes
      → do_bytes_fit_in_remaining_capacity cb.data_ cb.acquired_index (add64 len 8) ≡ true
      → Move cb (admitted len) cb (committed len)
  fetch :
      {len : ℕ}
      → do_bytes_fit_in_remaining_capacity cb.data_ cb.acquired_index (add64 len 8) ≡ true
      → Move cb
          (committed len)
          (record cb { acquired_index = add64 cb.acquired_index (add64 len 8) })
          (fetched len cb.acquired_index)
  lose :
      {len : ℕ}
      → do_bytes_fit_in_remaining_capacity cb.data_ cb.acquired_index (add64 len 8) ≡ false
      → Move cb
          (committed len)
          (record cb { acquired_index = add64 cb.acquired_index (add64 len 8) })
          (failed len cb.acquired_index)
  give_up : {len offset : ℕ} → Move cb (failed len offset) (terminate_buffer cb offset len) leaving
  prefix :
      {len offset : ℕ}
      → Move cb
          (fetched len offset)
          (record cb { data_ = write_at cb.data_ offset (to_bytes 8 len) })
          (holding len offset)
  store :
      {len offset : ℕ} (bytes : List ℕ)
      → length bytes ≡ len
      → Move cb
          (holding len offset)
          (record cb { data_ = write_at cb.data_ (add64 offset 8) bytes })
          (holding len offset)
  publish :
      {len offset : ℕ}
      → Move cb
          (holding len offset)
          (record cb { written_index = add64 cb.written_index (add64 len 8) })
          leaving
  leave : Move cb leaving (record cb { number_of_writers = sub64 cb.number_of_writers 1 }) outside

pub record System : Type 0 where
  pub block : LinearControlBlock
  pub pc : ℕ → WriterPc

-- Threads are numbered below `n`.
pub data Step (n : ℕ) (s : System) : System → Type 0 where
  run :
      (i : ℕ) {cb : LinearControlBlock} {p : WriterPc}
      → i < n
      → Move s.block (s.pc i) cb p
      → Step n s (record { block = cb; pc = moved s.pc i p })

abbrev pub fresh_block : List ℕ → LinearControlBlock
fresh_block data_ = record {
  data_ = data_;
  acquired_index = 0;
  written_index = 0;
  number_of_writers = 0;
}

pub data Reach (n : ℕ) (data_ : List ℕ) : System → Type 0 where
  start : Reach n data_ (record { block = fresh_block data_; pc = λ _. outside })
  later : {s t : System} → Reach n data_ s → Step n s t → Reach n data_ t
