-- ===== src/SharedMemory/Tests.antt =====
-- The theorems at a header of 16 bytes, a buffer of 128 bytes, and times that are one bit.
use logging.Prelude.{
  ℕ, ◌≤◌, ◌≡◌, refl, Bool, true, false, none, List, [], ◌∷◌, ◌++◌, map, arith, ◌==◌, if◌then◌else◌,
  get_or, take, drop, replicate,
}
use logging.Queue.Bytes.{to_bytes, of_bytes}
use logging.Queue.ControlBlock.{LinearControlBlock}
use logging.Queue.RoundTrip.{Holds, encode}
use logging.Queue.Drain.{put_all}
use logging.Queue.LinearReader.{LinearReader, create_linear_reader_from_control_block}
use logging.Queue.Concurrent.{fresh_block}
use logging.SharedMemory.Records.{
  read_entries, get_register_type_token, BufferEntryHeader, HeaderLayout, HeaderLaws,
  read_linear_buffer,
}
use logging.SharedMemory.Writer.{SharedData, alloc_and_write}
use logging.SharedMemory.Reader.{
  SharedMemoryReader, new_shared_memory_reader, detach_reader, read_shared,
}
use logging.SharedMemory.Reading.{read_linear_buffer-enough, read_shared-read_shared}
use logging.SharedMemory.RoundTrip.{
  delivered, entry_of, kept, read_linear_buffer-delivered, wrote_record, wrote_type, Written,
}
use logging.SharedMemory.Undisturbed.{alone}
use logging.SharedMemory.Writing.{Accounted, alloc_and_write-Accounted}

abbrev bit_layout : HeaderLayout Bool
bit_layout = record {
  size_of_header = 16;
  header_bytes = λ h.
      (if h.time_stamp then 1 else 0)
      ∷ (replicate 7 0 ++ (to_bytes 2 h.type_identifier ++ replicate 6 0));
  header_of = λ bytes. record {
    time_stamp = get_or bytes 0 0 == 1;
    type_identifier = of_bytes (take 2 (drop 8 bytes));
  };
}

flag_back : (b : Bool) → ((if b then 1 else 0) == 1) ≡ b
flag_back true = refl
flag_back false = refl

identifier_back : (n : ℕ) → n ≤ get_register_type_token → of_bytes (to_bytes 2 n) ≡ n
unfolding to_bytes of_bytes
identifier_back n le = omega arith

bit_layout_laws : HeaderLaws bit_layout
unfolding to_bytes
bit_layout_laws = record {
  length-header_bytes = λ h. refl;
  header_of-header_bytes = λ h le i. record {
    time_stamp = flag_back h.time_stamp i;
    type_identifier = identifier_back h.type_identifier le i;
  };
}

abbrev small_block : LinearControlBlock
small_block = fresh_block (replicate 128 0)

small_block-Holds : Holds small_block []
unfolding encode
small_block-Holds = record {
  rest = replicate 128 0;
  layout = refl;
  acquired = refl;
  written = refl;
  few = omega arith;
  size = omega arith;
}

abbrev header : BufferEntryHeader Bool
header = record { time_stamp = true; type_identifier = 5 }

abbrev entry : List ℕ
entry = bit_layout.header_bytes header ++ 1 ∷ 2 ∷ 3 ∷ []

-- A registration of type 5 and a record of it.
abbrev written : List (Written Bool)
written = wrote_type false 5 (7 ∷ 7 ∷ []) ∷ wrote_record true 5 (1 ∷ 2 ∷ 3 ∷ []) ∷ []

read_linear_buffer-delivered_example :
    (read_linear_buffer bit_layout (
      create_linear_reader_from_control_block
        (put_all small_block (map (entry_of bit_layout) written)))).1
    ≡ map delivered (kept bit_layout 128 [] written)
read_linear_buffer-delivered_example =
    read_linear_buffer-delivered bit_layout bit_layout_laws small_block written
      (omega arith, (omega arith, tt)) small_block-Holds

-- Bytes that no writer has written.
abbrev garbage : LinearReader
garbage = record { data_ = 255 ∷ 1 ∷ 2 ∷ 3 ∷ 4 ∷ 5 ∷ 6 ∷ 7 ∷ 8 ∷ 9 ∷ []; read_index = 0 }

read_linear_buffer-enough_example :
    read_entries bit_layout 111 garbage ≡ (read_linear_buffer bit_layout garbage).1
read_linear_buffer-enough_example = read_linear_buffer-enough bit_layout 100 garbage (omega arith)

abbrev shared : SharedData
shared = record {
  control_block = record {
    control_block_even = small_block;
    control_block_odd = small_block;
    switch_count = 1;
  };
  number_of_drops_buffer_full = 0;
  size_of_drops_buffer_full = 0;
  number_of_drops_invalid_size = 0;
  number_of_drops_type_registration_failed = 0;
  writer_detached = false;
}

abbrev after_read : SharedMemoryReader
after_read = (read_shared bit_layout shared (detach_reader (new_shared_memory_reader shared))).0

-- A writer has written to the other block in the meantime.
abbrev shared_later : SharedData
shared_later = record shared {
  control_block = record shared.control_block {
    control_block_even = put_all small_block (entry ∷ []);
  };
}

read_shared-read_shared_example :
    read_shared bit_layout shared_later after_read ≡ (after_read, (none, []))
read_shared-read_shared_example =
    read_shared-read_shared bit_layout shared (detach_reader (new_shared_memory_reader shared))
      shared_later refl

alloc_and_write-Accounted_example :
    Accounted bit_layout bit_layout_laws shared [] header
      (1 ∷ 2 ∷ 3 ∷ [])
      (alloc_and_write bit_layout alone true 5 (1 ∷ 2 ∷ 3 ∷ []) shared)
alloc_and_write-Accounted_example =
    alloc_and_write-Accounted bit_layout bit_layout_laws shared [] small_block-Holds refl true 5
      (1 ∷ 2 ∷ 3 ∷ [])
