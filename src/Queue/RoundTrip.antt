-- ===== src/Queue/RoundTrip.antt =====
-- One writer after another on a linear buffer, against a bounded queue of byte strings.
use logging.Prelude.{
  ◌⊎◌, inr, inl, Bool-cases, if◌then◌else◌, dec_lt, ◌∎, append-nil, sym, ◌≡⟨◌⟩◌, ◌&&◌,
  length-append, leb, drop, ap, arith, ◌+◌, ℕ, ◌≤◌, ◌<◌, ◌≡◌, refl, Bool, true, false, List, [],
  ◌∷◌, ◌++◌, append_assoc, Option, none, some, length,
}
use logging.Queue.Bytes.{length-write_at, write_at-append, length-to_bytes, to_bytes, write_at}
use logging.Queue.ControlBlock.{
  fits_not, fits, get_max_acquire_length_bytes, LinearControlBlock,
  get_max_linear_buffer_capacity_bytes,
}
use logging.Queue.LinearWriter.{AcquiredData, acquire, release}

-- The entries of a buffer, each a length prefix and a payload.
unfoldable pub encode : List (List ℕ) → List ℕ
encode [] = []
encode (p ∷ ps) = to_bytes 8 (length p) ++ (p ++ encode ps)

-- A client of the writer: acquire, fill the span, release.
fill : List ℕ → LinearControlBlock × Option AcquiredData → LinearControlBlock × Bool
fill p (cb, none) = (cb, false)
fill p (cb, some a) = (release (record cb { data_ = write_at cb.data_ a.offset p }) a, true)

pub put_entry : LinearControlBlock → List ℕ → LinearControlBlock × Bool
unfolding fill
put_entry cb p = fill p (acquire (λ c. c) cb (length p))

-- The buffer holds the entries `ps`, all of them written, and no writer is left over.
pub record Holds (cb : LinearControlBlock) (ps : List (List ℕ)) : Type 0 where
  pub rest : List ℕ
  pub layout : cb.data_ ≡ encode ps ++ rest
  pub acquired : cb.acquired_index ≡ length (encode ps)
  pub written : cb.written_index ≡ length (encode ps)
  pub few : cb.number_of_writers < 64
  pub size : length cb.data_ ≤ get_max_linear_buffer_capacity_bytes

pub encode-append : (ps qs : List (List ℕ)) → encode (ps ++ qs) ≡ encode ps ++ encode qs
unfolding encode
encode-append [] qs = refl
encode-append (p ∷ ps) qs =
    rw
      (
        encode-append ps qs,
        ← append_assoc p (encode ps) (encode qs),
        append_assoc (to_bytes 8 (length p)) (p ++ encode ps) (encode qs),
      )
      refl

module _ (cb : LinearControlBlock) (len : ℕ) (few : cb.number_of_writers < 64)
    (size : length cb.data_ ≤ get_max_linear_buffer_capacity_bytes) where
  -- With room for the entry the range is acquired, and starts at the old `acquired_index`.
  pub acquire_room :
      len ≤ get_max_acquire_length_bytes
      → cb.acquired_index + (len + 8) ≤ length cb.data_
      → acquire (λ c. c) cb len ≡ (
        record cb {
          data_ = write_at cb.data_ cb.acquired_index (to_bytes 8 len);
          acquired_index = cb.acquired_index + (len + 8);
          number_of_writers = cb.number_of_writers + 1;
        },
        some (record { offset = cb.acquired_index + 8; size = len }),
      )
  unfolding acquire
  acquire_room short room = ground (arith, fits cb.data_ cb.acquired_index (len + 8))

  -- Without room nothing is acquired, and the block is as it was.
  pub acquire_full :
      length cb.data_ < cb.acquired_index + (len + 8) → acquire (λ c. c) cb len ≡ (cb, none)
  unfolding acquire
  acquire_full full = ground (arith, fits_not cb.data_ cb.acquired_index (len + 8))

  pub acquire_long : get_max_acquire_length_bytes < len → acquire (λ c. c) cb len ≡ (cb, none)
  unfolding acquire
  acquire_long long = ground arith

pub encode-length_snoc :
    (ps : List (List ℕ)) (p : List ℕ)
    → length (encode (ps ++ p ∷ [])) ≡ length (encode ps) + (length p + 8)
unfolding encode
encode-length_snoc ps p = omega (
  arith,
  ap length (encode-append ps (p ∷ [])),
  length-append (encode ps) (encode (p ∷ [])),
  length-append (to_bytes 8 (length p)) (p ++ []),
  length-append p [],
  length-to_bytes 8 (length p),
)

-- The two writes of an entry, one behind the other, at the end of what is there.
entry_layout :
    (ps : List (List ℕ)) (p rest : List ℕ) {o : ℕ}
    → o ≡ length (encode ps)
    → write_at (write_at (encode ps ++ rest) o (to_bytes 8 (length p))) (o + 8) p
      ≡ encode (ps ++ p ∷ []) ++ drop (length p) (drop 8 rest)
unfolding encode
entry_layout ps p rest {o} e =
    write_at (write_at (encode ps ++ rest) o (to_bytes 8 (length p))) (o + 8) p
    ≡⟨ ap (λ d. write_at d (o + 8) p) (write_at-append (encode ps) rest (to_bytes 8 (length p)) e) ⟩
      write_at (encode ps ++ (to_bytes 8 (length p) ++ tail)) (o + 8) p
    ≡⟨ ap (λ d. write_at d (o + 8) p)
        (sym (append_assoc (encode ps) (to_bytes 8 (length p)) tail)) ⟩
      write_at ((encode ps ++ to_bytes 8 (length p)) ++ tail) (o + 8) p
    ≡⟨ write_at-append (encode ps ++ to_bytes 8 (length p)) tail p (
        omega (
          arith,
          length-append (encode ps) (to_bytes 8 (length p)),
          length-to_bytes 8 (length p),
        )) ⟩
      (encode ps ++ to_bytes 8 (length p)) ++ (p ++ drop (length p) tail)
    ≡⟨ (simp (append_assoc, encode-append, append-nil, length-to_bytes)) ⟩
      encode (ps ++ p ∷ []) ++ drop (length p) (drop 8 rest) ∎
  where
    tail : List ℕ
    tail = drop (length (to_bytes 8 (length p))) rest

-- What the abstract queue asks of a new entry.
unfoldable pub entry_fits : ℕ → List (List ℕ) → List ℕ → Bool
entry_fits capacity ps p =
    leb (length p) get_max_acquire_length_bytes
    && leb (length (encode ps) + (length p + 8)) capacity

pub entry_fits_parts :
    (capacity : ℕ) (ps : List (List ℕ)) (p : List ℕ)
    → entry_fits capacity ps p ≡ true
    → (length p ≤ get_max_acquire_length_bytes) × (length (encode ps) + (length p + 8) ≤ capacity)
unfolding entry_fits
entry_fits_parts capacity ps p e = ground arith

-- The block after an entry that is accepted.
pub put_entry_room :
    (cb : LinearControlBlock) (p : List ℕ)
    → cb.number_of_writers < 64
    → length cb.data_ ≤ get_max_linear_buffer_capacity_bytes
    → length p ≤ get_max_acquire_length_bytes
    → cb.acquired_index + (length p + 8) ≤ length cb.data_
    → put_entry cb p ≡ (
      release
          (record cb {
            data_ =
                write_at
                  (write_at cb.data_ cb.acquired_index (to_bytes 8 (length p)))
                  (cb.acquired_index + 8)
                  p;
            acquired_index = cb.acquired_index + (length p + 8);
            number_of_writers = cb.number_of_writers + 1;
          })
          (record { offset = cb.acquired_index + 8; size = length p }),
      true,
    )
unfolding put_entry
put_entry_room cb p few size short room = rw (acquire_room cb (length p) few size short room) refl

pub put_entry_accepts :
    (cb : LinearControlBlock) (ps : List (List ℕ)) (p : List ℕ)
    → Holds cb ps
    → length p ≤ get_max_acquire_length_bytes
    → length (encode ps) + (length p + 8) ≤ length cb.data_
    → ((put_entry cb p).1 ≡ true)
      × Holds (put_entry cb p).0 (ps ++ p ∷ [])
      × (length (put_entry cb p).0.data_ ≡ length cb.data_)
unfolding put_entry release
put_entry_accepts cb ps p h short room =
    rw (acquire_room cb (length p) h.few h.size short (omega (arith, h.acquired))) (
      refl,
      record {
        rest = drop (length p) (drop 8 h.rest);
        layout = rw h.layout (entry_layout ps p h.rest h.acquired);
        acquired = omega (arith, h.acquired, encode-length_snoc ps p);
        written = omega (arith, h.written, h.size, encode-length_snoc ps p);
        few = omega (arith, h.few);
        size = omega (arith, h.size, same_size);
      },
      same_size,
    )
  where
    same_size :
        length (
          write_at
            (write_at cb.data_ cb.acquired_index (to_bytes 8 (length p)))
            (cb.acquired_index + 8)
            p)
        ≡ length cb.data_
    same_size = omega (
      arith,
      h.acquired,
      length-to_bytes 8 (length p),
      length-write_at cb.data_ cb.acquired_index (to_bytes 8 (length p)),
      length-write_at (write_at cb.data_ cb.acquired_index (to_bytes 8 (length p)))
          (cb.acquired_index + 8) p,
    )

put_entry_rejects :
    (cb : LinearControlBlock) (ps : List (List ℕ)) (p : List ℕ)
    → Holds cb ps
    → entry_fits (length cb.data_) ps p ≡ false
    → put_entry cb p ≡ (cb, false)
unfolding put_entry entry_fits
put_entry_rejects cb ps p h e = elim (dec_lt get_max_acquire_length_bytes (length p)) [
  | yes long ↦ rw (acquire_long cb (length p) h.few h.size long) refl
  | no short ↦ rw (acquire_full cb (length p) h.few h.size (ground (arith, h.acquired))) refl
]

-- A linear buffer with no other writer is a bounded queue: an entry is accepted exactly when it is
-- not too long and its prefix and payload fit behind the entries that are there, and then the buffer
-- holds those and it, in order, in as many bytes as before; an entry that is not accepted leaves the
-- whole block as it was.
pub put_entry-Holds :
    (cb : LinearControlBlock) (ps : List (List ℕ)) (p : List ℕ)
    → Holds cb ps
    → ((put_entry cb p).1 ≡ entry_fits (length cb.data_) ps p)
      × Holds (put_entry cb p).0 (if entry_fits (length cb.data_) ps p then ps ++ p ∷ [] else ps)
      × (length (put_entry cb p).0.data_ ≡ length cb.data_)
      × ((entry_fits (length cb.data_) ps p ≡ true) ⊎ (put_entry cb p ≡ (cb, false)))
put_entry-Holds cb ps p h = elim (Bool-cases (entry_fits (length cb.data_) ps p)) [
  | inl yes_ ↦
      let (a, b) = entry_fits_parts (length cb.data_) ps p yes_ in
      let (taken, holds, same) = put_entry_accepts cb ps p h a b in
      rw yes_ (taken, holds, same, inl refl)
  | inr no_ ↦ let e = put_entry_rejects cb ps p h no_ in rw (no_, e) (refl, h, refl, inr refl)
]
