-- ===== src/Queue/Drain.antt =====
-- Reading back what a linear buffer holds: `Read` called until it returns nothing, as the loop of
-- `ReadLinearBuffer` does, and a run of writes before it.
use logging.Prelude.{
  ℕ, zero, suc, ◌+◌, ◌≤◌, ◌<◌, min, ◌≡◌, refl, sym, ap, subst, ◌∙◌, inl, inr, none, some, List, [],
  ◌∷◌, ◌++◌, append-nil, append_assoc, arith, if◌then◌else◌, Bool-cases, length, length-append,
  u64_mod,
}
use logging.Queue.Bytes.{
  to_bytes, of_bytes, subspan, length-to_bytes, of_bytes-to_bytes, subspan-append,
}
use logging.Queue.ControlBlock.{LinearControlBlock, get_max_acquire_length_bytes, fits, fits_not}
use logging.Queue.LinearReader.{LinearReader, read, create_linear_reader_from_control_block}
use logging.Queue.RoundTrip.{
  entry_fits_parts, encode-length_snoc, encode, Holds, put_entry, entry_fits, put_entry-Holds,
  encode-append,
}

-- The rounds are bounded by `fuel`; `drain-encode` shows that one more than the entries is enough.
unfoldable pub drain : ℕ → LinearReader → List (List ℕ)
drain zero r = []
drain (suc fuel) r =
    let (r', entry) = read r in elim entry [ none ↦ [] | some p ↦ p ∷ drain fuel r' ]

module _ (xs p ys : List ℕ) (short : length p ≤ get_max_acquire_length_bytes) (r : LinearReader)
    (layout : r.data_ ≡ xs ++ (to_bytes 8 (length p) ++ (p ++ ys))) (at : r.read_index ≡ length xs)
    (size : length r.data_ < u64_mod) where
  room : r.read_index + (8 + length p) ≤ length r.data_
  room = omega (
    arith,
    at,
    ap length layout,
    length-append xs (to_bytes 8 (length p) ++ (p ++ ys)),
    length-append (to_bytes 8 (length p)) (p ++ ys),
    length-append p ys,
    length-to_bytes 8 (length p),
  )

  prefix : of_bytes (subspan r.data_ r.read_index 8) ≡ length p
  prefix =
      rw
        (
          layout,
          subspan-append xs (to_bytes 8 (length p)) (p ++ ys) at
              (sym (length-to_bytes 8 (length p))),
        )
        (of_bytes-to_bytes (length p) (omega arith))

  payload : subspan r.data_ (r.read_index + 8) (length p) ≡ p
  payload =
      rw (layout, sym (append_assoc xs (to_bytes 8 (length p)) (p ++ ys)))
        (subspan-append (xs ++ to_bytes 8 (length p)) p ys
          (omega
            (arith, at, length-append xs (to_bytes 8 (length p)), length-to_bytes 8 (length p)))
          refl)

  -- At an entry `Read` returns its payload, and moves behind it.
  read_at_entry : read r ≡ (record r { read_index = r.read_index + (length p + 8) }, some p)
  unfolding read
  read_at_entry = ground (
    arith,
    room,
    prefix,
    payload,
    fits r.data_ r.read_index 8,
    fits r.data_ r.read_index (8 + length p),
  )

-- Behind the last entry `Read` returns nothing.
read_at_end : (r : LinearReader) → r.read_index ≡ length r.data_ → read r ≡ (r, none)
unfolding read
read_at_end r e = ground (arith, fits_not r.data_ r.read_index 8)

abbrev Short : List (List ℕ) → Type 0
Short [] = Unit
Short (p ∷ ps) = (length p ≤ get_max_acquire_length_bytes) × Short ps

drain_from :
    (fuel : ℕ) (before ps : List (List ℕ)) (r : LinearReader)
    → length ps < fuel
    → Short ps
    → r.data_ ≡ encode before ++ encode ps
    → r.read_index ≡ length (encode before)
    → length r.data_ < u64_mod
    → drain fuel r ≡ ps
unfolding drain encode
drain_from zero before ps r f s l a b = absurd (omega arith)
drain_from (suc fuel) before [] r f s l a b =
    rw (read_at_end r (a ∙ omega (arith, ap length l, length-append (encode before) [])), drain)
      refl
drain_from (suc fuel) before (p ∷ ps) r f s l a b = ground (
  arith,
  read_at_entry (encode before) p (encode ps) s.0 r l a b,
  drain_from fuel (before ++ p ∷ []) ps (record r { read_index = r.read_index + (length p + 8) })
      (omega arith) s.1 (l ∙ regroup) (omega (arith, a, encode-length_snoc before p)) b,
)
  where
    regroup : encode before ++ encode (p ∷ ps) ≡ encode (before ++ p ∷ []) ++ encode ps
    regroup = simp (encode-append, append_assoc, append-nil)

-- What a bounded queue of `capacity` bytes keeps of a run of entries, after `ps`.
unfoldable pub accepted : ℕ → List (List ℕ) → List (List ℕ) → List (List ℕ)
accepted capacity ps [] = ps
accepted capacity ps (q ∷ qs) =
    accepted capacity (if entry_fits capacity ps q then ps ++ q ∷ [] else ps) qs

pub put_all : LinearControlBlock → List (List ℕ) → LinearControlBlock
put_all cb [] = cb
put_all cb (q ∷ qs) = put_all (put_entry cb q).0 qs

pub put_all-Holds :
    (cb : LinearControlBlock) (ps qs : List (List ℕ))
    → Holds cb ps
    → Holds (put_all cb qs) (accepted (length cb.data_) ps qs)
unfolding put_all accepted
put_all-Holds cb ps [] h = h
put_all-Holds cb ps (q ∷ qs) h =
    let (_, next, same, _) = put_entry-Holds cb ps q h in
    subst
      (λ n.
        Holds (put_all (put_entry cb q).0 qs)
          (accepted n (if entry_fits (length cb.data_) ps q then ps ++ q ∷ [] else ps) qs))
      same (put_all-Holds (put_entry cb q).0 _ qs next)

Short-snoc :
    (ps : List (List ℕ)) (q : List ℕ)
    → Short ps
    → length q ≤ get_max_acquire_length_bytes
    → Short (ps ++ q ∷ [])
Short-snoc [] q s h = (h, tt)
Short-snoc (p ∷ ps) q s h = (s.0, Short-snoc ps q s.1 h)

drain-Holds :
    (fuel : ℕ) (cb : LinearControlBlock) (ps : List (List ℕ))
    → Holds cb ps
    → Short ps
    → length ps < fuel
    → drain fuel (create_linear_reader_from_control_block cb) ≡ ps
unfolding create_linear_reader_from_control_block encode
drain-Holds fuel cb ps h s f =
    drain_from fuel [] ps _ f s cropped refl (
      omega
        (arith, h.size, ap length cropped, ap length h.layout, length-append (encode ps) h.rest))
  where
    cropped : subspan cb.data_ 0 (min cb.written_index (length cb.data_)) ≡ encode ps
    cropped = rw h.layout (
        subspan-append [] (encode ps) h.rest refl
          (omega (arith, h.written, ap length h.layout, length-append (encode ps) h.rest)))

accepted-Short : (capacity : ℕ) (ps qs : List (List ℕ)) → Short ps → Short (accepted capacity ps qs)
unfolding accepted
accepted-Short capacity ps [] s = s
accepted-Short capacity ps (q ∷ qs) s = elim (Bool-cases (entry_fits capacity ps q)) [
  | inl e ↦ rw e (
      accepted-Short capacity (ps ++ q ∷ []) qs
        (Short-snoc ps q s (entry_fits_parts capacity ps q e).0))
  | inr e ↦ rw e (accepted-Short capacity ps qs s)
]

-- A buffer that starts empty and is written by one writer after another gives back, read by `Read`
-- until it returns nothing, exactly the entries that a bounded queue of that many bytes accepts, in
-- order and byte for byte; one more round than entries is enough for the reader to come to the end.
pub drain-put_all :
    (fuel : ℕ) (cb : LinearControlBlock) (qs : List (List ℕ))
    → Holds cb []
    → length (accepted (length cb.data_) [] qs) < fuel
    → drain fuel (create_linear_reader_from_control_block (put_all cb qs))
      ≡ accepted (length cb.data_) [] qs
drain-put_all fuel cb qs h f =
    drain-Holds fuel (put_all cb qs) _ (put_all-Holds cb [] qs h)
      (accepted-Short (length cb.data_) [] qs tt) f
