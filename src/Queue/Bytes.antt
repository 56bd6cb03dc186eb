-- ===== src/Queue/Bytes.antt =====
-- Memory as a list of bytes. `std::copy_n` into a subspan is `write_at`, `subspan` is `subspan`, and
-- the object representation of a `std::uint64_t` is little-endian, as on the supported targets.
use logging.Prelude.{
  ◌∎, append_assoc, inr, sym, inl, ◌≡⟨◌⟩◌, ◌⊎◌, ◌-◌, ℕ, zero, suc, ◌+◌, ◌*◌, ◌/◌, ◌%◌, ◌≤◌, ◌<◌,
  ◌≡◌, refl, ap, List, [], ◌∷◌, ◌++◌, arith, length, take, drop, length-append, length-take,
  length-drop, take-append, drop-append, drop-drop, u64_mod,
}

-- `k` bytes of a number, the least significant first.
unfoldable pub to_bytes : ℕ → ℕ → List ℕ
to_bytes zero n = []
to_bytes (suc k) n = n % 256 ∷ to_bytes k (n / 256)

unfoldable pub of_bytes : List ℕ → ℕ
of_bytes [] = 0
of_bytes (b ∷ bs) = b + 256 * of_bytes bs

pub subspan : List ℕ → ℕ → ℕ → List ℕ
subspan data_ offset count = take count (drop offset data_)

unfoldable pub write_at : List ℕ → ℕ → List ℕ → List ℕ
write_at data_ offset bytes = take offset data_ ++ (bytes ++ drop (offset + length bytes) data_)

pub length-to_bytes : (k n : ℕ) → length (to_bytes k n) ≡ k
unfolding to_bytes
length-to_bytes zero n = refl
length-to_bytes (suc k) n = ap suc (length-to_bytes k (n / 256))

-- The object representation of a 64-bit number reads back as that number.
pub of_bytes-to_bytes : (n : ℕ) → n < u64_mod → of_bytes (to_bytes 8 n) ≡ n
unfolding to_bytes of_bytes
of_bytes-to_bytes n h = omega arith

-- A write inside the buffer keeps its size.
pub length-write_at :
    (data_ : List ℕ) (offset : ℕ) (bytes : List ℕ)
    → offset + length bytes ≤ length data_
    → length (write_at data_ offset bytes) ≡ length data_
unfolding write_at
length-write_at d o b h = omega (
  arith,
  length-append (take o d) (b ++ drop (o + length b) d),
  length-append b (drop (o + length b) d),
  length-take o d,
  length-drop (o + length b) d,
)

-- A write at the end of a prefix leaves the prefix, and replaces what follows it.
pub write_at-append :
    (xs ys bytes : List ℕ) {o : ℕ}
    → o ≡ length xs
    → write_at (xs ++ ys) o bytes ≡ xs ++ (bytes ++ drop (length bytes) ys)
unfolding write_at
write_at-append xs ys bs {o} e =
    rw (take-append xs ys e, ← drop-drop o (length bs) (xs ++ ys), drop-append xs ys e)

pub subspan-append :
    (xs ys zs : List ℕ) {o n : ℕ}
    → o ≡ length xs
    → n ≡ length ys
    → subspan (xs ++ (ys ++ zs)) o n ≡ ys
unfolding subspan
subspan-append xs ys zs e h = rw (drop-append xs (ys ++ zs) e) (take-append ys zs h)

pub length-subspan :
    (data_ : List ℕ) (o n : ℕ) → o + n ≤ length data_ → length (subspan data_ o n) ≡ n
unfolding subspan
length-subspan d o n h = omega (arith, length-take n (drop o d), length-drop o d)

take-take-append :
    (d r : List ℕ) (n k : ℕ) → n ≤ k → k ≤ length d → take n (take k d ++ r) ≡ take n d
take-take-append d r zero k h l = refl
take-take-append d r (suc n) zero h l = absurd (omega arith)
take-take-append [] r (suc n) (suc k) h l = absurd (omega arith)
take-take-append (x ∷ d) r (suc n) (suc k) h l =
    ap (◌∷◌ x) (take-take-append d r n k (omega arith) (omega arith))

subspan_before :
    (d r : List ℕ) (o n k : ℕ)
    → o + n ≤ k
    → k ≤ length d
    → take n (drop o (take k d ++ r)) ≡ take n (drop o d)
subspan_before d r zero n k h l = take-take-append d r n k (omega arith) l
subspan_before d r (suc o) n zero h l = absurd (omega arith)
subspan_before [] r (suc o) n (suc k) h l = absurd (omega arith)
subspan_before (x ∷ d) r (suc o) n (suc k) h l =
    subspan_before d r o n k (omega arith) (omega arith)

drop_behind :
    (d b : List ℕ) (o k : ℕ)
    → k + length b ≤ o
    → k + length b ≤ length d
    → drop o (take k d ++ (b ++ drop (k + length b) d)) ≡ drop o d
drop_behind d b o k h l =
    drop o (take k d ++ (b ++ drop e d))
    ≡⟨ ap (λ m. drop m (take k d ++ (b ++ drop e d))) split ⟩
      drop (e + (o - e)) (take k d ++ (b ++ drop e d))
    ≡⟨ sym (drop-drop e (o - e) _) ⟩ drop (o - e) (drop e (take k d ++ (b ++ drop e d)))
    ≡⟨ ap (λ l'. drop (o - e) (drop e l')) (sym (append_assoc (take k d) b (drop e d))) ⟩
      drop (o - e) (drop e ((take k d ++ b) ++ drop e d))
    ≡⟨ ap (drop (o - e)) (
        drop-append (take k d ++ b) (drop e d)
          (omega (arith, length-append (take k d) b, length-take k d))) ⟩
      drop (o - e) (drop e d)
    ≡⟨ drop-drop e (o - e) d ⟩ drop (e + (o - e)) d
    ≡⟨ ap (λ m. drop m d) (sym split) ⟩ drop o d ∎
  where
    e : ℕ
    e = k + length b

    split : o ≡ k + length b + (o - (k + length b))
    split = omega arith

-- A write leaves every range alone that it does not meet.
pub subspan-write_at_apart :
    (d b : List ℕ) (o n k : ℕ)
    → (o + n ≤ k) ⊎ (k + length b ≤ o)
    → k + length b ≤ length d
    → subspan (write_at d k b) o n ≡ subspan d o n
unfolding subspan write_at
subspan-write_at_apart d b o n k (inl h) l =
    subspan_before d (b ++ drop (k + length b) d) o n k h (omega arith)
subspan-write_at_apart d b o n k (inr h) l = ap (take n) (drop_behind d b o k h l)
