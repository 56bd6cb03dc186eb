-- ===== src/FileTransfer/Copies.antt =====
-- What the copies of a list of arguments leave in a buffer of zeros.
use logging.Prelude.{
  ℕ, zero, suc, ◌+◌, ◌-◌, ◌/◌, ◌%◌, ◌≤◌, ◌<◌, ◌≡◌, sym, ap, subst, ◌∙◌, List, [], ◌∷◌, ◌++◌,
  append-nil, append_assoc, arith, length, drop, replicate, length-append, length-replicate,
  u16_mod,
}
use logging.Queue.Bytes.{to_bytes, write_at, length-to_bytes, write_at-append}
use logging.FileTransfer.Packages.{
  Writer, copy, strg_utf8, uint_32bit, uint_16bit, sint_16bit, rawd, copy_flag, copy_uint32,
  copy_uint16, copy_string, copy_error,
}
use logging.FileTransfer.Arguments.{
  Argument, encode, encode_all, IsRegular, AreRegular, count_raw, copy_raw, copy_argument, copy_all,
  size_of, size_of_all, room_of, Fits, flag, uint32, uint16, text, code, linux_code, raw,
}

-- The bytes are written, and `k` zeros follow.
pub record Holds (bytes : List ℕ) (k : ℕ) (w : Writer) : Type 0 where
  pub content : w.buffer ≡ bytes ++ replicate k 0
  pub size : w.buffersize ≡ length bytes

abbrev pub zeros : ℕ → List ℕ
zeros k = replicate k 0

drop-zeros : (n k : ℕ) → drop n (zeros k) ≡ zeros (k - n)
drop-zeros zero k = ap zeros (omega arith)
drop-zeros (suc n) zero = ap zeros {x = 0} (omega arith)
drop-zeros (suc n) (suc k) = drop-zeros n k ∙ ap zeros (omega arith)

zeros-append : (n k : ℕ) → zeros n ++ zeros k ≡ zeros (n + k)
zeros-append zero k = ap zeros (omega arith)
zeros-append (suc n) k = ap (◌∷◌ 0) (zeros-append n k) ∙ ap zeros {x = suc (n + k)} (omega arith)

length-zeros : (n : ℕ) → length (zeros n) ≡ n
length-zeros n = length-replicate n 0

-- A copy of fewer bytes than the advance leaves zeros in between.
copy-Holds :
    (c : List ℕ) (n : ℕ) {bytes : List ℕ} {k : ℕ} {w : Writer}
    → length c ≤ n
    → n ≤ k
    → Holds bytes k w
    → Holds (bytes ++ (c ++ zeros (n - length c))) (k - n) (copy c n w)
unfolding copy
copy-Holds c n {bytes} {k} {w} e h x = record {
  content =
      ap (λ b. write_at b w.buffersize c) x.content
      ∙ (write_at-append bytes (zeros k) c x.size
          ∙ (ap (λ r. bytes ++ (c ++ r)) rest_eq
              ∙ assoc_eq (zeros (n - length c)) (zeros (k - n))));
  size = omega (
    arith,
    x.size,
    length-append bytes (c ++ zeros (n - length c)),
    length-append c (zeros (n - length c)),
    length-zeros (n - length c),
  );
}
  where
    rest_eq : drop (length c) (zeros k) ≡ zeros (n - length c) ++ zeros (k - n)
    rest_eq =
        drop-zeros (length c) k
        ∙ (ap zeros (omega arith) ∙ sym (zeros-append (n - length c) (k - n)))

    assoc_eq : (z y : List ℕ) → bytes ++ (c ++ (z ++ y)) ≡ (bytes ++ (c ++ z)) ++ y
    assoc_eq z y =
        ap (λ r. bytes ++ r) (sym (append_assoc c z y)) ∙ sym (append_assoc bytes (c ++ z) y)

Holds-eq :
    {bytes bytes' : List ℕ} {k k' : ℕ} {w : Writer}
    → bytes ≡ bytes'
    → k ≡ k'
    → Holds bytes k w
    → Holds bytes' k' w
Holds-eq {bytes} {bytes'} {k} {k'} {w} e f x =
    subst (λ b. Holds b k' w) e (subst (λ n. Holds bytes n w) f x)

assoc3 : (a b c d : List ℕ) → ((a ++ b) ++ c) ++ d ≡ a ++ (b ++ (c ++ d))
assoc3 a b c d = append_assoc (a ++ b) c d ∙ append_assoc a b (c ++ d)

unpadded : (f : List ℕ) (n : ℕ) → length f ≡ n → f ++ zeros (n - length f) ≡ f
unpadded f n e = ap (λ k. f ++ zeros k) {y = 0} (omega arith) ∙ append-nil f

errno_bytes : (v : ℕ) → v < u16_mod → to_bytes 4 v ≡ to_bytes 2 v ++ zeros 2
unfolding to_bytes
errno_bytes v h =
    ap (λ (n : ℕ). v % 256 ∷ v / 256 % 256 ∷ n ∷ v / 256 / 256 / 256 % 256 ∷ []) {y = 0}
      (omega arith)
    ∙ ap (λ (n : ℕ). v % 256 ∷ v / 256 % 256 ∷ 0 ∷ n ∷ []) {y = 0} (omega arith)

kept_zeros : (t : List ℕ) (k : ℕ) → 4 ≤ k → (t ++ zeros 2) ++ zeros (k - 4) ≡ t ++ zeros (k - 2)
kept_zeros t k h =
    append_assoc t (zeros 2) (zeros (k - 4))
    ∙ ap (λ r. t ++ r) (zeros-append 2 (k - 4) ∙ ap zeros (omega arith))

-- Two of the four bytes of `errno` are kept, and the other two are zero.
errno-Holds :
    (v : ℕ) {bytes : List ℕ} {k : ℕ} {w : Writer}
    → v < u16_mod
    → 4 ≤ k
    → Holds bytes k w
    → Holds (bytes ++ to_bytes 2 v) (k - 2) (copy (to_bytes 4 v) 2 w)
unfolding copy to_bytes
errno-Holds v {bytes} {k} {w} e h x =
    let c = copy-Holds (to_bytes 4 v) 4 (omega (arith, length-to_bytes 4 v)) h x in
    record {
      content =
          c.content
          ∙ (ap (λ t. (bytes ++ t) ++ zeros (k - 4)) (errno_bytes v e)
              ∙ (append_assoc bytes (to_bytes 2 v ++ zeros 2) (zeros (k - 4))
                  ∙ (ap (λ r. bytes ++ r) (kept_zeros (to_bytes 2 v) k h)
                      ∙ sym (append_assoc bytes (to_bytes 2 v) (zeros (k - 2))))));
      size = omega (arith, x.size, length-append bytes (to_bytes 2 v), length-to_bytes 2 v);
    }

raw_bytes-Holds :
    (b : List ℕ) {bytes : List ℕ} {k : ℕ} {w : Writer}
    → 2 + length b ≤ k
    → Holds bytes k w
    → Holds (bytes ++ (to_bytes 2 (length b) ++ b)) (k - (2 + length b)) (count_raw b w)
unfolding count_raw copy to_bytes
raw_bytes-Holds b {bytes} {k} {w} h x = record {
  content = ap (λ m. write_at m w.buffersize (to_bytes 2 (length b))) data_written ∙ length_written;
  size = omega (
    arith,
    x.size,
    length-append bytes (to_bytes 2 (length b) ++ b),
    length-append (to_bytes 2 (length b)) b,
  );
}
  where
    behind : List ℕ
    behind = b ++ zeros (k - (2 + length b))

    two_zeros : bytes ++ zeros k ≡ (bytes ++ zeros 2) ++ zeros (k - 2)
    two_zeros =
        ap (λ r. bytes ++ r) (ap zeros (omega arith) ∙ sym (zeros-append 2 (k - 2)))
        ∙ sym (append_assoc bytes (zeros 2) (zeros (k - 2)))

    data_written : write_at w.buffer (w.buffersize + 2) b ≡ (bytes ++ zeros 2) ++ behind
    data_written =
        ap (λ m. write_at m (w.buffersize + 2) b) (x.content ∙ two_zeros)
        ∙ (write_at-append (bytes ++ zeros 2) (zeros (k - 2)) b
              (omega (arith, x.size, length-append bytes (zeros 2)))
            ∙ ap (λ r. (bytes ++ zeros 2) ++ (b ++ r))
                (drop-zeros (length b) (k - 2) ∙ ap zeros (omega arith)))

    length_written :
        write_at ((bytes ++ zeros 2) ++ behind) w.buffersize (to_bytes 2 (length b))
        ≡ (bytes ++ (to_bytes 2 (length b) ++ b)) ++ zeros (k - (2 + length b))
    length_written =
        ap (λ m. write_at m w.buffersize (to_bytes 2 (length b)))
          (append_assoc bytes (zeros 2) behind)
        ∙ (write_at-append bytes (zeros 2 ++ behind) (to_bytes 2 (length b)) x.size
            ∙ (ap (λ r. bytes ++ r)
                  (sym (append_assoc (to_bytes 2 (length b)) b (zeros (k - (2 + length b)))))
                ∙ sym
                    (append_assoc bytes (to_bytes 2 (length b) ++ b) (zeros (k - (2 + length b))))))

argument-Holds :
    (a : Argument) {bytes : List ℕ} {k : ℕ} {w : Writer}
    → IsRegular a
    → room_of a ≤ k
    → Holds bytes k w
    → Holds (bytes ++ encode a) (k - size_of a) (copy_argument a w)
unfolding copy_argument copy_flag copy_uint32 copy_uint16 copy_string copy_error copy_raw encode
    to_bytes
argument-Holds (flag f) {bytes} r h x =
    Holds-eq
      (assoc3 bytes (to_bytes 4 strg_utf8) (to_bytes 2 5) (f ++ zeros (5 - length f))
        ∙ ap (λ z. bytes ++ (to_bytes 4 strg_utf8 ++ (to_bytes 2 5 ++ z))) (unpadded f 5 r))
      (omega arith)
      (copy-Holds f 5 (omega arith) (omega arith) (
        copy-Holds (to_bytes 2 5) 2 (omega arith) (omega arith)
          (copy-Holds (to_bytes 4 strg_utf8) 4 (omega arith) (omega arith) x)))
argument-Holds (uint32 v) {bytes} r h x = Holds-eq (append_assoc bytes _ _) (omega arith) (
    copy-Holds (to_bytes 4 v) 4 (omega arith) (omega arith)
      (copy-Holds (to_bytes 4 uint_32bit) 4 (omega arith) (omega arith) x))
argument-Holds (uint16 v) {bytes} r h x = Holds-eq (append_assoc bytes _ _) (omega arith) (
    copy-Holds (to_bytes 2 v) 2 (omega arith) (omega arith)
      (copy-Holds (to_bytes 4 uint_16bit) 4 (omega arith) (omega arith) x))
argument-Holds (text chars) {bytes} r h x =
    Holds-eq
      (assoc3 bytes _ _ (chars ++ zeros (length chars + 1 - length chars))
        ∙ ap
            (λ n.
              bytes
              ++ (to_bytes 4 strg_utf8
                  ++ (to_bytes 2 ((length chars + 1) % u16_mod) ++ (chars ++ zeros n))))
            {y = 1} (omega arith))
      (omega arith)
      (copy-Holds chars (length chars + 1) (omega arith) (omega arith) (
        copy-Holds (to_bytes 2 ((length chars + 1) % u16_mod)) 2 (omega arith) (omega arith)
          (copy-Holds (to_bytes 4 strg_utf8) 4 (omega arith) (omega arith) x)))
argument-Holds (code v) {bytes} r h x = Holds-eq (append_assoc bytes _ _) (omega arith) (
    copy-Holds (to_bytes 2 v) 2 (omega arith) (omega arith)
      (copy-Holds (to_bytes 4 sint_16bit) 4 (omega arith) (omega arith) x))
argument-Holds (linux_code v) {bytes} r h x = Holds-eq (append_assoc bytes _ _) (omega arith) (
    errno-Holds v r (omega arith)
      (copy-Holds (to_bytes 4 sint_16bit) 4 (omega arith) (omega arith) x))
argument-Holds (raw b) {bytes} r h x =
    Holds-eq (append_assoc bytes _ _) (omega arith) (
      raw_bytes-Holds b (omega arith)
        (copy-Holds (to_bytes 4 rawd) 4 (omega arith) (omega arith) x))

pub copy_all-Holds :
    (args : List Argument) {bytes : List ℕ} {k : ℕ} {w : Writer}
    → AreRegular args
    → Fits args k
    → Holds bytes k w
    → Holds (bytes ++ encode_all args) (k - size_of_all args) (copy_all args w)
unfolding copy_all encode_all
copy_all-Holds [] {bytes} r h x = Holds-eq (sym (append-nil bytes)) (omega arith) x
copy_all-Holds (a ∷ rest) {bytes} (r, rs) (h, hs) x =
    Holds-eq (append_assoc bytes (encode a) (encode_all rest)) (omega arith)
      (copy_all-Holds rest rs hs (argument-Holds a r h x))
