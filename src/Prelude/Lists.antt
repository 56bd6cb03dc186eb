-- ===== src/Prelude/Lists.antt =====
-- Lists measured and indexed by native numbers, under the library's names.
use Prim.Native.Nat.{ℕ, zero, suc, ◌+◌, ◌-◌, ◌≤◌, min}
use mathlib.Core.Path.{◌≡◌, refl, ap}
use mathlib.Core.List.{List, [], ◌∷◌, ◌++◌}
use mathlib.Core.Option.{Option, none, some}
use native.Mathlib.Omega.{arith}

module _ {ℓ} {A : Type ℓ} where
  abbrev pub length : List A → ℕ
  length [] = 0
  length (x ∷ xs) = suc (length xs)

  abbrev pub get_elem? : List A → ℕ → Option A
  get_elem? [] i = none
  get_elem? (x ∷ xs) zero = some x
  get_elem? (x ∷ xs) (suc i) = get_elem? xs i

  abbrev pub get_or : List A → ℕ → A → A
  get_or [] i d = d
  get_or (x ∷ xs) zero d = x
  get_or (x ∷ xs) (suc i) d = get_or xs i d

  abbrev pub take : ℕ → List A → List A
  take zero xs = []
  take (suc n) [] = []
  take (suc n) (x ∷ xs) = x ∷ take n xs

  abbrev pub drop : ℕ → List A → List A
  drop zero xs = xs
  drop (suc n) [] = []
  drop (suc n) (x ∷ xs) = drop n xs

  abbrev pub replicate : ℕ → A → List A
  replicate zero a = []
  replicate (suc n) a = a ∷ replicate n a

  pub length-append : (xs ys : List A) → length (xs ++ ys) ≡ length xs + length ys
  length-append [] ys = omega arith
  length-append (x ∷ xs) ys = omega (arith, length-append xs ys)

  pub length-take : (n : ℕ) (xs : List A) → length (take n xs) ≡ min n (length xs)
  length-take zero xs = omega arith
  length-take (suc n) [] = omega arith
  length-take (suc n) (x ∷ xs) = omega (arith, length-take n xs)

  pub length-drop : (n : ℕ) (xs : List A) → length (drop n xs) ≡ length xs - n
  length-drop zero xs = omega arith
  length-drop (suc n) [] = omega arith
  length-drop (suc n) (x ∷ xs) = omega (arith, length-drop n xs)

  pub length-replicate : (n : ℕ) (a : A) → length (replicate n a) ≡ n
  length-replicate zero a = refl
  length-replicate (suc n) a = ap suc (length-replicate n a)

  -- A cut at the length of the first part gives that part back.
  pub take-append : (xs ys : List A) {n : ℕ} → n ≡ length xs → take n (xs ++ ys) ≡ xs
  take-append [] ys {n = zero} e = refl
  take-append [] ys {n = suc n} e = absurd (omega arith)
  take-append (x ∷ xs) ys {n = zero} e = absurd (omega arith)
  take-append (x ∷ xs) ys {n = suc n} e = ap (◌∷◌ x) (take-append xs ys (omega arith))

  pub drop-append : (xs ys : List A) {n : ℕ} → n ≡ length xs → drop n (xs ++ ys) ≡ ys
  drop-append [] ys {n = zero} e = refl
  drop-append [] ys {n = suc n} e = absurd (omega arith)
  drop-append (x ∷ xs) ys {n = zero} e = absurd (omega arith)
  drop-append (x ∷ xs) ys {n = suc n} e = drop-append xs ys (omega arith)

  pub take_all : (n : ℕ) (xs : List A) → length xs ≤ n → take n xs ≡ xs
  take_all zero [] h = refl
  take_all zero (x ∷ xs) h = absurd (omega arith)
  take_all (suc n) [] h = refl
  take_all (suc n) (x ∷ xs) h = ap (◌∷◌ x) (take_all n xs (omega arith))

  pub take-append-drop : (n : ℕ) (xs : List A) → take n xs ++ drop n xs ≡ xs
  take-append-drop zero xs = refl
  take-append-drop (suc n) [] = refl
  take-append-drop (suc n) (x ∷ xs) = ap (◌∷◌ x) (take-append-drop n xs)

  pub drop-drop : (n m : ℕ) (xs : List A) → drop m (drop n xs) ≡ drop (n + m) xs
  drop-drop zero m xs = rw zero_plus refl
    where
      zero_plus : 0 + m ≡ m
      zero_plus = omega arith
  drop-drop (suc n) zero [] = rw plus_zero refl
    where
      plus_zero : suc n + 0 ≡ suc n
      plus_zero = omega arith
  drop-drop (suc n) (suc m) [] = rw plus_suc refl
    where
      plus_suc : suc n + suc m ≡ suc (n + suc m)
      plus_suc = omega arith
  drop-drop (suc n) m (x ∷ xs) = rw suc_plus (drop-drop n m xs)
    where
      suc_plus : suc n + m ≡ suc (n + m)
      suc_plus = omega arith
