-- ===== src/Queue/Concurrent/Weights.antt =====
-- A weight for each thread, summed over the first `n` threads, and what a move of one thread does
-- to the sum.
use logging.Prelude.{ℕ, zero, suc, ◌+◌, ◌*◌, ◌≤◌, ◌<◌, ◌≡◌, refl, arith, ℕ_discrete}
use mathlib.Core.Logic.{ite}

abbrev pub moved {ℓ} : {A : Type ℓ} → (ℕ → A) → ℕ → A → ℕ → A
moved f i a j = ite (ℕ_discrete i j) a (f j)

module _ {ℓ} {A : Type ℓ} (weight : A → ℕ) where
  pub sum_below : ℕ → (ℕ → A) → ℕ
  sum_below zero f = 0
  sum_below (suc n) f = sum_below n f + weight (f n)

  sum_below-moved_above :
      (n : ℕ) (f : ℕ → A) (i : ℕ) (a : A) → n ≤ i → sum_below n (moved f i a) ≡ sum_below n f
  unfolding sum_below
  sum_below-moved_above zero f i a above = refl
  sum_below-moved_above (suc n) f i a above = ground (arith, sum_below-moved_above n f i a)

  -- The mover's old weight goes, its new weight comes.
  pub sum_below-moved :
      (n : ℕ) (f : ℕ → A) (i : ℕ) (a : A)
      → i < n
      → sum_below n (moved f i a) + weight (f i) ≡ sum_below n f + weight a
  unfolding sum_below
  sum_below-moved zero f i a below = absurd (omega arith)
  sum_below-moved (suc n) f i a below = elim (ℕ_discrete i n) [
    | yes same ↦ ground (arith, sum_below-moved_above n f i a)
    | no other ↦ ground (arith, sum_below-moved n f i a)
  ]

  pub weight-le-sum_below : (n : ℕ) (f : ℕ → A) (i : ℕ) → i < n → weight (f i) ≤ sum_below n f
  unfolding sum_below
  weight-le-sum_below zero f i below = absurd (omega arith)
  weight-le-sum_below (suc n) f i below = elim (ℕ_discrete i n) [
    | yes same ↦ ground arith
    | no other ↦ omega (arith, weight-le-sum_below n f i)
  ]

  pub sum_below-zero : (n : ℕ) (f : ℕ → A) → ((i : ℕ) → weight (f i) ≡ 0) → sum_below n f ≡ 0
  unfolding sum_below
  sum_below-zero zero f z = refl
  sum_below-zero (suc n) f z = omega (arith, z n, sum_below-zero n f z)

pub sum_below-le-scaled {ℓ} :
    {A : Type ℓ} (v w : A → ℕ) (c n : ℕ) (f : ℕ → A)
    → ((i : ℕ) → v (f i) ≤ c * w (f i))
    → sum_below v n f ≤ c * sum_below w n f
unfolding sum_below
sum_below-le-scaled v w c zero f h = omega arith
sum_below-le-scaled v w c (suc n) f h = omega (arith, h n, sum_below-le-scaled v w c n f h)

-- Where one weight is never above another, the first sum falls short at least by what it does at `i`.
pub sum_below-gap {ℓ} :
    {A : Type ℓ} (v w : A → ℕ) (n : ℕ) (f : ℕ → A)
    → ((a : A) → v a ≤ w a)
    → (i : ℕ) → i < n
    → sum_below v n f + w (f i) ≤ sum_below w n f + v (f i)
unfolding sum_below
sum_below-gap v w zero f h i below = absurd (omega arith)
sum_below-gap v w (suc n) f h i below = elim (ℕ_discrete i n) [
  | yes same ↦ rw same (omega (arith, all_le n))
  | no other ↦ omega (arith, h (f n), sum_below-gap v w n f h i)
]
  where
    all_le : (m : ℕ) → sum_below v m f ≤ sum_below w m f
    all_le zero = omega arith
    all_le (suc m) = omega (arith, h (f m), all_le m)

pub sum_below-le {ℓ} :
    {A : Type ℓ} (w : A → ℕ) (n : ℕ) (f : ℕ → A) → ((a : A) → w a ≤ 1) → sum_below w n f ≤ n
unfolding sum_below
sum_below-le w zero f h = omega arith
sum_below-le w (suc n) f h = omega (arith, h (f n), sum_below-le w n f h)

pub sum_below-zero_below {ℓ} :
    {A : Type ℓ} (w : A → ℕ) (n : ℕ) (f : ℕ → A)
    → ((i : ℕ) → i < n → w (f i) ≡ 0)
    → sum_below w n f ≡ 0
unfolding sum_below
sum_below-zero_below w zero f z = refl
sum_below-zero_below w (suc n) f z =
    omega (arith, z n (omega arith), sum_below-zero_below w n f (λ i below. z i (omega arith)))
