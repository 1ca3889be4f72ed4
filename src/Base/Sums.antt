-- ===== src/Base/Sums.antt =====
-- How much the workers 0, 1, … below n weigh together.
use Prim.Native.Nat.{ℕ, zero, suc, ◌+◌, ◌*◌, ◌≤◌, ◌<◌}
use mathlib.Core.Path.{◌≡◌, refl}
use native.Mathlib.Omega.{arith}
use native.Mathlib.Decide.{dec_lt}
use eva.Base.Lists.{update}

module _ {ℓ} {A : Type ℓ} (weight : A → ℕ) where
  pub sum_below : ℕ → (ℕ → A) → ℕ
  sum_below zero f = 0
  sum_below (suc n) f = weight (f n) + sum_below n f

  sum_below-update_of_le :
      (n : ℕ) (f : ℕ → A) (i : ℕ) (a : A) → n ≤ i → sum_below n (update f i a) ≡ sum_below n f
  unfolding sum_below
  sum_below-update_of_le zero f i a h = refl
  sum_below-update_of_le (suc n) f i a h = ground (arith, sum_below-update_of_le n f i a)

  -- One worker's part is replaced.
  pub sum_below-update :
      (n : ℕ) (f : ℕ → A) (i : ℕ) (a : A)
      → i < n
      → sum_below n (update f i a) + weight (f i) ≡ sum_below n f + weight a
  unfolding sum_below
  sum_below-update zero f i a h = elim h [ ]
  sum_below-update (suc n) f i a h = elim (dec_lt i n) [
    | yes p ↦ ground (arith, sum_below-update n f i a p)
    | no p ↦ ground (arith, sum_below-update_of_le n f i a)
  ]

  -- A part is at most the whole.
  pub weight-le-sum_below : (n : ℕ) (f : ℕ → A) (i : ℕ) → i < n → weight (f i) ≤ sum_below n f
  unfolding sum_below
  weight-le-sum_below zero f i h = elim h [ ]
  weight-le-sum_below (suc n) f i h = elim (dec_lt i n) [
    | yes p ↦ omega (arith, weight-le-sum_below n f i p)
    | no p ↦ let e : i ≡ n = omega arith in rw e (omega arith)
  ]

  -- Workers that weigh b at most weigh no more than b for each.
  pub sum_below-le : (n : ℕ) (f : ℕ → A) (b : ℕ) → ((a : A) → weight a ≤ b) → sum_below n f ≤ b * n
  unfolding sum_below
  sum_below-le zero f b light = grind arith
  sum_below-le (suc n) f b light = grind (arith, sum_below-le n f b light, light (f n))

  -- Workers that weigh nothing weigh nothing together.
  pub sum_below-eq-zero : (n : ℕ) (f : ℕ → A) → ((i : ℕ) → weight (f i) ≡ 0) → sum_below n f ≡ 0
  unfolding sum_below
  sum_below-eq-zero zero f h = refl
  sum_below-eq-zero (suc n) f h = omega (arith, h n, sum_below-eq-zero n f h)

  -- A positive sum has a positive part.
  pub sum_below_positive :
      (n : ℕ) (f : ℕ → A) → 0 < sum_below n f → (i : ℕ) × (i < n) × (0 < weight (f i))
  unfolding sum_below
  sum_below_positive zero f h = absurd (omega arith)
  sum_below_positive (suc n) f h = elim (dec_lt 0 (weight (f n))) [
    | yes p ↦ (n, omega arith, p)
    | no p ↦ let (i, lt, w) = sum_below_positive n f (omega arith) in (i, omega arith, w)
  ]

  -- Two parts are at most the whole.
  pub weight_two-le-sum_below :
      (n : ℕ) (f : ℕ → A) (i j : ℕ) → i < j → j < n → weight (f i) + weight (f j) ≤ sum_below n f
  unfolding sum_below
  weight_two-le-sum_below zero f i j d h = elim h [ ]
  weight_two-le-sum_below (suc n) f i j d h = elim (dec_lt j n) [
    | yes p ↦ omega (arith, weight_two-le-sum_below n f i j d p)
    | no p ↦
        let e : j ≡ n = omega arith in rw e (omega (arith, weight-le-sum_below n f i (omega arith)))
  ]
