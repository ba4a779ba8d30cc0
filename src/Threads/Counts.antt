-- ===== src/Threads/Counts.antt =====
-- Sums over the first so many threads.
use test_buffer.Prelude.{
  Bool, ap, arith, false, inl, inr, refl, same_or_not, suc, true, zero, ℕ, ◌*◌, ◌+◌, ◌<◌, ◌∙◌, ◌≡◌,
  ◌≢◌, ◌≤◌, ◌⊎◌,
}

abbrev pub one_if : Bool → ℕ
one_if true = 1
one_if false = 0

pub one_if-le : (a b : Bool) → (a ≡ true → b ≡ true) → one_if a ≤ one_if b
one_if-le true true h = omega arith
one_if-le true false h = cc (h refl)
one_if-le false b h = ground arith

pub one_if-small : (a : Bool) → one_if a ≤ 1
one_if-small a = ground arith

pub one_if-true : (b : Bool) → 0 < one_if b → b ≡ true
one_if-true true l = refl
one_if-true false l = absurd (omega (arith, l))

-- The sum of a weight.
pub total : (ℕ → ℕ) → ℕ → ℕ
total w zero = 0
total w (suc n) = total w n + w n

pub total-same : (w v : ℕ → ℕ) (n : ℕ) → ((u : ℕ) → u < n → w u ≡ v u) → total w n ≡ total v n
unfolding total
total-same w v zero h = refl
total-same w v (suc n) h =
    omega (arith, total-same w v n (λ u l. h u (omega (arith, l))), h n (omega arith))

pub total-le : (w v : ℕ → ℕ) (n : ℕ) → ((u : ℕ) → u < n → w u ≤ v u) → total w n ≤ total v n
unfolding total
total-le w v zero h = omega arith
total-le w v (suc n) h =
    omega (arith, total-le w v n (λ u l. h u (omega (arith, l))), h n (omega arith))

-- Each of them at most 6 more.
pub total-le_six : (w v : ℕ → ℕ) (n : ℕ) → ((u : ℕ) → w u ≤ v u + 6) → total w n ≤ total v n + 6 * n
unfolding total
total-le_six w v zero h = omega arith
total-le_six w v (suc n) h = omega (arith, total-le_six w v n h, h n)

-- One of them less.
pub total-lt :
    (w v : ℕ → ℕ) (n t : ℕ)
    → ((u : ℕ) → u < n → w u ≤ v u)
    → t < n
    → w t < v t
    → total w n < total v n
unfolding total
total-lt w v zero t h l less = absurd (omega (arith, l))
total-lt w v (suc n) t h l less = elim (same_or_not t n) [
  | inl e ↦
      let here : w n < v n = rw e less in
      omega (arith, total-le w v n (λ u l. h u (omega (arith, l))), here)
  | inr m ↦ omega (
    arith,
    total-lt w v n t (λ u l. h u (omega (arith, l))) (omega (arith, l, m)) less,
    h n (omega arith),
  )
]

-- All but one are the same.
pub total-change :
    (w v : ℕ → ℕ) (n t : ℕ)
    → ((u : ℕ) → u ≢ t → w u ≡ v u)
    → t < n
    → total w n + v t ≡ total v n + w t
unfolding total
total-change w v zero t h l = absurd (omega (arith, l))
total-change w v (suc n) t h l = elim (same_or_not t n) [
  | inl e ↦
      let below = total-same w v n (λ u less. h u (λ f. absurd (omega (arith, less, f, e)))) in
      omega (arith, below, ap w e, ap v e)
  | inr m ↦ omega (arith, total-change w v n t h (omega (arith, l, m)), h n m)
]

Nat-cases : (k : ℕ) → (k ≡ 0) ⊎ (0 < k)
Nat-cases zero = inl refl
Nat-cases (suc k) = inr (omega arith)

-- Nobody has a weight, or somebody has.
pub total-cases :
    (w : ℕ → ℕ) (n : ℕ) → ((u : ℕ) → u < n → w u ≡ 0) ⊎ ((u : ℕ) × (u < n) × (0 < w u))
total-cases w zero = inl (λ u l. absurd (omega (arith, l)))
total-cases w (suc n) = elim (total-cases w n) [
  | inr (u, l, p) ↦ inr (u, omega (arith, l), p)
  | inl none_before ↦ elim (Nat-cases (w n)) [
    | inl e ↦ inl (λ u l. elim (same_or_not n u) [
      | inl s ↦ ap w s ∙ e
      | inr m ↦ none_before u (omega (arith, l, m))
    ])
    | inr p ↦ inr (n, omega arith, p)
  ]
]

pub total-zero : (w : ℕ → ℕ) (n : ℕ) → ((u : ℕ) → u < n → w u ≡ 0) → total w n ≡ 0
unfolding total
total-zero w zero h = refl
total-zero w (suc n) h =
    omega (arith, total-zero w n (λ u l. h u (omega (arith, l))), h n (omega arith))
