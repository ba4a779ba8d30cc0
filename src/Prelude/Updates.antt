-- ===== src/Prelude/Updates.antt =====
-- What each of several threads is at, as a function of its number, and its update at one of them.
use Prim.Native.Nat.{ℕ}
use mathlib.Core.Path.{◌≡◌}
use mathlib.Core.Logic.{◌≢◌, ◌⊎◌, inl, inr}
use native.Mathlib.Omega.{arith}
use test_buffer.Prelude.Tests.{◌==◌, if◌then◌else◌, Bool-cases}

-- Thread `t` itself or another one.
pub same_or_not : (t u : ℕ) → (u ≡ t) ⊎ (u ≢ t)
same_or_not t u = elim (Bool-cases (u == t)) [
  | inl e ↦ inl (ground arith)
  | inr e ↦ inr (ground arith)
]

module _ {ℓ} {A : Type ℓ} where
  unfoldable pub update : ℕ → A → (ℕ → A) → ℕ → A
  update t p f u = if u == t then p else f u

  pub update-same : (t : ℕ) (p : A) (f : ℕ → A) → update t p f t ≡ p
  unfolding update
  update-same t p f = ground arith

  pub update-other : (t u : ℕ) (p : A) (f : ℕ → A) → u ≢ t → update t p f u ≡ f u
  unfolding update
  update-other t u p f n = ground arith

  -- What holds of `p` and, elsewhere, of the old function holds of the update.
  pub update-cases {κ} :
      (P : ℕ → A → Type κ) (t : ℕ) (p : A) (f : ℕ → A)
      → P t p
      → ((u : ℕ) → u ≢ t → P u (f u))
      → (u : ℕ) → P u (update t p f u)
  update-cases P t p f here there u = elim (same_or_not t u) [
    | inl e ↦ rw (e, update-same) here
    | inr n ↦ rw (update-other t u p f n) (there u n)
  ]
