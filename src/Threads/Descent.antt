-- ===== src/Threads/Descent.antt =====
-- Steps that come nearer to an end: sums of what the threads have left to do, and runs by such steps.
use test_buffer.Prelude.{
  Bool, ap, arith, inl, inr, suc, update, update-other, update-same, zero, ℕ, ◌*◌, ◌+◌, ◌<◌, ◌≡◌,
  ◌≢◌, ◌≤◌, ◌⊎◌,
}
use test_buffer.Threads.Counts.{total, total-le_six, total-change}

-- `weight`: what a thread has left to do at a point, counted as waiting or not.
module _ {ℓ} {P : Type ℓ} (weight : Bool → P → ℕ) (n : ℕ) where
  abbrev pub all_weights : (ℕ → Bool) → (ℕ → P) → ℕ
  all_weights w f = total (λ u. weight (w u) (f u)) n

  -- Thread `t` comes nearer to the end.
  pub weights-go :
      (t : ℕ) (q : P) (w w' : ℕ → Bool) (f : ℕ → P)
      → t < n
      → ((u : ℕ) → u ≢ t → w' u ≡ w u)
      → weight (w' t) q < weight (w t) (f t)
      → all_weights w' (update t q f) < all_weights w f
  weights-go t q w w' f l same less =
      let change =
        total-change (λ u. weight (w' u) (update t q f u)) (λ u. weight (w u) (f u)) n t
          (λ u m. rw (same u m, update-other t u q f m)) l in
      omega (arith, change, less, ap (weight (w' t)) (update-same t q f))

  -- Thread `t` notifies: what is left to do for the others grows by at most 6 each.
  pub weights-notify :
      (t : ℕ) (q : P) (w w' : ℕ → Bool) (f : ℕ → P)
      → t < n
      → ((a b : Bool) (p : P) → weight b p ≤ weight a p + 6)
      → weight (w t) q + 6 * n < weight (w t) (f t)
      → all_weights w' (update t q f) < all_weights w f
  weights-notify t q w w' f l six less =
      let change =
        total-change (λ u. weight (w u) (update t q f u)) (λ u. weight (w u) (f u)) n t
          (λ u m. ap (weight (w u)) (update-other t u q f m)) l in
      let woken =
        total-le_six (λ u. weight (w' u) (update t q f u)) (λ u. weight (w u) (update t q f u)) n
          (λ u. six (w u) (w' u) (update t q f u)) in
      omega (arith, change, woken, less, ap (weight (w t)) (update-same t q f))

module _ {ℓ} {S : Type ℓ} (Move : S → S → Type ℓ) where
  pub data Run : S → S → Type ℓ where
    stay : {s : S} → Run s s
    next : {s t u : S} → Move s t → Run t u → Run s u

  -- By what is left to do.
  descend-below :
      (Reached Ended : S → Type ℓ) (work : S → ℕ)
      → ((s : S) → Reached s → Ended s ⊎ ((t : S) × Move s t × Reached t × (work t < work s)))
      → (k : ℕ) (s : S) → work s ≤ k
      → Reached s
      → (u : S) × Run s u × Ended u
  descend-below Reached Ended work go zero s few r = elim (go s r) [
    | inl e ↦ (s, stay, e)
    | inr (t, m, r', less) ↦ absurd (omega (arith, few, less))
  ]
  descend-below Reached Ended work go (suc k) s few r = elim (go s r) [
    | inl e ↦ (s, stay, e)
    | inr (t, m, r', less) ↦
        let (u, run, e) = descend-below Reached Ended work go k t (omega (arith, few, less)) r' in
        (u, next m run, e)
  ]

  -- Where each state has an end or a move that leaves less to do, moves lead to an end.
  pub descend :
      (Reached Ended : S → Type ℓ) (work : S → ℕ)
      → ((s : S) → Reached s → Ended s ⊎ ((t : S) × Move s t × Reached t × (work t < work s)))
      → (s : S) → Reached s
      → (u : S) × Run s u × Ended u
  descend Reached Ended work go s r = descend-below Reached Ended work go (work s) s (omega arith) r
