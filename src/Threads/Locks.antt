-- ===== src/Threads/Locks.antt =====
-- One mutex and a family of program points: who has the lock.
use test_buffer.Prelude.{
  Bool, Bool-cases, ap, false, inl, inr, refl, sym, true, update, update-cases, update-same, ℕ, ◌∙◌,
  ◌≡◌,
}

-- `holds`: a thread at the point has the lock.
module _ {ℓ} {P : Type ℓ} (holds : P → Bool) where
  pub record Locks (free : Bool) (f : ℕ → P) : Type 0 where
    pub exclusive : (t u : ℕ) → holds (f t) ≡ true → holds (f u) ≡ true → t ≡ u
    pub held : (t : ℕ) → holds (f t) ≡ true → free ≡ false
    pub taken : free ≡ false → (t : ℕ) × holds (f t) ≡ true

  -- The lock is free, and nobody has it.
  pub Locks-init : (f : ℕ → P) → ((t : ℕ) → holds (f t) ≡ false) → Locks true f
  Locks-init f out = record {
    exclusive = λ t u ht hu. cc (out t, ht);
    held = λ t ht. cc (out t, ht);
    taken = λ e. cc;
  }

  -- A thread takes the free lock.
  pub Locks-lock :
      (t : ℕ) (q : P) (f : ℕ → P) {free : Bool}
      → free ≡ true
      → holds q ≡ true
      → Locks free f
      → Locks false (update t q f)
  Locks-lock t q f on has v =
      let only : (u : ℕ) → holds (update t q f u) ≡ true → u ≡ t =
        update-cases (λ u p. holds p ≡ true → u ≡ t) t q f (λ h. refl)
          (λ u n h. cc (on, v.held u h)) in
      record {
        exclusive = λ a b ha hb. only a ha ∙ sym (only b hb);
        held = λ a ha. refl;
        taken = λ e. (t, ap holds (update-same t q f) ∙ has);
      }

  -- The thread that has the lock frees it.
  pub Locks-unlock :
      (t : ℕ) (q : P) (f : ℕ → P) {free : Bool}
      → holds (f t) ≡ true
      → holds q ≡ false
      → Locks free f
      → Locks true (update t q f)
  Locks-unlock t q f has out v = Locks-init (update t q f) (
      update-cases (λ u p. holds p ≡ false) t q f out
        (λ u n. elim (Bool-cases (holds (f u))) [
          | inl h ↦ absurd (n (v.exclusive u t h has))
          | inr h ↦ h
        ]))

  -- A thread goes on with the lock, or without it.
  pub Locks-move :
      (t : ℕ) (q : P) (f : ℕ → P) {free : Bool}
      → holds q ≡ holds (f t)
      → Locks free f
      → Locks free (update t q f)
  Locks-move t q f same v =
      let before : (u : ℕ) → holds (update t q f u) ≡ holds (f u) =
        update-cases (λ u p. holds p ≡ holds (f u)) t q f same (λ u n. refl) in
      record {
        exclusive = λ a b ha hb. v.exclusive a b (sym (before a) ∙ ha) (sym (before b) ∙ hb);
        held = λ a ha. v.held a (sym (before a) ∙ ha);
        taken = λ e. let (u, h) = v.taken e in (u, before u ∙ h);
      }

  -- While the lock is free nobody has it.
  pub Locks-free :
      {f : ℕ → P} {free : Bool} (t : ℕ) → Locks free f → free ≡ true → holds (f t) ≡ false
  Locks-free {f} t v on = elim (Bool-cases (holds (f t))) [
    | inl h ↦ cc (on, v.held t h)
    | inr h ↦ h
  ]
