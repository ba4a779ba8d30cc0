-- ===== src/Threads/Guarded.antt =====
-- What one mutex guards: a statement of the thread that has the lock, by its program point, and one
-- that holds while the lock is free.
use test_buffer.Prelude.{Bool, false, sym, true, update, update-cases, ℕ, ◌∙◌, ◌≡◌}
use test_buffer.Threads.Locks.{Locks, Locks-init, Locks-lock, Locks-unlock, Locks-move}

module _ {ℓ κ} {P : Type ℓ} (holds : P → Bool) where
  pub record Guarded (free : Bool) (f : ℕ → P) (Inside : P → Type κ) (Idle : Type 0) : Type κ where
    pub locks : Locks holds free f
    pub inside : (u : ℕ) → holds (f u) ≡ true → Inside (f u)
    pub idle : free ≡ true → Idle

  pub Guarded-init :
      (f : ℕ → P) {free : Bool} {Inside : P → Type κ} {Idle : Type 0}
      → ((t : ℕ) → holds (f t) ≡ false)
      → free ≡ true
      → Idle
      → Guarded free f Inside Idle
  Guarded-init f out on i = record {
    locks = rw on (Locks-init holds f out);
    inside = λ u h. cc (out u, h);
    idle = λ e. i;
  }

  -- A thread takes the free lock.
  pub Guarded-lock :
      (t : ℕ) (q : P) (f : ℕ → P) {free free' : Bool} {Inside : P → Type κ} {Idle : Type 0}
      → free ≡ true
      → free' ≡ false
      → holds q ≡ true
      → (Idle → Inside q)
      → Guarded free f Inside Idle
      → Guarded free' (update t q f) Inside Idle
  Guarded-lock t q f {Inside = Inside} on off has into v = record {
    locks = rw off (Locks-lock holds t q f on has v.locks);
    inside =
        update-cases (λ u p. holds p ≡ true → Inside p) t q f (λ h. into (v.idle on))
          (λ u m h. cc (on, v.locks.held u h));
    idle = λ e. cc (e, off);
  }

  -- The thread that has the lock changes what the mutex guards.
  pub Guarded-work :
      (t : ℕ) (q : P) (f : ℕ → P) {free : Bool} {Inside Inside' : P → Type κ} {Idle Idle' : Type 0}
      → holds (f t) ≡ true
      → holds q ≡ true
      → Inside' q
      → Guarded free f Inside Idle
      → Guarded free (update t q f) Inside' Idle'
  Guarded-work t q f {Inside' = Inside'} had has here v = record {
    locks = Locks-move holds t q f (has ∙ sym had) v.locks;
    inside =
        update-cases (λ u p. holds p ≡ true → Inside' p) t q f (λ h. here)
          (λ u m h. absurd (m (v.locks.exclusive u t h had)));
    idle = λ e. cc (e, v.locks.held t had);
  }

  -- It frees the lock.
  pub Guarded-unlock :
      (t : ℕ) (q : P) (f : ℕ → P) {free free' : Bool} {Inside : P → Type κ} {Idle : Type 0}
      → holds (f t) ≡ true
      → free' ≡ true
      → holds q ≡ false
      → Idle
      → Guarded free f Inside Idle
      → Guarded free' (update t q f) Inside Idle
  Guarded-unlock t q f {Inside = Inside} had on out i v = record {
    locks = rw on (Locks-unlock holds t q f had out v.locks);
    inside =
        update-cases (λ u p. holds p ≡ true → Inside p) t q f (λ h. cc (out, h))
          (λ u m h. absurd (m (v.locks.exclusive u t h had)));
    idle = λ e. i;
  }

  -- A thread goes on without the lock.
  pub Guarded-aside :
      (t : ℕ) (q : P) (f : ℕ → P) {free : Bool} {Inside : P → Type κ} {Idle : Type 0}
      → holds (f t) ≡ false
      → holds q ≡ false
      → Guarded free f Inside Idle
      → Guarded free (update t q f) Inside Idle
  Guarded-aside t q f {Inside = Inside} had out v = record {
    locks = Locks-move holds t q f (out ∙ sym had) v.locks;
    inside =
        update-cases (λ u p. holds p ≡ true → Inside p) t q f (λ h. cc (out, h))
          (λ u m. v.inside u);
    idle = v.idle;
  }
