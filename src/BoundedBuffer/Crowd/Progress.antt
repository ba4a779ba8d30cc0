-- ===== src/BoundedBuffer/Crowd/Progress.antt =====
-- include/bounded_buffer.hh: whoever is in a call, and does not wait, comes nearer to its end.
use test_buffer.Prelude.{
  Bool, Bool-cases, arith, false, if◌then◌else◌, inl, inr, not, refl, sym, true, update, ℕ, ◌*◌,
  ◌+◌, ◌<◌, ◌∙◌, ◌≡◌, ◌≢◌, ◌≤◌,
}
use test_buffer.Boost.CircularBuffer.{CircularBuffer}
use test_buffer.Boost.Threads.{Mutex, Conditions}
use test_buffer.Threads.Locks.{Locks-free}
use test_buffer.Threads.Descent.{all_weights, weights-go, weights-notify}
use test_buffer.BoundedBuffer.Crowd.{
  spurious, Point, outside, locked, storing, pushed, unlocked, testing, to_wait, waiting, nonempty,
  read, notified, asking, System, is_empty, Step, lock_to_push, begin_push, push, unlock_push,
  notify_push, lock_to_pop, see_empty, start_wait, end_wait, see_element, read_back, notify_pop,
  give, lock_to_ask, answer, ask_size, ask_capacity,
}
use test_buffer.BoundedBuffer.Crowd.Holding.{holds}
use test_buffer.BoundedBuffer.Crowd.Reached.{Valid, seen}
use test_buffer.BoundedBuffer.Crowd.Freeing.{back-some}

-- What is left to do in a call: with the thread counted as waiting or not. A notify_one may wake all `n`
-- threads, and each of them is still to notify itself.
abbrev pub weight {ℓ} : {A : Type ℓ} → ℕ → Bool → Point A → ℕ
weight n w outside = 0
weight n w (locked x) = 6 * n + 11
weight n w (storing x) = 6 * n + 10
weight n w pushed = 6 * n + 9
weight n w unlocked = 6 * n + 8
weight n w waiting = if w then 6 * n + 10 else 6 * n + 15
weight n w testing = 6 * n + 14
weight n w nonempty = 6 * n + 13
weight n w (read x) = 6 * n + 12
weight n w to_wait = 6 * n + 11
weight n w (notified x) = 1
weight n w asking = 1

-- Neither between calls nor waiting.
abbrev pub is_busy {ℓ} : {A : Type ℓ} → Bool → Point A → Bool
is_busy w outside = false
is_busy w waiting = not w
is_busy w _ = true

weight-woken {ℓ} : {A : Type ℓ} (n : ℕ) (a b : Bool) (p : Point A) → weight n b p ≤ weight n a p + 6
weight-woken n a b waiting = ground arith
weight-woken n a b _ = omega arith

module _ {ℓ} (A : Type ℓ) (cb : CircularBuffer A) (mx : Mutex) (cv : Conditions) (n : ℕ) where
  abbrev State : Type ℓ
  State = System A cb mx cv

  abbrev asleep : State → ℕ → Bool
  asleep s u = cv.is_waiting s.not_empty u

  -- No call under way has need of the step: it starts another one, or is a spurious wake-up.
  abbrev unneeded : {s u : State} → Step A cb mx cv n s u → Bool
  unneeded (lock_to_push t x l p free) = true
  unneeded (lock_to_pop t l p free) = true
  unneeded (lock_to_ask t l p free) = true
  unneeded (ask_size t l p) = true
  unneeded (ask_capacity t l p) = true
  unneeded (spurious t p) = true
  unneeded _ = false

  abbrev pub work : State → ℕ
  work s = all_weights (weight n) n (asleep s) s.point

  -- A step of a call that is under way.
  abbrev pub Onward : State → State → Type ℓ
  Onward s u = (st : Step A cb mx cv n s u) × (unneeded st ≡ false)

  abbrev pub Nearer : State → Type ℓ
  Nearer s = (u : State) × (st : Onward s u) × (work u < work s)

  -- A step of thread `t` that leaves the condition.
  goes :
      {s : State} (u : State) (t : ℕ) (p q : Point A) (st : Step A cb mx cv n s u)
      → s.point t ≡ p
      → t < n
      → unneeded st ≡ false
      → u.not_empty ≡ s.not_empty
      → u.point ≡ update t q s.point
      → weight n (asleep s t) q < weight n (asleep s t) p
      → Nearer s
  goes {s} u t p q st at l old same there less = (
    u,
    (st, old),
    rw (same, there)
        (weights-go (weight n) n t q (asleep s) (asleep s) s.point l (λ o m. refl) (rw at less)),
  )

  module _ (s : State) (v : Valid A cb mx cv n s) where
    within : (t : ℕ) (p : Point A) → s.point t ≡ p → p ≢ outside → t < n
    within t p at there = v.small t (λ e. there (sym at ∙ e))

    -- Thread `t` notifies.
    notifies :
        (t : ℕ) (p q : Point A)
        → s.point t ≡ p
        → p ≢ outside
        → weight n (asleep s t) q + 6 * n < weight n (asleep s t) p
        → all_weights (weight n) n (cv.is_waiting (cv.notify_one s.not_empty)) (update t q s.point)
          < work s
    notifies t p q at there less =
        weights-notify (weight n) n t q (asleep s) (cv.is_waiting (cv.notify_one s.not_empty))
          s.point (within t p at there) (weight-woken n) (rw at less)

    -- The thread with the lock goes on.
    works : (t : ℕ) (p : Point A) → s.point t ≡ p → holds p ≡ true → Nearer s
    works t (locked x) at on =
        goes _ t (locked x) (storing x) (begin_push t x at) at (within t _ at (λ e. cc)) refl refl
          refl (omega arith)
    works t (storing x) at on =
        goes _ t (storing x) pushed (push t x at) at (within t _ at (λ e. cc)) refl refl refl
          (omega arith)
    works t pushed at on =
        goes _ t pushed unlocked (unlock_push t at) at (within t _ at (λ e. cc)) refl refl refl
          (omega arith)
    works t testing at on = elim (Bool-cases (is_empty A cb mx cv s)) [
      | inl e ↦
          goes _ t testing to_wait (see_empty t at e) at (within t _ at (λ e. cc)) refl refl refl
            (omega arith)
      | inr e ↦
          goes _ t testing nonempty (see_element t at e) at (within t _ at (λ e. cc)) refl refl refl
            (omega arith)
    ]
    works t to_wait at on = (
      _,
      (start_wait t at, refl),
      weights-go (weight n) n t waiting (asleep s) (cv.is_waiting (cv.wait t s.not_empty)) s.point
          (within t _ at (λ e. cc)) (λ o m. cv.is_waiting-wait_other t o s.not_empty m)
          (rw (cv.is_waiting-wait t s.not_empty, at) (omega arith)),
    )
    works t nonempty at on =
        let (x, back) = back-some cb s.buffer.container (seen A cb mx cv n s t nonempty at v) in
        goes _ t nonempty (read x) (read_back t x at back) at (within t _ at (λ e. cc)) refl refl
          refl (omega arith)
    works t (read x) at on =
        (_, (notify_pop t x at, refl), notifies t (read x) (notified x) at (λ e. cc) (omega arith))
    works t (notified x) at on =
        goes _ t (notified x) outside (give t x at) at (within t _ at (λ e. cc)) refl refl refl
          (omega arith)
    works t asking at on =
        goes _ t asking outside (answer t _ at refl) at (within t _ at (λ e. cc)) refl refl refl
          (omega arith)
    works t outside at on = cc
    works t unlocked at on = cc
    works t waiting at on = cc

    -- With the lock free, a thread that has something to do goes on.
    goes_on :
        (t : ℕ) (p : Point A)
        → s.point t ≡ p
        → holds p ≡ false
        → is_busy (asleep s t) p ≡ true
        → mx.is_free s.mutex ≡ true
        → Nearer s
    goes_on t unlocked at out busy free =
        (_, (notify_push t at, refl), notifies t unlocked outside at (λ e. cc) (omega arith))
    goes_on t waiting at out busy free =
        let woken : asleep s t ≡ false = ground (arith, busy) in
        goes _ t waiting testing (end_wait t at woken free) at (within t _ at (λ e. cc)) refl refl
          refl (rw woken (omega arith))
    goes_on t outside at out busy free = cc
    goes_on t _ at out busy free = cc

    pub nearer : (t : ℕ) → is_busy (asleep s t) (s.point t) ≡ true → Nearer s
    nearer t busy = elim (Bool-cases (mx.is_free s.mutex)) [
      | inl free ↦ goes_on t (s.point t) refl (Locks-free holds t v.locks free) busy free
      | inr held ↦ let (u, on) = v.locks.taken held in works u (s.point u) refl on
    ]
