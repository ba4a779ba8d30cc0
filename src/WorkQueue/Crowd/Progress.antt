-- ===== src/WorkQueue/Crowd/Progress.antt =====
-- include/queue.hh: whoever is in a call, and does not wait, comes nearer to its end.
use test_buffer.Prelude.{
  Bool, Bool-cases, arith, false, if◌then◌else◌, inl, inr, refl, size_mod, sym, true, update, ℕ,
  ◌*◌, ◌+◌, ◌<◌, ◌∙◌, ◌≡◌, ◌≢◌, ◌≤◌,
}
use test_buffer.Boost.CircularBuffer.{CircularBuffer}
use test_buffer.Boost.Threads.{Mutex, Conditions}
use test_buffer.Threads.Locks.{Locks-free}
use test_buffer.Threads.Descent.{all_weights, weights-go, weights-notify}
use test_buffer.WorkQueue.Crowd.{
  spurious, Point, outside, locked, stored, counted, unlocked, testing, to_wait, waiting, trying,
  nonempty, read, removed, crashed, asking, System, is_empty, Step, lock_to_push, store, count,
  unlock_push, notify, lock_to_pop, see_empty, start_wait, end_wait, see_element, lock_to_try,
  find_nothing, find_element, read_unread, remove, give, lock_to_ask, answer, ask_size,
  ask_capacity,
}
use test_buffer.WorkQueue.Crowd.Holding.{holds}
use test_buffer.WorkQueue.Crowd.Awake.{asleep, Valid}
use test_buffer.WorkQueue.Crowd.Unread.{Good, has, last_index}

-- What is left to do in a call: with the thread counted as waiting or not. A notify_one may wake all `n`
-- threads.
abbrev pub weight {ℓ} : {A : Type ℓ} → ℕ → Bool → Point A → ℕ
weight n w outside = 0
weight n w (locked x) = 6 * n + 10
weight n w stored = 6 * n + 9
weight n w counted = 6 * n + 8
weight n w unlocked = 6 * n + 7
weight n w waiting = if w then 0 else 6
weight n w testing = 5
weight n w trying = 5
weight n w nonempty = 4
weight n w (read x) = 3
weight n w (removed x) = 2
weight n w to_wait = 1
weight n w crashed = 1
weight n w asking = 1

weight-woken {ℓ} : {A : Type ℓ} (n : ℕ) (a b : Bool) (p : Point A) → weight n b p ≤ weight n a p + 6
weight-woken n a b waiting = ground arith
weight-woken n a b _ = omega arith

module _ {ℓ} (A : Type ℓ) (cb : CircularBuffer A) (mx : Mutex) (cv : Conditions) (n : ℕ) where
  abbrev State : Type ℓ
  State = System A cb mx cv

  -- No call under way has need of the step: it starts another one, or is a spurious wake-up.
  abbrev pub unneeded : {s u : State} → Step A cb mx cv n s u → Bool
  unneeded (lock_to_push t x l p free) = true
  unneeded (lock_to_pop t l p free) = true
  unneeded (lock_to_try t l p free) = true
  unneeded (lock_to_ask t l p free) = true
  unneeded (ask_size t l p) = true
  unneeded (ask_capacity t l p) = true
  unneeded (spurious t p) = true
  unneeded _ = false

  abbrev pub work : State → ℕ
  work s = all_weights (weight n) n (asleep A cb mx cv n s) s.point

  -- A step of a call that is under way.
  abbrev pub Onward : State → State → Type ℓ
  Onward s u = (st : Step A cb mx cv n s u) × (unneeded st ≡ false)

  abbrev pub Nearer : State → Type ℓ
  Nearer s = (u : State) × (st : Onward s u) × (work u < work s)

  -- A step of thread `t` that leaves the condition.
  goes :
      {s : State} (u : State) (t : ℕ) (p q : Point A) (st : Step A cb mx cv n s u)
      → s.point t ≡ p
      → t < n
      → unneeded st ≡ false
      → u.cond ≡ s.cond
      → u.point ≡ update t q s.point
      → weight n (asleep A cb mx cv n s t) q < weight n (asleep A cb mx cv n s t) p
      → Nearer s
  goes {s} u t p q st at l old same there less = (
    u,
    (st, old),
    rw (same, there)
        (weights-go (weight n) n t q (asleep A cb mx cv n s) (asleep A cb mx cv n s) s.point l
          (λ o m. refl) (rw at less)),
  )

  module _ (cap : ℕ) (h : cap < size_mod) (s : State) (v : Valid A cb mx cv n s)
      (g : Good A cb mx cv n cap s) where
    within : (t : ℕ) (p : Point A) → s.point t ≡ p → p ≢ outside → t < n
    within t p at there = v.small t (λ e. there (sym at ∙ e))

    -- The thread with the lock goes on.
    works : (t : ℕ) (p : Point A) → s.point t ≡ p → holds p ≡ true → Nearer s
    works t (locked x) at on =
        goes _ t (locked x) stored (store t x at) at (within t _ at (λ e. cc)) refl refl refl
          (omega arith)
    works t stored at on =
        goes _ t stored counted (count t at) at (within t _ at (λ e. cc)) refl refl refl
          (omega arith)
    works t counted at on =
        goes _ t counted unlocked (unlock_push t at) at (within t _ at (λ e. cc)) refl refl refl
          (omega arith)
    works t testing at on = elim (Bool-cases (is_empty A cb mx cv s)) [
      | inl e ↦
          goes _ t testing to_wait (see_empty t at e) at (within t _ at (λ e. cc)) refl refl refl
            (omega arith)
      | inr e ↦
          goes _ t testing nonempty (see_element t at e) at (within t _ at (λ e. cc)) refl refl refl
            (omega arith)
    ]
    works t to_wait at on = (
      _,
      (start_wait t at, refl),
      weights-go (weight n) n t waiting (asleep A cb mx cv n s) (cv.is_waiting (cv.wait t s.cond))
          s.point (within t _ at (λ e. cc)) (λ o m. cv.is_waiting-wait_other t o s.cond m)
          (rw (cv.is_waiting-wait t s.cond, at) (omega arith)),
    )
    works t trying at on = elim (Bool-cases (is_empty A cb mx cv s)) [
      | inl e ↦
          goes _ t trying outside (find_nothing t at e) at (within t _ at (λ e. cc)) refl refl refl
            (omega arith)
      | inr e ↦
          goes _ t trying nonempty (find_element t at e) at (within t _ at (λ e. cc)) refl refl refl
            (omega arith)
    ]
    works t nonempty at on =
        let (sum, (ys, y, c)) = has A cb mx cv n s t nonempty at refl g in
        let (index, got) = last_index A cb mx cv n s ys y h c sum g.room in
        goes _ t nonempty (read y) (read_unread t y at got) at (within t _ at (λ e. cc)) refl refl
          refl (omega arith)
    works t (read x) at on =
        goes _ t (read x) (removed x) (remove t x at) at (within t _ at (λ e. cc)) refl refl refl
          (omega arith)
    works t (removed x) at on =
        goes _ t (removed x) outside (give t x at) at (within t _ at (λ e. cc)) refl refl refl
          (omega arith)
    works t asking at on =
        goes _ t asking outside (answer t _ at refl) at (within t _ at (λ e. cc)) refl refl refl
          (omega arith)
    works t crashed at on = absurd (has A cb mx cv n s t crashed at refl g).0
    works t outside at on = cc
    works t unlocked at on = cc
    works t waiting at on = cc

    -- With the lock free, a thread that has something to do goes on.
    goes_on :
        (t : ℕ) (p : Point A)
        → s.point t ≡ p
        → holds p ≡ false
        → 0 < weight n (asleep A cb mx cv n s t) p
        → mx.is_free s.mutex ≡ true
        → Nearer s
    goes_on t unlocked at out busy free = (
      _,
      (notify t at, refl),
      weights-notify (weight n) n t outside (asleep A cb mx cv n s)
          (cv.is_waiting (cv.notify_one s.cond)) s.point (within t _ at (λ e. cc)) (weight-woken n)
          (rw at (omega arith)),
    )
    goes_on t waiting at out busy free =
        let woken : asleep A cb mx cv n s t ≡ false = ground (arith, busy) in
        goes _ t waiting testing (end_wait t at woken free) at (within t _ at (λ e. cc)) refl refl
          refl (rw woken (omega arith))
    goes_on t outside at out busy free = absurd (omega (arith, busy))
    goes_on t _ at out busy free = cc

    pub nearer : (t : ℕ) → 0 < weight n (asleep A cb mx cv n s t) (s.point t) → Nearer s
    nearer t busy = elim (Bool-cases (mx.is_free s.mutex)) [
      | inl free ↦ goes_on t (s.point t) refl (Locks-free holds t v.guard.locks free) busy free
      | inr held ↦ let (u, on) = v.guard.locks.taken held in works u (s.point u) refl on
    ]
