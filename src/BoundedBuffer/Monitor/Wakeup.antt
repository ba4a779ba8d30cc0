-- ===== src/BoundedBuffer/Monitor/Wakeup.antt =====
-- include/bounded_buffer.hh: who holds the lock, and who is woken.
use test_buffer.Prelude.{Bool, arith, false, not, refl, true, ℕ, ◌&&◌, ◌||◌, ◌∙◌, ◌≡◌}
use test_buffer.Boost.CircularBuffer.{CircularBuffer}
use test_buffer.Boost.Threads.{Mutex, Condition}
use test_buffer.BoundedBuffer.Monitor.{
  Producer, locked, pushed, unlocked, Consumer, outside, to_wait, waiting, System, is_empty, Step,
  lock_to_push, push, unlock_push, notify_push, lock_to_pop, see_empty, start_wait, spurious,
  end_wait, see_element, read_back, notify_pop, give,
}
use test_buffer.BoundedBuffer.{with_capacity}
use test_buffer.BoundedBuffer.Monitor.{Reach, Steps, start, later}

-- Holding the lock.
abbrev producer_in : Producer → Bool
producer_in locked = true
producer_in pushed = true
producer_in _ = false

abbrev consumer_in {ℓ} : {A : Type ℓ} → Consumer A → Bool
consumer_in outside = false
consumer_in waiting = false
consumer_in _ = true

-- The producer has pushed and not yet notified.
abbrev pub notification_due : Producer → Bool
notification_due pushed = true
notification_due unlocked = true
notification_due _ = false

module _ {ℓ} (A : Type ℓ) (cb : CircularBuffer A) (mx : Mutex) (cv : Condition) (cap : ℕ) where
  abbrev State : Type ℓ
  State = System A cb mx cv cap

  record Inv (s : State) : Type ℓ where
    lock : mx.is_free s.mutex ≡ not (producer_in s.producer || consumer_in s.consumer)
    exclusive : (producer_in s.producer && consumer_in s.consumer) ≡ false
    saw_empty : s.consumer ≡ to_wait → is_empty A cb mx cv cap s ≡ true
    due :
        s.consumer ≡ waiting
        → cv.is_waiting s.not_empty ≡ true
        → is_empty A cb mx cv cap s ≡ false
        → notification_due s.producer ≡ true

  Step-Inv : {s t : State} → Step A cb mx cv cap s t → Inv s → Inv t
  Step-Inv {s} (lock_to_push p free) v = ground (arith, mx.is_free-lock s.mutex)
  Step-Inv {s} (push x p) v = ground (arith)
  Step-Inv {s} (unlock_push p) v = ground (arith, mx.is_free-unlock s.mutex)
  Step-Inv {s} (notify_push p) v = ground (arith, cv.is_waiting-notify_one s.not_empty)
  Step-Inv {s} (lock_to_pop c free) v = ground (arith, mx.is_free-lock s.mutex)
  Step-Inv {s} (see_empty c e) v = ground arith
  Step-Inv {s} (start_wait c) v = ground (arith, mx.is_free-unlock s.mutex)
  Step-Inv {s} (spurious c) v = ground (arith, cv.is_waiting-wake s.not_empty)
  Step-Inv {s} (end_wait c n free) v = ground (arith, mx.is_free-lock s.mutex)
  Step-Inv {s} (see_element c e) v = ground arith
  Step-Inv {s} (read_back x c e) v = ground arith
  Step-Inv {s} (notify_pop x c) v = ground arith
  Step-Inv {s} (give x c) v = ground (arith, mx.is_free-unlock s.mutex)

  Reach-Inv : {s : State} → Reach A cb mx cv cap s → Inv s
  unfolding with_capacity
  Reach-Inv start = record {
    lock = mx.is_free-unlocked;
    exclusive = refl;
    saw_empty = λ e. cc;
    due = λ e. cc;
  }
  Reach-Inv (later r st) = Step-Inv st (Reach-Inv r)

  -- In every reachable state at most one of the two threads holds the lock, and the lock is free
  -- exactly when none does.
  exclusive-Reach :
      {s : State}
      → Reach A cb mx cv cap s
      → ((producer_in s.producer && consumer_in s.consumer) ≡ false)
        × (mx.is_free s.mutex ≡ not (producer_in s.producer || consumer_in s.consumer))
  exclusive-Reach r = ((Reach-Inv r).exclusive, (Reach-Inv r).lock)

  -- No wake-up is lost: in a reachable state where pop_back waits, no notification has reached it and
  -- the buffer is not empty, the producer is between its push and its notify_one, and steps lead from
  -- it to a state where pop_back, which still waits, may go on.
  pub no_lost_wakeup :
      {s : State}
      → Reach A cb mx cv cap s
      → s.consumer ≡ waiting
      → cv.is_waiting s.not_empty ≡ true
      → is_empty A cb mx cv cap s ≡ false
      → (notification_due s.producer ≡ true)
        × ((t : State) × Steps A cb mx cv cap s t
            × (t.consumer ≡ waiting)
            × (cv.is_waiting t.not_empty ≡ false)
            × (mx.is_free t.mutex ≡ true))
  no_lost_wakeup {s} r c w e =
      let owed = (Reach-Inv r).due c w e in (owed, finish s.producer refl owed)
    where
      finish :
          (p : Producer)
          → s.producer ≡ p
          → notification_due p ≡ true
          → (t : State) × Steps A cb mx cv cap s t
            × (t.consumer ≡ waiting)
            × (cv.is_waiting t.not_empty ≡ false)
            × (mx.is_free t.mutex ≡ true)
      finish Producer.ready p o = cc
      finish locked p o = cc
      finish pushed p o = (
        _,
        later (later start (unlock_push p)) (notify_push refl),
        c,
        cv.is_waiting-notify_one s.not_empty,
        mx.is_free-unlock s.mutex,
      )
      finish unlocked p o = (
        _,
        later start (notify_push p),
        c,
        cv.is_waiting-notify_one s.not_empty,
        (Reach-Inv r).lock ∙ rw (p, c),
      )
