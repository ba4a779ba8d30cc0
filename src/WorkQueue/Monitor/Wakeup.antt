-- ===== src/WorkQueue/Monitor/Wakeup.antt =====
-- include/queue.hh: who is woken.
use test_buffer.Prelude.{Bool, arith, false, refl, true, ℕ, ◌∙◌, ◌≡◌}
use test_buffer.Boost.CircularBuffer.{CircularBuffer}
use test_buffer.Boost.Threads.{Mutex, Condition}
use test_buffer.WorkQueue.Monitor.{
  ready, locked, stored, counted, unlocked, Producer, to_wait, waiting, System, init, is_empty,
  Step, lock_to_push, store, count, unlock_push, notify, lock_to_pop, see_empty, start_wait,
  spurious, end_wait, see_element, lock_to_try, find_nothing, find_element, read_unread,
  read_outside, remove, give, Steps, start, later,
}
use test_buffer.WorkQueue.Monitor.Locks.{Locks, Step-Locks}

-- The producer has stored an element and not yet notified.
abbrev pub notification_due : Producer → Bool
notification_due stored = true
notification_due counted = true
notification_due unlocked = true
notification_due _ = false

module _ {ℓ} (A : Type ℓ) (cb : CircularBuffer A) (mx : Mutex) (cv : Condition) where
  abbrev State : Type ℓ
  State = System A cb mx cv

  record Inv (s : State) : Type ℓ where
    locks : Locks A cb mx cv s
    saw_empty : s.consumer ≡ to_wait → is_empty A cb mx cv s ≡ true
    due :
        s.consumer ≡ waiting
        → cv.is_waiting s.cond ≡ true
        → is_empty A cb mx cv s ≡ false
        → notification_due s.producer ≡ true

  Step-saw_empty :
      {s t : State}
      → Step A cb mx cv s t
      → Inv s
      → t.consumer ≡ to_wait
      → is_empty A cb mx cv t ≡ true
  Step-saw_empty (lock_to_push p free) v h = v.saw_empty h
  Step-saw_empty (store x p) v h = ground (arith, v.locks.exclusive)
  Step-saw_empty (count p) v h = v.saw_empty h
  Step-saw_empty (unlock_push p) v h = v.saw_empty h
  Step-saw_empty (notify p) v h = v.saw_empty h
  Step-saw_empty (lock_to_pop c free) v h = cc
  Step-saw_empty (see_empty c e) v h = e
  Step-saw_empty (start_wait c) v h = cc
  Step-saw_empty (spurious c) v h = v.saw_empty h
  Step-saw_empty (end_wait c n free) v h = cc
  Step-saw_empty (see_element c e) v h = cc
  Step-saw_empty (lock_to_try c free) v h = cc
  Step-saw_empty (find_nothing c e) v h = cc
  Step-saw_empty (find_element c e) v h = cc
  Step-saw_empty (read_unread x c e) v h = cc
  Step-saw_empty (read_outside c e) v h = cc
  Step-saw_empty (remove x c) v h = cc
  Step-saw_empty (give x c) v h = cc

  Step-due :
      {s t : State}
      → Step A cb mx cv s t
      → Inv s
      → t.consumer ≡ waiting
      → cv.is_waiting t.cond ≡ true
      → is_empty A cb mx cv t ≡ false
      → notification_due t.producer ≡ true
  Step-due (lock_to_push p free) v h on e = cc (v.due h on e, p)
  Step-due (store x p) v h on e = refl
  Step-due (count p) v h on e = refl
  Step-due (unlock_push p) v h on e = refl
  Step-due {s} (notify p) v h on e = cc (cv.is_waiting-notify_one s.cond, on)
  Step-due (lock_to_pop c free) v h on e = cc
  Step-due (see_empty c e') v h on e = cc
  Step-due (start_wait c) v h on e = cc (v.saw_empty c, e)
  Step-due {s} (spurious c) v h on e = cc (cv.is_waiting-wake s.cond, on)
  Step-due (end_wait c n free) v h on e = cc
  Step-due (see_element c e') v h on e = cc
  Step-due (lock_to_try c free) v h on e = cc
  Step-due (find_nothing c e') v h on e = cc
  Step-due (find_element c e') v h on e = cc
  Step-due (read_unread x c e') v h on e = cc
  Step-due (read_outside c e') v h on e = cc
  Step-due (remove x c) v h on e = cc
  Step-due (give x c) v h on e = cc

  Steps-Inv : (cap found : ℕ) {s : State} → Steps A cb mx cv (init A cb mx cv cap found) s → Inv s
  Steps-Inv cap found start = record {
    locks = record { lock = mx.is_free-unlocked; exclusive = refl };
    saw_empty = λ e. cc;
    due = λ e. cc;
  }
  Steps-Inv cap found (later r st) =
      let v = Steps-Inv cap found r in
      record {
        locks = Step-Locks A cb mx cv st v.locks;
        saw_empty = Step-saw_empty st v;
        due = Step-due st v;
      }

  -- wait_and_pop may go on.
  pub record IsWoken (t : State) : Type ℓ where
    pub still : t.consumer ≡ waiting
    pub notified : cv.is_waiting t.cond ≡ false
    pub free : mx.is_free t.mutex ≡ true

  finish :
      {s : State} (p : Producer)
      → Inv s
      → s.producer ≡ p
      → s.consumer ≡ waiting
      → notification_due p ≡ true
      → (t : State) × Steps A cb mx cv s t × IsWoken t
  finish ready v p c o = cc
  finish locked v p c o = cc
  finish {s} stored v p c o = (
    _,
    later (later (later start (count p)) (unlock_push refl)) (notify refl),
    record {
      still = c;
      notified = cv.is_waiting-notify_one s.cond;
      free = mx.is_free-unlock s.mutex;
    },
  )
  finish {s} counted v p c o = (
    _,
    later (later start (unlock_push p)) (notify refl),
    record {
      still = c;
      notified = cv.is_waiting-notify_one s.cond;
      free = mx.is_free-unlock s.mutex;
    },
  )
  finish {s} unlocked v p c o = (
    _,
    later start (notify p),
    record {
      still = c;
      notified = cv.is_waiting-notify_one s.cond;
      free = v.locks.lock ∙ rw (p, c);
    },
  )

  -- No wake-up of `queue` is lost: in a state that steps lead to from a new queue, whatever its count was
  -- found as, where wait_and_pop waits, no notification has reached it and the container is not empty,
  -- push is between its push_front and its notify_one, and steps lead to a state where wait_and_pop,
  -- which still waits, may go on.
  pub woken-Steps :
      (cap found : ℕ) {s : State}
      → Steps A cb mx cv (init A cb mx cv cap found) s
      → s.consumer ≡ waiting
      → cv.is_waiting s.cond ≡ true
      → is_empty A cb mx cv s ≡ false
      → (notification_due s.producer ≡ true) × ((t : State) × Steps A cb mx cv s t × IsWoken t)
  woken-Steps cap found {s} r c on e =
      let v = Steps-Inv cap found r in
      let owed = v.due c on e in (owed, finish s.producer v refl c owed)
