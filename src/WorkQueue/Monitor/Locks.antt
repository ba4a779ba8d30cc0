-- ===== src/WorkQueue/Monitor/Locks.antt =====
-- include/queue.hh: which of push, wait_and_pop and try_pop has the lock.
use test_buffer.Prelude.{Bool, arith, false, not, true, ◌&&◌, ◌||◌, ◌≡◌}
use test_buffer.Boost.CircularBuffer.{CircularBuffer}
use test_buffer.Boost.Threads.{Mutex, Condition}
use test_buffer.WorkQueue.Monitor.{
  lock_to_try, find_nothing, find_element, Producer, locked, stored, counted, Consumer, outside,
  waiting, System, Step, lock_to_push, store, count, unlock_push, notify, lock_to_pop, see_empty,
  start_wait, spurious, end_wait, see_element, read_unread, read_outside, remove, give,
}

-- Holding the lock.
abbrev pub producer_in : Producer → Bool
producer_in locked = true
producer_in stored = true
producer_in counted = true
producer_in _ = false

abbrev pub consumer_in {ℓ} : {A : Type ℓ} → Consumer A → Bool
consumer_in outside = false
consumer_in waiting = false
consumer_in _ = true

module _ {ℓ} (A : Type ℓ) (cb : CircularBuffer A) (mx : Mutex) (cv : Condition) where
  abbrev pub State : Type ℓ
  State = System A cb mx cv

  pub record Locks (s : State) : Type ℓ where
    pub lock : mx.is_free s.mutex ≡ not (producer_in s.producer || consumer_in s.consumer)
    pub exclusive : (producer_in s.producer && consumer_in s.consumer) ≡ false

  pub Step-Locks : {s t : State} → Step A cb mx cv s t → Locks s → Locks t
  Step-Locks {s} (lock_to_push p free) v = ground (arith, mx.is_free-lock s.mutex)
  Step-Locks (store x p) v = ground arith
  Step-Locks (count p) v = ground arith
  Step-Locks {s} (unlock_push p) v = ground (arith, mx.is_free-unlock s.mutex)
  Step-Locks (notify p) v = ground arith
  Step-Locks {s} (lock_to_pop c free) v = ground (arith, mx.is_free-lock s.mutex)
  Step-Locks (see_empty c e) v = ground arith
  Step-Locks {s} (start_wait c) v = ground (arith, mx.is_free-unlock s.mutex)
  Step-Locks (spurious c) v = ground arith
  Step-Locks {s} (end_wait c n free) v = ground (arith, mx.is_free-lock s.mutex)
  Step-Locks (see_element c e) v = ground arith
  Step-Locks {s} (lock_to_try c free) v = ground (arith, mx.is_free-lock s.mutex)
  Step-Locks {s} (find_nothing c e) v = ground (arith, mx.is_free-unlock s.mutex)
  Step-Locks (find_element c e) v = ground arith
  Step-Locks (read_unread x c e) v = ground arith
  Step-Locks (read_outside c e) v = ground arith
  Step-Locks (remove x c) v = ground arith
  Step-Locks {s} (give x c) v = ground (arith, mx.is_free-unlock s.mutex)
