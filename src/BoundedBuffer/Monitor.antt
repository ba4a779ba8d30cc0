-- ===== src/BoundedBuffer/Monitor.antt =====
-- include/bounded_buffer.hh: one thread that calls push_front and one that calls pop_back,
-- interleaved. Both methods lock `m_mutex`; push_front unlocks it before it notifies, pop_back
-- notifies and frees it on return.
pub mod Wakeup
pub mod Linear
use test_buffer.Prelude.{Bool, false, some, true, ℕ, ◌≡◌}
use test_buffer.Boost.CircularBuffer.{CircularBuffer}
use test_buffer.Boost.Threads.{Mutex, Condition}
use test_buffer.BoundedBuffer.{BoundedBuffer, with_capacity, push_front}

-- Where push_front stands: between calls, with the lock, after the push, after the unlock.
pub data Producer : Type 0 where
  ready locked pushed unlocked : Producer

-- Where pop_back stands: between calls, at the test of the `while`, before and in `wait`, past the
-- loop, with `*pItem` written, and notified.
pub data Consumer {ℓ} (A : Type ℓ) : Type ℓ where
  outside testing to_wait waiting nonempty : Consumer A
  read : A → Consumer A
  notified : A → Consumer A

module _ {ℓ} (A : Type ℓ) (cb : CircularBuffer A) (mx : Mutex) (cv : Condition) (cap : ℕ) where
  pub record System : Type ℓ where
    pub buffer : BoundedBuffer cb
    pub mutex : mx.State
    pub not_empty : cv.State
    pub producer : Producer
    pub consumer : Consumer A

  abbrev pub init : System
  init = record {
    buffer = with_capacity cb cap;
    mutex = mx.unlocked;
    not_empty = cv.fresh;
    producer = ready;
    consumer = outside;
  }

  -- `m_container.empty()`
  abbrev pub is_empty : System → Bool
  is_empty s = cb.empty s.buffer.container

  pub data Step (s : System) : System → Type ℓ where
    lock_to_push :
        s.producer ≡ ready
        → mx.is_free s.mutex ≡ true
        → Step s (record s { mutex = mx.lock s.mutex; producer = locked })
    push :
        (x : A)
        → s.producer ≡ locked
        → Step s (record s { buffer = push_front cb x s.buffer; producer = pushed })
    unlock_push :
        s.producer ≡ pushed → Step s (record s { mutex = mx.unlock s.mutex; producer = unlocked })
    notify_push :
        s.producer ≡ unlocked
        → Step s (record s { not_empty = cv.notify_one s.not_empty; producer = ready })
    lock_to_pop :
        s.consumer ≡ outside
        → mx.is_free s.mutex ≡ true
        → Step s (record s { mutex = mx.lock s.mutex; consumer = testing })
    see_empty : s.consumer ≡ testing → is_empty s ≡ true → Step s (record s { consumer = to_wait })
    start_wait :
        s.consumer ≡ to_wait
        → Step s (record s {
          mutex = mx.unlock s.mutex;
          not_empty = cv.wait s.not_empty;
          consumer = waiting;
        })
    spurious : s.consumer ≡ waiting → Step s (record s { not_empty = cv.wake s.not_empty })
    end_wait :
        s.consumer ≡ waiting
        → cv.is_waiting s.not_empty ≡ false
        → mx.is_free s.mutex ≡ true
        → Step s (record s { mutex = mx.lock s.mutex; consumer = testing })
    see_element :
        s.consumer ≡ testing → is_empty s ≡ false → Step s (record s { consumer = nonempty })
    read_back :
        (x : A)
        → s.consumer ≡ nonempty
        → cb.back s.buffer.container ≡ some x
        → Step s (record s { consumer = read x })
    notify_pop :
        (x : A)
        → s.consumer ≡ read x
        → Step s (record s { not_empty = cv.notify_one s.not_empty; consumer = notified x })
    give :
        (x : A)
        → s.consumer ≡ notified x
        → Step s (record s { mutex = mx.unlock s.mutex; consumer = outside })

  -- Any number of steps.
  pub data Steps (s : System) : System → Type ℓ where
    start : Steps s s
    later : {t u : System} → Steps s t → Step t u → Steps s u

  abbrev pub Reach : System → Type ℓ
  Reach t = Steps init t
