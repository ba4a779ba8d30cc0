-- ===== src/BoundedBuffer/Crowd.antt =====
-- include/bounded_buffer.hh: any number of threads that call push_front, pop_back, empty, get_size and
-- get_capacity, interleaved. The first three lock `m_mutex`: push_front unlocks it before it notifies,
-- pop_back notifies and frees it on return. The other two take no lock and read one member.
pub mod Holding
pub mod Reached
pub mod Copies
pub mod Freeing
pub mod Wakeup
pub mod Linear
pub mod Progress
pub mod Ending
use test_buffer.Prelude.{Bool, false, some, true, update, ℕ, ◌<◌, ◌≡◌}
use test_buffer.Boost.CircularBuffer.{CircularBuffer}
use test_buffer.Boost.Threads.{Mutex, Conditions}
use test_buffer.BoundedBuffer.{BoundedBuffer, with_capacity, push_front}

-- Where a thread stands: between calls; in push_front with the lock, with the container read, after the
-- push, after the unlock;
-- in pop_back at the test of the `while`, before and in `wait`, past the loop, with `*pItem` written,
-- notified; in empty with the lock.
pub data Point {ℓ} (A : Type ℓ) : Type ℓ where
  outside : Point A
  locked storing : A → Point A
  pushed unlocked testing to_wait waiting nonempty : Point A
  read : A → Point A
  notified : A → Point A
  asking : Point A

module _ {ℓ} (A : Type ℓ) (cb : CircularBuffer A) (mx : Mutex) (cv : Conditions) where
  pub record System : Type ℓ where
    pub buffer : BoundedBuffer cb
    pub mutex : mx.State
    pub not_empty : cv.State
    pub point : ℕ → Point A
    pub seen : ℕ → BoundedBuffer cb  -- what push_front has read of the members

  -- A buffer for `cap` elements.
  abbrev pub init : ℕ → System
  init cap = record {
    buffer = with_capacity cb cap;
    mutex = mx.unlocked;
    not_empty = cv.fresh;
    point = λ t. outside;
    seen = λ t. with_capacity cb cap;
  }

  -- `m_container.empty()`
  abbrev pub is_empty : System → Bool
  is_empty s = cb.empty s.buffer.container

  -- Thread `t` goes on to `p`.
  abbrev pub go : ℕ → Point A → System → System
  go t p s = record s { point = update t p s.point }

  -- The threads are those below `n`.
  pub data Step (n : ℕ) (s : System) : System → Type ℓ where
    lock_to_push :
        (t : ℕ) (x : A)
        → t < n
        → s.point t ≡ outside
        → mx.is_free s.mutex ≡ true
        → Step n s (record (go t (locked x) s) { mutex = mx.lock s.mutex })
    -- `m_container.push_front(item)` reads the container, and then writes what is made of it.
    begin_push :
        (t : ℕ) (x : A)
        → s.point t ≡ locked x
        → Step n s (record (go t (storing x) s) { seen = update t s.buffer s.seen })
    push :
        (t : ℕ) (x : A)
        → s.point t ≡ storing x
        → Step n s (record (go t pushed s) { buffer = push_front cb x (s.seen t) })
    unlock_push :
        (t : ℕ)
        → s.point t ≡ pushed
        → Step n s (record (go t unlocked s) { mutex = mx.unlock s.mutex })
    notify_push :
        (t : ℕ)
        → s.point t ≡ unlocked
        → Step n s (record (go t outside s) { not_empty = cv.notify_one s.not_empty })
    lock_to_pop :
        (t : ℕ)
        → t < n
        → s.point t ≡ outside
        → mx.is_free s.mutex ≡ true
        → Step n s (record (go t testing s) { mutex = mx.lock s.mutex })
    see_empty : (t : ℕ) → s.point t ≡ testing → is_empty s ≡ true → Step n s (go t to_wait s)
    start_wait :
        (t : ℕ)
        → s.point t ≡ to_wait
        → Step n s (record (go t waiting s) {
          mutex = mx.unlock s.mutex;
          not_empty = cv.wait t s.not_empty;
        })
    spurious :
        (t : ℕ) → s.point t ≡ waiting → Step n s (record s { not_empty = cv.wake t s.not_empty })
    end_wait :
        (t : ℕ)
        → s.point t ≡ waiting
        → cv.is_waiting s.not_empty t ≡ false
        → mx.is_free s.mutex ≡ true
        → Step n s (record (go t testing s) { mutex = mx.lock s.mutex })
    see_element : (t : ℕ) → s.point t ≡ testing → is_empty s ≡ false → Step n s (go t nonempty s)
    read_back :
        (t : ℕ) (x : A)
        → s.point t ≡ nonempty
        → cb.back s.buffer.container ≡ some x
        → Step n s (go t (read x) s)
    notify_pop :
        (t : ℕ) (x : A)
        → s.point t ≡ read x
        → Step n s (record (go t (notified x) s) { not_empty = cv.notify_one s.not_empty })
    give :
        (t : ℕ) (x : A)
        → s.point t ≡ notified x
        → Step n s (record (go t outside s) { mutex = mx.unlock s.mutex })
    lock_to_ask :
        (t : ℕ)
        → t < n
        → s.point t ≡ outside
        → mx.is_free s.mutex ≡ true
        → Step n s (record (go t asking s) { mutex = mx.lock s.mutex })
    -- empty returns `m_container.empty()`.
    answer :
        (t : ℕ) (b : Bool)
        → s.point t ≡ asking
        → is_empty s ≡ b
        → Step n s (record (go t outside s) { mutex = mx.unlock s.mutex })
    ask_size : (t : ℕ) → t < n → s.point t ≡ outside → Step n s s
    ask_capacity : (t : ℕ) → t < n → s.point t ≡ outside → Step n s s

  pub data Steps (n : ℕ) (s : System) : System → Type ℓ where
    start : Steps n s s
    later : {t u : System} → Steps n s t → Step n t u → Steps n s u
