-- ===== src/WorkQueue/Monitor.antt =====
-- include/queue.hh: one thread that calls push and one that calls wait_and_pop and try_pop, interleaved.
-- All lock `m_mutex`; push unlocks it before it notifies.
pub mod Locks
pub mod Access
pub mod Order
pub mod Wakeup
pub mod Linear
use test_buffer.Prelude.{Bool, List, [], false, leb, none, some, true, ℕ, ◌++◌, ◌||◌, ◌∷◌, ◌≡◌}
use test_buffer.Boost.CircularBuffer.{CircularBuffer}
use test_buffer.Boost.Threads.{Mutex, Condition}
use test_buffer.WorkQueue.{WorkQueue, with_capacity, inc_size, dec_size}

-- Where push stands: between calls, with the lock, after push_front, after `++m_unread`, after the
-- unlock.
pub data Producer : Type 0 where
  ready locked stored counted unlocked : Producer

-- Where wait_and_pop and try_pop stand: between calls, at the test of the `while`, before and in `wait`,
-- at the test of try_pop, past the test, with `popped_value` written, after pop_back, and after a read
-- out of range.
pub data Consumer {ℓ} (A : Type ℓ) : Type ℓ where
  outside testing to_wait waiting trying nonempty : Consumer A
  read : A → Consumer A
  removed : A → Consumer A
  crashed : Consumer A

module _ {ℓ} (A : Type ℓ) (cb : CircularBuffer A) (mx : Mutex) (cv : Condition) where
  -- The members and both threads; what was pushed and returned so far; and whether some push met a
  -- full buffer.
  pub record System : Type ℓ where
    pub queue : WorkQueue cb
    pub mutex : mx.State
    pub cond : cv.State
    pub producer : Producer
    pub consumer : Consumer A
    pub pushed : List A
    pub returned : List A
    pub overwritten : Bool

  -- `found` is what the memory of `m_unread` held.
  abbrev pub init : ℕ → ℕ → System
  init cap found = record {
    queue = with_capacity cb cap found;
    mutex = mx.unlocked;
    cond = cv.fresh;
    producer = ready;
    consumer = outside;
    pushed = [];
    returned = [];
    overwritten = false;
  }

  abbrev pub is_empty : System → Bool
  is_empty s = cb.empty s.queue.container

  abbrev pub is_full : System → Bool
  is_full s = leb (cb.capacity s.queue.container) (cb.size s.queue.container)

  pub data Step (s : System) : System → Type ℓ where
    lock_to_push :
        s.producer ≡ ready
        → mx.is_free s.mutex ≡ true
        → Step s (record s { mutex = mx.lock s.mutex; producer = locked })
    store :
        (x : A)
        → s.producer ≡ locked
        → Step s (record s {
          queue = record s.queue { container = cb.push_front x s.queue.container };
          producer = stored;
          pushed = s.pushed ++ x ∷ [];
          overwritten = s.overwritten || is_full s;
        })
    count :
        s.producer ≡ stored
        → Step s (record s {
          queue = record s.queue { unread = inc_size s.queue.unread };
          producer = counted;
        })
    unlock_push :
        s.producer ≡ counted → Step s (record s { mutex = mx.unlock s.mutex; producer = unlocked })
    notify :
        s.producer ≡ unlocked → Step s (record s { cond = cv.notify_one s.cond; producer = ready })
    lock_to_pop :
        s.consumer ≡ outside
        → mx.is_free s.mutex ≡ true
        → Step s (record s { mutex = mx.lock s.mutex; consumer = testing })
    see_empty : s.consumer ≡ testing → is_empty s ≡ true → Step s (record s { consumer = to_wait })
    start_wait :
        s.consumer ≡ to_wait
        → Step s (record s { mutex = mx.unlock s.mutex; cond = cv.wait s.cond; consumer = waiting })
    spurious : s.consumer ≡ waiting → Step s (record s { cond = cv.wake s.cond })
    end_wait :
        s.consumer ≡ waiting
        → cv.is_waiting s.cond ≡ false
        → mx.is_free s.mutex ≡ true
        → Step s (record s { mutex = mx.lock s.mutex; consumer = testing })
    see_element :
        s.consumer ≡ testing → is_empty s ≡ false → Step s (record s { consumer = nonempty })
    lock_to_try :
        s.consumer ≡ outside
        → mx.is_free s.mutex ≡ true
        → Step s (record s { mutex = mx.lock s.mutex; consumer = trying })
    -- try_pop returns false.
    find_nothing :
        s.consumer ≡ trying
        → is_empty s ≡ true
        → Step s (record s { mutex = mx.unlock s.mutex; consumer = outside })
    find_element :
        s.consumer ≡ trying → is_empty s ≡ false → Step s (record s { consumer = nonempty })
    read_unread :
        (x : A)
        → s.consumer ≡ nonempty
        → cb.at s.queue.container (dec_size s.queue.unread) ≡ some x
        → Step s (record s {
          queue = record s.queue { unread = dec_size s.queue.unread };
          consumer = read x;
        })
    read_outside :
        s.consumer ≡ nonempty
        → cb.at s.queue.container (dec_size s.queue.unread) ≡ none
        → Step s (record s { consumer = crashed })
    remove :
        (x : A)
        → s.consumer ≡ read x
        → Step s (record s {
          queue = record s.queue { container = cb.pop_back s.queue.container };
          consumer = removed x;
        })
    give :
        (x : A)
        → s.consumer ≡ removed x
        → Step s (record s {
          mutex = mx.unlock s.mutex;
          consumer = outside;
          returned = s.returned ++ x ∷ [];
        })

  pub data Steps (s : System) : System → Type ℓ where
    start : Steps s s
    later : {t u : System} → Steps s t → Step t u → Steps s u
