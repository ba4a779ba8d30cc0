-- ===== src/WorkQueue/Crowd.antt =====
-- include/queue.hh: any number of threads that call push, wait_and_pop, try_pop, empty, get_size and
-- get_capacity, interleaved. The first four lock `m_mutex`; push unlocks it before it notifies. The
-- other two take no lock and read one member.
pub mod Holding
pub mod Awake
pub mod Unread
pub mod Counted
pub mod Linear
pub mod Progress
pub mod Ending
use test_buffer.Prelude.{Bool, false, leb, none, some, true, update, ℕ, ◌<◌, ◌||◌, ◌≡◌}
use test_buffer.Boost.CircularBuffer.{CircularBuffer}
use test_buffer.Boost.Threads.{Mutex, Conditions}
use test_buffer.WorkQueue.{WorkQueue, with_capacity, inc_size, dec_size}

-- Where a thread stands: between calls; in push with the lock, after push_front, after `++m_unread`,
-- after the unlock; in wait_and_pop at the test of the `while`, before and in `wait`; at the test of
-- try_pop; in either past the test, with `popped_value` written, after pop_back, and after a read out
-- of range; in empty with the lock.
pub data Point {ℓ} (A : Type ℓ) : Type ℓ where
  outside : Point A
  locked : A → Point A
  stored counted unlocked testing to_wait waiting trying nonempty : Point A
  read : A → Point A
  removed : A → Point A
  crashed asking : Point A

module _ {ℓ} (A : Type ℓ) (cb : CircularBuffer A) (mx : Mutex) (cv : Conditions) where
  -- The members and the threads; and whether some push met a full buffer.
  pub record System : Type ℓ where
    pub queue : WorkQueue cb
    pub mutex : mx.State
    pub cond : cv.State
    pub point : ℕ → Point A
    pub overwritten : Bool

  -- `found` is what the memory of `m_unread` held.
  abbrev pub init : ℕ → ℕ → System
  init cap found = record {
    queue = with_capacity cb cap found;
    mutex = mx.unlocked;
    cond = cv.fresh;
    point = λ t. outside;
    overwritten = false;
  }

  abbrev pub is_empty : System → Bool
  is_empty s = cb.empty s.queue.container

  abbrev pub is_full : System → Bool
  is_full s = leb (cb.capacity s.queue.container) (cb.size s.queue.container)

  -- Thread `t` goes on to `p`.
  abbrev pub go : ℕ → Point A → System → System
  go t p s = record s { point = update t p s.point }

  -- The threads are those below `n`.
  pub data Step (n : ℕ) (s : System) : System → Type ℓ where
    lock_to_push :
        (t : ℕ) (x : A)
        → t < n
        → s.point t ≡ outside
        → mx.is_free s.mutex ≡ true
        → Step n s (record (go t (locked x) s) { mutex = mx.lock s.mutex })
    store :
        (t : ℕ) (x : A)
        → s.point t ≡ locked x
        → Step n s (record (go t stored s) {
          queue = record s.queue { container = cb.push_front x s.queue.container };
          overwritten = s.overwritten || is_full s;
        })
    count :
        (t : ℕ)
        → s.point t ≡ stored
        → Step n s (record (go t counted s) {
          queue = record s.queue { unread = inc_size s.queue.unread };
        })
    unlock_push :
        (t : ℕ)
        → s.point t ≡ counted
        → Step n s (record (go t unlocked s) { mutex = mx.unlock s.mutex })
    notify :
        (t : ℕ)
        → s.point t ≡ unlocked
        → Step n s (record (go t outside s) { cond = cv.notify_one s.cond })
    lock_to_pop :
        (t : ℕ)
        → t < n
        → s.point t ≡ outside
        → mx.is_free s.mutex ≡ true
        → Step n s (record (go t testing s) { mutex = mx.lock s.mutex })
    see_empty : (t : ℕ) → s.point t ≡ testing → is_empty s ≡ true → Step n s (go t to_wait s)
    start_wait :
        (t : ℕ)
        → s.point t ≡ to_wait
        → Step n s (record (go t waiting s) { mutex = mx.unlock s.mutex; cond = cv.wait t s.cond })
    spurious : (t : ℕ) → s.point t ≡ waiting → Step n s (record s { cond = cv.wake t s.cond })
    end_wait :
        (t : ℕ)
        → s.point t ≡ waiting
        → cv.is_waiting s.cond t ≡ false
        → mx.is_free s.mutex ≡ true
        → Step n s (record (go t testing s) { mutex = mx.lock s.mutex })
    see_element : (t : ℕ) → s.point t ≡ testing → is_empty s ≡ false → Step n s (go t nonempty s)
    lock_to_try :
        (t : ℕ)
        → t < n
        → s.point t ≡ outside
        → mx.is_free s.mutex ≡ true
        → Step n s (record (go t trying s) { mutex = mx.lock s.mutex })
    -- try_pop returns false.
    find_nothing :
        (t : ℕ)
        → s.point t ≡ trying
        → is_empty s ≡ true
        → Step n s (record (go t outside s) { mutex = mx.unlock s.mutex })
    find_element : (t : ℕ) → s.point t ≡ trying → is_empty s ≡ false → Step n s (go t nonempty s)
    read_unread :
        (t : ℕ) (x : A)
        → s.point t ≡ nonempty
        → cb.at s.queue.container (dec_size s.queue.unread) ≡ some x
        → Step n s (record (go t (read x) s) {
          queue = record s.queue { unread = dec_size s.queue.unread };
        })
    read_outside :
        (t : ℕ)
        → s.point t ≡ nonempty
        → cb.at s.queue.container (dec_size s.queue.unread) ≡ none
        → Step n s (go t crashed s)
    remove :
        (t : ℕ) (x : A)
        → s.point t ≡ read x
        → Step n s (record (go t (removed x) s) {
          queue = record s.queue { container = cb.pop_back s.queue.container };
        })
    give :
        (t : ℕ) (x : A)
        → s.point t ≡ removed x
        → Step n s (record (go t outside s) { mutex = mx.unlock s.mutex })
    lock_to_ask :
        (t : ℕ)
        → t < n
        → s.point t ≡ outside
        → mx.is_free s.mutex ≡ true
        → Step n s (record (go t asking s) { mutex = mx.lock s.mutex })
    -- empty returns `m_container.empty()`.
    answer :
        (t : ℕ) (b : Bool)
        → s.point t ≡ asking
        → is_empty s ≡ b
        → Step n s (record (go t outside s) { mutex = mx.unlock s.mutex })
    ask_size : (t : ℕ) → t < n → s.point t ≡ outside → Step n s s
    ask_capacity : (t : ℕ) → t < n → s.point t ≡ outside → Step n s s

  pub data Steps (n : ℕ) (s : System) : System → Type ℓ where
    start : Steps n s s
    later : {t u : System} → Steps n s t → Step n t u → Steps n s u
