-- ===== src/SyncQueue/Threads.antt =====
-- include/SynchronisedQueue.hh: one thread that calls Enqueue and one that calls Dequeue, as in
-- src/buf-sync.cxx, interleaved at every access of shared state. Enqueue takes no lock: its
-- `unique_lock` line is a comment. A push and a pop of the `std::queue` count as one access each.
pub mod Order
pub mod LostWakeup
use test_buffer.Prelude.{List, [], dec, false, inc, pos, true, ℤ, ◌++◌, ◌∷◌, ◌≡◌}
use test_buffer.Boost.Threads.{Mutex, Condition}

-- Where Enqueue stands: `ready` between calls, then after the push, with `m_size` read for `++`,
-- and before notify_one.
pub data Producer : Type 0 where
  ready pushed : Producer
  read_size : ℤ → Producer
  sized : Producer

-- Where Dequeue stands, with its `result`: `outside` between calls, at the test of the `while`,
-- before and in `wait`, past the loop, after the pop, with `m_size` read for `--`, and before the
-- return, which frees the lock.
pub data Consumer {ℓ} (A : Type ℓ) : Type ℓ where
  outside testing to_wait waiting : Consumer A
  found : A → Consumer A
  popped : A → Consumer A
  took_size : A → ℤ → Consumer A
  leaving : A → Consumer A

module _ {ℓ} (A : Type ℓ) (mx : Mutex) (cv : Condition) where
  -- The members, both threads, and what was enqueued and what was returned so far.
  pub record System : Type ℓ where
    pub queue : List A
    pub size : ℤ
    pub mutex : mx.State
    pub cond : cv.State
    pub producer : Producer
    pub consumer : Consumer A
    pub enqueued : List A
    pub returned : List A

  abbrev pub init : System
  init = record {
    queue = [];
    size = pos 0;
    mutex = mx.unlocked;
    cond = cv.fresh;
    producer = ready;
    consumer = outside;
    enqueued = [];
    returned = [];
  }

  pub data Step (s : System) : System → Type ℓ where
    push :
        (x : A)
        → s.producer ≡ ready
        → Step s (record s {
          queue = s.queue ++ x ∷ [];
          producer = pushed;
          enqueued = s.enqueued ++ x ∷ [];
        })
    read_for_inc : s.producer ≡ pushed → Step s (record s { producer = read_size s.size })
    write_inc :
        (n : ℤ) → s.producer ≡ read_size n → Step s (record s { size = inc n; producer = sized })
    notify :
        s.producer ≡ sized → Step s (record s { cond = cv.notify_one s.cond; producer = ready })
    take_lock :
        s.consumer ≡ outside
        → mx.is_free s.mutex ≡ true
        → Step s (record s { mutex = mx.lock s.mutex; consumer = testing })
    see_empty : s.consumer ≡ testing → s.queue ≡ [] → Step s (record s { consumer = to_wait })
    start_wait :
        s.consumer ≡ to_wait
        → Step s (record s { mutex = mx.unlock s.mutex; cond = cv.wait s.cond; consumer = waiting })
    spurious : s.consumer ≡ waiting → Step s (record s { cond = cv.wake s.cond })
    end_wait :
        s.consumer ≡ waiting
        → cv.is_waiting s.cond ≡ false
        → mx.is_free s.mutex ≡ true
        → Step s (record s { mutex = mx.lock s.mutex; consumer = testing })
    see_front :
        (x : A) (xs : List A)
        → s.consumer ≡ testing
        → s.queue ≡ x ∷ xs
        → Step s (record s { consumer = found x })
    pop :
        (x y : A) (xs : List A)
        → s.consumer ≡ found x
        → s.queue ≡ y ∷ xs
        → Step s (record s { queue = xs; consumer = popped x })
    read_for_dec :
        (x : A) → s.consumer ≡ popped x → Step s (record s { consumer = took_size x s.size })
    write_dec :
        (x : A) (n : ℤ)
        → s.consumer ≡ took_size x n
        → Step s (record s { size = dec n; consumer = leaving x })
    give :
        (x : A)
        → s.consumer ≡ leaving x
        → Step s (record s {
          mutex = mx.unlock s.mutex;
          consumer = outside;
          returned = s.returned ++ x ∷ [];
        })

  -- Any number of steps.
  pub data Steps (s : System) : System → Type ℓ where
    start : Steps s s
    later : {t u : System} → Steps s t → Step t u → Steps s u

  abbrev pub Reach : System → Type ℓ
  Reach t = Steps init t
