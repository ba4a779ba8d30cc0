-- ===== src/Samples/QueueTests.antt =====
-- Tests of the interleavings of include/queue.hh.
use test_buffer.Prelude.{[], false, refl, true, ℕ, ◌∷◌}
use test_buffer.Boost.CircularBuffer.{CircularBuffer}
use test_buffer.Samples.Buffers.{list_buffer}
use test_buffer.Samples.Services.{flag_mutex, flag_condition}
use test_buffer.WorkQueue
use test_buffer.WorkQueue.Monitor

abbrev cb : CircularBuffer ℕ
cb = list_buffer ℕ

abbrev State : Type 0
State = Monitor.System ℕ cb flag_mutex flag_condition

abbrev fresh : State
unfolding WorkQueue.with_capacity
fresh = Monitor.init ℕ cb flag_mutex flag_condition 2 0

-- 7 was pushed and removed again, and wait_and_pop is about to return.
abbrev took : State
took = record {
  queue = record { container = record { cap = 2; items = [] }; unread = 0 };
  mutex = false;
  cond = false;
  producer = Monitor.unlocked;
  consumer = Monitor.removed 7;
  pushed = 7 ∷ [];
  returned = [];
  overwritten = false;
}

took-Steps : Monitor.Steps ℕ cb flag_mutex flag_condition fresh took
unfolding WorkQueue.with_capacity
took-Steps =
    Monitor.later
      (Monitor.later
        (Monitor.later
          (Monitor.later
            (Monitor.later
              (Monitor.later
                (Monitor.later (Monitor.later Monitor.start (Monitor.lock_to_push refl refl))
                  (Monitor.store 7 refl))
                (Monitor.count refl))
              (Monitor.unlock_push refl))
            (Monitor.lock_to_pop refl refl))
          (Monitor.see_element refl refl))
        (Monitor.read_unread 7 refl refl))
      (Monitor.remove 7 refl)

-- The consumer waits, and the producer has stored 7 and holds the lock.
abbrev waiting_full : State
waiting_full = record {
  queue = record { container = cb.push_front 7 (cb.with_capacity 2); unread = 0 };
  mutex = false;
  cond = true;
  producer = Monitor.stored;
  consumer = Monitor.waiting;
  pushed = 7 ∷ [];
  returned = [];
  overwritten = false;
}

waiting_full-Steps : Monitor.Steps ℕ cb flag_mutex flag_condition fresh waiting_full
unfolding WorkQueue.with_capacity
waiting_full-Steps =
    Monitor.later
      (Monitor.later
        (Monitor.later
          (Monitor.later (Monitor.later Monitor.start (Monitor.lock_to_pop refl refl))
            (Monitor.see_empty refl refl))
          (Monitor.start_wait refl))
        (Monitor.lock_to_push refl refl))
      (Monitor.store 7 refl)
