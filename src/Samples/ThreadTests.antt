-- ===== src/Samples/ThreadTests.antt =====
-- Tests of the interleavings of include/SynchronisedQueue.hh and include/bounded_buffer.hh, and of the
-- calls of the former that do not overlap.
use test_buffer.Prelude.{[], false, inc, pos, refl, true, value, waits, ℕ, ◌∷◌, ◌≡◌}
use test_buffer.Boost.CircularBuffer.{CircularBuffer}
use test_buffer.Samples.Buffers.{list_buffer}
use test_buffer.Samples.Services.{flag_mutex, flag_condition}
use test_buffer.SyncQueue
use test_buffer.SyncQueue.{SyncQueue}
use test_buffer.SyncQueue.Sequential.{
  enqueue_all, dequeue_times, new-IsCounted, dequeue-enqueue_all,
}
use test_buffer.SyncQueue.Threads
use test_buffer.SyncQueue.Threads.LostWakeup.{IsQuiet, IsStuck, lost_wakeup, lost_size_update}
use test_buffer.BoundedBuffer
use test_buffer.BoundedBuffer.Monitor

dequeue-enqueue_all_example :
    let q' = enqueue_all (7 ∷ 8 ∷ []) (SyncQueue.new {A = ℕ}) in
    (SyncQueue.size_of q' ≡ pos 2)
    × ((q'' : SyncQueue ℕ) × (dequeue_times 2 q' ≡ value (7 ∷ 8 ∷ [], q''))
        × (SyncQueue.size_of q'' ≡ pos 0)
        × (SyncQueue.dequeue q'' ≡ waits))
unfolding SyncQueue.new
dequeue-enqueue_all_example = dequeue-enqueue_all (7 ∷ 8 ∷ []) new-IsCounted

abbrev Sync : Type 0
Sync = Threads.System ℕ flag_mutex flag_condition

abbrev fresh : Sync
fresh = Threads.init ℕ flag_mutex flag_condition

-- The producer has pushed 7, and the consumer is past its loop.
abbrev half_way : Sync
half_way = record fresh {
  queue = 7 ∷ [];
  mutex = false;
  producer = Threads.pushed;
  consumer = Threads.found 7;
  enqueued = 7 ∷ [];
}

fresh-IsQuiet : IsQuiet ℕ flag_mutex flag_condition fresh
fresh-IsQuiet = record { idle_producer = refl; idle_consumer = refl; free = refl }

lost_wakeup_example :
    (t : Sync) × Threads.Steps ℕ flag_mutex flag_condition fresh t
    × IsStuck ℕ flag_mutex flag_condition 7 t
lost_wakeup_example = lost_wakeup ℕ flag_mutex flag_condition 7 fresh-IsQuiet refl

-- One element, 5, enqueued by a whole call.
abbrev one : Sync
one = record fresh { queue = 5 ∷ []; size = inc (pos 0); enqueued = 5 ∷ [] }

one-IsQuiet : IsQuiet ℕ flag_mutex flag_condition one
one-IsQuiet = record { idle_producer = refl; idle_consumer = refl; free = refl }

lost_size_update_example :
    (t : Sync) × Threads.Steps ℕ flag_mutex flag_condition one t
    × IsQuiet ℕ flag_mutex flag_condition t
    × (t.queue ≡ 9 ∷ [])
    × (t.size ≡ inc (inc (pos 0)))
lost_size_update_example = lost_size_update ℕ flag_mutex flag_condition 9 5 one-IsQuiet refl

abbrev cb : CircularBuffer ℕ
cb = list_buffer ℕ

abbrev Bounded : Type 0
Bounded = Monitor.System ℕ cb flag_mutex flag_condition 2

-- The consumer waits, and the producer has pushed 7 and holds the lock.
abbrev waiting_full : Bounded
unfolding BoundedBuffer.push_front BoundedBuffer.with_capacity
waiting_full = record {
  buffer = BoundedBuffer.push_front cb 7 (BoundedBuffer.with_capacity cb 2);
  mutex = false;
  not_empty = true;
  producer = Monitor.pushed;
  consumer = Monitor.waiting;
}

waiting_full-Reach : Monitor.Reach ℕ cb flag_mutex flag_condition 2 waiting_full
unfolding BoundedBuffer.push_front BoundedBuffer.with_capacity
waiting_full-Reach =
    Monitor.later
      (Monitor.later
        (Monitor.later
          (Monitor.later (Monitor.later Monitor.start (Monitor.lock_to_pop refl refl))
            (Monitor.see_empty refl refl))
          (Monitor.start_wait refl))
        (Monitor.lock_to_push refl refl))
      (Monitor.push 7 refl)

-- The consumer was woken and has read 7.
abbrev one_read : Bounded
unfolding BoundedBuffer.push_front BoundedBuffer.with_capacity
one_read = record waiting_full {
  mutex = false;
  not_empty = false;
  producer = Monitor.ready;
  consumer = Monitor.read 7;
}

one_read-Reach : Monitor.Reach ℕ cb flag_mutex flag_condition 2 one_read
unfolding BoundedBuffer.push_front BoundedBuffer.with_capacity
one_read-Reach =
    Monitor.later
      (Monitor.later
        (Monitor.later
          (Monitor.later (Monitor.later waiting_full-Reach (Monitor.unlock_push refl))
            (Monitor.notify_push refl))
          (Monitor.end_wait refl refl refl))
        (Monitor.see_element refl refl))
      (Monitor.read_back 7 refl refl)
