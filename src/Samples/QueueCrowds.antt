-- ===== src/Samples/QueueCrowds.antt =====
-- Tests of include/queue.hh with several threads.
use test_buffer.Prelude.{[], arith, false, refl, true, update, ℕ, ◌∷◌, ◌≡◌, ◌≢◌, ◌≤◌, ◌⊎◌}
use test_buffer.Boost.CircularBuffer.{CircularBuffer}
use test_buffer.Samples.Buffers.{list_buffer}
use test_buffer.Samples.Services.{flag_mutex}
use test_buffer.Samples.Crowds.{list_conditions}
use test_buffer.Threads.Descent.{Run}
use test_buffer.WorkQueue
use test_buffer.WorkQueue.Crowd
use test_buffer.WorkQueue.Crowd.Holding.{due_count}
use test_buffer.WorkQueue.Crowd.Awake.{asleep, how_many, how_many-Steps}
use test_buffer.WorkQueue.Crowd.Progress.{Onward}
use test_buffer.WorkQueue.Crowd.Ending.{IsQuiet, ending-Steps}
use test_buffer.WorkQueue.Crowd.Linear.{calls_of, replies_of, serve, replies-queue}

abbrev cb : CircularBuffer ℕ
cb = list_buffer ℕ

abbrev State : Type 0
State = Crowd.System ℕ cb flag_mutex list_conditions

abbrev fresh : State
unfolding WorkQueue.with_capacity
fresh = Crowd.init ℕ cb flag_mutex list_conditions 2 0

-- Thread 0 waits, and thread 1 has stored 7.
abbrev one_stored : State
unfolding WorkQueue.with_capacity
one_stored = record fresh {
  queue = record { container = cb.push_front 7 (cb.with_capacity 2); unread = 0 };
  mutex = false;
  cond = 0 ∷ [];
  point = update 1 Crowd.stored (
      update 1 (Crowd.locked 7)
        (update 0 Crowd.waiting (update 0 Crowd.to_wait (update 0 Crowd.testing fresh.point))));
}

one_stored-Steps : Crowd.Steps ℕ cb flag_mutex list_conditions 3 fresh one_stored
unfolding WorkQueue.with_capacity update
one_stored-Steps =
    Crowd.later
      (Crowd.later
        (Crowd.later
          (Crowd.later (Crowd.later Crowd.start (Crowd.lock_to_pop 0 (omega arith) refl refl))
            (Crowd.see_empty 0 refl refl))
          (Crowd.start_wait 0 refl))
        (Crowd.lock_to_push 1 7 (omega arith) refl refl))
      (Crowd.store 1 7 refl)

-- One element, and thread 1 is still to notify.
how_many-Steps_example :
    how_many ℕ cb flag_mutex list_conditions 3 one_stored
    ≤ due_count 3 (asleep ℕ cb flag_mutex list_conditions 3 one_stored) one_stored.point
unfolding WorkQueue.with_capacity
how_many-Steps_example =
    how_many-Steps ℕ cb flag_mutex list_conditions 3 2 0 0 one_stored-Steps refl

-- Thread 1 notifies, thread 0 takes the element, and nobody waits.
ending-Steps_example :
    (u : State) × Run (Onward ℕ cb flag_mutex list_conditions 3) one_stored u
    × (IsQuiet ℕ cb flag_mutex list_conditions 3 u ⊎ (u.overwritten ≡ true))
unfolding fresh one_stored
ending-Steps_example =
    ending-Steps ℕ cb flag_mutex list_conditions 3 2 (omega arith) one_stored-Steps

-- Thread 1 has counted and notified, and thread 0 has taken 7.
abbrev one_removed : State
unfolding WorkQueue.with_capacity
one_removed = record fresh {
  queue = record { container = cb.pop_back one_stored.queue.container; unread = 0 };
  mutex = false;
  cond = [];
  point = update 0 (Crowd.removed 7) (
      update 0 (Crowd.read 7) (
        update 0 Crowd.nonempty (
          update 0 Crowd.testing (
            update 1 Crowd.outside
              (update 1 Crowd.unlocked (update 1 Crowd.counted one_stored.point))))));
}

one_removed-Steps : Crowd.Steps ℕ cb flag_mutex list_conditions 3 fresh one_removed
unfolding WorkQueue.with_capacity update
one_removed-Steps =
    Crowd.later
      (Crowd.later
        (Crowd.later
          (Crowd.later
            (Crowd.later
              (Crowd.later (Crowd.later one_stored-Steps (Crowd.count 1 refl))
                (Crowd.unlock_push 1 refl))
              (Crowd.notify 1 refl))
            (Crowd.end_wait 0 refl refl refl))
          (Crowd.see_element 0 refl refl))
        (Crowd.read_unread 0 7 refl refl))
      (Crowd.remove 0 7 refl)

replies-queue_example :
    (replies_of ℕ cb flag_mutex list_conditions 3 one_removed-Steps
      ≡ serve 2 [] (calls_of ℕ cb flag_mutex list_conditions 3 one_removed-Steps))
    × ((t : ℕ) → one_removed.point t ≢ Crowd.crashed)
unfolding WorkQueue.with_capacity
replies-queue_example =
    replies-queue ℕ cb flag_mutex list_conditions 3 2 (omega arith) one_removed-Steps refl
