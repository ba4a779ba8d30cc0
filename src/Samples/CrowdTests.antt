-- ===== src/Samples/CrowdTests.antt =====
-- Tests of include/bounded_buffer.hh with several threads.
use test_buffer.Prelude.{[], arith, false, refl, true, update, ℕ, ◌∷◌, ◌≡◌}
use test_buffer.Boost.CircularBuffer.{CircularBuffer}
use test_buffer.Samples.Buffers.{list_buffer}
use test_buffer.Samples.Services.{flag_mutex}
use test_buffer.Samples.Crowds.{list_conditions}
use test_buffer.BoundedBuffer
use test_buffer.BoundedBuffer.Refine.{spec_run}
use test_buffer.BoundedBuffer.Crowd
use test_buffer.BoundedBuffer.Crowd.Holding.{due}
use test_buffer.Threads.Descent.{Run}
use test_buffer.BoundedBuffer.Crowd.Progress.{Onward}
use test_buffer.BoundedBuffer.Crowd.Ending.{IsQuiet, finish-Steps}
use test_buffer.BoundedBuffer.Crowd.Wakeup.{Woken, asleep-Steps}
use test_buffer.BoundedBuffer.Crowd.Linear.{calls_of, replies_of, replies-crowd}

abbrev cb : CircularBuffer ℕ
cb = list_buffer ℕ

abbrev State : Type 0
State = Crowd.System ℕ cb flag_mutex list_conditions

abbrev fresh : State
unfolding BoundedBuffer.with_capacity
fresh = Crowd.init ℕ cb flag_mutex list_conditions 2

-- Threads 0 and 1 wait.
abbrev two_wait : State
unfolding BoundedBuffer.with_capacity
two_wait = record fresh {
  mutex = true;
  not_empty = 1 ∷ 0 ∷ [];
  point = update 1 Crowd.waiting (
      update 1 Crowd.to_wait (
        update 1 Crowd.testing
          (update 0 Crowd.waiting (update 0 Crowd.to_wait (update 0 Crowd.testing fresh.point)))));
}

two_wait-Steps : Crowd.Steps ℕ cb flag_mutex list_conditions 3 fresh two_wait
unfolding BoundedBuffer.with_capacity update
two_wait-Steps =
    Crowd.later
      (Crowd.later
        (Crowd.later
          (Crowd.later
            (Crowd.later (Crowd.later Crowd.start (Crowd.lock_to_pop 0 (omega arith) refl refl))
              (Crowd.see_empty 0 refl refl))
            (Crowd.start_wait 0 refl))
          (Crowd.lock_to_pop 1 (omega arith) refl refl))
        (Crowd.see_empty 1 refl refl))
      (Crowd.start_wait 1 refl)

-- Thread 2 has pushed 7 and holds the lock.
abbrev one_pushed : State
unfolding BoundedBuffer.push_front BoundedBuffer.with_capacity
one_pushed = record two_wait {
  buffer = BoundedBuffer.push_front cb 7 two_wait.buffer;
  mutex = false;
  point =
      update 2 Crowd.pushed (update 2 (Crowd.storing 7) (update 2 (Crowd.locked 7) two_wait.point));
  seen = update 2 two_wait.buffer two_wait.seen;
}

one_pushed-Steps : Crowd.Steps ℕ cb flag_mutex list_conditions 3 fresh one_pushed
unfolding BoundedBuffer.push_front BoundedBuffer.with_capacity update
one_pushed-Steps =
    Crowd.later
      (Crowd.later (Crowd.later two_wait-Steps (Crowd.lock_to_push 2 7 (omega arith) refl refl))
        (Crowd.begin_push 2 7 refl))
      (Crowd.push 2 7 refl)

-- notify_one wakes thread 1 first, and still thread 0 is woken.
asleep-Steps_example :
    ((u : ℕ) × (due (list_conditions.is_waiting one_pushed.not_empty u) (one_pushed.point u)
        ≡ true))
    × Woken ℕ cb flag_mutex list_conditions 3 0 one_pushed
unfolding BoundedBuffer.push_front BoundedBuffer.with_capacity
asleep-Steps_example = asleep-Steps ℕ cb flag_mutex list_conditions 3 2 0 one_pushed-Steps refl refl

replies-crowd_example :
    replies_of ℕ cb flag_mutex list_conditions 3 (λ x. x) 0 one_pushed-Steps
    ≡ spec_run (λ x. x) 0 (calls_of ℕ cb flag_mutex list_conditions 3 one_pushed-Steps) 2 []
unfolding BoundedBuffer.push_front BoundedBuffer.with_capacity
replies-crowd_example =
    replies-crowd ℕ cb flag_mutex list_conditions 3 (λ x. x) 0 2 one_pushed-Steps

-- Thread 2 notifies, both others read 7, and nobody waits.
finish-Steps_example :
    (u : State) × Run (Onward ℕ cb flag_mutex list_conditions 3) one_pushed u
    × IsQuiet ℕ cb flag_mutex list_conditions 3 u
unfolding fresh one_pushed
finish-Steps_example = finish-Steps ℕ cb flag_mutex list_conditions 3 2 one_pushed-Steps
