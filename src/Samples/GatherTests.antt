-- ===== src/Samples/GatherTests.antt =====
-- Tests of src/decoder.cxx with several threads.
use test_buffer.Prelude.{arith, length, pos, refl, update, ℕ, ℤ, ◌++◌, ◌-◌, ◌≤◌}
use test_buffer.Boost.CircularBuffer.{CircularBuffer}
use test_buffer.Samples.Buffers.{list_buffer}
use test_buffer.Samples.Services.{flag_mutex}
use test_buffer.Samples.Crowds.{list_conditions}
use test_buffer.BoundedBuffer
use test_buffer.BoundedBuffer.Crowd
use test_buffer.Decoder.Gathering
use test_buffer.Decoder.Gathering.Order.{InOrder, in_hand, in_call}
use test_buffer.Decoder.Gathering.Telling.{Tells}
use test_buffer.Decoder.Gathering.Kept.{gathered-Steps}

abbrev cb : CircularBuffer ℤ
cb = list_buffer ℤ

abbrev State : Type 0
State = Gathering.System cb flag_mutex list_conditions 3

abbrev fresh : State
fresh = Gathering.init cb flag_mutex list_conditions 3 2 (pos 0)

-- Thread 1 pushes 7, and read_data takes, keeps and prints it.
one_printed : (s : State) × Gathering.Steps cb flag_mutex list_conditions 3 fresh s
unfolding BoundedBuffer.push_front BoundedBuffer.with_capacity update
one_printed = (
  _,
  Gathering.later
      (Gathering.later
        (Gathering.later
          (Gathering.later
            (Gathering.later
              (Gathering.later
                (Gathering.later
                  (Gathering.later
                    (Gathering.later
                      (Gathering.later
                        (Gathering.later
                          (Gathering.later
                            (Gathering.later Gathering.start (
                              Gathering.other (Crowd.lock_to_push 1 (pos 7) (omega arith) refl refl)
                                (omega arith)))
                            (Gathering.other (Crowd.begin_push 1 (pos 7) refl) (omega arith)))
                          (Gathering.other (Crowd.push 1 (pos 7) refl) (omega arith)))
                        (Gathering.other (Crowd.unlock_push 1 refl) (omega arith)))
                      (Gathering.other (Crowd.notify_push 1 refl) (omega arith)))
                    (Gathering.pop (Crowd.lock_to_pop 0 (omega arith) refl refl) refl refl refl))
                  (Gathering.pop (Crowd.see_element 0 refl refl) refl refl refl))
                (Gathering.pop (Crowd.read_back 0 (pos 7) refl refl) refl refl refl))
              (Gathering.pop (Crowd.notify_pop 0 (pos 7) refl) refl refl refl))
            (Gathering.return (pos 7) (Crowd.give 0 (pos 7) refl) refl refl refl))
          (Gathering.keep (pos 7) refl))
        (Gathering.note (pos 7) refl))
      (Gathering.see_size (pos 7) refl),
)

gathered-Steps_example :
    ((i : ℕ) × (i ≤ length (Gathering.sent_of cb flag_mutex list_conditions 3 one_printed.1) - 2)
      × InOrder
          (Gathering.sent_of cb flag_mutex list_conditions 3 one_printed.1)
          (one_printed.0.decoder.yep_vec
            ++ (in_hand one_printed.0.point ++ in_call (one_printed.0.crowd.point 0)))
          i)
    × Tells cb flag_mutex list_conditions 3 2 (pos 0) one_printed.0
gathered-Steps_example = gathered-Steps cb flag_mutex list_conditions 3 2 (pos 0) one_printed.1
