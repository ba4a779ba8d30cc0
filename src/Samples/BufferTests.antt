-- ===== src/Samples/BufferTests.antt =====
-- Tests of include/bounded_buffer.hh and include/queue.hh over a buffer that is a list.
use test_buffer.Prelude.{
  List, [], arith, get_elem?, none, refl, some, undefined, value, ℕ, ◌+◌, ◌∷◌, ◌≡◌,
}
use test_buffer.Boost.CircularBuffer.{CircularBuffer}
use test_buffer.Samples.Buffers.{list_buffer}
use test_buffer.BoundedBuffer
use test_buffer.BoundedBuffer.{BoundedBuffer}
use test_buffer.BoundedBuffer.Window
use test_buffer.BoundedBuffer.Reading
use test_buffer.BoundedBuffer.Refine
use test_buffer.BoundedBuffer.Refine.{Call, pushes, pops, prints, asks_size, asks_empty}
use test_buffer.WorkQueue
use test_buffer.WorkQueue.{WorkQueue}
use test_buffer.WorkQueue.Fifo
use test_buffer.WorkQueue.Fifo.{put, get}
use test_buffer.WorkQueue.Counter

abbrev cb : CircularBuffer ℕ
cb = list_buffer ℕ

abbrev one_two_three : List ℕ
one_two_three = 1 ∷ 2 ∷ 3 ∷ []

pop_back-push_all_example :
    let b = Window.push_all cb one_two_three (BoundedBuffer.with_capacity cb 2) in
    (x : ℕ) × (get_elem? one_two_three 1 ≡ some x) × (BoundedBuffer.pop_back cb b ≡ value (x, b))
pop_back-push_all_example = Reading.pop_back-push_all cb 2 one_two_three (omega arith) (omega arith)

-- Holds 5, the newest, and 4.
abbrev two_items : BoundedBuffer cb
two_items = record { unread = 0; container = record { cap = 2; items = 5 ∷ 4 ∷ [] } }

-- Holds 9 behind 8, the oldest, with the count right.
abbrev queued : WorkQueue cb
queued = record { container = record { cap = 3; items = 9 ∷ 8 ∷ [] }; unread = 2 }

queued-IsSynced : Fifo.IsSynced cb queued
queued-IsSynced = record { counted = refl; small = omega arith }

run_refines_example :
    Fifo.run cb queued (put 7 ∷ get ∷ get ∷ get ∷ get ∷ [])
    ≡ value (some 8 ∷ some 9 ∷ some 7 ∷ none ∷ [])
unfolding Fifo.spec_run
run_refines_example =
    Fifo.run_refines cb (put 7 ∷ get ∷ get ∷ get ∷ get ∷ []) queued-IsSynced (omega arith)

abbrev full : WorkQueue cb
full = record { container = record { cap = 2; items = 9 ∷ 8 ∷ [] }; unread = 2 }

full-IsSynced : Fifo.IsSynced cb full
full-IsSynced = record { counted = refl; small = omega arith }

pop-push-full_example :
    (WorkQueue.try_pop cb (WorkQueue.push cb 7 full) ≡ undefined)
    × (WorkQueue.wait_and_pop cb (WorkQueue.push cb 7 full) ≡ undefined)
pop-push-full_example = Counter.pop-push-full cb 7 full-IsSynced (omega arith) refl

pop-with_capacity_garbage_example :
    let q = Counter.push_all cb one_two_three (WorkQueue.with_capacity cb 5 32767) in
    (WorkQueue.try_pop cb q ≡ undefined) × (WorkQueue.wait_and_pop cb q ≡ undefined)
pop-with_capacity_garbage_example =
    Counter.pop-with_capacity_garbage cb 5 32767 one_two_three (omega arith) (omega arith)
      (omega arith) (omega arith)

-- Calls with a pop of the empty buffer and a push that overwrites.
abbrev calls : List (Call ℕ)
calls = pops ∷ asks_empty ∷ pushes 1 ∷ pushes 2 ∷ pushes 3 ∷ pops ∷ pops ∷ prints ∷ asks_size ∷ []

run-spec_run_example :
    Refine.run (λ x. x + 100) 0 cb calls two_items
    ≡ Refine.spec_run (λ x. x + 100) 0 calls 2 (5 ∷ 4 ∷ [])
run-spec_run_example = Refine.run-spec_run (λ x. x + 100) 0 cb calls two_items
