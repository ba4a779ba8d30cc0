-- ===== src/Samples/EndingTests.antt =====
-- Tests of the ends of src/buf-lockfree.cxx and src/buf-moody.cxx: a service of lists goes around
-- until enough values were consumed, and enough marks counted.
use test_buffer.Prelude.{
  List, [], arith, false, refl, suc, to_int, true, zero, ℕ, ℤ, ◌++◌, ◌+◌, ◌∷◌, ◌≡◌, ◌≤◌, ◌<◌,
}
use mathlib.Core.Path.{subst}
use test_buffer.Boost.Asio.{IoService}
use test_buffer.Boost.Queues.{SpscQueue, BlockingQueue}
use test_buffer.Samples.Buffers.{list_spsc, list_blocking}
use test_buffer.Samples.Services.{list_service, flag_sockets}
use test_buffer.BufLockfree
use test_buffer.BufLockfree.Ending.{ended-Steps}
use test_buffer.BufMoody
use test_buffer.BufMoody.Ending.{limit-Steps}

add_one : (n : ℕ) → n + 1 ≡ suc n
add_one n = omega arith

abbrev spsc : SpscQueue ℤ
spsc = list_spsc ℤ

abbrev lockfree_asio : IoService BufLockfree.Handler
lockfree_asio = list_service BufLockfree.Handler

abbrev Lockfree : Type 0
Lockfree = BufLockfree.System spsc lockfree_asio flag_sockets

-- A receive is under way, the reader is in its inner loop and has consumed `n` values.
abbrev around : ℕ → ℕ → List ℤ → Lockfree
around p n xs = record (BufLockfree.init spsc lockfree_asio flag_sockets true) {
  io = record { waiting = BufLockfree.receive_data ∷ []; halted = false };
  reader = BufLockfree.inner;
  producer_count = p;
  consumer_count = n;
  pushed = xs;
  printed = xs;
}

abbrev Around : ℕ → Type 0
Around n =
    (p : ℕ) × (xs : List ℤ) × BufLockfree.Reach spsc lockfree_asio flag_sockets true (around p n xs)

around_once : (n : ℕ) → Around n → Around (n + 1)
unfolding BufLockfree.try_push
around_once n (p, xs, r) = (
  p + 1,
  xs ++ to_int 6 ∷ [],
  BufLockfree.later
      (BufLockfree.later
        (BufLockfree.later
          (BufLockfree.later
            (BufLockfree.later (BufLockfree.later r (BufLockfree.receive _ 6 refl refl))
              (BufLockfree.push 6 refl))
            (BufLockfree.receive_again refl refl))
          (BufLockfree.pop (to_int 6) _ refl refl))
        (BufLockfree.print (to_int 6) refl))
      (BufLockfree.count refl),
)

around_times : (n : ℕ) → Around n
around_times zero = (
  0,
  [],
  BufLockfree.later
      (BufLockfree.later
        (BufLockfree.later BufLockfree.start (BufLockfree.first_receive _ refl refl))
        (BufLockfree.start_reading _ refl refl))
      (BufLockfree.go_on refl refl),
)
around_times (suc n) = subst Around (add_one n) (around_once n (around_times n))

many : Around 15000
many = around_times 15000

ended-Steps_example :
    (t : Lockfree) × BufLockfree.Steps spsc lockfree_asio flag_sockets
      (around many.0 15000 many.1)
      t
    × (t.main ≡ BufLockfree.ended)
ended-Steps_example = ended-Steps spsc lockfree_asio flag_sockets many.2 (omega arith)

abbrev moody : BlockingQueue (List ℕ)
moody = list_blocking (List ℕ)

abbrev moody_asio : IoService BufMoody.Handler
moody_asio = list_service BufMoody.Handler

abbrev Moody : Type 0
Moody = BufMoody.System moody moody_asio flag_sockets

-- A receive is under way, the reader is in its loop and `n` marks were counted.
abbrev marked : ℕ → List (List ℕ) → Moody
marked n arrays = record (BufMoody.init moody moody_asio flag_sockets true) {
  io = record { waiting = BufMoody.receive_data ∷ []; halted = false };
  reader = BufMoody.outer;
  n_packet = n;
  accepted = arrays;
  taken = arrays;
}

abbrev Marked : ℕ → Type 0
Marked n =
    (arrays : List (List ℕ)) × BufMoody.Reach moody moody_asio flag_sockets true (marked n arrays)

marked_once : (n : ℕ) → n < 35000 → Marked n → Marked (n + 1)
unfolding BufMoody.enqueue
marked_once n h (arrays, r) = (
  arrays ++ (4321 ∷ []) ∷ [],
  BufMoody.later
      (BufMoody.later
        (BufMoody.later
          (BufMoody.later
            (BufMoody.later
              (BufMoody.later
                (BufMoody.later (BufMoody.later r (BufMoody.receive _ (4321 ∷ []) refl refl))
                  (BufMoody.put (4321 ∷ []) refl))
                (BufMoody.receive_again refl h))
              (BufMoody.go_on refl refl))
            (BufMoody.peek (4321 ∷ []) refl refl))
          (BufMoody.dequeue (4321 ∷ []) _ refl refl))
        (BufMoody.scan 4321 [] refl))
      (BufMoody.scanned refl),
)

marked_times : (n : ℕ) → n ≤ 35000 → Marked n
marked_times zero h = (
  [],
  BufMoody.later (BufMoody.later BufMoody.start (BufMoody.first_receive _ refl refl))
      (BufMoody.start_reading _ refl refl),
)
marked_times (suc n) h =
    subst Marked (add_one n) (marked_once n (omega (arith, h)) (marked_times n (omega (arith, h))))

all_marked : Marked 35000
all_marked = marked_times 35000 (omega arith)

limit-Steps_example :
    (t : Moody) × BufMoody.Steps moody moody_asio flag_sockets (marked 35000 all_marked.0) t
    × (t.main ≡ BufMoody.ended)
limit-Steps_example = limit-Steps moody moody_asio flag_sockets all_marked.1 (omega arith)
