-- ===== src/Samples/ProgramTests.antt =====
-- Tests of src/buf-lockfree.cxx, src/buf-moody.cxx and src/buf-sync.cxx.
use test_buffer.Prelude.{
  List, [], false, length, refl, true, ℕ, ℤ, ◌++◌, ◌+◌, ◌<◌, ◌∷◌, ◌≡◌, ◌≤◌, ◌⊎◌,
}
use test_buffer.Boost.Asio.{IoService}
use test_buffer.Boost.Queues.{SpscQueue, BlockingQueue}
use test_buffer.Samples.Buffers.{list_spsc, list_blocking}
use test_buffer.Samples.Services.{list_service, flag_sockets}
use test_buffer.BufLockfree
use test_buffer.BufLockfree.Accounting.{popped, uncounted, unpushed, counts-Reach}
use test_buffer.BufLockfree.Shutdown.{socket-Reach}
use test_buffer.BufMoody
use test_buffer.BufMoody.Counting.{marks, all_marks, unscanned, n_packet-Reach}
use test_buffer.BufMoody.Limit.{limit-Reach}

abbrev spsc : SpscQueue ℤ
spsc = list_spsc ℤ

abbrev lockfree_asio : IoService BufLockfree.Handler
lockfree_asio = list_service BufLockfree.Handler

abbrev Lockfree : Type 0
Lockfree = BufLockfree.System spsc lockfree_asio flag_sockets

-- The first receive is under way.
abbrev receiving : Lockfree
receiving = record (BufLockfree.init spsc lockfree_asio flag_sockets true) {
  io = record { waiting = BufLockfree.read_data ∷ BufLockfree.receive_data ∷ []; halted = false };
}

receiving-Reach : BufLockfree.Reach spsc lockfree_asio flag_sockets true receiving
receiving-Reach = BufLockfree.later BufLockfree.start (BufLockfree.first_receive _ refl refl)

counts-Reach_example :
    (receiving.pushed
      ≡ receiving.printed ++ (popped receiving.reader ++ spsc.contents receiving.queue))
    × (receiving.producer_count
        ≡ length receiving.pushed + length receiving.dropped + unpushed receiving.receiver)
    × (receiving.consumer_count + uncounted receiving.reader ≡ length receiving.printed)
counts-Reach_example = counts-Reach spsc lockfree_asio flag_sockets receiving-Reach

socket-Reach_example :
    (receiving.socket ≡ true)
    × (¬ ((receiving.receiver ≡ BufLockfree.tried) × (receiving.done ≡ true)))
socket-Reach_example = socket-Reach spsc lockfree_asio flag_sockets true receiving-Reach

abbrev moody : BlockingQueue (List ℕ)
moody = list_blocking (List ℕ)

abbrev moody_asio : IoService BufMoody.Handler
moody_asio = list_service BufMoody.Handler

abbrev Moody : Type 0
Moody = BufMoody.System moody moody_asio flag_sockets

abbrev moody_init : Moody
moody_init = BufMoody.init moody moody_asio flag_sockets true

n_packet-Reach_example :
    (moody_init.accepted ≡ moody_init.taken ++ moody.contents moody_init.queue)
    × (moody_init.n_packet + marks (unscanned moody_init.reader) ≡ all_marks moody_init.taken)
n_packet-Reach_example = n_packet-Reach moody moody_asio flag_sockets {sock = true} BufMoody.start

limit-Reach_example :
    ((moody_init.socket ≡ true) ⊎ (35000 ≤ moody_init.n_packet))
    × (¬ ((moody_init.main ≡ BufMoody.ended) × (moody_init.n_packet < 35000)))
limit-Reach_example = limit-Reach moody moody_asio flag_sockets true BufMoody.start
