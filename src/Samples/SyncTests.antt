-- ===== src/Samples/SyncTests.antt =====
-- Tests of the interleavings of src/buf-sync.cxx.
use test_buffer.Prelude.{[], false, refl, to_int, true, update, ◌&&◌, ◌+◌, ◌≡◌, ◌≢◌}
use test_buffer.Boost.Asio.{IoService}
use test_buffer.Samples.Services.{flag_mutex, flag_condition, list_service}
use test_buffer.SyncQueue.Threads.{outside, testing}
use test_buffer.BufSync.Program
use test_buffer.BufSync.Program.{Handler}
use test_buffer.BufSync.Program.Order.{in_reader}
use test_buffer.BufSync.Program.Tokens.{one_if}
use test_buffer.BufSync.Program.Counted.{in_receiver, uncounted}
use test_buffer.BufSync.Program.Datagrams.{n_datagrams, packet_count-Reach}
use test_buffer.BufSync.Program.Stuck.{in_reader-Steps}

abbrev asio : IoService Handler
asio = list_service Handler

abbrev State : Type 0
State = Program.System flag_mutex flag_condition asio

abbrev at_start : State
at_start = Program.init flag_mutex flag_condition asio

-- `main` has posted the reader, and worker 1 has taken it up.
abbrev reading : State
reading = record at_start {
  main = Program.to_post_receive;
  worker = update 1 (Program.reading outside) at_start.worker;
}

reading-Reach : Program.Reach flag_mutex flag_condition asio reading
unfolding update
reading-Reach =
    Program.later (Program.later Program.start (Program.post_reader refl))
      (Program.take_reader 1 _ refl refl)

-- It has taken the lock.
abbrev testing_it : State
testing_it = record reading {
  mutex = false;
  worker = update 1 (Program.reading testing) reading.worker;
}

testing_it-Steps : Program.Steps flag_mutex flag_condition asio reading testing_it
unfolding update
testing_it-Steps = Program.later Program.start (Program.take_lock 1 refl refl)

in_reader-Steps_example :
    (in_reader (testing_it.worker 1) ≡ true) × (testing_it.main ≢ Program.ended)
unfolding update
in_reader-Steps_example =
    in_reader-Steps flag_mutex flag_condition asio 1 reading-Reach refl testing_it-Steps

-- The first datagram, 9, has come in, and worker 0 is to enqueue it.
abbrev came_in : State
came_in = record at_start {
  io = record { waiting = []; halted = false };
  main = Program.sending 0;
  worker = update 0 (Program.to_push (to_int 9) Program.receiver) (
      update 0 Program.idle
        (update 0 Program.to_receive (update 1 (Program.reading outside) at_start.worker)));
}

came_in-Reach : Program.Reach flag_mutex flag_condition asio came_in
unfolding update
came_in-Reach =
    Program.later
      (Program.later
        (Program.later (Program.later reading-Reach (Program.post_receive refl))
          (Program.take_handle 0 _ refl refl))
        (Program.receive 0 refl))
      (Program.take_receive 0 _ 9 refl refl)

packet_count-Reach_example :
    ((in_receiver (came_in.worker 0) && in_receiver (came_in.worker 1)) ≡ false)
    × (came_in.packet_count
          + (one_if (uncounted (came_in.worker 0)) + one_if (uncounted (came_in.worker 1)))
        ≡ n_datagrams flag_mutex flag_condition asio came_in-Reach)
packet_count-Reach_example = packet_count-Reach flag_mutex flag_condition asio came_in-Reach
