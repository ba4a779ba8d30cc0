-- ===== src/Samples/PoolTests.antt =====
-- Tests of the threads of src/server.cxx.
use test_buffer.Prelude.{
  [], arith, false, length, none, refl, some, true, update, value, ℕ, ◌∷◌, ◌≡◌, ◌≤◌,
}
use mathlib.Core.Path.{subst}
use test_buffer.Samples.Services.{flag_sockets}
use test_buffer.Samples.ServerTests.{cb, asio, world, receipt}
use test_buffer.Server
use test_buffer.Server.{Server, Receipt}
use test_buffer.Server.Branches.{IsInitialized, pushed, next_io, handle_data_lem}
use test_buffer.Server.Serve.{Served}
use test_buffer.Server.Pool
use test_buffer.Server.Pool.Phases.{busy}
use test_buffer.Server.Pool.Handling.{push_word_lem, give_next_lem}
use test_buffer.Server.Pool.Staying.{is_out}
use test_buffer.Server.Pool.Leaving.{is_out-Steps}
use test_buffer.Server.Pool.Serial.{single-Steps, served-Steps}

abbrev State : Type 0
State = Pool.Pool cb asio flag_sockets

-- A server with its members set.
abbrev listener : Server cb asio flag_sockets
listener = record {
  data_buffer = [];
  n_count = 0;
  thread_count = 1;
  socket = some true;
  threads = 0;
  io_service = true;
  bounded_buffer = true;
  decoder = none;
  gathering_in_progress = false;
}

listener-IsInitialized : IsInitialized cb asio flag_sockets listener
listener-IsInitialized = record {
  sock = true;
  socket = refl;
  io_service = refl;
  bounded_buffer = refl;
}

abbrev at_start : State
at_start = Pool.init cb asio flag_sockets listener world

ready-IsInitialized : IsInitialized cb asio flag_sockets at_start.server
ready-IsInitialized = record {
  sock = true;
  socket = refl;
  io_service = refl;
  bounded_buffer = refl;
}

counted-IsInitialized :
    IsInitialized cb asio flag_sockets
      (record at_start.server { data_buffer = receipt.first ∷ receipt.others; n_count = 1 })
counted-IsInitialized = record {
  sock = true;
  socket = refl;
  io_service = refl;
  bounded_buffer = refl;
}

-- The worker thread is in handle_data.
abbrev starting : State
starting = record at_start {
  world = record at_start.world { io = record { waiting = []; halted = false } };
  place = update 1 Pool.in_handle_data at_start.place;
}

-- It has started the first receive, and is on its return.
abbrev receiving : State
receiving = Pool.finish cb asio flag_sockets 1 Pool.returning starting (
    value (
      starting.server,
      record starting.world {
        io = asio.async_receive_from Server.decode_data_handler starting.world.io;
      },
    ))

-- Meanwhile the caller of listen is in decode_data.
abbrev decoding : State
decoding = record receiving {
  server = record receiving.server { data_buffer = receipt.first ∷ receipt.others };
  world = record receiving.world { io = record { waiting = []; halted = false } };
  place = update 0 (Pool.in_decode_data receipt) receiving.place;
  received = receipt ∷ [];
}

abbrev size_written : State
size_written = record decoding {
  world = record decoding.world { stale_writes = receipt.size ∷ [] };
  place = update 0 Pool.written decoding.place;
}

abbrev word_pushed : State
word_pushed =
    Pool.finish cb asio flag_sockets 0 Pool.word_pushed size_written (
      value (decoding.server, pushed cb asio flag_sockets receipt decoding.world decoding.world.io))

abbrev count_read : State
count_read = record word_pushed { place = update 0 (Pool.count_read 1) word_pushed.place }

abbrev counted : State
counted = record count_read {
  server = record count_read.server { n_count = 1 };
  place = update 0 Pool.counted count_read.place;
}

abbrev tested : State
tested = record counted { place = update 0 (Pool.tested false) counted.place }

-- Both threads are on their return.
abbrev received_one : State
received_one = Pool.finish cb asio flag_sockets 0 Pool.returning tested (
    value (
      counted.server,
      record counted.world { io = next_io cb asio flag_sockets 1 counted.world.io },
    ))

starting-Steps : Pool.Steps cb asio flag_sockets at_start starting
unfolding update
starting-Steps = Pool.later Pool.start (Pool.take_handle_data 1 _ refl refl)

receiving-Steps : Pool.Steps cb asio flag_sockets at_start receiving
unfolding update
receiving-Steps =
    subst
      (λ o.
        Pool.Steps cb asio flag_sockets at_start
          (Pool.finish cb asio flag_sockets 1 Pool.returning starting o))
      (handle_data_lem cb asio flag_sockets starting.server starting.world ready-IsInitialized)
      (Pool.later starting-Steps (Pool.run_handle_data 1 refl))

decoding-Steps : Pool.Steps cb asio flag_sockets at_start decoding
unfolding update
decoding-Steps = Pool.later receiving-Steps (Pool.take_decode_data 0 _ receipt refl refl)

word_pushed-Steps : Pool.Steps cb asio flag_sockets at_start word_pushed
unfolding update
word_pushed-Steps =
    subst
      (λ o.
        Pool.Steps cb asio flag_sockets at_start
          (Pool.finish cb asio flag_sockets 0 Pool.word_pushed size_written o))
      (push_word_lem cb asio flag_sockets receipt receiving.server decoding.world
        ready-IsInitialized)
      (Pool.later (Pool.later decoding-Steps (Pool.write_size 0 receipt refl))
        (Pool.run_push_word 0 refl))

counted-Steps : Pool.Steps cb asio flag_sockets at_start counted
unfolding update
counted-Steps =
    Pool.later (Pool.later word_pushed-Steps (Pool.read_count 0 refl)) (Pool.write_count 0 1 refl)

received_one-Steps : Pool.Steps cb asio flag_sockets at_start received_one
unfolding update
received_one-Steps =
    subst
      (λ o.
        Pool.Steps cb asio flag_sockets at_start
          (Pool.finish cb asio flag_sockets 0 Pool.returning tested o))
      (give_next_lem cb asio flag_sockets counted.server counted.world counted-IsInitialized)
      (Pool.later (Pool.later counted-Steps (Pool.test_count 0 refl))
        (Pool.run_give_next 0 false refl))

received_one-idle : (u : ℕ) → busy (received_one.place u) ≡ false
unfolding update
received_one-idle u = ground arith

single-Steps_example : ◌≡◌ {A = ℕ} 0 0
unfolding update
single-Steps_example =
    single-Steps cb asio flag_sockets listener world 0 0 listener-IsInitialized refl refl refl
      word_pushed-Steps refl refl

served-Steps_example :
    Served cb asio flag_sockets (receipt ∷ []) listener world received_one.server received_one.world
    × (length (receipt ∷ []) ≤ 10001)
served-Steps_example =
    served-Steps cb asio flag_sockets listener world listener-IsInitialized refl refl refl
      received_one-Steps received_one-idle

is_out-Steps_example :
    (q : State) × Pool.Steps cb asio flag_sockets decoding q
    × (length q.received ≡ 10001)
    × (asio.stopped q.world.io ≡ true)
    × ((u : ℕ) → is_out (q.place u) ≡ true)
is_out-Steps_example =
    is_out-Steps cb asio flag_sockets listener world receipt listener-IsInitialized refl refl refl
      decoding-Steps
