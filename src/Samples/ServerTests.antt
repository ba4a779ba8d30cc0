-- ===== src/Samples/ServerTests.antt =====
-- Tests of src/decoder.cxx, src/server.cxx and src/buf-server.cxx.
use test_buffer.Prelude.{
  List, [], arith, false, negsuc, none, pos, refl, to_int, true, undefined, value, ℤ, ◌∷◌, ◌≡◌,
}
use test_buffer.Boost.CircularBuffer.{CircularBuffer}
use test_buffer.Boost.Asio.{IoService}
use test_buffer.Samples.Buffers.{list_buffer}
use test_buffer.Samples.Services.{list_service, flag_sockets}
use test_buffer.Decoder
use test_buffer.Decoder.{Decoder, Shared}
use test_buffer.Decoder.Faults.{read_once_lem, read_queue_once-Reach, after_round, round_line, made}
use test_buffer.Decoder.Trace.{IsGathering, Gathered, read_data_lem}
use test_buffer.Server
use test_buffer.Server.{Server, World, Handler, Receipt, port}
use test_buffer.Server.Branches.{IsInitialized}
use test_buffer.Server.Serve.{Served}
use test_buffer.Server.Listen.{listen_lem}
use test_buffer.Server.Start.{started, read_data-start_gathering}
use test_buffer.BufServer
use test_buffer.BufServer.Result.{main-listen}

abbrev pub cb : CircularBuffer ℤ
cb = list_buffer ℤ

abbrev pub asio : IoService Handler
asio = list_service Handler

-- A decoder that was initialized and gathers, and a buffer of 2 that was sent 4, 5 and 6.
abbrev gathering : Decoder
gathering = record {
  buffer = true;
  io = true;
  queue = false;
  n_received = 0;
  n_max_cap = negsuc 0;
  yep_vec = [];
  check_thread = true;
  thread_id = none;
  event_counter = true;
}

abbrev sent : List ℤ
sent = pos 4 ∷ pos 5 ∷ pos 6 ∷ []

abbrev pub shared : Shared cb
shared = record {
  bounded = record { unread = 0; container = record { cap = 2; items = pos 6 ∷ pos 5 ∷ [] } };
  work = record { container = record { cap = 0; items = [] }; unread = 0 };
  events = pos 0;
  lines = [];
}

read_once_example :
    Decoder.read_once cb 3 gathering shared
    ≡ value (
      after_round 3 (pos 5) gathering,
      record shared { lines = round_line cb 3 (pos 5) gathering shared ∷ [] },
    )
read_once_example = read_once_lem cb 3 gathering shared refl

read_queue_once-Reach_example : Decoder.read_queue_once cb 3 Decoder.make shared ≡ undefined
read_queue_once-Reach_example = read_queue_once-Reach cb 3 shared made

gathering-IsGathering : IsGathering cb 2 sent gathering shared
gathering-IsGathering = record {
  buffer = refl;
  event_counter = refl;
  positive = omega arith;
  something = omega arith;
  holds = record { room = refl; newest = refl };
}

-- Two rounds with nothing sent between them receive 5 twice; then 7 and 8 are sent.
read_data_example :
    (d' : Decoder) × (w' : Shared cb) × (Decoder.read_data cb 3
        ([] ∷ [] ∷ (pos 7 ∷ pos 8 ∷ []) ∷ [])
        gathering
        shared
      ≡ value (d', w'))
    × Gathered cb 2 sent ([] ∷ [] ∷ (pos 7 ∷ pos 8 ∷ []) ∷ []) gathering shared d' w'
read_data_example =
    read_data_lem cb 2 3 sent ([] ∷ [] ∷ (pos 7 ∷ pos 8 ∷ []) ∷ []) gathering-IsGathering
      (omega arith)

abbrev pub world : World cb asio flag_sockets
world = record { io = record { waiting = []; halted = false }; shared = shared; stale_writes = [] }

-- A server with everything set.
abbrev server : Server cb asio flag_sockets
unfolding Server.make Decoder.initialize Decoder.make
server = started cb asio flag_sockets 1 true (Server.make cb asio flag_sockets [])

server-IsInitialized : IsInitialized cb asio flag_sockets server
unfolding server
server-IsInitialized = record {
  sock = true;
  socket = refl;
  io_service = refl;
  bounded_buffer = refl;
}

abbrev pub receipt : Receipt
receipt = record { error = 0; size = 4; first = 77; others = [] }

-- A receive that failed: the first word is still that of an earlier one.
abbrev failed : Receipt
failed = record { error = 5; size = 0; first = 77; others = [] }

listen_example :
    (s' : Server cb asio flag_sockets) × (w' : World cb asio flag_sockets) × (Server.listen cb asio
        flag_sockets 1 4
        (receipt ∷ failed ∷ [])
        server
        world
      ≡ value (s', w', []))
    × Served cb asio flag_sockets (receipt ∷ failed ∷ []) server world s' w'
unfolding server
listen_example =
    listen_lem cb asio flag_sockets 1 4 (receipt ∷ failed ∷ []) server world server-IsInitialized
      refl refl refl (omega arith)

read_data-start_gathering_example :
    (s' : Server cb asio flag_sockets) × (w' : World cb asio flag_sockets) × (Server.start_gathering
        cb asio flag_sockets server world
      ≡ value (s', w'))
    × (Server.start_gathering cb asio flag_sockets s' w' ≡ value (s', w'))
    × (Server.read_data_round cb asio flag_sockets 2 s' world ≡ undefined)
unfolding server
read_data-start_gathering_example =
    read_data-start_gathering cb asio flag_sockets 1 2 (Server.make cb asio flag_sockets []) world
      world true (pos 5) refl

main-listen_example :
    (s' : Server cb asio flag_sockets) × (w' : World cb asio flag_sockets) × (BufServer.main cb asio
        flag_sockets [] 1 4
        (receipt ∷ failed ∷ [])
      ≡ value (s', w', []))
    × (s'.n_count ≡ 2)
    × (w'.io.halted ≡ false)
    × (cb.contents w'.shared.bounded.container ≡ to_int 77 ∷ to_int 77 ∷ [])
main-listen_example = main-listen cb asio flag_sockets [] 1 (receipt ∷ failed ∷ []) true refl
