-- ===== src/Server/Branches.antt =====
-- src/server.cxx: what decode_data does on each branch.
use test_buffer.Prelude.{
  [], arith, if◌then◌else◌, int_max, ltb, some, to_int, true, value, ℕ, ℤ, ◌++◌, ◌+◌, ◌<◌, ◌∷◌, ◌≡◌,
}
use test_buffer.Boost.CircularBuffer.{CircularBuffer}
use test_buffer.Boost.Asio.{IoService, Sockets}
use test_buffer.BoundedBuffer
use test_buffer.Server.{
  handle_data, Handler, decode_data_handler, Receipt, Server, World, decode_data,
}

module _ (cb : CircularBuffer ℤ) (asio : IoService Handler) (net : Sockets) where
  -- The members that initialize sets are set.
  pub record IsInitialized (s : Server cb asio net) : Type 0 where
    pub sock : net.Socket
    pub socket : s.socket ≡ some sock
    pub io_service : s.io_service ≡ true
    pub bounded_buffer : s.bounded_buffer ≡ true

  -- What decode_data leaves of the server, and of the rest but for the io_service.
  abbrev pub decoded : Receipt → Server cb asio net → Server cb asio net
  decoded r s = record s { n_count = s.n_count + 1; data_buffer = r.first ∷ r.others }

  abbrev pub pushed : Receipt → World cb asio net → asio.State → World cb asio net
  pushed r w io = record {
    io = io;
    shared = record w.shared {
      bounded = BoundedBuffer.push_front cb (to_int r.first) w.shared.bounded;
    };
    stale_writes = w.stale_writes ++ r.size ∷ [];
  }

  -- The io_service after decode_data: stopped at the 10001st call, else with a new receive.
  abbrev pub next_io : ℕ → asio.State → asio.State
  next_io n io =
      if ltb 10000 n then asio.stop io else asio.async_receive_from decode_data_handler io

  -- decode_data on an initialized server that is not at INT_MAX.
  pub decode_data_lem :
      (r : Receipt) (s : Server cb asio net) (w : World cb asio net)
      → IsInitialized s
      → s.n_count < int_max
      → decode_data cb asio net r s w
        ≡ value (decoded r s, pushed r w (next_io (s.n_count + 1) w.io))
  unfolding decode_data
  decode_data_lem r s w i small = ground arith

  pub IsInitialized-decoded :
      (r : Receipt) (s : Server cb asio net) → IsInitialized s → IsInitialized (decoded r s)
  IsInitialized-decoded r s i = record {
    sock = i.sock;
    socket = i.socket;
    io_service = i.io_service;
    bounded_buffer = i.bounded_buffer;
  }

  -- handle_data on an initialized server.
  pub handle_data_lem :
      (s : Server cb asio net) (w : World cb asio net)
      → IsInitialized s
      → handle_data cb asio net s w
        ≡ value (s, record w { io = asio.async_receive_from decode_data_handler w.io })
  unfolding handle_data
  handle_data_lem s w i = ground (arith, i.socket)
