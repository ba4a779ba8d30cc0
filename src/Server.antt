-- ===== src/Server.antt =====
-- include/server.hh and src/server.cxx. Shared pointers are as in Decoder.antt; `counter`, a
-- reference in every call to `n_count`, is that field. `stream_lock` only keeps printed lines whole
-- and is left out, and so are `m_circular_buffer`, `m_idle_work`, `m_strand`, `m_decoding_thread`
-- and `m_queue`, which no code uses.
pub mod Serve
pub mod Listen
pub mod Start
pub mod Branches
pub mod Pool
use test_buffer.Prelude.{
  Bool, List, Option, Outcome, [], checked, defined, deref, exits, false, get_elem?, if◌then◌else◌,
  increment, ltb, none, some, suc, take, to_int, true, value, waits, zero, ℕ, ℤ, ◌++◌, ◌+◌, ◌>>=◌,
  ◌>>◌, ◌∷◌,
}
use test_buffer.Boost.CircularBuffer.{CircularBuffer}
use test_buffer.Boost.Asio.{IoService, Sockets}
use test_buffer.BoundedBuffer
use test_buffer.Decoder
use test_buffer.Decoder.{Decoder, Shared}

-- The handlers that the server gives to the io_service.
pub data Handler : Type 0 where
  handle_data_handler decode_data_handler read_data_handler : Handler

-- What a receive operation ends in: its error code, 0 for success, the bytes transferred, and
-- `m_data_buffer`, an array of 65507 words, as it is then: its first word and the others.
pub record Receipt : Type 0 where
  pub error : ℕ
  pub size : ℕ
  pub first : ℕ
  pub others : List ℕ

-- `#define MAXBUFLEN`, in words
abbrev pub max_buf_len : ℕ
max_buf_len = 65507

abbrev pub port : ℕ
port = 2224

module _ (cb : CircularBuffer ℤ) (asio : IoService Handler) (net : Sockets) where
  pub record Server : Type 0 where
    pub data_buffer : List ℕ
    pub n_count : ℕ
    pub thread_count : ℕ
    pub socket : Option net.Socket
    pub threads : ℕ  -- made for `m_thread_group` so far
    pub io_service : Bool
    pub bounded_buffer : Bool
    pub decoder : Option Decoder
    pub gathering_in_progress : Bool

  -- The io_service, the buffer and the output, and the values written through the reference `bytes`.
  pub record World : Type 0 where
    pub io : asio.State
    pub shared : Shared cb
    pub stale_writes : List ℕ

  unfoldable pub make : List ℕ → Server
  make memory = record {
    data_buffer = memory;
    n_count = 0;
    thread_count = 1;
    socket = none;
    threads = 0;
    io_service = false;
    bounded_buffer = false;
    decoder = none;
    gathering_in_progress = false;
  }

  -- `m_socket->close(); m_socket->shutdown(…)` on an open socket.
  unfoldable pub retire : Option net.Socket → Option net.Socket
  retire none = none
  retire (some s) = some (if net.is_open s then net.shutdown (net.close s) else s)

  -- The last result is the socket that is replaced, as it is left.
  pub initialize : (thread : ℕ) → Server → World → Outcome (Server × World × Option net.Socket)
  unfolding retire
  initialize thread s w = do
    sock ← checked (net.open_v4 port)
    let (d, lines) = Decoder.initialize thread Decoder.make
    let s' = record s {
      socket = some sock;
      io_service = true;
      bounded_buffer = true;
      decoder = some d;
    }
    let w' = record w { shared = record w.shared { lines = w.shared.lines ++ lines } }
    if net.is_open sock then value (s', w', retire s.socket) else exits 1

  pub handle_data : Server → World → Outcome (Server × World)
  handle_data s w = elim s.socket [
    | some sock ↦ value (s, record w { io = asio.async_receive_from decode_data_handler w.io })
    | none ↦ exits 1
  ]

  pub add_to_buffer : ℤ → Server → World → Outcome World
  add_to_buffer counter s w = do
    deref s.bounded_buffer
    let b = BoundedBuffer.push_front cb counter w.shared.bounded
    value (record w { shared = record w.shared { bounded = b } })

  pub end : Server → World → Outcome World
  end s w = do deref s.io_service; value (record w { io = asio.stop w.io })

  -- `bytes` refers to a local variable of a call of handle_data that is over: the write to it is
  -- kept in `stale_writes` and taken to change nothing else. `error` is not read.
  pub decode_data : Receipt → Server → World → Outcome (Server × World)
  unfolding handle_data add_to_buffer end
  decode_data r s w = do
    word ← checked (get_elem? (r.first ∷ r.others) 0)
    w1 ← add_to_buffer (to_int word) s (record w { stale_writes = w.stale_writes ++ r.size ∷ [] })
    n ← increment s.n_count
    let s1 = record s { n_count = n; data_buffer = r.first ∷ r.others }
    if ltb 10000 n then (do w2 ← end s1 w1; value (s1, w2)) else handle_data s1 w1

  -- A second call does nothing; the first makes the worker threads and posts read_data.
  pub start_gathering : Server → World → Outcome (Server × World)
  start_gathering s w = if s.gathering_in_progress then value (s, w) else do
    deref s.io_service
    value (
      record s { threads = s.threads + s.thread_count; gathering_in_progress = true },
      record w { io = asio.post read_data_handler w.io },
    )

  -- The posted read_data, up to its call of itself.
  pub read_data_round : (thread : ℕ) → Server → World → Outcome (Server × World)
  read_data_round thread s w = do
    d ← defined s.decoder
    (d', shared) ← Decoder.read_once cb thread d w.shared
    value (record s { decoder = some d' }, record w { shared = shared })

  -- A handler that the service took up, leaving `io`, and then the rest of the run. A handler of a
  -- receive runs when an operation has ended; with no receipt left the run stays as it was.
  -- read_data does not return.
  run_handler :
      (thread : ℕ) (rest : List Receipt → Server → World → Outcome (Server × World × List Receipt))
      → Handler
      → asio.State
      → List Receipt
      → Server
      → World
      → Outcome (Server × World × List Receipt)
  run_handler thread rest handle_data_handler io rs s w = do
    (s', w') ← handle_data s (record w { io = io })
    rest rs s' w'
  run_handler thread rest decode_data_handler io [] s w = value (s, w, [])
  run_handler thread rest decode_data_handler io (r ∷ rs) s w = do
    (s', w') ← decode_data r s (record w { io = io })
    rest rs s' w'
  run_handler thread rest read_data_handler io rs s w = do
    (s', w') ← read_data_round thread s (record w { io = io })
    waits

  -- `m_io_service->run()` while the receive operations end in the given receipts, as far as it gets:
  -- with the receipts that are left. `waits` says that the fuel, the number of handlers, ran out.
  pub run :
      (thread fuel : ℕ) → List Receipt → Server → World → Outcome (Server × World × List Receipt)
  unfolding run_handler
  run thread zero rs s w = waits
  run thread (suc fuel) rs s w = elim (asio.take w.io) [
    | none ↦ value (s, w, rs)
    | some (h, io) ↦ run_handler thread (run thread fuel) h io rs s w
  ]

  -- The worker threads run the same service: a handler is run by whichever thread takes it up.
  pub listen :
      (thread fuel : ℕ) → List Receipt → Server → World → Outcome (Server × World × List Receipt)
  unfolding run
  listen thread fuel rs s w = do
    deref s.io_service
    run thread fuel rs (record s { threads = s.threads + s.thread_count })
        (record w { io = asio.post handle_data_handler w.io })
