-- ===== src/Server/Listen.antt =====
-- src/server.cxx: the whole run of listen, over the receive operations that end.
use test_buffer.Prelude.{
  List, [], arith, drop, false, length, min, some, suc, take, value, zero, ℕ, ℤ, ◌+◌, ◌∙◌, ◌≡◌, ◌≤◌,
}
use test_buffer.Boost.CircularBuffer.{CircularBuffer}
use test_buffer.Boost.Asio.{IoService, Sockets}
use test_buffer.Server.{Handler, decode_data_handler, Receipt, Server, World, run}
use test_buffer.Server.Branches.{IsInitialized}
use test_buffer.Server.{listen, handle_data_handler, handle_data}
use test_buffer.Server.Serve.{Served, IsReceiving, receive_all}

module _ (cb : CircularBuffer ℤ) (asio : IoService Handler) (net : Sockets) where
  -- How many receipts a run from a fresh count handles.
  abbrev pub served : List Receipt → ℕ
  served rs = min (length rs) 10001

  -- The posted handle_data starts the first receive.
  listen-run :
      (thread fuel : ℕ) (rs : List Receipt) (s : Server cb asio net) (w : World cb asio net)
      (io : asio.State)
      → IsInitialized cb asio net s
      → asio.take (asio.post handle_data_handler w.io) ≡ some (handle_data_handler, io)
      → listen cb asio net thread (suc fuel) rs s w
        ≡ run cb asio net thread fuel rs
            (record s { threads = s.threads + s.thread_count })
            (record w { io = asio.async_receive_from decode_data_handler io })
  unfolding listen run handle_data
  listen-run thread fuel rs s w io i took = ground arith

  -- listen on an initialized server with a new count and an idle service: it handles the receipts in
  -- order, up to the 10001st, and leaves the others. It counts each, puts the first word of each into
  -- the buffer as an `int`, and writes each size through the stale reference. The service is stopped
  -- exactly if 10001 were handled. Two handlers more than there are receipts are enough fuel.
  pub listen_lem :
      (thread fuel : ℕ) (rs : List Receipt) (s : Server cb asio net) (w : World cb asio net)
      → IsInitialized cb asio net s
      → s.n_count ≡ 0
      → asio.stopped w.io ≡ false
      → asio.pending w.io ≡ []
      → length rs + 2 ≤ fuel
      → (s' : Server cb asio net) × (w' : World cb asio net) × (listen cb asio net thread fuel rs s
            w
          ≡ value (s', w', drop (served rs) rs))
        × Served cb asio net (take (served rs) rs) s w s' w'
  listen_lem thread zero rs s w i c on idle f = absurd (omega arith)
  listen_lem thread (suc fuel) rs s w i c on idle f =
      let posted = asio.post handle_data_handler w.io in
      let (io, took, alone, still) =
        asio.take-only handle_data_handler posted (asio.stopped-post _ _ ∙ on)
          (asio.pending-post _ _ ∙ rw idle) in
      let s1 : Server cb asio net = record s { threads = s.threads + s.thread_count } in
      let w1 : World cb asio net = record w {
        io = asio.async_receive_from decode_data_handler io;
      } in
      let i1 : IsInitialized cb asio net s1 = record {
        sock = i.sock;
        socket = i.socket;
        io_service = i.io_service;
        bounded_buffer = i.bounded_buffer;
      } in
      let v1 : IsReceiving cb asio net w1 = record {
        running = asio.stopped-async_receive_from _ _ ∙ still;
        only = asio.pending-async_receive_from _ _ ∙ rw alone;
      } in
      let (s', w', ran, got) =
        receive_all cb asio net thread (served rs) rs fuel s1 w1 (omega arith) i1 v1 (omega arith)
          (omega arith) in
      (
        s',
        w',
        listen-run thread fuel rs s w io i took ∙ ran,
        record {
          count = got.count;
          bounded = got.bounded;
          stale = got.stale;
          stopped = got.stopped;
        },
      )
