-- ===== src/BufServer.antt =====
-- src/buf-server.cxx: the program that makes a server over a buffer of 1000 and lets it listen. The
-- decoder that `main` makes is not used, and `work` only keeps the service's `run()` from returning.
pub mod Result
use test_buffer.Prelude.{List, Outcome, [], pos, ℕ, ℤ, ◌>>=◌, ◌>>◌}
use test_buffer.Boost.CircularBuffer.{CircularBuffer}
use test_buffer.Boost.Asio.{IoService, Sockets}
use test_buffer.BoundedBuffer
use test_buffer.WorkQueue
use test_buffer.Server
use test_buffer.Server.{Handler, Receipt, Server, World}

abbrev pub buffer_capacity : ℕ
buffer_capacity = 1000

module _ (cb : CircularBuffer ℤ) (asio : IoService Handler) (net : Sockets) where
  -- The io_service, the buffer and the event count as `main` makes them. It makes no `queue`, and
  -- none is used: that field holds an empty one.
  pub first_world : World cb asio net
  first_world = record {
    io = asio.new;
    shared = record {
      bounded = BoundedBuffer.with_capacity cb buffer_capacity;
      work = WorkQueue.with_capacity cb 0 0;
      events = pos 0;
      lines = [];
    };
    stale_writes = [];
  }

  -- `memory` is what the server's array holds before anything is written to it. The result is the
  -- state in which listen blocks or returns; the status of `main` is then 0.
  pub main :
      (memory : List ℕ) (thread fuel : ℕ)
      → List Receipt
      → Outcome (Server cb asio net × World cb asio net × List Receipt)
  unfolding first_world
  main memory thread fuel rs = do
    (s, w, old) ← Server.initialize cb asio net thread (Server.make cb asio net memory) first_world
    Server.listen cb asio net thread fuel rs s w
