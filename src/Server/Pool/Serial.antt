-- ===== src/Server/Pool/Serial.antt =====
-- src/server.cxx: what the threads of listen have done together, in all interleavings.
use test_buffer.Prelude.{
  [], ap, append-nil, arith, false, length, sym, true, ℕ, ℤ, ◌+◌, ◌∙◌, ◌≡◌, ◌≤◌,
}
use test_buffer.Boost.CircularBuffer.{CircularBuffer}
use test_buffer.Boost.Asio.{IoService, Sockets}
use test_buffer.BoundedBuffer.Window.{push_all-nil}
use test_buffer.Server.{Handler, Server, World}
use test_buffer.Server.Branches.{IsInitialized}
use test_buffer.Server.Serve.{Served}
use test_buffer.Server.Pool.{Pool, first_place, init, Steps, start, later}
use test_buffer.Server.Pool.Phases.{
  busy, Idle, Only-single, Done, Phase, posted, starting, receiving, decoding, over,
}
use test_buffer.Server.Pool.Moving.{Step-Phase}

module _ (cb : CircularBuffer ℤ) (asio : IoService Handler) (net : Sockets) (s : Server cb asio net)
    (w : World cb asio net) where
  first-idle : (workers t : ℕ) → busy (first_place cb asio net workers t) ≡ false
  first-idle workers t = ground arith

  pub Steps-Phase :
      {p : Pool cb asio net}
      → IsInitialized cb asio net s
      → s.n_count ≡ 0
      → asio.stopped w.io ≡ false
      → asio.pending w.io ≡ []
      → Steps cb asio net (init cb asio net s w) p
      → Phase cb asio net s w p
  Steps-Phase i c on idle start =
      posted (first-idle (s.threads + s.thread_count)) (asio.pending-post _ _ ∙ rw idle)
        (asio.stopped-post _ _ ∙ on)
        (record {
          init = record {
            sock = i.sock;
            socket = i.socket;
            io_service = i.io_service;
            bounded_buffer = i.bounded_buffer;
          };
          served = record {
            count = omega arith;
            bounded = sym (push_all-nil cb w.shared.bounded);
            stale = sym (append-nil w.stale_writes);
            stopped = asio.stopped-post _ _ ∙ (on ∙ rw c);
          };
          fresh = c;
          limit = omega arith;
        })
  Steps-Phase i c on idle (later r st) = Step-Phase cb asio net s w st (Steps-Phase i c on idle r)

  Phase-single :
      {p : Pool cb asio net} (t u : ℕ)
      → Phase cb asio net s w p
      → busy (p.place t) ≡ true
      → busy (p.place u) ≡ true
      → t ≡ u
  Phase-single t u (posted idle one on d) ht hu = cc (idle t, ht)
  Phase-single {p} t u (starting v in_it only none_left on d) ht hu =
      Only-single v t u p.place only ht hu
  Phase-single t u (receiving idle one on d) ht hu = cc (idle t, ht)
  Phase-single {p} t u (decoding v on d) ht hu = Only-single v t u p.place d.only ht hu
  Phase-single t u (over idle off d) ht hu = cc (idle t, ht)

  pub Phase-Done :
      {p : Pool cb asio net}
      → Phase cb asio net s w p
      → Idle p.place
      → Done cb asio net s w p.received p.server p.world
  Phase-Done (posted idle one on d) h = d
  Phase-Done (starting t in_it only none_left on d) h = cc (h t, ap busy in_it)
  Phase-Done (receiving idle one on d) h = d
  Phase-Done (decoding t on d) h = cc (h t, on)
  Phase-Done (over idle off d) h = d

  -- However the threads that listen on an initialized server with a new count and an idle service take
  -- up the handlers, and however the accesses in them interleave: at most one thread at a time is in a
  -- handler that has not yet given the service the next one or stopped it.
  pub single-Steps :
      {p : Pool cb asio net} (t u : ℕ)
      → IsInitialized cb asio net s
      → s.n_count ≡ 0
      → asio.stopped w.io ≡ false
      → asio.pending w.io ≡ []
      → Steps cb asio net (init cb asio net s w) p
      → busy (p.place t) ≡ true
      → busy (p.place u) ≡ true
      → t ≡ u
  single-Steps t u i c on idle r = Phase-single t u (Steps-Phase i c on idle r)

  -- However the threads that listen on an initialized server with a new count and an idle service take
  -- up the handlers, and however the accesses in them interleave: whenever none of them is in a handler
  -- that has not given the next one or stopped the service, though some may be on their return from
  -- one, they have together done what one thread does with the same receipts in the same order. At
  -- most 10001 were received; the count is their number, the first word of each was pushed into the
  -- buffer as an `int`, each size was written through the stale reference, and the service is stopped
  -- exactly if they were 10001.
  pub served-Steps :
      {p : Pool cb asio net}
      → IsInitialized cb asio net s
      → s.n_count ≡ 0
      → asio.stopped w.io ≡ false
      → asio.pending w.io ≡ []
      → Steps cb asio net (init cb asio net s w) p
      → Idle p.place
      → Served cb asio net p.received s w p.server p.world × (length p.received ≤ 10001)
  served-Steps i c on idle r h =
      let d = Phase-Done (Steps-Phase i c on idle r) h in
      (d.served, omega (arith, d.limit, d.served.count, c))
