-- ===== src/BufMoody/Limit.antt =====
-- src/buf-moody.cxx: when receiving and the program end.
use test_buffer.Prelude.{Bool, List, arith, false, inl, refl, true, ℕ, ◌<◌, ◌≡◌, ◌≤◌, ◌⊎◌}
use test_buffer.Boost.Asio.{IoService, Sockets}
use test_buffer.Boost.Queues.{BlockingQueue}
use test_buffer.BufMoody.{
  Handler, Main, watching, ended, limit, System, Step, first_receive, receive, put, see_enough,
  receive_again, receiver_returns, start_reading, go_on, peek_nothing, peek, dequeue_nothing,
  dequeue, scan, scanned, reader_returns, never_read, see_limit, stop, join_all, end, enqueue,
  Reach, start, later,
}

-- `main` has seen the limit reached.
abbrev pub has_seen : Main → Bool
has_seen watching = false
has_seen _ = true

module _ (moody : BlockingQueue (List ℕ)) (asio : IoService Handler) (net : Sockets)
    (sock : net.Socket) where
  record Inv (s : System moody asio net) : Type 0 where
    closing : (s.socket ≡ sock) ⊎ (limit ≤ s.n_packet)
    stopping : has_seen s.main ≡ true → limit ≤ s.n_packet
    stopped : asio.stopped s.io ≡ true → limit ≤ s.n_packet

  Step-Inv : {s t : System moody asio net} → Step moody asio net s t → Inv s → Inv t
  unfolding enqueue
  Step-Inv {s} (first_receive io r k) v = ground (
    arith,
    asio.stopped-take _ s.io io k,
    asio.stopped-async_receive_from Handler.receive_data io,
  )
  Step-Inv {s} (receive io words r k) v = ground (arith, asio.stopped-take _ s.io io k)
  Step-Inv {s} (put words r) v = ground arith
  Step-Inv (see_enough r d) v = ground arith
  Step-Inv {s} (receive_again r d) v =
      ground (arith, asio.stopped-async_receive_from Handler.receive_data s.io)
  Step-Inv (receiver_returns r k) v = ground arith
  Step-Inv {s} (start_reading io r k) v = ground (arith, asio.stopped-take _ s.io io k)
  Step-Inv (go_on r k) v = ground arith
  Step-Inv (peek_nothing r e) v = ground arith
  Step-Inv (peek words r e) v = ground arith
  Step-Inv (dequeue_nothing r e) v = ground arith
  Step-Inv {s} (dequeue words q r e) v = ground arith
  Step-Inv {s} (scan x xs r) v = ground arith
  Step-Inv (scanned r) v = ground arith
  Step-Inv (reader_returns r k) v = ground arith
  Step-Inv (never_read r k) v = ground arith
  Step-Inv (see_limit m d e) v = ground arith
  Step-Inv (stop m) v = ground arith
  Step-Inv (join_all m r e) v = ground arith
  Step-Inv (end m d) v = ground arith

  Reach-Inv : {s : System moody asio net} → Reach moody asio net sock s → Inv s
  Reach-Inv start = record {
    closing = inl refl;
    stopping = λ e. cc;
    stopped = λ e. cc (
      asio.stopped-new,
      asio.stopped-post Handler.handle_data asio.new,
      asio.stopped-post Handler.read_data (asio.post Handler.handle_data asio.new),
    );
  }
  Reach-Inv (later r st) = Step-Inv st (Reach-Inv r)

  -- The socket is as it was at first, or at least 35000 marks were counted. When `main` ends, at least
  -- 35000 were.
  pub limit-Reach :
      {s : System moody asio net}
      → Reach moody asio net sock s
      → ((s.socket ≡ sock) ⊎ (35000 ≤ s.n_packet)) × (¬ ((s.main ≡ ended) × (s.n_packet < 35000)))
  limit-Reach r = let v = Reach-Inv r in (v.closing, λ both. ground (arith, v.stopping))
