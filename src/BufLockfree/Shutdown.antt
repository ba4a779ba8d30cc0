-- ===== src/BufLockfree/Shutdown.antt =====
-- src/buf-lockfree.cxx: the end of the program, and its socket.
use test_buffer.Prelude.{Bool, arith, false, refl, true, ℤ, ◌<◌, ◌||◌, ◌≡◌, ◌≤◌}
use test_buffer.Boost.Asio.{IoService, Sockets}
use test_buffer.Boost.Queues.{SpscQueue}
use test_buffer.BufLockfree.{
  Handler, tried, returned, Main, checking, joined, ended, enough, System, Step, first_receive,
  receive, push, see_done, receive_again, receiver_returns, start_reading, go_on, pop, pop_nothing,
  print, count, reader_returns, never_read, see_enough, stop, join_all, set_done, end, Reach, start,
  later, try_push,
}

-- `main` has left its test with enough values consumed.
abbrev pub is_ending : Main → Bool
is_ending checking = false
is_ending _ = true

module _ (spsc : SpscQueue ℤ) (asio : IoService Handler) (net : Sockets) (sock : net.Socket) where
  record Inv (s : System spsc asio net) : Type 0 where
    open_still : s.socket ≡ sock
    joined_all : s.main ≡ joined → s.receiver ≡ returned
    done_last : s.done ≡ true → s.receiver ≡ returned
    consumed : (is_ending s.main || s.done) ≡ true → enough ≤ s.consumer_count
    ended_done : s.main ≡ ended → s.done ≡ true

  Step-Inv : {s t : System spsc asio net} → Step spsc asio net s t → Inv s → Inv t
  unfolding try_push
  Step-Inv (first_receive io r k) v = ground arith
  Step-Inv (receive io word r k) v = ground arith
  Step-Inv {s} (push word r) v = ground arith
  Step-Inv (see_done r d) v = ground arith
  Step-Inv (receive_again r d) v = ground arith
  Step-Inv (receiver_returns r k) v = ground arith
  Step-Inv (start_reading io r k) v = ground arith
  Step-Inv (go_on r k) v = ground arith
  Step-Inv {s} (pop x q r e) v = ground arith
  Step-Inv (pop_nothing r e) v = ground arith
  Step-Inv {s} (print x r) v = ground arith
  Step-Inv (count r) v = ground arith
  Step-Inv (reader_returns r k) v = ground arith
  Step-Inv (never_read r k) v = ground arith
  Step-Inv (see_enough m d e) v = ground arith
  Step-Inv (stop m) v = ground arith
  Step-Inv (join_all m r e) v = ground arith
  Step-Inv (set_done m) v = ground arith
  Step-Inv (end m d) v = ground arith

  Reach-Inv : {s : System spsc asio net} → Reach spsc asio net sock s → Inv s
  Reach-Inv start = record {
    open_still = refl;
    joined_all = λ e. cc;
    done_last = λ e. cc;
    consumed = λ e. cc;
    ended_done = λ e. cc;
  }
  Reach-Inv (later r st) = Step-Inv st (Reach-Inv r)

  -- The socket is never shut down: in every reachable state it is as it was at first, and `done` is
  -- not true when receive_data comes to its test of it.
  pub socket-Reach :
      {s : System spsc asio net}
      → Reach spsc asio net sock s
      → (s.socket ≡ sock) × (¬ ((s.receiver ≡ tried) × (s.done ≡ true)))
  socket-Reach r = let v = Reach-Inv r in (v.open_still, λ both. ground (arith, v.done_last both.1))

  -- In every reachable state in which `main` has ended, at least 15000 values were consumed and the
  -- worker that receives has returned.
  pub ended-Reach :
      {s : System spsc asio net}
      → Reach spsc asio net sock s
      → (¬ ((s.main ≡ ended) × (s.consumer_count < 15000)))
        × (¬ ((s.main ≡ ended) × (¬ (s.receiver ≡ returned))))
  ended-Reach r =
      let v = Reach-Inv r in
      (λ both. ground (arith, v.consumed, v.ended_done), λ (e, n). n (v.done_last (v.ended_done e)))
