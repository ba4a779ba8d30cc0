-- ===== src/BufLockfree/Accounting.antt =====
-- src/buf-lockfree.cxx: what the counters and the output say of the datagrams received.
use test_buffer.Prelude.{
  Bool-cases, List, [], ap, append_assoc, arith, inl, inr, length, length-append, ltb, refl, sym,
  to_int, ℕ, ℤ, ◌++◌, ◌+◌, ◌∙◌, ◌∷◌, ◌≡◌,
}
use test_buffer.Boost.Asio.{IoService, Sockets}
use test_buffer.Boost.Queues.{SpscQueue}
use test_buffer.BufLockfree.{
  Handler, Receiver, counted, Reader, got, shown, capacity, System, Step, first_receive, receive,
  push, see_done, receive_again, receiver_returns, start_reading, go_on, pop, pop_nothing, print,
  count, reader_returns, never_read, see_enough, stop, join_all, set_done, end, try_push,
}
use test_buffer.BufLockfree.{Reach, start, later, capacity, try_push}

-- A datagram that is counted and not yet pushed.
abbrev pub unpushed : Receiver → ℕ
unpushed (counted word) = 1
unpushed _ = 0

-- A value that is popped and not yet printed; one that is printed and not yet counted.
abbrev pub popped : Reader → List ℤ
popped (got x) = x ∷ []
popped _ = []

abbrev pub uncounted : Reader → ℕ
uncounted shown = 1
uncounted _ = 0

module _ (spsc : SpscQueue ℤ) (asio : IoService Handler) (net : Sockets) where
  record Inv (s : System spsc asio net) : Type 0 where
    order : s.pushed ≡ s.printed ++ (popped s.reader ++ spsc.contents s.queue)
    produced : s.producer_count ≡ length s.pushed + length s.dropped + unpushed s.receiver
    consumed : s.consumer_count + uncounted s.reader ≡ length s.printed
    room : spsc.capacity s.queue ≡ capacity

  try_push-Inv :
      (x : ℤ) (word : ℕ) (s : System spsc asio net)
      → s.receiver ≡ counted word
      → Inv s
      → Inv (try_push spsc asio net x s)
  unfolding try_push
  try_push-Inv x word s r v =
      elim (Bool-cases (ltb (length (spsc.contents s.queue)) (spsc.capacity s.queue))) [
        | inl fits ↦
            let (ok, held, kept) = spsc.push-room x s.queue (ground arith) in
            record {
              order = rw (ok, held, v.order) (simp append_assoc);
              produced =
                  rw ok (omega (arith, v.produced, ap unpushed r, length-append s.pushed (x ∷ [])));
              consumed = v.consumed;
              room = kept ∙ v.room;
            }
        | inr full ↦
            let same = spsc.push-full x s.queue (ground arith) in
            record {
              order = rw same v.order;
              produced =
                  rw same
                    (omega (arith, v.produced, ap unpushed r, length-append s.dropped (x ∷ [])));
              consumed = v.consumed;
              room = rw same v.room;
            }
      ]

  Step-Inv : {s t : System spsc asio net} → Step spsc asio net s t → Inv s → Inv t
  Step-Inv (first_receive io r k) v = ground arith
  Step-Inv (receive io word r k) v = ground arith
  Step-Inv {s} (push word r) v = try_push-Inv (to_int word) word s r v
  Step-Inv (see_done r d) v = ground arith
  Step-Inv (receive_again r d) v = ground arith
  Step-Inv (receiver_returns r k) v = ground arith
  Step-Inv (start_reading io r k) v = ground arith
  Step-Inv (go_on r k) v = ground arith
  Step-Inv {s} (pop x q r e) v = ground (arith, spsc.pop-some x s.queue q)
  Step-Inv (pop_nothing r e) v = ground arith
  Step-Inv {s} (print x r) v = ground (
    arith,
    append_assoc s.printed (x ∷ []) (spsc.contents s.queue),
    length-append s.printed (x ∷ []),
  )
  Step-Inv (count r) v = ground arith
  Step-Inv (reader_returns r k) v = ground arith
  Step-Inv (never_read r k) v = ground arith
  Step-Inv (see_enough m d e) v = ground arith
  Step-Inv (stop m) v = ground arith
  Step-Inv (join_all m r e) v = ground arith
  Step-Inv (set_done m) v = ground arith
  Step-Inv (end m d) v = ground arith

  Reach-Inv : {sock : net.Socket} {s : System spsc asio net} → Reach spsc asio net sock s → Inv s
  Reach-Inv start = record {
    order = sym (spsc.contents-with_capacity capacity);
    produced = refl;
    consumed = refl;
    room = spsc.capacity-with_capacity capacity;
  }
  Reach-Inv (later r st) = Step-Inv st (Reach-Inv r)

  -- In every reachable state the values pushed are the values printed, then the one that is popped and
  -- not yet printed, then the queue, in this order; `producer_count` is the number of values pushed,
  -- of values dropped and of the datagram in hand; and `consumer_count` is the number of values
  -- printed, less one between the print and the count.
  pub counts-Reach :
      {sock : net.Socket} {s : System spsc asio net}
      → Reach spsc asio net sock s
      → (s.pushed ≡ s.printed ++ (popped s.reader ++ spsc.contents s.queue))
        × (s.producer_count ≡ length s.pushed + length s.dropped + unpushed s.receiver)
        × (s.consumer_count + uncounted s.reader ≡ length s.printed)
  counts-Reach r = let v = Reach-Inv r in (v.order, v.produced, v.consumed)
