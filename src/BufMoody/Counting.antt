-- ===== src/BufMoody/Counting.antt =====
-- src/buf-moody.cxx: what `*n_packet` counts, and which arrays the reader sees.
use test_buffer.Prelude.{
  Bool-cases, List, [], append_assoc, arith, if◌then◌else◌, inl, inr, refl, sym, ℕ, ◌++◌, ◌+◌, ◌==◌,
  ◌∷◌, ◌≡◌,
}
use test_buffer.Boost.Asio.{IoService, Sockets}
use test_buffer.Boost.Queues.{BlockingQueue}
use test_buffer.BufMoody.{
  Handler, Reader, scanning, mark, System, Step, first_receive, receive, put, see_enough,
  receive_again, receiver_returns, start_reading, go_on, peek_nothing, peek, dequeue_nothing,
  dequeue, scan, scanned, reader_returns, never_read, see_limit, stop, join_all, end, enqueue,
}
use test_buffer.BufMoody.{Reach, start, later, capacity}

-- The marks among some words, and in some arrays.
abbrev pub marks : List ℕ → ℕ
marks [] = 0
marks (x ∷ xs) = (if x == mark then 1 else 0) + marks xs

abbrev pub all_marks : List (List ℕ) → ℕ
all_marks [] = 0
all_marks (a ∷ rest) = marks a + all_marks rest

-- The words that the reader has dequeued and not yet looked at.
abbrev pub unscanned : Reader → List ℕ
unscanned (scanning words) = words
unscanned _ = []

all_marks-append_one :
    (arrays : List (List ℕ)) (a : List ℕ)
    → all_marks (arrays ++ a ∷ []) ≡ all_marks arrays + marks a
all_marks-append_one [] a = omega arith
all_marks-append_one (b ∷ rest) a = omega (arith, all_marks-append_one rest a)

module _ (moody : BlockingQueue (List ℕ)) (asio : IoService Handler) (net : Sockets) where
  record Inv (s : System moody asio net) : Type 0 where
    order : s.accepted ≡ s.taken ++ moody.contents s.queue
    counted : s.n_packet + marks (unscanned s.reader) ≡ all_marks s.taken

  Step-Inv : {s t : System moody asio net} → Step moody asio net s t → Inv s → Inv t
  unfolding enqueue
  Step-Inv (first_receive io r k) v = ground arith
  Step-Inv (receive io words r k) v = ground arith
  Step-Inv {s} (put words r) v = elim (Bool-cases (moody.enqueue words s.queue).0) [
    | inl ok ↦ record {
      order =
          rw (ok, moody.enqueue-true words s.queue ok, v.order)
            (append_assoc s.taken (moody.contents s.queue) (words ∷ []));
      counted = v.counted;
    }
    | inr no_memory ↦ record {
      order = rw (no_memory, moody.enqueue-false words s.queue no_memory) v.order;
      counted = v.counted;
    }
  ]
  Step-Inv (see_enough r d) v = ground arith
  Step-Inv (receive_again r d) v = ground arith
  Step-Inv (receiver_returns r k) v = ground arith
  Step-Inv (start_reading io r k) v = ground arith
  Step-Inv (go_on r k) v = ground arith
  Step-Inv (peek_nothing r e) v = ground arith
  Step-Inv (peek words r e) v = ground arith
  Step-Inv (dequeue_nothing r e) v = ground arith
  Step-Inv {s} (dequeue words q r e) v = ground (
    arith,
    moody.try_dequeue-some words s.queue q,
    append_assoc s.taken (words ∷ []) (moody.contents q),
    all_marks-append_one s.taken words,
  )
  Step-Inv {s} (scan x xs r) v = ground arith
  Step-Inv (scanned r) v = ground arith
  Step-Inv (reader_returns r k) v = ground arith
  Step-Inv (never_read r k) v = ground arith
  Step-Inv (see_limit m d e) v = ground arith
  Step-Inv (stop m) v = ground arith
  Step-Inv (join_all m r e) v = ground arith
  Step-Inv (end m d) v = ground arith

  Reach-Inv : {sock : net.Socket} {s : System moody asio net} → Reach moody asio net sock s → Inv s
  Reach-Inv start = record { order = sym (moody.contents-with_size capacity); counted = refl }
  Reach-Inv (later r st) = Step-Inv st (Reach-Inv r)

  -- In every reachable state the arrays enqueued are those dequeued and then the queue, in this order;
  -- and `*n_packet`, with the marks among the words that the reader has yet to look at, is the number
  -- of words 4321 in all arrays dequeued: it counts marks, several to an array if they are there.
  pub n_packet-Reach :
      {sock : net.Socket} {s : System moody asio net}
      → Reach moody asio net sock s
      → (s.accepted ≡ s.taken ++ moody.contents s.queue)
        × (s.n_packet + marks (unscanned s.reader) ≡ all_marks s.taken)
  n_packet-Reach r = let v = Reach-Inv r in (v.order, v.counted)
