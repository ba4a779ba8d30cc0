-- ===== src/BufLockfree/Ending.antt =====
-- src/buf-lockfree.cxx: how the program gets to its end.
use test_buffer.Prelude.{
  Bool-cases, Option-cases, ap, arith, inl, inr, length, none, refl, suc, true, zero, ℕ, ℤ, ◌∙◌,
  ◌≡◌, ◌≤◌,
}
use test_buffer.Boost.Asio.{IoService, Sockets}
use test_buffer.Boost.Queues.{SpscQueue}
use test_buffer.BufLockfree.{
  receive_data, Handler, Receiver, running, counted, tried, returned, Reader, idle, outer, inner,
  got, shown, left, Main, checking, stopping, joining, joined, ended, enough, System, Step,
  first_receive, receive, push, see_done, receive_again, receiver_returns, start_reading, go_on,
  pop, pop_nothing, print, count, reader_returns, never_read, see_enough, stop, join_all, set_done,
  end, Reach, Steps, start, later, try_push,
}

module _ (spsc : SpscQueue ℤ) (asio : IoService Handler) (net : Sockets) where
  abbrev State : Type 0
  State = System spsc asio net

  abbrev To : State → (State → Type 0) → Type 0
  To s P = (t : State) × Steps spsc asio net s t × P t

  Steps-append :
      {s t u : State} → Steps spsc asio net s t → Steps spsc asio net t u → Steps spsc asio net s u
  Steps-append r start = r
  Steps-append r (later q st) = later (Steps-append r q) st

  -- One more step at the front.
  after : {s t : State} {P : State → Type 0} → Step spsc asio net s t → To t P → To s P
  after st (u, r, p) = (u, Steps-append (later start st) r, p)

  -- In join_all the service is stopped.
  stopped-Reach :
      {sock : net.Socket} {s : State}
      → Reach spsc asio net sock s
      → s.main ≡ joining
      → asio.stopped s.io ≡ true
  unfolding try_push
  stopped-Reach start m = cc
  stopped-Reach (later {t = s} r (first_receive io w k)) m =
      asio.stopped-async_receive_from _ _ ∙ (asio.stopped-take _ _ io k ∙ stopped-Reach r m)
  stopped-Reach (later {t = s} r (receive io word w k)) m =
      asio.stopped-take _ _ io k ∙ stopped-Reach r m
  stopped-Reach (later r (push word w)) m = stopped-Reach r m
  stopped-Reach (later r (see_done w d)) m = stopped-Reach r m
  stopped-Reach (later r (receive_again w d)) m =
      asio.stopped-async_receive_from _ _ ∙ stopped-Reach r m
  stopped-Reach (later r (receiver_returns w k)) m = stopped-Reach r m
  stopped-Reach (later r (start_reading io w k)) m = asio.stopped-take _ _ io k ∙ stopped-Reach r m
  stopped-Reach (later r (go_on w k)) m = stopped-Reach r m
  stopped-Reach (later r (pop x q w e)) m = stopped-Reach r m
  stopped-Reach (later r (pop_nothing w e)) m = stopped-Reach r m
  stopped-Reach (later r (print x w)) m = stopped-Reach r m
  stopped-Reach (later r (count w)) m = stopped-Reach r m
  stopped-Reach (later r (reader_returns w k)) m = stopped-Reach r m
  stopped-Reach (later r (never_read w k)) m = stopped-Reach r m
  stopped-Reach (later r (see_enough h d e)) m = cc
  stopped-Reach (later r (stop h)) m = asio.stopped-stop _
  stopped-Reach (later r (join_all h w e)) m = cc
  stopped-Reach (later r (set_done h)) m = cc
  stopped-Reach (later r (end h d)) m = cc

  -- `main` waits in join_all on a stopped service, and the reader has left.
  record Left (t : State) : Type 0 where
    main : t.main ≡ joining
    off : asio.stopped t.io ≡ true
    reader : t.reader ≡ left

  leave :
      (s : State)
      → spsc.pop s.queue ≡ none
      → s.reader ≡ inner
      → s.main ≡ joining
      → asio.stopped s.io ≡ true
      → To s Left
  leave s e at m off =
      after (pop_nothing at e)
        (after (reader_returns refl off) (_, start, record { main = m; off = off; reader = refl }))

  -- The inner loop of read_data comes to its end: no more values are in the queue than `n`.
  drain :
      (n : ℕ) (s : State)
      → length (spsc.contents s.queue) ≤ n
      → s.reader ≡ inner
      → s.main ≡ joining
      → asio.stopped s.io ≡ true
      → To s Left
  drain zero s small at m off = elim (Option-cases (spsc.pop s.queue)) [
    | inl e ↦ leave s e at m off
    | inr ((x, q), e) ↦ absurd (omega (arith, small, ap length (spsc.pop-some x s.queue q e).0))
  ]
  drain (suc n) s small at m off = elim (Option-cases (spsc.pop s.queue)) [
    | inl e ↦ leave s e at m off
    | inr ((x, q), e) ↦
        let less : length (spsc.contents q) ≤ n =
          omega (arith, small, ap length (spsc.pop-some x s.queue q e).0) in
        after (pop x q at e) (after (print x refl) (after (count refl) (drain n _ less refl m off)))
  ]

  -- The reader leaves, from wherever it is.
  reader_leaves :
      (s : State) (r : Reader)
      → s.reader ≡ r
      → s.main ≡ joining
      → asio.stopped s.io ≡ true
      → To s Left
  reader_leaves s idle at m off =
      after (never_read at off) (_, start, record { main = m; off = off; reader = refl })
  reader_leaves s outer at m off =
      after (reader_returns at off) (_, start, record { main = m; off = off; reader = refl })
  reader_leaves s inner at m off = drain (length (spsc.contents s.queue)) s (omega arith) at m off
  reader_leaves s (got x) at m off =
      after (print x at)
        (after (count refl) (drain (length (spsc.contents s.queue)) _ (omega arith) refl m off))
  reader_leaves s shown at m off =
      after (count at) (drain (length (spsc.contents s.queue)) _ (omega arith) refl m off)
  reader_leaves s left at m off = (_, start, record { main = m; off = off; reader = at })

  abbrev Ended : State → Type 0
  Ended t = t.main ≡ ended

  -- With both workers out of `run()`.
  main_ends : (s : State) → Left s → s.receiver ≡ returned → To s Ended
  main_ends s v w =
      after (join_all v.main w v.reader)
        (after (set_done refl) (after (end refl refl) (_, start, refl)))

  -- With the receiver behind its push.
  after_push : (s : State) → Left s → s.receiver ≡ tried → To s Ended
  after_push s v w = elim (Bool-cases s.done) [
    | inl d ↦ after (see_done w d) (
        after (receiver_returns refl v.off)
          (main_ends _ (record { main = v.main; off = v.off; reader = v.reader }) refl))
    | inr d ↦
        let off = asio.stopped-async_receive_from receive_data s.io ∙ v.off in
        after (receive_again w d) (
          after (receiver_returns refl off)
            (main_ends _ (record { main = v.main; off = off; reader = v.reader }) refl))
  ]

  receiver_leaves : (s : State) (w : Receiver) → s.receiver ≡ w → Left s → To s Ended
  unfolding try_push
  receiver_leaves s running at v =
      after (receiver_returns at v.off)
        (main_ends _ (record { main = v.main; off = v.off; reader = v.reader }) refl)
  receiver_leaves s (counted word) at v =
      after (push word at)
        (after_push _ (record { main = v.main; off = v.off; reader = v.reader }) refl)
  receiver_leaves s tried at v = after_push s v at
  receiver_leaves s returned at v = main_ends s v at

  joining_ends : (s : State) → s.main ≡ joining → asio.stopped s.io ≡ true → To s Ended
  joining_ends s m off =
      let (t, r, v) = reader_leaves s s.reader refl m off in
      let (u, q, e) = receiver_leaves t t.receiver refl v in (u, Steps-append r q, e)

  main_goes_on :
      (s : State) (m : Main)
      → s.main ≡ m
      → enough ≤ s.consumer_count
      → (s.main ≡ joining → asio.stopped s.io ≡ true)
      → To s Ended
  main_goes_on s checking at e off = elim (Bool-cases s.done) [
    | inl d ↦ after (end at d) (_, start, refl)
    | inr d ↦
        after (see_enough at d e) (after (stop refl) (joining_ends _ refl (asio.stopped-stop s.io)))
  ]
  main_goes_on s stopping at e off = after (stop at) (joining_ends _ refl (asio.stopped-stop s.io))
  main_goes_on s joining at e off = joining_ends s at (off at)
  main_goes_on s joined at e off = after (set_done at) (after (end refl refl) (_, start, refl))
  main_goes_on s ended at e off = (s, start, at)

  -- The program does not get stuck: from every reachable state in which 15000 values were consumed,
  -- steps lead to the end of `main`.
  pub ended-Steps :
      {sock : net.Socket} {s : State}
      → Reach spsc asio net sock s
      → 15000 ≤ s.consumer_count
      → (t : State) × Steps spsc asio net s t × (t.main ≡ ended)
  ended-Steps {s = s} r e = main_goes_on s s.main refl e (stopped-Reach r)
