-- ===== src/BufMoody/Ending.antt =====
-- src/buf-moody.cxx: how the program gets to its end.
use test_buffer.Prelude.{
  Bool-cases, List, Option-cases, [], arith, inl, inr, ltb, refl, true, ℕ, ◌∙◌, ◌∷◌, ◌≡◌, ◌≤◌,
}
use test_buffer.Boost.Asio.{IoService, Sockets}
use test_buffer.Boost.Queues.{BlockingQueue}
use test_buffer.BufMoody.{
  Handler, receive_data, Receiver, running, holding, enqueued, returned, Reader, idle, outer,
  looking, found, scanning, left, Main, watching, stopping, joining, ended, limit, System, Step,
  first_receive, receive, put, see_enough, receive_again, receiver_returns, start_reading, go_on,
  peek_nothing, peek, dequeue_nothing, dequeue, scan, scanned, reader_returns, never_read,
  see_limit, stop, join_all, end, Reach, Steps, start, later, enqueue,
}

module _ (moody : BlockingQueue (List ℕ)) (asio : IoService Handler) (net : Sockets) where
  abbrev State : Type 0
  State = System moody asio net

  abbrev To : State → (State → Type 0) → Type 0
  To s P = (t : State) × Steps moody asio net s t × P t

  Steps-append :
      {s t u : State}
      → Steps moody asio net s t
      → Steps moody asio net t u
      → Steps moody asio net s u
  Steps-append r start = r
  Steps-append r (later q st) = later (Steps-append r q) st

  -- One more step at the front.
  after : {s t : State} {P : State → Type 0} → Step moody asio net s t → To t P → To s P
  after st (u, r, p) = (u, Steps-append (later start st) r, p)

  -- In join_all the service is stopped.
  stopped-Reach :
      {sock : net.Socket} {s : State}
      → Reach moody asio net sock s
      → s.main ≡ joining
      → asio.stopped s.io ≡ true
  unfolding enqueue
  stopped-Reach start m = cc
  stopped-Reach (later r (first_receive io w k)) m =
      asio.stopped-async_receive_from _ _ ∙ (asio.stopped-take _ _ io k ∙ stopped-Reach r m)
  stopped-Reach (later r (receive io words w k)) m = asio.stopped-take _ _ io k ∙ stopped-Reach r m
  stopped-Reach (later r (put words w)) m = stopped-Reach r m
  stopped-Reach (later r (see_enough w d)) m = stopped-Reach r m
  stopped-Reach (later r (receive_again w d)) m =
      asio.stopped-async_receive_from _ _ ∙ stopped-Reach r m
  stopped-Reach (later r (receiver_returns w k)) m = stopped-Reach r m
  stopped-Reach (later r (start_reading io w k)) m = asio.stopped-take _ _ io k ∙ stopped-Reach r m
  stopped-Reach (later r (go_on w k)) m = stopped-Reach r m
  stopped-Reach (later r (peek_nothing w e)) m = stopped-Reach r m
  stopped-Reach (later r (peek words w e)) m = stopped-Reach r m
  stopped-Reach (later r (dequeue_nothing w e)) m = stopped-Reach r m
  stopped-Reach (later r (dequeue words q w e)) m = stopped-Reach r m
  stopped-Reach (later r (scan x xs w)) m = stopped-Reach r m
  stopped-Reach (later r (scanned w)) m = stopped-Reach r m
  stopped-Reach (later r (reader_returns w k)) m = stopped-Reach r m
  stopped-Reach (later r (never_read w k)) m = stopped-Reach r m
  stopped-Reach (later r (see_limit h d e)) m = cc
  stopped-Reach (later r (stop h)) m = asio.stopped-stop _
  stopped-Reach (later r (join_all h w e)) m = cc
  stopped-Reach (later r (end h d)) m = cc

  -- `main` waits in join_all on a stopped service, and the reader has left.
  record Left (t : State) : Type 0 where
    main : t.main ≡ joining
    off : asio.stopped t.io ≡ true
    reader : t.reader ≡ left

  -- The loop over the words of an array comes to its end, and the reader leaves.
  scan_all :
      (words : List ℕ) (s : State)
      → s.reader ≡ scanning words
      → s.main ≡ joining
      → asio.stopped s.io ≡ true
      → To s Left
  scan_all [] s at m off =
      after (scanned at)
        (after (reader_returns refl off) (_, start, record { main = m; off = off; reader = refl }))
  scan_all (x ∷ xs) s at m off = after (scan x xs at) (scan_all xs _ refl m off)

  from_found :
      (s : State) → s.reader ≡ found → s.main ≡ joining → asio.stopped s.io ≡ true → To s Left
  from_found s at m off = elim (Option-cases (moody.try_dequeue s.queue)) [
    | inl e ↦
        after (dequeue_nothing at e) (
          after (reader_returns refl off) (_, start, record { main = m; off = off; reader = refl }))
    | inr ((words, q), e) ↦ after (dequeue words q at e) (scan_all words _ refl m off)
  ]

  -- The reader leaves, from wherever it is.
  reader_leaves :
      (s : State) (r : Reader)
      → s.reader ≡ r
      → s.main ≡ joining
      → asio.stopped s.io ≡ true
      → To s Left
  reader_leaves s idle at m off =
      after (never_read at off) (_, start, record { main = m; off = off; reader = refl })
  reader_leaves s outer at m off =
      after (reader_returns at off) (_, start, record { main = m; off = off; reader = refl })
  reader_leaves s looking at m off = elim (Option-cases (moody.peek s.queue)) [
    | inl e ↦
        after (peek_nothing at e) (
          after (reader_returns refl off) (_, start, record { main = m; off = off; reader = refl }))
    | inr (words, e) ↦ after (peek words at e) (from_found _ refl m off)
  ]
  reader_leaves s found at m off = from_found s at m off
  reader_leaves s (scanning words) at m off = scan_all words s at m off
  reader_leaves s left at m off = (_, start, record { main = m; off = off; reader = at })

  -- With both workers out of `run()`.
  main_ends : (s : State) → Left s → s.receiver ≡ returned → To s (λ t. t.main ≡ ended)
  main_ends s v w = after (join_all v.main w v.reader) (after (end refl v.off) (_, start, refl))

  -- With the receiver behind its enqueue.
  after_put : (s : State) → Left s → s.receiver ≡ enqueued → To s (λ t. t.main ≡ ended)
  after_put s v w = elim (Bool-cases (ltb s.n_packet limit)) [
    | inr d ↦ after (see_enough w (ground (arith, d))) (
        after (receiver_returns refl v.off)
          (main_ends _ (record { main = v.main; off = v.off; reader = v.reader }) refl))
    | inl d ↦
        let off = asio.stopped-async_receive_from receive_data s.io ∙ v.off in
        after (receive_again w (ground (arith, d))) (
          after (receiver_returns refl off)
            (main_ends _ (record { main = v.main; off = off; reader = v.reader }) refl))
  ]

  receiver_leaves :
      (s : State) (w : Receiver) → s.receiver ≡ w → Left s → To s (λ t. t.main ≡ ended)
  unfolding enqueue
  receiver_leaves s running at v =
      after (receiver_returns at v.off)
        (main_ends _ (record { main = v.main; off = v.off; reader = v.reader }) refl)
  receiver_leaves s (holding words) at v =
      after (put words at)
        (after_put _ (record { main = v.main; off = v.off; reader = v.reader }) refl)
  receiver_leaves s enqueued at v = after_put s v at
  receiver_leaves s returned at v = main_ends s v at

  joining_ends :
      (s : State) → s.main ≡ joining → asio.stopped s.io ≡ true → To s (λ t. t.main ≡ ended)
  joining_ends s m off =
      let (t, r, v) = reader_leaves s s.reader refl m off in
      let (u, q, e) = receiver_leaves t t.receiver refl v in (u, Steps-append r q, e)

  main_goes_on :
      (s : State) (m : Main)
      → s.main ≡ m
      → limit ≤ s.n_packet
      → (s.main ≡ joining → asio.stopped s.io ≡ true)
      → To s (λ t. t.main ≡ ended)
  main_goes_on s watching at e off = elim (Bool-cases (asio.stopped s.io)) [
    | inl d ↦ after (end at d) (_, start, refl)
    | inr d ↦
        after (see_limit at d e) (after (stop refl) (joining_ends _ refl (asio.stopped-stop s.io)))
  ]
  main_goes_on s stopping at e off = after (stop at) (joining_ends _ refl (asio.stopped-stop s.io))
  main_goes_on s joining at e off = joining_ends s at (off at)
  main_goes_on s ended at e off = (s, start, at)

  -- The program does not get stuck: from every reachable state in which 35000 marks were counted,
  -- steps lead to the end of `main`.
  pub limit-Steps :
      {sock : net.Socket} {s : State}
      → Reach moody asio net sock s
      → 35000 ≤ s.n_packet
      → (t : State) × Steps moody asio net s t × (t.main ≡ ended)
  limit-Steps {s = s} r e = main_goes_on s s.main refl e (stopped-Reach r)
