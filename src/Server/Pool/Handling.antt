-- ===== src/Server/Pool/Handling.antt =====
-- src/server.cxx: what the steps of a handler come to on an initialized server.
use test_buffer.Prelude.{
  Bool, Bool-cases, [], ap, arith, false, increment, inl, inr, ltb, refl, some, sym, true, update,
  update-same, value, ℕ, ℤ, ◌++◌, ◌+◌, ◌∙◌, ◌∷◌, ◌≡◌,
}
use test_buffer.Boost.CircularBuffer.{CircularBuffer}
use test_buffer.Boost.Asio.{IoService, Sockets}
use test_buffer.Server.{
  Handler, handle_data_handler, decode_data_handler, Receipt, Server, World, handle_data,
  add_to_buffer, end,
}
use test_buffer.Server.Branches.{
  IsInitialized, IsInitialized-decoded, decoded, pushed, next_io, handle_data_lem,
}
use test_buffer.Server.Pool.{
  in_handle_data, in_decode_data, written, word_pushed, tested, returning, Pool, push_word,
  give_next, finish,
}
use test_buffer.Server.Pool.Taking.{take_one, Served-snoc}
use test_buffer.Server.Pool.Phases.{
  busy, Idle, Only, Only-update, Idle-update, Done, Done-io, Decoding, done_at, under, Phase,
  starting, receiving, decoding, over,
}

module _ (cb : CircularBuffer ℤ) (asio : IoService Handler) (net : Sockets) where
  pub push_word_lem :
      (r : Receipt) (s : Server cb asio net) (w : World cb asio net)
      → IsInitialized cb asio net s
      → push_word cb asio net
          (record s { data_buffer = r.first ∷ r.others })
          (record w { stale_writes = w.stale_writes ++ r.size ∷ [] })
        ≡ value (record s { data_buffer = r.first ∷ r.others }, pushed cb asio net r w w.io)
  unfolding push_word add_to_buffer
  push_word_lem r s w i = ground (arith, i.bounded_buffer)

  pub give_next_lem :
      (s : Server cb asio net) (w : World cb asio net)
      → IsInitialized cb asio net s
      → give_next cb asio net (ltb 10000 s.n_count) s w
        ≡ value (s, record w { io = next_io cb asio net s.n_count w.io })
  unfolding give_next end
  give_next_lem s w i = elim (Bool-cases (ltb 10000 s.n_count)) [
    | inl full ↦ rw (full, i.io_service)
    | inr room ↦ rw (room, handle_data_lem cb asio net s w i)
  ]

module _ (cb : CircularBuffer ℤ) (asio : IoService Handler) (net : Sockets) (s : Server cb asio net)
    (w : World cb asio net) where
  abbrev Holds : Pool cb asio net → Type 0
  Holds p = Phase cb asio net s w p

  -- A thread takes up the only handler.
  pub started :
      (p : Pool cb asio net) (t : ℕ) (io : asio.State)
      → asio.take p.world.io ≡ some (handle_data_handler, io)
      → Idle p.place
      → asio.pending p.world.io ≡ handle_data_handler ∷ []
      → asio.stopped p.world.io ≡ false
      → Done cb asio net s w p.received p.server p.world
      → Holds
          (record p { world = record p.world { io = io }; place = update t in_handle_data p.place })
  started p t io took idle one on d =
      let same = asio.stopped-take _ _ io took in
      starting t (update-same t in_handle_data p.place)
        (Only-update t in_handle_data p.place (λ u n. idle u)) (take_one asio _ _ _ io one took).1
        (same ∙ on) (Done-io cb asio net s w p.received p.server p.world io same d)

  pub took_receipt :
      (p : Pool cb asio net) (t : ℕ) (io : asio.State) (r : Receipt)
      → asio.take p.world.io ≡ some (decode_data_handler, io)
      → Idle p.place
      → asio.pending p.world.io ≡ decode_data_handler ∷ []
      → asio.stopped p.world.io ≡ false
      → Done cb asio net s w p.received p.server p.world
      → Holds (record p {
        server = record p.server { data_buffer = r.first ∷ r.others };
        world = record p.world { io = io };
        place = update t (in_decode_data r) p.place;
        received = p.received ++ r ∷ [];
      })
  took_receipt p t io r took idle one on d =
      let same = asio.stopped-take _ _ io took in
      decoding t (ap busy (update-same t (in_decode_data r) p.place)) (record {
        receipt = r;
        before = p.received;
        server = p.server;
        world = record p.world { io = io };
        only = Only-update t (in_decode_data r) p.place (λ u n. idle u);
        none_left = (take_one asio _ _ _ io one took).1;
        on = same ∙ on;
        got = refl;
        done = Done-io cb asio net s w p.received p.server p.world io same d;
        stage = rw (update-same t (in_decode_data r) p.place) (refl, refl, refl);
      })

  pub handled_first :
      (p : Pool cb asio net) (t : ℕ)
      → Only t p.place
      → asio.pending p.world.io ≡ []
      → asio.stopped p.world.io ≡ false
      → Done cb asio net s w p.received p.server p.world
      → Holds (finish cb asio net t returning p (handle_data cb asio net p.server p.world))
  handled_first p t only none_left on d = rw (handle_data_lem cb asio net p.server p.world d.init) (
      receiving (Idle-update t returning p.place refl only)
        (asio.pending-async_receive_from _ _ ∙ rw none_left)
        (asio.stopped-async_receive_from _ _ ∙ on)
        (Done-io cb asio net s w p.received p.server p.world _ (asio.stopped-async_receive_from _ _)
          d))

  pub push_word-value :
      (p : Pool cb asio net) (t : ℕ) (e : p.place t ≡ written) (d : Decoding cb asio net s w t p)
      → push_word cb asio net p.server p.world
        ≡ value (
          record d.server { data_buffer = d.receipt.first ∷ d.receipt.others },
          pushed cb asio net d.receipt d.world d.world.io,
        )
  push_word-value p t e d =
      let (es, ew) = done_at cb asio net s w t written e d in
      rw (es, ew) (push_word_lem cb asio net d.receipt d.server d.world d.done.init)

  pub read_count-value :
      (p : Pool cb asio net) (t : ℕ) (e : p.place t ≡ word_pushed)
      (d : Decoding cb asio net s w t p)
      → increment p.server.n_count ≡ value (d.server.n_count + 1)
  read_count-value p t e d =
      let (es, ew) = done_at cb asio net s w t word_pushed e d in
      let small = under cb asio net s w d.on d.done in
      ap (λ z. increment z.n_count) es ∙ ground (arith, small)

  pub give_next-value :
      (p : Pool cb asio net) (t : ℕ) (b : Bool) (e : p.place t ≡ tested b)
      (d : Decoding cb asio net s w t p)
      → give_next cb asio net b p.server p.world
        ≡ value (
          decoded cb asio net d.receipt d.server,
          pushed cb asio net d.receipt d.world
              (next_io cb asio net (d.server.n_count + 1) d.world.io),
        )
  give_next-value p t b e d =
      let (eb, es, ew) = done_at cb asio net s w t (tested b) e d in
      rw (eb, es, ew)
        (give_next_lem cb asio net _ _
          (IsInitialized-decoded cb asio net d.receipt d.server d.done.init))

  -- The thread that has tested the count gives the next handler or stops the service.
  pub handled_receipt :
      (p : Pool cb asio net) (t : ℕ) (b : Bool)
      → p.place t ≡ tested b
      → Decoding cb asio net s w t p
      → Holds (finish cb asio net t returning p (give_next cb asio net b p.server p.world))
  handled_receipt p t b e d =
      let under_limit = under cb asio net s w d.on d.done in
      let idle = Idle-update t returning p.place refl d.only in
      let n = d.server.n_count + 1 in
      rw (give_next-value p t b e d) (elim (Bool-cases (ltb 10000 n)) [
        | inl full ↦
            let off : asio.stopped (next_io cb asio net n d.world.io) ≡ true =
              rw full (asio.stopped-stop d.world.io) in
            over idle off (record {
              init = IsInitialized-decoded cb asio net d.receipt d.server d.done.init;
              served =
                  rw d.got
                    (Served-snoc cb asio net d.receipt d.before _ d.done.served (off ∙ sym full));
              fresh = d.done.fresh;
              limit = omega (arith, under_limit);
            })
        | inr room ↦
            let still : asio.stopped (next_io cb asio net n d.world.io) ≡ false =
              rw room (asio.stopped-async_receive_from _ _ ∙ d.on) in
            receiving idle (rw room (asio.pending-async_receive_from _ _ ∙ rw d.none_left)) still
              (record {
                init = IsInitialized-decoded cb asio net d.receipt d.server d.done.init;
                served =
                    rw d.got (
                      Served-snoc cb asio net d.receipt d.before _ d.done.served
                        (still ∙ sym room));
                fresh = d.done.fresh;
                limit = omega (arith, under_limit);
              })
      ])
