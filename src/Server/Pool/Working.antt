-- ===== src/Server/Pool/Working.antt =====
-- src/server.cxx: how a thread of listen that is in a handler comes to the end of its work.
use test_buffer.Prelude.{
  Bool, Bool-cases, [], ap, false, inl, inr, ltb, refl, same_or_not, sym, true, update, update-same,
  ℕ, ℤ, ◌+◌, ◌∙◌, ◌∷◌, ◌≡◌, ◌≢◌, ◌⊎◌,
}
use mathlib.Core.Path.{subst}
use test_buffer.Boost.CircularBuffer.{CircularBuffer}
use test_buffer.Boost.Asio.{IoService, Sockets}
use test_buffer.Server.{Handler, decode_data_handler, Receipt, Server, World}
use test_buffer.Server.Branches.{IsInitialized, handle_data_lem}
use test_buffer.Server.Pool.{
  Place, in_handle_data, in_decode_data, written, word_pushed, count_read, counted, tested,
  returning, failed, finish, count_place, Step, run_handle_data, write_size, run_push_word,
  read_count, write_count, test_count, run_give_next, Steps, start, later,
}
use test_buffer.Server.Pool.Phases.{
  Only, busy, Idle, Idle-update, decoder_of, done_at, Phase, posted, starting, receiving, decoding,
  over,
}
use test_buffer.Server.Pool.Handling.{push_word-value, read_count-value, give_next-value}
use test_buffer.Server.Pool.Staying.{State, Inv, Step-Inv}

module _ (cb : CircularBuffer ℤ) (asio : IoService Handler) (net : Sockets) (s : Server cb asio net)
    (w : World cb asio net) where
  abbrev Here : Type 0
  Here = State cb asio net s w

  abbrev pub To : Here → (Here → Type 0) → Type 0
  To p P = (q : Here) × Steps cb asio net p q × Inv cb asio net s w q × P q

  pub Steps-append :
      {p q o : Here} → Steps cb asio net p q → Steps cb asio net q o → Steps cb asio net p o
  Steps-append r start = r
  Steps-append r (later q st) = later (Steps-append r q) st

  -- One more step at the front.
  after : {p q : Here} {P : Here → Type 0} → Step cb asio net p q → To q P → To p P
  after st (o, r, v, e) = (o, Steps-append (later start st) r, v, e)

  -- The service is stopped, or it waits for a receive and no handler is at work.
  abbrev pub Settled : Here → Type 0
  Settled q =
      (asio.stopped q.world.io ≡ true)
      ⊎ (Idle q.place
          × (asio.pending q.world.io ≡ decode_data_handler ∷ [])
          × (asio.stopped q.world.io ≡ false))

  abbrev pub Settles : Here → Type 0
  Settles p = To p (λ q. (q.received ≡ p.received) × Settled q)

  from_tested :
      (p : Here) (t : ℕ) (b : Bool) → p.place t ≡ tested b → Inv cb asio net s w p → Settles p
  from_tested p t b e v =
      let d = decoder_of cb asio net s w t (tested b) e refl (λ h. cc) v.phase in
      let st =
        subst (λ o. Step cb asio net p (finish cb asio net t returning p o))
          (give_next-value cb asio net s w p t b e d) (run_give_next t b e) in
      (
        _,
        later start st,
        Step-Inv cb asio net s w st v,
        (
          refl,
          elim (Bool-cases (ltb 10000 (d.server.n_count + 1))) [
            | inl full ↦ inl (rw full (asio.stopped-stop d.world.io))
            | inr room ↦ inr (
              Idle-update t returning p.place refl d.only,
              rw room (asio.pending-async_receive_from _ _ ∙ rw d.none_left),
              rw room (asio.stopped-async_receive_from _ _ ∙ d.on),
            )
          ],
        ),
      )

  from_counted : (p : Here) (t : ℕ) → p.place t ≡ counted → Inv cb asio net s w p → Settles p
  from_counted p t e v =
      let b = ltb 10000 p.server.n_count in
      let st : Step cb asio net p _ = test_count t e in
      after st
        (from_tested _ t b (update-same t (tested b) p.place) (Step-Inv cb asio net s w st v))

  from_count_read :
      (p : Here) (t n : ℕ) → p.place t ≡ count_read n → Inv cb asio net s w p → Settles p
  from_count_read p t n e v =
      let st : Step cb asio net p _ = write_count t n e in
      after st (from_counted _ t (update-same t counted p.place) (Step-Inv cb asio net s w st v))

  from_word_pushed :
      (p : Here) (t : ℕ) → p.place t ≡ word_pushed → Inv cb asio net s w p → Settles p
  from_word_pushed p t e v =
      let d = decoder_of cb asio net s w t word_pushed e refl (λ h. cc) v.phase in
      let st =
        subst
          (λ o.
            Step cb asio net p (record p { place = update t (count_place cb asio net o) p.place }))
          (read_count-value cb asio net s w p t e d) (read_count t e) in
      after st (
        from_count_read _ t (d.server.n_count + 1)
          (update-same t (count_read (d.server.n_count + 1)) p.place)
          (Step-Inv cb asio net s w st v))

  from_written : (p : Here) (t : ℕ) → p.place t ≡ written → Inv cb asio net s w p → Settles p
  from_written p t e v =
      let d = decoder_of cb asio net s w t written e refl (λ h. cc) v.phase in
      let st =
        subst (λ o. Step cb asio net p (finish cb asio net t word_pushed p o))
          (push_word-value cb asio net s w p t e d) (run_push_word t e) in
      after st
        (from_word_pushed _ t (update-same t word_pushed p.place) (Step-Inv cb asio net s w st v))

  pub from_decode_data :
      (p : Here) (t : ℕ) (r : Receipt)
      → p.place t ≡ in_decode_data r
      → Inv cb asio net s w p
      → Settles p
  from_decode_data p t r e v =
      let st : Step cb asio net p _ = write_size t r e in
      after st (from_written _ t (update-same t written p.place) (Step-Inv cb asio net s w st v))

  in_starting :
      {p : Here} (t : ℕ)
      → p.place t ≡ in_handle_data
      → Phase cb asio net s w p
      → Only t p.place
        × (asio.pending p.world.io ≡ [])
        × (asio.stopped p.world.io ≡ false)
        × IsInitialized cb asio net p.server
  in_starting t e (posted idle one on d) = cc (idle t, ap busy e)
  in_starting {p} t e (starting u in_it only none_left on d) = elim (same_or_not u t) [
    | inl h ↦ (rw (← h) at only, none_left, on, d.init)
    | inr n ↦ cc (only t n, ap busy e)
  ]
  in_starting t e (receiving idle one on d) = cc (idle t, ap busy e)
  in_starting {p} t e (decoding u on d) = elim (same_or_not u t) [
    | inl h ↦ absurd (done_at cb asio net s w u in_handle_data (ap p.place (sym h) ∙ e) d)
    | inr n ↦ cc (d.only t n, ap busy e)
  ]
  in_starting t e (over idle off d) = cc (idle t, ap busy e)

  pub from_handle_data :
      (p : Here) (t : ℕ) → p.place t ≡ in_handle_data → Inv cb asio net s w p → Settles p
  from_handle_data p t e v =
      let (only, none_left, on, i) = in_starting t e v.phase in
      let st =
        subst (λ o. Step cb asio net p (finish cb asio net t returning p o))
          (handle_data_lem cb asio net p.server p.world i) (run_handle_data t e) in
      (
        _,
        later start st,
        Step-Inv cb asio net s w st v,
        (
          refl,
          inr (
            Idle-update t returning p.place refl only,
            asio.pending-async_receive_from _ _ ∙ rw none_left,
            asio.stopped-async_receive_from _ _ ∙ on,
          ),
        ),
      )

  -- A thread at work comes to the end of it.
  pub from_place :
      (p : Here) (t : ℕ) (c : Place)
      → p.place t ≡ c
      → busy c ≡ true
      → c ≢ failed
      → Inv cb asio net s w p
      → Settles p
  from_place p t in_handle_data e on fine v = from_handle_data p t e v
  from_place p t (in_decode_data r) e on fine v = from_decode_data p t r e v
  from_place p t written e on fine v = from_written p t e v
  from_place p t word_pushed e on fine v = from_word_pushed p t e v
  from_place p t (count_read n) e on fine v = from_count_read p t n e v
  from_place p t counted e on fine v = from_counted p t e v
  from_place p t (tested b) e on fine v = from_tested p t b e v
  from_place p t failed e on fine v = absurd (fine refl)
  from_place p t _ e on fine v = cc
