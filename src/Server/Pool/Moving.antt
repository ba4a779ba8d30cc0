-- ===== src/Server/Pool/Moving.antt =====
-- src/server.cxx: each step of the threads of listen leads from a phase to a phase.
use test_buffer.Prelude.{
  ap, false, inl, inr, ltb, refl, same_or_not, sym, update, update-cases, update-other, ℕ, ℤ, ◌+◌,
  ◌∙◌, ◌≡◌, ◌≢◌,
}
use mathlib.Core.Path.{subst}
use test_buffer.Boost.CircularBuffer.{CircularBuffer}
use test_buffer.Boost.Asio.{IoService, Sockets}
use test_buffer.Server.{Handler, Receipt, Server, World}
use test_buffer.Server.Pool.{
  Place, running, in_handle_data, in_decode_data, written, word_pushed, count_read, counted, tested,
  left, Pool, Step, take_handle_data, run_handle_data, take_decode_data, write_size, run_push_word,
  read_count, write_count, test_count, run_give_next, return, leave_run, count_place,
}
use test_buffer.Server.Pool.Taking.{take_one, take_no}
use test_buffer.Server.Pool.Phases.{
  busy, Idle-update, Stage, Decoding, decoder_of, done_at, goes, Phase, posted, starting, receiving,
  decoding, over,
}
use test_buffer.Server.Pool.Handling.{
  started, took_receipt, handled_first, push_word-value, read_count-value, handled_receipt,
}

module _ (cb : CircularBuffer ℤ) (asio : IoService Handler) (net : Sockets) (s : Server cb asio net)
    (w : World cb asio net) where
  -- A thread outside of the work of a handler goes on to another such place.
  Phase-aside :
      (p : Pool cb asio net) (t : ℕ) (c : Place)
      → busy (p.place t) ≡ false
      → busy c ≡ false
      → Phase cb asio net s w p
      → Phase cb asio net s w (record p { place = update t c p.place })
  Phase-aside p t c out free (posted idle one on d) =
      posted (Idle-update t c p.place free (λ u n. idle u)) one on d
  Phase-aside p t c out free (starting u in_it only none_left on d) =
      starting u
        (update-other t u c p.place (λ e. cc (out, ap (λ z. busy (p.place z)) e, ap busy in_it))
          ∙ in_it)
        (update-cases (λ v z. v ≢ u → busy z ≡ false) t c p.place (λ n. free) (λ v m n. only v n))
        none_left on d
  Phase-aside p t c out free (receiving idle one on d) =
      receiving (Idle-update t c p.place free (λ u n. idle u)) one on d
  Phase-aside p t c out free (decoding u on d) =
      let there : update t c p.place u ≡ p.place u =
        update-other t u c p.place (λ e. cc (out, ap (λ z. busy (p.place z)) e, on)) in
      decoding u (ap busy there ∙ on) (record {
        receipt = d.receipt;
        before = d.before;
        server = d.server;
        world = d.world;
        only =
            update-cases (λ v z. v ≢ u → busy z ≡ false) t c p.place (λ n. free)
              (λ v m n. d.only v n);
        none_left = d.none_left;
        on = d.on;
        got = d.got;
        done = d.done;
        stage =
            subst (λ z. Stage cb asio net s w d.receipt d.server d.world z p.server p.world)
              (sym there) d.stage;
      })
  Phase-aside p t c out free (over idle off d) =
      over (Idle-update t c p.place free (λ u n. idle u)) off d

  -- decode_data leaves the service as it is until the next handler.
  io-Stage :
      (r : Receipt) (s0 : Server cb asio net) (w0 : World cb asio net) (c : Place)
      (s' : Server cb asio net) (w' : World cb asio net)
      → Stage cb asio net s w r s0 w0 c s' w'
      → w'.io ≡ w0.io
  io-Stage r s0 w0 (in_decode_data r') s' w' (er, es, ew) = ap (λ z. z.io) ew
  io-Stage r s0 w0 written s' w' (es, ew) = ap (λ z. z.io) ew
  io-Stage r s0 w0 word_pushed s' w' (es, ew) = ap (λ z. z.io) ew
  io-Stage r s0 w0 (count_read n) s' w' (en, es, ew) = ap (λ z. z.io) ew
  io-Stage r s0 w0 counted s' w' (es, ew) = ap (λ z. z.io) ew
  io-Stage r s0 w0 (tested b) s' w' (eb, es, ew) = ap (λ z. z.io) ew
  io-Stage r s0 w0 _ s' w' h = absurd h

  pub io-Decoding :
      (p : Pool cb asio net) (t : ℕ) (d : Decoding cb asio net s w t p) → p.world.io ≡ d.world.io
  io-Decoding p t d = io-Stage d.receipt d.server d.world (p.place t) p.server p.world d.stage

  pub Step-Phase :
      {p q : Pool cb asio net}
      → Step cb asio net p q
      → Phase cb asio net s w p
      → Phase cb asio net s w q
  Step-Phase {p} (take_handle_data t io at took) (posted idle one on d) =
      started cb asio net s w p t io took idle one on d
  Step-Phase (take_handle_data t io at took) (starting u in_it only none_left on d) =
      absurd (take_no asio _ _ io none_left took)
  Step-Phase (take_handle_data t io at took) (receiving idle one on d) =
      cc (take_one asio _ _ _ io one took).0
  Step-Phase {p} (take_handle_data t io at took) (decoding u on d) =
      absurd (take_no asio _ _ io (ap asio.pending (io-Decoding p u d) ∙ d.none_left) took)
  Step-Phase (take_handle_data t io at took) (over idle off d) = cc (asio.take-stopped _ off, took)
  Step-Phase (run_handle_data t at) (posted idle one on d) = cc (idle t, ap busy at)
  Step-Phase {p} (run_handle_data t at) (starting u in_it only none_left on d) =
      elim (same_or_not u t) [
        | inl e ↦ handled_first cb asio net s w p t (rw (← e) at only) none_left on d
        | inr n ↦ cc (only t n, ap busy at)
      ]
  Step-Phase (run_handle_data t at) (receiving idle one on d) = cc (idle t, ap busy at)
  Step-Phase {p} (run_handle_data t at) (decoding u on d) = elim (same_or_not u t) [
    | inl e ↦
        let d' : Decoding cb asio net s w t p =
          subst (λ z. Decoding cb asio net s w z p) (sym e) d in
        absurd (done_at cb asio net s w t in_handle_data at d')
    | inr n ↦ cc (d.only t n, ap busy at)
  ]
  Step-Phase (run_handle_data t at) (over idle off d) = cc (idle t, ap busy at)
  Step-Phase (take_decode_data t io r at took) (posted idle one on d) =
      cc (take_one asio _ _ _ io one took).0
  Step-Phase (take_decode_data t io r at took) (starting u in_it only none_left on d) =
      absurd (take_no asio _ _ io none_left took)
  Step-Phase {p} (take_decode_data t io r at took) (receiving idle one on d) =
      took_receipt cb asio net s w p t io r took idle one on d
  Step-Phase {p} (take_decode_data t io r at took) (decoding u on d) =
      absurd (take_no asio _ _ io (ap asio.pending (io-Decoding p u d) ∙ d.none_left) took)
  Step-Phase (take_decode_data t io r at took) (over idle off d) =
      cc (asio.take-stopped _ off, took)
  Step-Phase {p} (write_size t r at) v =
      let d = decoder_of cb asio net s w t (in_decode_data r) at refl (λ h. cc) v in
      let (er, es, ew) = done_at cb asio net s w t (in_decode_data r) at d in
      goes cb asio net s w p t written _ _ refl d (es, rw (er, ew) refl)
  Step-Phase {p} (run_push_word t at) v =
      let d = decoder_of cb asio net s w t written at refl (λ h. cc) v in
      rw (push_word-value cb asio net s w p t at d)
        (goes cb asio net s w p t word_pushed _ _ refl d (refl, refl))
  Step-Phase {p} (read_count t at) v =
      let d = decoder_of cb asio net s w t word_pushed at refl (λ h. cc) v in
      let (es, ew) = done_at cb asio net s w t word_pushed at d in
      subst
        (λ o.
          Phase cb asio net s w (record p { place = update t (count_place cb asio net o) p.place }))
        (sym (read_count-value cb asio net s w p t at d))
        (goes cb asio net s w p t (count_read (d.server.n_count + 1)) p.server p.world refl d
          (refl, es, ew))
  Step-Phase {p} (write_count t n at) v =
      let d = decoder_of cb asio net s w t (count_read n) at refl (λ h. cc) v in
      let (en, es, ew) = done_at cb asio net s w t (count_read n) at d in
      goes cb asio net s w p t counted _ p.world refl d (rw (en, es) refl, ew)
  Step-Phase {p} (test_count t at) v =
      let d = decoder_of cb asio net s w t counted at refl (λ h. cc) v in
      let (es, ew) = done_at cb asio net s w t counted at d in
      goes cb asio net s w p t (tested (ltb 10000 p.server.n_count)) p.server p.world refl d
        (ap (λ z. ltb 10000 z.n_count) es, es, ew)
  Step-Phase {p} (run_give_next t b at) v =
      handled_receipt cb asio net s w p t b at
        (decoder_of cb asio net s w t (tested b) at refl (λ h. cc) v)
  Step-Phase {p} (return t at) v = Phase-aside p t running (ap busy at) refl v
  Step-Phase {p} (leave_run t at off) v = Phase-aside p t left (ap busy at) refl v
