-- ===== src/Server/Pool/Staying.antt =====
-- src/server.cxx: which threads of listen are in `run()`.
use test_buffer.Prelude.{
  Bool, Outcome, [], ap, arith, exits, false, increment, inl, inr, ltb, refl, same_or_not, some,
  sym, throws, true, undefined, update, update-other, update-same, value, waits, ℕ, ℤ, ◌+◌, ◌<◌,
  ◌∙◌, ◌≡◌, ◌≢◌,
}
use test_buffer.Boost.CircularBuffer.{CircularBuffer}
use test_buffer.Boost.Asio.{IoService, Sockets}
use test_buffer.Server.{Handler, Server, World, handle_data}
use test_buffer.Server.Branches.{IsInitialized}
use test_buffer.Server.Pool.{
  Place, absent, running, in_handle_data, in_decode_data, written, word_pushed, count_read, counted,
  tested, returning, left, failed, Pool, push_word, give_next, finish, count_place, first_place,
  init, Step, take_handle_data, run_handle_data, take_decode_data, write_size, run_push_word,
  read_count, write_count, test_count, run_give_next, return, leave_run, Steps, start, later,
}
use test_buffer.Server.Pool.Phases.{busy, Idle, Phase, posted, starting, receiving, decoding, over}
use test_buffer.Server.Pool.Moving.{io-Decoding, Step-Phase}
use test_buffer.Server.Pool.Serial.{Steps-Phase}

-- The thread was not made, or has left `run()`.
abbrev pub is_out : Place → Bool
is_out absent = true
is_out left = true
is_out _ = false

module _ (cb : CircularBuffer ℤ) (asio : IoService Handler) (net : Sockets) (s : Server cb asio net)
    (w : World cb asio net) where
  abbrev pub State : Type 0
  State = Pool cb asio net

  -- The caller of listen leaves only when the service is stopped; no thread beyond the last is made.
  pub record Inv (p : State) : Type 0 where
    pub phase : Phase cb asio net s w p
    pub caller : is_out (p.place 0) ≡ true → asio.stopped p.world.io ≡ true
    pub beyond : (u : ℕ) → s.threads + s.thread_count < u → p.place u ≡ absent

  pub stopped-over :
      {p : State} → Phase cb asio net s w p → asio.stopped p.world.io ≡ true → Idle p.place
  stopped-over (posted idle one on d) off = cc (on, off)
  stopped-over (starting u in_it only none_left on d) off = cc (on, off)
  stopped-over (receiving idle one on d) off = cc (on, off)
  stopped-over {p} (decoding u on d) off =
      cc (d.on, ap asio.stopped (io-Decoding cb asio net s w p u d), off)
  stopped-over (over idle off' d) off = idle

  -- A thread that is at `p0`, which is neither out nor absent, goes on to another place.
  beyond-update :
      (t : ℕ) (q : Place) (f : ℕ → Place) (n : ℕ)
      → f t ≢ absent
      → ((u : ℕ) → n < u → f u ≡ absent)
      → (u : ℕ) → n < u
      → update t q f u ≡ absent
  beyond-update t q f n there v u h = elim (same_or_not t u) [
    | inl e ↦ absurd (there (sym (ap f e) ∙ v u h))
    | inr m ↦ update-other t u q f m ∙ v u h
  ]

  caller-update :
      (t : ℕ) (q : Place) (f : ℕ → Place)
      → is_out q ≡ false
      → is_out (update t q f 0) ≡ true
      → is_out (f 0) ≡ true
  caller-update t q f stays h = elim (same_or_not t 0) [
    | inl e ↦ cc (h, stays, ap (update t q f) e, update-same t q f)
    | inr n ↦ sym (ap is_out (update-other t 0 q f n)) ∙ h
  ]

  -- A step of a thread that is in `run()` and stays there, or fails there.
  Inv-stay :
      (t : ℕ) (c c' : Place) (p q : State)
      → p.place t ≡ c
      → c ≢ absent
      → is_out c' ≡ false
      → q.place ≡ update t c' p.place
      → (asio.stopped p.world.io ≡ true → asio.stopped q.world.io ≡ true)
      → Step cb asio net p q
      → Inv p
      → Inv q
  Inv-stay t c c' p q at made stays e still st v = record {
    phase = Step-Phase cb asio net s w st v.phase;
    caller = λ h.
        still (v.caller (caller-update t c' p.place stays (sym (ap (λ f. is_out (f 0)) e) ∙ h)));
    beyond = rw e (beyond-update t c' p.place _ (λ h. made (sym at ∙ h)) v.beyond);
  }

  -- A thread at work, while the service runs.
  works :
      (t : ℕ) (c : Place) (p q : State)
      → p.place t ≡ c
      → busy c ≡ true
      → Inv p
      → asio.stopped p.world.io ≡ true
      → asio.stopped q.world.io ≡ true
  works t c p q at on v off = cc (stopped-over v.phase off t, ap busy at, on)

  -- Where a thread is after what it did.
  abbrev after_call : Place → Outcome (Server cb asio net × World cb asio net) → Place
  after_call c (value z) = c
  after_call c _ = failed

  finish-place :
      (t : ℕ) (c : Place) (p : State) (o : Outcome (Server cb asio net × World cb asio net))
      → is_out c ≡ false
      → (is_out (after_call c o) ≡ false)
        × ((finish cb asio net t c p o).place ≡ update t (after_call c o) p.place)
  finish-place t c p (value (s', w')) h = (h, refl)
  finish-place t c p waits h = (refl, refl)
  finish-place t c p throws h = (refl, refl)
  finish-place t c p (exits n) h = (refl, refl)
  finish-place t c p undefined h = (refl, refl)

  Inv-finish :
      (t : ℕ) (c c' : Place) (p : State) (o : Outcome (Server cb asio net × World cb asio net))
      → p.place t ≡ c
      → busy c ≡ true
      → c ≢ absent
      → is_out c' ≡ false
      → Step cb asio net p (finish cb asio net t c' p o)
      → Inv p
      → Inv (finish cb asio net t c' p o)
  Inv-finish t c c' p o at on made stays st v =
      let (still, e) = finish-place t c' p o stays in
      Inv-stay t c (after_call c' o) p (finish cb asio net t c' p o) at made still e
        (works t c p (finish cb asio net t c' p o) at on v) st v

  count_place-stays : (o : Outcome ℕ) → is_out (count_place cb asio net o) ≡ false
  count_place-stays (value n) = refl
  count_place-stays waits = refl
  count_place-stays throws = refl
  count_place-stays (exits n) = refl
  count_place-stays undefined = refl

  -- A thread cannot take a handler from a service that is stopped.
  takes :
      (h : Handler) (p q : State) (io : asio.State)
      → asio.take p.world.io ≡ some (h, io)
      → asio.stopped p.world.io ≡ true
      → asio.stopped q.world.io ≡ true
  takes h p q io took off = cc (asio.take-stopped _ off, took)

  pub Step-Inv : {p q : State} → Step cb asio net p q → Inv p → Inv q
  Step-Inv {p} {q} (take_handle_data t io at took) v =
      Inv-stay t running in_handle_data p q at (λ e. cc) refl refl (takes _ p q io took)
        (take_handle_data t io at took) v
  Step-Inv {p} (run_handle_data t at) v =
      Inv-finish t in_handle_data returning p (handle_data cb asio net p.server p.world) at refl
        (λ e. cc) refl (run_handle_data t at) v
  Step-Inv {p} {q} (take_decode_data t io r at took) v =
      Inv-stay t running (in_decode_data r) p q at (λ e. cc) refl refl (takes _ p q io took)
        (take_decode_data t io r at took) v
  Step-Inv {p} {q} (write_size t r at) v =
      Inv-stay t (in_decode_data r) written p q at (λ e. cc) refl refl (λ off. off)
        (write_size t r at) v
  Step-Inv {p} (run_push_word t at) v =
      Inv-finish t written word_pushed p (push_word cb asio net p.server p.world) at refl (λ e. cc)
        refl (run_push_word t at) v
  Step-Inv {p} {q} (read_count t at) v =
      Inv-stay t word_pushed (count_place cb asio net (increment p.server.n_count)) p q at (λ e. cc)
        (count_place-stays (increment p.server.n_count)) refl (λ off. off) (read_count t at) v
  Step-Inv {p} {q} (write_count t n at) v =
      Inv-stay t (count_read n) counted p q at (λ e. cc) refl refl (λ off. off) (write_count t n at)
        v
  Step-Inv {p} {q} (test_count t at) v =
      Inv-stay t counted (tested (ltb 10000 p.server.n_count)) p q at (λ e. cc) refl refl
        (λ off. off) (test_count t at) v
  Step-Inv {p} (run_give_next t b at) v =
      Inv-finish t (tested b) returning p (give_next cb asio net b p.server p.world) at refl
        (λ e. cc) refl (run_give_next t b at) v
  Step-Inv {p} {q} (return t at) v =
      Inv-stay t returning running p q at (λ e. cc) refl refl (λ off. off) (return t at) v
  Step-Inv {p} (leave_run t at off) v = record {
    phase = Step-Phase cb asio net s w (leave_run t at off) v.phase;
    caller = λ h. off;
    beyond = beyond-update t left p.place _ (λ e. cc (at, e)) v.beyond;
  }

  first_running : (n : ℕ) → first_place cb asio net n 0 ≡ running
  first_running n = ground arith

  pub Steps-Inv :
      {p : State}
      → IsInitialized cb asio net s
      → s.n_count ≡ 0
      → asio.stopped w.io ≡ false
      → asio.pending w.io ≡ []
      → Steps cb asio net (init cb asio net s w) p
      → Inv p
  Steps-Inv i c on idle start = record {
    phase = Steps-Phase cb asio net s w i c on idle start;
    caller = λ h. cc (h, first_running (s.threads + s.thread_count));
    beyond = λ u h. ground (arith, h);
  }
  Steps-Inv i c on idle (later r st) = Step-Inv st (Steps-Inv i c on idle r)
