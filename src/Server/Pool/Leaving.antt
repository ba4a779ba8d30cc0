-- ===== src/Server/Pool/Leaving.antt =====
-- src/server.cxx: how the threads of listen get out of `run()`.
use test_buffer.Prelude.{
  Bool-cases, [], ap, arith, false, inl, inr, length, ltb, refl, same_or_not, suc, sym, true,
  update, update-cases, update-same, zero, ℕ, ℤ, ◌+◌, ◌<◌, ◌∙◌, ◌≡◌, ◌≤◌,
}
use test_buffer.Boost.CircularBuffer.{CircularBuffer}
use test_buffer.Boost.Asio.{IoService, Sockets}
use test_buffer.Server.{Handler, Receipt, Server, World}
use test_buffer.Server.Branches.{IsInitialized}
use test_buffer.Server.Pool.{
  Place, absent, running, returning, left, init, Step, return, leave_run, Steps, start, later,
}
use test_buffer.Server.Pool.Phases.{busy, Phase, posted, starting, receiving, decoding, over}
use test_buffer.Server.Pool.Moving.{io-Decoding}
use test_buffer.Server.Pool.Staying.{is_out, State, Inv, stopped-over, Step-Inv, Steps-Inv}
use test_buffer.Server.Pool.Working.{To, Steps-append}
use test_buffer.Server.Pool.Receiving.{stops}

module _ (cb : CircularBuffer ℤ) (asio : IoService Handler) (net : Sockets) (s : Server cb asio net)
    (w : World cb asio net) where
  -- Of the first `n` threads none is in `run()`.
  abbrev Out : ℕ → State cb asio net s w → Type 0
  Out n q = (asio.stopped q.world.io ≡ true) × ((u : ℕ) → u < n → is_out (q.place u) ≡ true)

  leaves_none :
      (p : State cb asio net s w) (t : ℕ) → Out t p → is_out (p.place t) ≡ true → Out (t + 1) p
  leaves_none p t (off, out) h = (
    off,
    λ u less. elim (same_or_not t u) [
      | inl e ↦ ap (λ z. is_out (p.place z)) e ∙ h
      | inr n ↦ out u (omega (arith, n, less))
    ],
  )

  leaves_running :
      (p : State cb asio net s w) (t : ℕ)
      → Inv cb asio net s w p
      → p.place t ≡ running
      → Out t p
      → To cb asio net s w p (Out (t + 1))
  leaves_running p t v at (off, out) =
      let st : Step cb asio net p _ = leave_run t at off in
      (
        _,
        later start st,
        Step-Inv cb asio net s w st v,
        (
          off,
          update-cases (λ u z. u < t + 1 → is_out z ≡ true) t left p.place (λ h. refl)
              (λ u n h. out u (omega (arith, n, h))),
        ),
      )

  -- A thread on its return from a handler goes back to `run()` first.
  leaves_returning :
      (p : State cb asio net s w) (t : ℕ)
      → Inv cb asio net s w p
      → p.place t ≡ returning
      → Out t p
      → To cb asio net s w p (Out (t + 1))
  leaves_returning p t v at (off, out) =
      let st : Step cb asio net p _ = return t at in
      let back : State cb asio net s w = record p { place = update t running p.place } in
      let (q, steps, v', out') =
        leaves_running back t (Step-Inv cb asio net s w st v) (update-same t running p.place) (
          off,
          update-cases (λ u z. u < t → is_out z ≡ true) t running p.place
              (λ h. absurd (omega (arith, h))) (λ u n h. out u h),
        ) in
      (q, Steps-append cb asio net s w (later start st) steps, v', out')

  leaves :
      (p : State cb asio net s w) (t : ℕ) (c : Place)
      → Inv cb asio net s w p
      → p.place t ≡ c
      → Out t p
      → To cb asio net s w p (Out (t + 1))
  leaves p t running v at o = leaves_running p t v at o
  leaves p t returning v at o = leaves_returning p t v at o
  leaves p t absent v at o = (p, start, v, leaves_none p t o (ap is_out at))
  leaves p t left v at o = (p, start, v, leaves_none p t o (ap is_out at))
  leaves p t _ v at (off, out) = cc (stopped-over cb asio net s w v.phase off t, ap busy at)

  all_leave :
      (n : ℕ) (p : State cb asio net s w)
      → Inv cb asio net s w p
      → asio.stopped p.world.io ≡ true
      → To cb asio net s w p (Out n)
  all_leave zero p v off = (p, start, v, (off, λ u h. absurd (omega (arith, h))))
  all_leave (suc n) p v off =
      let (q, steps, v', out) = all_leave n p v off in
      let (o, on_steps, v'', out') = leaves q n (q.place n) v' refl out in
      (
        o,
        Steps-append cb asio net s w steps on_steps,
        v'',
        (out'.0, λ u h. out'.1 u (omega (arith, h))),
      )

  -- With the service stopped, 10001 receipts were handled.
  stopped-received :
      {p : State cb asio net s w}
      → Phase cb asio net s w p
      → asio.stopped p.world.io ≡ true
      → length p.received ≡ 10001
  stopped-received (posted idle one on d) off = cc (on, off)
  stopped-received (starting u in_it only none_left on d) off = cc (on, off)
  stopped-received (receiving idle one on d) off = cc (on, off)
  stopped-received {p} (decoding u on d) off =
      cc (d.on, ap asio.stopped (io-Decoding cb asio net s w p u d), off)
  stopped-received {p} (over idle off' d) off =
      let full : ltb 10000 p.server.n_count ≡ true = sym d.served.stopped ∙ off in
      let many : 10001 ≤ p.server.n_count = ground (arith, full) in
      omega (arith, many, d.limit, d.served.count, d.fresh)

  -- The threads that listen on an initialized server with a new count and an idle service do not get
  -- stuck: whatever they have done so far, if enough datagrams like `r` arrive, steps lead to a state
  -- where 10001 receipts were handled, the service is stopped and no thread is in `run()`.
  pub is_out-Steps :
      (r : Receipt) {p : State cb asio net s w}
      → IsInitialized cb asio net s
      → s.n_count ≡ 0
      → asio.stopped w.io ≡ false
      → asio.pending w.io ≡ []
      → Steps cb asio net (init cb asio net s w) p
      → (q : State cb asio net s w) × Steps cb asio net p q
        × (length q.received ≡ 10001)
        × (asio.stopped q.world.io ≡ true)
        × ((u : ℕ) → is_out (q.place u) ≡ true)
  is_out-Steps r {p} i c on idle steps =
      let (q, to_stop, v, off) =
        stops cb asio net s w 10001 p r (Steps-Inv cb asio net s w i c on idle steps)
          (omega arith) in
      let (o, to_leave, v', out) = all_leave (s.threads + s.thread_count + 1) q v off in
      (
        o,
        Steps-append cb asio net s w to_stop to_leave,
        stopped-received v'.phase out.0,
        out.0,
        λ u. elim (Bool-cases (ltb (s.threads + s.thread_count) u)) [
          | inl beyond ↦ ap is_out (v'.beyond u (ground (arith, beyond)))
          | inr within ↦ out.1 u (ground (arith, within))
        ],
      )
