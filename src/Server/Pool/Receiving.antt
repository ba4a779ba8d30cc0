-- ===== src/Server/Pool/Receiving.antt =====
-- src/server.cxx: how the threads of listen handle one receipt more, up to the last.
use test_buffer.Prelude.{
  [], ap, arith, false, inl, inr, length, length-append, refl, suc, true, update-same, zero, ℕ, ℤ,
  ◌+◌, ◌∙◌, ◌∷◌, ◌≡◌, ◌≤◌,
}
use test_buffer.Boost.CircularBuffer.{CircularBuffer}
use test_buffer.Boost.Asio.{IoService, Sockets}
use test_buffer.Server.{Handler, handle_data_handler, decode_data_handler, Receipt, Server, World}
use test_buffer.Server.Pool.{
  Place, absent, running, in_handle_data, in_decode_data, returning, left, failed, Step,
  take_handle_data, take_decode_data, return, start, later,
}
use test_buffer.Server.Pool.Phases.{
  busy, Idle, Idle-update, under, done_at, Phase, posted, starting, receiving, decoding, over,
}
use test_buffer.Server.Pool.Serial.{Phase-Done}
use test_buffer.Server.Pool.Staying.{is_out, State, Inv, Step-Inv}
use test_buffer.Server.Pool.Working.{
  To, Steps-append, Settled, Settles, from_handle_data, from_decode_data, from_place,
}

module _ (cb : CircularBuffer ℤ) (asio : IoService Handler) (net : Sockets) (s : Server cb asio net)
    (w : World cb asio net) where
  abbrev Here : Type 0
  Here = State cb asio net s w

  -- While the service runs and no handler is at work, the caller comes to take a handler.
  caller_free :
      (p : Here) (c : Place)
      → Inv cb asio net s w p
      → p.place 0 ≡ c
      → Idle p.place
      → asio.stopped p.world.io ≡ false
      → To cb asio net s w p (λ q.
        (q.place 0 ≡ running) × Idle q.place × (q.world ≡ p.world) × (q.received ≡ p.received))
  caller_free p running v e idle on = (p, start, v, (e, idle, refl, refl))
  caller_free p returning v e idle on =
      let st : Step cb asio net p _ = return 0 e in
      (
        _,
        later start st,
        Step-Inv cb asio net s w st v,
        (
          update-same 0 running p.place,
          Idle-update 0 running p.place refl (λ u n. idle u),
          refl,
          refl,
        ),
      )
  caller_free p absent v e idle on = cc (on, v.caller (ap is_out e))
  caller_free p left v e idle on = cc (on, v.caller (ap is_out e))
  caller_free p _ v e idle on = cc (idle 0, ap busy e)

  -- A receive is pending, and its end is handled by the caller.
  receive_one :
      (p : Here) (r : Receipt)
      → Inv cb asio net s w p
      → Idle p.place
      → asio.pending p.world.io ≡ decode_data_handler ∷ []
      → asio.stopped p.world.io ≡ false
      → To cb asio net s w p (λ q. length q.received ≡ length p.received + 1)
  receive_one p r v idle one on =
      let (p', steps, v', (here, idle', ew, er)) = caller_free p (p.place 0) v refl idle on in
      let (io, took, _, _) =
        asio.take-only decode_data_handler p'.world.io (ap (λ z. asio.stopped z.io) ew ∙ on)
          (ap (λ z. asio.pending z.io) ew ∙ one) in
      let st : Step cb asio net p' _ = take_decode_data 0 io r here took in
      let (q, on_steps, v2, (same, _)) =
        from_decode_data cb asio net s w _ 0 r (update-same 0 (in_decode_data r) p'.place)
          (Step-Inv cb asio net s w st v') in
      (
        q,
        Steps-append cb asio net s w (later steps st) on_steps,
        v2,
        omega (arith, ap length same, length-append p'.received (r ∷ []), ap length er),
      )

  -- The caller takes up the first handler.
  begin_one :
      (p : Here)
      → Inv cb asio net s w p
      → Idle p.place
      → asio.pending p.world.io ≡ handle_data_handler ∷ []
      → asio.stopped p.world.io ≡ false
      → Settles cb asio net s w p
  begin_one p v idle one on =
      let (p', steps, v', (here, idle', ew, er)) = caller_free p (p.place 0) v refl idle on in
      let (io, took, _, _) =
        asio.take-only handle_data_handler p'.world.io (ap (λ z. asio.stopped z.io) ew ∙ on)
          (ap (λ z. asio.pending z.io) ew ∙ one) in
      let st : Step cb asio net p' _ = take_handle_data 0 io here took in
      let (q, on_steps, v2, (same, settled)) =
        from_handle_data cb asio net s w _ 0 (update-same 0 in_handle_data p'.place)
          (Step-Inv cb asio net s w st v') in
      (q, Steps-append cb asio net s w (later steps st) on_steps, v2, (same ∙ er, settled))

  settles : (p : Here) → Inv cb asio net s w p → Phase cb asio net s w p → Settles cb asio net s w p
  settles p v (posted idle one on d) = begin_one p v idle one on
  settles p v (starting t e only none_left on d) = from_handle_data cb asio net s w p t e v
  settles p v (receiving idle one on d) = (p, start, v, (refl, inr (idle, one, on)))
  settles p v (decoding t on d) =
      from_place cb asio net s w p t (p.place t) refl on
        (λ e. absurd (done_at cb asio net s w t failed e d)) v
  settles p v (over idle off d) = (p, start, v, (refl, inl off))

  few :
      (p : Here)
      → Inv cb asio net s w p
      → Idle p.place
      → asio.stopped p.world.io ≡ false
      → length p.received ≤ 10000
  few p v idle on =
      let d = Phase-Done cb asio net s w v.phase idle in
      omega (arith, under cb asio net s w on d, d.served.count, d.fresh)

  -- With `k` receipts more the service is stopped.
  stops_from :
      (k : ℕ) (p : Here) (r : Receipt)
      → Inv cb asio net s w p
      → Settled cb asio net s w p
      → 10001 ≤ length p.received + k
      → To cb asio net s w p (λ q. asio.stopped q.world.io ≡ true)
  stops_from zero p r v settled h = elim settled [
    | inl off ↦ (p, start, v, off)
    | inr (idle, one, on) ↦ absurd (omega (arith, h, few p v idle on))
  ]
  stops_from (suc k) p r v settled h = elim settled [
    | inl off ↦ (p, start, v, off)
    | inr (idle, one, on) ↦
        let (q, steps, v1, more) = receive_one p r v idle one on in
        let (o, on_steps, v2, (same, settled')) = settles q v1 v1.phase in
        let (z, last_steps, v3, off) =
          stops_from k o r v2 settled' (omega (arith, more, ap length same, h)) in
        (
          z,
          Steps-append cb asio net s w (Steps-append cb asio net s w steps on_steps) last_steps,
          v3,
          off,
        )
  ]

  pub stops :
      (k : ℕ) (p : Here) (r : Receipt)
      → Inv cb asio net s w p
      → 10001 ≤ length p.received + k
      → To cb asio net s w p (λ q. asio.stopped q.world.io ≡ true)
  stops k p r v h =
      let (q, steps, v1, (same, settled)) = settles p v v.phase in
      let (o, on_steps, v2, off) = stops_from k q r v1 settled (omega (arith, ap length same, h)) in
      (o, Steps-append cb asio net s w steps on_steps, v2, off)
