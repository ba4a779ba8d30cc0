-- ===== src/Server/Serve.antt =====
-- src/server.cxx: decode_data again and again, until the receipts or the limit run out.
use test_buffer.Prelude.{
  Bool-cases, List, [], append-nil, append_assoc, arith, drop, false, inl, inr, int_max, length,
  le→ltb, ltb, min, suc, sym, take, to_int, true, value, zero, ℕ, ℤ, ◌++◌, ◌+◌, ◌-◌, ◌<◌, ◌∙◌, ◌∷◌,
  ◌≡◌, ◌≤◌,
}
use test_buffer.Boost.CircularBuffer.{CircularBuffer}
use test_buffer.Boost.Asio.{IoService, Sockets}
use test_buffer.BoundedBuffer.Window.{push_all, push_all-nil, push_all-push_front}
use test_buffer.Server.{Handler, decode_data_handler, Receipt, Server, World, run}
use test_buffer.Server.Branches.{
  IsInitialized-decoded, IsInitialized, decoded, pushed, next_io, decode_data_lem,
}

-- The item that a receipt puts into the buffer.
abbrev pub item : Receipt → ℤ
item r = to_int r.first

-- `int` is `m_data_buffer.at(0)` of each receipt, converted.
abbrev pub items : List Receipt → List ℤ
items [] = []
items (r ∷ rs) = item r ∷ items rs

abbrev pub sizes : List Receipt → List ℕ
sizes [] = []
sizes (r ∷ rs) = r.size ∷ sizes rs

module _ (cb : CircularBuffer ℤ) (asio : IoService Handler) (net : Sockets) where
  -- One receive is under way on a service that is not stopped, and nothing else.
  pub record IsReceiving (w : World cb asio net) : Type 0 where
    pub running : asio.stopped w.io ≡ false
    pub only : asio.pending w.io ≡ decode_data_handler ∷ []

  -- How many of `n` receipts are handled when `count` were before: none after the 10001st.
  abbrev pub handled : ℕ → ℕ → ℕ
  handled count n = min n (10001 - count)

  -- What handling the receipts `rs` leaves behind, started at `s` and `w`.
  pub record Served (rs : List Receipt) (s : Server cb asio net) (w : World cb asio net)
      (s' : Server cb asio net) (w' : World cb asio net) : Type 0 where
    pub count : s'.n_count ≡ s.n_count + length rs
    pub bounded : w'.shared.bounded ≡ push_all cb (items rs) w.shared.bounded
    pub stale : w'.stale_writes ≡ w.stale_writes ++ sizes rs
    pub stopped : asio.stopped w'.io ≡ ltb 10000 s'.n_count

  stopped-run :
      (thread fuel : ℕ) (rs : List Receipt) (s : Server cb asio net) (w : World cb asio net)
      → 0 < fuel
      → asio.stopped w.io ≡ true
      → run cb asio net thread fuel rs s w ≡ value (s, w, rs)
  unfolding run
  stopped-run thread zero rs s w f h = absurd (omega arith)
  stopped-run thread (suc fuel) rs s w f h = rw (asio.take-stopped w.io h, run)

  waiting-run :
      (thread fuel : ℕ) (s : Server cb asio net) (w : World cb asio net)
      → IsReceiving w
      → run cb asio net thread (suc fuel) [] s w ≡ value (s, w, [])
  unfolding run
  waiting-run thread fuel s w v =
      let (io, took, _, _) = asio.take-only decode_data_handler w.io v.running v.only in
      rw (took, run)

  Served-nil :
      (s : Server cb asio net) (w : World cb asio net)
      → asio.stopped w.io ≡ ltb 10000 s.n_count
      → Served [] s w s w
  Served-nil s w h = record {
    count = omega arith;
    bounded = sym (push_all-nil cb w.shared.bounded);
    stale = sym (append-nil w.stale_writes);
    stopped = h;
  }

  decode-run :
      (thread fuel : ℕ) (r : Receipt) (rs : List Receipt) (s : Server cb asio net)
      (w : World cb asio net)
      → IsInitialized cb asio net s
      → IsReceiving w
      → s.n_count < int_max
      → (io : asio.State) × (asio.pending io ≡ [])
        × (asio.stopped io ≡ false)
        × (run cb asio net thread (suc fuel) (r ∷ rs) s w
            ≡ run cb asio net thread fuel rs
                (decoded cb asio net r s)
                (pushed cb asio net r w (next_io cb asio net (s.n_count + 1) io)))
  unfolding run
  decode-run thread fuel r rs s w i v small =
      let (io, took, alone, on) = asio.take-only decode_data_handler w.io v.running v.only in
      (
        io,
        alone,
        on,
        rw (took, run, decode_data_lem cb asio net r s (record w { io = io }) i small),
      )

  -- Where the decode_data before leads to: over the limit the run ends, and below it goes on.
  after_decode :
      (r : Receipt) (w : World cb asio net) (n : ℕ) (io : asio.State)
      → ltb 10000 n ≡ false
      → asio.pending io ≡ []
      → asio.stopped io ≡ false
      → IsReceiving (pushed cb asio net r w (next_io cb asio net n io))
  after_decode r w n io under alone on = record {
    running = rw (under, asio.stopped-async_receive_from) on;
    only = rw (under, asio.pending-async_receive_from, alone);
  }

  Served-cons :
      (r : Receipt) (rs : List Receipt) {s s' : Server cb asio net} {w w' : World cb asio net}
      (io : asio.State)
      → Served rs (decoded cb asio net r s) (pushed cb asio net r w io) s' w'
      → Served (r ∷ rs) s w s' w'
  Served-cons r rs {s} {s'} {w} {w'} io v = record {
    count = omega (arith, v.count);
    bounded = v.bounded ∙ push_all-push_front cb (item r) (items rs) w.shared.bounded;
    stale = v.stale ∙ append_assoc w.stale_writes (r.size ∷ []) (sizes rs);
    stopped = v.stopped;
  }

  module _ (thread : ℕ) where
    -- The receive that stops the service.
    last_receive :
        (fuel : ℕ) (r : Receipt) (rs : List Receipt) (k : ℕ) (s : Server cb asio net)
        (w : World cb asio net) (io : asio.State)
        → k ≡ 0
        → 0 < fuel
        → ltb 10000 (s.n_count + 1) ≡ true
        → (s' : Server cb asio net) × (w' : World cb asio net) × (run cb asio net thread fuel rs
              (decoded cb asio net r s)
              (pushed cb asio net r w (next_io cb asio net (s.n_count + 1) io))
            ≡ value (s', w', drop k rs))
          × Served (r ∷ take k rs) s w s' w'
    last_receive fuel r rs (suc k) s w io e f over = absurd (omega arith)
    last_receive fuel r rs zero s w io e f over =
        let s1 = decoded cb asio net r s in
        let end_io = next_io cb asio net (s.n_count + 1) io in
        let w1 = pushed cb asio net r w end_io in
        let off : asio.stopped end_io ≡ true = rw over (asio.stopped-stop io) in
        (
          s1,
          w1,
          stopped-run thread fuel rs s1 w1 f off,
          Served-cons r [] end_io (Served-nil s1 w1 (off ∙ sym over)),
        )

    pub receive_all :
        (k : ℕ) (rs : List Receipt) (fuel : ℕ) (s : Server cb asio net) (w : World cb asio net)
        → k ≡ handled s.n_count (length rs)
        → IsInitialized cb asio net s
        → IsReceiving w
        → s.n_count ≤ 10000
        → length rs < fuel
        → (s' : Server cb asio net) × (w' : World cb asio net) × (run cb asio net thread fuel rs s w
            ≡ value (s', w', drop k rs))
          × Served (take k rs) s w s' w'
    receive_all k rs zero s w e i v c f = absurd (omega arith)
    receive_all (suc k) [] (suc fuel) s w e i v c f = absurd (omega arith)
    receive_all zero [] (suc fuel) s w e i v c f =
        (s, w, waiting-run thread fuel s w v, Served-nil s w (v.running ∙ sym (le→ltb _ _ c)))
    receive_all zero (r ∷ rs) (suc fuel) s w e i v c f = absurd (omega arith)
    receive_all (suc k) (r ∷ rs) (suc fuel) s w e i v c f =
        let (io, alone, on, step) = decode-run thread fuel r rs s w i v (omega arith) in
        elim (Bool-cases (ltb 10000 (s.n_count + 1))) [
          | inl over ↦
              let (s', w', ended, got) =
                last_receive fuel r rs k s w io (ground arith) (omega arith) over in
              (s', w', step ∙ ended, got)
          | inr under ↦
              let w1 = pushed cb asio net r w (next_io cb asio net (s.n_count + 1) io) in
              let i1 = IsInitialized-decoded cb asio net r s i in
              let (s', w', rest, got) =
                receive_all k rs fuel (decoded cb asio net r s) w1 (ground arith) i1
                  (after_decode r w _ io under alone on) (ground arith) (omega arith) in
              (
                s',
                w',
                step ∙ rest,
                Served-cons r (take k rs) (next_io cb asio net (s.n_count + 1) io) got,
              )
        ]
