-- ===== src/BufSync/Program/Datagrams.antt =====
-- src/buf-sync.cxx: what `packet_count` counts, in all interleavings of the program.
use test_buffer.Prelude.{
  Bool, Bool-cases, ap, arith, false, inl, inr, refl, same_or_not, some, sym, true, ℕ, ◌&&◌, ◌+◌,
  ◌∙◌, ◌≡◌, ◌≤◌,
}
use test_buffer.Boost.Threads.{Mutex, Condition}
use test_buffer.Boost.Asio.{IoService}
use test_buffer.BufSync.Program.{
  Handler, client_reader, handle_data, receive_data, client_writer, Point, idle, at_loop,
  to_receive, returned, Main, to_post_receive, sending, System, first_worker, go, Step, take_writer,
  take_receive, take_handle, take_reader, leave_run, loop, end_loop, push, read_for_inc, write_inc,
  notify, count, receive, take_lock, see_empty, start_wait, spurious, end_wait, see_front, pop,
  read_for_dec, write_dec, give, print, post_reader, post_receive, post_writer, stop, join_all,
  Steps, Reach, start, later,
}
use test_buffer.BufSync.Program.Stuck.{only_two-Reach}
use test_buffer.BufSync.Program.Counted.{
  inside, is_receiver, uncounted, in_receiver, receiver_unposted, after_enqueue-uncounted,
  after_enqueue-in, outside, Inv, Inv-move, Inv-other, Inv-count, Inv-pending, Inv-receive,
}
use test_buffer.BufSync.Program.Tokens.{one_if, Token-take, Token-give, Token-other, Token-post}

module _ (mx : Mutex) (cv : Condition) (asio : IoService Handler) where
  abbrev State : Type 0
  State = System mx cv asio

  abbrev and_datagram : {s t : State} → Step mx cv asio s t → ℕ → ℕ
  and_datagram (take_receive w io word at took) k = k + 1
  and_datagram _ k = k

  -- How many datagrams came in.
  abbrev pub n_datagrams : {s t : State} → Steps mx cv asio s t → ℕ
  n_datagrams start = 0
  n_datagrams (later r st) = and_datagram st (n_datagrams r)

  abbrev Valid : State → ℕ → Type 0
  Valid s k = Inv (receiver_unposted s.main) s.worker (asio.pending s.io) s.packet_count k

  -- A worker takes up a handler that is no datagram.
  take_other :
      (w : ℕ) (h : Handler) (p : Point) (s : State) (io : asio.State) {k : ℕ}
      → s.worker w ≡ idle
      → asio.take s.io ≡ some (h, io)
      → in_receiver p ≡ is_receiver h
      → uncounted p ≡ false
      → Valid s k
      → Valid (record (go mx cv asio w p s) { io = io }) k
  take_other w h p s io at took same off v =
      let (xs, ys, before, after) = asio.take-pending h s.io io took in
      Inv-move w p s.worker (off ∙ sym (ap uncounted at))
        (rw after (
          Token-take is_receiver in_receiver w h p _ s.worker xs ys (ap in_receiver at) same
            (rw before at v.token)))
        v

  -- `main` posts a handler of another kind.
  posts :
      (h : Handler) (m : Main) (s : State) {k : ℕ}
      → receiver_unposted s.main ≡ receiver_unposted m
      → is_receiver h ≡ false
      → Valid s k
      → Valid (record s { io = asio.post h s.io; main = m }) k
  posts h m s same other v =
      rw (asio.pending-post, ← same)
        (Inv-pending
          (Token-other is_receiver in_receiver h _ s.worker (asio.pending s.io) other v.token) v)

  first_out : (w : ℕ) → in_receiver (first_worker mx cv asio w) ≡ false
  first_out w = ground arith

  Step-Valid :
      {s t : State} {k : ℕ} (st : Step mx cv asio s t) → Valid s k → Valid t (and_datagram st k)
  Step-Valid {s} (take_receive w io word at took) v =
      let (xs, ys, before, after) = asio.take-pending receive_data s.io io took in
      rw after (Inv-receive w _ xs ys at refl refl (rw before at v))
  Step-Valid {s} (take_writer w io at took) v = take_other w _ (at_loop 0) s io at took refl refl v
  Step-Valid {s} (take_handle w io at took) v = take_other w _ to_receive s io at took refl refl v
  Step-Valid {s} (take_reader w io at took) v = take_other w _ _ s io at took refl refl v
  Step-Valid (count w at) v = Inv-count w at v
  Step-Valid {s} (receive w at) v =
      Inv-move w idle s.worker (sym (ap uncounted at))
        (rw (asio.pending-async_receive_from) (
          Token-give is_receiver in_receiver w receive_data idle _ s.worker (asio.pending s.io)
            (ap in_receiver at) refl v.token))
        v
  Step-Valid {s} (post_reader m) v =
      posts client_reader to_post_receive s (ap receiver_unposted m) refl v
  Step-Valid {s} (post_receive m) v = rw asio.pending-post (record {
    token =
        Token-post is_receiver in_receiver handle_data s.worker (asio.pending s.io)
          (rw m at v.token);
    mine = v.mine;
    nobody = v.nobody;
  })
  Step-Valid {s} (post_writer i m more) v =
      posts client_writer (sending (i + 1)) s (ap receiver_unposted m) refl v
  Step-Valid (stop i m done) v = rw asio.pending-stop (rw (ap receiver_unposted m) at v)
  Step-Valid (join_all m all) v = rw (ap receiver_unposted m) at v
  Step-Valid (spurious w at) v = record { token = v.token; mine = v.mine; nobody = v.nobody }
  Step-Valid (leave_run w at off) v = Inv-other w _ _ at refl refl v
  Step-Valid (loop w i at more) v = Inv-other w _ _ at refl refl v
  Step-Valid (end_loop w i at done) v = Inv-other w _ _ at refl refl v
  Step-Valid (push w x c at) v = Inv-other w _ _ at refl refl v
  Step-Valid (read_for_inc w c at) v = Inv-other w _ _ at refl refl v
  Step-Valid (write_inc w n c at) v = Inv-other w _ _ at refl refl v
  Step-Valid (notify w c at) v =
      Inv-other w _ _ at (after_enqueue-uncounted c) (after_enqueue-in c) v
  Step-Valid (take_lock w at free) v = Inv-other w _ _ at refl refl v
  Step-Valid (see_empty w at e) v = Inv-other w _ _ at refl refl v
  Step-Valid (start_wait w at) v = Inv-other w _ _ at refl refl v
  Step-Valid (end_wait w at n free) v = Inv-other w _ _ at refl refl v
  Step-Valid (see_front w x xs at e) v = Inv-other w _ _ at refl refl v
  Step-Valid (pop w x y xs at e) v = Inv-other w _ _ at refl refl v
  Step-Valid (read_for_dec w x at) v = Inv-other w _ _ at refl refl v
  Step-Valid (write_dec w x n at) v = Inv-other w _ _ at refl refl v
  Step-Valid (give w x at) v = Inv-other w _ _ at refl refl v
  Step-Valid (print w x at) v = Inv-other w _ _ at refl refl v

  Reach-Valid : {s : State} (r : Reach mx cv asio s) → Valid s (n_datagrams r)
  Reach-Valid start = record {
    token = record {
      single = λ a b ha hb. cc (first_out a, ha);
      held = λ a ha. cc (first_out a, ha);
      few = rw asio.pending-new (omega arith);
      unposted = λ e. (rw asio.pending-new, first_out);
    };
    mine = λ w h. cc (outside _ (first_out w), h);
    nobody = λ h. refl;
  }
  Reach-Valid (later r st) = Step-Valid st (Reach-Valid r)

  -- What one of the two workers holds is not counted yet.
  in_hand :
      (s : State) (a b : Bool) {k : ℕ}
      → Valid s k
      → ((w : ℕ) → 2 ≤ w → s.worker w ≡ returned)
      → uncounted (s.worker 0) ≡ a
      → uncounted (s.worker 1) ≡ b
      → s.packet_count + (one_if a + one_if b) ≡ k
  in_hand s true true v others ha hb =
      absurd (omega (arith, v.token.single 0 1 (inside (s.worker 0) ha) (inside (s.worker 1) hb)))
  in_hand s true false v others ha hb = v.mine 0 ha
  in_hand s false true v others ha hb = v.mine 1 hb
  in_hand s false false v others ha hb = omega (
    arith,
    v.nobody (λ w. elim (same_or_not 0 w) [
      | inl e ↦ ap (λ z. uncounted (s.worker z)) e ∙ ha
      | inr n ↦ elim (same_or_not 1 w) [
        | inl e ↦ ap (λ z. uncounted (s.worker z)) e ∙ hb
        | inr m ↦ ap uncounted (others w (omega (arith, n, m)))
      ]
    ]),
  )

  apart :
      (s : State) {k : ℕ}
      → Valid s k
      → (in_receiver (s.worker 0) && in_receiver (s.worker 1)) ≡ false
  apart s v = elim (Bool-cases (in_receiver (s.worker 0))) [
    | inl a ↦ elim (Bool-cases (in_receiver (s.worker 1))) [
      | inl b ↦ absurd (omega (arith, v.token.single 0 1 a b))
      | inr b ↦ rw (a, b)
    ]
    | inr a ↦ rw a
  ]

  -- `packet_count` is exact without a lock: in every reachable state at most one of the two workers is
  -- in receive_data or handle_data, and `packet_count` with the datagram of a worker before its
  -- `packet_count++`, if any, is the number of datagrams that came in.
  pub packet_count-Reach :
      {s : State} (r : Reach mx cv asio s)
      → ((in_receiver (s.worker 0) && in_receiver (s.worker 1)) ≡ false)
        × (s.packet_count + (one_if (uncounted (s.worker 0)) + one_if (uncounted (s.worker 1)))
            ≡ n_datagrams r)
  packet_count-Reach {s} r =
      let v = Reach-Valid r in
      (
        apart s v,
        in_hand s (uncounted (s.worker 0)) (uncounted (s.worker 1)) v
            (λ w. only_two-Reach mx cv asio w r) refl refl,
      )
