-- ===== src/BufSync/Program/Moves.antt =====
-- src/buf-sync.cxx: one reader and its order, at each kind of step.
use test_buffer.Prelude.{List, ap, false, refl, some, sym, true, update, ℕ, ℤ, ◌++◌, ◌∙◌, ◌∷◌, ◌≡◌}
use test_buffer.Boost.Threads.{Mutex, Condition}
use test_buffer.Boost.Asio.{IoService}
use test_buffer.SyncQueue.Threads.{Consumer, found}
use test_buffer.BufSync.Program.{Handler, Point, idle, reading, Main, System, go}
use test_buffer.SyncQueue.Threads.Order.{in_hand}
use test_buffer.BufSync.Program.Tokens.{Token-move, Token-take, Token-other}
use test_buffer.BufSync.Program.Order.{
  is_reader, in_reader, held, reader_unposted, OneReader, Ordered, Ordered-other, Ordered-reader,
  others_out,
}

module _ (mx : Mutex) (cv : Condition) (asio : IoService Handler) where
  abbrev pub State : Type 0
  State = System mx cv asio

  pub record Inv (s : State) : Type 0 where
    pub token : OneReader (reader_unposted s.main) s.worker (asio.pending s.io)
    pub ordered : Ordered s.worker s.queue s.printed s.enqueued

  -- A worker that is in another handler, or in none, goes on, with the service as it is.
  pub Inv-other :
      (w : ℕ) (p : Point) (s : State) (size : ℤ) (cond : cv.State) (n : ℕ)
      → in_reader (s.worker w) ≡ false
      → in_reader p ≡ false
      → Inv s
      → Inv (record (go mx cv asio w p s) { size = size; cond = cond; packet_count = n })
  Inv-other w p s size cond n off out v = record {
    token = Token-move is_reader in_reader w p _ s.worker _ (out ∙ sym off) v.token;
    ordered = Ordered-other w p s.worker s.queue s.printed s.enqueued off out v.ordered;
  }

  -- A worker takes up a handler.
  pub taken :
      (w : ℕ) (h : Handler) (p : Point) (s : State) (io : asio.State)
      → s.worker w ≡ idle
      → asio.take s.io ≡ some (h, io)
      → in_reader p ≡ is_reader h
      → Inv s
      → OneReader (reader_unposted s.main) (update w p s.worker) (asio.pending io)
  taken w h p s io at took same v =
      let (xs, ys, before, after) = asio.take-pending h s.io io took in
      rw after (
        Token-take is_reader in_reader w h p _ s.worker xs ys (ap in_reader at) same
          (rw before at v.token))

  pub Inv-take :
      (w : ℕ) (h : Handler) (p : Point) (s : State) (io : asio.State)
      → s.worker w ≡ idle
      → asio.take s.io ≡ some (h, io)
      → is_reader h ≡ false
      → in_reader p ≡ false
      → Inv s
      → Inv (record (go mx cv asio w p s) { io = io })
  Inv-take w h p s io at took other out v = record {
    token = taken w h p s io at took (out ∙ sym other) v;
    ordered =
        Ordered-other w p s.worker s.queue s.printed s.enqueued (ap in_reader at) out v.ordered;
  }

  -- The reader goes on.
  pub Inv-reader :
      (w : ℕ) (p : Point) (s : State) (q printed : List ℤ) (size : ℤ) (mutex : mx.State)
      (cond : cv.State)
      → in_reader (s.worker w) ≡ true
      → in_reader p ≡ true
      → (s.enqueued ≡ s.printed ++ (held (s.worker w) ++ s.queue)
          → s.enqueued ≡ printed ++ (held p ++ q))
      → ((x : ℤ) → p ≡ reading (found x) → (xs : List ℤ) × (q ≡ x ∷ xs))
      → Inv s
      → Inv (record (go mx cv asio w p s) {
        queue = q;
        size = size;
        mutex = mutex;
        cond = cond;
        printed = printed;
      })
  Inv-reader w p s q printed size mutex cond on still order front v = record {
    token = Token-move is_reader in_reader w p _ s.worker _ (still ∙ sym on) v.token;
    ordered =
        Ordered-reader w p s.worker q printed s.enqueued still
          (others_out w _ s.worker _ v.token on) (order (v.ordered.mine w on)) front;
  }

  -- It only moves to another point, with nothing in its hand.
  pub Inv-empty_handed :
      (w : ℕ) (c d : Consumer ℤ) (s : State) (mutex : mx.State) (cond : cv.State)
      → s.worker w ≡ reading c
      → in_hand c ≡ in_hand d
      → ((x : ℤ) → reading d ≡ reading (found x) → (xs : List ℤ) × (s.queue ≡ x ∷ xs))
      → Inv s
      → Inv (record (go mx cv asio w (reading d) s) { mutex = mutex; cond = cond })
  Inv-empty_handed w c d s mutex cond at same front v =
      Inv-reader w (reading d) s s.queue s.printed s.size mutex cond (ap in_reader at) refl
        (λ e. e ∙ rw (at, same)) front v

  -- `main` posts a handler of another kind.
  pub main_moves :
      (h : Handler) (m : Main) (s : State)
      → reader_unposted s.main ≡ reader_unposted m
      → is_reader h ≡ false
      → Inv s
      → Inv (record s { io = asio.post h s.io; main = m })
  main_moves h m s same other v = record {
    token =
        rw (asio.pending-post, ← same)
          (Token-other is_reader in_reader h _ s.worker (asio.pending s.io) other v.token);
    ordered = v.ordered;
  }
