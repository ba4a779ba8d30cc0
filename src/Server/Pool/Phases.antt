-- ===== src/Server/Pool/Phases.antt =====
-- src/server.cxx: what the threads of listen have done together: the phases of a run.
use test_buffer.Prelude.{
  Bool, List, [], ap, arith, false, inl, inr, ltb, refl, same_or_not, sym, true, update,
  update-cases, update-same, ℕ, ℤ, ◌++◌, ◌+◌, ◌∙◌, ◌∷◌, ◌≡◌, ◌≢◌, ◌≤◌,
}
use mathlib.Core.Path.{subst}
use test_buffer.Boost.CircularBuffer.{CircularBuffer}
use test_buffer.Boost.Asio.{IoService, Sockets}
use test_buffer.Server.{Handler, handle_data_handler, decode_data_handler, Receipt, Server, World}
use test_buffer.Server.Branches.{IsInitialized, decoded, pushed}
use test_buffer.Server.Serve.{Served}
use test_buffer.Server.Pool.{
  Place, in_handle_data, in_decode_data, written, word_pushed, count_read, counted, tested, failed,
  Pool,
}
use test_buffer.Server.Pool.Taking.{Served-io}

-- The thread is in a handler and has not given the next one.
abbrev pub busy : Place → Bool
busy in_handle_data = true
busy (in_decode_data r) = true
busy written = true
busy word_pushed = true
busy (count_read n) = true
busy counted = true
busy (tested b) = true
busy failed = true
busy _ = false

abbrev pub Idle : (ℕ → Place) → Type 0
Idle f = (u : ℕ) → busy (f u) ≡ false

abbrev pub Only : ℕ → (ℕ → Place) → Type 0
Only t f = (u : ℕ) → u ≢ t → busy (f u) ≡ false

pub Only-update : (t : ℕ) (p : Place) (f : ℕ → Place) → Only t f → Only t (update t p f)
Only-update t p f only =
    update-cases (λ u z. u ≢ t → busy z ≡ false) t p f (λ n. absurd (n refl)) (λ u n m. only u n)

-- One thread alone is in a handler.
pub Only-single :
    (t a b : ℕ) (f : ℕ → Place) → Only t f → busy (f a) ≡ true → busy (f b) ≡ true → a ≡ b
Only-single t a b f only ha hb = elim (same_or_not t a) [
  | inl e ↦ elim (same_or_not t b) [ inl h ↦ e ∙ sym h | inr n ↦ cc (only b n, hb) ]
  | inr n ↦ cc (only a n, ha)
]

pub Idle-update :
    (t : ℕ) (p : Place) (f : ℕ → Place) → busy p ≡ false → Only t f → Idle (update t p f)
Idle-update t p f free only = update-cases (λ u z. busy z ≡ false) t p f free only

module _ (cb : CircularBuffer ℤ) (asio : IoService Handler) (net : Sockets) (s : Server cb asio net)
    (w : World cb asio net) where
  -- The receipts `rs` have been handled, and the members are set.
  pub record Done (rs : List Receipt) (s' : Server cb asio net) (w' : World cb asio net)
      : Type 0 where
    pub init : IsInitialized cb asio net s'
    pub served : Served cb asio net rs s w s' w'
    pub fresh : s.n_count ≡ 0
    pub limit : s'.n_count ≤ 10001

  -- What decode_data has done of the receipt `r` at a place in it, from `s0` and `w0` on.
  abbrev pub Stage :
      Receipt
      → Server cb asio net
      → World cb asio net
      → Place
      → Server cb asio net
      → World cb asio net
      → Type 0
  Stage r s0 w0 (in_decode_data r') s' w' =
      (r' ≡ r) × (s' ≡ record s0 { data_buffer = r.first ∷ r.others }) × (w' ≡ w0)
  Stage r s0 w0 written s' w' =
      (s' ≡ record s0 { data_buffer = r.first ∷ r.others })
      × (w' ≡ record w0 { stale_writes = w0.stale_writes ++ r.size ∷ [] })
  Stage r s0 w0 word_pushed s' w' =
      (s' ≡ record s0 { data_buffer = r.first ∷ r.others }) × (w' ≡ pushed cb asio net r w0 w0.io)
  Stage r s0 w0 (count_read n) s' w' =
      (n ≡ s0.n_count + 1)
      × (s' ≡ record s0 { data_buffer = r.first ∷ r.others })
      × (w' ≡ pushed cb asio net r w0 w0.io)
  Stage r s0 w0 counted s' w' =
      (s' ≡ decoded cb asio net r s0) × (w' ≡ pushed cb asio net r w0 w0.io)
  Stage r s0 w0 (tested b) s' w' =
      (b ≡ ltb 10000 (s0.n_count + 1))
      × (s' ≡ decoded cb asio net r s0)
      × (w' ≡ pushed cb asio net r w0 w0.io)
  Stage r s0 w0 _ s' w' = ⊥

  -- Thread `t` handles the last receipt, and has not given the next handler.
  pub record Decoding (t : ℕ) (p : Pool cb asio net) : Type 0 where
    pub receipt : Receipt
    pub before : List Receipt
    pub server : Server cb asio net
    pub world : World cb asio net
    pub only : Only t p.place
    pub none_left : asio.pending world.io ≡ []
    pub on : asio.stopped world.io ≡ false
    pub got : p.received ≡ before ++ receipt ∷ []
    pub done : Done before server world
    pub stage : Stage receipt server world (p.place t) p.server p.world

  -- Where the threads are together: the first handler pending, or with a thread; a receive pending, or
  -- its end with a thread; or the service stopped.
  pub data Phase (p : Pool cb asio net) : Type 0 where
    posted :
        Idle p.place
        → asio.pending p.world.io ≡ handle_data_handler ∷ []
        → asio.stopped p.world.io ≡ false
        → Done p.received p.server p.world
        → Phase p
    starting :
        (t : ℕ)
        → p.place t ≡ in_handle_data
        → Only t p.place
        → asio.pending p.world.io ≡ []
        → asio.stopped p.world.io ≡ false
        → Done p.received p.server p.world
        → Phase p
    receiving :
        Idle p.place
        → asio.pending p.world.io ≡ decode_data_handler ∷ []
        → asio.stopped p.world.io ≡ false
        → Done p.received p.server p.world
        → Phase p
    decoding : (t : ℕ) → busy (p.place t) ≡ true → Decoding t p → Phase p
    over :
        Idle p.place → asio.stopped p.world.io ≡ true → Done p.received p.server p.world → Phase p

  pub Done-io :
      (rs : List Receipt) (s' : Server cb asio net) (w' : World cb asio net) (io : asio.State)
      → asio.stopped io ≡ asio.stopped w'.io
      → Done rs s' w'
      → Done rs s' (record w' { io = io })
  Done-io rs s' w' io same d = record {
    init = d.init;
    served = Served-io cb asio net rs io same d.served;
    fresh = d.fresh;
    limit = d.limit;
  }

  -- The thread that is in decode_data.
  pub decoder_of :
      {p : Pool cb asio net} (t : ℕ) (c : Place)
      → p.place t ≡ c
      → busy c ≡ true
      → c ≢ in_handle_data
      → Phase p
      → Decoding t p
  decoder_of t c e on other (posted idle one live d) = cc (idle t, ap busy e, on)
  decoder_of {p} t c e on other (starting u in_it only none_left live d) = elim (same_or_not u t) [
    | inl h ↦ absurd (other (sym e ∙ (ap p.place h ∙ in_it)))
    | inr n ↦ cc (only t n, ap busy e, on)
  ]
  decoder_of t c e on other (receiving idle one live d) = cc (idle t, ap busy e, on)
  decoder_of {p} t c e on other (decoding u b d) = elim (same_or_not u t) [
    | inl h ↦ subst (λ z. Decoding z p) (sym h) d
    | inr n ↦ cc (d.only t n, ap busy e, on)
  ]
  decoder_of t c e on other (over idle off d) = cc (idle t, ap busy e, on)

  pub done_at :
      {p : Pool cb asio net} (t : ℕ) (c : Place)
      → p.place t ≡ c
      → (d : Decoding t p) → Stage d.receipt d.server d.world c p.server p.world
  done_at {p} t c e d = subst (λ z. Stage d.receipt d.server d.world z p.server p.world) e d.stage

  pub under :
      {rs : List Receipt} {s' : Server cb asio net} {w' : World cb asio net}
      → asio.stopped w'.io ≡ false
      → Done rs s' w'
      → s'.n_count ≤ 10000
  under {s' = s'} on d =
      let below : ltb 10000 s'.n_count ≡ false = sym d.served.stopped ∙ on in ground (arith, below)

  -- Thread `t`, in decode_data, goes on to `c`.
  pub goes :
      (p : Pool cb asio net) (t : ℕ) (c : Place) (s' : Server cb asio net) (w' : World cb asio net)
      → busy c ≡ true
      → (d : Decoding t p) → Stage d.receipt d.server d.world c s' w'
      → Phase (record p { server = s'; world = w'; place = update t c p.place })
  goes p t c s' w' on d stage = decoding t (ap busy (update-same t c p.place) ∙ on) (record {
    receipt = d.receipt;
    before = d.before;
    server = d.server;
    world = d.world;
    only = Only-update t c p.place d.only;
    none_left = d.none_left;
    on = d.on;
    got = d.got;
    done = d.done;
    stage =
        subst (λ z. Stage d.receipt d.server d.world z s' w') (sym (update-same t c p.place)) stage;
  })
