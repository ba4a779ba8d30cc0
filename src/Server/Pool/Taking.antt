-- ===== src/Server/Pool/Taking.antt =====
-- src/server.cxx: one handler taken from the service, and one receipt more.
use test_buffer.Prelude.{
  List, [], ap, append_assoc, arith, length-append, ltb, refl, some, sym, ℤ, ◌++◌, ◌+◌, ◌∙◌, ◌∷◌,
  ◌≡◌, ◌≢◌,
}
use test_buffer.Boost.CircularBuffer.{CircularBuffer}
use test_buffer.Boost.Asio.{IoService, Sockets}
use test_buffer.BoundedBuffer.Window.{push_all, push_all-nil, push_all-push_front, push_all-append}
use test_buffer.BoundedBuffer.{push_front}
use test_buffer.Server.{Handler, Receipt, Server, World}
use test_buffer.Server.Branches.{decoded, pushed}
use test_buffer.Server.Serve.{Served, item, items, sizes}

pub items-append :
    (rs : List Receipt) (r : Receipt) → items (rs ++ r ∷ []) ≡ items rs ++ item r ∷ []
items-append [] r = refl
items-append (q ∷ rs) r = rw (items-append rs r)

pub sizes-append :
    (rs : List Receipt) (r : Receipt) → sizes (rs ++ r ∷ []) ≡ sizes rs ++ r.size ∷ []
sizes-append [] r = refl
sizes-append (q ∷ rs) r = rw (sizes-append rs r)

one_only {ℓ} :
    {A : Type ℓ} (xs : List A) (x : A) (ys : List A) (h : A)
    → h ∷ [] ≡ xs ++ x ∷ ys
    → (x ≡ h) × (xs ++ ys ≡ [])
one_only [] x ys h e = (cc, cc)
one_only (y ∷ []) x ys h e = cc
one_only (y ∷ z ∷ xs) x ys h e = cc

not_none {ℓ} : {A : Type ℓ} (xs : List A) (x : A) (ys : List A) → xs ++ x ∷ ys ≢ []
not_none [] x ys e = cc
not_none (y ∷ xs) x ys e = cc

module _ (asio : IoService Handler) where
  -- The service has one handler to give.
  pub take_one :
      (h k : Handler) (io io' : asio.State)
      → asio.pending io ≡ h ∷ []
      → asio.take io ≡ some (k, io')
      → (k ≡ h) × (asio.pending io' ≡ [])
  take_one h k io io' one took =
      let (xs, ys, before, after) = asio.take-pending k io io' took in
      let (same, rest) = one_only xs k ys h (sym one ∙ before) in (same, after ∙ rest)

  pub take_no :
      (k : Handler) (io io' : asio.State) → asio.pending io ≡ [] → asio.take io ≢ some (k, io')
  take_no k io io' no_handler took =
      let (xs, ys, before, after) = asio.take-pending k io io' took in
      not_none xs k ys (sym before ∙ no_handler)

module _ (cb : CircularBuffer ℤ) (asio : IoService Handler) (net : Sockets) where
  pub Served-snoc :
      (r : Receipt) (rs : List Receipt) {s s' : Server cb asio net} {w w' : World cb asio net}
      (io : asio.State)
      → Served cb asio net rs s w s' w'
      → asio.stopped io ≡ ltb 10000 (s'.n_count + 1)
      → Served cb asio net
          (rs ++ r ∷ [])
          s
          w
          (decoded cb asio net r s')
          (pushed cb asio net r w' io)
  Served-snoc r rs {s} {s'} {w} {w'} io v stop = record {
    count = omega (arith, v.count, length-append rs (r ∷ []));
    bounded =
        ap (push_front cb (item r)) v.bounded
        ∙ sym (
            ap (λ xs. push_all cb xs w.shared.bounded) (items-append rs r)
            ∙ (push_all-append cb (items rs) (item r ∷ []) w.shared.bounded
                ∙ (sym
                      (push_all-push_front cb (item r) [] (push_all cb (items rs) w.shared.bounded))
                    ∙ push_all-nil cb _)));
    stale = rw (v.stale, sizes-append) (append_assoc w.stale_writes (sizes rs) (r.size ∷ []));
    stopped = stop;
  }

  pub Served-io :
      (rs : List Receipt) {s s' : Server cb asio net} {w w' : World cb asio net} (io : asio.State)
      → asio.stopped io ≡ asio.stopped w'.io
      → Served cb asio net rs s w s' w'
      → Served cb asio net rs s w s' (record w' { io = io })
  Served-io rs io same v = record {
    count = v.count;
    bounded = v.bounded;
    stale = v.stale;
    stopped = same ∙ v.stopped;
  }
