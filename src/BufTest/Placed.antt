-- ===== src/BufTest/Placed.antt =====
-- src/buf-test.cxx: the states that the threads reach have them at their places.
use test_buffer.Prelude.{ap, arith, false, ltb, refl, suc, sym, true, zero, ℕ, ◌==◌, ◌∙◌, ◌∷◌, ◌≡◌}
use test_buffer.Boost.Asio.{IoService}
use test_buffer.Boost.Threads.{Mutex}
use test_buffer.BufTest.{
  Handler, thread_finish, to_lock, writing, at_input, stopping, ended, next, System, Step, lock,
  insert, unlock, create_thread, pieces, end_creating, get, stop, leave_run, join_all, Reach, start,
  later, first_point,
}
use test_buffer.BufTest.Places.{
  place, made_by, off_at, Places, at_place-unlock, at_place-lock, at_place-finish, next-there,
  next-makes_none, next-off, Places-move, Places-make, Places-stop,
}

module _ (mx : Mutex) (asio : IoService Handler) where
  abbrev AllPlaced : System mx asio → Type 0
  AllPlaced s = Places (asio.stopped s.io) s.point

  Step-Places : {s t : System mx asio} → Step mx asio s t → AllPlaced s → AllPlaced t
  Step-Places {s} (lock t line at free) v =
      Places-move t (writing line (pieces t line)) (λ e. cc (at, e)) (λ e. cc)
        (λ h. at_place-lock (t == 0) (ltb t 5) line (pieces t line) ∙ (sym (ap (place t) at) ∙ h))
        (λ u k h. cc) (λ h. cc) v
  Step-Places {s} (insert t line p ps at) v =
      Places-move t (writing line ps) (λ e. cc (at, e)) (λ e. cc)
        (λ h.
          at_place-lock (t == 0) (ltb t 5) line ps
          ∙ (sym (at_place-lock (t == 0) (ltb t 5) line (p ∷ ps)) ∙ (sym (ap (place t) at) ∙ h)))
        (λ u k h. cc) (λ h. cc) v
  Step-Places {s} (unlock t line at) v =
      Places-move t (next line) (λ e. cc (at, e)) (next-there line)
        (λ h. at_place-unlock (t == 0) (ltb t 5) line (sym (ap (place t) at) ∙ h))
        (λ u k h. absurd (next-makes_none line u k h)) (next-off line (s.point t)) v
  Step-Places {s} (create_thread x at more) v = Places-make x at more v
  Step-Places {s} (end_creating x at no_more) v =
      Places-move 0 at_input (λ e. cc (at, e)) (λ e. cc) (λ h. refl)
        (λ u k h. ap (λ z. made_by z u) at ∙ ground arith) (λ h. cc) v
  Step-Places {s} (get at) v =
      Places-move 0 stopping (λ e. cc (at, e)) (λ e. cc) (λ h. refl)
        (λ u k h. ap (λ z. made_by z u) at ∙ h) (λ h. cc) v
  Step-Places {s} (stop at) v = rw (asio.stopped-stop s.io) (Places-stop at v)
  Step-Places {s} (leave_run t at off) v =
      Places-move t (to_lock thread_finish) (λ e. cc (at, e)) (λ e. cc)
        (λ h. at_place-finish (t == 0) (ltb t 5) (sym (ap (place t) at) ∙ h)) (λ u k h. cc)
        (λ h. cc) v
  Step-Places {s} (join_all at all) v =
      Places-move 0 ended (λ e. cc (at, e)) (λ e. cc) (λ h. refl)
        (λ u k h. ap (λ z. made_by z u) at ∙ h) (λ h. ap off_at at) v

  first-placed : (u : ℕ) → place u (first_point mx asio u) ≡ true
  unfolding first_point
  first-placed zero = refl
  first-placed (suc u) = let positive : (suc u == 0) ≡ false = ground arith in cc positive

  -- In every reachable state the threads stand where they can.
  pub Reach-Places : {s : System mx asio} → Reach mx asio s → AllPlaced s
  unfolding first_point
  Reach-Places start = record { placed = first-placed; made = λ u h m. cc; off = λ h. cc }
  Reach-Places (later r st) = Step-Places st (Reach-Places r)
