-- ===== src/BufTest/Output.antt =====
-- src/buf-test.cxx: the output under `global_stream_lock` in the states that the threads reach.
use test_buffer.Prelude.{
  ap, arith, false, le→ltb, lt→ltb, refl, suc, true, update, update-same, zero, ℕ, ◌++◌, ◌+◌, ◌∙◌,
  ◌≡◌,
}
use test_buffer.Boost.Asio.{IoService}
use test_buffer.Boost.Threads.{Mutex}
use test_buffer.BufTest.{
  Handler, thread_start, thread_finish, to_lock, creating, at_input, stopping, joining, ended,
  first_point, System, Step, lock, insert, unlock, create_thread, end_creating, get, stop,
  leave_run, join_all, Reach, start, later,
}
use test_buffer.BufTest.Points.{is_in, left, unmade, Fresh, Fresh-go_on, Fresh-make}
use test_buffer.BufTest.Locking.{flatten, Inv, Inv-move, Inv-lock, Inv-insert, Inv-unlock}

module _ (mx : Mutex) (asio : IoService Handler) where
  abbrev Valid : System mx asio → Type 0
  Valid s = Inv (mx.is_free s.stream_lock) s.point s.output s.lines

  first-Fresh : Fresh (first_point mx asio)
  unfolding first_point
  first-Fresh zero h = cc
  first-Fresh (suc u) h = refl

  first-out : (t : ℕ) → is_in (first_point mx asio t) ≡ false
  unfolding first_point
  first-out zero = refl
  first-out (suc t) = refl

  Step-Valid : {s t : System mx asio} → Step mx asio s t → Valid s → Valid t
  Step-Valid {s} (lock t line at free) v =
      rw (mx.is_free-lock s.stream_lock) (Inv-lock t line at free v)
  Step-Valid (insert t line p ps at) v = Inv-insert t line p ps at v
  Step-Valid {s} (unlock t line at) v =
      rw (mx.is_free-unlock s.stream_lock) (Inv-unlock t line at v)
  Step-Valid {s} (create_thread x at more) v =
      let f1 = update 0 (creating (x + 1)) s.point in
      let fresh1 : Fresh f1 =
        Fresh-go_on 0 (creating (x + 1)) s.point v.fresh (λ e. cc (at, e))
          (λ u h. ap (λ z. unmade z u) at ∙ lt→ltb x u (ground arith)) in
      let made : unmade (f1 0) (x + 1) ≡ false =
        ap (λ z. unmade z (x + 1)) (update-same 0 (creating (x + 1)) s.point)
        ∙ le→ltb (x + 1) (x + 1) (omega arith) in
      Inv-move (x + 1) (to_lock thread_start) refl
        (Fresh-make (x + 1) (to_lock thread_start) f1 fresh1 (omega arith) made)
        (Inv-move 0 (creating (x + 1)) refl fresh1 v)
  Step-Valid {s} (end_creating x at no_more) v =
      Inv-move 0 at_input refl
        (Fresh-go_on 0 at_input s.point v.fresh (λ e. cc (at, e)) (λ u h. cc)) v
  Step-Valid {s} (get at) v =
      Inv-move 0 stopping refl
        (Fresh-go_on 0 stopping s.point v.fresh (λ e. cc (at, e)) (λ u h. cc)) v
  Step-Valid {s} (stop at) v =
      Inv-move 0 joining refl (Fresh-go_on 0 joining s.point v.fresh (λ e. cc (at, e)) (λ u h. cc))
        v
  Step-Valid {s} (leave_run t at stopped) v =
      Inv-move t (to_lock thread_finish) refl
        (Fresh-go_on t _ s.point v.fresh (λ e. cc (at, e)) (λ u h. cc)) v
  Step-Valid {s} (join_all at all) v =
      Inv-move 0 ended refl (Fresh-go_on 0 ended s.point v.fresh (λ e. cc (at, e)) (λ u h. cc)) v

  pub Reach-Valid : {s : System mx asio} → Reach mx asio s → Valid s
  Reach-Valid start = record {
    exclusive = λ t u ht hu. cc (first-out t, ht);
    held = λ t ht. cc (first-out t, ht);
    part = λ t ht. cc (first-out t, ht);
    whole = λ e. refl;
    fresh = first-Fresh;
  }
  Reach-Valid (later r st) = Step-Valid st (Reach-Valid r)

  -- The lock keeps the lines whole: in every reachable state with the lock free, the output is that of
  -- the lines begun so far, each as a whole and in the order in which they were begun.
  pub whole-Reach :
      {s : System mx asio}
      → Reach mx asio s
      → mx.is_free s.stream_lock ≡ true
      → s.output ≡ flatten s.lines
  whole-Reach r on = (Reach-Valid r).whole on

  -- In every reachable state at most one thread is between `lock()` and `unlock()`; while it is, the
  -- lock is not free, and the output and the pieces that it has yet to insert make whole lines.
  only_writer-Reach :
      {s : System mx asio} (t u : ℕ)
      → Reach mx asio s
      → is_in (s.point t) ≡ true
      → is_in (s.point u) ≡ true
      → (t ≡ u)
        × (mx.is_free s.stream_lock ≡ false)
        × (s.output ++ left (s.point t) ≡ flatten s.lines)
  only_writer-Reach t u r ht hu =
      let v = Reach-Valid r in (v.exclusive t u ht hu, v.held t ht, v.part t ht)
