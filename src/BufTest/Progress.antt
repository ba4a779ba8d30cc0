-- ===== src/BufTest/Progress.antt =====
-- src/buf-test.cxx: in every state but the last some thread can go on.
use test_buffer.Prelude.{
  Bool, Bool-cases, [], ap, arith, false, inl, inr, ltb, lt→ltb, refl, same_or_not, suc, true,
  update, update-other, update-same, zero, ℕ, ◌+◌, ◌<◌, ◌==◌, ◌∙◌, ◌∷◌, ◌≡◌, ◌≢◌, ◌≤◌, ◌⊎◌,
}
use test_buffer.Boost.Asio.{IoService}
use test_buffer.Boost.Threads.{Mutex}
use test_buffer.BufTest.{
  Handler, thread_start, thread_finish, Point, absent, to_lock, writing, in_run, finished, creating,
  at_input, stopping, joining, ended, System, Step, lock, insert, unlock, create_thread, pieces,
  end_creating, get, stop, leave_run, join_all, Reach, start, later, n_workers,
}
use test_buffer.BufTest.Points.{Points, is_in, unmade}
use test_buffer.BufTest.Output.{Reach-Valid}
use test_buffer.BufTest.Placed.{Reach-Places}
use test_buffer.BufTest.Places.{at_place, made_by, off_at, Places}

abbrev Held : Bool → Points → Type 0
Held free f = free ≡ false → (t : ℕ) × is_in (f t) ≡ true

-- A thread that does not have the lock moves.
Held-move :
    (t : ℕ) (q : Point) (f : Points) {free : Bool}
    → is_in (f t) ≡ false
    → Held free f
    → Held free (update t q f)
Held-move t q f out v taken =
    let (u, h) = v taken in (u, ap is_in (update-other t u q f (λ e. cc (out, h, ap f e))) ∙ h)

module _ (mx : Mutex) (asio : IoService Handler) where
  -- While the lock is not free, some thread is between `lock()` and `unlock()`.
  Reach-Held : {s : System mx asio} → Reach mx asio s → Held (mx.is_free s.stream_lock) s.point
  Reach-Held start = λ e. cc (e, mx.is_free-unlocked)
  Reach-Held (later {t = s} r (lock t line at free)) =
      λ e. (t, ap is_in (update-same t (writing line (pieces t line)) s.point))
  Reach-Held (later {t = s} r (insert t line p ps at)) =
      λ e. (t, ap is_in (update-same t (writing line ps) s.point))
  Reach-Held (later {t = s} r (unlock t line at)) = λ e. cc (e, mx.is_free-unlock s.stream_lock)
  Reach-Held (later {t = s} r (create_thread x at more)) =
      let gone : s.point (x + 1) ≡ absent =
        (Reach-Valid mx asio r).fresh (x + 1)
          (ap (λ z. unmade z (x + 1)) at ∙ lt→ltb x (x + 1) (omega arith)) in
      let apart =
        update-other 0 (x + 1) (creating (x + 1)) s.point (λ e. absurd (omega (arith, e))) in
      Held-move (x + 1) (to_lock thread_start) (update 0 (creating (x + 1)) s.point)
        (ap is_in (apart ∙ gone))
        (Held-move 0 (creating (x + 1)) s.point (ap is_in at) (Reach-Held r))
  Reach-Held (later {t = s} r (end_creating x at no_more)) =
      Held-move 0 at_input s.point (ap is_in at) (Reach-Held r)
  Reach-Held (later {t = s} r (get at)) = Held-move 0 stopping s.point (ap is_in at) (Reach-Held r)
  Reach-Held (later {t = s} r (stop at)) = Held-move 0 joining s.point (ap is_in at) (Reach-Held r)
  Reach-Held (later {t = s} r (leave_run t at off)) =
      Held-move t (to_lock thread_finish) s.point (ap is_in at) (Reach-Held r)
  Reach-Held (later {t = s} r (join_all at all)) =
      Held-move 0 ended s.point (ap is_in at) (Reach-Held r)

  abbrev Next : System mx asio → Type 0
  Next s = (t : System mx asio) × Step mx asio s t

  -- A thread with the lock goes on.
  writes_on : (s : System mx asio) (t : ℕ) (p : Point) → s.point t ≡ p → is_in p ≡ true → Next s
  writes_on s t (writing line []) at h = (_, unlock t line at)
  writes_on s t (writing line (p ∷ ps)) at h = (_, insert t line p ps at)
  writes_on s t _ at h = cc

  module _ {s : System mx asio} (v : Places (asio.stopped s.io) s.point)
      (free : mx.is_free s.stream_lock ≡ true) where
    -- With the service stopped, a worker that is there goes on until it has finished.
    worker_goes_on :
        (u : ℕ) (p : Point)
        → s.point u ≡ p
        → at_place false true p ≡ true
        → p ≢ absent
        → asio.stopped s.io ≡ true
        → (p ≡ finished) ⊎ Next s
    worker_goes_on u absent at h there off = absurd (there refl)
    worker_goes_on u (to_lock line) at h there off = inr (_, lock u line at free)
    worker_goes_on u (writing line ps) at h there off = inr (writes_on s u _ at refl)
    worker_goes_on u in_run at h there off = inr (_, leave_run u at off)
    worker_goes_on u finished at h there off = inl refl
    worker_goes_on u (creating x) at h there off = cc
    worker_goes_on u at_input at h there off = cc
    worker_goes_on u stopping at h there off = cc
    worker_goes_on u joining at h there off = cc
    worker_goes_on u ended at h there off = cc

    workers_go_on :
        (n : ℕ)
        → n ≤ n_workers
        → s.point 0 ≡ joining
        → ((x : ℕ) → x < n → s.point (x + 1) ≡ finished) ⊎ Next s
    workers_go_on zero h at = inl (λ x k. absurd (omega (arith, k)))
    workers_go_on (suc n) h at = elim (workers_go_on n (omega (arith, h)) at) [
      | inl all ↦
          let positive : (n + 1 == 0) ≡ false = ground arith in
          let small : ltb (n + 1) 5 ≡ true = lt→ltb (n + 1) 5 (omega (arith, h)) in
          let there : s.point (n + 1) ≢ absent =
            v.made (n + 1) (omega arith) (ap (λ z. made_by z (n + 1)) at ∙ ground (arith, h)) in
          elim (worker_goes_on (n + 1) (s.point (n + 1)) refl
            (cc (v.placed (n + 1), positive, small)) there (v.off (ap off_at at))) [
              | inl e ↦ inl (λ x k. elim (same_or_not n x) [
                | inl same ↦ ap (λ z. s.point (z + 1)) same ∙ e
                | inr n' ↦ all x (omega (arith, k, n'))
              ])
              | inr st ↦ inr st
            ]
      | inr st ↦ inr st
    ]

    main_goes_on :
        (p : Point) (b : Bool)
        → s.point 0 ≡ p
        → at_place true b p ≡ true
        → (s.point 0 ≡ ended) ⊎ Next s
    main_goes_on (to_lock line) b at h = inr (_, lock 0 line at free)
    main_goes_on (writing line ps) b at h = inr (writes_on s 0 _ at refl)
    main_goes_on (creating x) b at h = elim (Bool-cases (ltb x n_workers)) [
      | inl more ↦ inr (_, create_thread x at (ground (arith, more)))
      | inr no_more ↦ inr (_, end_creating x at (ground (arith, no_more)))
    ]
    main_goes_on at_input b at h = inr (_, get at)
    main_goes_on stopping b at h = inr (_, stop at)
    main_goes_on joining b at h = elim (workers_go_on n_workers (omega arith) at) [
      | inl all ↦ inr (_, join_all at all)
      | inr st ↦ inr st
    ]
    main_goes_on ended b at h = inl at
    main_goes_on absent b at h = cc
    main_goes_on in_run b at h = cc
    main_goes_on finished b at h = cc

  -- In every reachable state `main` has ended, or some thread can take a step.
  pub progress : {s : System mx asio} → Reach mx asio s → (s.point 0 ≡ ended) ⊎ Next s
  progress {s} r =
      let v = Reach-Places mx asio r in
      elim (Bool-cases (mx.is_free s.stream_lock)) [
        | inl free ↦ main_goes_on v free (s.point 0) true refl (v.placed 0)
        | inr taken ↦ let (t, h) = Reach-Held r taken in inr (writes_on s t (s.point t) refl h)
      ]
