-- ===== src/BufTest/End.antt =====
-- src/buf-test.cxx: what is printed when `main` ends.
use test_buffer.Prelude.{
  [], ap, arith, inl, inr, same_or_not, sym, update, update-other, update-same, ℕ, ◌+◌, ◌<◌, ◌∙◌,
  ◌∷◌, ◌≡◌, ◌≢◌,
}
use test_buffer.Boost.Asio.{IoService}
use test_buffer.Boost.Threads.{Mutex}
use test_buffer.BufTest.{
  Line, press_return, thread_start, thread_finish, Point, to_lock, writing, finished, creating,
  at_input, stopping, joining, ended, next, n_workers, first_point, System, lock, insert, unlock,
  create_thread, end_creating, get, stop, leave_run, join_all, Reach, start, later, Handler, pieces,
}
use test_buffer.BufTest.Points.{Points}
use test_buffer.BufTest.Lines.{lines_of, said-Reach, said}

-- Once `main` has ended, all workers have finished.
abbrev Joined : Points → Type 0
Joined f = f 0 ≡ ended → (x : ℕ) → x < n_workers → f (x + 1) ≡ finished

Joined-move :
    (t : ℕ) (q : Point) (f : Points) → f t ≢ finished → q ≢ ended → Joined f → Joined (update t q f)
Joined-move t q f going last joined e x h = elim (same_or_not t 0) [
  | inl z ↦ absurd (last (sym (ap (update t q f) z ∙ update-same t q f) ∙ e))
  | inr n ↦
      let done = joined (sym (update-other t 0 q f n) ∙ e) x h in
      elim (same_or_not t (x + 1)) [
        | inl z ↦ absurd (going (sym (ap f z) ∙ done))
        | inr m ↦ update-other t (x + 1) q f m ∙ done
      ]
]

next-goes_on : (line : Line) → next line ≢ ended
unfolding next
next-goes_on press_return e = cc
next-goes_on thread_start e = cc
next-goes_on thread_finish e = cc

module _ (mx : Mutex) (asio : IoService Handler) where
  pub Reach-Joined : {s : System mx asio} → Reach mx asio s → Joined s.point
  unfolding first_point
  Reach-Joined start = λ e. cc
  Reach-Joined (later {t = s} r (lock t line at free)) =
      Joined-move t (writing line (pieces t line)) s.point (λ e. cc (at, e)) (λ e. cc)
        (Reach-Joined r)
  Reach-Joined (later {t = s} r (insert t line p ps at)) =
      Joined-move t (writing line ps) s.point (λ e. cc (at, e)) (λ e. cc) (Reach-Joined r)
  Reach-Joined (later {t = s} r (unlock t line at)) =
      Joined-move t (next line) s.point (λ e. cc (at, e)) (next-goes_on line) (Reach-Joined r)
  Reach-Joined (later {t = s} r (create_thread x at more)) = λ e.
      let first : update (x + 1) (to_lock thread_start) (update 0 (creating (x + 1)) s.point) 0
          ≡ creating (x + 1) =
        update-other (x + 1) 0 (to_lock thread_start) (update 0 (creating (x + 1)) s.point)
          (λ z. absurd (omega (arith, z)))
        ∙ update-same 0 (creating (x + 1)) s.point in
      cc (first, e)
  Reach-Joined (later {t = s} r (end_creating x at no_more)) =
      Joined-move 0 at_input s.point (λ e. cc (at, e)) (λ e. cc) (Reach-Joined r)
  Reach-Joined (later {t = s} r (get at)) =
      Joined-move 0 stopping s.point (λ e. cc (at, e)) (λ e. cc) (Reach-Joined r)
  Reach-Joined (later {t = s} r (stop at)) =
      Joined-move 0 joining s.point (λ e. cc (at, e)) (λ e. cc) (Reach-Joined r)
  Reach-Joined (later {t = s} r (leave_run t at off)) =
      Joined-move t (to_lock thread_finish) s.point (λ e. cc (at, e)) (λ e. cc) (Reach-Joined r)
  Reach-Joined (later {t = s} r (join_all at all)) =
      λ e x h. update-other 0 (x + 1) ended s.point (λ z. absurd (omega (arith, z))) ∙ all x h

  -- In no reachable state has `main` ended while some worker's lines are not its start and then its
  -- finish.
  ended-lines :
      {s : System mx asio} (x : ℕ)
      → Reach mx asio s
      → x < n_workers
      → ¬ ((s.point 0 ≡ ended) × (lines_of (x + 1) s.lines ≢ thread_start ∷ thread_finish ∷ []))
  ended-lines x r h (e, other) =
      other (said-Reach mx asio (x + 1) r ∙ ap said (Reach-Joined r e x h))
