-- ===== src/BufTest/Running.antt =====
-- src/buf-test.cxx: how many steps the program takes.
use test_buffer.Prelude.{
  Bool-cases, [], ap, arith, false, inl, inr, length, ltb, lt→ltb, refl, same_or_not, suc, sym,
  true, update, update-other, update-same, zero, ℕ, ◌+◌, ◌-◌, ◌<◌, ◌==◌, ◌∙◌, ◌∷◌, ◌≡◌, ◌≢◌, ◌≤◌,
  ◌⊎◌,
}
use test_buffer.Boost.Asio.{IoService}
use test_buffer.Boost.Threads.{Mutex}
use test_buffer.BufTest.{
  Handler, Line, press_return, thread_start, thread_finish, Point, absent, to_lock, writing, in_run,
  finished, creating, at_input, stopping, joining, ended, next, System, Step, lock, insert, unlock,
  create_thread, pieces, end_creating, get, stop, leave_run, join_all, Reach, start, later,
  first_point, Steps,
}
use test_buffer.BufTest.Points.{Points, unmade}
use test_buffer.BufTest.Output.{Reach-Valid}
use test_buffer.BufTest.Placed.{Reach-Places}
use test_buffer.BufTest.Places.{at_place, place}
use test_buffer.BufTest.End.{Reach-Joined}
use test_buffer.BufTest.Progress.{progress}

-- How many steps a thread at a point has before it; the one that makes a worker is counted for
-- `main`.
abbrev after_line : Line → ℕ
after_line press_return = 8
after_line thread_start = 7
after_line thread_finish = 0

abbrev ahead : Point → ℕ
ahead absent = 13
ahead (to_lock line) = after_line line + 6
ahead (writing line ps) = after_line line + length ps + 1
ahead in_run = 7
ahead finished = 0
ahead (creating x) = 4 + (4 - x)
ahead at_input = 3
ahead stopping = 2
ahead joining = 1
ahead ended = 0

-- The steps that the first `n` threads have before them.
all_ahead : ℕ → Points → ℕ
all_ahead zero f = 0
all_ahead (suc n) f = all_ahead n f + ahead (f n)

all_ahead-outside :
    (n t : ℕ) (q : Point) (f : Points) → n ≤ t → all_ahead n (update t q f) ≡ all_ahead n f
unfolding all_ahead
all_ahead-outside zero t q f h = refl
all_ahead-outside (suc n) t q f h =
    let same = update-other t n q f (λ e. absurd (omega (arith, e, h))) in
    rw (all_ahead-outside n t q f (omega (arith, h)), same)

all_ahead-update :
    (n t : ℕ) (q : Point) (f : Points)
    → t < n
    → all_ahead n (update t q f) + ahead (f t) ≡ all_ahead n f + ahead q
unfolding all_ahead
all_ahead-update zero t q f h = absurd (omega (arith, h))
all_ahead-update (suc n) t q f h = elim (same_or_not n t) [
  | inl e ↦ omega (
    arith,
    all_ahead-outside n t q f (omega (arith, e)),
    ap ahead (ap (update t q f) (sym e) ∙ update-same t q f),
    ap (λ z. ahead (f z)) e,
  )
  | inr n' ↦ omega (
    arith,
    all_ahead-update n t q f (omega (arith, h, n')),
    ap ahead (update-other t n q f (λ e. n' (sym e))),
  )
]

-- One step fewer.
all_ahead-move :
    (t : ℕ) (p q : Point) (f : Points)
    → f t ≡ p
    → t < 5
    → ahead p ≡ ahead q + 1
    → all_ahead 5 f ≡ all_ahead 5 (update t q f) + 1
all_ahead-move t p q f at small less =
    omega (arith, all_ahead-update 5 t q f small, ap ahead at, less)

ahead-next : (line : Line) → ahead (next line) ≡ after_line line
unfolding next
ahead-next press_return = refl
ahead-next thread_start = refl
ahead-next thread_finish = refl

nobody : (p : Point) → at_place false false p ≡ true → p ≡ absent
nobody absent h = refl
nobody (to_lock press_return) h = cc
nobody (to_lock thread_start) h = cc
nobody (to_lock thread_finish) h = cc
nobody (writing press_return ps) h = cc
nobody (writing thread_start ps) h = cc
nobody (writing thread_finish ps) h = cc
nobody in_run h = cc
nobody finished h = cc
nobody (creating x) h = cc
nobody at_input h = cc
nobody stopping h = cc
nobody joining h = cc
nobody ended h = cc

-- There are five threads.
is_thread : (f : Points) (t : ℕ) → place t (f t) ≡ true → f t ≢ absent → t < 5
is_thread f t h there = elim (Bool-cases (ltb t 5)) [
  | inl small ↦ ground (arith, small)
  | inr large ↦
      let worker : (t == 0) ≡ false = ground (arith, large) in
      absurd (there (nobody (f t) (cc (h, worker, large))))
]

module _ (mx : Mutex) (asio : IoService Handler) where
  abbrev pub n_steps : {s t : System mx asio} → Steps mx asio s t → ℕ
  n_steps start = 0
  n_steps (later r st) = n_steps r + 1

  -- Every step makes the number of steps ahead one smaller.
  Step-ahead :
      {s t : System mx asio}
      → Reach mx asio s
      → Step mx asio s t
      → all_ahead 5 s.point ≡ all_ahead 5 t.point + 1
  unfolding pieces
  Step-ahead {s} r (lock t line at free) =
      all_ahead-move t (to_lock line) (writing line (pieces t line)) s.point at
        (is_thread s.point t ((Reach-Places mx asio r).placed t) (λ e. cc (at, e))) (omega arith)
  Step-ahead {s} r (insert t line p ps at) =
      all_ahead-move t (writing line (p ∷ ps)) (writing line ps) s.point at
        (is_thread s.point t ((Reach-Places mx asio r).placed t) (λ e. cc (at, e))) (omega arith)
  Step-ahead {s} r (unlock t line at) =
      all_ahead-move t (writing line []) (next line) s.point at
        (is_thread s.point t ((Reach-Places mx asio r).placed t) (λ e. cc (at, e)))
        (omega (arith, ahead-next line))
  Step-ahead {s} r (create_thread x at more) =
      let gone : s.point (x + 1) ≡ absent =
        (Reach-Valid mx asio r).fresh (x + 1)
          (ap (λ z. unmade z (x + 1)) at ∙ lt→ltb x (x + 1) (omega arith)) in
      let apart =
        update-other 0 (x + 1) (creating (x + 1)) s.point (λ e. absurd (omega (arith, e))) in
      omega (
        arith,
        more,
        all_ahead-move 0 (creating x) (creating (x + 1)) s.point at (omega arith)
            (omega (arith, more)),
        all_ahead-update 5 (x + 1) (to_lock thread_start) (update 0 (creating (x + 1)) s.point)
            (omega (arith, more)),
        ap ahead (apart ∙ gone),
      )
  Step-ahead {s} r (end_creating x at no_more) =
      all_ahead-move 0 (creating x) at_input s.point at (omega arith) (omega (arith, no_more))
  Step-ahead {s} r (get at) = all_ahead-move 0 at_input stopping s.point at (omega arith) refl
  Step-ahead {s} r (stop at) = all_ahead-move 0 stopping joining s.point at (omega arith) refl
  Step-ahead {s} r (leave_run t at off) =
      all_ahead-move t in_run (to_lock thread_finish) s.point at
        (is_thread s.point t ((Reach-Places mx asio r).placed t) (λ e. cc (at, e))) refl
  Step-ahead {s} r (join_all at all) = all_ahead-move 0 joining ended s.point at (omega arith) refl

  n_steps-Reach : {s : System mx asio} (r : Reach mx asio s) → n_steps r + all_ahead 5 s.point ≡ 66
  unfolding all_ahead first_point
  n_steps-Reach start = refl
  n_steps-Reach (later r st) = omega (arith, n_steps-Reach r, Step-ahead r st)

  -- When `main` has ended, no thread has a step ahead.
  all_ahead-ended :
      {s : System mx asio} → Reach mx asio s → s.point 0 ≡ ended → all_ahead 5 s.point ≡ 0
  unfolding all_ahead
  all_ahead-ended {s} r e =
      let joined = Reach-Joined mx asio r e in
      omega (
        arith,
        ap ahead e,
        ap ahead (joined 0 (omega arith)),
        ap ahead (joined 1 (omega arith)),
        ap ahead (joined 2 (omega arith)),
        ap ahead (joined 3 (omega arith)),
      )

  -- However the threads take turns, the program ends: no run has more than 66 steps, with the read of
  -- the return key one of them, and from every state that a run reaches another step is possible,
  -- unless `main` has ended, after 66 steps.
  pub steps-Reach :
      {s : System mx asio} (r : Reach mx asio s)
      → (n_steps r ≤ 66)
        × (((s.point 0 ≡ ended) × (n_steps r ≡ 66)) ⊎ ((t : System mx asio) × Step mx asio s t))
  steps-Reach r = (
    omega (arith, n_steps-Reach r),
    elim (progress mx asio r) [
      | inl e ↦ inl (e, omega (arith, n_steps-Reach r, all_ahead-ended r e))
      | inr st ↦ inr st
    ],
  )
