-- ===== src/BufTest/Lines.antt =====
-- src/buf-test.cxx: which lines each thread prints, and in which order.
use test_buffer.Prelude.{
  Bool-cases, List, [], ap, arith, if◌then◌else◌, inl, inr, lt→ltb, refl, same_or_not, suc, sym,
  update, update-other, update-same, zero, ℕ, ◌++◌, ◌+◌, ◌==◌, ◌∙◌, ◌∷◌, ◌≡◌, ◌≢◌,
}
use test_buffer.Boost.Asio.{IoService}
use test_buffer.Boost.Threads.{Mutex}
use test_buffer.BufTest.{
  Line, press_return, thread_start, thread_finish, Piece, pieces, Point, absent, to_lock, writing,
  in_run, finished, creating, at_input, stopping, joining, ended, next, first_point, System, Step,
  lock, insert, unlock, create_thread, end_creating, get, stop, leave_run, join_all, Reach, start,
  later, Handler,
}
use test_buffer.BufTest.Points.{Points, unmade}
use test_buffer.BufTest.Locking.{Inv}
use test_buffer.BufTest.Output.{Reach-Valid}

-- The lines of thread `t`.
abbrev pub lines_of : ℕ → List (ℕ × Line) → List Line
lines_of t [] = []
lines_of t ((u, line) ∷ xs) = let rest = lines_of t xs in if t == u then line ∷ rest else rest

-- The lines that a thread has begun when it stands at a point.
abbrev pub said : Point → List Line
said absent = []
said (to_lock press_return) = []
said (to_lock thread_start) = []
said (to_lock thread_finish) = thread_start ∷ []
said (writing press_return ps) = press_return ∷ []
said (writing thread_start ps) = thread_start ∷ []
said (writing thread_finish ps) = thread_start ∷ thread_finish ∷ []
said in_run = thread_start ∷ []
said finished = thread_start ∷ thread_finish ∷ []
said _ = press_return ∷ []

said-writing :
    (line : Line) (ps : List Piece) → said (writing line ps) ≡ said (to_lock line) ++ line ∷ []
said-writing press_return ps = refl
said-writing thread_start ps = refl
said-writing thread_finish ps = refl

said-next : (line : Line) (ps qs : List Piece) → said (next line) ≡ said (writing line ps)
unfolding next
said-next press_return ps qs = refl
said-next thread_start ps qs = refl
said-next thread_finish ps qs = refl

lines_of-same :
    (xs : List (ℕ × Line)) (t : ℕ) (line : Line)
    → lines_of t (xs ++ (t, line) ∷ []) ≡ lines_of t xs ++ line ∷ []
lines_of-same [] t line = ground arith
lines_of-same ((u, l) ∷ xs) t line = elim (Bool-cases (t == u)) [
  | inl e ↦ rw (e, lines_of-same xs t line)
  | inr e ↦ rw (e, lines_of-same xs t line)
]

lines_of-other :
    (xs : List (ℕ × Line)) (t u : ℕ) (line : Line)
    → u ≢ t
    → lines_of u (xs ++ (t, line) ∷ []) ≡ lines_of u xs
lines_of-other [] t u line n = ground arith
lines_of-other ((w, l) ∷ xs) t u line n = elim (Bool-cases (u == w)) [
  | inl e ↦ rw (e, lines_of-other xs t u line n)
  | inr e ↦ rw (e, lines_of-other xs t u line n)
]

abbrev Told : Points → List (ℕ × Line) → Type 0
Told f xs = (u : ℕ) → lines_of u xs ≡ said (f u)

-- A thread that moves without beginning a line.
Told-move :
    (t : ℕ) (q : Point) (f : Points) (xs : List (ℕ × Line))
    → said q ≡ said (f t)
    → Told f xs
    → Told (update t q f) xs
Told-move t q f xs same told u = elim (same_or_not t u) [
  | inl e ↦
      told u
      ∙ (ap (λ z. said (f z)) e
          ∙ (sym same ∙ sym (ap said (ap (update t q f) e ∙ update-same t q f))))
  | inr n ↦ told u ∙ sym (ap said (update-other t u q f n))
]

-- A thread that begins a line.
Told-lock :
    (t : ℕ) (line : Line) (ps : List Piece) (f : Points) (xs : List (ℕ × Line))
    → f t ≡ to_lock line
    → Told f xs
    → Told (update t (writing line ps) f) (xs ++ (t, line) ∷ [])
Told-lock t line ps f xs at told u =
    let q = writing line ps in
    let mine : lines_of t (xs ++ (t, line) ∷ []) ≡ said (update t q f t) =
      lines_of-same xs t line
      ∙ (ap (λ z. z ++ line ∷ []) (told t ∙ ap said at)
          ∙ (sym (said-writing line ps) ∙ sym (ap said (update-same t q f)))) in
    elim (same_or_not t u) [
      | inl e ↦
          ap (λ z. lines_of z (xs ++ (t, line) ∷ [])) e
          ∙ (mine ∙ sym (ap (λ z. said (update t q f z)) e))
      | inr n ↦ lines_of-other xs t u line n ∙ (told u ∙ sym (ap said (update-other t u q f n)))
    ]

module _ (mx : Mutex) (asio : IoService Handler) where
  first-Told : Told (first_point mx asio) []
  unfolding first_point
  first-Told zero = refl
  first-Told (suc u) = refl

  Step-Told :
      {s t : System mx asio}
      → Step mx asio s t
      → Inv (mx.is_free s.stream_lock) s.point s.output s.lines
      → Told s.point s.lines
      → Told t.point t.lines
  Step-Told {s} (lock t line at free) v told =
      Told-lock t line (pieces t line) s.point s.lines at told
  Step-Told {s} (insert t line p ps at) v told =
      Told-move t (writing line ps) s.point s.lines
        (said-writing line ps ∙ sym (ap said at ∙ said-writing line _)) told
  Step-Told {s} (unlock t line at) v told =
      Told-move t (next line) s.point s.lines (said-next line [] [] ∙ sym (ap said at)) told
  Step-Told {s} (create_thread x at more) v told =
      let gone : s.point (x + 1) ≡ absent =
        v.fresh (x + 1) (ap (λ z. unmade z (x + 1)) at ∙ lt→ltb x (x + 1) (omega arith)) in
      let apart =
        update-other 0 (x + 1) (creating (x + 1)) s.point (λ e. absurd (omega (arith, e))) in
      Told-move (x + 1) (to_lock thread_start) (update 0 (creating (x + 1)) s.point) s.lines
        (sym (ap said (apart ∙ gone)))
        (Told-move 0 (creating (x + 1)) s.point s.lines (sym (ap said at)) told)
  Step-Told {s} (end_creating x at no_more) v told =
      Told-move 0 at_input s.point s.lines (sym (ap said at)) told
  Step-Told {s} (get at) v told = Told-move 0 stopping s.point s.lines (sym (ap said at)) told
  Step-Told {s} (stop at) v told = Told-move 0 joining s.point s.lines (sym (ap said at)) told
  Step-Told {s} (leave_run t at off) v told =
      Told-move t (to_lock thread_finish) s.point s.lines (sym (ap said at)) told
  Step-Told {s} (join_all at all) v told = Told-move 0 ended s.point s.lines (sym (ap said at)) told

  -- In every reachable state the lines that each thread has begun are those that come before the point
  -- where it stands: `main` its one line, and a worker its start, and later its finish, each once.
  pub said-Reach :
      {s : System mx asio} (t : ℕ) → Reach mx asio s → lines_of t s.lines ≡ said (s.point t)
  said-Reach t start = first-Told t
  said-Reach t (later r st) = Step-Told st (Reach-Valid mx asio r) (λ u. said-Reach u r) t
