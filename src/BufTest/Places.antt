-- ===== src/BufTest/Places.antt =====
-- src/buf-test.cxx: at which points `main` stands, and at which its workers.
use test_buffer.Prelude.{
  Bool, List, [], ap, arith, false, inl, inr, leb, ltb, lt→ltb, refl, same_or_not, sym, true,
  update, update-cases, update-other, update-same, ℕ, ◌+◌, ◌<◌, ◌==◌, ◌∙◌, ◌≡◌, ◌≢◌,
}
use test_buffer.BufTest.{
  Line, press_return, thread_start, thread_finish, Piece, Point, absent, to_lock, writing, in_run,
  finished, creating, at_input, stopping, joining, ended, next,
}
use test_buffer.BufTest.Points.{Points}

-- The point is one of `main`, or one of a worker that there is.
abbrev pub at_place : Bool → Bool → Point → Bool
at_place true b (to_lock press_return) = true
at_place true b (writing press_return ps) = true
at_place true b (creating x) = true
at_place true b at_input = true
at_place true b stopping = true
at_place true b joining = true
at_place true b ended = true
at_place false b absent = true
at_place false true (to_lock thread_start) = true
at_place false true (to_lock thread_finish) = true
at_place false true (writing thread_start ps) = true
at_place false true (writing thread_finish ps) = true
at_place false true in_run = true
at_place false true finished = true
at_place _ _ _ = false

abbrev pub place : ℕ → Point → Bool
place u p = at_place (u == 0) (ltb u 5) p

-- With `main` at this point, it has made worker `u`.
abbrev pub made_by : Point → ℕ → Bool
made_by (creating x) u = leb u x
made_by at_input u = leb u 4
made_by stopping u = leb u 4
made_by joining u = leb u 4
made_by ended u = leb u 4
made_by _ u = false

-- With `main` at this point, the service is stopped.
abbrev pub off_at : Point → Bool
off_at joining = true
off_at ended = true
off_at _ = false

pub record Places (stopped : Bool) (f : Points) : Type 0 where
  pub placed : (u : ℕ) → place u (f u) ≡ true
  pub made : (u : ℕ) → 0 < u → made_by (f 0) u ≡ true → f u ≢ absent
  pub off : off_at (f 0) ≡ true → stopped ≡ true

pub at_place-unlock :
    (b c : Bool) (line : Line)
    → at_place b c (writing line []) ≡ true
    → at_place b c (next line) ≡ true
unfolding next
at_place-unlock true c press_return h = refl
at_place-unlock true c thread_start h = cc
at_place-unlock true c thread_finish h = cc
at_place-unlock false true press_return h = cc
at_place-unlock false false press_return h = cc
at_place-unlock false true thread_start h = refl
at_place-unlock false false thread_start h = cc
at_place-unlock false true thread_finish h = refl
at_place-unlock false false thread_finish h = cc

pub at_place-lock :
    (b c : Bool) (line : Line) (ps : List Piece)
    → at_place b c (writing line ps) ≡ at_place b c (to_lock line)
at_place-lock true c press_return ps = refl
at_place-lock true c thread_start ps = refl
at_place-lock true c thread_finish ps = refl
at_place-lock false true press_return ps = refl
at_place-lock false false press_return ps = refl
at_place-lock false true thread_start ps = refl
at_place-lock false false thread_start ps = refl
at_place-lock false true thread_finish ps = refl
at_place-lock false false thread_finish ps = refl

pub at_place-finish :
    (b c : Bool) → at_place b c in_run ≡ true → at_place b c (to_lock thread_finish) ≡ true
at_place-finish true c h = cc
at_place-finish false true h = refl
at_place-finish false false h = cc

pub next-there : (line : Line) → next line ≢ absent
unfolding next
next-there press_return e = cc
next-there thread_start e = cc
next-there thread_finish e = cc

pub next-makes_none : (line : Line) (u : ℕ) → 0 < u → made_by (next line) u ≢ true
unfolding next
next-makes_none press_return u h e = ground arith
next-makes_none thread_start u h e = cc
next-makes_none thread_finish u h e = cc

pub next-off : (line : Line) (q : Point) → off_at (next line) ≡ true → off_at q ≡ true
unfolding next
next-off press_return q h = cc
next-off thread_start q h = cc
next-off thread_finish q h = cc

-- The thread at `t` was there and goes on.
pub Places-move :
    (t : ℕ) (q : Point) {b : Bool} {f : Points}
    → f t ≢ absent
    → q ≢ absent
    → (place t (f t) ≡ true → place t q ≡ true)
    → ((u : ℕ) → 0 < u → made_by q u ≡ true → made_by (f t) u ≡ true)
    → (off_at q ≡ true → off_at (f t) ≡ true)
    → Places b f
    → Places b (update t q f)
Places-move t q {f = f} there here at back kept v = record {
  placed = update-cases (λ u p. place u p ≡ true) t q f (at (v.placed t)) (λ u n. v.placed u);
  made = λ u h m.
      let old : made_by (f 0) u ≡ true = elim (same_or_not t 0) [
        | inl e ↦
            ap (λ z. made_by (f z) u) e
            ∙ back u h (sym (ap (λ z. made_by z u) (ap (update t q f) e ∙ update-same t q f)) ∙ m)
        | inr n ↦ sym (ap (λ z. made_by z u) (update-other t 0 q f n)) ∙ m
      ] in
      update-cases (λ w p. f w ≢ absent → p ≢ absent) t q f (λ _. here) (λ w n k. k) u
        (v.made u h old);
  off = λ h. elim (same_or_not t 0) [
    | inl e ↦ v.off (
        ap (λ z. off_at (f z)) e
        ∙ kept (sym (ap off_at (ap (update t q f) e ∙ update-same t q f)) ∙ h))
    | inr n ↦ v.off (sym (ap off_at (update-other t 0 q f n)) ∙ h)
  ];
}

-- `main` makes worker `x + 1`, which was not there.
pub Places-make :
    (x : ℕ) {b : Bool} {f : Points}
    → f 0 ≡ creating x
    → x < 4
    → Places b f
    → Places b (update (x + 1) (to_lock thread_start) (update 0 (creating (x + 1)) f))
Places-make x {f = f} at more v =
    let f1 = update 0 (creating (x + 1)) f in
    let first : update (x + 1) (to_lock thread_start) f1 0 ≡ creating (x + 1) =
      update-other (x + 1) 0 (to_lock thread_start) f1 (λ z. absurd (omega (arith, z)))
      ∙ update-same 0 (creating (x + 1)) f in
    let no : (x + 1 == 0) ≡ false = ground arith in
    record {
      placed =
          update-cases (λ u p. place u p ≡ true) (x + 1) (to_lock thread_start) f1
            (cc (no, lt→ltb (x + 1) 5 (omega (arith, more))))
            (λ u n.
              update-cases (λ u p. place u p ≡ true) 0 (creating (x + 1)) f refl (λ u n. v.placed u)
                u);
      made = λ u h m. elim (same_or_not (x + 1) u) [
        | inl e ↦ λ k. cc (
          k,
          ap (update (x + 1) (to_lock thread_start) f1) e,
          update-same (x + 1) (to_lock thread_start) f1,
        )
        | inr n ↦ λ k.
            v.made u h
              (ap (λ z. made_by z u) at ∙ ground (arith, sym (ap (λ z. made_by z u) first) ∙ m))
              (sym (update-other 0 u (creating (x + 1)) f (λ z. absurd (omega (arith, z, h))))
                ∙ (sym (update-other (x + 1) u (to_lock thread_start) f1 n) ∙ k))
      ];
      off = λ h. cc (ap off_at first, h);
    }

pub Places-stop :
    {b : Bool} {f : Points} → f 0 ≡ stopping → Places b f → Places true (update 0 joining f)
Places-stop {f = f} at v = record {
  placed = update-cases (λ u p. place u p ≡ true) 0 joining f refl (λ u n. v.placed u);
  made = λ u h m.
      update-cases (λ w p. f w ≢ absent → p ≢ absent) 0 joining f (λ _ e. cc) (λ w n k. k) u
        (v.made u h
          (ap (λ z. made_by z u) at ∙ (sym (ap (λ z. made_by z u) (update-same 0 joining f)) ∙ m)));
  off = λ h. refl;
}
