-- ===== src/BufTest/Locking.antt =====
-- src/buf-test.cxx: the output under `global_stream_lock`, at each kind of step of one thread.
use test_buffer.Prelude.{
  Bool, List, [], ap, append-nil, append_assoc, false, inl, inr, refl, same_or_not, sym, true,
  update, update-other, update-same, ℕ, ◌++◌, ◌∙◌, ◌∷◌, ◌≡◌, ◌≢◌,
}
use test_buffer.BufTest.{
  Line, press_return, thread_start, thread_finish, Piece, pieces, Point, to_lock, writing, next,
}
use test_buffer.BufTest.Points.{is_in, left, unmade, Fresh, Points, Fresh-go_on}

-- The whole output of the lines.
abbrev pub flatten : List (ℕ × Line) → List Piece
flatten [] = []
flatten ((t, line) ∷ xs) = pieces t line ++ flatten xs

pub flatten-snoc :
    (xs : List (ℕ × Line)) (t : ℕ) (line : Line)
    → flatten (xs ++ (t, line) ∷ []) ≡ flatten xs ++ pieces t line
flatten-snoc [] t line = append-nil (pieces t line)
flatten-snoc ((u, l) ∷ xs) t line =
    ap (λ r. pieces u l ++ r) (flatten-snoc xs t line)
    ∙ sym (append_assoc (pieces u l) (flatten xs) (pieces t line))

pub record Inv (free : Bool) (f : Points) (out : List Piece) (lines : List (ℕ × Line))
    : Type 0 where
  pub exclusive : (t u : ℕ) → is_in (f t) ≡ true → is_in (f u) ≡ true → t ≡ u
  pub held : (t : ℕ) → is_in (f t) ≡ true → free ≡ false
  pub part : (t : ℕ) → is_in (f t) ≡ true → out ++ left (f t) ≡ flatten lines
  pub whole : free ≡ true → out ≡ flatten lines
  pub fresh : Fresh f

-- Whoever has the lock after a thread moved to a point without it had it before.
pub outside :
    (t : ℕ) (q : Point) (f : Points)
    → is_in q ≡ false
    → (u : ℕ) → is_in (update t q f u) ≡ true
    → (u ≢ t) × (update t q f u ≡ f u)
outside t q f o u h = elim (same_or_not t u) [
  | inl e ↦ cc (o, h, ap (update t q f) e, update-same t q f)
  | inr n ↦ (n, update-other t u q f n)
]

pub Inv-move :
    (t : ℕ) (q : Point) {free : Bool} {f : Points} {out : List Piece} {lines : List (ℕ × Line)}
    → is_in q ≡ false
    → Fresh (update t q f)
    → Inv free f out lines
    → Inv free (update t q f) out lines
Inv-move t q {free} {f} {out} {lines} o fresh v =
    let before : (u : ℕ) → is_in (update t q f u) ≡ true → is_in (f u) ≡ true =
      λ u h. sym (ap is_in (outside t q f o u h).1) ∙ h in
    record {
      exclusive = λ a b ha hb. v.exclusive a b (before a ha) (before b hb);
      held = λ a ha. v.held a (before a ha);
      part = λ a ha. ap (λ z. out ++ left z) (outside t q f o a ha).1 ∙ v.part a (before a ha);
      whole = v.whole;
      fresh = fresh;
    }

pub Inv-lock :
    (t : ℕ) (line : Line) {free : Bool} {f : Points} {out : List Piece} {lines : List (ℕ × Line)}
    → f t ≡ to_lock line
    → free ≡ true
    → Inv free f out lines
    → Inv false (update t (writing line (pieces t line)) f) out (lines ++ (t, line) ∷ [])
Inv-lock t line {free} {f} {out} {lines} at on v =
    let q = writing line (pieces t line) in
    let only : (u : ℕ) → is_in (update t q f u) ≡ true → u ≡ t = λ u h. elim (same_or_not t u) [
      | inl e ↦ e
      | inr n ↦ cc (on, v.held u (sym (ap is_in (update-other t u q f n)) ∙ h))
    ] in
    record {
      exclusive = λ a b ha hb. only a ha ∙ sym (only b hb);
      held = λ a ha. refl;
      part = λ a ha.
          ap (λ z. out ++ left z) (ap (update t q f) (only a ha) ∙ update-same t q f)
          ∙ (ap (λ z. z ++ pieces t line) (v.whole on) ∙ sym (flatten-snoc lines t line));
      whole = λ e. cc;
      fresh =
          Fresh-go_on t q f v.fresh (λ e. cc (at, e))
            (λ u h. ap (λ z. unmade z u) at ∙ locked line (pieces t line) u h);
    }
  where
    locked :
        (l : Line) (ps : List Piece) (u : ℕ)
        → unmade (writing l ps) u ≡ true
        → unmade (to_lock l) u ≡ true
    locked press_return ps u h = h
    locked thread_start ps u h = h
    locked thread_finish ps u h = h

pub Inv-insert :
    (t : ℕ) (line : Line) (p : Piece) (ps : List Piece) {free : Bool} {f : Points}
    {out : List Piece} {lines : List (ℕ × Line)}
    → f t ≡ writing line (p ∷ ps)
    → Inv free f out lines
    → Inv free (update t (writing line ps) f) (out ++ p ∷ []) lines
Inv-insert t line p ps {free} {f} {out} {lines} at v =
    let q = writing line ps in
    let inside : is_in (f t) ≡ true = ap is_in at in
    let only : (u : ℕ) → is_in (update t q f u) ≡ true → u ≡ t = λ u h. elim (same_or_not t u) [
      | inl e ↦ e
      | inr n ↦ v.exclusive u t (sym (ap is_in (update-other t u q f n)) ∙ h) inside
    ] in
    record {
      exclusive = λ a b ha hb. only a ha ∙ sym (only b hb);
      held = λ a ha. v.held t inside;
      part = λ a ha.
          ap (λ z. (out ++ p ∷ []) ++ left z) (ap (update t q f) (only a ha) ∙ update-same t q f)
          ∙ (append_assoc out (p ∷ []) ps ∙ (sym (ap (λ z. out ++ left z) at) ∙ v.part t inside));
      whole = λ e. cc (e, v.held t inside);
      fresh =
          Fresh-go_on t q f v.fresh (λ e. cc (at, e))
            (λ u h. ap (λ z. unmade z u) at ∙ wrote line u h);
    }
  where
    wrote :
        (l : Line) (u : ℕ) → unmade (writing l ps) u ≡ true → unmade (writing l (p ∷ ps)) u ≡ true
    wrote press_return u h = h
    wrote thread_start u h = h
    wrote thread_finish u h = h

pub next-out : (line : Line) → is_in (next line) ≡ false
unfolding next
next-out press_return = refl
next-out thread_start = refl
next-out thread_finish = refl

pub Inv-unlock :
    (t : ℕ) (line : Line) {free : Bool} {f : Points} {out : List Piece} {lines : List (ℕ × Line)}
    → f t ≡ writing line []
    → Inv free f out lines
    → Inv true (update t (next line) f) out lines
unfolding next
Inv-unlock t line {free} {f} {out} {lines} at v =
    let q = next line in
    let inside : is_in (f t) ≡ true = ap is_in at in
    let none_in : (u : ℕ) → is_in (update t q f u) ≡ true → true ≡ false = λ u h.
      let (n, same) = outside t q f (next-out line) u h in
      absurd (n (v.exclusive u t (sym (ap is_in same) ∙ h) inside)) in
    let all : out ≡ flatten lines =
      sym (append-nil out) ∙ (sym (ap (λ z. out ++ left z) at) ∙ v.part t inside) in
    record {
      exclusive = λ a b ha hb. cc (none_in a ha);
      held = none_in;
      part = λ a ha. cc (none_in a ha);
      whole = λ e. all;
      fresh =
          Fresh-go_on t q f v.fresh (λ e. cc (at, e))
            (λ u h. ap (λ z. unmade z u) at ∙ wrote line u h);
    }
  where
    wrote : (l : Line) (u : ℕ) → unmade (next l) u ≡ true → unmade (writing l []) u ≡ true
    wrote press_return u h = h
    wrote thread_start u h = cc
    wrote thread_finish u h = cc
