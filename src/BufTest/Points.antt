-- ===== src/BufTest/Points.antt =====
-- src/buf-test.cxx: where the threads stand, and which are not made yet.
use test_buffer.Prelude.{
  Bool, List, [], ap, arith, false, inl, inr, ltb, same_or_not, sym, true, update, update-other,
  update-same, ℕ, ◌<◌, ◌∙◌, ◌≡◌, ◌≢◌,
}
use test_buffer.BufTest.{press_return, Piece, Point, absent, to_lock, writing, creating}

-- The thread has the lock.
abbrev pub is_in : Point → Bool
is_in (writing line ps) = true
is_in _ = false

abbrev pub left : Point → List Piece
left (writing line ps) = ps
left _ = []

-- With `main` at this point, thread `u` is a worker that is not made yet.
abbrev pub unmade : Point → ℕ → Bool
unmade (to_lock press_return) u = ltb 0 u
unmade (writing press_return ps) u = ltb 0 u
unmade (creating x) u = ltb x u
unmade _ u = false

abbrev pub Points : Type 0
Points = ℕ → Point

abbrev pub Fresh : Points → Type 0
Fresh f = (u : ℕ) → unmade (f 0) u ≡ true → f u ≡ absent

-- The thread at `t` was there and goes on.
pub Fresh-go_on :
    (t : ℕ) (q : Point) (f : Points)
    → Fresh f
    → f t ≢ absent
    → ((u : ℕ) → unmade q u ≡ true → unmade (f t) u ≡ true)
    → Fresh (update t q f)
Fresh-go_on t q f fresh there back u h =
    let gone : f u ≡ absent = elim (same_or_not t 0) [
      | inl e ↦ fresh u (
          ap (λ z. unmade (f z) u) e
          ∙ back u (sym (ap (λ z. unmade z u) (ap (update t q f) e ∙ update-same t q f)) ∙ h))
      | inr n ↦ fresh u (sym (ap (λ z. unmade z u) (update-other t 0 q f n)) ∙ h)
    ] in
    elim (same_or_not t u) [
      | inl e ↦ absurd (there (sym (ap f e) ∙ gone))
      | inr n ↦ update-other t u q f n ∙ gone
    ]

-- A worker `t` is made.
pub Fresh-make :
    (t : ℕ) (q : Point) (f : Points)
    → Fresh f
    → 0 < t
    → unmade (f 0) t ≡ false
    → Fresh (update t q f)
Fresh-make t q f fresh positive made u h =
    let first = update-other t 0 q f (λ e. absurd (omega (arith, e))) in
    let h' : unmade (f 0) u ≡ true = sym (ap (λ z. unmade z u) first) ∙ h in
    elim (same_or_not t u) [
      | inl e ↦ cc (made, h', e)
      | inr n ↦ update-other t u q f n ∙ fresh u h'
    ]
