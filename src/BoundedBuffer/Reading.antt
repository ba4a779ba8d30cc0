-- ===== src/BoundedBuffer/Reading.antt =====
-- include/bounded_buffer.hh: what pop_back reads, and what the tests of the class say.
use test_buffer.Prelude.{
  List, Option, Option-cases, Outcome, [], ap, arith, false, get_elem?, get_elem?-ne-none,
  get_last?, get_last?-take-reverse, inl, inr, last-nil, length, none, refl, replicate, some, suc,
  true, value, waits, zero, ℕ, ◌-◌, ◌<◌, ◌>>=◌, ◌↔◌, ◌∙◌, ◌∷◌, ◌≡◌, ◌≢◌,
}
use test_buffer.Boost.CircularBuffer.{CircularBuffer, empty-true, empty-false}
use test_buffer.BoundedBuffer.{
  BoundedBuffer, with_capacity, push_front, pop_back, is_not_empty, is_not_full,
}
use test_buffer.BoundedBuffer.Window.{push_all, contents-push_all}

not-nil {ℓ} : {A : Type ℓ} {x : A} (xs : List A) → get_last? xs ≡ some x → xs ≢ []
not-nil [] h = cc
not-nil (y ∷ ys) h = λ e. cc

module _ {ℓ} {A : Type ℓ} (cb : CircularBuffer A) where
  open cb use {contents}

  pub pop_back-last :
      (b : BoundedBuffer cb) (x : A)
      → get_last? (contents b.container) ≡ some x
      → pop_back cb b ≡ value (x, b)
  unfolding pop_back
  pop_back-last b x h = rw (empty-false cb b.container (not-nil _ h), cb.back-contents, h)

  pub pop_back-empty : (b : BoundedBuffer cb) → contents b.container ≡ [] → pop_back cb b ≡ waits
  unfolding pop_back
  pop_back-empty b h = rw (empty-true cb b.container h)

  -- Some number of reads in a row.
  pub pop_times : ℕ → BoundedBuffer cb → Outcome (List A × BoundedBuffer cb)
  pop_times zero b = value ([], b)
  pop_times (suc n) b = do (x, b') ← pop_back cb b; (xs, b'') ← pop_times n b'; value (x ∷ xs, b'')

  pop_times-last :
      (n : ℕ) (b : BoundedBuffer cb) (x : A)
      → get_last? (contents b.container) ≡ some x
      → pop_times n b ≡ value (replicate n x, b)
  unfolding pop_times
  pop_times-last zero b x h = refl
  pop_times-last (suc n) b x h = rw (pop_back-last b x h, pop_times-last n b x h)

  -- What `n` reads give, told by the oldest element.
  abbrev pub repeated : ℕ → BoundedBuffer cb → Option A → Outcome (List A × BoundedBuffer cb)
  repeated n b none = waits
  repeated n b (some x) = value (replicate n x, b)

  -- pop_back waits exactly when the buffer is empty; otherwise it gives the oldest element and leaves
  -- it in the buffer: any number of calls in a row, one at least, all give that same element, and the
  -- buffer is unchanged after them.
  pub pop_times_lem :
      (n : ℕ) (b : BoundedBuffer cb)
      → pop_times (suc n) b ≡ repeated (suc n) b (get_last? (contents b.container))
  unfolding pop_times
  pop_times_lem n b = elim (Option-cases (get_last? (contents b.container))) [
    | inl e ↦ rw (e, pop_back-empty b (last-nil _ e))
    | inr (x, e) ↦ rw (e, pop_back-last b x e, pop_times-last n b x e)
  ]

  -- After the pushes of `xs`, not none, on a buffer made for `cap` > 0 elements, pop_back gives the
  -- element of `xs` at index `length xs - cap`, or the first one if `xs` has no more than `cap`, and
  -- does not change the buffer.
  pub pop_back-push_all :
      (cap : ℕ) (xs : List A)
      → 0 < cap
      → 0 < length xs
      → let b = push_all cb xs (with_capacity cb cap) in
        (x : A) × (get_elem? xs (length xs - cap) ≡ some x) × (pop_back cb b ≡ value (x, b))
  pop_back-push_all cap xs h p =
      let b = push_all cb xs (with_capacity cb cap) in
      let e : get_last? (contents b.container) ≡ get_elem? xs (length xs - cap) =
        ap get_last? (contents-push_all cb cap xs).0 ∙ get_last?-take-reverse xs cap h p in
      elim (Option-cases (get_elem? xs (length xs - cap))) [
        | inl miss ↦ absurd (get_elem?-ne-none xs (length xs - cap) (omega arith) miss)
        | inr (x, hit) ↦ (x, hit, pop_back-last b x (e ∙ hit))
      ]

  -- States that calls of push_front and pop_back lead to, in any order.
  pub data Reach (cap : ℕ) : BoundedBuffer cb → Type ℓ where
    start : Reach cap (with_capacity cb cap)
    pushed : {b : BoundedBuffer cb} (x : A) → Reach cap b → Reach cap (push_front cb x b)
    popped :
        {b b' : BoundedBuffer cb} (x : A)
        → Reach cap b
        → pop_back cb b ≡ value (x, b')
        → Reach cap b'

  pop_back-same : (b b' : BoundedBuffer cb) (x : A) → pop_back cb b ≡ value (x, b') → b' ≡ b
  unfolding pop_back
  pop_back-same b b' x h = ground arith

  Reach-unread :
      (cap : ℕ) {b : BoundedBuffer cb}
      → Reach cap b
      → (b.unread ≡ 0) × (cb.capacity b.container ≡ cap)
  unfolding with_capacity push_front
  Reach-unread cap start = (refl, cb.capacity-with_capacity cap)
  Reach-unread cap (pushed {b} x r) =
      ((Reach-unread cap r).0, cb.capacity-push_front x b.container ∙ (Reach-unread cap r).1)
  Reach-unread cap (popped {b} {b'} x r e) = rw (pop_back-same b b' x e) (Reach-unread cap r)

  -- However the buffer is used, `m_unread` stays 0: is_not_empty is always false, also on a buffer
  -- that holds elements, and is_not_full is true exactly when the capacity is positive, also on a
  -- full buffer.
  pub is_not_empty-Reach :
      (cap : ℕ) {b : BoundedBuffer cb}
      → Reach cap b
      → (is_not_empty cb b ≡ false) × ((is_not_full cb b ≡ true) ↔ (0 < cap))
  unfolding is_not_empty is_not_full
  is_not_empty-Reach cap r =
      rw ((Reach-unread cap r).0, (Reach-unread cap r).1) (refl, ground arith)
