-- ===== src/WorkQueue/Counter.antt =====
-- include/queue.hh: what happens when `m_unread` is not the number of elements.
use mathlib.Core.List.{reverse-cons, reverse-reverse}
use test_buffer.Prelude.{
  List, [], ap, append-nil, append_assoc, arith, get_elem?-none, inl, inr, length, length-reverse,
  length-take, refl, reverse, size_mod, some, take-all, undefined, value, ℕ, ◌%◌, ◌++◌, ◌+◌, ◌<◌,
  ◌∙◌, ◌∷◌, ◌≡◌, ◌≢◌, ◌≤◌,
}
use test_buffer.Boost.CircularBuffer.{CircularBuffer, empty-false}
use test_buffer.WorkQueue.{
  WorkQueue, with_capacity, dec_size, push, try_pop, wait_and_pop, take_unread,
}
use test_buffer.WorkQueue.Fifo.{IsSynced, pop-waiting, waiting}

not-nil {ℓ} : {A : Type ℓ} (xs : List A) → 0 < length xs → xs ≢ []
not-nil [] h = absurd (omega arith)
not-nil (x ∷ xs) h = λ e. cc

module _ {ℓ} {A : Type ℓ} (cb : CircularBuffer A) where
  open cb use {contents, capacity}

  -- A count whose predecessor is past the elements makes every pop read out of range.
  pop-undefined :
      (q : WorkQueue cb)
      → 0 < length (contents q.container)
      → length (contents q.container) ≤ dec_size q.unread
      → (try_pop cb q ≡ undefined) × (wait_and_pop cb q ≡ undefined)
  unfolding try_pop wait_and_pop take_unread
  pop-undefined q some_there h =
      let ne = empty-false cb q.container (not-nil _ some_there) in
      let miss = get_elem?-none (contents q.container) (dec_size q.unread) h in
      (rw (ne, cb.at-contents, miss), rw (ne, cb.at-contents, miss))

  -- A push on a full queue whose count was right overwrites the oldest element but counts it still:
  -- the next pop, of either kind, reads out of range.
  pub pop-push-full :
      (x : A) {q : WorkQueue cb}
      → IsSynced cb q
      → 0 < capacity q.container
      → length (contents q.container) ≡ capacity q.container
      → (try_pop cb (push cb x q) ≡ undefined) × (wait_and_pop cb (push cb x q) ≡ undefined)
  unfolding push
  pop-push-full x {q} s positive full =
      let kept : length (contents (cb.push_front x q.container)) ≡ capacity q.container =
        rw (cb.contents-push_front, length-take) (omega arith) in
      pop-undefined (push cb x q) (omega (arith, kept)) (omega (arith, kept, s.counted, s.small))

  pub push_all : List A → WorkQueue cb → WorkQueue cb
  push_all [] q = q
  push_all (x ∷ xs) q = push_all xs (push cb x q)

  first-popped :
      (q : WorkQueue cb) (x : A) (xs : List A)
      → IsSynced cb q
      → waiting cb q ≡ x ∷ xs
      → (q' : WorkQueue cb) × (try_pop cb q ≡ value (some x, q'))
  first-popped q x xs s order = elim (pop-waiting cb s) [
    | inl (none_there, _, _) ↦ cc
    | inr (y, q', p) ↦ (q', cc)
  ]

  push_all-state :
      (xs : List A) (q : WorkQueue cb)
      → length xs + length (contents q.container) ≤ capacity q.container
      → q.unread < size_mod
      → (contents (push_all xs q).container ≡ reverse xs ++ contents q.container)
        × ((push_all xs q).unread ≡ (q.unread + length xs) % size_mod)
        × (capacity (push_all xs q).container ≡ capacity q.container)
  unfolding push_all push
  push_all-state [] q room small = (refl, omega arith, refl)
  push_all-state (x ∷ xs) q room small =
      let fits : contents (cb.push_front x q.container) ≡ x ∷ contents q.container =
        cb.contents-push_front x q.container ∙ take-all _ _ (omega arith) in
      let (held, count, cap) =
        push_all-state xs (push cb x q)
          (omega (arith, ap length fits, cb.capacity-push_front x q.container)) (omega arith) in
      (
        held ∙ rw (fits, reverse-cons x xs, append_assoc (reverse xs) (x ∷ [])),
        omega (arith, count),
        cap ∙ cb.capacity-push_front x q.container,
      )

  new-state :
      (cap found : ℕ) (xs : List A)
      → length xs ≤ cap
      → found < size_mod
      → let q = push_all xs (with_capacity cb cap found) in
        (contents q.container ≡ reverse xs)
        × (q.unread ≡ (found + length xs) % size_mod)
        × (capacity q.container ≡ cap)
  unfolding with_capacity
  new-state cap found xs fits small =
      let start = with_capacity cb cap found in
      let nothing = cb.contents-with_capacity cap in
      let whole = cb.capacity-with_capacity cap in
      let (held, count, kept) =
        push_all-state xs start (omega (arith, ap length nothing, whole)) (omega arith) in
      (held ∙ rw (nothing, append-nil), count, kept ∙ whole)

  -- If the memory of a new queue's count held 0 and the capacity is below 2 ^ 64, then after pushes
  -- that fit, of `x` first, try_pop gives `x`.
  pub pop-with_capacity_zero :
      (cap : ℕ) (x : A) (xs : List A)
      → length (x ∷ xs) ≤ cap
      → cap < size_mod
      → (q' : WorkQueue cb) × (try_pop cb (push_all (x ∷ xs) (with_capacity cb cap 0))
          ≡ value (some x, q'))
  pop-with_capacity_zero cap x xs fits small =
      let (held, count, kept) = new-state cap 0 (x ∷ xs) fits (omega arith) in
      let held-length = ap length held ∙ length-reverse (x ∷ xs) in
      let q = push_all (x ∷ xs) (with_capacity cb cap 0) in
      let s : IsSynced cb q = record {
        counted = omega (arith, held-length, count);
        small = omega (arith, kept);
      } in
      let order : waiting cb q ≡ x ∷ xs = rw (held, reverse-reverse) in first-popped q x xs s order

  -- If the memory of a new queue's count held another value than 0, and the pushes did not take it
  -- past 2 ^ 64, the first pop of either kind after pushes that fit, one at least, reads out of range.
  pub pop-with_capacity_garbage :
      (cap found : ℕ) (xs : List A)
      → 0 < length xs
      → length xs ≤ cap
      → 0 < found
      → found + length xs ≤ size_mod
      → let q = push_all xs (with_capacity cb cap found) in
        (try_pop cb q ≡ undefined) × (wait_and_pop cb q ≡ undefined)
  pop-with_capacity_garbage cap found xs some_there fits positive no_wrap =
      let (held, count, _) = new-state cap found xs fits (omega arith) in
      let held-length = ap length held ∙ length-reverse xs in
      pop-undefined _ (omega (arith, held-length)) (omega (arith, held-length, count))
