-- ===== src/BoundedBuffer/Window.antt =====
-- include/bounded_buffer.hh: which elements the buffer holds after pushes.
use test_buffer.Prelude.{
  List, [], append-nil, append_assoc, arith, refl, reverse, sym, take, take-all, take-append-take,
  ℕ, ◌++◌, ◌∙◌, ◌∷◌, ◌≡◌,
}
use test_buffer.Boost.CircularBuffer.{CircularBuffer, length-contents-le}
use mathlib.Core.List.{reverse-cons}
use test_buffer.BoundedBuffer.{BoundedBuffer, with_capacity, push_front}

module _ {ℓ} {A : Type ℓ} (cb : CircularBuffer A) where
  open cb use {contents, capacity}

  -- Items pushed one after the other.
  pub push_all : List A → BoundedBuffer cb → BoundedBuffer cb
  push_all [] b = b
  push_all (x ∷ xs) b = push_all xs (push_front cb x b)

  pub push_all-nil : (b : BoundedBuffer cb) → push_all [] b ≡ b
  unfolding push_all
  push_all-nil b = refl

  pub push_all-push_front :
      (x : A) (xs : List A) (b : BoundedBuffer cb)
      → push_all xs (push_front cb x b) ≡ push_all (x ∷ xs) b
  unfolding push_all
  push_all-push_front x xs b = refl

  pub push_all-append :
      (xs ys : List A) (b : BoundedBuffer cb) → push_all (xs ++ ys) b ≡ push_all ys (push_all xs b)
  unfolding push_all
  push_all-append [] ys b = refl
  push_all-append (x ∷ xs) ys b = push_all-append xs ys (push_front cb x b)

  pub capacity-push_all :
      (xs : List A) (b : BoundedBuffer cb)
      → capacity (push_all xs b).container ≡ capacity b.container
  unfolding push_all push_front
  capacity-push_all [] b = refl
  capacity-push_all (x ∷ xs) b =
      capacity-push_all xs (push_front cb x b) ∙ cb.capacity-push_front x b.container

  -- The buffer keeps the newest elements, the newest at the front.
  pub contents-push_all_onto :
      (xs : List A) (b : BoundedBuffer cb)
      → contents (push_all xs b).container
        ≡ take (capacity b.container) (reverse xs ++ contents b.container)
  unfolding push_all push_front
  contents-push_all_onto [] b = sym (take-all _ _ (length-contents-le cb b.container))
  contents-push_all_onto (x ∷ xs) b =
      rw
        (
          contents-push_all_onto xs (push_front cb x b),
          cb.capacity-push_front,
          cb.contents-push_front,
          reverse-cons x xs,
          append_assoc (reverse xs) (x ∷ []) (contents b.container),
        )
        (take-append-take (capacity b.container) (capacity b.container) (reverse xs)
          (x ∷ contents b.container) (omega arith))

  -- A buffer made for `cap` elements holds, after the pushes of `xs`, the newest `cap` of them with
  -- the newest at the front, and its capacity is still `cap`.
  pub contents-push_all :
      (cap : ℕ) (xs : List A)
      → let b = push_all xs (with_capacity cb cap) in
        (contents b.container ≡ take cap (reverse xs)) × (capacity b.container ≡ cap)
  unfolding with_capacity
  contents-push_all cap xs = (
    rw (
      contents-push_all_onto xs (with_capacity cb cap),
      cb.capacity-with_capacity,
      cb.contents-with_capacity,
      append-nil,
    ),
    capacity-push_all xs (with_capacity cb cap) ∙ cb.capacity-with_capacity cap,
  )
