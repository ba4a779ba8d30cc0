-- ===== src/WorkQueue/Fifo.antt =====
-- include/queue.hh: the class beside a first-in first-out list, while `m_unread` counts the elements.
use mathlib.Core.List.{reverse-cons}
use test_buffer.Prelude.{
  List, Option, Outcome, [], ap, arith, drop_last, drop_last-append_one, get_elem?-append_one, inl,
  inr, last-cases, length, length-append, length-reverse, none, refl, reverse, reverse-append,
  size_mod, some, take-all, value, waits, ℕ, ◌++◌, ◌<◌, ◌>>=◌, ◌∙◌, ◌∷◌, ◌≡◌, ◌≢◌, ◌≤◌, ◌⊎◌,
}
use test_buffer.Boost.CircularBuffer.{CircularBuffer, empty-true, empty-false}
use test_buffer.WorkQueue.{WorkQueue, dec_size, push, try_pop, wait_and_pop, take_unread}

-- What a client asks of a queue, and the queue without representation: the oldest element first.
pub data Op {ℓ} (A : Type ℓ) : Type ℓ where
  put : A → Op A
  get : Op A

module _ {ℓ} {A : Type ℓ} where
  -- The replies of the calls of try_pop.
  unfoldable pub spec_run : List A → List (Op A) → List (Option A)
  spec_run xs [] = []
  spec_run xs (put x ∷ ops) = spec_run (xs ++ x ∷ []) ops
  spec_run [] (get ∷ ops) = none ∷ spec_run [] ops
  spec_run (x ∷ xs) (get ∷ ops) = some x ∷ spec_run xs ops

  -- No push meets a queue of `cap` elements.
  abbrev pub Fits : ℕ → List A → List (Op A) → Type 0
  Fits cap xs [] = Unit
  Fits cap xs (put x ∷ ops) = (length xs < cap) × Fits cap (xs ++ x ∷ []) ops
  Fits cap [] (get ∷ ops) = Fits cap [] ops
  Fits cap (x ∷ xs) (get ∷ ops) = Fits cap xs ops

module _ {ℓ} {A : Type ℓ} (cb : CircularBuffer A) where
  open cb use {contents, capacity}

  -- The elements, the oldest first.
  abbrev pub waiting : WorkQueue cb → List A
  waiting q = reverse (contents q.container)

  pub record IsSynced (q : WorkQueue cb) : Type 0 where
    pub counted : q.unread ≡ length (contents q.container)
    pub small : capacity q.container < size_mod

  within : (q : WorkQueue cb) → length (contents q.container) ≤ capacity q.container
  within q = omega (arith, cb.size-contents q.container, cb.size-le-capacity q.container)

  -- A push with room adds the element behind the others and keeps the count.
  pub push-waiting :
      (x : A) {q : WorkQueue cb}
      → IsSynced q
      → length (waiting q) < capacity q.container
      → IsSynced (push cb x q)
        × (waiting (push cb x q) ≡ waiting q ++ x ∷ [])
        × (capacity (push cb x q).container ≡ capacity q.container)
  unfolding push
  push-waiting x {q} s room =
      let fits : contents (cb.push_front x q.container) ≡ x ∷ contents q.container =
        cb.contents-push_front x q.container
        ∙ take-all _ _ (omega (arith, length-reverse (contents q.container))) in
      (
        record {
          counted = omega (
            arith,
            s.counted,
            s.small,
            within q,
            ap length fits,
            length-reverse (contents q.container),
          );
          small = rw (cb.capacity-push_front) s.small;
        },
        rw (fits, reverse-cons),
        cb.capacity-push_front x q.container,
      )

  take_unread-last :
      {q : WorkQueue cb} (ys : List A) (y : A)
      → IsSynced q
      → contents q.container ≡ ys ++ y ∷ []
      → take_unread cb q
        ≡ value (y, record { container = cb.pop_back q.container; unread = length ys })
  unfolding take_unread
  take_unread-last {q} ys y s e =
      let index : dec_size q.unread ≡ length ys =
        omega (arith, s.counted, s.small, within q, ap length e, length-append ys (y ∷ [])) in
      rw (index, cb.at-contents, e, get_elem?-append_one ys y (length ys) refl)

  pub not-nil : (ys : List A) (y : A) {zs : List A} → zs ≡ ys ++ y ∷ [] → zs ≢ []
  not-nil [] y e = λ f. cc
  not-nil (x ∷ ys) y e = λ f. cc

  -- What a pop that finds an element does: the oldest element goes, the count is kept.
  pub record Popped (q : WorkQueue cb) (x : A) (q' : WorkQueue cb) : Type ℓ where
    pub tries : try_pop cb q ≡ value (some x, q')
    pub waits_for : wait_and_pop cb q ≡ value (x, q')
    pub front : waiting q ≡ x ∷ waiting q'
    pub synced : IsSynced q'
    pub room : capacity q'.container ≡ capacity q.container

  Popped-last :
      {q : WorkQueue cb} (ys : List A) (y : A)
      → IsSynced q
      → contents q.container ≡ ys ++ y ∷ []
      → Popped q y (record { container = cb.pop_back q.container; unread = length ys })
  unfolding try_pop wait_and_pop
  Popped-last {q} ys y s e =
      let ne : contents q.container ≢ [] = not-nil ys y e in
      let cut : contents (cb.pop_back q.container) ≡ ys =
        cb.contents-pop_back q.container ne ∙ ap drop_last e ∙ drop_last-append_one ys y in
      record {
        tries = rw (empty-false cb q.container ne, take_unread-last ys y s e);
        waits_for = rw (empty-false cb q.container ne, take_unread-last ys y s e);
        front = rw (e, cut, reverse-append);
        synced = record {
          counted = rw cut;
          small = rw (cb.capacity-pop_back q.container ne) s.small;
        };
        room = cb.capacity-pop_back q.container ne;
      }

  -- While the count is right, try_pop on an empty queue reports that and wait_and_pop waits, and
  -- on any other both take the oldest element, keep the rest in order and the count right.
  pub pop-waiting :
      {q : WorkQueue cb}
      → IsSynced q
      → ((waiting q ≡ []) × (try_pop cb q ≡ value (none, q)) × (wait_and_pop cb q ≡ waits))
        ⊎ ((x : A) × (q' : WorkQueue cb) × Popped q x q')
  unfolding try_pop wait_and_pop
  pop-waiting {q} s = elim (last-cases (contents q.container)) [
    | inl e ↦ inl (rw e, rw (empty-true cb q.container e), rw (empty-true cb q.container e))
    | inr (ys, y, e) ↦ inr (y, _, Popped-last ys y s e)
  ]

  -- The replies of try_pop over a sequence of calls.
  pub run : WorkQueue cb → List (Op A) → Outcome (List (Option A))
  run q [] = value []
  run q (put x ∷ ops) = run (push cb x q) ops
  run q (get ∷ ops) = do (reply, q') ← try_pop cb q; rest ← run q' ops; value (reply ∷ rest)

  -- From a queue whose count is right, a sequence of pushes and pops in which no push meets a full
  -- buffer is defined and replies as the queue of the waiting elements does.
  pub run_refines :
      (ops : List (Op A)) {q : WorkQueue cb}
      → IsSynced q
      → Fits (capacity q.container) (waiting q) ops
      → run q ops ≡ value (spec_run (waiting q) ops)
  unfolding run spec_run
  run_refines [] s f = refl
  run_refines (put x ∷ ops) {q} s f =
      let (s', w, c) = push-waiting x s f.0 in run_refines ops s' (rw (c, w) f.1) ∙ rw w
  run_refines (get ∷ ops) {q} s f = elim (pop-waiting s) [
    | inl (e, t, _) ↦
        let f' : Fits (capacity q.container) [] ops = rw e at f in
        rw (t, run_refines ops s (rw e f'), e)
    | inr (x, q', p) ↦
        let f' : Fits (capacity q.container) (waiting q') ops = rw p.front at f in
        rw (p.tries, run_refines ops p.synced (rw p.room f'), p.front)
  ]
