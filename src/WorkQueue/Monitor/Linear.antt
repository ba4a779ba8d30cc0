-- ===== src/WorkQueue/Monitor/Linear.antt =====
-- include/queue.hh: the interleaved threads beside a first-in first-out list that serves the same calls
-- one after the other.
use test_buffer.Prelude.{
  List, Option, [], ap, arith, drop_last, drop_last-append_one, false, none, refl, reverse,
  reverse-append, size_mod, some, sym, take-all, ℕ, ◌++◌, ◌<◌, ◌∙◌, ◌∷◌, ◌≡◌, ◌≢◌,
}
use mathlib.Core.List.{reverse-cons}
use test_buffer.Boost.CircularBuffer.{CircularBuffer}
use test_buffer.Boost.Threads.{Mutex, Condition}
use test_buffer.WorkQueue.{with_capacity}
use test_buffer.WorkQueue.Fifo.{Op, put, get, spec_run, not-nil}
use test_buffer.WorkQueue.Monitor.{
  find_nothing, read, crashed, System, init, store, remove, Steps, start, later, is_full,
}
use test_buffer.WorkQueue.Monitor.Access.{elements, Good, Agrees}
use test_buffer.WorkQueue.Monitor.Order.{Steps-Good, pushed-Steps}

module _ {ℓ} {A : Type ℓ} where
  abbrev front : List A → Option A
  front [] = none
  front (x ∷ xs) = some x

  abbrev behind : List A → List A
  behind [] = []
  behind (x ∷ xs) = xs

  -- What the calls leave in the list.
  abbrev spec_after : List A → List (Op A) → List A
  spec_after xs [] = xs
  spec_after xs (put x ∷ ops) = spec_after (xs ++ x ∷ []) ops
  spec_after [] (get ∷ ops) = spec_after [] ops
  spec_after (x ∷ xs) (get ∷ ops) = spec_after xs ops

  -- One more push at the end, and one more pop.
  spec_run-put :
      (ops : List (Op A)) (x : A) (xs : List A)
      → (spec_run xs (ops ++ put x ∷ []) ≡ spec_run xs ops)
        × (spec_after xs (ops ++ put x ∷ []) ≡ spec_after xs ops ++ x ∷ [])
  unfolding spec_run
  spec_run-put [] x xs = (refl, refl)
  spec_run-put (put y ∷ ops) x xs = spec_run-put ops x (xs ++ y ∷ [])
  spec_run-put (get ∷ ops) x [] = let (r, a) = spec_run-put ops x [] in (ap (λ z. none ∷ z) r, a)
  spec_run-put (get ∷ ops) x (y ∷ xs) =
      let (r, a) = spec_run-put ops x xs in (ap (λ z. some y ∷ z) r, a)

  spec_run-get :
      (ops : List (Op A)) (xs : List A)
      → (spec_run xs (ops ++ get ∷ []) ≡ spec_run xs ops ++ front (spec_after xs ops) ∷ [])
        × (spec_after xs (ops ++ get ∷ []) ≡ behind (spec_after xs ops))
  unfolding spec_run
  spec_run-get [] [] = (refl, refl)
  spec_run-get [] (y ∷ xs) = (refl, refl)
  spec_run-get (put y ∷ ops) xs = spec_run-get ops (xs ++ y ∷ [])
  spec_run-get (get ∷ ops) [] = let (r, a) = spec_run-get ops [] in (ap (λ z. none ∷ z) r, a)
  spec_run-get (get ∷ ops) (y ∷ xs) =
      let (r, a) = spec_run-get ops xs in (ap (λ z. some y ∷ z) r, a)

module _ {ℓ} (A : Type ℓ) (cb : CircularBuffer A) (mx : Mutex) (cv : Condition) where
  abbrev State : Type ℓ
  State = System A cb mx cv

  -- The calls that take effect in some steps, in order: push when it stores, a pop when it removes,
  -- try_pop when it finds nothing.
  abbrev pub calls_of : {s t : State} → Steps A cb mx cv s t → List (Op A)
  calls_of start = []
  calls_of (later r (store x at)) = calls_of r ++ put x ∷ []
  calls_of (later r (find_nothing at e)) = calls_of r ++ get ∷ []
  calls_of (later r (remove x at)) = calls_of r ++ get ∷ []
  calls_of (later r _) = calls_of r

  -- What the pops among them give.
  abbrev pub replies_of : {s t : State} → Steps A cb mx cv s t → List (Option A)
  replies_of start = []
  replies_of (later r (find_nothing at e)) = replies_of r ++ none ∷ []
  replies_of (later r (remove x at)) = replies_of r ++ some x ∷ []
  replies_of (later r _) = replies_of r

  record Matches {s t : State} (r : Steps A cb mx cv s t) : Type ℓ where
    replies : spec_run [] (calls_of r) ≡ replies_of r
    left : spec_after [] (calls_of r) ≡ reverse (elements A cb mx cv t)

  -- A push with room adds the element behind the others.
  stored :
      (x : A) (s : State)
      → is_full A cb mx cv s ≡ false
      → reverse (cb.contents (cb.push_front x s.queue.container))
        ≡ reverse (elements A cb mx cv s) ++ x ∷ []
  stored x s room =
      let fits : cb.contents (cb.push_front x s.queue.container) ≡ x ∷ elements A cb mx cv s =
        cb.contents-push_front x s.queue.container
        ∙ take-all _ _ (ground (arith, room, cb.size-contents s.queue.container)) in
      rw (fits, reverse-cons)

  -- A removal takes the element that was read, which is at the front.
  taken :
      (x : A) (s : State)
      → s.consumer ≡ read x
      → Good A cb mx cv s
      → reverse (elements A cb mx cv s) ≡ x ∷ reverse (cb.contents (cb.pop_back s.queue.container))
  taken x s c v =
      let (ys, e) : Agrees (read x) (elements A cb mx cv s) = rw c at v.agrees in
      let cut : cb.contents (cb.pop_back s.queue.container) ≡ ys =
        cb.contents-pop_back s.queue.container (not-nil cb ys x e)
        ∙ ap drop_last e
        ∙ drop_last-append_one ys x in
      rw (e, cut, reverse-append)

  Steps-Matches :
      (cap : ℕ) {s : State}
      → cap < size_mod
      → (r : Steps A cb mx cv (init A cb mx cv cap 0) s) → s.overwritten ≡ false
      → Matches r
  unfolding spec_run with_capacity
  Steps-Matches cap h start e = record { replies = refl; left = rw cb.contents-with_capacity }
  Steps-Matches cap h (later {t = s} r (store x at)) e =
      let v = Steps-Matches cap h r (ground (arith, e)) in
      let (rest, now) = spec_run-put (calls_of r) x [] in
      record {
        replies = rest ∙ v.replies;
        left = now ∙ (ap (λ z. z ++ x ∷ []) v.left ∙ sym (stored x s (ground (arith, e))));
      }
  Steps-Matches cap h (later {t = s} r (find_nothing at gone)) e =
      let v = Steps-Matches cap h r e in
      let (rest, now) = spec_run-get (calls_of r) [] in
      let none_left : spec_after [] (calls_of r) ≡ [] =
        v.left ∙ ap reverse ((cb.empty_iff s.queue.container).0 gone) in
      record {
        replies =
            rest
            ∙ (ap (λ z. z ++ front (spec_after [] (calls_of r)) ∷ []) v.replies
                ∙ ap (λ z. replies_of r ++ front z ∷ []) none_left);
        left =
            now
            ∙ (ap behind none_left ∙ sym (ap reverse ((cb.empty_iff s.queue.container).0 gone)));
      }
  Steps-Matches cap h (later {t = s} r (remove x at)) e =
      let v = Steps-Matches cap h r e in
      let (rest, now) = spec_run-get (calls_of r) [] in
      let first : spec_after [] (calls_of r)
          ≡ x ∷ reverse (cb.contents (cb.pop_back s.queue.container)) =
        v.left ∙ taken x s at (Steps-Good A cb mx cv cap h r e) in
      record {
        replies =
            rest
            ∙ (ap (λ z. z ++ front (spec_after [] (calls_of r)) ∷ []) v.replies
                ∙ ap (λ z. replies_of r ++ front z ∷ []) first);
        left = now ∙ ap behind first;
      }
  Steps-Matches cap h (later r _) e =
      let v = Steps-Matches cap h r e in record { replies = v.replies; left = v.left }

  -- The queue under its lock is one atomic queue: from a new one with room for fewer than 2 ^ 64
  -- elements whose count was found as 0, however one thread that pushes and one that calls
  -- wait_and_pop and try_pop interleave, as long as no push met a full buffer, what the pops give, in
  -- the order in which the calls take effect, is what a first-in first-out list gives to the same
  -- calls one after the other, where a try_pop finds nothing only when the list is empty; and no pop
  -- read out of range.
  pub replies-Steps :
      (cap : ℕ) {s : State}
      → cap < size_mod
      → (r : Steps A cb mx cv (init A cb mx cv cap 0) s) → s.overwritten ≡ false
      → (replies_of r ≡ spec_run [] (calls_of r)) × (s.consumer ≢ crashed)
  replies-Steps cap h r e =
      (sym (Steps-Matches cap h r e).replies, (pushed-Steps A cb mx cv cap h r e).1)
