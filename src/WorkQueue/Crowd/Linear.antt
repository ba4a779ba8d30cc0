-- ===== src/WorkQueue/Crowd/Linear.antt =====
-- include/queue.hh: any number of interleaved threads beside one first-in first-out list that serves the
-- same calls one after the other.
use mathlib.Core.List.{reverse-cons}
use test_buffer.Prelude.{
  Bool, List, Option, [], ap, arith, false, length, length-reverse, none, refl, reverse,
  reverse-append, size_mod, some, sym, to_int, true, ℕ, ℤ, ◌++◌, ◌<◌, ◌==◌, ◌∙◌, ◌∷◌, ◌≡◌, ◌≢◌,
}
use test_buffer.Boost.CircularBuffer.{CircularBuffer, length-full, length-empty}
use test_buffer.Boost.Threads.{Mutex, Conditions}
use test_buffer.WorkQueue.{with_capacity, get_size, get_capacity}
use test_buffer.WorkQueue.Crowd.{
  read, crashed, System, init, Step, store, find_nothing, remove, answer, ask_size, ask_capacity,
  Steps, start, later,
}
use test_buffer.WorkQueue.Crowd.Unread.{elements, Good, has, contents-store, contents-remove}
use test_buffer.WorkQueue.Crowd.Counted.{Steps-Good}

-- What the threads ask of the queue. `gets` is a pop of either kind.
pub data Call {ℓ} (A : Type ℓ) : Type ℓ where
  puts : A → Call A
  gets asks_empty asks_size asks_capacity : Call A

pub data Reply {ℓ} (A : Type ℓ) : Type ℓ where
  done : Reply A
  got : Option A → Reply A
  truth : Bool → Reply A
  number : ℤ → Reply A

module _ {ℓ} {A : Type ℓ} where
  -- A list with room for `cap` elements, the oldest first: what a call gives, and what it leaves.
  abbrev gives : ℕ → List A → Call A → Reply A
  gives cap xs (puts x) = done
  gives cap [] gets = got none
  gives cap (x ∷ xs) gets = got (some x)
  gives cap xs asks_empty = truth (length xs == 0)
  gives cap xs asks_size = number (to_int (length xs))
  gives cap xs asks_capacity = number (to_int cap)

  abbrev leaves : List A → Call A → List A
  leaves xs (puts x) = xs ++ x ∷ []
  leaves [] gets = []
  leaves (x ∷ xs) gets = xs
  leaves xs _ = xs

  unfoldable pub serve : ℕ → List A → List (Call A) → List (Reply A)
  serve cap xs [] = []
  serve cap xs (c ∷ cs) = gives cap xs c ∷ serve cap (leaves xs c) cs

  abbrev left_by : List A → List (Call A) → List A
  left_by xs [] = xs
  left_by xs (c ∷ cs) = left_by (leaves xs c) cs

  -- One more call.
  serve-append :
      (cap : ℕ) (cs : List (Call A)) (c : Call A) (xs : List A)
      → (serve cap xs (cs ++ c ∷ []) ≡ serve cap xs cs ++ gives cap (left_by xs cs) c ∷ [])
        × (left_by xs (cs ++ c ∷ []) ≡ leaves (left_by xs cs) c)
  unfolding serve
  serve-append cap [] c xs = (refl, refl)
  serve-append cap (d ∷ cs) c xs =
      let (r, a) = serve-append cap cs c (leaves xs d) in (ap (λ z. gives cap xs d ∷ z) r, a)

module _ {ℓ} (A : Type ℓ) (cb : CircularBuffer A) (mx : Mutex) (cv : Conditions) (n : ℕ) where
  abbrev State : Type ℓ
  State = System A cb mx cv

  -- The call that takes effect in a step, behind those before: push when it stores, a pop when it
  -- removes, try_pop when it finds nothing, the others when they look.
  abbrev and_call : {s t : State} → Step A cb mx cv n s t → List (Call A) → List (Call A)
  and_call (store t x p) calls = calls ++ puts x ∷ []
  and_call (find_nothing t p e) calls = calls ++ gets ∷ []
  and_call (remove t x p) calls = calls ++ gets ∷ []
  and_call (answer t b p e) calls = calls ++ asks_empty ∷ []
  and_call (ask_size t l p) calls = calls ++ asks_size ∷ []
  and_call (ask_capacity t l p) calls = calls ++ asks_capacity ∷ []
  and_call _ calls = calls

  abbrev pub calls_of : {s t : State} → Steps A cb mx cv n s t → List (Call A)
  calls_of start = []
  calls_of (later r st) = and_call st (calls_of r)

  -- What it gives.
  abbrev and_reply : {s t : State} → Step A cb mx cv n s t → List (Reply A) → List (Reply A)
  and_reply (store t x p) replies = replies ++ done ∷ []
  and_reply (find_nothing t p e) replies = replies ++ got none ∷ []
  and_reply (remove t x p) replies = replies ++ got (some x) ∷ []
  and_reply (answer t b p e) replies = replies ++ truth b ∷ []
  and_reply {s} (ask_size t l p) replies = replies ++ number (get_size cb s.queue) ∷ []
  and_reply {s} (ask_capacity t l p) replies = replies ++ number (get_capacity cb s.queue) ∷ []
  and_reply _ replies = replies

  abbrev pub replies_of : {s t : State} → Steps A cb mx cv n s t → List (Reply A)
  replies_of start = []
  replies_of (later r st) = and_reply st (replies_of r)

  module _ (cap : ℕ) where
    -- The list that serves the calls gives the replies, and keeps the elements of the container.
    record Matches (calls : List (Call A)) (replies : List (Reply A)) (xs : List A) : Type ℓ where
      same : serve cap [] calls ≡ replies
      left : left_by [] calls ≡ reverse xs

    Matches-call :
        {calls : List (Call A)} {replies : List (Reply A)} {xs : List A} (ys : List A) (c : Call A)
        (reply : Reply A)
        → gives cap (reverse xs) c ≡ reply
        → leaves (reverse xs) c ≡ reverse ys
        → Matches calls replies xs
        → Matches (calls ++ c ∷ []) (replies ++ reply ∷ []) ys
    Matches-call {calls} ys c reply g l v =
        let (more, now) = serve-append cap calls c [] in
        record {
          same = rw (more, v.same, v.left, g);
          left = now ∙ (ap (λ z. leaves z c) v.left ∙ l);
        }

    -- `empty` is true of the list without elements.
    empty-reverse :
        (s : State) (b : Bool)
        → cb.empty s.queue.container ≡ b
        → (length (reverse (elements A cb mx cv n s)) == 0) ≡ b
    empty-reverse s true e =
        ground
          (arith, length-reverse (elements A cb mx cv n s), length-empty cb s.queue.container e)
    empty-reverse s false e =
        ground (arith, length-reverse (elements A cb mx cv n s), length-full cb s.queue.container e)

    Step-Matches :
        {s t : State} {calls : List (Call A)} {replies : List (Reply A)}
        (st : Step A cb mx cv n s t)
        → Good A cb mx cv n cap s
        → t.overwritten ≡ false
        → Matches calls replies (elements A cb mx cv n s)
        → Matches (and_call st calls) (and_reply st replies) (elements A cb mx cv n t)
    unfolding get_size get_capacity
    Step-Matches {s} (store t x p) g e v =
        Matches-call _ (puts x) done refl
          (rw (contents-store A cb mx cv n x s (ground arith), reverse-cons)) v
    Step-Matches {s} (find_nothing t p e) g o v =
        let nothing = (cb.empty_iff s.queue.container).0 e in
        Matches-call _ gets (got none) (rw nothing) (rw nothing) v
    Step-Matches {s} (remove t x p) g e v =
        let (sum, (ys, c)) = has A cb mx cv n s t (read x) p refl g in
        let cut = contents-remove A cb mx cv n x ys s c in
        Matches-call _ gets (got (some x)) (rw (c, reverse-append)) (rw (c, cut, reverse-append)) v
    Step-Matches {s} (answer t b p e) g o v =
        Matches-call _ asks_empty (truth b) (ap truth (empty-reverse s b e)) refl v
    Step-Matches {s} (ask_size t l p) g e v =
        Matches-call _ asks_size _
          (ap (λ k. number (to_int k))
            (length-reverse (elements A cb mx cv n s) ∙ sym (cb.size-contents s.queue.container)))
          refl v
    Step-Matches (ask_capacity t l p) g e v =
        Matches-call _ asks_capacity _ (ap (λ k. number (to_int k)) (sym g.room)) refl v
    Step-Matches _ g e v = v

    -- Once a push has met a full buffer, one has.
    not_before :
        {s t : State} → Step A cb mx cv n s t → t.overwritten ≡ false → s.overwritten ≡ false
    not_before (store t x p) e = ground arith
    not_before _ e = e

    Steps-Matches :
        {s : State}
        → cap < size_mod
        → (r : Steps A cb mx cv n (init A cb mx cv cap 0) s) → s.overwritten ≡ false
        → Matches (calls_of r) (replies_of r) (elements A cb mx cv n s)
    unfolding with_capacity serve
    Steps-Matches h start e = record { same = refl; left = rw cb.contents-with_capacity }
    Steps-Matches h (later r st) e =
        let e' = not_before st e in
        Step-Matches st (Steps-Good A cb mx cv n cap h r e') e (Steps-Matches h r e')

    -- The queue is one atomic queue to any number of threads: from a new one with room for fewer than
    -- 2 ^ 64 elements whose count was found as 0, however the calls of push, wait_and_pop, try_pop,
    -- empty, get_size and get_capacity interleave, as long as no push met a full buffer, what they
    -- give, in the order in which they take effect, is what a first-in first-out list gives to the
    -- same calls one after the other, where a try_pop finds nothing only when the list is empty; and
    -- no pop read out of range.
    pub replies-queue :
        {s : State}
        → cap < size_mod
        → (r : Steps A cb mx cv n (init A cb mx cv cap 0) s) → s.overwritten ≡ false
        → (replies_of r ≡ serve cap [] (calls_of r)) × ((t : ℕ) → s.point t ≢ crashed)
    replies-queue {s} h r e = (
      sym (Steps-Matches h r e).same,
      λ t c. absurd (has A cb mx cv n s t crashed c refl (Steps-Good A cb mx cv n cap h r e)).0,
    )
