-- ===== src/WorkQueue/Monitor/Access.antt =====
-- include/queue.hh: push and wait_and_pop under the lock: what each access of the container does.
use mathlib.Core.List.{reverse-cons}
use test_buffer.Prelude.{
  List, [], ap, append_assoc, arith, drop_last, drop_last-append_one, false, get_elem?-append_one,
  length, length-append, none, reverse, reverse-append, size_mod, some, suc, take-all, true, ℕ,
  ◌&&◌, ◌++◌, ◌+◌, ◌<◌, ◌||◌, ◌∙◌, ◌∷◌, ◌≡◌, ◌≢◌,
}
use test_buffer.Boost.CircularBuffer.{CircularBuffer, length-contents-le}
use test_buffer.Boost.Threads.{Mutex, Condition}
use test_buffer.WorkQueue.{dec_size}
use test_buffer.WorkQueue.Fifo.{not-nil}
use test_buffer.WorkQueue.Monitor.{
  trying, Producer, locked, stored, Consumer, outside, testing, to_wait, waiting, nonempty, read,
  removed, crashed, is_full,
}
use test_buffer.WorkQueue.Monitor.Locks.{producer_in, consumer_in, State, Locks}

-- Elements in the container that `m_unread` leaves out.
abbrev pub owed_by_push : Producer → ℕ
owed_by_push stored = 1
owed_by_push _ = 0

abbrev pub owed_by_pop {ℓ} : {A : Type ℓ} → Consumer A → ℕ
owed_by_pop (read x) = 1
owed_by_pop _ = 0

module _ {ℓ} {A : Type ℓ} where
  -- The element that wait_and_pop has removed and not returned yet.
  abbrev pub in_hand : Consumer A → List A
  in_hand (removed x) = x ∷ []
  in_hand _ = []

  -- What wait_and_pop has seen is still there.
  abbrev pub Agrees : Consumer A → List A → Type ℓ
  Agrees nonempty xs = (ys : List A) × (y : A) × (xs ≡ ys ++ y ∷ [])
  Agrees (read x) xs = (ys : List A) × (xs ≡ ys ++ x ∷ [])
  Agrees _ xs = Unit

  Agrees-outside : (c : Consumer A) (xs : List A) → consumer_in c ≡ false → Agrees c xs
  Agrees-outside outside xs h = tt
  Agrees-outside testing xs h = tt
  Agrees-outside to_wait xs h = tt
  Agrees-outside waiting xs h = tt
  Agrees-outside trying xs h = cc
  Agrees-outside nonempty xs h = cc
  Agrees-outside (read x) xs h = cc
  Agrees-outside (removed x) xs h = tt
  Agrees-outside crashed xs h = tt

module _ {ℓ} (A : Type ℓ) (cb : CircularBuffer A) (mx : Mutex) (cv : Condition) where
  abbrev pub elements : State A cb mx cv → List A
  elements s = cb.contents s.queue.container

  pub record Good (s : State A cb mx cv) : Type ℓ where
    pub small : cb.capacity s.queue.container < size_mod
    pub sum :
        s.queue.unread + (owed_by_push s.producer + owed_by_pop s.consumer) ≡ length (elements s)
    pub order : s.pushed ≡ s.returned ++ (in_hand s.consumer ++ reverse (elements s))
    pub agrees : Agrees s.consumer (elements s)
    pub sound : s.consumer ≢ crashed

  -- With the consumer in its call and the lock, the producer owes nothing.
  nothing_owed :
      (p : Producer) (c : Consumer A)
      → (producer_in p && consumer_in c) ≡ false
      → consumer_in c ≡ true
      → owed_by_push p ≡ 0
  nothing_owed p c e h = ground arith

  pub Good-store :
      (x : A) (s : State A cb mx cv)
      → s.producer ≡ locked
      → Locks A cb mx cv s
      → is_full A cb mx cv s ≡ false
      → Good s
      → Good (record s {
        queue = record s.queue { container = cb.push_front x s.queue.container };
        producer = stored;
        pushed = s.pushed ++ x ∷ [];
        overwritten = s.overwritten || is_full A cb mx cv s;
      })
  Good-store x s p l room v =
      let fits : cb.contents (cb.push_front x s.queue.container) ≡ x ∷ elements s =
        cb.contents-push_front x s.queue.container
        ∙ take-all _ _ (ground (arith, room, cb.size-contents s.queue.container)) in
      record {
        small = rw (cb.capacity-push_front) v.small;
        sum = omega (arith, ap length fits, v.sum, ap owed_by_push p);
        order = rw (v.order, fits, reverse-cons) (simp append_assoc);
        agrees = Agrees-outside s.consumer _ (ground (arith, l.exclusive, p));
        sound = v.sound;
      }

  pub Good-read :
      (x : A) (s : State A cb mx cv)
      → s.consumer ≡ nonempty
      → Locks A cb mx cv s
      → cb.at s.queue.container (dec_size s.queue.unread) ≡ some x
      → Good s
      → Good (record s {
        queue = record s.queue { unread = dec_size s.queue.unread };
        consumer = read x;
      })
  Good-read x s c l hit v =
      let (ys, y, e) : Agrees nonempty (elements s) = rw c at v.agrees in
      let none_owed = nothing_owed s.producer s.consumer l.exclusive (ap consumer_in c) in
      let total : s.queue.unread ≡ suc (length ys) =
        omega (arith, v.sum, none_owed, ap owed_by_pop c, ap length e, length-append ys (y ∷ [])) in
      let index : dec_size s.queue.unread ≡ length ys = omega (
        arith,
        total,
        v.small,
        length-contents-le cb s.queue.container,
        ap length e,
        length-append ys (y ∷ []),
      ) in
      let got : cb.at s.queue.container (dec_size s.queue.unread) ≡ some y =
        cb.at-contents s.queue.container (dec_size s.queue.unread)
        ∙ rw e (get_elem?-append_one ys y (dec_size s.queue.unread) index) in
      let same : x ≡ y = cc (hit, got) in
      record {
        small = v.small;
        sum = omega (arith, none_owed, index, ap length e, length-append ys (y ∷ []));
        order = v.order ∙ rw c;
        agrees = (ys, rw same e);
        sound = λ h. cc;
      }

  pub never_outside :
      (s : State A cb mx cv)
      → s.consumer ≡ nonempty
      → Locks A cb mx cv s
      → Good s
      → cb.at s.queue.container (dec_size s.queue.unread) ≢ none
  never_outside s c l v miss =
      let (ys, y, e) : Agrees nonempty (elements s) = rw c at v.agrees in
      let none_owed = nothing_owed s.producer s.consumer l.exclusive (ap consumer_in c) in
      let index : dec_size s.queue.unread ≡ length ys = omega (
        arith,
        v.sum,
        none_owed,
        ap owed_by_pop c,
        v.small,
        length-contents-le cb s.queue.container,
        ap length e,
        length-append ys (y ∷ []),
      ) in
      cc (
        miss,
        cb.at-contents s.queue.container (dec_size s.queue.unread),
        get_elem?-append_one ys y (dec_size s.queue.unread) index,
      )

  pub Good-remove :
      (x : A) (s : State A cb mx cv)
      → s.consumer ≡ read x
      → Locks A cb mx cv s
      → Good s
      → Good (record s {
        queue = record s.queue { container = cb.pop_back s.queue.container };
        consumer = removed x;
      })
  Good-remove x s c l v =
      let (ys, e) : Agrees (read x) (elements s) = rw c at v.agrees in
      let ne : elements s ≢ [] = not-nil cb ys x e in
      let cut : cb.contents (cb.pop_back s.queue.container) ≡ ys =
        cb.contents-pop_back s.queue.container ne ∙ ap drop_last e ∙ drop_last-append_one ys x in
      record {
        small = rw (cb.capacity-pop_back s.queue.container ne) v.small;
        sum =
            omega (
              arith,
              v.sum,
              ap owed_by_pop c,
              ap length e,
              ap length cut,
              length-append ys (x ∷ []),
            );
        order = v.order ∙ rw (c, cut, e, reverse-append);
        agrees = tt;
        sound = λ h. cc;
      }
