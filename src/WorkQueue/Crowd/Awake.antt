-- ===== src/WorkQueue/Crowd/Awake.antt =====
-- include/queue.hh: while a thread waits, each element of the container has a thread that is awake for it.
use test_buffer.Prelude.{
  Bool, ap, arith, false, inl, inr, length, refl, same_or_not, sym, true, update, update-cases, ℕ,
  ◌+◌, ◌<◌, ◌∙◌, ◌≡◌, ◌≢◌, ◌≤◌,
}
use test_buffer.Boost.CircularBuffer.{
  CircularBuffer, length-empty, length-full, length-push_front, length-pop_back,
}
use test_buffer.Boost.Threads.{Mutex, Conditions}
use test_buffer.Threads.Guarded.{
  Guarded-init, Guarded-lock, Guarded-work, Guarded-unlock, Guarded-aside,
}
use test_buffer.Threads.Counts.{one_if}
use test_buffer.WorkQueue.Crowd.{
  Point, outside, locked, stored, counted, unlocked, testing, to_wait, waiting, trying, nonempty,
  read, removed, crashed, asking, System, init, Step, lock_to_push, store, count, unlock_push,
  notify, lock_to_pop, see_empty, start_wait, spurious, end_wait, see_element, lock_to_try,
  find_nothing, find_element, read_unread, read_outside, remove, give, lock_to_ask, answer,
  ask_size, ask_capacity, Steps, start, later,
}
use test_buffer.WorkQueue.Crowd.Holding.{
  holds, due, due_count, Sees, Inv, asleep-go, Inv-go, Inv-empty, Inv-notify, Inv-wake,
}

module _ {ℓ} (A : Type ℓ) (cb : CircularBuffer A) (mx : Mutex) (cv : Conditions) (n : ℕ) where
  abbrev State : Type ℓ
  State = System A cb mx cv

  abbrev pub asleep : State → ℕ → Bool
  asleep s u = cv.is_waiting s.cond u

  abbrev pub how_many : State → ℕ
  how_many s = length (cb.contents s.queue.container)

  abbrev pub Valid : State → Type ℓ
  Valid s = Inv n (mx.is_free s.mutex) (how_many s) (asleep s) s.point

  awake :
      (s : State) (t : ℕ) (p : Point A) → s.point t ≡ p → p ≢ waiting → Valid s → asleep s t ≢ true
  awake s t p at other v h = other (sym at ∙ v.asleep t h)

  inside : (s : State) (t : ℕ) (p : Point A) → s.point t ≡ p → p ≢ outside → Valid s → t < n
  inside s t p at other v = v.small t (λ h. other (sym at ∙ h))

  seen :
      (s : State) (t : ℕ) (p : Point A)
      → s.point t ≡ p
      → holds p ≡ true
      → Valid s
      → Sees (how_many s) p
  seen s t p e had v =
      let here : Sees (how_many s) (s.point t) = v.guard.inside t (ap holds e ∙ had) in rw e at here

  -- A call takes the lock.
  takes :
      (s : State) (t : ℕ) (q : Point A)
      → t < n
      → s.point t ≡ outside
      → mx.is_free s.mutex ≡ true
      → holds q ≡ true
      → Sees (how_many s) q
      → Valid s
      → Inv n (mx.is_free (mx.lock s.mutex)) (how_many s) (asleep s) (update t q s.point)
  takes s t q l at free has sees v =
      Inv-go n t q (how_many s) (how_many s) s.point
        (Guarded-lock holds t q s.point free (mx.is_free-lock s.mutex) has (λ i. sees) v.guard)
        (awake s t outside at (λ h. cc) v) l
        (omega (arith, ap (λ p. one_if (due (asleep s t) p)) at)) v

  -- A call goes on with the lock, and leaves `k` elements.
  works :
      (s : State) (t : ℕ) (p q : Point A) (k : ℕ)
      → s.point t ≡ p
      → holds p ≡ true
      → holds q ≡ true
      → p ≢ waiting
      → p ≢ outside
      → Sees k q
      → k + one_if (due (asleep s t) p) ≤ how_many s + one_if (due (asleep s t) q)
      → Valid s
      → Inv n (mx.is_free s.mutex) k (asleep s) (update t q s.point)
  works s t p q k at had has here there sees pays v =
      Inv-go n t q (how_many s) k s.point
        (Guarded-work holds t q s.point (ap holds at ∙ had) has sees v.guard)
        (awake s t p at here v) (inside s t p at there v)
        (omega (arith, pays, ap (λ z. one_if (due (asleep s t) z)) at)) v

  -- A call frees the lock.
  frees :
      (s : State) (t : ℕ) (p q : Point A)
      → s.point t ≡ p
      → holds p ≡ true
      → holds q ≡ false
      → p ≢ waiting
      → p ≢ outside
      → one_if (due (asleep s t) p) ≤ one_if (due (asleep s t) q)
      → Valid s
      → Inv n (mx.is_free (mx.unlock s.mutex)) (how_many s) (asleep s) (update t q s.point)
  frees s t p q at had out here there pays v =
      Inv-go n t q (how_many s) (how_many s) s.point
        (Guarded-unlock holds t q s.point (ap holds at ∙ had) (mx.is_free-unlock s.mutex) out tt
          v.guard)
        (awake s t p at here v) (inside s t p at there v)
        (omega (arith, pays, ap (λ z. one_if (due (asleep s t) z)) at)) v

  Step-Valid : {s u : State} → Step A cb mx cv n s u → Valid s → Valid u
  Step-Valid {s} (lock_to_push t x l at free) v = takes s t (locked x) l at free refl tt v
  Step-Valid {s} (store t x at) v =
      works s t (locked x) stored _ at refl refl (λ h. cc) (λ h. cc) tt
        (omega (arith, length-push_front cb x s.queue.container)) v
  Step-Valid {s} (count t at) v =
      works s t stored counted _ at refl refl (λ h. cc) (λ h. cc) tt (omega arith) v
  Step-Valid {s} (unlock_push t at) v =
      frees s t counted unlocked at refl refl (λ h. cc) (λ h. cc) (omega arith) v
  Step-Valid {s} (notify t at) v =
      Inv-notify n t outside (asleep s) _ s.point
        (Guarded-aside holds t outside s.point (ap holds at) refl v.guard) (λ h. cc (at, h))
        (λ h. cc (at, h)) (λ u. cv.notify_one-keeps u s.cond) (λ u. cv.notify_one-wakes u s.cond) v
  Step-Valid {s} (lock_to_pop t l at free) v = takes s t testing l at free refl tt v
  Step-Valid {s} (see_empty t at e) v =
      let none_there = length-empty cb s.queue.container e in
      Inv-empty n t to_wait s.point none_there
        (Guarded-work holds t to_wait s.point (ap holds at) refl none_there v.guard)
        (asleep-go n t to_wait (asleep s) (asleep s) s.point (awake s t testing at (λ h. cc) v)
          (λ u h. h) v.asleep)
        (inside s t testing at (λ h. cc) v) v
  Step-Valid {s} (start_wait t at) v =
      let sees = seen s t to_wait at refl v in
      Inv-empty n t waiting s.point sees
        (Guarded-unlock holds t waiting s.point (ap holds at) (mx.is_free-unlock s.mutex) refl tt
          v.guard)
        (update-cases (λ u p. cv.is_waiting (cv.wait t s.cond) u ≡ true → p ≡ waiting) t waiting
          s.point (λ h. refl)
          (λ u m h. v.asleep u (sym (cv.is_waiting-wait_other t u s.cond m) ∙ h)))
        (inside s t to_wait at (λ h. cc) v) v
  Step-Valid {s} (spurious t at) v =
      Inv-wake n (asleep s) _ s.point
        (λ u h. elim (same_or_not t u) [
          | inl e ↦ cc (h, ap (cv.is_waiting (cv.wake t s.cond)) e, cv.is_waiting-wake t s.cond)
          | inr m ↦ sym (cv.is_waiting-wake_other t u s.cond m) ∙ h
        ])
        v
  Step-Valid {s} (end_wait t at w free) v =
      Inv-go n t testing (how_many s) (how_many s) s.point
        (Guarded-lock holds t testing s.point free (mx.is_free-lock s.mutex) refl (λ i. tt) v.guard)
        (λ h. cc (w, h)) (inside s t waiting at (λ h. cc) v) (ground (arith, at, w)) v
  Step-Valid {s} (see_element t at e) v =
      works s t testing nonempty _ at refl refl (λ h. cc) (λ h. cc)
        (length-full cb s.queue.container e) (omega arith) v
  Step-Valid {s} (lock_to_try t l at free) v = takes s t trying l at free refl tt v
  Step-Valid {s} (find_nothing t at e) v =
      frees s t trying outside at refl refl (λ h. cc) (λ h. cc) (omega arith) v
  Step-Valid {s} (find_element t at e) v =
      works s t trying nonempty _ at refl refl (λ h. cc) (λ h. cc)
        (length-full cb s.queue.container e) (omega arith) v
  Step-Valid {s} (read_unread t x at e) v =
      works s t nonempty (read x) _ at refl refl (λ h. cc) (λ h. cc) (seen s t nonempty at refl v)
        (omega arith) v
  Step-Valid {s} (read_outside t at e) v =
      works s t nonempty crashed _ at refl refl (λ h. cc) (λ h. cc) tt (omega arith) v
  Step-Valid {s} (remove t x at) v =
      let sees = seen s t (read x) at refl v in
      works s t (read x) (removed x) _ at refl refl (λ h. cc) (λ h. cc) tt
        (omega (arith, length-pop_back cb s.queue.container sees)) v
  Step-Valid {s} (give t x at) v =
      frees s t (removed x) outside at refl refl (λ h. cc) (λ h. cc) (omega arith) v
  Step-Valid {s} (lock_to_ask t l at free) v = takes s t asking l at free refl tt v
  Step-Valid {s} (answer t b at e) v =
      frees s t asking outside at refl refl (λ h. cc) (λ h. cc) (omega arith) v
  Step-Valid (ask_size t l at) v = v
  Step-Valid (ask_capacity t l at) v = v

  pub Steps-Valid :
      (cap found : ℕ) {s : State} → Steps A cb mx cv n (init A cb mx cv cap found) s → Valid s
  Steps-Valid cap found start = record {
    guard = Guarded-init holds (λ t. outside) (λ t. refl) mx.is_free-unlocked tt;
    asleep = λ u h. cc (h, cv.is_waiting-fresh u);
    small = λ u h. absurd (h refl);
    owed = λ u h. cc (h, cv.is_waiting-fresh u);
  }
  Steps-Valid cap found (later r st) = Step-Valid st (Steps-Valid cap found r)

  -- With any number of threads, whatever the count was found as: in a state that steps lead to from a
  -- new queue, where a thread waits in wait_and_pop and no notification has reached it, the container
  -- has no more elements than there are other threads that have pushed and not yet notified, that
  -- were woken, that test for an element or take one, or that have read out of range.
  pub how_many-Steps :
      (cap found : ℕ) {s : State} (t : ℕ)
      → Steps A cb mx cv n (init A cb mx cv cap found) s
      → asleep s t ≡ true
      → how_many s ≤ due_count n (asleep s) s.point
  how_many-Steps cap found t r h = (Steps-Valid cap found r).owed t h
