-- ===== src/WorkQueue/Monitor/Order.antt =====
-- include/queue.hh: the order of the elements in all interleavings in which no push met a full buffer.
use test_buffer.Prelude.{
  ap, append_assoc, arith, false, refl, reverse, size_mod, ℕ, ◌++◌, ◌<◌, ◌∙◌, ◌≡◌, ◌≢◌,
}
use test_buffer.Boost.CircularBuffer.{CircularBuffer, found_last, length-contents-le}
use test_buffer.Boost.Threads.{Mutex, Condition}
use test_buffer.WorkQueue.{with_capacity}
use test_buffer.WorkQueue.Monitor.{
  lock_to_try, find_nothing, find_element, Producer, Consumer, crashed, System, init, Step,
  lock_to_push, store, count, unlock_push, notify, lock_to_pop, see_empty, start_wait, spurious,
  end_wait, see_element, read_unread, read_outside, remove, give, Steps, start, later,
}
use test_buffer.WorkQueue.Monitor.Locks.{Locks, Step-Locks}
use test_buffer.WorkQueue.Monitor.Access.{
  owed_by_push, owed_by_pop, Agrees, elements, in_hand, Good, Good-store, Good-read, never_outside,
  Good-remove,
}

module _ {ℓ} (A : Type ℓ) (cb : CircularBuffer A) (mx : Mutex) (cv : Condition) where
  -- A step of push that leaves the queue as it is.
  Good-push :
      (s : System A cb mx cv) (p : Producer) (m : mx.State) (k : cv.State)
      → owed_by_push s.producer ≡ owed_by_push p
      → Good A cb mx cv s
      → Good A cb mx cv (record s { mutex = m; cond = k; producer = p })
  Good-push s p m k same v = record {
    small = v.small;
    sum = omega (arith, v.sum, same);
    order = v.order;
    agrees = v.agrees;
    sound = v.sound;
  }

  -- A step of wait_and_pop that leaves the queue as it is.
  Good-pop :
      (s : System A cb mx cv) (c : Consumer A) (m : mx.State) (k : cv.State)
      → owed_by_pop s.consumer ≡ owed_by_pop c
      → in_hand s.consumer ≡ in_hand c
      → Agrees c (elements A cb mx cv s)
      → c ≢ crashed
      → Good A cb mx cv s
      → Good A cb mx cv (record s { mutex = m; cond = k; consumer = c })
  Good-pop s c m k same held there ok v = record {
    small = v.small;
    sum = omega (arith, v.sum, same);
    order = v.order ∙ rw held;
    agrees = there;
    sound = ok;
  }

  Step-Good :
      {s t : System A cb mx cv}
      → Step A cb mx cv s t
      → Locks A cb mx cv s
      → (s.overwritten ≡ false → Good A cb mx cv s)
      → t.overwritten ≡ false
      → Good A cb mx cv t
  Step-Good {s} (lock_to_push p free) l g e = Good-push s _ _ _ (ap owed_by_push p) (g e)
  Step-Good {s} (store x p) l g e = Good-store A cb mx cv x s p l (ground arith) (g (ground arith))
  Step-Good {s} (count p) l g e =
      let v = g e in
      record {
        small = v.small;
        sum =
            omega
              (arith, v.sum, ap owed_by_push p, v.small, length-contents-le cb s.queue.container);
        order = v.order;
        agrees = v.agrees;
        sound = v.sound;
      }
  Step-Good {s} (unlock_push p) l g e = Good-push s _ _ _ (ap owed_by_push p) (g e)
  Step-Good {s} (notify p) l g e = Good-push s _ _ _ (ap owed_by_push p) (g e)
  Step-Good {s} (lock_to_pop c free) l g e =
      Good-pop s _ _ _ (ap owed_by_pop c) (ap in_hand c) tt (λ h. cc) (g e)
  Step-Good {s} (see_empty c h) l g e =
      Good-pop s _ _ _ (ap owed_by_pop c) (ap in_hand c) tt (λ h. cc) (g e)
  Step-Good {s} (start_wait c) l g e =
      Good-pop s _ _ _ (ap owed_by_pop c) (ap in_hand c) tt (λ h. cc) (g e)
  Step-Good {s} (spurious c) l g e =
      Good-pop s s.consumer _ _ refl refl (g e).agrees (g e).sound (g e)
  Step-Good {s} (end_wait c n free) l g e =
      Good-pop s _ _ _ (ap owed_by_pop c) (ap in_hand c) tt (λ h. cc) (g e)
  Step-Good {s} (see_element c h) l g e =
      Good-pop s _ _ _ (ap owed_by_pop c) (ap in_hand c) (found_last cb s.queue.container h)
        (λ h. cc) (g e)
  Step-Good {s} (lock_to_try c free) l g e =
      Good-pop s _ _ _ (ap owed_by_pop c) (ap in_hand c) tt (λ h. cc) (g e)
  Step-Good {s} (find_nothing c h) l g e =
      Good-pop s _ _ _ (ap owed_by_pop c) (ap in_hand c) tt (λ h. cc) (g e)
  Step-Good {s} (find_element c h) l g e =
      Good-pop s _ _ _ (ap owed_by_pop c) (ap in_hand c) (found_last cb s.queue.container h)
        (λ h. cc) (g e)
  Step-Good {s} (read_unread x c h) l g e = Good-read A cb mx cv x s c l h (g e)
  Step-Good {s} (read_outside c h) l g e = absurd (never_outside A cb mx cv s c l (g e) h)
  Step-Good {s} (remove x c) l g e = Good-remove A cb mx cv x s c l (g e)
  Step-Good (give x c) l g e =
      let v = g e in
      record {
        small = v.small;
        sum = omega (arith, v.sum, ap owed_by_pop c);
        order = v.order ∙ rw (c, append_assoc);
        agrees = tt;
        sound = λ h. cc;
      }

  init-Good : (cap : ℕ) → cap < size_mod → Good A cb mx cv (init A cb mx cv cap 0)
  unfolding with_capacity
  init-Good cap h = record {
    small = rw cb.capacity-with_capacity h;
    sum = rw cb.contents-with_capacity;
    order = rw cb.contents-with_capacity;
    agrees = tt;
    sound = λ e. cc;
  }

  record Inv (s : System A cb mx cv) : Type ℓ where
    locks : Locks A cb mx cv s
    good : s.overwritten ≡ false → Good A cb mx cv s

  Steps-Inv :
      (cap : ℕ) {s : System A cb mx cv}
      → cap < size_mod
      → Steps A cb mx cv (init A cb mx cv cap 0) s
      → Inv s
  Steps-Inv cap h start = record {
    locks = record { lock = mx.is_free-unlocked; exclusive = refl };
    good = λ e. init-Good cap h;
  }
  Steps-Inv cap h (later r st) =
      let v = Steps-Inv cap h r in
      record { locks = Step-Locks A cb mx cv st v.locks; good = Step-Good st v.locks v.good }

  pub Steps-Good :
      (cap : ℕ) {s : System A cb mx cv}
      → cap < size_mod
      → Steps A cb mx cv (init A cb mx cv cap 0) s
      → s.overwritten ≡ false
      → Good A cb mx cv s
  Steps-Good cap h r e = (Steps-Inv cap h r).good e

  -- From a new queue with room for fewer than 2 ^ 64 elements whose count was found as 0, however one
  -- thread that pushes and one that calls wait_and_pop and try_pop interleave, as long as no push met a full buffer: what was
  -- pushed so far is what the pops returned, then the element that one has removed, if any, then the
  -- elements of the buffer, the oldest first; and it never read out of range.
  pub pushed-Steps :
      (cap : ℕ) {s : System A cb mx cv}
      → cap < size_mod
      → Steps A cb mx cv (init A cb mx cv cap 0) s
      → s.overwritten ≡ false
      → (s.pushed ≡ s.returned ++ (in_hand s.consumer ++ reverse (cb.contents s.queue.container)))
        × (s.consumer ≢ crashed)
  pushed-Steps cap h r e = let v = Steps-Good cap h r e in (v.order, v.sound)
