-- ===== src/WorkQueue/Crowd/Counted.antt =====
-- include/queue.hh: `m_unread` with any number of threads, while no push has met a full buffer.
use test_buffer.Prelude.{
  List, [], ap, arith, false, length, length-append, refl, size_mod, sym, true, update, ℕ, ◌<◌, ◌∙◌,
  ◌∷◌, ◌≡◌,
}
use test_buffer.Boost.CircularBuffer.{CircularBuffer, found_last, length-contents-le}
use test_buffer.Boost.Threads.{Mutex, Conditions}
use test_buffer.Threads.Guarded.{
  Guarded-init, Guarded-lock, Guarded-work, Guarded-unlock, Guarded-aside,
}
use test_buffer.WorkQueue.{with_capacity}
use test_buffer.WorkQueue.Fifo.{not-nil}
use test_buffer.WorkQueue.Crowd.{
  Point, outside, locked, stored, counted, unlocked, testing, to_wait, waiting, trying, nonempty,
  read, removed, asking, System, init, Step, lock_to_push, store, count, unlock_push, notify,
  lock_to_pop, see_empty, start_wait, spurious, end_wait, see_element, lock_to_try, find_nothing,
  find_element, read_unread, read_outside, remove, give, lock_to_ask, answer, ask_size,
  ask_capacity, Steps, start, later,
}
use test_buffer.WorkQueue.Crowd.Holding.{holds}
use test_buffer.WorkQueue.Crowd.Unread.{
  Agrees, elements, Guards, Good, has, contents-store, contents-remove, last_index,
}

module _ {ℓ} (A : Type ℓ) (cb : CircularBuffer A) (mx : Mutex) (cv : Conditions) (n : ℕ) where
  abbrev State : Type ℓ
  State = System A cb mx cv

  module _ (cap : ℕ) (h : cap < size_mod) where
    -- A call takes the lock.
    takes :
        (s : State) (t : ℕ) (q : Point A)
        → mx.is_free s.mutex ≡ true
        → holds q ≡ true
        → (s.queue.unread ≡ length (elements A cb mx cv n s)
            → Agrees s.queue.unread (elements A cb mx cv n s) q)
        → Good A cb mx cv n cap s
        → Guards A cb mx cv n
            (mx.is_free (mx.lock s.mutex))
            (update t q s.point)
            s.queue.unread
            (elements A cb mx cv n s)
    takes s t q free hold into v =
        Guarded-lock holds t q s.point free (mx.is_free-lock s.mutex) hold into v.guard

    -- A call frees it.
    frees :
        (s : State) (t : ℕ) (p q : Point A)
        → s.point t ≡ p
        → holds p ≡ true
        → holds q ≡ false
        → (Agrees s.queue.unread (elements A cb mx cv n s) p
            → s.queue.unread ≡ length (elements A cb mx cv n s))
        → Good A cb mx cv n cap s
        → Guards A cb mx cv n
            (mx.is_free (mx.unlock s.mutex))
            (update t q s.point)
            s.queue.unread
            (elements A cb mx cv n s)
    frees s t p q e had out from v =
        Guarded-unlock holds t q s.point (ap holds e ∙ had) (mx.is_free-unlock s.mutex) out
          (from (has A cb mx cv n s t p e had v)) v.guard

    -- A call goes on with it.
    works :
        (s : State) (t : ℕ) (p q : Point A) {m : ℕ} {xs : List A}
        → s.point t ≡ p
        → holds p ≡ true
        → holds q ≡ true
        → Agrees m xs q
        → Good A cb mx cv n cap s
        → Guards A cb mx cv n (mx.is_free s.mutex) (update t q s.point) m xs
    works s t p q e had hold here v =
        Guarded-work holds t q s.point (ap holds e ∙ had) hold here v.guard

    Step-Good :
        {s u : State}
        → Step A cb mx cv n s u
        → (s.overwritten ≡ false → Good A cb mx cv n cap s)
        → u.overwritten ≡ false
        → Good A cb mx cv n cap u
    Step-Good {s} (lock_to_push t x l p free) g e =
        let v = g e in
        record { room = v.room; guard = takes s t (locked x) free refl (λ i. (i, tt)) v }
    Step-Good {s} (store t x p) g e =
        let v = g (ground arith) in
        let fits = contents-store A cb mx cv n x s (ground arith) in
        record {
          room = cb.capacity-push_front x s.queue.container ∙ v.room;
          guard =
              works s t (locked x) stored p refl refl
                (omega (arith, ap length fits, (has A cb mx cv n s t (locked x) p refl v).0), tt) v;
        }
    Step-Good {s} (count t p) g e =
        let v = g e in
        record {
          room = v.room;
          guard =
              works s t stored counted p refl refl
                (
                  omega (
                    arith,
                    h,
                    v.room,
                    (has A cb mx cv n s t stored p refl v).0,
                    length-contents-le cb s.queue.container,
                  ),
                  tt,
                )
                v;
        }
    Step-Good {s} (unlock_push t p) g e =
        let v = g e in
        record { room = v.room; guard = frees s t counted unlocked p refl refl (λ i. i.0) v }
    Step-Good {s} (notify t p) g e =
        let v = g e in
        record {
          room = v.room;
          guard = Guarded-aside holds t outside s.point (ap holds p) refl v.guard;
        }
    Step-Good {s} (lock_to_pop t l p free) g e =
        let v = g e in
        record { room = v.room; guard = takes s t testing free refl (λ i. (i, tt)) v }
    Step-Good {s} (see_empty t p c) g e =
        let v = g e in
        record {
          room = v.room;
          guard = works s t testing to_wait p refl refl (has A cb mx cv n s t testing p refl v) v;
        }
    Step-Good {s} (start_wait t p) g e =
        let v = g e in
        record { room = v.room; guard = frees s t to_wait waiting p refl refl (λ i. i.0) v }
    Step-Good (spurious t p) g e = let v = g e in record { room = v.room; guard = v.guard }
    Step-Good {s} (end_wait t p w free) g e =
        let v = g e in
        record { room = v.room; guard = takes s t testing free refl (λ i. (i, tt)) v }
    Step-Good {s} (see_element t p c) g e =
        let v = g e in
        record {
          room = v.room;
          guard =
              works s t testing nonempty p refl refl
                ((has A cb mx cv n s t testing p refl v).0, found_last cb s.queue.container c) v;
        }
    Step-Good {s} (lock_to_try t l p free) g e =
        let v = g e in record { room = v.room; guard = takes s t trying free refl (λ i. (i, tt)) v }
    Step-Good {s} (find_nothing t p c) g e =
        let v = g e in
        record { room = v.room; guard = frees s t trying outside p refl refl (λ i. i.0) v }
    Step-Good {s} (find_element t p c) g e =
        let v = g e in
        record {
          room = v.room;
          guard =
              works s t trying nonempty p refl refl
                ((has A cb mx cv n s t trying p refl v).0, found_last cb s.queue.container c) v;
        }
    Step-Good {s} (read_unread t x p hit) g e =
        let v = g e in
        let (sum, (ys, y, c)) = has A cb mx cv n s t nonempty p refl v in
        let (index, got) = last_index A cb mx cv n s ys y h c sum v.room in
        let same : x ≡ y = cc (hit, got) in
        record {
          room = v.room;
          guard =
              works s t nonempty (read x) p refl refl
                (omega (arith, index, ap length c, length-append ys (y ∷ [])), (ys, rw same c)) v;
        }
    Step-Good {s} (read_outside t p miss) g e =
        let v = g e in
        let (sum, (ys, y, c)) = has A cb mx cv n s t nonempty p refl v in
        let (index, got) = last_index A cb mx cv n s ys y h c sum v.room in cc (miss, got)
    Step-Good {s} (remove t x p) g e =
        let v = g e in
        let (sum, (ys, c)) = has A cb mx cv n s t (read x) p refl v in
        record {
          room = cb.capacity-pop_back s.queue.container (not-nil cb ys x c) ∙ v.room;
          guard =
              works s t (read x) (removed x) p refl refl
                (
                  omega (
                    arith,
                    sum,
                    ap length c,
                    ap length (contents-remove A cb mx cv n x ys s c),
                    length-append ys (x ∷ []),
                  ),
                  tt,
                )
                v;
        }
    Step-Good {s} (give t x p) g e =
        let v = g e in
        record { room = v.room; guard = frees s t (removed x) outside p refl refl (λ i. i.0) v }
    Step-Good {s} (lock_to_ask t l p free) g e =
        let v = g e in record { room = v.room; guard = takes s t asking free refl (λ i. (i, tt)) v }
    Step-Good {s} (answer t b p c) g e =
        let v = g e in
        record { room = v.room; guard = frees s t asking outside p refl refl (λ i. i.0) v }
    Step-Good (ask_size t l p) g e = g e
    Step-Good (ask_capacity t l p) g e = g e

    pub Steps-Good :
        {s : State}
        → Steps A cb mx cv n (init A cb mx cv cap 0) s
        → s.overwritten ≡ false
        → Good A cb mx cv n cap s
    unfolding with_capacity
    Steps-Good start e = record {
      room = cb.capacity-with_capacity cap;
      guard =
          Guarded-init holds (λ t. outside) (λ t. refl) mx.is_free-unlocked
            (sym (ap length (cb.contents-with_capacity cap)));
    }
    Steps-Good (later r st) e = Step-Good st (Steps-Good r) e
