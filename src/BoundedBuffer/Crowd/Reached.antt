-- ===== src/BoundedBuffer/Crowd/Reached.antt =====
-- include/bounded_buffer.hh: what holds of all threads together in the states that they reach.
use test_buffer.Prelude.{
  Bool-cases, ap, false, inl, inr, refl, same_or_not, sym, true, update, update-cases, ℕ, ◌<◌, ◌∙◌,
  ◌≡◌, ◌≢◌,
}
use test_buffer.Boost.CircularBuffer.{CircularBuffer}
use test_buffer.Boost.Threads.{Mutex, Conditions}
use test_buffer.Threads.Locks.{Locks, Locks-init, Locks-lock, Locks-unlock, Locks-move}
use test_buffer.BoundedBuffer.{push_front}
use test_buffer.BoundedBuffer.Crowd.{
  Point, outside, locked, storing, pushed, unlocked, testing, to_wait, waiting, nonempty, read,
  notified, asking, System, init, is_empty, Step, lock_to_push, begin_push, push, unlock_push,
  notify_push, lock_to_pop, see_empty, start_wait, spurious, end_wait, see_element, read_back,
  notify_pop, give, lock_to_ask, answer, ask_size, ask_capacity, Steps, start, later,
}
use test_buffer.BoundedBuffer.Crowd.Holding.{
  Sees, Sees-outside, Sees-move, holds, due, Due, Inv, Asleep-move, small-move, Due-move, Due-here,
  Inv-go, Inv-notify,
}

module _ {ℓ} (A : Type ℓ) (cb : CircularBuffer A) (mx : Mutex) (cv : Conditions) (n : ℕ) where
  abbrev pub State : Type ℓ
  State = System A cb mx cv

  abbrev pub Valid : State → Type ℓ
  Valid s = Inv n (mx.is_free s.mutex) (is_empty A cb mx cv s) (cv.is_waiting s.not_empty) s.point

  awake :
      (s : State) (t : ℕ) (p : Point A)
      → s.point t ≡ p
      → p ≢ waiting
      → Valid s
      → cv.is_waiting s.not_empty t ≢ true
  awake s t p at other v h = other (sym at ∙ v.asleep t h)

  inside : (s : State) (t : ℕ) (p : Point A) → s.point t ≡ p → p ≢ outside → Valid s → t < n
  inside s t p at other v = v.small t (λ h. other (sym at ∙ h))

  pub seen :
      (s : State) (t : ℕ) (p : Point A) → s.point t ≡ p → Valid s → Sees (is_empty A cb mx cv s) p
  seen s t p e v = let here : Sees (is_empty A cb mx cv s) (s.point t) = v.sees t in rw e at here

  -- What was not to notify need not.
  still :
      (s : State) (t : ℕ) (p q : Point A)
      → s.point t ≡ p
      → due (cv.is_waiting s.not_empty t) p ≡ false
      → Valid s
      → Due (is_empty A cb mx cv s) (cv.is_waiting s.not_empty) (update t q s.point)
  still s t p q at idle v =
      Due-move t q _ (cv.is_waiting s.not_empty) s.point
        (λ h. cc (h, idle, ap (due (cv.is_waiting s.not_empty t)) at)) v.owed

  took :
      (s : State) (t : ℕ) (q : Point A)
      → mx.is_free s.mutex ≡ true
      → holds q ≡ true
      → Valid s
      → Locks holds (mx.is_free (mx.lock s.mutex)) (update t q s.point)
  took s t q free has v =
      rw (mx.is_free-lock s.mutex) (Locks-lock holds t q s.point free has v.locks)

  freed :
      (s : State) (t : ℕ) (q : Point A)
      → holds (s.point t) ≡ true
      → holds q ≡ false
      → Valid s
      → Locks holds (mx.is_free (mx.unlock s.mutex)) (update t q s.point)
  freed s t q has out v =
      rw (mx.is_free-unlock s.mutex) (Locks-unlock holds t q s.point has out v.locks)

  pub Step-Valid : {s u : State} → Step A cb mx cv n s u → Valid s → Valid u
  Step-Valid {s} (lock_to_push t x l at free) v =
      Inv-go n t (locked x) s.point (took s t (locked x) free refl v) tt
        (awake s t _ at (λ h. cc) v) l (still s t _ (locked x) at refl v) v
  Step-Valid {s} (begin_push t x at) v =
      Inv-go n t (storing x) s.point
        (Locks-move holds t (storing x) s.point (sym (ap holds at)) v.locks) tt
        (awake s t _ at (λ h. cc) v) (inside s t _ at (λ h. cc) v)
        (still s t _ (storing x) at refl v) v
  Step-Valid {s} (push t x at) v = record {
    locks = Locks-move holds t pushed s.point (sym (ap holds at)) v.locks;
    sees =
        update-cases (λ u p. Sees (cb.empty (push_front cb x (s.seen t)).container) p) t pushed
          s.point tt
          (λ u m. Sees-outside _ (s.point u) (elim (Bool-cases (holds (s.point u))) [
            | inl h ↦ absurd (m (v.locks.exclusive u t h (ap holds at)))
            | inr h ↦ h
          ]));
    asleep = Asleep-move t pushed _ _ s.point (awake s t _ at (λ h. cc) v) (λ u h. h) v.asleep;
    small = small-move n t pushed s.point (inside s t _ at (λ h. cc) v) v.small;
    owed = Due-here t pushed _ _ s.point refl;
  }
  Step-Valid {s} (unlock_push t at) v =
      Inv-go n t unlocked s.point (freed s t unlocked (ap holds at) refl v) tt
        (awake s t _ at (λ h. cc) v) (inside s t _ at (λ h. cc) v)
        (Due-here t unlocked _ _ s.point refl) v
  Step-Valid {s} (notify_push t at) v =
      Inv-notify n t outside s.point (sym (ap holds at)) tt (λ h. cc (at, h)) (λ h. cc (at, h))
        (λ u. cv.notify_one-keeps u s.not_empty) (λ u. cv.notify_one-wakes u s.not_empty) v
  Step-Valid {s} (lock_to_pop t l at free) v =
      Inv-go n t testing s.point (took s t testing free refl v) tt (awake s t _ at (λ h. cc) v) l
        (Due-here t testing _ _ s.point refl) v
  Step-Valid {s} (see_empty t at e) v = record {
    locks = Locks-move holds t to_wait s.point (sym (ap holds at)) v.locks;
    sees = Sees-move t to_wait _ s.point e v.sees;
    asleep = Asleep-move t to_wait _ _ s.point (awake s t _ at (λ h. cc) v) (λ u h. h) v.asleep;
    small = small-move n t to_wait s.point (inside s t _ at (λ h. cc) v) v.small;
    owed = λ full. cc (e, full);
  }
  Step-Valid {s} (start_wait t at) v = record {
    locks = freed s t waiting (ap holds at) refl v;
    sees = Sees-move t waiting _ s.point tt v.sees;
    asleep =
        update-cases (λ u p. cv.is_waiting (cv.wait t s.not_empty) u ≡ true → p ≡ waiting) t waiting
          s.point (λ h. refl)
          (λ u m h. v.asleep u (sym (cv.is_waiting-wait_other t u s.not_empty m) ∙ h));
    small = small-move n t waiting s.point (inside s t _ at (λ h. cc) v) v.small;
    owed = λ full. cc (seen s t to_wait at v, full);
  }
  Step-Valid {s} (spurious t at) v =
      let fewer : (u : ℕ)
          → cv.is_waiting (cv.wake t s.not_empty) u ≡ true
          → cv.is_waiting s.not_empty u ≡ true =
        λ u h. elim (same_or_not t u) [
          | inl e ↦
              cc (h, ap (cv.is_waiting (cv.wake t s.not_empty)) e, cv.is_waiting-wake t s.not_empty)
          | inr m ↦ sym (cv.is_waiting-wake_other t u s.not_empty m) ∙ h
        ] in
      record {
        locks = v.locks;
        sees = v.sees;
        asleep = λ u h. v.asleep u (fewer u h);
        small = v.small;
        owed = λ full u h. (t, cc (at, cv.is_waiting-wake t s.not_empty));
      }
  Step-Valid {s} (end_wait t at w free) v =
      Inv-go n t testing s.point (took s t testing free refl v) tt (λ h. cc (w, h))
        (inside s t _ at (λ h. cc) v) (Due-here t testing _ _ s.point refl) v
  Step-Valid {s} (see_element t at e) v =
      Inv-go n t nonempty s.point (Locks-move holds t nonempty s.point (sym (ap holds at)) v.locks)
        e (awake s t _ at (λ h. cc) v) (inside s t _ at (λ h. cc) v)
        (Due-here t nonempty _ _ s.point refl) v
  Step-Valid {s} (read_back t x at e) v =
      Inv-go n t (read x) s.point (Locks-move holds t (read x) s.point (sym (ap holds at)) v.locks)
        tt (awake s t _ at (λ h. cc) v) (inside s t _ at (λ h. cc) v)
        (Due-here t (read x) _ _ s.point refl) v
  Step-Valid {s} (notify_pop t x at) v =
      Inv-notify n t (notified x) s.point (sym (ap holds at)) tt (λ h. cc (at, h)) (λ h. cc (at, h))
        (λ u. cv.notify_one-keeps u s.not_empty) (λ u. cv.notify_one-wakes u s.not_empty) v
  Step-Valid {s} (give t x at) v =
      Inv-go n t outside s.point (freed s t outside (ap holds at) refl v) tt
        (awake s t _ at (λ h. cc) v) (inside s t _ at (λ h. cc) v) (still s t _ outside at refl v) v
  Step-Valid {s} (lock_to_ask t l at free) v =
      Inv-go n t asking s.point (took s t asking free refl v) tt (awake s t _ at (λ h. cc) v) l
        (still s t _ asking at refl v) v
  Step-Valid {s} (answer t b at e) v =
      Inv-go n t outside s.point (freed s t outside (ap holds at) refl v) tt
        (awake s t _ at (λ h. cc) v) (inside s t _ at (λ h. cc) v) (still s t _ outside at refl v) v
  Step-Valid (ask_size t l at) v = v
  Step-Valid (ask_capacity t l at) v = v

  pub Steps-Valid : (cap : ℕ) {s : State} → Steps A cb mx cv n (init A cb mx cv cap) s → Valid s
  Steps-Valid cap start = record {
    locks = rw (mx.is_free-unlocked) (Locks-init holds (λ t. outside) (λ t. refl));
    sees = λ u. tt;
    asleep = λ u h. cc (h, cv.is_waiting-fresh u);
    small = λ u h. absurd (h refl);
    owed = λ full u h. cc (h, cv.is_waiting-fresh u);
  }
  Steps-Valid cap (later r st) = Step-Valid st (Steps-Valid cap r)
