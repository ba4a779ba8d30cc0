-- ===== src/BoundedBuffer/Crowd/Wakeup.antt =====
-- include/bounded_buffer.hh: with any number of threads, whoever waits for an element that is there is
-- woken.
use test_buffer.Prelude.{
  Bool, Bool-cases, ap, arith, false, inl, inr, refl, suc, sym, true, update-other, update-same,
  zero, ℕ, ◌<◌, ◌∙◌, ◌≡◌, ◌≢◌, ◌≤◌,
}
use test_buffer.Boost.CircularBuffer.{CircularBuffer}
use test_buffer.Boost.Threads.{Mutex, Conditions}
use test_buffer.Threads.Locks.{Locks-free}
use test_buffer.Threads.Counts.{one_if, one_if-le, total, total-lt}
use test_buffer.BoundedBuffer.Crowd.{
  Point, outside, locked, storing, pushed, unlocked, testing, to_wait, waiting, nonempty, read,
  notified, asking, init, is_empty, Step, notify_push, end_wait, Steps, start, later,
}
use test_buffer.BoundedBuffer.Crowd.Holding.{holds, due}
use test_buffer.BoundedBuffer.Crowd.Copies.{Steps-Copies}
use test_buffer.BoundedBuffer.Crowd.Reached.{State, Valid, Step-Valid, Steps-Valid}
use test_buffer.BoundedBuffer.Crowd.Freeing.{Freed, Steps-append, first, tests, frees}

module _ {ℓ} (A : Type ℓ) (cb : CircularBuffer A) (mx : Mutex) (cv : Conditions) (n : ℕ) where
  abbrev Here : Type ℓ
  Here = State A cb mx cv n

  abbrev asleep : Here → ℕ → Bool
  asleep s u = cv.is_waiting s.not_empty u

  -- With the lock free, the thread that is to notify does so, and leaves the lock free.
  notifies :
      (s : Here) (u : ℕ) (p : Point A)
      → s.point u ≡ p
      → due (asleep s u) p ≡ true
      → holds p ≡ false
      → Valid A cb mx cv n s
      → is_empty A cb mx cv s ≡ false
      → mx.is_free s.mutex ≡ true
      → Freed A cb mx cv n s u (cv.notify_one s.not_empty)
  notifies s u unlocked at d out v full free =
      let st : Step A cb mx cv n s _ = notify_push u at in
      record {
        after = _;
        steps = later start st;
        valid = Step-Valid A cb mx cv n st v;
        full = full;
        free = free;
        cond = refl;
        others = λ o m. update-other u o outside s.point m;
      }
  notifies s u waiting at d out v full free =
      let woken : asleep s u ≡ false = ground (arith, d) in
      let st : Step A cb mx cv n s _ = end_wait u at woken free in
      first A cb mx cv n u _ st (λ o m. update-other u o testing s.point m)
        (tests A cb mx cv n u _ (update-same u testing s.point) (Step-Valid A cb mx cv n st v) full)
  notifies s u outside at d out v full free = cc
  notifies s u (locked x) at d out v full free = cc
  notifies s u (storing x) at d out v full free = cc
  notifies s u pushed at d out v full free = cc
  notifies s u testing at d out v full free = cc
  notifies s u to_wait at d out v full free = cc
  notifies s u nonempty at d out v full free = cc
  notifies s u (read x) at d out v full free = cc
  notifies s u (notified x) at d out v full free = cc
  notifies s u asking at d out v full free = cc

  -- Steps lead to a state where thread `t`, which still waits, may go on.
  abbrev pub Woken : ℕ → Here → Type ℓ
  Woken t s =
      (s' : Here) × Steps A cb mx cv n s s'
      × (s'.point t ≡ waiting)
      × (asleep s' t ≡ false)
      × (mx.is_free s'.mutex ≡ true)

  onward : {s s' : Here} (t : ℕ) → Steps A cb mx cv n s s' → Woken t s' → Woken t s
  onward t r (s', q, at, woken, free) = (s', Steps-append A cb mx cv n r q, at, woken, free)

  sleepers : Here → ℕ
  sleepers s = total (λ u. one_if (asleep s u)) n

  -- A notify_one leaves fewer asleep.
  sleepers-lt :
      (s s' : Here) (t : ℕ)
      → Valid A cb mx cv n s
      → asleep s t ≡ true
      → s'.not_empty ≡ cv.notify_one s.not_empty
      → sleepers s' < sleepers s
  unfolding sleepers
  sleepers-lt s s' t v h e =
      let (o, was, now) = cv.notify_one-wakes t s.not_empty h in
      total-lt (λ u. one_if (asleep s' u)) (λ u. one_if (asleep s u)) n o
        (λ u l.
          one_if-le _ _
            (λ i. cv.notify_one-keeps u s.not_empty (sym (ap (λ c. cv.is_waiting c u) e) ∙ i)))
        (v.small o (λ at. cc (at, v.asleep o was))) (rw (e, now, was) (omega arith))

  -- With the lock free, another thread notifies.
  round :
      (s : Here) (t : ℕ)
      → Valid A cb mx cv n s
      → is_empty A cb mx cv s ≡ false
      → mx.is_free s.mutex ≡ true
      → s.point t ≡ waiting
      → asleep s t ≡ true
      → (o : ℕ) × (f : Freed A cb mx cv n s o (cv.notify_one s.not_empty)) × (t ≢ o)
        × (sleepers f.after < sleepers s)
  round s t v full free at sleeps =
      let (o, d) = v.owed full t sleeps in
      let f : Freed A cb mx cv n s o (cv.notify_one s.not_empty) =
        notifies s o (s.point o) refl d (Locks-free holds o v.locks free) v full free in
      (o, f, (λ e. cc (d, e, at, sleeps)), sleepers-lt s f.after t v sleeps f.cond)

  -- With the lock free, by the number of threads that are asleep.
  wakes :
      (k : ℕ) (s : Here) (t : ℕ)
      → sleepers s ≤ k
      → Valid A cb mx cv n s
      → is_empty A cb mx cv s ≡ false
      → mx.is_free s.mutex ≡ true
      → s.point t ≡ waiting
      → Woken t s
  wakes zero s t few v full free at = elim (Bool-cases (asleep s t)) [
    | inr woken ↦ (s, start, at, woken, free)
    | inl sleeps ↦
        let (o, f, another, less) = round s t v full free at sleeps in
        absurd (omega (arith, few, less))
  ]
  wakes (suc k) s t few v full free at = elim (Bool-cases (asleep s t)) [
    | inr woken ↦ (s, start, at, woken, free)
    | inl sleeps ↦
        let (o, f, another, less) = round s t v full free at sleeps in
        onward t f.steps (
          wakes k f.after t (omega (arith, few, less)) f.valid f.full f.free
            (f.others t another ∙ at))
  ]

  -- No wake-up is lost among any number of threads, since pop_back notifies too: in a state that steps
  -- lead to, where a thread waits in pop_back, no notification has reached it and the buffer is not
  -- empty, some thread comes to a notify_one before it is through with its call, and steps lead to a
  -- state where the thread that waits may go on.
  pub asleep-Steps :
      (cap : ℕ) {s : Here} (t : ℕ)
      → Steps A cb mx cv n (init A cb mx cv cap) s
      → asleep s t ≡ true
      → is_empty A cb mx cv s ≡ false
      → ((u : ℕ) × (due (asleep s u) (s.point u) ≡ true)) × Woken t s
  asleep-Steps cap {s} t r sleeps full =
      let v = Steps-Valid A cb mx cv n cap r in
      let at = v.asleep t sleeps in
      (
        v.owed full t sleeps,
        elim (Bool-cases (mx.is_free s.mutex)) [
          | inl free ↦ wakes (sleepers s) s t (omega arith) v full free at
          | inr held ↦
              let (u, h) = v.locks.taken held in
              let another : t ≢ u = λ e. cc (h, ap s.point e, at) in
              elim (frees A cb mx cv n u (s.point u) s refl h (Steps-Copies A cb mx cv n cap r) v
                full) [
                  | inl f ↦ onward t f.steps (
                      wakes (sleepers f.after) f.after t (omega arith) f.valid f.full f.free
                        (f.others t another ∙ at))
                  | inr f ↦ onward t f.steps (
                      wakes (sleepers f.after) f.after t (omega arith) f.valid f.full f.free
                        (f.others t another ∙ at))
                ]
        ],
      )
