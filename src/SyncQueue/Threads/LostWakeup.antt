-- ===== src/SyncQueue/Threads/LostWakeup.antt =====
-- include/SynchronisedQueue.hh: interleavings of an Enqueue, which takes no lock, with a Dequeue.
use test_buffer.Prelude.{[], inc, refl, true, ◌++◌, ◌∷◌, ◌≡◌}
use test_buffer.Boost.Threads.{Mutex, Condition}
use test_buffer.SyncQueue.Threads.{
  ready, outside, waiting, System, push, read_for_inc, write_inc, notify, take_lock, see_empty,
  start_wait, see_front, pop, read_for_dec, write_dec, give, Steps, start, later,
}

module _ {ℓ} (A : Type ℓ) (mx : Mutex) (cv : Condition) where
  -- Neither thread is in a call, and the lock is free.
  pub record IsQuiet (s : System A mx cv) : Type ℓ where
    pub idle_producer : s.producer ≡ ready
    pub idle_consumer : s.consumer ≡ outside
    pub free : mx.is_free s.mutex ≡ true

  -- An element is in the queue, the producer has finished its call, and the consumer is blocked in
  -- its wait with no notification left.
  pub record IsStuck (x : A) (s : System A mx cv) : Type ℓ where
    pub holds : s.queue ≡ x ∷ []
    pub finished : s.producer ≡ ready
    pub blocked : s.consumer ≡ waiting
    pub unnotified : cv.is_waiting s.cond ≡ true

  -- Lost wake-up: from every quiet state with an empty queue, one call of Enqueue that runs
  -- whole between the consumer's test and its wait leads to a stuck state.
  pub lost_wakeup :
      (x : A) {s : System A mx cv}
      → IsQuiet s
      → s.queue ≡ []
      → (t : System A mx cv) × Steps A mx cv s t × IsStuck x t
  lost_wakeup x {s} quiet nothing = (
    _,
    later
        (later
          (later
            (later
              (later
                (later (later start (take_lock quiet.idle_consumer quiet.free))
                  (see_empty refl nothing))
                (push x quiet.idle_producer))
              (read_for_inc refl))
            (write_inc _ refl))
          (notify refl))
        (start_wait refl),
    record {
      holds = rw nothing;
      finished = refl;
      blocked = refl;
      unnotified = cv.is_waiting-wait _;
    },
  )

  -- Lost update of `m_size`: from every quiet state that holds one element, an Enqueue and
  -- a Dequeue that overlap lead to a quiet state that again holds one element, where Size() is one
  -- more than it was.
  pub lost_size_update :
      (x y : A) {s : System A mx cv}
      → IsQuiet s
      → s.queue ≡ y ∷ []
      → (t : System A mx cv) × Steps A mx cv s t
        × IsQuiet t
        × (t.queue ≡ x ∷ [])
        × (t.size ≡ inc s.size)
  lost_size_update x y {s} quiet one =
      let both : s.queue ++ x ∷ [] ≡ y ∷ x ∷ [] = rw one in
      let half = later (later start (push x quiet.idle_producer)) (read_for_inc refl) in
      let held =
        later (later half (take_lock quiet.idle_consumer quiet.free))
          (see_front y (x ∷ []) refl both) in
      let out =
        later (later (later held (pop y y (x ∷ []) refl both)) (read_for_dec y refl))
          (write_dec y s.size refl) in
      (
        _,
        later (later (later out (give y refl)) (write_inc s.size refl)) (notify refl),
        record { idle_producer = refl; idle_consumer = refl; free = mx.is_free-unlock _ },
        refl,
        refl,
      )
