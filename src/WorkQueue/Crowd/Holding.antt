-- ===== src/WorkQueue/Crowd/Holding.antt =====
-- include/queue.hh: what holds of all threads together, at each kind of step of one of them: who has the
-- lock, what it has seen of the container, who waits, and how many come to notify or to take.
use test_buffer.Prelude.{
  Bool, ap, arith, false, not, refl, sym, true, update, update-cases, update-other, update-same, ℕ,
  ◌+◌, ◌<◌, ◌∙◌, ◌≡◌, ◌≢◌, ◌≤◌,
}
use test_buffer.Threads.Guarded.{Guarded}
use test_buffer.Threads.Counts.{
  one_if, one_if-le, one_if-small, total, total-le, total-lt, total-change,
}
use test_buffer.WorkQueue.Crowd.{
  Point, outside, stored, counted, unlocked, testing, to_wait, waiting, nonempty, read, crashed,
}

-- Holding the lock.
abbrev pub holds {ℓ} : {A : Type ℓ} → Point A → Bool
holds outside = false
holds unlocked = false
holds waiting = false
holds _ = true

-- The thread has pushed and not yet notified, tests for an element or takes one, or has read out of range:
-- with it counted as waiting or not.
abbrev pub due {ℓ} : {A : Type ℓ} → Bool → Point A → Bool
due w stored = true
due w counted = true
due w unlocked = true
due w testing = true
due w nonempty = true
due w (read x) = true
due w crashed = true
due w waiting = not w
due w _ = false

-- The threads below `n` that are due.
abbrev pub due_count {ℓ} : {A : Type ℓ} → ℕ → (ℕ → Bool) → (ℕ → Point A) → ℕ
due_count n w f = total (λ u. one_if (due (w u) (f u))) n

-- What the test of the container has shown, of its `k` elements.
abbrev pub Sees {ℓ} : {A : Type ℓ} → ℕ → Point A → Type 0
Sees k to_wait = k ≡ 0
Sees k nonempty = 0 < k
Sees k (read x) = 0 < k
Sees k _ = Unit

-- `free`: the lock is. `k`: the elements of the container. `w`: who waits and was not notified. The
-- threads are those below `n`.
pub record Inv {ℓ} {A : Type ℓ} (n : ℕ) (free : Bool) (k : ℕ) (w : ℕ → Bool) (f : ℕ → Point A)
    : Type ℓ where
  pub guard : Guarded holds free f (Sees k) Unit
  pub asleep : (u : ℕ) → w u ≡ true → f u ≡ waiting
  pub small : (u : ℕ) → f u ≢ outside → u < n
  pub owed : (u : ℕ) → w u ≡ true → k ≤ due_count n w f

module _ {ℓ} {A : Type ℓ} where
  -- Whoever is due stays due when fewer wait.
  due-fewer : (a b : Bool) (p : Point A) → (b ≡ true → a ≡ true) → due a p ≡ true → due b p ≡ true
  due-fewer a b waiting h d = ground arith
  due-fewer a b outside h d = cc
  due-fewer a b (Point.locked x) h d = cc
  due-fewer a b stored h d = refl
  due-fewer a b counted h d = refl
  due-fewer a b unlocked h d = refl
  due-fewer a b testing h d = refl
  due-fewer a b to_wait h d = cc
  due-fewer a b Point.trying h d = cc
  due-fewer a b nonempty h d = refl
  due-fewer a b (read x) h d = refl
  due-fewer a b (Point.removed x) h d = cc
  due-fewer a b crashed h d = refl
  due-fewer a b Point.asking h d = cc

  fewer-le :
      (w w' : ℕ → Bool) (f : ℕ → Point A)
      → ((u : ℕ) → w' u ≡ true → w u ≡ true)
      → (u : ℕ) → one_if (due (w u) (f u)) ≤ one_if (due (w' u) (f u))
  fewer-le w w' f fewer u = one_if-le _ _ (due-fewer (w u) (w' u) (f u) (fewer u))

module _ {ℓ} {A : Type ℓ} (n t : ℕ) (q : Point A) where
  small-go :
      (f : ℕ → Point A)
      → t < n
      → ((u : ℕ) → f u ≢ outside → u < n)
      → (u : ℕ) → update t q f u ≢ outside
      → u < n
  small-go f l v = update-cases (λ u p. p ≢ outside → u < n) t q f (λ h. l) (λ u m. v u)

  pub asleep-go :
      (w w' : ℕ → Bool) (f : ℕ → Point A)
      → w t ≢ true
      → ((u : ℕ) → w' u ≡ true → w u ≡ true)
      → ((u : ℕ) → w u ≡ true → f u ≡ waiting)
      → (u : ℕ) → w' u ≡ true
      → update t q f u ≡ waiting
  asleep-go w w' f awake fewer v =
      update-cases (λ u p. w' u ≡ true → p ≡ waiting) t q f (λ h. absurd (awake (fewer t h)))
        (λ u m h. v u (fewer u h))

  -- Only thread `t` may become due or cease to be.
  due-go :
      (w : ℕ → Bool) (f : ℕ → Point A)
      → t < n
      → due_count n w (update t q f) + one_if (due (w t) (f t))
        ≡ due_count n w f + one_if (due (w t) q)
  due-go w f l =
      let change =
        total-change (λ u. one_if (due (w u) (update t q f u))) (λ u. one_if (due (w u) (f u))) n t
          (λ u m. ap (λ p. one_if (due (w u) p)) (update-other t u q f m)) l in
      omega (arith, change, ap (λ p. one_if (due (w t) p)) (update-same t q f))

  -- A step of thread `t` that leaves the condition: the container gets no more elements than threads
  -- become due.
  pub Inv-go :
      {free free' : Bool} (k k' : ℕ) {w : ℕ → Bool} (f : ℕ → Point A)
      → Guarded holds free' (update t q f) (Sees k') Unit
      → w t ≢ true
      → t < n
      → k' + one_if (due (w t) (f t)) ≤ k + one_if (due (w t) q)
      → Inv n free k w f
      → Inv n free' k' w (update t q f)
  Inv-go k k' {w} f guard awake l pays v = record {
    guard = guard;
    asleep = asleep-go w w f awake (λ u h. h) v.asleep;
    small = small-go f l v.small;
    owed = λ u h. omega (arith, due-go w f l, pays, v.owed u h);
  }

  -- A step with the container empty.
  pub Inv-empty :
      {free free' : Bool} {k : ℕ} {w w' : ℕ → Bool} (f : ℕ → Point A)
      → k ≡ 0
      → Guarded holds free' (update t q f) (Sees k) Unit
      → ((u : ℕ) → w' u ≡ true → update t q f u ≡ waiting)
      → t < n
      → Inv n free k w f
      → Inv n free' k w' (update t q f)
  Inv-empty f e guard asleep l v = record {
    guard = guard;
    asleep = asleep;
    small = small-go f l v.small;
    owed = λ u h. omega (arith, e);
  }

  -- A notify_one of thread `t`, which is due no more: if another one still waits, some thread was woken.
  pub Inv-notify :
      {free : Bool} {k : ℕ} (w w' : ℕ → Bool) (f : ℕ → Point A)
      → Guarded holds free (update t q f) (Sees k) Unit
      → f t ≢ waiting
      → f t ≢ outside
      → ((u : ℕ) → w' u ≡ true → w u ≡ true)
      → ((u : ℕ) → w u ≡ true → (o : ℕ) × (w o ≡ true) × (w' o ≡ false))
      → Inv n free k w f
      → Inv n free k w' (update t q f)
  Inv-notify w w' f guard here there fewer wakes v = record {
    guard = guard;
    asleep = asleep-go w w' f (λ h. here (v.asleep t h)) fewer v.asleep;
    small = small-go f (v.small t there) v.small;
    owed = λ u h.
        let (o, was, now) = wakes u (fewer u h) in
        let at : update t q f o ≡ waiting =
          update-other t o q f (λ s. here (sym (ap f s) ∙ v.asleep o was)) ∙ v.asleep o was in
        let more : due_count n w (update t q f) < due_count n w' (update t q f) =
          total-lt (λ u. one_if (due (w u) (update t q f u)))
            (λ u. one_if (due (w' u) (update t q f u))) n o
            (λ u l. fewer-le w w' (update t q f) fewer u)
            (v.small o (λ out. cc (out, v.asleep o was))) (rw (at, was, now) (omega arith)) in
        omega (
          arith,
          more,
          due-go w f (v.small t there),
          v.owed u (fewer u h),
          one_if-small (due (w t) (f t)),
        );
  }

-- A spurious wake-up.
pub Inv-wake {ℓ} :
    {A : Type ℓ} (n : ℕ) {free : Bool} {k : ℕ} (w w' : ℕ → Bool) (f : ℕ → Point A)
    → ((u : ℕ) → w' u ≡ true → w u ≡ true)
    → Inv n free k w f
    → Inv n free k w' f
Inv-wake n w w' f fewer v = record {
  guard = v.guard;
  asleep = λ u h. v.asleep u (fewer u h);
  small = v.small;
  owed = λ u h. omega (
    arith,
    v.owed u (fewer u h),
    total-le (λ u. one_if (due (w u) (f u))) (λ u. one_if (due (w' u) (f u))) n
        (λ u l. fewer-le w w' f fewer u),
  );
}
