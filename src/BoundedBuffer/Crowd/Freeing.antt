-- ===== src/BoundedBuffer/Crowd/Freeing.antt =====
-- include/bounded_buffer.hh: with any number of threads and an element in the container, the thread that
-- has the lock comes to free it.
use test_buffer.Prelude.{
  Option-cases, ap, arith, false, inl, inr, last-nil, length, length-take, refl, some, sym, true,
  update-other, update-same, ℕ, ◌∙◌, ◌∷◌, ◌≡◌, ◌≢◌, ◌⊎◌,
}
use test_buffer.Boost.CircularBuffer.{
  CircularBuffer, empty-false, empty-true, length-full, length-contents-le,
}
use test_buffer.Boost.Threads.{Mutex, Conditions}
use test_buffer.BoundedBuffer.{push_front}
use test_buffer.BoundedBuffer.Crowd.{
  Point, outside, locked, storing, pushed, unlocked, testing, to_wait, waiting, nonempty, read,
  notified, asking, is_empty, Step, begin_push, push, unlock_push, see_element, read_back,
  notify_pop, give, answer, Steps, start, later,
}
use test_buffer.BoundedBuffer.Crowd.Holding.{holds}
use test_buffer.BoundedBuffer.Crowd.Copies.{Copies}
use test_buffer.BoundedBuffer.Crowd.Reached.{seen, State, Valid, Step-Valid}

module _ {ℓ} {A : Type ℓ} (cb : CircularBuffer A) where
  pub back-some : (c : cb.Carrier) → cb.empty c ≡ false → (x : A) × (cb.back c ≡ some x)
  back-some c e = elim (Option-cases (cb.back c)) [
    | inl none_there ↦
        cc (e, empty-true cb c (last-nil (cb.contents c) (sym (cb.back-contents c) ∙ none_there)))
    | inr found ↦ found
  ]

  push_front-empty :
      (x : A) (c : cb.Carrier) → cb.empty c ≡ false → cb.empty (cb.push_front x c) ≡ false
  push_front-empty x c e = empty-false cb (cb.push_front x c) (λ h. absurd (
      omega (
        arith,
        length-full cb c e,
        length-contents-le cb c,
        length-take (cb.capacity c) (x ∷ cb.contents c),
        ap length (sym (cb.contents-push_front x c) ∙ h),
      )))

module _ {ℓ} (A : Type ℓ) (cb : CircularBuffer A) (mx : Mutex) (cv : Conditions) (n : ℕ) where
  abbrev Here : Type ℓ
  Here = State A cb mx cv n

  pub Steps-append :
      {s t u : Here} → Steps A cb mx cv n s t → Steps A cb mx cv n t u → Steps A cb mx cv n s u
  Steps-append r start = r
  Steps-append r (later q st) = later (Steps-append r q) st

  -- Steps of thread `u` lead to a state with the lock free, the condition `c` and still an element.
  pub record Freed (s : Here) (u : ℕ) (c : cv.State) : Type ℓ where
    pub after : Here
    pub steps : Steps A cb mx cv n s after
    pub valid : Valid A cb mx cv n after
    pub full : is_empty A cb mx cv after ≡ false
    pub free : mx.is_free after.mutex ≡ true
    pub cond : after.not_empty ≡ c
    pub others : (v : ℕ) → v ≢ u → after.point v ≡ s.point v

  -- One more step at the front.
  pub first :
      {s s' : Here} (u : ℕ) (c : cv.State)
      → Step A cb mx cv n s s'
      → ((v : ℕ) → v ≢ u → s'.point v ≡ s.point v)
      → Freed s' u c
      → Freed s u c
  first u c st same f = record {
    after = f.after;
    steps = Steps-append (later start st) f.steps;
    valid = f.valid;
    full = f.full;
    free = f.free;
    cond = f.cond;
    others = λ v m. f.others v m ∙ same v m;
  }

  -- A step of thread `u` that frees the lock.
  last :
      {s s' : Here} (u : ℕ)
      → Step A cb mx cv n s s'
      → Valid A cb mx cv n s
      → is_empty A cb mx cv s' ≡ false
      → mx.is_free s'.mutex ≡ true
      → ((v : ℕ) → v ≢ u → s'.point v ≡ s.point v)
      → Freed s u s'.not_empty
  last u st v full free same = record {
    after = _;
    steps = later start st;
    valid = Step-Valid A cb mx cv n st v;
    full = full;
    free = free;
    cond = refl;
    others = same;
  }

  module _ (u : ℕ) where
    gives :
        (x : A) (s : Here)
        → s.point u ≡ notified x
        → Valid A cb mx cv n s
        → is_empty A cb mx cv s ≡ false
        → Freed s u s.not_empty
    gives x s at v full =
        last u (give u x at) v full (mx.is_free-unlock s.mutex)
          (λ o m. update-other u o outside s.point m)

    notifies :
        (x : A) (s : Here)
        → s.point u ≡ read x
        → Valid A cb mx cv n s
        → is_empty A cb mx cv s ≡ false
        → Freed s u (cv.notify_one s.not_empty)
    notifies x s at v full =
        let st : Step A cb mx cv n s _ = notify_pop u x at in
        first u _ st (λ o m. update-other u o (notified x) s.point m)
          (gives x _ (update-same u (notified x) s.point) (Step-Valid A cb mx cv n st v) full)

    reads :
        (s : Here)
        → s.point u ≡ nonempty
        → Valid A cb mx cv n s
        → is_empty A cb mx cv s ≡ false
        → Freed s u (cv.notify_one s.not_empty)
    reads s at v full =
        let (x, e) = back-some cb s.buffer.container full in
        let st : Step A cb mx cv n s _ = read_back u x at e in
        first u _ st (λ o m. update-other u o (read x) s.point m)
          (notifies x _ (update-same u (read x) s.point) (Step-Valid A cb mx cv n st v) full)

    pub tests :
        (s : Here)
        → s.point u ≡ testing
        → Valid A cb mx cv n s
        → is_empty A cb mx cv s ≡ false
        → Freed s u (cv.notify_one s.not_empty)
    tests s at v full =
        let st : Step A cb mx cv n s _ = see_element u at full in
        first u _ st (λ o m. update-other u o nonempty s.point m)
          (reads _ (update-same u nonempty s.point) (Step-Valid A cb mx cv n st v) full)

    unlocks :
        (s : Here)
        → s.point u ≡ pushed
        → Valid A cb mx cv n s
        → is_empty A cb mx cv s ≡ false
        → Freed s u s.not_empty
    unlocks s at v full =
        last u (unlock_push u at) v full (mx.is_free-unlock s.mutex)
          (λ o m. update-other u o unlocked s.point m)

    pushes :
        (x : A) (s : Here)
        → s.point u ≡ storing x
        → s.seen u ≡ s.buffer
        → Valid A cb mx cv n s
        → is_empty A cb mx cv s ≡ false
        → Freed s u s.not_empty
    unfolding push_front
    pushes x s at same v full =
        let st : Step A cb mx cv n s _ = push u x at in
        first u _ st (λ o m. update-other u o pushed s.point m)
          (unlocks _ (update-same u pushed s.point) (Step-Valid A cb mx cv n st v) (
            ap (λ b. cb.empty (cb.push_front x b.container)) same
            ∙ push_front-empty cb x s.buffer.container full))

    begins :
        (x : A) (s : Here)
        → s.point u ≡ locked x
        → Valid A cb mx cv n s
        → is_empty A cb mx cv s ≡ false
        → Freed s u s.not_empty
    begins x s at v full =
        let st : Step A cb mx cv n s _ = begin_push u x at in
        first u _ st (λ o m. update-other u o (storing x) s.point m)
          (pushes x _ (update-same u (storing x) s.point) (update-same u s.buffer s.seen)
            (Step-Valid A cb mx cv n st v) full)

    answers :
        (s : Here)
        → s.point u ≡ asking
        → Valid A cb mx cv n s
        → is_empty A cb mx cv s ≡ false
        → Freed s u s.not_empty
    answers s at v full =
        last u (answer u _ at refl) v full (mx.is_free-unlock s.mutex)
          (λ o m. update-other u o outside s.point m)

    -- The thread with the lock frees it, and may have notified before.
    pub frees :
        (p : Point A) (s : Here)
        → s.point u ≡ p
        → holds p ≡ true
        → Copies A cb mx cv n s
        → Valid A cb mx cv n s
        → is_empty A cb mx cv s ≡ false
        → Freed s u s.not_empty ⊎ Freed s u (cv.notify_one s.not_empty)
    frees (locked x) s at h c v full = inl (begins x s at v full)
    frees (storing x) s at h c v full = inl (pushes x s at (c u x at) v full)
    frees pushed s at h c v full = inl (unlocks s at v full)
    frees testing s at h c v full = inr (tests s at v full)
    frees to_wait s at h c v full = cc (seen A cb mx cv n s u to_wait at v, full)
    frees nonempty s at h c v full = inr (reads s at v full)
    frees (read x) s at h c v full = inr (notifies x s at v full)
    frees (notified x) s at h c v full = inl (gives x s at v full)
    frees asking s at h c v full = inl (answers s at v full)
    frees outside s at h c v full = cc
    frees unlocked s at h c v full = cc
    frees waiting s at h c v full = cc
