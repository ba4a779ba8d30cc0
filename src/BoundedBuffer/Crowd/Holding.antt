-- ===== src/BoundedBuffer/Crowd/Holding.antt =====
-- include/bounded_buffer.hh: what holds of all threads together, at each kind of step of one of them:
-- who has the lock, who waits and who is to notify.
use test_buffer.Prelude.{
  Bool, ap, false, inl, inr, not, same_or_not, sym, true, update, update-cases, update-other,
  update-same, ℕ, ◌<◌, ◌∙◌, ◌≡◌, ◌≢◌,
}
use test_buffer.Threads.Locks.{Locks, Locks-move}
use test_buffer.BoundedBuffer.Crowd.{
  Point, outside, pushed, unlocked, testing, to_wait, waiting, nonempty, read,
}

-- Holding the lock.
abbrev pub holds {ℓ} : {A : Type ℓ} → Point A → Bool
holds outside = false
holds unlocked = false
holds waiting = false
holds _ = true

-- The thread comes to a notify_one, once it runs and finds an element: with it counted as waiting or not.
abbrev pub due {ℓ} : {A : Type ℓ} → Bool → Point A → Bool
due w pushed = true
due w unlocked = true
due w testing = true
due w nonempty = true
due w (read x) = true
due w waiting = not w
due w _ = false

abbrev pub Asleep {ℓ} : {A : Type ℓ} → (ℕ → Bool) → (ℕ → Point A) → Type ℓ
Asleep w f = (u : ℕ) → w u ≡ true → f u ≡ waiting

abbrev pub Due {ℓ} : {A : Type ℓ} → Bool → (ℕ → Bool) → (ℕ → Point A) → Type 0
Due e w f = e ≡ false → (t : ℕ) → w t ≡ true → (u : ℕ) × due (w u) (f u) ≡ true

-- What the test of the container has shown; `e`: it is empty.
abbrev pub Sees {ℓ} : {A : Type ℓ} → Bool → Point A → Type 0
Sees e to_wait = e ≡ true
Sees e nonempty = e ≡ false
Sees e _ = Unit

-- `free`: the lock is. `e`: the container is empty. `w`: who waits and was not notified. The threads
-- are those below `n`.
pub record Inv {ℓ} {A : Type ℓ} (n : ℕ) (free e : Bool) (w : ℕ → Bool) (f : ℕ → Point A)
    : Type ℓ where
  pub locks : Locks holds free f
  pub sees : (u : ℕ) → Sees e (f u)
  pub asleep : Asleep w f
  pub small : (u : ℕ) → f u ≢ outside → u < n
  pub owed : Due e w f

module _ {ℓ} {A : Type ℓ} where
  -- Thread `t` goes on to `q`, and does not start to wait.
  pub Asleep-move :
      (t : ℕ) (q : Point A) (w w' : ℕ → Bool) (f : ℕ → Point A)
      → w t ≢ true
      → ((u : ℕ) → w' u ≡ true → w u ≡ true)
      → Asleep w f
      → Asleep w' (update t q f)
  Asleep-move t q w w' f awake fewer v u h =
      update-other t u q f (λ e. awake (sym (ap w e) ∙ fewer u h)) ∙ v u (fewer u h)

  pub small-move :
      (n t : ℕ) (q : Point A) (f : ℕ → Point A)
      → t < n
      → ((u : ℕ) → f u ≢ outside → u < n)
      → (u : ℕ) → update t q f u ≢ outside
      → u < n
  small-move n t q f less v u h = elim (same_or_not t u) [
    | inl e ↦ rw e less
    | inr m ↦ v u (λ at. h (update-other t u q f m ∙ at))
  ]

  -- Whoever has not the lock has seen nothing.
  pub Sees-outside : (e : Bool) (p : Point A) → holds p ≡ false → Sees e p
  Sees-outside e outside h = tt
  Sees-outside e unlocked h = tt
  Sees-outside e waiting h = tt
  Sees-outside e _ h = cc

  pub Sees-move :
      (t : ℕ) (q : Point A) (e : Bool) (f : ℕ → Point A)
      → Sees e q
      → ((u : ℕ) → Sees e (f u))
      → (u : ℕ) → Sees e (update t q f u)
  Sees-move t q e f here v = update-cases (λ u p. Sees e p) t q f here (λ u m. v u)

  pub Due-move :
      (t : ℕ) (q : Point A) (e : Bool) (w : ℕ → Bool) (f : ℕ → Point A)
      → (due (w t) (f t) ≡ true → due (w t) q ≡ true)
      → Due e w f
      → Due e w (update t q f)
  Due-move t q e w f still v full u h =
      let (o, d) = v full u h in
      elim (same_or_not t o) [
        | inl s ↦
            (t, ap (due (w t)) (update-same t q f) ∙ still (sym (ap (λ z. due (w z) (f z)) s) ∙ d))
        | inr m ↦ (o, ap (due (w o)) (update-other t o q f m) ∙ d)
      ]

  -- Now thread `t` is to notify.
  pub Due-here :
      (t : ℕ) (q : Point A) (e : Bool) (w : ℕ → Bool) (f : ℕ → Point A)
      → due (w t) q ≡ true
      → Due e w (update t q f)
  Due-here t q e w f d full u h = (t, ap (due (w t)) (update-same t q f) ∙ d)

  -- Thread `t` has notified: whoever was woken is to notify.
  pub Due-notify :
      (t : ℕ) (q : Point A) (e : Bool) (w w' : ℕ → Bool) (f : ℕ → Point A)
      → f t ≢ waiting
      → ((u : ℕ) → w' u ≡ true → w u ≡ true)
      → ((u : ℕ) → w u ≡ true → (o : ℕ) × (w o ≡ true) × (w' o ≡ false))
      → Asleep w f
      → Due e w' (update t q f)
  Due-notify t q e w w' f here fewer wakes v full u h =
      let (o, was, now) = wakes u (fewer u h) in
      let at : update t q f o ≡ waiting =
        update-other t o q f (λ s. here (sym (ap f s) ∙ v o was)) ∙ v o was in
      (o, cc (at, now))

  -- A step of thread `t` that leaves the container and the condition.
  pub Inv-go :
      (n t : ℕ) (q : Point A) {free free' e : Bool} {w : ℕ → Bool} (f : ℕ → Point A)
      → Locks holds free' (update t q f)
      → Sees e q
      → w t ≢ true
      → t < n
      → Due e w (update t q f)
      → Inv n free e w f
      → Inv n free' e w (update t q f)
  Inv-go n t q {e = e} {w = w} f locks other awake less owed v = record {
    locks = locks;
    sees = Sees-move t q e f other v.sees;
    asleep = Asleep-move t q w w f awake (λ u h. h) v.asleep;
    small = small-move n t q f less v.small;
    owed = owed;
  }

  -- A notify_one.
  pub Inv-notify :
      (n t : ℕ) (q : Point A) {free e : Bool} {w w' : ℕ → Bool} (f : ℕ → Point A)
      → holds q ≡ holds (f t)
      → Sees e q
      → f t ≢ waiting
      → f t ≢ outside
      → ((u : ℕ) → w' u ≡ true → w u ≡ true)
      → ((u : ℕ) → w u ≡ true → (o : ℕ) × (w o ≡ true) × (w' o ≡ false))
      → Inv n free e w f
      → Inv n free e w' (update t q f)
  Inv-notify n t q {e = e} {w = w} {w' = w'} f same other here there fewer wakes v = record {
    locks = Locks-move holds t q f same v.locks;
    sees = Sees-move t q e f other v.sees;
    asleep = Asleep-move t q w w' f (λ h. here (v.asleep t h)) fewer v.asleep;
    small = small-move n t q f (v.small t there) v.small;
    owed = Due-notify t q e w w' f here fewer wakes v.asleep;
  }
