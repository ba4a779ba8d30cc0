-- ===== src/BoundedBuffer/Crowd/Ending.antt =====
-- include/bounded_buffer.hh: the calls of any number of threads come to their end, or wait for an element.
use test_buffer.Prelude.{
  Bool, Bool-cases, arith, false, inl, inr, refl, true, ℕ, ◌<◌, ◌≡◌, ◌≢◌, ◌⊎◌,
}
use test_buffer.Boost.CircularBuffer.{CircularBuffer}
use test_buffer.Boost.Threads.{Mutex, Conditions}
use test_buffer.Threads.Counts.{one_if, one_if-true, total-cases}
use test_buffer.Threads.Descent.{Run, descend}
use test_buffer.BoundedBuffer.Crowd.{Point, outside, waiting, System, init, is_empty, Steps, later}
use test_buffer.BoundedBuffer.Crowd.Holding.{due}
use test_buffer.BoundedBuffer.Crowd.Reached.{Valid, Steps-Valid}
use test_buffer.BoundedBuffer.Crowd.Progress.{is_busy, work, Onward, nearer}

-- Between calls, or waiting and not notified.
abbrev pub Rests {ℓ} : {A : Type ℓ} → Bool → Point A → Type ℓ
Rests w p = (p ≡ outside) ⊎ ((p ≡ waiting) × (w ≡ true))

module _ {ℓ} {A : Type ℓ} where
  outside-cases : (p : Point A) → (p ≡ outside) ⊎ (p ≢ outside)
  outside-cases outside = inl refl
  outside-cases _ = inr (λ e. cc)

  idle-Rests : (w : Bool) (p : Point A) → one_if (is_busy w p) ≡ 0 → Rests w p
  idle-Rests w outside e = inl refl
  idle-Rests true waiting e = inr (refl, refl)
  idle-Rests false waiting e = absurd (omega (arith, e))
  idle-Rests w _ e = absurd (omega (arith, e))

  due-Rests : (w : Bool) (p : Point A) → Rests w p → due w p ≡ false
  due-Rests w p r = elim r [ inl e ↦ rw e | inr (e, on) ↦ rw (e, on) ]

module _ {ℓ} (A : Type ℓ) (cb : CircularBuffer A) (mx : Mutex) (cv : Conditions) (n : ℕ) where
  abbrev State : Type ℓ
  State = System A cb mx cv

  abbrev asleep : State → ℕ → Bool
  asleep s u = cv.is_waiting s.not_empty u

  -- Nobody has anything to do, and whoever waits does so for an element.
  pub record IsQuiet (s : State) : Type ℓ where
    pub rests : (t : ℕ) → Rests (asleep s t) (s.point t)
    pub served : (t : ℕ) → asleep s t ≡ true → is_empty A cb mx cv s ≡ true

  quiet :
      (s : State)
      → Valid A cb mx cv n s
      → ((t : ℕ) → t < n → one_if (is_busy (asleep s t) (s.point t)) ≡ 0)
      → IsQuiet s
  quiet s v idle =
      let rests : (t : ℕ) → Rests (asleep s t) (s.point t) = λ t. elim (outside-cases (s.point t)) [
        | inl e ↦ inl e
        | inr e ↦ idle-Rests _ (s.point t) (idle t (v.small t e))
      ] in
      record {
        rests = rests;
        served = λ t on. elim (Bool-cases (is_empty A cb mx cv s)) [
          | inl e ↦ e
          | inr full ↦
              let (u, d) = v.owed full t on in cc (d, due-Rests (asleep s u) (s.point u) (rests u))
        ];
      }

  module _ (cap : ℕ) where
    abbrev Reached : State → Type ℓ
    Reached s = Steps A cb mx cv n (init A cb mx cv cap) s

    -- Nobody has anything to do, or somebody has a step.
    idle_or_busy :
        (s : State)
        → Reached s
        → IsQuiet s
          ⊎ ((u : State) × Onward A cb mx cv n s u
              × Reached u
              × (work A cb mx cv n u < work A cb mx cv n s))
    idle_or_busy s r =
        let v = Steps-Valid A cb mx cv n cap r in
        elim (total-cases (λ u. one_if (is_busy (asleep s u) (s.point u))) n) [
          | inl idle ↦ inl (quiet s v idle)
          | inr (t, l, some_busy) ↦
              let (u, (st, old), less) = nearer A cb mx cv n s v t (one_if-true _ some_busy) in
              inr (u, (st, old), later r st, less)
        ]

    -- No call of the buffer blocks but a pop_back that waits for an element: from each state that steps
    -- lead to from a new buffer, the calls that are under way have steps, with no new call and no
    -- spurious wake-up, to a state where every thread is between calls or waits in pop_back and is not
    -- notified, and where the buffer is empty if one waits.
    pub finish-Steps :
        {s : State}
        → Steps A cb mx cv n (init A cb mx cv cap) s
        → (u : State) × Run (Onward A cb mx cv n) s u × IsQuiet u
    finish-Steps {s} r =
        descend (Onward A cb mx cv n) Reached IsQuiet (work A cb mx cv n) idle_or_busy s r
