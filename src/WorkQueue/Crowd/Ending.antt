-- ===== src/WorkQueue/Crowd/Ending.antt =====
-- include/queue.hh: the calls of any number of threads come to their end, or wait for an element.
use test_buffer.Prelude.{
  Bool, Bool-cases, arith, false, inl, inr, refl, size_mod, true, ℕ, ◌<◌, ◌≡◌, ◌≢◌, ◌⊎◌,
}
use test_buffer.Boost.CircularBuffer.{CircularBuffer}
use test_buffer.Boost.Threads.{Mutex, Conditions}
use test_buffer.Threads.Counts.{one_if, total-cases, total-zero}
use test_buffer.Threads.Descent.{Run, descend}
use test_buffer.WorkQueue.Crowd.{Point, outside, waiting, System, init, Steps, later}
use test_buffer.WorkQueue.Crowd.Holding.{due}
use test_buffer.WorkQueue.Crowd.Awake.{asleep, how_many, Valid, Steps-Valid}
use test_buffer.WorkQueue.Crowd.Counted.{Steps-Good}
use test_buffer.WorkQueue.Crowd.Progress.{weight, work, Onward, nearer}

-- Between calls, or waiting and not notified.
abbrev pub Rests {ℓ} : {A : Type ℓ} → Bool → Point A → Type ℓ
Rests w p = (p ≡ outside) ⊎ ((p ≡ waiting) × (w ≡ true))

module _ {ℓ} {A : Type ℓ} where
  outside-cases : (p : Point A) → (p ≡ outside) ⊎ (p ≢ outside)
  outside-cases outside = inl refl
  outside-cases _ = inr (λ e. cc)

  weight-zero : (n : ℕ) (w : Bool) (p : Point A) → weight n w p ≡ 0 → Rests w p
  weight-zero n w outside e = inl refl
  weight-zero n true waiting e = inr (refl, refl)
  weight-zero n false waiting e = absurd (omega (arith, e))
  weight-zero n w _ e = absurd (omega (arith, e))

  due-Rests : (w : Bool) (p : Point A) → Rests w p → one_if (due w p) ≡ 0
  due-Rests w p r = elim r [ inl e ↦ rw e | inr (e, on) ↦ rw (e, on) ]

module _ {ℓ} (A : Type ℓ) (cb : CircularBuffer A) (mx : Mutex) (cv : Conditions) (n : ℕ) where
  abbrev State : Type ℓ
  State = System A cb mx cv

  -- Nobody has anything to do, and whoever waits does so for an element.
  pub record IsQuiet (s : State) : Type ℓ where
    pub rests : (t : ℕ) → Rests (asleep A cb mx cv n s t) (s.point t)
    pub served : (t : ℕ) → asleep A cb mx cv n s t ≡ true → how_many A cb mx cv n s ≡ 0

  quiet :
      (s : State)
      → Valid A cb mx cv n s
      → ((t : ℕ) → t < n → weight n (asleep A cb mx cv n s t) (s.point t) ≡ 0)
      → IsQuiet s
  quiet s v idle =
      let rests : (t : ℕ) → Rests (asleep A cb mx cv n s t) (s.point t) = λ t.
        elim (outside-cases (s.point t)) [
          | inl e ↦ inl e
          | inr e ↦ weight-zero n _ (s.point t) (idle t (v.small t e))
        ] in
      record {
        rests = rests;
        served = λ t on. omega (
          arith,
          v.owed t on,
          total-zero (λ u. one_if (due (asleep A cb mx cv n s u) (s.point u))) n
              (λ u l. due-Rests _ (s.point u) (rests u)),
        );
      }

  module _ (cap : ℕ) (h : cap < size_mod) where
    abbrev Ended : State → Type ℓ
    Ended s = IsQuiet s ⊎ (s.overwritten ≡ true)

    abbrev Reached : State → Type ℓ
    Reached s = Steps A cb mx cv n (init A cb mx cv cap 0) s

    -- Nobody has anything to do, or somebody has a step.
    idle_or_busy :
        (s : State)
        → Reached s
        → Ended s
          ⊎ ((u : State) × Onward A cb mx cv n s u
              × Reached u
              × (work A cb mx cv n u < work A cb mx cv n s))
    idle_or_busy s r = elim (Bool-cases s.overwritten) [
      | inl full ↦ inl (inr full)
      | inr room ↦
          let v = Steps-Valid A cb mx cv n cap 0 r in
          elim (total-cases (λ u. weight n (asleep A cb mx cv n s u) (s.point u)) n) [
            | inl idle ↦ inl (inl (quiet s v idle))
            | inr (t, l, busy) ↦
                let (u, (st, old), less) =
                  nearer A cb mx cv n cap h s v (Steps-Good A cb mx cv n cap h r room) t busy in
                inr (u, (st, old), later r st, less)
          ]
    ]

    -- No call of the queue blocks but a pop that waits for an element: from each state that steps lead
    -- to from a new queue with room for fewer than 2 ^ 64 elements whose count was found as 0,
    -- the calls that are under way have steps, with no new call and no spurious wake-up, to
    -- a state where every thread is between calls or waits in wait_and_pop and is not notified, and
    -- where the queue is empty if one waits; or to one where a push has met a full buffer.
    pub ending-Steps :
        {s : State}
        → Steps A cb mx cv n (init A cb mx cv cap 0) s
        → (u : State) × Run (Onward A cb mx cv n) s u × (IsQuiet u ⊎ (u.overwritten ≡ true))
    ending-Steps {s} r =
        descend (Onward A cb mx cv n) Reached Ended (work A cb mx cv n) idle_or_busy s r
