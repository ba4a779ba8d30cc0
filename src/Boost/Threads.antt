-- ===== src/Boost/Threads.antt =====
-- boost::mutex and boost::condition_variable, for one thread that waits (Condition) and for any
-- number of them (Conditions): parameters with their documented behaviour. A thread may take a mutex
-- only while it is free, and a waiting thread goes on only after a notification or a spurious wake-up.
use test_buffer.Prelude.{Bool, false, true, ℕ, ◌≡◌, ◌≢◌}

pub record Mutex : Type 1 where
  pub State : Type 0
  pub unlocked : State
  pub is_free : State → Bool
  pub lock : State → State
  pub unlock : State → State
  pub is_free-unlocked : is_free unlocked ≡ true
  pub is_free-lock : (m : State) → is_free (lock m) ≡ false
  pub is_free-unlock : (m : State) → is_free (unlock m) ≡ true

pub record Condition : Type 1 where
  pub State : Type 0
  pub fresh : State
  pub is_waiting : State → Bool
  pub wait : State → State
  pub notify_one : State → State
  pub wake : State → State  -- a spurious wake-up
  pub is_waiting-fresh : is_waiting fresh ≡ false
  pub is_waiting-wait : (c : State) → is_waiting (wait c) ≡ true
  pub is_waiting-notify_one : (c : State) → is_waiting (notify_one c) ≡ false
  pub is_waiting-wake : (c : State) → is_waiting (wake c) ≡ false

-- The threads are numbered. notify_one wakes one of those that wait, if there are any; which one is
-- left open.
pub record Conditions : Type 1 where
  pub State : Type 0
  pub fresh : State
  pub is_waiting : State → ℕ → Bool
  pub wait : ℕ → State → State
  pub notify_one : State → State
  pub wake : ℕ → State → State  -- a spurious wake-up
  pub is_waiting-fresh : (t : ℕ) → is_waiting fresh t ≡ false
  pub is_waiting-wait : (t : ℕ) (c : State) → is_waiting (wait t c) t ≡ true
  pub is_waiting-wait_other :
      (t u : ℕ) (c : State) → u ≢ t → is_waiting (wait t c) u ≡ is_waiting c u
  pub is_waiting-wake : (t : ℕ) (c : State) → is_waiting (wake t c) t ≡ false
  pub is_waiting-wake_other :
      (t u : ℕ) (c : State) → u ≢ t → is_waiting (wake t c) u ≡ is_waiting c u
  pub notify_one-keeps :
      (t : ℕ) (c : State) → is_waiting (notify_one c) t ≡ true → is_waiting c t ≡ true
  pub notify_one-wakes :
      (t : ℕ) (c : State)
      → is_waiting c t ≡ true
      → (u : ℕ) × (is_waiting c u ≡ true) × (is_waiting (notify_one c) u ≡ false)
