-- ===== src/Boost/Queues.antt =====
-- The lock-free queues that src/buf-lockfree.cxx and src/buf-moody.cxx call, for one producer and one
-- consumer: boost::lockfree::spsc_queue, and moodycamel::BlockingReaderWriterQueue, of which
-- include/readerwriterqueue.h is a copy. Parameters with their documented behaviour; `contents` lists
-- the elements, the next to be dequeued first, and each call takes effect at one moment.
use test_buffer.Prelude.{
  Bool, List, Option, [], false, length, none, some, true, ℕ, ◌++◌, ◌<◌, ◌∷◌, ◌≡◌, ◌≤◌,
}

pub record SpscQueue {ℓ} (A : Type ℓ) : Type (ℓ + 1) where
  pub State : Type ℓ
  pub with_capacity : ℕ → State
  pub push : A → State → Bool × State
  pub pop : State → Option (A × State)
  pub contents : State → List A
  pub capacity : State → ℕ
  pub contents-with_capacity : (n : ℕ) → contents (with_capacity n) ≡ []
  pub capacity-with_capacity : (n : ℕ) → capacity (with_capacity n) ≡ n
  pub push-room :
      (x : A) (q : State)
      → length (contents q) < capacity q
      → ((push x q).0 ≡ true)
        × (contents (push x q).1 ≡ contents q ++ x ∷ [])
        × (capacity (push x q).1 ≡ capacity q)
  pub push-full : (x : A) (q : State) → capacity q ≤ length (contents q) → push x q ≡ (false, q)
  pub pop-none : (q : State) → pop q ≡ none → contents q ≡ []
  pub pop-some :
      (x : A) (q q' : State)
      → pop q ≡ some (x, q')
      → (contents q ≡ x ∷ contents q') × (capacity q' ≡ capacity q)

pub record BlockingQueue {ℓ} (A : Type ℓ) : Type (ℓ + 1) where
  pub State : Type ℓ
  pub with_size : ℕ → State
  pub enqueue : A → State → Bool × State
  pub peek : State → Option A
  pub try_dequeue : State → Option (A × State)
  pub contents : State → List A
  pub contents-with_size : (n : ℕ) → contents (with_size n) ≡ []
  -- It fails only if memory runs out, and then changes nothing.
  pub enqueue-true :
      (x : A) (q : State) → (enqueue x q).0 ≡ true → contents (enqueue x q).1 ≡ contents q ++ x ∷ []
  pub enqueue-false :
      (x : A) (q : State) → (enqueue x q).0 ≡ false → contents (enqueue x q).1 ≡ contents q
  pub try_dequeue-none : (q : State) → try_dequeue q ≡ none → contents q ≡ []
  pub try_dequeue-some :
      (x : A) (q q' : State) → try_dequeue q ≡ some (x, q') → contents q ≡ x ∷ contents q'
