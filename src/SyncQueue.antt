-- ===== src/SyncQueue.antt =====
-- include/SynchronisedQueue.hh: the methods as one thread sees them while no other runs one.
-- SyncQueue/Threads has their interleavings.
pub mod Sequential
pub mod Threads
use test_buffer.Prelude.{List, Outcome, [], dec, inc, pos, value, waits, ℤ, ◌++◌, ◌∷◌}

-- The `std::queue` is the list of its elements, `front()` first; `m_size` is a `long`.
pub record SyncQueue {ℓ} (A : Type ℓ) : Type ℓ where
  pub queue : List A
  pub size : ℤ

module _ {ℓ} {A : Type ℓ} where
  unfoldable pub new : SyncQueue A
  new = record { queue = []; size = pos 0 }

  pub size_of : SyncQueue A → ℤ
  size_of q = q.size

  unfoldable pub enqueue : A → SyncQueue A → SyncQueue A
  unfolding inc
  enqueue x q = record { queue = q.queue ++ x ∷ []; size = inc q.size }

  unfoldable pub take_front : List A → ℤ → Outcome (A × SyncQueue A)
  unfolding dec
  take_front [] size = waits
  take_front (x ∷ xs) size = value (x, record { queue = xs; size = dec size })

  unfoldable pub dequeue : SyncQueue A → Outcome (A × SyncQueue A)
  unfolding take_front
  dequeue q = take_front q.queue q.size
