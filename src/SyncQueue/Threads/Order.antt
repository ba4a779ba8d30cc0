-- ===== src/SyncQueue/Threads/Order.antt =====
-- include/SynchronisedQueue.hh: the order of the elements in all interleavings.
use test_buffer.Prelude.{List, [], ◌++◌, ◌∷◌, ◌≡◌}
use test_buffer.Boost.Threads.{Mutex, Condition}
use test_buffer.SyncQueue.Threads.{Consumer, found, popped, took_size, leaving, System}

module _ {ℓ} {A : Type ℓ} where
  -- The element that Dequeue has taken off the queue and not returned yet.
  abbrev pub in_hand : Consumer A → List A
  in_hand (popped x) = x ∷ []
  in_hand (took_size x n) = x ∷ []
  in_hand (leaving x) = x ∷ []
  in_hand _ = []

  -- The element that `front()` gave is still at the front.
  abbrev IsFront : Consumer A → List A → Type ℓ
  IsFront (found x) q = (xs : List A) × (q ≡ x ∷ xs)
  IsFront _ q = Unit

module _ {ℓ} (A : Type ℓ) (mx : Mutex) (cv : Condition) where
  record Inv (s : System A mx cv) : Type ℓ where
    order : s.enqueued ≡ s.returned ++ (in_hand s.consumer ++ s.queue)
    front : IsFront s.consumer s.queue
