-- ===== src/SyncQueue/Sequential.antt =====
-- include/SynchronisedQueue.hh: calls that do not overlap.
use test_buffer.Prelude.{
  List, Outcome, [], ap, append-nil, append_assoc, arith, length, length-append, pos, refl, suc,
  sym, value, waits, zero, ℕ, ℤ, ◌++◌, ◌+◌, ◌>>=◌, ◌∙◌, ◌∷◌, ◌≡◌,
}
use test_buffer.SyncQueue.{SyncQueue, new, size_of, enqueue, dequeue}

module _ {ℓ} {A : Type ℓ} where
  pub enqueue_all : List A → SyncQueue A → SyncQueue A
  enqueue_all [] q = q
  enqueue_all (x ∷ xs) q = enqueue_all xs (enqueue x q)

  -- Some number of calls of Dequeue in a row.
  pub dequeue_times : ℕ → SyncQueue A → Outcome (List A × SyncQueue A)
  dequeue_times zero q = value ([], q)
  dequeue_times (suc n) q = do
    (x, q') ← dequeue q
    (xs, q'') ← dequeue_times n q'
    value (x ∷ xs, q'')

  -- Size() is the number of elements.
  pub record IsCounted (q : SyncQueue A) : Type 0 where
    pub counted : size_of q ≡ pos (length q.queue)

  -- A new queue is counted.
  pub new-IsCounted : IsCounted new
  unfolding new size_of
  new-IsCounted = record { counted = refl }

  pub enqueue-IsCounted : (x : A) {q : SyncQueue A} → IsCounted q → IsCounted (enqueue x q)
  unfolding enqueue size_of
  enqueue-IsCounted x {q} c = record {
    counted = rw (c.counted, length-append) (ap pos (omega arith));
  }

  pub enqueue_all-IsCounted :
      (xs : List A) {q : SyncQueue A} → IsCounted q → IsCounted (enqueue_all xs q)
  unfolding enqueue_all
  enqueue_all-IsCounted [] c = c
  enqueue_all-IsCounted (x ∷ xs) c = enqueue_all-IsCounted xs (enqueue-IsCounted x c)

  pub queue-enqueue_all : (xs : List A) (q : SyncQueue A) → (enqueue_all xs q).queue ≡ q.queue ++ xs
  unfolding enqueue_all enqueue
  queue-enqueue_all [] q = sym (append-nil q.queue)
  queue-enqueue_all (x ∷ xs) q =
      queue-enqueue_all xs (enqueue x q) ∙ append_assoc q.queue (x ∷ []) xs

  dequeue_prefix :
      (xs ys : List A) (n : ℤ)
      → n ≡ pos (length (xs ++ ys))
      → dequeue_times (length xs) (record { queue = xs ++ ys; size = n })
        ≡ value (xs, record { queue = ys; size = pos (length ys) })
  unfolding dequeue_times dequeue
  dequeue_prefix [] ys n e = rw e
  dequeue_prefix (x ∷ xs) ys n e = rw (e, dequeue_prefix xs ys (pos (length (xs ++ ys))) refl)

  all_out :
      (xs : List A) (q : SyncQueue A)
      → q.queue ≡ xs
      → q.size ≡ pos (length xs)
      → dequeue_times (length xs) q ≡ value (xs, record { queue = []; size = pos 0 })
  all_out xs q held count =
      ap (dequeue_times (length xs))
        (λ i. record { queue = (held ∙ sym (append-nil xs)) i; size = q.size })
      ∙ dequeue_prefix xs [] q.size (count ∙ rw append-nil)

  -- Calls that do not overlap: from a queue whose Size() is right, whatever is enqueued comes out
  -- again in the same order, behind what was there, Size() stays right, and one more Dequeue waits.
  pub dequeue-enqueue_all :
      (xs : List A) {q : SyncQueue A}
      → IsCounted q
      → let q' = enqueue_all xs q in
        (size_of q' ≡ pos (length q.queue + length xs))
        × ((q'' : SyncQueue A) × (dequeue_times (length (q.queue ++ xs)) q'
              ≡ value (q.queue ++ xs, q''))
            × (size_of q'' ≡ pos 0)
            × (dequeue q'' ≡ waits))
  unfolding size_of dequeue
  dequeue-enqueue_all xs {q} c =
      let q' = enqueue_all xs q in
      let held = queue-enqueue_all xs q in
      let count : q'.size ≡ pos (length (q.queue ++ xs)) =
        (enqueue_all-IsCounted xs c).counted ∙ ap (λ l. pos (length l)) held in
      (
        count ∙ ap pos (length-append q.queue xs),
        (record { queue = []; size = pos 0 }, all_out (q.queue ++ xs) q' held count, refl, refl),
      )
