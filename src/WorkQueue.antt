-- ===== src/WorkQueue.antt =====
-- include/queue.hh: the class template `queue` over a circular buffer, as one thread sees it under
-- the mutex.
pub mod Fifo
pub mod Counter
pub mod Monitor
pub mod Crowd
use test_buffer.Prelude.{
  Bool, List, Option, Outcome, defined, if◌then◌else◌, none, size_mod, some, to_int, value, waits,
  ℕ, ℤ, ◌%◌, ◌+◌, ◌-◌, ◌>>=◌, ◌>>◌,
}
use test_buffer.Printing.{print_all, print_from}
use test_buffer.Boost.CircularBuffer.{CircularBuffer}

-- `size_type` is 64 bits wide.
abbrev pub inc_size : ℕ → ℕ
inc_size n = (n + 1) % size_mod

abbrev pub dec_size : ℕ → ℕ
dec_size n = (n + size_mod - 1) % size_mod

module _ {ℓ} {A : Type ℓ} (cb : CircularBuffer A) where
  pub record WorkQueue : Type ℓ where
    pub container : cb.Carrier
    pub unread : ℕ

  -- The constructor leaves `m_unread` as it finds the memory: `found`.
  unfoldable pub with_capacity : ℕ → ℕ → WorkQueue
  with_capacity cap found = record { container = cb.with_capacity cap; unread = found }

  pub push : A → WorkQueue → WorkQueue
  push item q = record { container = cb.push_front item q.container; unread = inc_size q.unread }

  pub empty : WorkQueue → Bool
  empty q = cb.empty q.container

  -- `popped_value = m_container[--m_unread]; m_container.pop_back();`
  take_unread : WorkQueue → Outcome (A × WorkQueue)
  take_unread q = do
    item ← defined (cb.at q.container (dec_size q.unread))
    value (item, record { container = cb.pop_back q.container; unread = dec_size q.unread })

  -- `none` is the result `false`.
  pub try_pop : WorkQueue → Outcome (Option A × WorkQueue)
  unfolding take_unread
  try_pop q =
      if cb.empty q.container
      then value (none, q)
      else do (item, q') ← take_unread q; value (some item, q')

  pub wait_and_pop : WorkQueue → Outcome (A × WorkQueue)
  unfolding take_unread
  wait_and_pop q = if cb.empty q.container then waits else take_unread q

  pub get_capacity : WorkQueue → ℤ
  get_capacity q = to_int (cb.capacity q.container)

  pub get_size : WorkQueue → ℤ
  get_size q = to_int (cb.size q.container)

  pub print : {Text : Type 0} → (A → Text) → Text → WorkQueue → Outcome (List Text)
  unfolding print_all print_from
  print show gap q = print_all cb show gap q.container
