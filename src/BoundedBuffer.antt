-- ===== src/BoundedBuffer.antt =====
-- include/bounded_buffer.hh: a buffer over a circular buffer, as one thread sees its methods.
-- The mutex and the condition of push_front and pop_back are in BoundedBuffer/Monitor.
pub mod Window
pub mod Reading
pub mod Refine
pub mod Monitor
pub mod Crowd
use test_buffer.Prelude.{
  Bool, List, Outcome, defined, if◌then◌else◌, ltb, to_int, value, waits, ℕ, ℤ, ◌>>=◌, ◌>>◌,
}
use test_buffer.Printing.{print_all, print_from}
use test_buffer.Boost.CircularBuffer.{CircularBuffer}

module _ {ℓ} {A : Type ℓ} (cb : CircularBuffer A) where
  open cb use {
    Carrier, with_capacity as fresh_container, push_front as container_push_front, back, at,
    empty as container_empty, size, capacity,
  }

  pub record BoundedBuffer : Type ℓ where
    pub unread : ℕ
    pub container : Carrier

  unfoldable pub with_capacity : ℕ → BoundedBuffer
  with_capacity cap = record { unread = 0; container = fresh_container cap }

  unfoldable pub push_front : A → BoundedBuffer → BoundedBuffer
  push_front item b = record b { container = container_push_front item b.container }

  -- `*pItem = m_container.back()`: the element read, beside the buffer as the call leaves it.
  pub pop_back : BoundedBuffer → Outcome (A × BoundedBuffer)
  pop_back b =
      if container_empty b.container
      then waits
      else do item ← defined (back b.container); value (item, b)

  unfoldable pub get_capacity : BoundedBuffer → ℤ
  get_capacity b = to_int (capacity b.container)

  pub get_size : BoundedBuffer → ℤ
  get_size b = to_int (size b.container)

  pub print : {Text : Type 0} → (A → Text) → Text → BoundedBuffer → Outcome (List Text)
  unfolding print_all print_from
  print show gap b = print_all cb show gap b.container

  pub empty : BoundedBuffer → Bool
  empty b = container_empty b.container

  pub is_not_empty : BoundedBuffer → Bool
  is_not_empty b = ltb 0 b.unread

  pub is_not_full : BoundedBuffer → Bool
  is_not_full b = ltb b.unread (capacity b.container)
