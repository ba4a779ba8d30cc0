-- ===== src/BoundedBuffer/Refine/Asking.antt =====
-- include/bounded_buffer.hh: one more call that only asks, at the end of a sequence of calls.
use test_buffer.Prelude.{List, [], ◌++◌, ◌∷◌, ◌≡◌}
use test_buffer.Boost.CircularBuffer.{CircularBuffer}
use test_buffer.BoundedBuffer.{BoundedBuffer, get_size, get_capacity, empty}
use test_buffer.BoundedBuffer.Refine.{
  Call, asks_capacity, asks_size, asks_empty, Reply, number, truth, step, run, after, run-one_more,
  after-one_more,
}

module _ {ℓ} {A : Type ℓ} {Text : Type 0} (show : A → Text) (gap : Text)
    (cb : CircularBuffer A) where
  -- The call gives the reply and leaves the buffer.
  abbrev pub Asks : List (Call A) → Call A → Reply A Text → BoundedBuffer cb → Type ℓ
  Asks calls call reply b =
      (run show gap cb (calls ++ call ∷ []) b ≡ run show gap cb calls b ++ reply ∷ [])
      × (after show gap cb (calls ++ call ∷ []) b ≡ after show gap cb calls b)

  pub run-size :
      (calls : List (Call A)) (b : BoundedBuffer cb)
      → Asks calls asks_size (number (get_size cb (after show gap cb calls b))) b
  unfolding step
  run-size calls b =
      (run-one_more show gap cb calls asks_size b, after-one_more show gap cb calls asks_size b)

  pub run-capacity :
      (calls : List (Call A)) (b : BoundedBuffer cb)
      → Asks calls asks_capacity (number (get_capacity cb (after show gap cb calls b))) b
  unfolding step
  run-capacity calls b = (
    run-one_more show gap cb calls asks_capacity b,
    after-one_more show gap cb calls asks_capacity b,
  )

  pub run-empty :
      (calls : List (Call A)) (b : BoundedBuffer cb)
      → Asks calls asks_empty (truth (cb.empty (after show gap cb calls b).container)) b
  unfolding step empty
  run-empty calls b =
      (run-one_more show gap cb calls asks_empty b, after-one_more show gap cb calls asks_empty b)
