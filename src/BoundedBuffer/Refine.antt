-- ===== src/BoundedBuffer/Refine.antt =====
-- include/bounded_buffer.hh: the class beside a window on the newest elements, the newest first.
pub mod Asking
use test_buffer.Prelude.{
  Bool, List, Option, Option-cases, Outcome, [], ap, exits, false, get_last?, inl, inr, last-nil,
  length, none, refl, some, take, throws, to_int, true, undefined, value, waits, ℕ, ℤ, ◌++◌, ◌∙◌,
  ◌∷◌, ◌≡◌,
}
use test_buffer.Printing.{spaced, printed_of, print_all-take}
use test_buffer.Boost.CircularBuffer.{
  empty-true, empty-false, CircularBuffer, empty-true, empty-false,
}
use test_buffer.BoundedBuffer.Reading.{pop_back-last, pop_back-empty}
use test_buffer.BoundedBuffer.{
  pop_back, get_capacity, get_size, print, empty, push_front, BoundedBuffer, with_capacity,
}

-- A call that a client makes.
pub data Call {ℓ} (A : Type ℓ) : Type ℓ where
  pushes : A → Call A
  pops asks_capacity asks_size prints asks_empty : Call A

-- What a client sees of it.
pub data Reply {ℓ} (A : Type ℓ) (Text : Type 0) : Type ℓ where
  pushed : Reply A Text
  popped : Outcome A → Reply A Text
  number : ℤ → Reply A Text
  printed : Outcome (List Text) → Reply A Text
  truth : Bool → Reply A Text

module _ {ℓ} {A : Type ℓ} {Text : Type 0} (show : A → Text) (gap : Text) where
  -- A value if there is one, else a wait.
  abbrev pub wait_for : Option A → Outcome A
  wait_for none = waits
  wait_for (some x) = value x

  abbrev pub is_nil : List A → Bool
  is_nil [] = true
  is_nil (x ∷ xs) = false

  -- A window of at most `cap` elements, the newest first.
  pub spec_step : Call A → ℕ → List A → Reply A Text × List A
  spec_step (pushes x) cap xs = (pushed, take cap (x ∷ xs))
  spec_step pops cap xs = (popped (wait_for (get_last? xs)), xs)
  spec_step asks_capacity cap xs = (number (to_int cap), xs)
  spec_step asks_size cap xs = (number (to_int (length xs)), xs)
  spec_step prints cap xs =
      (printed (value (spaced show gap (take (printed_of (length xs)) xs))), xs)
  spec_step asks_empty cap xs = (truth (is_nil xs), xs)

  pub spec_run : List (Call A) → ℕ → List A → List (Reply A Text)
  spec_run [] cap xs = []
  spec_run (call ∷ calls) cap xs =
      let (reply, xs') = spec_step call cap xs in reply ∷ spec_run calls cap xs'

  module _ (cb : CircularBuffer A) where
    -- A pop that waits leaves the buffer as it is.
    abbrev after_pop :
        Outcome (A × BoundedBuffer cb) → BoundedBuffer cb → Reply A Text × BoundedBuffer cb
    after_pop (value (x, b')) b = (popped (value x), b')
    after_pop waits b = (popped waits, b)
    after_pop throws b = (popped throws, b)
    after_pop (exits n) b = (popped (exits n), b)
    after_pop undefined b = (popped undefined, b)

    pub step : Call A → BoundedBuffer cb → Reply A Text × BoundedBuffer cb
    step (pushes x) b = (pushed, push_front cb x b)
    step pops b = after_pop (pop_back cb b) b
    step asks_capacity b = (number (get_capacity cb b), b)
    step asks_size b = (number (get_size cb b), b)
    step prints b = (printed (print cb show gap b), b)
    step asks_empty b = (truth (empty cb b), b)

    pub run : List (Call A) → BoundedBuffer cb → List (Reply A Text)
    run [] b = []
    run (call ∷ calls) b = let (reply, b') = step call b in reply ∷ run calls b'

    -- What the calls leave.
    pub after : List (Call A) → BoundedBuffer cb → BoundedBuffer cb
    after [] b = b
    after (call ∷ calls) b = after calls (step call b).1

    pub run-one_more :
        (calls : List (Call A)) (call : Call A) (b : BoundedBuffer cb)
        → run (calls ++ call ∷ []) b ≡ run calls b ++ (step call (after calls b)).0 ∷ []
    unfolding run after
    run-one_more [] call b = refl
    run-one_more (c ∷ calls) call b =
        ap (λ z. (step c b).0 ∷ z) (run-one_more calls call (step c b).1)

    pub after-one_more :
        (calls : List (Call A)) (call : Call A) (b : BoundedBuffer cb)
        → after (calls ++ call ∷ []) b ≡ (step call (after calls b)).1
    unfolding after
    after-one_more [] call b = refl
    after-one_more (c ∷ calls) call b = after-one_more calls call (step c b).1

    -- One more push, and one more pop of a buffer with the oldest element `x`, at the end.
    pub run-push :
        (calls : List (Call A)) (x : A) (b : BoundedBuffer cb)
        → (run (calls ++ pushes x ∷ []) b ≡ run calls b ++ pushed ∷ [])
          × (after (calls ++ pushes x ∷ []) b ≡ push_front cb x (after calls b))
    unfolding step
    run-push calls x b = (run-one_more calls (pushes x) b, after-one_more calls (pushes x) b)

    pub run-pop :
        (calls : List (Call A)) (x : A) (b : BoundedBuffer cb)
        → get_last? (cb.contents (after calls b).container) ≡ some x
        → (run (calls ++ pops ∷ []) b ≡ run calls b ++ popped (value x) ∷ [])
          × (after (calls ++ pops ∷ []) b ≡ after calls b)
    unfolding step
    run-pop calls x b h =
        let same = pop_back-last cb (after calls b) x h in
        (rw (run-one_more calls pops b, same), rw (after-one_more calls pops b, same))

    pub after-nil : (b : BoundedBuffer cb) → (run [] b ≡ []) × (after [] b ≡ b)
    unfolding run after
    after-nil b = (refl, refl)

    -- One call replies as the window does and leaves what the window leaves.
    record Agrees (call : Call A) (b : BoundedBuffer cb) : Type ℓ where
      reply :
          (step call b).0 ≡ (spec_step call (cb.capacity b.container) (cb.contents b.container)).0
      contents :
          cb.contents (step call b).1.container
          ≡ (spec_step call (cb.capacity b.container) (cb.contents b.container)).1
      capacity : cb.capacity (step call b).1.container ≡ cb.capacity b.container

    empty-is_nil : (c : cb.Carrier) (xs : List A) → cb.contents c ≡ xs → cb.empty c ≡ is_nil xs
    empty-is_nil c [] e = empty-true cb c e
    empty-is_nil c (x ∷ xs) e = empty-false cb c (λ h. cc (e, h))

    after_pop-pop_back :
        (b : BoundedBuffer cb)
        → after_pop (pop_back cb b) b ≡ (popped (wait_for (get_last? (cb.contents b.container))), b)
    after_pop-pop_back b = elim (Option-cases (get_last? (cb.contents b.container))) [
      | inl e ↦ rw (pop_back-empty cb b (last-nil (cb.contents b.container) e), e)
      | inr (x, e) ↦ rw (pop_back-last cb b x e, e)
    ]

    step-Agrees : (call : Call A) (b : BoundedBuffer cb) → Agrees call b
    unfolding step spec_step push_front get_capacity get_size print empty
    step-Agrees (pushes x) b = record {
      reply = refl;
      contents = cb.contents-push_front x b.container;
      capacity = cb.capacity-push_front x b.container;
    }
    step-Agrees pops b = record {
      reply = rw after_pop-pop_back;
      contents = rw after_pop-pop_back;
      capacity = rw after_pop-pop_back;
    }
    step-Agrees asks_capacity b = record { reply = refl; contents = refl; capacity = refl }
    step-Agrees asks_size b = record {
      reply = rw cb.size-contents;
      contents = refl;
      capacity = refl;
    }
    step-Agrees prints b = record {
      reply = rw (print_all-take cb show gap b.container, cb.size-contents);
      contents = refl;
      capacity = refl;
    }
    step-Agrees asks_empty b = record {
      reply = ap truth (empty-is_nil b.container (cb.contents b.container) refl);
      contents = refl;
      capacity = refl;
    }

    -- Refinement: every sequence of calls, pops of an empty buffer among them, gets from the class the
    -- replies that a window gives which holds the newest elements, as many as the capacity says: pop_back
    -- the oldest of them without removing it, and the others what they say of the window, converted to
    -- `int` where the code does.
    pub run-spec_run :
        (calls : List (Call A)) (b : BoundedBuffer cb)
        → run calls b ≡ spec_run calls (cb.capacity b.container) (cb.contents b.container)
    unfolding run spec_run
    run-spec_run [] b = refl
    run-spec_run (call ∷ calls) b =
        let v = step-Agrees call b in
        rw (v.reply, run-spec_run calls (step call b).1, v.contents, v.capacity)

  -- The replies of a new buffer.
  pub run-new :
      (c : CircularBuffer A) (cap : ℕ) (calls : List (Call A))
      → run c calls (with_capacity c cap) ≡ spec_run calls cap []
  unfolding with_capacity
  run-new c cap calls =
      run-spec_run c calls (with_capacity c cap)
      ∙ rw (c.capacity-with_capacity, c.contents-with_capacity)
