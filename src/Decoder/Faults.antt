-- ===== src/Decoder/Faults.antt =====
-- src/decoder.cxx: one round of read_data and of read_queue, on every branch.
use test_buffer.Prelude.{
  Bool-cases, Option, Option-cases, Outcome, [], arith, false, get_last?, if◌then◌else◌, inl, inr,
  int_max, last-nil, ltb, lt→ltb, none, refl, some, true, undefined, value, waits, ℕ, ℤ, ◌&&◌, ◌++◌,
  ◌+◌, ◌<◌, ◌∙◌, ◌∷◌, ◌≡◌,
}
use test_buffer.Boost.CircularBuffer.{CircularBuffer}
use test_buffer.BoundedBuffer
use test_buffer.BoundedBuffer.{BoundedBuffer}
use test_buffer.BoundedBuffer.Reading.{pop_back-last, pop_back-empty}
use test_buffer.Decoder.{
  Decoder, Shared, Line, read_data_line, make, initialize, start_gathering, read_once,
  read_queue_once, note_thread,
}

-- The decoder and the line that a round leaves behind.
abbrev pub after_round : ℕ → ℤ → Decoder → Decoder
after_round thread x d = record d {
  n_received = d.n_received + 1;
  yep_vec = d.yep_vec ++ x ∷ [];
  check_thread = false;
  thread_id = if d.check_thread then some thread else d.thread_id;
}

note_thread_lem :
    (thread : ℕ) (d : Decoder)
    → note_thread thread d ≡ record d {
      check_thread = false;
      thread_id = if d.check_thread then some thread else d.thread_id;
    }
unfolding note_thread
note_thread_lem thread d = ground arith

module _ (cb : CircularBuffer ℤ) where
  -- The line that a round prints.
  abbrev pub round_line : ℕ → ℤ → Decoder → Shared cb → Line
  round_line thread x d w =
      read_data_line w.events thread d.n_received x (BoundedBuffer.get_size cb w.bounded)
        (BoundedBuffer.get_capacity cb w.bounded)

  pub read_once-value :
      (thread : ℕ) (x : ℤ) (d : Decoder) (w : Shared cb)
      → d.buffer ≡ true
      → d.event_counter ≡ true
      → d.n_received < int_max
      → get_last? (cb.contents w.bounded.container) ≡ some x
      → read_once cb thread d w
        ≡ value
            (after_round thread x d, record w { lines = w.lines ++ round_line thread x d w ∷ [] })
  unfolding read_once
  read_once-value thread x d w b c n h =
      rw (b, c, pop_back-last cb w.bounded x h, lt→ltb _ _ n, note_thread_lem)

  -- What a round comes to, told by the oldest element of the buffer.
  abbrev pub round_spec : ℕ → Decoder → Shared cb → Option ℤ → Outcome (Decoder × Shared cb)
  round_spec thread d w none = waits
  round_spec thread d w (some x) =
      if d.event_counter && ltb d.n_received int_max
      then value
          (after_round thread x d, record w { lines = w.lines ++ round_line thread x d w ∷ [] })
      else undefined

  unset-counter :
      (thread : ℕ) (x : ℤ) (d : Decoder) (w : Shared cb)
      → get_last? (cb.contents w.bounded.container) ≡ some x
      → (d.event_counter && ltb d.n_received int_max) ≡ false
      → d.buffer ≡ true
      → read_once cb thread d w ≡ undefined
  unfolding read_once
  unset-counter thread x d w h bad b = elim (Bool-cases d.event_counter) [
    | inl on ↦
        let full : ltb d.n_received int_max ≡ false = ground arith in
        rw (b, on, pop_back-last cb w.bounded x h, full)
    | inr off ↦ rw (b, off, pop_back-last cb w.bounded x h)
  ]

  -- A round of read_data of an initialized decoder: on an empty buffer it waits. Else it is undefined
  -- behaviour if the event counter is null or `n_received` is INT_MAX, and otherwise it appends the
  -- oldest element to `yep_vec`, counts it, notes its thread the first time and prints one line, with
  -- the buffer unchanged.
  pub read_once_lem :
      (thread : ℕ) (d : Decoder) (w : Shared cb)
      → d.buffer ≡ true
      → read_once cb thread d w
        ≡ round_spec thread d w (get_last? (cb.contents w.bounded.container))
  unfolding read_once
  read_once_lem thread d w b = elim (Option-cases (get_last? (cb.contents w.bounded.container))) [
    | inl e ↦ rw (b, e, pop_back-empty cb w.bounded (last-nil _ e))
    | inr (x, e) ↦ elim (Bool-cases (d.event_counter && ltb d.n_received int_max)) [
      | inl good ↦ rw (e, good) (read_once-value thread x d w b (ground arith) (ground arith) e)
      | inr bad ↦ rw (e, bad) (unset-counter thread x d w e bad b)
    ]
  ]

  -- What the members of the program make of a decoder.
  pub data Reach : Decoder → Type 0 where
    made : Reach make
    initialized : {d : Decoder} (thread : ℕ) → Reach d → Reach (initialize thread d).0
    gathering : {d : Decoder} → Reach d → Reach (start_gathering d)
    round :
        {d d' : Decoder} (thread : ℕ) (w w' : Shared cb)
        → Reach d
        → read_once cb thread d w ≡ value (d', w')
        → Reach d'

  read_once-queue :
      (thread : ℕ) (d d' : Decoder) (w w' : Shared cb)
      → read_once cb thread d w ≡ value (d', w')
      → d'.queue ≡ d.queue
  unfolding read_once note_thread
  read_once-queue thread d d' w w' h = ground arith

  Reach-queue : {d : Decoder} → Reach d → d.queue ≡ false
  unfolding make initialize start_gathering
  Reach-queue made = refl
  Reach-queue (initialized thread r) = Reach-queue r
  Reach-queue (gathering r) = Reach-queue r
  Reach-queue (round {d} {d'} thread w w' r h) = read_once-queue thread d d' w w' h ∙ Reach-queue r

  -- Nothing ever sets the decoder's queue: whatever was called before, read_queue uses a null pointer.
  pub read_queue_once-Reach :
      {d : Decoder} (thread : ℕ) (w : Shared cb)
      → Reach d
      → read_queue_once cb thread d w ≡ undefined
  unfolding read_queue_once
  read_queue_once-Reach thread w r = rw (Reach-queue r)
