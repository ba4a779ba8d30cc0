-- ===== src/Decoder/Trace.antt =====
-- src/decoder.cxx: what read_data receives over many rounds.
use mathlib.Core.List.{flatten, map-append}
use test_buffer.Prelude.{
  List, Option, Option-cases, [], ap, append-nil, append_assoc, arith, get_elem?, get_elem?-ne-none,
  get_last?, get_last?-take-reverse, inl, inr, int_max, length, length-append, map, refl, reverse,
  reverse-append, some, sym, take, take-append-take, true, value, ℕ, ℤ, ◌++◌, ◌+◌, ◌-◌, ◌<◌, ◌∙◌,
  ◌∷◌, ◌≡◌, ◌≤◌,
}
use test_buffer.Boost.CircularBuffer.{CircularBuffer}
use test_buffer.BoundedBuffer.{BoundedBuffer, push_front}
use test_buffer.BoundedBuffer.Window.{
  push_all, push_all-nil, push_all-push_front, contents-push_all_onto, capacity-push_all,
}
use test_buffer.Decoder.{Decoder, Line, Shared, read_once, read_data}
use test_buffer.Decoder.Faults.{after_round, round_line, read_once-value}

-- The items that rounds read, of all items `sent` before and the batches sent between: each time the
-- oldest one of the newest `cap`.
abbrev pub observed : ℕ → List ℤ → List (List ℤ) → List (Option ℤ)
observed cap sent [] = []
observed cap sent (batch ∷ batches) =
    get_elem? (sent ++ batch) (length (sent ++ batch) - cap) ∷ observed cap (sent ++ batch) batches

module _ (cb : CircularBuffer ℤ) where
  -- The buffer holds the newest `cap` of the items sent.
  pub record Holds (cap : ℕ) (sent : List ℤ) (b : BoundedBuffer cb) : Type 0 where
    pub room : cb.capacity b.container ≡ cap
    pub newest : cb.contents b.container ≡ take cap (reverse sent)

  push_all-Holds :
      (cap : ℕ) (sent batch : List ℤ) {b : BoundedBuffer cb}
      → Holds cap sent b
      → Holds cap (sent ++ batch) (push_all cb batch b)
  push_all-Holds cap sent batch {b} h = record {
    room = capacity-push_all cb batch b ∙ h.room;
    newest =
        rw (contents-push_all_onto cb batch b, h.room, h.newest, reverse-append sent batch)
          (take-append-take cap cap (reverse batch) (reverse sent) (omega arith));
  }

  pub push_front-Holds :
      (cap : ℕ) (sent : List ℤ) (x : ℤ) {b : BoundedBuffer cb}
      → Holds cap sent b
      → Holds cap (sent ++ x ∷ []) (push_front cb x b)
  push_front-Holds cap sent x {b} h =
      let v = push_all-Holds cap sent (x ∷ []) h in rw (← push_all-push_front, push_all-nil) at v

  -- The decoder is initialized and gathering, and the buffer holds the newest of what was sent.
  pub record IsGathering (cap : ℕ) (sent : List ℤ) (d : Decoder) (w : Shared cb) : Type 0 where
    pub buffer : d.buffer ≡ true
    pub event_counter : d.event_counter ≡ true
    pub positive : 0 < cap
    pub something : 0 < length sent
    pub holds : Holds cap sent w.bounded

  -- What the rounds leave behind, started at `d` and `w`.
  pub record Gathered (cap : ℕ) (sent : List ℤ) (batches : List (List ℤ)) (d : Decoder)
      (w : Shared cb) (d' : Decoder) (w' : Shared cb) : Type 0 where
    pub count : d'.n_received ≡ d.n_received + length batches
    pub items : map some d'.yep_vec ≡ map some d.yep_vec ++ observed cap sent batches
    pub printed : length w'.lines ≡ length w.lines + length batches
    pub kept : Holds cap (sent ++ flatten batches) w'.bounded

  one_round :
      (cap thread : ℕ) (sent : List ℤ) {d : Decoder} {w : Shared cb}
      → IsGathering cap sent d w
      → d.n_received < int_max
      → (x : ℤ) × (get_elem? sent (length sent - cap) ≡ some x)
        × (read_once cb thread d w
            ≡ value (
              after_round thread x d,
              record w { lines = w.lines ++ round_line cb thread x d w ∷ [] },
            ))
  one_round cap thread sent {d} {w} g n =
      let oldest =
        ap get_last? g.holds.newest ∙ get_last?-take-reverse sent cap g.positive g.something in
      elim (Option-cases (get_elem? sent (length sent - cap))) [
        | inl miss ↦ absurd (
            get_elem?-ne-none sent (length sent - cap) (omega (arith, g.positive, g.something))
              miss)
        | inr (x, hit) ↦
            (x, hit, read_once-value cb thread x d w g.buffer g.event_counter n (oldest ∙ hit))
      ]

  -- One round before the others.
  after :
      (cap thread : ℕ) (x : ℤ) (line : Line) (sent batch : List ℤ) (batches : List (List ℤ))
      {d d' : Decoder} {w w' : Shared cb} (w1 : Shared cb)
      → get_elem? (sent ++ batch) (length (sent ++ batch) - cap) ≡ some x
      → Gathered cap
          (sent ++ batch)
          batches
          (after_round thread x d)
          (record w1 { lines = w.lines ++ line ∷ [] })
          d'
          w'
      → Gathered cap sent (batch ∷ batches) d w d' w'
  unfolding flatten
  after cap thread x line sent batch batches {d} {d'} {w} {w'} w1 hit got = record {
    count = omega (arith, got.count);
    items = got.items ∙ rw (map-append, append_assoc, hit);
    printed = omega (arith, got.printed, length-append w.lines (line ∷ []));
    kept = rw (← append_assoc) got.kept;
  }

  -- A gathering decoder whose count has room runs every round without waiting: each round receives,
  -- of everything sent by then, the oldest item among the newest `cap`, counts it and prints one line,
  -- whether or not the item was received before.
  pub read_data_lem :
      (cap thread : ℕ) (sent : List ℤ) (batches : List (List ℤ)) {d : Decoder} {w : Shared cb}
      → IsGathering cap sent d w
      → d.n_received + length batches ≤ int_max
      → (d' : Decoder) × (w' : Shared cb) × (read_data cb thread batches d w ≡ value (d', w'))
        × Gathered cap sent batches d w d' w'
  unfolding read_data flatten
  read_data_lem cap thread sent [] {d} {w} g n = (
    d,
    w,
    refl,
    record {
      count = omega arith;
      items = sym (append-nil _);
      printed = omega arith;
      kept = rw append-nil g.holds;
    },
  )
  read_data_lem cap thread sent (batch ∷ batches) {d} {w} g n =
      let w1 : Shared cb = record w { bounded = push_all cb batch w.bounded } in
      let g1 : IsGathering cap (sent ++ batch) d w1 = record {
        buffer = g.buffer;
        event_counter = g.event_counter;
        positive = g.positive;
        something = omega (arith, g.something, length-append sent batch);
        holds = push_all-Holds cap sent batch g.holds;
      } in
      let (x, hit, step) = one_round cap thread (sent ++ batch) g1 (omega arith) in
      let g2 : IsGathering cap (sent ++ batch) (after_round thread x d)
          (record w1 { lines = w1.lines ++ round_line cb thread x d w1 ∷ [] }) =
        record {
          buffer = g.buffer;
          event_counter = g.event_counter;
          positive = g.positive;
          something = g1.something;
          holds = g1.holds;
        } in
      let (d', w', run, got) = read_data_lem cap thread (sent ++ batch) batches g2 (omega arith) in
      (
        d',
        w',
        rw (step, run),
        after cap thread x (round_line cb thread x d w1) sent batch batches w1 hit got,
      )
