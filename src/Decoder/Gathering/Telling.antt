-- ===== src/Decoder/Gathering/Telling.antt =====
-- src/decoder.cxx: the lines that the thread of read_data prints, and `n_received`, while other threads
-- share the buffer.
use test_buffer.Prelude.{
  List, [], ap, append-nil, arith, increment, length, length-append, refl, sym, to_int, value, ℕ, ℤ,
  ◌++◌, ◌+◌, ◌∙◌, ◌∷◌, ◌≡◌,
}
use test_buffer.Boost.CircularBuffer.{CircularBuffer}
use test_buffer.Boost.Threads.{Mutex, Conditions}
use test_buffer.BoundedBuffer.{get_capacity, with_capacity, push_front}
use test_buffer.BoundedBuffer.Crowd
use test_buffer.BoundedBuffer.Crowd.Copies.{Copies, Steps-Copies}
use test_buffer.Decoder.{
  Decoder, Line, read_data_line, note_thread, make, initialize, start_gathering,
}
use test_buffer.Decoder.Gathering.{
  crowd_of, Point, kept, noted, sized, printed, Crowds, System, init, Step, other, pop, return,
  keep, note, see_size, print, count, Steps, start, later,
}

-- One line for each item, which it shows, numbered from 0, with the capacity `cap`.
pub data Told (cap events : ℤ) : List Line → List ℤ → Type 0 where
  silent : Told cap events [] []
  tells :
      {lines : List Line} {xs : List ℤ} (x size : ℤ)
      → Told cap events lines xs
      → Told cap events
          (lines ++ read_data_line events 0 (length xs) x size cap ∷ [])
          (xs ++ x ∷ [])

-- An item that was kept and not printed yet.
abbrev pub untold : Point → List ℤ
untold (kept x) = x ∷ []
untold (noted x) = x ∷ []
untold (sized x size) = x ∷ []
untold _ = []

-- A line that was printed and not counted yet.
abbrev pub uncounted : Point → ℕ
uncounted printed = 1
uncounted _ = 0

pub note_thread-keeps :
    (t : ℕ) (d : Decoder)
    → ((note_thread t d).yep_vec ≡ d.yep_vec) × ((note_thread t d).n_received ≡ d.n_received)
unfolding note_thread
note_thread-keeps t d = (ground arith, ground arith)

module _ (cb : CircularBuffer ℤ) (mx : Mutex) (cv : Conditions) (n : ℕ) where
  record Inv (cap : ℕ) (events : ℤ) (s : System cb mx cv n) : Type 0 where
    same : s.events ≡ events
    room : cb.capacity s.crowd.buffer.container ≡ cap
    told : List ℤ
    items : s.decoder.yep_vec ≡ told ++ untold s.point
    lines : Told (to_int cap) events s.lines told
    number : s.decoder.n_received + uncounted s.point ≡ length told

  capacity-Step :
      {s u : Crowds cb mx cv n}
      → Crowd.Step ℤ cb mx cv n s u
      → Copies ℤ cb mx cv n s
      → cb.capacity u.buffer.container ≡ cb.capacity s.buffer.container
  unfolding push_front
  capacity-Step {s} (Crowd.push t x at) c =
      ap (λ b. cb.capacity (cb.push_front x b.container)) (c t x at)
      ∙ cb.capacity-push_front x s.buffer.container
  capacity-Step _ c = refl

  increment-value : (k m : ℕ) → increment k ≡ value m → m ≡ k + 1
  increment-value k m h = ground (arith, h)

  Step-Inv :
      {cap : ℕ} {events : ℤ} {s u : System cb mx cv n}
      → Step cb mx cv n s u
      → Copies ℤ cb mx cv n s.crowd
      → Inv cap events s
      → Inv cap events u
  unfolding get_capacity
  Step-Inv (other st h) c v = record {
    same = v.same;
    room = capacity-Step st c ∙ v.room;
    told = v.told;
    items = v.items;
    lines = v.lines;
    number = v.number;
  }
  Step-Inv (pop st h i at) c v = record {
    same = v.same;
    room = capacity-Step st c ∙ v.room;
    told = v.told;
    items = v.items;
    lines = v.lines;
    number = v.number;
  }
  Step-Inv (return x st h i at) c v = record {
    same = v.same;
    room = capacity-Step st c ∙ v.room;
    told = v.told;
    items = v.items ∙ ap (λ p. v.told ++ untold p) at;
    lines = v.lines;
    number = omega (arith, v.number, ap uncounted at);
  }
  Step-Inv (keep x at) c v = record {
    same = v.same;
    room = v.room;
    told = v.told;
    items = ap (λ z. z ++ x ∷ []) (v.items ∙ ap (λ p. v.told ++ untold p) at ∙ append-nil v.told);
    lines = v.lines;
    number = omega (arith, v.number, ap uncounted at);
  }
  Step-Inv {s = s} (note x at) c v =
      let (items, number) = note_thread-keeps 0 s.decoder in
      record {
        same = v.same;
        room = v.room;
        told = v.told;
        items = items ∙ v.items ∙ ap (λ p. v.told ++ untold p) at;
        lines = v.lines;
        number = omega (arith, number, v.number, ap uncounted at);
      }
  Step-Inv (see_size x at) c v = record {
    same = v.same;
    room = v.room;
    told = v.told;
    items = v.items ∙ ap (λ p. v.told ++ untold p) at;
    lines = v.lines;
    number = omega (arith, v.number, ap uncounted at);
  }
  Step-Inv {cap} {events} {s} (print x size at) c v =
      let number : s.decoder.n_received ≡ length v.told =
        omega (arith, v.number, ap uncounted at) in
      record {
        same = v.same;
        room = v.room;
        told = v.told ++ x ∷ [];
        items = v.items ∙ ap (λ p. v.told ++ untold p) at ∙ sym (append-nil (v.told ++ x ∷ []));
        lines = rw (v.same, number, v.room) (tells x size v.lines);
        number = omega (arith, number, length-append v.told (x ∷ []));
      }
  Step-Inv {s = s} (count m at e) c v =
      let next = increment-value s.decoder.n_received m e in
      record {
        same = v.same;
        room = v.room;
        told = v.told;
        items = v.items ∙ ap (λ p. v.told ++ untold p) at;
        lines = v.lines;
        number = omega (arith, next, v.number, ap uncounted at);
      }

  Steps-Inv :
      (cap : ℕ) (events : ℤ) {s : System cb mx cv n}
      → Steps cb mx cv n (init cb mx cv n cap events) s
      → Inv cap events s
  unfolding with_capacity start_gathering initialize make
  Steps-Inv cap events start = record {
    same = refl;
    room = cb.capacity-with_capacity cap;
    told = [];
    items = refl;
    lines = silent;
    number = refl;
  }
  Steps-Inv cap events (later r st) =
      Step-Inv st (Steps-Copies ℤ cb mx cv n cap (crowd_of cb mx cv n cap events r))
        (Steps-Inv cap events r)

  -- What the thread has told of what it kept.
  pub record Tells (cap : ℕ) (events : ℤ) (s : System cb mx cv n) : Type 0 where
    pub told : List ℤ
    pub items : s.decoder.yep_vec ≡ told ++ untold s.point
    pub lines : Told (to_int cap) events s.lines told
    pub number : s.decoder.n_received + uncounted s.point ≡ length told

  pub Steps-Tells :
      (cap : ℕ) (events : ℤ) {s : System cb mx cv n}
      → Steps cb mx cv n (init cb mx cv n cap events) s
      → Tells cap events s
  Steps-Tells cap events r =
      let v = Steps-Inv cap events r in
      record { told = v.told; items = v.items; lines = v.lines; number = v.number }
