-- ===== src/Decoder/Gathering.antt =====
-- src/decoder.cxx: the thread that start_gathering makes and that runs read_data, beside any number of
-- threads that use the same bounded_buffer.
pub mod Order
pub mod Telling
pub mod Kept
use test_buffer.Prelude.{List, [], increment, value, ℕ, ℤ, ◌++◌, ◌∷◌, ◌≡◌, ◌≢◌}
use test_buffer.Boost.CircularBuffer.{CircularBuffer}
use test_buffer.Boost.Threads.{Mutex, Conditions}
use test_buffer.BoundedBuffer
use test_buffer.BoundedBuffer.Crowd
use test_buffer.BoundedBuffer.Crowd.{
  lock_to_push, begin_push, push, unlock_push, notify_push, lock_to_pop, see_empty, start_wait,
  spurious, end_wait, see_element, read_back, notify_pop, give, lock_to_ask, answer, ask_size,
  ask_capacity,
}
use test_buffer.Decoder.{
  Decoder, Line, read_data_line, make, initialize, start_gathering, note_thread,
}

-- Where read_data stands: in pop_back; with `current_data` read, put into `yep_vec`, the thread noted,
-- the size asked for and shown, and the line printed.
pub data Point : Type 0 where
  popping : Point
  popped kept noted : ℤ → Point
  sized : ℤ → ℤ → Point
  printed : Point

-- What a step of a thread of the crowd is to read_data: inside of pop_back, its return with the element,
-- or neither.
pub data Part : Type 0 where
  inside : Part
  returned : ℤ → Part
  neither : Part

module _ (cb : CircularBuffer ℤ) (mx : Mutex) (cv : Conditions) (n : ℕ) where
  abbrev pub Crowds : Type 0
  Crowds = Crowd.System ℤ cb mx cv

  -- The thread that takes a step.
  abbrev pub who : {s u : Crowds} → Crowd.Step ℤ cb mx cv n s u → ℕ
  who (lock_to_push t x l at free) = t
  who (begin_push t x at) = t
  who (push t x at) = t
  who (unlock_push t at) = t
  who (notify_push t at) = t
  who (lock_to_pop t l at free) = t
  who (see_empty t at e) = t
  who (start_wait t at) = t
  who (spurious t at) = t
  who (end_wait t at w free) = t
  who (see_element t at e) = t
  who (read_back t x at e) = t
  who (notify_pop t x at) = t
  who (give t x at) = t
  who (lock_to_ask t l at free) = t
  who (answer t b at e) = t
  who (ask_size t l at) = t
  who (ask_capacity t l at) = t

  abbrev pub part : {s u : Crowds} → Crowd.Step ℤ cb mx cv n s u → Part
  part (lock_to_pop t l at free) = inside
  part (see_empty t at e) = inside
  part (start_wait t at) = inside
  part (spurious t at) = inside
  part (end_wait t at w free) = inside
  part (see_element t at e) = inside
  part (read_back t x at e) = inside
  part (notify_pop t x at) = inside
  part (give t x at) = returned x
  part _ = neither

  -- The thread of read_data is the first of the crowd. `lines` are those that it printed.
  pub record System : Type 0 where
    pub crowd : Crowds
    pub decoder : Decoder
    pub events : ℤ
    pub lines : List Line
    pub point : Point

  -- An initialized decoder that starts to gather, on a new buffer for `cap` elements.
  abbrev pub init : ℕ → ℤ → System
  init cap events = record {
    crowd = Crowd.init ℤ cb mx cv cap;
    decoder = start_gathering (initialize 0 make).0;
    events = events;
    lines = [];
    point = popping;
  }

  pub data Step (s : System) : System → Type 0 where
    other :
        {c : Crowds} (st : Crowd.Step ℤ cb mx cv n s.crowd c)
        → who st ≢ 0
        → Step s (record s { crowd = c })
    pop :
        {c : Crowds} (st : Crowd.Step ℤ cb mx cv n s.crowd c)
        → who st ≡ 0
        → part st ≡ inside
        → s.point ≡ popping
        → Step s (record s { crowd = c })
    return :
        {c : Crowds} (x : ℤ) (st : Crowd.Step ℤ cb mx cv n s.crowd c)
        → who st ≡ 0
        → part st ≡ returned x
        → s.point ≡ popping
        → Step s (record s { crowd = c; point = popped x })
    keep :
        (x : ℤ)
        → s.point ≡ popped x
        → Step s (record s {
          decoder = record s.decoder { yep_vec = s.decoder.yep_vec ++ x ∷ [] };
          point = kept x;
        })
    note :
        (x : ℤ)
        → s.point ≡ kept x
        → Step s (record s { decoder = note_thread 0 s.decoder; point = noted x })
    see_size :
        (x : ℤ)
        → s.point ≡ noted x
        → Step s (record s { point = sized x (BoundedBuffer.get_size cb s.crowd.buffer) })
    print :
        (x size : ℤ)
        → s.point ≡ sized x size
        → Step s (record s {
          lines =
              s.lines
              ++ read_data_line s.events 0 s.decoder.n_received x size
                  (BoundedBuffer.get_capacity cb s.crowd.buffer)
                ∷ [];
          point = printed;
        })
    -- read_data calls itself.
    count :
        (m : ℕ)
        → s.point ≡ printed
        → increment s.decoder.n_received ≡ value m
        → Step s (record s { decoder = record s.decoder { n_received = m }; point = popping })

  pub data Steps (s : System) : System → Type 0 where
    start : Steps s s
    later : {t u : System} → Steps s t → Step t u → Steps s u

  -- The steps of the crowd among them.
  pub crowd_of :
      (cap : ℕ) (events : ℤ) {s : System}
      → Steps (init cap events) s
      → Crowd.Steps ℤ cb mx cv n (Crowd.init ℤ cb mx cv cap) s.crowd
  crowd_of cap events start = Crowd.start
  crowd_of cap events (later r (other st h)) = Crowd.later (crowd_of cap events r) st
  crowd_of cap events (later r (pop st h i at)) = Crowd.later (crowd_of cap events r) st
  crowd_of cap events (later r (return x st h i at)) = Crowd.later (crowd_of cap events r) st
  crowd_of cap events (later r _) = crowd_of cap events r

  -- What the other threads pushed in some steps, in order.
  abbrev pub and_sent : {s u : Crowds} → Crowd.Step ℤ cb mx cv n s u → List ℤ → List ℤ
  and_sent (push t x at) sent = sent ++ x ∷ []
  and_sent _ sent = sent

  abbrev pub sent_of : {s t : System} → Steps s t → List ℤ
  sent_of start = []
  sent_of (later r (other st h)) = and_sent st (sent_of r)
  sent_of (later r _) = sent_of r
