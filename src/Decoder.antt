-- ===== src/Decoder.antt =====
-- include/decoder.hh and src/decoder.cxx. A shared_ptr member that is null or points at the one
-- object of its kind is a Boolean, `true` for not null; the objects are in `Shared`. `glock` only
-- keeps printed lines whole and is left out.
pub mod Trace
pub mod Faults
pub mod Gathering
use test_buffer.Prelude.{
  Bool, List, Option, Outcome, [], deref, false, if◌then◌else◌, increment, negsuc, none, some, true,
  value, ℕ, ℤ, ◌++◌, ◌+◌, ◌>>=◌, ◌>>◌, ◌∷◌,
}
use test_buffer.Boost.CircularBuffer.{CircularBuffer}
use test_buffer.BoundedBuffer
use test_buffer.BoundedBuffer.{BoundedBuffer}
use test_buffer.WorkQueue
use test_buffer.WorkQueue.{WorkQueue}

pub record Decoder : Type 0 where
  pub buffer : Bool
  pub io : Bool
  pub queue : Bool
  pub n_received : ℕ
  pub n_max_cap : ℤ
  pub yep_vec : List ℤ
  pub check_thread : Bool
  pub thread_id : Option ℕ  -- `none` is the empty string
  pub event_counter : Bool

-- What a line of output shows; in `printed`, `none` is the gap behind an element.
pub data Line : Type 0 where
  decoder_initialized : (thread : ℕ) → Line
  decoder_received : (n : ℕ) (thread_id : Option ℕ) → Line
  read_data_line :
      (event_counter : ℤ) (thread n_received : ℕ) (current_data size capacity : ℤ) → Line
  read_queue_line :
      (thread n_received : ℕ) (current_data size capacity : ℤ) (printed : List (Option ℤ)) → Line
  stored : (index : ℕ) (x : ℤ) → Line

unfoldable pub make : Decoder
make = record {
  buffer = false;
  io = false;
  queue = false;
  n_received = 0;
  n_max_cap = negsuc 0;
  yep_vec = [];
  check_thread = true;
  thread_id = none;
  event_counter = false;
}

-- Both arguments point at an object in every call of the program.
unfoldable pub initialize : (thread : ℕ) → Decoder → Decoder × List Line
initialize thread d = (record d { buffer = true; io = true }, decoder_initialized thread ∷ [])

-- The thread that start_gathering makes runs read_data.
pub start_gathering : Decoder → Decoder
start_gathering d = record d { event_counter = true }

pub stop_gathering : Decoder → List Line
stop_gathering d = decoder_received d.n_received d.thread_id ∷ []

print_from : ℕ → List ℤ → List Line
print_from i [] = []
print_from i (x ∷ xs) = stored i x ∷ print_from (i + 1) xs

pub print_final : Decoder → List Line
unfolding print_from
print_final d = print_from 0 d.yep_vec

pub note_thread : ℕ → Decoder → Decoder
note_thread thread d =
    if d.check_thread then record d { thread_id = some thread; check_thread = false } else d

module _ (cb : CircularBuffer ℤ) where
  pub record Shared : Type 0 where
    pub bounded : BoundedBuffer cb
    pub work : WorkQueue cb
    pub events : ℤ
    pub lines : List Line

  -- read_data up to its call of itself.
  pub read_once : (thread : ℕ) → Decoder → Shared → Outcome (Decoder × Shared)
  unfolding note_thread
  read_once thread d w = do
    deref d.buffer
    (current_data, b) ← BoundedBuffer.pop_back cb w.bounded
    let d' = note_thread thread (record d { yep_vec = d.yep_vec ++ current_data ∷ [] })
    deref d.event_counter
    let line =
        read_data_line w.events thread d.n_received current_data (BoundedBuffer.get_size cb b)
          (BoundedBuffer.get_capacity cb b)
    n ← increment d.n_received
    value (record d' { n_received = n }, record w { bounded = b; lines = w.lines ++ line ∷ [] })

  -- read_data never returns: the state after so many rounds of its recursion, while between the
  -- rounds the producer pushes the items of a batch.
  pub read_data : (thread : ℕ) → List (List ℤ) → Decoder → Shared → Outcome (Decoder × Shared)
  unfolding read_once
  read_data thread [] d w = value (d, w)
  read_data thread (batch ∷ batches) d w = do
    (d', w') ←
        read_once thread d (record w { bounded = BoundedBuffer.Window.push_all cb batch w.bounded })
    read_data thread batches d' w'

  -- read_queue up to its call of itself.
  pub read_queue_once : (thread : ℕ) → Decoder → Shared → Outcome (Decoder × Shared)
  read_queue_once thread d w = do
    deref d.queue
    (current_data, q) ← WorkQueue.wait_and_pop cb w.work
    printed ← WorkQueue.print cb some none q
    let line =
        read_queue_line thread d.n_received current_data (WorkQueue.get_size cb q)
          (WorkQueue.get_capacity cb q) printed
    n ← increment d.n_received
    value (record d { n_received = n }, record w { work = q; lines = w.lines ++ line ∷ [] })
