-- ===== src/BufSync.antt =====
-- src/buf-sync.cxx: the handlers over a SynchronisedQueue, with the calls that they make of it whole
-- and one after the other; SyncQueue/Threads has the steps inside the calls. `main` posts a reader,
-- the receive and ten writers; the order in which they run is a list of events.
pub mod Order
pub mod Program
use test_buffer.Prelude.{
  List, Outcome, [], if◌then◌else◌, increment, ltb, pos, suc, to_int, value, zero, ℕ, ℤ, ◌*◌, ◌++◌,
  ◌+◌, ◌>>=◌, ◌>>◌, ◌∷◌,
}
use test_buffer.SyncQueue
use test_buffer.SyncQueue.{SyncQueue, enqueue, dequeue, new}

-- `while(++i < 5) m_queue->Enqueue(i*myid);` from a value of `i`, with so many tests left at most.
write_from : ℕ → ℕ → ℕ → SyncQueue ℤ → SyncQueue ℤ
write_from zero myid i q = q
write_from (suc tests) myid i q =
    let rest = write_from tests myid (i + 1) (enqueue (pos ((i + 1) * myid)) q) in
    if ltb (i + 1) 5 then rest else q

-- `i*myid` does not overflow for the only `myid` that `main` gives, 1.
pub client_writer : ℕ → SyncQueue ℤ → SyncQueue ℤ
unfolding write_from
client_writer myid q = write_from 5 myid 0 q

-- client_reader up to its call of itself: the line that it prints, and the queue.
pub client_reader : ℕ → SyncQueue ℤ → Outcome ((ℕ × ℤ) × SyncQueue ℤ)
client_reader myid q = do (x, q') ← dequeue q; value ((myid, x), q')

pub record Session : Type 0 where
  pub queue : SyncQueue ℤ
  pub packet_count : ℕ
  pub lines : List (ℕ × ℤ)

-- receive_data with the first word of `data_buffer`; it ends with handle_data, the next receive.
pub receive_data : ℕ → Session → Outcome Session
receive_data word s = do
  n ← increment s.packet_count
  value (record s { queue = enqueue (to_int word) s.queue; packet_count = n })

-- What runs next: a posted writer, receive_data, or another round of the reader.
pub data Event : Type 0 where
  writes : Event
  receives : (word : ℕ) → Event
  reads : Event

abbrev pub begin : Session
begin = record { queue = new; packet_count = 0; lines = [] }

-- A round of the reader that finds the queue empty waits, and leaves everything as it is.
pub reads_next : Session → Session
reads_next s = elim (client_reader 4 s.queue) [
  | value (line, q) ↦ record s { queue = q; lines = s.lines ++ line ∷ [] }
  | _ ↦ s
]

pub handle : Event → Session → Outcome Session
unfolding reads_next
handle writes s = value (record s { queue = client_writer 1 s.queue })
handle (receives word) s = receive_data word s
handle reads s = value (reads_next s)

pub run : List Event → Session → Outcome Session
unfolding handle
run [] s = value s
run (e ∷ es) s = do s' ← handle e s; run es s'
