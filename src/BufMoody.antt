-- ===== src/BufMoody.antt =====
-- src/buf-moody.cxx: the thread that receives, the thread that reads and `main`, interleaved, over
-- the queue of include/readerwriterqueue.h. There are two worker threads; read_data keeps one of them
-- until the service is stopped, so the other runs all other handlers. `*n_packet` is a number: it
-- stays below 2 ^ 31. `n_count` is never written.
pub mod Counting
pub mod Limit
pub mod Ending
use test_buffer.Prelude.{
  List, Outcome, [], checked, false, get_elem?, if◌then◌else◌, none, some, take, true, value, ℕ,
  ◌++◌, ◌+◌, ◌<◌, ◌==◌, ◌>>=◌, ◌>>◌, ◌∷◌, ◌≡◌, ◌≤◌,
}
use test_buffer.Boost.Asio.{IoService, Sockets}
use test_buffer.Boost.Queues.{BlockingQueue}

pub data Handler : Type 0 where
  handle_data receive_data read_data : Handler

abbrev pub capacity : ℕ
capacity = 1023

-- The word that marks a packet, and the number of marks after which the program ends.
abbrev pub mark : ℕ
mark = 4321

abbrev pub limit : ℕ
limit = 35000

-- The worker that receives: in `run()` between handlers, in receive_data with the words of
-- `data_buffer`, before its test of the count, and out of `run()`.
pub data Receiver : Type 0 where
  running : Receiver
  holding : (words : List ℕ) → Receiver
  enqueued returned : Receiver

-- The worker that reads: in `run()`, at the test of the loop, before and after a `peek` that finds
-- something, in the loop over the words that are left, and out of `run()`.
pub data Reader : Type 0 where
  idle outer looking found : Reader
  scanning : (words : List ℕ) → Reader
  left : Reader

-- `main` at its loop, before `stop`, in join_all, behind its loop.
pub data Main : Type 0 where
  watching stopping joining ended : Main

-- look_its_data: the lines that it prints, each with the first word.
look_words : ℕ → List ℕ → List ℕ
look_words first [] = []
look_words first (x ∷ xs) =
    let rest = look_words first xs in if x == mark then first ∷ rest else rest

pub look_its_data : List ℕ → Outcome (List ℕ)
unfolding look_words
look_its_data words = do first ← checked (get_elem? words 0); value (look_words first words)

module _ (moody : BlockingQueue (List ℕ)) (asio : IoService Handler) (net : Sockets) where
  -- `accepted`, `refused` and `taken` are the arrays so far that were enqueued, could not be for want
  -- of memory, and were dequeued.
  pub record System : Type 0 where
    pub queue : moody.State
    pub io : asio.State
    pub socket : net.Socket
    pub n_packet : ℕ
    pub receiver : Receiver
    pub reader : Reader
    pub main : Main
    pub accepted : List (List ℕ)
    pub refused : List (List ℕ)
    pub taken : List (List ℕ)

  abbrev pub init : net.Socket → System
  init sock = record {
    queue = moody.with_size capacity;
    io = asio.post read_data (asio.post handle_data asio.new);
    socket = sock;
    n_packet = 0;
    receiver = running;
    reader = idle;
    main = watching;
    accepted = [];
    refused = [];
    taken = [];
  }

  pub shut_down_socket : net.Socket → net.Socket
  shut_down_socket sock = if net.is_open sock then net.shutdown (net.close sock) else sock

  -- `q->enqueue(data_buffer)`
  unfoldable pub enqueue : List ℕ → System → System
  enqueue words s =
      let (ok, q) = moody.enqueue words s.queue in
      record s {
        queue = q;
        receiver = enqueued;
        accepted = if ok then s.accepted ++ words ∷ [] else s.accepted;
        refused = if ok then s.refused else s.refused ++ words ∷ [];
      }

  pub data Step (s : System) : System → Type 0 where
    first_receive :
        (io : asio.State)
        → s.receiver ≡ running
        → asio.take s.io ≡ some (handle_data, io)
        → Step s (record s { io = asio.async_receive_from receive_data io })
    receive :
        (io : asio.State) (words : List ℕ)
        → s.receiver ≡ running
        → asio.take s.io ≡ some (receive_data, io)
        → Step s (record s { io = io; receiver = holding words })
    put : (words : List ℕ) → s.receiver ≡ holding words → Step s (enqueue words s)
    see_enough :
        s.receiver ≡ enqueued
        → limit ≤ s.n_packet
        → Step s (record s { socket = shut_down_socket s.socket; receiver = running })
    receive_again :
        s.receiver ≡ enqueued
        → s.n_packet < limit
        → Step s (record s { io = asio.async_receive_from receive_data s.io; receiver = running })
    receiver_returns :
        s.receiver ≡ running → asio.stopped s.io ≡ true → Step s (record s { receiver = returned })
    start_reading :
        (io : asio.State)
        → s.reader ≡ idle
        → asio.take s.io ≡ some (read_data, io)
        → Step s (record s { io = io; reader = outer })
    go_on : s.reader ≡ outer → asio.stopped s.io ≡ false → Step s (record s { reader = looking })
    peek_nothing :
        s.reader ≡ looking → moody.peek s.queue ≡ none → Step s (record s { reader = outer })
    peek :
        (words : List ℕ)
        → s.reader ≡ looking
        → moody.peek s.queue ≡ some words
        → Step s (record s { reader = found })
    dequeue_nothing :
        s.reader ≡ found → moody.try_dequeue s.queue ≡ none → Step s (record s { reader = outer })
    dequeue :
        (words : List ℕ) (q : moody.State)
        → s.reader ≡ found
        → moody.try_dequeue s.queue ≡ some (words, q)
        → Step s (record s { queue = q; reader = scanning words; taken = s.taken ++ words ∷ [] })
    scan :
        (x : ℕ) (xs : List ℕ)
        → s.reader ≡ scanning (x ∷ xs)
        → Step s (record s {
          reader = scanning xs;
          n_packet = if x == mark then s.n_packet + 1 else s.n_packet;
        })
    scanned : s.reader ≡ scanning [] → Step s (record s { reader = outer })
    reader_returns :
        s.reader ≡ outer → asio.stopped s.io ≡ true → Step s (record s { reader = left })
    never_read : s.reader ≡ idle → asio.stopped s.io ≡ true → Step s (record s { reader = left })
    see_limit :
        s.main ≡ watching
        → asio.stopped s.io ≡ false
        → limit ≤ s.n_packet
        → Step s (record s { main = stopping })
    stop : s.main ≡ stopping → Step s (record s { main = joining; io = asio.stop s.io })
    join_all :
        s.main ≡ joining
        → s.receiver ≡ returned
        → s.reader ≡ left
        → Step s (record s { main = watching })
    end : s.main ≡ watching → asio.stopped s.io ≡ true → Step s (record s { main = ended })

  -- Any number of steps.
  pub data Steps (s : System) : System → Type 0 where
    start : Steps s s
    later : {t u : System} → Steps s t → Step t u → Steps s u

  -- `main` starts with the socket `sock`.
  abbrev pub Reach : net.Socket → System → Type 0
  Reach sock t = Steps (init sock) t
