-- ===== src/BufLockfree.antt =====
-- src/buf-lockfree.cxx: the thread that receives, the thread that reads and `main`, interleaved at
-- every access of shared state. There are two worker threads; read_data keeps one of them until the
-- service is stopped, so the other runs all other handlers. The atomic counters are numbers: fewer
-- than 2 ^ 31 datagrams arrive.
pub mod Accounting
pub mod Shutdown
pub mod Ending
use test_buffer.Prelude.{
  Bool, List, [], false, if◌then◌else◌, none, some, take, to_int, true, value, ℕ, ℤ, ◌++◌, ◌+◌, ◌∷◌,
  ◌≡◌, ◌≤◌,
}
use test_buffer.Boost.Asio.{IoService, Sockets}
use test_buffer.Boost.Queues.{SpscQueue}

pub data Handler : Type 0 where
  handle_data receive_data read_data : Handler

abbrev pub capacity : ℕ
capacity = 1024

abbrev pub enough : ℕ
enough = 15000

-- The worker that receives: in `run()` between handlers, in receive_data after `++producer_count`
-- with the word, after the push, and out of `run()`.
pub data Receiver : Type 0 where
  running : Receiver
  counted : (word : ℕ) → Receiver
  tried returned : Receiver

-- The worker that reads: in `run()`, at the tests of the two loops, with a value popped, with it
-- printed, and out of `run()`.
pub data Reader : Type 0 where
  idle outer inner : Reader
  got : (value : ℤ) → Reader
  shown left : Reader

-- `main` at the test of its loop, before `stop`, in join_all, before the write to `done`, at the end.
pub data Main : Type 0 where
  checking stopping joining joined ended : Main

module _ (spsc : SpscQueue ℤ) (asio : IoService Handler) (net : Sockets) where
  -- `pushed`, `dropped` and `printed` are the values so far that were pushed, could not be pushed,
  -- and were printed by read_data.
  pub record System : Type 0 where
    pub queue : spsc.State
    pub io : asio.State
    pub socket : net.Socket
    pub done : Bool
    pub producer_count : ℕ
    pub consumer_count : ℕ
    pub receiver : Receiver
    pub reader : Reader
    pub main : Main
    pub pushed : List ℤ
    pub dropped : List ℤ
    pub printed : List ℤ

  abbrev pub init : net.Socket → System
  init sock = record {
    queue = spsc.with_capacity capacity;
    io = asio.post read_data (asio.post handle_data asio.new);
    socket = sock;
    done = false;
    producer_count = 0;
    consumer_count = 0;
    receiver = running;
    reader = idle;
    main = checking;
    pushed = [];
    dropped = [];
    printed = [];
  }

  -- `if(!spsc_queue.push(data_buffer.at(0))) …`
  unfoldable pub try_push : ℤ → System → System
  try_push x s =
      let (ok, q) = spsc.push x s.queue in
      record s {
        queue = q;
        receiver = tried;
        pushed = if ok then s.pushed ++ x ∷ [] else s.pushed;
        dropped = if ok then s.dropped else s.dropped ++ x ∷ [];
      }

  pub shut_down_socket : net.Socket → net.Socket
  shut_down_socket sock = if net.is_open sock then net.shutdown (net.close sock) else sock

  pub data Step (s : System) : System → Type 0 where
    first_receive :
        (io : asio.State)
        → s.receiver ≡ running
        → asio.take s.io ≡ some (handle_data, io)
        → Step s (record s { io = asio.async_receive_from receive_data io })
    receive :
        (io : asio.State) (word : ℕ)
        → s.receiver ≡ running
        → asio.take s.io ≡ some (receive_data, io)
        → Step s
            (record s { io = io; receiver = counted word; producer_count = s.producer_count + 1 })
    push : (word : ℕ) → s.receiver ≡ counted word → Step s (try_push (to_int word) s)
    see_done :
        s.receiver ≡ tried
        → s.done ≡ true
        → Step s (record s { socket = shut_down_socket s.socket; receiver = running })
    receive_again :
        s.receiver ≡ tried
        → s.done ≡ false
        → Step s (record s { io = asio.async_receive_from receive_data s.io; receiver = running })
    receiver_returns :
        s.receiver ≡ running → asio.stopped s.io ≡ true → Step s (record s { receiver = returned })
    start_reading :
        (io : asio.State)
        → s.reader ≡ idle
        → asio.take s.io ≡ some (read_data, io)
        → Step s (record s { io = io; reader = outer })
    go_on : s.reader ≡ outer → asio.stopped s.io ≡ false → Step s (record s { reader = inner })
    pop :
        (x : ℤ) (q : spsc.State)
        → s.reader ≡ inner
        → spsc.pop s.queue ≡ some (x, q)
        → Step s (record s { queue = q; reader = got x })
    pop_nothing : s.reader ≡ inner → spsc.pop s.queue ≡ none → Step s (record s { reader = outer })
    print :
        (x : ℤ)
        → s.reader ≡ got x
        → Step s (record s { reader = shown; printed = s.printed ++ x ∷ [] })
    count :
        s.reader ≡ shown
        → Step s (record s { reader = inner; consumer_count = s.consumer_count + 1 })
    reader_returns :
        s.reader ≡ outer → asio.stopped s.io ≡ true → Step s (record s { reader = left })
    never_read : s.reader ≡ idle → asio.stopped s.io ≡ true → Step s (record s { reader = left })
    see_enough :
        s.main ≡ checking
        → s.done ≡ false
        → enough ≤ s.consumer_count
        → Step s (record s { main = stopping })
    stop : s.main ≡ stopping → Step s (record s { main = joining; io = asio.stop s.io })
    join_all :
        s.main ≡ joining
        → s.receiver ≡ returned
        → s.reader ≡ left
        → Step s (record s { main = joined })
    set_done : s.main ≡ joined → Step s (record s { main = checking; done = true })
    end : s.main ≡ checking → s.done ≡ true → Step s (record s { main = ended })

  -- Any number of steps.
  pub data Steps (s : System) : System → Type 0 where
    start : Steps s s
    later : {t u : System} → Steps s t → Step t u → Steps s u

  -- `main` starts with the socket `sock`.
  abbrev pub Reach : net.Socket → System → Type 0
  Reach sock t = Steps (init sock) t
