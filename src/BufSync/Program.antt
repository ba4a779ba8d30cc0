-- ===== src/BufSync/Program.antt =====
-- src/buf-sync.cxx: `main` and its two worker threads, interleaved at every access of shared state;
-- SyncQueue/Threads has the same steps of Enqueue and Dequeue. Worker `w` is a number below 2. Any
-- worker may run any handler, several calls of Enqueue may overlap, and a push and a pop of the
-- `std::queue` count as one access each. Fewer than 2 ^ 31 datagrams arrive.
pub mod Tokens
pub mod Order
pub mod Moves
pub mod Printed
pub mod Stuck
pub mod Counted
pub mod Datagrams
use test_buffer.Prelude.{
  List, [], dec, false, if◌then◌else◌, inc, ltb, pos, some, take, to_int, true, update, ℕ, ℤ, ◌*◌,
  ◌++◌, ◌+◌, ◌<◌, ◌∷◌, ◌≡◌, ◌≤◌,
}
use test_buffer.Boost.Threads.{Mutex, Condition}
use test_buffer.Boost.Asio.{IoService}
use test_buffer.SyncQueue.Threads.{
  Consumer, outside, testing, to_wait, waiting, found, popped, took_size, leaving,
}

pub data Handler : Type 0 where
  client_reader handle_data receive_data client_writer : Handler

-- The function that called Enqueue: client_writer with its `i`, or receive_data.
pub data Caller : Type 0 where
  writer : (i : ℕ) → Caller
  receiver : Caller

-- Where a worker stands: in `run()` between handlers; in client_writer before `++i < 5`; in Enqueue
-- before the push, after it, with `m_size` read, and before notify_one; in receive_data before
-- `packet_count++`; in handle_data; in client_reader inside Dequeue and with the result of it; and out
-- of `run()`.
pub data Point : Type 0 where
  idle : Point
  at_loop : (i : ℕ) → Point
  to_push : ℤ → Caller → Point
  pushed : Caller → Point
  read_size : ℤ → Caller → Point
  sized : Caller → Point
  to_count to_receive : Point
  reading : Consumer ℤ → Point
  printing : ℤ → Point
  returned : Point

-- `main` at the first `std::cin.get()`, with the reader posted, in its `for` with `i` writers posted,
-- in join_all, at the end.
pub data Main : Type 0 where
  to_start to_post_receive : Main
  sending : (i : ℕ) → Main
  joining ended : Main

abbrev pub n_workers : ℕ
n_workers = 2

-- How often the `for` of `main` goes round.
abbrev pub n_writers : ℕ
n_writers = 10

-- Where the call of Enqueue returns to.
abbrev pub after_enqueue : Caller → Point
after_enqueue (writer i) = at_loop i
after_enqueue receiver = to_count

module _ (mx : Mutex) (cv : Condition) (asio : IoService Handler) where
  -- `enqueued` and `printed` are the values so far that were pushed, and that client_reader printed.
  pub record System : Type 0 where
    pub queue : List ℤ
    pub size : ℤ
    pub mutex : mx.State
    pub cond : cv.State
    pub io : asio.State
    pub packet_count : ℕ
    pub worker : ℕ → Point
    pub main : Main
    pub enqueued : List ℤ
    pub printed : List ℤ

  abbrev pub first_worker : ℕ → Point
  first_worker w = if ltb w n_workers then idle else returned

  abbrev pub init : System
  init = record {
    queue = [];
    size = pos 0;
    mutex = mx.unlocked;
    cond = cv.fresh;
    io = asio.new;
    packet_count = 0;
    worker = first_worker;
    main = to_start;
    enqueued = [];
    printed = [];
  }

  -- Worker `w` goes on to `p`.
  abbrev pub go : ℕ → Point → System → System
  go w p s = record s { worker = update w p s.worker }

  pub data Step (s : System) : System → Type 0 where
    take_writer :
        (w : ℕ) (io : asio.State)
        → s.worker w ≡ idle
        → asio.take s.io ≡ some (client_writer, io)
        → Step s (record (go w (at_loop 0) s) { io = io })
    take_receive :
        (w : ℕ) (io : asio.State) (word : ℕ)
        → s.worker w ≡ idle
        → asio.take s.io ≡ some (receive_data, io)
        → Step s (record (go w (to_push (to_int word) receiver) s) { io = io })
    take_handle :
        (w : ℕ) (io : asio.State)
        → s.worker w ≡ idle
        → asio.take s.io ≡ some (handle_data, io)
        → Step s (record (go w to_receive s) { io = io })
    take_reader :
        (w : ℕ) (io : asio.State)
        → s.worker w ≡ idle
        → asio.take s.io ≡ some (client_reader, io)
        → Step s (record (go w (reading outside) s) { io = io })
    leave_run : (w : ℕ) → s.worker w ≡ idle → asio.stopped s.io ≡ true → Step s (go w returned s)
    -- `i*myid` for the `myid` that `main` gives, 1.
    loop :
        (w i : ℕ)
        → s.worker w ≡ at_loop i
        → i + 1 < 5
        → Step s (go w (to_push (pos ((i + 1) * 1)) (writer (i + 1))) s)
    end_loop : (w i : ℕ) → s.worker w ≡ at_loop i → 5 ≤ i + 1 → Step s (go w idle s)
    push :
        (w : ℕ) (x : ℤ) (c : Caller)
        → s.worker w ≡ to_push x c
        → Step s (record (go w (pushed c) s) {
          queue = s.queue ++ x ∷ [];
          enqueued = s.enqueued ++ x ∷ [];
        })
    read_for_inc :
        (w : ℕ) (c : Caller) → s.worker w ≡ pushed c → Step s (go w (read_size s.size c) s)
    write_inc :
        (w : ℕ) (n : ℤ) (c : Caller)
        → s.worker w ≡ read_size n c
        → Step s (record (go w (sized c) s) { size = inc n })
    notify :
        (w : ℕ) (c : Caller)
        → s.worker w ≡ sized c
        → Step s (record (go w (after_enqueue c) s) { cond = cv.notify_one s.cond })
    count :
        (w : ℕ)
        → s.worker w ≡ to_count
        → Step s (record (go w to_receive s) { packet_count = s.packet_count + 1 })
    receive :
        (w : ℕ)
        → s.worker w ≡ to_receive
        → Step s (record (go w idle s) { io = asio.async_receive_from receive_data s.io })
    take_lock :
        (w : ℕ)
        → s.worker w ≡ reading outside
        → mx.is_free s.mutex ≡ true
        → Step s (record (go w (reading testing) s) { mutex = mx.lock s.mutex })
    see_empty :
        (w : ℕ) → s.worker w ≡ reading testing → s.queue ≡ [] → Step s (go w (reading to_wait) s)
    start_wait :
        (w : ℕ)
        → s.worker w ≡ reading to_wait
        → Step s
            (record (go w (reading waiting) s) { mutex = mx.unlock s.mutex; cond = cv.wait s.cond })
    spurious : (w : ℕ) → s.worker w ≡ reading waiting → Step s (record s { cond = cv.wake s.cond })
    end_wait :
        (w : ℕ)
        → s.worker w ≡ reading waiting
        → cv.is_waiting s.cond ≡ false
        → mx.is_free s.mutex ≡ true
        → Step s (record (go w (reading testing) s) { mutex = mx.lock s.mutex })
    see_front :
        (w : ℕ) (x : ℤ) (xs : List ℤ)
        → s.worker w ≡ reading testing
        → s.queue ≡ x ∷ xs
        → Step s (go w (reading (found x)) s)
    pop :
        (w : ℕ) (x y : ℤ) (xs : List ℤ)
        → s.worker w ≡ reading (found x)
        → s.queue ≡ y ∷ xs
        → Step s (record (go w (reading (popped x)) s) { queue = xs })
    read_for_dec :
        (w : ℕ) (x : ℤ)
        → s.worker w ≡ reading (popped x)
        → Step s (go w (reading (took_size x s.size)) s)
    write_dec :
        (w : ℕ) (x n : ℤ)
        → s.worker w ≡ reading (took_size x n)
        → Step s (record (go w (reading (leaving x)) s) { size = dec n })
    give :
        (w : ℕ) (x : ℤ)
        → s.worker w ≡ reading (leaving x)
        → Step s (record (go w (printing x) s) { mutex = mx.unlock s.mutex })
    -- client_reader prints the value and calls itself.
    print :
        (w : ℕ) (x : ℤ)
        → s.worker w ≡ printing x
        → Step s (record (go w (reading outside) s) { printed = s.printed ++ x ∷ [] })
    post_reader :
        s.main ≡ to_start
        → Step s (record s { io = asio.post client_reader s.io; main = to_post_receive })
    post_receive :
        s.main ≡ to_post_receive
        → Step s (record s { io = asio.post handle_data s.io; main = sending 0 })
    post_writer :
        (i : ℕ)
        → s.main ≡ sending i
        → i < n_writers
        → Step s (record s { io = asio.post client_writer s.io; main = sending (i + 1) })
    stop :
        (i : ℕ)
        → s.main ≡ sending i
        → n_writers ≤ i
        → Step s (record s { io = asio.stop s.io; main = joining })
    join_all :
        s.main ≡ joining
        → ((w : ℕ) → w < n_workers → s.worker w ≡ returned)
        → Step s (record s { main = ended })

  pub data Steps (s : System) : System → Type 0 where
    start : Steps s s
    later : {t u : System} → Steps s t → Step t u → Steps s u

  abbrev pub Reach : System → Type 0
  Reach t = Steps init t
