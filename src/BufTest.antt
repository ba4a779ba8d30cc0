-- ===== src/BufTest.antt =====
-- src/buf-test.cxx: `main` and its four workers, interleaved at every piece that they insert into
-- the stream. Thread 0 is `main`, and worker `x` is thread `x + 1`.
pub mod Points
pub mod Locking
pub mod Output
pub mod Lines
pub mod End
pub mod Places
pub mod Placed
pub mod Progress
pub mod Running
use test_buffer.Prelude.{List, [], suc, true, update, zero, ℕ, ◌++◌, ◌+◌, ◌<◌, ◌∷◌, ◌≡◌, ◌≤◌}
use test_buffer.Boost.Asio.{IoService}
use test_buffer.Boost.Threads.{Mutex}

-- No handler is given to the io_service.
pub data Handler : Type 0 where

pub data Line : Type 0 where
  press_return thread_start thread_finish : Line

-- What one `<<` inserts.
pub data Piece : Type 0 where
  bracket : Piece
  thread_id : (thread : ℕ) → Piece
  text : Line → Piece
  end_line : Piece

-- `std::cout << "[" << boost::this_thread::get_id() << "] …" << std::endl`
unfoldable pub pieces : ℕ → Line → List Piece
pieces thread line = bracket ∷ thread_id thread ∷ text line ∷ end_line ∷ []

-- Where a thread stands: not made yet, before `lock()` with the line that it prints next, with the
-- lock and the pieces left to insert, in `run()`, and finished; `main` alone: in its `for` with `x`,
-- at `std::cin.get()`, before `stop`, in join_all, at the end.
pub data Point : Type 0 where
  absent : Point
  to_lock : Line → Point
  writing : Line → List Piece → Point
  in_run finished : Point
  creating : (x : ℕ) → Point
  at_input stopping joining ended : Point

-- What comes after a line.
unfoldable pub next : Line → Point
next press_return = creating 0
next thread_start = in_run
next thread_finish = finished

abbrev pub n_workers : ℕ
n_workers = 4

module _ (mx : Mutex) (asio : IoService Handler) where
  -- `lines` are the lines begun so far, each with its thread.
  pub record System : Type 0 where
    pub stream_lock : mx.State
    pub io : asio.State
    pub point : ℕ → Point
    pub output : List Piece
    pub lines : List (ℕ × Line)

  unfoldable pub first_point : ℕ → Point
  first_point zero = to_lock press_return
  first_point (suc x) = absent

  abbrev pub init : System
  init = record {
    stream_lock = mx.unlocked;
    io = asio.new;
    point = first_point;
    output = [];
    lines = [];
  }

  pub data Step (s : System) : System → Type 0 where
    lock :
        (t : ℕ) (line : Line)
        → s.point t ≡ to_lock line
        → mx.is_free s.stream_lock ≡ true
        → Step s (record s {
          stream_lock = mx.lock s.stream_lock;
          point = update t (writing line (pieces t line)) s.point;
          lines = s.lines ++ (t, line) ∷ [];
        })
    insert :
        (t : ℕ) (line : Line) (p : Piece) (ps : List Piece)
        → s.point t ≡ writing line (p ∷ ps)
        → Step s
            (record s { point = update t (writing line ps) s.point; output = s.output ++ p ∷ [] })
    unlock :
        (t : ℕ) (line : Line)
        → s.point t ≡ writing line []
        → Step s (record s {
          stream_lock = mx.unlock s.stream_lock;
          point = update t (next line) s.point;
        })
    create_thread :
        (x : ℕ)
        → s.point 0 ≡ creating x
        → x < n_workers
        → Step s (record s {
          point = update (x + 1) (to_lock thread_start) (update 0 (creating (x + 1)) s.point);
        })
    end_creating :
        (x : ℕ)
        → s.point 0 ≡ creating x
        → n_workers ≤ x
        → Step s (record s { point = update 0 at_input s.point })
    get : s.point 0 ≡ at_input → Step s (record s { point = update 0 stopping s.point })
    stop :
        s.point 0 ≡ stopping
        → Step s (record s { io = asio.stop s.io; point = update 0 joining s.point })
    leave_run :
        (t : ℕ)
        → s.point t ≡ in_run
        → asio.stopped s.io ≡ true
        → Step s (record s { point = update t (to_lock thread_finish) s.point })
    join_all :
        s.point 0 ≡ joining
        → ((x : ℕ) → x < n_workers → s.point (x + 1) ≡ finished)
        → Step s (record s { point = update 0 ended s.point })

  pub data Steps (s : System) : System → Type 0 where
    start : Steps s s
    later : {t u : System} → Steps s t → Step t u → Steps s u

  abbrev pub Reach : System → Type 0
  Reach t = Steps init t
