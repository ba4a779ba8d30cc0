-- ===== src/Server/Pool.antt =====
-- src/server.cxx: the threads that run the io_service once listen has posted handle_data: thread 0 is
-- the caller of listen, and the others are the worker threads that it has made. decode_data is six
-- steps, and those of different threads interleave: the write through `bytes`, the push of the first
-- word of the data buffer, the read of the count, its write, its test, and the stop or the next
-- receive. After that one the thread is still in the handler while others may take up the
-- next. A push into the bounded_buffer, which has a lock, is one step.
pub mod Taking
pub mod Phases
pub mod Handling
pub mod Moving
pub mod Serial
pub mod Staying
pub mod Working
pub mod Receiving
pub mod Leaving
use test_buffer.Prelude.{
  Bool, List, Outcome, [], checked, get_elem?, if◌then◌else◌, increment, leb, ltb, some, take,
  to_int, true, update, value, ℕ, ℤ, ◌++◌, ◌+◌, ◌>>=◌, ◌>>◌, ◌∷◌, ◌≡◌,
}
use test_buffer.Boost.CircularBuffer.{CircularBuffer}
use test_buffer.Boost.Asio.{IoService, Sockets}
use test_buffer.Server.{
  Handler, handle_data_handler, decode_data_handler, Receipt, Server, World, handle_data,
  add_to_buffer, end,
}

-- Where a thread stands: not made, in `run()` between handlers; in handle_data; in decode_data, with
-- `bytes` written, the word pushed, the count read, the count written, the count tested; on its return from
-- a handler, out of `run()`, and in a handler that did not return.
pub data Place : Type 0 where
  absent running in_handle_data : Place
  in_decode_data : Receipt → Place
  written word_pushed : Place
  count_read : ℕ → Place
  counted : Place
  tested : (is_over : Bool) → Place
  returning left failed : Place

module _ (cb : CircularBuffer ℤ) (asio : IoService Handler) (net : Sockets) where
  -- `received` lists the receipts that decode_data was called with.
  pub record Pool : Type 0 where
    pub server : Server cb asio net
    pub world : World cb asio net
    pub place : ℕ → Place
    pub received : List Receipt

  -- The threads of `run()`: the caller, and so many workers.
  abbrev pub first_place : ℕ → ℕ → Place
  first_place workers t = if leb t workers then running else absent

  -- listen up to `m_io_service->run()`.
  abbrev pub init : Server cb asio net → World cb asio net → Pool
  init s w = record {
    server = record s { threads = s.threads + s.thread_count };
    world = record w { io = asio.post handle_data_handler w.io };
    place = first_place (s.threads + s.thread_count);
    received = [];
  }

  -- `add_to_buffer(m_data_buffer.at(0))`
  pub push_word :
      Server cb asio net → World cb asio net → Outcome (Server cb asio net × World cb asio net)
  push_word s w = do
    word ← checked (get_elem? s.data_buffer 0)
    w' ← add_to_buffer cb asio net (to_int word) s w
    value (s, w')

  -- `if(counter>10000) end(); else handle_data(counter);`
  pub give_next :
      (is_over : Bool)
      → Server cb asio net
      → World cb asio net
      → Outcome (Server cb asio net × World cb asio net)
  give_next is_over s w =
      if is_over then (do w' ← end cb asio net s w; value (s, w')) else handle_data cb asio net s w

  -- Thread `t` goes on to `c`, if what it did returned.
  abbrev pub finish : ℕ → Place → Pool → Outcome (Server cb asio net × World cb asio net) → Pool
  finish t c p (value (s, w)) = record p { server = s; world = w; place = update t c p.place }
  finish t c p _ = record p { place = update t failed p.place }

  abbrev pub count_place : Outcome ℕ → Place
  count_place (value n) = count_read n
  count_place _ = failed

  pub data Step (p : Pool) : Pool → Type 0 where
    take_handle_data :
        (t : ℕ) (io : asio.State)
        → p.place t ≡ running
        → asio.take p.world.io ≡ some (handle_data_handler, io)
        → Step p (record p {
          world = record p.world { io = io };
          place = update t in_handle_data p.place;
        })
    run_handle_data :
        (t : ℕ)
        → p.place t ≡ in_handle_data
        → Step p (finish t returning p (handle_data cb asio net p.server p.world))
    -- The receive that has ended has filled `m_data_buffer`.
    take_decode_data :
        (t : ℕ) (io : asio.State) (r : Receipt)
        → p.place t ≡ running
        → asio.take p.world.io ≡ some (decode_data_handler, io)
        → Step p (record p {
          server = record p.server { data_buffer = r.first ∷ r.others };
          world = record p.world { io = io };
          place = update t (in_decode_data r) p.place;
          received = p.received ++ r ∷ [];
        })
    write_size :
        (t : ℕ) (r : Receipt)
        → p.place t ≡ in_decode_data r
        → Step p (record p {
          world = record p.world { stale_writes = p.world.stale_writes ++ r.size ∷ [] };
          place = update t written p.place;
        })
    run_push_word :
        (t : ℕ) → p.place t ≡ written → Step p (finish t word_pushed p (push_word p.server p.world))
    -- `counter++`
    read_count :
        (t : ℕ)
        → p.place t ≡ word_pushed
        → Step p (record p { place = update t (count_place (increment p.server.n_count)) p.place })
    write_count :
        (t n : ℕ)
        → p.place t ≡ count_read n
        → Step p (record p {
          server = record p.server { n_count = n };
          place = update t counted p.place;
        })
    test_count :
        (t : ℕ)
        → p.place t ≡ counted
        → Step p (record p { place = update t (tested (ltb 10000 p.server.n_count)) p.place })
    run_give_next :
        (t : ℕ) (is_over : Bool)
        → p.place t ≡ tested is_over
        → Step p (finish t returning p (give_next is_over p.server p.world))
    return :
        (t : ℕ) → p.place t ≡ returning → Step p (record p { place = update t running p.place })
    leave_run :
        (t : ℕ)
        → p.place t ≡ running
        → asio.stopped p.world.io ≡ true
        → Step p (record p { place = update t left p.place })

  pub data Steps (p : Pool) : Pool → Type 0 where
    start : Steps p p
    later : {q r : Pool} → Steps p q → Step q r → Steps p r
