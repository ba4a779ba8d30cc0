-- ===== src/Server/Start.antt =====
-- src/server.cxx: initialize and start_gathering.
use test_buffer.Prelude.{false, get_last?, refl, some, true, undefined, value, ℕ, ℤ, ◌++◌, ◌≡◌}
use test_buffer.Boost.CircularBuffer.{CircularBuffer}
use test_buffer.Boost.Asio.{IoService, Sockets}
use test_buffer.Decoder
use test_buffer.Decoder.{Decoder}
use test_buffer.Decoder.Faults.{read_once_lem}
use test_buffer.Server.{
  Handler, Server, World, port, initialize, retire, start_gathering, read_data_round,
}
use test_buffer.Server.Branches.{IsInitialized}

module _ (cb : CircularBuffer ℤ) (asio : IoService Handler) (net : Sockets) where
  -- The decoder that initialize makes.
  abbrev pub first_decoder : ℕ → Decoder
  first_decoder thread = (Decoder.initialize thread Decoder.make).0

  -- The server with everything set, and the world with the decoder's line of output.
  abbrev pub started : ℕ → net.Socket → Server cb asio net → Server cb asio net
  started thread sock s = record s {
    socket = some sock;
    io_service = true;
    bounded_buffer = true;
    decoder = some (first_decoder thread);
  }

  abbrev pub announced : ℕ → World cb asio net → World cb asio net
  announced thread w = record w {
    shared = record w.shared {
      lines = w.shared.lines ++ (Decoder.initialize thread Decoder.make).1;
    };
  }

  -- If a socket can be opened, initialize returns: it sets all members that the other functions use,
  -- whatever they were, adds the decoder's line to the output, and leaves the old socket as `retire`
  -- does; the check for an unopened socket does not make it exit.
  pub initialize_lem :
      (thread : ℕ) (s : Server cb asio net) (w : World cb asio net) (sock : net.Socket)
      → net.open_v4 port ≡ some sock
      → (initialize cb asio net thread s w
          ≡ value (started thread sock s, announced thread w, retire cb asio net s.socket))
        × IsInitialized cb asio net (started thread sock s)
  unfolding initialize
  initialize_lem thread s w sock opened = (
    rw (opened, net.is_open-open_v4 port sock opened),
    record { sock = sock; socket = refl; io_service = refl; bounded_buffer = refl },
  )

  -- start_gathering posts read_data for a decoder whose event counter nobody sets: after initialize
  -- and start_gathering the first round that finds an element in the buffer uses a null pointer. A
  -- second start_gathering changes nothing.
  pub read_data-start_gathering :
      (thread other : ℕ) (s : Server cb asio net) (w1 w2 : World cb asio net) (sock : net.Socket)
      (x : ℤ)
      → get_last? (cb.contents w2.shared.bounded.container) ≡ some x
      → (s' : Server cb asio net) × (w' : World cb asio net) × (start_gathering cb asio net
            (record (started thread sock s) { gathering_in_progress = false })
            w1
          ≡ value (s', w'))
        × (start_gathering cb asio net s' w' ≡ value (s', w'))
        × (read_data_round cb asio net other s' w2 ≡ undefined)
  unfolding start_gathering read_data_round Decoder.initialize Decoder.make
  read_data-start_gathering thread other s w1 w2 sock x h =
      (_, _, refl, refl, rw (read_once_lem cb other (first_decoder thread) w2.shared refl, h))
