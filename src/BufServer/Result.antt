-- ===== src/BufServer/Result.antt =====
-- src/buf-server.cxx: what the buffer holds when the program is done, or waits for more.
use test_buffer.Prelude.{
  List, ap, arith, drop, length, length-take, ltb, min, refl, reverse, some, take, value, ℕ, ℤ, ◌+◌,
  ◌∙◌, ◌≡◌,
}
use test_buffer.Boost.CircularBuffer.{CircularBuffer}
use test_buffer.Boost.Asio.{IoService, Sockets}
use test_buffer.BoundedBuffer.Window.{contents-push_all}
use test_buffer.Server
use test_buffer.Server.{Handler, Receipt, Server, World, port}
use test_buffer.Server.Serve.{items}
use test_buffer.Server.Listen.{served, listen_lem}
use test_buffer.Server.Start.{started, announced, initialize_lem}
use test_buffer.BufServer.{buffer_capacity, first_world, main}

module _ (cb : CircularBuffer ℤ) (asio : IoService Handler) (net : Sockets) where
  -- If the socket can be opened, the program handles the receipts in order up to the 10001st and
  -- leaves the others. Its count is their number, the service is stopped exactly if there were 10001,
  -- and the buffer holds the newest 1000 of the words received, as `int`s, the newest first.
  pub main-listen :
      (memory : List ℕ) (thread : ℕ) (rs : List Receipt) (sock : net.Socket)
      → net.open_v4 port ≡ some sock
      → let k = min (length rs) 10001 in
        (s' : Server cb asio net) × (w' : World cb asio net) × (main cb asio net memory thread
            (length rs + 2)
            rs
          ≡ value (s', w', drop k rs))
        × (s'.n_count ≡ k)
        × (asio.stopped w'.io ≡ ltb 10000 k)
        × (cb.contents w'.shared.bounded.container ≡ take 1000 (reverse (items (take k rs))))
  unfolding main Server.make
  main-listen memory thread rs sock opened =
      let s = Server.make cb asio net memory in
      let (begun, set) =
        initialize_lem cb asio net thread s (first_world cb asio net) sock opened in
      let (s', w', ran, got) =
        listen_lem cb asio net thread (length rs + 2) rs (started cb asio net thread sock s)
          (announced cb asio net thread (first_world cb asio net)) set refl asio.stopped-new
          asio.pending-new (omega arith) in
      let count : s'.n_count ≡ min (length rs) 10001 =
        omega (arith, got.count, length-take (served cb asio net rs) rs) in
      (
        s',
        w',
        rw begun ran,
        count,
        got.stopped ∙ ap (ltb 10000) count,
        ap (λ b. cb.contents b.container) got.bounded
            ∙ (contents-push_all cb buffer_capacity (items (take (served cb asio net rs) rs))).0,
      )
