-- ===== src/Boost/Asio.antt =====
-- boost::asio::io_service and boost::asio::ip::udp::socket: parameters with their documented
-- behaviour. `pending` lists the handlers that were given and have not run.
use test_buffer.Prelude.{Bool, List, Option, [], false, none, some, true, ℕ, ◌++◌, ◌∷◌, ◌≡◌}

pub record IoService (Handler : Type 0) : Type 1 where
  pub State : Type 0
  pub new : State
  pub post : Handler → State → State
  pub async_receive_from : Handler → State → State
  pub stop : State → State
  pub stopped : State → Bool
  -- What a thread in `run()` takes up next: `none` if the service is stopped or nothing is there.
  pub take : State → Option (Handler × State)
  pub pending : State → List Handler
  pub pending-new : pending new ≡ []
  pub stopped-new : stopped new ≡ false
  pub pending-post : (h : Handler) (s : State) → pending (post h s) ≡ pending s ++ h ∷ []
  pub stopped-post : (h : Handler) (s : State) → stopped (post h s) ≡ stopped s
  pub pending-async_receive_from :
      (h : Handler) (s : State) → pending (async_receive_from h s) ≡ pending s ++ h ∷ []
  pub stopped-async_receive_from :
      (h : Handler) (s : State) → stopped (async_receive_from h s) ≡ stopped s
  pub stopped-stop : (s : State) → stopped (stop s) ≡ true
  pub take-stopped : (s : State) → stopped s ≡ true → take s ≡ none
  pub stopped-take : (h : Handler) (s s' : State) → take s ≡ some (h, s') → stopped s' ≡ stopped s
  pub pending-stop : (s : State) → pending (stop s) ≡ pending s
  -- The order among several handlers is left open.
  pub take-pending :
      (h : Handler) (s s' : State)
      → take s ≡ some (h, s')
      → (xs ys : List Handler) × (pending s ≡ xs ++ h ∷ ys) × (pending s' ≡ xs ++ ys)
  pub take-only :
      (h : Handler) (s : State)
      → stopped s ≡ false
      → pending s ≡ h ∷ []
      → (s' : State) × (take s ≡ some (h, s')) × (pending s' ≡ []) × (stopped s' ≡ false)

pub record Sockets : Type 1 where
  pub Socket : Type 0
  pub open_v4 : (port : ℕ) → Option Socket  -- `none`: the constructor throws
  pub is_open : Socket → Bool
  pub close : Socket → Socket
  pub shutdown : Socket → Socket
  pub is_open-open_v4 : (port : ℕ) (s : Socket) → open_v4 port ≡ some s → is_open s ≡ true
  pub is_open-close : (s : Socket) → is_open (close s) ≡ false
  pub is_open-shutdown : (s : Socket) → is_open (shutdown s) ≡ is_open s
