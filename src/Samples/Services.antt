-- ===== src/Samples/Services.antt =====
-- A mutex, a condition, an io_service and a socket.
use test_buffer.Prelude.{
  Bool, List, Option, [], arith, false, none, refl, some, true, ◌++◌, ◌∷◌, ◌≡◌,
}
use test_buffer.Boost.Threads.{Mutex, Condition}
use test_buffer.Boost.Asio.{IoService, Sockets}

-- The state tells whether the mutex is free.
abbrev pub flag_mutex : Mutex
flag_mutex = record {
  State = Bool;
  unlocked = true;
  is_free = λ m. m;
  lock = λ m. false;
  unlock = λ m. true;
  is_free-unlocked = refl;
  is_free-lock = λ m. refl;
  is_free-unlock = λ m. refl;
}

-- The state tells whether a thread waits.
abbrev pub flag_condition : Condition
flag_condition = record {
  State = Bool;
  fresh = false;
  is_waiting = λ c. c;
  wait = λ c. true;
  notify_one = λ c. false;
  wake = λ c. false;
  is_waiting-fresh = refl;
  is_waiting-wait = λ c. refl;
  is_waiting-notify_one = λ c. refl;
  is_waiting-wake = λ c. refl;
}

pub record Tasks (H : Type 0) : Type 0 where
  pub waiting : List H
  pub halted : Bool

module _ {H : Type 0} where
  abbrev pub next_task : List H → Bool → Option (H × Tasks H)
  next_task hs true = none
  next_task [] false = none
  next_task (h ∷ hs) false = some (h, record { waiting = hs; halted = false })

  pub next_task-halted : (hs : List H) (b : Bool) → b ≡ true → next_task hs b ≡ none
  next_task-halted [] true e = refl
  next_task-halted (h ∷ hs) true e = refl
  next_task-halted hs false e = cc

  pub next_task-halted_same :
      (hs : List H) (b : Bool) (h : H) (t : Tasks H) → next_task hs b ≡ some (h, t) → t.halted ≡ b
  next_task-halted_same [] true h t e = cc
  next_task-halted_same (k ∷ hs) true h t e = cc
  next_task-halted_same [] false h t e = cc
  next_task-halted_same (k ∷ hs) false h t e = ground arith

  pub next_task-waiting :
      (hs : List H) (b : Bool) (h : H) (t : Tasks H)
      → next_task hs b ≡ some (h, t)
      → (xs ys : List H) × (hs ≡ xs ++ h ∷ ys) × (t.waiting ≡ xs ++ ys)
  next_task-waiting [] true h t e = cc
  next_task-waiting (k ∷ hs) true h t e = cc
  next_task-waiting [] false h t e = cc
  next_task-waiting (k ∷ hs) false h t e = ([], hs, ground arith, ground arith)

  pub next_task-only :
      (h : H) (t : Tasks H)
      → t.halted ≡ false
      → t.waiting ≡ h ∷ []
      → (t' : Tasks H) × (next_task t.waiting t.halted ≡ some (h, t'))
        × (t'.waiting ≡ [])
        × (t'.halted ≡ false)
  next_task-only h t on only = (record { waiting = []; halted = false }, rw (only, on), refl, refl)

abbrev pub list_service : (H : Type 0) → IoService H
list_service H = record {
  State = Tasks H;
  new = record { waiting = []; halted = false };
  post = λ h t. record t { waiting = t.waiting ++ h ∷ [] };
  async_receive_from = λ h t. record t { waiting = t.waiting ++ h ∷ [] };
  stop = λ t. record t { halted = true };
  stopped = λ t. t.halted;
  take = λ t. next_task t.waiting t.halted;
  pending = λ t. t.waiting;
  pending-new = refl;
  stopped-new = refl;
  pending-post = λ h t. refl;
  stopped-post = λ h t. refl;
  pending-async_receive_from = λ h t. refl;
  stopped-async_receive_from = λ h t. refl;
  stopped-stop = λ t. refl;
  take-stopped = λ t. next_task-halted t.waiting t.halted;
  stopped-take = λ h t t'. next_task-halted_same t.waiting t.halted h t';
  pending-stop = λ t. refl;
  take-pending = λ h t t'. next_task-waiting t.waiting t.halted h t';
  take-only = next_task-only;
}

pub opened : (s : Bool) → some true ≡ some s → s ≡ true
opened s e = ground arith

-- The state tells whether the socket is open.
abbrev pub flag_sockets : Sockets
flag_sockets = record {
  Socket = Bool;
  open_v4 = λ port. some true;
  is_open = λ s. s;
  close = λ s. false;
  shutdown = λ s. s;
  is_open-open_v4 = λ port s e. opened s e;
  is_open-close = λ s. refl;
  is_open-shutdown = λ s. refl;
}
