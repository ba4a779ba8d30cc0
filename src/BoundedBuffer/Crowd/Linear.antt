-- ===== src/BoundedBuffer/Crowd/Linear.antt =====
-- include/bounded_buffer.hh: any number of interleaved threads beside one thread that makes the same
-- calls.
use test_buffer.Prelude.{List, [], ap, get_last?, refl, sym, value, ℕ, ◌++◌, ◌∙◌, ◌∷◌, ◌≡◌}
use test_buffer.Boost.CircularBuffer.{CircularBuffer}
use test_buffer.Boost.Threads.{Mutex, Conditions}
use test_buffer.BoundedBuffer.{BoundedBuffer, with_capacity, push_front, get_size, get_capacity}
use test_buffer.BoundedBuffer.Refine.{
  Call, pushes, pops, asks_capacity, asks_size, asks_empty, Reply, popped, number, truth, run,
  spec_run, after, run-push, run-pop, after-nil, run-new,
}
use test_buffer.BoundedBuffer.Refine.Asking.{run-size, run-capacity, run-empty}
use test_buffer.BoundedBuffer.Crowd.Copies.{Copies, Steps-Copies}
use test_buffer.BoundedBuffer.Crowd.{
  System, Step, push, read_back, answer, ask_size, ask_capacity, Steps, start, later, init,
}

module _ {ℓ} (A : Type ℓ) (cb : CircularBuffer A) (mx : Mutex) (cv : Conditions) (n : ℕ) where
  abbrev State : Type ℓ
  State = System A cb mx cv

  -- The call that takes effect in a step, behind those before: push_front when it pushes, pop_back when
  -- it reads, the others when they look.
  abbrev and_call : {s t : State} → Step A cb mx cv n s t → List (Call A) → List (Call A)
  and_call (push t x at) calls = calls ++ pushes x ∷ []
  and_call (read_back t x at e) calls = calls ++ pops ∷ []
  and_call (answer t b at e) calls = calls ++ asks_empty ∷ []
  and_call (ask_size t l at) calls = calls ++ asks_size ∷ []
  and_call (ask_capacity t l at) calls = calls ++ asks_capacity ∷ []
  and_call _ calls = calls

  abbrev pub calls_of : {s t : State} → Steps A cb mx cv n s t → List (Call A)
  calls_of start = []
  calls_of (later r st) = and_call st (calls_of r)

  module _ {Text : Type 0} (show : A → Text) (gap : Text) where
    -- What it gives: pop_back the element that it writes to `*pItem`.
    abbrev and_reply :
        {s t : State} → Step A cb mx cv n s t → List (Reply A Text) → List (Reply A Text)
    and_reply (push t x at) replies = replies ++ Reply.pushed ∷ []
    and_reply (read_back t x at e) replies = replies ++ popped (value x) ∷ []
    and_reply (answer t b at e) replies = replies ++ truth b ∷ []
    and_reply {s} (ask_size t l at) replies = replies ++ number (get_size cb s.buffer) ∷ []
    and_reply {s} (ask_capacity t l at) replies = replies ++ number (get_capacity cb s.buffer) ∷ []
    and_reply _ replies = replies

    abbrev pub replies_of : {s t : State} → Steps A cb mx cv n s t → List (Reply A Text)
    replies_of start = []
    replies_of (later r st) = and_reply st (replies_of r)

    -- One thread that makes the calls on `b` gets the replies, and leaves the buffer.
    record Matches (b : BoundedBuffer cb) (calls : List (Call A)) (replies : List (Reply A Text))
        (s : State) : Type ℓ where
      same : run show gap cb calls b ≡ replies
      left : after show gap cb calls b ≡ s.buffer

    -- A call that gives `reply` and leaves the buffer `b'`.
    Matches-call :
        {b b' : BoundedBuffer cb} {calls : List (Call A)} {replies : List (Reply A Text)}
        {s : State} (s' : State) (call : Call A) (reply : Reply A Text)
        → (run show gap cb (calls ++ call ∷ []) b ≡ run show gap cb calls b ++ reply ∷ [])
          × (after show gap cb (calls ++ call ∷ []) b ≡ b')
        → b' ≡ s'.buffer
        → Matches b calls replies s
        → Matches b (calls ++ call ∷ []) (replies ++ reply ∷ []) s'
    Matches-call s' call reply (more, now) e v = record {
      same = more ∙ ap (λ z. z ++ reply ∷ []) v.same;
      left = now ∙ e;
    }

    Matches-same :
        {b : BoundedBuffer cb} {calls : List (Call A)} {replies : List (Reply A Text)}
        {s s' : State}
        → s.buffer ≡ s'.buffer
        → Matches b calls replies s
        → Matches b calls replies s'
    Matches-same e v = record { same = v.same; left = v.left ∙ e }

    Step-Matches :
        {s t : State} (b : BoundedBuffer cb) (calls : List (Call A)) (replies : List (Reply A Text))
        (st : Step A cb mx cv n s t)
        → Copies A cb mx cv n s
        → Matches b calls replies s
        → Matches b (and_call st calls) (and_reply st replies) t
    Step-Matches b calls replies (push t x at) c v =
        Matches-call _ (pushes x) Reply.pushed (run-push show gap cb calls x b)
          (ap (push_front cb x) (v.left ∙ sym (c t x at))) v
    Step-Matches {s} b calls replies (read_back t x at e) c v =
        Matches-call _ pops (popped (value x))
          (run-pop show gap cb calls x b (
            ap (λ z. get_last? (cb.contents z.container)) v.left
            ∙ (sym (cb.back-contents s.buffer.container) ∙ e)))
          v.left v
    Step-Matches b calls replies (answer t y at e) c v =
        Matches-call _ asks_empty (truth y)
          (let (r, a) = run-empty show gap cb calls b in
            (
              r
                  ∙ ap (λ z. run show gap cb calls b ++ truth z ∷ [])
                      (ap (λ z. cb.empty z.container) v.left ∙ e),
              a,
            ))
          v.left v
    Step-Matches b calls replies (ask_size t l at) c v =
        Matches-call _ asks_size _
          (let (r, a) = run-size show gap cb calls b in
            (r ∙ ap (λ z. run show gap cb calls b ++ number (get_size cb z) ∷ []) v.left, a))
          v.left v
    Step-Matches b calls replies (ask_capacity t l at) c v =
        Matches-call _ asks_capacity _
          (let (r, a) = run-capacity show gap cb calls b in
            (r ∙ ap (λ z. run show gap cb calls b ++ number (get_capacity cb z) ∷ []) v.left, a))
          v.left v
    Step-Matches b calls replies _ c v = Matches-same refl v

    Steps-Matches :
        (cap : ℕ) {s : State} (r : Steps A cb mx cv n (init A cb mx cv cap) s)
        → Matches (with_capacity cb cap) (calls_of r) (replies_of r) s
    Steps-Matches cap start =
        let (same, left) = after-nil show gap cb (with_capacity cb cap) in
        record { same = same; left = left }
    Steps-Matches cap (later r st) =
        Step-Matches _ _ _ st (Steps-Copies A cb mx cv n cap r) (Steps-Matches cap r)

    -- The class is one atomic buffer to any number of threads: in every interleaving of their calls of
    -- push_front, pop_back, empty, get_size and get_capacity on a new buffer, the replies, in the order
    -- in which the calls take effect, are those that a window of the newest `cap` elements gives to
    -- the same calls one after the other.
    pub replies-crowd :
        (cap : ℕ) {s : State} (r : Steps A cb mx cv n (init A cb mx cv cap) s)
        → replies_of r ≡ spec_run show gap (calls_of r) cap []
    replies-crowd cap r = sym (Steps-Matches cap r).same ∙ run-new show gap cb cap (calls_of r)
