-- ===== src/BoundedBuffer/Monitor/Linear.antt =====
-- include/bounded_buffer.hh: the interleaved threads beside one thread that makes the same calls.
use test_buffer.Prelude.{List, [], ap, get_last?, sym, value, ℕ, ◌++◌, ◌∙◌, ◌∷◌, ◌≡◌}
use test_buffer.Boost.CircularBuffer.{CircularBuffer}
use test_buffer.Boost.Threads.{Mutex, Condition}
use test_buffer.BoundedBuffer.{BoundedBuffer, with_capacity, push_front}
use test_buffer.BoundedBuffer.Refine.{
  Call, pushes, pops, Reply, run, spec_run, after, run-push, run-pop, after-nil, run-new,
}
use test_buffer.BoundedBuffer.Monitor.{System, push, read_back, Reach, Steps, start, later}

module _ {ℓ} (A : Type ℓ) (cb : CircularBuffer A) (mx : Mutex) (cv : Condition) (cap : ℕ) where
  abbrev State : Type ℓ
  State = System A cb mx cv cap

  -- The calls that take effect in some steps, in order: push_front when it pushes, pop_back when it
  -- reads.
  abbrev pub calls_of : {s t : State} → Steps A cb mx cv cap s t → List (Call A)
  calls_of start = []
  calls_of (later r (push x at)) = calls_of r ++ pushes x ∷ []
  calls_of (later r (read_back x at e)) = calls_of r ++ pops ∷ []
  calls_of (later r _) = calls_of r

  module _ {Text : Type 0} (show : A → Text) (gap : Text) where
    -- What they give: pop_back the element that it writes to `*pItem`.
    abbrev pub replies_of : {s t : State} → Steps A cb mx cv cap s t → List (Reply A Text)
    replies_of start = []
    replies_of (later r (push x at)) = replies_of r ++ Reply.pushed ∷ []
    replies_of (later r (read_back x at e)) = replies_of r ++ Reply.popped (value x) ∷ []
    replies_of (later r _) = replies_of r

    abbrev first : BoundedBuffer cb
    first = with_capacity cb cap

    -- One thread that makes the calls gets the replies, and leaves the buffer.
    record Matches {s : State} (r : Reach A cb mx cv cap s) : Type ℓ where
      replies : run show gap cb (calls_of r) first ≡ replies_of r
      left : after show gap cb (calls_of r) first ≡ s.buffer

    Reach-Matches : {s : State} (r : Reach A cb mx cv cap s) → Matches r
    Reach-Matches start = record {
      replies = (after-nil show gap cb first).0;
      left = (after-nil show gap cb first).1;
    }
    Reach-Matches (later r (push x at)) =
        let v = Reach-Matches r in
        let (more, now) = run-push show gap cb (calls_of r) x first in
        record {
          replies = more ∙ ap (λ z. z ++ Reply.pushed ∷ []) v.replies;
          left = now ∙ ap (push_front cb x) v.left;
        }
    Reach-Matches (later {t = s} r (read_back x at e)) =
        let v = Reach-Matches r in
        let (more, now) = run-pop show gap cb (calls_of r) x first (
          ap (λ b. get_last? (cb.contents b.container)) v.left
          ∙ (sym (cb.back-contents s.buffer.container) ∙ e)) in
        record {
          replies = more ∙ ap (λ z. z ++ Reply.popped (value x) ∷ []) v.replies;
          left = now ∙ v.left;
        }
    Reach-Matches (later r st) =
        let v = Reach-Matches r in record { replies = v.replies; left = v.left }

    -- The class over its mutex and its condition is one atomic buffer: in every interleaving of a
    -- thread that pushes and one that pops, the replies, in the order in which the calls take effect,
    -- are those that a window of the newest `cap` elements gives to the same calls one after the
    -- other.
    pub replies-Reach :
        {s : State} (r : Reach A cb mx cv cap s)
        → replies_of r ≡ spec_run show gap (calls_of r) cap []
    replies-Reach r = sym (Reach-Matches r).replies ∙ run-new show gap cb cap (calls_of r)
