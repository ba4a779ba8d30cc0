-- ===== src/BoundedBuffer/Crowd/Copies.antt =====
-- include/bounded_buffer.hh: what push_front has read of the container stays true while it has the lock.
use test_buffer.Prelude.{ap, update, update-cases, update-other, update-same, ℕ, ◌∙◌, ◌≡◌, ◌≢◌}
use test_buffer.Boost.CircularBuffer.{CircularBuffer}
use test_buffer.Boost.Threads.{Mutex, Conditions}
use test_buffer.BoundedBuffer.{push_front}
use test_buffer.BoundedBuffer.Crowd.{
  Point, outside, locked, storing, pushed, unlocked, testing, to_wait, waiting, nonempty, read,
  notified, asking, init, Step, lock_to_push, begin_push, push, unlock_push, notify_push,
  lock_to_pop, see_empty, start_wait, end_wait, see_element, read_back, notify_pop, give,
  lock_to_ask, answer, Steps, start, later,
}
use test_buffer.BoundedBuffer.Crowd.Holding.{holds}
use test_buffer.BoundedBuffer.Crowd.Reached.{State, Valid, Steps-Valid}

module _ {ℓ} (A : Type ℓ) (cb : CircularBuffer A) (mx : Mutex) (cv : Conditions) (n : ℕ) where
  abbrev Here : Type ℓ
  Here = State A cb mx cv n

  abbrev pub Copies : Here → Type ℓ
  Copies s = (t : ℕ) (x : A) → s.point t ≡ storing x → s.seen t ≡ s.buffer

  -- A thread that goes on to a point outside of the push.
  keeps :
      (s : Here) (t : ℕ) (q : Point A)
      → ((x : A) → q ≢ storing x)
      → Copies s
      → (u : ℕ) (x : A) → update t q s.point u ≡ storing x
      → s.seen u ≡ s.buffer
  keeps s t q other c =
      update-cases (λ u p. (x : A) → p ≡ storing x → s.seen u ≡ s.buffer) t q s.point
        (λ x h. absurd (other x h)) (λ u m x h. c u x h)

  Step-Copies : {s u : Here} → Step A cb mx cv n s u → Valid A cb mx cv n s → Copies s → Copies u
  Step-Copies {s} (begin_push t x at) v c =
      update-cases (λ u p. (y : A) → p ≡ storing y → update t s.buffer s.seen u ≡ s.buffer) t
        (storing x) s.point (λ y h. update-same t s.buffer s.seen)
        (λ u m y h. update-other t u s.buffer s.seen m ∙ c u y h)
  Step-Copies {s} (push t x at) v c =
      update-cases (λ u p. (y : A) → p ≡ storing y → s.seen u ≡ push_front cb x (s.seen t)) t pushed
        s.point (λ y h. cc)
        (λ u m y h. absurd (m (v.locks.exclusive u t (ap holds h) (ap holds at))))
  Step-Copies {s} (lock_to_push t x l at free) v c = keeps s t (locked x) (λ y h. cc) c
  Step-Copies {s} (unlock_push t at) v c = keeps s t unlocked (λ y h. cc) c
  Step-Copies {s} (notify_push t at) v c = keeps s t outside (λ y h. cc) c
  Step-Copies {s} (lock_to_pop t l at free) v c = keeps s t testing (λ y h. cc) c
  Step-Copies {s} (see_empty t at e) v c = keeps s t to_wait (λ y h. cc) c
  Step-Copies {s} (start_wait t at) v c = keeps s t waiting (λ y h. cc) c
  Step-Copies {s} (end_wait t at w free) v c = keeps s t testing (λ y h. cc) c
  Step-Copies {s} (see_element t at e) v c = keeps s t nonempty (λ y h. cc) c
  Step-Copies {s} (read_back t x at e) v c = keeps s t (read x) (λ y h. cc) c
  Step-Copies {s} (notify_pop t x at) v c = keeps s t (notified x) (λ y h. cc) c
  Step-Copies {s} (give t x at) v c = keeps s t outside (λ y h. cc) c
  Step-Copies {s} (lock_to_ask t l at free) v c = keeps s t asking (λ y h. cc) c
  Step-Copies {s} (answer t b at e) v c = keeps s t outside (λ y h. cc) c
  Step-Copies _ v c = c

  pub Steps-Copies : (cap : ℕ) {s : Here} → Steps A cb mx cv n (init A cb mx cv cap) s → Copies s
  Steps-Copies cap start = λ t x h. cc
  Steps-Copies cap (later r st) =
      Step-Copies st (Steps-Valid A cb mx cv n cap r) (Steps-Copies cap r)
