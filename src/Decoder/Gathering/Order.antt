-- ===== src/Decoder/Gathering/Order.antt =====
-- src/decoder.cxx: what the steps of the threads are to the items that read_data keeps.
use test_buffer.Prelude.{
  List, [], ap, arith, get_elem?, get_elem?-append_left, get_last?, get_last?-take-reverse, inl,
  inr, length, length-append, refl, reverse, some, suc, sym, take, update, update-other,
  update-same, zero, ℕ, ℤ, ◌++◌, ◌-◌, ◌<◌, ◌∙◌, ◌∷◌, ◌≡◌, ◌≢◌, ◌≤◌, ◌⊎◌,
}
use test_buffer.Boost.CircularBuffer.{CircularBuffer}
use test_buffer.Boost.Threads.{Mutex, Conditions}
use test_buffer.BoundedBuffer.{push_front, BoundedBuffer}
use test_buffer.BoundedBuffer.Crowd
use test_buffer.BoundedBuffer.Crowd.Copies.{Copies}
use test_buffer.BoundedBuffer.Crowd.{outside}
use test_buffer.Decoder.Trace.{Holds, push_front-Holds}
use test_buffer.Decoder.Gathering.{Point, popped, inside, returned, Crowds, who, part, and_sent}

-- The list has items of `sent` in the order in which they were sent, some of them several times and
-- some not at all; the last one stands at the index.
pub data InOrder (sent : List ℤ) : List ℤ → ℕ → Type 0 where
  none_yet : InOrder sent [] 0
  and_then :
      {xs : List ℤ} {i : ℕ} (j : ℕ) (x : ℤ)
      → InOrder sent xs i
      → i ≤ j
      → get_elem? sent j ≡ some x
      → InOrder sent (xs ++ x ∷ []) j

get_elem?-some-lt : (xs : List ℤ) (i : ℕ) (x : ℤ) → get_elem? xs i ≡ some x → i < length xs
get_elem?-some-lt [] i x h = cc
get_elem?-some-lt (y ∷ xs) zero x h = omega arith
get_elem?-some-lt (y ∷ xs) (suc i) x h = omega (arith, get_elem?-some-lt xs i x h)

InOrder-append :
    {sent xs : List ℤ} {i : ℕ} (ys : List ℤ) → InOrder sent xs i → InOrder (sent ++ ys) xs i
InOrder-append ys none_yet = none_yet
InOrder-append {sent} ys (and_then j x v l e) =
    and_then j x (InOrder-append ys v) l
      (get_elem?-append_left sent ys j (get_elem?-some-lt sent j x e) ∙ e)

-- The item that pop_back has read and not returned.
abbrev pub in_call : Crowd.Point ℤ → List ℤ
in_call (Crowd.read x) = x ∷ []
in_call (Crowd.notified x) = x ∷ []
in_call _ = []

-- The item that it has returned and that is not yet in `yep_vec`.
abbrev pub in_hand : Point → List ℤ
in_hand (popped x) = x ∷ []
in_hand _ = []

oldest-sent :
    (cap : ℕ) (sent : List ℤ) (x : ℤ)
    → get_last? (take cap (reverse sent)) ≡ some x
    → get_elem? sent (length sent - cap) ≡ some x
oldest-sent zero sent x e = cc
oldest-sent (suc c) [] x e = cc
oldest-sent (suc c) (y ∷ ys) x e =
    sym (get_last?-take-reverse (y ∷ ys) (suc c) (omega arith) (omega arith)) ∙ e

module _ (cb : CircularBuffer ℤ) (mx : Mutex) (cv : Conditions) (n : ℕ) where
  abbrev Here : Type 0
  Here = Crowds cb mx cv n

  -- Another thread leaves the thread of read_data where it is.
  pub point-other :
      {s u : Here} (st : Crowd.Step ℤ cb mx cv n s u)
      → who cb mx cv n st ≢ 0
      → u.point 0 ≡ s.point 0
  point-other (Crowd.spurious t at) h = refl
  point-other (Crowd.ask_size t l at) h = refl
  point-other (Crowd.ask_capacity t l at) h = refl
  point-other {s} st h = update-other (who cb mx cv n st) 0 _ s.point (λ e. h (sym e))

  pub Step-Holds :
      {s u : Here} {cap : ℕ} {sent : List ℤ} (st : Crowd.Step ℤ cb mx cv n s u)
      → Copies ℤ cb mx cv n s
      → Holds cb cap sent s.buffer
      → Holds cb cap (and_sent cb mx cv n st sent) u.buffer
  Step-Holds {s} {cap = cap} {sent = sent} (Crowd.push t x at) c v =
      let after : Holds cb cap (sent ++ x ∷ []) (push_front cb x s.buffer) =
        push_front-Holds cb cap sent x v in
      rw (c t x at) after
  Step-Holds _ c v = v

  pub Step-InOrder :
      {s u : Here} {sent xs : List ℤ} {i : ℕ} (st : Crowd.Step ℤ cb mx cv n s u)
      → InOrder sent xs i
      → InOrder (and_sent cb mx cv n st sent) xs i
  Step-InOrder (Crowd.push t x at) v = InOrder-append (x ∷ []) v
  Step-InOrder _ v = v

  pub Step-length :
      {s u : Here} (sent : List ℤ) (st : Crowd.Step ℤ cb mx cv n s u)
      → length sent ≤ length (and_sent cb mx cv n st sent)
  Step-length sent (Crowd.push t x at) = omega (arith, length-append sent (x ∷ []))
  Step-length sent _ = omega arith

  -- The oldest of the newest `cap` items.
  pub back-sent :
      (cap : ℕ) (sent : List ℤ) (x : ℤ) (b : BoundedBuffer cb)
      → Holds cb cap sent b
      → cb.back b.container ≡ some x
      → get_elem? sent (length sent - cap) ≡ some x
  back-sent cap sent x b v e =
      let last : get_last? (take cap (reverse sent)) ≡ some x =
        ap get_last? (sym v.newest) ∙ (sym (cb.back-contents b.container) ∙ e) in
      oldest-sent cap sent x last

  module _ (t : ℕ) (p q : Crowd.Point ℤ) (f : ℕ → Crowd.Point ℤ) (h : t ≡ 0) (at : f t ≡ p) where
    now : update t q f 0 ≡ q
    now = ap (update t q f) (sym h) ∙ update-same t q f

    before : f 0 ≡ p
    before = ap f (sym h) ∙ at

    same_item : in_call p ≡ in_call q → in_call (update t q f 0) ≡ in_call (f 0)
    same_item e = ap in_call now ∙ sym e ∙ sym (ap in_call before)

  -- A step inside of pop_back: it leaves the buffer, and may read the back.
  pub record Pops (s u : Here) : Type 0 where
    pub buffer : u.buffer ≡ s.buffer
    pub item :
        (in_call (u.point 0) ≡ in_call (s.point 0))
        ⊎ ((x : ℤ) × (in_call (s.point 0) ≡ [])
            × (in_call (u.point 0) ≡ x ∷ [])
            × (cb.back s.buffer.container ≡ some x))

  pub pops :
      {s u : Here} (st : Crowd.Step ℤ cb mx cv n s u)
      → who cb mx cv n st ≡ 0
      → part cb mx cv n st ≡ inside
      → Pops s u
  pops {s} (Crowd.lock_to_pop t l at free) h i = record {
    buffer = refl;
    item = inl (same_item t _ Crowd.testing s.point h at refl);
  }
  pops {s} (Crowd.see_empty t at e) h i = record {
    buffer = refl;
    item = inl (same_item t _ Crowd.to_wait s.point h at refl);
  }
  pops {s} (Crowd.start_wait t at) h i = record {
    buffer = refl;
    item = inl (same_item t _ Crowd.waiting s.point h at refl);
  }
  pops (Crowd.spurious t at) h i = record { buffer = refl; item = inl refl }
  pops {s} (Crowd.end_wait t at w free) h i = record {
    buffer = refl;
    item = inl (same_item t _ Crowd.testing s.point h at refl);
  }
  pops {s} (Crowd.see_element t at e) h i = record {
    buffer = refl;
    item = inl (same_item t _ Crowd.nonempty s.point h at refl);
  }
  pops {s} (Crowd.read_back t x at e) h i = record {
    buffer = refl;
    item = inr (
      x,
      ap in_call (before t _ (Crowd.read x) s.point h at),
      ap in_call (now t _ (Crowd.read x) s.point h at),
      e,
    );
  }
  pops {s} (Crowd.notify_pop t x at) h i = record {
    buffer = refl;
    item = inl (same_item t _ (Crowd.notified x) s.point h at refl);
  }
  pops _ h i = cc

  -- pop_back returns the item that it has read.
  pub returns :
      {s u : Here} (x : ℤ) (st : Crowd.Step ℤ cb mx cv n s u)
      → who cb mx cv n st ≡ 0
      → part cb mx cv n st ≡ returned x
      → (u.buffer ≡ s.buffer) × (in_call (s.point 0) ≡ x ∷ []) × (u.point 0 ≡ outside)
  returns {s} x (Crowd.give t y at) h i =
      (refl, ap in_call (before t _ outside s.point h at) ∙ cc i, now t _ outside s.point h at)
  returns x _ h i = cc
