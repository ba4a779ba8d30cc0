-- ===== src/Decoder/Gathering/Kept.antt =====
-- src/decoder.cxx: which items the thread of read_data keeps, and what it tells of them, while other
-- threads push.
use test_buffer.Prelude.{
  List, [], ap, append-nil, arith, inl, inr, length, refl, sym, take-all, ℕ, ℤ, ◌++◌, ◌-◌, ◌∙◌, ◌∷◌,
  ◌≡◌, ◌≢◌, ◌≤◌,
}
use test_buffer.Boost.CircularBuffer.{CircularBuffer}
use test_buffer.Boost.Threads.{Mutex, Conditions}
use test_buffer.BoundedBuffer.{with_capacity}
use test_buffer.BoundedBuffer.Crowd.Copies.{Steps-Copies}
use test_buffer.BoundedBuffer.Crowd.{outside}
use test_buffer.Decoder.{make, initialize, start_gathering}
use test_buffer.Decoder.Trace.{Holds}
use test_buffer.Decoder.Gathering.{
  crowd_of, Crowds, popping, popped, System, init, other, pop, return, keep, note, see_size, print,
  count, Steps, start, later, sent_of,
}
use test_buffer.Decoder.Gathering.Order.{
  InOrder, none_yet, and_then, in_call, in_hand, point-other, Step-Holds, Step-InOrder, Step-length,
  back-sent, Pops, pops, returns,
}
use test_buffer.Decoder.Gathering.Telling.{note_thread-keeps, Tells, Steps-Tells}

same_list : {sent xs ys : List ℤ} {i : ℕ} → xs ≡ ys → InOrder sent xs i → InOrder sent ys i
same_list e v = rw e at v

module _ (cb : CircularBuffer ℤ) (mx : Mutex) (cv : Conditions) (n : ℕ) where
  record Inv (cap : ℕ) (sent : List ℤ) (s : System cb mx cv n) : Type 0 where
    holds : Holds cb cap sent s.crowd.buffer
    calm : s.point ≢ popping → s.crowd.point 0 ≡ outside
    last : ℕ
    order : InOrder sent (s.decoder.yep_vec ++ (in_hand s.point ++ in_call (s.crowd.point 0))) last
    oldest : last ≤ length sent - cap

  -- A step of the thread after pop_back: the items that it has read stay.
  Inv-after :
      {cap : ℕ} {sent : List ℤ} {s : System cb mx cv n} (u : System cb mx cv n)
      → u.crowd ≡ s.crowd
      → s.point ≢ popping
      → (u.decoder.yep_vec ++ in_hand u.point ≡ s.decoder.yep_vec ++ in_hand s.point)
      → Inv cap sent s
      → Inv cap sent u
  Inv-after {s = s} u same out items v =
      let gone : in_call (s.crowd.point 0) ≡ [] = ap in_call (v.calm out) in
      record {
        holds = rw same v.holds;
        calm = λ p. rw same (v.calm out);
        last = v.last;
        order =
            same_list
              (rw (same, gone, append-nil (in_hand u.point), append-nil (in_hand s.point))
                (sym items))
              v.order;
        oldest = v.oldest;
      }

  -- A step inside of pop_back.
  Inv-pop :
      {cap : ℕ} {sent : List ℤ} (s : System cb mx cv n) (c : Crowds cb mx cv n)
      → s.point ≡ popping
      → Pops cb mx cv n s.crowd c
      → Inv cap sent s
      → Inv cap sent (record s { crowd = c })
  Inv-pop {cap} {sent} s c at p v =
      let calm : s.point ≢ popping → c.point 0 ≡ outside = λ out. absurd (out at) in
      let holds : Holds cb cap sent c.buffer = rw p.buffer v.holds in
      elim p.item [
        | inl same ↦ record {
          holds = holds;
          calm = calm;
          last = v.last;
          order =
              same_list (ap (λ z. s.decoder.yep_vec ++ (in_hand s.point ++ z)) (sym same)) v.order;
          oldest = v.oldest;
        }
        | inr (x, nothing, item, back) ↦ record {
          holds = holds;
          calm = calm;
          last = length sent - cap;
          order =
              let before : InOrder sent s.decoder.yep_vec v.last =
                same_list (rw (nothing, at) (append-nil s.decoder.yep_vec)) v.order in
              same_list (rw (item, at)) (
                and_then (length sent - cap) x before v.oldest
                  (back-sent cb mx cv n cap sent x s.crowd.buffer v.holds back));
          oldest = omega arith;
        }
      ]

  Inv-return :
      {cap : ℕ} {sent : List ℤ} (s : System cb mx cv n) (c : Crowds cb mx cv n) (x : ℤ)
      → s.point ≡ popping
      → (c.buffer ≡ s.crowd.buffer) × (in_call (s.crowd.point 0) ≡ x ∷ []) × (c.point 0 ≡ outside)
      → Inv cap sent s
      → Inv cap sent (record s { crowd = c; point = popped x })
  Inv-return s c x at (same, item, out) v = record {
    holds = rw same v.holds;
    calm = λ p. out;
    last = v.last;
    order = same_list (rw (item, at, out)) v.order;
    oldest = v.oldest;
  }

  Steps-Inv :
      (cap : ℕ) (events : ℤ) {s : System cb mx cv n}
      (r : Steps cb mx cv n (init cb mx cv n cap events) s)
      → Inv cap (sent_of cb mx cv n r) s
  unfolding with_capacity start_gathering initialize make
  Steps-Inv cap events start = record {
    holds = record {
      room = cb.capacity-with_capacity cap;
      newest = cb.contents-with_capacity cap ∙ sym (take-all cap [] (omega arith));
    };
    calm = λ p. refl;
    last = 0;
    order = none_yet;
    oldest = omega arith;
  }
  Steps-Inv cap events (later {t = s} r (other st h)) =
      let v = Steps-Inv cap events r in
      let sent = sent_of cb mx cv n r in
      let there = point-other cb mx cv n st h in
      record {
        holds =
            Step-Holds cb mx cv n st
              (Steps-Copies ℤ cb mx cv n cap (crowd_of cb mx cv n cap events r)) v.holds;
        calm = λ p. there ∙ v.calm p;
        last = v.last;
        order = Step-InOrder cb mx cv n st (
            same_list (ap (λ z. s.decoder.yep_vec ++ (in_hand s.point ++ in_call z)) (sym there))
              v.order);
        oldest = omega (arith, v.oldest, Step-length cb mx cv n sent st);
      }
  Steps-Inv cap events (later r (pop st h i at)) =
      Inv-pop _ _ at (pops cb mx cv n st h i) (Steps-Inv cap events r)
  Steps-Inv cap events (later r (return x st h i at)) =
      Inv-return _ _ x at (returns cb mx cv n x st h i) (Steps-Inv cap events r)
  Steps-Inv cap events (later {t = s} r (keep x at)) =
      Inv-after _ refl (λ e. cc (at, e))
        (append-nil _ ∙ ap (λ p. s.decoder.yep_vec ++ in_hand p) (sym at)) (Steps-Inv cap events r)
  Steps-Inv cap events (later {t = s} r (note x at)) =
      Inv-after _ refl (λ e. cc (at, e)) (rw ((note_thread-keeps 0 s.decoder).0, at))
        (Steps-Inv cap events r)
  Steps-Inv cap events (later {t = s} r (see_size x at)) =
      Inv-after _ refl (λ e. cc (at, e)) (rw at) (Steps-Inv cap events r)
  Steps-Inv cap events (later {t = s} r (print x size at)) =
      Inv-after _ refl (λ e. cc (at, e)) (rw at) (Steps-Inv cap events r)
  Steps-Inv cap events (later {t = s} r (count m at e)) =
      Inv-after _ refl (λ e. cc (at, e)) (rw at) (Steps-Inv cap events r)

  -- What read_data does while any number of other threads push into the buffer: in every interleaving,
  -- what it has put into `yep_vec`, with the item that it has read last, are items that were sent, in
  -- the order in which they were sent, some of them several times and some not at all, and none newer
  -- than the oldest of the newest `cap`. It has printed one line for each item of `yep_vec` but one
  -- that is about to be printed; the lines show the items, numbered from 0, with the capacity; and
  -- `n_received` is the number of lines, but for one that is about to be counted.
  pub gathered-Steps :
      (cap : ℕ) (events : ℤ) {s : System cb mx cv n}
      (r : Steps cb mx cv n (init cb mx cv n cap events) s)
      → ((i : ℕ) × (i ≤ length (sent_of cb mx cv n r) - cap)
          × InOrder
              (sent_of cb mx cv n r)
              (s.decoder.yep_vec ++ (in_hand s.point ++ in_call (s.crowd.point 0)))
              i)
        × Tells cb mx cv n cap events s
  gathered-Steps cap events r =
      let v = Steps-Inv cap events r in
      ((v.last, v.oldest, v.order), Steps-Tells cb mx cv n cap events r)
