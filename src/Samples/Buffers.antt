-- ===== src/Samples/Buffers.antt =====
-- A circular buffer and two queues over lists.
use test_buffer.Prelude.{
  Bool, List, Option, [], arith, drop, drop_last, false, get_elem?, get_last?, if◌then◌else◌,
  length, length-append, length-take, le→ltb, ltb, lt→ltb, none, refl, some, suc, sym, take,
  take-all, take-append-take, true, zero, ℕ, ◌++◌, ◌+◌, ◌-◌, ◌<◌, ◌↔◌, ◌∷◌, ◌≡◌, ◌≢◌, ◌≤◌,
}
use test_buffer.Boost.CircularBuffer.{CircularBuffer}
use test_buffer.Boost.Queues.{SpscQueue, BlockingQueue}

pub record Store {ℓ} (A : Type ℓ) : Type ℓ where
  pub cap : ℕ
  pub items : List A

module _ {ℓ} {A : Type ℓ} where
  abbrev pub held : Store A → List A
  held b = take b.cap b.items

  pub length-held : (b : Store A) → length (held b) ≤ b.cap
  length-held b = omega (arith, length-take b.cap b.items)

  abbrev pub is_nil : List A → Bool
  is_nil [] = true
  is_nil (x ∷ xs) = false

  pub is_nil_iff : (xs : List A) → (is_nil xs ≡ true) ↔ (xs ≡ [])
  is_nil_iff [] = (λ e. refl, λ e. refl)
  is_nil_iff (x ∷ xs) = (λ e. cc, λ e. cc)

  length-drop-le : (n : ℕ) (xs : List A) → length (drop n xs) ≡ length xs - n
  length-drop-le zero xs = omega arith
  length-drop-le (suc n) [] = omega arith
  length-drop-le (suc n) (x ∷ xs) = omega (arith, length-drop-le n xs)

  length-drop_last-le : (xs : List A) → length (drop_last xs) ≤ length xs
  length-drop_last-le [] = omega arith
  length-drop_last-le (x ∷ []) = omega arith
  length-drop_last-le (x ∷ y ∷ xs) = omega (arith, length-drop_last-le (y ∷ xs))

  pub store-push_front : (x : A) (b : Store A) → take b.cap (x ∷ b.items) ≡ take b.cap (x ∷ held b)
  store-push_front x b = sym (take-append-take b.cap b.cap (x ∷ []) b.items (omega arith))

  pub store-push_back :
      (x : A) (b : Store A)
      → take b.cap (drop (length (held b) + 1 - b.cap) (held b ++ x ∷ []))
        ≡ drop (length (held b) + 1 - b.cap) (held b ++ x ∷ [])
  store-push_back x b = take-all b.cap _ (
      omega (
        arith,
        length-drop-le (length (held b) + 1 - b.cap) (held b ++ x ∷ []),
        length-append (held b) (x ∷ []),
        length-held b,
      ))

  pub store-pop_back : (b : Store A) → take b.cap (drop_last (held b)) ≡ drop_last (held b)
  store-pop_back b = take-all b.cap _ (omega (arith, length-drop_last-le (held b), length-held b))

-- The items behind the capacity do not count.
abbrev pub list_buffer {ℓ} : (A : Type ℓ) → CircularBuffer A
list_buffer A = record {
  Carrier = Store A;
  with_capacity = λ n. record { cap = n; items = [] };
  push_front = λ x b. record b { items = x ∷ b.items };
  push_back = λ x b. record b { items = drop (length (held b) + 1 - b.cap) (held b ++ x ∷ []) };
  pop_back = λ b. record b { items = drop_last (held b) };
  back = λ b. get_last? (held b);
  at = λ b i. get_elem? (held b) i;
  empty = λ b. is_nil (held b);
  size = λ b. length (held b);
  capacity = λ b. b.cap;
  contents = held;
  contents-with_capacity = λ n. take-all n [] (omega arith);
  capacity-with_capacity = λ n. refl;
  size-contents = λ b. refl;
  size-le-capacity = length-held;
  empty_iff = λ b. is_nil_iff (held b);
  back-contents = λ b. refl;
  at-contents = λ b i. refl;
  contents-push_front = store-push_front;
  capacity-push_front = λ x b. refl;
  contents-push_back = store-push_back;
  capacity-push_back = λ x b. refl;
  contents-pop_back = λ b ne. store-pop_back b;
  capacity-pop_back = λ b ne. refl;
}

module _ {ℓ} {A : Type ℓ} where
  abbrev pub spsc_push : A → Store A → Bool × Store A
  spsc_push x q =
      if ltb (length q.items) q.cap
      then (true, record q { items = q.items ++ x ∷ [] })
      else (false, q)

  abbrev pub spsc_pop_from : ℕ → List A → Option (A × Store A)
  spsc_pop_from cap [] = none
  spsc_pop_from cap (x ∷ xs) = some (x, record { cap = cap; items = xs })

  pub spsc_pop-some :
      (xs : List A) (cap : ℕ) (x : A) (q : Store A)
      → spsc_pop_from cap xs ≡ some (x, q)
      → (xs ≡ x ∷ q.items) × (q.cap ≡ cap)
  spsc_pop-some [] cap x q e = cc
  spsc_pop-some (y ∷ ys) cap x q e = ground arith

  pub spsc_pop-none : (xs : List A) (cap : ℕ) → spsc_pop_from cap xs ≡ none → xs ≡ []
  spsc_pop-none [] cap e = refl
  spsc_pop-none (y ∷ ys) cap e = cc

  pub spsc_push-room :
      (x : A) (q : Store A)
      → length q.items < q.cap
      → ((spsc_push x q).0 ≡ true)
        × ((spsc_push x q).1.items ≡ q.items ++ x ∷ [])
        × ((spsc_push x q).1.cap ≡ q.cap)
  spsc_push-room x q h = rw (lt→ltb _ _ h) (refl, refl, refl)

  pub spsc_push-full : (x : A) (q : Store A) → q.cap ≤ length q.items → spsc_push x q ≡ (false, q)
  spsc_push-full x q h = rw (le→ltb _ _ h)

abbrev pub list_spsc {ℓ} : (A : Type ℓ) → SpscQueue A
list_spsc A = record {
  State = Store A;
  with_capacity = λ n. record { cap = n; items = [] };
  push = spsc_push;
  pop = λ q. spsc_pop_from q.cap q.items;
  contents = λ q. q.items;
  capacity = λ q. q.cap;
  contents-with_capacity = λ n. refl;
  capacity-with_capacity = λ n. refl;
  push-room = spsc_push-room;
  push-full = spsc_push-full;
  pop-none = λ q. spsc_pop-none q.items q.cap;
  pop-some = λ x q q'. spsc_pop-some q.items q.cap x q';
}

pub true≢false : true ≢ false
true≢false = λ e. cc

-- Memory never runs out.
abbrev pub list_blocking {ℓ} : (A : Type ℓ) → BlockingQueue A
list_blocking A = record {
  State = Store A;
  with_size = λ n. record { cap = n; items = [] };
  enqueue = λ x q. (true, record q { items = q.items ++ x ∷ [] });
  peek = λ q. get_elem? q.items 0;
  try_dequeue = λ q. spsc_pop_from q.cap q.items;
  contents = λ q. q.items;
  contents-with_size = λ n. refl;
  enqueue-true = λ x q e. refl;
  enqueue-false = λ x q e. absurd (true≢false e);
  try_dequeue-none = λ q. spsc_pop-none q.items q.cap;
  try_dequeue-some = λ x q q' e. (spsc_pop-some q.items q.cap x q' e).0;
}
