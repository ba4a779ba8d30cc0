-- ===== src/Boost/CircularBuffer.antt =====
-- boost::circular_buffer, which include/bounded_buffer.hh, include/queue.hh and src/buf-main.cxx
-- call: a parameter with its documented behaviour. The view `contents` lists the elements from
-- `front()` to `back()`. `none` marks a read outside the precondition of the call.
use test_buffer.Prelude.{
  Bool, Bool-cases, List, Option, [], ap, arith, drop, drop_last, drop_last-append_one, false,
  get_elem?, get_last?, inl, inr, last-cases, length, length-append, length-take, take, true, ℕ,
  ◌++◌, ◌+◌, ◌-◌, ◌<◌, ◌↔◌, ◌∙◌, ◌∷◌, ◌≡◌, ◌≢◌, ◌≤◌,
}

pub record CircularBuffer {ℓ} (A : Type ℓ) : Type (ℓ + 1) where
  pub Carrier : Type ℓ
  pub with_capacity : ℕ → Carrier
  pub push_front : A → Carrier → Carrier
  pub push_back : A → Carrier → Carrier
  pub pop_back : Carrier → Carrier
  pub back : Carrier → Option A
  pub at : Carrier → ℕ → Option A
  pub empty : Carrier → Bool
  pub size : Carrier → ℕ
  pub capacity : Carrier → ℕ
  pub contents : Carrier → List A
  pub contents-with_capacity : (n : ℕ) → contents (with_capacity n) ≡ []
  pub capacity-with_capacity : (n : ℕ) → capacity (with_capacity n) ≡ n
  pub size-contents : (b : Carrier) → size b ≡ length (contents b)
  pub size-le-capacity : (b : Carrier) → size b ≤ capacity b
  pub empty_iff : (b : Carrier) → (empty b ≡ true) ↔ (contents b ≡ [])
  pub back-contents : (b : Carrier) → back b ≡ get_last? (contents b)
  pub at-contents : (b : Carrier) (i : ℕ) → at b i ≡ get_elem? (contents b) i
  -- A push at one end of a full buffer overwrites the element at the other end.
  pub contents-push_front :
      (x : A) (b : Carrier) → contents (push_front x b) ≡ take (capacity b) (x ∷ contents b)
  pub capacity-push_front : (x : A) (b : Carrier) → capacity (push_front x b) ≡ capacity b
  pub contents-push_back :
      (x : A) (b : Carrier)
      → contents (push_back x b)
        ≡ drop (length (contents b) + 1 - capacity b) (contents b ++ x ∷ [])
  pub capacity-push_back : (x : A) (b : Carrier) → capacity (push_back x b) ≡ capacity b
  pub contents-pop_back :
      (b : Carrier) → contents b ≢ [] → contents (pop_back b) ≡ drop_last (contents b)
  pub capacity-pop_back : (b : Carrier) → contents b ≢ [] → capacity (pop_back b) ≡ capacity b

module _ {ℓ} {A : Type ℓ} (cb : CircularBuffer A) where
  pub length-contents-le : (b : cb.Carrier) → length (cb.contents b) ≤ cb.capacity b
  length-contents-le b = omega (arith, cb.size-contents b, cb.size-le-capacity b)

  pub empty-true : (b : cb.Carrier) → cb.contents b ≡ [] → cb.empty b ≡ true
  empty-true b h = (cb.empty_iff b).1 h

  pub empty-false : (b : cb.Carrier) → cb.contents b ≢ [] → cb.empty b ≡ false
  empty-false b h = elim (Bool-cases (cb.empty b)) [
    | inl e ↦ absurd (h ((cb.empty_iff b).0 e))
    | inr e ↦ e
  ]

  pub length-empty : (b : cb.Carrier) → cb.empty b ≡ true → length (cb.contents b) ≡ 0
  length-empty b e = ap length ((cb.empty_iff b).0 e)

  -- The element at the back.
  pub found_last :
      (b : cb.Carrier)
      → cb.empty b ≡ false
      → (ys : List A) × (y : A) × (cb.contents b ≡ ys ++ y ∷ [])
  found_last b e = elim (last-cases (cb.contents b)) [
    | inl nothing ↦ cc (e, empty-true b nothing)
    | inr some_last ↦ some_last
  ]

  pub length-full : (b : cb.Carrier) → cb.empty b ≡ false → 0 < length (cb.contents b)
  length-full b e =
      let (ys, y, h) = found_last b e in omega (arith, ap length h, length-append ys (y ∷ []))

  pub length-push_front :
      (x : A) (b : cb.Carrier)
      → length (cb.contents (cb.push_front x b)) ≤ length (cb.contents b) + 1
  length-push_front x b = omega (
    arith,
    ap length (cb.contents-push_front x b),
    length-take (cb.capacity b) (x ∷ cb.contents b),
  )

  pub length-pop_back :
      (b : cb.Carrier)
      → 0 < length (cb.contents b)
      → length (cb.contents (cb.pop_back b)) + 1 ≡ length (cb.contents b)
  length-pop_back b l = elim (last-cases (cb.contents b)) [
    | inl nothing ↦ absurd (omega (arith, l, ap length nothing))
    | inr (ys, y, e) ↦
        let ne : cb.contents b ≢ [] = λ h. absurd (omega (arith, l, ap length h)) in
        let cut : cb.contents (cb.pop_back b) ≡ ys =
          cb.contents-pop_back b ne ∙ ap drop_last e ∙ drop_last-append_one ys y in
        omega (arith, ap length cut, ap length e, length-append ys (y ∷ []))
  ]
