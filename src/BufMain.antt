-- ===== src/BufMain.antt =====
-- src/buf-main.cxx: a demonstration of the circular buffer, with what it prints.
use test_buffer.Prelude.{
  List, Outcome, [], ap, arith, defined, drop, drop-all, drop-get_elem?, drop_last, length,
  rounds_of, suc, to_int, to_int_small, value, zero, ℕ, ◌++◌, ◌+◌, ◌-◌, ◌<◌, ◌>>=◌, ◌^◌, ◌∙◌, ◌∷◌,
  ◌≡◌, ◌≢◌,
}
use test_buffer.Boost.CircularBuffer.{CircularBuffer}

-- The headings of the listings.
pub data Heading : Type 0 where
  first second pop_back push_front : Heading

module _ (cb : CircularBuffer ℕ) where
  -- `for(int i = from; i < from + n; i++) cb.push_back(i);`
  pub push_back_range : ℕ → ℕ → cb.Carrier → cb.Carrier
  push_back_range zero from c = c
  push_back_range (suc n) from c = push_back_range n (from + 1) (cb.push_back from c)

  -- A listing from index `i`, with `n` rounds left: heading, index and element of each line.
  list_from : Heading → ℕ → ℕ → cb.Carrier → Outcome (List (Heading × ℕ × ℕ))
  list_from h zero i c = value []
  list_from h (suc n) i c = do
    x ← defined (cb.at c i)
    rest ← list_from h n (i + 1) c
    value ((h, i, x) ∷ rest)

  pub listing : Heading → cb.Carrier → Outcome (List (Heading × ℕ × ℕ))
  unfolding list_from
  listing h c = list_from h (rounds_of (to_int (cb.size c))) 0 c

  pub main : Outcome (List (Heading × ℕ × ℕ))
  unfolding listing push_back_range
  main = do
    let c1 = push_back_range 3 0 (cb.with_capacity 3)
    out1 ← listing first c1
    let c2 = push_back_range 1 5 c1
    out2 ← listing second c2
    let c3 = cb.pop_back c2
    out3 ← listing pop_back c3
    let c4 = cb.push_front 9 c3
    out4 ← listing push_front c4
    value (out1 ++ (out2 ++ (out3 ++ out4)))

  -- A listing by the elements.
  abbrev lines_of : Heading → ℕ → List ℕ → List (Heading × ℕ × ℕ)
  lines_of h i [] = []
  lines_of h i (x ∷ xs) = (h, i, x) ∷ lines_of h (i + 1) xs

  list_from_lem :
      (h : Heading) (n i : ℕ) (c : cb.Carrier)
      → i + n ≡ length (cb.contents c)
      → list_from h n i c ≡ value (lines_of h i (drop i (cb.contents c)))
  unfolding list_from
  list_from_lem h zero i c e = rw (drop-all i (cb.contents c) (omega arith))
  list_from_lem h (suc n) i c e =
      let (x, hit, cut) = drop-get_elem? i (cb.contents c) (omega arith) in
      rw (cb.at-contents, hit, list_from_lem h n (i + 1) c (omega arith), cut)

  listing_lem :
      (h : Heading) (c : cb.Carrier) (xs : List ℕ)
      → cb.contents c ≡ xs
      → length xs < 2 ^ 31
      → listing h c ≡ value (lines_of h 0 xs)
  unfolding listing
  listing_lem h c xs e small =
      let n : cb.size c ≡ length xs = cb.size-contents c ∙ ap length e in
      rw (n, to_int_small (length xs) small)
        (list_from_lem h (length xs) 0 c (omega (arith, ap length e)) ∙ rw e)

  -- The elements after pushes of `n` numbers from `from` on, at the back.
  abbrev pub after_pushes : ℕ → ℕ → ℕ → List ℕ → List ℕ
  after_pushes cap zero from xs = xs
  after_pushes cap (suc n) from xs =
      after_pushes cap n (from + 1) (drop (length xs + 1 - cap) (xs ++ from ∷ []))

  contents-push_back_range :
      (cap n from : ℕ) (c : cb.Carrier) (xs : List ℕ)
      → cb.capacity c ≡ cap
      → cb.contents c ≡ xs
      → (cb.contents (push_back_range n from c) ≡ after_pushes cap n from xs)
        × (cb.capacity (push_back_range n from c) ≡ cap)
  unfolding push_back_range
  contents-push_back_range cap zero from c xs k e = (e, k)
  contents-push_back_range cap (suc n) from c xs k e =
      contents-push_back_range cap n (from + 1) (cb.push_back from c) _
        (cb.capacity-push_back from c ∙ k) (cb.contents-push_back from c ∙ rw (e, k))

  -- The whole output: the elements 0 1 2; then, 5 having overwritten the oldest, 1 2 5; then 1 2 after
  -- the pop at the back; then 9 1 2 after the push at the front; each with its index.
  pub main_lem :
      main
      ≡ value (
          lines_of first 0 (0 ∷ 1 ∷ 2 ∷ [])
          ++ (lines_of second 0 (1 ∷ 2 ∷ 5 ∷ [])
              ++ (lines_of pop_back 0 (1 ∷ 2 ∷ []) ++ lines_of push_front 0 (9 ∷ 1 ∷ 2 ∷ []))))
  unfolding main
  main_lem =
      let c0 = cb.with_capacity 3 in
      let (e1, k1) =
        contents-push_back_range 3 3 0 c0 [] (cb.capacity-with_capacity 3)
          (cb.contents-with_capacity 3) in
      let c1 = push_back_range 3 0 c0 in
      let (e2, k2) = contents-push_back_range 3 1 5 c1 _ k1 e1 in
      let c2 = push_back_range 1 5 c1 in
      let ne : cb.contents c2 ≢ [] = rw e2 (λ bad. cc) in
      let e3 = cb.contents-pop_back c2 ne ∙ ap drop_last e2 in
      let c3 = cb.pop_back c2 in
      let e4 : cb.contents (cb.push_front 9 c3) ≡ 9 ∷ 1 ∷ 2 ∷ [] =
        cb.contents-push_front 9 c3 ∙ rw (e3, cb.capacity-pop_back c2 ne, k2) in
      rw (
        listing_lem first c1 _ e1 (omega arith),
        listing_lem second c2 _ e2 (omega arith),
        listing_lem pop_back c3 _ e3 (omega arith),
        listing_lem push_front (cb.push_front 9 c3) (9 ∷ 1 ∷ 2 ∷ []) e4 (omega arith),
      )
