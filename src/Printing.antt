-- ===== src/Printing.antt =====
-- The loop that `print` of include/bounded_buffer.hh and of include/queue.hh share: the elements
-- from index 0 on, each with a gap behind it, inserted into a stream.
use test_buffer.Prelude.{
  List, Outcome, [], ap, arith, defined, drop, drop-get_elem?, length, refl, rounds_of, suc, take,
  take-all, to_int, to_int_small, value, zero, ℕ, ◌+◌, ◌<◌, ◌>>=◌, ◌^◌, ◌∙◌, ◌∷◌, ◌≡◌, ◌≤◌,
}
use test_buffer.Boost.CircularBuffer.{CircularBuffer}

-- How many of `n` elements are printed: the size is converted to `int` first.
abbrev pub printed_of : ℕ → ℕ
printed_of n = rounds_of (to_int n)

printed_of-le : (n : ℕ) → printed_of n ≤ n
unfolding to_int
printed_of-le n = ground arith

module _ {ℓ} {A : Type ℓ} {Text : Type 0} (show : A → Text) (gap : Text) where
  -- Each element's text, with the gap behind it.
  abbrev pub spaced : List A → List Text
  spaced [] = []
  spaced (x ∷ xs) = show x ∷ gap ∷ spaced xs

module _ {ℓ} {A : Type ℓ} (cb : CircularBuffer A) {Text : Type 0} (show : A → Text)
    (gap : Text) where
  -- From index `i`, with `n` rounds left; the list is what is inserted, in order.
  unfoldable pub print_from : cb.Carrier → ℕ → ℕ → Outcome (List Text)
  print_from c i zero = value []
  print_from c i (suc n) = do
    x ← defined (cb.at c i)
    rest ← print_from c (i + 1) n
    value (show x ∷ gap ∷ rest)

  -- `i < (int)m_container.size()`
  unfoldable pub print_all : cb.Carrier → Outcome (List Text)
  print_all c = print_from c 0 (rounds_of (to_int (cb.size c)))

  print_from-take :
      (c : cb.Carrier) (n i : ℕ)
      → i + n ≤ length (cb.contents c)
      → print_from c i n ≡ value (spaced show gap (take n (drop i (cb.contents c))))
  unfolding print_from
  print_from-take c zero i h = refl
  print_from-take c (suc n) i h =
      let (x, hit, cut) = drop-get_elem? i (cb.contents c) (omega arith) in
      rw (cb.at-contents, hit, print_from-take c n (i + 1) (omega arith), cut)

  -- The elements printed are the first ones, as many as the size converted to `int` says.
  pub print_all-take :
      (c : cb.Carrier)
      → print_all c ≡ value (spaced show gap (take (printed_of (cb.size c)) (cb.contents c)))
  unfolding print_all
  print_all-take c =
      print_from-take c (printed_of (cb.size c)) 0
        (omega (arith, printed_of-le (cb.size c), cb.size-contents c))

  -- A container of fewer than 2 ^ 31 elements is printed whole, from its front, with a gap
  -- behind each element.
  pub print_all_lem :
      (c : cb.Carrier) → cb.size c < 2 ^ 31 → print_all c ≡ value (spaced show gap (cb.contents c))
  print_all_lem c h =
      print_all-take c
      ∙ ap (λ xs. value (spaced show gap xs))
          (rw (to_int_small (cb.size c) h)
            (take-all (cb.size c) (cb.contents c) (omega (arith, cb.size-contents c))))
