-- ===== src/Prelude/Windows.antt =====
-- The newest elements of a list: what a bounded buffer keeps of all that was pushed.
use Prim.Native.Nat.{ℕ, zero, suc, ◌-◌, ◌≤◌, ◌<◌}
use mathlib.Core.Path.{◌≡◌, refl, sym, ap, ◌∙◌}
use mathlib.Core.List.{List, [], ◌∷◌, ◌++◌, reverse, reverse-cons, reverse-reverse}
use mathlib.Core.Option.{some}
use native.Mathlib.Omega.{arith}
use test_buffer.Prelude.Lists.{length, take, get_elem?, get_last?, length-reverse}

module _ {ℓ} {A : Type ℓ} where
  pub take-append-take :
      (n m : ℕ) (xs ys : List A) → n ≤ m → take n (xs ++ take m ys) ≡ take n (xs ++ ys)
  take-append-take zero m xs ys h = refl
  take-append-take (suc n) zero xs ys h = absurd (omega arith)
  take-append-take (suc n) (suc m) [] [] h = refl
  take-append-take (suc n) (suc m) [] (y ∷ ys) h =
      ap (λ t. y ∷ t) (take-append-take n m [] ys (omega arith))
  take-append-take (suc n) (suc m) (x ∷ xs) ys h =
      ap (λ t. x ∷ t) (take-append-take n (suc m) xs ys (omega arith))

  pub get_elem?-append_left :
      (xs ys : List A) (i : ℕ) → i < length xs → get_elem? (xs ++ ys) i ≡ get_elem? xs i
  get_elem?-append_left [] ys i h = elim h [ ]
  get_elem?-append_left (x ∷ xs) ys zero h = refl
  get_elem?-append_left (x ∷ xs) ys (suc i) h = get_elem?-append_left xs ys i (omega arith)

  pub get_elem?-append_one :
      (xs : List A) (y : A) (i : ℕ) → i ≡ length xs → get_elem? (xs ++ y ∷ []) i ≡ some y
  get_elem?-append_one [] y i e = rw e
  get_elem?-append_one (x ∷ xs) y zero e = absurd (omega arith)
  get_elem?-append_one (x ∷ xs) y (suc i) e = get_elem?-append_one xs y i (omega arith)

  -- The oldest of the `k` newest elements, the newest first in `ys`.
  last_of_window :
      (ys : List A) (k : ℕ)
      → 0 < k
      → 0 < length ys
      → get_last? (take k ys) ≡ get_elem? (reverse ys) (length ys - k)
  last_of_window ys zero h p = absurd (omega arith)
  last_of_window [] (suc k) h p = absurd (omega arith)
  last_of_window (y ∷ ys) (suc zero) h p =
      rw reverse-cons
        (sym (get_elem?-append_one (reverse ys) y _ (omega (arith, length-reverse ys))))
  last_of_window (y ∷ []) (suc (suc k)) h p = let e : 1 - suc (suc k) ≡ 0 = omega arith in rw e
  last_of_window (y ∷ z ∷ ys) (suc (suc k)) h p = rw (reverse-cons y (z ∷ ys)) (
      last_of_window (z ∷ ys) (suc k) (omega arith) (omega arith)
      ∙ sym (
          get_elem?-append_left (reverse (z ∷ ys)) (y ∷ []) _
            (omega (arith, length-reverse (z ∷ ys))))
      ∙ ap (get_elem? (reverse (z ∷ ys) ++ y ∷ [])) (omega arith))

  pub get_last?-take-reverse :
      (xs : List A) (k : ℕ)
      → 0 < k
      → 0 < length xs
      → get_last? (take k (reverse xs)) ≡ get_elem? xs (length xs - k)
  get_last?-take-reverse xs k h p =
      last_of_window (reverse xs) k h (omega (arith, length-reverse xs))
      ∙ rw (reverse-reverse, length-reverse)
