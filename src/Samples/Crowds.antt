-- ===== src/Samples/Crowds.antt =====
-- A condition for any number of threads: the list of those that wait.
use test_buffer.Prelude.{
  Bool, Bool-cases, List, [], ap, arith, false, if◌then◌else◌, inl, inr, refl, same_or_not, sym,
  true, ℕ, ◌==◌, ◌∙◌, ◌∷◌, ◌≡◌, ◌≢◌,
}
use test_buffer.Boost.Threads.{Conditions}

abbrev pub member : ℕ → List ℕ → Bool
member t [] = false
member t (u ∷ us) = if t == u then true else member t us

abbrev pub remove : ℕ → List ℕ → List ℕ
remove t [] = []
remove t (u ∷ us) = let rest = remove t us in if t == u then rest else u ∷ rest

pub member-remove : (t : ℕ) (us : List ℕ) → member t (remove t us) ≡ false
member-remove t [] = refl
member-remove t (u ∷ us) = elim (Bool-cases (t == u)) [
  | inl e ↦ rw e (member-remove t us)
  | inr e ↦ rw (e, e) (member-remove t us)
]

pub member-remove_other : (t u : ℕ) (us : List ℕ) → u ≢ t → member u (remove t us) ≡ member u us
member-remove_other t u [] n = refl
member-remove_other t u (w ∷ us) n = elim (Bool-cases (t == w)) [
  | inl e ↦
      let other : (u == w) ≡ false = ground (arith, e) in
      rw (e, other) (member-remove_other t u us n)
  | inr e ↦ rw e (ap (λ b. if u == w then true else b) (member-remove_other t u us n))
]

abbrev pub wake_first : List ℕ → List ℕ
wake_first [] = []
wake_first (u ∷ us) = remove u us

pub member-wake_first : (t : ℕ) (us : List ℕ) → member t (wake_first us) ≡ true → member t us ≡ true
member-wake_first t [] h = h
member-wake_first t (u ∷ us) h = elim (same_or_not u t) [
  | inl e ↦ cc (h, ap (λ z. member z (remove u us)) e, member-remove u us)
  | inr n ↦
      let other : (t == u) ≡ false = ground arith in
      rw other (sym (member-remove_other u t us n) ∙ h)
]

pub wake_first-wakes :
    (t : ℕ) (us : List ℕ)
    → member t us ≡ true
    → (u : ℕ) × (member u us ≡ true) × (member u (wake_first us) ≡ false)
wake_first-wakes t [] h = cc
wake_first-wakes t (u ∷ us) h = (u, ground arith, member-remove u us)

pub member-cons : (t u : ℕ) (us : List ℕ) → u ≢ t → member u (t ∷ us) ≡ member u us
member-cons t u us n = ground arith

pub member-here : (t : ℕ) (us : List ℕ) → member t (t ∷ us) ≡ true
member-here t us = ground arith

abbrev pub list_conditions : Conditions
list_conditions = record {
  State = List ℕ;
  fresh = [];
  is_waiting = λ c t. member t c;
  wait = λ t c. t ∷ c;
  notify_one = wake_first;
  wake = remove;
  is_waiting-fresh = λ t. refl;
  is_waiting-wait = member-here;
  is_waiting-wait_other = member-cons;
  is_waiting-wake = member-remove;
  is_waiting-wake_other = member-remove_other;
  notify_one-keeps = member-wake_first;
  notify_one-wakes = wake_first-wakes;
}
