-- ===== src/BufSync/Program/Tokens.antt =====
-- src/buf-sync.cxx: handlers of a kind of which there is one: it is with `main`, which has not posted
-- it, or pending, or with the worker that runs it.
use test_buffer.Prelude.{
  Bool, Bool-cases, List, [], ap, arith, false, inl, inr, refl, sym, true, update, update-cases, ℕ,
  ◌++◌, ◌+◌, ◌∙◌, ◌∷◌, ◌≡◌, ◌≤◌,
}
use test_buffer.BufSync.Program.{Handler, Point}

abbrev pub one_if : Bool → ℕ
one_if true = 1
one_if false = 0

module _ (is_kind : Handler → Bool) (runs : Point → Bool) where
  abbrev pub count_of : List Handler → ℕ
  count_of [] = 0
  count_of (h ∷ hs) = one_if (is_kind h) + count_of hs

  -- `kept`: `main` has not posted the handler.
  pub record Token (kept : Bool) (f : ℕ → Point) (hs : List Handler) : Type 0 where
    pub single : (w v : ℕ) → runs (f w) ≡ true → runs (f v) ≡ true → w ≡ v
    pub held : (w : ℕ) → runs (f w) ≡ true → count_of hs ≡ 0
    pub few : count_of hs ≤ 1
    pub unposted : kept ≡ true → (count_of hs ≡ 0) × ((w : ℕ) → runs (f w) ≡ false)

  count_of-append : (hs ks : List Handler) → count_of (hs ++ ks) ≡ count_of hs + count_of ks
  count_of-append [] ks = omega arith
  count_of-append (h ∷ hs) ks = omega (arith, count_of-append hs ks)

  count_of-insert :
      (hs ks : List Handler) (h : Handler)
      → count_of (hs ++ h ∷ ks) ≡ one_if (is_kind h) + count_of (hs ++ ks)
  count_of-insert hs ks h = omega (arith, count_of-append hs (h ∷ ks), count_of-append hs ks)

  -- A worker goes on in the same handler, or in others of another kind.
  pub Token-move :
      (w : ℕ) (p : Point) (kept : Bool) (f : ℕ → Point) (hs : List Handler)
      → runs p ≡ runs (f w)
      → Token kept f hs
      → Token kept (update w p f) hs
  Token-move w p kept f hs same v =
      let before : (u : ℕ) → runs (update w p f u) ≡ runs (f u) =
        update-cases (λ u q. runs q ≡ runs (f u)) w p f same (λ u n. refl) in
      record {
        single = λ a b ha hb. v.single a b (sym (before a) ∙ ha) (sym (before b) ∙ hb);
        held = λ a ha. v.held a (sym (before a) ∙ ha);
        few = v.few;
        unposted = λ e. ((v.unposted e).0, λ u. before u ∙ (v.unposted e).1 u);
      }

  -- Nobody runs the handler but `w`, who has just taken it.
  Token-taken :
      (w : ℕ) (p : Point) (kept : Bool) (f : ℕ → Point) (hs : List Handler)
      → ((u : ℕ) → runs (f u) ≡ false)
      → count_of hs ≡ 0
      → kept ≡ false
      → Token kept (update w p f) hs
  Token-taken w p kept f hs nobody empty posted =
      let only : (u : ℕ) → runs (update w p f u) ≡ true → u ≡ w =
        update-cases (λ u q. runs q ≡ true → u ≡ w) w p f (λ h. refl) (λ u n h. cc (h, nobody u)) in
      record {
        single = λ a b ha hb. only a ha ∙ sym (only b hb);
        held = λ a ha. empty;
        few = omega (arith, empty);
        unposted = λ e. cc;
      }

  -- While the handler is pending, nobody runs it and `main` has posted it.
  pub Token-pending :
      (h : Handler) (kept : Bool) (f : ℕ → Point) (xs ys : List Handler)
      → is_kind h ≡ true
      → Token kept f (xs ++ h ∷ ys)
      → ((u : ℕ) → runs (f u) ≡ false) × (count_of (xs ++ ys) ≡ 0) × (kept ≡ false)
  Token-pending h kept f xs ys kind v =
      let more : count_of (xs ++ h ∷ ys) ≡ 1 + count_of (xs ++ ys) =
        count_of-insert xs ys h ∙ ap (λ b. one_if b + count_of (xs ++ ys)) kind in
      (
        λ u. elim (Bool-cases (runs (f u))) [
          | inl busy ↦ absurd (omega (arith, v.held u busy, more))
          | inr free ↦ free
        ],
        omega (arith, v.few, more),
        elim (Bool-cases kept) [
          | inl e ↦ absurd (omega (arith, (v.unposted e).0, more))
          | inr e ↦ e
        ],
      )

  -- A worker takes up a handler.
  pub Token-take :
      (w : ℕ) (h : Handler) (p : Point) (kept : Bool) (f : ℕ → Point) (xs ys : List Handler)
      → runs (f w) ≡ false
      → runs p ≡ is_kind h
      → Token kept f (xs ++ h ∷ ys)
      → Token kept (update w p f) (xs ++ ys)
  Token-take w h p kept f xs ys off same v = elim (Bool-cases (is_kind h)) [
    | inr other ↦
        let equal : count_of (xs ++ h ∷ ys) ≡ count_of (xs ++ ys) =
          count_of-insert xs ys h ∙ ap (λ b. one_if b + count_of (xs ++ ys)) other ∙ omega arith in
        Token-move w p kept f (xs ++ ys) (same ∙ (other ∙ sym off)) (record {
          single = v.single;
          held = λ a ha. sym equal ∙ v.held a ha;
          few = omega (arith, v.few, equal);
          unposted = λ e. (sym equal ∙ (v.unposted e).0, (v.unposted e).1);
        })
    | inl kind ↦
        let (nobody, rest, posted) = Token-pending h kept f xs ys kind v in
        Token-taken w p kept f (xs ++ ys) nobody rest posted
  ]

  -- The worker that runs the handler posts another of its kind and is done.
  pub Token-give :
      (w : ℕ) (h : Handler) (p : Point) (kept : Bool) (f : ℕ → Point) (hs : List Handler)
      → runs (f w) ≡ true
      → runs p ≡ false
      → Token kept f hs
      → Token kept (update w p f) (hs ++ h ∷ [])
  Token-give w h p kept f hs on off v =
      let nobody : (u : ℕ) → runs (update w p f u) ≡ false =
        update-cases (λ u q. runs q ≡ false) w p f off
          (λ u n. elim (Bool-cases (runs (f u))) [
            | inl busy ↦ absurd (n (v.single u w busy on))
            | inr free ↦ free
          ]) in
      record {
        single = λ a b ha hb. cc (nobody a, ha);
        held = λ a ha. cc (nobody a, ha);
        few = ground (arith, count_of-append hs (h ∷ []), v.held w on);
        unposted = λ e. cc ((v.unposted e).1 w, on);
      }

  -- A handler of another kind is given to the service.
  pub Token-other :
      (h : Handler) (kept : Bool) (f : ℕ → Point) (hs : List Handler)
      → is_kind h ≡ false
      → Token kept f hs
      → Token kept f (hs ++ h ∷ [])
  Token-other h kept f hs other v =
      let equal : count_of (hs ++ h ∷ []) ≡ count_of hs =
        omega (arith, count_of-append hs (h ∷ []), ap one_if other) in
      record {
        single = v.single;
        held = λ a ha. equal ∙ v.held a ha;
        few = omega (arith, v.few, equal);
        unposted = λ e. (equal ∙ (v.unposted e).0, (v.unposted e).1);
      }

  -- `main` posts the handler.
  pub Token-post :
      (h : Handler) (f : ℕ → Point) (hs : List Handler)
      → Token true f hs
      → Token false f (hs ++ h ∷ [])
  Token-post h f hs v =
      let (empty, nobody) = v.unposted refl in
      record {
        single = v.single;
        held = λ a ha. cc (nobody a, ha);
        few = ground (arith, count_of-append hs (h ∷ []), empty);
        unposted = λ e. cc;
      }
