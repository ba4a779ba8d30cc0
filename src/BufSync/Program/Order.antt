-- ===== src/BufSync/Program/Order.antt =====
-- src/buf-sync.cxx: the one reader, and the order of what it prints, in all interleavings.
use test_buffer.Prelude.{
  Bool, Bool-cases, List, [], ap, append_assoc, false, inl, inr, refl, sym, true, update,
  update-cases, update-same, ℕ, ℤ, ◌++◌, ◌∙◌, ◌∷◌, ◌≡◌, ◌≢◌,
}
use test_buffer.SyncQueue.Threads.{found}
use test_buffer.SyncQueue.Threads.Order.{in_hand}
use test_buffer.BufSync.Program.{
  Handler, client_reader, handle_data, receive_data, client_writer, Caller, writer, receiver, Point,
  reading, printing, Main, to_start, after_enqueue,
}
use test_buffer.BufSync.Program.Tokens.{Token}

abbrev pub is_reader : Handler → Bool
is_reader client_reader = true
is_reader handle_data = false
is_reader receive_data = false
is_reader client_writer = false

-- The worker is in client_reader.
abbrev pub in_reader : Point → Bool
in_reader (reading c) = true
in_reader (printing x) = true
in_reader _ = false

-- What the reader has taken off the queue and not printed.
abbrev pub held : Point → List ℤ
held (reading c) = in_hand c
held (printing x) = x ∷ []
held _ = []

abbrev pub reader_unposted : Main → Bool
reader_unposted to_start = true
reader_unposted _ = false

pub after_enqueue-out : (c : Caller) → in_reader (after_enqueue c) ≡ false
after_enqueue-out (writer i) = refl
after_enqueue-out receiver = refl

abbrev pub OneReader : Bool → (ℕ → Point) → List Handler → Type 0
OneReader = Token is_reader in_reader

-- What was enqueued is what was printed, what the reader holds and the queue; and what `front()` gave is
-- still at the front.
pub record Ordered (f : ℕ → Point) (q printed enqueued : List ℤ) : Type 0 where
  pub mine : (w : ℕ) → in_reader (f w) ≡ true → enqueued ≡ printed ++ (held (f w) ++ q)
  pub nobody : ((w : ℕ) → in_reader (f w) ≡ false) → enqueued ≡ printed ++ q
  pub front : (w : ℕ) (x : ℤ) → f w ≡ reading (found x) → (xs : List ℤ) × (q ≡ x ∷ xs)

-- Another worker goes on.
pub Ordered-other :
    (w : ℕ) (p : Point) (f : ℕ → Point) (q printed enqueued : List ℤ)
    → in_reader (f w) ≡ false
    → in_reader p ≡ false
    → Ordered f q printed enqueued
    → Ordered (update w p f) q printed enqueued
Ordered-other w p f q printed enqueued off out v =
    let same : (u : ℕ) → in_reader (update w p f u) ≡ in_reader (f u) =
      update-cases (λ u z. in_reader z ≡ in_reader (f u)) w p f (out ∙ sym off) (λ u n. refl) in
    record {
      mine =
          update-cases (λ u z. in_reader z ≡ true → enqueued ≡ printed ++ (held z ++ q)) w p f
            (λ h. cc (h, out)) (λ u n. v.mine u);
      nobody = λ h. v.nobody (λ u. sym (same u) ∙ h u);
      front = λ u x.
          update-cases (λ u z. z ≡ reading (found x) → (xs : List ℤ) × (q ≡ x ∷ xs)) w p f
            (λ h. cc (ap in_reader h, out)) (λ u n. v.front u x) u;
    }

pub Ordered-push :
    (x : ℤ) (f : ℕ → Point) (q printed enqueued : List ℤ)
    → Ordered f q printed enqueued
    → Ordered f (q ++ x ∷ []) printed (enqueued ++ x ∷ [])
Ordered-push x f q printed enqueued v = record {
  mine = λ w h. rw (v.mine w h) (simp append_assoc);
  nobody = λ h. rw (v.nobody h) (simp append_assoc);
  front = λ w y h. let (xs, e) = v.front w y h in (xs ++ x ∷ [], rw e);
}

-- The reader goes on, or begins.
pub Ordered-reader :
    (w : ℕ) (p : Point) (f : ℕ → Point) (q printed enqueued : List ℤ)
    → in_reader p ≡ true
    → ((u : ℕ) → u ≢ w → in_reader (f u) ≡ false)
    → enqueued ≡ printed ++ (held p ++ q)
    → ((x : ℤ) → p ≡ reading (found x) → (xs : List ℤ) × (q ≡ x ∷ xs))
    → Ordered (update w p f) q printed enqueued
Ordered-reader w p f q printed enqueued on alone order front = record {
  mine =
      update-cases (λ u z. in_reader z ≡ true → enqueued ≡ printed ++ (held z ++ q)) w p f
        (λ h. order) (λ u n h. cc (h, alone u n));
  nobody = λ h. cc (h w, ap in_reader (update-same w p f), on);
  front = λ u x.
      update-cases (λ u z. z ≡ reading (found x) → (xs : List ℤ) × (q ≡ x ∷ xs)) w p f (front x)
        (λ u n h. cc (ap in_reader h, alone u n)) u;
}

pub others_out :
    (w : ℕ) (kept : Bool) (f : ℕ → Point) (hs : List Handler)
    → OneReader kept f hs
    → in_reader (f w) ≡ true
    → (u : ℕ) → u ≢ w
    → in_reader (f u) ≡ false
others_out w kept f hs v on u n = elim (Bool-cases (in_reader (f u))) [
  | inl busy ↦ absurd (n (v.single u w busy on))
  | inr free ↦ free
]
