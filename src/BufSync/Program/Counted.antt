-- ===== src/BufSync/Program/Counted.antt =====
-- src/buf-sync.cxx: the one worker that receives, and its datagram in hand.
use test_buffer.Prelude.{
  Bool, Bool-cases, List, ap, false, inl, inr, refl, sym, true, update, update-cases, update-same,
  ℕ, ◌++◌, ◌+◌, ◌∙◌, ◌∷◌, ◌≡◌,
}
use test_buffer.BufSync.Program.{
  Handler, client_reader, handle_data, receive_data, client_writer, Caller, writer, receiver, Point,
  idle, at_loop, to_push, pushed, read_size, sized, to_count, to_receive, reading, printing,
  returned, Main, to_start, to_post_receive, after_enqueue,
}
use test_buffer.BufSync.Program.Tokens.{Token, Token-pending, Token-move, Token-take}

abbrev pub is_receiver : Handler → Bool
is_receiver client_reader = false
is_receiver handle_data = true
is_receiver receive_data = true
is_receiver client_writer = false

abbrev from_network : Caller → Bool
from_network (writer i) = false
from_network receiver = true

-- The worker is in receive_data before `packet_count++`.
abbrev pub uncounted : Point → Bool
uncounted (to_push x c) = from_network c
uncounted (pushed c) = from_network c
uncounted (read_size n c) = from_network c
uncounted (sized c) = from_network c
uncounted to_count = true
uncounted _ = false

-- The worker is in receive_data or in handle_data.
abbrev pub in_receiver : Point → Bool
in_receiver to_receive = true
in_receiver p = uncounted p

abbrev pub receiver_unposted : Main → Bool
receiver_unposted to_start = true
receiver_unposted to_post_receive = true
receiver_unposted _ = false

pub after_enqueue-uncounted : (c : Caller) → uncounted (after_enqueue c) ≡ from_network c
after_enqueue-uncounted (writer i) = refl
after_enqueue-uncounted receiver = refl

pub after_enqueue-in : (c : Caller) → in_receiver (after_enqueue c) ≡ from_network c
after_enqueue-in (writer i) = refl
after_enqueue-in receiver = refl

pub outside : (p : Point) → in_receiver p ≡ false → uncounted p ≡ false
outside to_receive h = refl
outside (to_push x c) h = h
outside (pushed c) h = h
outside (read_size n c) h = h
outside (sized c) h = h
outside to_count h = h
outside idle h = refl
outside (at_loop i) h = refl
outside (reading c) h = refl
outside (printing x) h = refl
outside returned h = refl

pub inside : (p : Point) → uncounted p ≡ true → in_receiver p ≡ true
inside p h = elim (Bool-cases (in_receiver p)) [ inl on ↦ on | inr off ↦ cc (outside p off, h) ]

-- `n` datagrams of `k` are counted.
pub record Inv (kept : Bool) (f : ℕ → Point) (hs : List Handler) (n k : ℕ) : Type 0 where
  pub token : Token is_receiver in_receiver kept f hs
  pub mine : (w : ℕ) → uncounted (f w) ≡ true → n + 1 ≡ k
  pub nobody : ((w : ℕ) → uncounted (f w) ≡ false) → n ≡ k

-- A worker goes on in receive_data on the same side of the count, or in another handler.
pub Inv-move :
    (w : ℕ) (p : Point) {kept : Bool} (f : ℕ → Point) {hs ks : List Handler} {n k : ℕ}
    → uncounted p ≡ uncounted (f w)
    → Token is_receiver in_receiver kept (update w p f) ks
    → Inv kept f hs n k
    → Inv kept (update w p f) ks n k
Inv-move w p f same token v =
    let before : (u : ℕ) → uncounted (update w p f u) ≡ uncounted (f u) =
      update-cases (λ u q. uncounted q ≡ uncounted (f u)) w p f same (λ u n. refl) in
    record {
      token = token;
      mine = λ u h. v.mine u (sym (before u) ∙ h);
      nobody = λ h. v.nobody (λ u. sym (before u) ∙ h u);
    }

pub Inv-other :
    (w : ℕ) (p q : Point) {kept : Bool} {f : ℕ → Point} {hs : List Handler} {n k : ℕ}
    → f w ≡ q
    → uncounted p ≡ uncounted q
    → in_receiver p ≡ in_receiver q
    → Inv kept f hs n k
    → Inv kept (update w p f) hs n k
Inv-other w p q {kept} {f} {hs} at same on v =
    Inv-move w p f (same ∙ sym (ap uncounted at))
      (Token-move is_receiver in_receiver w p kept f hs (on ∙ sym (ap in_receiver at)) v.token) v

-- The datagram in hand is counted.
pub Inv-count :
    (w : ℕ) {kept : Bool} {f : ℕ → Point} {hs : List Handler} {n k : ℕ}
    → f w ≡ to_count
    → Inv kept f hs n k
    → Inv kept (update w to_receive f) hs (n + 1) k
Inv-count w {kept} {f} {hs} at v =
    let none_now : (u : ℕ) → uncounted (update w to_receive f u) ≡ false =
      update-cases (λ u q. uncounted q ≡ false) w to_receive f refl
        (λ u n. outside (f u) (elim (Bool-cases (in_receiver (f u))) [
          | inl busy ↦ absurd (n (v.token.single u w busy (ap in_receiver at)))
          | inr free ↦ free
        ])) in
    record {
      token =
          Token-move is_receiver in_receiver w to_receive kept f hs (sym (ap in_receiver at))
            v.token;
      mine = λ u h. cc (none_now u, h);
      nobody = λ h. v.mine w (ap uncounted at);
    }

-- Another handler is given to the service, or taken up.
pub Inv-pending :
    {kept : Bool} {f : ℕ → Point} {hs ks : List Handler} {n k : ℕ}
    → Token is_receiver in_receiver kept f ks
    → Inv kept f hs n k
    → Inv kept f ks n k
Inv-pending token v = record { token = token; mine = v.mine; nobody = v.nobody }

-- A datagram comes in.
pub Inv-receive :
    (w : ℕ) (p : Point) (xs ys : List Handler) {kept : Bool} {f : ℕ → Point} {n k : ℕ}
    → f w ≡ idle
    → in_receiver p ≡ true
    → uncounted p ≡ true
    → Inv kept f (xs ++ receive_data ∷ ys) n k
    → Inv kept (update w p f) (xs ++ ys) n (k + 1)
Inv-receive w p xs ys {kept} {f} at on now v =
    let (free, _, _) =
      Token-pending is_receiver in_receiver receive_data kept f xs ys refl v.token in
    record {
      token =
          Token-take is_receiver in_receiver w receive_data p kept f xs ys (ap in_receiver at) on
            v.token;
      mine = λ u h. ap (λ z. z + 1) (v.nobody (λ u. outside (f u) (free u)));
      nobody = λ h. cc (h w, ap uncounted (update-same w p f), now);
    }
