-- ===== src/BufSync/Program/Stuck.antt =====
-- src/buf-sync.cxx: the worker that runs client_reader, and join_all.
use test_buffer.Prelude.{
  Bool-cases, ap, arith, inl, inr, ltb, refl, same_or_not, sym, true, update, update-other,
  update-same, ℕ, ◌<◌, ◌∙◌, ◌≡◌, ◌≢◌, ◌≤◌,
}
use test_buffer.Boost.Threads.{Mutex, Condition}
use test_buffer.Boost.Asio.{IoService}
use test_buffer.BufSync.Program.{
  Handler, Point, returned, ended, System, n_workers, Step, take_writer, take_receive, take_handle,
  take_reader, leave_run, loop, end_loop, push, read_for_inc, write_inc, notify, count, receive,
  take_lock, see_empty, start_wait, spurious, end_wait, see_front, pop, read_for_dec, write_dec,
  give, print, post_reader, post_receive, post_writer, stop, join_all, Steps, Reach, start, later,
}
use test_buffer.BufSync.Program.Order.{in_reader}

module _ (mx : Mutex) (cv : Condition) (asio : IoService Handler) where
  abbrev State : Type 0
  State = System mx cv asio

  -- What a step does to the workers and to `main`.
  data Change (s t : State) : Type 0 where
    worker_moves :
        (w : ℕ) (p : Point)
        → (s.worker w ≢ returned)
        → (in_reader (s.worker w) ≡ true → in_reader p ≡ true)
        → (t.worker ≡ update w p s.worker)
        → t.main ≡ s.main
        → Change s t
    main_moves : t.worker ≡ s.worker → t.main ≢ ended → Change s t
    nothing : t.worker ≡ s.worker → t.main ≡ s.main → Change s t
    joins : t.worker ≡ s.worker → ((w : ℕ) → w < n_workers → s.worker w ≡ returned) → Change s t

  moves :
      {s t : State} (w : ℕ) (p q : Point)
      → s.worker w ≡ p
      → p ≢ returned
      → (in_reader p ≡ true → in_reader q ≡ true)
      → t.worker ≡ update w q s.worker
      → t.main ≡ s.main
      → Change s t
  moves {s} w p q at there still e m =
      worker_moves w q (λ h. there (sym at ∙ h)) (λ h. still (sym (ap in_reader at) ∙ h)) e m

  Step-Change : {s t : State} → Step mx cv asio s t → Change s t
  Step-Change (take_writer w io at took) = moves w _ _ at (λ h. cc) (λ h. cc) refl refl
  Step-Change (take_receive w io word at took) = moves w _ _ at (λ h. cc) (λ h. cc) refl refl
  Step-Change (take_handle w io at took) = moves w _ _ at (λ h. cc) (λ h. cc) refl refl
  Step-Change (take_reader w io at took) = moves w _ _ at (λ h. cc) (λ h. refl) refl refl
  Step-Change (leave_run w at off) = moves w _ _ at (λ h. cc) (λ h. cc) refl refl
  Step-Change (loop w i at more) = moves w _ _ at (λ h. cc) (λ h. cc) refl refl
  Step-Change (end_loop w i at done) = moves w _ _ at (λ h. cc) (λ h. cc) refl refl
  Step-Change (push w x c at) = moves w _ _ at (λ h. cc) (λ h. cc) refl refl
  Step-Change (read_for_inc w c at) = moves w _ _ at (λ h. cc) (λ h. cc) refl refl
  Step-Change (write_inc w n c at) = moves w _ _ at (λ h. cc) (λ h. cc) refl refl
  Step-Change (notify w c at) = moves w _ _ at (λ h. cc) (λ h. cc) refl refl
  Step-Change (count w at) = moves w _ _ at (λ h. cc) (λ h. cc) refl refl
  Step-Change (receive w at) = moves w _ _ at (λ h. cc) (λ h. cc) refl refl
  Step-Change (take_lock w at free) = moves w _ _ at (λ h. cc) (λ h. refl) refl refl
  Step-Change (see_empty w at none_there) = moves w _ _ at (λ h. cc) (λ h. refl) refl refl
  Step-Change (start_wait w at) = moves w _ _ at (λ h. cc) (λ h. refl) refl refl
  Step-Change (spurious w at) = nothing refl refl
  Step-Change (end_wait w at n free) = moves w _ _ at (λ h. cc) (λ h. refl) refl refl
  Step-Change (see_front w x xs at e) = moves w _ _ at (λ h. cc) (λ h. refl) refl refl
  Step-Change (pop w x y xs at e) = moves w _ _ at (λ h. cc) (λ h. refl) refl refl
  Step-Change (read_for_dec w x at) = moves w _ _ at (λ h. cc) (λ h. refl) refl refl
  Step-Change (write_dec w x n at) = moves w _ _ at (λ h. cc) (λ h. refl) refl refl
  Step-Change (give w x at) = moves w _ _ at (λ h. cc) (λ h. refl) refl refl
  Step-Change (print w x at) = moves w _ _ at (λ h. cc) (λ h. refl) refl refl
  Step-Change (post_reader m) = main_moves refl (λ h. cc)
  Step-Change (post_receive m) = main_moves refl (λ h. cc)
  Step-Change (post_writer i m more) = main_moves refl (λ h. cc)
  Step-Change (stop i m done) = main_moves refl (λ h. cc)
  Step-Change (join_all m all) = joins refl all

  -- A worker in client_reader stays there.
  Change-reading :
      {s t : State} (w : ℕ)
      → Change s t
      → in_reader (s.worker w) ≡ true
      → in_reader (t.worker w) ≡ true
  Change-reading {s} w (worker_moves u p there still e m) on = rw e (elim (same_or_not u w) [
    | inl h ↦ rw (h, update-same) (still (sym (ap (λ z. in_reader (s.worker z)) h) ∙ on))
    | inr n ↦ rw (update-other u w p s.worker n) on
  ])
  Change-reading w (main_moves e m) on = rw e on
  Change-reading w (nothing e m) on = rw e on
  Change-reading w (joins e all) on = rw e on

  Steps-reading :
      {s t : State} (w : ℕ)
      → in_reader (s.worker w) ≡ true
      → Steps mx cv asio s t
      → in_reader (t.worker w) ≡ true
  Steps-reading w on start = on
  Steps-reading w on (later r st) = Change-reading w (Step-Change st) (Steps-reading w on r)

  -- There are two workers, and when `main` has ended they have returned.
  record Inv (s : State) : Type 0 where
    only_two : (w : ℕ) → n_workers ≤ w → s.worker w ≡ returned
    joined : s.main ≡ ended → (w : ℕ) → s.worker w ≡ returned

  -- A worker that has returned stays so.
  Change-returned :
      {s t : State} (w : ℕ) → Change s t → s.worker w ≡ returned → t.worker w ≡ returned
  Change-returned {s} w (worker_moves u p there still e m) off = elim (same_or_not u w) [
    | inl h ↦ absurd (there (sym (ap s.worker h) ∙ off))
    | inr n ↦ rw (e, update-other u w p s.worker n) off
  ]
  Change-returned w (main_moves e m) off = rw e off
  Change-returned w (nothing e m) off = rw e off
  Change-returned w (joins e all) off = rw e off

  Change-joined :
      {s t : State} → Change s t → Inv s → t.main ≡ ended → (w : ℕ) → t.worker w ≡ returned
  Change-joined {s} {t} (worker_moves u p there still e m) v h w =
      Change-returned {s = s} {t = t} w (worker_moves u p there still e m) (v.joined (sym m ∙ h) w)
  Change-joined (main_moves e m) v h w = absurd (m h)
  Change-joined (nothing e m) v h w = rw e (v.joined (sym m ∙ h) w)
  Change-joined (joins e all) v h w = rw e (elim (Bool-cases (ltb w n_workers)) [
    | inl less ↦ all w (ground arith)
    | inr more ↦ v.only_two w (ground arith)
  ])

  Reach-Inv : {s : State} → Reach mx cv asio s → Inv s
  Reach-Inv start = record { only_two = λ w h. ground arith; joined = λ h. cc }
  Reach-Inv (later r st) =
      let v = Reach-Inv r in
      let c = Step-Change st in
      record { only_two = λ w h. Change-returned w c (v.only_two w h); joined = Change-joined c v }

  pub only_two-Reach :
      {s : State} (w : ℕ) → Reach mx cv asio s → n_workers ≤ w → s.worker w ≡ returned
  only_two-Reach w r h = (Reach-Inv r).only_two w h

  Steps-after : {s t : State} → Reach mx cv asio s → Steps mx cv asio s t → Reach mx cv asio t
  Steps-after r start = r
  Steps-after r (later q st) = later (Steps-after r q) st

  -- Once a worker has taken client_reader up, it stays in it whatever
  -- happens, and `main` does not end.
  pub in_reader-Steps :
      {s t : State} (w : ℕ)
      → Reach mx cv asio s
      → in_reader (s.worker w) ≡ true
      → Steps mx cv asio s t
      → (in_reader (t.worker w) ≡ true) × (t.main ≢ ended)
  in_reader-Steps {t = t} w r on q =
      let still = Steps-reading w on q in
      (still, λ h. cc (still, (Reach-Inv (Steps-after r q)).joined h w))
