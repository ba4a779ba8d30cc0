-- ===== src/WorkQueue/Crowd/Unread.antt =====
-- include/queue.hh: what the thread with the lock knows of `m_unread` and of the elements, while no push
-- has met a full buffer.
use test_buffer.Prelude.{
  Bool, List, [], ap, arith, drop_last, drop_last-append_one, false, get_elem?-append_one, length,
  length-append, size_mod, some, take-all, true, ℕ, ◌++◌, ◌+◌, ◌<◌, ◌∙◌, ◌∷◌, ◌≡◌,
}
use test_buffer.Boost.CircularBuffer.{CircularBuffer, length-contents-le}
use test_buffer.Boost.Threads.{Mutex, Conditions}
use test_buffer.Threads.Guarded.{Guarded}
use test_buffer.WorkQueue.{dec_size}
use test_buffer.WorkQueue.Fifo.{not-nil}
use test_buffer.WorkQueue.Crowd.{Point, stored, nonempty, read, crashed, System, is_full}
use test_buffer.WorkQueue.Crowd.Holding.{holds}

-- With the lock: `m_unread`, which is `m`, beside the number of elements.
abbrev pub Counts {ℓ} : {A : Type ℓ} → ℕ → ℕ → Point A → Type 0
Counts m k stored = m + 1 ≡ k
Counts m k (read x) = m + 1 ≡ k
Counts m k crashed = ⊥
Counts m k _ = m ≡ k

-- What was seen of the elements `xs`.
abbrev pub Last {ℓ} : {A : Type ℓ} → List A → Point A → Type ℓ
Last {A = A} xs nonempty = (ys : List A) × (y : A) × (xs ≡ ys ++ y ∷ [])
Last {A = A} xs (read x) = (ys : List A) × (xs ≡ ys ++ x ∷ [])
Last xs _ = Unit

abbrev pub Agrees {ℓ} : {A : Type ℓ} → ℕ → List A → Point A → Type ℓ
Agrees m xs p = Counts m (length xs) p × Last xs p

module _ {ℓ} (A : Type ℓ) (cb : CircularBuffer A) (mx : Mutex) (cv : Conditions) (n : ℕ) where
  abbrev State : Type ℓ
  State = System A cb mx cv

  abbrev pub elements : State → List A
  elements s = cb.contents s.queue.container

  abbrev pub Guards : Bool → (ℕ → Point A) → ℕ → List A → Type ℓ
  Guards free f m xs = Guarded holds free f (Agrees m xs) (m ≡ length xs)

  pub record Good (cap : ℕ) (s : State) : Type ℓ where
    pub room : cb.capacity s.queue.container ≡ cap
    pub guard : Guards (mx.is_free s.mutex) s.point s.queue.unread (elements s)

  -- What the thread with the lock has.
  pub has :
      {cap : ℕ} (s : State) (t : ℕ) (p : Point A)
      → s.point t ≡ p
      → holds p ≡ true
      → Good cap s
      → Agrees s.queue.unread (elements s) p
  has s t p e had v =
      let here : Agrees s.queue.unread (elements s) (s.point t) =
        v.guard.inside t (ap holds e ∙ had) in
      rw e at here

  -- With room the new element is in front of the others.
  pub contents-store :
      (x : A) (s : State)
      → is_full A cb mx cv s ≡ false
      → cb.contents (cb.push_front x s.queue.container) ≡ x ∷ elements s
  contents-store x s room =
      cb.contents-push_front x s.queue.container
      ∙ take-all _ _ (ground (arith, room, cb.size-contents s.queue.container))

  pub contents-remove :
      (x : A) (ys : List A) (s : State)
      → elements s ≡ ys ++ x ∷ []
      → cb.contents (cb.pop_back s.queue.container) ≡ ys
  contents-remove x ys s e =
      cb.contents-pop_back s.queue.container (not-nil cb ys x e)
      ∙ ap drop_last e
      ∙ drop_last-append_one ys x

  -- `--m_unread` is the index of the last element.
  pub last_index :
      {cap : ℕ} (s : State) (ys : List A) (y : A)
      → cap < size_mod
      → elements s ≡ ys ++ y ∷ []
      → s.queue.unread ≡ length (elements s)
      → cb.capacity s.queue.container ≡ cap
      → (dec_size s.queue.unread ≡ length ys)
        × (cb.at s.queue.container (dec_size s.queue.unread) ≡ some y)
  last_index s ys y h e sum room =
      let index : dec_size s.queue.unread ≡ length ys = omega (
        arith,
        h,
        room,
        sum,
        length-contents-le cb s.queue.container,
        ap length e,
        length-append ys (y ∷ []),
      ) in
      (
        index,
        cb.at-contents s.queue.container (dec_size s.queue.unread)
            ∙ rw e (get_elem?-append_one ys y (dec_size s.queue.unread) index),
      )
