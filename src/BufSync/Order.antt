-- ===== src/BufSync/Order.antt =====
-- src/buf-sync.cxx: what the reader prints, of all that writers and datagrams bring.
use test_buffer.Prelude.{
  List, [], append-nil, append_assoc, arith, int_max, length, lt→ltb, pos, refl, sym, to_int, value,
  ℕ, ℤ, ◌*◌, ◌++◌, ◌+◌, ◌<◌, ◌∙◌, ◌∷◌, ◌≡◌, ◌≤◌,
}
use test_buffer.SyncQueue.{SyncQueue, enqueue}
use test_buffer.BufSync.{client_writer, Session, Event, writes, receives, reads}
use test_buffer.BufSync.{client_reader, receive_data, reads_next, handle, run}
use test_buffer.SyncQueue.{dequeue}

-- What an event puts into the queue.
abbrev pub brought : Event → List ℤ
brought writes = pos 1 ∷ pos 2 ∷ pos 3 ∷ pos 4 ∷ []
brought (receives word) = to_int word ∷ []
brought reads = []

abbrev pub all_brought : List Event → List ℤ
all_brought [] = []
all_brought (e ∷ es) = brought e ++ all_brought es

-- The datagrams among some events.
abbrev pub datagrams : List Event → ℕ
datagrams [] = 0
datagrams (receives word ∷ es) = datagrams es + 1
datagrams (writes ∷ es) = datagrams es
datagrams (reads ∷ es) = datagrams es

abbrev pub values : List (ℕ × ℤ) → List ℤ
values [] = []
values ((id, x) ∷ lines) = x ∷ values lines

datagrams-le : (e : Event) → datagrams (e ∷ []) ≤ 1
datagrams-le writes = omega arith
datagrams-le (receives word) = omega arith
datagrams-le reads = omega arith

datagrams-cons :
    (e : Event) (es : List Event) → datagrams (e ∷ es) ≡ datagrams (e ∷ []) + datagrams es
datagrams-cons writes es = omega arith
datagrams-cons (receives word) es = omega arith
datagrams-cons reads es = omega arith

-- client_writer enqueues its number, and twice, three and four times it.
pub client_writer_lem :
    (myid : ℕ) (q : SyncQueue ℤ)
    → client_writer myid q
      ≡ enqueue
          (pos (4 * myid))
          (enqueue (pos (3 * myid)) (enqueue (pos (2 * myid)) (enqueue (pos (1 * myid)) q)))
unfolding client_writer
client_writer_lem myid q = refl

values-append_one :
    (lines : List (ℕ × ℤ)) (id : ℕ) (x : ℤ)
    → values (lines ++ (id, x) ∷ []) ≡ values lines ++ x ∷ []
values-append_one [] id x = refl
values-append_one ((i, y) ∷ lines) id x = rw (values-append_one lines id x)

-- What has passed through a session: the values printed, then those in the queue.
abbrev pub passed : Session → List ℤ
passed s = values s.lines ++ s.queue.queue

-- What an event leaves behind.
record Handled (e : Event) (s s' : Session) : Type 0 where
  moved : passed s' ≡ passed s ++ brought e
  counted : s'.packet_count ≡ s.packet_count + datagrams (e ∷ [])

reads-Handled : (s : Session) (xs : List ℤ) → s.queue.queue ≡ xs → Handled reads s (reads_next s)
unfolding reads_next client_reader dequeue
reads-Handled s [] e = ground (arith, append-nil (passed s))
reads-Handled s (x ∷ xs) e = ground (
  arith,
  append-nil (passed s),
  values-append_one s.lines 4 x,
  append_assoc (values s.lines) (x ∷ []) xs,
)

handle-Handled :
    (e : Event) (s : Session)
    → s.packet_count < int_max
    → (s' : Session) × (handle e s ≡ value s') × Handled e s s'
unfolding handle receive_data enqueue
handle-Handled writes s n =
    (_, refl, record { moved = rw client_writer_lem (simp append_assoc); counted = omega arith })
handle-Handled (receives word) s n = (
  record s { queue = enqueue (to_int word) s.queue; packet_count = s.packet_count + 1 },
  rw (lt→ltb _ _ n),
  record {
    moved = sym (append_assoc (values s.lines) s.queue.queue (to_int word ∷ []));
    counted = omega arith;
  },
)
handle-Handled reads s n = (_, refl, reads-Handled s s.queue.queue refl)

-- Whatever order the writers, the datagrams and the reader's rounds run in, as long as the number of
-- events added to `packet_count` stays in an `int`: the run is defined, the values printed and then
-- those in the queue are what they were and then all that the writers and the datagrams brought, in
-- the order in which they ran, and `packet_count` grows by the number of datagrams.
pub run_lem :
    (es : List Event) (s : Session)
    → s.packet_count + length es ≤ int_max
    → (s' : Session) × (run es s ≡ value s')
      × (passed s' ≡ passed s ++ all_brought es)
      × (s'.packet_count ≡ s.packet_count + datagrams es)
unfolding run
run_lem [] s n = (s, refl, sym (append-nil (passed s)), omega arith)
run_lem (e ∷ es) s n =
    let (s1, step, h) = handle-Handled e s (omega arith) in
    let (s', ran, moved, counted) = run_lem es s1 (omega (arith, h.counted, datagrams-le e)) in
    (
      s',
      rw step ran,
      moved ∙ rw h.moved (append_assoc (passed s) (brought e) (all_brought es)),
      omega (arith, counted, h.counted, datagrams-cons e es),
    )
