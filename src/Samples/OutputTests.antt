-- ===== src/Samples/OutputTests.antt =====
-- Tests of src/buf-test.cxx.
use test_buffer.Prelude.{[], arith, false, refl, update, ◌∷◌, ◌≡◌, ◌≤◌, ◌⊎◌}
use test_buffer.Boost.Asio.{IoService}
use test_buffer.Samples.Services.{flag_mutex, list_service}
use test_buffer.BufTest
use test_buffer.BufTest.{Handler, Piece, Line, press_return, thread_start, thread_finish}
use test_buffer.BufTest.Locking.{flatten}
use test_buffer.BufTest.Output.{whole-Reach}
use test_buffer.BufTest.Lines.{lines_of, said, said-Reach}
use test_buffer.BufTest.Running.{n_steps, steps-Reach}

abbrev asio : IoService Handler
asio = list_service Handler

abbrev State : Type 0
State = BufTest.System flag_mutex asio

-- `main` has the lock and has inserted the bracket.
abbrev begun : State
begun = record (BufTest.init flag_mutex asio) {
  stream_lock = false;
  point =
      update 0
        (BufTest.writing press_return
          (Piece.thread_id 0 ∷ Piece.text press_return ∷ Piece.end_line ∷ []))
        (update 0 (BufTest.writing press_return (BufTest.pieces 0 press_return))
          (BufTest.first_point flag_mutex asio));
  output = Piece.bracket ∷ [];
  lines = (0, press_return) ∷ [];
}

begun-Reach : BufTest.Reach flag_mutex asio begun
unfolding BufTest.pieces update BufTest.first_point
begun-Reach =
    BufTest.later (BufTest.later BufTest.start (BufTest.lock 0 press_return refl refl))
      (BufTest.insert 0 press_return Piece.bracket _ refl)

said-Reach_example : lines_of 0 begun.lines ≡ said (begun.point 0)
said-Reach_example = said-Reach flag_mutex asio 0 begun-Reach

-- `main` has printed its line and made one worker.
abbrev one_made : State
one_made = record (BufTest.init flag_mutex asio) {
  point = update 1 (BufTest.to_lock thread_start) (
      update 0 (BufTest.creating 1) (
        update 0 (BufTest.next press_return) (
          update 0 (BufTest.writing press_return []) (
            update 0 (BufTest.writing press_return (Piece.end_line ∷ [])) (
              update 0
                (BufTest.writing press_return (Piece.text press_return ∷ Piece.end_line ∷ []))
                begun.point)))));
  output = Piece.bracket ∷ Piece.thread_id 0 ∷ Piece.text press_return ∷ Piece.end_line ∷ [];
  lines = (0, press_return) ∷ [];
}

one_made-Reach : BufTest.Reach flag_mutex asio one_made
unfolding BufTest.pieces update BufTest.next
one_made-Reach =
    BufTest.later
      (BufTest.later
        (BufTest.later
          (BufTest.later
            (BufTest.later begun-Reach (BufTest.insert 0 press_return (Piece.thread_id 0) _ refl))
            (BufTest.insert 0 press_return (Piece.text press_return) _ refl))
          (BufTest.insert 0 press_return Piece.end_line _ refl))
        (BufTest.unlock 0 press_return refl))
      (BufTest.create_thread 0 refl (omega arith))

whole-Reach_example : one_made.output ≡ flatten one_made.lines
whole-Reach_example = whole-Reach flag_mutex asio one_made-Reach refl

steps-Reach_example :
    (n_steps flag_mutex asio one_made-Reach ≤ 66)
    × (((one_made.point 0 ≡ BufTest.ended) × (n_steps flag_mutex asio one_made-Reach ≡ 66))
        ⊎ ((t : State) × BufTest.Step flag_mutex asio one_made t))
steps-Reach_example = steps-Reach flag_mutex asio one_made-Reach
