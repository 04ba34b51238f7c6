-- ===== src/Tests/Threads.antt =====
-- The pipeline of lab1/src/Sudoku/3.cpp on one file of one line, whose 81 characters are no digits.
use cloud_computing_lab.Base.{◌≡◌, refl, true, false, [], ◌∷◌, some, ok, replicate, All, pos}
use cloud_computing_lab.Text.{Str, codes}
use cloud_computing_lab.Dance.Dlx.{Dlx}
use cloud_computing_lab.Dance.Line.{solve_line, board_chars}
use cloud_computing_lab.Pipeline.{
  Pipeline, Files, start, push_name, end_names, open_file, push_question, close_file, end_input,
  take_question, begin_push, end_push, end_work, begin_print, end_print, end_output, look_races,
  Reach, here, next, reads, ends, idle, pushes,
}
use cloud_computing_lab.Pipeline.Order.{Opens, all_lines, Answered}
use cloud_computing_lab.Pipeline.Ends.{output_in_order}

abbrev zeros : Dlx
zeros = record {
  links = record {
    left = λ x. 0;
    right = λ x. 0;
    up = λ x. 0;
    down = λ x. 0;
    col = λ x. 0;
    size = λ x. pos 0;
  };
  row = λ x. 0;
  first = λ x. 0;
  tot = 0;
  stk = λ x. 0;
  ans = λ x y. pos 0;
}

abbrev crosses : Str
crosses = replicate 81 b'x'

crosses_solved : solve_line 400 zeros crosses ≡ ok (some crosses)
unfolding solve_line board_chars
crosses_solved = refl

abbrev one_file : Files
one_file name = some (crosses ∷ [])

abbrev easy : Str
easy = codes "easy"

abbrev finished : Pipeline
finished = record {
  names = [];
  queue_of_filename = [];
  read_file_done = true;
  input = ends;
  question_of_sudoku = [];
  read_question_done = true;
  worker = idle;
  answer_of_sudoku = [];
  work_done = true;
  printed = crosses ∷ [];
  printing = false;
  output_ended = true;
  raced = false;
}

abbrev Reached : Pipeline → Type 0
Reached = Reach one_file 400 (easy ∷ [])

-- The name is read and the file is opened.
abbrev opened : Pipeline
opened = record (start (easy ∷ [])) { names = []; input = reads (crosses ∷ []) }

opened-Reached : Reached opened
opened-Reached =
    next (next here (push_name easy [] refl (λ lines e. cc) refl))
      (open_file easy [] (crosses ∷ []) refl refl refl refl)

-- The line has been read and solved, and the push of its answer has begun.
abbrev pushing : Pipeline
pushing = record opened { input = reads []; worker = pushes crosses }

pushing-Reached : Reached pushing
pushing-Reached =
    next
      (next (next opened-Reached (push_question crosses [] refl refl refl))
        (take_question crosses crosses [] zeros refl refl refl crosses_solved refl))
      (begin_push crosses refl refl refl)

-- The queue may be looked at in the push.
race-Reached : Reached (record pushing { raced = true })
race-Reached = next pushing-Reached (look_races crosses refl refl refl)

-- The line has been printed.
abbrev printed_one : Pipeline
printed_one = record opened { input = reads []; printed = crosses ∷ [] }

printed-Reached : Reached printed_one
printed-Reached =
    next
      (next (next pushing-Reached (end_push crosses refl refl))
        (begin_print crosses [] refl refl (λ other e. cc) refl refl))
      (end_print crosses [] refl refl refl)

finished-Reached : Reached finished
finished-Reached =
    next
      (next
        (next (next (next printed-Reached (close_file refl refl)) (end_names refl refl))
          (end_input refl refl refl refl))
        (end_work refl refl refl refl))
      (end_output refl refl refl refl)

output_in_order_example :
    All (Opens one_file) (easy ∷ [])
    × Answered 400 (all_lines one_file (easy ∷ [])) finished.printed
output_in_order_example =
    output_in_order one_file 400 (easy ∷ []) finished finished-Reached refl refl
