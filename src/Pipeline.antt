-- ===== src/Pipeline.antt =====
-- lab1/src/Sudoku/3.cpp: four threads that pass file names, puzzles and answers through queues. What
-- a thread does with a lock held is one step or more, and the lock keeps the other threads from theirs.
-- `work_func` holds no lock when it pushes an answer, so a push and what `output_func` does with the
-- queue have a beginning and an end each; when they overlap there is a data race, behind which
-- anything may happen. The names are those that `cin >> file_name` reads without coming to the end of
-- the input.
pub mod Order
pub mod Ends
use cloud_computing_lab.Base.{
  ℕ, ◌≡◌, ◌≢◌, Bool, true, false, List, [], ◌∷◌, ◌++◌, Option, none, some, ok,
}
use cloud_computing_lab.Text.{Str}
use cloud_computing_lab.Dance.Dlx.{Dlx}
use cloud_computing_lab.Dance.Line.{solve_line}

-- Where `input_func` is: at the top of its loop, at the lines of a file that are left, behind the return
-- for a file that cannot be opened, or at its end.
pub data Input : Type 0 where
  waits : Input
  reads : List Str → Input
  gives_up ends : Input

-- Where `work_func` is: at the top of its loop, with an answer that it has not begun to push, or in
-- the push. It holds `input_question_lock` but for the top of its loop.
pub data Worker : Type 0 where
  idle : Worker
  holds pushes : Str → Worker

pub record Pipeline : Type 0 where
  pub names : List Str
  pub queue_of_filename : List Str
  pub read_file_done : Bool
  pub input : Input
  pub question_of_sudoku : List Str
  pub read_question_done : Bool
  pub worker : Worker
  pub answer_of_sudoku : List Str
  pub work_done : Bool
  pub printed : List Str
  pub printing : Bool
  pub output_ended : Bool
  pub raced : Bool

-- What is in a file, by its name, if it can be opened.
abbrev pub Files : Type 0
Files = Str → Option (List Str)

abbrev pub start : List Str → Pipeline
start names = record {
  names = names;
  queue_of_filename = [];
  read_file_done = false;
  input = waits;
  question_of_sudoku = [];
  read_question_done = false;
  worker = idle;
  answer_of_sudoku = [];
  work_done = false;
  printed = [];
  printing = false;
  output_ended = false;
  raced = false;
}

module _ (files : Files) (limit : ℕ) where
  -- A step of one of the threads. While a file is read its lock is held, so that no name is pushed; a
  -- thread that has ended takes no step.
  pub data Step (p : Pipeline) (q : Pipeline) : Type 0 where
    push_name :
        (name : Str) (names : List Str)
        → p.names ≡ name ∷ names
        → ((lines : List Str) → p.input ≢ reads lines)
        → q ≡ record p { names = names; queue_of_filename = p.queue_of_filename ++ name ∷ [] }
        → Step p q
    end_names : p.names ≡ [] → q ≡ record p { read_file_done = true } → Step p q
    open_file :
        (name : Str) (rest lines : List Str)
        → p.input ≡ waits
        → p.queue_of_filename ≡ name ∷ rest
        → files name ≡ some lines
        → q ≡ record p { queue_of_filename = rest; input = reads lines }
        → Step p q
    fail_to_open :
        (name : Str) (rest : List Str)
        → p.input ≡ waits
        → p.queue_of_filename ≡ name ∷ rest
        → files name ≡ none
        → q ≡ record p { queue_of_filename = rest; input = gives_up }
        → Step p q
    push_question :
        (line : Str) (lines : List Str)
        → p.input ≡ reads (line ∷ lines)
        → p.worker ≡ idle
        → q
          ≡ record p { input = reads lines; question_of_sudoku = p.question_of_sudoku ++ line ∷ [] }
        → Step p q
    close_file : p.input ≡ reads [] → q ≡ record p { input = waits } → Step p q
    end_input :
        p.input ≡ waits
        → p.queue_of_filename ≡ []
        → p.read_file_done ≡ true
        → q ≡ record p { input = ends; read_question_done = true }
        → Step p q
    take_question :
        (question answer : Str) (rest : List Str) (raw : Dlx)
        → p.worker ≡ idle
        → p.work_done ≡ false
        → p.question_of_sudoku ≡ question ∷ rest
        → solve_line limit raw question ≡ ok (some answer)
        → q ≡ record p { question_of_sudoku = rest; worker = holds answer }
        → Step p q
    begin_push :
        (answer : Str)
        → p.worker ≡ holds answer
        → p.printing ≡ false
        → q ≡ record p { worker = pushes answer }
        → Step p q
    end_push :
        (answer : Str)
        → p.worker ≡ pushes answer
        → q ≡ record p { worker = idle; answer_of_sudoku = p.answer_of_sudoku ++ answer ∷ [] }
        → Step p q
    end_work :
        p.worker ≡ idle
        → p.question_of_sudoku ≡ []
        → p.read_question_done ≡ true
        → q ≡ record p { work_done = true }
        → Step p q
    -- The queue is looked at, and its first answer is printed.
    begin_print :
        (answer : Str) (rest : List Str)
        → p.output_ended ≡ false
        → p.printing ≡ false
        → ((other : Str) → p.worker ≢ pushes other)
        → p.answer_of_sudoku ≡ answer ∷ rest
        → q ≡ record p { printing = true; printed = p.printed ++ answer ∷ [] }
        → Step p q
    -- The first answer is popped.
    end_print :
        (answer : Str) (rest : List Str)
        → p.printing ≡ true
        → p.answer_of_sudoku ≡ answer ∷ rest
        → q ≡ record p { printing = false; answer_of_sudoku = rest }
        → Step p q
    end_output :
        p.printing ≡ false
        → p.answer_of_sudoku ≡ []
        → p.work_done ≡ true
        → q ≡ record p { output_ended = true }
        → Step p q
    -- A push begins while the queue is in use, or the queue is looked at in a push.
    push_races :
        (answer : Str)
        → p.worker ≡ holds answer
        → p.printing ≡ true
        → q ≡ record p { raced = true }
        → Step p q
    look_races :
        (answer : Str)
        → p.worker ≡ pushes answer
        → p.output_ended ≡ false
        → q ≡ record p { raced = true }
        → Step p q
    anything : p.raced ≡ true → q.raced ≡ true → Step p q

  pub data Reach (names : List Str) : Pipeline → Type 0 where
    here : Reach names (start names)
    next : {p q : Pipeline} → Reach names p → Step p q → Reach names q
