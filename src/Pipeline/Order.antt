-- ===== src/Pipeline/Order.antt =====
-- Without a data race the answers of the pipeline come out in the order of the puzzles.
use cloud_computing_lab.Base.{
  ℕ, ◌≡◌, ◌≢◌, refl, sym, ap, subst, ◌∙◌, Bool, true, false, List, [], ◌∷◌, ◌++◌, Option, none,
  some, ok, All, All-join, append_assoc, append-nil,
}
use mathlib.Core.Bool.{false≢true}
use cloud_computing_lab.Text.{Str}
use cloud_computing_lab.Dance.Dlx.{Dlx}
use cloud_computing_lab.Dance.Line.{solve_line}
use cloud_computing_lab.Pipeline.{
  Input, waits, reads, gives_up, ends, Worker, idle, holds, pushes, Pipeline, Files, start, Step,
  push_name, end_names, open_file, fail_to_open, push_question, close_file, end_input,
  take_question, begin_push, end_push, end_work, begin_print, end_print, end_output, push_races,
  look_races, anything, Reach, here, next,
}

abbrev pub Opens : Files → Str → Type 0
Opens files name = (lines : List Str) × (files name ≡ some lines)

abbrev lines_of : Option (List Str) → List Str
lines_of none = []
lines_of (some lines) = lines

-- The lines of the files, one file behind the other.
abbrev pub all_lines : Files → List Str → List Str
all_lines files [] = []
all_lines files (name ∷ names) = lines_of (files name) ++ all_lines files names

-- The lines of the open file that are left.
abbrev pub left_in : Input → List Str
left_in waits = []
left_in (reads lines) = lines
left_in gives_up = []
left_in ends = []

-- One answer for each puzzle, in order; what was in the memory of the solver may be another each time.
abbrev pub Answered : ℕ → List Str → List Str → Type 0
Answered limit [] [] = Unit {0}
Answered limit (q ∷ qs) (a ∷ rest) =
    ((raw : Dlx) × (solve_line limit raw q ≡ ok (some a))) × Answered limit qs rest
Answered limit _ _ = ⊥

Answered-snoc :
    (limit : ℕ) (raw : Dlx) (qs bs : List Str) (q a : Str)
    → Answered limit qs bs
    → solve_line limit raw q ≡ ok (some a)
    → Answered limit (qs ++ q ∷ []) (bs ++ a ∷ [])
Answered-snoc limit raw [] [] q a h e = ((raw, e), tt)
Answered-snoc limit raw [] (b ∷ bs) q a h e = absurd h
Answered-snoc limit raw (r ∷ qs) [] q a h e = absurd h
Answered-snoc limit raw (r ∷ qs) (b ∷ bs) q a (first, h) e =
    (first, Answered-snoc limit raw qs bs q a h e)

-- The answers in the queue that are not printed, and the one that the worker has.
abbrev pub pending : Bool → List Str → List Str
pending false answers = answers
pending true [] = []
pending true (a ∷ rest) = rest

abbrev pub in_hand : Worker → List Str
in_hand idle = []
in_hand (holds a) = a ∷ []
in_hand (pushes a) = a ∷ []

all_lines-append :
    (files : Files) (names more : List Str)
    → all_lines files (names ++ more) ≡ all_lines files names ++ all_lines files more
all_lines-append files [] more = refl
all_lines-append files (a ∷ names) more =
    ap (λ t. lines_of (files a) ++ t) (all_lines-append files names more)
    ∙ sym (append_assoc (lines_of (files a)) (all_lines files names) (all_lines files more))

-- What has gone through the queues.
pub record IsOrdered (files : Files) (limit : ℕ) (names : List Str) (p : Pipeline) : Type 0 where
  pub opened : List Str
  pub worked : List Str
  pub opens : All (Opens files) opened
  pub names_kept : p.input ≢ gives_up → opened ++ (p.queue_of_filename ++ p.names) ≡ names
  pub lines_kept : worked ++ (p.question_of_sudoku ++ left_in p.input) ≡ all_lines files opened
  pub answered :
      Answered limit worked
        (p.printed ++ (pending p.printing p.answer_of_sudoku ++ in_hand p.worker))
  pub alone : (a : Str) → p.worker ≡ pushes a → p.printing ≡ false

module _ (files : Files) (limit : ℕ) (names : List Str) where
  abbrev pub Ordered : Pipeline → Type 0
  Ordered = IsOrdered files limit names

  push_name-IsOrdered :
      (p : Pipeline) (name : Str) (ns : List Str)
      → p.names ≡ name ∷ ns
      → Ordered p
      → Ordered (record p { names = ns; queue_of_filename = p.queue_of_filename ++ name ∷ [] })
  push_name-IsOrdered p name ns left k = record {
    opened = k.opened;
    worked = k.worked;
    opens = k.opens;
    names_kept = λ ne.
        ap (λ t. k.opened ++ t)
          (append_assoc p.queue_of_filename (name ∷ []) ns
            ∙ ap (λ t. p.queue_of_filename ++ t) (sym left))
        ∙ k.names_kept ne;
    lines_kept = k.lines_kept;
    answered = k.answered;
    alone = k.alone;
  }

  open_file-IsOrdered :
      (p : Pipeline) (name : Str) (rest lines : List Str)
      → p.input ≡ waits
      → p.queue_of_filename ≡ name ∷ rest
      → files name ≡ some lines
      → Ordered p
      → Ordered (record p { queue_of_filename = rest; input = reads lines })
  open_file-IsOrdered p name rest lines at_top queue found k = record {
    opened = k.opened ++ name ∷ [];
    worked = k.worked;
    opens = All-join (Opens files) k.opened (name ∷ []) k.opens ((lines, found), tt);
    names_kept = λ ne.
        append_assoc k.opened (name ∷ []) (rest ++ p.names)
        ∙ ap (λ t. k.opened ++ (t ++ p.names)) (sym queue)
        ∙ k.names_kept (λ e. cc);
    lines_kept =
        sym (append_assoc k.worked p.question_of_sudoku lines)
        ∙ ap (λ t. t ++ lines)
            (ap (λ t. k.worked ++ t)
                (sym (append-nil p.question_of_sudoku)
                  ∙ ap (λ x. p.question_of_sudoku ++ left_in x) (sym at_top))
              ∙ k.lines_kept)
        ∙ ap (λ t. all_lines files k.opened ++ t)
            (sym (append-nil lines) ∙ ap (λ x. lines_of x ++ []) (sym found))
        ∙ sym (all_lines-append files k.opened (name ∷ []));
    answered = k.answered;
    alone = k.alone;
  }

  fail_to_open-IsOrdered :
      (p : Pipeline) (rest : List Str)
      → p.input ≡ waits
      → Ordered p
      → Ordered (record p { queue_of_filename = rest; input = gives_up })
  fail_to_open-IsOrdered p rest at_top k = record {
    opened = k.opened;
    worked = k.worked;
    opens = k.opens;
    names_kept = λ ne. absurd (ne refl);
    lines_kept =
        ap (λ x. k.worked ++ (p.question_of_sudoku ++ left_in x)) (sym at_top) ∙ k.lines_kept;
    answered = k.answered;
    alone = k.alone;
  }

  push_question-IsOrdered :
      (p : Pipeline) (line : Str) (lines : List Str)
      → p.input ≡ reads (line ∷ lines)
      → Ordered p
      → Ordered
          (record p { input = reads lines; question_of_sudoku = p.question_of_sudoku ++ line ∷ [] })
  push_question-IsOrdered p line lines reading k = record {
    opened = k.opened;
    worked = k.worked;
    opens = k.opens;
    names_kept = λ ne. k.names_kept (λ e. cc);
    lines_kept =
        ap (λ t. k.worked ++ t) (append_assoc p.question_of_sudoku (line ∷ []) lines)
        ∙ ap (λ x. k.worked ++ (p.question_of_sudoku ++ left_in x)) (sym reading)
        ∙ k.lines_kept;
    answered = k.answered;
    alone = k.alone;
  }

  close_file-IsOrdered :
      (p : Pipeline) → p.input ≡ reads [] → Ordered p → Ordered (record p { input = waits })
  close_file-IsOrdered p reading k = record {
    opened = k.opened;
    worked = k.worked;
    opens = k.opens;
    names_kept = λ ne. k.names_kept (λ e. cc);
    lines_kept =
        ap (λ x. k.worked ++ (p.question_of_sudoku ++ left_in x)) (sym reading) ∙ k.lines_kept;
    answered = k.answered;
    alone = k.alone;
  }

  end_input-IsOrdered :
      (p : Pipeline)
      → p.input ≡ waits
      → Ordered p
      → Ordered (record p { input = ends; read_question_done = true })
  end_input-IsOrdered p at_top k = record {
    opened = k.opened;
    worked = k.worked;
    opens = k.opens;
    names_kept = λ ne. k.names_kept (λ e. cc);
    lines_kept =
        ap (λ x. k.worked ++ (p.question_of_sudoku ++ left_in x)) (sym at_top) ∙ k.lines_kept;
    answered = k.answered;
    alone = k.alone;
  }

  take_question-IsOrdered :
      (p : Pipeline) (question answer : Str) (rest : List Str) (raw : Dlx)
      → p.worker ≡ idle
      → p.question_of_sudoku ≡ question ∷ rest
      → solve_line limit raw question ≡ ok (some answer)
      → Ordered p
      → Ordered (record p { question_of_sudoku = rest; worker = holds answer })
  take_question-IsOrdered p question answer rest raw free queue solved k = record {
    opened = k.opened;
    worked = k.worked ++ question ∷ [];
    opens = k.opens;
    names_kept = k.names_kept;
    lines_kept =
        append_assoc k.worked (question ∷ []) (rest ++ left_in p.input)
        ∙ ap (λ t. k.worked ++ (t ++ left_in p.input)) (sym queue)
        ∙ k.lines_kept;
    answered =
        subst (Answered limit (k.worked ++ question ∷ []))
          (append_assoc p.printed (pending p.printing p.answer_of_sudoku) (answer ∷ []))
          (Answered-snoc limit raw k.worked (p.printed ++ pending p.printing p.answer_of_sudoku)
            question answer
            (subst (Answered limit k.worked)
              (ap (λ w. p.printed ++ (pending p.printing p.answer_of_sudoku ++ in_hand w)) free
                ∙ ap (λ t. p.printed ++ t) (append-nil (pending p.printing p.answer_of_sudoku)))
              k.answered)
            solved);
    alone = λ a e. cc;
  }

  begin_push-IsOrdered :
      (p : Pipeline) (answer : Str)
      → p.worker ≡ holds answer
      → p.printing ≡ false
      → Ordered p
      → Ordered (record p { worker = pushes answer })
  begin_push-IsOrdered p answer full quiet k = record {
    opened = k.opened;
    worked = k.worked;
    opens = k.opens;
    names_kept = k.names_kept;
    lines_kept = k.lines_kept;
    answered =
        subst
          (λ w.
            Answered limit k.worked
              (p.printed ++ (pending p.printing p.answer_of_sudoku ++ in_hand w)))
          full k.answered;
    alone = λ a e. quiet;
  }

  end_push-IsOrdered :
      (p : Pipeline) (answer : Str)
      → p.worker ≡ pushes answer
      → Ordered p
      → Ordered (record p { worker = idle; answer_of_sudoku = p.answer_of_sudoku ++ answer ∷ [] })
  end_push-IsOrdered p answer pushing k = record {
    opened = k.opened;
    worked = k.worked;
    opens = k.opens;
    names_kept = k.names_kept;
    lines_kept = k.lines_kept;
    answered =
        subst (Answered limit k.worked)
          (ap (λ w. p.printed ++ (pending p.printing p.answer_of_sudoku ++ in_hand w)) pushing
            ∙ ap (λ b. p.printed ++ (pending b p.answer_of_sudoku ++ answer ∷ []))
                (k.alone answer pushing)
            ∙ ap (λ t. p.printed ++ t) (sym (append-nil (p.answer_of_sudoku ++ answer ∷ [])))
            ∙ ap (λ b. p.printed ++ (pending b (p.answer_of_sudoku ++ answer ∷ []) ++ []))
                (sym (k.alone answer pushing)))
          k.answered;
    alone = λ a e. cc;
  }

  begin_print-IsOrdered :
      (p : Pipeline) (answer : Str) (rest : List Str)
      → p.printing ≡ false
      → ((other : Str) → p.worker ≢ pushes other)
      → p.answer_of_sudoku ≡ answer ∷ rest
      → Ordered p
      → Ordered (record p { printing = true; printed = p.printed ++ answer ∷ [] })
  begin_print-IsOrdered p answer rest quiet free queue k = record {
    opened = k.opened;
    worked = k.worked;
    opens = k.opens;
    names_kept = k.names_kept;
    lines_kept = k.lines_kept;
    answered =
        subst (Answered limit k.worked)
          (ap (λ b. p.printed ++ (pending b p.answer_of_sudoku ++ in_hand p.worker)) quiet
            ∙ ap (λ t. p.printed ++ (t ++ in_hand p.worker)) queue
            ∙ sym (append_assoc p.printed (answer ∷ []) (rest ++ in_hand p.worker))
            ∙ ap (λ t. (p.printed ++ answer ∷ []) ++ (pending true t ++ in_hand p.worker))
                (sym queue))
          k.answered;
    alone = λ a e. absurd (free a e);
  }

  end_print-IsOrdered :
      (p : Pipeline) (answer : Str) (rest : List Str)
      → p.printing ≡ true
      → p.answer_of_sudoku ≡ answer ∷ rest
      → Ordered p
      → Ordered (record p { printing = false; answer_of_sudoku = rest })
  end_print-IsOrdered p answer rest busy queue k = record {
    opened = k.opened;
    worked = k.worked;
    opens = k.opens;
    names_kept = k.names_kept;
    lines_kept = k.lines_kept;
    answered =
        subst (Answered limit k.worked)
          (ap (λ b. p.printed ++ (pending b p.answer_of_sudoku ++ in_hand p.worker)) busy
            ∙ ap (λ t. p.printed ++ (pending true t ++ in_hand p.worker)) queue)
          k.answered;
    alone = λ a e. refl;
  }

  flag-IsOrdered :
      (p : Pipeline) (read worked ended : Bool)
      → Ordered p
      → Ordered (record p { read_file_done = read; work_done = worked; output_ended = ended })
  flag-IsOrdered p read worked ended k = record {
    opened = k.opened;
    worked = k.worked;
    opens = k.opens;
    names_kept = k.names_kept;
    lines_kept = k.lines_kept;
    answered = k.answered;
    alone = k.alone;
  }

  step-IsOrdered : (p q : Pipeline) → Step files limit p q → q.raced ≡ false → Ordered p → Ordered q
  step-IsOrdered p q (push_name name ns left free e) same k =
      subst Ordered (sym e) (push_name-IsOrdered p name ns left k)
  step-IsOrdered p q (end_names left e) same k =
      subst Ordered (sym e) (flag-IsOrdered p true p.work_done p.output_ended k)
  step-IsOrdered p q (open_file name rest lines at_top queue found e) same k =
      subst Ordered (sym e) (open_file-IsOrdered p name rest lines at_top queue found k)
  step-IsOrdered p q (fail_to_open name rest at_top queue missing e) same k =
      subst Ordered (sym e) (fail_to_open-IsOrdered p rest at_top k)
  step-IsOrdered p q (push_question line lines reading free e) same k =
      subst Ordered (sym e) (push_question-IsOrdered p line lines reading k)
  step-IsOrdered p q (close_file reading e) same k =
      subst Ordered (sym e) (close_file-IsOrdered p reading k)
  step-IsOrdered p q (end_input at_top queue done e) same k =
      subst Ordered (sym e) (end_input-IsOrdered p at_top k)
  step-IsOrdered p q (take_question question answer rest raw free working queue solved e) same k =
      subst Ordered (sym e) (take_question-IsOrdered p question answer rest raw free queue solved k)
  step-IsOrdered p q (begin_push answer full quiet e) same k =
      subst Ordered (sym e) (begin_push-IsOrdered p answer full quiet k)
  step-IsOrdered p q (end_push answer pushing e) same k =
      subst Ordered (sym e) (end_push-IsOrdered p answer pushing k)
  step-IsOrdered p q (end_work free queue done e) same k =
      subst Ordered (sym e) (flag-IsOrdered p p.read_file_done true p.output_ended k)
  step-IsOrdered p q (begin_print answer rest running quiet free queue e) same k =
      subst Ordered (sym e) (begin_print-IsOrdered p answer rest quiet free queue k)
  step-IsOrdered p q (end_print answer rest busy queue e) same k =
      subst Ordered (sym e) (end_print-IsOrdered p answer rest busy queue k)
  step-IsOrdered p q (end_output quiet queue done e) same k =
      subst Ordered (sym e) (flag-IsOrdered p p.read_file_done p.work_done true k)
  step-IsOrdered p q (push_races answer full busy e) same k =
      absurd (false≢true (sym same ∙ ap (λ (x : Pipeline). x.raced) e))
  step-IsOrdered p q (look_races answer pushing running e) same k =
      absurd (false≢true (sym same ∙ ap (λ (x : Pipeline). x.raced) e))
  step-IsOrdered p q (anything before behind) same k = absurd (false≢true (sym same ∙ behind))

  start-IsOrdered : Ordered (start names)
  start-IsOrdered = record {
    opened = [];
    worked = [];
    opens = tt;
    names_kept = λ e. refl;
    lines_kept = refl;
    answered = tt;
    alone = λ a e. cc;
  }

  -- A race is not undone.
  pub no_race_before : (p q : Pipeline) → Step files limit p q → q.raced ≡ false → p.raced ≡ false
  no_race_before p q (push_name name ns left free e) same =
      sym (ap (λ (x : Pipeline). x.raced) e) ∙ same
  no_race_before p q (end_names left e) same = sym (ap (λ (x : Pipeline). x.raced) e) ∙ same
  no_race_before p q (open_file name rest lines at_top queue found e) same =
      sym (ap (λ (x : Pipeline). x.raced) e) ∙ same
  no_race_before p q (fail_to_open name rest at_top queue missing e) same =
      sym (ap (λ (x : Pipeline). x.raced) e) ∙ same
  no_race_before p q (push_question line lines reading free e) same =
      sym (ap (λ (x : Pipeline). x.raced) e) ∙ same
  no_race_before p q (close_file reading e) same = sym (ap (λ (x : Pipeline). x.raced) e) ∙ same
  no_race_before p q (end_input at_top queue done e) same =
      sym (ap (λ (x : Pipeline). x.raced) e) ∙ same
  no_race_before p q (take_question question answer rest raw free working queue solved e) same =
      sym (ap (λ (x : Pipeline). x.raced) e) ∙ same
  no_race_before p q (begin_push answer full quiet e) same =
      sym (ap (λ (x : Pipeline). x.raced) e) ∙ same
  no_race_before p q (end_push answer pushing e) same =
      sym (ap (λ (x : Pipeline). x.raced) e) ∙ same
  no_race_before p q (end_work free queue done e) same =
      sym (ap (λ (x : Pipeline). x.raced) e) ∙ same
  no_race_before p q (begin_print answer rest running quiet free queue e) same =
      sym (ap (λ (x : Pipeline). x.raced) e) ∙ same
  no_race_before p q (end_print answer rest busy queue e) same =
      sym (ap (λ (x : Pipeline). x.raced) e) ∙ same
  no_race_before p q (end_output quiet queue done e) same =
      sym (ap (λ (x : Pipeline). x.raced) e) ∙ same
  no_race_before p q (push_races answer full busy e) same =
      absurd (false≢true (sym same ∙ ap (λ (x : Pipeline). x.raced) e))
  no_race_before p q (look_races answer pushing running e) same =
      absurd (false≢true (sym same ∙ ap (λ (x : Pipeline). x.raced) e))
  no_race_before p q (anything before behind) same = absurd (false≢true (sym same ∙ behind))

  pub Reach-IsOrdered : (p : Pipeline) → Reach files limit names p → p.raced ≡ false → Ordered p
  Reach-IsOrdered p here same = start-IsOrdered
  Reach-IsOrdered p (next {p = r} reach step) same =
      step-IsOrdered r p step same (Reach-IsOrdered r reach (no_race_before r p step same))
