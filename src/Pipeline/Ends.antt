-- ===== src/Pipeline/Ends.antt =====
-- The threads of the pipeline end one behind the other, each with its queue empty.
use cloud_computing_lab.Base.{
  ℕ, ◌≡◌, ◌≢◌, refl, sym, ap, subst, ◌∙◌, true, false, List, [], ◌∷◌, ◌++◌, All, append-nil,
}
use mathlib.Core.Bool.{false≢true}
use cloud_computing_lab.Text.{Str}
use cloud_computing_lab.Pipeline.{
  Input, waits, reads, ends, Worker, idle, pushes, Pipeline, Files, start, Step, push_name,
  end_names, open_file, fail_to_open, push_question, close_file, end_input, take_question,
  begin_push, end_push, end_work, begin_print, end_print, end_output, push_races, look_races,
  anything, Reach, here, next,
}
use cloud_computing_lab.Pipeline.Order.{
  Opens, all_lines, left_in, pending, in_hand, Answered, no_race_before, Reach-IsOrdered,
}

-- What each flag says.
record IsEnding (p : Pipeline) : Type 0 where
  read_all : p.read_file_done ≡ true → p.names ≡ []
  input_all : p.read_question_done ≡ true → p.input ≡ ends
  ends_all : p.input ≡ ends → (p.queue_of_filename ≡ []) × (p.names ≡ [])
  work_all :
      p.work_done ≡ true
      → (p.question_of_sudoku ≡ []) × (p.read_question_done ≡ true) × (p.worker ≡ idle)
  output_all :
      p.output_ended ≡ true
      → (p.answer_of_sudoku ≡ []) × (p.work_done ≡ true) × (p.printing ≡ false)

start-IsEnding : (names : List Str) → IsEnding (start names)
start-IsEnding names = record {
  read_all = λ e. cc;
  input_all = λ e. cc;
  ends_all = λ e. cc;
  work_all = λ e. cc;
  output_all = λ e. cc;
}

-- While `input_func` runs, its flag is not set, and neither is that of the worker.
running : (p : Pipeline) (at : Input) → IsEnding p → p.input ≡ at → at ≢ ends → p.work_done ≢ true
running p at k there ne done = ne (sym there ∙ k.input_all (k.work_all done).1)

-- A worker with an answer has not ended, and neither has the output.
busy_worker :
    (p : Pipeline) (w : Worker) → IsEnding p → p.worker ≡ w → w ≢ idle → p.output_ended ≢ true
busy_worker p w k at ne ended = ne (sym at ∙ (k.work_all (k.output_all ended).1).2)

module _ (files : Files) (limit : ℕ) where
  step-IsEnding :
      (p q : Pipeline) → Step files limit p q → q.raced ≡ false → IsEnding p → IsEnding q
  step-IsEnding p q (push_name name ns left free e) same k = subst IsEnding (sym e) (record {
    read_all = λ done. let gone = k.read_all done in cc;
    input_all = k.input_all;
    ends_all = λ ended. let gone = (k.ends_all ended).1 in cc;
    work_all = k.work_all;
    output_all = k.output_all;
  })
  step-IsEnding p q (end_names left e) same k = subst IsEnding (sym e) (record {
    read_all = λ done. left;
    input_all = k.input_all;
    ends_all = k.ends_all;
    work_all = k.work_all;
    output_all = k.output_all;
  })
  step-IsEnding p q (open_file name rest lines at_top queue found e) same k =
      subst IsEnding (sym e) (record {
        read_all = k.read_all;
        input_all = λ done. let ended = k.input_all done in cc;
        ends_all = λ ended. cc;
        work_all = k.work_all;
        output_all = k.output_all;
      })
  step-IsEnding p q (fail_to_open name rest at_top queue missing e) same k =
      subst IsEnding (sym e) (record {
        read_all = k.read_all;
        input_all = λ done. let ended = k.input_all done in cc;
        ends_all = λ ended. cc;
        work_all = k.work_all;
        output_all = k.output_all;
      })
  step-IsEnding p q (push_question line lines reading free e) same k =
      subst IsEnding (sym e) (record {
        read_all = k.read_all;
        input_all = λ done. let ended = k.input_all done in cc;
        ends_all = λ ended. cc;
        work_all = λ done. absurd (running p (reads (line ∷ lines)) k reading (λ x. cc) done);
        output_all = k.output_all;
      })
  step-IsEnding p q (close_file reading e) same k = subst IsEnding (sym e) (record {
    read_all = k.read_all;
    input_all = λ done. let ended = k.input_all done in cc;
    ends_all = λ ended. cc;
    work_all = k.work_all;
    output_all = k.output_all;
  })
  step-IsEnding p q (end_input at_top queue done e) same k = subst IsEnding (sym e) (record {
    read_all = k.read_all;
    input_all = λ d. refl;
    ends_all = λ ended. (queue, k.read_all done);
    work_all = λ d. absurd (running p waits k at_top (λ x. cc) d);
    output_all = k.output_all;
  })
  step-IsEnding p q (take_question question answer rest raw free working queue solved e) same k =
      subst IsEnding (sym e) (record {
        read_all = k.read_all;
        input_all = k.input_all;
        ends_all = k.ends_all;
        work_all = λ done. cc;
        output_all = k.output_all;
      })
  step-IsEnding p q (begin_push answer full quiet e) same k = subst IsEnding (sym e) (record {
    read_all = k.read_all;
    input_all = k.input_all;
    ends_all = k.ends_all;
    work_all = λ done. let free = (k.work_all done).2 in cc;
    output_all = k.output_all;
  })
  step-IsEnding p q (end_push answer pushing e) same k = subst IsEnding (sym e) (record {
    read_all = k.read_all;
    input_all = k.input_all;
    ends_all = k.ends_all;
    work_all = λ done. ((k.work_all done).0, (k.work_all done).1, refl);
    output_all = λ ended. absurd (busy_worker p (pushes answer) k pushing (λ x. cc) ended);
  })
  step-IsEnding p q (end_work free queue done e) same k = subst IsEnding (sym e) (record {
    read_all = k.read_all;
    input_all = k.input_all;
    ends_all = k.ends_all;
    work_all = λ d. (queue, done, free);
    output_all = λ ended. ((k.output_all ended).0, refl, (k.output_all ended).2);
  })
  step-IsEnding p q (begin_print answer rest going quiet free queue e) same k =
      subst IsEnding (sym e) (record {
        read_all = k.read_all;
        input_all = k.input_all;
        ends_all = k.ends_all;
        work_all = k.work_all;
        output_all = λ ended. cc;
      })
  step-IsEnding p q (end_print answer rest busy queue e) same k = subst IsEnding (sym e) (record {
    read_all = k.read_all;
    input_all = k.input_all;
    ends_all = k.ends_all;
    work_all = k.work_all;
    output_all = λ ended. let quiet = (k.output_all ended).2 in cc;
  })
  step-IsEnding p q (end_output quiet queue done e) same k = subst IsEnding (sym e) (record {
    read_all = k.read_all;
    input_all = k.input_all;
    ends_all = k.ends_all;
    work_all = k.work_all;
    output_all = λ ended. (queue, done, quiet);
  })
  step-IsEnding p q (push_races answer full busy e) same k =
      absurd (false≢true (sym same ∙ ap (λ (x : Pipeline). x.raced) e))
  step-IsEnding p q (look_races answer pushing going e) same k =
      absurd (false≢true (sym same ∙ ap (λ (x : Pipeline). x.raced) e))
  step-IsEnding p q (anything before behind) same k = absurd (false≢true (sym same ∙ behind))

  Reach-IsEnding :
      (names : List Str) (p : Pipeline) → Reach files limit names p → p.raced ≡ false → IsEnding p
  Reach-IsEnding names p here same = start-IsEnding names
  Reach-IsEnding names p (next {p = r} reach step) same =
      step-IsEnding r p step same
        (Reach-IsEnding names r reach (no_race_before files limit names r p step same))

-- In every state that the threads reach from the file names, whatever the order of their steps, in
-- which no data race has happened: if the thread of the output has ended, then every file could be
-- opened, and what was printed is one answer for each line of the files, each an answer of the solver
-- to its line, from some memory of the solver, in the order of the lines.
pub output_in_order :
    (files : Files) (limit : ℕ) (names : List Str) (p : Pipeline)
    → Reach files limit names p
    → p.output_ended ≡ true
    → p.raced ≡ false
    → All (Opens files) names × Answered limit (all_lines files names) p.printed
output_in_order files limit names p reach ended same =
    let k = Reach-IsEnding files limit names p reach same in
    let o = Reach-IsOrdered files limit names p reach same in
    let (no_answer, worked, quiet) = k.output_all ended in
    let (no_question, read, free) = k.work_all worked in
    let at_end = k.input_all read in
    let (no_file, no_name) = k.ends_all at_end in
    let all_opened : o.opened ≡ names =
      sym (append-nil o.opened)
      ∙ ap (λ t. o.opened ++ t)
          (ap (λ t. [] ++ t) (sym no_name) ∙ ap (λ t. t ++ p.names) (sym no_file))
      ∙ o.names_kept (λ e. cc) in
    let all_worked : o.worked ≡ all_lines files names =
      sym (append-nil o.worked)
      ∙ ap (λ x. o.worked ++ left_in x) (sym at_end)
      ∙ ap (λ t. o.worked ++ (t ++ left_in p.input)) (sym no_question)
      ∙ o.lines_kept
      ∙ ap (all_lines files) all_opened in
    let all_printed : p.printed ++ (pending p.printing p.answer_of_sudoku ++ in_hand p.worker)
        ≡ p.printed =
      ap (λ b. p.printed ++ (pending b p.answer_of_sudoku ++ in_hand p.worker)) quiet
      ∙ ap (λ t. p.printed ++ (t ++ in_hand p.worker)) no_answer
      ∙ ap (λ w. p.printed ++ in_hand w) free
      ∙ append-nil p.printed in
    (
      subst (All (Opens files)) all_opened o.opens,
      subst (λ qs. Answered limit qs p.printed) all_worked
          (subst (Answered limit o.worked) all_printed o.answered),
    )
