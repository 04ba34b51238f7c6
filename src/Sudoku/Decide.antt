-- ===== src/Sudoku/Decide.antt =====
-- The back-tracking of sudoku_basic.cc and sudoku_min_arity.cc ends, and decides whether a board has
-- a solution.
use cloud_computing_lab.Base.{
  subst, ℕ, zero, suc, ◌+◌, ◌<◌, ◌≤◌, ◌≢◌, ◌≡◌, refl, sym, ap, ◌∙◌, Bool, true, false, List, Result,
  ok, arith, ◌==◌, ==_iff, set, length, Bool-cases, inl, inr, ok-injective,
}
use cloud_computing_lab.Sudoku.Table.{IsBoardTable}
use cloud_computing_lab.Sudoku.Solver.{State, Table, at, put, available, try_guess, guess_loop}
use cloud_computing_lab.Sudoku.Backtrack.{IsTable, put-Proper}
use cloud_computing_lab.Sudoku.Solutions.{
  IsSolution, set-IsBoard, at-set_self, available-total, not_available, put-IsSolution,
  unput-IsSolution,
}
use cloud_computing_lab.Sudoku.Ready.{
  IsReady, IsDecided, NoSolution, carry, IsReady-on, next_empty, Covers-put, taken-IsBack,
  try_found, try_failed,
}

-- No solution has a digit from `guess` on in the cell.
abbrev pub NoneFrom : Table → List ℕ → ℕ → ℕ → Type 0
NoneFrom table board cell guess =
    (solution : List ℕ) (d : ℕ)
    → IsSolution table board solution
    → at solution cell ≡ ok d
    → d < guess

none_left :
    (table : Table) (board : List ℕ) (cell : ℕ)
    → at board cell ≡ ok 0
    → NoneFrom table board cell 10
none_left table board cell empty solution d sol there =
    let (v, ev, low, high) = sol.filled cell empty in
    let same = ok-injective (sym there ∙ ev) in omega (arith, same, high)

none_at :
    (table : Table) (board : List ℕ) (cell guess : ℕ)
    → ((solution : List ℕ) → IsSolution table board solution → at solution cell ≢ ok guess)
    → NoneFrom table board cell (guess + 1)
    → NoneFrom table board cell guess
none_at table board cell guess not_this later solution d sol there =
    let below_next = later solution d sol there in
    elim (Bool-cases (d == guess)) [
      | inl same ↦ absurd (not_this solution sol (there ∙ ap ok ((==_iff d guess).0 same)))
      | inr differ ↦ ground (arith, below_next, differ)
    ]

module _ (table : Table) (t : IsBoardTable table) (both : IsTable table) where
  -- A call that decides, with the spaces from `k` on.
  abbrev pub Decides : ℕ → ℕ → (State → Result (Bool × State)) → Type 0
  Decides spaces k call =
      (s : State)
      → IsReady table k s
      → length s.spaces ≡ spaces
      → (x : Bool × State) × (call s ≡ ok x)
        × IsDecided table k s x
        × (x.0 ≡ false → NoSolution table s.board)

  abbrev pub LoopDecides : ℕ → ℕ → ℕ → ℕ → (State → Result (Bool × State)) → Type 0
  LoopDecides spaces k cell guess call =
      (s : State)
      → IsReady table k s
      → length s.spaces ≡ spaces
      → at s.spaces k ≡ ok cell
      → (x : Bool × State) × (call s ≡ ok x)
        × IsDecided table k s x
        × (x.0 ≡ false → NoneFrom table s.board cell guess)

  pub put-IsReady :
      (k cell g : ℕ) (s : State)
      → IsReady table k s
      → at s.spaces k ≡ ok cell
      → available table s.board g cell ≡ ok true
      → (1 ≤ g) × (g ≤ 9)
      → IsReady table (k + 1) (put s cell g)
  put-IsReady k cell g s r h free (low, high) =
      let (empty, inside) = next_empty table k s cell r h in
      let cells = r.board.cells in
      record {
        board = set-IsBoard s.board cell g 0 empty high r.board;
        proper = put-Proper table both s.board cell g r.proper free (omega (arith, inside, cells));
        covers = Covers-put s.spaces s.board k cell g h empty (omega (arith, low)) r.covers;
      }

  -- A guess that is available, and the ones behind it.
  guess-Decides :
      (again next : State → Result (Bool × State)) (spaces k cell g : ℕ)
      → (1 ≤ g) × (g ≤ 9)
      → Decides spaces (k + 1) again
      → LoopDecides spaces k cell (g + 1) next
      → (s : State) → IsReady table k s
      → length s.spaces ≡ spaces
      → at s.spaces k ≡ ok cell
      → available table s.board g cell ≡ ok true
      → (x : Bool × State) × (try_guess again next cell g s ≡ ok x)
        × IsDecided table k s x
        × (x.0 ≡ false → NoneFrom table s.board cell g)
  guess-Decides again next spaces k cell g (low, high) decides later s r n h free =
      let (empty, inside) = next_empty table k s cell r h in
      let ((done, s1), ran, d, none_with) =
        decides (put s cell g) (put-IsReady k cell g s r h free (low, high)) n in
      after done s1 empty ran d none_with
    where
      after :
          (done : Bool) (s1 : State)
          → at s.board cell ≡ ok 0
          → again (put s cell g) ≡ ok (done, s1)
          → IsDecided table (k + 1) (put s cell g) (done, s1)
          → (done ≡ false → NoSolution table (set s.board cell g))
          → (x : Bool × State) × (try_guess again next cell g s ≡ ok x)
            × IsDecided table k s x
            × (x.0 ≡ false → NoneFrom table s.board cell g)
      after true s1 empty ran d none_with = (
        (true, s1),
        try_found again next cell g s s1 empty ran,
        record {
          found =
              λ e. unput-IsSolution table s.board s1.board cell g empty (low, high) (d.found refl);
          same_board = λ e. cc;
          same_spaces = λ e. cc;
          same_before = λ e. cc;
        },
        λ e. cc,
      )
      after false s1 empty ran d none_with =
          let nz : g ≢ 0 = λ e. omega (arith, e, low) in
          let back = taken-IsBack table k cell g s s1 h empty nz d in
          let now : at s1.board cell ≡ ok g =
            ap (λ b. at b cell) (d.same_board refl) ∙ at-set_self s.board cell g 0 empty in
          let s2 = put s1 cell 0 in
          let (x, rest, dx, none_later) =
            later s2 (IsReady-on table k s s2 back.board back.covers r) (back.number ∙ n)
              back.next in
          (
            x,
            try_failed again next cell g s s1 empty ran now ∙ rest,
            carry table k s s2 x back.board back.number back.before dx,
            λ e.
                none_at table s.board cell g
                  (λ solution sol there.
                    none_with refl solution
                      (put-IsSolution table s.board solution cell g empty sol there))
                  (subst (λ b. NoneFrom table b cell (g + 1)) back.board (none_later e)),
          )

  pub loop_free :
      (again : State → Result (Bool × State)) (cell left g : ℕ) (s : State)
      → available table s.board g cell ≡ ok true
      → guess_loop table again cell (suc left) g s
        ≡ try_guess again (guess_loop table again cell left (g + 1)) cell g s
  unfolding guess_loop
  loop_free again cell left g s e = rw e refl

  pub loop_taken :
      (again : State → Result (Bool × State)) (cell left g : ℕ) (s : State)
      → available table s.board g cell ≡ ok false
      → guess_loop table again cell (suc left) g s ≡ guess_loop table again cell left (g + 1) s
  unfolding guess_loop
  loop_taken again cell left g s e = rw e refl

  pub loop_end :
      (again : State → Result (Bool × State)) (cell g : ℕ) (s : State)
      → guess_loop table again cell zero g s ≡ ok (false, s)
  unfolding guess_loop
  loop_end again cell g s = refl

  pub guess_loop-Decides :
      (again : State → Result (Bool × State)) (spaces k cell left g : ℕ)
      → left + g ≡ 10
      → 1 ≤ g
      → Decides spaces (k + 1) again
      → LoopDecides spaces k cell g (guess_loop table again cell left g)
  guess_loop-Decides again spaces k cell zero g total low decides s r n h =
      let (empty, inside) = next_empty table k s cell r h in
      (
        (false, s),
        loop_end again cell g s,
        record {
          found = λ e. cc;
          same_board = λ e. refl;
          same_spaces = λ e. (r.covers, refl);
          same_before = λ e i lt. refl;
        },
        λ e.
            let last : 10 ≡ g = omega (arith, total) in
            subst (NoneFrom table s.board cell) last (none_left table s.board cell empty),
      )
  guess_loop-Decides again spaces k cell (suc left) g total low decides s r n h =
      let (empty, inside) = next_empty table k s cell r h in
      let (free, e) = available-total table s.board g cell t r.board inside in
      let later =
        guess_loop-Decides again spaces k cell left (g + 1) (omega (arith, total))
          (omega (arith, low)) decides in
      elim (Bool-cases free) [
        | inl can ↦
            let fits = e ∙ ap ok can in
            let (x, ran, d, none_found) =
              guess-Decides again (guess_loop table again cell left (g + 1)) spaces k cell g
                (low, omega (arith, total)) decides later s r n h fits in
            (x, loop_free again cell left g s fits ∙ ran, d, none_found)
        | inr cannot ↦
            let taken = e ∙ ap ok cannot in
            let (x, ran, d, none_found) = later s r n h in
            (
              x,
              loop_taken again cell left g s taken ∙ ran,
              d,
              λ f.
                  none_at table s.board cell g
                    (λ solution sol.
                      not_available table s.board solution g cell sol (λ z. omega (arith, z, low))
                        taken)
                    (none_found f),
            )
      ]
