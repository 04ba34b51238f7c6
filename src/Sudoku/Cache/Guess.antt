-- ===== src/Sudoku/Cache/Guess.antt =====
-- A guess of sudoku_min_arity_cache.cc beside one of sudoku_min_arity.cc: the same answer in the same
-- state.
use cloud_computing_lab.Base.{
  subst, ℕ, zero, suc, ◌+◌, ◌≤◌, ◌≢◌, ◌≡◌, refl, sym, ap, ◌∙◌, Bool, true, false, not, List, [],
  Result, ok, arith, get_or, length, Bool-cases, inl, inr, ok-injective,
}
use cloud_computing_lab.Sudoku.Neighbors.{assert}
use cloud_computing_lab.Sudoku.Table.{IsBoardTable}
use cloud_computing_lab.Sudoku.Backtrack.{IsTable, at-get_or}
use cloud_computing_lab.Sudoku.Solver.{State, Table, at, put, try_guess, guess_loop}
use cloud_computing_lab.Sudoku.Ready.{
  IsReady, IsDecided, IsReady-on, next_empty, taken-IsBack, try_found, try_failed,
}
use cloud_computing_lab.Sudoku.Solutions.{at-set_self}
use cloud_computing_lab.Sudoku.Decide.{Decides, put-IsReady, loop_free, loop_taken, loop_end}
use cloud_computing_lab.Sudoku.Cache.{
  Cache, Marks, is_occupied, hold, unhold, try_cached, guess_cached,
}
use cloud_computing_lab.Sudoku.Cache.Flags.{occ, is_occupied_lem}
use cloud_computing_lab.Sudoku.Cache.Marking.{AreMarks}
use cloud_computing_lab.Sudoku.Cache.Held.{held, available_lem}
use cloud_computing_lab.Sudoku.Cache.Hold.{
  IsCached, AreSame, IsHold, hold_lem, unhold_lem, same-IsCached, hold-IsCached,
}

-- The result of the cached solver beside that of the other: the same answer in the same state, and if
-- it is false, the marks as they were.
abbrev pub IsSame : Cache → Bool × State → Result (Bool × Cache) → Type 0
IsSame c x r =
    (m : Marks) × (r ≡ ok (x.0, record { state = x.1; marks = m }))
    × (x.0 ≡ false → AreSame m c.marks)

same_self : {m : Marks} → AreMarks m → AreSame m m
same_self h = record { marks = h; flags = λ x v. refl; counts = λ x. refl }

AreSame-trans : {m m1 m2 : Marks} → AreSame m m1 → AreSame m1 m2 → AreSame m m2
AreSame-trans a b = record {
  marks = a.marks;
  flags = λ x v. a.flags x v ∙ b.flags x v;
  counts = λ x. a.counts x ∙ b.counts x;
}

try_cached_found :
    (table : Table) (again next : Cache → Result (Bool × Cache)) (cell g : ℕ) (c c1 c2 : Cache)
    (modified : List ℕ)
    → at c.state.board cell ≡ ok 0
    → hold table cell g c ≡ ok (c1, modified)
    → again c1 ≡ ok (true, c2)
    → try_cached table again next cell g c ≡ ok (true, c2)
unfolding try_cached assert
try_cached_found table again next cell g c c1 c2 modified empty kept ran =
    rw (empty, kept, ran) refl

try_cached_failed :
    (table : Table) (again next : Cache → Result (Bool × Cache)) (cell g : ℕ) (c c1 c2 c3 : Cache)
    (modified : List ℕ)
    → at c.state.board cell ≡ ok 0
    → hold table cell g c ≡ ok (c1, modified)
    → again c1 ≡ ok (false, c2)
    → unhold cell g modified c2 ≡ ok c3
    → try_cached table again next cell g c ≡ next c3
unfolding try_cached assert
try_cached_failed table again next cell g c c1 c2 c3 modified empty kept ran back =
    rw (empty, kept, ran, back) refl

module _ (table : Table) (t : IsBoardTable table) (both : IsTable table) where
  abbrev pub Simulates :
      ℕ → ℕ → (State → Result (Bool × State)) → (Cache → Result (Bool × Cache)) → Type 0
  Simulates spaces k call cached =
      (c : Cache)
      → IsReady table k c.state
      → IsCached table c.state.board c.marks
      → length c.state.spaces ≡ spaces
      → (x : Bool × State) → call c.state ≡ ok x
      → IsSame c x (cached c)

  abbrev LoopSimulates :
      ℕ → ℕ → ℕ → (State → Result (Bool × State)) → (Cache → Result (Bool × Cache)) → Type 0
  LoopSimulates spaces k cell call cached =
      (c : Cache)
      → IsReady table k c.state
      → IsCached table c.state.board c.marks
      → length c.state.spaces ≡ spaces
      → at c.state.spaces k ≡ ok cell
      → (x : Bool × State) → call c.state ≡ ok x
      → IsSame c x (cached c)

  -- A guess whose search ended with `(done, s1)`.
  pub guess_ended :
      (again next : State → Result (Bool × State)) (again' next' : Cache → Result (Bool × Cache))
      (spaces k cell g : ℕ) (c : Cache) (m1 m2 : Marks) (modified : List ℕ) (done : Bool)
      (s1 : State)
      → (1 ≤ g) × (g ≤ 9)
      → LoopSimulates spaces k cell next next'
      → IsReady table k c.state
      → IsCached table c.state.board c.marks
      → length c.state.spaces ≡ spaces
      → at c.state.spaces k ≡ ok cell
      → occ c.marks.occupied cell g ≡ false
      → hold table cell g c ≡ ok (record { state = put c.state cell g; marks = m1 }, modified)
      → IsHold (get_or table cell []) cell g c.marks m1 modified
      → again (put c.state cell g) ≡ ok (done, s1)
      → IsDecided table (k + 1) (put c.state cell g) (done, s1)
      → again' (record { state = put c.state cell g; marks = m1 })
        ≡ ok (done, record { state = s1; marks = m2 })
      → (done ≡ false → AreSame m2 m1)
      → (x : Bool × State) → try_guess again next cell g c.state ≡ ok x
      → IsSame c x (try_cached table again' next' cell g c)
  guess_ended again next again' next' spaces k cell g c m1 m2 modified true s1 (low, high) later r h
        n there free kept held ran d ran' same x tried =
      let (empty, inside) = next_empty table k c.state cell r there in
      let found = ok-injective (sym (try_found again next cell g c.state s1 empty ran) ∙ tried) in
      subst (λ y. IsSame c y (try_cached table again' next' cell g c)) found
        (m2, try_cached_found table again' next' cell g c _ _ modified empty kept ran', λ e. cc)
  guess_ended again next again' next' spaces k cell g c m1 m2 modified false s1 (low, high) later r
        h n there free kept held ran d ran' same x tried =
      let (empty, inside) = next_empty table k c.state cell r there in
      let nz : g ≢ 0 = λ e. omega (arith, e, low) in
      let back = taken-IsBack table k cell g c.state s1 there empty nz d in
      let now : at s1.board cell ≡ ok g =
        ap (λ b. at b cell) (d.same_board refl) ∙ at-set_self c.state.board cell g 0 empty in
      let row = t.row cell inside in
      let (m3, undone, restored) =
        unhold_lem (get_or table cell []) cell g c.marks m1 m2 modified s1 row.inside inside high
          (both.not_own cell) free now held (same refl) in
      let s2 = put s1 cell 0 in
      let c3 : Cache = record { state = s2; marks = m3 } in
      let cached =
        subst (λ b. IsCached table b m3) (sym back.board)
          (same-IsCached table c.state.board m3 c.marks restored h) in
      let rest = sym (try_failed again next cell g c.state s1 empty ran now) ∙ tried in
      let (m4, ended, restored_later) =
        later c3 (IsReady-on table k c.state s2 back.board back.covers r) cached (back.number ∙ n)
          back.next x rest in
      (
        m4,
        try_cached_failed table again' next' cell g c _ _ c3 modified empty kept ran' undone
            ∙ ended,
        λ e. AreSame-trans (restored_later e) restored,
      )

  guess_loop_taken :
      (again : Cache → Result (Bool × Cache)) (cell left g : ℕ) (c : Cache)
      → is_occupied c.marks.occupied cell g ≡ ok true
      → guess_cached table again cell (suc left) g c ≡ guess_cached table again cell left (g + 1) c
  unfolding guess_cached
  guess_loop_taken again cell left g c e = rw e refl

  guess_loop_free :
      (again : Cache → Result (Bool × Cache)) (cell left g : ℕ) (c : Cache)
      → is_occupied c.marks.occupied cell g ≡ ok false
      → guess_cached table again cell (suc left) g c
        ≡ try_cached table again (guess_cached table again cell left (g + 1)) cell g c
  unfolding guess_cached
  guess_loop_free again cell left g c e = rw e refl

  guess_loop_none :
      (again : Cache → Result (Bool × Cache)) (cell g : ℕ) (c : Cache)
      → guess_cached table again cell zero g c ≡ ok (false, c)
  unfolding guess_cached
  guess_loop_none again cell g c = refl

  pub guess_loop-Simulates :
      (again : State → Result (Bool × State)) (again' : Cache → Result (Bool × Cache))
      (spaces k cell left g : ℕ)
      → left + g ≡ 10
      → 1 ≤ g
      → Decides table t both spaces (k + 1) again
      → Simulates spaces (k + 1) again again'
      → LoopSimulates spaces k cell
          (guess_loop table again cell left g)
          (guess_cached table again' cell left g)
  guess_loop-Simulates again again' spaces k cell zero g total low decides sim c r h n there x ran =
      subst (λ y. IsSame c y (guess_cached table again' cell zero g c))
        (ok-injective (sym (loop_end table t both again cell g c.state) ∙ ran))
        (c.marks, guess_loop_none again' cell g c, λ e. same_self h.marks)
  guess_loop-Simulates again again' spaces k cell (suc left) g total low decides sim c r h n there x
        ran =
      let (empty, inside) = next_empty table k c.state cell r there in
      let later =
        guess_loop-Simulates again again' spaces k cell left (g + 1) (omega (arith, total))
          (omega (arith, low)) decides sim in
      let high : g ≤ 9 = omega (arith, total) in
      let (blank, within) = at-get_or c.state.board cell 0 1 empty in
      let flag = h.flags cell g blank (low, high) in
      let looked =
        is_occupied_lem c.marks.occupied cell g h.marks.shape inside (omega (arith, high)) in
      let known = available_lem table c.state.board g cell t r.board inside in
      elim (Bool-cases (held c.state.board g (get_or table cell []))) [
        | inl taken ↦
            let (m, ended, restored) = later c r h n there x (
              sym (
                loop_taken table t both again cell left g c.state
                  (known ∙ ap (λ b. ok (not b)) taken))
              ∙ ran) in
            (
              m,
              guess_loop_taken again' cell left g c (looked ∙ ap ok (flag ∙ taken)) ∙ ended,
              restored,
            )
        | inr free ↦
            let fits = known ∙ ap (λ b. ok (not b)) free in
            let (m1, modified, kept, held_now) = hold_lem table cell g c t h.marks inside high in
            let ready = put-IsReady table t both k cell g c.state r there fits (low, high) in
            let ((done, s1), ended, d, none_with) = decides (put c.state cell g) ready n in
            let cells = r.board.cells in
            let (zero_here, within0) = at-get_or c.state.board cell 0 0 empty in
            let cached =
              hold-IsCached table t both c.state.board cell g cells inside zero_here low high
                c.marks m1 modified held_now h in
            let (m2, ended', same) =
              sim (record { state = put c.state cell g; marks = m1 }) ready cached n (done, s1)
                ended in
            let (m, result, restored) =
              guess_ended again (guess_loop table again cell left (g + 1)) again'
                (guess_cached table again' cell left (g + 1)) spaces k cell g c m1 m2 modified done
                s1 (low, high) later r h n there (flag ∙ free) kept held_now ended d ended' same x
                (sym (loop_free table t both again cell left g c.state fits) ∙ ran) in
            (
              m,
              guess_loop_free again' cell left g c (looked ∙ ap ok (flag ∙ free)) ∙ result,
              restored,
            )
      ]
