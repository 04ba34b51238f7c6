-- ===== src/Dance/Loops.antt =====
-- The loops of `cover` and `uncover` of sudoku_dancing_links.cc over the rings of a column.
use cloud_computing_lab.Base.{
  All-append, All-map, All-reverse, ℕ, zero, suc, ◌<◌, ◌≡◌, ◌≢◌, refl, sym, ap, subst, ◌∙◌, true,
  false, List, [], ◌∷◌, ◌++◌, some, arith, ◌==◌, length, All,
}
use mathlib.Core.List.{reverse}
use cloud_computing_lab.Dance.Links.{Links, hide, hide_row, hide_rows, show_row, show_rows}
use cloud_computing_lab.Dance.Hide.{
  IsUndoing, AreHidable, hide_all, show_all, show_all-hide_all, hide_all-append, AreHidable-append,
  hide_all-down, hide_all-up, hide_all-left, hide_all-right,
}
use cloud_computing_lab.Dance.Rings.{Chain, Row, heads, nodes, nodes_back, Apart, IsRing}

hide_row_end : (rounds : ℕ) (m : Links) (row : ℕ) → hide_row (suc rounds) m row row ≡ some m
unfolding hide_row
hide_row_end rounds m row = let here : (row == row) ≡ true = ground arith in rw (here, hide_row)

hide_row_step :
    (rounds : ℕ) (m : Links) (row j : ℕ)
    → j ≢ row
    → hide_row (suc rounds) m row j ≡ hide_row rounds (hide m j) row ((hide m j).right j)
unfolding hide_row
hide_row_step rounds m row j ne =
    let there : (j == row) ≡ false = ground (arith, ne) in rw (there, hide_row) refl

hide_row_lem :
    (rounds : ℕ) (m : Links) (row s : ℕ) (js : List ℕ)
    → Chain m.right s row js
    → All (λ j. j ≢ row) js
    → length js < rounds
    → hide_row rounds m row (m.right s) ≡ some (hide_all m js)
unfolding hide_row
hide_row_lem zero m row s js chain apart lt = absurd (omega arith)
hide_row_lem (suc rounds) m row s [] chain apart lt = rw chain (hide_row_end rounds m row)
hide_row_lem (suc rounds) m row s (j ∷ js) (next, chain) (ne, apart) lt =
    ap (hide_row (suc rounds) m row) next
    ∙ hide_row_step rounds m row j ne
    ∙ hide_row_lem rounds (hide m j) row j js chain apart (omega (arith, lt))

show_row_end :
    (back : Links → ℕ → Links) (rounds : ℕ) (m : Links) (row : ℕ)
    → show_row back (suc rounds) m row row ≡ some m
unfolding show_row
show_row_end back rounds m row =
    let here : (row == row) ≡ true = ground arith in rw (here, show_row)

show_row_step :
    (back : Links → ℕ → Links) (rounds : ℕ) (m : Links) (row j : ℕ)
    → j ≢ row
    → show_row back (suc rounds) m row j ≡ show_row back rounds (back m j) row ((back m j).left j)
unfolding show_row
show_row_step back rounds m row j ne =
    let there : (j == row) ≡ false = ground (arith, ne) in rw (there, show_row) refl

show_row_lem :
    (back head : Links → ℕ → Links) (rounds : ℕ) (m : Links) (row s : ℕ) (js : List ℕ)
    → IsUndoing back head
    → Chain m.left s row js
    → All (λ j. j ≢ row) js
    → length js < rounds
    → show_row back rounds m row (m.left s) ≡ some (show_all back m js)
show_row_lem back head zero m row s js u chain apart lt = absurd (omega arith)
show_row_lem back head (suc rounds) m row s [] u chain apart lt =
    rw chain (show_row_end back rounds m row)
show_row_lem back head (suc rounds) m row s (j ∷ js) u (next, chain) (ne, apart) lt =
    ap (show_row back (suc rounds) m row) next
    ∙ show_row_step back rounds m row j ne
    ∙ show_row_lem back head rounds (back m j) row j js u
        (subst (λ f. Chain f j row js) (sym (u.keeps_left m j)) chain) apart (omega (arith, lt))

-- Hiding other nodes leaves a chain as it is.
Chain-down :
    (m : Links) (js : List ℕ) (s e : ℕ) (xs : List ℕ)
    → AreHidable m js
    → All (λ j. e ≢ j) js
    → Apart xs js
    → Chain m.down s e xs
    → Chain (hide_all m js).down s e xs
Chain-down m js s e [] h a ap' chain =
    hide_all-down m js s h (subst (λ v. All (λ j. v ≢ j) js) (sym chain) a) ∙ chain
Chain-down m js s e (x ∷ xs) h a (here, apart) (next, chain) = (
  hide_all-down m js s h (subst (λ v. All (λ j. v ≢ j) js) (sym next) here) ∙ next,
  Chain-down m js x e xs h a apart chain,
)

Chain-up :
    (m : Links) (js : List ℕ) (s e : ℕ) (xs : List ℕ)
    → AreHidable m js
    → All (λ j. e ≢ j) js
    → Apart xs js
    → Chain m.up s e xs
    → (hide_all m js).up s ≡ m.up s
Chain-up m js s e [] h a ap' chain =
    hide_all-up m js s h (subst (λ v. All (λ j. v ≢ j) js) (sym chain) a)
Chain-up m js s e (x ∷ xs) h a (here, apart) (next, chain) =
    hide_all-up m js s h (subst (λ v. All (λ j. v ≢ j) js) (sym next) here)

Apart-append : (zs js ks : List ℕ) → Apart zs (js ++ ks) → Apart zs js × Apart zs ks
Apart-append [] js ks h = (tt, tt)
Apart-append (z ∷ zs) js ks (a, h) =
    let (first, second) = All-append (λ j. z ≢ j) js ks a in
    let (firsts, seconds) = Apart-append zs js ks h in ((first, firsts), (second, seconds))

-- Hiding leaves the ring of a row as it is.
hidden-IsRing : (m : Links) (js : List ℕ) (r : Row) → IsRing m r → IsRing (hide_all m js) r
hidden-IsRing m js (x, ks) h = record {
  rightwards = subst (λ f. Chain f x x ks) (sym (hide_all-right m js)) h.rightwards;
  leftwards = subst (λ f. Chain f x x (reverse ks)) (sym (hide_all-left m js)) h.leftwards;
  apart = h.apart;
}

hide_rows_end : (limit rounds : ℕ) (m : Links) (c : ℕ) → hide_rows limit (suc rounds) m c c ≡ some m
unfolding hide_rows
hide_rows_end limit rounds m c = let here : (c == c) ≡ true = ground arith in rw (here, hide_rows)

hide_rows_step :
    (limit rounds : ℕ) (m m1 : Links) (c row : ℕ)
    → row ≢ c
    → hide_row limit m row (m.right row) ≡ some m1
    → hide_rows limit (suc rounds) m c row ≡ hide_rows limit rounds m1 c (m1.down row)
unfolding hide_rows
hide_rows_step limit rounds m m1 c row ne ran =
    let there : (row == c) ≡ false = ground (arith, ne) in rw (there, hide_rows) (rw ran refl)

show_rows_end :
    (back : Links → ℕ → Links) (limit rounds : ℕ) (m : Links) (c : ℕ)
    → show_rows back limit (suc rounds) m c c ≡ some m
unfolding show_rows
show_rows_end back limit rounds m c =
    let here : (c == c) ≡ true = ground arith in rw (here, show_rows)

show_rows_step :
    (back : Links → ℕ → Links) (limit rounds : ℕ) (m m1 : Links) (c row : ℕ)
    → row ≢ c
    → show_row back limit m row (m.left row) ≡ some m1
    → show_rows back limit (suc rounds) m c row ≡ show_rows back limit rounds m1 c (m1.up row)
unfolding show_rows
show_rows_step back limit rounds m m1 c row ne ran =
    let there : (row == c) ≡ false = ground (arith, ne) in rw (there, show_rows) (rw ran refl)

-- The rows from a node of the column on.
pub hide_rows_lem :
    (limit rounds : ℕ) (m : Links) (c s : ℕ) (rs : List Row)
    → Chain m.down s c (heads rs)
    → All (λ x. x ≢ c) (heads rs)
    → All (IsRing m) rs
    → All (λ r. length r.1 < limit) rs
    → Apart (c ∷ heads rs) (nodes rs)
    → AreHidable m (nodes rs)
    → length rs < rounds
    → hide_rows limit rounds m c (m.down s) ≡ some (hide_all m (nodes rs))
hide_rows_lem limit zero m c s rs chain no_header rings short apart h lt = absurd (omega arith)
hide_rows_lem limit (suc rounds) m c s [] chain no_header rings short apart h lt =
    rw chain (hide_rows_end limit rounds m c)
hide_rows_lem limit (suc rounds) m c s ((x, js) ∷ rs) (next, chain) (ne, no_header) (ring, rings)
      (few, short) (ac, (ax, apart)) h lt =
    let (first, later) = AreHidable-append m js (nodes rs) h in
    let (cj, cn) = All-append (λ j. c ≢ j) js (nodes rs) ac in
    let (xj, xn) = All-append (λ j. x ≢ j) js (nodes rs) ax in
    let (hj, hn) = Apart-append (heads rs) js (nodes rs) apart in
    let m1 = hide_all m js in
    let ran = hide_row_lem limit m x x js ring.rightwards ring.apart few in
    let chain1 = Chain-down m js x c (heads rs) first cj hj chain in
    let rings1 = All-map rs (λ r k. hidden-IsRing m js r k) rings in
    let rest =
      hide_rows_lem limit rounds m1 c x rs chain1 no_header rings1 short (cn, hn) later
        (omega (arith, lt)) in
    let step = hide_rows_step limit rounds m m1 c x ne ran in
    ap (hide_rows limit (suc rounds) m c) next
    ∙ step
    ∙ rest
    ∙ ap some (sym (hide_all-append m js (nodes rs)))

-- The rows from a node of the column upwards, hidden from the first to the last and shown from the
-- last to the first.
pub show_rows_lem :
    (back head : Links → ℕ → Links) (limit rounds : ℕ) (m : Links) (c s : ℕ) (rs : List Row)
    → IsUndoing back head
    → Chain m.up s c (heads rs)
    → All (λ x. x ≢ c) (heads rs)
    → All (IsRing m) rs
    → All (λ r. length (reverse r.1) < limit) rs
    → Apart (c ∷ heads rs) (nodes_back rs)
    → AreHidable m (nodes_back rs)
    → length rs < rounds
    → let m1 = hide_all m (nodes_back rs) in show_rows back limit rounds m1 c (m1.up s) ≡ some m
show_rows_lem back head limit zero m c s rs u chain no_header rings short apart h lt =
    absurd (omega arith)
show_rows_lem back head limit (suc rounds) m c s [] u chain no_header rings short apart h lt =
    rw chain (show_rows_end back limit rounds m c)
show_rows_lem back head limit (suc rounds) m c s ((x, js) ∷ rs) u (next, chain) (ne, no_header)
      (ring, rings) (few, short) (ac, (ax, apart)) h lt =
    let (first, later) = AreHidable-append m (nodes_back rs) js h in
    let (cn, cj) = All-append (λ j. c ≢ j) (nodes_back rs) js ac in
    let (hn, hj) = Apart-append (heads rs) (nodes_back rs) js apart in
    let base = hide_all m (nodes_back rs) in
    let m1 = hide_all m (nodes_back rs ++ js) in
    let both : m1 ≡ hide_all base js = hide_all-append m (nodes_back rs) js in
    let at_x : m1.up s ≡ x =
      Chain-up m (nodes_back rs ++ js) s c (x ∷ heads rs) h ac (ax, apart) (next, chain) ∙ next in
    let left_same = hide_all-left base js ∙ hide_all-left m (nodes_back rs) in
    let leftwards = subst (λ f. Chain f x x (reverse js)) (sym left_same) ring.leftwards in
    let shown =
      show_row_lem back head limit (hide_all base js) x x (reverse js) u leftwards
        (All-reverse (λ j. j ≢ x) js ring.apart) few
      ∙ ap some (show_all-hide_all back head base js u later) in
    let ran =
      subst (λ (n : Links). show_row back limit n x (n.left x) ≡ some base) (sym both) shown in
    let rest =
      show_rows_lem back head limit rounds m c x rs u chain no_header rings short (cn, hn) first
        (omega (arith, lt)) in
    ap (show_rows back limit (suc rounds) m1 c) at_x
    ∙ show_rows_step back limit rounds m1 base c x ne ran
    ∙ rest
