-- ===== src/Dance/Cover.antt =====
-- `cover` and `uncover` of sudoku_dancing_links.cc on a column of rings: what is hidden, and that it is
-- shown again.
use cloud_computing_lab.Base.{
  All-map, All-append, All-reverse, ℕ, ◌<◌, ◌≡◌, ◌≢◌, refl, sym, ap, subst, ◌∙◌, List, [], ◌∷◌,
  ◌++◌, some, arith, length, length-append, All, append-nil, append_assoc,
}
use mathlib.Core.List.{reverse, reverse-append}
use cloud_computing_lab.Dance.Links.{
  Links, show, unlink, cover, show_rows, relink, uncover_by, uncover,
}
use cloud_computing_lab.Dance.Hide.{
  IsUndoing, show-IsUndoing, IsLinked, AreHidable, hide_all, linked-AreHidable,
}
use cloud_computing_lab.Dance.Rings.{Chain, Row, heads, nodes, nodes_back, Apart, IsRing, IsColumn}
use cloud_computing_lab.Dance.Loops.{hide_rows_lem, show_rows_lem}

-- What the header's links are worth without the header.
unlink_right :
    (m : Links) (c z : ℕ)
    → m.right (m.left c) ≡ c
    → m.right z ≢ c
    → (unlink m c).right z ≡ m.right z
unfolding unlink
unlink_right m c z before ne = ground (arith, before)

unlink_left :
    (m : Links) (c z : ℕ) → m.left (m.right c) ≡ c → m.left z ≢ c → (unlink m c).left z ≡ m.left z
unfolding unlink
unlink_left m c z behind ne = ground (arith, behind)

unlinked-IsLinked : (m : Links) (c j : ℕ) → IsLinked m j → IsLinked (unlink m c) j
unfolding unlink
unlinked-IsLinked m c j l = record { above = l.above; below = l.below }

module _ (m : Links) (c : ℕ) where
  Chain-right :
      (s e : ℕ) (xs : List ℕ)
      → m.right (m.left c) ≡ c
      → e ≢ c
      → All (λ x. x ≢ c) xs
      → Chain m.right s e xs
      → Chain (unlink m c).right s e xs
  Chain-right s e [] before ne a chain = unlink_right m c s before (λ k. ne (sym chain ∙ k)) ∙ chain
  Chain-right s e (x ∷ xs) before ne (nx, a) (next, chain) = (
    unlink_right m c s before (λ k. nx (sym next ∙ k)) ∙ next,
    Chain-right x e xs before ne a chain,
  )

  Chain-left :
      (s e : ℕ) (xs : List ℕ)
      → m.left (m.right c) ≡ c
      → e ≢ c
      → All (λ x. x ≢ c) xs
      → Chain m.left s e xs
      → Chain (unlink m c).left s e xs
  Chain-left s e [] behind ne a chain = unlink_left m c s behind (λ k. ne (sym chain ∙ k)) ∙ chain
  Chain-left s e (x ∷ xs) behind ne (nx, a) (next, chain) = (
    unlink_left m c s behind (λ k. nx (sym next ∙ k)) ∙ next,
    Chain-left x e xs behind ne a chain,
  )

rings_unlinked :
    (m : Links) (c : ℕ) (rs : List Row)
    → m.right (m.left c) ≡ c
    → m.left (m.right c) ≡ c
    → All (λ x. x ≢ c) (heads rs)
    → All (λ j. c ≢ j) (nodes rs)
    → All (IsRing m) rs
    → All (IsRing (unlink m c)) rs
rings_unlinked m c [] before behind no_header apart rings = tt
rings_unlinked m c ((x, js) ∷ rs) before behind (ne, no_header) apart (ring, rings) =
    let (cj, cn) = All-append (λ j. c ≢ j) js (nodes rs) apart in
    let others : All (λ j. j ≢ c) js = All-map js (λ j k e. k (sym e)) cj in
    (
      record {
        rightwards = Chain-right m c x x js before ne others ring.rightwards;
        leftwards =
            Chain-left m c x x (reverse js) behind ne (All-reverse (λ j. j ≢ c) js others)
              ring.leftwards;
        apart = ring.apart;
      },
      rings_unlinked m c rs before behind no_header cn rings,
    )

nodes_back-append : (xs ys : List Row) → nodes_back (xs ++ ys) ≡ nodes_back ys ++ nodes_back xs
nodes_back-append [] ys = sym (append-nil (nodes_back ys))
nodes_back-append ((x, js) ∷ xs) ys =
    ap (λ z. z ++ js) (nodes_back-append xs ys) ∙ append_assoc (nodes_back ys) (nodes_back xs) js

nodes_back-reverse : (rs : List Row) → nodes_back (reverse rs) ≡ nodes rs
nodes_back-reverse [] = refl
nodes_back-reverse ((x, js) ∷ rs) =
    ap nodes_back (reverse-append ((x, js) ∷ []) rs)
    ∙ nodes_back-append (reverse rs) ((x, js) ∷ [])
    ∙ ap (λ z. js ++ z) (nodes_back-reverse rs)

length-reverse : {A : Type 0} (xs : List A) → length (reverse xs) ≡ length xs
length-reverse [] = refl
length-reverse (x ∷ xs) =
    let e = ap length (reverse-append (x ∷ []) xs) in
    omega (arith, e, length-append (reverse xs) (x ∷ []), length-reverse xs)

module _ (P : ℕ → Type 0) where
  All-heads : (rs : List Row) → All (λ (r : Row). P r.0) rs → All P (heads rs)
  All-heads [] h = tt
  All-heads ((x, js) ∷ rs) (p, h) = (p, All-heads rs h)

  heads-All : (rs : List Row) → All P (heads rs) → All (λ (r : Row). P r.0) rs
  heads-All [] h = tt
  heads-All ((x, js) ∷ rs) (p, h) = (p, heads-All rs h)

  heads-reverse : (rs : List Row) → All P (heads rs) → All P (heads (reverse rs))
  heads-reverse rs h = All-heads (reverse rs) (All-reverse (λ (r : Row). P r.0) rs (heads-All rs h))

uncover_shown :
    (back head : Links → ℕ → Links) (limit : ℕ) (m u : Links) (c : ℕ)
    → show_rows back limit limit m c (m.up c) ≡ some u
    → uncover_by back head limit m c ≡ some (head u c)
unfolding uncover_by
uncover_shown back head limit m u c ran = rw (ran, uncover_by) refl

module _ (back head : Links → ℕ → Links) (u : IsUndoing back head) (limit : ℕ) (m : Links) (c : ℕ)
    (rs : List Row) (k : IsColumn m c rs) (many : length rs < limit)
    (short : All (λ (r : Row). length r.1 < limit) rs) where
  unlinked_rings : All (IsRing (unlink m c)) rs
  unlinked_rings = rings_unlinked m c rs k.before k.behind k.no_header (k.apart).0 k.rows

  unlinked-AreHidable : AreHidable (unlink m c) (nodes rs)
  unlinked-AreHidable =
      linked-AreHidable (unlink m c) (nodes rs)
        (All-map (nodes rs) (λ j l. unlinked-IsLinked m c j l) k.linked) k.distinct

  cover_run : cover limit m c ≡ some (hide_all (unlink m c) (nodes rs))
  unfolding cover
  cover_run =
      hide_rows_lem limit limit (unlink m c) c c rs k.downwards k.no_header unlinked_rings short
        k.apart unlinked-AreHidable many

  shown_again :
      let m1 = hide_all (unlink m c) (nodes rs) in
      show_rows back limit limit m1 c (m1.up c) ≡ some (unlink m c)
  unfolding unlink
  shown_again =
      let flipped = reverse rs in
      let same = nodes_back-reverse rs in
      let (ac, ah) = k.apart in
      let apart_back =
        λ (z : ℕ) (a : All (λ j. z ≢ j) (nodes rs)). subst (All (λ j. z ≢ j)) (sym same) a in
      let heads_apart : Apart (heads rs) (nodes_back flipped) = All-map (heads rs) apart_back ah in
      subst
        (λ ks.
          let n = hide_all (unlink m c) ks in
          show_rows back limit limit n c (n.up c) ≡ some (unlink m c))
        same
        (show_rows_lem back head limit limit (unlink m c) c c flipped u k.upwards
          (heads-reverse (λ x. x ≢ c) rs k.no_header)
          (All-reverse (IsRing (unlink m c)) rs unlinked_rings)
          (All-map flipped (λ r (lt : length r.1 < limit). omega (arith, length-reverse r.1, lt))
            (All-reverse (λ (r : Row). length r.1 < limit) rs short))
          (
            apart_back c ac,
            heads-reverse (λ z. All (λ j. z ≢ j) (nodes_back flipped)) rs heads_apart,
          )
          (subst (AreHidable (unlink m c)) (sym same) unlinked-AreHidable)
          (omega (arith, length-reverse rs, many)))

  pub undone :
      (m1 : Links) × (cover limit m c ≡ some m1)
      × (m1 ≡ hide_all (unlink m c) (nodes rs))
      × (uncover_by back head limit m1 c ≡ some m)
  undone = (
    hide_all (unlink m c) (nodes rs),
    cover_run,
    refl,
    uncover_shown back head limit _ (unlink m c) c shown_again
        ∙ ap some (u.header m c k.before k.behind),
  )

-- In a matrix of linked nodes, for a column whose rings are those of the given rows, which share no
-- node: with more rounds for each loop than there are rows and nodes in a row, `cover` ends, and has
-- unlinked the header and hidden the nodes of the rows in order; `uncover` behind it ends too, and
-- every link and every size is what it was.
pub uncover-cover :
    (limit : ℕ) (m : Links) (c : ℕ) (rs : List Row)
    → IsColumn m c rs
    → length rs < limit
    → All (λ r. length r.1 < limit) rs
    → (m1 : Links) × (cover limit m c ≡ some m1)
      × (m1 ≡ hide_all (unlink m c) (nodes rs))
      × (uncover limit m1 c ≡ some m)
unfolding uncover
uncover-cover limit m c rs k many short =
    undone show relink show-IsUndoing limit m c rs k many short
