-- ===== src/Dance/Hide.antt =====
-- What `hide` leaves alone, and that `show` takes it back.
use cloud_computing_lab.Base.{
  ℕ, ◌≡◌, ◌≢◌, refl, sym, ◌∙◌, List, [], ◌∷◌, ◌++◌, arith, increment-decrement, All, subst, ap,
}
use mathlib.Core.Path.{fun_ext}
use mathlib.Core.List.{reverse, reverse-append}
use cloud_computing_lab.Dance.Links.{Links, hide, show, unlink, relink}

-- The node above is linked to the node, and so is the node below.
pub record IsLinked (m : Links) (j : ℕ) : Type 0 where
  pub above : m.down (m.up j) ≡ j
  pub below : m.up (m.down j) ≡ j

pub hide-IsLinked :
    (m : Links) (j y : ℕ) → IsLinked m j → IsLinked m y → y ≢ j → IsLinked (hide m j) y
unfolding hide
hide-IsLinked m j y lj ly ne = record {
  above = ground (arith, lj.above, lj.below, ly.above, ly.below);
  below = ground (arith, lj.above, lj.below, ly.above, ly.below);
}

-- A node keeps its lower neighbour if that is not the hidden node.
pub hide-down : (m : Links) (j z : ℕ) → IsLinked m j → m.down z ≢ j → (hide m j).down z ≡ m.down z
unfolding hide
hide-down m j z l ne = ground (arith, l.above, l.below)

pub hide-up : (m : Links) (j z : ℕ) → IsLinked m j → m.up z ≢ j → (hide m j).up z ≡ m.up z
unfolding hide
hide-up m j z l ne = ground (arith, l.above, l.below)

hidden_up : (m : Links) (j x : ℕ) → IsLinked m j → (show (hide m j) j).up x ≡ m.up x
unfolding hide show
hidden_up m j x l = ground (arith, l.above, l.below)

hidden_down : (m : Links) (j x : ℕ) → IsLinked m j → (show (hide m j) j).down x ≡ m.down x
unfolding hide show
hidden_down m j x l = ground (arith, l.above, l.below)

hidden_size : (m : Links) (j x : ℕ) → (show (hide m j) j).size x ≡ m.size x
unfolding hide show
hidden_size m j x = ground (arith, increment-decrement (m.size (m.col j)))

show-hide : (m : Links) (j : ℕ) → IsLinked m j → show (hide m j) j ≡ m
unfolding hide show
show-hide m j l = λ i. record {
  left = m.left;
  right = m.right;
  up = fun_ext (λ x. hidden_up m j x l) i;
  down = fun_ext (λ x. hidden_down m j x l) i;
  col = m.col;
  size = fun_ext (λ x. hidden_size m j x) i;
}

-- Nodes hidden one after the other, and shown again.
abbrev pub hide_all : Links → List ℕ → Links
hide_all m [] = m
hide_all m (j ∷ js) = hide_all (hide m j) js

abbrev pub show_all : (Links → ℕ → Links) → Links → List ℕ → Links
show_all back m [] = m
show_all back m (j ∷ js) = show_all back (back m j) js

-- Each node is linked when its turn comes.
abbrev pub AreHidable : Links → List ℕ → Type 0
AreHidable m [] = Unit {0}
AreHidable m (j ∷ js) = IsLinked m j × AreHidable (hide m j) js

pub show_all-append :
    (back : Links → ℕ → Links) (m : Links) (xs ys : List ℕ)
    → show_all back m (xs ++ ys) ≡ show_all back (show_all back m xs) ys
show_all-append back m [] ys = refl
show_all-append back m (x ∷ xs) ys = show_all-append back (back m x) xs ys

pub hide_all-append :
    (m : Links) (xs ys : List ℕ) → hide_all m (xs ++ ys) ≡ hide_all (hide_all m xs) ys
hide_all-append m [] ys = refl
hide_all-append m (x ∷ xs) ys = hide_all-append (hide m x) xs ys

pub AreHidable-append :
    (m : Links) (xs ys : List ℕ)
    → AreHidable m (xs ++ ys)
    → AreHidable m xs × AreHidable (hide_all m xs) ys
AreHidable-append m [] ys h = (tt, h)
AreHidable-append m (x ∷ xs) ys (l, h) =
    let (a, b) = AreHidable-append (hide m x) xs ys h in ((l, a), b)

-- What takes `hide` and `unlink` back: something for a node and something for a header.
pub record IsUndoing (back head : Links → ℕ → Links) : Type 0 where
  pub keeps_left : (m : Links) (j : ℕ) → (back m j).left ≡ m.left
  pub node : (m : Links) (j : ℕ) → IsLinked m j → back (hide m j) j ≡ m
  pub header :
      (m : Links) (c : ℕ)
      → m.right (m.left c) ≡ c
      → m.left (m.right c) ≡ c
      → head (unlink m c) c ≡ m

pub show_all-hide_all :
    (back head : Links → ℕ → Links) (m : Links) (js : List ℕ)
    → IsUndoing back head
    → AreHidable m js
    → show_all back (hide_all m js) (reverse js) ≡ m
show_all-hide_all back head m [] u h = refl
show_all-hide_all back head m (j ∷ js) u (l, h) =
    let e = reverse-append (j ∷ []) js in
    let hidden = hide_all (hide m j) js in
    ap (show_all back hidden) e
    ∙ show_all-append back hidden (reverse js) (j ∷ [])
    ∙ ap (λ x. back x j) (show_all-hide_all back head (hide m j) js u h)
    ∙ u.node m j l

-- The lists and the columns of nodes are not touched.
pub hide_all-right : (m : Links) (js : List ℕ) → (hide_all m js).right ≡ m.right
unfolding hide
hide_all-right m [] = refl
hide_all-right m (j ∷ js) = hide_all-right (hide m j) js

pub hide_all-left : (m : Links) (js : List ℕ) → (hide_all m js).left ≡ m.left
unfolding hide
hide_all-left m [] = refl
hide_all-left m (j ∷ js) = hide_all-left (hide m j) js

pub hide_all-down :
    (m : Links) (js : List ℕ) (z : ℕ)
    → AreHidable m js
    → All (λ j. m.down z ≢ j) js
    → (hide_all m js).down z ≡ m.down z
hide_all-down m [] z h a = refl
hide_all-down m (j ∷ js) z (l, h) (ne, a) =
    let same = hide-down m j z l ne in
    hide_all-down (hide m j) js z h (subst (λ v. All (λ k. v ≢ k) js) (sym same) a) ∙ same

pub hide_all-up :
    (m : Links) (js : List ℕ) (z : ℕ)
    → AreHidable m js
    → All (λ j. m.up z ≢ j) js
    → (hide_all m js).up z ≡ m.up z
hide_all-up m [] z h a = refl
hide_all-up m (j ∷ js) z (l, h) (ne, a) =
    let same = hide-up m j z l ne in
    hide_all-up (hide m j) js z h (subst (λ v. All (λ k. v ≢ k) js) (sym same) a) ∙ same

-- Different nodes that are linked can be hidden in any order.
abbrev pub AllLinked : Links → List ℕ → Type 0
AllLinked m js = All (IsLinked m) js

abbrev pub Distinct : List ℕ → Type 0
Distinct [] = Unit {0}
Distinct (x ∷ xs) = All (λ y. y ≢ x) xs × Distinct xs

still_linked :
    (m : Links) (j : ℕ) (js : List ℕ)
    → IsLinked m j
    → AllLinked m js
    → All (λ y. y ≢ j) js
    → AllLinked (hide m j) js
still_linked m j [] l a d = tt
still_linked m j (y ∷ js) l (ly, a) (ne, d) =
    (hide-IsLinked m j y l ly ne, still_linked m j js l a d)

pub linked-AreHidable : (m : Links) (js : List ℕ) → AllLinked m js → Distinct js → AreHidable m js
linked-AreHidable m [] a d = tt
linked-AreHidable m (j ∷ js) (l, a) (ne, d) =
    (l, linked-AreHidable (hide m j) js (still_linked m j js l a ne) d)

-- A header between its neighbours.
relink-unlink :
    (m : Links) (c : ℕ)
    → m.right (m.left c) ≡ c
    → m.left (m.right c) ≡ c
    → relink (unlink m c) c ≡ m
unfolding relink unlink
relink-unlink m c before behind = λ i. record {
  left = fun_ext {g = m.left} (λ x. back_left x) i;
  right = fun_ext {g = m.right} (λ x. back_right x) i;
  up = m.up;
  down = m.down;
  col = m.col;
  size = m.size;
}
  where
    back_left : (x : ℕ) → (relink (unlink m c) c).left x ≡ m.left x
    back_left x = ground (arith, before, behind)

    back_right : (x : ℕ) → (relink (unlink m c) c).right x ≡ m.right x
    back_right x = ground (arith, before, behind)

show_keeps_left : (m : Links) (j : ℕ) → (show m j).left ≡ m.left
unfolding show
show_keeps_left m j = refl

-- `show` and `relink` take `hide` and `unlink` back.
pub show-IsUndoing : IsUndoing show relink
show-IsUndoing = record { keeps_left = show_keeps_left; node = show-hide; header = relink-unlink }
