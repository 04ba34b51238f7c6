-- ===== src/Dance/Recover.antt =====
-- `recover` of DLX.h takes `remove` back.
use cloud_computing_lab.Base.{
  ℕ, ◌<◌, ◌≡◌, refl, List, some, arith, length, All, increment-decrement,
}
use mathlib.Core.Path.{fun_ext}
use cloud_computing_lab.Dance.Links.{Links, hide, unlink}
use cloud_computing_lab.Dance.Hide.{IsLinked, IsUndoing, hide_all}
use cloud_computing_lab.Dance.Rings.{Row, IsColumn, nodes}
use cloud_computing_lab.Dance.Cover.{undone}
use cloud_computing_lab.Dance.Dlx.{remove, restore, restore_header, recover}

restored_up : (m : Links) (j x : ℕ) → IsLinked m j → (restore (hide m j) j).up x ≡ m.up x
unfolding hide restore
restored_up m j x l = ground (arith, l.above, l.below)

restored_down : (m : Links) (j x : ℕ) → IsLinked m j → (restore (hide m j) j).down x ≡ m.down x
unfolding hide restore
restored_down m j x l = ground (arith, l.above, l.below)

restored_size : (m : Links) (j x : ℕ) → (restore (hide m j) j).size x ≡ m.size x
unfolding hide restore
restored_size m j x = ground (arith, increment-decrement (m.size (m.col j)))

restore-hide : (m : Links) (j : ℕ) → IsLinked m j → restore (hide m j) j ≡ m
unfolding hide restore
restore-hide m j l = λ i. record {
  left = m.left;
  right = m.right;
  up = fun_ext (λ x. restored_up m j x l) i;
  down = fun_ext (λ x. restored_down m j x l) i;
  col = m.col;
  size = fun_ext (λ x. restored_size m j x) i;
}

restore_header-unlink :
    (m : Links) (c : ℕ)
    → m.right (m.left c) ≡ c
    → m.left (m.right c) ≡ c
    → restore_header (unlink m c) c ≡ m
unfolding restore_header unlink
restore_header-unlink m c before behind = λ i. record {
  left = fun_ext {g = m.left} (λ x. back_left x) i;
  right = fun_ext {g = m.right} (λ x. back_right x) i;
  up = m.up;
  down = m.down;
  col = m.col;
  size = m.size;
}
  where
    back_left : (x : ℕ) → (restore_header (unlink m c) c).left x ≡ m.left x
    back_left x = ground (arith, before, behind)

    back_right : (x : ℕ) → (restore_header (unlink m c) c).right x ≡ m.right x
    back_right x = ground (arith, before, behind)

restore_keeps_left : (m : Links) (j : ℕ) → (restore m j).left ≡ m.left
unfolding restore
restore_keeps_left m j = refl

restore-IsUndoing : IsUndoing restore restore_header
restore-IsUndoing = record {
  keeps_left = restore_keeps_left;
  node = restore-hide;
  header = restore_header-unlink;
}

-- In a matrix of linked nodes, for a column whose rings are those of the given rows, which share no
-- node: with more rounds for each loop than there are rows and nodes in a row, `remove` ends, and has
-- unlinked the header and hidden the nodes of the rows in order; `recover` of DLX.h behind it ends
-- too, and every link and every size is what it was.
pub recover-remove :
    (limit : ℕ) (m : Links) (c : ℕ) (rs : List Row)
    → IsColumn m c rs
    → length rs < limit
    → All (λ r. length r.1 < limit) rs
    → (m1 : Links) × (remove limit m c ≡ some m1)
      × (m1 ≡ hide_all (unlink m c) (nodes rs))
      × (recover limit m1 c ≡ some m)
unfolding remove recover
recover-remove limit m c rs k many short =
    undone restore restore_header restore-IsUndoing limit m c rs k many short
