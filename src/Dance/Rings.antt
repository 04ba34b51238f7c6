-- ===== src/Dance/Rings.antt =====
-- The rings of a column and of its rows, as lists of nodes.
use cloud_computing_lab.Base.{ℕ, ◌≡◌, ◌≢◌, List, [], ◌∷◌, ◌++◌, All}
use mathlib.Core.List.{reverse}
use cloud_computing_lab.Dance.Links.{Links}
use cloud_computing_lab.Dance.Hide.{AllLinked, Distinct}

-- From a node over the nodes of a list to another node.
abbrev pub Chain : (ℕ → ℕ) → ℕ → ℕ → List ℕ → Type 0
Chain next s e [] = next s ≡ e
Chain next s e (x ∷ xs) = (next s ≡ x) × Chain next x e xs

-- A row as its node in the column and the nodes to the right of that.
abbrev pub Row : Type 0
Row = ℕ × List ℕ

abbrev pub heads : List Row → List ℕ
heads [] = []
heads ((x, js) ∷ rs) = x ∷ heads rs

abbrev pub nodes : List Row → List ℕ
nodes [] = []
nodes ((x, js) ∷ rs) = js ++ nodes rs

-- The nodes of rows that are listed from the last to the first.
abbrev pub nodes_back : List Row → List ℕ
nodes_back [] = []
nodes_back ((x, js) ∷ rs) = nodes_back rs ++ js

-- No node of one list in the other.
abbrev pub Apart : List ℕ → List ℕ → Type 0
Apart zs js = All (λ z. All (λ j. z ≢ j) js) zs

-- The ring of a row, both ways.
pub record IsRing (m : Links) (r : Row) : Type 0 where
  pub rightwards : Chain m.right r.0 r.0 r.1
  pub leftwards : Chain m.left r.0 r.0 (reverse r.1)
  pub apart : All (λ j. j ≢ r.0) r.1

-- The rings of a column and of its rows.
pub record IsColumn (m : Links) (c : ℕ) (rs : List Row) : Type 0 where
  pub before : m.right (m.left c) ≡ c
  pub behind : m.left (m.right c) ≡ c
  pub downwards : Chain m.down c c (heads rs)
  pub upwards : Chain m.up c c (heads (reverse rs))
  pub rows : All (IsRing m) rs
  pub no_header : All (λ x. x ≢ c) (heads rs)
  pub apart : Apart (c ∷ heads rs) (nodes rs)
  pub linked : AllLinked m (nodes rs)
  pub distinct : Distinct (nodes rs)
