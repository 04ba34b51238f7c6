-- ===== src/TwoPhase/Database.antt =====
-- The `std::unordered_map<std::string, std::string>` of the participants and of the Raft nodes, as
-- an association list. The program never iterates over it, so the order means nothing.
use cloud_computing_lab.Base.{
  ◌≡◌, refl, Bool, true, false, List, [], ◌∷◌, Option, none, some, arith, if◌then◌else◌,
}
use cloud_computing_lab.Text.{Str, str_eq}
use cloud_computing_lab.Text.Equality.{str_eq_iff}

abbrev pub Database : Type 0
Database = List (Str × Str)

unfoldable pub lookup : Str → Database → Option Str
lookup k [] = none
lookup k ((j, v) ∷ d) = if str_eq j k then some v else lookup k d

-- `db.count(k)!=0`
unfoldable pub has : Str → Database → Bool
has k d = elim (lookup k d) [ none ↦ false | some v ↦ true ]

-- `db[k]=v`
unfoldable pub insert : Str → Str → Database → Database
insert k v [] = (k, v) ∷ []
insert k v ((j, w) ∷ d) =
    let rest = insert k v d in if str_eq j k then (k, v) ∷ d else (j, w) ∷ rest

-- `db.erase(k)`
unfoldable pub erase : Str → Database → Database
erase k [] = []
erase k ((j, v) ∷ d) = let rest = erase k d in if str_eq j k then rest else (j, v) ∷ rest

pub lookup-insert :
    (k j v : Str) (d : Database)
    → lookup j (insert k v d) ≡ (if str_eq k j then some v else lookup j d)
unfolding lookup insert
lookup-insert k j v [] = refl
lookup-insert k j v ((i, w) ∷ d) =
    ground (arith, str_eq_iff k j, str_eq_iff i k, str_eq_iff i j, lookup-insert k j v d)

pub lookup-erase :
    (k j : Str) (d : Database) → lookup j (erase k d) ≡ (if str_eq k j then none else lookup j d)
unfolding lookup erase
lookup-erase k j [] = ground arith
lookup-erase k j ((i, w) ∷ d) =
    ground (arith, str_eq_iff k j, str_eq_iff i k, str_eq_iff i j, lookup-erase k j d)

-- Two databases that answer every key alike.
abbrev pub Same : Database → Database → Type 0
Same d e = (k : Str) → lookup k d ≡ lookup k e
