-- ===== src/Text/Find.antt =====
-- `find` on a `std::string`.
use cloud_computing_lab.Base.{
  ℕ, ◌≡◌, refl, Bool, true, false, ◌&&◌, ◌||◌, [], ◌∷◌, ◌++◌, Option, none, some, arith, ◌==◌,
  if◌then◌else◌,
}
use cloud_computing_lab.Text.{Str}

unfoldable pub starts_with : Str → Str → Bool
starts_with [] s = true
starts_with (c ∷ p) [] = false
starts_with (c ∷ p) (d ∷ s) = (c == d) && starts_with p s

-- `s.find(p) != string::npos`
unfoldable pub contains : Str → Str → Bool
unfolding starts_with
contains p [] = starts_with p []
contains p (d ∷ s) = starts_with p (d ∷ s) || contains p s

-- What stands before the first `c` and behind it, if there is one.
unfoldable pub cut_at : ℕ → Str → Option (Str × Str)
cut_at c [] = none
cut_at c (d ∷ s) =
    let rest = cut_at c s in
    if d == c
    then some ([], s)
    else elim rest [ none ↦ none | some (before, behind) ↦ some (d ∷ before, behind) ]

starts_with-append : (p s : Str) → starts_with p (p ++ s) ≡ true
unfolding starts_with
starts_with-append [] s = refl
starts_with-append (c ∷ p) s = ground (arith, starts_with-append p s)

pub contains-append : (p s : Str) → contains p (p ++ s) ≡ true
unfolding contains starts_with
contains-append [] [] = refl
contains-append [] (d ∷ s) = refl
contains-append (c ∷ p) s = ground (arith, starts_with-append p s)

pub contains_later : (p a s : Str) → contains p s ≡ true → contains p (a ++ s) ≡ true
unfolding contains
contains_later p [] s h = h
contains_later p (c ∷ a) s h = ground (arith, contains_later p a s h)
