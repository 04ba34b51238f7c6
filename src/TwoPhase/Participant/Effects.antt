-- ===== src/TwoPhase/Participant/Effects.antt =====
-- What the loops over a DEL's keys and over the rollback log do, in closed form.
use cloud_computing_lab.Base.{
  ℕ, ◌+◌, ◌≡◌, refl, ap, ◌∙◌, Bool, true, false, not, ◌&&◌, ◌||◌, List, [], ◌∷◌, ◌++◌, Option, none,
  some, arith, ok, ℤ, if◌then◌else◌, append_assoc, append-nil, Option-cases, inl, inr,
}
use cloud_computing_lab.Text.{Str, str_eq, to_string}
use cloud_computing_lab.Text.Equality.{str_eq_iff}
use cloud_computing_lab.TwoPhase.Database.{
  Database, lookup, has, insert, erase, lookup-insert, lookup-erase, Same,
}
use cloud_computing_lab.TwoPhase.Message.{set_word, del_word}
use cloud_computing_lab.TwoPhase.Participant.{
  Participant, delete_key, delete_keys, undo, undo_all, roll_back, count_acks, ack_word, wrong_word,
  undo_set,
}

abbrev pub mem : Str → List Str → Bool
mem j [] = false
mem j (k ∷ ks) = str_eq k j || mem j ks

-- The database without the keys.
unfoldable pub without : List Str → Database → Database
without [] d = d
without (k ∷ ks) d = without ks (erase k d)

-- The pairs that a DEL of the keys takes out, in their order.
unfoldable pub taken : List Str → Database → List (Str × Str)
taken [] d = []
taken (k ∷ ks) d = elim (lookup k d) [ none ↦ taken ks d | some v ↦ (k, v) ∷ taken ks (erase k d) ]

-- The rollback entries of such pairs, and putting the pairs back.
unfoldable pub set_entries : ℤ → List (Str × Str) → List (List Str)
set_entries id [] = []
set_entries id ((k, v) ∷ ps) = (to_string id ∷ set_word ∷ k ∷ v ∷ []) ∷ set_entries id ps

unfoldable pub put_back : List (Str × Str) → Database → Database
put_back [] d = d
put_back ((k, v) ∷ ps) d = put_back ps (insert k v d)

abbrev mark : Option Str → Str
mark none = wrong_word
mark (some v) = ack_word

unfoldable pub del_entries : ℤ → List Str → Database → List (List Str)
del_entries id [] d = []
del_entries id (k ∷ ks) d =
    (to_string id ∷ del_word ∷ k ∷ mark (lookup k d) ∷ []) ∷ del_entries id ks (erase k d)

undo_all-set_entries :
    (id : ℤ) (ps : List (Str × Str)) (d : Database)
    → undo_all d (set_entries id ps) ≡ ok (put_back ps d)
unfolding undo_all undo set_entries put_back str_eq
undo_all-set_entries id [] d = refl
undo_all-set_entries id ((k, v) ∷ ps) d = undo_all-set_entries id ps (insert k v d)

pub lookup-without :
    (j : Str) (ks : List Str) (d : Database)
    → lookup j (without ks d) ≡ (if mem j ks then none else lookup j d)
unfolding without
lookup-without j [] d = refl
lookup-without j (k ∷ ks) d = ground (arith, lookup-without j ks (erase k d), lookup-erase k j d)

abbrev or_else : Option Str → Option Str → Option Str
or_else none o = o
or_else (some v) o = some v

lookup_of_eq : (k j : Str) (d : Database) → str_eq k j ≡ true → lookup k d ≡ lookup j d
lookup_of_eq k j d h = ap (λ i. lookup i d) ((str_eq_iff k j).0 h)

lookup-put_back :
    (j : Str) (ks : List Str) (d e : Database)
    → lookup j (put_back (taken ks d) e)
      ≡ (if mem j ks then or_else (lookup j d) (lookup j e) else lookup j e)
unfolding put_back taken
lookup-put_back j [] d e = refl
lookup-put_back j (k ∷ ks) d e = elim (Option-cases (lookup k d)) [
  | inl absent ↦ rw (absent, taken) (ground (arith, lookup-put_back j ks d e, lookup_of_eq k j d))
  | inr (v, present) ↦
      rw (present, taken)
        (ground (
          arith,
          lookup-put_back j ks (erase k d) (insert k v e),
          lookup-erase k j d,
          lookup-insert k j v e,
          lookup_of_eq k j d,
        ))
]

-- Taking keys out and putting the pairs back gives the same database.
put_back-Same : (ks : List Str) (d : Database) → Same (put_back (taken ks d) (without ks d)) d
put_back-Same ks d j = ground (arith, lookup-put_back j ks d (without ks d), lookup-without j ks d)

-- The rollback log of a DEL undoes it.
pub undo_del :
    (id : ℤ) (ks : List Str) (d : Database)
    → (r : Database) × (undo_all (without ks d) (set_entries id (taken ks d)) ≡ ok r) × Same r d
undo_del id ks d = (
  put_back (taken ks d) (without ks d),
  undo_all-set_entries id (taken ks d) (without ks d),
  put_back-Same ks d,
)

erase_absent : (k : Str) (d : Database) → lookup k d ≡ none → erase k d ≡ d
unfolding lookup erase
erase_absent k [] h = refl
erase_absent k ((j, v) ∷ d) h = ground (arith, erase_absent k d)

-- A DEL of the keys: both logs, and the database without them.
abbrev pub deleted : Participant → List Str → Participant
deleted p ks = record p {
  operation_log = p.operation_log ++ del_entries p.id ks p.db;
  rollback_log = p.rollback_log ++ set_entries p.id (taken ks p.db);
  db = without ks p.db;
}

delete_key-deleted :
    (p : Participant) (k : Str) (ks : List Str) → deleted (delete_key p k) ks ≡ deleted p (k ∷ ks)
unfolding delete_key del_entries set_entries taken without
delete_key-deleted p k ks = elim (Option-cases (lookup k p.db)) [
  | inl absent ↦ rw (absent, delete_key, taken) (simp (append_assoc, erase_absent k p.db absent))
  | inr (v, present) ↦ rw (present, delete_key, taken) (simp append_assoc)
]

-- The loop over the keys of a DEL, in closed form.
pub delete_keys_lem : (ks : List Str) (p : Participant) → delete_keys p ks ≡ deleted p ks
unfolding delete_keys del_entries set_entries taken without
delete_keys_lem [] p = ground (arith, append-nil p.operation_log, append-nil p.rollback_log)
delete_keys_lem (k ∷ ks) p = delete_keys_lem ks (delete_key p k) ∙ delete_key-deleted p k ks

-- The number of different keys of the list that the database holds.
unfoldable pub held : List Str → Database → ℕ
held [] d = 0
held (k ∷ ks) d = if has k d && not (mem k ks) then held ks d + 1 else held ks d

pub held-erase :
    (k : Str) (ks : List Str) (d : Database)
    → (if has k d && mem k ks then held ks (erase k d) + 1 else held ks (erase k d)) ≡ held ks d
unfolding held has
held-erase k [] d = ground arith
held-erase k (j ∷ ks) d = ground (
  arith,
  held-erase k ks d,
  lookup-erase k j d,
  lookup_of_eq k j d,
  str_eq_iff k j,
  str_eq_iff j k,
)

-- The ACK entries of a DEL are as many as the different keys that were held.
pub count_acks-del_entries :
    (id : ℤ) (ks : List Str) (d : Database) → count_acks (del_entries id ks d) ≡ ok (held ks d)
unfolding count_acks del_entries held has str_eq
count_acks-del_entries id [] d = refl
count_acks-del_entries id (k ∷ ks) d =
    rw (count_acks-del_entries id ks (erase k d)) (ground (arith, held-erase k ks d))

abbrev pub undone_set : Str → Option Str → Database → Database
undone_set k none d = erase k d
undone_set k (some w) d = insert k w d

lookup-undone_set :
    (j k v : Str) (o : Option Str) (d : Database)
    → lookup k d ≡ o
    → lookup j (undone_set k o (insert k v d)) ≡ lookup j d
lookup-undone_set j k v none d h =
    ground (arith, lookup-insert k j v d, lookup-erase k j (insert k v d), lookup_of_eq k j d)
lookup-undone_set j k v (some w) d h =
    ground (arith, lookup-insert k j v d, lookup-insert k j w (insert k v d), lookup_of_eq k j d)

-- The rollback log of a SET undoes it.
pub undo-set :
    (id : ℤ) (k v : Str) (d : Database)
    → (r : Database) × (undo_all (insert k v d) (undo_set id k (lookup k d) ∷ []) ≡ ok r) × Same r d
unfolding undo_all undo str_eq has
undo-set id k v d = (
  undone_set k (lookup k d) (insert k v d),
  ground (arith, lookup-insert k k v d, str_eq_iff k k),
  λ j. lookup-undone_set j k v (lookup k d) d refl,
)

-- The state behind a successful rollback.
abbrev pub rolled : Participant → Database → Participant
rolled p d = record p { db = d; rollback_log = [] }

pub roll_back_lem :
    (p : Participant) (d : Database)
    → undo_all p.db p.rollback_log ≡ ok d
    → roll_back p ≡ ok (rolled p d)
unfolding roll_back undo_all
roll_back_lem p d h = ground arith
