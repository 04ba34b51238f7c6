-- ===== src/TwoPhase/Participant/Transaction.antt =====
-- One transaction at a participant (lab3/src_2pc/Participant.cpp): the prepare phase, and then the
-- commit or the abort.
use cloud_computing_lab.Base.{
  ◌≡◌, refl, List, [], ◌∷◌, Option, none, some, Result, ok, ◌>>=◌, ℤ, pos, if◌then◌else◌,
}
use cloud_computing_lab.Text.{Str, str_eq, to_string}
use cloud_computing_lab.Text.Decimal.{FitsInt, stoi-to_string}
use cloud_computing_lab.TwoPhase.Database.{Database, lookup, lookup-insert, Same}
use cloud_computing_lab.TwoPhase.Message.{
  cluster_prepare_msg, cluster_done_msg, set_word, del_word, prepared_request, commit_word,
  abort_word,
}
use cloud_computing_lab.TwoPhase.Participant.{
  Participant, handle_prepare_phase, handle_commit_or_abort_phase, prepare_method, prepare_set,
  prepare_del, begin, undo_all, commit_reply, abort_reply,
}
use cloud_computing_lab.TwoPhase.Participant.Effects.{
  mem, del_entries, delete_keys_lem, undo_del, undo-set, held, count_acks-del_entries,
  lookup-without, rolled, roll_back_lem,
}

-- An operation that writes. A DEL names one key or more.
pub data Write : Type 0 where
  set : Str → Str → Write
  del : Str → List Str → Write

abbrev pub method_of : Write → Str
method_of (set key value) = set_word
method_of (del key keys) = del_word

abbrev pub arguments : Write → List Str
arguments (set key value) = key ∷ value ∷ []
arguments (del key keys) = key ∷ keys

-- The prepare request of the coordinator, as it is parsed.
abbrev pub prepare_lines : ℤ → Write → List Str
prepare_lines id w = prepared_request ∷ to_string id ∷ method_of w ∷ arguments w

-- What a key holds after the operation.
abbrev pub written : Write → Database → Str → Option Str
written (set key value) d j = if str_eq key j then some value else lookup j d
written (del key keys) d j = if mem j (key ∷ keys) then none else lookup j d

-- What the DONE of a commit carries: for a DEL how many of its different keys were held.
abbrev pub commit_addition : Write → Database → Str
commit_addition (set key value) d = []
commit_addition (del key keys) d = to_string (pos (held (key ∷ keys) d))

-- The state behind the vote.
abbrev pub prepared : Participant → ℤ → Write → Participant
prepared p id (set key value) = (prepare_set (begin p id) key value).0
prepared p id (del key keys) = (prepare_del (begin p id) (key ∷ keys)).0

pub prepare_lem :
    (p : Participant) (id : ℤ) (w : Write)
    → FitsInt id
    → handle_prepare_phase p (prepare_lines id w)
      ≡ ok (prepared p id w, cluster_prepare_msg id (method_of w))
unfolding handle_prepare_phase prepare_method str_eq prepare_set prepare_del begin
prepare_lem p id (set key value) fits = rw (stoi-to_string id fits)
prepare_lem p id (del key keys) fits = rw (stoi-to_string id fits)

-- The decision, by its verb.
abbrev pub decide : Participant → ℤ → Str → Result (Participant × Str)
decide p id verb = handle_commit_or_abort_phase p (verb ∷ to_string id ∷ [])

-- A prepare and then a decision.
abbrev pub transaction : Participant → ℤ → Write → Str → Result (Participant × Str)
transaction p id w verb = do
  (q, vote) ← handle_prepare_phase p (prepare_lines id w)
  decide q id verb

pub prepared_db :
    (p : Participant) (id : ℤ) (w : Write) (j : Str)
    → lookup j (prepared p id w).db ≡ written w p.db j
unfolding prepare_set prepare_del begin
prepared_db p id (set key value) j = lookup-insert key j value p.db
prepared_db p id (del key keys) j =
    rw (delete_keys_lem (key ∷ keys) _) (lookup-without j (key ∷ keys) p.db)

pub commit_reply-prepared :
    (p : Participant) (id : ℤ) (w : Write)
    → commit_reply (record (prepared p id w) { phase = 1 })
      ≡ ok (cluster_done_msg id (method_of w) (commit_addition w p.db))
unfolding commit_reply prepare_set prepare_del begin str_eq
commit_reply-prepared p id (set key value) = refl
commit_reply-prepared p id (del key keys) =
    rw (delete_keys_lem (key ∷ keys) _)
      (rw (count_acks-del_entries id (key ∷ keys) p.db) (unfold del_entries in refl))

-- A prepared write that is committed ends in phase 1 with exactly its effect on the database, and
-- the DONE carries, for a DEL, the number of its different keys that were held before. The id is a
-- value of an int.
pub commit_applies :
    (p : Participant) (id : ℤ) (w : Write)
    → FitsInt id
    → (q : Participant) × (transaction p id w commit_word
        ≡ ok (q, cluster_done_msg id (method_of w) (commit_addition w p.db)))
      × (q.phase ≡ 1)
      × ((j : Str) → lookup j q.db ≡ written w p.db j)
commit_applies p id w fits = (
  record (prepared p id w) { phase = 1 },
  rw (prepare_lem p id w fits)
      (unfold handle_commit_or_abort_phase str_eq in rw (commit_reply-prepared p id w)),
  refl,
  prepared_db p id w,
)

-- The rollback log behind the vote undoes the operation.
pub undo_prepared :
    (p : Participant) (id : ℤ) (w : Write)
    → (d : Database) × (undo_all (prepared p id w).db (prepared p id w).rollback_log ≡ ok d)
      × Same d p.db
unfolding prepare_set prepare_del begin
undo_prepared p id (set key value) = undo-set id key value p.db
undo_prepared p id (del key keys) =
    rw (delete_keys_lem (key ∷ keys) _) (undo_del id (key ∷ keys) p.db)

abort_reply-prepared :
    (p : Participant) (id : ℤ) (w : Write) (d : Database)
    → abort_reply (rolled (record (prepared p id w) { phase = 1 }) d)
      ≡ ok (cluster_done_msg id (method_of w) [])
unfolding abort_reply prepare_set prepare_del begin
abort_reply-prepared p id (set key value) d = refl
abort_reply-prepared p id (del key keys) d =
    rw (delete_keys_lem (key ∷ keys) _) (unfold del_entries in refl)

-- A prepared write that is aborted ends in phase 1 with an empty rollback log and every key as it
-- was before the prepare. The id is a value of an int.
pub abort_restores :
    (p : Participant) (id : ℤ) (w : Write)
    → FitsInt id
    → (q : Participant) × (transaction p id w abort_word
        ≡ ok (q, cluster_done_msg id (method_of w) []))
      × (q.phase ≡ 1)
      × (q.rollback_log ≡ [])
      × Same q.db p.db
abort_restores p id w fits =
    let (d, undoes, same) = undo_prepared p id w in
    (
      rolled (record (prepared p id w) { phase = 1 }) d,
      rw (prepare_lem p id w fits) (
          unfold handle_commit_or_abort_phase str_eq in
          rw (
            roll_back_lem (record (prepared p id w) { phase = 1 }) d undoes,
            abort_reply-prepared p id w d,
          )),
      refl,
      refl,
      same,
    )
