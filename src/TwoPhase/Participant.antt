-- ===== src/TwoPhase/Participant.antt =====
-- lab3/src_2pc/Participant.cpp: the state of a participant and what it does with each message. A
-- fault ends the process, so the state is not kept beside it.
pub mod Session
pub mod Effects
pub mod Transaction
pub mod Atomicity
pub mod Connection
pub mod Wire
use cloud_computing_lab.Base.{
  ℕ, ◌+◌, List, [], ◌∷◌, ◌++◌, Option, none, some, Result, ok, ◌>>=◌, in_bounds, ℤ, pos, minus_one,
  if◌then◌else◌, get_elem?, drop, is_empty,
}
use cloud_computing_lab.Text.{Str, codes, str_eq, to_string, stoi}
use cloud_computing_lab.TwoPhase.Database.{Database, lookup, has, insert, erase}
use cloud_computing_lab.TwoPhase.Message.{
  cluster_prepare_msg, cluster_done_msg, set_word, get_word, del_word, commit_word, abort_word,
}

pub record Participant : Type 0 where
  pub phase : ℕ
  pub id : ℤ
  pub last_response_msg : Str
  pub db : Database
  pub operation_log : List (List Str)
  pub rollback_log : List (List Str)

-- The constructor: phase 1, no transaction yet.
abbrev pub initial : Participant
initial = record {
  phase = 1;
  id = minus_one;
  last_response_msg = [];
  db = [];
  operation_log = [];
  rollback_log = [];
}

abbrev pub ack_word : Str
ack_word = codes "ACK"

abbrev pub wrong_word : Str
wrong_word = codes "WRONG"

abbrev pub nil_word : Str
nil_word = codes "nil"

-- `v[i]`
abbrev pub at {ℓ} : {A : Type ℓ} → List A → ℕ → Result A
at v i = in_bounds (get_elem? v i)

-- What undoes a SET of the key: a DEL if the key is new, else a SET of the old value.
abbrev pub undo_set : ℤ → Str → Option Str → List Str
undo_set id key none = to_string id ∷ del_word ∷ key ∷ []
undo_set id key (some value) = to_string id ∷ set_word ∷ key ∷ value ∷ []

unfoldable pub prepare_set : Participant → Str → Str → Participant × Str
prepare_set p key value = (
  record p {
    operation_log = p.operation_log ++ (to_string p.id ∷ set_word ∷ key ∷ value ∷ []) ∷ [];
    rollback_log = p.rollback_log ++ undo_set p.id key (lookup key p.db) ∷ [];
    db = insert key value p.db;
    phase = 2;
  },
  cluster_prepare_msg p.id set_word,
)

abbrev pub or_nil : Option Str → Str
or_nil none = nil_word
or_nil (some value) = value

-- A GET answers at once and leaves the phase.
unfoldable pub prepare_get : Participant → Str → Participant × Str
prepare_get p key = (
  record p { operation_log = p.operation_log ++ (to_string p.id ∷ get_word ∷ key ∷ []) ∷ [] },
  cluster_done_msg p.id get_word (or_nil (lookup key p.db)),
)

-- One round of the loop over the keys of a DEL.
unfoldable pub delete_key : Participant → Str → Participant
delete_key p key = elim (lookup key p.db) [
  | none ↦ record p {
    operation_log = p.operation_log ++ (to_string p.id ∷ del_word ∷ key ∷ wrong_word ∷ []) ∷ [];
  }
  | some value ↦ record p {
    operation_log = p.operation_log ++ (to_string p.id ∷ del_word ∷ key ∷ ack_word ∷ []) ∷ [];
    rollback_log = p.rollback_log ++ (to_string p.id ∷ set_word ∷ key ∷ value ∷ []) ∷ [];
    db = erase key p.db;
  }
]

unfoldable pub delete_keys : Participant → List Str → Participant
delete_keys p [] = p
delete_keys p (key ∷ keys) = delete_keys (delete_key p key) keys

unfoldable pub prepare_del : Participant → List Str → Participant × Str
prepare_del p keys = (record (delete_keys p keys) { phase = 2 }, cluster_prepare_msg p.id del_word)

-- The id is set and both logs are cleared before the method is looked at.
unfoldable pub begin : Participant → ℤ → Participant
begin p id = record p { id = id; operation_log = []; rollback_log = [] }

unfoldable pub prepare_method : Participant → Str → List Str → Result (Participant × Str)
prepare_method p method split =
    if str_eq method set_word
    then (do key ← at split 3; value ← at split 4; ok (prepare_set p key value))
    else if str_eq method get_word
    then (do key ← at split 3; ok (prepare_get p key))
    else if str_eq method del_word
    then ok (prepare_del p (drop 3 split))
    else ok (p, [])

-- `handlePreparePhase`
unfoldable pub handle_prepare_phase : Participant → List Str → Result (Participant × Str)
handle_prepare_phase p split = do
  number ← at split 1
  id ← stoi number
  method ← at split 2
  prepare_method (begin p id) method split

-- One entry of the rollback log.
unfoldable pub undo : Database → List Str → Result Database
undo db operation = do
  method ← at operation 1
  if str_eq method set_word
      then (do key ← at operation 2; value ← at operation 3; ok (insert key value db))
      else if str_eq method del_word
      then (do key ← at operation 2; ok (if has key db then erase key db else db))
      else ok db

unfoldable pub undo_all : Database → List (List Str) → Result Database
undo_all db [] = ok db
undo_all db (operation ∷ rest) = do db' ← undo db operation; undo_all db' rest

-- `rollBack`: the entries in the order in which they were logged, and then the log is cleared.
unfoldable pub roll_back : Participant → Result Participant
roll_back p =
    if is_empty p.rollback_log
    then ok p
    else do db ← undo_all p.db p.rollback_log; ok (record p { db = db; rollback_log = [] })

-- The loop that counts the operations marked ACK.
unfoldable pub count_acks : List (List Str) → Result ℕ
count_acks [] = ok 0
count_acks (operation ∷ rest) = do
  mark ← at operation 3
  count ← count_acks rest
  ok (if str_eq mark ack_word then count + 1 else count)

unfoldable pub commit_reply : Participant → Result Str
commit_reply p = do
  first ← at p.operation_log 0
  method ← at first 1
  if str_eq method del_word
      then (do
        count ← count_acks p.operation_log
        ok (cluster_done_msg p.id del_word (to_string (pos count))))
      else ok (cluster_done_msg p.id method [])

unfoldable pub abort_reply : Participant → Result Str
abort_reply p = do
  first ← at p.operation_log 0
  method ← at first 1
  ok (cluster_done_msg p.id method [])

-- `handleCommitOrAbortPhase`
unfoldable pub handle_commit_or_abort_phase : Participant → List Str → Result (Participant × Str)
handle_commit_or_abort_phase p split = do
  let q = record p { phase = 1 }
  verb ← at split 0
  if str_eq verb commit_word
      then (do reply ← commit_reply q; ok (q, reply))
      else if str_eq verb abort_word
      then (do r ← roll_back q; reply ← abort_reply r; ok (r, reply))
      else ok (q, [])
