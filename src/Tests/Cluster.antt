-- ===== src/Tests/Cluster.antt =====
-- The messages and the participant of lab3/src_2pc on concrete inputs.
use cloud_computing_lab.Base.{
  All, ℕ, length, ◌<◌, ◌≤◌, ◌≡◌, refl, ◌⊎◌, false, [], ◌∷◌, ◌++◌, some, arith, pos, ok, err,
  undefined_behaviour,
}
use cloud_computing_lab.Text.{
  Str, str_eq, lines, chop, split_on, pop_back, but_last, show_ℕ, digits, codes, to_string,
  is_space,
}
use cloud_computing_lab.Text.Pieces.{IsWord}
use cloud_computing_lab.TwoPhase.Database.{Same, lookup, insert, has, erase}
use cloud_computing_lab.TwoPhase.Receive.{bytes, closed, get_message}
use cloud_computing_lab.TwoPhase.Receive.Chunks.{receive_each, get_message_whole, get_message_exact}
use cloud_computing_lab.TwoPhase.Message.{
  parse_cluster_msg, cluster_lines, parse_client_msg, check_client, client_get_or_del_msg,
  cluster_prepare_request_msg, cluster_commit_msg, cluster_abort_msg, cluster_prepare_msg,
  cluster_done_msg, append_lines, set_word, get_word, commit_word, abort_word, prepared_word,
  prepared_request, done_word,
}
use cloud_computing_lab.TwoPhase.Message.RoundTrip.{
  IsLine, accepted, addition_lines, literal-IsLine, parse-cluster_messages,
}
use cloud_computing_lab.TwoPhase.Message.Client.{
  resp, plain, plain_words, request_words, operation, spaced, IsPlain, parse-resp, parse-request,
  get_reply, Request,
}
use cloud_computing_lab.TwoPhase.Participant.{
  Participant, initial, handle_commit_or_abort_phase, abort_reply, roll_back, undo_all, undo,
}
use cloud_computing_lab.TwoPhase.Participant.Session.{
  Turn, handle_phase_2, respond, turn, handle_message, handle_connection, send_message, session,
  returned, buffer_size, leave,
}
use cloud_computing_lab.TwoPhase.Participant.Transaction.{
  arguments, Write, transaction, method_of, commit_addition, written, commit_applies,
  abort_restores,
}
use cloud_computing_lab.TwoPhase.Participant.Wire.{done_msg, wire_transaction}
use cloud_computing_lab.TwoPhase.Participant.Atomicity.{
  Committed, pending, IsCommit, message_atomic,
}
use cloud_computing_lab.TwoPhase.Participant.Connection.{
  IsRequest, connection_commits, set_without_value,
}

abbrev key : Str
key = codes "city"

abbrev value : Str
value = codes "Changsha"

abbrev stored : Participant
stored = record initial { db = (key, value) ∷ [] }

fits : 7 ≤ 2147483647
fits = omega arith

parse-cluster_messages_example :
    (parse_cluster_msg (cluster_prepare_request_msg (pos 7) (get_word ∷ key ∷ []))
      ≡ ok (accepted (prepared_request ∷ to_string (pos 7) ∷ get_word ∷ key ∷ [])))
    × (parse_cluster_msg (cluster_commit_msg (pos 7))
        ≡ ok (accepted (commit_word ∷ to_string (pos 7) ∷ [])))
    × (parse_cluster_msg (cluster_abort_msg (pos 7))
        ≡ ok (accepted (abort_word ∷ to_string (pos 7) ∷ [])))
    × (parse_cluster_msg (cluster_prepare_msg (pos 7) get_word)
        ≡ ok (accepted (prepared_word ∷ to_string (pos 7) ∷ get_word ∷ [])))
    × (parse_cluster_msg (cluster_done_msg (pos 7) get_word value)
        ≡ ok (accepted (done_word ∷ to_string (pos 7) ∷ get_word ∷ addition_lines value)))
parse-cluster_messages_example =
    parse-cluster_messages (pos 7) (get_word ∷ key ∷ []) get_word value
      (literal-IsLine get_word refl, (literal-IsLine key refl, tt)) (literal-IsLine get_word refl)
      (literal-IsLine value refl)

parse-resp_example :
    parse_client_msg (resp (get_word ∷ codes "*a" ∷ []))
    ≡ ok (check_client (plain_words (get_word ∷ codes "*a" ∷ [])))
parse-resp_example =
    parse-resp (get_word ∷ codes "*a" ∷ [])
      (literal-IsLine get_word refl, (literal-IsLine (codes "*a") refl, tt))

abbrev request : Request
request = Request.set key (codes "Hunan") (codes "Changsha" ∷ [])

key-IsPlain : IsPlain key
unfolding plain
key-IsPlain = record { is_line = literal-IsLine key refl; is_plain = refl }

hunan-IsPlain : IsPlain (codes "Hunan")
unfolding plain
hunan-IsPlain = record { is_line = literal-IsLine (codes "Hunan") refl; is_plain = refl }

value-IsPlain : IsPlain value
unfolding plain
value-IsPlain = record { is_line = literal-IsLine value refl; is_plain = refl }

parse-request_example :
    parse_client_msg (resp (request_words request)) ≡ ok (accepted (operation request))
parse-request_example = parse-request request (key-IsPlain, (hunan-IsPlain, (value-IsPlain, tt)))

one_letter : (c : ℕ) → is_space c ≡ false → IsWord (c ∷ [])
one_letter c h = record { some_byte = λ e. cc; no_space = (h, tt) }

get_reply_example :
    client_get_or_del_msg
      (pos 7)
      (done_word ∷ codes "7" ∷ get_word ∷ (codes "a" ++ spaced (codes "b" ∷ [])) ∷ [])
    ≡ resp (codes "a" ∷ codes "b" ∷ [])
get_reply_example =
    get_reply (pos 7) (codes "7") (codes "a") (codes "b" ∷ [])
      (one_letter 97 refl, (one_letter 98 refl, tt))

get_message_whole_example :
    get_message 2 [] (receive_each ((1 ∷ 2 ∷ []) ∷ []) (bytes (3 ∷ []) ∷ []))
    ≡ some (record { flag = pos 1; message = 1 ∷ 2 ∷ 3 ∷ []; rest = [] })
get_message_whole_example =
    get_message_whole 2 [] ((1 ∷ 2 ∷ []) ∷ []) (3 ∷ []) [] (omega arith) (refl, tt) (omega arith)
      (omega arith)

get_message_exact_example :
    get_message 2 [] (receive_each ((1 ∷ 2 ∷ []) ∷ []) (closed ∷ []))
    ≡ some (record { flag = pos 0; message = 1 ∷ 2 ∷ []; rest = [] })
get_message_exact_example = get_message_exact 2 [] ((1 ∷ 2 ∷ []) ∷ []) [] (omega arith) (refl, tt)

abbrev both : Write
both = Write.del key (codes "town" ∷ key ∷ [])

-- Of three keys to delete one is held, and is named twice.
commit_applies_example :
    (q : Participant) × (transaction stored (pos 7) both commit_word
      ≡ ok (q, cluster_done_msg (pos 7) (method_of both) (commit_addition both stored.db)))
    × (q.phase ≡ 1)
    × ((j : Str) → lookup j q.db ≡ written both stored.db j)
commit_applies_example = commit_applies stored (pos 7) both fits

abort_restores_example :
    (q : Participant) × (transaction stored (pos 7) both abort_word
      ≡ ok (q, cluster_done_msg (pos 7) (method_of both) []))
    × (q.phase ≡ 1)
    × (q.rollback_log ≡ [])
    × Same q.db stored.db
abort_restores_example = abort_restores stored (pos 7) both fits

abbrev pending_set : Participant
pending_set = record stored {
  phase = 2;
  id = pos 7;
  db = (key, codes "Wuhan") ∷ [];
  operation_log = (to_string (pos 7) ∷ set_word ∷ key ∷ codes "Wuhan" ∷ []) ∷ [];
  rollback_log = (to_string (pos 7) ∷ set_word ∷ key ∷ value ∷ []) ∷ [];
  last_response_msg = cluster_prepare_msg (pos 7) set_word;
}

set_without_value_example :
    (parse_client_msg (resp (set_word ∷ key ∷ [])) ≡ ok (accepted (set_word ∷ key ∷ [])))
    × (handle_message stored (cluster_prepare_request_msg (pos 7) (set_word ∷ key ∷ []))
        ≡ err undefined_behaviour)
set_without_value_example = set_without_value stored (pos 7) key fits key-IsPlain refl

pending_set-Committed : Committed pending_set stored.db
unfolding undo_all undo insert has erase str_eq
pending_set-Committed = pending stored.db refl refl (λ k. refl)

abbrev aborted_set : Turn
aborted_set =
    turn
      (record pending_set {
        phase = 1;
        db = stored.db;
        rollback_log = [];
        last_response_msg = cluster_done_msg (pos 7) set_word [];
      })
      (cluster_done_msg (pos 7) set_word [] ∷ []) leave

abort_turn : handle_message pending_set (cluster_abort_msg (pos 7)) ≡ ok aborted_set
unfolding handle_message handle_phase_2 handle_commit_or_abort_phase abort_reply roll_back undo_all
    undo insert has erase str_eq respond send_message parse_cluster_msg cluster_lines lines chop
    split_on pop_back but_last cluster_abort_msg cluster_done_msg to_string show_ℕ digits
abort_turn = refl

message_atomic_example :
    Committed aborted_set.participant stored.db
    ⊎ ((pending_set.phase ≡ 2)
        × IsCommit (cluster_abort_msg (pos 7))
        × Committed aborted_set.participant pending_set.db)
message_atomic_example =
    message_atomic pending_set stored.db (cluster_abort_msg (pos 7)) aborted_set
      pending_set-Committed abort_turn

both-IsLine : All IsLine (arguments both)
both-IsLine =
    (literal-IsLine key refl, (literal-IsLine (codes "town") refl, (literal-IsLine key refl, tt)))

wire_transaction_example :
    (t1 : Turn) × (t2 : Turn) × (handle_message stored
        (cluster_prepare_request_msg (pos 7) (method_of both ∷ arguments both))
      ≡ ok t1)
    × (t1.sent ≡ cluster_prepare_msg (pos 7) (method_of both) ∷ [])
    × (handle_message t1.participant (cluster_commit_msg (pos 7)) ≡ ok t2)
    × (t2.sent ≡ done_msg stored (pos 7) both ∷ [])
    × (t2.participant.phase ≡ 1)
    × ((j : Str) → lookup j t2.participant.db ≡ written both stored.db j)
wire_transaction_example = wire_transaction stored (pos 7) both fits refl both-IsLine

-- A whole buffer would be longer; the request comes in one.
both_request :
    IsRequest stored
      (pos 7)
      both
      []
      (cluster_prepare_request_msg (pos 7) (method_of both ∷ arguments both))
unfolding cluster_prepare_request_msg append_lines to_string show_ℕ digits
both_request = record {
  all_full = tt;
  some_byte = omega arith;
  short = omega arith;
  request = refl;
}

short_commit : length (cluster_commit_msg (pos 7)) < buffer_size
unfolding cluster_commit_msg to_string show_ℕ digits
short_commit = omega arith

connection_commits_example :
    (q r : Participant) × (handle_connection 2 stored
        (bytes (cluster_prepare_request_msg (pos 7) (method_of both ∷ arguments both))
          ∷ bytes (cluster_commit_msg (pos 7))
          ∷ closed
          ∷ [])
        []
      ≡ ok (
          session q
            (cluster_prepare_msg (pos 7) (method_of both) ∷ done_msg stored (pos 7) both ∷ [])
            (returned (pos 1))))
    × (q.phase ≡ 1)
    × ((j : Str) → lookup j q.db ≡ written both stored.db j)
    × (handle_connection 2 stored
          (bytes (cluster_prepare_request_msg (pos 7) (method_of both ∷ arguments both))
            ∷ closed
            ∷ closed
            ∷ [])
          []
        ≡ ok (session r (cluster_prepare_msg (pos 7) (method_of both) ∷ []) (returned (pos 1))))
    × (r.phase ≡ 2)
connection_commits_example =
    connection_commits stored (pos 7) both []
      (cluster_prepare_request_msg (pos 7) (method_of both ∷ arguments both)) 0 (closed ∷ []) fits
      refl both-IsLine both_request short_commit
