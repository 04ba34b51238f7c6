-- ===== src/TwoPhase/Participant/Wire.antt =====
-- The two messages of a transaction at a participant (lab3/src_2pc/Participant.cpp), from the bytes
-- of the coordinator's messages to those of the answers.
use cloud_computing_lab.Base.{◌≡◌, refl, [], ◌∷◌, ok, ℤ, All, ==_iff}
use cloud_computing_lab.Text.{Str, str_eq}
use cloud_computing_lab.Text.Decimal.{FitsInt}
use cloud_computing_lab.TwoPhase.Database.{lookup}
use cloud_computing_lab.TwoPhase.Message.{
  cluster_prepare_request_msg, cluster_commit_msg, cluster_prepare_msg, cluster_done_msg, set_word,
  del_word,
}
use cloud_computing_lab.TwoPhase.Message.RoundTrip.{IsLine, literal-IsLine, parse-cluster_messages}
use cloud_computing_lab.TwoPhase.Participant.{
  Participant, handle_commit_or_abort_phase, commit_reply, prepare_set, prepare_del,
}
use cloud_computing_lab.TwoPhase.Participant.Session.{
  Turn, turn, send_message, respond, receive_again, leave, handle_message, handle_phase_1,
  handle_phase_2,
}
use cloud_computing_lab.TwoPhase.Participant.Transaction.{
  Write, set, del, method_of, arguments, written, commit_addition, prepared, prepare_lem,
  commit_reply-prepared, prepared_db,
}

send_done :
    (id : ℤ) (m a : Str) → send_message (cluster_done_msg id m a) ≡ cluster_done_msg id m a ∷ []
unfolding send_message cluster_done_msg
send_done id m [] = refl
send_done id m (c ∷ a) = refl

send_prepared :
    (id : ℤ) (m : Str) → send_message (cluster_prepare_msg id m) ≡ cluster_prepare_msg id m ∷ []
unfolding send_message cluster_prepare_msg
send_prepared id m = refl

method-IsLine : (w : Write) → IsLine (method_of w)
method-IsLine (set key value) = literal-IsLine set_word refl
method-IsLine (del key keys) = literal-IsLine del_word refl

-- The state behind the vote, with the vote as the last response.
abbrev pub voted : Participant → ℤ → Write → Participant
voted p id w = record (prepared p id w) { last_response_msg = cluster_prepare_msg id (method_of w) }

pub prepared_two : (p : Participant) (id : ℤ) (w : Write) → (voted p id w).phase ≡ 2
unfolding prepare_set prepare_del
prepared_two p id (set key value) = refl
prepared_two p id (del key keys) = refl

pub wire_prepare :
    (p : Participant) (id : ℤ) (w : Write)
    → FitsInt id
    → p.phase ≡ 1
    → All IsLine (arguments w)
    → handle_message p (cluster_prepare_request_msg id (method_of w ∷ arguments w))
      ≡ ok (turn (voted p id w) (cluster_prepare_msg id (method_of w) ∷ []) receive_again)
unfolding handle_message handle_phase_1 str_eq respond
wire_prepare p id w fits one free = rw (
  (parse-cluster_messages id (method_of w ∷ arguments w) [] [] (method-IsLine w, free) tt tt).0,
  (==_iff p.phase 1).1 one,
  prepare_lem p id w fits,
  send_prepared id (method_of w),
)

-- The state and the DONE behind a commit.
abbrev pub done_msg : Participant → ℤ → Write → Str
done_msg p id w = cluster_done_msg id (method_of w) (commit_addition w p.db)

abbrev pub committed : Participant → ℤ → Write → Participant
committed p id w = record (voted p id w) { phase = 1; last_response_msg = done_msg p id w }

pub wire_commit :
    (p : Participant) (id : ℤ) (w : Write)
    → handle_message (voted p id w) (cluster_commit_msg id)
      ≡ ok (turn (committed p id w) (done_msg p id w ∷ []) leave)
unfolding handle_message handle_phase_2 handle_commit_or_abort_phase str_eq respond
wire_commit p id w = rw (
  (parse-cluster_messages id [] [] [] tt tt tt).1,
  prepared_two p id w,
  reply,
  send_done id (method_of w) (commit_addition w p.db),
)
  where
    reply : commit_reply (record (voted p id w) { phase = 1 }) ≡ ok (done_msg p id w)
    reply = unfold commit_reply in commit_reply-prepared p id w

-- A participant in phase 1 that receives the bytes of the coordinator's prepare request for a SET
-- or a DEL, whose words hold no newline, and then those of its COMMIT, answers PREPARED and then
-- DONE, with the number of different keys that were held for a DEL, is in phase 1 again, and holds
-- exactly the effect of the write. The id is a value of an int.
pub wire_transaction :
    (p : Participant) (id : ℤ) (w : Write)
    → FitsInt id
    → p.phase ≡ 1
    → All IsLine (arguments w)
    → (t1 : Turn) × (t2 : Turn) × (handle_message p
          (cluster_prepare_request_msg id (method_of w ∷ arguments w))
        ≡ ok t1)
      × (t1.sent ≡ cluster_prepare_msg id (method_of w) ∷ [])
      × (handle_message t1.participant (cluster_commit_msg id) ≡ ok t2)
      × (t2.sent ≡ done_msg p id w ∷ [])
      × (t2.participant.phase ≡ 1)
      × ((j : Str) → lookup j t2.participant.db ≡ written w p.db j)
wire_transaction p id w fits one free = (
  turn (voted p id w) (cluster_prepare_msg id (method_of w) ∷ []) receive_again,
  turn (committed p id w) (done_msg p id w ∷ []) leave,
  wire_prepare p id w fits one free,
  refl,
  wire_commit p id w,
  refl,
  refl,
  prepared_db p id w,
)
