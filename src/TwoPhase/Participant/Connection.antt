-- ===== src/TwoPhase/Participant/Connection.antt =====
-- Connections to a participant (lab3/src_2pc/Participant.cpp, `handleConnection`): two phases over
-- one connection, and a message that a participant cannot read.
use cloud_computing_lab.Base.{
  ℕ, suc, ◌<◌, ◌≡◌, refl, ap, ◌∙◌, List, [], ◌∷◌, ◌++◌, some, arith, ok, err, undefined_behaviour,
  ℤ, pos, ==_iff, length, All,
}
use cloud_computing_lab.Text.{Str, str_eq}
use cloud_computing_lab.Text.Decimal.{FitsInt, stoi-to_string}
use cloud_computing_lab.TwoPhase.Database.{lookup}
use cloud_computing_lab.TwoPhase.Receive.{Recv, closed, bytes, get_message}
use cloud_computing_lab.TwoPhase.Receive.Chunks.{joined, receive_each, get_message_whole}
use cloud_computing_lab.TwoPhase.Message.{
  set_word, cluster_prepare_request_msg, cluster_commit_msg, cluster_prepare_msg, parse_client_msg,
  check_client, is_method, merge_value,
}
use cloud_computing_lab.TwoPhase.Message.RoundTrip.{
  accepted, literal-IsLine, IsLine, parse-cluster_messages,
}
use cloud_computing_lab.TwoPhase.Message.Client.{resp, IsPlain, plain, parse_words}
use cloud_computing_lab.TwoPhase.Participant.{Participant, handle_prepare_phase, prepare_method}
use cloud_computing_lab.TwoPhase.Participant.Session.{
  Turn, handle_message, handle_phase_1, handle_connection, buffer_size, proceed, session, returned,
}
use cloud_computing_lab.TwoPhase.Participant.Transaction.{
  Write, method_of, arguments, written, prepared_db,
}
use cloud_computing_lab.TwoPhase.Participant.Wire.{
  done_msg, voted, committed, prepared_two, wire_prepare, wire_commit,
}

-- A round of the loop over a message that is read whole.
one_round :
    (fuel : ℕ) (p : Participant) (rs rest : List Recv) (sent : List Str) (m : Str) (t : Turn)
    → get_message buffer_size [] rs ≡ some (record { flag = pos 1; message = m; rest = rest })
    → handle_message p m ≡ ok t
    → handle_connection (suc fuel) p rs sent
      ≡ proceed t (sent ++ t.sent) (handle_connection fuel t.participant rest (sent ++ t.sent))
unfolding handle_connection
one_round fuel p rs rest sent m t whole handled = rw (whole, handle_connection) (rw handled refl)

set-IsPlain : IsPlain set_word
unfolding plain
set-IsPlain = record { is_line = literal-IsLine set_word refl; is_plain = refl }

commit_bytes : (id : ℤ) → 0 < length (cluster_commit_msg id)
unfolding cluster_commit_msg
commit_bytes id = omega arith

module _ (p : Participant) (id : ℤ) (w : Write) (full : List Str) (last : Str) where
  -- What the coordinator's prepare request is received as: full buffers, and a last one.
  pub record IsRequest : Type 0 where
    pub all_full : All (λ b. length b ≡ buffer_size) full
    pub some_byte : 0 < length last
    pub short : length last < buffer_size
    pub request : joined full ++ last ≡ cluster_prepare_request_msg id (method_of w ∷ arguments w)

  first_round :
      (fuel : ℕ) (rs : List Recv)
      → FitsInt id
      → p.phase ≡ 1
      → All IsLine (arguments w)
      → IsRequest
      → handle_connection (suc fuel) p (receive_each full (bytes last ∷ rs)) []
        ≡ handle_connection fuel (voted p id w) rs (cluster_prepare_msg id (method_of w) ∷ [])
  first_round fuel rs fits one free got =
      one_round fuel p (receive_each full (bytes last ∷ rs)) rs [] (joined full ++ last) _
        (get_message_whole buffer_size [] full last rs (omega arith) got.all_full got.some_byte
          got.short)
        (ap (handle_message p) got.request ∙ wire_prepare p id w fits one free)

  -- A connection to a participant in phase 1 over which the prepare request of a SET or a DEL comes,
  -- in full buffers and a last one. If the coordinator's COMMIT comes next, the participant sends
  -- PREPARED and DONE over the connection, returns 1, is in phase 1 and holds exactly the effect of
  -- the write. If the connection is closed instead, it has sent PREPARED, returns 1 and waits in
  -- phase 2. The words hold no newline, the id is a value of an int, and the COMMIT does not fill
  -- the buffer.
  pub connection_commits :
      (fuel : ℕ) (rs : List Recv)
      → FitsInt id
      → p.phase ≡ 1
      → All IsLine (arguments w)
      → IsRequest
      → length (cluster_commit_msg id) < buffer_size
      → (q r : Participant) × (handle_connection
            (suc (suc fuel))
            p
            (receive_each full (bytes last ∷ bytes (cluster_commit_msg id) ∷ rs))
            []
          ≡ ok (
              session q
                (cluster_prepare_msg id (method_of w) ∷ done_msg p id w ∷ [])
                (returned (pos 1))))
        × (q.phase ≡ 1)
        × ((j : Str) → lookup j q.db ≡ written w p.db j)
        × (handle_connection (suc (suc fuel)) p (receive_each full (bytes last ∷ closed ∷ rs)) []
            ≡ ok (session r (cluster_prepare_msg id (method_of w) ∷ []) (returned (pos 1))))
        × (r.phase ≡ 2)
  connection_commits fuel rs fits one free got room = (
    committed p id w,
    voted p id w,
    first_round (suc fuel) (bytes (cluster_commit_msg id) ∷ rs) fits one free got
        ∙ one_round fuel (voted p id w) (bytes (cluster_commit_msg id) ∷ rs) rs
            (cluster_prepare_msg id (method_of w) ∷ []) (cluster_commit_msg id) _
            (get_message_whole buffer_size [] [] (cluster_commit_msg id) rs (omega arith) tt
              (commit_bytes id) room)
            (wire_commit p id w),
    refl,
    prepared_db p id w,
    first_round (suc fuel) (closed ∷ rs) fits one free got
        ∙ (unfold handle_connection get_message in refl),
    prepared_two p id w,
  )

-- A SET request with a key and no value passes parseClientMsg, whole and as valid; the prepare
-- request of its words makes a participant in phase 1 read behind the end of the message. The key
-- holds no newline and begins neither with * nor with $, and the id is a value of an int.
pub set_without_value :
    (p : Participant) (id : ℤ) (key : Str)
    → FitsInt id
    → IsPlain key
    → p.phase ≡ 1
    → (parse_client_msg (resp (set_word ∷ key ∷ [])) ≡ ok (accepted (set_word ∷ key ∷ [])))
      × (handle_message p (cluster_prepare_request_msg id (set_word ∷ key ∷ []))
          ≡ err undefined_behaviour)
unfolding handle_message handle_phase_1 handle_prepare_phase prepare_method str_eq
set_without_value p id key fits free one = (
  parse_words (set_word ∷ key ∷ []) (set-IsPlain, (free, tt))
      ∙ (unfold check_client is_method merge_value in refl),
  rw (
    (parse-cluster_messages id (set_word ∷ key ∷ []) [] [] (set-IsPlain.is_line, (free.is_line, tt))
        tt tt).0,
    (==_iff p.phase 1).1 one,
    stoi-to_string id fits,
  ),
)
