-- ===== src/TwoPhase/Participant/Session.antt =====
-- lab3/src_2pc/Participant.cpp: one message, one connection, and the loop of `startup`.
use cloud_computing_lab.Base.{
  ℕ, zero, suc, not, ◌||◌, List, [], ◌∷◌, ◌++◌, none, some, Result, ok, ◌>>=◌, ℤ, pos, minus_one,
  int_eq, is_negative, ◌==◌, if◌then◌else◌, length, is_empty,
}
use cloud_computing_lab.Text.{Str, str_eq, stoi}
use cloud_computing_lab.TwoPhase.Receive.{Recv, get_message}
use cloud_computing_lab.TwoPhase.Message.{
  parse_cluster_msg, prepared_request, commit_word, abort_word,
}
use cloud_computing_lab.TwoPhase.Participant.{
  Participant, at, handle_prepare_phase, handle_commit_or_abort_phase, roll_back,
}

-- How the body of the loop of `handleConnection` ends: another round, `return 1`, or `return -1`.
pub data Next : Type 0 where
  receive_again leave shut_down : Next

pub record Turn : Type 0 where
  pub participant : Participant
  pub sent : List Str
  pub next : Next

-- `sendMessage`: an empty string is not sent. Whether `send` fails is not looked at.
unfoldable pub send_message : Str → List Str
send_message msg = if is_empty msg then [] else msg ∷ []

abbrev pub turn : Participant → List Str → Next → Turn
turn p sent next = record { participant = p; sent = sent; next = next }

-- `lastResponseMsg=...; sendMessage(connfd,lastResponseMsg);`
unfoldable pub respond : Participant → Str → Next → Turn
unfolding send_message
respond p reply next = turn (record p { last_response_msg = reply }) (send_message reply) next

-- The branch `phase==1`.
unfoldable pub handle_phase_1 : Participant → List Str → Result Turn
unfolding respond
handle_phase_1 p split = do
  verb ← at split 0
  if str_eq verb prepared_request
      then (do (q, reply) ← handle_prepare_phase p split; ok (respond q reply receive_again))
      else (do
        number ← at split 1
        msg_id ← stoi number
        ok (
            if int_eq p.id msg_id
            then turn p (send_message p.last_response_msg) leave
            else turn p [] shut_down))

-- The branch `phase==2`. A prepare request with another id aborts the pending transaction first.
unfoldable pub handle_phase_2 : Participant → List Str → Result Turn
unfolding respond
handle_phase_2 p split = do
  verb ← at split 0
  if str_eq verb commit_word || str_eq verb abort_word
      then (do (q, reply) ← handle_commit_or_abort_phase p split; ok (respond q reply leave))
      else (do
        number ← at split 1
        msg_id ← stoi number
        if int_eq msg_id p.id
            then ok (turn p (send_message p.last_response_msg) receive_again)
            else (do
              q ← roll_back p
              (r, reply) ← handle_prepare_phase (record q { phase = 1 }) split
              ok (respond r reply receive_again)))

-- `handleExceptionMessage`, which nothing calls: its result and the response message.
unfoldable pub handle_exception_message :
    Participant → List Str → Str → Result (ℤ × Participant × Str)
handle_exception_message p split response_msg = do
  number ← at split 1
  msg_id ← stoi number
  if int_eq msg_id p.id
      then ok (pos 0, p, p.last_response_msg)
      else if p.phase == 1
      then ok (pos 1, p, response_msg)
      else if p.phase == 2
      then (do
        q ← roll_back p
        (r, reply) ← handle_prepare_phase (record q { phase = 1 }) split
        ok (pos 1, r, reply))
      else ok (pos 0, p, response_msg)

-- What happens with the data of one `getMessage`.
unfoldable pub handle_message : Participant → Str → Result Turn
unfolding handle_phase_1 handle_phase_2
handle_message p text = do
  parsed ← parse_cluster_msg text
  if not parsed.valid
      then ok (turn p [] leave)
      else if p.phase == 1
      then handle_phase_1 p parsed.split_message
      else if p.phase == 2
      then handle_phase_2 p parsed.split_message
      else ok (turn p [] receive_again)

-- A connection returns 1 or -1, or it waits for more data.
pub data Outcome : Type 0 where
  returned : ℤ → Outcome
  waiting : Outcome
  out_of_fuel : Outcome

pub record Session : Type 0 where
  pub participant : Participant
  pub sent : List Str
  pub outcome : Outcome

abbrev pub session : Participant → List Str → Outcome → Session
session p sent outcome = record { participant = p; sent = sent; outcome = outcome }

abbrev pub buffer_size : ℕ
buffer_size = 512

abbrev pub proceed : Turn → List Str → Result Session → Result Session
proceed t sent again = elim t.next [
  | receive_again ↦ again
  | leave ↦ ok (session t.participant sent (returned (pos 1)))
  | shut_down ↦ ok (session t.participant sent (returned minus_one))
]

-- `handleConnection`, with fuel for its rounds.
unfoldable pub handle_connection : ℕ → Participant → List Recv → List Str → Result Session
unfolding handle_message
handle_connection zero p rs sent = ok (session p sent out_of_fuel)
handle_connection (suc fuel) p rs sent = elim (get_message buffer_size [] rs) [
  | none ↦ ok (session p sent waiting)
  | some got ↦
      if int_eq got.flag (pos 0) || int_eq got.flag minus_one
      then ok (session p sent (returned (pos 1)))
      else (do
        t ← handle_message p got.message
        let again = handle_connection fuel t.participant got.rest (sent ++ t.sent)
        proceed t (sent ++ t.sent) again)
]

-- The loop of `startup` over the connections that it accepts, each with what it receives. It ends
-- after a connection that returns -1.
unfoldable pub serve : Participant → List (List Recv) → List Str → Result Session
unfolding handle_connection
serve p [] sent = ok (session p sent waiting)
serve p (rs ∷ connections) sent = do
  s ← handle_connection (suc (length rs)) p rs sent
  let later = serve s.participant connections s.sent
  elim s.outcome [
    | returned flag ↦ if is_negative flag then ok s else later
    | waiting ↦ ok s
    | out_of_fuel ↦ ok s
  ]
