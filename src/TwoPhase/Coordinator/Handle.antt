-- ===== src/TwoPhase/Coordinator/Handle.antt =====
-- The handlers of lab3/src_2pc/Coordinator.cpp for the clients' SET, GET and DEL.
use cloud_computing_lab.Base.{
  ℕ, zero, suc, ◌+◌, not, ◌||◌, List, [], ◌∷◌, Option, none, some, Result, ok, ◌>>=◌, ℤ, pos,
  minus_one, int_eq, is_positive, if◌then◌else◌, ◌==◌, ◌&&◌, get_elem?, in_bounds, length, set,
}
use cloud_computing_lab.Text.{Str, str_eq}
use cloud_computing_lab.TwoPhase.Message.{
  parse_client_msg, set_word, get_word, del_word, cluster_prepare_request_msg, cluster_commit_msg,
  cluster_abort_msg, client_ok_msg, client_error_msg, client_get_or_del_msg,
}
use cloud_computing_lab.TwoPhase.Coordinator.{
  Network, Process, Peer, send_to_all, send_message, connect_all, connect_participant, tick,
}
use cloud_computing_lab.TwoPhase.Coordinator.Waiting.{
  Round, Waited, Flag, flag, out_of_fuel, start_round,
}
use cloud_computing_lab.TwoPhase.Coordinator.Prepare.{wait_for_prepared}
use cloud_computing_lab.TwoPhase.Coordinator.Decide.{wait_for_commit_or_abort}

-- The reply to the client, with the state that the operation leaves; `none` if the fuel ran out.
pub record Handled : Type 0 where
  pub peers : List Peer
  pub process : Process
  pub reply : Option Str

abbrev pub handled : List Peer → Process → Option Str → Handled
handled peers p reply = record { peers = peers; process = p; reply = reply }

-- `vector<int> participantSocket(participantCount,-1);`
unfoldable pub disconnected : List Peer → List Peer
disconnected [] = []
disconnected (peer ∷ peers) = record peer { socket = minus_one } ∷ disconnected peers

-- What the handlers of SET and DEL reply behind the second phase, by what the two phases returned.
unfoldable pub final_reply : Str → ℤ → ℤ → Flag → Option Str
final_reply success prepared id (flag done) =
    some (if int_eq done (pos 1) && int_eq prepared (pos 1) then success else client_error_msg)
final_reply success prepared id out_of_fuel = none

-- The second phase: ABORT if the first returned 0, COMMIT if it returned 1.
unfoldable pub second_phase :
    ℕ → Network → (List Str → Str) → ℤ → ℤ → List Peer → Process → ℕ → Result Handled
unfolding final_reply
second_phase fuel net success id prepared peers p alive = do
  let msg = if int_eq prepared (pos 0) then cluster_abort_msg id else cluster_commit_msg id
  (peers', r, done) ← wait_for_commit_or_abort fuel net msg peers (send_to_all msg peers p) alive
  ok (handled peers' r.process (final_reply (success r.reply) prepared id done))

-- What follows the first phase.
unfoldable pub after_prepare : ℕ → Network → (List Str → Str) → ℤ → Waited → Result Handled
unfolding second_phase
after_prepare fuel net success id (peers, r, out_of_fuel) = ok (handled peers r.process none)
after_prepare fuel net success id (peers, r, flag prepared) =
    if int_eq prepared (pos 0) || int_eq prepared (pos 1)
    then second_phase fuel net success id prepared peers r.process r.alive
    else ok (handled peers r.process (some client_error_msg))

-- The two phases, which `handleSET` and `handleDEL` write out alike but for the reply on success.
unfoldable pub two_phases :
    ℕ → Network → (ℤ → List Str → Str) → List Str → List Peer → Process → Result Handled
unfolding after_prepare disconnected
two_phases fuel net success split peers p =
    let (connected, p1, alive) = connect_all net (disconnected peers) p in
    if alive == 0
    then ok (handled connected p1 (some client_error_msg))
    else (let id = net.random p1.clock in
        let msg = cluster_prepare_request_msg id split in
        do
          waited ←
              wait_for_prepared fuel net msg connected (send_to_all msg connected (tick p1)) alive
          after_prepare fuel net (success id) id waited)

-- `handleSET`
unfoldable pub handle_set : ℕ → Network → List Str → List Peer → Process → Result Handled
unfolding two_phases
handle_set fuel net = two_phases fuel net (λ id reply. client_ok_msg)

-- `handleDEL`
unfoldable pub handle_del : ℕ → Network → List Str → List Peer → Process → Result Handled
unfolding two_phases
handle_del fuel net = two_phases fuel net client_get_or_del_msg

-- The round of a participant that was not waited for.
abbrev pub idle_round : Process → Round
idle_round p = start_round [] p 0

-- What a GET that was answered returns. A result below 1 makes `handleGET` ask the next participant.
unfoldable pub get_result : ℤ → List Str → ℤ → Option Str
get_result id reply done = if is_positive done then some (client_get_or_del_msg id reply) else none

-- One round of the loop of `handleGET`: the participant `i` is asked, if it can be reached.
unfoldable pub ask : ℕ → Network → ℤ → Str → ℕ → Peer → List Peer → Process → Result Waited
ask fuel net id msg i peer peers p =
    let c = connect_participant net peer p in
    if is_positive c.fd
    then wait_for_commit_or_abort fuel net msg
        (set peers i (record peer { valid = c.valid; socket = c.fd }))
        (send_message c.fd msg c.process) 1
    else ok (set peers i (record peer { valid = c.valid }), idle_round c.process, flag minus_one)

-- The loop of `handleGET` from participant `i` on, with so many left.
unfoldable pub get_loop : ℕ → Network → ℤ → Str → ℕ → ℕ → List Peer → Process → Result Handled
unfolding ask get_result
get_loop fuel net id msg zero i peers p = ok (handled peers p (some client_error_msg))
get_loop fuel net id msg (suc left) i peers p = do
  peer ← in_bounds (get_elem? peers i)
  (peers', r, done) ← ask fuel net id msg i peer peers p
  let next = get_loop fuel net id msg left (i + 1) peers' r.process
  elim done [
    | out_of_fuel ↦ ok (handled peers' r.process none)
    | flag code ↦ elim (get_result id r.reply code) [
      | some reply ↦ ok (handled peers' r.process (some reply))
      | none ↦ next
    ]
  ]

-- `handleGET`. An invalid participant is not asked: `connect_participant` returns -1 for it.
unfoldable pub handle_get : ℕ → Network → List Str → List Peer → Process → Result Handled
unfolding get_loop disconnected
handle_get fuel net split peers p =
    let id = net.random p.clock in
    get_loop fuel net id (cluster_prepare_request_msg id split) (length peers) 0
      (disconnected peers) (tick p)

-- `handleConnection`: what is sent to the client, if anything, for the data that came from it.
unfoldable pub handle_client : ℕ → Network → Str → List Peer → Process → Result Handled
unfolding handle_set handle_get handle_del
handle_client fuel net text peers p = do
  parsed ← parse_client_msg text
  if not parsed.valid then ok (handled peers p (some client_error_msg)) else (do
    method ← in_bounds (get_elem? parsed.split_message 0)
    if str_eq method set_word
        then handle_set fuel net parsed.split_message peers p
        else if str_eq method get_word
        then handle_get fuel net parsed.split_message peers p
        else if str_eq method del_word
        then handle_del fuel net parsed.split_message peers p
        else ok (handled peers p (some [])))
