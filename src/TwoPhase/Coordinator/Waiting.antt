-- ===== src/TwoPhase/Coordinator/Waiting.antt =====
-- What `waitForPrepared` and `waitForCommitOrAbort` of lab3/src_2pc/Coordinator.cpp share: a loop
-- around `select` with time-outs and reconnections. They differ in what they do with an answer and
-- in what they return. Which descriptors `select` looks at (`maxfd`) is left to the network.
use cloud_computing_lab.Base.{
  ℕ, zero, suc, ◌+◌, ◌-◌, Bool, true, false, not, ◌&&◌, List, [], ◌∷◌, Result, ok, ◌>>=◌, ℤ,
  minus_one, is_positive, is_negative, if◌then◌else◌, ltb, ◌==◌,
}
use cloud_computing_lab.Text.{Str}
use cloud_computing_lab.TwoPhase.Coordinator.{
  Network, Selected, failed, timed_out, ready, Process, Peer, is_set, fd_clear, fd_set, close_fd,
  send_message, receive, connect_participant, tick,
}

-- The variables of the waiting loops: `allFdSet`, `aliveParticipantCount`, `preparedCount` or
-- `finishedCount`, `timeout`, and `nReady`,
-- and `response_split_msg` of the second phase. No count is ever below 0.
pub record Round : Type 0 where
  pub process : Process
  pub watched : List ℤ
  pub alive : ℕ
  pub finished : ℕ
  pub timeout : ℕ
  pub n_ready : ℕ
  pub reply : List Str

-- The descriptors that are watched from the start.
unfoldable pub watch_all : List Peer → List ℤ
watch_all [] = []
watch_all (peer ∷ peers) =
    if is_positive peer.socket then fd_set peer.socket (watch_all peers) else watch_all peers

-- Closes the socket of a silent participant, and removes the participant from the system.
unfoldable pub drop_one : Peer → Round → Peer × Round
drop_one peer r =
    if is_positive peer.socket && is_set peer.socket r.watched
    then (
      record peer { socket = minus_one; valid = false },
      record r {
        process = close_fd peer.socket r.process;
        watched = fd_clear peer.socket r.watched;
        alive = r.alive - 1;
      },
    )
    else (peer, r)

-- The loop after the fourth time-out in a row.
unfoldable pub drop_silent : List Peer → Round → List Peer × Round
unfolding drop_one
drop_silent [] r = ([], r)
drop_silent (peer ∷ peers) r =
    let (peer', r1) = drop_one peer r in
    let (peers', r2) = drop_silent peers r1 in (peer' ∷ peers', r2)

-- Sends the request again to the participants that have not answered.
unfoldable pub resend : Str → List Peer → Round → Process → Process
resend msg [] r p = p
resend msg (peer ∷ peers) r p = resend msg peers r (
    if is_positive peer.socket && is_set peer.socket r.watched
    then send_message peer.socket msg p
    else p)

-- A participant whose connection broke is connected to again, or removed from the system.
unfoldable pub reconnect : Network → Str → Peer → Round → Peer × Round
reconnect net msg peer r =
    let c = connect_participant net peer (close_fd peer.socket r.process) in
    let watched = fd_clear peer.socket r.watched in
    if is_negative c.fd
    then (
      record peer { socket = minus_one; valid = false },
      record r { process = c.process; watched = watched; alive = r.alive - 1 },
    )
    else (
      record peer { socket = c.fd },
      record r { process = send_message c.fd msg c.process; watched = fd_set c.fd watched },
    )

-- `getMessage(...)<=0`
abbrev pub is_lost : ℤ → Bool
is_lost flag = not (is_positive flag)

-- What is done with the data of a ready participant whose connection did not break.
abbrev pub Hear : Type 0
Hear = Str → Peer → Round → Result (Peer × Round)

-- A ready participant: its connection broke, or it answered.
unfoldable pub hear_one : Network → Str → Hear → Peer → Round → Result (Peer × Round)
unfolding reconnect
hear_one net msg hear peer r = do
  (code, text) ← receive net peer.socket r.process
  let r' : Round = record r { process = tick r.process; n_ready = r.n_ready - 1 }
  if is_lost code then ok (reconnect net msg peer r') else hear text peer r'

-- One round of the loop over the participants. When `nReady` is 0 the remaining rounds do nothing.
unfoldable pub visit_one : Network → Str → Hear → List ℤ → Peer → Round → Result (Peer × Round)
unfolding hear_one
visit_one net msg hear set peer r =
    if ltb 0 r.n_ready && is_positive peer.socket && is_set peer.socket set
    then hear_one net msg hear peer r
    else ok (peer, r)

unfoldable pub visit :
    Network → Str → Hear → List ℤ → List Peer → Round → Result (List Peer × Round)
unfolding visit_one
visit net msg hear set [] r = ok ([], r)
visit net msg hear set (peer ∷ peers) r = do
  (peer', r1) ← visit_one net msg hear set peer r
  (peers', r2) ← visit net msg hear set peers r1
  ok (peer' ∷ peers', r2)

-- The result of a waiting loop: what is returned, or that the fuel ran out.
pub data Flag : Type 0 where
  flag : ℤ → Flag
  out_of_fuel : Flag

-- One pass of the loop that does not return.
unfoldable pub silent_round : Str → List Peer → Round → List Peer × Round
unfolding drop_silent resend
silent_round msg peers r =
    if r.timeout == 3
    then (let (peers', r') = drop_silent peers r in (peers', record r' { timeout = 0 }))
    else (peers, record r { process = resend msg peers r r.process; timeout = r.timeout + 1 })

abbrev pub Waited : Type 0
Waited = List Peer × Round × Flag

-- The test of the loop.
abbrev pub is_waiting : Round → Bool
is_waiting r = ltb 0 r.alive && ltb r.finished r.alive

-- What a round does with the result of `select`; `again` is the rest of the loop.
unfoldable pub after_select :
    (List Peer → Round → Result Waited)
    → Network
    → Str
    → Hear
    → List Peer
    → Round
    → Selected
    → Result Waited
unfolding visit silent_round
after_select again net msg hear peers r failed = ok (peers, r, flag minus_one)
after_select again net msg hear peers r timed_out =
    let (peers', r') = silent_round msg peers (record r { process = tick r.process }) in
    again peers' r'
after_select again net msg hear peers r (ready n set) = do
  (peers', r') ←
      visit net msg hear set peers (record r { process = tick r.process; timeout = 0; n_ready = n })
  again peers' r'

-- The loop, and behind it the verdict that is returned.
unfoldable pub wait_loop :
    ℕ → Network → Str → Hear → (List Peer → Round → ℤ) → List Peer → Round → Result Waited
unfolding after_select
wait_loop zero net msg hear verdict peers r = ok (peers, r, out_of_fuel)
wait_loop (suc fuel) net msg hear verdict peers r = elim (is_waiting r) [
  | false ↦ ok (peers, r, flag (verdict peers r))
  | true ↦
      after_select (wait_loop fuel net msg hear verdict) net msg hear peers r
        (net.selects r.process.clock r.watched)
]

abbrev pub start_round : List Peer → Process → ℕ → Round
start_round peers p alive = record {
  process = p;
  watched = watch_all peers;
  alive = alive;
  finished = 0;
  timeout = 0;
  n_ready = 0;
  reply = [];
}
