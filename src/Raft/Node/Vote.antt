-- ===== src/Raft/Node/Vote.antt =====
-- lab3/src_raft/Node.cpp: heartbeats, time-outs and votes.
use cloud_computing_lab.Base.{
  ℕ, ◌+◌, ◌/◌, Bool, true, false, List, ◌++◌, Option, none, some, Result, ok, err, terminated,
  ◌>>=◌, in_bounds, ℤ, pos, if◌then◌else◌, leb, ◌==◌,
}
use cloud_computing_lab.Text.{Str, codes, to_string}
use cloud_computing_lab.Raft.Node.State.{
  NodeState, follower, candidate, leader, Node, Event, Connects, Handled, index, send_node,
  send_others,
}

-- `restartElection`, and `handleHeartBeat`
unfoldable pub restart_election : Node → Node
restart_election n = record n { election_timeout = true }

abbrev pub heart_beat : Str
heart_beat = codes "HeartBeat!"

-- `SendHeartBeat`
unfoldable pub send_heart_beat : Connects → Node → Result (List Event)
unfolding send_others
send_heart_beat connects n = send_others connects n heart_beat n.num_nodes 0

-- A turn of the thread of `startHeartBeat`, which has ended once there is another leader.
unfoldable pub beat : Connects → Node → Result (Option (List Event))
unfolding send_heart_beat
beat connects n =
    if n.current_leader == n.my_node_id
    then (do events ← send_heart_beat connects n; ok (some events))
    else ok none

-- `becomeLeader`. To assign to a thread that was started and not joined ends the process.
unfoldable pub become_leader : Node → Result Node
become_leader n =
    if n.heart_beats
    then err terminated
    else ok (record n { current_state = leader; current_leader = n.my_node_id; heart_beats = true })

-- `becomeFollower`
unfoldable pub become_follower : Node → Node
become_follower n = record n { current_state = follower; timer_runs = true }

abbrev pub vote_request : ℕ → Str
vote_request nodeid = codes "RequestVote! " ++ to_string (pos nodeid)

-- `sendRequestVote`
unfoldable pub send_request_vote : Connects → Node → Result (List Event)
unfolding send_others
send_request_vote connects n = send_others connects n (vote_request n.my_node_id) n.num_nodes 0

-- `becomeCandidate`
unfoldable pub become_candidate : Connects → Node → Handled
unfolding send_request_vote
become_candidate connects n = do
  let n' = record n { current_state = candidate; candidate_votenum = some 1 }
  events ← send_request_vote connects n'
  ok (n', events)

abbrev pub agree_vote : Str
agree_vote = codes "AgreeVote!"

-- `handleRequestVote`
unfoldable pub handle_request_vote : Connects → Node → ℤ → Handled
unfolding send_node restart_election
handle_request_vote connects n nodeid = do
  i ← index nodeid
  events ← send_node connects n i agree_vote
  ok (restart_election n, events)

-- `handleRecvVote`. To count up from no value is undefined.
unfoldable pub handle_recv_vote : Node → Result Node
unfolding become_leader
handle_recv_vote n = do
  votes ← in_bounds n.candidate_votenum
  let n' = record n { candidate_votenum = some (votes + 1) }
  if leb (n.num_nodes / 2) (votes + 1) then become_leader n' else ok n'

abbrev pub is_follower : NodeState → Bool
is_follower follower = true
is_follower _ = false

-- A wait of the timer's thread ends. With no restart since the last wait it is a time-out, and the
-- thread ends; else it waits again while the node is a follower.
unfoldable pub timer_wakes : Node → Node
timer_wakes n =
    if n.election_timeout
    then record n { election_timeout = false; timer_runs = is_follower n.current_state }
    else record n { is_timeout = true; timer_runs = false }

-- The thread of `handleElectionTimeout`, once `is_timeout` holds.
unfoldable pub election_timed_out : Connects → Node → Handled
unfolding become_candidate
election_timed_out connects n = become_candidate connects (record n { handler_waits = false })
