-- ===== src/Raft/Node.antt =====
-- lab3/src_raft/Node.cpp: a node's loop over connections, and its start.
pub mod State
pub mod Store
pub mod Vote
pub use State.{
  NodeState, follower, candidate, leader, Node, Event, sent_fd, sent_node, closed, Connects,
  Handled, at, index,
}
unfoldable pub use State.{send_node, send_others, write_at}
pub use Store.{reply, nil_reply}
unfoldable pub use Store.{
  spaced_out, delete_keys, commit, commit_message, handle_commit_request, send_leader_info,
  count_spaces, value_reply, run_request, serve_as, handle_client_request, send_request_to_leader,
}
pub use Vote.{heart_beat, vote_request, agree_vote, is_follower}
unfoldable pub use Vote.{
  restart_election, send_heart_beat, beat, become_leader, become_follower, send_request_vote,
  become_candidate, handle_request_vote, handle_recv_vote, timer_wakes, election_timed_out,
}
use cloud_computing_lab.Base.{
  ℕ, ◌+◌, ◌%◌, true, false, List, [], ◌∷◌, ◌++◌, Option, none, some, Result, ok, err,
  undefined_behaviour, ◌>>=◌, in_bounds, ℤ, pos, negsuc, if◌then◌else◌, get_elem?, get_or,
  replicate, length, ◌==◌,
}
use cloud_computing_lab.Text.{Str, codes, words, stoi}
use cloud_computing_lab.Text.Find.{contains}
use cloud_computing_lab.TwoPhase.Receive.{Recv, get_message}
use cloud_computing_lab.TwoPhase.Message.{commit_word}
use cloud_computing_lab.Raft.Message.{parse_config_file, buffer_size}

-- `HandleSockfd` behind `getMessage`, whose flag is only printed.
unfoldable pub handle_text : Connects → Node → Str → ℤ → Handled
unfolding handle_client_request handle_commit_request restart_election handle_request_vote
    handle_recv_vote
handle_text connects n text fd =
    if contains (codes "$") text
    then handle_client_request connects n text fd
    else if contains commit_word text
    then ok (handle_commit_request n text, [])
    else if contains (codes "HeartBeat") text
    then ok (restart_election n, [])
    else if contains (codes "RequestVote") text
    then (do
      nodeid ← stoi (get_or (words text) 1 (get_or (words text) 0 []))
      handle_request_vote connects n nodeid)
    else if contains (codes "AgreeVote") text
    then (do n' ← handle_recv_vote n; ok (n', []))
    else ok (n, [])

-- `HandleSockfd`, and the `close` of the loop of `start`. It is `none` while `recv` blocks.
unfoldable pub handle_sockfd : Connects → Node → List Recv → ℤ → Option Handled
unfolding handle_text
handle_sockfd connects n rs fd = elim (get_message buffer_size [] rs) [
  | none ↦ none
  | some got ↦
      some
        (do (n', events) ← handle_text connects n got.message fd; ok (n', events ++ closed fd ∷ []))
]

-- `nodeport % 8001` as an index: a remainder below 0 is out of bounds.
unfoldable pub node_index : ℤ → Result ℕ
node_index (pos p) = ok (p % 8001)
node_index (negsuc p) = if (p + 1) % 8001 == 0 then ok 0 else err undefined_behaviour

-- The loop of the constructor over the lines of the configuration.
unfoldable pub read_info : List (List Str) → Node → Result Node
unfolding node_index write_at
read_info [] n = ok n
read_info (t ∷ info) n = do
  nodeport ← stoi (← at t 2)
  nodeip ← at t 1
  i ← node_index nodeport
  ips ← write_at n.node_ip i nodeip
  ports ← write_at n.node_port i nodeport
  read_info info (record n { node_ip = ips; node_port = ports })

abbrev pub no_state : ℕ → ℕ → Node
no_state num_nodes nodeid = record {
  num_nodes = num_nodes;
  my_node_id = nodeid;
  current_leader = 0;
  current_state = follower;
  kvdb = [];
  node_ip = replicate num_nodes [];
  node_port = replicate num_nodes (pos 0);
  election_timeout = false;
  is_timeout = false;
  candidate_votenum = none;
  timer_runs = false;
  handler_waits = false;
  heart_beats = false;
}

-- The constructor.
unfoldable pub construct : ℕ → ℕ → List (List Str) → Result Node
unfolding become_leader become_follower read_info
construct num_nodes nodeid info = do
  let n = no_state num_nodes nodeid
  started ← if nodeid == 0 then become_leader n else ok (become_follower n)
  n' ← read_info info started
  ok (record n' { election_timeout = false; is_timeout = false; handler_waits = true })

-- `main` behind the options: the node of the first address in the configuration, without the file
-- none.
unfoldable pub start_node : Option Str → Option (Result Node)
unfolding construct node_index
start_node path = elim (parse_config_file path) [
  | none ↦ none
  | some parsed ↦ some (do
    config_info ← parsed
    first ← in_bounds (get_elem? config_info 0)
    address ← at first 1
    port ← stoi (← at first 2)
    nodeid ← node_index port
    construct (length config_info) nodeid config_info)
]
