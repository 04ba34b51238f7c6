-- ===== src/Tests/Elections.antt =====
-- Nodes of lab3/src_raft on concrete inputs.
use cloud_computing_lab.Base.{
  ℕ, ◌≢◌, ◌≡◌, refl, true, false, List, [], ◌∷◌, ◌++◌, some, arith, pos, ok, err,
  undefined_behaviour, terminated, ◌>>=◌, ◌==◌, if◌then◌else◌, ltb,
}
use cloud_computing_lab.Text.{
  Str, codes, str_eq, stoi, unsigned, signed, scan, to_string, show_ℕ, digits, words, lines, chop,
  split_on, nonempty,
}
use cloud_computing_lab.Text.Find.{cut_at, contains, starts_with}
use cloud_computing_lab.Text.Pieces.{IsWord}
use cloud_computing_lab.TwoPhase.Database.{insert}
use cloud_computing_lab.TwoPhase.Message.{set_word, get_word}
use cloud_computing_lab.TwoPhase.Message.Client.{resp, plain}
use cloud_computing_lab.Raft.Message.{
  parse_clinet_message, parse_config_file, config_lines, config_line,
}
use cloud_computing_lab.Raft.Node.{
  Node, follower, candidate, leader, Event, sent_fd, sent_node, agree_vote, vote_request, Connects,
  handle_commit_request, handle_text, construct, start_node, read_info, node_index, write_at,
  become_leader, become_follower, become_candidate, election_timed_out, send_request_vote,
  send_others, send_node, handle_recv_vote, no_state, spaced_out,
}
use cloud_computing_lab.Raft.Steps.{here, next, receive}
use cloud_computing_lab.Raft.Leadership.{leader_remains, one_candidacy}
use cloud_computing_lab.Raft.Election.{IsTabled}
use cloud_computing_lab.Raft.Votes.{hear_votes, outcome, votes_needed}
use cloud_computing_lab.Raft.Exchange.{Sends, vote_exchange}
use cloud_computing_lab.Raft.Replication.{Write}
use cloud_computing_lab.Raft.Requests.{IsPlain, get_reads_set, get_without_key}

-- A cluster of three nodes, as the configuration names them.
abbrev config : Str
config =
    codes "! nodes"
    ++ 10 ∷ codes "follower_info 127.0.0.1:8001"
    ++ 10 ∷ 10 ∷ codes "follower_info 127.0.0.1:8002"
    ++ 10 ∷ codes "follower_info 127.0.0.1:8003"
    ++ 10 ∷ []

abbrev info : List (List Str)
info =
    (codes "follower_info" ∷ codes "127.0.0.1" ∷ codes "8001" ∷ [])
    ∷ (codes "follower_info" ∷ codes "127.0.0.1" ∷ codes "8002" ∷ [])
    ∷ (codes "follower_info" ∷ codes "127.0.0.1" ∷ codes "8003" ∷ [])
    ∷ []

parse_config_file-info : parse_config_file (some config) ≡ some (ok info)
unfolding parse_config_file config_lines config_line cut_at words lines chop split_on nonempty
parse_config_file-info = refl

abbrev all_up : Connects
all_up ip port = true

-- The node with an id, as the constructor makes it.
abbrev the_node : ℕ → Node
the_node nodeid = record (no_state 3 nodeid) {
  current_state = if ltb 0 nodeid then follower else leader;
  node_ip = codes "127.0.0.1" ∷ codes "127.0.0.1" ∷ codes "127.0.0.1" ∷ [];
  node_port = pos 8001 ∷ pos 8002 ∷ pos 8003 ∷ [];
  timer_runs = ltb 0 nodeid;
  handler_waits = true;
  heart_beats = nodeid == 0;
}

made_leader : construct 3 0 info ≡ ok (the_node 0)
unfolding construct read_info node_index write_at become_leader become_follower stoi unsigned signed
    scan
made_leader = refl

started : start_node (some config) ≡ some (ok (the_node 0))
unfolding start_node parse_config_file config_lines config_line cut_at words lines chop split_on
    nonempty construct read_info node_index write_at become_leader become_follower stoi unsigned
    signed scan
started = refl

made_follower : construct 3 1 info ≡ ok (the_node 1)
unfolding construct read_info node_index write_at become_leader become_follower stoi unsigned signed
    scan
made_follower = refl

-- The leader takes a commit message.
abbrev city_set : Node
city_set = record (the_node 0) { kvdb = (codes "city", codes "Changsha ") ∷ [] }

commit_received :
    handle_text all_up (the_node 0) (codes "COMMIT SET city Changsha ") (pos 5) ≡ ok (city_set, [])
unfolding handle_text contains starts_with handle_commit_request words split_on nonempty str_eq
    spaced_out insert
commit_received = refl

leader_remains_example : city_set.current_state ≡ leader
leader_remains_example =
    leader_remains 3 0 info (the_node 0) (the_node 0) city_set made_leader here refl
      (next here (receive all_up (codes "COMMIT SET city Changsha ") (pos 5) [] commit_received))

-- Node 1 and its candidacy.
abbrev late : Node
late = record (the_node 1) { is_timeout = true; timer_runs = false }

abbrev standing_1 : Node
standing_1 = record late {
  current_state = candidate;
  candidate_votenum = some 1;
  handler_waits = false;
}

abbrev asked : List Event
asked =
    Event.sent_node (codes "127.0.0.1") (pos 8001) (codes "RequestVote! 1")
    ∷ Event.sent_node (codes "127.0.0.1") (pos 8003) (codes "RequestVote! 1")
    ∷ []

stood : election_timed_out all_up late ≡ ok (standing_1, asked)
unfolding election_timed_out become_candidate send_request_vote send_others send_node to_string
    show_ℕ digits
stood = refl

abbrev elected : Node
elected = record standing_1 {
  current_state = leader;
  current_leader = 1;
  candidate_votenum = some 2;
  heart_beats = true;
}

vote_received : handle_text all_up standing_1 (codes "AgreeVote!") (pos 5) ≡ ok (elected, [])
unfolding handle_text contains starts_with handle_recv_vote become_leader
vote_received = refl

one_candidacy_example : (elected.handler_waits ≡ false) × (elected.current_state ≢ follower)
one_candidacy_example =
    one_candidacy all_up late standing_1 elected asked stood
      (next here (receive all_up (codes "AgreeVote!") (pos 5) [] vote_received))

votes_needed_example :
    (hear_votes 2 all_up (pos 5) standing_1 >>= λ m. ok m.current_state) ≡ outcome 3 2
votes_needed_example = votes_needed all_up (pos 5) late standing_1 asked 2 refl stood

-- The second of two votes ends the process.
two_votes : outcome 3 2 ≡ err terminated
two_votes = refl

abbrev local : Str
local = codes "127.0.0.1"

-- Node 1 asks node 2.
vote_exchange_example :
    Sends (sent_node local (pos 8003) (vote_request 1)) asked
    × (handle_text all_up (the_node 2) (vote_request 1) (pos 5)
        ≡ ok (
          record (the_node 2) { election_timeout = true },
          sent_node local (pos 8002) agree_vote ∷ [],
        ))
    × ((handle_text all_up standing_1 agree_vote (pos 5) >>= λ x. ok x.0.current_state) ≡ ok leader)
vote_exchange_example =
    vote_exchange all_up (pos 5) late standing_1 (the_node 2) asked 2 local local (pos 8003)
      (pos 8002) stood refl (omega arith) (omega arith) (λ e. omega (arith, e))
      (record { has_ip = refl; has_port = refl; is_up = refl })
      (record { has_ip = refl; has_port = refl; is_up = refl })

abbrev city : Str
city = codes "city"

-- Three keys to delete, of which one is held, and is named twice.
abbrev cities : Write
cities = Write.del (city ∷ codes "town" ∷ city ∷ [])

changsha-IsWord : IsWord (codes "Changsha")
changsha-IsWord = record {
  some_byte = λ e. cc;
  no_space = (refl, (refl, (refl, (refl, (refl, (refl, (refl, (refl, tt))))))));
}

city-IsWord : IsWord city
city-IsWord = record { some_byte = λ e. cc; no_space = (refl, (refl, (refl, (refl, tt)))) }

the_node-IsTabled : IsTabled (the_node 0)
the_node-IsTabled = record { ips = refl; ports = refl }

city-IsPlain : IsPlain city
unfolding plain
city-IsPlain = record { is_word = city-IsWord; is_plain = refl }

changsha-IsPlain : IsPlain (codes "Changsha")
unfolding plain
changsha-IsPlain = record { is_word = changsha-IsWord; is_plain = refl }

get_reads_set_example :
    (m : Node) × (events : List Event) × (handle_text all_up
        (the_node 0)
        (resp (set_word ∷ city ∷ codes "Changsha" ∷ []))
        (pos 5)
      ≡ ok (m, events))
    × (handle_text all_up m (resp (get_word ∷ city ∷ [])) (pos 5)
        ≡ ok (m, sent_fd (pos 5) (resp (codes "Changsha" ∷ [])) ∷ []))
get_reads_set_example =
    get_reads_set all_up (the_node 0) city (codes "Changsha" ∷ []) (pos 5) refl the_node-IsTabled
      city-IsPlain (changsha-IsPlain, tt)

get_without_key_example :
    (parse_clinet_message (resp (get_word ∷ []))
      ≡ record { valid = false; split_message = get_word ∷ [] })
    × (handle_text all_up city_set (resp (get_word ∷ [])) (pos 5) ≡ err undefined_behaviour)
get_without_key_example = get_without_key all_up city_set (pos 5) refl
