-- ===== src/Raft/Steps.antt =====
-- A node of lab3/src_raft/Node.cpp among others: its threads and the messages that come, as steps.
use cloud_computing_lab.Base.{
  ℕ, ◌≡◌, refl, ◌⊎◌, inl, inr, true, false, List, [], some, ok, Ensures, gives, Ensures-bind,
  Ensures-if, Ensures-ok, Ensures-map, ℤ, get_or, Bool-cases,
}
use cloud_computing_lab.Text.{Str, codes, stoi, str_eq, words}
use cloud_computing_lab.Text.Find.{contains}
use cloud_computing_lab.TwoPhase.Message.{set_word, get_word, del_word, commit_word}
use cloud_computing_lab.Raft.Message.{parse_clinet_message}
use cloud_computing_lab.Raft.Node.{
  Node, NodeState, follower, candidate, leader, Event, Connects, commit, handle_commit_request,
  run_request, handle_request_vote, handle_recv_vote, handle_text, restart_election,
  send_leader_info, send_node, send_others, election_timed_out, timer_wakes, index, at, serve_as,
  commit_message, agree_vote,
}

-- One step of a node: a message comes in, its timer's wait ends, or its time-out is noticed.
pub data Step (n : Node) (m : Node) : Type 0 where
  receive :
      (connects : Connects) (text : Str) (fd : ℤ) (events : List Event)
      → handle_text connects n text fd ≡ ok (m, events)
      → Step n m
  wake : n.timer_runs ≡ true → m ≡ timer_wakes n → Step n m
  time_out :
      (connects : Connects) (events : List Event)
      → n.handler_waits ≡ true
      → n.is_timeout ≡ true
      → election_timed_out connects n ≡ ok (m, events)
      → Step n m

pub data Reach (n : Node) : Node → Type 0 where
  here : Reach n n
  next : {m k : Node} → Reach n m → Step m k → Reach n k

-- The threads of a node: the timer of a follower has not timed out, and ends before the candidacy;
-- a leader has no thread left that could start an election.
pub record IsRunning (n : Node) : Type 0 where
  pub timer : n.timer_runs ≡ true → n.is_timeout ≡ false
  pub voted :
      (votes : ℕ)
      → n.candidate_votenum ≡ some votes
      → (n.handler_waits ≡ false) × (n.timer_runs ≡ false)
  pub led :
      n.current_state ≡ leader
      → (n.handler_waits ≡ false) ⊎ ((n.is_timeout ≡ false) × (n.timer_runs ≡ false))

-- What no message changes.
pub record SameRole (n m : Node) : Type 0 where
  pub same_timeout : m.is_timeout ≡ n.is_timeout
  pub same_timer : m.timer_runs ≡ n.timer_runs
  pub same_handler : m.handler_waits ≡ n.handler_waits
  pub same_beats : m.heart_beats ≡ n.heart_beats
  pub same_state : (m.current_state ≡ n.current_state) × (m.candidate_votenum ≡ n.candidate_votenum)

pub same_role : (n : Node) → SameRole n n
same_role n = record {
  same_timeout = refl;
  same_timer = refl;
  same_handler = refl;
  same_beats = refl;
  same_state = (refl, refl);
}

-- A message leaves the role of a node, or counts a vote.
abbrev pub Took : Node → Node × List Event → Type 0
Took n x = SameRole n x.0 ⊎ (handle_recv_vote n ≡ ok x.0)

commit-SameRole :
    (n : Node) (parse_msg : List Str) (fd : ℤ)
    → Ensures (λ (x : Node × List Event). SameRole n x.0) (commit n parse_msg fd)
unfolding commit
commit-SameRole n parse_msg fd = Ensures-bind (at parse_msg 0) _ λ method _.
    Ensures-if (str_eq method set_word)
      (λ _. Ensures-bind (at parse_msg 1) _ λ key _. gives _ (kept _))
      λ _. Ensures-if (str_eq method del_word) (λ _. gives _ (kept _)) λ _. gives _ (same_role n)
  where
    kept : (db : List (Str × Str)) → SameRole n (record n { kvdb = db })
    kept db = record {
      same_timeout = refl;
      same_timer = refl;
      same_handler = refl;
      same_beats = refl;
      same_state = (refl, refl);
    }

run_request-SameRole :
    (connects : Connects) (n : Node) (parse_msg : List Str) (fd : ℤ)
    → Ensures (λ (x : Node × List Event). SameRole n x.0) (run_request connects n parse_msg fd)
unfolding run_request
run_request-SameRole connects n parse_msg fd = Ensures-bind (at parse_msg 0) _ λ method _.
    Ensures-if (str_eq method get_word)
      (λ _. Ensures-bind (at parse_msg 1) _ λ key _. gives _ (same_role n))
      λ _.
        Ensures-bind (send_others connects n (commit_message method parse_msg) n.num_nodes 0) _
          λ to_others _.
            Ensures-bind (commit n parse_msg fd) _
              λ x e. gives _ (Ensures-ok e (commit-SameRole n parse_msg fd))

send_leader_info-SameRole :
    (n : Node) (fd : ℤ)
    → Ensures (λ (x : Node × List Event). SameRole n x.0) (send_leader_info n fd)
unfolding send_leader_info
send_leader_info-SameRole n fd =
    Ensures-bind (at n.node_ip n.current_leader) _
      λ ip _. Ensures-bind (at n.node_port n.current_leader) _ λ port _. gives _ (same_role n)

serve_as-SameRole :
    (s : NodeState) (connects : Connects) (n : Node) (text : Str) (fd : ℤ)
    → Ensures (λ (x : Node × List Event). SameRole n x.0) (serve_as s connects n text fd)
unfolding serve_as
serve_as-SameRole follower connects n text fd = send_leader_info-SameRole n fd
serve_as-SameRole candidate connects n text fd = send_leader_info-SameRole n fd
serve_as-SameRole leader connects n text fd =
    Ensures-bind (run_request connects n (parse_clinet_message text).split_message fd) _ λ x ran.
      gives _ (
        Ensures-ok ran
          (run_request-SameRole connects n (parse_clinet_message text).split_message fd))

restart-SameRole : (n : Node) → SameRole n (restart_election n)
unfolding restart_election
restart-SameRole n = record {
  same_timeout = refl;
  same_timer = refl;
  same_handler = refl;
  same_beats = refl;
  same_state = (refl, refl);
}

handle_request_vote-SameRole :
    (connects : Connects) (n : Node) (nodeid : ℤ)
    → Ensures (λ (x : Node × List Event). SameRole n x.0) (handle_request_vote connects n nodeid)
unfolding handle_request_vote
handle_request_vote-SameRole connects n nodeid = Ensures-bind (index nodeid) _ λ i _.
    Ensures-bind (send_node connects n i agree_vote) _ λ events _. gives _ (restart-SameRole n)

commit_request-SameRole : (n : Node) (text : Str) → SameRole n (handle_commit_request n text)
unfolding handle_commit_request
commit_request-SameRole n text =
    elim (Bool-cases (str_eq (get_or (words text) 1 (get_or (words text) 0 [])) set_word)) [
      | inl e ↦ rw e (kept _)
      | inr e ↦ rw e (kept _)
    ]
  where
    kept : (db : List (Str × Str)) → SameRole n (record n { kvdb = db })
    kept db = record {
      same_timeout = refl;
      same_timer = refl;
      same_handler = refl;
      same_beats = refl;
      same_state = (refl, refl);
    }

-- A message leaves the role of the node, or it is a vote.
pub handle_text-Took :
    (connects : Connects) (n : Node) (text : Str) (fd : ℤ)
    → Ensures (Took n) (handle_text connects n text fd)
unfolding handle_text
handle_text-Took connects n text fd =
    Ensures-if (contains (codes "$") text)
      (λ _. Ensures-map (serve_as-SameRole n.current_state connects n text fd) λ x h. inl h)
      λ _.
        Ensures-if (contains commit_word text) (λ _. gives _ (inl (commit_request-SameRole n text)))
          λ _.
            Ensures-if (contains (codes "HeartBeat") text) (λ _. gives _ (inl (restart-SameRole n)))
              λ _.
                Ensures-if (contains (codes "RequestVote") text)
                  (λ _.
                    Ensures-bind (stoi (get_or (words text) 1 (get_or (words text) 0 []))) _
                      λ nodeid _.
                        Ensures-map (handle_request_vote-SameRole connects n nodeid) λ x h. inl h)
                  λ _.
                    Ensures-if (contains (codes "AgreeVote") text)
                      (λ _. Ensures-bind (handle_recv_vote n) _ λ m e. gives _ (inr e))
                      λ _. gives _ (inl (same_role n))
