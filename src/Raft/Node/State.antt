-- ===== src/Raft/Node/State.antt =====
-- lab3/src_raft/Node.h: the state of a node, and the messages that it sends to the others. Whether
-- `connect` succeeds for an address is a parameter; the sockets to other nodes are opened and closed
-- within a handler.
use cloud_computing_lab.Base.{
  ℕ, zero, suc, ◌+◌, Bool, List, [], ◌∷◌, ◌++◌, Option, Result, ok, err, undefined_behaviour, ◌>>=◌,
  in_bounds, ℤ, pos, negsuc, if◌then◌else◌, get_elem?, set, ◌==◌,
}
use cloud_computing_lab.Text.{Str}
use cloud_computing_lab.TwoPhase.Database.{Database}

pub data NodeState : Type 0 where
  follower candidate leader : NodeState

-- The timer of a follower, the thread that sends heartbeats and the thread that waits for its time-out run once each.
-- `candidateVotenum` has no value before the first candidacy, and
-- `heart_beats` tells whether `heartbeatThread` has been started.
pub record Node : Type 0 where
  pub num_nodes : ℕ
  pub my_node_id : ℕ
  pub current_leader : ℕ
  pub current_state : NodeState
  pub kvdb : Database
  pub node_ip : List Str
  pub node_port : List ℤ
  pub election_timeout : Bool
  pub is_timeout : Bool
  pub candidate_votenum : Option ℕ
  pub timer_runs : Bool
  pub handler_waits : Bool
  pub heart_beats : Bool

-- What a handler sends to a descriptor or to the address of a node, and the descriptors it closes.
pub data Event : Type 0 where
  sent_fd : ℤ → Str → Event
  sent_node : Str → ℤ → Str → Event
  closed : ℤ → Event

-- Whether `connect` to an address succeeds.
abbrev pub Connects : Type 0
Connects = Str → ℤ → Bool

abbrev pub Handled : Type 0
Handled = Result (Node × List Event)

-- `v[i]`
abbrev pub at {ℓ} : {A : Type ℓ} → List A → ℕ → Result A
at v i = in_bounds (get_elem? v i)

-- Connects to a node and sends it a message, if it is up.
unfoldable pub send_node : Connects → Node → ℕ → Str → Result (List Event)
send_node connects n nodeid message = do
  ip ← at n.node_ip nodeid
  port ← at n.node_port nodeid
  ok (if connects ip port then sent_node ip port message ∷ [] else [])

-- The loops over all nodes but this one, with so many left.
unfoldable pub send_others : Connects → Node → Str → ℕ → ℕ → Result (List Event)
unfolding send_node
send_others connects n message zero nodeid = ok []
send_others connects n message (suc left) nodeid = do
  first ← if nodeid == n.my_node_id then ok [] else send_node connects n nodeid message
  rest ← send_others connects n message left (nodeid + 1)
  ok (first ++ rest)

-- An index that is negative is out of bounds.
abbrev pub index : ℤ → Result ℕ
index (pos i) = ok i
index (negsuc i) = err undefined_behaviour

-- `v[i]=a;`
unfoldable pub write_at {ℓ} : {A : Type ℓ} → List A → ℕ → A → Result (List A)
write_at v i a = do old ← at v i; ok (set v i a)
