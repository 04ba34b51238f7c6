-- ===== src/Raft/Running.antt =====
-- The threads of a node of lab3/src_raft through its steps.
use cloud_computing_lab.Base.{
  ℕ, ◌+◌, ◌/◌, ◌≡◌, refl, sym, ap, ◌∙◌, inl, inr, true, false, List, [], ◌∷◌, Option, none, some,
  arith, ok, err, terminated, >>=-eq-ok, ok-injective, Ensures, gives, Ensures-bind, Ensures-ok,
  Ensures-map, in_bounds, if◌then◌else◌, leb, ◌==◌, Bool-cases,
}
use cloud_computing_lab.Text.{Str, stoi}
use cloud_computing_lab.Raft.Node.{
  Node, candidate, leader, Event, Connects, handle_recv_vote, become_leader, become_candidate,
  election_timed_out, timer_wakes, construct, read_info, become_follower, at, write_at, node_index,
  send_request_vote,
}
use cloud_computing_lab.Raft.Steps.{
  Step, receive, wake, time_out, IsRunning, SameRole, same_role, handle_text-Took,
}

SameRole-IsRunning : (n m : Node) → SameRole n m → IsRunning n → IsRunning m
SameRole-IsRunning n m s r =
    let (state, votes) = s.same_state in
    record {
      timer = λ t. s.same_timeout ∙ r.timer (sym s.same_timer ∙ t);
      voted =
          λ v e. let (h, t) = r.voted v (sym votes ∙ e) in (s.same_handler ∙ h, s.same_timer ∙ t);
      led = λ l.
          let threads = r.led (sym state ∙ l) in
          ground (arith, threads, s.same_handler, s.same_timeout, s.same_timer);
    }

-- What a vote does.
pub record Counted (n m : Node) (votes : ℕ) : Type 0 where
  pub had : n.candidate_votenum ≡ some votes
  pub has_now : m.candidate_votenum ≡ some (votes + 1)
  pub threads :
      (m.is_timeout ≡ n.is_timeout)
      × (m.timer_runs ≡ n.timer_runs)
      × (m.handler_waits ≡ n.handler_waits)
  pub state :
      m.current_state ≡ (if leb (n.num_nodes / 2) (votes + 1) then leader else n.current_state)
  pub same_nodes : m.num_nodes ≡ n.num_nodes

some_vote : (o : Option ℕ) (v : ℕ) → in_bounds o ≡ ok v → o ≡ some v
some_vote none v h = cc
some_vote (some w) v h = ap some (ok-injective h)

-- A node that gets through `becomeLeader`.
pub leads :
    (n m : Node)
    → become_leader n ≡ ok m
    → m ≡ record n { current_state = leader; current_leader = n.my_node_id; heart_beats = true }
unfolding become_leader
leads n m e = elim (Bool-cases n.heart_beats) [
  | inl b ↦ let k : err terminated ≡ ok m = rw b at e in cc
  | inr b ↦ sym (ok-injective (rw b at e))
]

pub vote-Counted : (n m : Node) → handle_recv_vote n ≡ ok m → (votes : ℕ) × Counted n m votes
unfolding handle_recv_vote
vote-Counted n m e =
    let (votes, had, counted) = >>=-eq-ok (in_bounds n.candidate_votenum) _ e in
    (
      votes,
      elim (Bool-cases (leb (n.num_nodes / 2) (votes + 1))) [
        | inl enough ↦
            let k =
              leads (record n { candidate_votenum = some (votes + 1) }) m (rw enough at counted) in
            rw k (record {
              had = some_vote _ votes had;
              has_now = refl;
              threads = (refl, refl, refl);
              state = rw enough;
              same_nodes = refl;
            })
        | inr few ↦
            let k = ok-injective (rw few at counted) in
            rw (← k) (record {
              had = some_vote _ votes had;
              has_now = refl;
              threads = (refl, refl, refl);
              state = rw few;
              same_nodes = refl;
            })
      ],
    )

vote-IsRunning : (n m : Node) → handle_recv_vote n ≡ ok m → IsRunning n → IsRunning m
vote-IsRunning n m e r =
    let (votes, c) = vote-Counted n m e in
    let (timeout, timer, handler) = c.threads in
    let (waits, runs) = r.voted votes c.had in
    record {
      timer = λ t. cc;
      voted = λ v _. (handler ∙ waits, timer ∙ runs);
      led = λ l. inl (handler ∙ waits);
    }

wake-IsRunning : (n : Node) → n.timer_runs ≡ true → IsRunning n → IsRunning (timer_wakes n)
unfolding timer_wakes
wake-IsRunning n runs r =
    let not_yet = r.timer runs in
    elim (Bool-cases n.election_timeout) [
      | inl e ↦ rw e (record {
        timer = λ _. not_yet;
        voted = λ v h. let stopped = r.voted v h in cc;
        led = λ l. elim (r.led l) [ inl w ↦ inl w | inr t ↦ cc ];
      })
      | inr e ↦ rw e (record {
        timer = λ t. cc;
        voted = λ v h. let stopped = r.voted v h in cc;
        led = λ l. elim (r.led l) [ inl w ↦ inl w | inr t ↦ cc ];
      })
    ]

-- The node that the noticed time-out leaves.
abbrev pub standing : Node → Node
standing n = record n {
  current_state = candidate;
  candidate_votenum = some 1;
  handler_waits = false;
}

pub candidacy :
    (connects : Connects) (n : Node)
    → Ensures (λ (x : Node × List Event). x.0 ≡ standing n) (election_timed_out connects n)
unfolding election_timed_out become_candidate
candidacy connects n =
    Ensures-bind (send_request_vote connects (standing n)) _ λ sent _. gives _ refl

time_out-IsRunning :
    (connects : Connects) (n m : Node) (events : List Event)
    → n.is_timeout ≡ true
    → election_timed_out connects n ≡ ok (m, events)
    → IsRunning n
    → IsRunning m
time_out-IsRunning connects n m events late e r =
    let stopped : n.timer_runs ≡ false = elim (Bool-cases n.timer_runs) [
      | inl t ↦ let early = r.timer t in cc
      | inr t ↦ t
    ] in
    rw (Ensures-ok e (candidacy connects n))
      (record { timer = λ t. cc; voted = λ v h. (refl, stopped); led = λ l. inl refl })

pub Step-IsRunning : {n m : Node} → Step n m → IsRunning n → IsRunning m
Step-IsRunning {n} {m} (receive connects text fd events e) r =
    elim (Ensures-ok e (handle_text-Took connects n text fd)) [
      | inl s ↦ SameRole-IsRunning n m s r
      | inr v ↦ vote-IsRunning n m v r
    ]
Step-IsRunning {n} {m} (wake runs e) r = rw e (wake-IsRunning n runs r)
Step-IsRunning {n} {m} (time_out connects events waits late e) r =
    time_out-IsRunning connects n m events late e r

-- The constructor.
pub read_info-SameRole :
    (info : List (List Str)) (n : Node) → Ensures (SameRole n) (read_info info n)
unfolding read_info
read_info-SameRole [] n = gives n (same_role n)
read_info-SameRole (t ∷ info) n = Ensures-bind (at t 2) _ λ port _.
    Ensures-bind (stoi port) _ λ nodeport _. Ensures-bind (at t 1) _ λ nodeip _.
      Ensures-bind (node_index nodeport) _ λ i _.
        Ensures-bind (write_at n.node_ip i nodeip) _ λ ips _.
          Ensures-bind (write_at n.node_port i nodeport) _ λ ports _.
            Ensures-map (read_info-SameRole info (record n { node_ip = ips; node_port = ports }))
              λ m s. record {
                same_timeout = s.same_timeout;
                same_timer = s.same_timer;
                same_handler = s.same_handler;
                same_beats = s.same_beats;
                same_state = s.same_state;
              }

pub construct-IsRunning :
    (num_nodes nodeid : ℕ) (info : List (List Str))
    → Ensures IsRunning (construct num_nodes nodeid info)
unfolding construct become_leader become_follower
construct-IsRunning num_nodes nodeid info = elim (Bool-cases (nodeid == 0)) [
  | inl e ↦ rw e (
      Ensures-bind (read_info info _) _ λ n made.
        let s = Ensures-ok made (read_info-SameRole info _) in
        gives _ (record {
          timer = λ t. refl;
          voted = λ v h. let none_yet = s.same_state.1 in cc;
          led = λ l. inr (refl, s.same_timer);
        }))
  | inr e ↦ rw e (
      Ensures-bind (read_info info _) _ λ n made.
        let s = Ensures-ok made (read_info-SameRole info _) in
        gives _ (record {
          timer = λ t. refl;
          voted = λ v h. let none_yet = s.same_state.1 in cc;
          led = λ l. let no_leader = s.same_state.0 in cc;
        }))
]
