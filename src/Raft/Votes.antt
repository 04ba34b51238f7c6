-- ===== src/Raft/Votes.antt =====
-- The votes of lab3/src_raft/Node.cpp: how many of them make a candidate the leader.
use cloud_computing_lab.Base.{
  ℕ, zero, suc, ◌+◌, ◌/◌, ◌≡◌, refl, ap, ◌∙◌, Bool, true, false, ◌&&◌, List, [], some, arith,
  Result, ok, err, terminated, ◌>>=◌, Ensures-ok, in_bounds, ℤ, if◌then◌else◌, leb, ltb, inl, inr,
  Bool-cases,
}
use cloud_computing_lab.Text.Find.{contains, starts_with}
use cloud_computing_lab.Raft.Node.{
  Node, NodeState, candidate, leader, Event, Connects, handle_recv_vote, handle_text, agree_vote,
  become_leader, election_timed_out,
}
use cloud_computing_lab.Raft.Running.{standing, candidacy}

-- As many messages `AgreeVote!` one after the other.
abbrev pub hear_votes : ℕ → Connects → ℤ → Node → Result Node
hear_votes zero connects fd n = ok n
hear_votes (suc k) connects fd n = do
  heard ← hear_votes k connects fd n
  (n', events) ← handle_text connects heard agree_vote fd
  ok n'

pub vote_text :
    (connects : Connects) (n : Node) (fd : ℤ)
    → handle_text connects n agree_vote fd ≡ (handle_recv_vote n >>= λ n'. ok (n', []))
unfolding handle_text contains starts_with
vote_text connects n fd = refl

-- Whether so many votes, besides its own, make a candidate the leader.
abbrev pub wins : ℕ → ℕ → Bool
wins num_nodes k = ltb 0 k && leb (num_nodes / 2) (1 + k)

-- What becomes of a candidate that hears so many votes.
abbrev pub outcome : ℕ → ℕ → Result NodeState
outcome num_nodes zero = ok candidate
outcome num_nodes (suc k) =
    if wins num_nodes k
    then err terminated
    else if wins num_nodes (suc k)
    then ok leader
    else ok candidate

-- A node that has counted so many votes, its own included.
pub record IsCounting (n : Node) (votes : ℕ) (m : Node) : Type 0 where
  pub counted : m.candidate_votenum ≡ some votes
  pub same_nodes : m.num_nodes ≡ n.num_nodes

few_votes :
    (n m : Node) (votes : ℕ)
    → IsCounting n votes m
    → leb (n.num_nodes / 2) (votes + 1) ≡ false
    → handle_recv_vote m ≡ ok (record m { candidate_votenum = some (votes + 1) })
unfolding handle_recv_vote
few_votes n m votes c few =
    let few_here : leb (m.num_nodes / 2) (votes + 1) ≡ false = rw c.same_nodes few in
    rw (ap in_bounds c.counted) (rw few_here refl)

enough_votes :
    (n m : Node) (votes : ℕ)
    → IsCounting n votes m
    → leb (n.num_nodes / 2) (votes + 1) ≡ true
    → handle_recv_vote m ≡ become_leader (record m { candidate_votenum = some (votes + 1) })
unfolding handle_recv_vote
enough_votes n m votes c enough =
    let enough_here : leb (m.num_nodes / 2) (votes + 1) ≡ true = rw c.same_nodes enough in
    rw (ap in_bounds c.counted) (rw enough_here refl)

free_to_lead :
    (n : Node)
    → n.heart_beats ≡ false
    → become_leader n
      ≡ ok (record n { current_state = leader; current_leader = n.my_node_id; heart_beats = true })
unfolding become_leader
free_to_lead n e = rw e

leads_twice : (n : Node) → n.heart_beats ≡ true → become_leader n ≡ err terminated
unfolding become_leader
leads_twice n e = rw e

heard_then :
    (k : ℕ) (connects : Connects) (fd : ℤ) (n m : Node) (r : Result Node)
    → hear_votes k connects fd n ≡ ok m
    → handle_recv_vote m ≡ r
    → hear_votes (suc k) connects fd n ≡ r
heard_then k connects fd n m (ok x) e v = rw (e, vote_text connects m fd, v)
heard_then k connects fd n m (err x) e v = rw (e, vote_text connects m fd, v)

-- A candidate that has counted its own vote.
pub record IsCandidate (n : Node) : Type 0 where
  pub own_vote : n.candidate_votenum ≡ some 1
  pub stands : n.current_state ≡ candidate
  pub no_beats : n.heart_beats ≡ false

module _ (connects : Connects) (fd : ℤ) (n : Node) (candidate_n : IsCandidate n) where
  abbrev Waiting : ℕ → Node → Type 0
  Waiting k m = IsCounting n (1 + k) m × (m.current_state ≡ candidate) × (m.heart_beats ≡ false)

  not_won :
      (k : ℕ)
      → wins n.num_nodes k ≡ false
      → (m : Node) × (hear_votes k connects fd n ≡ ok m) × Waiting k m
  not_won zero h = (
    n,
    refl,
    (
      record { counted = candidate_n.own_vote; same_nodes = refl },
      candidate_n.stands,
      candidate_n.no_beats,
    ),
  )
  not_won (suc k) h =
      let (m, heard, (c, state, beats)) = not_won k (ground arith) in
      (
        record m { candidate_votenum = some (1 + k + 1) },
        heard_then k connects fd n m _ heard (few_votes n m (1 + k) c (ground arith)),
        (record { counted = ap some (omega arith); same_nodes = c.same_nodes }, state, beats),
      )

  pub won :
      (k : ℕ)
      → wins n.num_nodes k ≡ false
      → wins n.num_nodes (suc k) ≡ true
      → (m : Node) × (hear_votes (suc k) connects fd n ≡ ok m)
        × IsCounting n (2 + k) m
        × (m.current_state ≡ leader)
        × (m.heart_beats ≡ true)
  won k h w =
      let (m, heard, (c, state, beats)) = not_won k h in
      let m1 : Node = record m { candidate_votenum = some (1 + k + 1) } in
      (
        record m1 { current_state = leader; current_leader = m.my_node_id; heart_beats = true },
        heard_then k connects fd n m _ heard
            (enough_votes n m (1 + k) c (ground arith) ∙ free_to_lead m1 beats),
        record { counted = ap some (omega arith); same_nodes = c.same_nodes },
        refl,
        refl,
      )

  too_many : (k : ℕ) → wins n.num_nodes k ≡ true → hear_votes (suc k) connects fd n ≡ err terminated
  too_many zero w = cc
  too_many (suc k) w = elim (Bool-cases (wins n.num_nodes k)) [
    | inl already ↦ rw (too_many k already)
    | inr not_yet ↦
        let (m, heard, c, _, beats) = won k not_yet w in
        heard_then (suc k) connects fd n m _ heard (
          enough_votes n m (2 + k) c (ground arith)
          ∙ leads_twice (record m { candidate_votenum = some (2 + k + 1) }) beats)
  ]

  hear_votes_lem :
      (k : ℕ) → (hear_votes k connects fd n >>= λ m. ok m.current_state) ≡ outcome n.num_nodes k
  hear_votes_lem zero = ap ok candidate_n.stands
  hear_votes_lem (suc k) = elim (Bool-cases (wins n.num_nodes k)) [
    | inl already ↦ rw (too_many k already, already)
    | inr not_yet ↦ elim (Bool-cases (wins n.num_nodes (suc k))) [
      | inl now ↦
          let (m, heard, _, state, _) = won k not_yet now in rw (heard, not_yet, now) (ap ok state)
      | inr still ↦
          let (m, heard, (_, state, _)) = not_won (suc k) still in
          rw (heard, not_yet, still) (ap ok state)
    ]
  ]

pub standing-IsCandidate : (n : Node) → n.heart_beats ≡ false → IsCandidate (standing n)
standing-IsCandidate n e = record { own_vote = refl; stands = refl; no_beats = e }

-- A node that times out without having sent heartbeats, and then hears so many votes: it stays a
-- candidate until the votes, its own among them, are half of the nodes (rounded down), one other
-- at least; then it is the leader; the next vote ends the process.
pub votes_needed :
    (connects : Connects) (fd : ℤ) (n c : Node) (events : List Event) (k : ℕ)
    → n.heart_beats ≡ false
    → election_timed_out connects n ≡ ok (c, events)
    → (hear_votes k connects fd c >>= λ m. ok m.current_state) ≡ outcome n.num_nodes k
votes_needed connects fd n c events k quiet e =
    rw (Ensures-ok e (candidacy connects n))
      (hear_votes_lem connects fd (standing n) (standing-IsCandidate n quiet) k)
