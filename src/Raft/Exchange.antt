-- ===== src/Raft/Exchange.antt =====
-- The votes of lab3/src_raft/Node.cpp from the request of a candidate to the answer that it counts.
use cloud_computing_lab.Base.{
  ℕ, zero, suc, ◌+◌, ◌/◌, ◌≤◌, ◌<◌, ◌≡◌, ◌≢◌, refl, sym, ap, subst, ◌∙◌, true, false, List, [], ◌∷◌,
  ◌++◌, arith, ok, ◌>>=◌, >>=-eq-ok, ok-injective, append_assoc, if◌then◌else◌, ◌==◌, leb, pos, ℤ,
  inl, inr, Bool-cases,
}
use cloud_computing_lab.Text.{Str, codes, to_string, words}
use cloud_computing_lab.Text.Decimal.{
  FitsInt, stoi-to_string, show_no_space, to_string-ne-nil, no_such_byte,
}
use cloud_computing_lab.Text.Find.{contains, starts_with}
use cloud_computing_lab.Text.Pieces.{IsWord, words-append, words_last}
use cloud_computing_lab.Raft.Node.{
  Node, candidate, leader, Event, sent_node, Connects, at, send_others, send_node, vote_request,
  agree_vote, election_timed_out, become_candidate, send_request_vote, handle_text,
  handle_request_vote, restart_election, handle_recv_vote, become_leader,
}
use cloud_computing_lab.Raft.Running.{standing}
use cloud_computing_lab.Raft.Votes.{vote_text}

-- The event is one of them.
abbrev pub Sends : Event → List Event → Type 0
Sends e events = (before : List Event) × (after : List Event) × (events ≡ before ++ e ∷ after)

Sends-left : (e : Event) (xs ys : List Event) → Sends e xs → Sends e (xs ++ ys)
Sends-left e xs ys (before, after, h) =
    (before, after ++ ys, ap (λ t. t ++ ys) h ∙ append_assoc before (e ∷ after) ys)

Sends-right : (e : Event) (xs ys : List Event) → Sends e ys → Sends e (xs ++ ys)
Sends-right e xs ys (before, after, h) =
    (xs ++ before, after, ap (λ t. xs ++ t) h ∙ sym (append_assoc xs before (e ∷ after)))

-- A node that can be reached at an address.
pub record Reachable (connects : Connects) (n : Node) (i : ℕ) (ip : Str) (port : ℤ) : Type 0 where
  pub has_ip : at n.node_ip i ≡ ok ip
  pub has_port : at n.node_port i ≡ ok port
  pub is_up : connects ip port ≡ true

module _ (connects : Connects) (n : Node) (message : Str) where
  send_node_reaches :
      (i : ℕ) (ip : Str) (port : ℤ)
      → Reachable connects n i ip port
      → send_node connects n i message ≡ ok (sent_node ip port message ∷ [])
  unfolding send_node
  send_node_reaches i ip port r = rw (r.has_ip, r.has_port, r.is_up) refl

  send_others_reaches :
      (left i : ℕ) (events : List Event) (j : ℕ) (ip : Str) (port : ℤ)
      → send_others connects n message left i ≡ ok events
      → i ≤ j
      → j < i + left
      → j ≢ n.my_node_id
      → Reachable connects n j ip port
      → Sends (sent_node ip port message) events
  unfolding send_others
  send_others_reaches zero i events j ip port e ge lt other r = absurd (omega (arith, ge, lt))
  send_others_reaches (suc left) i events j ip port e ge lt other r =
      let (first, ef, e1) =
        >>=-eq-ok (if i == n.my_node_id then ok [] else send_node connects n i message) _ e in
      let (rest, er, e2) = >>=-eq-ok (send_others connects n message left (i + 1)) _ e1 in
      subst (Sends (sent_node ip port message)) (ok-injective e2) (elim (Bool-cases (i == j)) [
        | inl same ↦
            let at_j : i ≡ j = ground arith in
            let not_me : (i == n.my_node_id) ≡ false = ground arith in
            let sent : send_node connects n i message ≡ ok (sent_node ip port message ∷ []) =
              rw at_j (send_node_reaches j ip port r) in
            let one : sent_node ip port message ∷ [] ≡ first =
              ok-injective (sym sent ∙ (rw not_me at ef)) in
            Sends-left _ first rest ([], [], sym one)
        | inr differ ↦ Sends-right _ first rest (
            send_others_reaches left (i + 1) rest j ip port er (ground arith) (omega (arith, lt))
              other r)
      ])

request-IsWord : IsWord (codes "RequestVote!")
request-IsWord = record {
  some_byte = λ e. cc;
  no_space = (
    refl,
    (refl, (refl, (refl, (refl, (refl, (refl, (refl, (refl, (refl, (refl, (refl, tt))))))))))),
  );
}

words-vote_request :
    (id : ℕ) → words (vote_request id) ≡ codes "RequestVote!" ∷ to_string (pos id) ∷ []
words-vote_request id =
    words-append (codes "RequestVote!") 32 (to_string (pos id)) request-IsWord refl
    ∙ ap (λ ws. codes "RequestVote!" ∷ ws)
        (words_last (to_string (pos id))
          (record { some_byte = to_string-ne-nil (pos id); no_space = show_no_space id }))

-- A node that is asked for its vote lets its timer run again, and gives the vote.
asked :
    (connects : Connects) (f : Node) (id : ℕ) (fd : ℤ) (ip : Str) (port : ℤ)
    → FitsInt (pos id)
    → Reachable connects f id ip port
    → handle_text connects f (vote_request id) fd
      ≡ ok (record f { election_timeout = true }, sent_node ip port agree_vote ∷ [])
unfolding handle_text contains starts_with handle_request_vote restart_election
asked connects f id fd ip port fits r =
    rw
      (
        no_such_byte b'$' [] id refl,
        no_such_byte b'C' (codes "OMMIT") id refl,
        no_such_byte b'H' (codes "eartBeat") id refl,
        words-vote_request id,
        stoi-to_string (pos id) fits,
        send_node_reaches connects f agree_vote id ip port r,
      )
      refl

first_vote :
    (connects : Connects) (n : Node) (fd : ℤ)
    → n.heart_beats ≡ false
    → (handle_text connects (standing n) agree_vote fd >>= λ x. ok x.0.current_state)
      ≡ ok (if leb (n.num_nodes / 2) 2 then leader else candidate)
unfolding handle_recv_vote become_leader
first_vote connects n fd quiet =
    rw (vote_text connects (standing n) fd) (elim (Bool-cases (leb (n.num_nodes / 2) 2)) [
      | inl enough ↦ rw (enough, quiet) refl
      | inr few ↦ rw few refl
    ])

-- A candidate and another node of the cluster, each of which can reach the other: when the
-- candidate's election has timed out, it has sent the request for votes to the other node; that node
-- handles the request by letting its timer run again and sending AgreeVote to the candidate; and the
-- first AgreeVote makes the candidate the leader if half of the nodes (rounded down) are two at
-- most, and leaves it a candidate else. The candidate sends no heartbeats yet, and its number is a
-- value of an int.
pub vote_exchange :
    (connects : Connects) (fd : ℤ) (n c f : Node) (events : List Event) (j : ℕ) (to from : Str)
    (to_port from_port : ℤ)
    → election_timed_out connects n ≡ ok (c, events)
    → n.heart_beats ≡ false
    → FitsInt (pos n.my_node_id)
    → j < n.num_nodes
    → j ≢ n.my_node_id
    → Reachable connects n j to to_port
    → Reachable connects f n.my_node_id from from_port
    → Sends (sent_node to to_port (vote_request n.my_node_id)) events
      × (handle_text connects f (vote_request n.my_node_id) fd
          ≡ ok (record f { election_timeout = true }, sent_node from from_port agree_vote ∷ []))
      × ((handle_text connects c agree_vote fd >>= λ x. ok x.0.current_state)
          ≡ ok (if leb (n.num_nodes / 2) 2 then leader else candidate))
unfolding election_timed_out become_candidate send_request_vote
vote_exchange connects fd n c f events j to from to_port from_port e quiet fits lt other there
      back =
    let (sent, es, e1) =
      >>=-eq-ok (send_others connects (standing n) (vote_request n.my_node_id) n.num_nodes 0) _ e in
    let same : (standing n, sent) ≡ (c, events) = ok-injective e1 in
    (
      subst (Sends (sent_node to to_port (vote_request n.my_node_id))) (ap (λ x. x.1) same) (
          send_others_reaches connects (standing n) (vote_request n.my_node_id) n.num_nodes 0 sent j
            to to_port es (omega arith) (omega (arith, lt)) other
            (record { has_ip = there.has_ip; has_port = there.has_port; is_up = there.is_up })),
      asked connects f n.my_node_id fd from from_port fits back,
      ap (λ m. handle_text connects m agree_vote fd >>= λ x. ok x.0.current_state)
            (sym (ap (λ x. x.0) same))
          ∙ first_vote connects n fd quiet,
    )
