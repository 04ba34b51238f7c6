-- ===== src/Raft/Election.antt =====
-- Sending a message to the other nodes of lab3/src_raft/Node.cpp, when every address is known.
use cloud_computing_lab.Base.{
  ℕ, zero, suc, ◌+◌, ◌<◌, ◌≡◌, refl, List, [], ◌∷◌, ◌++◌, arith, ok, if◌then◌else◌, ◌==◌, length,
  inl, inr, Bool-cases,
}
use cloud_computing_lab.Text.{Str}
use cloud_computing_lab.Raft.Node.{Node, Event, Connects, at, send_others, send_node}

at-ok {ℓ} : {A : Type ℓ} (v : List A) (i : ℕ) → i < length v → (a : A) × (at v i ≡ ok a)
at-ok [] i h = absurd (omega arith)
at-ok (x ∷ v) zero h = (x, refl)
at-ok (x ∷ v) (suc i) h = at-ok v i (omega arith)

-- The address of every node is known.
pub record IsTabled (n : Node) : Type 0 where
  pub ips : length n.node_ip ≡ n.num_nodes
  pub ports : length n.node_port ≡ n.num_nodes

send_node_total :
    (connects : Connects) (n : Node) (i : ℕ) (message : Str)
    → IsTabled n
    → i < n.num_nodes
    → (events : List Event) × (send_node connects n i message ≡ ok events)
unfolding send_node
send_node_total connects n i message t lt =
    let (a, ea) = at-ok n.node_ip i (let l = t.ips in omega (arith, l)) in
    let (b, eb) = at-ok n.node_port i (let l = t.ports in omega (arith, l)) in
    (if connects a b then Event.sent_node a b message ∷ [] else [], rw (ea, eb))

pub send_others_total :
    (connects : Connects) (n : Node) (message : Str) (left i : ℕ)
    → IsTabled n
    → i + left ≡ n.num_nodes
    → (events : List Event) × (send_others connects n message left i ≡ ok events)
unfolding send_others
send_others_total connects n message zero i t e = ([], refl)
send_others_total connects n message (suc left) i t e =
    let (rest, er) = send_others_total connects n message left (i + 1) t (omega (arith, e)) in
    elim (Bool-cases (i == n.my_node_id)) [
      | inl own ↦ (rest, rw (own, er))
      | inr other ↦
          let (first, ef) = send_node_total connects n i message t (omega (arith, e)) in
          (first ++ rest, rw (other, ef, er))
    ]
