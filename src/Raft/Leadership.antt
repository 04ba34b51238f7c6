-- ===== src/Raft/Leadership.antt =====
-- Leaders and candidates of lab3/src_raft/Node.cpp: what they remain.
use cloud_computing_lab.Base.{
  ◌≢◌, ℕ, ◌+◌, ◌/◌, ◌≡◌, refl, sym, ap, ◌∙◌, inl, inr, false, List, arith, ok, Ensures-ok, leb,
  Bool-cases,
}
use mathlib.Core.Bool.{false≢true}
use cloud_computing_lab.Text.{Str}
use cloud_computing_lab.Raft.Node.{
  Node, follower, leader, Event, Connects, election_timed_out, timer_wakes, construct,
}
use cloud_computing_lab.Raft.Steps.{
  Step, receive, wake, time_out, Reach, here, next, IsRunning, handle_text-Took,
}
use cloud_computing_lab.Raft.Running.{
  vote-Counted, Counted, standing, candidacy, construct-IsRunning, Step-IsRunning,
}

timer_state : (n : Node) → (timer_wakes n).current_state ≡ n.current_state
unfolding timer_wakes
timer_state n = ground arith

Step-led :
    {n m : Node} → Step n m → IsRunning n → n.current_state ≡ leader → m.current_state ≡ leader
Step-led {n} {m} (receive connects text fd events e) r l =
    elim (Ensures-ok e (handle_text-Took connects n text fd)) [
      | inl s ↦ s.same_state.0 ∙ l
      | inr v ↦ let (votes, c) = vote-Counted n m v in let state = c.state in ground (arith, state)
    ]
Step-led {n} {m} (wake runs e) r l = ap (λ (k : Node). k.current_state) e ∙ timer_state n ∙ l
Step-led {n} {m} (time_out connects events waits late e) r l = elim (r.led l) [
  | inl h ↦ cc
  | inr t ↦ cc
]

Reach-IsRunning : {n m : Node} → IsRunning n → Reach n m → IsRunning m
Reach-IsRunning r here = r
Reach-IsRunning r (next path step) = Step-IsRunning step (Reach-IsRunning r path)

Reach-led :
    {n m : Node} → IsRunning n → n.current_state ≡ leader → Reach n m → m.current_state ≡ leader
Reach-led r l here = l
Reach-led r l (next path step) = Step-led step (Reach-IsRunning r path) (Reach-led r l path)

-- A node that is the leader at some time after its construction remains the leader, whatever
-- messages come, whenever its timer wakes, and whenever a time-out is noticed.
pub leader_remains :
    (num_nodes nodeid : ℕ) (info : List (List Str)) (n m k : Node)
    → construct num_nodes nodeid info ≡ ok n
    → Reach n m
    → m.current_state ≡ leader
    → Reach m k
    → k.current_state ≡ leader
leader_remains num_nodes nodeid info n m k made path l more =
    Reach-led (Reach-IsRunning (Ensures-ok made (construct-IsRunning num_nodes nodeid info)) path) l
      more

timer_handler : (n : Node) → (timer_wakes n).handler_waits ≡ n.handler_waits
unfolding timer_wakes
timer_handler n = ground arith

still_up :
    (n m : Node) (votes : ℕ)
    → Counted n m votes
    → n.current_state ≢ follower
    → m.current_state ≢ follower
still_up n m votes c f k = elim (Bool-cases (leb (n.num_nodes / 2) (votes + 1))) [
  | inl e ↦ let l : m.current_state ≡ leader = rw e at c.state in cc
  | inr e ↦ let same : m.current_state ≡ n.current_state = rw e at c.state in f (sym same ∙ k)
]

-- A candidacy is behind a node that has votes.
abbrev Ran : Node → Type 0
Ran n = (n.handler_waits ≡ false) × (n.current_state ≢ follower)

Step-Ran : {n m : Node} → Step n m → Ran n → Ran m
Step-Ran {n} {m} (receive connects text fd events e) (h, f) =
    elim (Ensures-ok e (handle_text-Took connects n text fd)) [
      | inl s ↦ (s.same_handler ∙ h, λ k. f (sym s.same_state.0 ∙ k))
      | inr v ↦ let (votes, c) = vote-Counted n m v in (c.threads.2 ∙ h, still_up n m votes c f)
    ]
Step-Ran {n} {m} (wake runs e) (h, f) = rw e (timer_handler n ∙ h, λ k. f (sym (timer_state n) ∙ k))
Step-Ran {n} {m} (time_out connects events waits late e) (h, f) =
    absurd (false≢true (sym h ∙ waits))

Reach-Ran : {n m : Node} → Ran n → Reach n m → Ran m
Reach-Ran r here = r
Reach-Ran r (next path step) = Step-Ran step (Reach-Ran r path)

Ran-standing : (m c : Node) → c ≡ standing m → Ran c
Ran-standing m c e = rw e (refl, λ k. cc)

-- After the time-out of a node no thread waits for a time-out any more, whatever steps follow, and
-- the node is never a follower again.
pub one_candidacy :
    (connects : Connects) (m c k : Node) (events : List Event)
    → election_timed_out connects m ≡ ok (c, events)
    → Reach c k
    → (k.handler_waits ≡ false) × (k.current_state ≢ follower)
one_candidacy connects m c k events e path =
    Reach-Ran (Ran-standing m c (Ensures-ok e (candidacy connects m))) path
