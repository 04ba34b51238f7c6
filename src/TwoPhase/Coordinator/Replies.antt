-- ===== src/TwoPhase/Coordinator/Replies.antt =====
-- When the handlers of lab3/src_2pc/Coordinator.cpp report success to the client.
use cloud_computing_lab.Base.{
  ℕ, ◌<◌, ok, pos, Ensures-ok, ◌≡◌, refl, sym, ◌∙◌, Bool, true, false, List, [], ◌∷◌, arith, All, ℤ,
  is_positive, minus_one, if◌then◌else◌, Bool-cases, inl, inr, Result, Ensures,
}
use mathlib.Core.Bool.{false≢true}
use cloud_computing_lab.Text.{Str}
use cloud_computing_lab.TwoPhase.Message.{cluster_prepare_request_msg}
use cloud_computing_lab.TwoPhase.Coordinator.{
  Network, Process, Peer, is_set, send_to_all, send_message, connect_all, tick,
}
use cloud_computing_lab.TwoPhase.Coordinator.Waiting.{Waited, flag, start_round, watch_all}
use cloud_computing_lab.TwoPhase.Coordinator.Prepare.{unanswered, wait_for_prepared}
use cloud_computing_lab.TwoPhase.Coordinator.Handle.{disconnected}
use cloud_computing_lab.TwoPhase.Coordinator.Peers.{
  connected, answered, count, Apart, Distinct, is_set_self, is_set_more,
}
use cloud_computing_lab.TwoPhase.Coordinator.Steps.{IsKernel, Local, send_message-open}
use cloud_computing_lab.TwoPhase.Coordinator.Voting.{Inv}
use cloud_computing_lab.TwoPhase.Coordinator.Verdict.{
  IsRight, AllPrepared, SomeRefused, wait_loop-IsRight,
}
use cloud_computing_lab.TwoPhase.Coordinator.Start.{Linked, connect_all-Linked}

send_to_all-open :
    (msg : Str) (ps : List Peer) (p : Process) → (send_to_all msg ps p).open_fds ≡ p.open_fds
unfolding send_to_all
send_to_all-open msg [] p = refl
send_to_all-open msg (q ∷ ps) p = send_to_all-open msg ps _ ∙ one (is_positive q.socket)
  where
    one : (b : Bool) → (if b then send_message q.socket msg p else p).open_fds ≡ p.open_fds
    one true = send_message-open q.socket msg p
    one false = refl

-- Every connected socket is watched.
watch_all-All :
    (w : List ℤ) (ps : List Peer)
    → ((x : ℤ) → is_set x (watch_all ps) ≡ true → is_set x w ≡ true)
    → All (λ q. connected q ≡ true → is_set q.socket w ≡ true) ps
unfolding watch_all
watch_all-All w [] h = tt
watch_all-All w (q ∷ ps) h = elim (Bool-cases (is_positive q.socket)) [
  | inl e ↦
      let h' : (x : ℤ) → is_set x (q.socket ∷ watch_all ps) ≡ true → is_set x w ≡ true =
        rw e at h in
      (
        λ c. h' q.socket (is_set_self q.socket (watch_all ps)),
        watch_all-All w ps (λ x m. h' x (is_set_more x q.socket (watch_all ps) m)),
      )
  | inr e ↦ (λ c. absurd (false≢true (sym e ∙ c)), watch_all-All w ps (rw e at h))
]

start_Local :
    (net : Network) (w o : List ℤ) (ps : List Peer)
    → All (λ q. connected q ≡ true → is_set q.socket w ≡ true) ps
    → All (λ q. connected q ≡ true → is_set q.socket o ≡ true) ps
    → All (Local net w o) (unanswered ps)
unfolding unanswered
start_Local net w o [] h k = tt
start_Local net w o (q ∷ ps) (h, hs) (k, ks) = (
  record { watched_until = h; still_there = λ a. cc; is_open = k; is_vote = inl refl },
  start_Local net w o ps hs ks,
)

Apart-unanswered : (x : ℤ) (ps : List Peer) → All (Apart x) ps → All (Apart x) (unanswered ps)
unfolding unanswered
Apart-unanswered x [] h = tt
Apart-unanswered x (q ∷ ps) (h, hs) = (h, Apart-unanswered x ps hs)

Distinct-unanswered : (ps : List Peer) → Distinct ps → Distinct (unanswered ps)
unfolding unanswered
Distinct-unanswered [] h = tt
Distinct-unanswered (q ∷ ps) (h, hs) =
    (λ c. Apart-unanswered q.socket ps (h c), Distinct-unanswered ps hs)

count-unanswered :
    (ps : List Peer)
    → (count connected (unanswered ps) ≡ count connected ps) × (count answered (unanswered ps) ≡ 0)
unfolding unanswered
count-unanswered [] = (refl, refl)
count-unanswered (q ∷ ps) = let (c, a) = count-unanswered ps in (omega (arith, c), omega (arith, a))

start_Inv :
    {net : Network} (p : Process) (ps : List Peer) (p1 q : Process) (n : ℕ)
    → Linked p ps p1 n
    → q.open_fds ≡ p1.open_fds
    → Inv net (unanswered ps) (start_round ps q n)
start_Inv p ps p1 q n l e =
    let (c, a) = count-unanswered ps in
    record {
      local =
          start_Local _ (watch_all ps) q.open_fds ps (watch_all-All (watch_all ps) ps (λ x h. h))
            (rw e l.are_open);
      distinct = Distinct-unanswered ps l.distinct;
      alive_count = l.number ∙ sym c;
      finished_count = sym a;
    }

-- The first phase of a SET or a DEL.
abbrev pub first_phase : ℕ → Network → List Str → List Peer → Process → Result Waited
first_phase fuel net split peers p =
    let (linked, p1, alive) = connect_all net (disconnected peers) p in
    let msg = cluster_prepare_request_msg (net.random p1.clock) split in
    wait_for_prepared fuel net msg linked (send_to_all msg linked (tick p1)) alive

disconnected-All : (ps : List Peer) → All (λ q. q.socket ≡ minus_one) (disconnected ps)
unfolding disconnected
disconnected-All [] = tt
disconnected-All (q ∷ ps) = (refl, disconnected-All ps)

pub first_phase-IsRight :
    (net : Network) (fuel : ℕ) (split : List Str) (peers : List Peer) (p : Process)
    → IsKernel net
    → Ensures (IsRight net) (first_phase fuel net split peers p)
unfolding wait_for_prepared
first_phase-IsRight net fuel split peers p kernel =
    let linked = connect_all-Linked net kernel (disconnected peers) p (disconnected-All peers) in
    wait_loop-IsRight net kernel _ fuel _ _ (start_Inv p _ _ _ _ linked (send_to_all-open _ _ _))

-- Whatever the participants were before, and whatever the network does within the contract of the
-- operating system (IsKernel): if the first phase of a SET or a DEL returns 1, at least one
-- participant is still connected, and from the socket of each that is, getMessage has read a message
-- whose first line is PREPARED.
pub unanimous_vote :
    (net : Network) (fuel : ℕ) (split : List Str) (peers : List Peer) (p : Process) (x : Waited)
    → IsKernel net
    → first_phase fuel net split peers p ≡ ok x
    → x.2 ≡ flag (pos 1)
    → AllPrepared net x.0 × (0 < count connected x.0)
unanimous_vote net fuel split peers p x kernel e h =
    (Ensures-ok e (first_phase-IsRight net fuel split peers p kernel)).unanimous h

-- Whatever the participants were before, and whatever the network does within the contract of the
-- operating system (IsKernel): if the first phase of a SET or a DEL returns 0, so that the
-- handlers decide for ABORT, getMessage has read from the socket of some participant a message that
-- is not a valid one with PREPARED in its first line.
pub abort_has_refusal :
    (net : Network) (fuel : ℕ) (split : List Str) (peers : List Peer) (p : Process) (x : Waited)
    → IsKernel net
    → first_phase fuel net split peers p ≡ ok x
    → x.2 ≡ flag (pos 0)
    → SomeRefused net x.0
abort_has_refusal net fuel split peers p x kernel e h =
    (Ensures-ok e (first_phase-IsRight net fuel split peers p kernel)).refused h
