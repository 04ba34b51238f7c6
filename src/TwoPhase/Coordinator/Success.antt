-- ===== src/TwoPhase/Coordinator/Success.antt =====
-- What a success that lab3/src_2pc/Coordinator.cpp reports to a client stands for.
use cloud_computing_lab.Base.{true, All, ℕ, ◌<◌, ◌≡◌, List, ℤ, pos, ok}
use cloud_computing_lab.Text.{Str}
use cloud_computing_lab.TwoPhase.Message.{cluster_commit_msg}
use cloud_computing_lab.TwoPhase.Coordinator.{Network, Process, Peer, connect_all}
use cloud_computing_lab.TwoPhase.Coordinator.Waiting.{Waited, flag}
use cloud_computing_lab.TwoPhase.Coordinator.Decide.{wait_for_commit_or_abort}
use cloud_computing_lab.TwoPhase.Coordinator.Handle.{disconnected, Handled}
use cloud_computing_lab.TwoPhase.Coordinator.Peers.{connected, count}
use cloud_computing_lab.TwoPhase.Coordinator.Sent.{WasSent}
use cloud_computing_lab.TwoPhase.Coordinator.Verdict.{AllPrepared}
use cloud_computing_lab.TwoPhase.Coordinator.Replies.{first_phase}

-- The random id of the transaction.
abbrev pub transaction_id : Network → List Peer → Process → ℤ
transaction_id net peers p = net.random (connect_all net (disconnected peers) p).1.clock

-- Both phases of a transaction that succeeded.
pub record Granted (fuel : ℕ) (net : Network) (split : List Str) (peers : List Peer) (p : Process)
    (h : Handled) : Type 0 where
  pub votes : Waited
  pub voted : first_phase fuel net split peers p ≡ ok votes
  pub unanimous : AllPrepared net votes.0
  pub some_voter : 0 < count connected votes.0
  pub told : Process
  pub commit_sent :
      All
        (λ q.
          connected q ≡ true
          → WasSent q.socket (cluster_commit_msg (transaction_id net peers p)) told)
        votes.0
  pub decision : Waited
  pub decided :
      wait_for_commit_or_abort fuel net
        (cluster_commit_msg (transaction_id net peers p))
        votes.0
        told
        votes.1.alive
      ≡ ok decision
  pub done : decision.2 ≡ flag (pos 1)
  pub left : h.process ≡ decision.1.process
