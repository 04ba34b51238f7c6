-- ===== src/TwoPhase/Coordinator/Prepare.antt =====
-- `waitForPrepared` of lab3/src_2pc/Coordinator.cpp: the votes of the first phase.
use cloud_computing_lab.Base.{
  ℕ, ◌+◌, Bool, true, not, ◌&&◌, List, [], ◌∷◌, Result, ok, ◌>>=◌, ℤ, pos, minus_one, int_eq,
  if◌then◌else◌, is_empty, ◌==◌, get_elem?, in_bounds,
}
use cloud_computing_lab.Text.{Str, str_eq}
use cloud_computing_lab.TwoPhase.Message.{parse_cluster_msg, prepared_word}
use cloud_computing_lab.TwoPhase.Coordinator.{Network, Process, Peer, fd_clear}
use cloud_computing_lab.TwoPhase.Coordinator.Waiting.{
  Round, Waited, Hear, wait_loop, start_round, watch_all,
}

-- The vote in a message: 1 for PREPARED, else 0.
unfoldable pub vote : Str → Result ℤ
vote msg = do
  parsed ← parse_cluster_msg msg
  if parsed.valid
      then (do
        verb ← in_bounds (get_elem? parsed.split_message 0)
        ok (if str_eq verb prepared_word then pos 1 else pos 0))
      else ok (pos 0)

-- A vote is noted, and its participant is no longer watched.
unfoldable pub hear_vote : Hear
unfolding vote
hear_vote text peer r = do
  v ← vote text
  ok (
    record peer { response = v },
    record r { watched = fd_clear peer.socket r.watched; finished = r.finished + 1 },
  )

-- `checkParticipantPreparedResponse`
unfoldable pub no_refusal : List Peer → Bool
no_refusal [] = true
no_refusal (peer ∷ peers) = not (int_eq peer.response (pos 0)) && no_refusal peers

unfoldable pub check_responses : List Peer → Bool
unfolding no_refusal
check_responses peers = not (is_empty peers) && no_refusal peers

-- What is returned behind the loop.
unfoldable pub verdict : List Peer → Round → ℤ
unfolding check_responses
verdict peers r =
    if r.finished == 0 then minus_one else if check_responses peers then pos 1 else pos 0

-- Every response starts at -1.
unfoldable pub unanswered : List Peer → List Peer
unanswered [] = []
unanswered (peer ∷ peers) = record peer { response = minus_one } ∷ unanswered peers

unfoldable pub wait_for_prepared : ℕ → Network → Str → List Peer → Process → ℕ → Result Waited
unfolding wait_loop unanswered watch_all hear_vote verdict
wait_for_prepared fuel net msg peers p alive =
    wait_loop fuel net msg hear_vote verdict (unanswered peers) (start_round peers p alive)
