-- ===== src/TwoPhase/Coordinator/Decide.antt =====
-- `waitForCommitOrAbort` of lab3/src_2pc/Coordinator.cpp: the DONEs of the second phase, and the
-- answer to a GET.
use cloud_computing_lab.Base.{
  ℕ, ◌+◌, ◌&&◌, List, Result, ok, ◌>>=◌, ℤ, pos, minus_one, if◌then◌else◌, ◌==◌,
}
use cloud_computing_lab.Text.{Str}
use cloud_computing_lab.TwoPhase.Message.{parse_cluster_msg}
use cloud_computing_lab.TwoPhase.Coordinator.{Network, Process, Peer, fd_clear, close_fd}
use cloud_computing_lab.TwoPhase.Coordinator.Waiting.{
  Round, Waited, Hear, wait_loop, start_round, watch_all,
}

-- The first valid answer is kept if it is the first of all, and the connection is closed.
unfoldable pub hear_done : Hear
hear_done text peer r = do
  parsed ← parse_cluster_msg text
  ok (
    record peer { socket = minus_one },
    record r {
      process = close_fd peer.socket r.process;
      watched = fd_clear peer.socket r.watched;
      finished = r.finished + 1;
      reply = if parsed.valid && r.finished == 0 then parsed.split_message else r.reply;
    },
  )

unfoldable pub done_verdict : List Peer → Round → ℤ
done_verdict peers r = if r.finished == 0 then minus_one else pos 1

unfoldable pub wait_for_commit_or_abort :
    ℕ → Network → Str → List Peer → Process → ℕ → Result Waited
unfolding wait_loop watch_all hear_done done_verdict
wait_for_commit_or_abort fuel net msg peers p alive =
    wait_loop fuel net msg hear_done done_verdict peers (start_round peers p alive)
