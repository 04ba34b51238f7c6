-- ===== src/TwoPhase/Receive.antt =====
-- `getMessage` of lab3/src_2pc/Participant.cpp and Coordinator.cpp, and of
-- lab3/src_raft/MessageProcessor.cpp: the same loop over `recv`.
pub mod Chunks
use cloud_computing_lab.Base.{
  ℕ, ◌+◌, ◌≡◌, Bool, true, false, List, [], ◌∷◌, ◌++◌, Option, none, some, ◌==◌, ltb, if◌then◌else◌,
  length, ℤ, pos, minus_one,
}
use cloud_computing_lab.Text.{Str}

-- One result of `recv`: an error, the end of the stream, or the bytes that it received. No bytes are
-- the end of the stream too, since `recv` then returns 0.
pub data Recv : Type 0 where
  failed closed : Recv
  bytes : Str → Recv

-- What `getMessage` returns, the bytes that it appended to `data`, and what is left to receive.
pub record Received : Type 0 where
  pub flag : ℤ
  pub message : Str
  pub rest : List Recv

-- `MAX_BUF_SIZE` is 512 here and 1024 in lab3/src_raft. With nothing to receive `recv` blocks: `none`.
-- More bytes than the buffer holds are no result of `recv`, and give `none` too.
unfoldable pub get_message : ℕ → Str → List Recv → Option Received
get_message size message [] = none
get_message size message (failed ∷ rs) =
    some (record { flag = minus_one; message = message; rest = rs })
get_message size message (closed ∷ rs) =
    some (record { flag = pos 0; message = message; rest = rs })
get_message size message (bytes b ∷ rs) =
    let more = get_message size (message ++ b) rs in
    if length b == 0
    then some (record { flag = pos 0; message = message; rest = rs })
    else if ltb size (length b)
    then none
    else if length b == size
    then more
    else some (record { flag = pos 1; message = message ++ b; rest = rs })
