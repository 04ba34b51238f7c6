-- ===== src/TwoPhase/Receive/Chunks.antt =====
-- Which messages `getMessage` delivers whole.
use cloud_computing_lab.Base.{
  ℕ, ◌<◌, ◌≡◌, ◌∙◌, List, [], ◌∷◌, ◌++◌, some, arith, length, pos, append_assoc, All, append-nil,
}
use cloud_computing_lab.Text.{Str}
use cloud_computing_lab.TwoPhase.Receive.{Recv, closed, bytes, get_message}

abbrev pub joined : List Str → Str
joined [] = []
joined (b ∷ bs) = b ++ joined bs

abbrev pub receive_each : List Str → List Recv → List Recv
receive_each [] rs = rs
receive_each (b ∷ bs) rs = bytes b ∷ receive_each bs rs

full_buffer :
    (size : ℕ) (message b : Str) (rs : List Recv)
    → 0 < size
    → length b ≡ size
    → get_message size message (bytes b ∷ rs) ≡ get_message size (message ++ b) rs
unfolding get_message
full_buffer size message b rs some_room full = ground (arith, some_room, full)

-- Full buffers of one byte or more, then one that is not full and not empty: the message is their
-- bytes in order, the flag is 1, and nothing behind them is taken.
pub get_message_whole :
    (size : ℕ) (message : Str) (full : List Str) (last : Str) (rs : List Recv)
    → 0 < size
    → All (λ b. length b ≡ size) full
    → 0 < length last
    → length last < size
    → get_message size message (receive_each full (bytes last ∷ rs))
      ≡ some (record { flag = pos 1; message = message ++ (joined full ++ last); rest = rs })
unfolding get_message
get_message_whole size message [] last rs some_room h some_byte short =
    ground (arith, some_byte, short)
get_message_whole size message (b ∷ full) last rs some_room (hb, h) some_byte short =
    full_buffer size message b (receive_each full (bytes last ∷ rs)) some_room hb
    ∙ get_message_whole size (message ++ b) full last rs some_room h some_byte short
    ∙ simp append_assoc

-- Full buffers of one byte or more, and then the end of the stream: the flag is 0 and not 1, though
-- all the bytes have been read.
pub get_message_exact :
    (size : ℕ) (message : Str) (full : List Str) (rs : List Recv)
    → 0 < size
    → All (λ b. length b ≡ size) full
    → get_message size message (receive_each full (closed ∷ rs))
      ≡ some (record { flag = pos 0; message = message ++ joined full; rest = rs })
unfolding get_message
get_message_exact size message [] rs some_room h = rw append-nil
get_message_exact size message (b ∷ full) rs some_room (hb, h) =
    full_buffer size message b (receive_each full (closed ∷ rs)) some_room hb
    ∙ get_message_exact size (message ++ b) full rs some_room h
    ∙ simp append_assoc
