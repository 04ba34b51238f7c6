-- ===== src/TwoPhase/Coordinator.antt =====
-- lab3/src_2pc/Coordinator.cpp: the coordinator's view of the operating system, its participants,
-- and the connections to them. `participantAddr[i]`, `participantSocket[i]` and `response[i]`, three
-- vectors over the same index, are the fields of one `Peer`.
pub mod Waiting
pub mod Prepare
pub mod Decide
pub mod Handle
pub mod Peers
pub mod Steps
pub mod Voting
pub mod Verdict
pub mod Start
pub mod Replies
pub mod Sent
pub mod Success
use cloud_computing_lab.Base.{
  ℕ, zero, suc, ◌+◌, ◌-◌, Bool, true, false, not, ◌&&◌, ◌||◌, List, [], ◌∷◌, ◌++◌, Option, none,
  some, ℤ, pos, minus_one, int_eq, is_positive, is_negative, Result, ok, err, blocked,
  if◌then◌else◌, is_empty, ltb, leb,
}
use cloud_computing_lab.Text.{Str}
use cloud_computing_lab.TwoPhase.Receive.{Recv, Received, get_message}

-- `addr` without its flag.
pub record Address : Type 0 where
  pub ip : Str
  pub port : ℤ

-- What `select` returns: an error, 0 at the time-out, or how many descriptors are ready, and which.
pub data Selected : Type 0 where
  failed timed_out : Selected
  ready : ℕ → List ℤ → Selected

-- The operating system, asked at the time of a counter: the descriptor that `socket` returns while
-- others are open, whether `connect` succeeds, what `select` says of the watched descriptors, what
-- `recv` returns one after the other (and then it blocks), and the random numbers.
pub record Network : Type 0 where
  pub socket : ℕ → List ℤ → ℤ
  pub connects : ℕ → ℤ → Address → Bool
  pub selects : ℕ → List ℤ → Selected
  pub receives : ℕ → ℤ → List Recv
  pub random : ℕ → ℤ

-- The process: the time, its open sockets to participants, and what it sent, in order.
pub record Process : Type 0 where
  pub clock : ℕ
  pub open_fds : List ℤ
  pub sent : List (ℤ × Str)

pub record Peer : Type 0 where
  pub address : Address
  pub valid : Bool
  pub socket : ℤ
  pub response : ℤ

-- A descriptor set: `FD_ISSET`, `FD_CLR`, `FD_SET`.
unfoldable pub is_set : ℤ → List ℤ → Bool
is_set fd [] = false
is_set fd (x ∷ xs) = int_eq x fd || is_set fd xs

unfoldable pub fd_clear : ℤ → List ℤ → List ℤ
fd_clear fd [] = []
fd_clear fd (x ∷ xs) = let rest = fd_clear fd xs in if int_eq x fd then rest else x ∷ rest

abbrev pub fd_set : ℤ → List ℤ → List ℤ
fd_set fd xs = fd ∷ xs

abbrev pub tick : Process → Process
tick p = record p { clock = p.clock + 1 }

-- `close(fd)`
unfoldable pub close_fd : ℤ → Process → Process
unfolding fd_clear
close_fd fd p = record p { open_fds = fd_clear fd p.open_fds }

-- `sendMessage`: an empty string is not sent, and a failure of `send` is not looked at by the callers.
unfoldable pub send_message : ℤ → Str → Process → Process
send_message fd msg p = if is_empty msg then p else record p { sent = p.sent ++ (fd, msg) ∷ [] }

-- `for(const int ps:participantSocket) if(ps>0) sendMessage(ps,msg);`
unfoldable pub send_to_all : Str → List Peer → Process → Process
unfolding send_message
send_to_all msg [] p = p
send_to_all msg (peer ∷ peers) p =
    send_to_all msg peers (if is_positive peer.socket then send_message peer.socket msg p else p)

-- The flag of `getMessage`, and the data. Where `recv` blocks the process does not go on.
unfoldable pub receive : Network → ℤ → Process → Result (ℤ × Str)
receive net fd p = elim (get_message 512 [] (net.receives p.clock fd)) [
  | none ↦ err blocked
  | some got ↦ ok (got.flag, got.message)
]

-- At most `tries` calls of `connect`, up to the first that succeeds.
unfoldable pub try_connect : Network → ℕ → ℤ → Address → Process → Bool × Process
try_connect net zero fd address p = (false, p)
try_connect net (suc tries) fd address p =
    let again = try_connect net tries fd address (tick p) in
    if net.connects p.clock fd address then (true, tick p) else again

-- `socket()`, which opens nothing if it returns -1; the result of `bind` is only printed.
abbrev pub open_fd : ℤ → List ℤ → List ℤ
open_fd fd fds = if is_negative fd then fds else fd ∷ fds

abbrev pub open_socket : Network → Process → Process
open_socket net p = record p {
  clock = p.clock + 1;
  open_fds = open_fd (net.socket p.clock p.open_fds) p.open_fds;
}

-- `connectParticipant`: the descriptor or -1. After three failures the participant is no longer
-- valid, and the socket stays open.
pub record Connected : Type 0 where
  pub fd : ℤ
  pub valid : Bool
  pub process : Process

unfoldable pub connect_participant : Network → Peer → Process → Connected
unfolding try_connect
connect_participant net peer p =
    if not peer.valid
    then record { fd = minus_one; valid = peer.valid; process = p }
    else (let fd = net.socket p.clock p.open_fds in
        let (done, p') = try_connect net 3 fd peer.address (open_socket net p) in
        if done
        then record { fd = fd; valid = peer.valid; process = p' }
        else record { fd = minus_one; valid = false; process = p' })

-- The body of the loop of `connectAllParticipants`, for one participant.
unfoldable pub connect_one : Network → Peer → Process → Peer × Process × ℕ
unfolding try_connect
connect_one net peer p =
    if not peer.valid
    then (peer, p, 0)
    else (let fd = net.socket p.clock p.open_fds in
        let (done, p') = try_connect net 3 fd peer.address (open_socket net p) in
        if done
        then (record peer { socket = fd }, p', 1)
        else (record peer { valid = false }, p', 0))

-- `connectAllParticipants`, with the number of connections.
unfoldable pub connect_all : Network → List Peer → Process → List Peer × Process × ℕ
unfolding connect_one
connect_all net [] p = ([], p, 0)
connect_all net (peer ∷ peers) p =
    let (peer', p1, n) = connect_one net peer p in
    let (peers', p2, m) = connect_all net peers p1 in (peer' ∷ peers', p2, n + m)
