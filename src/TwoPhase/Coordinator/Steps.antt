-- ===== src/TwoPhase/Coordinator/Steps.antt =====
-- One participant in a round of the waiting loops of lab3/src_2pc/Coordinator.cpp, beside the
-- others.
use cloud_computing_lab.Base.{
  ok, some, [], int_eq_iff, All-map, ℕ, zero, suc, ◌+◌, ◌-◌, ◌≡◌, refl, sym, ap, ◌∙◌, Bool, true,
  false, not, List, ◌∷◌, arith, All, ℤ, pos, negsuc, is_positive, is_negative, minus_one, ◌⊎◌,
  Bool-cases, inl, inr,
}
use mathlib.Core.Bool.{false≢true}
use cloud_computing_lab.Text.{Str}
use cloud_computing_lab.TwoPhase.Receive.{Received, get_message}
use cloud_computing_lab.TwoPhase.Message.{parse_cluster_msg, prepared_word}
use cloud_computing_lab.TwoPhase.Coordinator.{
  Network, Address, ready, Process, Peer, Connected, is_set, fd_clear, close_fd, send_message,
  connect_participant, try_connect, tick, open_socket, open_fd,
}
use cloud_computing_lab.TwoPhase.Coordinator.Waiting.{Round, reconnect}
use cloud_computing_lab.TwoPhase.Coordinator.Peers.{
  connected, answered, bit, count, Apart, Distinct, is_set_self, is_set_more, is_set_ne,
  is_set-clear_ne, All-zip,
}

-- What the coordinator relies on: a new descriptor, where `socket` does not fail, is not one of the
-- open ones, `connect` succeeds
-- on a socket only, whose number is positive, and `select` marks watched descriptors only.
pub record IsKernel (net : Network) : Type 0 where
  pub socket_fresh :
      (t : ℕ) (o : List ℤ)
      → is_negative (net.socket t o) ≡ false
      → is_set (net.socket t o) o ≡ false
  pub connect_positive :
      (t : ℕ) (fd : ℤ) (a : Address) → net.connects t fd a ≡ true → is_positive fd ≡ true
  pub select_watched :
      (t : ℕ) (w : List ℤ) (n : ℕ) (set : List ℤ) (fd : ℤ)
      → net.selects t w ≡ ready n set
      → is_set fd set ≡ true
      → is_set fd w ≡ true

-- A message that `getMessage` has read whole from the socket of a participant.
abbrev pub Heard : Network → Peer → Str → Type 0
Heard net p text =
    (t : ℕ) × (got : Received) × (get_message 512 [] (net.receives t p.socket) ≡ some got)
    × (is_positive got.flag ≡ true)
    × (got.message ≡ text)

-- A valid message whose first line is PREPARED.
abbrev pub IsPrepared : Str → Type 0
IsPrepared text =
    (ws : List Str) × (parse_cluster_msg text
      ≡ ok (record { valid = true; split_message = prepared_word ∷ ws }))

-- The participant's socket has brought a PREPARED message, or another one.
abbrev pub Voted : Network → Peer → Type 0
Voted net p = (text : Str) × Heard net p text × IsPrepared text

abbrev pub Refused : Network → Peer → Type 0
Refused net p = (text : Str) × Heard net p text × (¬ IsPrepared text)

-- A connected participant is watched until it has answered, its socket is open, who has answered
-- is connected, and a response is -1, or what its socket has brought.
pub record Local (net : Network) (w o : List ℤ) (p : Peer) : Type 0 where
  pub watched_until : connected p ≡ true → is_set p.socket w ≡ not (answered p)
  pub still_there : answered p ≡ true → connected p ≡ true
  pub is_open : connected p ≡ true → is_set p.socket o ≡ true
  pub is_vote :
      (p.response ≡ minus_one)
      ⊎ (((p.response ≡ pos 1) × Voted net p) ⊎ ((p.response ≡ pos 0) × Refused net p))

-- One participant, and the others beside it.
pub record Around (net : Network) (others : List Peer) (p : Peer) (r : Round) : Type 0 where
  pub here : Local net r.watched r.process.open_fds p
  pub there : All (Local net r.watched r.process.open_fds) others
  pub apart : connected p ≡ true → All (Apart p.socket) others
  pub rest_distinct : Distinct others
  pub alive_count : r.alive ≡ bit (connected p) + count connected others
  pub finished_count : r.finished ≡ bit (answered p) + count answered others

-- The descriptors that stay open.
abbrev pub Grows : Process → Process → Type 0
Grows p q = (x : ℤ) → is_set x p.open_fds ≡ true → is_set x q.open_fds ≡ true

pub data Connects (p : Process) (c : Connected) : Type 0 where
  refused : c.fd ≡ minus_one → Grows p c.process → Connects p c
  made :
      is_positive c.fd ≡ true
      → is_set c.fd p.open_fds ≡ false
      → is_set c.fd c.process.open_fds ≡ true
      → Grows p c.process
      → Connects p c

pub positive-not-negative : (z : ℤ) → is_positive z ≡ true → is_negative z ≡ false
positive-not-negative (pos n) h = refl
positive-not-negative (negsuc n) h = cc

pub open_fd_self : (fd : ℤ) (o : List ℤ) → is_negative fd ≡ false → is_set fd (open_fd fd o) ≡ true
open_fd_self fd o h = rw h (is_set_self fd o)

pub open_fd-more : (x fd : ℤ) (o : List ℤ) → is_set x o ≡ true → is_set x (open_fd fd o) ≡ true
open_fd-more x fd o h = elim (Bool-cases (is_negative fd)) [
  | inl e ↦ rw e h
  | inr e ↦ rw e (is_set_more x fd o h)
]

module _ (net : Network) (kernel : IsKernel net) where
  pub try_connect-open :
      (tries : ℕ) (fd : ℤ) (a : Address) (p : Process)
      → (try_connect net tries fd a p).1.open_fds ≡ p.open_fds
  unfolding try_connect
  try_connect-open zero fd a p = refl
  try_connect-open (suc n) fd a p = elim (Bool-cases (net.connects p.clock fd a)) [
    | inl e ↦ rw e
    | inr e ↦ rw e (try_connect-open n fd a (tick p))
  ]

  pub try_connect-positive :
      (tries : ℕ) (fd : ℤ) (a : Address) (p : Process)
      → (try_connect net tries fd a p).0 ≡ true
      → is_positive fd ≡ true
  unfolding try_connect
  try_connect-positive zero fd a p h = cc
  try_connect-positive (suc n) fd a p h = elim (Bool-cases (net.connects p.clock fd a)) [
    | inl e ↦ kernel.connect_positive p.clock fd a e
    | inr e ↦ try_connect-positive n fd a (tick p) (rw e at h)
  ]

  pub connect_participant-Connects :
      (peer : Peer) (p : Process) → Connects p (connect_participant net peer p)
  unfolding connect_participant
  connect_participant-Connects peer p = elim (Bool-cases peer.valid) [
    | inr invalid ↦ rw invalid (refused refl (λ x h. h))
    | inl valid ↦ elim (Bool-cases done) [
      | inl e ↦
          rw (valid, e)
            (made (try_connect-positive 3 fd peer.address (open_socket net p) e)
              (kernel.socket_fresh p.clock p.open_fds (new_fd e))
              (rw opened (open_fd_self fd p.open_fds (new_fd e)))
              (λ x h. rw opened (open_fd-more x fd p.open_fds h)))
      | inr e ↦ rw (valid, e) (refused refl (λ x h. rw opened (open_fd-more x fd p.open_fds h)))
    ]
  ]
    where
      fd : ℤ
      fd = net.socket p.clock p.open_fds

      opened :
          (try_connect net 3 fd peer.address (open_socket net p)).1.open_fds ≡ open_fd fd p.open_fds
      opened = try_connect-open 3 fd peer.address (open_socket net p)

      new_fd :
          (try_connect net 3 fd peer.address (open_socket net p)).0 ≡ true → is_negative fd ≡ false
      new_fd e =
          positive-not-negative fd (try_connect-positive 3 fd peer.address (open_socket net p) e)

      done : Bool
      done = (try_connect net 3 (net.socket p.clock p.open_fds) peer.address (open_socket net p)).0

-- The others after the socket `x` is no longer watched, nor open.
Local-clear :
    {net : Network} (x : ℤ) (w o : List ℤ) (q : Peer)
    → Apart x q
    → Local net w o q
    → Local net (fd_clear x w) (fd_clear x o) q
Local-clear x w o q ne l = record {
  watched_until = λ c. rw (is_set-clear_ne q.socket x w (ne c)) (l.watched_until c);
  still_there = l.still_there;
  is_open = λ c. rw (is_set-clear_ne q.socket x o (ne c)) (l.is_open c);
  is_vote = l.is_vote;
}

pub Local-unwatch :
    {net : Network} (x : ℤ) (w o : List ℤ) (q : Peer)
    → Apart x q
    → Local net w o q
    → Local net (fd_clear x w) o q
Local-unwatch x w o q ne l = record {
  watched_until = λ c. rw (is_set-clear_ne q.socket x w (ne c)) (l.watched_until c);
  still_there = l.still_there;
  is_open = l.is_open;
  is_vote = l.is_vote;
}

pub Local-grow :
    {net : Network} (w : List ℤ) (p p' : Process) (q : Peer)
    → Grows p p'
    → Local net w p.open_fds q
    → Local net w p'.open_fds q
Local-grow w p p' q g l = record {
  watched_until = l.watched_until;
  still_there = l.still_there;
  is_open = λ c. g q.socket (l.is_open c);
  is_vote = l.is_vote;
}

-- An open socket is not a descriptor that is not open.
Local-Apart :
    {net : Network} (fd : ℤ) (w o : List ℤ) (q : Peer)
    → is_set fd o ≡ false
    → Local net w o q
    → Apart fd q
Local-Apart fd w o q fresh l c e =
    false≢true (sym fresh ∙ ap (λ x. is_set x o) (sym e) ∙ l.is_open c)

Local-watch :
    {net : Network} (fd : ℤ) (w o : List ℤ) (q : Peer)
    → Apart fd q
    → Local net w o q
    → Local net (fd ∷ w) o q
Local-watch fd w o q ne l = record {
  watched_until = λ c. rw (is_set_ne q.socket fd w (ne c)) (l.watched_until c);
  still_there = l.still_there;
  is_open = l.is_open;
  is_vote = l.is_vote;
}

no_answer : (p : Peer) → answered p ≡ false → p.response ≡ minus_one
no_answer p a = (int_eq_iff p.response minus_one).0 (ground (arith, a))

-- A participant that is removed: its socket is closed and not watched, and it had not answered.
pub drop_Around :
    {net : Network} (others : List Peer) (p : Peer) (r : Round) (q : Process)
    → connected p ≡ true
    → answered p ≡ false
    → Grows (close_fd p.socket r.process) q
    → Around net others p r
    → Around net others
        (record p { socket = minus_one; valid = false })
        (record r { process = q; watched = fd_clear p.socket r.watched; alive = r.alive - 1 })
unfolding close_fd
drop_Around {net = net} others p r q c a g v = record {
  here = record {
    watched_until = λ h. cc;
    still_there = λ h. absurd (false≢true (sym a ∙ h));
    is_open = λ h. cc;
    is_vote = inl (no_answer p a);
  };
  there =
      All-zip (Apart p.socket) (Local net r.watched r.process.open_fds) _ others
        (λ x ne l.
          Local-grow _ (close_fd p.socket r.process) q x g
            (Local-clear p.socket r.watched r.process.open_fds x ne l))
        (v.apart c) v.there;
  apart = λ h. cc;
  rest_distinct = v.rest_distinct;
  alive_count = omega (arith, v.alive_count, ap bit c);
  finished_count = v.finished_count;
}

pub send_message-open :
    (fd : ℤ) (msg : Str) (p : Process) → (send_message fd msg p).open_fds ≡ p.open_fds
unfolding send_message
send_message-open fd msg p = ground arith

-- A participant that is connected to again: its new socket is watched instead of the old one.
module _ {net : Network} (others : List Peer) (p : Peer) (r : Round) (fd : ℤ) (q : Process)
    (c : connected p ≡ true) (a : answered p ≡ false) (positive : is_positive fd ≡ true)
    (fresh : is_set fd (close_fd p.socket r.process).open_fds ≡ false)
    (opened : is_set fd q.open_fds ≡ true) (g : Grows (close_fd p.socket r.process) q)
    (v : Around net others p r) where
  cleared :
      All (Local net (fd_clear p.socket r.watched) (close_fd p.socket r.process).open_fds) others
  unfolding close_fd
  cleared =
      All-zip (Apart p.socket) (Local net r.watched r.process.open_fds) _ others
        (Local-clear p.socket r.watched r.process.open_fds) (v.apart c) v.there

  others-Apart : All (Apart fd) others
  others-Apart = All-map {Q = Apart fd} others (λ x l. Local-Apart fd _ _ x fresh l) cleared

  watch_Around :
      Around net others
        (record p { socket = fd })
        (record r { process = q; watched = fd ∷ fd_clear p.socket r.watched })
  watch_Around = record {
    here = record {
      watched_until = λ h. is_set_self fd _ ∙ ap not (sym a);
      still_there = λ h. positive;
      is_open = λ h. opened;
      is_vote = inl (no_answer p a);
    };
    there =
        All-zip (Apart fd) _ _ others
          (λ x ne l. Local-watch fd _ _ x ne (Local-grow _ (close_fd p.socket r.process) q x g l))
          others-Apart cleared;
    apart = λ h. others-Apart;
    rest_distinct = v.rest_distinct;
    alive_count = omega (arith, v.alive_count, ap bit c, ap bit positive);
    finished_count = v.finished_count;
  }

-- What `reconnect` leaves, whether the connection is made or not.
pub reconnect-Around :
    (net : Network) (kernel : IsKernel net) (msg : Str) (others : List Peer) (p : Peer) (r : Round)
    → connected p ≡ true
    → answered p ≡ false
    → Around net others p r
    → let (p', r') = reconnect net msg p r in Around net others p' r'
unfolding reconnect
reconnect-Around net kernel msg others p r c a v =
    go (connect_participant-Connects net kernel p closed)
  where
    closed : Process
    closed = close_fd p.socket r.process

    k : Connected
    k = connect_participant net p closed

    go : Connects closed k → let (p', r') = reconnect net msg p r in Around net others p' r'
    go (refused e g) = rw (e, reconnect) (drop_Around others p r k.process c a g v)
    go (made positive fresh opened g) =
        rw (positive-not-negative k.fd positive, reconnect)
          (watch_Around others p r k.fd (send_message k.fd msg k.process) c a positive fresh
            (rw (send_message-open k.fd msg k.process) opened)
            (λ x h. rw (send_message-open k.fd msg k.process) (g x h)) v)
