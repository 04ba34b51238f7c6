-- ===== src/Tests/Coordination.antt =====
-- lab3/src_2pc/Coordinator.cpp on a small network: two participants that answer at once.
use cloud_computing_lab.Base.{
  ℕ, suc, ◌+◌, ◌<◌, ◌≤◌, ◌≡◌, refl, true, false, List, [], ◌∷◌, none, arith, ℤ, pos, negsuc,
  minus_one, is_positive, if◌then◌else◌, ltb, ok, err, Result,
}
use cloud_computing_lab.Text.{
  Str, codes, str_eq, split_on, chop, lines, pop_back, but_last, to_string, show_ℕ, digits,
}
use cloud_computing_lab.TwoPhase.Receive.{bytes, get_message}
use cloud_computing_lab.TwoPhase.Message.{
  cluster_prepare_msg, cluster_done_msg, client_ok_msg, set_word, parse_cluster_msg, cluster_lines,
  cluster_prepare_request_msg, append_lines,
}
use cloud_computing_lab.TwoPhase.Coordinator.{
  Network, Process, Peer, Selected, timed_out, ready, is_set, fd_clear, close_fd, send_message,
  send_to_all, receive, try_connect, connect_participant, connect_one, connect_all,
}
use cloud_computing_lab.TwoPhase.Coordinator.Waiting.{
  Waited, flag, out_of_fuel, start_round, wait_loop, watch_all, drop_one, drop_silent, resend,
  reconnect, hear_one, visit_one, visit, silent_round, after_select,
}
use cloud_computing_lab.TwoPhase.Coordinator.Prepare.{
  vote, hear_vote, no_refusal, check_responses, verdict, unanswered, wait_for_prepared,
}
use cloud_computing_lab.TwoPhase.Coordinator.Handle.{disconnected, Handled, handled, two_phases}
use cloud_computing_lab.TwoPhase.Coordinator.Peers.{connected, count}
use cloud_computing_lab.TwoPhase.Coordinator.Steps.{IsKernel}
use cloud_computing_lab.TwoPhase.Coordinator.Verdict.{AllPrepared, SomeRefused}
use cloud_computing_lab.TwoPhase.Coordinator.Replies.{
  first_phase, unanimous_vote, abort_has_refusal,
}

-- A descriptor above all that are open.
abbrev bound : List ℤ → ℕ
bound [] = 0
bound (pos n ∷ o) = suc (n + bound o)
bound (negsuc n ∷ o) = bound o

abbrev fresh : List ℤ → ℤ
fresh o = pos (suc (bound o))

abbrev select_first : List ℤ → Selected
select_first [] = timed_out
select_first (fd ∷ w) = ready 1 (fd ∷ [])

-- Every answer before the given time is the vote, and behind it a DONE.
abbrev network : ℕ → Str → Network
network votes_end answer = record {
  socket = λ t o. fresh o;
  connects = λ t fd a. is_positive fd;
  selects = λ t w. select_first w;
  receives =
      λ t fd. bytes (if ltb t votes_end then answer else cluster_done_msg (pos 7) set_word []) ∷ [];
  random = λ t. pos 7;
}

bound_above : (n : ℕ) (o : List ℤ) → bound o ≤ n → is_set (pos (suc n)) o ≡ false
unfolding is_set
bound_above n [] h = refl
bound_above n (pos m ∷ o) h = let rest = bound_above n o (omega arith) in ground (arith, rest)
bound_above n (negsuc m ∷ o) h = bound_above n o h

select_first-watched :
    (w : List ℤ) (n : ℕ) (set : List ℤ) (fd : ℤ)
    → select_first w ≡ ready n set
    → is_set fd set ≡ true
    → is_set fd w ≡ true
unfolding is_set
select_first-watched [] n set fd e h = cc
select_first-watched (x ∷ w) n set fd e h = ground arith

network-IsKernel : (n : ℕ) (answer : Str) → IsKernel (network n answer)
network-IsKernel n answer = record {
  socket_fresh = λ t o opened. bound_above (bound o) o (omega arith);
  connect_positive = λ t fd a h. h;
  select_watched = λ t w m set fd. select_first-watched w m set fd;
}

abbrev peer : Peer
peer = record {
  address = record { ip = []; port = pos 8002 };
  valid = true;
  socket = minus_one;
  response = minus_one;
}

abbrev peers : List Peer
peers = peer ∷ peer ∷ []

abbrev process : Process
process = record { clock = 0; open_fds = []; sent = [] }

abbrev request : List Str
request = set_word ∷ codes "k" ∷ codes "v" ∷ []

abbrev agree : Network
agree = network 9 (cluster_prepare_msg (pos 7) set_word)

abbrev refuse : Network
refuse = network 9 (cluster_done_msg (pos 7) set_word [])

abbrev value_of {ℓ} : {A : Type ℓ} → A → Result A → A
value_of a (ok b) = b
value_of a (err e) = a

abbrev no_wait : Waited
no_wait = ([], start_round [] process 0, out_of_fuel)

abbrev voted : Waited
voted = value_of no_wait (first_phase 9 agree request peers process)

abbrev refused : Waited
refused = value_of no_wait (first_phase 9 refuse request peers process)

abbrev answered_set : Handled
answered_set =
    value_of (handled [] process none)
      (two_phases 9 agree (λ id reply. client_ok_msg) request peers process)

voted_lem : (first_phase 9 agree request peers process ≡ ok voted) × (voted.2 ≡ flag (pos 1))
unfolding str_eq but_last digits show_ℕ to_string lines chop split_on pop_back parse_cluster_msg
    cluster_lines append_lines cluster_prepare_request_msg cluster_prepare_msg cluster_done_msg
    check_responses hear_vote no_refusal unanswered verdict vote after_select drop_one drop_silent
    hear_one reconnect resend silent_round visit visit_one wait_loop watch_all wait_for_prepared
    close_fd connect_one connect_all connect_participant send_message send_to_all try_connect
    disconnected is_set fd_clear receive get_message
voted_lem = (refl, refl)

-- Both participants vote PREPARED.
unanimous_vote_example : AllPrepared agree voted.0 × (0 < count connected voted.0)
unanimous_vote_example =
    unanimous_vote agree 9 request peers process voted
      (network-IsKernel 9 (cluster_prepare_msg (pos 7) set_word)) voted_lem.0 voted_lem.1

refused_lem : (first_phase 9 refuse request peers process ≡ ok refused) × (refused.2 ≡ flag (pos 0))
unfolding str_eq but_last digits show_ℕ to_string lines chop split_on pop_back parse_cluster_msg
    cluster_lines append_lines cluster_prepare_request_msg cluster_prepare_msg cluster_done_msg
    check_responses hear_vote no_refusal unanswered verdict vote after_select drop_one drop_silent
    hear_one reconnect resend silent_round visit visit_one wait_loop watch_all wait_for_prepared
    close_fd connect_one connect_all connect_participant send_message send_to_all try_connect
    disconnected is_set fd_clear receive get_message
refused_lem = (refl, refl)

-- Both participants answer with another message.
abort_has_refusal_example : SomeRefused refuse refused.0
abort_has_refusal_example =
    abort_has_refusal refuse 9 request peers process refused
      (network-IsKernel 9 (cluster_done_msg (pos 7) set_word [])) refused_lem.0 refused_lem.1
