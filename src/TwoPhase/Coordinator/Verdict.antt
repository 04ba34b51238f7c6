-- ===== src/TwoPhase/Coordinator/Verdict.antt =====
-- What `waitForPrepared` of lab3/src_2pc/Coordinator.cpp returns, against the votes.
use cloud_computing_lab.Base.{
  int_eq, minus_one, All-map, ℕ, zero, suc, ◌+◌, ◌≤◌, ◌<◌, ◌≡◌, refl, sym, ◌∙◌, ◌⊎◌, Bool, true,
  false, not, ◌&&◌, List, [], ◌∷◌, arith, All, ℤ, pos, is_positive, if◌then◌else◌, Bool-cases, inl,
  inr, Result, Ensures, gives, Ensures-bind, Ensures-ok, ◌==◌,
}
use cloud_computing_lab.Text.{Str}
use cloud_computing_lab.TwoPhase.Coordinator.{
  Network, Selected, failed, timed_out, ready, Process, Peer, is_set, tick, send_message,
}
use cloud_computing_lab.TwoPhase.Coordinator.Waiting.{
  Round, silent_round, drop_silent, resend, visit, wait_loop, after_select, is_waiting, Waited,
  flag,
}
use cloud_computing_lab.TwoPhase.Coordinator.Prepare.{
  hear_vote, verdict, check_responses, no_refusal,
}
use cloud_computing_lab.TwoPhase.Coordinator.Peers.{connected, answered, bit, count}
use cloud_computing_lab.TwoPhase.Coordinator.Steps.{
  IsKernel, Voted, Refused, Local, send_message-open,
}
use cloud_computing_lab.TwoPhase.Coordinator.Voting.{Inv, Fresh, visit-Inv, drop_silent-Inv}

-- The socket of every participant that is connected has brought a PREPARED message.
abbrev pub AllPrepared : Network → List Peer → Type 0
AllPrepared net = All (λ p. connected p ≡ true → Voted net p)

-- Some participant's socket has brought another message.
abbrev pub SomeRefused : Network → List Peer → Type 0
SomeRefused net [] = ⊥
SomeRefused net (p ∷ ps) = Refused net p ⊎ SomeRefused net ps

-- 1 stands for a unanimous vote of one participant or more, 0 for a refusal.
pub record IsRight (net : Network) (x : Waited) : Type 0 where
  pub unanimous : x.2 ≡ flag (pos 1) → AllPrepared net x.0 × (0 < count connected x.0)
  pub refused : x.2 ≡ flag (pos 0) → SomeRefused net x.0

bit_le : (a b : Bool) → (a ≡ true → b ≡ true) → bit a ≤ bit b
bit_le true b h = rw (h refl) (omega arith)
bit_le false b h = omega arith

ge_bit : (c a : Bool) → bit c ≤ bit a → c ≡ true → a ≡ true
ge_bit c true le h = refl
ge_bit true false le h = absurd (omega arith)
ge_bit false false le h = h

module _ (net : Network) (w o : List ℤ) where
  count-le : (ps : List Peer) → All (Local net w o) ps → count answered ps ≤ count connected ps
  count-le [] h = omega arith
  count-le (p ∷ ps) (h, hs) =
      omega (arith, count-le ps hs, bit_le (answered p) (connected p) h.still_there)

  all_answered :
      (ps : List Peer)
      → All (Local net w o) ps
      → count connected ps ≤ count answered ps
      → All (λ p. connected p ≡ true → answered p ≡ true) ps
  all_answered [] h le = tt
  all_answered (p ∷ ps) (h, hs) le = (
    λ c. ge_bit (connected p) (answered p) (omega (arith, count-le ps hs)) c,
    all_answered ps hs (omega (arith, bit_le (answered p) (connected p) h.still_there)),
  )

  -- What a response of 1 or 0 stands for.
  voted :
      (p : Peer)
      → Local net w o p
      → answered p ≡ true
      → int_eq p.response (pos 0) ≡ false
      → Voted net p
  voted p h answer not_zero = go h.is_vote
    where
      go :
          (p.response ≡ minus_one)
            ⊎ (((p.response ≡ pos 1) × Voted net p) ⊎ ((p.response ≡ pos 0) × Refused net p))
          → Voted net p
      go (inl silent) = absurd (ground (arith, answer, silent))
      go (inr (inl (one, heard))) = heard
      go (inr (inr (nought, heard))) = absurd (ground (arith, not_zero, nought))

  refused : (p : Peer) → Local net w o p → int_eq p.response (pos 0) ≡ true → Refused net p
  refused p h is_zero = go h.is_vote
    where
      go :
          (p.response ≡ minus_one)
            ⊎ (((p.response ≡ pos 1) × Voted net p) ⊎ ((p.response ≡ pos 0) × Refused net p))
          → Refused net p
      go (inl silent) = absurd (ground (arith, is_zero, silent))
      go (inr (inl (one, heard))) = absurd (ground (arith, is_zero, one))
      go (inr (inr (nought, heard))) = heard

  all_prepared :
      (ps : List Peer)
      → All (Local net w o) ps
      → All (λ p. connected p ≡ true → answered p ≡ true) ps
      → no_refusal ps ≡ true
      → AllPrepared net ps
  unfolding no_refusal
  all_prepared [] h a n = tt
  all_prepared (p ∷ ps) (h, hs) (a, as') n =
      (λ c. voted p h (a c) (ground (arith, n)), all_prepared ps hs as' (ground arith))

some_refused :
    (net : Network) (w o : List ℤ) (ps : List Peer)
    → All (Local net w o) ps
    → no_refusal ps ≡ false
    → SomeRefused net ps
unfolding no_refusal
some_refused net w o [] h n = cc
some_refused net w o (p ∷ ps) (h, hs) n = elim (Bool-cases (no_refusal ps)) [
  | inl e ↦ inl (refused net w o p h (ground (arith, n, e)))
  | inr e ↦ inr (some_refused net w o ps hs e)
]

flag-injective : {a b : ℤ} → flag a ≡ flag b → a ≡ b
flag-injective h = cc

verdict_one :
    (ps : List Peer) (r : Round) → verdict ps r ≡ pos 1 → (0 < r.finished) × (no_refusal ps ≡ true)
unfolding verdict check_responses
verdict_one ps r h = ground arith

verdict_zero :
    (ps : List Peer) (r : Round)
    → r.finished ≡ count answered ps
    → verdict ps r ≡ pos 0
    → no_refusal ps ≡ false
unfolding verdict check_responses
verdict_zero [] r e h = ground arith
verdict_zero (p ∷ ps) r e h = ground arith

-- The verdict behind the loop.
verdict-IsRight :
    {net : Network} (ps : List Peer) (r : Round)
    → Inv net ps r
    → is_waiting r ≡ false
    → IsRight net (ps, r, flag (verdict ps r))
verdict-IsRight {net = net} ps r v stop = record {
  unanimous = λ h.
      let (some_vote, no_no) = verdict_one ps r (flag-injective h) in
      let le = count-le net r.watched r.process.open_fds ps v.local in
      (
        all_prepared net r.watched r.process.open_fds ps v.local
            (all_answered net r.watched r.process.open_fds ps v.local ge) no_no,
        omega (arith, v.finished_count),
      );
  refused = λ h.
      some_refused net r.watched r.process.open_fds ps v.local
        (verdict_zero ps r v.finished_count (flag-injective h));
}
  where
    ge : count connected ps ≤ count answered ps
    ge = ground (arith, v.alive_count, v.finished_count)

-- What `select` marks has not answered.
Fresh-marks :
    (net : Network) (w o set : List ℤ) (ps : List Peer)
    → ((fd : ℤ) → is_set fd set ≡ true → is_set fd w ≡ true)
    → All (Local net w o) ps
    → All (Fresh set) ps
Fresh-marks net w o set ps watched h =
    All-map {P = Local net w o} {Q = Fresh set} ps
      (λ p l c marked. not_true (answered p) (sym (watched p.socket marked) ∙ l.watched_until c)) h
  where
    not_true : (b : Bool) → true ≡ not b → b ≡ false
    not_true b e = ground arith

-- What no part of the invariant looks at may change.
renew :
    {net : Network} (ps : List Peer) (r : Round) (q : Process) (t n : ℕ)
    → q.open_fds ≡ r.process.open_fds
    → Inv net ps r
    → Inv net ps (record r { process = q; timeout = t; n_ready = n })
renew ps r q t n e v = record {
  local = rw e v.local;
  distinct = v.distinct;
  alive_count = v.alive_count;
  finished_count = v.finished_count;
}

resend-open :
    (msg : Str) (ps : List Peer) (r : Round) (p : Process)
    → (resend msg ps r p).open_fds ≡ p.open_fds
unfolding resend
resend-open msg [] r p = refl
resend-open msg (x ∷ ps) r p =
    resend-open msg ps r _ ∙ one (is_positive x.socket && is_set x.socket r.watched)
  where
    one : (b : Bool) → (if b then send_message x.socket msg p else p).open_fds ≡ p.open_fds
    one true = send_message-open x.socket msg p
    one false = refl

module _ (net : Network) (kernel : IsKernel net) (msg : Str) where
  silent_Inv :
      (ps : List Peer) (r : Round)
      → Inv net ps r
      → Inv net (silent_round msg ps r).0 (silent_round msg ps r).1
  unfolding silent_round
  silent_Inv ps r v = elim (Bool-cases (r.timeout == 3)) [
    | inl e ↦ rw e (
        renew (drop_silent ps r).0 (drop_silent ps r).1 _ 0 _ refl
          (drop_silent-Inv net kernel msg [] ps r v))
    | inr e ↦ rw e (
        renew ps r (resend msg ps r r.process) (r.timeout + 1) _ (resend-open msg ps r r.process) v)
  ]

  after_select-IsRight :
      (again : List Peer → Round → Result Waited)
      → ((ps : List Peer) (r : Round) → Inv net ps r → Ensures (IsRight net) (again ps r))
      → (ps : List Peer) (r : Round) (s : Selected) → net.selects r.process.clock r.watched ≡ s
      → Inv net ps r
      → Ensures (IsRight net) (after_select again net msg hear_vote ps r s)
  unfolding after_select
  after_select-IsRight again h ps r failed e v =
      gives _ (record { unanimous = λ h. cc; refused = λ h. cc })
  after_select-IsRight again h ps r timed_out e v =
      let r' : Round = record r { process = tick r.process } in
      h _ _ (silent_Inv ps r' (renew ps r (tick r.process) r.timeout r.n_ready refl v))
  after_select-IsRight again h ps r (ready n set) e v =
      Ensures-bind (visit net msg hear_vote set ps _) _ λ x done. h x.0 x.1 (
        Ensures-ok done (
          visit-Inv net kernel msg set [] ps _
            (Fresh-marks net r.watched r.process.open_fds set ps
              (λ fd. kernel.select_watched r.process.clock r.watched n set fd e) v.local)
            (renew ps r (tick r.process) 0 n refl v)))

  -- The loop, from any state in step.
  pub wait_loop-IsRight :
      (fuel : ℕ) (ps : List Peer) (r : Round)
      → Inv net ps r
      → Ensures (IsRight net) (wait_loop fuel net msg hear_vote verdict ps r)
  unfolding wait_loop
  wait_loop-IsRight zero ps r v = gives _ (record { unanimous = λ h. cc; refused = λ h. cc })
  wait_loop-IsRight (suc fuel) ps r v = elim (Bool-cases (is_waiting r)) [
    | inr stop ↦ rw (stop, wait_loop) (gives _ (verdict-IsRight ps r v stop))
    | inl more ↦
        rw (more, wait_loop)
          (after_select-IsRight (wait_loop fuel net msg hear_vote verdict) (wait_loop-IsRight fuel)
            ps r (net.selects r.process.clock r.watched) refl v)
  ]
