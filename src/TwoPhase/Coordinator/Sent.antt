-- ===== src/TwoPhase/Coordinator/Sent.antt =====
-- What `sendMessage` of lab3/src_2pc/Coordinator.cpp has sent behind the loop over the participants.
use cloud_computing_lab.Base.{
  ◌≡◌, refl, sym, ap, subst, ◌∙◌, true, List, [], ◌∷◌, ◌++◌, append_assoc, All, ℕ, ℤ, is_positive,
  Bool-cases, inl, inr, if◌then◌else◌,
}
use cloud_computing_lab.Text.{Str}
use cloud_computing_lab.TwoPhase.Message.{cluster_commit_msg}
use cloud_computing_lab.TwoPhase.Coordinator.{Process, Peer, send_message, send_to_all}
use cloud_computing_lab.TwoPhase.Coordinator.Peers.{connected}

-- The message was sent to the descriptor.
abbrev pub WasSent : ℤ → Str → Process → Type 0
WasSent fd msg p =
    (before : List (ℤ × Str)) × (after : List (ℤ × Str)) × (p.sent ≡ before ++ (fd, msg) ∷ after)

WasSent-later :
    (x : ℤ) (msg : Str) (fd : ℤ) (other : Str) (p : Process)
    → WasSent x msg p
    → WasSent x msg (send_message fd other p)
unfolding send_message
WasSent-later x msg fd [] p h = h
WasSent-later x msg fd (c ∷ other) p (before, after, e) = (
  before,
  after ++ (fd, c ∷ other) ∷ [],
  ap (λ t. t ++ (fd, c ∷ other) ∷ []) e
      ∙ append_assoc before ((x, msg) ∷ after) ((fd, c ∷ other) ∷ []),
)

send_to_all-keeps :
    (x : ℤ) (msg other : Str) (ps : List Peer) (p : Process)
    → WasSent x msg p
    → WasSent x msg (send_to_all other ps p)
unfolding send_to_all
send_to_all-keeps x msg other [] p h = h
send_to_all-keeps x msg other (q ∷ ps) p h = elim (Bool-cases (is_positive q.socket)) [
  | inl e ↦
      let now = WasSent-later x msg q.socket other p h in
      subst
        (λ b. WasSent x msg (send_to_all other ps (if b then send_message q.socket other p else p)))
        (sym e) (send_to_all-keeps x msg other ps (send_message q.socket other p) now)
  | inr e ↦
      subst
        (λ b. WasSent x msg (send_to_all other ps (if b then send_message q.socket other p else p)))
        (sym e) (send_to_all-keeps x msg other ps p h)
]

-- A message that is not empty is sent to every connected participant.
send_to_all-reaches :
    (c : ℕ) (msg : Str) (ps : List Peer) (p : Process)
    → All (λ q. connected q ≡ true → WasSent q.socket (c ∷ msg) (send_to_all (c ∷ msg) ps p)) ps
unfolding send_to_all
send_to_all-reaches c msg [] p = tt
send_to_all-reaches c msg (q ∷ ps) p = (
  λ on.
      subst
        (λ b.
          WasSent q.socket (c ∷ msg)
            (send_to_all (c ∷ msg) ps (if b then send_message q.socket (c ∷ msg) p else p)))
        (sym on) (send_to_all-keeps q.socket (c ∷ msg) (c ∷ msg) ps _ (sent_now q.socket)),
  send_to_all-reaches c msg ps _,
)
  where
    sent_now : (fd : ℤ) → WasSent fd (c ∷ msg) (send_message fd (c ∷ msg) p)
    sent_now fd = unfold send_message in (p.sent, [], refl)

pub commit_reaches :
    (id : ℤ) (ps : List Peer) (p : Process)
    → All
        (λ q.
          connected q ≡ true
          → WasSent q.socket (cluster_commit_msg id) (send_to_all (cluster_commit_msg id) ps p))
        ps
unfolding cluster_commit_msg
commit_reaches id ps p = send_to_all-reaches _ _ ps p
