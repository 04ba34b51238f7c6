-- ===== src/TwoPhase/Coordinator/Voting.antt =====
-- The votes of the first phase: `waitForPrepared` of lab3/src_2pc/Coordinator.cpp keeps its counts
-- and its descriptor set in step with the participants.
use cloud_computing_lab.Base.{
  ok, err, blocked, ok-injective, ◌>>=◌, in_bounds, get_elem?, get_or, faults, Option-cases, ◌+◌,
  ◌-◌, ◌≡◌, refl, sym, ap, subst, ◌∙◌, ◌⊎◌, true, false, not, ◌&&◌, List, [], ◌∷◌, ◌++◌,
  append_assoc, arith, All, ℤ, pos, int_eq, is_positive, minus_one, if◌then◌else◌, Bool-cases, inl,
  inr, Ensures, gives, Ensures-bind, Ensures-if, Ensures-ok, ltb,
}
use mathlib.Core.Bool.{false≢true}
use cloud_computing_lab.Text.{Str, str_eq}
use cloud_computing_lab.Text.Equality.{str_eq→eq, str_eq_refl}
use cloud_computing_lab.TwoPhase.Receive.{get_message}
use cloud_computing_lab.TwoPhase.Message.{Parsed, parse_cluster_msg, prepared_word}
use cloud_computing_lab.TwoPhase.Coordinator.{
  Network, Process, Peer, is_set, fd_clear, close_fd, receive, tick,
}
use cloud_computing_lab.TwoPhase.Coordinator.Waiting.{
  Round, drop_one, drop_silent, hear_one, visit_one, visit, is_lost,
}
use cloud_computing_lab.TwoPhase.Coordinator.Prepare.{vote, hear_vote}
use cloud_computing_lab.TwoPhase.Coordinator.Peers.{
  connected, answered, bit, count, Apart, Distinct, All-zip, All-out, All-in, count-out,
  Distinct-out, Distinct-in, is_set-clear_self,
}
use cloud_computing_lab.TwoPhase.Coordinator.Steps.{
  IsKernel, Heard, IsPrepared, Voted, Refused, Local, Around, Local-unwatch, drop_Around,
  reconnect-Around,
}

-- 1 stands for a PREPARED message, 0 for any other.
abbrev IsVote : Str → ℤ → Type 0
IsVote text v = ((v ≡ pos 1) × IsPrepared text) ⊎ ((v ≡ pos 0) × (¬ IsPrepared text))

not_valid :
    (text : Str) (x : Parsed) → parse_cluster_msg text ≡ ok x → x.valid ≡ false → ¬ IsPrepared text
not_valid text x e invalid (ws, said) =
    let same = ap (λ (y : Parsed). y.valid) (ok-injective (sym e ∙ said)) in
    false≢true (sym invalid ∙ same)

vote_values : (text : Str) → Ensures (IsVote text) (vote text)
unfolding vote
vote_values text = Ensures-bind (parse_cluster_msg text) _ λ parsed e.
    Ensures-if parsed.valid (λ valid. heard parsed.split_message (e ∙ ap ok (same parsed valid)))
      λ invalid. gives _ (inr (refl, not_valid text parsed e invalid))
  where
    same :
        (x : Parsed) → x.valid ≡ true → x ≡ record { valid = true; split_message = x.split_message }
    same x valid = λ i. record { valid = valid i; split_message = x.split_message }

    heard :
        (split : List Str)
        → parse_cluster_msg text ≡ ok (record { valid = true; split_message = split })
        → Ensures (IsVote text) (
            in_bounds (get_elem? split 0) >>= λ verb.
            ok (if str_eq verb prepared_word then pos 1 else pos 0))
    heard [] e = faults _
    heard (verb ∷ ws) e = elim (Bool-cases (str_eq verb prepared_word)) [
      | inl agrees ↦ rw agrees (
          gives _ (
            inl (
              refl,
              (
                ws,
                e
                    ∙ ap (λ v. ok (record { valid = true; split_message = v ∷ ws }))
                        (str_eq→eq verb prepared_word agrees),
              ),
            )))
      | inr differs ↦ rw differs (
          gives _ (
            inr (
              refl,
              λ (us, said). false≢true (
                  sym differs
                  ∙ prepared verb us
                      (ap (λ (y : Parsed). y.split_message) (ok-injective (sym e ∙ said)))),
            )))
    ]
      where
        prepared :
            (v : Str) (us : List Str) → v ∷ ws ≡ prepared_word ∷ us → str_eq v prepared_word ≡ true
        prepared v us h =
            ap (λ l. str_eq (get_or l 0 []) prepared_word) h ∙ str_eq_refl prepared_word

vote-answers : (text : Str) (v : ℤ) → IsVote text v → not (int_eq v minus_one) ≡ true
vote-answers text v (inl (h, said)) = ground (arith, h)
vote-answers text v (inr (h, said)) = ground (arith, h)

-- A vote is heard from a participant that had not answered.
hear_vote-Around :
    {net : Network} (text : Str) (others : List Peer) (p : Peer) (r : Round)
    → connected p ≡ true
    → answered p ≡ false
    → Heard net p text
    → Around net others p r
    → Ensures (λ x. Around net others x.0 x.1) (hear_vote text p r)
unfolding hear_vote
hear_vote-Around {net = net} text others p r c a came v =
    Ensures-bind (vote text) _ λ n e. gives _ (heard n (Ensures-ok e (vote_values text)))
  where
    from_socket :
        (n : ℤ)
        → IsVote text n
        → ((n ≡ pos 1) × Voted net (record p { response = n }))
          ⊎ ((n ≡ pos 0) × Refused net (record p { response = n }))
    from_socket n (inl (one, said)) = inl (one, (text, came, said))
    from_socket n (inr (zero', said)) = inr (zero', (text, came, said))

    heard :
        (n : ℤ)
        → IsVote text n
        → Around net others
            (record p { response = n })
            (record r { watched = fd_clear p.socket r.watched; finished = r.finished + 1 })
    heard n value = record {
      here = record {
        watched_until =
            λ h. is_set-clear_self p.socket r.watched ∙ ap not (sym (vote-answers text n value));
        still_there = λ h. c;
        is_open = v.here.is_open;
        is_vote = inr (from_socket n value);
      };
      there =
          All-zip (Apart p.socket) _ _ others (Local-unwatch p.socket r.watched r.process.open_fds)
            (v.apart c) v.there;
      apart = v.apart;
      rest_distinct = v.rest_distinct;
      alive_count = v.alive_count;
      finished_count =
          omega (arith, v.finished_count, ap bit a, ap bit (vote-answers text n value));
    }

-- The invariant of the loop over all participants.
pub record Inv (net : Network) (ps : List Peer) (r : Round) : Type 0 where
  pub local : All (Local net r.watched r.process.open_fds) ps
  pub distinct : Distinct ps
  pub alive_count : r.alive ≡ count connected ps
  pub finished_count : r.finished ≡ count answered ps

Inv-out :
    {net : Network} (a : List Peer) (p : Peer) (b : List Peer) (r : Round)
    → Inv net (a ++ p ∷ b) r
    → Around net (a ++ b) p r
Inv-out {net = net} a p b r v =
    let (here, there) = All-out (Local net r.watched r.process.open_fds) a p b v.local in
    let (apart, distinct) = Distinct-out a p b v.distinct in
    record {
      here = here;
      there = there;
      apart = apart;
      rest_distinct = distinct;
      alive_count = v.alive_count ∙ count-out connected a p b;
      finished_count = v.finished_count ∙ count-out answered a p b;
    }

Inv-in :
    {net : Network} (a : List Peer) (p : Peer) (b : List Peer) (r : Round)
    → Around net (a ++ b) p r
    → Inv net (a ++ p ∷ b) r
Inv-in {net = net} a p b r v = record {
  local = All-in (Local net r.watched r.process.open_fds) a p b v.here v.there;
  distinct = Distinct-in a p b v.apart v.rest_distinct;
  alive_count = v.alive_count ∙ sym (count-out connected a p b);
  finished_count = v.finished_count ∙ sym (count-out answered a p b);
}

-- One more participant is behind the loop.
Inv-shift :
    {net : Network} (a : List Peer) (p : Peer) (b : List Peer) (r : Round)
    → Inv net ((a ++ p ∷ []) ++ b) r
    → Inv net (a ++ p ∷ b) r
Inv-shift {net = net} a p b r v = subst (λ l. Inv net l r) (append_assoc a (p ∷ []) b) v

Inv-unshift :
    {net : Network} (a : List Peer) (p : Peer) (b : List Peer) (r : Round)
    → Inv net (a ++ p ∷ b) r
    → Inv net ((a ++ p ∷ []) ++ b) r
Inv-unshift {net = net} a p b r v = subst (λ l. Inv net l r) (sym (append_assoc a (p ∷ []) b)) v

-- A participant that is marked ready has not answered.
abbrev pub Fresh : List ℤ → Peer → Type 0
Fresh set p = connected p ≡ true → is_set p.socket set ≡ true → answered p ≡ false

received :
    (net : Network) (p : Peer) (q : Process) (x : ℤ × Str)
    → receive net p.socket q ≡ ok x
    → is_positive x.0 ≡ true
    → Heard net p x.1
unfolding receive
received net p q x e positive =
    elim (Option-cases (get_message 512 [] (net.receives q.clock p.socket))) [
      | inl none_came ↦ let k : err blocked ≡ ok x = rw (none_came, receive) at e in cc
      | inr (got, came) ↦
          let k : (got.flag, got.message) ≡ x = ok-injective (rw (came, receive) at e) in
          (
            q.clock,
            got,
            came,
            ap (λ (y : ℤ × Str). is_positive y.0) k ∙ positive,
            ap (λ (y : ℤ × Str). y.1) k,
          )
    ]

module _ (net : Network) (kernel : IsKernel net) (msg : Str) where
  visit_one-Around :
      (set : List ℤ) (others : List Peer) (p : Peer) (r : Round)
      → Fresh set p
      → Around net others p r
      → Ensures (λ x. Around net others x.0 x.1) (visit_one net msg hear_vote set p r)
  unfolding visit_one hear_one
  visit_one-Around set others p r fresh v =
      Ensures-if (ltb 0 r.n_ready && is_positive p.socket && is_set p.socket set)
        (λ h. Ensures-bind (receive net p.socket r.process) _ λ x e.
          Ensures-if (is_lost x.0)
            (λ _. gives _ (
              reconnect-Around net kernel msg others p next (ground arith)
                (fresh (ground arith) (ground arith)) step))
            λ whole.
              hear_vote-Around x.1 others p next (ground arith)
                (fresh (ground arith) (ground arith)) (received net p r.process x e (ground arith))
                step)
        λ _. gives _ v
    where
      next : Round
      next = record r { process = tick r.process; n_ready = r.n_ready - 1 }

      step : Around net others p next
      step = record {
        here = v.here;
        there = v.there;
        apart = v.apart;
        rest_distinct = v.rest_distinct;
        alive_count = v.alive_count;
        finished_count = v.finished_count;
      }

  pub visit-Inv :
      (set : List ℤ) (before ps : List Peer) (r : Round)
      → All (Fresh set) ps
      → Inv net (before ++ ps) r
      → Ensures (λ x. Inv net (before ++ x.0) x.1) (visit net msg hear_vote set ps r)
  unfolding visit
  visit-Inv set before [] r fresh v = gives _ v
  visit-Inv set before (p ∷ ps) r (f, fresh) v =
      Ensures-bind (visit_one net msg hear_vote set p r) _ λ x e.
        let first =
          Inv-in before x.0 ps x.1
            (Ensures-ok e (visit_one-Around set (before ++ ps) p r f (Inv-out before p ps r v))) in
        Ensures-bind (visit net msg hear_vote set ps x.1) _ λ y e'. gives _ (
          Inv-shift before x.0 y.0 y.1 (
            Ensures-ok e' (
              visit-Inv set (before ++ x.0 ∷ []) ps x.1 fresh
                (Inv-unshift before x.0 ps x.1 first))))

  drop_one-Around :
      (others : List Peer) (p : Peer) (r : Round)
      → Around net others p r
      → Around net others (drop_one p r).0 (drop_one p r).1
  unfolding drop_one
  drop_one-Around others p r v =
      elim (Bool-cases (is_positive p.socket && is_set p.socket r.watched)) [
        | inl e ↦ rw e (
            drop_Around others p r (close_fd p.socket r.process) (ground arith) (unanswered e)
              (λ x h. h) v)
        | inr e ↦ rw e v
      ]
    where
      unanswered : (is_positive p.socket && is_set p.socket r.watched) ≡ true → answered p ≡ false
      unanswered e = let w = v.here.watched_until (ground arith) in ground (arith, w)

  pub drop_silent-Inv :
      (before ps : List Peer) (r : Round)
      → Inv net (before ++ ps) r
      → Inv net (before ++ (drop_silent ps r).0) (drop_silent ps r).1
  unfolding drop_silent
  drop_silent-Inv before [] r v = v
  drop_silent-Inv before (p ∷ ps) r v =
      let x = drop_one p r in
      Inv-shift before x.0 (drop_silent ps x.1).0 _ (
        drop_silent-Inv (before ++ x.0 ∷ []) ps x.1 (
          Inv-unshift before x.0 ps x.1 (
            Inv-in before x.0 ps x.1
              (drop_one-Around (before ++ ps) p r (Inv-out before p ps r v)))))
