-- ===== src/TwoPhase/Participant/Atomicity.antt =====
-- One message at a participant (lab3/src_2pc/Participant.cpp), whatever the message is: the loop of
-- `handleConnection` from `parseClusterMsg` to the answer.
use cloud_computing_lab.Base.{
  ℕ, ◌≡◌, refl, ap, ◌∙◌, ◌⊎◌, inl, inr, Bool, true, false, not, ◌||◌, List, [], ◌∷◌, arith, ok,
  ◌>>=◌, Ensures, gives, Ensures-bind, Ensures-if, Ensures-ok, ok-injective, Ensures-map, ℤ,
  if◌then◌else◌, Bool-cases, drop, int_eq, ◌==◌, ==_iff,
}
use cloud_computing_lab.Text.{Str, str_eq, stoi}
use cloud_computing_lab.Text.Equality.{str_eq→eq}
use cloud_computing_lab.TwoPhase.Database.{Database, Same}
use cloud_computing_lab.TwoPhase.Message.{
  Parsed, parse_cluster_msg, set_word, get_word, del_word, prepared_request, commit_word,
  abort_word,
}
use cloud_computing_lab.TwoPhase.Participant.{
  Participant, at, handle_prepare_phase, handle_commit_or_abort_phase, prepare_method, prepare_set,
  prepare_get, prepare_del, begin, roll_back, undo_all, commit_reply, abort_reply,
}
use cloud_computing_lab.TwoPhase.Participant.Effects.{
  undo_del, undo-set, roll_back_lem, delete_keys_lem,
}
use cloud_computing_lab.TwoPhase.Participant.Session.{
  Turn, handle_message, handle_phase_1, handle_phase_2, respond, turn, send_message, leave,
  shut_down,
}

-- The committed contents are those of `b`: in phase 1 they are the database, and in phase 2 what
-- the rollback log makes of it.
pub data Holds (phase : ℕ) (db : Database) (log : List (List Str)) (b : Database) : Type 0 where
  settled : phase ≡ 1 → Same db b → Holds phase db log b
  pending : (d : Database) → phase ≡ 2 → undo_all db log ≡ ok d → Same d b → Holds phase db log b

abbrev pub Committed : Participant → Database → Type 0
Committed p b = Holds p.phase p.db p.rollback_log b

Holds-trans :
    {n : ℕ} {db : Database} {log : List (List Str)} {b c : Database}
    → Same b c
    → Holds n db log b
    → Holds n db log c
Holds-trans h (settled e s) = settled e (λ k. s k ∙ h k)
Holds-trans h (pending d e u s) = pending d e u (λ k. s k ∙ h k)

settled-Same :
    {n : ℕ} {db : Database} {log : List (List Str)} {b : Database}
    → n ≡ 1
    → Holds n db log b
    → Same db b
settled-Same one (settled _ s) = s
settled-Same one (pending d two u s) = absurd (omega arith)

-- What a handler returns leaves the committed contents at `b`.
abbrev Keeps : Database → Participant × Str → Type 0
Keeps b x = Committed x.0 b

prepare_method-Committed :
    (p : Participant) (id : ℤ) (m : Str) (split : List Str)
    → p.phase ≡ 1
    → Ensures (Keeps p.db) (prepare_method (begin p id) m split)
unfolding prepare_method prepare_set prepare_get prepare_del begin
prepare_method-Committed p id m split one =
    Ensures-if (str_eq m set_word) (λ _. set_case)
      λ _.
        Ensures-if (str_eq m get_word)
          (λ _. Ensures-bind (at split 3) _ λ key _. gives _ (settled one (λ k. refl)))
          λ _.
            Ensures-if (str_eq m del_word) (λ _. gives _ del_case)
              λ _. gives _ (settled one (λ k. refl))
  where
    set_case :
        Ensures
          (Keeps p.db)
          (do key ← at split 3; value ← at split 4; ok (prepare_set (begin p id) key value))
    set_case = Ensures-bind (at split 3) _ λ key _. Ensures-bind (at split 4) _ λ value _.
        let (d, undoes, same) = undo-set id key value p.db in gives _ (pending d refl undoes same)

    del_case : Keeps p.db (prepare_del (begin p id) (drop 3 split))
    del_case =
        let (d, undoes, same) = undo_del id (drop 3 split) p.db in
        rw (delete_keys_lem (drop 3 split) _) (pending d refl undoes same)

prepare_phase-Committed :
    (p : Participant) (split : List Str)
    → p.phase ≡ 1
    → Ensures (Keeps p.db) (handle_prepare_phase p split)
unfolding handle_prepare_phase
prepare_phase-Committed p split one = Ensures-bind (at split 1) _ λ number _.
    Ensures-bind (stoi number) _
      λ id _. Ensures-bind (at split 2) _ λ m _. prepare_method-Committed p id m split one

-- The contents stay those of `b`, or a commit makes the pending database the committed one.
abbrev pub Whole : Participant → Database → List Str → Participant → Type 0
Whole p b split q =
    Committed q b ⊎ ((p.phase ≡ 2) × (at split 0 ≡ ok commit_word) × Committed q p.db)

-- The rollback of a pending transaction.
roll_back-Same :
    (p : Participant) (b : Database) (n : ℕ)
    → n ≡ 2
    → Holds n p.db p.rollback_log b
    → Ensures (λ (q : Participant). Same q.db b × (q.phase ≡ p.phase)) (roll_back p)
roll_back-Same p b n two (settled one s) = absurd (omega arith)
roll_back-Same p b n two (pending d _ undoes s) = rw (roll_back_lem p d undoes) (gives _ (s, refl))

abbrev is_decision : Str → Bool
is_decision verb = str_eq verb commit_word || str_eq verb abort_word

decide-Whole :
    (p : Participant) (b : Database) (split : List Str) (verb : Str)
    → at split 0 ≡ ok verb
    → is_decision verb ≡ true
    → p.phase ≡ 2
    → Committed p b
    → Ensures
        (λ (x : Participant × Str). Whole p b split x.0)
        (handle_commit_or_abort_phase p split)
unfolding handle_commit_or_abort_phase
decide-Whole p b split verb first decision two c = rw first (
    Ensures-if (str_eq verb commit_word)
      (λ e. Ensures-bind (commit_reply _) _ λ reply _.
        gives _ (inr (two, ap ok (str_eq→eq verb commit_word e), settled refl (λ k. refl))))
      λ not_commit.
        Ensures-if (str_eq verb abort_word)
          (λ _. Ensures-bind (roll_back _) _ λ r done. Ensures-bind (abort_reply r) _ λ reply _.
            let (same, one) =
              Ensures-ok done (roll_back-Same (record p { phase = 1 }) b p.phase two c) in
            gives _ (inl (settled one same)))
          λ not_abort. absurd (ground arith))

-- One message in phase 1.
phase_1-Whole :
    (p : Participant) (b : Database) (split : List Str)
    → p.phase ≡ 1
    → Committed p b
    → Ensures (λ (t : Turn). Whole p b split t.participant) (handle_phase_1 p split)
unfolding handle_phase_1 respond
phase_1-Whole p b split one c = Ensures-bind (at split 0) _ λ verb _.
    Ensures-if (str_eq verb prepared_request)
      (λ _. Ensures-bind (handle_prepare_phase p split) _ λ x e. gives _ (
        inl
          (Holds-trans (settled-Same one c) (Ensures-ok e (prepare_phase-Committed p split one)))))
      λ _.
        Ensures-bind (at split 1) _
          λ number _. Ensures-bind (stoi number) _ λ msg_id _. gives _ (inl (kept msg_id))
  where
    kept :
        (msg_id : ℤ)
        → Committed
            (if int_eq p.id msg_id
              then turn p (send_message p.last_response_msg) leave
              else turn p [] shut_down).participant
            b
    kept msg_id = elim (Bool-cases (int_eq p.id msg_id)) [ inl e ↦ rw e c | inr e ↦ rw e c ]

-- One message in phase 2.
phase_2-Whole :
    (p : Participant) (b : Database) (split : List Str)
    → p.phase ≡ 2
    → Committed p b
    → Ensures (λ (t : Turn). Whole p b split t.participant) (handle_phase_2 p split)
unfolding handle_phase_2 respond
phase_2-Whole p b split two c = Ensures-bind (at split 0) _ λ verb first.
    Ensures-if (is_decision verb)
      (λ d.
        Ensures-bind (handle_commit_or_abort_phase p split) _
          λ x e. gives _ (Ensures-ok e (decide-Whole p b split verb first d two c)))
      λ _. Ensures-bind (at split 1) _ λ number _. Ensures-bind (stoi number) _ λ msg_id _.
        Ensures-if (int_eq msg_id p.id) (λ _. gives _ (inl c))
          λ _. Ensures-bind (roll_back p) _ λ q done.
            Ensures-bind (handle_prepare_phase (record q { phase = 1 }) split) _ λ x e.
              let (same, _) = Ensures-ok done (roll_back-Same p b p.phase two c) in
              gives _ (inl (Holds-trans same (Ensures-ok e (prepare_phase-Committed _ split refl))))

-- A message whose first line is COMMIT.
abbrev pub IsCommit : Str → Type 0
IsCommit text =
    (rest : List Str) × (parse_cluster_msg text
      ≡ ok (record { valid = true; split_message = commit_word ∷ rest }))

first_line : (l : List Str) (c : Str) → at l 0 ≡ ok c → (rest : List Str) × (l ≡ c ∷ rest)
first_line [] c h = cc
first_line (d ∷ l) c h = (l, ap (λ x. x ∷ l) (ok-injective h))

message-Whole :
    (p : Participant) (b : Database) (text : Str)
    → Committed p b
    → Ensures
        (λ (t : Turn).
          Committed t.participant b
          ⊎ ((p.phase ≡ 2) × IsCommit text × Committed t.participant p.db))
        (handle_message p text)
unfolding handle_message
message-Whole p b text c = Ensures-bind (parse_cluster_msg text) _ λ parsed read.
    Ensures-if (not parsed.valid) (λ _. gives _ (inl c))
      λ valid.
        Ensures-if (p.phase == 1)
          (λ one.
            Ensures-map (phase_1-Whole p b parsed.split_message ((==_iff p.phase 1).0 one) c)
              λ t w. whole t.participant parsed read valid w)
          λ _.
            Ensures-if (p.phase == 2)
              (λ two.
                Ensures-map (phase_2-Whole p b parsed.split_message ((==_iff p.phase 2).0 two) c)
                  λ t w. whole t.participant parsed read valid w)
              λ _. gives _ (inl c)
  where
    whole :
        (q : Participant) (parsed : Parsed)
        → parse_cluster_msg text ≡ ok parsed
        → not parsed.valid ≡ false
        → Whole p b parsed.split_message q
        → Committed q b ⊎ ((p.phase ≡ 2) × IsCommit text × Committed q p.db)
    whole q parsed read valid (inl k) = inl k
    whole q parsed read valid (inr (two, first, k)) =
        let (rest, e) = first_line parsed.split_message commit_word first in
        inr (two, (rest, ground arith), k)

-- Whatever message arrives, well formed or not, in either phase: if it is handled without a fault,
-- the participant is in phase 1 or 2 again and its committed contents are what they were, unless
-- it was in phase 2 and the message is a COMMIT, which may make the pending database committed.
pub message_atomic :
    (p : Participant) (b : Database) (text : Str) (t : Turn)
    → Committed p b
    → handle_message p text ≡ ok t
    → Committed t.participant b ⊎ ((p.phase ≡ 2) × IsCommit text × Committed t.participant p.db)
message_atomic p b text t c h = Ensures-ok h (message-Whole p b text c)
