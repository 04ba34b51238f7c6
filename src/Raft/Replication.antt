-- ===== src/Raft/Replication.antt =====
-- What a SET or a DEL does at the leader and at the other nodes of lab3/src_raft/Node.cpp.
use cloud_computing_lab.Base.{
  ◌≡◌, refl, ap, ◌∙◌, List, [], ◌∷◌, ◌++◌, Option, none, some, pos, if◌then◌else◌, All, drop,
  get_or,
}
use cloud_computing_lab.Text.{Str, str_eq, words, to_string}
use cloud_computing_lab.Text.Pieces.{IsWord, words-append, words-nil}
use cloud_computing_lab.TwoPhase.Database.{Database, lookup}
use cloud_computing_lab.TwoPhase.Message.{set_word, del_word, commit_word, crlf}
use cloud_computing_lab.TwoPhase.Participant.Effects.{mem, held}
use cloud_computing_lab.Raft.Message.{client_ok}
use cloud_computing_lab.Raft.Node.{Node, commit_message, spaced_out}

pub words-spaced_out : (ws : List Str) → All IsWord ws → words (spaced_out ws) ≡ ws
unfolding spaced_out
words-spaced_out [] h = words-nil
words-spaced_out (w ∷ ws) (hw, h) =
    rw (words-append w 32 (spaced_out ws) hw refl, words-spaced_out ws h)

commit-IsWord : IsWord commit_word
commit-IsWord = record {
  some_byte = λ e. cc;
  no_space = (refl, (refl, (refl, (refl, (refl, (refl, tt))))));
}

pub set-IsWord : IsWord set_word
set-IsWord = record { some_byte = λ e. cc; no_space = (refl, (refl, (refl, tt))) }

pub words-commit_message :
    (method : Str) (parse_msg : List Str)
    → IsWord method
    → All IsWord (drop 2 parse_msg)
    → words (commit_message method parse_msg) ≡ commit_word ∷ method ∷ drop 2 parse_msg
unfolding commit_message
words-commit_message method parse_msg hm h =
    words-append commit_word 32 (method ++ 32 ∷ spaced_out (drop 2 parse_msg)) commit-IsWord refl
    ∙ ap (λ ws. commit_word ∷ ws)
        (words-append method 32 (spaced_out (drop 2 parse_msg)) hm refl
          ∙ ap (λ ws. method ∷ ws) (words-spaced_out (drop 2 parse_msg) h))

-- A value as the nodes should keep it: each word, and a space behind each.
abbrev pub kept : List Str → Str
kept [] = []
kept (w ∷ ws) = (w ++ 32 ∷ []) ++ kept ws

-- A write, by the words behind the method.
pub data Write : Type 0 where
  set : Str → List Str → Write
  del : List Str → Write

abbrev pub write_words : Write → List Str
write_words (set key ws) = set_word ∷ key ∷ ws
write_words (del keys) = del_word ∷ keys

-- What a key holds behind the write.
abbrev pub written : Write → Database → Str → Option Str
written (set key ws) db j = if str_eq key j then some (kept ws) else lookup j db
written (del keys) db j = if mem j keys then none else lookup j db

abbrev pub write_reply : Write → Database → Str
write_reply (set key ws) db = client_ok
write_reply (del keys) db = b':' ∷ to_string (pos (held keys db)) ++ crlf

-- What the other nodes make of the same write.
abbrev pub at_follower : Write → Database → Str → Option Str
at_follower (set key ws) db j =
    if str_eq (get_or ws 0 []) j then some (kept (drop 1 ws)) else lookup j db
at_follower (del keys) db j = if mem j (drop 1 keys) then none else lookup j db

-- The words that `sendCommitinfo` sends on.
abbrev pub sent_on : Write → List Str
sent_on (set key ws) = ws
sent_on (del keys) = drop 1 keys

abbrev pub method_of : Write → Str
method_of (set key ws) = set_word
method_of (del keys) = del_word
