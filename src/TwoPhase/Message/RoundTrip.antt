-- ===== src/TwoPhase/Message/RoundTrip.antt =====
-- The cluster's messages (lab3/src_2pc/MessageProcessor.cpp) read back by `parse_cluster_msg`.
use cloud_computing_lab.Base.{
  ◌≡◌, refl, Bool, true, false, not, ◌&&◌, List, [], ◌∷◌, ◌++◌, arith, ok, ℤ, All, append_assoc,
  append-nil, is_empty,
}
use cloud_computing_lab.Text.{Str, lines, is_newline, to_string}
use cloud_computing_lab.Text.Pieces.{Free, Free-append, lines-append, lines-nil, pop_back-append}
use cloud_computing_lab.Text.Decimal.{to_string-Free}
use cloud_computing_lab.TwoPhase.Message.{
  Parsed, parse_cluster_msg, cluster_lines, append_lines, cluster_prepare_request_msg,
  cluster_commit_msg, cluster_abort_msg, cluster_prepare_msg, cluster_done_msg, crlf,
  prepared_request, commit_word, abort_word, prepared_word, done_word,
}

-- A string that holds no newline, so it can stand on a line.
abbrev pub IsLine : Str → Type 0
IsLine = Free is_newline

pub lines-crlf : (w s : Str) → IsLine w → lines (w ++ crlf ++ s) ≡ (w ++ 13 ∷ []) ∷ lines s
lines-crlf w s free =
    let e : w ++ crlf ++ s ≡ (w ++ 13 ∷ []) ++ 10 ∷ s = simp append_assoc in
    rw e (lines-append (w ++ 13 ∷ []) s (Free-append is_newline w (13 ∷ []) free (refl, tt)))

pub cluster_lines-append_lines :
    (ws : List Str) → All IsLine ws → cluster_lines (lines (append_lines ws)) ≡ ok ws
unfolding cluster_lines append_lines
cluster_lines-append_lines [] h = rw lines-nil
cluster_lines-append_lines (w ∷ ws) (hw, h) =
    rw (lines-crlf w (append_lines ws) hw)
      (rw (pop_back-append w 13, cluster_lines-append_lines ws h))

append_lines-ne-nil : (w : Str) (ws : List Str) → is_empty (append_lines (w ∷ ws)) ≡ false
unfolding append_lines
append_lines-ne-nil [] ws = refl
append_lines-ne-nil (c ∷ w) ws = refl

-- What is written line by line is read back line by line.
pub parse-append_lines :
    (v w : Str) (ws : List Str)
    → All IsLine (v ∷ w ∷ ws)
    → parse_cluster_msg (append_lines (v ∷ w ∷ ws))
      ≡ ok (record { valid = true; split_message = v ∷ w ∷ ws })
unfolding parse_cluster_msg
parse-append_lines v w ws h =
    rw (append_lines-ne-nil v (w ∷ ws), cluster_lines-append_lines (v ∷ w ∷ ws) h) (ground arith)

abbrev pub accepted : List Str → Parsed
accepted ws = record { valid = true; split_message = ws }

abbrev no_newline : Str → Bool
no_newline [] = true
no_newline (c ∷ s) = not (is_newline c) && no_newline s

pub literal-IsLine : (s : Str) → no_newline s ≡ true → IsLine s
literal-IsLine [] h = tt
literal-IsLine (c ∷ s) h = (ground arith, literal-IsLine s (ground arith))

prepare_request_lines :
    (id : ℤ) (ws : List Str)
    → cluster_prepare_request_msg id ws ≡ append_lines (prepared_request ∷ to_string id ∷ ws)
unfolding cluster_prepare_request_msg append_lines
prepare_request_lines id ws = simp append_assoc

commit_lines : (id : ℤ) → cluster_commit_msg id ≡ append_lines (commit_word ∷ to_string id ∷ [])
unfolding cluster_commit_msg append_lines
commit_lines id = simp (append_assoc, append-nil)

abort_lines : (id : ℤ) → cluster_abort_msg id ≡ append_lines (abort_word ∷ to_string id ∷ [])
unfolding cluster_abort_msg append_lines
abort_lines id = simp (append_assoc, append-nil)

prepare_lines :
    (id : ℤ) (m : Str)
    → cluster_prepare_msg id m ≡ append_lines (prepared_word ∷ to_string id ∷ m ∷ [])
unfolding cluster_prepare_msg append_lines
prepare_lines id m = simp (append_assoc, append-nil)

-- An empty addition takes no line.
abbrev pub addition_lines : Str → List Str
addition_lines [] = []
addition_lines (c ∷ s) = (c ∷ s) ∷ []

done_lines :
    (id : ℤ) (m a : Str)
    → cluster_done_msg id m a ≡ append_lines (done_word ∷ to_string id ∷ m ∷ addition_lines a)
unfolding cluster_done_msg append_lines
done_lines id m [] = simp (append_assoc, append-nil)
done_lines id m (c ∷ a) = simp (append_assoc, append-nil)

addition_lines-IsLine : (a : Str) → IsLine a → All IsLine (addition_lines a)
addition_lines-IsLine [] h = tt
addition_lines-IsLine (c ∷ a) h = (h, tt)

-- Every message of the cluster is read back by parse_cluster_msg as the strings that it was made
-- of, if the method, the value and the words hold no newline: a prepare request as its header, its
-- id and its words, a commit and an abort as the verb and the id, a PREPARED as the verb, the id
-- and the method, and a DONE likewise, with a fourth line if something is added.
pub parse-cluster_messages :
    (id : ℤ) (ws : List Str) (method addition : Str)
    → All IsLine ws
    → IsLine method
    → IsLine addition
    → (parse_cluster_msg (cluster_prepare_request_msg id ws)
        ≡ ok (accepted (prepared_request ∷ to_string id ∷ ws)))
      × (parse_cluster_msg (cluster_commit_msg id)
          ≡ ok (accepted (commit_word ∷ to_string id ∷ [])))
      × (parse_cluster_msg (cluster_abort_msg id) ≡ ok (accepted (abort_word ∷ to_string id ∷ [])))
      × (parse_cluster_msg (cluster_prepare_msg id method)
          ≡ ok (accepted (prepared_word ∷ to_string id ∷ method ∷ [])))
      × (parse_cluster_msg (cluster_done_msg id method addition)
          ≡ ok (accepted (done_word ∷ to_string id ∷ method ∷ addition_lines addition)))
parse-cluster_messages id ws method addition hws hm ha = (
  rw (prepare_request_lines id ws) (
      parse-append_lines prepared_request (to_string id) ws
        (literal-IsLine prepared_request refl, (to_string-Free id, hws))),
  rw (commit_lines id) (
      parse-append_lines commit_word (to_string id) []
        (literal-IsLine commit_word refl, (to_string-Free id, tt))),
  rw (abort_lines id) (
      parse-append_lines abort_word (to_string id) []
        (literal-IsLine abort_word refl, (to_string-Free id, tt))),
  rw (prepare_lines id method) (
      parse-append_lines prepared_word (to_string id) (method ∷ [])
        (literal-IsLine prepared_word refl, (to_string-Free id, (hm, tt)))),
  rw (done_lines id method addition) (
      parse-append_lines done_word (to_string id) (method ∷ addition_lines addition) (
        literal-IsLine done_word refl,
        (to_string-Free id, (hm, addition_lines-IsLine addition ha)),
      )),
)
