-- ===== src/Raft/Requests.antt =====
-- Clients' requests in RESP form at the leader of lab3/src_raft/Node.cpp.
use cloud_computing_lab.Base.{
  ◌≢◌, ℕ, ◌≡◌, refl, ap, ◌∙◌, true, false, List, [], ◌∷◌, ◌++◌, some, arith, ok, err,
  undefined_behaviour, >>=-ok, ℤ, pos, All, append_assoc, length,
}
use cloud_computing_lab.Text.{Str, codes, str_eq, words, to_string, is_space}
use cloud_computing_lab.Text.Equality.{str_eq_refl}
use cloud_computing_lab.Text.Pieces.{Free, IsWord, words-append, words-nil, words_skip}
use cloud_computing_lab.Text.Decimal.{show_no_space}
use cloud_computing_lab.Text.Find.{contains, contains-append, contains_later}
use cloud_computing_lab.TwoPhase.Database.{lookup, insert, lookup-insert}
use cloud_computing_lab.TwoPhase.Message.{set_word, get_word, crlf, is_payload, is_method}
use cloud_computing_lab.TwoPhase.Message.Client.{resp, plain, bulks, bulk_strings-bulks}
use cloud_computing_lab.Raft.Message.{parse_clinet_message, payload_words, is_request, client_ok}
use cloud_computing_lab.Raft.Node.{
  Node, leader, Event, sent_fd, Connects, commit, spaced_out, count_spaces, value_reply,
  run_request, serve_as, handle_client_request, handle_text, commit_message, reply,
}
use cloud_computing_lab.Raft.Election.{IsTabled, send_others_total}
use cloud_computing_lab.Raft.Replication.{words-spaced_out, set-IsWord}

-- A word that a request can carry unharmed.
pub record IsPlain (w : Str) : Type 0 where
  pub is_word : IsWord w
  pub is_plain : plain w ≡ true

payload : (w : Str) → w ≢ [] → is_payload w ≡ plain w
unfolding is_payload plain
payload [] h = absurd (h refl)
payload (c ∷ w) h = refl

words-crlf : (w s : Str) → IsWord w → words ((w ++ crlf) ++ s) ≡ w ∷ words s
words-crlf w s h =
    ap words (append_assoc w crlf s)
    ∙ words-append w 13 (10 ∷ s) h refl
    ∙ ap (λ ws. w ∷ ws) (words_skip 10 s refl)

-- A line of `*` or `$` and a count is one word, which is skipped.
words-count :
    (c n : ℕ) (s : Str)
    → is_space c ≡ false
    → words ((c ∷ to_string (pos n) ++ crlf) ++ s) ≡ (c ∷ to_string (pos n)) ∷ words s
words-count c n s h =
    words-crlf (c ∷ to_string (pos n)) s
      (record { some_byte = λ k. cc; no_space = (h, show_no_space n) })

payload-count :
    (c n : ℕ) (ws : List Str)
    → is_payload (c ∷ to_string (pos n)) ≡ false
    → payload_words ((c ∷ to_string (pos n)) ∷ ws) ≡ payload_words ws
unfolding payload_words
payload-count c n ws h = rw h

payload-words :
    (w : Str) (ws : List Str) → IsPlain w → payload_words (w ∷ ws) ≡ w ∷ payload_words ws
unfolding payload_words
payload-words w ws h = rw (payload w h.is_word.some_byte ∙ h.is_plain)

parse-bulks : (ws : List Str) → All IsPlain ws → payload_words (words (bulks ws)) ≡ ws
unfolding bulks
parse-bulks [] h = rw words-nil (unfold payload_words in refl)
parse-bulks (w ∷ ws) (hw, h) =
    rw (append_assoc (b'$' ∷ to_string (pos (length w)) ++ crlf) (w ++ crlf) (bulks ws)) (
      rw
        (
          words-count b'$' (length w) ((w ++ crlf) ++ bulks ws) refl,
          words-crlf w (bulks ws) hw.is_word,
        )
        (payload-count b'$' (length w) (w ∷ words (bulks ws)) (unfold is_payload in refl)
          ∙ payload-words w (words (bulks ws)) hw
          ∙ ap (λ vs. w ∷ vs) (parse-bulks ws h)))

-- The words of a request in RESP form.
parse-request_words :
    (ws : List Str)
    → All IsPlain ws
    → parse_clinet_message (resp ws) ≡ record { valid = is_request ws; split_message = ws }
unfolding parse_clinet_message resp
parse-request_words ws h =
    let e : payload_words (words ((b'*' ∷ to_string (pos (length ws)) ++ crlf) ++ bulks ws)) ≡ ws =
      ap payload_words (words-count b'*' (length ws) (bulks ws) refl)
      ∙ payload-count b'*' (length ws) (words (bulks ws)) (unfold is_payload in refl)
      ∙ parse-bulks ws h in
    rw e

has_dollar : (w : Str) (ws : List Str) → contains (codes "$") (resp (w ∷ ws)) ≡ true
unfolding resp bulks
has_dollar w ws =
    contains_later (codes "$") (b'*' ∷ to_string (pos (length (w ∷ ws))) ++ crlf) _
      (contains-dollar (to_string (pos (length w)) ++ crlf) (w ++ crlf) (bulks ws))
  where
    contains-dollar : (a b c : Str) → contains (codes "$") (((b'$' ∷ a) ++ b) ++ c) ≡ true
    contains-dollar a b c = contains-append (codes "$") ((a ++ b) ++ c)

-- A value holds as many spaces as words were written.
count_spaces-word : (w s : Str) → Free is_space w → count_spaces (w ++ s) ≡ count_spaces s
unfolding count_spaces
count_spaces-word [] s h = refl
count_spaces-word (c ∷ w) s (hc, h) = ground (arith, hc, count_spaces-word w s h)

count_spaces-spaced_out : (ws : List Str) → All IsWord ws → count_spaces (spaced_out ws) ≡ length ws
unfolding spaced_out count_spaces
count_spaces-spaced_out [] h = refl
count_spaces-spaced_out (w ∷ ws) (hw, h) =
    count_spaces-word w (32 ∷ spaced_out ws) hw.no_space
    ∙ (unfold count_spaces in omega (arith, count_spaces-spaced_out ws h))

-- The reply to a GET of a value that was written word by word.
value_reply-spaced_out :
    (ws : List Str) → All IsWord ws → value_reply (some (spaced_out ws)) ≡ resp ws
unfolding value_reply resp
value_reply-spaced_out ws h =
    rw (count_spaces-spaced_out ws h, words-spaced_out ws h, bulk_strings-bulks ws)

-- What the leader does with a request in RESP form.
leader_text :
    (connects : Connects) (n : Node) (w : Str) (ws : List Str) (fd : ℤ)
    → n.current_state ≡ leader
    → All IsPlain (w ∷ ws)
    → is_request (w ∷ ws) ≡ true
    → handle_text connects n (resp (w ∷ ws)) fd ≡ run_request connects n (w ∷ ws) fd
unfolding handle_text handle_client_request serve_as
leader_text connects n w ws fd led h valid =
    let at_leader : serve_as n.current_state connects n (resp (w ∷ ws)) fd
        ≡ serve_as leader connects n (resp (w ∷ ws)) fd =
      ap (λ s. serve_as s connects n (resp (w ∷ ws)) fd) led in
    rw (has_dollar w ws) (at_leader ∙ rw (parse-request_words (w ∷ ws) h, valid) (>>=-ok _))

literal-IsPlain : (w : Str) → IsWord w → plain w ≡ true → IsPlain w
literal-IsPlain w h k = record { is_word = h; is_plain = k }

set-IsPlain : IsPlain set_word
unfolding plain
set-IsPlain = literal-IsPlain set_word set-IsWord refl

get-IsPlain : IsPlain get_word
unfolding plain
get-IsPlain =
    literal-IsPlain get_word (record { some_byte = λ e. cc; no_space = (refl, (refl, (refl, tt))) })
      refl

words_of : (ws : List Str) → All IsPlain ws → All IsWord ws
words_of [] h = tt
words_of (w ∷ ws) (hw, h) = (hw.is_word, words_of ws h)

set_request : (key : Str) (ws : List Str) → is_request (set_word ∷ key ∷ ws) ≡ true
unfolding is_request is_method str_eq
set_request key ws = ground arith

-- At a leader that has an address for every node, the RESP request of a SET is handled without a
-- fault, and a GET of its key right behind it is answered with the RESP array of the words of its
-- value, and changes nothing. The key and the words are not empty, hold no space and begin neither
-- with * nor with $.
pub get_reads_set :
    (connects : Connects) (n : Node) (key : Str) (ws : List Str) (fd : ℤ)
    → n.current_state ≡ leader
    → IsTabled n
    → IsPlain key
    → All IsPlain ws
    → (m : Node) × (events : List Event) × (handle_text connects n (resp (set_word ∷ key ∷ ws)) fd
        ≡ ok (m, events))
      × (handle_text connects m (resp (get_word ∷ key ∷ [])) fd ≡ ok (m, sent_fd fd (resp ws) ∷ []))
unfolding run_request commit str_eq
get_reads_set connects n key ws fd led t hk h =
    let (sent, es) =
      send_others_total connects n (commit_message set_word (set_word ∷ key ∷ ws)) n.num_nodes 0 t
        (omega arith) in
    let m : Node = record n { kvdb = insert key (spaced_out ws) n.kvdb } in
    let read : lookup key m.kvdb ≡ some (spaced_out ws) =
      lookup-insert key key (spaced_out ws) n.kvdb ∙ rw (str_eq_refl key) in
    (
      m,
      sent ++ reply fd client_ok,
      leader_text connects n set_word (key ∷ ws) fd led (set-IsPlain, (hk, h)) (set_request key ws)
          ∙ rw es,
      leader_text connects m get_word (key ∷ []) fd led (get-IsPlain, (hk, tt))
            (unfold is_request is_method str_eq in refl)
          ∙ rw (read, value_reply-spaced_out ws (words_of ws h)),
    )

-- The parser refuses a GET without a key, and a leader reads behind the end of the parsed message
-- all the same.
pub get_without_key :
    (connects : Connects) (n : Node) (fd : ℤ)
    → n.current_state ≡ leader
    → (parse_clinet_message (resp (get_word ∷ []))
        ≡ record { valid = false; split_message = get_word ∷ [] })
      × (handle_text connects n (resp (get_word ∷ [])) fd ≡ err undefined_behaviour)
unfolding handle_text handle_client_request serve_as run_request str_eq
get_without_key connects n fd led =
    let at_leader : serve_as n.current_state connects n (resp (get_word ∷ [])) fd
        ≡ serve_as leader connects n (resp (get_word ∷ [])) fd =
      ap (λ s. serve_as s connects n (resp (get_word ∷ [])) fd) led in
    let no_request : is_request (get_word ∷ []) ≡ false =
      unfold is_request is_method str_eq in refl in
    (
      parse-request_words (get_word ∷ []) (get-IsPlain, tt) ∙ rw no_request refl,
      rw (has_dollar get_word [])
          (at_leader ∙ rw (parse-request_words (get_word ∷ []) (get-IsPlain, tt))),
    )
