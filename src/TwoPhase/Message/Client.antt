-- ===== src/TwoPhase/Message/Client.antt =====
-- Clients' requests in RESP form, as lab3/labDescription/README.md describes it, against
-- `parseClientMsg`, and the replies to GET (lab3/src_2pc/MessageProcessor.cpp).
use cloud_computing_lab.Base.{
  ℕ, ◌≡◌, refl, ap, Bool, true, false, not, ◌&&◌, List, [], ◌∷◌, ◌++◌, arith, ok, >>=-ok, ℤ, pos,
  ◌==◌, length, All, append_assoc, append-nil, if◌then◌else◌,
}
use cloud_computing_lab.Text.{Str, str_eq, lines, words, is_newline, to_string}
use cloud_computing_lab.Text.Pieces.{IsWord, lines-nil, pop_back-append, words-append, words_last}
use cloud_computing_lab.Text.Decimal.{to_string-Free}
use cloud_computing_lab.TwoPhase.Message.{
  parse_client_msg, client_lines, check_client, merge_value, is_method, join_value, bulk_strings,
  is_payload, client_get_or_del_msg, crlf, set_word, get_word, del_word, done_word,
}
use cloud_computing_lab.TwoPhase.Message.RoundTrip.{IsLine, lines-crlf, accepted, literal-IsLine}

-- The bulk strings of RESP: each with `$` and its length before it.
unfoldable pub bulks : List Str → Str
bulks [] = []
bulks (w ∷ ws) = ((b'$' ∷ to_string (pos (length w)) ++ crlf) ++ (w ++ crlf)) ++ bulks ws

-- A RESP array of bulk strings.
unfoldable pub resp : List Str → Str
resp ws = (b'*' ∷ to_string (pos (length ws)) ++ crlf) ++ bulks ws

-- What the code writes for the words.
pub bulk_strings-bulks : (ws : List Str) → bulk_strings ws ≡ bulks ws
unfolding bulk_strings bulks
bulk_strings-bulks [] = refl
bulk_strings-bulks (w ∷ ws) =
    ap (λ s. ((b'$' ∷ to_string (pos (length w)) ++ crlf) ++ (w ++ crlf)) ++ s)
      (bulk_strings-bulks ws)

-- The word begins neither with `*` nor with `$`.
unfoldable pub plain : Str → Bool
plain [] = true
plain (c ∷ w) = not (c == b'*') && not (c == b'$')

unfoldable pub plain_words : List Str → List Str
plain_words [] = []
plain_words (w ∷ ws) = if plain w then w ∷ plain_words ws else plain_words ws

is_payload-plain : (w : Str) → is_payload (w ++ 13 ∷ []) ≡ plain w
unfolding is_payload plain
is_payload-plain [] = refl
is_payload-plain (c ∷ w) = refl

-- A line of `*` or `$` and a count is skipped.
skip_count :
    (c : ℕ) (n : ℕ) (s : Str)
    → is_payload (c ∷ to_string (pos n) ++ 13 ∷ []) ≡ false
    → is_newline c ≡ false
    → client_lines (lines ((c ∷ to_string (pos n) ++ crlf) ++ s)) ≡ client_lines (lines s)
skip_count c n s skipped free =
    rw (lines-crlf (c ∷ to_string (pos n)) s (free, to_string-Free (pos n)))
      (unfold client_lines in rw skipped (>>=-ok (client_lines (lines s))))

take_word :
    (w s : Str) (ws : List Str)
    → IsLine w
    → client_lines (lines s) ≡ ok ws
    → client_lines (lines (w ++ crlf ++ s)) ≡ ok (if plain w then w ∷ ws else ws)
unfolding client_lines
take_word w s ws free rest =
    rw (lines-crlf w s free) (rw (rest, is_payload-plain w, pop_back-append w 13) (ground arith))

client_lines-bulks :
    (ws : List Str) → All IsLine ws → client_lines (lines (bulks ws)) ≡ ok (plain_words ws)
unfolding bulks plain_words is_payload
client_lines-bulks [] h = rw lines-nil (unfold client_lines in refl)
client_lines-bulks (w ∷ ws) (hw, h) =
    rw (append_assoc (b'$' ∷ to_string (pos (length w)) ++ crlf) (w ++ crlf) (bulks ws)) (
      rw (skip_count b'$' (length w) (w ++ crlf ++ bulks ws) refl refl)
        (take_word w (bulks ws) (plain_words ws) hw (client_lines-bulks ws h)))

-- A RESP request whose words hold no newline is read as those of its words that begin neither with
-- * nor with $.
pub parse-resp :
    (ws : List Str)
    → All IsLine ws
    → parse_client_msg (resp ws) ≡ ok (check_client (plain_words ws))
unfolding parse_client_msg resp is_payload
parse-resp ws h = rw (skip_count b'*' (length ws) (bulks ws) refl refl, client_lines-bulks ws h)

-- The three requests of the lab's description. A value has one word or more.
pub data Request : Type 0 where
  set : Str → Str → List Str → Request
  get : Str → Request
  del : Str → List Str → Request

-- What the client writes.
abbrev pub request_words : Request → List Str
request_words (set key word rest) = set_word ∷ key ∷ word ∷ rest
request_words (get key) = get_word ∷ key ∷ []
request_words (del key rest) = del_word ∷ key ∷ rest

-- The words of a value behind its first one, each behind a space.
abbrev pub spaced : List Str → Str
spaced [] = []
spaced (w ∷ ws) = (32 ∷ w) ++ spaced ws

-- What the coordinator should hand to the participants.
abbrev pub operation : Request → List Str
operation (set key word rest) = set_word ∷ key ∷ (word ++ spaced rest) ∷ []
operation (get key) = get_word ∷ key ∷ []
operation (del key rest) = del_word ∷ key ∷ rest

-- A word that a request can carry unharmed.
pub record IsPlain (w : Str) : Type 0 where
  pub is_line : IsLine w
  pub is_plain : plain w ≡ true

abbrev pub ArePlain : Request → Type 0
ArePlain (set key word rest) = All IsPlain (key ∷ word ∷ rest)
ArePlain (get key) = IsPlain key
ArePlain (del key rest) = All IsPlain (key ∷ rest)

plain_words-All : (ws : List Str) → All IsPlain ws → plain_words ws ≡ ws
unfolding plain_words
plain_words-All [] h = refl
plain_words-All (w ∷ ws) (hw, h) = rw (hw.is_plain, plain_words-All ws h)

lines_of : (ws : List Str) → All IsPlain ws → All IsLine ws
lines_of [] h = tt
lines_of (w ∷ ws) (hw, h) = (hw.is_line, lines_of ws h)

join_value-spaced : (v : Str) (ws : List Str) → join_value v ws ≡ v ++ spaced ws
unfolding join_value
join_value-spaced v [] = simp append-nil
join_value-spaced v (w ∷ ws) =
    rw (join_value-spaced (v ++ 32 ∷ w) ws) (append_assoc v (32 ∷ w) (spaced ws))

pub parse_words :
    (ws : List Str) → All IsPlain ws → parse_client_msg (resp ws) ≡ ok (check_client ws)
parse_words ws h = rw (parse-resp ws (lines_of ws h), plain_words-All ws h)

plain_literal : (w : Str) → IsLine w → plain w ≡ true → IsPlain w
plain_literal w h k = record { is_line = h; is_plain = k }

check-set :
    (key word : Str) (rest : List Str)
    → ok (check_client (set_word ∷ key ∷ word ∷ rest))
      ≡ ok (accepted (operation (set key word rest)))
unfolding check_client is_method str_eq merge_value
check-set key word [] = rw (append-nil word) (ground arith)
check-set key word (w ∷ rest) = rw (← join_value-spaced word (w ∷ rest)) (ground arith)

check-del :
    (key : Str) (rest : List Str)
    → ok (check_client (del_word ∷ key ∷ rest)) ≡ ok (accepted (operation (del key rest)))
unfolding check_client is_method str_eq merge_value
check-del key [] = ground arith
check-del key (v ∷ []) = ground arith
check-del key (v ∷ w ∷ rest) = ground arith

-- A request whose words hold no newline and begin neither with * nor with $ is accepted, and
-- parsed as its operation: the method, the key or keys, and for a SET the whole value, its words
-- joined by single spaces.
pub parse-request :
    (r : Request)
    → ArePlain r
    → parse_client_msg (resp (request_words r)) ≡ ok (accepted (operation r))
parse-request (set key word rest) h =
    rw
      (parse_words (set_word ∷ key ∷ word ∷ rest)
        (plain_literal set_word (literal-IsLine set_word refl) (unfold plain in refl), h))
      (check-set key word rest)
parse-request (get key) h =
    rw
      (parse_words (get_word ∷ key ∷ [])
        (plain_literal get_word (literal-IsLine get_word refl) (unfold plain in refl), (h, tt)))
      (unfold check_client is_method str_eq merge_value in refl)
parse-request (del key rest) h =
    rw
      (parse_words (del_word ∷ key ∷ rest)
        (plain_literal del_word (literal-IsLine del_word refl) (unfold plain in refl), h))
      (check-del key rest)

pub words-spaced : (w : Str) (ws : List Str) → All IsWord (w ∷ ws) → words (w ++ spaced ws) ≡ w ∷ ws
words-spaced w [] (h, hs) = rw (append-nil w) (words_last w h)
words-spaced w (v ∷ ws) (h, hs) =
    rw (words-append w 32 (v ++ spaced ws) h refl, words-spaced v ws hs)

-- The reply to a GET whose value is one word or more, joined by single spaces, is the RESP array
-- of those words.
pub get_reply :
    (id : ℤ) (tid w : Str) (ws : List Str)
    → All IsWord (w ∷ ws)
    → client_get_or_del_msg id (done_word ∷ tid ∷ get_word ∷ (w ++ spaced ws) ∷ []) ≡ resp (w ∷ ws)
unfolding client_get_or_del_msg resp str_eq
get_reply id tid w ws h = rw (words-spaced w ws h, bulk_strings-bulks (w ∷ ws))
