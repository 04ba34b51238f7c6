-- ===== src/TwoPhase/Message.antt =====
-- lab3/src_2pc/MessageProcessor.cpp: the messages of the clients and of the cluster. The parsers
-- start from the empty vector that every caller passes; the configuration file is in Config.
pub mod RoundTrip
pub mod Client
pub mod Config
use cloud_computing_lab.Base.{
  Bool, true, false, not, ◌&&◌, ◌||◌, List, [], ◌∷◌, ◌++◌, Result, ok, ◌>>=◌, ℤ, pos, ltb, ◌==◌,
  if◌then◌else◌, length, get_or, is_empty,
}
use cloud_computing_lab.Text.{Str, codes, str_eq, lines, words, pop_back, to_string}

abbrev pub set_word : Str
set_word = codes "SET"

abbrev pub get_word : Str
get_word = codes "GET"

abbrev pub del_word : Str
del_word = codes "DEL"

abbrev pub prepared_request : Str
prepared_request = codes "PREPARED-REQUEST"

abbrev pub commit_word : Str
commit_word = codes "COMMIT"

abbrev pub abort_word : Str
abort_word = codes "ABORT"

abbrev pub prepared_word : Str
prepared_word = codes "PREPARED"

abbrev pub done_word : Str
done_word = codes "DONE"

abbrev pub crlf : Str
crlf = 13 ∷ 10 ∷ []

-- The result of a parser: what it returns, and what it leaves in `split_message`.
pub record Parsed : Type 0 where
  pub valid : Bool
  pub split_message : List Str

-- `temp[0]!='*' && temp[0]!='$'`; of the empty string `temp[0]` is the byte 0.
unfoldable pub is_payload : Str → Bool
is_payload line = let c = get_or line 0 0 in not (c == b'*') && not (c == b'$')

-- The loop of `parseClientMsg` over the lines.
unfoldable pub client_lines : List Str → Result (List Str)
client_lines [] = ok []
client_lines (line ∷ rest) = do
  tail ← client_lines rest
  if is_payload line then (do word ← pop_back line; ok (word ∷ tail)) else ok tail

-- `split_message[2]+=' '; split_message[2]+=split_message[i];` for the rest of the words
unfoldable pub join_value : Str → List Str → Str
join_value value [] = value
join_value value (word ∷ rest) = join_value (value ++ 32 ∷ word) rest

-- A SET of more than three lines has its value joined into one string, and the rest removed.
unfoldable pub merge_value : List Str → List Str
merge_value (method ∷ key ∷ value ∷ word ∷ rest) =
    if str_eq method set_word
    then method ∷ key ∷ join_value value (word ∷ rest) ∷ []
    else method ∷ key ∷ value ∷ word ∷ rest
merge_value split = split

unfoldable pub is_method : Str → Bool
is_method word = str_eq word set_word || str_eq word get_word || str_eq word del_word

unfoldable pub check_client : List Str → Parsed
check_client [] = record { valid = false; split_message = [] }
check_client (method ∷ split) =
    if ltb (length (method ∷ split)) 2 || not (is_method method)
    then record { valid = false; split_message = method ∷ split }
    else record { valid = true; split_message = merge_value (method ∷ split) }

unfoldable pub parse_client_msg : Str → Result Parsed
parse_client_msg str =
    if is_empty str
    then ok (record { valid = false; split_message = [] })
    else do split ← client_lines (lines str); ok (check_client split)

-- The loop of `parseClusterMsg` over the lines.
unfoldable pub cluster_lines : List Str → Result (List Str)
cluster_lines [] = ok []
cluster_lines (line ∷ rest) = do word ← pop_back line; tail ← cluster_lines rest; ok (word ∷ tail)

unfoldable pub parse_cluster_msg : Str → Result Parsed
parse_cluster_msg str =
    if is_empty str then ok (record { valid = false; split_message = [] }) else do
      split ← cluster_lines (lines str)
      ok (record { valid = not (ltb (length split) 2); split_message = split })

-- The loop that appends each string and "\r\n".
unfoldable pub append_lines : List Str → Str
append_lines [] = []
append_lines (str ∷ rest) = str ++ crlf ++ append_lines rest

-- `getClusterPrepareRequestMsg`
unfoldable pub cluster_prepare_request_msg : ℤ → List Str → Str
cluster_prepare_request_msg id split =
    (prepared_request ++ crlf ++ to_string id ++ crlf) ++ append_lines split

-- `getClusterCommitMsg`
unfoldable pub cluster_commit_msg : ℤ → Str
cluster_commit_msg id = commit_word ++ crlf ++ to_string id ++ crlf

-- `getClusterAbortMsg`
unfoldable pub cluster_abort_msg : ℤ → Str
cluster_abort_msg id = abort_word ++ crlf ++ to_string id ++ crlf

-- `getClusterPrepareMsg`
unfoldable pub cluster_prepare_msg : ℤ → Str → Str
cluster_prepare_msg id method = prepared_word ++ crlf ++ to_string id ++ crlf ++ method ++ crlf

-- `getClusterDoneMsg`
unfoldable pub cluster_done_msg : ℤ → Str → Str → Str
cluster_done_msg id method addition =
    if not (is_empty addition)
    then done_word ++ crlf ++ to_string id ++ crlf ++ method ++ crlf ++ addition ++ crlf
    else done_word ++ crlf ++ to_string id ++ crlf ++ method ++ crlf

abbrev pub client_ok_msg : Str
client_ok_msg = codes "+OK" ++ crlf

abbrev pub client_error_msg : Str
client_error_msg = codes "-ERROR" ++ crlf

-- The words of the value, each as a bulk string.
unfoldable pub bulk_strings : List Str → Str
bulk_strings [] = []
bulk_strings (word ∷ rest) =
    (b'$' ∷ to_string (pos (length word)) ++ crlf) ++ (word ++ crlf) ++ bulk_strings rest

-- `getClientGetOrDelMsg`
unfoldable pub client_get_or_del_msg : ℤ → List Str → Str
client_get_or_del_msg id (done ∷ tid ∷ method ∷ addition ∷ []) =
    if str_eq method get_word
    then (let split = words addition in
        (b'*' ∷ to_string (pos (length split)) ++ crlf) ++ bulk_strings split)
    else if str_eq method del_word
    then b':' ∷ addition ++ crlf
    else client_error_msg
client_get_or_del_msg id split = client_error_msg
