-- ===== src/Raft/Node/Store.antt =====
-- lab3/src_raft/Node.cpp: clients' requests, and the commit messages.
use cloud_computing_lab.Base.{
  ℕ, ◌+◌, List, [], ◌∷◌, ◌++◌, Option, none, some, Result, ok, ◌>>=◌, ℤ, pos, minus_one, int_eq,
  if◌then◌else◌, get_or, drop, ◌==◌,
}
use cloud_computing_lab.Text.{Str, codes, str_eq, words, to_string}
use cloud_computing_lab.TwoPhase.Database.{Database, lookup, has, insert, erase}
use cloud_computing_lab.TwoPhase.Message.{
  crlf, set_word, get_word, del_word, commit_word, bulk_strings,
}
use cloud_computing_lab.Raft.Message.{parse_clinet_message, clinet_error, client_ok}
use cloud_computing_lab.Raft.Node.State.{
  NodeState, follower, candidate, leader, Node, Event, sent_fd, closed, Connects, Handled, at,
  send_node, send_others,
}

-- The words, each with a space behind it.
unfoldable pub spaced_out : List Str → Str
spaced_out [] = []
spaced_out (s ∷ rest) = s ++ 32 ∷ spaced_out rest

-- `sendMessage`, unless there is no client.
abbrev pub reply : ℤ → Str → List Event
reply fd text = if int_eq fd minus_one then [] else sent_fd fd text ∷ []

-- The loop over the keys of a DEL, with the number of keys deleted so far.
unfoldable pub delete_keys : List Str → Database → ℕ → Database × ℕ
delete_keys [] db count = (db, count)
delete_keys (key ∷ keys) db count =
    delete_keys keys (if has key db then erase key db else db)
      (if has key db then count + 1 else count)

-- `Commit`
unfoldable pub commit : Node → List Str → ℤ → Handled
unfolding spaced_out delete_keys
commit n parse_msg fd = do
  method ← at parse_msg 0
  if str_eq method set_word
      then (do
        key ← at parse_msg 1
        ok (
          record n { kvdb = insert key (spaced_out (drop 2 parse_msg)) n.kvdb },
          reply fd client_ok,
        ))
      else if str_eq method del_word
      then (let (db, count) = delete_keys (drop 1 parse_msg) n.kvdb 0 in
          ok (record n { kvdb = db }, reply fd (b':' ∷ to_string (pos count) ++ crlf)))
      else ok (n, reply fd clinet_error)

-- The message of `sendCommitinfo`, whose loop starts at the index 2.
unfoldable pub commit_message : Str → List Str → Str
unfolding spaced_out
commit_message method parse_msg = commit_word ++ 32 ∷ (method ++ 32 ∷ spaced_out (drop 2 parse_msg))

-- `handleCommitRequest`. Where a word is missing, `>>` leaves the string as it was.
unfoldable pub handle_commit_request : Node → Str → Node
unfolding spaced_out delete_keys
handle_commit_request n text =
    let ws = words text in
    if str_eq (get_or ws 1 (get_or ws 0 [])) set_word
    then record n { kvdb = insert (get_or ws 2 []) (spaced_out (drop 3 ws)) n.kvdb }
    else record n { kvdb = (delete_keys (drop 2 ws) n.kvdb 0).0 }

-- `sendLeaderInfo`
unfoldable pub send_leader_info : Node → ℤ → Handled
send_leader_info n fd = do
  ip ← at n.node_ip n.current_leader
  port ← at n.node_port n.current_leader
  ok (n, sent_fd fd (ip ++ b':' ∷ to_string port) ∷ closed fd ∷ [])

unfoldable pub count_spaces : Str → ℕ
count_spaces [] = 0
count_spaces (c ∷ s) = let rest = count_spaces s in if c == 32 then rest + 1 else rest

abbrev pub nil_reply : Str
nil_reply = codes "*1" ++ crlf ++ codes "$3" ++ crlf ++ codes "nil" ++ crlf

-- The reply to a GET: as many elements are announced as the value has spaces.
unfoldable pub value_reply : Option Str → Str
unfolding count_spaces bulk_strings
value_reply none = nil_reply
value_reply (some value) =
    (b'*' ∷ to_string (pos (count_spaces value)) ++ crlf) ++ bulk_strings (words value)

-- What the leader does with the parsed words.
unfoldable pub run_request : Connects → Node → List Str → ℤ → Handled
unfolding value_reply commit send_others commit_message
run_request connects n parse_msg fd = do
  method ← at parse_msg 0
  if str_eq method get_word
      then (do key ← at parse_msg 1; ok (n, sent_fd fd (value_reply (lookup key n.kvdb)) ∷ []))
      else (do
        to_others ← send_others connects n (commit_message method parse_msg) n.num_nodes 0
        (n', to_client) ← commit n parse_msg fd
        ok (n', to_others ++ to_client))

-- What a node does with a client's request by its state. Behind the error message for a request
-- that is not valid the leader goes on.
unfoldable pub serve_as : NodeState → Connects → Node → Str → ℤ → Handled
unfolding run_request send_leader_info
serve_as leader connects n request fd = do
  let parsed = parse_clinet_message request
  let failure = if parsed.valid then [] else sent_fd fd clinet_error ∷ []
  (n', events) ← run_request connects n parsed.split_message fd
  ok (n', failure ++ events)
serve_as follower connects n request fd = send_leader_info n fd
serve_as candidate connects n request fd = send_leader_info n fd

-- `handleClientRequest`
unfoldable pub handle_client_request : Connects → Node → Str → ℤ → Handled
unfolding serve_as
handle_client_request connects n request fd = serve_as n.current_state connects n request fd

-- `sendRequestToLeader`, which nothing calls
unfoldable pub send_request_to_leader : Connects → Node → Str → Result (List Event)
unfolding send_node
send_request_to_leader connects n request = send_node connects n n.current_leader request
