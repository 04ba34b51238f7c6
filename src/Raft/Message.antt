-- ===== src/Raft/Message.antt =====
-- lab3/src_raft/MessageProcessor.cpp: the clients' messages and the configuration file.
use cloud_computing_lab.Base.{
  ℕ, Bool, true, false, not, ◌&&◌, ◌||◌, List, [], ◌∷◌, ◌++◌, Option, none, some, Result, ok, ◌>>=◌,
  in_bounds, if◌then◌else◌, get_elem?, get_or, set, is_empty, length, ltb, ◌==◌,
}
use cloud_computing_lab.Text.{Str, codes, lines, words}
use cloud_computing_lab.Text.Find.{cut_at}
use cloud_computing_lab.TwoPhase.Message.{Parsed, is_payload, is_method, crlf}

-- `MAX_BUF_SIZE` of `getMessage`, which is that of TwoPhase.Receive
abbrev pub buffer_size : ℕ
buffer_size = 1024

-- The words that begin neither with `*` nor with `$`.
unfoldable pub payload_words : List Str → List Str
unfolding is_payload
payload_words [] = []
payload_words (tmp ∷ rest) = if is_payload tmp then tmp ∷ payload_words rest else payload_words rest

-- `linenum < 2 || (res[0] != "SET" && ...)`, and its negation is returned
unfoldable pub is_request : List Str → Bool
unfolding is_method
is_request [] = false
is_request (method ∷ res) = not (ltb (length (method ∷ res)) 2) && is_method method

-- `parseClinetMessage`: what is returned, and the words, which are kept if it fails too.
unfoldable pub parse_clinet_message : Str → Parsed
unfolding payload_words is_request
parse_clinet_message str =
    if is_empty str then record { valid = false; split_message = [] } else record {
      valid = is_request (payload_words (words str));
      split_message = payload_words (words str);
    }

-- `getClinetERROR` and `getClientOK`
abbrev pub clinet_error : Str
clinet_error = codes "-ERROR" ++ crlf

abbrev pub client_ok : Str
client_ok = codes "+OK" ++ crlf

-- A line of the configuration: its second word is cut at the first `:`, and the port is the last
-- word. With no `:` both are the whole word.
unfoldable pub config_line : Str → Result (List Str)
unfolding cut_at
config_line str = do
  let split = words str
  address ← in_bounds (get_elem? split 1)
  elim (cut_at b':' address) [
    | none ↦ ok (split ++ address ∷ [])
    | some (ip, port) ↦ ok (set (split ++ port ∷ []) 1 ip)
  ]

unfoldable pub config_lines : List Str → Result (List (List Str))
unfolding config_line
config_lines [] = ok []
config_lines (str ∷ rest) = elim (is_empty str || (get_or str 0 0 == b'!')) [
  | true ↦ config_lines rest
  | false ↦ do split_data ← config_line str; more ← config_lines rest; ok (split_data ∷ more)
]

-- `parseConfigFile`: without the file the process exits.
unfoldable pub parse_config_file : Option Str → Option (Result (List (List Str)))
unfolding config_lines
parse_config_file none = none
parse_config_file (some text) = some (config_lines (lines text))
