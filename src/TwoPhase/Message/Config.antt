-- ===== src/TwoPhase/Message/Config.antt =====
-- `parseConfigFile` of lab3/src_2pc/MessageProcessor.cpp on the text of the file.
use cloud_computing_lab.Base.{
  true, false, ◌||◌, List, [], ◌∷◌, ◌++◌, Option, none, some, Result, ok, ◌>>=◌, in_bounds,
  if◌then◌else◌, get_elem?, set, is_empty, get_or, ◌==◌,
}
use cloud_computing_lab.Text.{Str, codes, str_eq, lines, words}

abbrev pub coordinator_info : Str
coordinator_info = codes "coordinator_info"

abbrev pub participant_info : Str
participant_info = codes "participant_info"

-- What stands before the first `:` and behind it, if there is one.
unfoldable pub cut_address : Str → Option (Str × Str)
cut_address [] = none
cut_address (c ∷ s) =
    let rest = cut_address s in
    if c == b':'
    then some ([], s)
    else elim rest [ none ↦ none | some (ip, port) ↦ some (c ∷ ip, port) ]

-- The words of a line; an address is cut into two of them, the port last.
unfoldable pub config_line : Str → Result (List Str)
unfolding cut_address
config_line str = do
  let split = words str
  head ← in_bounds (get_elem? split 0)
  if str_eq head coordinator_info || str_eq head participant_info
      then (do
        address ← in_bounds (get_elem? split 1)
        elim (cut_address address) [
          | none ↦ ok split
          | some (ip, port) ↦ ok (set (split ++ port ∷ []) 1 ip)
        ])
      else ok split

-- Empty lines and comments are skipped.
unfoldable pub config_lines : List Str → Result (List (List Str))
unfolding config_line
config_lines [] = ok []
config_lines (str ∷ rest) = elim (is_empty str || (get_or str 0 0 == b'!')) [
  | true ↦ config_lines rest
  | false ↦ do split ← config_line str; more ← config_lines rest; ok (split ∷ more)
]

-- A file that cannot be opened gives no lines.
unfoldable pub parse_config_file : Option Str → Result (List (List Str))
unfolding config_lines
parse_config_file none = ok []
parse_config_file (some text) = config_lines (lines text)
