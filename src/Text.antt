-- ===== src/Text.antt =====
-- `std::string` as a list of bytes, and what the program uses of the standard library on it:
-- comparison, `std::to_string`, `std::stoi`, `getline` and `operator>>` on a stringstream, `find`.
pub mod Equality
pub mod Pieces
pub mod Decimal
pub mod Find
use Prim.Native.Char.{code}
use Prim.Native.String.{String}
use cloud_computing_lab.Base.{
  ℕ, zero, suc, ◌+◌, ◌-◌, ◌*◌, ◌/◌, ◌%◌, ◌^◌, Bool, true, false, ◌&&◌, ◌||◌, List, [], ◌∷◌, Result,
  ok, err, undefined_behaviour, uncaught_exception, ℤ, pos, negsuc, leb, ◌==◌, if◌then◌else◌,
}

abbrev pub Str : Type 0
Str = List ℕ

-- The bytes of an ASCII literal.
abbrev pub codes : String → Str
codes String.[] = []
codes (String.◌∷◌ c s) = code c ∷ codes s

-- `a == b` on strings
unfoldable pub str_eq : Str → Str → Bool
str_eq [] [] = true
str_eq (x ∷ xs) (y ∷ ys) = (x == y) && str_eq xs ys
str_eq _ _ = false

-- `std::isspace` in the C locale
abbrev pub is_space : ℕ → Bool
is_space c = (c == 32) || (leb 9 c && leb c 13)

abbrev pub is_newline : ℕ → Bool
is_newline c = c == 10

abbrev pub is_digit : ℕ → Bool
is_digit c = leb b'0' c && leb c b'9'

abbrev pub cons_head : ℕ → List Str → List Str
cons_head c [] = (c ∷ []) ∷ []
cons_head c (w ∷ ws) = (c ∷ w) ∷ ws

-- The pieces between separators, empty ones included.
unfoldable pub split_on : (ℕ → Bool) → Str → List Str
split_on p [] = [] ∷ []
split_on p (c ∷ s) = let rest = split_on p s in if p c then [] ∷ rest else cons_head c rest

unfoldable pub nonempty : List Str → List Str
nonempty [] = []
nonempty ([] ∷ ws) = nonempty ws
nonempty ((c ∷ w) ∷ ws) = (c ∷ w) ∷ nonempty ws

-- `while (ss >> word)`: the runs of bytes that are no white space.
unfoldable pub words : Str → List Str
words s = nonempty (split_on is_space s)

-- The last piece counts as a line only if it has a byte.
unfoldable pub chop : List Str → List Str
chop [] = []
chop ([] ∷ []) = []
chop ((c ∷ w) ∷ []) = (c ∷ w) ∷ []
chop (w ∷ v ∷ ws) = w ∷ chop (v ∷ ws)

-- `while (getline(ss, line))`
unfoldable pub lines : Str → List Str
lines s = chop (split_on is_newline s)

-- All bytes but the last.
unfoldable pub but_last : Str → Str
but_last [] = []
but_last (c ∷ []) = []
but_last (c ∷ d ∷ s) = c ∷ but_last (d ∷ s)

-- `s.pop_back()`, undefined on the empty string
unfoldable pub pop_back : Str → Result Str
unfolding but_last
pop_back [] = err undefined_behaviour
pop_back (c ∷ s) = ok (but_last (c ∷ s))

-- The decimal digits of a positive number, before `out`; `n` rounds are enough.
unfoldable pub digits : ℕ → ℕ → Str → Str
digits zero n out = out
digits (suc f) n out =
    let rest = digits f (n / 10) ((b'0' + n % 10) ∷ out) in if n == 0 then out else rest

unfoldable pub show_ℕ : ℕ → Str
unfolding digits
show_ℕ n = if n == 0 then b'0' ∷ [] else digits n n []

-- `std::to_string(int)`
unfoldable pub to_string : ℤ → Str
unfolding show_ℕ
to_string (pos n) = show_ℕ n
to_string (negsuc n) = b'-' ∷ show_ℕ (suc n)

-- The number that the leading digits spell, behind `n`.
unfoldable pub scan : Str → ℕ → ℕ
scan [] n = n
scan (c ∷ s) n = let rest = scan s (n * 10 + (c - b'0')) in if is_digit c then rest else n

abbrev pub int_max : ℕ
int_max = 2 ^ 31 - 1

-- A magnitude with its sign, if an `int` holds it: else `stoi` throws `out_of_range`.
unfoldable pub signed : Bool → ℕ → Result ℤ
signed false n = if leb n int_max then ok (pos n) else err uncaught_exception
signed true zero = ok (pos 0)
signed true (suc n) = if leb n int_max then ok (negsuc n) else err uncaught_exception

-- With no digit `stoi` throws `invalid_argument`.
unfoldable pub unsigned : Bool → Str → Result ℤ
unfolding signed scan
unsigned b [] = err uncaught_exception
unsigned b (c ∷ s) = if is_digit c then signed b (scan s (c - b'0')) else err uncaught_exception

-- `std::stoi`: leading white space, an optional sign, digits, and anything behind them.
unfoldable pub stoi : Str → Result ℤ
unfolding unsigned
stoi [] = err uncaught_exception
stoi (c ∷ s) =
    let rest = stoi s in
    if is_space c
    then rest
    else if c == b'-'
    then unsigned true s
    else if c == b'+'
    then unsigned false s
    else unsigned false (c ∷ s)
