-- ===== src/Text/Pieces.antt =====
-- How lines and words come apart again after they were joined.
use cloud_computing_lab.Base.{
  ℕ, ◌≡◌, ◌≢◌, refl, Bool, true, false, List, [], ◌∷◌, ◌++◌, arith, All, ok,
}
use cloud_computing_lab.Text.{
  Str, split_on, nonempty, words, chop, lines, but_last, pop_back, is_space, is_newline,
}

-- No byte of the string satisfies the test.
abbrev pub Free : (ℕ → Bool) → Str → Type 0
Free p = All (λ c. p c ≡ false)

abbrev pub crlf : Str
crlf = 13 ∷ 10 ∷ []

-- What `msg += word; msg += "\r\n"` appends.
abbrev pub line : Str → Str
line w = w ++ crlf

pub Free-append : (p : ℕ → Bool) (a b : Str) → Free p a → Free p b → Free p (a ++ b)
Free-append p [] b ha hb = hb
Free-append p (c ∷ a) b (hc, ha) hb = (hc, Free-append p a b ha hb)

pub split_on-append :
    (p : ℕ → Bool) (w : Str) (c : ℕ) (s : Str)
    → Free p w
    → p c ≡ true
    → split_on p (w ++ c ∷ s) ≡ w ∷ split_on p s
unfolding split_on
split_on-append p [] c s free sep = ground arith
split_on-append p (x ∷ w) c s (hx, free) sep = rw (hx, split_on-append p w c s free sep)

pub split_on-Free : (p : ℕ → Bool) (w : Str) → Free p w → split_on p w ≡ w ∷ []
unfolding split_on
split_on-Free p [] free = refl
split_on-Free p (x ∷ w) (hx, free) = rw (hx, split_on-Free p w free)

split_on-ne-nil : (p : ℕ → Bool) (s : Str) → split_on p s ≢ []
unfolding split_on
split_on-ne-nil p [] h = cc
split_on-ne-nil p (c ∷ s) h = ground (arith, split_on-ne-nil p s)

chop-cons : (w : Str) (l : List Str) → l ≢ [] → chop (w ∷ l) ≡ w ∷ chop l
unfolding chop
chop-cons w [] h = absurd (h refl)
chop-cons [] (v ∷ l) h = refl
chop-cons (c ∷ w) (v ∷ l) h = refl

-- A line with its newline is split off whole.
pub lines-append : (w s : Str) → Free is_newline w → lines (w ++ 10 ∷ s) ≡ w ∷ lines s
unfolding lines
lines-append w s free =
    rw (split_on-append is_newline w 10 s free refl)
      (chop-cons w (split_on is_newline s) (split_on-ne-nil is_newline s))

pub lines-nil : lines [] ≡ []
unfolding lines split_on chop
lines-nil = refl

but_last-append : (w : Str) (c d : ℕ) → but_last (d ∷ (w ++ c ∷ [])) ≡ d ∷ w
unfolding but_last
but_last-append [] c d = refl
but_last-append (x ∷ w) c d = rw (but_last-append w c x)

pub pop_back-append : (w : Str) (c : ℕ) → pop_back (w ++ c ∷ []) ≡ ok w
unfolding pop_back
pop_back-append [] c = refl
pop_back-append (x ∷ w) c = rw (but_last-append w c x)

-- A word is one or more bytes, none of them white space.
pub record IsWord (w : Str) : Type 0 where
  pub some_byte : w ≢ []
  pub no_space : Free is_space w

pub nonempty-cons : (w : Str) (l : List Str) → w ≢ [] → nonempty (w ∷ l) ≡ w ∷ nonempty l
unfolding nonempty
nonempty-cons [] l h = absurd (h refl)
nonempty-cons (c ∷ w) l h = refl

pub words-append :
    (w : Str) (c : ℕ) (s : Str) → IsWord w → is_space c ≡ true → words (w ++ c ∷ s) ≡ w ∷ words s
unfolding words
words-append w c s h sep =
    rw (split_on-append is_space w c s h.no_space sep)
      (nonempty-cons w (split_on is_space s) h.some_byte)

pub words_last : (w : Str) → IsWord w → words w ≡ w ∷ []
unfolding words nonempty
words_last w h = rw (split_on-Free is_space w h.no_space) (nonempty-cons w [] h.some_byte)

pub words-nil : words [] ≡ []
unfolding words split_on nonempty
words-nil = refl

pub words_skip : (c : ℕ) (s : Str) → is_space c ≡ true → words (c ∷ s) ≡ words s
unfolding words split_on nonempty
words_skip c s sep = rw sep
