-- ===== src/Text/Decimal.antt =====
-- `stoi` reads back what `to_string` prints.
use Prim.Native.Nat.{◌+◌, ◌-◌, ◌*◌, ◌/◌, ◌%◌, ◌≤◌}
use cloud_computing_lab.Base.{
  ℕ, zero, suc, ◌≡◌, ◌≢◌, refl, Bool, true, false, [], ◌∷◌, arith, All, Bool-cases, inl, inr, ◌==◌,
  ok, ℤ, pos, negsuc,
}
use cloud_computing_lab.Text.{
  Str, digits, show_ℕ, to_string, scan, signed, unsigned, stoi, is_digit, is_newline, is_space,
  int_max,
}
use cloud_computing_lab.Text.Find.{contains, starts_with}

-- The values of a 32-bit `int`.
abbrev pub FitsInt : ℤ → Type 0
FitsInt (pos n) = n ≤ int_max
FitsInt (negsuc n) = n ≤ int_max

scan_digit : (n : ℕ) (out : Str) → scan ((b'0' + n % 10) ∷ out) (n / 10) ≡ scan out n
unfolding scan
scan_digit n out = ground arith

-- The digits of `n` in front of `out` scan as `n` does in front of `out`.
scan-digits : (f n : ℕ) (out : Str) → n ≤ f → scan (digits f n out) 0 ≡ scan out n
unfolding digits
scan-digits zero n out h = let e : n ≡ 0 = omega arith in rw e
scan-digits (suc f) n out h =
    ground (arith, scan-digits f (n / 10) ((b'0' + n % 10) ∷ out), scan_digit n out)

pub AllDigits : Str → Type 0
AllDigits = All (λ c. is_digit c ≡ true)

digits-AllDigits : (f n : ℕ) (out : Str) → AllDigits out → AllDigits (digits f n out)
unfolding digits AllDigits
digits-AllDigits zero n out h = h
digits-AllDigits (suc f) n out h = elim (Bool-cases (n == 0)) [
  | inl e ↦ rw e h
  | inr e ↦ rw e (digits-AllDigits f (n / 10) ((b'0' + n % 10) ∷ out) (ground arith, h))
]

show_ℕ-AllDigits : (n : ℕ) → AllDigits (show_ℕ n)
unfolding show_ℕ AllDigits
show_ℕ-AllDigits n = elim (Bool-cases (n == 0)) [
  | inl e ↦ rw e (refl, tt)
  | inr e ↦ rw e (digits-AllDigits n n [] tt)
]

digits-ne-nil : (f n : ℕ) (out : Str) → out ≢ [] → digits f n out ≢ []
unfolding digits
digits-ne-nil zero n out h = h
digits-ne-nil (suc f) n out h =
    ground (arith, digits-ne-nil f (n / 10) ((b'0' + n % 10) ∷ out) (λ e. cc))

show_ℕ-ne-nil : (n : ℕ) → show_ℕ n ≢ []
unfolding show_ℕ
show_ℕ-ne-nil zero e = cc
show_ℕ-ne-nil (suc n) e =
    digits-ne-nil n (suc n / 10) ((b'0' + suc n % 10) ∷ []) (λ d. cc) (ground arith)

scan-show_ℕ : (n : ℕ) → scan (show_ℕ n) 0 ≡ n
unfolding show_ℕ scan
scan-show_ℕ n = ground (arith, scan-digits n n [])

unsigned-digits : (b : Bool) (s : Str) → s ≢ [] → AllDigits s → unsigned b s ≡ signed b (scan s 0)
unfolding AllDigits scan unsigned
unsigned-digits b [] h d = absurd (h refl)
unsigned-digits b (c ∷ s) h (hc, d) =
    rw hc (let e : 0 * 10 + (c - b'0') ≡ c - b'0' = omega arith in rw e)

stoi-digits : (s : Str) → s ≢ [] → AllDigits s → stoi s ≡ unsigned false s
unfolding stoi AllDigits
stoi-digits [] h d = absurd (h refl)
stoi-digits (c ∷ s) h (hc, d) = ground arith

-- Every value of an `int` is read back from its print.
pub stoi-to_string : (z : ℤ) → FitsInt z → stoi (to_string z) ≡ ok z
unfolding to_string
stoi-to_string (pos n) h = rw (stoi-digits _ (show_ℕ-ne-nil n) (show_ℕ-AllDigits n)) (
    rw (unsigned-digits false _ (show_ℕ-ne-nil n) (show_ℕ-AllDigits n), scan-show_ℕ n)
      (unfold signed in ground arith))
stoi-to_string (negsuc n) h =
    unfold stoi in
    rw
      (
        unsigned-digits true _ (show_ℕ-ne-nil (suc n)) (show_ℕ-AllDigits (suc n)),
        scan-show_ℕ (suc n),
      )
      (unfold signed in ground arith)

no_newline : (s : Str) → AllDigits s → All (λ c. is_newline c ≡ false) s
unfolding AllDigits
no_newline [] d = tt
no_newline (c ∷ s) (hc, d) = (ground arith, no_newline s d)

-- A printed number stands on one line.
pub to_string-Free : (z : ℤ) → All (λ c. is_newline c ≡ false) (to_string z)
unfolding to_string
to_string-Free (pos n) = no_newline (show_ℕ n) (show_ℕ-AllDigits n)
to_string-Free (negsuc n) = (refl, no_newline (show_ℕ (suc n)) (show_ℕ-AllDigits (suc n)))

pub to_string-ne-nil : (z : ℤ) → to_string z ≢ []
unfolding to_string
to_string-ne-nil (pos n) e = show_ℕ-ne-nil n e
to_string-ne-nil (negsuc n) e = cc

no_space : (s : Str) → AllDigits s → All (λ c. is_space c ≡ false) s
unfolding AllDigits
no_space [] d = tt
no_space (c ∷ s) (hc, d) = (ground arith, no_space s d)

-- A printed natural number is one word.
pub show_no_space : (n : ℕ) → All (λ c. is_space c ≡ false) (to_string (pos n))
unfolding to_string
show_no_space n = no_space (show_ℕ n) (show_ℕ-AllDigits n)

contains-AllDigits :
    (c : ℕ) (p s : Str) → is_digit c ≡ false → AllDigits s → contains (c ∷ p) s ≡ false
unfolding contains starts_with AllDigits
contains-AllDigits c p [] h d = refl
contains-AllDigits c p (a ∷ s) h (ha, d) = ground (arith, contains-AllDigits c p s h d)

-- A string that begins with no digit is not found in a printed natural number.
pub no_such_byte :
    (c : ℕ) (p : Str) (n : ℕ) → is_digit c ≡ false → contains (c ∷ p) (to_string (pos n)) ≡ false
unfolding to_string
no_such_byte c p n h = contains-AllDigits c p (show_ℕ n) h (show_ℕ-AllDigits n)
