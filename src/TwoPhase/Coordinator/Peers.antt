-- ===== src/TwoPhase/Coordinator/Peers.antt =====
-- Lists of participants seen around one of them, and the descriptor sets of
-- lab3/src_2pc/Coordinator.cpp.
use cloud_computing_lab.Base.{
  ℕ, ◌+◌, ◌≡◌, ◌≢◌, refl, sym, Bool, true, false, not, List, [], ◌∷◌, ◌++◌, arith, All, ℤ, int_eq,
  int_eq_iff, is_positive, minus_one,
}
use cloud_computing_lab.TwoPhase.Coordinator.{Peer, is_set, fd_clear}

abbrev pub connected : Peer → Bool
connected p = is_positive p.socket

abbrev pub answered : Peer → Bool
answered p = not (int_eq p.response minus_one)

abbrev pub bit : Bool → ℕ
bit true = 1
bit false = 0

abbrev pub count : (Peer → Bool) → List Peer → ℕ
count f [] = 0
count f (p ∷ ps) = bit (f p) + count f ps

-- If it is connected, its socket is another one.
abbrev pub Apart : ℤ → Peer → Type 0
Apart x p = connected p ≡ true → p.socket ≢ x

-- No two connected participants have one socket.
abbrev pub Distinct : List Peer → Type 0
Distinct [] = Unit {0}
Distinct (p ∷ ps) = (connected p ≡ true → All (Apart p.socket) ps) × Distinct ps

pub is_set-clear_self : (x : ℤ) (w : List ℤ) → is_set x (fd_clear x w) ≡ false
unfolding is_set fd_clear
is_set-clear_self x [] = refl
is_set-clear_self x (y ∷ w) = ground (arith, is_set-clear_self x w)

pub is_set-clear_ne : (x y : ℤ) (w : List ℤ) → x ≢ y → is_set x (fd_clear y w) ≡ is_set x w
unfolding is_set fd_clear
is_set-clear_ne x y [] h = refl
is_set-clear_ne x y (z ∷ w) h =
    ground (arith, is_set-clear_ne x y w h, int_eq_iff z x, int_eq_iff z y)

pub is_set_self : (x : ℤ) (w : List ℤ) → is_set x (x ∷ w) ≡ true
unfolding is_set
is_set_self x w = ground (arith, int_eq_iff x x)

pub is_set_more : (x y : ℤ) (w : List ℤ) → is_set x w ≡ true → is_set x (y ∷ w) ≡ true
unfolding is_set
is_set_more x y w h = ground arith

pub is_set_ne : (x y : ℤ) (w : List ℤ) → x ≢ y → is_set x (y ∷ w) ≡ is_set x w
unfolding is_set
is_set_ne x y w h = ground (arith, int_eq_iff y x)

module _ {ℓ} {A : Type ℓ} (P : A → Type 0) where
  pub All-out : (a : List A) (p : A) (b : List A) → All P (a ++ p ∷ b) → P p × All P (a ++ b)
  All-out [] p b (h, hs) = (h, hs)
  All-out (q ∷ a) p b (h, hs) = let (hp, rest) = All-out a p b hs in (hp, (h, rest))

  pub All-in : (a : List A) (p : A) (b : List A) → P p → All P (a ++ b) → All P (a ++ p ∷ b)
  All-in [] p b h hs = (h, hs)
  All-in (q ∷ a) p b h (hq, hs) = (hq, All-in a p b h hs)

pub All-zip {ℓ} :
    {A : Type ℓ} (P Q R : A → Type 0) (l : List A)
    → ((x : A) → P x → Q x → R x)
    → All P l
    → All Q l
    → All R l
All-zip P Q R [] f h k = tt
All-zip P Q R (x ∷ l) f (h, hs) (k, ks) = (f x h k, All-zip P Q R l f hs ks)

pub count-out :
    (f : Peer → Bool) (a : List Peer) (p : Peer) (b : List Peer)
    → count f (a ++ p ∷ b) ≡ bit (f p) + count f (a ++ b)
count-out f [] p b = refl
count-out f (q ∷ a) p b = omega (arith, count-out f a p b)

pub Distinct-out :
    (a : List Peer) (p : Peer) (b : List Peer)
    → Distinct (a ++ p ∷ b)
    → (connected p ≡ true → All (Apart p.socket) (a ++ b)) × Distinct (a ++ b)
Distinct-out [] p b h = h
Distinct-out (q ∷ a) p b (hq, hs) =
    let (hp, rest) = Distinct-out a p b hs in
    (
      λ cp. (λ cq e. (All-out (Apart q.socket) a p b (hq cq)).0 cp (sym e), hp cp),
      (λ cq. (All-out (Apart q.socket) a p b (hq cq)).1, rest),
    )

pub Distinct-in :
    (a : List Peer) (p : Peer) (b : List Peer)
    → (connected p ≡ true → All (Apart p.socket) (a ++ b))
    → Distinct (a ++ b)
    → Distinct (a ++ p ∷ b)
Distinct-in [] p b h hs = (h, hs)
Distinct-in (q ∷ a) p b h (hq, hs) = (
  λ cq. All-in (Apart q.socket) a p b (λ cp e. (h cp).0 cq (sym e)) (hq cq),
  Distinct-in a p b (λ cp. (h cp).1) hs,
)
