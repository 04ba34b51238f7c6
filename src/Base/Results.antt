-- ===== src/Base/Results.antt =====
-- What a piece of C++ gives back: a value, or the way in which it has none.
use mathlib.Core.Path.{◌≡◌, refl, subst}
use mathlib.Core.Bool.{Bool, true, false}
use cloud_computing_lab.Base.Tests.{if◌then◌else◌}
use mathlib.Core.Option.{Option, none, some}

-- An access out of the bounds of a vector or string, an exception that nobody catches, an assertion
-- that does not hold, a call of std::terminate, or a call that never returns.
pub data Fault : Type 0 where
  undefined_behaviour uncaught_exception failed_assertion terminated blocked : Fault

pub data Result {ℓ} (A : Type ℓ) : Type ℓ where
  err : Fault → Result A
  ok : A → Result A

-- `v[i]`: out of range the behaviour is undefined.
abbrev pub in_bounds {ℓ} : {A : Type ℓ} → Option A → Result A
in_bounds none = err undefined_behaviour
in_bounds (some a) = ok a

-- What follows a fault is not run.
infixl 5 ◌>>=◌
abbrev pub ◌>>=◌ {ℓ μ} : {A : Type ℓ} {C : Type μ} → Result A → (A → Result C) → Result C
err fault >>= next = err fault
ok value >>= next = next value

-- Of a sequence that gives a value, the first part gives one, and the second gives it from there.
pub >>=-eq-ok {ℓ μ} :
    {A : Type ℓ} {C : Type μ} (first : Result A) (next : A → Result C) {c : C}
    → (first >>= next) ≡ ok c
    → (value : A) × (first ≡ ok value) × (next value ≡ ok c)
>>=-eq-ok (err fault) next h = cc
>>=-eq-ok (ok value) next h = (value, refl, h)

pub >>=-ok {ℓ} : {A : Type ℓ} (m : Result A) → (m >>= λ a. ok a) ≡ m
>>=-ok (ok a) = refl
>>=-ok (err e) = refl

pub ok-injective {ℓ} : {A : Type ℓ} {a b : A} → ok a ≡ ok b → a ≡ b
ok-injective h = cc

-- A value that comes back satisfies `P`; a fault is not excluded.
pub data Ensures {ℓ κ} {A : Type ℓ} (P : A → Type κ) : Result A → Type (ℓ ⊔ κ) where
  gives : (a : A) → P a → Ensures P (ok a)
  faults : (e : Fault) → Ensures P (err e)

module _ {ℓ κ} {A : Type ℓ} {P : A → Type κ} where
  pub Ensures-bind {μ} :
      {B : Type μ} (m : Result B) (f : B → Result A)
      → ((b : B) → m ≡ ok b → Ensures P (f b))
      → Ensures P (m >>= f)
  Ensures-bind (ok b) f h = h b refl
  Ensures-bind (err e) f h = faults e

  pub Ensures-if :
      (b : Bool) {x y : Result A}
      → (b ≡ true → Ensures P x)
      → (b ≡ false → Ensures P y)
      → Ensures P (if b then x else y)
  Ensures-if true h k = h refl
  Ensures-if false h k = k refl

  Ensures-out : {r : Result A} (a : A) → Ensures P r → r ≡ ok a → P a
  Ensures-out a (gives c p) e = subst P (ok-injective e) p
  Ensures-out a (faults f) e = cc

  pub Ensures-ok : {r : Result A} {a : A} → r ≡ ok a → Ensures P r → P a
  Ensures-ok {a = a} e h = Ensures-out a h e

  pub Ensures-map {μ} :
      {Q : A → Type μ} {r : Result A} → Ensures P r → ((a : A) → P a → Q a) → Ensures Q r
  Ensures-map (gives a p) h = gives a (h a p)
  Ensures-map (faults e) h = faults e
