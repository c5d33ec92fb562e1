-- ===== src/Prelude/Outcome.antt =====
-- What a Go function that can fail does: it returns a value, it returns its failure result, or
-- it panics. A read past the end of a slice is a panic.
use mathlib.Core.Path.{◌≡◌, refl, subst}
use mathlib.Core.Logic.{◌≢◌}
use mathlib.Core.Bool.{Bool, true, false}
use wfc_server_private.Prelude.{if◌then◌else◌}

pub data Outcome {ℓ} (A : Type ℓ) : Type ℓ where
  ok : A → Outcome A
  rejected : Outcome A
  panicked : Outcome A

infixl 5 ◌>>=◌ ◌>>◌
abbrev pub ◌>>=◌ {ℓ κ} : {A : Type ℓ} {B : Type κ} → Outcome A → (A → Outcome B) → Outcome B
ok a >>= f = f a
rejected >>= f = rejected
panicked >>= f = panicked

abbrev pub ◌>>◌ {ℓ} : {B : Type ℓ} → Outcome (Unit {0}) → Outcome B → Outcome B
m >> k = m >>= λ _. k

-- `if … { break }` before the final `return …, false`.
abbrev pub reject_if : Bool → Outcome (Unit {0})
reject_if true = rejected
reject_if false = ok tt

-- The code does not panic.
abbrev pub NoPanic {ℓ} : {A : Type ℓ} → Outcome A → Type 0
NoPanic (ok a) = Unit
NoPanic rejected = Unit
NoPanic panicked = ⊥

pub NoPanic-bind {ℓ κ} :
    {A : Type ℓ} {B : Type κ} (m : Outcome A) (f : A → Outcome B)
    → NoPanic m
    → ((a : A) → m ≡ ok a → NoPanic (f a))
    → NoPanic (m >>= f)
NoPanic-bind (ok a) f h k = k a refl
NoPanic-bind rejected f h k = tt
NoPanic-bind panicked f h k = h

-- The rest runs only where the test failed.
pub NoPanic-guard {ℓ} :
    {B : Type ℓ} (b : Bool) (m : Outcome B) → (b ≡ false → NoPanic m) → NoPanic (reject_if b >> m)
NoPanic-guard true m k = tt
NoPanic-guard false m k = k refl

pub NoPanic-if {ℓ} :
    {A : Type ℓ} (b : Bool) (m n : Outcome A)
    → (b ≡ true → NoPanic m)
    → (b ≡ false → NoPanic n)
    → NoPanic (if b then m else n)
NoPanic-if true m n km kn = km refl
NoPanic-if false m n km kn = kn refl

pub NoPanic-ne {ℓ} : {A : Type ℓ} (m : Outcome A) → NoPanic m → m ≢ panicked
NoPanic-ne (ok a) h = cc
NoPanic-ne rejected h = cc
NoPanic-ne panicked h = absurd h

-- What neither refuses nor panics returns a value.
pub ok_of_ne {ℓ} : {A : Type ℓ} (m : Outcome A) → m ≢ rejected → m ≢ panicked → (a : A) × (m ≡ ok a)
ok_of_ne (ok a) r p = (a, refl)
ok_of_ne rejected r p = absurd (r refl)
ok_of_ne panicked r p = absurd (p refl)

-- The value, where there is one, satisfies the predicate.
abbrev pub Ensures {ℓ} : {A : Type ℓ} → (A → Type 0) → Outcome A → Type 0
Ensures P (ok a) = P a
Ensures P rejected = Unit
Ensures P panicked = Unit

pub Ensures-bind {ℓ κ} :
    {A : Type ℓ} {B : Type κ} (P : B → Type 0) (m : Outcome A) (f : A → Outcome B)
    → ((a : A) → m ≡ ok a → Ensures P (f a))
    → Ensures P (m >>= f)
Ensures-bind P (ok a) f k = k a refl
Ensures-bind P rejected f k = tt
Ensures-bind P panicked f k = tt

pub Ensures-ok {ℓ} :
    {A : Type ℓ} (P : A → Type 0) (m : Outcome A) (a : A) → Ensures P m → m ≡ ok a → P a
Ensures-ok P (ok b) a h e = subst P (cc) h
Ensures-ok P rejected a h e = cc
Ensures-ok P panicked a h e = cc

-- A property of a split on a computed outcome.
pub outcome_induction {ℓ κ ι} :
    {A : Type ℓ} {B : Type κ} (P : B → Type ι) (o : Outcome A) (x y : B) (f : A → B)
    → (o ≡ rejected → P x)
    → (o ≡ panicked → P y)
    → ((a : A) → o ≡ ok a → P (f a))
    → P (elim o [ rejected ↦ x | panicked ↦ y | ok a ↦ f a ])
outcome_induction P rejected x y f hx hy hf = hx refl
outcome_induction P panicked x y f hx hy hf = hy refl
outcome_induction P (ok a) x y f hx hy hf = hf a refl
