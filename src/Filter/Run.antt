-- ===== src/Filter/Run.antt =====
-- What the evaluation of an expression does: it kicks players, and it returns a value, or it panics
-- with a string, which Eval turns into an error (`rejected`), or it panics with another value, which
-- Eval's deferred function does not get over (`panicked`).
use wfc_server_private.Prelude.{ℕ, ◌≡◌, refl, sym, ◌∙◌, List, [], ◌∷◌, ◌++◌}
use wfc_server_private.Prelude.Outcome.{Outcome, ok, rejected, panicked}

pub record Run {ℓ} (A : Type ℓ) : Type ℓ where
  pub outcome : Outcome A
  pub kicked : List ℕ

abbrev pub pure {ℓ} : {A : Type ℓ} → A → Run A
pure a = record { outcome = ok a; kicked = [] }

-- panic(string)
abbrev pub fail {ℓ} : {A : Type ℓ} → Run A
fail = record { outcome = rejected; kicked = [] }

-- panic(err), and a failed type assertion
abbrev pub crash {ℓ} : {A : Type ℓ} → Run A
crash = record { outcome = panicked; kicked = [] }

-- gpcm.KickPlayer(pid, "restricted_join")
abbrev pub kick {ℓ} : {A : Type ℓ} → ℕ → A → Run A
kick pid a = record { outcome = ok a; kicked = pid ∷ [] }

abbrev pub bind {ℓ κ} : {A : Type ℓ} {B : Type κ} → Run A → (A → Run B) → Run B
bind m f = elim m.outcome [
  | ok a ↦ record { outcome = (f a).outcome; kicked = m.kicked ++ (f a).kicked }
  | rejected ↦ record { outcome = rejected; kicked = m.kicked }
  | panicked ↦ record { outcome = panicked; kicked = m.kicked }
]

-- A run is carried on from the value of its first part, where there is one.
pub bind-outcome {ℓ κ} :
    {A : Type ℓ} {B : Type κ} (m : Run A) (f : A → Run B) (a : A)
    → m.outcome ≡ ok a
    → (bind m f).outcome ≡ (f a).outcome
bind-outcome m f a e = rw e refl

pub bind-ok {ℓ κ} :
    {A : Type ℓ} {B : Type κ} (m : Run A) (f : A → Run B) (b : B)
    → (bind m f).outcome ≡ ok b
    → (a : A) × (m.outcome ≡ ok a) × ((f a).outcome ≡ ok b)
bind-ok {A = A} m f b e = go m.outcome refl
  where
    go : (o : Outcome A) → m.outcome ≡ o → (a : A) × (m.outcome ≡ ok a) × ((f a).outcome ≡ ok b)
    go (ok a) h = (a, h, sym (bind-outcome m f a h) ∙ e)
    go rejected h = let ends : (bind m f).outcome ≡ rejected = rw h refl in cc
    go panicked h = let ends : (bind m f).outcome ≡ panicked = rw h refl in cc

pub bind-panics {ℓ κ} :
    {A : Type ℓ} {B : Type κ} (m : Run A) (f : A → Run B)
    → m.outcome ≡ panicked
    → (bind m f).outcome ≡ panicked
bind-panics m f e = rw e refl
