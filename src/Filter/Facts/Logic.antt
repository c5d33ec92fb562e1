-- ===== src/Filter/Facts/Logic.antt =====
-- The operators "and" and "or" of serverbrowser/filter/eval.go.
use wfc_server_private.Filter.Eval.{Value, truth, any_text, two_or_more, eval_and, eval_or}
use wfc_server_private.Filter.Run.{bind-outcome}
use wfc_server_private.Prelude.{
  ◌≡◌, refl, inl, inr, Bool, true, false, not, ◌||◌, List, [], ◌∷◌, Bytes, str, str_eq, Bool-cases,
}
use wfc_server_private.Prelude.Outcome.{ok}

-- The code finds these texts at these nodes.
abbrev pub Shows : List Value → List Bytes → Type 0
Shows [] [] = Unit
Shows (v ∷ vs) (t ∷ ts) = (v.text.outcome ≡ ok t) × Shows vs ts
Shows [] (t ∷ ts) = ⊥
Shows (v ∷ vs) [] = ⊥

unfoldable pub some_text : (Bytes → Bool) → List Bytes → Bool
some_text p [] = false
some_text p (t ∷ ts) = p t || some_text p ts

any_text-decides :
    (p : Bytes → Bool) (vs : List Value) (ts : List Bytes)
    → Shows vs ts
    → (any_text p vs).outcome ≡ ok (some_text p ts)
unfolding any_text some_text
any_text-decides p [] [] h = refl
any_text-decides p (v ∷ vs) (t ∷ ts) (h, hs) = elim (Bool-cases (p t)) [
  | inl e ↦ rw h (rw e refl)
  | inr e ↦ rw h (rw e (any_text-decides p vs ts hs))
]
any_text-decides p [] (t ∷ ts) h = absurd h
any_text-decides p (v ∷ vs) [] h = absurd h

-- On two arguments or more that have texts, "and" is 1 exactly if no text is "0", and "or" is 1 exactly
-- if some text is not "0".
pub and_or_decide :
    (vs : List Value) (ts : List Bytes)
    → two_or_more vs ≡ true
    → Shows vs ts
    → ((eval_and vs).outcome ≡ ok (truth (not (some_text (λ t. str_eq t (str "0")) ts))))
      × ((eval_or vs).outcome ≡ ok (truth (some_text (λ t. not (str_eq t (str "0"))) ts)))
unfolding eval_and eval_or
and_or_decide vs ts two h = (
  rw two (
      bind-outcome (any_text (λ t. str_eq t (str "0")) vs) _ _
        (any_text-decides (λ t. str_eq t (str "0")) vs ts h)),
  rw two (
      bind-outcome (any_text (λ t. not (str_eq t (str "0"))) vs) _ _
        (any_text-decides (λ t. not (str_eq t (str "0"))) vs ts h)),
)
