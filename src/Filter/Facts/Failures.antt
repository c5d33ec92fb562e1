-- ===== src/Filter/Facts/Failures.antt =====
-- Expressions of serverbrowser/filter/eval.go that fail, or make the server panic.
use wfc_server_private.Filter.{
  Token, empty_token, number_token, identity_token, operator_token, Tree, node, Trees, nil, cons,
  cat_other, category, to_lower,
}
use wfc_server_private.Filter.Eval.{
  Value, Env, to_int64, vr_override, eval_math_operator, math_plus, math_minus, math_less,
  math_less_or_equal, math_greater, math_greater_or_equal, eval_operator, switch_function,
  eval_items, number_of, value_of, values, eval_tree,
}
use wfc_server_private.Filter.Eval.Rk.{value_at}
use wfc_server_private.Filter.Run.{Run, bind-ok, bind-panics}
use wfc_server_private.Filter.Search.{
  Context, is_candidate, visit, search_loop, or_empty, filter_servers,
}
use wfc_server_private.IpAddress.{atoi}
use wfc_server_private.Prelude.{
  ℕ, ◌≡◌, refl, ap, ◌∙◌, ◌≢◌, true, false, none, some, List, [], ◌∷◌, Bytes, str, All,
}
use wfc_server_private.Prelude.Outcome.{ok, panicked}

abbrev pub number_operators : List Bytes
number_operators = str ">" ∷ str "<" ∷ str ">=" ∷ str "<=" ∷ str "+" ∷ str "-" ∷ []

-- the parsed `name op n`
abbrev pub comparison : Bytes → Bytes → ℕ → Tree
comparison op name n = node empty_token (
    cons
      (node (operator_token op)
        (cons (node (identity_token name) nil) (cons (node (number_token n) nil) nil)))
      nil)

to_int64-panics : (s : Bytes) → atoi s ≡ none → (to_int64 s).outcome ≡ panicked
unfolding to_int64
to_int64-panics s e = rw (e, to_int64) refl

number-panics :
    (env : Env) (name : Bytes)
    → atoi (value_at env.context name) ≡ none
    → (number_of env (identity_token name) []).outcome ≡ panicked
unfolding number_of
number-panics env name e = to_int64-panics (value_at env.context name) e

panics_at_number :
    (env : Env) (fn : ℕ → ℕ → ℕ) (name : Bytes) (n : ℕ)
    → vr_override env (identity_token name) ≡ false
    → atoi (value_at env.context name) ≡ none
    → (eval_math_operator env fn (
        values env
          (cons (node (identity_token name) nil) (cons (node (number_token n) nil) nil)))).outcome
      ≡ panicked
unfolding eval_math_operator values value_of
panics_at_number env fn name n compared e =
    rw compared (bind-panics (number_of env (identity_token name) []) _ (number-panics env name e))

search_panics :
    (tree : Tree) (q : Bytes) (server : Context) (servers : List Context)
    → is_candidate q server ≡ true
    → (eval_tree tree (record { context = server; query_game = q })).outcome ≡ panicked
    → (filter_servers (server ∷ servers) q (some tree)).outcome ≡ panicked
unfolding filter_servers search_loop or_empty
search_panics tree q server servers c e =
    let v : (visit tree q server (search_loop tree q servers)).outcome ≡ panicked =
      unfold visit in
      rw c (bind-panics (eval_tree tree (record { context = server; query_game = q })) _ e) in
    rw v refl

-- A search whose expression compares a key with a number, or adds or subtracts the number, panics
-- where the first server passes the first tests and its value for the key is missing or no number,
-- unless the key is one of the ratings that Mario Kart Wii does not compare.
pub missing_number_panics :
    (q : Bytes) (server : Context) (servers : List Context) (name : Bytes) (n : ℕ)
    → is_candidate q server ≡ true
    → vr_override (record { context = server; query_game = q }) (identity_token name) ≡ false
    → atoi (value_at server name) ≡ none
    → All
        (λ op.
          (filter_servers (server ∷ servers) q (some (comparison op name n))).outcome ≡ panicked)
        number_operators
unfolding eval_tree eval_items category values value_of switch_function eval_operator to_lower
missing_number_panics q server servers name n c compared e = (
  by (str ">") math_greater refl,
  (
    by (str "<") math_less refl,
    (
      by (str ">=") math_greater_or_equal refl,
      (
        by (str "<=") math_less_or_equal refl,
        (by (str "+") math_plus refl, (by (str "-") math_minus refl, tt)),
      ),
    ),
  ),
)
  where
    env : Env
    env = record { context = server; query_game = q }

    arguments : Trees
    arguments = cons (node (identity_token name) nil) (cons (node (number_token n) nil) nil)

    by :
        (op : Bytes) (fn : ℕ → ℕ → ℕ)
        → eval_tree (comparison op name n) env ≡ eval_math_operator env fn (values env arguments)
        → (filter_servers (server ∷ servers) q (some (comparison op name n))).outcome ≡ panicked
    by op fn evaluated =
        search_panics (comparison op name n) q server servers c
          (ap (λ (m : Run ℕ). m.outcome) evaluated ∙ panics_at_number env fn name n compared e)

no_value :
    (vs : List Value) (n : ℕ)
    → All (λ v. category v.token ≡ cat_other) vs
    → (eval_items vs).outcome ≢ ok n
unfolding eval_items
no_value [] n h = cc
no_value (v ∷ vs) n (h, hs) =
    rw (h, eval_items)
      (λ e. let (a, _, k) = bind-ok v.number (λ _. eval_items vs) n e in no_value vs n hs k)

-- Every item of the expression is neither a function nor a value.
abbrev pub OnlyGroups : Trees → Type 0
OnlyGroups nil = Unit
OnlyGroups (cons (node t items) ts) = (category t ≡ cat_other) × OnlyGroups ts

-- An expression whose items are neither functions nor values, such as one that stands in brackets
-- as a whole, has no value at any server.
pub groups_fail :
    (t : Token) (items : Trees) (env : Env) (n : ℕ)
    → OnlyGroups items
    → (eval_tree (node t items) env).outcome ≢ ok n
unfolding eval_tree
groups_fail t items env n h = no_value (values env items) n (go items h)
  where
    go : (ts : Trees) → OnlyGroups ts → All (λ v. category v.token ≡ cat_other) (values env ts)
    go nil k = tt
    go (cons (node u us) ts) (k, ks) = (k, go ts ks)
