-- ===== src/Filter/Eval.antt =====
-- serverbrowser/filter/eval.go. Each node has the result of getString and of getNumber at it; a text
-- or a number is computed where the code asks for it, in the code's order.
pub mod Rk
use wfc_server_private.Filter.{
  Token, number_token, identity_token, operator_token, group_token, text_token, Tree, node, Trees,
  nil, cons, cat_other, cat_function, cat_value, category, to_lower, signed_key, format_int,
}
use wfc_server_private.Filter.Eval.Rk.{value_at, eval_equals_rk}
use wfc_server_private.Filter.Like.{like_texts}
use wfc_server_private.Filter.Run.{Run, pure, fail, crash, bind}
use wfc_server_private.IpAddress.{atoi}
use wfc_server_private.Prelude.{
  ℕ, ◌+◌, ◌-◌, ◌%◌, ◌^◌, Bool, true, false, not, ◌&&◌, ◌||◌, Option, none, some, List, [], ◌∷◌, ltb,
  leb, if◌then◌else◌, Bytes, str, str_eq,
}

-- What the code asks of a node: getString, getNumber and switchFunction at it.
pub record Value : Type 0 where
  pub token : Token
  pub text : Run Bytes
  pub number : Run ℕ
  pub function : Run ℕ

-- `this.context[…]`, and the game that is searched
pub record Env : Type 0 where
  pub context : Bytes → Option Bytes
  pub query_game : Bytes

-- toInt64; ParseInt's error is no string
unfoldable pub to_int64 : Bytes → Run ℕ
to_int64 value = elim (atoi value) [ none ↦ crash | some n ↦ pure n ]

unfoldable pub is_identity : (Bytes → Bool) → Token → Bool
is_identity test (identity_token name) = test name
is_identity test _ = false

abbrev pub truth : Bool → ℕ
truth b = if b then 1 else 0

-- the loop of evalEquals and evalNotEquals with three arguments or more: whether a text that `stop`
-- holds of is met
unfoldable pub any_text : (Bytes → Bool) → List Value → Run Bool
any_text stop [] = pure false
any_text stop (v ∷ vs) =
    bind v.text λ t. elim (stop t) [ true ↦ pure true | false ↦ any_text stop vs ]

-- the override of "=" for the key "rk"
rk_override : Env → Token → Bool
unfolding is_identity
rk_override env token =
    is_identity (λ n. str_eq n (str "rk")) token && str_eq env.query_game (str "mariokartwii")

-- the override of the comparisons for the keys "ev" and "eb"
unfoldable pub vr_override : Env → Token → Bool
unfolding is_identity
vr_override env token =
    is_identity (λ n. str_eq n (str "ev") || str_eq n (str "eb")) token
    && str_eq env.query_game (str "mariokartwii")

same_texts : Value → Value → Run ℕ
same_texts a b = bind a.text λ s. bind b.text λ t. pure (truth (str_eq s t))

unfoldable pub eval_equals : Env → List Value → Run ℕ
unfolding rk_override same_texts eval_equals_rk any_text
eval_equals env (a ∷ b ∷ []) =
    if rk_override env a.token
    then bind b.text (λ t. eval_equals_rk env.context t)
    else same_texts a b
eval_equals env (a ∷ b ∷ c ∷ args) = bind a.text λ s.
    bind (any_text (λ t. not (str_eq s t)) (b ∷ c ∷ args)) λ differs. pure (truth (not differs))
eval_equals env _ = fail

unfoldable pub eval_not_equals : List Value → Run ℕ
unfolding any_text
eval_not_equals (a ∷ b ∷ []) = bind a.text λ s. bind b.text λ t. pure (truth (not (str_eq s t)))
eval_not_equals (a ∷ b ∷ c ∷ args) =
    bind a.text
      λ s. bind (any_text (λ t. str_eq s t) (b ∷ c ∷ args)) λ same. pure (truth (not same))
eval_not_equals _ = fail

-- at least two arguments
unfoldable pub two_or_more : List Value → Bool
two_or_more (a ∷ b ∷ args) = true
two_or_more _ = false

unfoldable pub eval_and : List Value → Run ℕ
unfolding two_or_more any_text
eval_and args =
    if two_or_more args
    then bind (any_text (λ t. str_eq t (str "0")) args) (λ zero_met. pure (truth (not zero_met)))
    else fail

unfoldable pub eval_or : List Value → Run ℕ
unfolding two_or_more any_text
eval_or args =
    if two_or_more args
    then bind (any_text (λ t. not (str_eq t (str "0"))) args) (λ met. pure (truth met))
    else fail

-- the arguments of evalMathOperator from the third on
unfoldable pub fold_numbers : (ℕ → ℕ → ℕ) → ℕ → List Value → Run ℕ
fold_numbers fn acc [] = pure acc
fold_numbers fn acc (v ∷ vs) = bind v.number λ n. fold_numbers fn (fn acc n) vs

both_numbers : (ℕ → ℕ → ℕ) → Value → Value → Run ℕ
both_numbers fn a b = bind a.number λ m. bind b.number λ n. pure (fn m n)

unfoldable pub eval_math_operator : Env → (ℕ → ℕ → ℕ) → List Value → Run ℕ
unfolding vr_override both_numbers fold_numbers
eval_math_operator env fn (a ∷ b ∷ []) =
    if vr_override env a.token then pure 1 else both_numbers fn a b
eval_math_operator env fn (a ∷ b ∷ c ∷ args) =
    bind (both_numbers fn a b) λ acc. fold_numbers fn acc (c ∷ args)
eval_math_operator env fn _ = fail

unfoldable pub math_plus : ℕ → ℕ → ℕ
math_plus a b = (a + b) % 2 ^ 64

unfoldable pub math_minus : ℕ → ℕ → ℕ
math_minus a b = (a + 2 ^ 64 - b) % 2 ^ 64

unfoldable pub math_less : ℕ → ℕ → ℕ
unfolding signed_key
math_less a b = truth (ltb (signed_key a) (signed_key b))

unfoldable pub math_less_or_equal : ℕ → ℕ → ℕ
unfolding signed_key
math_less_or_equal a b = truth (leb (signed_key a) (signed_key b))

unfoldable pub math_greater : ℕ → ℕ → ℕ
unfolding math_less
math_greater a b = math_less b a

unfoldable pub math_greater_or_equal : ℕ → ℕ → ℕ
unfolding math_less_or_equal
math_greater_or_equal a b = math_less_or_equal b a

unfoldable pub eval_like : List Value → Run ℕ
unfolding like_texts
eval_like (a ∷ b ∷ []) = bind a.text λ s. bind b.text λ t. like_texts s t
eval_like _ = fail

-- `switch strings.ToLower(val1.Operator)`
unfoldable pub eval_operator : Env → Bytes → List Value → Run ℕ
unfolding eval_equals eval_not_equals eval_and eval_or eval_math_operator eval_like to_lower
    math_plus math_minus math_less math_less_or_equal math_greater math_greater_or_equal
eval_operator env operator args =
    let op = to_lower operator in
    if str_eq op (str "=") || str_eq op (str "==")
    then eval_equals env args
    else if str_eq op (str "!=")
    then eval_not_equals args
    else if str_eq op (str ">")
    then eval_math_operator env math_greater args
    else if str_eq op (str "<")
    then eval_math_operator env math_less args
    else if str_eq op (str ">=")
    then eval_math_operator env math_greater_or_equal args
    else if str_eq op (str "<=")
    then eval_math_operator env math_less_or_equal args
    else if str_eq op (str "+")
    then eval_math_operator env math_plus args
    else if str_eq op (str "-")
    then eval_math_operator env math_minus args
    else if str_eq op (str "and") || str_eq op (str "&&")
    then eval_and args
    else if str_eq op (str "or") || str_eq op (str "||")
    then eval_or args
    else if str_eq op (str "like")
    then eval_like args
    else fail

-- switchFunction; a node of the category that is no operator fails the type assertion
unfoldable pub switch_function : Env → Token → List Value → Run ℕ
unfolding eval_operator
switch_function env (operator_token op) args = eval_operator env op args
switch_function env _ args = crash

-- The loop of eval: the first function or value decides; a group is evaluated and passed over, and
-- anything else is an invalid node.
unfoldable pub eval_items : List Value → Run ℕ
unfolding category
eval_items [] = fail
eval_items (v ∷ vs) = elim (category v.token) [
  | cat_function ↦ v.function
  | cat_value ↦ v.number
  | cat_other ↦ bind v.number (λ _. eval_items vs)
]

-- getNumber at a node whose items have the values `args`; at a group or another node that is neither a
-- function nor a value it is what switchOther does
unfoldable pub number_of : Env → Token → List Value → Run ℕ
unfolding to_int64 value_at eval_operator eval_items
number_of env (number_token n) args = pure n
number_of env (identity_token name) args = to_int64 (value_at env.context name)
number_of env (operator_token op) args = eval_operator env op args
number_of env (group_token g) args = if str_eq g (str "()") then eval_items args else fail
number_of env (text_token t) args = to_int64 t
number_of env _ args = fail

shown : Run ℕ → Run Bytes
shown m = bind m λ n. pure (format_int n)

-- getString
unfoldable pub text_of : Env → Token → List Value → Run Bytes
unfolding shown value_at eval_operator eval_items
text_of env (number_token n) args = pure (format_int n)
text_of env (identity_token name) args = pure (value_at env.context name)
text_of env (operator_token op) args = shown (eval_operator env op args)
text_of env (group_token g) args = if str_eq g (str "()") then shown (eval_items args) else fail
text_of env (text_token t) args = pure t
text_of env _ args = fail

unfoldable pub value_of : Env → Token → List Value → Value
unfolding number_of text_of switch_function
value_of env tok args = record {
  token = tok;
  text = text_of env tok args;
  number = number_of env tok args;
  function = switch_function env tok args;
}

unfoldable mutual
  unfolding value_of

  pub value : Env → Tree → Value
  value env (node tok items) = value_of env tok (values env items)

  pub values : Env → Trees → List Value
  values env nil = []
  values env (cons t ts) = value env t ∷ values env ts

-- Eval: the error of a panic with a string is `rejected`.
unfoldable pub eval_tree : Tree → Env → Run ℕ
unfolding eval_items values
eval_tree (node tok items) env = eval_items (values env items)
