-- ===== src/Filter.antt =====
-- serverbrowser/filter: the expressions by which a game searches for servers, as trees of tokens
-- (tokens.go, treenode.go). The parent pointers of the nodes serve the parser alone and are left out.
pub mod Run
pub mod Like
pub mod Eval
pub mod Search
pub mod Facts
use wfc_server_private.Prelude.{
  ℕ, suc, ◌+◌, ◌-◌, ◌%◌, ◌^◌, ◌≡◌, refl, Bool, false, ◌&&◌, ◌||◌, Option, none, some, List, [], ◌∷◌,
  ltb, leb, if◌then◌else◌, Bytes, str, str_eq,
}
use wfc_server_private.Prelude.Decimal.{decimal}

-- `lvl` of an operator is determined by its text; `error` of the base token is never read by Eval.
mutual
  pub data Token : Type 0 where
    empty_token : Token
    error_token : Bytes → Token
    number_token : ℕ → Token
    identity_token : Bytes → Token
    func_token : Bytes → Trees → Token
    operator_token : Bytes → Token
    lr_func_token : Bytes → Token
    group_token : Bytes → Token
    text_token : Bytes → Token

  pub data Tree : Type 0 where
    node : Token → Trees → Tree

  pub data Trees : Type 0 where
    nil : Trees
    cons : Tree → Trees → Trees

pub data TokenCategory : Type 0 where
  cat_other cat_function cat_value : TokenCategory

-- Category()
unfoldable pub category : Token → TokenCategory
category empty_token = cat_other
category (error_token e) = cat_other
category (number_token n) = cat_value
category (identity_token n) = cat_value
category (func_token n args) = cat_function
category (operator_token o) = cat_function
category (lr_func_token n) = cat_function
category (group_token g) = cat_other
category (text_token t) = cat_value

-- strings.ToLower on ASCII texts
unfoldable pub to_lower : Bytes → Bytes
to_lower [] = []
to_lower (c ∷ s) = (if leb b'A' c && leb c b'Z' then c + 32 else c) ∷ to_lower s

-- the table `operators`, by level
unfoldable pub operators : List (List Bytes)
operators =
    (str "^" ∷ [])
    ∷ (str "*" ∷ str "/" ∷ str "%" ∷ [])
    ∷ (str "+" ∷ str "-" ∷ [])
    ∷ (str "==" ∷ str "=" ∷ str "!=" ∷ str ">=" ∷ str "<=" ∷ str ">" ∷ str "<" ∷ [])
    ∷ (str "&&" ∷ str "and" ∷ [])
    ∷ (str "||" ∷ str "or" ∷ str "like" ∷ [])
    ∷ []

unfoldable pub one_of : Bytes → List Bytes → Bool
one_of s [] = false
one_of s (t ∷ ts) = str_eq t s || one_of s ts

-- OperatorPrecedence.Level, `none` for -1
unfoldable pub level_from : ℕ → Bytes → List (List Bytes) → Option ℕ
unfolding one_of to_lower
level_from l operator [] = none
level_from l operator (ops ∷ table) =
    if one_of (to_lower operator) ops then some (5 - l) else level_from (suc l) operator table

unfoldable pub level : Bytes → Option ℕ
unfolding level_from operators
level operator = level_from 0 operator operators

-- The order of signed values, as an order of patterns.
unfoldable pub signed_key : ℕ → ℕ
signed_key x = (x + 2 ^ 63) % 2 ^ 64

-- strconv.FormatInt(x, 10)
unfoldable pub format_int : ℕ → Bytes
unfolding decimal
format_int x = if ltb x (2 ^ 63) then decimal x else b'-' ∷ decimal (2 ^ 64 - x)

levels : (level (str "AND") ≡ some 1) × (level (str "<=") ≡ some 2) × (level (str "=>") ≡ none)
unfolding level
levels = (refl, refl, refl)
