-- ===== src/Filter/Facts/Tests.antt =====
-- Runs of the filter, and its theorems at concrete inputs.
use wfc_server_private.Filter.{
  empty_token, number_token, identity_token, group_token, text_token, node, nil, cons, category,
}
use wfc_server_private.Filter.Eval.{
  Value, truth, vr_override, two_or_more, eval_and, eval_or, values, eval_tree,
}
use wfc_server_private.Filter.Eval.Rk.{value_at, eval_equals_rk}
use wfc_server_private.Filter.Facts.Failures.{
  number_operators, comparison, missing_number_panics, OnlyGroups, groups_fail,
}
use wfc_server_private.Filter.Facts.Likeness.{is_word, like_word}
use wfc_server_private.Filter.Facts.Logic.{Shows, some_text, and_or_decide}
use wfc_server_private.Filter.Like.{like_texts}
use wfc_server_private.Filter.Run.{Run, pure}
use wfc_server_private.Filter.Search.{is_candidate, filter_servers, filter_self_lookup}
use wfc_server_private.Filter.Search.Lookup.{
  is_asked, first_match, stand_ins, filter_self_lookup_finds,
}
use wfc_server_private.Filter.Search.Selects.{
  is_selected, select, filter_servers_selects, filter_servers_sound,
}
use wfc_server_private.IpAddress.{atoi}
use wfc_server_private.Prelude.{
  ℕ, ◌≡◌, refl, ap, ◌≢◌, ◌⊎◌, true, false, not, Option, none, some, List, [], ◌∷◌, if◌then◌else◌,
  Bytes, str, str_eq, length, All,
}
use wfc_server_private.Prelude.Outcome.{ok, panicked}

abbrev room : Bytes → Option Bytes
room key =
    if str_eq key (str "gamename")
    then some (str "mariokartwii")
    else if str_eq key (str "+deviceauth")
    then some (str "1")
    else if str_eq key (str "rk")
    then some (str "vs_1")
    else if str_eq key (str "numplayers")
    then some (str "3")
    else none

abbrev q : Bytes
q = str "mariokartwii"

few :
    filter_servers (room ∷ []) q (some (comparison (str "<") (str "numplayers") 11))
    ≡ pure (room ∷ [])
unfolding filter_servers atoi
few = refl

same_region :
    (eval_equals_rk room (str "vs") ≡ pure 1) × (eval_equals_rk room (str "vs_6") ≡ pure 0)
unfolding eval_equals_rk
same_region = (refl, refl)

evaluates :
    All
      (λ server.
        is_candidate q server ≡ true
        → (n : ℕ) × ((eval_tree
              (comparison (str "<") (str "numplayers") 11)
              (record { context = server; query_game = q })).outcome
            ≡ ok n))
      (room ∷ [])
unfolding eval_tree atoi
evaluates = (λ _. (1, refl), tt)

filter_servers_selects_example :
    (filter_servers (room ∷ []) q (some (comparison (str "<") (str "numplayers") 11))).outcome
    ≡ ok (select (is_selected (comparison (str "<") (str "numplayers") 11) q) (room ∷ []))
filter_servers_selects_example =
    filter_servers_selects (comparison (str "<") (str "numplayers") 11) q (room ∷ []) evaluates

filter_servers_sound_example :
    ((room ∷ []) ≡ select (is_selected (comparison (str "<") (str "numplayers") 11) q) (room ∷ []))
    ⊎ ((room ∷ []) ≡ [])
filter_servers_sound_example =
    filter_servers_sound (comparison (str "<") (str "numplayers") 11) q (room ∷ []) (room ∷ [])
      (ap (λ (m : Run (List (Bytes → Option Bytes))). m.outcome) few)

no_rating :
    vr_override (record { context = room; query_game = q }) (identity_token (str "maxplayers"))
    ≡ false
unfolding vr_override
no_rating = refl

no_number : atoi (value_at room (str "maxplayers")) ≡ none
unfolding atoi value_at
no_number = refl

candidate : is_candidate q room ≡ true
unfolding is_candidate
candidate = refl

missing_number_panics_example :
    All
      (λ op.
        (filter_servers (room ∷ []) q (some (comparison op (str "maxplayers") 11))).outcome
        ≡ panicked)
      number_operators
missing_number_panics_example =
    missing_number_panics q room [] (str "maxplayers") 11 candidate no_rating no_number

bracketed :
    OnlyGroups (cons (node (group_token (str "()")) (cons (node (number_token 1) nil) nil)) nil)
unfolding category
bracketed = (refl, tt)

groups_fail_example :
    (eval_tree
      (node empty_token
        (cons (node (group_token (str "()")) (cons (node (number_token 1) nil) nil)) nil))
      (record { context = room; query_game = q })).outcome
    ≢ ok 1
groups_fail_example =
    groups_fail empty_token
      (cons (node (group_token (str "()")) (cons (node (number_token 1) nil) nil)) nil)
      (record { context = room; query_game = q }) 1 bracketed

abbrev two_values : List Value
two_values =
    values (record { context = room; query_game = q })
      (cons (node (text_token (str "7")) nil) (cons (node (text_token (str "0")) nil) nil))

two_texts : Shows two_values (str "7" ∷ str "0" ∷ [])
unfolding values
two_texts = (refl, (refl, tt))

two_there : two_or_more two_values ≡ true
unfolding values two_or_more
two_there = refl

and_or_decide_example :
    ((eval_and two_values).outcome
      ≡ ok (truth (not (some_text (λ t. str_eq t (str "0")) (str "7" ∷ str "0" ∷ [])))))
    × ((eval_or two_values).outcome
        ≡ ok (truth (some_text (λ t. not (str_eq t (str "0"))) (str "7" ∷ str "0" ∷ []))))
and_or_decide_example = and_or_decide two_values (str "7" ∷ str "0" ∷ []) two_there two_texts

words : All (λ c. is_word c ≡ true) (str "Vs1")
unfolding is_word
words = (refl, (refl, (refl, tt)))

like_word_example :
    like_texts (str "Vs1") (str "Vs1") ≡ pure (truth (str_eq (str "Vs1") (str "Vs1")))
like_word_example = like_word (str "Vs1") (str "Vs1") words

abbrev newcomer : Bytes → Option Bytes
newcomer key =
    if str_eq key (str "gamename")
    then some (str "mariokartwii")
    else if str_eq key (str "publicip")
    then some (str "16909060")
    else none

lookup_newcomer :
    length (filter_self_lookup (room ∷ newcomer ∷ []) q (str "600000001") (str "16909060")) ≡ 1
unfolding filter_self_lookup
lookup_newcomer = refl

filter_self_lookup_finds_example :
    filter_self_lookup (room ∷ newcomer ∷ []) q (str "600000001") (str "16909060")
    ≡ elim (first_match (is_asked q (str "600000001")) (room ∷ newcomer ∷ [])) [
      | some server ↦ server ∷ []
      | none ↦ stand_ins q (str "600000001") (str "16909060") (room ∷ newcomer ∷ [])
    ]
filter_self_lookup_finds_example =
    filter_self_lookup_finds (room ∷ newcomer ∷ []) q (str "600000001") (str "16909060")
