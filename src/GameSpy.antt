-- ===== src/GameSpy.antt =====
-- common/gamespy_message.go: the messages of the GameSpy protocols, `\key\value\key\value\final\`. A
-- map is an association list; where the code iterates it, it does so in the order of the list.
pub mod RoundTrip
mod Tests
use wfc_server_private.Prelude.{
  ℕ, zero, suc, ◌≡◌, refl, Bool, true, false, not, ◌&&◌, ◌||◌, Option, none, some, List, [], ◌∷◌,
  ◌++◌, ◌==◌, if◌then◌else◌, Bytes, str, str_eq, length, drop,
}
use wfc_server_private.Prelude.Dict.{assign}
use wfc_server_private.Prelude.Outcome.{Outcome, ok, rejected, panicked}

pub record GameSpyCommand : Type 0 where
  pub command : Bytes
  pub command_value : Bytes
  pub other_values : List (Bytes × Bytes)

abbrev pub backslash : ℕ
backslash = 92

-- `\final\`
abbrev pub final_mark : Bytes
final_mark = backslash ∷ (str "final" ++ (backslash ∷ []))

-- strings.HasPrefix(s, p)
unfoldable pub has_prefix : Bytes → Bytes → Bool
has_prefix [] s = true
has_prefix (p ∷ ps) [] = false
has_prefix (p ∷ ps) (c ∷ s) = (p == c) && has_prefix ps s

-- strings.Contains(s, p)
unfoldable pub contains_sub : Bytes → Bytes → Bool
unfolding has_prefix
contains_sub p [] = has_prefix p []
contains_sub p (c ∷ s) = has_prefix p (c ∷ s) || contains_sub p s

-- what stands before the first backslash, and what stands from it on
unfoldable pub cut : Bytes → Option (Bytes × Bytes)
cut [] = none
cut (c ∷ s) =
    if c == backslash
    then some ([], c ∷ s)
    else elim (cut s) [ none ↦ none | some (before, rest) ↦ some (c ∷ before, rest) ]

-- `len(msg) > 0 && msg[0] == '\'`
unfoldable pub is_open : Bytes → Bool
is_open [] = false
is_open (c ∷ s) = c == backslash

unfoldable pub is_empty_text : Bytes → Bool
is_empty_text [] = true
is_empty_text (c ∷ s) = false

abbrev pub no_command : GameSpyCommand
no_command = record { command = []; command_value = []; other_values = [] }

-- the first pair is the command, each other one goes into the map
unfoldable pub add_pair : Bool → Bytes → Bytes → GameSpyCommand → GameSpyCommand
unfolding assign
add_pair found_command key value_text g =
    if found_command
    then record g { other_values = assign key value_text g.other_values }
    else record g { command = key; command_value = value_text }

-- the value behind a key, and the message behind the value; without a backslash it is the rest, which
-- the code does not drop
unfoldable pub next_value : Bytes → Bytes × Bytes
unfolding cut
next_value msg = elim (cut msg) [ none ↦ (msg, msg) | some parts ↦ parts ]

-- The inner loop, which ends with the message behind `\final\`, or behind the last pair.
unfoldable pub parse_pairs : ℕ → Bytes → Bool → GameSpyCommand → Outcome (GameSpyCommand × Bytes)
unfolding cut is_open add_pair next_value is_empty_text
parse_pairs zero msg found_command g = ok (g, msg)
parse_pairs (suc fuel) msg found_command g =
    if not (is_open msg) then ok (g, msg) else elim (cut (drop 1 msg)) [
      | none ↦ rejected
      | some (key, rest) ↦ elim (is_empty_text key) [
        | true ↦ rejected
        | false ↦ elim (str_eq key (str "final")) [
          | true ↦ ok (g, drop 1 rest)
          | false ↦
              let (value_text, behind) = next_value (drop 1 rest) in
              parse_pairs fuel behind true (add_pair found_command key value_text g)
        ]
      ]
    ]

-- The outer loop. A pair takes two bytes at least, so the length of the message is fuel enough.
unfoldable pub parse_commands : ℕ → Bytes → Outcome (List GameSpyCommand)
unfolding parse_pairs contains_sub is_open
parse_commands zero msg = ok []
parse_commands (suc fuel) msg =
    if not (is_open msg && contains_sub final_mark msg)
    then ok []
    else elim (parse_pairs (length msg) msg false no_command) [
      | rejected ↦ rejected
      | panicked ↦ panicked
      | ok (g, rest) ↦ elim (parse_commands fuel rest) [
        | rejected ↦ rejected
        | panicked ↦ panicked
        | ok commands ↦ ok (g ∷ commands)
      ]
    ]

-- ParseGameSpyMessage
unfoldable pub parse_gamespy_message : Bytes → Outcome (List GameSpyCommand)
unfolding parse_commands contains_sub
parse_gamespy_message msg =
    if not (contains_sub final_mark msg) then rejected else parse_commands (length msg) msg

-- strings.Replace(s, `\`, ``, -1)
unfoldable pub without_backslash : Bytes → Bytes
without_backslash [] = []
without_backslash (c ∷ s) =
    let rest = without_backslash s in if c == backslash then rest else c ∷ rest

-- the loop of CreateGameSpyMessage
unfoldable pub print_values : List (Bytes × Bytes) → Bytes
unfolding without_backslash
print_values [] = []
print_values ((k, v) ∷ values_left) =
    backslash
    ∷ (without_backslash k ++ (backslash ∷ (without_backslash v ++ print_values values_left)))

-- CreateGameSpyMessage
unfoldable pub create_gamespy_message : GameSpyCommand → Bytes
unfolding print_values is_empty_text
create_gamespy_message c =
    (if is_empty_text c.command
      then print_values c.other_values
      else backslash
        ∷ (c.command ++ (backslash ∷ (c.command_value ++ print_values c.other_values))))
    ++ final_mark

two_messages :
    parse_gamespy_message (str "\\bm\\1\\f\\\\msg\\hi\\final\\\\ka\\\\final\\")
    ≡ ok (
        record {
          command = str "bm";
          command_value = str "1";
          other_values = (str "f", []) ∷ (str "msg", str "hi") ∷ [];
        }
        ∷ record { command = str "ka"; command_value = []; other_values = [] }
        ∷ [])
unfolding parse_gamespy_message
two_messages = refl
