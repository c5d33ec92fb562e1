-- ===== src/GameSpy/Tests.antt =====
-- Messages of common/gamespy_message.go with concrete texts.
use wfc_server_private.GameSpy.{GameSpyCommand, is_empty_text, parse_gamespy_message}
use wfc_server_private.GameSpy.RoundTrip.{IsMessage, stream, parse_gamespy_message-create}
use wfc_server_private.Prelude.{◌≡◌, refl, [], ◌∷◌, str}
use wfc_server_private.Prelude.Dict.{lookup}
use wfc_server_private.Prelude.Outcome.{ok}

abbrev status_command : GameSpyCommand
status_command = record {
  command = str "bm";
  command_value = str "1";
  other_values = (str "f", str "7") ∷ (str "msg", []) ∷ [];
}

abbrev alive_command : GameSpyCommand
alive_command = record { command = str "ka"; command_value = []; other_values = [] }

status_command-IsMessage : IsMessage status_command
unfolding is_empty_text lookup
status_command-IsMessage = record {
  command = record { plain = (refl, (refl, tt)); filled = refl; not_final = refl };
  command_value = (refl, tt);
  other_values = (
    (record { plain = (refl, tt); filled = refl; not_final = refl }, (refl, tt)),
    ((record { plain = (refl, (refl, (refl, tt))); filled = refl; not_final = refl }, tt), tt),
  );
  distinct = (refl, (refl, tt));
}

alive_command-IsMessage : IsMessage alive_command
unfolding is_empty_text
alive_command-IsMessage = record {
  command = record { plain = (refl, (refl, tt)); filled = refl; not_final = refl };
  command_value = tt;
  other_values = tt;
  distinct = tt;
}

parse_gamespy_message-create_example :
    parse_gamespy_message (stream (status_command ∷ alive_command ∷ []))
    ≡ ok (status_command ∷ alive_command ∷ [])
parse_gamespy_message-create_example =
    parse_gamespy_message-create status_command (alive_command ∷ [])
      (status_command-IsMessage, (alive_command-IsMessage, tt))
