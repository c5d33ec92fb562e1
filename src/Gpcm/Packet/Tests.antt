-- ===== src/Gpcm/Packet/Tests.antt =====
-- Packets of a concrete player.
use wfc_server_private.GameSpy.{parse_gamespy_message}
use wfc_server_private.Gpcm.{GameSpySession, reply_error, object, change, act, err_not_logged_in}
use wfc_server_private.Gpcm.Bestie.{utf8}
use wfc_server_private.Gpcm.Packet.{has_null, runes, is_complete, handle_packet}
use wfc_server_private.Gpcm.Packet.Fragments.{set_buffer, handle_packet-append}
use wfc_server_private.Gpcm.Packet.Login.{handle_packet-refused}
use wfc_server_private.Gpcm.Sample.{blank, waiting, two_players, no_services, no_handlers}
use wfc_server_private.Prelude.{◌≡◌, refl, false, [], ◌++◌, arith, str}
use wfc_server_private.Prelude.Maps.{find}

handle_packet-append_example :
    handle_packet no_services no_handlers [] 10
      (str "final\\")
      (handle_packet no_services no_handlers [] 10 (str "\\ka\\\\") (two_players blank waiting))
    ≡ handle_packet no_services no_handlers [] 10
        (str "\\ka\\\\" ++ str "final\\")
        (two_players blank waiting)
unfolding object find is_complete
handle_packet-append_example =
    handle_packet-append no_services no_handlers [] 10 (str "\\ka\\\\") (str "final\\")
      (two_players blank waiting) blank refl refl (omega arith)

abbrev stranger : GameSpySession
stranger = record blank { logged_in = false }

handle_packet-refused_example :
    handle_packet no_services no_handlers [] 10
      (str "\\status\\1\\final\\")
      (two_players stranger waiting)
    ≡ act
        (reply_error 10 err_not_logged_in)
        (change 10 (set_buffer []) (two_players stranger waiting))
unfolding object find is_complete has_null runes utf8 parse_gamespy_message
handle_packet-refused_example =
    handle_packet-refused no_services no_handlers [] 10 (str "\\status\\1\\final\\")
      (two_players stranger waiting) stranger
      (record { command = str "status"; command_value = str "1"; other_values = [] }) [] refl refl
      (omega arith) refl refl refl
      (record { no_ka = refl; no_login = refl; no_ex_login = refl; no_logout = refl }, tt)
