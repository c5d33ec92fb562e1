-- ===== src/Gpcm/Bestie/Tests.antt =====
-- Match commands between two concrete players.
use wfc_server_private.GameSpy.{GameSpyCommand}
use wfc_server_private.Gpcm.{GameSpySession, object, trace_of, begin}
use wfc_server_private.Gpcm.Bestie.Facts.{relay_reservation-masked}
use wfc_server_private.Gpcm.Bestie.Guarded.{IsGuarded, bestie_message-IsGuarded}
use wfc_server_private.Gpcm.Bestie.Receive.{bestie_message}
use wfc_server_private.Gpcm.Bestie.Relay.{same_address, relay_reservation}
use wfc_server_private.Gpcm.Sample.{blank, waiting, two_players, no_services}
use wfc_server_private.IpAddress.{host}
use wfc_server_private.MatchCommand.{zero_reservation, bare}
use wfc_server_private.Prelude.{◌≡◌, refl, some, [], ◌∷◌, ◌++◌, str, All}
use wfc_server_private.Prelude.Maps.{find}

abbrev friendly : GameSpySession
friendly = record blank { auth_friend_list = 200 ∷ []; qr2_ip = 7 }

abbrev poll_command : GameSpyCommand
poll_command = record {
  command = str "bm";
  command_value = str "1";
  other_values = (str "t", str "200") ∷ (str "msg", str "GPCM3vMAT" ++ (6 ∷ str "1/2")) ∷ [];
}

bestie_message-IsGuarded_example :
    All
      (IsGuarded (two_players friendly waiting).state friendly)
      (trace_of (
        bestie_message no_services 10 poll_command
          (begin (two_players friendly waiting).state))).actions
unfolding object find
bestie_message-IsGuarded_example =
    bestie_message-IsGuarded no_services 10 poll_command (two_players friendly waiting).state
      friendly refl

abbrev distant : GameSpySession
distant = record waiting { remote_addr = str "5.6.7.8:9" }

relay_reservation-masked_example :
    relay_reservation no_services 10 friendly 200 3 zero_reservation
      (record (bare 3 1) { reservation = some zero_reservation })
      distant
      (two_players friendly distant)
    ≡ relay_reservation no_services 10 friendly 200 3
        (record zero_reservation { public_ip = 1; public_port = 2; local_ip = 3; local_port = 4 })
        (record (bare 3 1) {
          reservation = some (record zero_reservation {
            public_ip = 1;
            public_port = 2;
            local_ip = 3;
            local_port = 4;
          });
        })
        distant
        (two_players friendly distant)
unfolding same_address host
relay_reservation-masked_example =
    relay_reservation-masked no_services 10 friendly 200 3 zero_reservation (bare 3 1) distant
      (two_players friendly distant) 1 2 3 4 refl
