-- ===== src/MatchCommand/Tests.antt =====
-- Runs of the match command codec, and its theorems at concrete inputs.
use wfc_server_private.MatchCommand.{
  match_reservation, match_resv_ok, match_resv_deny, Reservation, ResvOk, zero_resv_ok,
  MatchCommandData, bare,
}
use wfc_server_private.MatchCommand.Decode.{decode_match_command}
use wfc_server_private.MatchCommand.Decode.Accept.{decode_resv_ok}
use wfc_server_private.MatchCommand.Encode.{encode_resv_ok, encode_match_command}
use wfc_server_private.MatchCommand.RoundTrip.{deny_reason_lost}
use wfc_server_private.MatchCommand.RoundTrip.Accept.{resv_ok_11_refused}
use wfc_server_private.MatchCommand.Safety.{decode_match_command-NoPanic}
use wfc_server_private.Prelude.{◌≡◌, refl, ◌≢◌, true, some, [], ◌∷◌, arith, Bytes}
use wfc_server_private.Prelude.Outcome.{ok, rejected, panicked}

abbrev joiner : Reservation
joiner = record {
  match_type = 1;
  has_public_ip = true;
  public_ip = 0x01020304;
  public_port = 5000;
  local_ip = 0xC0A80002;
  local_port = 40000;
  unknown = 0;
  is_friend = true;
  local_player_count = 2;
  resv_check_value = 77;
  user_data = 1 ∷ 2 ∷ 3 ∷ 4 ∷ [];
}

abbrev request : MatchCommandData
request = record (bare 90 match_reservation) { reservation = some joiner }

decode_match_command-NoPanic_example :
    decode_match_command match_resv_ok (255 ∷ 255 ∷ 255 ∷ 255 ∷ []) 3 ≢ panicked
decode_match_command-NoPanic_example =
    decode_match_command-NoPanic match_resv_ok (255 ∷ 255 ∷ 255 ∷ 255 ∷ []) 3

deny_reason_lost_example :
    (d : MatchCommandData) × (decode_match_command match_resv_deny (16 ∷ 0 ∷ 0 ∷ 0 ∷ []) 90 ≡ ok d)
    × (encode_match_command match_resv_deny d ≡ ok [])
deny_reason_lost_example = deny_reason_lost 90 (16 ∷ 0 ∷ 0 ∷ 0 ∷ []) refl refl

abbrev empty_acceptance : ResvOk
empty_acceptance = record zero_resv_ok { public_ip = 0x01020304; public_port = 5000 }

resv_ok_11_refused_example :
    (bs : Bytes) × (encode_resv_ok 11 empty_acceptance ≡ ok bs) × (decode_resv_ok 11 bs ≡ rejected)
resv_ok_11_refused_example =
    resv_ok_11_refused empty_acceptance
      (record {
        max_players = omega arith;
        sender_aid = omega arith;
        profile_id = omega arith;
        public_ip = omega arith;
        public_port = omega arith;
        local_ip = omega arith;
        local_port = omega arith;
        unknown = omega arith;
        local_player_count = omega arith;
        group_id = omega arith;
        receiver_new_aid = omega arith;
        client_count = omega arith;
        resv_check_value = omega arith;
        profile_ids = tt;
      })
      (omega arith) refl refl
