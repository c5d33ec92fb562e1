-- ===== src/MatchCommand/Decode/Reserve.antt =====
-- `case MatchReservation` of `DecodeMatchCommand`, common/match_command.go.
use wfc_server_private.Prelude.{
  ℕ, ◌%◌, Bool, true, ◌&&◌, ◌||◌, ltb, ◌==◌, if◌then◌else◌, Bytes, length,
}
use wfc_server_private.Prelude.Outcome.{Outcome, ok, rejected, ◌>>=◌, ◌>>◌, reject_if}
use wfc_server_private.MatchCommand.{Reservation, zero_reservation}
use wfc_server_private.MatchCommand.Words.{le_at, be_at, slice_from}
use wfc_server_private.MatchCommand.Decode.Fields.{port_at, flag_at}

-- the first length checks of `case MatchReservation`
unfoldable pub reservation_too_short : ℕ → ℕ → Bool
reservation_too_short version size =
    (version == 3 && ltb size 0x04)
    || ((version == 11 && ltb size 0x14) || (version == 90 && ltb size 0x24))

-- `switch version` of `case MatchReservation`
unfoldable pub reservation_3 : Bytes → ℕ → ℕ → Outcome Reservation
reservation_3 buffer match_type port = do
  ip ← be_at buffer 0x04
  rest ← slice_from buffer 0x0C
  ok (record zero_reservation {
    match_type = match_type;
    has_public_ip = true;
    public_ip = ip;
    public_port = port;
    user_data = rest;
  })

unfoldable pub reservation_11 : Bytes → ℕ → ℕ → Outcome Reservation
reservation_11 buffer match_type port = do
  friend ← flag_at buffer 0x0C
  ip ← be_at buffer 0x04
  players ← le_at buffer 0x10
  rest ← slice_from buffer 0x14
  ok (record zero_reservation {
    match_type = match_type;
    has_public_ip = true;
    public_ip = ip;
    public_port = port;
    is_friend = friend;
    local_player_count = players;
    user_data = rest;
  })

unfoldable pub reservation_90 : Bytes → ℕ → ℕ → Outcome Reservation
reservation_90 buffer match_type port = do
  local_port ← port_at buffer 0x10
  friend ← flag_at buffer 0x18
  ip ← be_at buffer 0x04
  local_ip ← be_at buffer 0x0C
  unknown ← le_at buffer 0x14
  players ← le_at buffer 0x1C
  check ← le_at buffer 0x20
  rest ← slice_from buffer 0x24
  ok (record {
    match_type = match_type;
    has_public_ip = true;
    public_ip = ip;
    public_port = port;
    local_ip = local_ip;
    local_port = local_port;
    unknown = unknown;
    is_friend = friend;
    local_player_count = players;
    resv_check_value = check;
    user_data = rest;
  })

unfoldable pub reservation_body : ℕ → Bytes → ℕ → ℕ → Outcome Reservation
reservation_body version buffer match_type port =
    if version == 3
    then reservation_3 buffer match_type port
    else if version == 11
    then reservation_11 buffer match_type port
    else if version == 90
    then reservation_90 buffer match_type port
    else rejected

unfoldable pub reservation_with_ip : ℕ → Bytes → ℕ → Outcome Reservation
reservation_with_ip version buffer match_type = do
  port ← port_at buffer 0x08
  reservation_body version buffer match_type port

unfoldable pub decode_reservation : ℕ → Bytes → Outcome Reservation
decode_reservation version buffer = do
  reject_if (reservation_too_short version (length buffer))
  match_type ← le_at buffer 0x00
  reject_if (ltb 3 match_type)
  if version == 3 && ltb (length buffer) 0x0C
      then ok (record zero_reservation { match_type = match_type % 256 })
      else reservation_with_ip version buffer (match_type % 256)
