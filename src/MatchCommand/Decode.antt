-- ===== src/MatchCommand/Decode.antt =====
-- `DecodeMatchCommand` of common/match_command.go. `rejected` is the result
-- `MatchCommandData{}, false`; a slice or read past the end of the buffer is a panic.
pub mod Fields
pub mod Reserve
pub mod Accept
use wfc_server_private.Prelude.{
  ℕ, ◌*◌, ◌/◌, ◌%◌, true, false, not, some, [], ltb, leb, ◌==◌, if◌then◌else◌, Bytes, length,
}
use wfc_server_private.Prelude.Outcome.{Outcome, ok, rejected, ◌>>=◌, ◌>>◌, reject_if}
use wfc_server_private.MatchCommand.{
  match_reservation, match_resv_ok, match_resv_deny, match_resv_wait, match_resv_cancel,
  match_tell_addr, match_server_close_client, match_poll_timeout, match_poll_to_ack,
  match_suspend_match, ResvDeny, TellAddr, ServerCloseClient, SuspendMatch, MatchCommandData, bare,
  known_version,
}
use wfc_server_private.MatchCommand.Words.{le_at, be_at, slice_from}
use wfc_server_private.MatchCommand.Decode.Fields.{port_at, words_from}
use wfc_server_private.MatchCommand.Decode.Reserve.{decode_reservation}
use wfc_server_private.MatchCommand.Decode.Accept.{decode_resv_ok}

unfoldable pub decode_resv_deny : Bytes → Outcome ResvDeny
decode_resv_deny buffer =
    if leb 0x04 (length buffer)
    then (do
      reason ← le_at buffer 0x00
      rest ← slice_from buffer 0x04
      ok (record {
        reason = reason;
        reason_specified = ltb 0x04 (length buffer);
        user_data = rest;
      }))
    else ok (record { reason = 0; reason_specified = ltb 0x04 (length buffer); user_data = buffer })

unfoldable pub decode_tell_addr : Bytes → Outcome TellAddr
decode_tell_addr buffer = do
  reject_if (not (length buffer == 0x08))
  port ← port_at buffer 0x04
  ip ← be_at buffer 0x00
  ok (record { local_ip = ip; local_port = port })

unfoldable pub decode_server_close_client : Bytes → Outcome ServerCloseClient
decode_server_close_client buffer = do
  reject_if (ltb 0x80 (length buffer))
  reject_if (not (length buffer % 4 == 0))
  pids ← words_from (λ i. i * 4) buffer (length buffer / 4) 0
  ok (record { profile_ids = pids })

unfoldable pub decode_suspend_match : Bytes → Outcome SuspendMatch
decode_suspend_match buffer =
    if length buffer == 0x08
    then (do
      host ← le_at buffer 0x00
      flag ← le_at buffer 0x04
      ok (record {
        host_profile_id = host;
        is_host_flag = flag;
        short = true;
        suspend_value = 0;
        client_aid_value = 0;
      }))
    else if length buffer == 0x10
    then (do
      host ← le_at buffer 0x00
      flag ← le_at buffer 0x04
      value ← le_at buffer 0x08
      aids ← le_at buffer 0x0C
      ok (record {
        host_profile_id = host;
        is_host_flag = flag;
        short = false;
        suspend_value = value;
        client_aid_value = aids;
      }))
    else rejected

-- `if len(buffer) != n { break }`, and the value with no payload of its own
unfoldable pub decode_sized : ℕ → ℕ → ℕ → Bytes → Bytes → Outcome MatchCommandData
decode_sized size version command buffer other = do
  reject_if (not (length buffer == size))
  ok (record (bare version command) { other = other })

-- `switch command`
unfoldable pub decode_payload : ℕ → Bytes → ℕ → Outcome MatchCommandData
decode_payload command buffer version =
    if command == match_reservation
    then (do
      r ← decode_reservation version buffer
      ok (record (bare version command) { reservation = some r }))
    else if command == match_resv_ok
    then (do
      r ← decode_resv_ok version buffer
      ok (record (bare version command) { resv_ok = some r }))
    else if command == match_resv_deny
    then (do r ← decode_resv_deny buffer; ok (record (bare version command) { resv_deny = some r }))
    else if command == match_resv_wait
    then decode_sized 0x00 version command buffer []
    else if command == match_resv_cancel
    then decode_sized 0x00 version command buffer []
    else if command == match_tell_addr
    then (do r ← decode_tell_addr buffer; ok (record (bare version command) { tell_addr = some r }))
    else if command == match_server_close_client
    then (do
      r ← decode_server_close_client buffer
      ok (record (bare version command) { server_close_client = some r }))
    else if command == match_poll_timeout
    then decode_sized 0x00 version command buffer []
    else if command == match_poll_to_ack
    then decode_sized 0x04 version command buffer buffer
    else if command == match_suspend_match
    then (do
      r ← decode_suspend_match buffer
      ok (record (bare version command) { suspend_match = some r }))
    else ok (record (bare version command) { other = buffer })

unfoldable pub decode_match_command : ℕ → Bytes → ℕ → Outcome MatchCommandData
decode_match_command command buffer version = do
  reject_if (not (known_version version))
  reject_if (not (length buffer % 4 == 0))
  decode_payload command buffer version
