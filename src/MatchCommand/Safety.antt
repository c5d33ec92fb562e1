-- ===== src/MatchCommand/Safety.antt =====
-- `DecodeMatchCommand` of common/match_command.go: its reads and slices and the end of its buffer.
pub mod Reserve
pub mod Accept
use wfc_server_private.MatchCommand.{known_version}
use wfc_server_private.MatchCommand.Decode.{
  decode_resv_deny, decode_tell_addr, decode_server_close_client, decode_suspend_match,
  decode_sized, decode_payload, decode_match_command,
}
use wfc_server_private.MatchCommand.Decode.Fields.{port_at, words_from}
use wfc_server_private.MatchCommand.Safety.Accept.{words_from-NoPanic, resv_ok-NoPanic}
use wfc_server_private.MatchCommand.Safety.Reserve.{reservation-NoPanic}
use wfc_server_private.MatchCommand.Words.{le_at_within, be_at_within, slice_from_within}
use wfc_server_private.Prelude.{
  ℕ, ◌*◌, ◌/◌, ◌%◌, ◌≡◌, ◌≢◌, true, not, [], arith, ltb, ◌==◌, Bytes, length,
}
use wfc_server_private.Prelude.Outcome.{panicked, NoPanic, NoPanic-bind, NoPanic-guard, NoPanic-ne}

module _ (buffer : Bytes) where
  resv_deny-NoPanic : NoPanic (decode_resv_deny buffer)
  unfolding decode_resv_deny
  resv_deny-NoPanic = ground (arith, le_at_within buffer 0, slice_from_within buffer 4)

  tell_addr-NoPanic : NoPanic (decode_tell_addr buffer)
  unfolding decode_tell_addr port_at
  tell_addr-NoPanic = ground (arith, le_at_within buffer 4, be_at_within buffer 0)

  server_close_client-NoPanic : NoPanic (decode_server_close_client buffer)
  unfolding decode_server_close_client
  server_close_client-NoPanic = NoPanic-guard (ltb 0x80 (length buffer)) _ λ _.
      NoPanic-guard (not (length buffer % 4 == 0)) _ λ _.
        NoPanic-bind (words_from (λ i. i * 4) buffer (length buffer / 4) 0) _
          (words_from-NoPanic buffer (λ i. i * 4) (length buffer / 4) 0 (λ j h. omega arith))
          λ pids _. tt

  suspend_match-NoPanic : NoPanic (decode_suspend_match buffer)
  unfolding decode_suspend_match
  suspend_match-NoPanic = ground (
    arith,
    le_at_within buffer 0,
    le_at_within buffer 4,
    le_at_within buffer 8,
    le_at_within buffer 12,
  )

  decode_sized-NoPanic : (n v c : ℕ) (other : Bytes) → NoPanic (decode_sized n v c buffer other)
  unfolding decode_sized
  decode_sized-NoPanic n v c other = ground arith

  decode_payload-NoPanic : (c v : ℕ) → known_version v ≡ true → NoPanic (decode_payload c buffer v)
  unfolding decode_payload
  decode_payload-NoPanic c v h = ground (
    arith,
    reservation-NoPanic buffer v h,
    resv_ok-NoPanic buffer v,
    resv_deny-NoPanic,
    tell_addr-NoPanic,
    server_close_client-NoPanic,
    suspend_match-NoPanic,
    decode_sized-NoPanic 0 v c [],
    decode_sized-NoPanic 4 v c buffer,
  )

-- Decoding any buffer, as any command of any version, ends with a value or with a refusal: no read
-- or slice goes past the end of the buffer.
pub decode_match_command-NoPanic :
    (command : ℕ) (buffer : Bytes) (version : ℕ)
    → decode_match_command command buffer version ≢ panicked
unfolding decode_match_command
decode_match_command-NoPanic c buffer v = NoPanic-ne _ (
    NoPanic-guard (not (known_version v)) _ λ known.
      NoPanic-guard (not (length buffer % 4 == 0)) _
        λ _. decode_payload-NoPanic buffer c v (ground arith))
