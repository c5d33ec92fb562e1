-- ===== src/MatchCommand/RoundTrip.antt =====
-- `EncodeMatchCommand` and then `DecodeMatchCommand` (common/match_command.go).
pub mod Reserve
pub mod Accept
pub mod Small
pub mod Wire
pub mod Payload
pub mod Total
use wfc_server_private.MatchCommand.{
  match_resv_deny, ResvDeny, MatchCommandData, bare, known_version,
}
use wfc_server_private.MatchCommand.Decode.{decode_resv_deny, decode_payload, decode_match_command}
use wfc_server_private.MatchCommand.Encode.{
  deref, encode_resv_deny, encode_payload, encode_match_command,
}
use wfc_server_private.MatchCommand.RoundTrip.Wire.{resv_deny}
use wfc_server_private.MatchCommand.Words.{le_at_within, slice_from_within}
use wfc_server_private.Prelude.{
  ℕ, ◌≤◌, ◌≡◌, true, false, some, [], arith, Bytes, length, drop, drop_all,
}
use wfc_server_private.Prelude.Outcome.{ok}

-- A denial, in a known version, that is its four byte reason alone decodes, to a value that is
-- encoded as no byte at all.
pub deny_reason_lost :
    (v : ℕ) (bs : Bytes)
    → known_version v ≡ true
    → length bs ≡ 4
    → (d : MatchCommandData) × (decode_match_command match_resv_deny bs v ≡ ok d)
      × (encode_match_command match_resv_deny d ≡ ok [])
unfolding decode_match_command decode_payload decode_resv_deny encode_match_command encode_payload
    encode_resv_deny deref
deny_reason_lost v bs known size =
    let within : 4 ≤ length bs = omega arith in
    let (reason, e) = le_at_within bs 0 within in
    let none_left : drop 4 bs ≡ [] = drop_all 4 bs (omega arith) in
    let d : ResvDeny = record { reason = reason; reason_specified = false; user_data = [] } in
    (
      record (bare v match_resv_deny) { resv_deny = some d },
      simp (known, e, size, slice_from_within bs 4 within, none_left),
      simp known,
    )
