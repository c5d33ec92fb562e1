-- ===== src/MatchCommand/RoundTrip/Payload.antt =====
-- Each payload of a command, encoded and read back (common/match_command.go).
use wfc_server_private.MatchCommand.{
  Reservation, ResvOk, ResvDeny, TellAddr, SuspendMatch, MatchCommandData, known_version,
}
use wfc_server_private.MatchCommand.Decode.{decode_sized, decode_payload}
use wfc_server_private.MatchCommand.Encode.{
  deref, aligned, put_words, encode_reservation, encode_resv_ok_counted, encode_resv_ok_90,
  encode_resv_ok, encode_resv_deny, encode_tell_addr, encode_suspend_match, encode_payload,
}
use wfc_server_private.MatchCommand.RoundTrip.Accept.{resv_ok-decode_encode}
use wfc_server_private.MatchCommand.RoundTrip.Accept.Fields.{length-put_words}
use wfc_server_private.MatchCommand.RoundTrip.Reserve.{reservation-decode_encode}
use wfc_server_private.MatchCommand.RoundTrip.Small.{
  IsResvDeny, tell_addr-decode_encode, suspend_match-decode_encode, resv_deny-decode_encode,
  server_close_client-decode_encode,
}
use wfc_server_private.MatchCommand.RoundTrip.Wire.{
  IsWire, reservation, resv_ok, resv_deny, empty, tell_addr, server_close_client, poll_to_ack,
  suspend_match, unknown,
}
use wfc_server_private.MatchCommand.Words.{put_le, put_be, length-put_le}
use wfc_server_private.Prelude.{ℕ, ◌%◌, ◌≡◌, true, arith, Bytes, length}
use wfc_server_private.Prelude.Outcome.{ok}

aligned-size : (message : Bytes) {bs : Bytes} → aligned message ≡ ok bs → length bs % 4 ≡ 0
unfolding aligned
aligned-size message h = ground arith

reservation_size :
    (v : ℕ) (r : Reservation) (bs : Bytes) → encode_reservation v r ≡ ok bs → length bs % 4 ≡ 0
unfolding encode_reservation aligned
reservation_size v r bs e = ground (arith, length-put_le r.match_type)

resv_ok_size : (v : ℕ) (r : ResvOk) (bs : Bytes) → encode_resv_ok v r ≡ ok bs → length bs % 4 ≡ 0
unfolding encode_resv_ok encode_resv_ok_counted encode_resv_ok_90 aligned
resv_ok_size v r bs e = ground arith

resv_deny_size :
    (r : ResvDeny) (bs : Bytes) → IsResvDeny r → encode_resv_deny r ≡ ok bs → length bs % 4 ≡ 0
unfolding encode_resv_deny aligned
resv_deny_size r bs h e = ground arith

suspend_match_size : (r : SuspendMatch) → length (encode_suspend_match r) % 4 ≡ 0
unfolding encode_suspend_match put_le
suspend_match_size r = ground arith

tell_addr_size : (r : TellAddr) → length (encode_tell_addr r) % 4 ≡ 0
unfolding encode_tell_addr put_le put_be
tell_addr_size r = ground arith

module _ (v c : ℕ) (bs : Bytes) where
  pub payload-decode_encode :
      (d : MatchCommandData)
      → known_version v ≡ true
      → IsWire v c d
      → encode_payload c d ≡ ok bs
      → (length bs % 4 ≡ 0) × (decode_payload c bs v ≡ ok d)
  unfolding encode_payload decode_payload deref decode_sized
  payload-decode_encode d known (reservation r ec ed h _) e =
      let e' : encode_reservation v r ≡ ok bs = ground arith in
      (
        reservation_size v r bs e',
        ground (arith, reservation-decode_encode v r bs (ground arith) h e'),
      )
  payload-decode_encode d known (resv_ok r ec ed h a _) e =
      let e' : encode_resv_ok v r ≡ ok bs = ground arith in
      (resv_ok_size v r bs e', ground (arith, resv_ok-decode_encode v r bs h a e'))
  payload-decode_encode d known (resv_deny r ec ed h _) e =
      let e' : encode_resv_deny r ≡ ok bs = ground arith in
      (resv_deny_size r bs h e', ground (arith, resv_deny-decode_encode r bs h e'))
  payload-decode_encode d known (empty ec ed) e = (ground arith, ground arith)
  payload-decode_encode d known (tell_addr r ec ed h) e =
      let e' : encode_tell_addr r ≡ bs = ground arith in
      rw (← e') (tell_addr_size r, ground (arith, tell_addr-decode_encode r h))
  payload-decode_encode d known (server_close_client pids ec ed h few) e =
      let e' : put_words pids ≡ bs = ground arith in
      rw (← e') (
        omega (arith, length-put_words pids),
        ground (arith, server_close_client-decode_encode pids h few),
      )
  payload-decode_encode d known (poll_to_ack other ec ed h) e = (ground arith, ground arith)
  payload-decode_encode d known (suspend_match r ec ed h) e =
      let e' : encode_suspend_match r ≡ bs = ground arith in
      rw (← e') (suspend_match_size r, ground (arith, suspend_match-decode_encode r h))
  payload-decode_encode d known (unknown other ec ed h) e = (ground arith, ground arith)
