-- ===== src/MatchCommand/RoundTrip/Total.antt =====
-- When `EncodeMatchCommand` of common/match_command.go refuses a value or panics.
use wfc_server_private.MatchCommand.{Reservation, ResvOk, ResvDeny, MatchCommandData, known_version}
use wfc_server_private.MatchCommand.Encode.{
  deref, aligned, put_words, reservation_fields, encode_reservation, resv_ok_head, resv_ok_tail,
  encode_resv_ok_counted, encode_resv_ok_90, encode_resv_ok, encode_resv_deny, encode_payload,
}
use wfc_server_private.MatchCommand.RoundTrip.Accept.{
  tail_size_3, tail_size_11, Acceptable, three, eleven, ninety,
}
use wfc_server_private.MatchCommand.RoundTrip.Accept.Fields.{length-put_words}
use wfc_server_private.MatchCommand.RoundTrip.Wire.{
  IsWire, reservation, resv_ok, resv_deny, empty, tell_addr, server_close_client, poll_to_ack,
  suspend_match, unknown,
}
use wfc_server_private.MatchCommand.Words.{put_le, put_be, length-put_le}
use wfc_server_private.Prelude.{
  ℕ, ◌+◌, ◌*◌, ◌%◌, ◌≡◌, ◌≢◌, true, ◌++◌, arith, Bytes, length, length-append,
}
use wfc_server_private.Prelude.Outcome.{rejected, panicked}

fields_size : (v : ℕ) (r : Reservation) → length (reservation_fields v r) % 4 ≡ 0
unfolding reservation_fields put_le put_be
fields_size v r = ground arith

aligned-ne :
    (message : Bytes)
    → length message % 4 ≡ 0
    → (aligned message ≢ rejected) × (aligned message ≢ panicked)
unfolding aligned
aligned-ne message h = (ground arith, ground arith)

encode_reservation-ne :
    (v : ℕ) (r : Reservation)
    → length r.user_data % 4 ≡ 0
    → (encode_reservation v r ≢ rejected) × (encode_reservation v r ≢ panicked)
unfolding encode_reservation
encode_reservation-ne v r h =
    let rest = fields_size v r in
    let size = length-append (reservation_fields v r) r.user_data in
    let whole =
      aligned-ne
        (put_le r.match_type
          ++ (put_be r.public_ip
              ++ (put_le r.public_port ++ (reservation_fields v r ++ r.user_data))))
        (unfold put_le put_be in omega arith) in
    (ground arith, ground arith)

head_length : (r : ResvOk) → length (resv_ok_head r) ≡ 4 + length r.profile_ids * 4
unfolding resv_ok_head
head_length r = omega (
  arith,
  length-append (put_le r.client_count) (put_words r.profile_ids),
  length-put_le r.client_count,
  length-put_words r.profile_ids,
)

encode_resv_ok-ne :
    (v : ℕ) (r : ResvOk)
    → Acceptable v r
    → length r.user_data % 4 ≡ 0
    → (encode_resv_ok v r ≢ rejected) × (encode_resv_ok v r ≢ panicked)
unfolding encode_resv_ok encode_resv_ok_counted encode_resv_ok_90
encode_resv_ok-ne v r (three e c few counted) h =
    let whole = aligned-ne (resv_ok_head r ++ resv_ok_tail 3 r) (
      omega
        (arith, length-append (resv_ok_head r) (resv_ok_tail 3 r), tail_size_3 r, head_length r)) in
    (ground arith, ground arith)
encode_resv_ok-ne v r (eleven e c few counted room) h =
    let whole = aligned-ne (resv_ok_head r ++ resv_ok_tail 11 r) (
      omega (
        arith,
        length-append (resv_ok_head r) (resv_ok_tail 11 r),
        tail_size_11 r,
        head_length r,
      )) in
    (ground arith, ground arith)
encode_resv_ok-ne v r (ninety e c) h =
    (unfold aligned put_le put_be in ground arith, unfold aligned put_le put_be in ground arith)

encode_resv_deny-ne :
    (r : ResvDeny)
    → length r.user_data % 4 ≡ 0
    → (encode_resv_deny r ≢ rejected) × (encode_resv_deny r ≢ panicked)
unfolding encode_resv_deny
encode_resv_deny-ne r h =
    let whole = aligned-ne (put_le r.reason ++ r.user_data) (unfold put_le in omega arith) in
    (ground arith, ground arith)

-- A value that the wire can carry is encoded.
pub encode_payload-ok :
    (v c : ℕ) (d : MatchCommandData)
    → known_version v ≡ true
    → IsWire v c d
    → (encode_payload c d ≢ rejected) × (encode_payload c d ≢ panicked)
unfolding encode_payload deref
encode_payload-ok v c d known (reservation r ec ed h a) =
    let whole = encode_reservation-ne v r a in (ground arith, ground arith)
encode_payload-ok v c d known (resv_ok r ec ed h acc a) =
    let whole = encode_resv_ok-ne v r acc a in (ground arith, ground arith)
encode_payload-ok v c d known (resv_deny r ec ed h a) =
    let whole = encode_resv_deny-ne r a in (ground arith, ground arith)
encode_payload-ok v c d known (empty ec ed) = (ground arith, ground arith)
encode_payload-ok v c d known (tell_addr r ec ed h) = (ground arith, ground arith)
encode_payload-ok v c d known (server_close_client pids ec ed h few) = (ground arith, ground arith)
encode_payload-ok v c d known (poll_to_ack other ec ed h) = (ground arith, ground arith)
encode_payload-ok v c d known (suspend_match r ec ed h) = (ground arith, ground arith)
encode_payload-ok v c d known (unknown other ec ed h) = (ground arith, ground arith)
