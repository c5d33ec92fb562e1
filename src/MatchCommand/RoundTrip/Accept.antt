-- ===== src/MatchCommand/RoundTrip/Accept.antt =====
-- The acceptance of a reservation, encoded and then decoded (common/match_command.go).
pub mod Fields
pub mod Counted
use wfc_server_private.MatchCommand.{ResvOk}
use wfc_server_private.MatchCommand.Decode.Accept.{
  resv_ok_too_short, resv_ok_listed, resv_ok_counted, resv_ok_90, decode_resv_ok,
}
use wfc_server_private.MatchCommand.Decode.Fields.{port_at}
use wfc_server_private.MatchCommand.Encode.{
  aligned, resv_ok_head, resv_ok_tail, encode_resv_ok_counted, encode_resv_ok_90, encode_resv_ok,
}
use wfc_server_private.MatchCommand.RoundTrip.Accept.Counted.{
  head_size, resv_ok_11-wire, resv_ok_3-wire, port-wire, pids-wire, count-wire,
}
use wfc_server_private.MatchCommand.RoundTrip.Accept.Fields.{
  IsResvOk, Carried90, Carried11, Carried3,
}
use wfc_server_private.MatchCommand.RoundTrip.Reserve.{aligned-ok}
use wfc_server_private.MatchCommand.Words.{put_le, put_be, le_at, be_at, slice_from, word_bytes}
use wfc_server_private.Prelude.{
  ℕ, ◌+◌, ◌*◌, ◌≤◌, ◌≡◌, ap, [], ◌++◌, arith, Bytes, length, length-append,
}
use wfc_server_private.Prelude.Outcome.{ok, rejected, ◌>>=◌, ◌>>◌}

resv_ok_90-wire :
    (r : ResvOk) (bs : Bytes)
    → IsResvOk r
    → Carried90 r
    → encode_resv_ok_90 r ≡ ok bs
    → resv_ok_90 bs ≡ ok r
unfolding encode_resv_ok_90
resv_ok_90-wire r bs h c e = rw (← aligned-ok _ e) (
    unfold resv_ok_90 port_at le_at be_at slice_from put_le put_be in
    simp
      (
        word_bytes r.max_players h.max_players,
        word_bytes r.sender_aid h.sender_aid,
        word_bytes r.profile_id h.profile_id,
        word_bytes r.public_ip h.public_ip,
        word_bytes r.public_port (omega arith),
        word_bytes r.local_ip h.local_ip,
        word_bytes r.local_port (omega arith),
        word_bytes r.unknown h.unknown,
        word_bytes r.local_player_count h.local_player_count,
        word_bytes r.group_id h.group_id,
        word_bytes r.receiver_new_aid h.receiver_new_aid,
        word_bytes r.client_count h.client_count,
        word_bytes r.resv_check_value h.resv_check_value,
      )
      (ground arith))

pub tail_size_3 : (r : ResvOk) → length (resv_ok_tail 3 r) ≡ 8 + length r.user_data
unfolding resv_ok_tail put_le put_be
tail_size_3 r = omega arith

pub tail_size_11 : (r : ResvOk) → length (resv_ok_tail 11 r) ≡ 24 + length r.user_data
unfolding resv_ok_tail put_le put_be
tail_size_11 r = omega arith

module _ (r : ResvOk) (h : IsResvOk r) (counted : r.client_count ≡ length r.profile_ids) where
  counted_3-wire :
      Carried3 r
      → r.client_count ≤ 29
      → resv_ok_counted 3 (resv_ok_head r ++ resv_ok_tail 3 r) ≡ ok r
  unfolding resv_ok_counted resv_ok_listed resv_ok_too_short
  counted_3-wire c small =
      let size : length (resv_ok_head r ++ resv_ok_tail 3 r)
          ≡ 12 + r.client_count * 4 + length r.user_data =
        omega (
          arith,
          length-append (resv_ok_head r) (resv_ok_tail 3 r),
          head_size r h small counted,
          tail_size_3 r,
        ) in
      simp
        (
          count-wire r h small counted 3,
          pids-wire r h small counted 3,
          port-wire r h small counted 3,
          resv_ok_3-wire r h small counted c,
        )
        (ground (arith, size))

  counted_11-wire :
      Carried11 r
      → r.client_count ≤ 24
      → 4 ≤ length r.user_data
      → resv_ok_counted 11 (resv_ok_head r ++ resv_ok_tail 11 r) ≡ ok r
  unfolding resv_ok_counted resv_ok_listed resv_ok_too_short
  counted_11-wire c few room =
      let small : r.client_count ≤ 29 = omega arith in
      let size : length (resv_ok_head r ++ resv_ok_tail 11 r)
          ≡ 28 + r.client_count * 4 + length r.user_data =
        omega (
          arith,
          length-append (resv_ok_head r) (resv_ok_tail 11 r),
          head_size r h small counted,
          tail_size_11 r,
        ) in
      simp
        (
          count-wire r h small counted 11,
          pids-wire r h small counted 11,
          port-wire r h small counted 11,
          resv_ok_11-wire r h small counted c,
        )
        (ground (arith, size))

-- The acceptances that a version can send and the decoder takes: the version's list is as long as
-- its count and not too long, and in version 11 at least four bytes of user data follow.
pub data Acceptable (v : ℕ) (r : ResvOk) : Type 0 where
  three :
      v ≡ 3
      → Carried3 r
      → r.client_count ≤ 29
      → r.client_count ≡ length r.profile_ids
      → Acceptable v r
  eleven :
      v ≡ 11
      → Carried11 r
      → r.client_count ≤ 24
      → r.client_count ≡ length r.profile_ids
      → 4 ≤ length r.user_data
      → Acceptable v r
  ninety : v ≡ 90 → Carried90 r → Acceptable v r

counted_of_encode :
    (v : ℕ) (r : ResvOk) (bs : Bytes)
    → encode_resv_ok_counted v r ≡ ok bs
    → (r.client_count ≡ length r.profile_ids) × (resv_ok_head r ++ resv_ok_tail v r ≡ bs)
unfolding encode_resv_ok_counted aligned
counted_of_encode v r bs e = (ground arith, ground arith)

-- An encoded acceptance decodes to itself.
pub resv_ok-decode_encode :
    (v : ℕ) (r : ResvOk) (bs : Bytes)
    → IsResvOk r
    → Acceptable v r
    → encode_resv_ok v r ≡ ok bs
    → decode_resv_ok v bs ≡ ok r
unfolding encode_resv_ok decode_resv_ok
resv_ok-decode_encode v r bs h (three e3 c small counted) e =
    let (_, whole) = counted_of_encode 3 r bs (ground (arith, e)) in
    rw (e3, ← whole) (counted_3-wire r h counted c small)
resv_ok-decode_encode v r bs h (eleven e11 c few counted room) e =
    let (_, whole) = counted_of_encode 11 r bs (ground (arith, e)) in
    rw (e11, ← whole) (counted_11-wire r h counted c few room)
resv_ok-decode_encode v r bs h (ninety e90 c) e =
    rw e90 (resv_ok_90-wire r bs h c (ground (arith, e)))

-- A version 11 acceptance that fits the wire, lists at most 24 profiles, as many as it counts, and
-- has no user data is encoded, and the decoder refuses what was written.
pub resv_ok_11_refused :
    (r : ResvOk)
    → IsResvOk r
    → r.client_count ≤ 24
    → r.client_count ≡ length r.profile_ids
    → r.user_data ≡ []
    → (bs : Bytes) × (encode_resv_ok 11 r ≡ ok bs) × (decode_resv_ok 11 bs ≡ rejected)
unfolding encode_resv_ok encode_resv_ok_counted aligned decode_resv_ok resv_ok_counted
    resv_ok_too_short
resv_ok_11_refused r h few counted none_left =
    let small : r.client_count ≤ 29 = omega arith in
    let size : length (resv_ok_head r ++ resv_ok_tail 11 r) ≡ 28 + r.client_count * 4 = omega (
      arith,
      length-append (resv_ok_head r) (resv_ok_tail 11 r),
      head_size r h small counted,
      tail_size_11 r,
      ap length none_left,
    ) in
    (
      resv_ok_head r ++ resv_ok_tail 11 r,
      ground arith,
      simp (count-wire r h small counted 11) (ground arith),
    )
