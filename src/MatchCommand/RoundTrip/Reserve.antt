-- ===== src/MatchCommand/RoundTrip/Reserve.antt =====
-- A reservation, encoded and then decoded (common/match_command.go).
use wfc_server_private.MatchCommand.{Reservation, zero_reservation}
use wfc_server_private.MatchCommand.Decode.Fields.{port_at, flag_at}
use wfc_server_private.MatchCommand.Decode.Reserve.{
  reservation_too_short, reservation_3, reservation_11, reservation_90, reservation_body,
  reservation_with_ip, decode_reservation,
}
use wfc_server_private.MatchCommand.Encode.{
  aligned, flag_int, reservation_fields, encode_reservation,
}
use wfc_server_private.MatchCommand.Words.{put_le, put_be, le_at, be_at, slice_from, word_bytes}
use wfc_server_private.Prelude.{
  ℕ, ◌%◌, ◌^◌, ◌≤◌, ◌<◌, ◌≡◌, subst, ◌∙◌, ◌≢◌, ◌⊎◌, inl, inr, true, false, ◌++◌, arith, Bytes,
  length,
}
use wfc_server_private.Prelude.Outcome.{ok}

-- The values that the fields of a full reservation can have on the wire.
pub record IsReservation (r : Reservation) : Type 0 where
  pub match_type : r.match_type ≤ 3
  pub has_public_ip : r.has_public_ip ≡ true
  pub public_ip : r.public_ip < 2 ^ 32
  pub public_port : r.public_port < 2 ^ 16
  pub local_ip : r.local_ip < 2 ^ 32
  pub local_port : r.local_port < 2 ^ 16
  pub unknown : r.unknown < 2 ^ 32
  pub local_player_count : r.local_player_count < 2 ^ 32
  pub resv_check_value : r.resv_check_value < 2 ^ 32

-- The fields that a version does not send are zero.
pub record Carried (v : ℕ) (r : Reservation) : Type 0 where
  pub local_ip : v ≢ 90 → r.local_ip ≡ 0
  pub local_port : v ≢ 90 → r.local_port ≡ 0
  pub unknown : v ≢ 90 → r.unknown ≡ 0
  pub resv_check_value : v ≢ 90 → r.resv_check_value ≡ 0
  pub local_player_count : v ≡ 3 → r.local_player_count ≡ 0
  pub is_friend : v ≡ 3 → r.is_friend ≡ false

-- What every version with an address writes first.
abbrev wire : Reservation → Bytes → Bytes
wire r rest = put_le r.match_type ++ (put_be r.public_ip ++ (put_le r.public_port ++ rest))

module _ (r : Reservation) (h : IsReservation r) where
  reservation_90-wire :
      reservation_90 (wire r (reservation_fields 90 r ++ r.user_data)) r.match_type r.public_port
      ≡ ok r
  unfolding reservation_90 flag_at port_at le_at be_at put_le put_be slice_from reservation_fields
      flag_int
  reservation_90-wire =
      simp
        (
          word_bytes r.local_port (omega arith),
          word_bytes r.public_ip h.public_ip,
          word_bytes r.local_ip h.local_ip,
          word_bytes r.unknown h.unknown,
          word_bytes r.local_player_count h.local_player_count,
          word_bytes r.resv_check_value h.resv_check_value,
        )
        (ground arith)

  with_ip-wire :
      (v : ℕ) (rest : Bytes)
      → reservation_with_ip v (wire r rest) r.match_type
        ≡ reservation_body v (wire r rest) r.match_type r.public_port
  unfolding reservation_with_ip port_at le_at put_le put_be
  with_ip-wire v rest = simp (word_bytes r.public_port (omega arith)) (ground arith)

  decode-wire :
      (v : ℕ) (rest : Bytes)
      → reservation_too_short v (length (wire r rest)) ≡ false
      → decode_reservation v (wire r rest)
        ≡ reservation_body v (wire r rest) r.match_type r.public_port
  unfolding decode_reservation le_at put_le put_be
  decode-wire v rest e =
      let small : r.match_type % 256 ≡ r.match_type = omega arith in
      simp (e, small) (ground (arith, with_ip-wire v rest))

  reservation_11-wire :
      Carried 11 r
      → reservation_11 (wire r (reservation_fields 11 r ++ r.user_data)) r.match_type r.public_port
        ≡ ok r
  unfolding reservation_11 flag_at le_at be_at put_le put_be slice_from reservation_fields flag_int
  reservation_11-wire c =
      simp
        (word_bytes r.public_ip h.public_ip, word_bytes r.local_player_count h.local_player_count)
        (ground arith)

  reservation_3-wire :
      Carried 3 r → reservation_3 (wire r r.user_data) r.match_type r.public_port ≡ ok r
  unfolding reservation_3 be_at put_le put_be slice_from
  reservation_3-wire c = simp (word_bytes r.public_ip h.public_ip) (ground arith)

-- A reservation for which the version has no room for an address.
abbrev pub short_reservation : ℕ → Reservation
short_reservation match_type = record zero_reservation { match_type = match_type }

short-decode : (m : ℕ) → m ≤ 3 → decode_reservation 3 (put_le m) ≡ ok (short_reservation m)
unfolding decode_reservation le_at put_le reservation_too_short
short-decode m h = let e : m % 256 ≡ m = omega arith in simp e (ground arith)

full-decode :
    (v : ℕ) (r : Reservation)
    → (v ≡ 3) ⊎ (v ≡ 11) ⊎ (v ≡ 90)
    → IsReservation r
    → Carried v r
    → decode_reservation v (wire r (reservation_fields v r ++ r.user_data)) ≡ ok r
unfolding reservation_body reservation_too_short reservation_fields put_le put_be
full-decode v r (inl e) h c =
    let c3 : Carried 3 r = subst (λ w. Carried w r) e c in
    rw e (decode-wire r h 3 r.user_data (ground arith) ∙ reservation_3-wire r h c3)
full-decode v r (inr (inl e)) h c =
    let c11 : Carried 11 r = subst (λ w. Carried w r) e c in
    rw e (decode-wire r h 11 _ (ground arith) ∙ reservation_11-wire r h c11)
full-decode v r (inr (inr e)) h c =
    rw e (decode-wire r h 90 _ (ground arith) ∙ reservation_90-wire r h)

-- What a version can send: all its fields, or in version 3 the match type alone.
pub data Sendable (v : ℕ) (r : Reservation) : Type 0 where
  full : IsReservation r → Carried v r → Sendable v r
  short : (m : ℕ) → v ≡ 3 → m ≤ 3 → r ≡ short_reservation m → Sendable v r

pub aligned-ok : (message : Bytes) {bs : Bytes} → aligned message ≡ ok bs → message ≡ bs
unfolding aligned
aligned-ok message h = ground arith

-- An encoded reservation decodes to itself.
pub reservation-decode_encode :
    (v : ℕ) (r : Reservation) (bs : Bytes)
    → (v ≡ 3) ⊎ (v ≡ 11) ⊎ (v ≡ 90)
    → Sendable v r
    → encode_reservation v r ≡ ok bs
    → decode_reservation v bs ≡ ok r
unfolding encode_reservation
reservation-decode_encode v r bs known (full h c) e =
    let whole : aligned (wire r (reservation_fields v r ++ r.user_data)) ≡ ok bs = ground arith in
    rw (← aligned-ok _ whole) (full-decode v r known h c)
reservation-decode_encode v r bs known (short m e3 small er) e =
    let b : put_le m ≡ bs = ground arith in rw (er, e3, ← b) (short-decode m small)
