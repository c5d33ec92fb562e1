-- ===== src/MatchCommand/Safety/Reserve.antt =====
-- Decoding a reservation (common/match_command.go) and the end of its buffer.
use wfc_server_private.Prelude.{ℕ, ◌+◌, ◌%◌, ◌≤◌, ◌≡◌, true, ◌&&◌, arith, ltb, ◌==◌, Bytes, length}
use wfc_server_private.Prelude.Outcome.{NoPanic, NoPanic-bind, NoPanic-guard, NoPanic-if}
use wfc_server_private.MatchCommand.{known_version}
use wfc_server_private.MatchCommand.Words.{le_at, le_at_within, be_at_within, slice_from_within}
use wfc_server_private.MatchCommand.Decode.Fields.{port_at, flag_at}
use wfc_server_private.MatchCommand.Decode.Reserve.{
  reservation_too_short, reservation_3, reservation_11, reservation_90, reservation_body,
  reservation_with_ip, decode_reservation,
}

module _ (buffer : Bytes) where
  reservation_3-NoPanic : (m p : ℕ) → 12 ≤ length buffer → NoPanic (reservation_3 buffer m p)
  unfolding reservation_3
  reservation_3-NoPanic m p h = ground (arith, be_at_within buffer 4, slice_from_within buffer 12)

  reservation_11-NoPanic : (m p : ℕ) → 20 ≤ length buffer → NoPanic (reservation_11 buffer m p)
  unfolding reservation_11 flag_at
  reservation_11-NoPanic m p h = ground (
    arith,
    le_at_within buffer 12,
    be_at_within buffer 4,
    le_at_within buffer 16,
    slice_from_within buffer 20,
  )

  reservation_90-NoPanic : (m p : ℕ) → 36 ≤ length buffer → NoPanic (reservation_90 buffer m p)
  unfolding reservation_90 port_at flag_at
  reservation_90-NoPanic m p h = ground (
    arith,
    be_at_within buffer 4,
    slice_from_within buffer 36,
    le_at_within buffer 16,
    le_at_within buffer 24,
    be_at_within buffer 12,
    le_at_within buffer 20,
    le_at_within buffer 28,
    le_at_within buffer 32,
  )

  pub port_at-NoPanic : (at : ℕ) → at + 4 ≤ length buffer → NoPanic (port_at buffer at)
  unfolding port_at
  port_at-NoPanic at h = ground (arith, le_at_within buffer at)

  reservation_body-NoPanic :
      (v m p : ℕ)
      → (v ≡ 3 → 12 ≤ length buffer)
      → (v ≡ 11 → 20 ≤ length buffer)
      → (v ≡ 90 → 36 ≤ length buffer)
      → NoPanic (reservation_body v buffer m p)
  unfolding reservation_body
  reservation_body-NoPanic v m p h3 h11 h90 =
      ground
        (arith, reservation_3-NoPanic m p, reservation_11-NoPanic m p, reservation_90-NoPanic m p)

  reservation_with_ip-NoPanic :
      (v m : ℕ)
      → 12 ≤ length buffer
      → (v ≡ 11 → 20 ≤ length buffer)
      → (v ≡ 90 → 36 ≤ length buffer)
      → NoPanic (reservation_with_ip v buffer m)
  unfolding reservation_with_ip
  reservation_with_ip-NoPanic v m h3 h11 h90 =
      NoPanic-bind (port_at buffer 8) _ (port_at-NoPanic 8 (omega arith))
        λ p _. reservation_body-NoPanic v m p (λ _. h3) h11 h90

  pub reservation-NoPanic : (v : ℕ) → known_version v ≡ true → NoPanic (decode_reservation v buffer)
  unfolding decode_reservation reservation_too_short
  reservation-NoPanic v h = NoPanic-guard (reservation_too_short v (length buffer)) _ λ long.
      NoPanic-bind (le_at buffer 0) _ (ground (arith, le_at_within buffer 0)) λ m _.
        NoPanic-guard (ltb 3 m) _ λ _.
          NoPanic-if (v == 3 && ltb (length buffer) 12) _ _ (λ _. tt)
            λ whole.
              reservation_with_ip-NoPanic v (m % 256) (ground arith) (λ e. ground arith)
                (λ e. ground arith)
