-- ===== src/MatchCommand/RoundTrip/Accept/Counted.antt =====
-- The parts of a version 3 or 11 acceptance, read back (common/match_command.go).
use wfc_server_private.MatchCommand.{ResvOk}
use wfc_server_private.MatchCommand.Decode.Accept.{pid_at, field_at, resv_ok_3, resv_ok_11}
use wfc_server_private.MatchCommand.Decode.Fields.{port_at, flag_at, words_from}
use wfc_server_private.MatchCommand.Encode.{flag_int, put_words, resv_ok_head, resv_ok_tail}
use wfc_server_private.MatchCommand.RoundTrip.Accept.Fields.{
  IsResvOk, Carried11, Carried3, le_field, be_field, slice_field, words_from-put_words,
  length-put_words,
}
use wfc_server_private.MatchCommand.Words.{
  put_le, put_be, le_at, be_at, slice_from, word_bytes, le_at-put_le, length-put_le,
}
use wfc_server_private.Prelude.{
  ℕ, ◌+◌, ◌*◌, ◌≤◌, ◌≡◌, ◌++◌, append_assoc, arith, length, length-append,
}
use wfc_server_private.Prelude.Outcome.{ok}

module _ (r : ResvOk) (h : IsResvOk r) (small : r.client_count ≤ 29)
    (counted : r.client_count ≡ length r.profile_ids) where
  pub head_size : length (resv_ok_head r) ≡ 4 + r.client_count * 4
  unfolding resv_ok_head
  head_size = omega (
    arith,
    length-append (put_le r.client_count) (put_words r.profile_ids),
    length-put_le r.client_count,
    length-put_words r.profile_ids,
  )

  pub resv_ok_11-wire :
      Carried11 r
      → resv_ok_11 (resv_ok_head r ++ resv_ok_tail 11 r) r.client_count r.profile_ids r.public_port
        ≡ ok r
  unfolding resv_ok_11 flag_at
  resv_ok_11-wire c =
      simp
        (
          le_field (resv_ok_head r) (resv_ok_tail 11 r) r.client_count 0x08 head_size small
              (omega arith),
          le_field (resv_ok_head r) (resv_ok_tail 11 r) r.client_count 0x14 head_size small
              (omega arith),
          le_field (resv_ok_head r) (resv_ok_tail 11 r) r.client_count 0x0C head_size small
              (omega arith),
          be_field (resv_ok_head r) (resv_ok_tail 11 r) r.client_count 0 head_size small
              (omega arith),
          le_field (resv_ok_head r) (resv_ok_tail 11 r) r.client_count 0x10 head_size small
              (omega arith),
          slice_field (resv_ok_head r) (resv_ok_tail 11 r) r.client_count 0x18 head_size small
              (omega arith),
        )
        (unfold resv_ok_tail flag_int le_at be_at slice_from put_le put_be in
          simp
            (
              word_bytes r.public_ip h.public_ip,
              word_bytes r.sender_aid h.sender_aid,
              word_bytes r.group_id h.group_id,
              word_bytes r.max_players h.max_players,
            )
            (ground arith))

  pub resv_ok_3-wire :
      Carried3 r
      → resv_ok_3 (resv_ok_head r ++ resv_ok_tail 3 r) r.client_count r.profile_ids r.public_port
        ≡ ok r
  unfolding resv_ok_3
  resv_ok_3-wire c =
      simp
        (
          be_field (resv_ok_head r) (resv_ok_tail 3 r) r.client_count 0 head_size small
              (omega arith),
          slice_field (resv_ok_head r) (resv_ok_tail 3 r) r.client_count 0x8 head_size small
              (omega arith),
        )
        (unfold resv_ok_tail be_at slice_from put_le put_be in
          simp (word_bytes r.public_ip h.public_ip) (ground (arith, c.others)))

  pub port-wire :
      (v : ℕ)
      → port_at (resv_ok_head r ++ resv_ok_tail v r) (field_at r.client_count 4) ≡ ok r.public_port
  unfolding port_at
  port-wire v =
      simp
        (le_field (resv_ok_head r) (resv_ok_tail v r) r.client_count 4 head_size small
          (omega arith))
        (unfold resv_ok_tail le_at put_le put_be in
          simp (word_bytes r.public_port (omega arith)) (ground arith))

  pub pids-wire :
      (v : ℕ)
      → words_from pid_at (resv_ok_head r ++ resv_ok_tail v r) r.client_count 0 ≡ ok r.profile_ids
  unfolding resv_ok_head resv_ok_tail
  pids-wire v =
      rw (counted, append_assoc)
        (words_from-put_words (put_le (length r.profile_ids)) r.profile_ids (resv_ok_tail v r) 0
          (length-put_le _) (omega arith) h.profile_ids)

  pub count-wire : (v : ℕ) → le_at (resv_ok_head r ++ resv_ok_tail v r) 0 ≡ ok r.client_count
  unfolding resv_ok_head
  count-wire v = rw append_assoc (le_at-put_le r.client_count _ h.client_count)
