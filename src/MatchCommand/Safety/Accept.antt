-- ===== src/MatchCommand/Safety/Accept.antt =====
-- Decoding a reservation's acceptance (common/match_command.go) and the end of its buffer.
use wfc_server_private.Prelude.{
  ℕ, zero, suc, ◌+◌, ◌*◌, ◌%◌, ◌^◌, ◌≤◌, ◌<◌, ◌≡◌, ◌⊎◌, false, ◌||◌, List, arith, ltb, ◌==◌, Bytes,
  length,
}
use wfc_server_private.Prelude.Outcome.{NoPanic, NoPanic-bind, NoPanic-guard, NoPanic-if}
use wfc_server_private.MatchCommand.Words.{le_at, le_at_within, be_at_within, slice_from_within}
use wfc_server_private.MatchCommand.Decode.Fields.{port_at, flag_at, words_from}
use wfc_server_private.MatchCommand.Decode.Accept.{
  resv_ok_too_short, pid_at, field_at, resv_ok_3, resv_ok_11, resv_ok_listed, resv_ok_counted,
  resv_ok_90, decode_resv_ok,
}
use wfc_server_private.MatchCommand.Safety.Reserve.{port_at-NoPanic}

module _ (buffer : Bytes) where
  pub words_from-NoPanic :
      (at : ℕ → ℕ) (n i : ℕ)
      → ((j : ℕ) → j < i + n → at j + 4 ≤ length buffer)
      → NoPanic (words_from at buffer n i)
  unfolding words_from
  words_from-NoPanic at zero i h = tt
  words_from-NoPanic at (suc n) i h =
      NoPanic-bind (le_at buffer (at i)) _ (ground (arith, le_at_within buffer (at i), h i)) λ v _.
        NoPanic-bind (words_from at buffer n (suc i)) _
          (words_from-NoPanic at n (suc i) (λ j k. h j (omega arith))) λ vs _. tt

  resv_ok_3-NoPanic :
      (c : ℕ) (pids : List ℕ) (p : ℕ)
      → c ≤ 29
      → 12 + c * 4 ≤ length buffer
      → NoPanic (resv_ok_3 buffer c pids p)
  unfolding resv_ok_3 field_at
  resv_ok_3-NoPanic c pids p hc h = ground (
    arith,
    be_at_within buffer ((0x04 + c * 4 + 0) % 2 ^ 32),
    slice_from_within buffer ((0x04 + c * 4 + 0x8) % 2 ^ 32),
  )

  resv_ok_11-NoPanic :
      (c : ℕ) (pids : List ℕ) (p : ℕ)
      → c ≤ 24
      → 32 + c * 4 ≤ length buffer
      → NoPanic (resv_ok_11 buffer c pids p)
  unfolding resv_ok_11 field_at flag_at
  resv_ok_11-NoPanic c pids p hc h = ground (
    arith,
    le_at_within buffer ((0x04 + c * 4 + 0x08) % 2 ^ 32),
    le_at_within buffer ((0x04 + c * 4 + 0x14) % 2 ^ 32),
    le_at_within buffer ((0x04 + c * 4 + 0x0C) % 2 ^ 32),
    be_at_within buffer ((0x04 + c * 4 + 0) % 2 ^ 32),
    le_at_within buffer ((0x04 + c * 4 + 0x10) % 2 ^ 32),
    slice_from_within buffer ((0x04 + c * 4 + 0x18) % 2 ^ 32),
  )

  -- the tests on the count keep the list and the fields behind it inside the buffer
  count_bounds :
      (v c : ℕ)
      → (v ≡ 3) ⊎ (v ≡ 11)
      → resv_ok_too_short v c (length buffer) ≡ false
      → (c ≤ 29) × (12 + c * 4 ≤ length buffer) × (v ≡ 11 → (c ≤ 24) × (32 + c * 4 ≤ length buffer))
  unfolding resv_ok_too_short
  count_bounds v c known long = (ground arith, ground arith, λ e. (ground arith, ground arith))

  resv_ok_listed-NoPanic :
      (v c : ℕ)
      → (v ≡ 3) ⊎ (v ≡ 11)
      → resv_ok_too_short v c (length buffer) ≡ false
      → NoPanic (resv_ok_listed v buffer c)
  unfolding resv_ok_listed pid_at field_at
  resv_ok_listed-NoPanic v c known long =
      let (small, size, more) = count_bounds v c known long in
      NoPanic-bind (words_from pid_at buffer c 0) _
        (words_from-NoPanic pid_at c 0 (λ j k. omega arith))
        λ pids _.
          NoPanic-bind (port_at buffer (field_at c 4)) _
            (port_at-NoPanic buffer (field_at c 4) (omega arith))
            λ p _.
              NoPanic-if (v == 3) _ _ (λ _. resv_ok_3-NoPanic c pids p small size)
                λ other. let b = more (ground arith) in resv_ok_11-NoPanic c pids p b.0 b.1

  resv_ok_counted-NoPanic : (v : ℕ) → (v ≡ 3) ⊎ (v ≡ 11) → NoPanic (resv_ok_counted v buffer)
  unfolding resv_ok_counted
  resv_ok_counted-NoPanic v known = NoPanic-guard (ltb (length buffer) 12) _ λ size.
      NoPanic-bind (le_at buffer 0) _ (ground (arith, le_at_within buffer 0)) λ c _.
        NoPanic-guard (resv_ok_too_short v c (length buffer)) _ (resv_ok_listed-NoPanic v c known)

  resv_ok_90-NoPanic : NoPanic (resv_ok_90 buffer)
  unfolding resv_ok_90 port_at
  resv_ok_90-NoPanic = ground (
    arith,
    le_at_within buffer 0x10,
    le_at_within buffer 0x18,
    le_at_within buffer 0x00,
    le_at_within buffer 0x04,
    le_at_within buffer 0x08,
    be_at_within buffer 0x0C,
    be_at_within buffer 0x14,
    le_at_within buffer 0x1C,
    le_at_within buffer 0x20,
    le_at_within buffer 0x24,
    le_at_within buffer 0x28,
    le_at_within buffer 0x2C,
    le_at_within buffer 0x30,
    slice_from_within buffer 0x34,
  )

  pub resv_ok-NoPanic : (v : ℕ) → NoPanic (decode_resv_ok v buffer)
  unfolding decode_resv_ok
  resv_ok-NoPanic v =
      NoPanic-if (v == 3 || v == 11) _ _ (λ e. resv_ok_counted-NoPanic v (ground arith))
        (λ _. resv_ok_90-NoPanic)
