-- ===== src/MatchCommand/RoundTrip/Small.antt =====
-- The payloads of fixed or short layout, encoded and read back (common/match_command.go).
use wfc_server_private.MatchCommand.{ResvDeny, TellAddr, SuspendMatch}
use wfc_server_private.MatchCommand.Decode.{
  decode_resv_deny, decode_tell_addr, decode_server_close_client, decode_suspend_match,
}
use wfc_server_private.MatchCommand.Decode.Fields.{port_at, words_from}
use wfc_server_private.MatchCommand.Encode.{
  aligned, put_words, encode_resv_deny, encode_tell_addr, encode_suspend_match,
}
use wfc_server_private.MatchCommand.RoundTrip.Accept.Fields.{length-put_words}
use wfc_server_private.MatchCommand.RoundTrip.Reserve.{aligned-ok}
use wfc_server_private.MatchCommand.Words.{
  put_le, put_be, le_at, be_at, slice_from, word_bytes, le_at-append, le_at-put_le, length-put_le,
}
use wfc_server_private.Prelude.{
  ℕ, suc, ◌*◌, ◌/◌, ◌^◌, ◌≤◌, ◌<◌, ◌≡◌, refl, subst, ◌∙◌, inl, inr, true, false, List, [], ◌∷◌,
  ◌++◌, append_assoc, arith, Bytes, Bool-cases, length, All, length-append,
}
use wfc_server_private.Prelude.Outcome.{ok}

pub record IsTellAddr (r : TellAddr) : Type 0 where
  pub local_ip : r.local_ip < 2 ^ 32
  pub local_port : r.local_port < 2 ^ 16

pub record IsSuspendMatch (r : SuspendMatch) : Type 0 where
  pub host_profile_id : r.host_profile_id < 2 ^ 32
  pub is_host_flag : r.is_host_flag < 2 ^ 32
  pub suspend_value : r.suspend_value < 2 ^ 32
  pub client_aid_value : r.client_aid_value < 2 ^ 32
  pub suspend_value_sent : r.short ≡ true → r.suspend_value ≡ 0
  pub client_aid_value_sent : r.short ≡ true → r.client_aid_value ≡ 0

-- A denial with a reason has user data behind it; one without is empty.
pub record IsResvDeny (r : ResvDeny) : Type 0 where
  pub reason : r.reason < 2 ^ 32
  pub specified : r.reason_specified ≡ true → 0 < length r.user_data
  pub unspecified_reason : r.reason_specified ≡ false → r.reason ≡ 0
  pub unspecified_data : r.reason_specified ≡ false → r.user_data ≡ []

pub tell_addr-decode_encode :
    (r : TellAddr) → IsTellAddr r → decode_tell_addr (encode_tell_addr r) ≡ ok r
unfolding decode_tell_addr encode_tell_addr port_at le_at be_at put_le put_be
tell_addr-decode_encode r h =
    simp (word_bytes r.local_ip h.local_ip, word_bytes r.local_port (omega arith)) (ground arith)

pub suspend_match-decode_encode :
    (r : SuspendMatch) → IsSuspendMatch r → decode_suspend_match (encode_suspend_match r) ≡ ok r
unfolding decode_suspend_match encode_suspend_match le_at put_le
suspend_match-decode_encode r h = elim (Bool-cases r.short) [
  | inl s ↦
      simp
        (
          s,
          word_bytes r.host_profile_id h.host_profile_id,
          word_bytes r.is_host_flag h.is_host_flag,
        )
        (ground arith)
  | inr s ↦
      simp
        (
          s,
          word_bytes r.host_profile_id h.host_profile_id,
          word_bytes r.is_host_flag h.is_host_flag,
          word_bytes r.suspend_value h.suspend_value,
          word_bytes r.client_aid_value h.client_aid_value,
        )
        (ground arith)
]

pub resv_deny-decode_encode :
    (r : ResvDeny) (bs : Bytes)
    → IsResvDeny r
    → encode_resv_deny r ≡ ok bs
    → decode_resv_deny bs ≡ ok r
unfolding encode_resv_deny
resv_deny-decode_encode r bs h e = elim (Bool-cases r.reason_specified) [
  | inl s ↦
      let whole : aligned (put_le r.reason ++ r.user_data) ≡ ok bs = ground arith in
      rw (← aligned-ok _ whole) (
        unfold decode_resv_deny le_at slice_from put_le in
        simp (word_bytes r.reason h.reason) (ground arith))
  | inr s ↦ let e' : [] ≡ bs = ground arith in rw (← e') (unfold decode_resv_deny in ground arith)
]

words_from_start :
    (before : Bytes) (pids : List ℕ) (i : ℕ)
    → length before ≡ i * 4
    → All (λ v. v < 2 ^ 32) pids
    → words_from (λ j. j * 4) (before ++ put_words pids) (length pids) i ≡ ok pids
unfolding words_from put_words
words_from_start before [] i e h = refl
words_from_start before (v ∷ vs) i e h =
    let size : length (before ++ put_le v) ≡ suc i * 4 =
      omega (arith, length-append before (put_le v), length-put_le v) in
    let here : le_at (before ++ (put_le v ++ put_words vs)) (i * 4) ≡ ok v =
      le_at-append before _ 0 _ (omega arith) ∙ le_at-put_le v _ h.0 in
    let later : words_from (λ j. j * 4) (before ++ (put_le v ++ put_words vs)) (length vs) (suc i)
        ≡ ok vs =
      subst (λ w. words_from (λ j. j * 4) w (length vs) (suc i) ≡ ok vs)
        (append_assoc before (put_le v) (put_words vs))
        (words_from_start (before ++ put_le v) vs (suc i) size h.1) in
    rw (here, later)

pub server_close_client-decode_encode :
    (pids : List ℕ)
    → All (λ v. v < 2 ^ 32) pids
    → length pids ≤ 32
    → decode_server_close_client (put_words pids) ≡ ok (record { profile_ids = pids })
unfolding decode_server_close_client
server_close_client-decode_encode pids h few =
    let size = length-put_words pids in
    let count : length (put_words pids) / 4 ≡ length pids = omega arith in
    simp (count, words_from_start [] pids 0 refl h) (ground (arith, size))
