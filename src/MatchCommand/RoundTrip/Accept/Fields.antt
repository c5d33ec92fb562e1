-- ===== src/MatchCommand/RoundTrip/Accept/Fields.antt =====
-- What an acceptance can hold on the wire, and its counted list of profile ids
-- (common/match_command.go).
use wfc_server_private.MatchCommand.{ResvOk}
use wfc_server_private.MatchCommand.Decode.Accept.{pid_at, field_at}
use wfc_server_private.MatchCommand.Decode.Fields.{words_from}
use wfc_server_private.MatchCommand.Encode.{put_words}
use wfc_server_private.MatchCommand.Words.{
  put_le, le_at, be_at, slice_from, le_at-append, be_at-append, slice_from-append, le_at-put_le,
  length-put_le,
}
use wfc_server_private.Prelude.{
  ℕ, suc, ◌+◌, ◌*◌, ◌^◌, ◌≤◌, ◌<◌, ◌≡◌, refl, sym, subst, ◌∙◌, false, List, [], ◌∷◌, ◌++◌,
  append_assoc, arith, Bytes, length, All, length-append,
}
use wfc_server_private.Prelude.Outcome.{ok}

-- The values that the fields of an acceptance can have on the wire.
pub record IsResvOk (r : ResvOk) : Type 0 where
  pub max_players : r.max_players < 2 ^ 32
  pub sender_aid : r.sender_aid < 2 ^ 32
  pub profile_id : r.profile_id < 2 ^ 32
  pub public_ip : r.public_ip < 2 ^ 32
  pub public_port : r.public_port < 2 ^ 16
  pub local_ip : r.local_ip < 2 ^ 32
  pub local_port : r.local_port < 2 ^ 16
  pub unknown : r.unknown < 2 ^ 32
  pub local_player_count : r.local_player_count < 2 ^ 32
  pub group_id : r.group_id < 2 ^ 32
  pub receiver_new_aid : r.receiver_new_aid < 2 ^ 32
  pub client_count : r.client_count < 2 ^ 32
  pub resv_check_value : r.resv_check_value < 2 ^ 32
  pub profile_ids : All (λ v. v < 2 ^ 32) r.profile_ids

-- What version 90 does not send is zero.
pub record Carried90 (r : ResvOk) : Type 0 where
  pub profile_ids : r.profile_ids ≡ []
  pub is_friend : r.is_friend ≡ false

-- What version 11 does not send is zero.
pub record Carried11 (r : ResvOk) : Type 0 where
  pub profile_id : r.profile_id ≡ 0
  pub local_ip : r.local_ip ≡ 0
  pub local_port : r.local_port ≡ 0
  pub unknown : r.unknown ≡ 0
  pub local_player_count : r.local_player_count ≡ 0
  pub receiver_new_aid : r.receiver_new_aid ≡ 0
  pub resv_check_value : r.resv_check_value ≡ 0

-- What version 3 does not send is zero.
pub record Carried3 (r : ResvOk) : Type 0 where
  pub others : Carried11 r
  pub max_players : r.max_players ≡ 0
  pub sender_aid : r.sender_aid ≡ 0
  pub group_id : r.group_id ≡ 0
  pub is_friend : r.is_friend ≡ false

module _ (head rest : Bytes) (c k : ℕ) (size : length head ≡ 4 + c * 4) (small : c ≤ 29)
    (near : k ≤ 0x18) where
  field_offset : field_at c k ≡ length head + k
  unfolding field_at
  field_offset = omega arith

  pub le_field : le_at (head ++ rest) (field_at c k) ≡ le_at rest k
  le_field = le_at-append head rest k _ field_offset

  pub be_field : be_at (head ++ rest) (field_at c k) ≡ be_at rest k
  be_field = be_at-append head rest k _ field_offset

  pub slice_field : slice_from (head ++ rest) (field_at c k) ≡ slice_from rest k
  slice_field = slice_from-append head rest k _ field_offset

-- The list is read back word by word, each behind those before it.
pub words_from-put_words :
    (before : Bytes) (pids : List ℕ) (rest : Bytes) (i : ℕ)
    → length before ≡ 4 + i * 4
    → i + length pids ≤ 29
    → All (λ v. v < 2 ^ 32) pids
    → words_from pid_at (before ++ (put_words pids ++ rest)) (length pids) i ≡ ok pids
unfolding words_from put_words
words_from-put_words before [] rest i e n h = refl
words_from-put_words before (v ∷ vs) rest i e n h =
    let off : pid_at i ≡ length before + 0 = unfold pid_at in omega arith in
    let size : length (before ++ put_le v) ≡ 4 + suc i * 4 =
      omega (arith, length-append before (put_le v), length-put_le v) in
    let here : le_at (before ++ (put_le v ++ (put_words vs ++ rest))) (pid_at i) ≡ ok v =
      le_at-append before _ 0 _ off ∙ le_at-put_le v _ h.0 in
    let later : words_from pid_at (before ++ (put_le v ++ (put_words vs ++ rest))) (length vs)
          (suc i)
        ≡ ok vs =
      subst (λ w. words_from pid_at w (length vs) (suc i) ≡ ok vs)
        (append_assoc before (put_le v) _)
        (words_from-put_words (before ++ put_le v) vs rest (suc i) size (omega arith) h.1) in
    subst (λ w. words_from pid_at (before ++ w) (suc (length vs)) i ≡ ok (v ∷ vs))
      (sym (append_assoc (put_le v) (put_words vs) rest)) (rw (here, later))

pub length-put_words : (vs : List ℕ) → length (put_words vs) ≡ length vs * 4
unfolding put_words
length-put_words [] = refl
length-put_words (v ∷ vs) =
    omega (arith, length-append (put_le v) (put_words vs), length-put_le v, length-put_words vs)
