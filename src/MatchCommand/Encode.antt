-- ===== src/MatchCommand/Encode.antt =====
-- `EncodeMatchCommand` of common/match_command.go. A nil payload is a panic.
use wfc_server_private.Prelude.{
  ℕ, ◌%◌, Bool, not, ◌&&◌, ◌||◌, Option, none, some, List, [], ◌∷◌, ◌++◌, ◌==◌, if◌then◌else◌,
  Bytes, length,
}
use wfc_server_private.Prelude.Outcome.{Outcome, ok, panicked, ◌>>=◌, ◌>>◌, reject_if}
use wfc_server_private.MatchCommand.{
  match_reservation, match_resv_ok, match_resv_deny, match_resv_wait, match_resv_cancel,
  match_tell_addr, match_server_close_client, match_poll_timeout, match_poll_to_ack,
  match_suspend_match, Reservation, ResvOk, ResvDeny, TellAddr, SuspendMatch, MatchCommandData,
  known_version,
}
use wfc_server_private.MatchCommand.Words.{put_le, put_be}

-- a payload that the code dereferences
unfoldable pub deref {ℓ} : {A : Type ℓ} → Option A → Outcome A
deref none = panicked
deref (some a) = ok a

-- `if (len(message) & 3) != 0 { return []byte{}, false }`
unfoldable pub aligned : Bytes → Outcome Bytes
aligned message = do reject_if (not (length message % 4 == 0)); ok message

unfoldable pub flag_int : Bool → ℕ
flag_int b = if b then 1 else 0

unfoldable pub put_words : List ℕ → Bytes
put_words [] = []
put_words (v ∷ vs) = put_le v ++ put_words vs

-- what versions 11 and 90 write between the public port and the user data
unfoldable pub reservation_fields : ℕ → Reservation → Bytes
reservation_fields version r =
    if version == 11
    then put_le (flag_int r.is_friend) ++ put_le r.local_player_count
    else if version == 90
    then put_be r.local_ip
      ++ (put_le r.local_port
          ++ (put_le r.unknown
              ++ (put_le (flag_int r.is_friend)
                  ++ (put_le r.local_player_count ++ put_le r.resv_check_value))))
    else []

unfoldable pub encode_reservation : ℕ → Reservation → Outcome Bytes
encode_reservation version r =
    if version == 3 && not r.has_public_ip
    then ok (put_le r.match_type)
    else aligned (
        put_le r.match_type
        ++ (put_be r.public_ip
            ++ (put_le r.public_port ++ (reservation_fields version r ++ r.user_data))))

-- versions 3 and 11: the counted list, then the address
unfoldable pub resv_ok_head : ResvOk → Bytes
resv_ok_head r = put_le r.client_count ++ put_words r.profile_ids

unfoldable pub resv_ok_tail : ℕ → ResvOk → Bytes
resv_ok_tail version r =
    put_be r.public_ip
    ++ (put_le r.public_port
        ++ (if version == 3
            then r.user_data
            else put_le (flag_int r.is_friend)
              ++ (put_le r.sender_aid
                  ++ (put_le r.group_id ++ (put_le r.max_players ++ r.user_data)))))

unfoldable pub encode_resv_ok_counted : ℕ → ResvOk → Outcome Bytes
encode_resv_ok_counted version r = do
  reject_if (not (r.client_count == length r.profile_ids))
  aligned (resv_ok_head r ++ resv_ok_tail version r)

unfoldable pub encode_resv_ok_90 : ResvOk → Outcome Bytes
encode_resv_ok_90 r = aligned (
    put_le r.max_players
    ++ (put_le r.sender_aid
        ++ (put_le r.profile_id
            ++ (put_be r.public_ip
                ++ (put_le r.public_port
                    ++ (put_be r.local_ip
                        ++ (put_le r.local_port
                            ++ (put_le r.unknown
                                ++ (put_le r.local_player_count
                                    ++ (put_le r.group_id
                                        ++ (put_le r.receiver_new_aid
                                            ++ (put_le r.client_count
                                                ++ (put_le r.resv_check_value
                                                    ++ r.user_data)))))))))))))

unfoldable pub encode_resv_ok : ℕ → ResvOk → Outcome Bytes
encode_resv_ok version r =
    if version == 3 || version == 11 then encode_resv_ok_counted version r else encode_resv_ok_90 r

unfoldable pub encode_resv_deny : ResvDeny → Outcome Bytes
encode_resv_deny r =
    if not r.reason_specified then ok r.user_data else aligned (put_le r.reason ++ r.user_data)

unfoldable pub encode_tell_addr : TellAddr → Bytes
encode_tell_addr r = put_be r.local_ip ++ put_le r.local_port

unfoldable pub encode_suspend_match : SuspendMatch → Bytes
encode_suspend_match r =
    put_le r.host_profile_id
    ++ (put_le r.is_host_flag
        ++ (if r.short then [] else put_le r.suspend_value ++ put_le r.client_aid_value))

-- `switch command`
unfoldable pub encode_payload : ℕ → MatchCommandData → Outcome Bytes
encode_payload command d =
    if command == match_reservation
    then deref d.reservation >>= encode_reservation d.version
    else if command == match_resv_ok
    then deref d.resv_ok >>= encode_resv_ok d.version
    else if command == match_resv_deny
    then deref d.resv_deny >>= encode_resv_deny
    else if command == match_resv_wait
    then ok []
    else if command == match_resv_cancel
    then ok []
    else if command == match_tell_addr
    then (do r ← deref d.tell_addr; ok (encode_tell_addr r))
    else if command == match_server_close_client
    then (do r ← deref d.server_close_client; ok (put_words r.profile_ids))
    else if command == match_poll_timeout
    then ok []
    else if command == match_poll_to_ack
    then ok d.other
    else if command == match_suspend_match
    then (do r ← deref d.suspend_match; ok (encode_suspend_match r))
    else ok d.other

unfoldable pub encode_match_command : ℕ → MatchCommandData → Outcome Bytes
encode_match_command command d = do
  reject_if (not (known_version d.version))
  encode_payload command d
