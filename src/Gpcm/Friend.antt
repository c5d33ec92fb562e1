-- ===== src/Gpcm/Friend.antt =====
-- gpcm/friend.go: friend lists. A friend is added by one side; once both have added each other, each is
-- authorized by the other.
pub mod Mutual
use wfc_server_private.GameSpy.{GameSpyCommand}
use wfc_server_private.Gpcm.{
  GameSpySession, reply_error, Trace, object, online, change, act, err_add_friend,
  err_add_friend_bad_new, err_delete_friend, parse_uint32,
}
use wfc_server_private.Gpcm.Lists.{is_in, drop_friend}
use wfc_server_private.Gpcm.Send.{
  send_message_to_session, send_message_to_session_buffer, bm1_auth_message, log_out_message,
  is_bm1_auth_message_needed, send_friend_status,
}
use wfc_server_private.Prelude.{
  ℕ, Bool, not, ◌&&◌, none, some, [], ◌∷◌, ◌++◌, ltb, ◌==◌, if◌then◌else◌, str, str_eq, length,
}
use wfc_server_private.Prelude.Dict.{text_at}
use wfc_server_private.Prelude.Outcome.{Outcome, ok, panicked}

-- `g.FriendList = append(…)` unless the profile id is there, and `g.AuthFriendList = append(…)`
unfoldable pub add_to_friends : ℕ → GameSpySession → GameSpySession
unfolding is_in
add_to_friends profile_id g =
    if is_in profile_id g.friend_list
    then g
    else record g { friend_list = g.friend_list ++ (profile_id ∷ []) }

unfoldable pub authorize : ℕ → GameSpySession → GameSpySession
authorize profile_id g = record g { auth_friend_list = g.auth_friend_list ++ (profile_id ∷ []) }

unfoldable pub revoke : ℕ → GameSpySession → GameSpySession
unfolding drop_friend
revoke profile_id g = record g { auth_friend_list = drop_friend profile_id g.auth_friend_list }

unfoldable pub forget : ℕ → GameSpySession → GameSpySession
unfolding drop_friend
forget profile_id g = record g { friend_list = drop_friend profile_id g.friend_list }

-- the messages to `newcomer` where it has added the sender, and the sender is no open host
unfoldable pub greet : ℕ → GameSpySession → GameSpySession → Trace → Trace
unfolding send_message_to_session is_bm1_auth_message_needed send_friend_status
greet ref g newcomer r =
    let first_message = send_message_to_session (str "4") g.profile_id newcomer [] r in
    let second_message =
      if is_bm1_auth_message_needed newcomer
      then send_message_to_session (str "1") g.profile_id newcomer bm1_auth_message first_message
      else first_message in
    send_friend_status ref newcomer.profile_id second_message

-- "Friends are now mutual!"
unfoldable pub make_mutual : ℕ → ℕ → GameSpySession → GameSpySession → Bool → Trace → Trace
unfolding change authorize send_message_to_session_buffer is_bm1_auth_message_needed is_in greet
    send_friend_status
make_mutual ref new_profile_id g newcomer authorized r =
    let listed =
      if authorized
      then r
      else change newcomer.conn_index (authorize g.profile_id)
          (change ref (authorize new_profile_id) r) in
    let told = send_message_to_session_buffer (str "4") newcomer.profile_id ref [] listed in
    let told_twice =
      if is_bm1_auth_message_needed g
      then send_message_to_session_buffer (str "1") newcomer.profile_id ref bm1_auth_message told
      else told in
    let greeted =
      if is_in g.profile_id newcomer.friend_list && not g.open_host
      then greet ref g newcomer told_twice
      else told_twice in
    send_friend_status newcomer.conn_index g.profile_id greeted

-- "Check if destination has added the sender"
unfoldable pub meet : ℕ → ℕ → GameSpySession → Bool → Trace → Trace
unfolding online is_in make_mutual
meet ref new_profile_id g authorized r = elim (online new_profile_id r.state) [
  | none ↦ r
  | some newcomer ↦
      if not (str_eq newcomer.game_name g.game_name)
      then r
      else if not newcomer.open_host && not (is_in g.profile_id newcomer.friend_list)
      then r
      else make_mutual ref new_profile_id g newcomer authorized r
]

-- what addFriend does with a valid profile id
unfoldable pub add_profile : ℕ → ℕ → GameSpySession → Trace → Trace
unfolding is_in change add_to_friends meet
add_profile ref new_profile_id g r =
    let authorized = is_in new_profile_id g.auth_friend_list in
    if not g.open_host && authorized
    then r
    else meet ref new_profile_id g authorized (change ref (add_to_friends new_profile_id) r)

-- addFriend; `g.User.GsbrCode[:4]` can be out of bounds
unfoldable pub add_friend : ℕ → GameSpyCommand → Trace → Outcome Trace
unfolding object parse_uint32 text_at act add_profile
add_friend ref command r = elim (object ref r.state) [
  | none ↦ ok r
  | some g ↦ elim (parse_uint32 (text_at (str "newprofileid") command.other_values)) [
    | none ↦ ok (act (reply_error ref err_add_friend) r)
    | some new_profile_id ↦
        if new_profile_id == g.profile_id
        then ok (act (reply_error ref err_add_friend_bad_new) r)
        else if ltb (length g.gsbr_code) 4
        then panicked
        else ok (add_profile ref new_profile_id g r)
  ]
]

-- the part of removeFriend for a sender that is no open host
unfoldable pub part : ℕ → ℕ → GameSpySession → Trace → Trace
unfolding change revoke online is_in send_message_to_session
part ref del_profile_id g r =
    let revoked = change ref (revoke del_profile_id) r in
    elim (online del_profile_id revoked.state) [
      | none ↦ revoked
      | some session ↦
          if is_in g.profile_id session.auth_friend_list
          then send_message_to_session (str "100") g.profile_id session log_out_message revoked
          else revoked
    ]

unfoldable pub remove_profile : ℕ → ℕ → GameSpySession → Trace → Trace
unfolding change forget part
remove_profile ref del_profile_id g r =
    let forgotten = change ref (forget del_profile_id) r in
    if g.open_host then forgotten else part ref del_profile_id g forgotten

-- removeFriend
unfoldable pub remove_friend : ℕ → GameSpyCommand → Trace → Outcome Trace
unfolding object parse_uint32 text_at act remove_profile
remove_friend ref command r = elim (object ref r.state) [
  | none ↦ ok r
  | some g ↦ elim (parse_uint32 (text_at (str "delprofileid") command.other_values)) [
    | none ↦ ok (act (reply_error ref err_delete_friend) r)
    | some del_profile_id ↦
        if ltb (length g.gsbr_code) 4 then panicked else ok (remove_profile ref del_profile_id g r)
  ]
]
