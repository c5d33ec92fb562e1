-- ===== src/Gpcm/Status.antt =====
-- The statuses of gpcm/friend.go: who is told of them, and when a player leaves.
use wfc_server_private.GameSpy.{GameSpyCommand}
use wfc_server_private.Gpcm.{
  GameSpySession, reply_error, kick_player, status_update, Trace, object, session_of, online,
  change, act, err_auth_add_bad_from, parse_uint32,
}
use wfc_server_private.Gpcm.Friend.{authorize, revoke}
use wfc_server_private.Gpcm.Lists.{is_in}
use wfc_server_private.Gpcm.Send.{
  send_message_to_session, send_message_to_session_buffer, bm1_auth_message, log_out_message,
  is_bm1_auth_message_needed, record_status_sent, is_exploited, send_status, send_friend_status,
}
use wfc_server_private.Prelude.{
  ℕ, Bool, true, false, not, ◌&&◌, ◌||◌, none, some, List, [], ◌∷◌, ◌++◌, if◌then◌else◌, Bytes, str,
  str_eq,
}
use wfc_server_private.Prelude.Dict.{text_at}

-- the second half of exchangeFriendStatus: the friend's status to the sender
unfoldable pub take_status : ℕ → ℕ → GameSpySession → Trace → Trace
unfolding object is_in is_exploited change record_status_sent send_message_to_session_buffer
take_status ref profile_id session r = elim (object ref r.state) [
  | none ↦ r
  | some g ↦
      if not (is_in profile_id g.friend_list && is_in profile_id g.auth_friend_list)
        || is_exploited g session.loc_string
      then r
      else send_message_to_session_buffer (str "100") profile_id ref session.status
          (change ref (record_status_sent profile_id) r)
]

-- exchangeFriendStatus; the exploit test of the first half ends the function
unfoldable pub exchange_friend_status : ℕ → ℕ → GameSpySession → Trace → Trace
unfolding online is_in is_exploited send_status take_status
exchange_friend_status ref profile_id g r = elim (online profile_id r.state) [
  | none ↦ r
  | some session ↦
      if is_in g.profile_id session.friend_list && is_in g.profile_id session.auth_friend_list
      then (if is_exploited session g.loc_string
          then r
          else take_status ref profile_id session (send_status g session r))
      else take_status ref profile_id session r
]

-- authAddFriend
unfoldable pub auth_add_friend : ℕ → GameSpyCommand → Trace → Trace
unfolding object parse_uint32 text_at act is_in exchange_friend_status
auth_add_friend ref command r = elim (object ref r.state) [
  | none ↦ r
  | some g ↦ elim (parse_uint32 (text_at (str "fromprofileid") command.other_values)) [
    | none ↦ act (reply_error ref err_auth_add_bad_from) r
    | some from_profile_id ↦
        if is_in from_profile_id g.auth_friend_list
        then exchange_friend_status ref from_profile_id g r
        else act (reply_error ref err_auth_add_bad_from) r
  ]
]

-- the body of the loop of openHostEnabled
unfoldable pub host_for : ℕ → GameSpySession → Bool → GameSpySession → Trace → Trace
unfolding is_in change authorize send_message_to_session is_bm1_auth_message_needed
    send_friend_status
host_for ref g tell session r =
    let listed =
      change ref (authorize session.profile_id)
        (change session.conn_index (authorize g.profile_id) r) in
    let told = send_message_to_session (str "4") g.profile_id session [] listed in
    let told_twice =
      if is_bm1_auth_message_needed session
      then send_message_to_session (str "1") g.profile_id session bm1_auth_message told
      else told in
    if session.logged_in
      && (is_in g.profile_id session.friend_list
          && not (is_in g.profile_id session.auth_friend_list))
    then (if tell
        then send_friend_status session.conn_index g.profile_id told_twice
        else told_twice)
    else r

-- openHostEnabled; `pids` is the order in which the map `sessions` is iterated
unfoldable pub open_host_enabled : ℕ → GameSpySession → Bool → List ℕ → Trace → Trace
unfolding session_of host_for
open_host_enabled ref g tell [] r = r
open_host_enabled ref g tell (pid ∷ pids) r =
    open_host_enabled ref g tell pids
      (elim (session_of pid r.state) [ none ↦ r | some session ↦ host_for ref g tell session r ])

-- the last loop of setStatus
unfoldable pub send_to_all : ℕ → List ℕ → Trace → Trace
unfolding send_friend_status
send_to_all ref [] r = r
send_to_all ref (stored_pid ∷ pids) r = send_to_all ref pids (send_friend_status ref stored_pid r)

unfoldable pub status_message : Bytes → Bytes → Bytes → Bytes
status_message status stat_string loc_string =
    str "|s|"
    ++ (status
        ++ (str "|ss|" ++ (stat_string ++ (str "|ls|" ++ (loc_string ++ str "|ip|0|p|0|qm|0")))))

-- what setStatus does after the mutex is locked
unfoldable pub publish : ℕ → GameSpySession → Bytes → Bytes → Bytes → List ℕ → Trace → Trace
unfolding change open_host_enabled object send_to_all act
publish ref g status loc_string status_msg pids r =
    let kicked =
      if str_eq status (str "3") && g.restricted
      then act (kick_player g.profile_id (str "restricted_join")) r
      else r in
    let noted =
      change ref (λ s. record s { loc_string = loc_string; status = status_msg }) kicked in
    let hosted =
      if not g.status_set && g.open_host then open_host_enabled ref g false pids noted else noted in
    let done = change ref (λ s. record s { status_set = true }) hosted in
    elim (object ref done.state) [ none ↦ done | some s ↦ send_to_all ref s.auth_friend_list done ]

-- setStatus
unfoldable pub set_status : ℕ → List ℕ → GameSpyCommand → Trace → Trace
unfolding object text_at act publish status_message
set_status ref pids command r = elim (object ref r.state) [
  | none ↦ r
  | some g ↦
      let status = command.command_value in
      let loc_string = text_at (str "locstring") command.other_values in
      publish ref g status loc_string
        (status_message status (text_at (str "statstring") command.other_values) loc_string) pids
        (act (status_update g.profile_id g.qr2_ip status) r)
]

-- the body of the loop of sendLogoutStatus
unfoldable pub part_from : GameSpySession → ℕ → Trace → Trace
unfolding online is_in change revoke send_message_to_session
part_from g stored_pid r = elim (online stored_pid r.state) [
  | none ↦ r
  | some session ↦
      if is_in g.profile_id session.auth_friend_list
      then send_message_to_session (str "100") g.profile_id session log_out_message
          (change session.conn_index (revoke g.profile_id) r)
      else r
]

unfoldable pub part_from_all : GameSpySession → List ℕ → Trace → Trace
unfolding part_from
part_from_all g [] r = r
part_from_all g (stored_pid ∷ pids) r = part_from_all g pids (part_from g stored_pid r)

-- sendLogoutStatus
unfoldable pub send_logout_status : ℕ → Trace → Trace
unfolding object part_from_all
send_logout_status ref r = elim (object ref r.state) [
  | none ↦ r
  | some g ↦ part_from_all g g.auth_friend_list r
]
