-- ===== src/Gpcm/Send.antt =====
-- The messages of gpcm/friend.go from one session to another.
pub mod Shown
use wfc_server_private.GameSpy.{has_prefix, create_gamespy_message}
use wfc_server_private.Gpcm.{GameSpySession, send_packet, Trace, object, online, change, act}
use wfc_server_private.Gpcm.Lists.{is_in}
use wfc_server_private.Prelude.{
  ℕ, Bool, not, ◌&&◌, ◌||◌, none, some, [], ◌∷◌, ◌++◌, ltb, ◌==◌, if◌then◌else◌, Bytes, str, str_eq,
  length,
}
use wfc_server_private.Prelude.Decimal.{decimal}

-- `bm` with its type, its sender and its text
unfoldable pub bm : Bytes → ℕ → Bytes → Bytes
unfolding create_gamespy_message decimal
bm msg_type from msg = create_gamespy_message (record {
  command = str "bm";
  command_value = msg_type;
  other_values = (str "f", decimal from) ∷ (str "msg", msg) ∷ [];
})

-- sendMessageToSession
unfoldable pub send_message_to_session : Bytes → ℕ → GameSpySession → Bytes → Trace → Trace
unfolding act
send_message_to_session msg_type from session msg r =
    act (send_packet session.conn_index (bm msg_type from msg)) r

-- sendMessageToSessionBuffer
unfoldable pub send_message_to_session_buffer : Bytes → ℕ → ℕ → Bytes → Trace → Trace
unfolding change
send_message_to_session_buffer msg_type from ref msg r =
    change ref (λ s. record s { write_buffer = s.write_buffer ++ bm msg_type from msg }) r

abbrev pub bm1_auth_message : Bytes
bm1_auth_message = str "I have authorized your request to add me to your list"

abbrev pub log_out_message : Bytes
log_out_message = str "|s|0|ss|Offline|ls||ip|0|p|0|qm|0"

-- isBm1AuthMessageNeeded
unfoldable pub is_bm1_auth_message_needed : GameSpySession → Bool
is_bm1_auth_message_needed g =
    g.unit_code == 0
    || (g.unit_code == 0xFF
        || (str_eq g.game_name (str "jissenpachwii")
            || (str_eq g.game_name (str "drmariowii") || str_eq g.game_name (str "pokebattlewii"))))

-- recordStatusSent
unfoldable pub record_status_sent : ℕ → GameSpySession → GameSpySession
unfolding is_in
record_status_sent sender s =
    if is_in sender s.recv_status_from_list
    then s
    else record s { recv_status_from_list = s.recv_status_from_list ++ (sender ∷ []) }

-- the stack overflow exploit of Mario Kart Wii: whether `to` is open to it by the text `loc_string`
unfoldable pub is_exploited : GameSpySession → Bytes → Bool
unfolding has_prefix
is_exploited to loc_string =
    to.needs_exploit && (has_prefix (str "RMC") to.game_code && ltb 0x14 (length loc_string))

-- the status of `from` to the session `to`, unless it is open to the exploit by it
unfoldable pub send_status : GameSpySession → GameSpySession → Trace → Trace
unfolding is_exploited record_status_sent change send_message_to_session
send_status from to r =
    if is_exploited to from.loc_string
    then r
    else send_message_to_session (str "100") from.profile_id to from.status
        (change to.conn_index (record_status_sent from.profile_id) r)

-- sendFriendStatus of the object `ref`
unfoldable pub send_friend_status : ℕ → ℕ → Trace → Trace
unfolding object online is_in send_status
send_friend_status ref profile_id r = elim (object ref r.state) [
  | none ↦ r
  | some g ↦
      if not (is_in profile_id g.auth_friend_list) then r else elim (online profile_id r.state) [
        | none ↦ r
        | some session ↦
            if is_in g.profile_id session.friend_list then send_status g session r else r
      ]
]
