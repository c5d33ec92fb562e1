-- ===== src/Gpcm/Send/Shown.antt =====
-- To whom sendFriendStatus of gpcm/friend.go sends a status.
use wfc_server_private.Gpcm.{
  GameSpySession, Action, send_packet, Gpcm, Trace, object, online, act, begin,
}
use wfc_server_private.Gpcm.Lists.{is_in}
use wfc_server_private.Gpcm.Send.{
  bm, send_message_to_session, record_status_sent, is_exploited, send_status, send_friend_status,
}
use wfc_server_private.Gpcm.Store.{change-actions}
use wfc_server_private.Prelude.{
  ℕ, ◌≡◌, sym, ap, ◌∙◌, not, ◌&&◌, some, List, [], ◌∷◌, ◌++◌, arith, if◌then◌else◌, str,
  if_induction, if_yes, if_no,
}

-- To a player who is online a status is sent exactly if the sender authorizes the player, the player has added
-- the sender, and the place of the sender does not exploit the player's game; nothing else is done outside of the
-- sessions.
pub send_friend_status-actions :
    (ref pid : ℕ) (state : Gpcm) (g dest : GameSpySession)
    → object ref state ≡ some g
    → online pid state ≡ some dest
    → (send_friend_status ref pid (begin state)).actions ≡ (
        if is_in pid g.auth_friend_list
          && (is_in g.profile_id dest.friend_list && not (is_exploited dest g.loc_string))
        then send_packet dest.conn_index (bm (str "100") g.profile_id g.status) ∷ []
        else [])
unfolding send_friend_status send_status send_message_to_session act
send_friend_status-actions ref pid state g dest e found =
    let sent : List Action =
      send_packet dest.conn_index (bm (str "100") g.profile_id g.status) ∷ [] in
    let told =
      is_in pid g.auth_friend_list
      && (is_in g.profile_id dest.friend_list && not (is_exploited dest g.loc_string)) in
    let Q : Trace → Type 0 = λ r. r.actions ≡ (if told then sent else []) in
    rw (e, send_friend_status)
      (if_induction Q (not (is_in pid g.auth_friend_list)) _ _
        (λ stranger. sym (if_no told sent [] (ground (arith, stranger))))
        (λ friend.
          rw (found, send_friend_status)
            (if_induction Q (is_in g.profile_id dest.friend_list) _ _
              (λ added.
                if_induction Q (is_exploited dest g.loc_string) _ _
                  (λ harmful. sym (if_no told sent [] (ground (arith, harmful))))
                  (λ harmless.
                    ap (λ (l : List Action). l ++ sent)
                      (change-actions dest.conn_index (record_status_sent g.profile_id)
                        (begin state))
                    ∙ sym (if_yes told sent [] (ground (arith, friend, added, harmless)))))
              (λ apart. sym (if_no told sent [] (ground (arith, apart)))))))
