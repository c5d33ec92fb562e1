-- ===== src/Gpcm/Invariant.antt =====
-- The handlers of gpcm/friend.go keep what every change of a session keeps that leaves its connection, its
-- profile, its login and its friend list as they are, and every change of the friend list that they make.
pub mod Sound
pub mod Status
pub mod Profile
pub mod Bestie
pub mod Packet
use wfc_server_private.GameSpy.{GameSpyCommand}
use wfc_server_private.Gpcm.{
  GameSpySession, Action, send_packet, reply_error, Trace, object, online, change, act, trace_of,
  err_add_friend, err_add_friend_bad_new, err_delete_friend, parse_uint32,
}
use wfc_server_private.Gpcm.Friend.{
  add_to_friends, authorize, revoke, forget, greet, make_mutual, meet, add_profile, add_friend,
  part, remove_profile, remove_friend,
}
use wfc_server_private.Gpcm.Lists.{is_in}
use wfc_server_private.Gpcm.Packet.{or_halt}
use wfc_server_private.Gpcm.Send.{
  bm, send_message_to_session, send_message_to_session_buffer, bm1_auth_message, log_out_message,
  is_bm1_auth_message_needed, record_status_sent, is_exploited, send_status, send_friend_status,
}
use wfc_server_private.Prelude.{
  ℕ, ◌≡◌, refl, Bool, false, not, ◌&&◌, some, [], ltb, ◌==◌, if◌then◌else◌, Bytes, str, str_eq,
  if_induction, option_induction, length,
}
use wfc_server_private.Prelude.Dict.{text_at}
use wfc_server_private.Prelude.Outcome.{Outcome}

-- The connection, the profile id, the login and the friend list stay.
abbrev pub IsSteady : (GameSpySession → GameSpySession) → Type 0
IsSteady f =
    (s : GameSpySession)
    → ((f s).conn_index ≡ s.conn_index)
      × ((f s).profile_id ≡ s.profile_id)
      × ((f s).logged_in ≡ s.logged_in)
      × ((f s).friend_list ≡ s.friend_list)

-- A property of runs that what is done outside of the sessions keeps, and every steady change.
pub record IsStable (Q : Trace → Type 0) : Type 0 where
  pub acts : (a : Action) (r : Trace) → Q r → Q (act a r)
  pub changes :
      (ref : ℕ) (f : GameSpySession → GameSpySession) (r : Trace)
      → IsSteady f
      → Q r
      → Q (change ref f r)

-- A property that the changes of the friend list of an object keep: whoever is added is another profile.
pub record IsListed (ref : ℕ) (Q : Trace → Type 0) : Type 0 where
  pub adds :
      (pid : ℕ) (g : GameSpySession) (r : Trace)
      → object ref r.state ≡ some g
      → (pid == g.profile_id) ≡ false
      → Q r
      → Q (change ref (add_to_friends pid) r)
  pub forgets : (pid : ℕ) (r : Trace) → Q r → Q (change ref (forget pid) r)

module _ (Q : Trace → Type 0) (stable : IsStable Q) where
  pub send-Stable :
      (msg_type : Bytes) (from : ℕ) (s : GameSpySession) (msg : Bytes) (r : Trace)
      → Q r
      → Q (send_message_to_session msg_type from s msg r)
  unfolding send_message_to_session
  send-Stable msg_type from s msg r h =
      stable.acts (send_packet s.conn_index (bm msg_type from msg)) r h

  pub buffer-Stable :
      (msg_type : Bytes) (from ref : ℕ) (msg : Bytes) (r : Trace)
      → Q r
      → Q (send_message_to_session_buffer msg_type from ref msg r)
  unfolding send_message_to_session_buffer
  buffer-Stable msg_type from ref msg r h = stable.changes ref _ r (λ s. (refl, refl, refl, refl)) h

  record_status_sent-IsSteady : (pid : ℕ) → IsSteady (record_status_sent pid)
  unfolding record_status_sent
  record_status_sent-IsSteady pid s =
      if_induction
        (λ (t : GameSpySession).
          (t.conn_index ≡ s.conn_index)
          × (t.profile_id ≡ s.profile_id)
          × (t.logged_in ≡ s.logged_in)
          × (t.friend_list ≡ s.friend_list))
        (is_in pid s.recv_status_from_list) _ _ (λ _. (refl, refl, refl, refl))
        (λ _. (refl, refl, refl, refl))

  pub authorize-Stable : (ref pid : ℕ) (r : Trace) → Q r → Q (change ref (authorize pid) r)
  unfolding authorize
  authorize-Stable ref pid r h = stable.changes ref _ r (λ s. (refl, refl, refl, refl)) h

  pub revoke-Stable : (ref pid : ℕ) (r : Trace) → Q r → Q (change ref (revoke pid) r)
  unfolding revoke
  revoke-Stable ref pid r h = stable.changes ref _ r (λ s. (refl, refl, refl, refl)) h

  pub record-Stable : (ref pid : ℕ) (r : Trace) → Q r → Q (change ref (record_status_sent pid) r)
  record-Stable ref pid r h =
      stable.changes ref (record_status_sent pid) r (record_status_sent-IsSteady pid) h

  pub send_status-Stable : (from to : GameSpySession) (r : Trace) → Q r → Q (send_status from to r)
  unfolding send_status
  send_status-Stable from to r h =
      if_induction Q (is_exploited to from.loc_string) _ _ (λ _. h)
        (λ _.
          send-Stable (str "100") from.profile_id to from.status _
            (record-Stable to.conn_index from.profile_id r h))

  pub send_friend_status-Stable : (ref pid : ℕ) (r : Trace) → Q r → Q (send_friend_status ref pid r)
  unfolding send_friend_status
  send_friend_status-Stable ref pid r h =
      option_induction Q (object ref r.state) _ _ (λ _. h)
        (λ g _.
          if_induction Q (not (is_in pid g.auth_friend_list)) _ _ (λ _. h)
            (λ _.
              option_induction Q (online pid r.state) _ _ (λ _. h)
                (λ s _.
                  if_induction Q (is_in g.profile_id s.friend_list) _ _
                    (λ _. send_status-Stable g s r h) (λ _. h))))

  -- the two messages to a new friend
  told-Stable :
      (s : GameSpySession) (from : ℕ) (r : Trace)
      → Q r
      → Q (
          if is_bm1_auth_message_needed s
          then send_message_to_session (str "1") from s bm1_auth_message r
          else r)
  told-Stable s from r h =
      if_induction Q (is_bm1_auth_message_needed s) _ _
        (λ _. send-Stable (str "1") from s bm1_auth_message r h) (λ _. h)

  greet-Stable :
      (ref : ℕ) (g newcomer : GameSpySession) (r : Trace) → Q r → Q (greet ref g newcomer r)
  unfolding greet
  greet-Stable ref g newcomer r h =
      send_friend_status-Stable ref newcomer.profile_id _
        (told-Stable newcomer g.profile_id _ (send-Stable (str "4") g.profile_id newcomer [] r h))

  make_mutual-Stable :
      (ref pid : ℕ) (g newcomer : GameSpySession) (b : Bool) (r : Trace)
      → Q r
      → Q (make_mutual ref pid g newcomer b r)
  unfolding make_mutual
  make_mutual-Stable ref pid g newcomer b r h =
      let listed =
        if b
        then r
        else change newcomer.conn_index (authorize g.profile_id) (change ref (authorize pid) r) in
      let listed_h : Q listed =
        if_induction Q b _ _ (λ _. h)
          (λ _.
            authorize-Stable newcomer.conn_index g.profile_id _ (authorize-Stable ref pid r h)) in
      let told = send_message_to_session_buffer (str "4") newcomer.profile_id ref [] listed in
      let told_h : Q told = buffer-Stable (str "4") newcomer.profile_id ref [] listed listed_h in
      let twice =
        if is_bm1_auth_message_needed g
        then send_message_to_session_buffer (str "1") newcomer.profile_id ref bm1_auth_message told
        else told in
      let twice_h : Q twice =
        if_induction Q (is_bm1_auth_message_needed g) _ _
          (λ _. buffer-Stable (str "1") newcomer.profile_id ref bm1_auth_message told told_h)
          (λ _. told_h) in
      send_friend_status-Stable newcomer.conn_index g.profile_id _ (
        if_induction Q (is_in g.profile_id newcomer.friend_list && not g.open_host) _ _
          (λ _. greet-Stable ref g newcomer twice twice_h) (λ _. twice_h))

  add_profile-Stable :
      (ref pid : ℕ) (g : GameSpySession) (r : Trace)
      → IsListed ref Q
      → object ref r.state ≡ some g
      → (pid == g.profile_id) ≡ false
      → Q r
      → Q (add_profile ref pid g r)
  unfolding add_profile meet
  add_profile-Stable ref pid g r listed stored other h =
      let added = change ref (add_to_friends pid) r in
      let added_h : Q added = listed.adds pid g r stored other h in
      if_induction Q (not g.open_host && is_in pid g.auth_friend_list) _ _ (λ _. h)
        (λ _.
          option_induction Q (online pid added.state) _ _ (λ _. added_h)
            (λ s _.
              if_induction Q (not (str_eq s.game_name g.game_name)) _ _ (λ _. added_h)
                (λ _.
                  if_induction Q (not s.open_host && not (is_in g.profile_id s.friend_list)) _ _
                    (λ _. added_h)
                    (λ _.
                      make_mutual-Stable ref pid g s (is_in pid g.auth_friend_list) added
                        added_h))))

  -- what a handler leaves that can panic before it changes anything
  pub add_friend-Stable :
      (ref : ℕ) (command : GameSpyCommand) (r : Trace)
      → IsListed ref Q
      → Q r
      → Q (trace_of (or_halt r (add_friend ref command r)))
  unfolding add_friend
  add_friend-Stable ref command r listed h =
      let P : Outcome Trace → Type 0 = λ o. Q (trace_of (or_halt r o)) in
      option_induction P (object ref r.state) _ _ (λ _. h)
        (λ g stored.
          option_induction P (parse_uint32 (text_at (str "newprofileid") command.other_values)) _ _
            (λ _. stable.acts (reply_error ref err_add_friend) r h)
            (λ pid _.
              if_induction P (pid == g.profile_id) _ _
                (λ _. stable.acts (reply_error ref err_add_friend_bad_new) r h)
                (λ other.
                  if_induction P (ltb (length g.gsbr_code) 4) _ _ (λ _. h)
                    (λ _. add_profile-Stable ref pid g r listed stored other h))))

  pub remove_friend-Stable :
      (ref : ℕ) (command : GameSpyCommand) (r : Trace)
      → IsListed ref Q
      → Q r
      → Q (trace_of (or_halt r (remove_friend ref command r)))
  unfolding remove_friend remove_profile part
  remove_friend-Stable ref command r listed h =
      let P : Outcome Trace → Type 0 = λ o. Q (trace_of (or_halt r o)) in
      option_induction P (object ref r.state) _ _ (λ _. h)
        (λ g _.
          option_induction P (parse_uint32 (text_at (str "delprofileid") command.other_values)) _ _
            (λ _. stable.acts (reply_error ref err_delete_friend) r h)
            (λ pid _.
              if_induction P (ltb (length g.gsbr_code) 4) _ _ (λ _. h)
                (λ _.
                  let forgotten = change ref (forget pid) r in
                  let f_h : Q forgotten = listed.forgets pid r h in
                  let revoked = change ref (revoke pid) forgotten in
                  let r_h : Q revoked = revoke-Stable ref pid forgotten f_h in
                  if_induction Q g.open_host _ _ (λ _. f_h)
                    (λ _.
                      option_induction Q (online pid revoked.state) _ _ (λ _. r_h)
                        (λ s _.
                          if_induction Q (is_in g.profile_id s.auth_friend_list) _ _
                            (λ _.
                              send-Stable (str "100") g.profile_id s log_out_message revoked r_h)
                            (λ _. r_h))))))
