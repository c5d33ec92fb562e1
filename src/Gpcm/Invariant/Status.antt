-- ===== src/Gpcm/Invariant/Status.antt =====
-- The statuses and the open hosts of gpcm/friend.go keep what every steady change keeps.
use wfc_server_private.GameSpy.{GameSpyCommand}
use wfc_server_private.Gpcm.{
  GameSpySession, reply_error, kick_player, status_update, Trace, object, session_of, online,
  change, act, Run, trace_of, err_auth_add_bad_from, parse_uint32,
}
use wfc_server_private.Gpcm.Bestie.{Services}
use wfc_server_private.Gpcm.Friend.{authorize}
use wfc_server_private.Gpcm.Invariant.{
  IsStable, send-Stable, buffer-Stable, authorize-Stable, revoke-Stable, record-Stable,
  send_status-Stable, send_friend_status-Stable,
}
use wfc_server_private.Gpcm.Lists.{is_in}
use wfc_server_private.Gpcm.OpenHost.{
  at, cut_off, leave, disable_loop, open_host_disabled, switch_host, update_user, update_profile,
}
use wfc_server_private.Gpcm.Send.{
  send_message_to_session, bm1_auth_message, log_out_message, is_bm1_auth_message_needed,
  is_exploited,
}
use wfc_server_private.Gpcm.Status.{
  take_status, exchange_friend_status, auth_add_friend, host_for, open_host_enabled, send_to_all,
  status_message, publish, set_status, part_from,
}
use wfc_server_private.Prelude.{
  ℕ, zero, suc, refl, Bool, true, false, not, ◌&&◌, ◌||◌, List, [], ◌∷◌, ◌++◌, if◌then◌else◌, str,
  str_eq, if_induction, option_induction, length,
}
use wfc_server_private.Prelude.Dict.{lookup, text_at}

module _ (Q : Trace → Type 0) (stable : IsStable Q) where
  take_status-Stable :
      (ref pid : ℕ) (s : GameSpySession) (r : Trace) → Q r → Q (take_status ref pid s r)
  unfolding take_status
  take_status-Stable ref pid s r h =
      option_induction Q (object ref r.state) _ _ (λ _. h)
        (λ g _.
          if_induction Q
            (not (is_in pid g.friend_list && is_in pid g.auth_friend_list)
              || is_exploited g s.loc_string)
            _ _ (λ _. h)
            (λ _.
              buffer-Stable Q stable (str "100") pid ref s.status _
                (record-Stable Q stable ref pid r h)))

  exchange-Stable :
      (ref pid : ℕ) (g : GameSpySession) (r : Trace) → Q r → Q (exchange_friend_status ref pid g r)
  unfolding exchange_friend_status
  exchange-Stable ref pid g r h =
      option_induction Q (online pid r.state) _ _ (λ _. h)
        (λ s _.
          if_induction Q (is_in g.profile_id s.friend_list && is_in g.profile_id s.auth_friend_list)
            _ _
            (λ _.
              if_induction Q (is_exploited s g.loc_string) _ _ (λ _. h)
                (λ _. take_status-Stable ref pid s _ (send_status-Stable Q stable g s r h)))
            (λ _. take_status-Stable ref pid s r h))

  pub auth_add_friend-Stable :
      (ref : ℕ) (command : GameSpyCommand) (r : Trace) → Q r → Q (auth_add_friend ref command r)
  unfolding auth_add_friend
  auth_add_friend-Stable ref command r h =
      option_induction Q (object ref r.state) _ _ (λ _. h)
        (λ g _.
          option_induction Q (parse_uint32 (text_at (str "fromprofileid") command.other_values)) _ _
            (λ _. stable.acts (reply_error ref err_auth_add_bad_from) r h)
            (λ pid _.
              if_induction Q (is_in pid g.auth_friend_list) _ _ (λ _. exchange-Stable ref pid g r h)
                (λ _. stable.acts (reply_error ref err_auth_add_bad_from) r h)))

  host_for-Stable :
      (ref : ℕ) (g : GameSpySession) (tell : Bool) (s : GameSpySession) (r : Trace)
      → Q r
      → Q (host_for ref g tell s r)
  unfolding host_for
  host_for-Stable ref g tell s r h =
      let listed =
        change ref (authorize s.profile_id) (change s.conn_index (authorize g.profile_id) r) in
      let listed_h : Q listed =
        authorize-Stable Q stable ref s.profile_id _
          (authorize-Stable Q stable s.conn_index g.profile_id r h) in
      let told = send_message_to_session (str "4") g.profile_id s [] listed in
      let told_h : Q told = send-Stable Q stable (str "4") g.profile_id s [] listed listed_h in
      let twice =
        if is_bm1_auth_message_needed s
        then send_message_to_session (str "1") g.profile_id s bm1_auth_message told
        else told in
      let twice_h : Q twice =
        if_induction Q (is_bm1_auth_message_needed s) _ _
          (λ _. send-Stable Q stable (str "1") g.profile_id s bm1_auth_message told told_h)
          (λ _. told_h) in
      if_induction Q
        (s.logged_in
          && (is_in g.profile_id s.friend_list && not (is_in g.profile_id s.auth_friend_list)))
        _ _
        (λ _.
          if_induction Q tell _ _
            (λ _. send_friend_status-Stable Q stable s.conn_index g.profile_id twice twice_h)
            (λ _. twice_h))
        (λ _. h)

  pub open_host_enabled-Stable :
      (ref : ℕ) (g : GameSpySession) (tell : Bool) (pids : List ℕ) (r : Trace)
      → Q r
      → Q (open_host_enabled ref g tell pids r)
  unfolding open_host_enabled
  open_host_enabled-Stable ref g tell [] r h = h
  open_host_enabled-Stable ref g tell (pid ∷ pids) r h =
      open_host_enabled-Stable ref g tell pids _ (
        option_induction Q (session_of pid r.state) r (λ s. host_for ref g tell s r) (λ _. h)
          (λ s _. host_for-Stable ref g tell s r h))

  send_to_all-Stable : (ref : ℕ) (pids : List ℕ) (r : Trace) → Q r → Q (send_to_all ref pids r)
  unfolding send_to_all
  send_to_all-Stable ref [] r h = h
  send_to_all-Stable ref (pid ∷ pids) r h =
      send_to_all-Stable ref pids _ (send_friend_status-Stable Q stable ref pid r h)

  pub set_status-Stable :
      (ref : ℕ) (pids : List ℕ) (command : GameSpyCommand) (r : Trace)
      → Q r
      → Q (set_status ref pids command r)
  unfolding set_status publish
  set_status-Stable ref pids command r h =
      option_induction Q (object ref r.state) _ _ (λ _. h)
        (λ g _.
          let status = command.command_value in
          let loc_string = text_at (str "locstring") command.other_values in
          let status_msg =
            status_message status (text_at (str "statstring") command.other_values) loc_string in
          let seen = act (status_update g.profile_id g.qr2_ip status) r in
          let seen_h : Q seen = stable.acts (status_update g.profile_id g.qr2_ip status) r h in
          let kicked =
            if str_eq status (str "3") && g.restricted
            then act (kick_player g.profile_id (str "restricted_join")) seen
            else seen in
          let kicked_h : Q kicked =
            if_induction Q (str_eq status (str "3") && g.restricted) _ _
              (λ _. stable.acts (kick_player g.profile_id (str "restricted_join")) seen seen_h)
              (λ _. seen_h) in
          let noted =
            change ref (λ s. record s { loc_string = loc_string; status = status_msg }) kicked in
          let noted_h : Q noted =
            stable.changes ref _ kicked (λ s. (refl, refl, refl, refl)) kicked_h in
          let hosted =
            if not g.status_set && g.open_host
            then open_host_enabled ref g false pids noted
            else noted in
          let hosted_h : Q hosted =
            if_induction Q (not g.status_set && g.open_host) _ _
              (λ _. open_host_enabled-Stable ref g false pids noted noted_h) (λ _. noted_h) in
          let done = change ref (λ s. record s { status_set = true }) hosted in
          let done_h : Q done =
            stable.changes ref _ hosted (λ s. (refl, refl, refl, refl)) hosted_h in
          option_induction Q (object ref done.state) _ _ (λ _. done_h)
            (λ s _. send_to_all-Stable ref s.auth_friend_list done done_h))

  part_from-Stable : (g : GameSpySession) (pid : ℕ) (r : Trace) → Q r → Q (part_from g pid r)
  unfolding part_from
  part_from-Stable g pid r h =
      option_induction Q (online pid r.state) _ _ (λ _. h)
        (λ s _.
          if_induction Q (is_in g.profile_id s.auth_friend_list) _ _
            (λ _.
              send-Stable Q stable (str "100") g.profile_id s log_out_message _
                (revoke-Stable Q stable s.conn_index g.profile_id r h))
            (λ _. h))

  disable_loop-Stable :
      (ref i n : ℕ) (tail : List ℕ) (r : Trace) → Q r → Q (disable_loop ref i n tail r)
  unfolding disable_loop leave
  disable_loop-Stable ref i zero tail r h = h
  disable_loop-Stable ref i (suc n) tail r h =
      option_induction Q (object ref r.state) _ _ (λ _. h)
        (λ g _.
          option_induction Q (at (g.auth_friend_list ++ tail) i) _ _ (λ _. h)
            (λ id _.
              if_induction Q (is_in id g.friend_list) _ _ (λ _. h)
                (λ _.
                  disable_loop-Stable ref (suc i) n (cut_off id g.auth_friend_list ++ tail) _
                    (part_from-Stable g id _ (revoke-Stable Q stable ref id r h)))))

  switch_host-Stable :
      (ref : ℕ) (pids : List ℕ) (g : GameSpySession) (command : GameSpyCommand) (r : Trace)
      → Q r
      → Q (switch_host ref pids g command r)
  unfolding switch_host open_host_disabled
  switch_host-Stable ref pids g command r h =
      option_induction Q (lookup (str "wwfc_openhost") command.other_values) _ _ (λ _. h)
        (λ open_host _.
          let enabled = not (str_eq open_host (str "0")) in
          if_induction Q (not g.open_host && enabled) _ _
            (λ _. open_host_enabled-Stable ref g true pids r h)
            (λ _.
              if_induction Q (g.open_host && not enabled) _ _
                (λ _.
                  option_induction Q (object ref r.state) _ _ (λ _. h)
                    (λ x _. disable_loop-Stable ref 0 (length x.auth_friend_list) [] r h))
                (λ _. h)))

  pub update_profile-Stable :
      (services : Services) (ref : ℕ) (pids : List ℕ) (command : GameSpyCommand) (r : Trace)
      → Q r
      → Q (trace_of (update_profile services ref pids command r))
  unfolding update_profile update_user
  update_profile-Stable services ref pids command r h =
      let P : Run → Type 0 = λ x. Q (trace_of x) in
      option_induction P (object ref r.state) _ _ (λ _. h)
        (λ g _.
          let switched_h = switch_host-Stable ref pids g command r h in
          if_induction P (not (services.update_user_table g.profile_id command.other_values)) _ _
            (λ _. switched_h)
            (λ _. stable.changes ref _ _ (λ s. (refl, refl, refl, refl)) switched_h))
