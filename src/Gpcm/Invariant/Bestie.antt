-- ===== src/Gpcm/Invariant/Bestie.antt =====
-- bestieMessage of gpcm/message.go keeps what every steady change keeps.
use wfc_server_private.GameSpy.{GameSpyCommand}
use wfc_server_private.Gpcm.{
  GameSpySession, send_packet, reply_error, kick_player, tell_addr, resv_ok, Trace, object, online,
  change, act, Run, trace_of, err_message, err_message_not_friends, parse_uint32,
}
use wfc_server_private.Gpcm.Bestie.{Services, Format, format_of, decode_message, encode_message}
use wfc_server_private.Gpcm.Bestie.Receive.{
  route, learn_address, take_command, read_command, read_message, bestie_message,
}
use wfc_server_private.Gpcm.Bestie.Relay.{
  fail, no_status, send_command, keep_reservation, forward, same_address, kick_restricted,
  mask_reservation, relay_reservation, mask_resv_ok, relay_resv_ok, release, relay_tell_addr, relay,
}
use wfc_server_private.Gpcm.Invariant.{IsStable, send-Stable, buffer-Stable}
use wfc_server_private.Gpcm.Lists.{is_in}
use wfc_server_private.Gpcm.Send.{bm}
use wfc_server_private.Gpcm.Store.{set_qr2}
use wfc_server_private.IpAddress.{ip_format_to_int}
use wfc_server_private.MatchCommand.{
  match_reservation, match_resv_ok, match_resv_deny, match_resv_wait, match_tell_addr, Reservation,
  ResvOk, MatchCommandData,
}
use wfc_server_private.MatchCommand.Encode.{encode_match_command}
use wfc_server_private.Prelude.{
  ℕ, ◌+◌, ◌*◌, ◌%◌, ◌^◌, refl, not, ◌&&◌, ◌||◌, some, [], ◌∷◌, ◌++◌, ltb, ◌==◌, if◌then◌else◌,
  Bytes, str, str_eq, if_induction, option_induction, length,
}
use wfc_server_private.Prelude.Dict.{text_at}
use wfc_server_private.Prelude.Outcome.{outcome_induction}

module _ (Q : Trace → Type 0) (stable : IsStable Q) (services : Services) (ref : ℕ) where
  abbrev RunQ : Run → Type 0
  RunQ x = Q (trace_of x)

  fail-Stable : (code : ℕ) (r : Trace) → Q r → RunQ (fail code ref r)
  fail-Stable code r h = stable.acts (reply_error ref code) r h

  send_command-Stable :
      (g dest : GameSpySession) (text : Bytes) (r : Trace) → Q r → Q (send_command g dest text r)
  unfolding send_command
  send_command-Stable g dest text r h =
      if_induction Q (is_in g.profile_id dest.recv_status_from_list) _ _
        (λ _. send-Stable Q stable (str "1") g.profile_id dest text r h)
        (λ _.
          stable.changes dest.conn_index _ _ (λ s. (refl, refl, refl, refl))
            (stable.acts
              (send_packet dest.conn_index
                (bm (str "100") g.profile_id no_status ++ bm (str "1") g.profile_id text))
              r h))

  forward-Stable :
      (g : GameSpySession) (to version cmd : ℕ) (d : MatchCommandData) (dest : GameSpySession)
      (r : Trace)
      → Q r
      → RunQ (forward services ref g to version cmd d dest r)
  unfolding forward keep_reservation
  forward-Stable g to version cmd d dest r h =
      outcome_induction RunQ (encode_match_command cmd d) _ _ _ (λ _. fail-Stable err_message r h)
        (λ _. h)
        (λ new_msg _.
          if_induction RunQ (ltb 0x200 (length new_msg) || not (length new_msg % 4 == 0)) _ _
            (λ _. fail-Stable err_message r h)
            (λ _. send_command-Stable g dest (encode_message services version cmd new_msg) _ (
              if_induction Q (cmd == match_reservation) _ _
                (λ _. stable.changes ref _ r (λ s. (refl, refl, refl, refl)) h) (λ _. h))))

  relay_reservation-Stable :
      (g : GameSpySession) (to version : ℕ) (v : Reservation) (d : MatchCommandData)
      (dest : GameSpySession) (r : Trace)
      → Q r
      → RunQ (relay_reservation services ref g to version v d dest r)
  unfolding relay_reservation kick_restricted
  relay_reservation-Stable g to version v d dest r h =
      let e = services.check_gp_reservation_allowed g.qr2_ip g.profile_id to v.match_type in
      let sent =
        if same_address g dest
        then d
        else record d { reservation = some (mask_reservation services g v) } in
      let first_kick = if g.restricted then act (kick_player dest.profile_id e) r else r in
      let one : Q first_kick =
        if_induction Q g.restricted _ _ (λ _. stable.acts (kick_player dest.profile_id e) r h)
          (λ _. h) in
      if_induction RunQ (g.qr2_ip == 0) _ _ (λ _. fail-Stable err_message r h)
        (λ _.
          if_induction RunQ ((g.restricted || dest.restricted) && not (str_eq e (str "ok"))) _ _
            (λ _.
              if_induction Q (str_eq e (str "restricted") || str_eq e (str "restricted_join")) _ _
                (λ _.
                  if_induction Q dest.restricted _ _
                    (λ _. stable.acts (kick_player g.profile_id e) first_kick one) (λ _. one))
                (λ _. h))
            (λ _. forward-Stable g to version match_reservation sent dest r h))

  relay_resv_ok-Stable :
      (g : GameSpySession) (to version : ℕ) (v : ResvOk) (d : MatchCommandData)
      (dest : GameSpySession) (r : Trace)
      → Q r
      → RunQ (relay_resv_ok services ref g to version v d dest r)
  unfolding relay_resv_ok
  relay_resv_ok-Stable g to version v d dest r h =
      if_induction RunQ (g.qr2_ip == 0 || dest.qr2_ip == 0) _ _ (λ _. fail-Stable err_message r h)
        (λ _.
          option_induction RunQ dest.reservation.reservation _ _ (λ _. h)
            (λ reserved _.
              let call = resv_ok d.version reserved v g.qr2_ip g.profile_id dest.qr2_ip to in
              let asked_h : Q (act call r) = stable.acts call r h in
              if_induction RunQ
                (not (
                  services.process_gp_resv_ok d.version reserved v g.qr2_ip g.profile_id dest.qr2_ip
                    to))
                _ _ (λ _. fail-Stable err_message (act call r) asked_h)
                (λ _.
                  if_induction RunQ (same_address g dest) _ _
                    (λ _. forward-Stable g to version match_resv_ok d dest (act call r) asked_h)
                    (λ _.
                      if_induction RunQ (services.get_search_id g.qr2_ip == 0) _ _
                        (λ _. fail-Stable err_message (act call r) asked_h)
                        (λ _.
                          forward-Stable g to version match_resv_ok
                            (record d {
                              resv_ok = some (mask_resv_ok (services.get_search_id g.qr2_ip) v);
                            })
                            dest (act call r) asked_h)))))

  relay-Stable :
      (g : GameSpySession) (to version cmd : ℕ) (d : MatchCommandData) (dest : GameSpySession)
      (r : Trace)
      → Q r
      → RunQ (relay services ref g to version cmd d dest r)
  unfolding relay relay_tell_addr release
  relay-Stable g to version cmd d dest r h =
      if_induction RunQ (cmd == match_reservation) _ _
        (λ _.
          option_induction RunQ d.reservation _ _ (λ _. h)
            (λ v _. relay_reservation-Stable g to version v d dest r h))
        (λ _.
          if_induction RunQ
            (cmd == match_resv_ok || (cmd == match_resv_deny || cmd == match_resv_wait)) _ _
            (λ _.
              if_induction RunQ (not (dest.reservation.version == d.version)) _ _
                (λ _. fail-Stable err_message r h)
                (λ _.
                  if_induction RunQ (cmd == match_resv_ok) _ _
                    (λ _.
                      option_induction RunQ d.resv_ok _ _ (λ _. h)
                        (λ v _. relay_resv_ok-Stable g to version v d dest r h))
                    (λ _. forward-Stable g to version cmd d dest _ (
                      if_induction Q (dest.reservation_pid == g.profile_id) _ _
                        (λ _. stable.changes dest.conn_index _ r (λ s. (refl, refl, refl, refl)) h)
                        (λ _. h)))))
            (λ _.
              if_induction RunQ (cmd == match_tell_addr) _ _
                (λ _.
                  if_induction RunQ (g.qr2_ip == 0 || dest.qr2_ip == 0) _ _
                    (λ _. fail-Stable err_message r h)
                    (λ _. forward-Stable g to version match_tell_addr d dest _ (
                      stable.acts (tell_addr g.profile_id g.qr2_ip dest.profile_id dest.qr2_ip) r
                        h)))
                (λ _. forward-Stable g to version cmd d dest r h)))

  route-Stable :
      (g : GameSpySession) (to : ℕ) (f : Format) (cmd : ℕ) (d : MatchCommandData) (r : Trace)
      → Q r
      → RunQ (route services ref g to f cmd d r)
  unfolding route
  route-Stable g to f cmd d r h =
      option_induction RunQ (online to r.state) _ _
        (λ _. buffer-Stable Q stable (str "1") to ref f.deny_msg r h)
        (λ dest _.
          if_induction RunQ (not (str_eq dest.game_name g.game_name)) _ _
            (λ _. fail-Stable err_message r h)
            (λ _.
              if_induction RunQ (not dest.device_authenticated) _ _
                (λ _. buffer-Stable Q stable (str "1") to ref f.deny_msg r h)
                (λ _. relay-Stable g to f.version cmd d dest r h)))

  learn_address-Stable :
      (g : GameSpySession) (to : ℕ) (f : Format) (cmd : ℕ) (d : MatchCommandData) (ip port : ℕ)
      (r : Trace)
      → Q r
      → RunQ (learn_address services ref g to f cmd d ip port r)
  unfolding learn_address
  learn_address-Stable g to f cmd d public_ip public_port r h =
      let n = public_ip + public_port * 2 ^ 32 in
      outcome_induction RunQ (ip_format_to_int g.remote_addr) _ _ _ (λ _. h) (λ _. h)
        (λ a _.
          if_induction RunQ (not (a.0 == public_ip)) _ _ (λ _. fail-Stable err_message r h)
            (λ _.
              route-Stable (set_qr2 n g) to f cmd d (change ref (set_qr2 n) r)
                (stable.changes ref (set_qr2 n) r (λ s. (refl, refl, refl, refl)) h)))

  read_command-Stable :
      (g : GameSpySession) (to : ℕ) (f : Format) (text : Bytes) (r : Trace)
      → Q r
      → RunQ (read_command services ref g to f text r)
  unfolding read_command take_command
  read_command-Stable g to f [] r h = fail-Stable err_message r h
  read_command-Stable g to f (cmd ∷ text) r h =
      outcome_induction RunQ (decode_message services f.version cmd text) _ _ _
        (λ _. fail-Stable err_message r h) (λ _. h)
        (λ d _.
          if_induction RunQ (cmd == match_reservation) _ _
            (λ _.
              option_induction RunQ d.reservation _ _ (λ _. h)
                (λ v _. learn_address-Stable g to f cmd d v.public_ip v.public_port r h))
            (λ _.
              if_induction RunQ (cmd == match_resv_ok) _ _
                (λ _.
                  option_induction RunQ d.resv_ok _ _ (λ _. h)
                    (λ v _. learn_address-Stable g to f cmd d v.public_ip v.public_port r h))
                (λ _. route-Stable g to f cmd d r h)))

  pub bestie_message-Stable :
      (command : GameSpyCommand) (r : Trace) → Q r → RunQ (bestie_message services ref command r)
  unfolding bestie_message read_message
  bestie_message-Stable command r h =
      option_induction RunQ (object ref r.state) _ _ (λ _. h)
        (λ g _.
          if_induction RunQ (not (str_eq command.command_value (str "1"))) _ _ (λ _. h)
            (λ _.
              option_induction RunQ (parse_uint32 (text_at (str "t") command.other_values)) _ _
                (λ _. fail-Stable err_message r h)
                (λ to _.
                  if_induction RunQ (not (is_in to g.auth_friend_list)) _ _
                    (λ _. fail-Stable err_message_not_friends r h)
                    (λ _.
                      option_induction RunQ (format_of (text_at (str "msg") command.other_values)) _
                        _ (λ _. fail-Stable err_message r h)
                        (λ f _.
                          if_induction RunQ (not g.device_authenticated) _ _
                            (λ _. buffer-Stable Q stable (str "1") to ref f.wait_msg r h)
                            (λ _. read_command-Stable g to f _ r h))))))
