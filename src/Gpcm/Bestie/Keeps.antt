-- ===== src/Gpcm/Bestie/Keeps.antt =====
-- A property of all packets that are sent is kept by the stages of bestieMessage of gpcm/message.go.
use wfc_server_private.Gpcm.{
  GameSpySession, Action, send_packet, reply_error, kick_player, tell_addr, resv_ok, Trace, change,
  act, Run, trace_of, err_message,
}
use wfc_server_private.Gpcm.Bestie.{Services, encode_message}
use wfc_server_private.Gpcm.Bestie.Relay.{
  fail, answer, send_command, keep_reservation, forward, same_address, kick_restricted,
  mask_reservation, relay_reservation, mask_resv_ok, relay_resv_ok, release, relay_tell_addr, relay,
}
use wfc_server_private.Gpcm.Lists.{is_in}
use wfc_server_private.Gpcm.Send.{send_message_to_session, send_message_to_session_buffer}
use wfc_server_private.Gpcm.Store.{change-actions}
use wfc_server_private.MatchCommand.{
  match_reservation, match_resv_ok, match_resv_deny, match_resv_wait, match_tell_addr, Reservation,
  ResvOk, MatchCommandData,
}
use wfc_server_private.MatchCommand.Encode.{encode_match_command}
use wfc_server_private.Prelude.{
  ℕ, ◌%◌, not, ◌&&◌, ◌||◌, some, List, [], ◌∷◌, ◌++◌, ltb, ◌==◌, if◌then◌else◌, Bytes, str, str_eq,
  if_induction, option_induction, length, All,
}
use wfc_server_private.Prelude.Outcome.{outcome_induction}

-- It sends no packet.
abbrev pub IsQuiet : Action → Type 0
IsQuiet (send_packet i bytes) = ⊥
IsQuiet a = Unit

All-snoc {ℓ κ} :
    {A : Type ℓ} (P : A → Type κ) (xs : List A) (a : A) → All P xs → P a → All P (xs ++ (a ∷ []))
All-snoc P [] a h p = (p, tt)
All-snoc P (x ∷ xs) a (hx, h) p = (hx, All-snoc P xs a h p)

module _ (P : Action → Type 0) (quiet : (a : Action) → IsQuiet a → P a) where
  abbrev Keeps : Trace → Type 0
  Keeps r = All P r.actions

  abbrev RunKeeps : Run → Type 0
  RunKeeps x = Keeps (trace_of x)

  pub act-Keeps : (a : Action) (r : Trace) → P a → Keeps r → Keeps (act a r)
  unfolding act
  act-Keeps a r p h = All-snoc P r.actions a h p

  pub change-Keeps :
      (k : ℕ) (f : GameSpySession → GameSpySession) (r : Trace) → Keeps r → Keeps (change k f r)
  change-Keeps k f r h = rw (change-actions k f r) h

  pub fail-Keeps : (code ref : ℕ) (r : Trace) → Keeps r → RunKeeps (fail code ref r)
  fail-Keeps code ref r h = act-Keeps (reply_error ref code) r (quiet (reply_error ref code) tt) h

  pub answer-Keeps :
      (to ref : ℕ) (msg : Bytes) (r : Trace) → Keeps r → RunKeeps (answer to ref msg r)
  unfolding send_message_to_session_buffer
  answer-Keeps to ref msg r h = change-Keeps ref _ r h

  module _ (dest : GameSpySession)
      (open_to : (bytes : Bytes) → P (send_packet dest.conn_index bytes)) where
    send_command-Keeps :
        (g : GameSpySession) (text : Bytes) (r : Trace)
        → Keeps r
        → Keeps (send_command g dest text r)
    unfolding send_command send_message_to_session
    send_command-Keeps g text r h =
        if_induction Keeps (is_in g.profile_id dest.recv_status_from_list) _ _
          (λ _. act-Keeps _ r (open_to _) h)
          (λ _. change-Keeps dest.conn_index _ _ (act-Keeps _ r (open_to _) h))

    keep_reservation-Keeps :
        (ref to cmd : ℕ) (d : MatchCommandData) (r : Trace)
        → Keeps r
        → Keeps (keep_reservation ref to cmd d r)
    unfolding keep_reservation
    keep_reservation-Keeps ref to cmd d r h =
        if_induction Keeps (cmd == match_reservation) _ _ (λ _. change-Keeps ref _ r h) (λ _. h)

    forward-Keeps :
        (services : Services) (ref : ℕ) (g : GameSpySession) (to version cmd : ℕ)
        (d : MatchCommandData) (r : Trace)
        → Keeps r
        → RunKeeps (forward services ref g to version cmd d dest r)
    unfolding forward
    forward-Keeps services ref g to version cmd d r h =
        outcome_induction RunKeeps (encode_match_command cmd d) _ _ _
          (λ _. fail-Keeps err_message ref r h) (λ _. h)
          (λ new_msg _.
            if_induction RunKeeps (ltb 0x200 (length new_msg) || not (length new_msg % 4 == 0)) _ _
              (λ _. fail-Keeps err_message ref r h)
              (λ _.
                send_command-Keeps g (encode_message services version cmd new_msg) _
                  (keep_reservation-Keeps ref to cmd d r h)))

    kick_restricted-Keeps :
        (e : Bytes) (g : GameSpySession) (r : Trace) → Keeps r → Keeps (kick_restricted e g dest r)
    unfolding kick_restricted
    kick_restricted-Keeps e g r h =
        let first_kick = (if g.restricted then act (kick_player dest.profile_id e) r else r) in
        let one : Keeps first_kick =
          if_induction Keeps g.restricted (act (kick_player dest.profile_id e) r) r
            (λ _. act-Keeps _ r (quiet (kick_player dest.profile_id e) tt) h) (λ _. h) in
        if_induction Keeps (str_eq e (str "restricted") || str_eq e (str "restricted_join")) _ _
          (λ _.
            if_induction Keeps dest.restricted _ _
              (λ _. act-Keeps _ first_kick (quiet (kick_player g.profile_id e) tt) one) (λ _. one))
          (λ _. h)

    relay_reservation-Keeps :
        (services : Services) (ref : ℕ) (g : GameSpySession) (to version : ℕ) (v : Reservation)
        (d : MatchCommandData) (r : Trace)
        → Keeps r
        → RunKeeps (relay_reservation services ref g to version v d dest r)
    unfolding relay_reservation
    relay_reservation-Keeps services ref g to version v d r h =
        let resv_error =
          services.check_gp_reservation_allowed g.qr2_ip g.profile_id to v.match_type in
        let sent =
          if same_address g dest
          then d
          else record d { reservation = some (mask_reservation services g v) } in
        if_induction RunKeeps (g.qr2_ip == 0) _ _ (λ _. fail-Keeps err_message ref r h)
          (λ _.
            if_induction RunKeeps
              ((g.restricted || dest.restricted) && not (str_eq resv_error (str "ok"))) _ _
              (λ _. kick_restricted-Keeps resv_error g r h)
              (λ _. forward-Keeps services ref g to version match_reservation sent r h))

    relay_resv_ok-Keeps :
        (services : Services) (ref : ℕ) (g : GameSpySession) (to version : ℕ) (v : ResvOk)
        (d : MatchCommandData) (r : Trace)
        → Keeps r
        → RunKeeps (relay_resv_ok services ref g to version v d dest r)
    unfolding relay_resv_ok
    relay_resv_ok-Keeps services ref g to version v d r h =
        if_induction RunKeeps (g.qr2_ip == 0 || dest.qr2_ip == 0) _ _
          (λ _. fail-Keeps err_message ref r h)
          (λ _.
            option_induction RunKeeps dest.reservation.reservation _ _ (λ _. h)
              (λ reserved _.
                let after_call =
                  act (resv_ok d.version reserved v g.qr2_ip g.profile_id dest.qr2_ip to) r in
                let asked =
                  act-Keeps _ r
                    (quiet (resv_ok d.version reserved v g.qr2_ip g.profile_id dest.qr2_ip to) tt)
                    h in
                if_induction RunKeeps
                  (not (
                    services.process_gp_resv_ok d.version reserved v g.qr2_ip g.profile_id
                      dest.qr2_ip to))
                  _ _ (λ _. fail-Keeps err_message ref after_call asked)
                  (λ _.
                    if_induction RunKeeps (same_address g dest) _ _
                      (λ _.
                        forward-Keeps services ref g to version match_resv_ok d after_call asked)
                      (λ _.
                        if_induction RunKeeps (services.get_search_id g.qr2_ip == 0) _ _
                          (λ _. fail-Keeps err_message ref after_call asked)
                          (λ _.
                            forward-Keeps services ref g to version match_resv_ok
                              (record d {
                                resv_ok = some (mask_resv_ok (services.get_search_id g.qr2_ip) v);
                              })
                              after_call asked)))))

    pub relay-Keeps :
        (services : Services) (ref : ℕ) (g : GameSpySession) (to version cmd : ℕ)
        (d : MatchCommandData) (r : Trace)
        → Keeps r
        → RunKeeps (relay services ref g to version cmd d dest r)
    unfolding relay relay_tell_addr release
    relay-Keeps services ref g to version cmd d r h =
        if_induction RunKeeps (cmd == match_reservation) _ _
          (λ _.
            option_induction RunKeeps d.reservation _ _ (λ _. h)
              (λ v _. relay_reservation-Keeps services ref g to version v d r h))
          (λ _.
            if_induction RunKeeps
              (cmd == match_resv_ok || (cmd == match_resv_deny || cmd == match_resv_wait)) _ _
              (λ _.
                if_induction RunKeeps (not (dest.reservation.version == d.version)) _ _
                  (λ _. fail-Keeps err_message ref r h)
                  (λ _.
                    if_induction RunKeeps (cmd == match_resv_ok) _ _
                      (λ _.
                        option_induction RunKeeps d.resv_ok _ _ (λ _. h)
                          (λ v _. relay_resv_ok-Keeps services ref g to version v d r h))
                      (λ _. forward-Keeps services ref g to version cmd d _ (
                        if_induction Keeps (dest.reservation_pid == g.profile_id) _ _
                          (λ _. change-Keeps dest.conn_index _ r h) (λ _. h)))))
              (λ _.
                if_induction RunKeeps (cmd == match_tell_addr) _ _
                  (λ _.
                    if_induction RunKeeps (g.qr2_ip == 0 || dest.qr2_ip == 0) _ _
                      (λ _. fail-Keeps err_message ref r h)
                      (λ _. forward-Keeps services ref g to version match_tell_addr d _ (
                        act-Keeps _ r
                          (quiet (tell_addr g.profile_id g.qr2_ip dest.profile_id dest.qr2_ip) tt)
                          h)))
                  (λ _. forward-Keeps services ref g to version cmd d r h)))
