-- ===== src/Gpcm/Bestie/Relay.antt =====
-- bestieMessage of gpcm/message.go behind its tests: a match command on its way to another player.
use wfc_server_private.Gpcm.{
  GameSpySession, send_packet, reply_error, kick_player, tell_addr, resv_ok, Trace, change, act,
  Run, finished, halted, err_message,
}
use wfc_server_private.Gpcm.Bestie.{Services, encode_message}
use wfc_server_private.Gpcm.Lists.{is_in}
use wfc_server_private.Gpcm.Send.{bm, send_message_to_session, send_message_to_session_buffer}
use wfc_server_private.IpAddress.{host}
use wfc_server_private.MatchCommand.{
  match_reservation, match_resv_ok, match_resv_deny, match_resv_wait, match_tell_addr, Reservation,
  ResvOk, MatchCommandData,
}
use wfc_server_private.MatchCommand.Encode.{encode_match_command}
use wfc_server_private.Prelude.{
  ℕ, ◌/◌, ◌%◌, ◌^◌, Bool, not, ◌&&◌, ◌||◌, none, some, [], ◌∷◌, ◌++◌, ltb, ◌==◌, if◌then◌else◌,
  Bytes, str, str_eq, length,
}
use wfc_server_private.Prelude.Outcome.{ok, rejected, panicked}

-- `g.replyError(…)` and `return`
abbrev pub fail : ℕ → ℕ → Trace → Run
fail code ref r = finished (act (reply_error ref code) r)

-- the message of `g` to the buffer of `g`, in the name of its destination
abbrev pub answer : ℕ → ℕ → Bytes → Trace → Run
answer to ref msg r = finished (send_message_to_session_buffer (str "1") to ref msg r)

abbrev pub no_status : Bytes
no_status = str "|s|0|ss||ls||ip|0|p|0|qm|0"

-- the end of bestieMessage: the message, behind an empty status where the destination has had none
unfoldable pub send_command : GameSpySession → GameSpySession → Bytes → Trace → Trace
unfolding is_in send_message_to_session change act bm
send_command g dest text r =
    if is_in g.profile_id dest.recv_status_from_list
    then send_message_to_session (str "1") g.profile_id dest text r
    else change dest.conn_index
        (λ s. record s { recv_status_from_list = s.recv_status_from_list ++ (g.profile_id ∷ []) })
        (act
          (send_packet dest.conn_index
            (bm (str "100") g.profile_id no_status ++ bm (str "1") g.profile_id text))
          r)

-- `g.Reservation = msgMatchData` and `g.ReservationPID = …`
unfoldable pub keep_reservation : ℕ → ℕ → ℕ → MatchCommandData → Trace → Trace
unfolding change
keep_reservation ref to cmd d r =
    if cmd == match_reservation
    then change ref (λ s. record s { reservation = d; reservation_pid = to }) r
    else r

-- from EncodeMatchCommand on
unfoldable pub forward :
    Services → ℕ → GameSpySession → ℕ → ℕ → ℕ → MatchCommandData → GameSpySession → Trace → Run
unfolding encode_match_command encode_message keep_reservation send_command
forward services ref g to version cmd d dest r = elim (encode_match_command cmd d) [
  | rejected ↦ fail err_message ref r
  | panicked ↦ halted r
  | ok new_msg ↦
      if ltb 0x200 (length new_msg) || not (length new_msg % 4 == 0)
      then fail err_message ref r
      else finished (
          send_command g dest (encode_message services version cmd new_msg)
            (keep_reservation ref to cmd d r))
]

-- `sameAddress`
unfoldable pub same_address : GameSpySession → GameSpySession → Bool
unfolding host
same_address g dest = str_eq (host g.remote_addr) (host dest.remote_addr)

-- "Kick the player(s)"
unfoldable pub kick_restricted : Bytes → GameSpySession → GameSpySession → Trace → Trace
unfolding act
kick_restricted resv_error g dest r =
    let first_kick = if g.restricted then act (kick_player dest.profile_id resv_error) r else r in
    let both =
      if dest.restricted
      then act (kick_player g.profile_id resv_error) first_kick
      else first_kick in
    if str_eq resv_error (str "restricted") || str_eq resv_error (str "restricted_join")
    then both
    else r

-- the reservation with the search id of the sender in place of its addresses
unfoldable pub mask_reservation : Services → GameSpySession → Reservation → Reservation
mask_reservation services g v =
    let search_id = services.get_search_id g.qr2_ip in
    record v {
      public_ip = search_id % 2 ^ 32;
      public_port = search_id / 2 ^ 32 % 2 ^ 16;
      local_ip = 0;
      local_port = 0;
    }

-- the branch of MatchReservation
unfoldable pub relay_reservation :
    Services
    → ℕ
    → GameSpySession
    → ℕ
    → ℕ
    → Reservation
    → MatchCommandData
    → GameSpySession
    → Trace
    → Run
unfolding forward same_address kick_restricted mask_reservation act
relay_reservation services ref g to version v d dest r =
    let resv_error = services.check_gp_reservation_allowed g.qr2_ip g.profile_id to v.match_type in
    let sent =
      if same_address g dest
      then d
      else record d { reservation = some (mask_reservation services g v) } in
    if g.qr2_ip == 0
    then fail err_message ref r
    else if (g.restricted || dest.restricted) && not (str_eq resv_error (str "ok"))
    then finished (kick_restricted resv_error g dest r)
    else forward services ref g to version match_reservation sent dest r

-- the acceptance with the search id in place of its public address
unfoldable pub mask_resv_ok : ℕ → ResvOk → ResvOk
mask_resv_ok search_id v = record v {
  public_ip = search_id % 2 ^ 32;
  public_port = search_id / 2 ^ 32 % 2 ^ 16;
}

-- the branch of MatchResvOK behind the test of the versions
unfoldable pub relay_resv_ok :
    Services → ℕ → GameSpySession → ℕ → ℕ → ResvOk → MatchCommandData → GameSpySession → Trace → Run
unfolding forward same_address act mask_resv_ok
relay_resv_ok services ref g to version v d dest r =
    if g.qr2_ip == 0 || dest.qr2_ip == 0
    then fail err_message ref r
    else elim dest.reservation.reservation [
      | none ↦ halted r
      | some reserved ↦
          let asked = act (resv_ok d.version reserved v g.qr2_ip g.profile_id dest.qr2_ip to) r in
          let search_id = services.get_search_id g.qr2_ip in
          if not
            (services.process_gp_resv_ok d.version reserved v g.qr2_ip g.profile_id dest.qr2_ip to)
          then fail err_message ref asked
          else if same_address g dest
          then forward services ref g to version match_resv_ok d dest asked
          else if search_id == 0
          then fail err_message ref asked
          else forward services ref g to version match_resv_ok
              (record d { resv_ok = some (mask_resv_ok search_id v) }) dest asked
    ]

-- "toSession.ReservationPID = 0" for a denial or a wait
unfoldable pub release : GameSpySession → GameSpySession → Trace → Trace
unfolding change
release g dest r =
    if dest.reservation_pid == g.profile_id
    then change dest.conn_index (λ s. record s { reservation_pid = 0 }) r
    else r

-- the branch of MatchTellAddr
unfoldable pub relay_tell_addr :
    Services → ℕ → GameSpySession → ℕ → ℕ → MatchCommandData → GameSpySession → Trace → Run
unfolding forward act
relay_tell_addr services ref g to version d dest r =
    if g.qr2_ip == 0 || dest.qr2_ip == 0
    then fail err_message ref r
    else forward services ref g to version match_tell_addr d dest
        (act (tell_addr g.profile_id g.qr2_ip dest.profile_id dest.qr2_ip) r)

-- the branches on the command; the decoded command has what its byte says
unfoldable pub relay :
    Services → ℕ → GameSpySession → ℕ → ℕ → ℕ → MatchCommandData → GameSpySession → Trace → Run
unfolding forward relay_reservation relay_resv_ok release relay_tell_addr act
relay services ref g to version cmd d dest r =
    if cmd == match_reservation
    then elim d.reservation [
      | none ↦ halted r
      | some v ↦ relay_reservation services ref g to version v d dest r
    ]
    else if cmd == match_resv_ok || (cmd == match_resv_deny || cmd == match_resv_wait)
    then (if not (dest.reservation.version == d.version)
        then fail err_message ref r
        else if cmd == match_resv_ok
        then elim d.resv_ok [
          | none ↦ halted r
          | some v ↦ relay_resv_ok services ref g to version v d dest r
        ]
        else forward services ref g to version cmd d dest (release g dest r))
    else if cmd == match_tell_addr
    then relay_tell_addr services ref g to version d dest r
    else forward services ref g to version cmd d dest r
