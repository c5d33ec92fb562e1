-- ===== src/Gpcm/Bestie/Guarded.antt =====
-- Which packets bestieMessage of gpcm/message.go sends.
use wfc_server_private.GameSpy.{GameSpyCommand}
use wfc_server_private.Gpcm.{
  GameSpySession, Action, send_packet, reply_error, kick_player, status_update, process_user,
  tell_addr, resv_ok, close_connection, Gpcm, Trace, object, online, change, Run, trace_of, begin,
  err_message, err_message_not_friends, parse_uint32,
}
use wfc_server_private.Gpcm.Bestie.{Services, Format, format_of, decode_message}
use wfc_server_private.Gpcm.Bestie.Keeps.{
  IsQuiet, change-Keeps, fail-Keeps, answer-Keeps, relay-Keeps,
}
use wfc_server_private.Gpcm.Bestie.Receive.{
  route, learn_address, take_command, read_command, read_message, bestie_message,
}
use wfc_server_private.Gpcm.Lists.{is_in}
use wfc_server_private.Gpcm.Store.{set_qr2, online-change}
use wfc_server_private.IpAddress.{ip_format_to_int}
use wfc_server_private.MatchCommand.{match_reservation, match_resv_ok, MatchCommandData}
use wfc_server_private.Prelude.{
  ℕ, ◌+◌, ◌*◌, ◌^◌, ◌≡◌, refl, sym, ap, subst, ◌∙◌, true, not, some, [], ◌∷◌, arith, ◌==◌, Bytes,
  str, str_eq, if_induction, option_induction, All,
}
use wfc_server_private.Prelude.Dict.{text_at}
use wfc_server_private.Prelude.Outcome.{outcome_induction}

-- Whatever a run did has the property.
abbrev AllRun : (Action → Type 0) → Run → Type 0
AllRun P x = All P (trace_of x).actions

module _ (P : Action → Type 0) (quiet : (a : Action) → IsQuiet a → P a) (services : Services)
    (ref to : ℕ) where
  -- A packet to the destination has the property.
  abbrev Opens : GameSpySession → Trace → Type 0
  Opens g r =
      (dest : GameSpySession)
      → online to r.state ≡ some dest
      → str_eq dest.game_name g.game_name ≡ true
      → dest.device_authenticated ≡ true
      → (bytes : Bytes) → P (send_packet dest.conn_index bytes)

  route-Keeps :
      (g : GameSpySession) (f : Format) (cmd : ℕ) (d : MatchCommandData) (r : Trace)
      → Opens g r
      → All P r.actions
      → AllRun P (route services ref g to f cmd d r)
  unfolding route
  route-Keeps g f cmd d r opens h =
      option_induction (AllRun P) (online to r.state) _ _
        (λ _. answer-Keeps P quiet to ref f.deny_msg r h)
        (λ dest e.
          if_induction (AllRun P) (not (str_eq dest.game_name g.game_name)) _ _
            (λ _. fail-Keeps P quiet err_message ref r h)
            (λ game.
              if_induction (AllRun P) (not dest.device_authenticated) _ _
                (λ _. answer-Keeps P quiet to ref f.deny_msg r h)
                (λ device.
                  relay-Keeps P quiet dest
                    (opens dest e (ground (arith, game)) (ground (arith, device))) services ref g to
                    f.version cmd d r h)))

  learn_address-Keeps :
      (g : GameSpySession) (f : Format) (cmd : ℕ) (d : MatchCommandData) (ip port : ℕ) (r : Trace)
      → Opens g r
      → All P r.actions
      → AllRun P (learn_address services ref g to f cmd d ip port r)
  unfolding learn_address
  learn_address-Keeps g f cmd d public_ip public_port r opens h =
      let n = public_ip + public_port * 2 ^ 32 in
      outcome_induction (AllRun P) (ip_format_to_int g.remote_addr) _ _ _ (λ _. h) (λ _. h)
        (λ a _.
          if_induction (AllRun P) (not (a.0 == public_ip)) _ _
            (λ _. fail-Keeps P quiet err_message ref r h)
            (λ _.
              route-Keeps (set_qr2 n g) f cmd d (change ref (set_qr2 n) r)
                (λ dest e game device bytes.
                  let (t, there_too, same) = online-change to ref n r dest e in
                  subst (λ (i : ℕ). P (send_packet i bytes))
                    (sym (ap (λ (x : GameSpySession). x.conn_index) same))
                    (opens t there_too
                      (subst (λ (x : Bytes). str_eq x g.game_name ≡ true)
                        (ap (λ (x : GameSpySession). x.game_name) same) game)
                      (sym (ap (λ (x : GameSpySession). x.device_authenticated) same) ∙ device)
                      bytes))
                (change-Keeps P quiet ref (set_qr2 n) r h)))

  take_command-Keeps :
      (g : GameSpySession) (f : Format) (cmd : ℕ) (d : MatchCommandData) (r : Trace)
      → Opens g r
      → All P r.actions
      → AllRun P (take_command services ref g to f cmd d r)
  unfolding take_command
  take_command-Keeps g f cmd d r opens h =
      if_induction (AllRun P) (cmd == match_reservation) _ _
        (λ _.
          option_induction (AllRun P) d.reservation _ _ (λ _. h)
            (λ v _. learn_address-Keeps g f cmd d v.public_ip v.public_port r opens h))
        (λ _.
          if_induction (AllRun P) (cmd == match_resv_ok) _ _
            (λ _.
              option_induction (AllRun P) d.resv_ok _ _ (λ _. h)
                (λ v _. learn_address-Keeps g f cmd d v.public_ip v.public_port r opens h))
            (λ _. route-Keeps g f cmd d r opens h))

  read_command-Keeps :
      (g : GameSpySession) (f : Format) (text : Bytes) (r : Trace)
      → Opens g r
      → All P r.actions
      → AllRun P (read_command services ref g to f text r)
  unfolding read_command
  read_command-Keeps g f [] r opens h = fail-Keeps P quiet err_message ref r h
  read_command-Keeps g f (cmd ∷ text) r opens h =
      outcome_induction (AllRun P) (decode_message services f.version cmd text) _ _ _
        (λ _. fail-Keeps P quiet err_message ref r h) (λ _. h)
        (λ d _. take_command-Keeps g f cmd d r opens h)

-- The connection is that of a player who is online in the same game and whom the sender authorizes, and
-- the devices of both are authenticated.
pub record Reaches (state : Gpcm) (g : GameSpySession) (conn : ℕ) : Type 0 where
  pub to : ℕ
  pub dest : GameSpySession
  pub authorized : is_in to g.auth_friend_list ≡ true
  pub found : online to state ≡ some dest
  pub connected : dest.conn_index ≡ conn
  pub own_device : g.device_authenticated ≡ true
  pub device : dest.device_authenticated ≡ true
  pub same_game : str_eq dest.game_name g.game_name ≡ true

-- A packet goes to such a connection.
abbrev pub IsGuarded : Gpcm → GameSpySession → Action → Type 0
IsGuarded state g (send_packet conn bytes) = Reaches state g conn
IsGuarded state g _ = Unit

quiet-IsGuarded : (state : Gpcm) (g : GameSpySession) (a : Action) → IsQuiet a → IsGuarded state g a
quiet-IsGuarded state g (send_packet conn bytes) q = absurd q
quiet-IsGuarded state g (reply_error ref code) q = tt
quiet-IsGuarded state g (kick_player pid reason) q = tt
quiet-IsGuarded state g (status_update pid ip status) q = tt
quiet-IsGuarded state g (process_user pid ip bytes) q = tt
quiet-IsGuarded state g (tell_addr pid ip other port) q = tt
quiet-IsGuarded state g (resv_ok version v w ip pid other port) q = tt
quiet-IsGuarded state g (close_connection conn) q = tt

-- Whatever the message, the services and the sessions: bestieMessage, whether it returns or panics, sends a
-- packet only to a player who is online in the sender's game and whom the sender authorizes, and only if the
-- devices of both are authenticated.
pub bestie_message-IsGuarded :
    (services : Services) (ref : ℕ) (command : GameSpyCommand) (state : Gpcm) (g : GameSpySession)
    → object ref state ≡ some g
    → All (IsGuarded state g) (trace_of (bestie_message services ref command (begin state))).actions
unfolding bestie_message read_message
bestie_message-IsGuarded services ref command state g e =
    let P = IsGuarded state g in
    let quiet = quiet-IsGuarded state g in
    rw (e, bestie_message)
      (if_induction (AllRun P) (not (str_eq command.command_value (str "1"))) _ _ (λ _. tt)
        (λ _.
          option_induction (AllRun P) (parse_uint32 (text_at (str "t") command.other_values)) _ _
            (λ _. fail-Keeps P quiet err_message ref (begin state) tt)
            (λ to _.
              if_induction (AllRun P) (not (is_in to g.auth_friend_list)) _ _
                (λ _. fail-Keeps P quiet err_message_not_friends ref (begin state) tt)
                (λ friend.
                  option_induction (AllRun P) (format_of (text_at (str "msg") command.other_values))
                    _ _ (λ _. fail-Keeps P quiet err_message ref (begin state) tt)
                    (λ f _.
                      if_induction (AllRun P) (not g.device_authenticated) _ _
                        (λ _. answer-Keeps P quiet to ref f.wait_msg (begin state) tt)
                        (λ device.
                          read_command-Keeps P quiet services ref to g f _ (begin state)
                            (λ dest found game dest_device bytes. record {
                              to = to;
                              dest = dest;
                              authorized = ground (arith, friend);
                              found = found;
                              connected = refl;
                              own_device = ground (arith, device);
                              device = dest_device;
                              same_game = game;
                            })
                            tt))))))
