-- ===== src/Gpcm/Packet.antt =====
-- HandlePacket of gpcm/main.go: the bytes of a connection are put together to messages, whose commands are
-- handled in the order of the server. A panic of a handler is recovered at the end.
pub mod Fragments
pub mod Login
mod Tests
use wfc_server_private.AuthToken.RoundTrip.{kept}
use wfc_server_private.GameSpy.{GameSpyCommand, final_mark, is_empty_text, parse_gamespy_message}
use wfc_server_private.Gpcm.{
  send_packet, reply_error, Trace, object, change, act, Run, finished, halted, trace_of, err_parse,
  err_not_logged_in,
}
use wfc_server_private.Gpcm.Bestie.{Services, utf8}
use wfc_server_private.Gpcm.Bestie.Receive.{bestie_message}
use wfc_server_private.Gpcm.Friend.{add_friend, remove_friend}
use wfc_server_private.Gpcm.OpenHost.{update_profile}
use wfc_server_private.Gpcm.Profile.{handle_wwfc_report, get_profile}
use wfc_server_private.Gpcm.Status.{auth_add_friend, set_status}
use wfc_server_private.Prelude.{
  ℕ, ◌-◌, Bool, false, not, ◌||◌, none, some, List, [], ◌∷◌, ◌++◌, ltb, ◌==◌, if◌then◌else◌, Bytes,
  str, str_eq, length, drop,
}
use wfc_server_private.Prelude.Outcome.{Outcome, ok, rejected, panicked}

-- The handlers of gpcm/login.go.
pub record Handlers : Type 0 where
  pub login : ℕ → GameSpyCommand → Trace → Run
  pub ex_login : ℕ → GameSpyCommand → Trace → Run

unfoldable pub and_then : Run → (Trace → Run) → Run
and_then (finished r) next = next r
and_then (halted r) next = halted r

-- a handler that panics before it changes anything
abbrev pub or_halt : Trace → Outcome Trace → Run
or_halt r (ok after) = finished after
or_halt r rejected = finished r
or_halt r panicked = halted r

-- the calls of handleCommand
unfoldable pub handle_command :
    Bytes → (GameSpyCommand → Trace → Run) → List GameSpyCommand → Trace → Run
unfolding and_then
handle_command name handler [] r = finished r
handle_command name handler (c ∷ commands) r =
    if str_eq c.command name
    then and_then (handler c r) (handle_command name handler commands)
    else handle_command name handler commands r

-- the result of handleCommand and ignoreCommand
unfoldable pub unhandled : Bytes → List GameSpyCommand → List GameSpyCommand
unhandled name [] = []
unhandled name (c ∷ commands) =
    let rest = unhandled name commands in if str_eq c.command name then rest else c ∷ rest

-- calls of handleCommand one after another
unfoldable pub handle_all :
    List (Bytes × (GameSpyCommand → Trace → Run)) → List GameSpyCommand → Trace → Run
unfolding and_then handle_command unhandled
handle_all [] commands r = finished r
handle_all ((name, handler) ∷ calls) commands r =
    and_then (handle_command name handler commands r) (handle_all calls (unhandled name commands))

-- the answer to `ka`
abbrev pub keep_alive : ℕ → GameSpyCommand → Trace → Run
keep_alive ref command r = finished (act (send_packet ref (str "\\ka\\\\final\\")) r)

-- the calls before the test of the login
abbrev pub first_calls : Handlers → ℕ → List (Bytes × (GameSpyCommand → Trace → Run))
first_calls handlers ref =
    (str "ka", keep_alive ref)
    ∷ (str "login", handlers.login ref)
    ∷ (str "wwfc_exlogin", handlers.ex_login ref)
    ∷ []

-- the commands that they and `logout` leave
unfoldable pub commands_left : List GameSpyCommand → List GameSpyCommand
unfolding unhandled
commands_left commands =
    unhandled (str "logout")
      (unhandled (str "wwfc_exlogin") (unhandled (str "login") (unhandled (str "ka") commands)))

-- the calls behind it; `pids` is the order in which the map `sessions` is iterated
abbrev pub later_calls : Services → List ℕ → ℕ → List (Bytes × (GameSpyCommand → Trace → Run))
later_calls services pids ref =
    (str "wwfc_report", handle_wwfc_report services ref)
    ∷ (str "updatepro", update_profile services ref pids)
    ∷ (str "status", λ c r. finished (set_status ref pids c r))
    ∷ (str "addbuddy", λ c r. or_halt r (add_friend ref c r))
    ∷ (str "delbuddy", λ c r. or_halt r (remove_friend ref c r))
    ∷ (str "authadd", λ c r. finished (auth_add_friend ref c r))
    ∷ (str "bm", bestie_message services ref)
    ∷ (str "getprofile", get_profile services ref)
    ∷ []

-- the bytes of the write buffer that are sent
unfoldable pub without_null : Bytes → Bytes
without_null [] = []
without_null (c ∷ s) = let rest = without_null s in if c == 0 then rest else c ∷ rest

-- the end of HandlePacket: the write buffer is sent
unfoldable pub flush : ℕ → Trace → Trace
unfolding object change act without_null is_empty_text
flush ref r = elim (object ref r.state) [
  | none ↦ r
  | some s ↦
      if is_empty_text s.write_buffer
      then r
      else change ref (λ x. record x { write_buffer = [] })
          (act (send_packet ref (without_null s.write_buffer)) r)
]

-- the test of the login, and what follows it
unfoldable pub handle_left : Services → Handlers → List ℕ → ℕ → List GameSpyCommand → Trace → Run
unfolding object act handle_all and_then flush
handle_left services handlers pids ref [] r = finished (flush ref r)
handle_left services handlers pids ref (c ∷ commands) r = elim (object ref r.state) [
  | none ↦ finished r
  | some s ↦
      if not s.logged_in
      then finished (act (reply_error ref err_not_logged_in) r)
      else and_then (handle_all (later_calls services pids ref) (c ∷ commands) r)
          (λ after. finished (flush ref after))
]

-- the commands of a message
unfoldable pub handle_commands :
    Services → Handlers → List ℕ → ℕ → List GameSpyCommand → Trace → Run
unfolding handle_all and_then commands_left handle_left
handle_commands services handlers pids ref commands r =
    and_then (handle_all (first_calls handlers ref) commands r)
      (handle_left services handlers pids ref (commands_left commands))

unfoldable pub has_null : Bytes → Bool
has_null [] = false
has_null (c ∷ s) = c == 0 || has_null s

-- `builder`: each byte is written as a rune
unfoldable pub runes : Bytes → Bytes
unfolding utf8
runes [] = []
runes (c ∷ s) = utf8 c ++ runes s

-- the buffer of a packet that is complete
unfoldable pub handle_message : Services → Handlers → List ℕ → ℕ → Bytes → Trace → Run
unfolding change act has_null runes parse_gamespy_message handle_commands
handle_message services handlers pids ref buffer r =
    let emptied = change ref (λ s. record s { read_buffer = [] }) r in
    if has_null buffer
    then finished
        (change ref (λ s. record s { read_buffer = [] }) (act (reply_error ref err_parse) r))
    else elim (parse_gamespy_message (runes buffer)) [
      | rejected ↦ finished (act (reply_error ref err_parse) emptied)
      | panicked ↦ halted emptied
      | ok commands ↦ handle_commands services handlers pids ref commands emptied
    ]

-- `string(session.ReadBuffer[max(0, length-7):length])` is the final mark
unfoldable pub is_complete : Bytes → Bool
is_complete buffer = str_eq (drop (length buffer - 7) buffer) final_mark

-- HandlePacket
unfoldable pub handle_packet : Services → Handlers → List ℕ → ℕ → Bytes → Trace → Trace
unfolding object change is_complete handle_message
handle_packet services handlers pids ref received r = elim (object ref r.state) [
  | none ↦ r
  | some s ↦
      let buffer = s.read_buffer ++ received in
      let kept = change ref (λ x. record x { read_buffer = buffer }) r in
      if ltb 0x4000 (length buffer)
      then r
      else if not (is_complete buffer)
      then kept
      else trace_of (handle_message services handlers pids ref buffer kept)
]
