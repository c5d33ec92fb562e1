-- ===== src/Gpcm/Packet/Login.antt =====
-- HandlePacket of gpcm/main.go on a message of a player who has not logged in.
use wfc_server_private.GameSpy.{GameSpyCommand, parse_gamespy_message}
use wfc_server_private.Gpcm.{
  GameSpySession, reply_error, Trace, object, change, act, Run, finished, trace_of,
  err_not_logged_in,
}
use wfc_server_private.Gpcm.Bestie.{Services}
use wfc_server_private.Gpcm.Packet.{
  Handlers, and_then, handle_command, unhandled, handle_all, keep_alive, first_calls, commands_left,
  handle_left, handle_commands, has_null, runes, handle_message, is_complete, handle_packet,
}
use wfc_server_private.Gpcm.Packet.Fragments.{set_buffer, handle_packet-buffer}
use wfc_server_private.Gpcm.Store.{change-here, change-change}
use wfc_server_private.Prelude.{
  ℕ, ◌≤◌, ◌≡◌, refl, ap, ◌∙◌, true, false, not, some, List, [], ◌∷◌, ◌++◌, arith, Bytes, str,
  str_eq, if_yes, if_no, length, All,
}
use wfc_server_private.Prelude.Outcome.{ok}

-- The command is none of those that are handled, or dropped, before the test of the login.
pub record IsLater (c : GameSpyCommand) : Type 0 where
  pub no_ka : str_eq c.command (str "ka") ≡ false
  pub no_login : str_eq c.command (str "login") ≡ false
  pub no_ex_login : str_eq c.command (str "wwfc_exlogin") ≡ false
  pub no_logout : str_eq c.command (str "logout") ≡ false

abbrev IsOther : Bytes → GameSpyCommand → Type 0
IsOther name c = str_eq c.command name ≡ false

All-map {ℓ κ ι} :
    {A : Type ℓ} (P : A → Type κ) (Q : A → Type ι) (f : (a : A) → P a → Q a) (xs : List A)
    → All P xs
    → All Q xs
All-map P Q f [] h = tt
All-map P Q f (x ∷ xs) (h, hs) = (f x h, All-map P Q f xs hs)

unhandled-none :
    (name : Bytes) (commands : List GameSpyCommand)
    → All (IsOther name) commands
    → unhandled name commands ≡ commands
unfolding unhandled
unhandled-none name [] h = refl
unhandled-none name (c ∷ commands) (h, hs) = rw (h, unhandled-none name commands hs) refl

handle_command-none :
    (name : Bytes) (handler : GameSpyCommand → Trace → Run) (commands : List GameSpyCommand)
    (r : Trace)
    → All (IsOther name) commands
    → handle_command name handler commands r ≡ finished r
unfolding handle_command
handle_command-none name handler [] r h = refl
handle_command-none name handler (c ∷ commands) r (h, hs) =
    rw (h, handle_command) (handle_command-none name handler commands r hs)

-- A call that finds no command of its name is as if it was not there.
handle_all-skip :
    (name : Bytes) (handler : GameSpyCommand → Trace → Run)
    (calls : List (Bytes × (GameSpyCommand → Trace → Run))) (commands : List GameSpyCommand)
    (r : Trace)
    → All (IsOther name) commands
    → handle_all ((name, handler) ∷ calls) commands r ≡ handle_all calls commands r
unfolding handle_all and_then
handle_all-skip name handler calls commands r h =
    rw (handle_command-none name handler commands r h, unhandled-none name commands h) refl

module _ (commands : List GameSpyCommand) (later : All IsLater commands) where
  others :
      (name : Bytes)
      → ((c : GameSpyCommand) → IsLater c → IsOther name c)
      → All (IsOther name) commands
  others name f = All-map IsLater (IsOther name) f commands later

  first_calls-skip :
      (handlers : Handlers) (ref : ℕ) (r : Trace)
      → handle_all (first_calls handlers ref) commands r ≡ finished r
  unfolding handle_all
  first_calls-skip handlers ref r =
      let third = (str "wwfc_exlogin", handlers.ex_login ref) ∷ [] in
      let two = (str "login", handlers.login ref) ∷ third in
      handle_all-skip (str "ka") (keep_alive ref) two commands r
        (others (str "ka") (λ c h. h.no_ka))
      ∙ handle_all-skip (str "login") (handlers.login ref) third commands r
          (others (str "login") (λ c h. h.no_login))
      ∙ handle_all-skip (str "wwfc_exlogin") (handlers.ex_login ref) [] commands r
          (others (str "wwfc_exlogin") (λ c h. h.no_ex_login))

  commands_left-same : commands_left commands ≡ commands
  unfolding commands_left
  commands_left-same =
      rw
        (
          unhandled-none (str "ka") commands (others (str "ka") (λ c h. h.no_ka)),
          unhandled-none (str "login") commands (others (str "login") (λ c h. h.no_login)),
          unhandled-none (str "wwfc_exlogin") commands
              (others (str "wwfc_exlogin") (λ c h. h.no_ex_login)),
        )
        (unhandled-none (str "logout") commands (others (str "logout") (λ c h. h.no_logout)))

-- Commands that come before the login, whatever they are but for those that do not need one, are refused
-- all: HandlePacket empties the read buffer, replies with ErrNotLoggedIn and does nothing else.
pub handle_packet-refused :
    (services : Services) (handlers : Handlers) (pids : List ℕ) (ref : ℕ) (received : Bytes)
    (r : Trace) (s : GameSpySession) (c : GameSpyCommand) (commands : List GameSpyCommand)
    → object ref r.state ≡ some s
    → s.logged_in ≡ false
    → length (s.read_buffer ++ received) ≤ 0x4000
    → is_complete (s.read_buffer ++ received) ≡ true
    → has_null (s.read_buffer ++ received) ≡ false
    → parse_gamespy_message (runes (s.read_buffer ++ received)) ≡ ok (c ∷ commands)
    → All IsLater (c ∷ commands)
    → handle_packet services handlers pids ref received r
      ≡ act (reply_error ref err_not_logged_in) (change ref (set_buffer []) r)
unfolding handle_message handle_commands handle_left and_then
handle_packet-refused services handlers pids ref received r s c commands e out size complete clean
      parsed later =
    let buffer = s.read_buffer ++ received in
    let kept = change ref (set_buffer buffer) r in
    let emptied = change ref (set_buffer []) kept in
    let here : object ref emptied.state ≡ some (set_buffer [] s) =
      change-here ref (set_buffer []) kept (set_buffer buffer s)
        (change-here ref (set_buffer buffer) r s e) in
    let left : handle_left services handlers pids ref (c ∷ commands) emptied
        ≡ finished (act (reply_error ref err_not_logged_in) emptied) =
      rw (here, handle_left) (if_yes (not s.logged_in) _ _ (ground (arith, out))) in
    let all : handle_commands services handlers pids ref (c ∷ commands) emptied
        ≡ finished (act (reply_error ref err_not_logged_in) emptied) =
      unfold handle_commands in
      rw
        (
          first_calls-skip (c ∷ commands) later handlers ref emptied,
          commands_left-same (c ∷ commands) later,
        )
        left in
    let message : handle_message services handlers pids ref buffer kept
        ≡ finished (act (reply_error ref err_not_logged_in) emptied) =
      unfold handle_message in
      if_no (has_null buffer) _ _ clean ∙ rw (parsed, handle_message) all in
    handle_packet-buffer services handlers pids ref received r s e size
    ∙ if_no (not (is_complete buffer)) _ _ (ground (arith, complete))
    ∙ ap trace_of message
    ∙ ap (act (reply_error ref err_not_logged_in))
        (change-change ref (set_buffer []) (set_buffer buffer) r)
