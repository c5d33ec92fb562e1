-- ===== src/Gpcm/Profile.antt =====
-- gpcm/report.go, and getProfile of gpcm/profile.go: the reports of a game, and the profile of a player.
use wfc_server_private.GameSpy.{GameSpyCommand, create_gamespy_message}
use wfc_server_private.Gpcm.{
  GameSpySession, reply_error, process_user, Gpcm, Trace, object, online, change, act, Run,
  finished, halted, err_get_profile, err_get_profile_bad_profile, parse_uint32,
}
use wfc_server_private.Gpcm.Bestie.{User, Services}
use wfc_server_private.Prelude.{
  ℕ, ◌&&◌, Option, none, some, List, [], ◌∷◌, ◌++◌, ltb, ◌==◌, if◌then◌else◌, Bytes, str, str_eq,
  length, take,
}
use wfc_server_private.Prelude.Decimal.{decimal}
use wfc_server_private.Prelude.Dict.{text_at}
use wfc_server_private.Prelude.Outcome.{Outcome, ok, rejected, panicked}

-- One turn of the loop of handleWWFCReport; a report of a malicious packet is only logged.
unfoldable pub report_value : Services → GameSpySession → Bytes → Bytes → Trace → Trace
unfolding act
report_value services g key text r =
    if str_eq key (str "mkw_user") && str_eq g.game_name (str "mariokartwii")
    then elim (services.decode_base64 text) [
      | none ↦ r
      | some decoded ↦
          if length decoded == 0xC0 then act (process_user g.profile_id g.qr2_ip decoded) r else r
    ]
    else r

unfoldable pub report_loop : Services → GameSpySession → List (Bytes × Bytes) → Trace → Trace
unfolding report_value
report_loop services g [] r = r
report_loop services g ((key, text) ∷ entries) r =
    report_loop services g entries (report_value services g key text r)

-- handleWWFCReport
unfoldable pub handle_wwfc_report : Services → ℕ → GameSpyCommand → Trace → Run
unfolding object report_loop
handle_wwfc_report services ref command r = elim (object ref r.state) [
  | none ↦ finished r
  | some g ↦ finished (report_loop services g (services.map_order command.other_values) r)
]

-- `session.User`
abbrev user_of : GameSpySession → User
user_of s = record {
  profile_id = s.profile_id;
  user_id = s.user_id;
  gsbr_code = s.gsbr_code;
  email = s.email;
  unique_nick = s.unique_nick;
  first_name = s.first_name;
  last_name = s.last_name;
}

-- The user and the place: of the session that is online, or of the database, by database.GetProfile.
unfoldable pub find_profile : Services → ℕ → Gpcm → Option (User × Bytes)
unfolding online
find_profile services profile_id state = elim (online profile_id state) [
  | some session ↦ some (user_of session, session.loc_string)
  | none ↦ elim (services.get_user profile_id) [
    | none ↦ none
    | some row ↦ some (record row { profile_id = profile_id }, [])
  ]
]

-- `"000000000" + user.GsbrCode[:4] + "0000000"`
abbrev public_name : Bytes → Bytes
public_name code = str "000000000" ++ (take 4 code ++ str "0000000")

-- the answer `pi`, with the values that the two branches of the code give
unfoldable pub profile_answer :
    Services → GameSpyCommand → Bytes → Bytes → Bytes → Bytes → Bytes → Bytes → Bytes → Bytes
unfolding text_at create_gamespy_message
profile_answer services command nick user_id email unique_nick first_name last_name loc_string =
    create_gamespy_message (record {
      command = str "pi";
      command_value = [];
      other_values = services.map_order (
          (str "profileid", text_at (str "profileid") command.other_values)
          ∷ (str "nick", nick)
          ∷ (str "userid", user_id)
          ∷ (str "email", email)
          ∷ (str "sig", services.signature)
          ∷ (str "uniquenick", unique_nick)
          ∷ (str "firstname", first_name)
          ∷ (str "lastname", last_name)
          ∷ (str "pid", str "11")
          ∷ (str "lon", str "0.000000")
          ∷ (str "lat", str "0.000000")
          ∷ (str "loc", loc_string)
          ∷ (str "id", text_at (str "id") command.other_values)
          ∷ []);
    })

-- the profile as its owner sees it, and as others do; `user.GsbrCode[:4]` can be out of bounds
unfoldable pub show_profile :
    Services → GameSpySession → GameSpyCommand → User → Bytes → Outcome Bytes
unfolding profile_answer decimal
show_profile services g command user loc_string =
    let name = public_name user.gsbr_code in
    if user.profile_id == g.profile_id
    then ok (
        profile_answer services command user.unique_nick (decimal user.user_id) user.email
          user.unique_nick user.first_name user.last_name loc_string)
    else if ltb (length user.gsbr_code) 4
    then panicked
    else ok (
        profile_answer services command name (str "0") (name ++ str "@nds") name user.first_name
          name loc_string)

-- `g.WriteBuffer += …`
unfoldable pub write_answer : ℕ → Outcome Bytes → Trace → Run
unfolding change
write_answer ref (ok text) r =
    finished (change ref (λ s. record s { write_buffer = s.write_buffer ++ text }) r)
write_answer ref rejected r = finished r
write_answer ref panicked r = halted r

-- getProfile
unfoldable pub get_profile : Services → ℕ → GameSpyCommand → Trace → Run
unfolding object parse_uint32 text_at act find_profile show_profile write_answer
get_profile services ref command r = elim (object ref r.state) [
  | none ↦ finished r
  | some g ↦ elim (parse_uint32 (text_at (str "profileid") command.other_values)) [
    | none ↦ finished (act (reply_error ref err_get_profile) r)
    | some profile_id ↦ elim (find_profile services profile_id r.state) [
      | none ↦ finished (act (reply_error ref err_get_profile_bad_profile) r)
      | some (user, loc_string) ↦
          write_answer ref (show_profile services g command user loc_string) r
    ]
  ]
]
