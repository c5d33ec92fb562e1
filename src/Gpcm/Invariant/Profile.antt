-- ===== src/Gpcm/Invariant/Profile.antt =====
-- The reports and the profiles of gpcm keep what every steady change keeps.
use wfc_server_private.GameSpy.{GameSpyCommand}
use wfc_server_private.Gpcm.{
  GameSpySession, reply_error, process_user, Trace, object, Run, trace_of, err_get_profile,
  err_get_profile_bad_profile, parse_uint32,
}
use wfc_server_private.Gpcm.Bestie.{Services}
use wfc_server_private.Gpcm.Invariant.{IsStable}
use wfc_server_private.Gpcm.Profile.{
  report_value, report_loop, handle_wwfc_report, find_profile, show_profile, write_answer,
  get_profile,
}
use wfc_server_private.Prelude.{
  ℕ, refl, ◌&&◌, List, [], ◌∷◌, ◌==◌, Bytes, str, str_eq, if_induction, option_induction, length,
}
use wfc_server_private.Prelude.Dict.{text_at}
use wfc_server_private.Prelude.Outcome.{Outcome, ok, rejected, panicked}

module _ (Q : Trace → Type 0) (stable : IsStable Q) (services : Services) (ref : ℕ) where
  report_loop-Stable :
      (g : GameSpySession) (entries : List (Bytes × Bytes)) (r : Trace)
      → Q r
      → Q (report_loop services g entries r)
  unfolding report_loop report_value
  report_loop-Stable g [] r h = h
  report_loop-Stable g ((key, text) ∷ entries) r h = report_loop-Stable g entries _ (
      if_induction Q (str_eq key (str "mkw_user") && str_eq g.game_name (str "mariokartwii")) _ _
        (λ _.
          option_induction Q (services.decode_base64 text) _ _ (λ _. h)
            (λ bytes _.
              if_induction Q (length bytes == 0xC0) _ _
                (λ _. stable.acts (process_user g.profile_id g.qr2_ip bytes) r h) (λ _. h)))
        (λ _. h))

  pub handle_wwfc_report-Stable :
      (command : GameSpyCommand) (r : Trace)
      → Q r
      → Q (trace_of (handle_wwfc_report services ref command r))
  unfolding handle_wwfc_report
  handle_wwfc_report-Stable command r h =
      option_induction (λ (x : Run). Q (trace_of x)) (object ref r.state) _ _ (λ _. h)
        (λ g _. report_loop-Stable g (services.map_order command.other_values) r h)

  write_answer-Stable :
      (answer : Outcome Bytes) (r : Trace) → Q r → Q (trace_of (write_answer ref answer r))
  unfolding write_answer
  write_answer-Stable (ok text) r h = stable.changes ref _ r (λ s. (refl, refl, refl, refl)) h
  write_answer-Stable rejected r h = h
  write_answer-Stable panicked r h = h

  pub get_profile-Stable :
      (command : GameSpyCommand) (r : Trace)
      → Q r
      → Q (trace_of (get_profile services ref command r))
  unfolding get_profile
  get_profile-Stable command r h =
      let P : Run → Type 0 = λ x. Q (trace_of x) in
      option_induction P (object ref r.state) _ _ (λ _. h)
        (λ g _.
          option_induction P (parse_uint32 (text_at (str "profileid") command.other_values)) _ _
            (λ _. stable.acts (reply_error ref err_get_profile) r h)
            (λ pid _.
              option_induction P (find_profile services pid r.state) _ _
                (λ _. stable.acts (reply_error ref err_get_profile_bad_profile) r h)
                (λ u _. write_answer-Stable (show_profile services g command u.0 u.1) r h)))
