-- ===== src/Gpcm/Invariant/Packet.antt =====
-- HandlePacket of gpcm/main.go keeps the store of sessions in order.
use wfc_server_private.GameSpy.{GameSpyCommand, is_empty_text, parse_gamespy_message}
use wfc_server_private.Gpcm.{
  send_packet, reply_error, Trace, object, change, Run, finished, halted, trace_of, err_parse,
  err_not_logged_in,
}
use wfc_server_private.Gpcm.Bestie.{Services}
use wfc_server_private.Gpcm.Invariant.{IsStable, add_friend-Stable, remove_friend-Stable}
use wfc_server_private.Gpcm.Invariant.Bestie.{bestie_message-Stable}
use wfc_server_private.Gpcm.Invariant.Profile.{handle_wwfc_report-Stable, get_profile-Stable}
use wfc_server_private.Gpcm.Invariant.Sound.{
  Leaves, LeavesIn, Leaves-IsStable, LeavesIn-IsStable, LeavesIn-IsListed,
}
use wfc_server_private.Gpcm.Invariant.Status.{
  auth_add_friend-Stable, set_status-Stable, update_profile-Stable,
}
use wfc_server_private.Gpcm.Packet.{
  Handlers, and_then, handle_command, unhandled, handle_all, first_calls, commands_left,
  later_calls, without_null, flush, handle_left, handle_commands, has_null, runes, handle_message,
  is_complete, handle_packet,
}
use wfc_server_private.Gpcm.Packet.Fragments.{set_buffer}
use wfc_server_private.Prelude.{
  ℕ, ◌≡◌, refl, Bool, true, false, not, List, [], ◌∷◌, ◌++◌, ltb, Bytes, str, str_eq, if_induction,
  option_induction, length, All,
}
use wfc_server_private.Prelude.Outcome.{outcome_induction}

-- The handler keeps the property.
abbrev pub IsKept : (Trace → Type 0) → (GameSpyCommand → Trace → Run) → Type 0
IsKept Q handler = (c : GameSpyCommand) (r : Trace) → Q r → Q (trace_of (handler c r))

-- The handlers of the login, which are parameters, keep the sessions in order.
pub record AreKept (handlers : Handlers) : Type 0 where
  pub login : (ref : ℕ) → IsKept Leaves (handlers.login ref)
  pub ex_login : (ref : ℕ) → IsKept Leaves (handlers.ex_login ref)

module _ (Q : Trace → Type 0) (stable : IsStable Q) where
  abbrev RunKeeps : Run → Type 0
  RunKeeps x = Q (trace_of x)

  and_then-Stable :
      (x : Run) (next : Trace → Run)
      → RunKeeps x
      → ((r : Trace) → Q r → RunKeeps (next r))
      → RunKeeps (and_then x next)
  unfolding and_then
  and_then-Stable (finished r) next h k = k r h
  and_then-Stable (halted r) next h k = h

  handle_command-Stable :
      (name : Bytes) (handler : GameSpyCommand → Trace → Run)
      → IsKept Q handler
      → (commands : List GameSpyCommand) (r : Trace) → Q r
      → RunKeeps (handle_command name handler commands r)
  unfolding handle_command
  handle_command-Stable name handler keeps_all [] r h = h
  handle_command-Stable name handler keeps_all (c ∷ commands) r h =
      if_induction RunKeeps (str_eq c.command name) _ _
        (λ _.
          and_then-Stable (handler c r) _ (keeps_all c r h)
            (handle_command-Stable name handler keeps_all commands))
        (λ _. handle_command-Stable name handler keeps_all commands r h)

  handle_all-Stable :
      (calls : List (Bytes × (GameSpyCommand → Trace → Run)))
      → All (λ (p : Bytes × (GameSpyCommand → Trace → Run)). IsKept Q p.1) calls
      → (commands : List GameSpyCommand) (r : Trace) → Q r
      → RunKeeps (handle_all calls commands r)
  unfolding handle_all
  handle_all-Stable [] keeps_all commands r h = h
  handle_all-Stable ((name, handler) ∷ calls) (k, ks) commands r h =
      and_then-Stable (handle_command name handler commands r) _
        (handle_command-Stable name handler k commands r h)
        (handle_all-Stable calls ks (unhandled name commands))

  flush-Stable : (ref : ℕ) (r : Trace) → Q r → Q (flush ref r)
  unfolding flush
  flush-Stable ref r h =
      option_induction Q (object ref r.state) _ _ (λ _. h)
        (λ s _.
          if_induction Q (is_empty_text s.write_buffer) _ _ (λ _. h)
            (λ _.
              stable.changes ref _ _ (λ x. (refl, refl, refl, refl))
                (stable.acts (send_packet ref (without_null s.write_buffer)) r h)))

-- The calls after the test of the login keep it for an object that is logged in.
later_calls-Stable :
    (services : Services) (pids : List ℕ) (ref : ℕ) (commands : List GameSpyCommand) (r : Trace)
    → LeavesIn ref r
    → LeavesIn ref (trace_of (handle_all (later_calls services pids ref) commands r))
later_calls-Stable services pids ref =
    let stable = LeavesIn-IsStable ref in
    let listed = LeavesIn-IsListed ref in
    handle_all-Stable (LeavesIn ref) stable (later_calls services pids ref) (
      (λ x t q. handle_wwfc_report-Stable (LeavesIn ref) stable services ref x t q),
      (
        (λ x t q. update_profile-Stable (LeavesIn ref) stable services ref pids x t q),
        (
          (λ x t q. set_status-Stable (LeavesIn ref) stable ref pids x t q),
          (
            (λ x t q. add_friend-Stable (LeavesIn ref) stable ref x t listed q),
            (
              (λ x t q. remove_friend-Stable (LeavesIn ref) stable ref x t listed q),
              (
                (λ x t q. auth_add_friend-Stable (LeavesIn ref) stable ref x t q),
                (
                  (λ x t q. bestie_message-Stable (LeavesIn ref) stable services ref x t q),
                  ((λ x t q. get_profile-Stable (LeavesIn ref) stable services ref x t q), tt),
                ),
              ),
            ),
          ),
        ),
      ),
    )

abbrev LeavesRun : Run → Type 0
LeavesRun x = Leaves (trace_of x)

in_of : (b : Bool) → not b ≡ false → b ≡ true
in_of true e = refl
in_of false e = cc

module _ (services : Services) (handlers : Handlers) (keeps_all : AreKept handlers) (pids : List ℕ)
    (ref : ℕ) where
  handle_left-Stable :
      (commands : List GameSpyCommand) (r : Trace)
      → Leaves r
      → LeavesRun (handle_left services handlers pids ref commands r)
  unfolding handle_left
  handle_left-Stable [] r h = flush-Stable Leaves Leaves-IsStable ref r h
  handle_left-Stable (c ∷ commands) r h =
      option_induction LeavesRun (object ref r.state) _ _ (λ _. h)
        (λ s stored.
          if_induction LeavesRun (not s.logged_in) _ _
            (λ _. Leaves-IsStable.acts (reply_error ref err_not_logged_in) r h)
            (λ logged_in.
              (and_then-Stable (LeavesIn ref) (LeavesIn-IsStable ref)
                (handle_all (later_calls services pids ref) (c ∷ commands) r) _
                (later_calls-Stable services pids ref (c ∷ commands) r
                  (h, (s, stored, in_of s.logged_in logged_in)))
                (λ after q. flush-Stable (LeavesIn ref) (LeavesIn-IsStable ref) ref after q)).0))

  handle_commands-Stable :
      (commands : List GameSpyCommand) (r : Trace)
      → Leaves r
      → LeavesRun (handle_commands services handlers pids ref commands r)
  unfolding handle_commands
  handle_commands-Stable commands r h =
      and_then-Stable Leaves Leaves-IsStable (handle_all (first_calls handlers ref) commands r) _
        (handle_all-Stable Leaves Leaves-IsStable (first_calls handlers ref)
          (
            (λ x t q. Leaves-IsStable.acts (send_packet ref (str "\\ka\\\\final\\")) t q),
            (keeps_all.login ref, (keeps_all.ex_login ref, tt)),
          )
          commands r h)
        (handle_left-Stable (commands_left commands))

  pub handle_packet-Stable :
      (received : Bytes) (r : Trace)
      → Leaves r
      → Leaves (handle_packet services handlers pids ref received r)
  unfolding handle_packet handle_message
  handle_packet-Stable received r h =
      option_induction Leaves (object ref r.state) _ _ (λ _. h)
        (λ s _.
          let buffer = s.read_buffer ++ received in
          let stored = change ref (set_buffer buffer) r in
          let stored_h : Leaves stored =
            Leaves-IsStable.changes ref (set_buffer buffer) r (λ x. (refl, refl, refl, refl)) h in
          let emptied = change ref (set_buffer []) stored in
          let emptied_h : Leaves emptied =
            Leaves-IsStable.changes ref (set_buffer []) stored (λ x. (refl, refl, refl, refl))
              stored_h in
          if_induction Leaves (ltb 0x4000 (length buffer)) _ _ (λ _. h)
            (λ _.
              if_induction Leaves (not (is_complete buffer)) _ _ (λ _. stored_h)
                (λ _.
                  if_induction LeavesRun (has_null buffer) _ _
                    (λ _.
                      Leaves-IsStable.changes ref (set_buffer []) _ (λ x. (refl, refl, refl, refl))
                        (Leaves-IsStable.acts (reply_error ref err_parse) stored stored_h))
                    (λ _.
                      outcome_induction LeavesRun (parse_gamespy_message (runes buffer)) _ _ _
                        (λ _. Leaves-IsStable.acts (reply_error ref err_parse) emptied emptied_h)
                        (λ _. emptied_h)
                        (λ commands _. handle_commands-Stable commands emptied emptied_h)))))
