-- ===== src/Gpcm/Tests.antt =====
-- Friend lists of gpcm with two concrete sessions.
use wfc_server_private.GameSpy.{GameSpyCommand}
use wfc_server_private.Gpcm.{
  GameSpySession, send_packet, Trace, object, online, finished, begin, parse_uint32,
}
use wfc_server_private.Gpcm.Friend.{add_friend}
use wfc_server_private.Gpcm.Friend.Mutual.{Authorizes, Meets, add_friend_mutual, add_friend_twice}
use wfc_server_private.Gpcm.Lists.{is_in, drop_friend, count}
use wfc_server_private.Gpcm.Lists.Removal.{drop_friend-count}
use wfc_server_private.Gpcm.OpenHost.{open_host_disabled}
use wfc_server_private.Gpcm.OpenHost.Clears.{open_host_disabled_clears}
use wfc_server_private.Gpcm.Profile.{get_profile}
use wfc_server_private.Gpcm.Sample.{blank, waiting, host_session, two_players, no_services}
use wfc_server_private.Gpcm.Send.{bm, is_exploited, send_friend_status}
use wfc_server_private.Gpcm.Send.Shown.{send_friend_status-actions}
use wfc_server_private.Gpcm.Store.{IsKeyed}
use wfc_server_private.IpAddress.{digits_value}
use wfc_server_private.Prelude.{
  ℕ, ◌+◌, ◌≤◌, ◌≡◌, refl, true, not, ◌&&◌, some, List, [], ◌∷◌, arith, if◌then◌else◌, str,
}
use wfc_server_private.Prelude.Dict.{text_at}
use wfc_server_private.Prelude.Maps.{find, insert}
use wfc_server_private.Prelude.Outcome.{ok}

abbrev add_bob : GameSpyCommand
add_bob = record {
  command = str "addbuddy";
  command_value = [];
  other_values = (str "newprofileid", str "200") ∷ [];
}

abbrev parted : GameSpySession
parted = record waiting { auth_friend_list = 100 ∷ [] }

two_players-Meets : Meets 10 20 200 blank waiting (two_players blank waiting)
unfolding object find is_in
two_players-Meets = record {
  sender = refl;
  found = refl;
  stored = refl;
  keyed = refl;
  logged_in = refl;
  other = λ e. ground arith;
  not_host = refl;
  same_game = refl;
  added = refl;
  new = refl;
}

parted-Meets : Meets 10 20 200 blank parted (two_players blank parted)
unfolding object find is_in
parted-Meets = record {
  sender = refl;
  found = refl;
  stored = refl;
  keyed = refl;
  logged_in = refl;
  other = λ e. ground arith;
  not_host = refl;
  same_game = refl;
  added = refl;
  new = refl;
}

add_friend_mutual_example :
    (after : Trace) × (add_friend 10 add_bob (two_players blank waiting) ≡ ok after)
    × Authorizes 10 (200 ∷ []) after
    × Authorizes 20 (100 ∷ []) after
unfolding parse_uint32 text_at digits_value
add_friend_mutual_example =
    add_friend_mutual 10 20 200 blank waiting (two_players blank waiting) two_players-Meets add_bob
      refl refl (omega arith)

add_friend_twice_example :
    (after : Trace) × (pids : List ℕ) × (add_friend 10 add_bob (two_players blank parted)
      ≡ ok after)
    × Authorizes 20 pids after
    × (2 ≤ count 100 pids)
    × (is_in 100 (drop_friend 100 pids) ≡ true)
unfolding parse_uint32 text_at is_in digits_value
add_friend_twice_example =
    add_friend_twice 10 20 200 blank parted (two_players blank parted) parted-Meets add_bob refl
      refl (omega arith) refl

drop_friend-count_example : count 3 (2 ∷ 3 ∷ 3 ∷ []) ≡ count 3 (drop_friend 3 (2 ∷ 3 ∷ 3 ∷ [])) + 1
unfolding is_in
drop_friend-count_example = drop_friend-count 3 3 (2 ∷ 3 ∷ 3 ∷ []) refl

two_players-IsKeyed : IsKeyed (two_players host_session waiting).state
unfolding find
two_players-IsKeyed k s e = ground arith

open_host_disabled_clears_example :
    object 10 (open_host_disabled 10 (two_players host_session waiting)).state
    ≡ some (record host_session { auth_friend_list = [] })
unfolding object find is_in
open_host_disabled_clears_example =
    open_host_disabled_clears 10 host_session (two_players host_session waiting) refl
      two_players-IsKeyed ((refl, λ e. ground arith), ((refl, λ e. ground arith), tt))

abbrev ask_bob : GameSpyCommand
ask_bob = record {
  command = str "getprofile";
  command_value = [];
  other_values = (str "profileid", str "200") ∷ [];
}

masked_profile :
    get_profile no_services 10 ask_bob (two_players blank waiting)
    ≡ finished (
        two_players
          (record blank {
            write_buffer =
                str
                  "\\pi\\\\profileid\\200\\nick\\000000000RMCJ0000000\\userid\\0\\email\\000000000RMCJ0000000@nds\\sig\\\\uniquenick\\000000000RMCJ0000000\\firstname\\\\lastname\\000000000RMCJ0000000\\pid\\11\\lon\\0.000000\\lat\\0.000000\\loc\\\\id\\\\final\\";
          })
          waiting)
unfolding get_profile find digits_value insert
masked_profile = refl

abbrev exploitable : GameSpySession
exploitable = record waiting { needs_exploit = true; game_code = str "RMCP" }

abbrev placed : GameSpySession
placed = record blank {
  auth_friend_list = 200 ∷ [];
  loc_string = str "a place of more than twenty bytes";
}

send_friend_status-actions_example :
    (send_friend_status 10 200 (begin (two_players placed exploitable).state)).actions ≡ (
      if is_in 200 placed.auth_friend_list
        && (is_in 100 exploitable.friend_list && not (is_exploited exploitable placed.loc_string))
      then send_packet 20 (bm (str "100") 100 placed.status) ∷ []
      else [])
unfolding object online find
send_friend_status-actions_example =
    send_friend_status-actions 10 200 (two_players placed exploitable).state placed exploitable refl
      refl
