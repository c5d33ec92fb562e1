-- ===== src/Gpcm/Sample.antt =====
-- Sessions of two players for the tests of gpcm.
use wfc_server_private.Gpcm.{GameSpySession, Trace, finished, begin}
use wfc_server_private.Gpcm.Bestie.{Services}
use wfc_server_private.Gpcm.Packet.{Handlers}
use wfc_server_private.MatchCommand.{bare}
use wfc_server_private.Prelude.{true, false, none, some, [], ◌∷◌, str}

abbrev pub blank : GameSpySession
blank = record {
  conn_index = 10;
  remote_addr = str "1.2.3.4:5";
  profile_id = 100;
  user_id = 1;
  gsbr_code = str "RMCJ";
  email = str "a@nds";
  unique_nick = str "a";
  first_name = [];
  last_name = [];
  open_host = false;
  restricted = false;
  logged_in = true;
  device_authenticated = true;
  game_name = str "mariokartwii";
  game_code = str "RMCP";
  unit_code = 1;
  status_set = false;
  status = [];
  loc_string = [];
  friend_list = [];
  auth_friend_list = [];
  recv_status_from_list = [];
  qr2_ip = 0;
  reservation = bare 0 0;
  reservation_pid = 0;
  needs_exploit = false;
  read_buffer = [];
  write_buffer = [];
}

abbrev pub waiting : GameSpySession
waiting = record blank { conn_index = 20; profile_id = 200; friend_list = 100 ∷ [] }

abbrev pub host_session : GameSpySession
host_session = record blank { open_host = true; auth_friend_list = 200 ∷ 300 ∷ [] }

abbrev pub two_players : GameSpySession → GameSpySession → Trace
two_players a b =
    begin (record { objects = (10, a) ∷ (20, b) ∷ []; sessions = (100, 10) ∷ (200, 20) ∷ [] })

abbrev pub no_services : Services
no_services = record {
  decode_base64 = λ s. some s;
  encode_base64 = λ s. s;
  check_gp_reservation_allowed = λ ip pid to match_type. str "restricted";
  get_search_id = λ ip. 7;
  process_gp_resv_ok = λ version v w ip pid other_ip other. true;
  update_user_table = λ pid values. true;
  get_user = λ pid. none;
  map_order = λ values. values;
  signature = [];
}

abbrev pub no_handlers : Handlers
no_handlers = record { login = λ ref c r. finished r; ex_login = λ ref c r. finished r }
