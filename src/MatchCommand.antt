-- ===== src/MatchCommand.antt =====
-- common/match_command.go: the match commands that game clients exchange through the server.
-- The data types stand here, the codec in the modules below.
pub mod Words
pub mod Decode
pub mod Encode
pub mod Safety
pub mod RoundTrip
mod Tests
use wfc_server_private.Prelude.{
  ℕ, Bool, true, false, Option, none, some, List, [], ◌∷◌, Bytes, ◌==◌, ◌||◌,
}

-- the command bytes that the codec gives a layout
abbrev pub match_reservation : ℕ
match_reservation = 0x01

abbrev pub match_resv_ok : ℕ
match_resv_ok = 0x02

abbrev pub match_resv_deny : ℕ
match_resv_deny = 0x03

abbrev pub match_resv_wait : ℕ
match_resv_wait = 0x04

abbrev pub match_resv_cancel : ℕ
match_resv_cancel = 0x05

abbrev pub match_tell_addr : ℕ
match_tell_addr = 0x06

abbrev pub match_server_close_client : ℕ
match_server_close_client = 0x10

abbrev pub match_poll_timeout : ℕ
match_poll_timeout = 0x11

abbrev pub match_poll_to_ack : ℕ
match_poll_to_ack = 0x12

abbrev pub match_suspend_match : ℕ
match_suspend_match = 0x82

pub record Reservation : Type 0 where
  pub match_type : ℕ
  pub has_public_ip : Bool
  pub public_ip : ℕ
  pub public_port : ℕ
  pub local_ip : ℕ
  pub local_port : ℕ
  pub unknown : ℕ
  pub is_friend : Bool
  pub local_player_count : ℕ
  pub resv_check_value : ℕ
  pub user_data : Bytes

-- The zero value of the struct.
abbrev pub zero_reservation : Reservation
zero_reservation = record {
  match_type = 0;
  has_public_ip = false;
  public_ip = 0;
  public_port = 0;
  local_ip = 0;
  local_port = 0;
  unknown = 0;
  is_friend = false;
  local_player_count = 0;
  resv_check_value = 0;
  user_data = [];
}

pub record ResvOk : Type 0 where
  pub max_players : ℕ
  pub sender_aid : ℕ
  pub profile_id : ℕ
  pub public_ip : ℕ
  pub public_port : ℕ
  pub local_ip : ℕ
  pub local_port : ℕ
  pub unknown : ℕ
  pub local_player_count : ℕ
  pub group_id : ℕ
  pub receiver_new_aid : ℕ
  pub client_count : ℕ
  pub resv_check_value : ℕ
  pub profile_ids : List ℕ
  pub is_friend : Bool
  pub user_data : Bytes

abbrev pub zero_resv_ok : ResvOk
zero_resv_ok = record {
  max_players = 0;
  sender_aid = 0;
  profile_id = 0;
  public_ip = 0;
  public_port = 0;
  local_ip = 0;
  local_port = 0;
  unknown = 0;
  local_player_count = 0;
  group_id = 0;
  receiver_new_aid = 0;
  client_count = 0;
  resv_check_value = 0;
  profile_ids = [];
  is_friend = false;
  user_data = [];
}

-- `ReasonString` is a text for the log that `Reason` determines; it is left out.
pub record ResvDeny : Type 0 where
  pub reason : ℕ
  pub reason_specified : Bool
  pub user_data : Bytes

pub record TellAddr : Type 0 where
  pub local_ip : ℕ
  pub local_port : ℕ

pub record ServerCloseClient : Type 0 where
  pub profile_ids : List ℕ

pub record SuspendMatch : Type 0 where
  pub host_profile_id : ℕ
  pub is_host_flag : ℕ
  pub short : Bool
  pub suspend_value : ℕ
  pub client_aid_value : ℕ

-- The pointers of `MatchCommandData` are options; `other` is `[]` where the slice is nil.
pub record MatchCommandData : Type 0 where
  pub version : ℕ
  pub command : ℕ
  pub reservation : Option Reservation
  pub resv_ok : Option ResvOk
  pub resv_deny : Option ResvDeny
  pub tell_addr : Option TellAddr
  pub server_close_client : Option ServerCloseClient
  pub suspend_match : Option SuspendMatch
  pub other : Bytes

-- A value with its version and command alone.
abbrev pub bare : ℕ → ℕ → MatchCommandData
bare version command = record {
  version = version;
  command = command;
  reservation = none;
  resv_ok = none;
  resv_deny = none;
  tell_addr = none;
  server_close_client = none;
  suspend_match = none;
  other = [];
}

-- The DWC matching versions that the codec knows.
abbrev pub known_version : ℕ → Bool
known_version version = version == 3 || version == 11 || version == 90
