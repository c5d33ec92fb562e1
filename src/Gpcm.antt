-- ===== src/Gpcm.antt =====
-- gpcm: the sessions of the players. A session is an object under the index of its connection, by which
-- pointers refer to it; the map `sessions` of gpcm/main.go takes a profile id to such a pointer, so two
-- names can stand for one object. Each handler is one step here: the code holds the mutex of the package
-- while it works on both maps, and bestieMessage takes it after its first tests. A panic is recovered in
-- HandlePacket.
pub mod Lists
pub mod Store
pub mod Send
pub mod Friend
pub mod Status
pub mod OpenHost
pub mod Bestie
pub mod Profile
pub mod Packet
pub mod Invariant
pub mod Sample
mod Tests
use wfc_server_private.IpAddress.{digits_value}
use wfc_server_private.MatchCommand.{Reservation, ResvOk, MatchCommandData}
use wfc_server_private.Prelude.{
  ℕ, ◌^◌, Bool, Option, none, some, List, [], ◌∷◌, ◌++◌, ltb, if◌then◌else◌, Bytes,
}
use wfc_server_private.Prelude.Maps.{find, insert}

-- The fields of `User` that the handlers read stand beside the others; those that only the login and the
-- errors use are left out.
pub record GameSpySession : Type 0 where
  pub conn_index : ℕ
  pub remote_addr : Bytes
  pub profile_id : ℕ
  pub user_id : ℕ
  pub gsbr_code : Bytes
  pub email : Bytes
  pub unique_nick : Bytes
  pub first_name : Bytes
  pub last_name : Bytes
  pub open_host : Bool
  pub restricted : Bool
  pub logged_in : Bool
  pub device_authenticated : Bool
  pub game_name : Bytes
  pub game_code : Bytes
  pub unit_code : ℕ
  pub status_set : Bool
  pub status : Bytes
  pub loc_string : Bytes
  pub friend_list : List ℕ
  pub auth_friend_list : List ℕ
  pub recv_status_from_list : List ℕ
  pub qr2_ip : ℕ
  pub reservation : MatchCommandData
  pub reservation_pid : ℕ
  pub needs_exploit : Bool
  pub read_buffer : Bytes
  pub write_buffer : Bytes

-- What a handler does outside of the sessions: common.SendPacket on a connection, the reply of an error
-- to a session, kickPlayer, the calls
-- that tell qr2 of a new status, of a user packet (ProcessUSER), of an address or of an accepted reservation, and common.CloseConnection.
pub data Action : Type 0 where
  send_packet : ℕ → Bytes → Action
  reply_error : ℕ → ℕ → Action
  kick_player : ℕ → Bytes → Action
  status_update : ℕ → ℕ → Bytes → Action
  process_user : ℕ → ℕ → Bytes → Action
  tell_addr : ℕ → ℕ → ℕ → ℕ → Action
  resv_ok : ℕ → Reservation → ResvOk → ℕ → ℕ → ℕ → ℕ → Action
  close_connection : ℕ → Action

-- The objects, and the map `sessions`.
pub record Gpcm : Type 0 where
  pub objects : List (ℕ × GameSpySession)
  pub sessions : List (ℕ × ℕ)

-- A handler's run so far.
pub record Trace : Type 0 where
  pub state : Gpcm
  pub actions : List Action

-- the object behind a pointer
unfoldable pub object : ℕ → Gpcm → Option GameSpySession
object ref state = find ref state.objects

-- `sessions[pid]`, with the object
unfoldable pub session_of : ℕ → Gpcm → Option GameSpySession
unfolding object
session_of pid state = elim (find pid state.sessions) [ none ↦ none | some ref ↦ object ref state ]

-- `sessions[pid]; ok && session.LoggedIn`
unfoldable pub online : ℕ → Gpcm → Option GameSpySession
unfolding session_of
online pid state = elim (session_of pid state) [
  | none ↦ none
  | some s ↦ if s.logged_in then some s else none
]

-- an assignment to fields of the object
unfoldable pub change : ℕ → (GameSpySession → GameSpySession) → Trace → Trace
unfolding object
change ref f r = elim (object ref r.state) [
  | none ↦ r
  | some s ↦ record r { state = record r.state { objects = insert ref (f s) r.state.objects } }
]

unfoldable pub act : Action → Trace → Trace
act a r = record r { actions = r.actions ++ (a ∷ []) }

-- How a handler ends: it returns, or it panics, after what was done before.
pub data Run : Type 0 where
  finished : Trace → Run
  halted : Trace → Run

-- What a run did, whether it returned or not.
abbrev pub trace_of : Run → Trace
trace_of (finished r) = r
trace_of (halted r) = r

abbrev pub begin : Gpcm → Trace
begin state = record { state = state; actions = [] }

-- error codes of gpcm/error.go
abbrev pub err_parse : ℕ
err_parse = 0x0001

abbrev pub err_not_logged_in : ℕ
err_not_logged_in = 0x0002

abbrev pub err_message : ℕ
err_message = 0x0900

abbrev pub err_message_not_friends : ℕ
err_message_not_friends = 0x0901

abbrev pub err_add_friend : ℕ
err_add_friend = 0x0600

abbrev pub err_add_friend_bad_new : ℕ
err_add_friend_bad_new = 0x0602

abbrev pub err_auth_add_bad_from : ℕ
err_auth_add_bad_from = 0x0701

abbrev pub err_get_profile : ℕ
err_get_profile = 0x0A00

abbrev pub err_get_profile_bad_profile : ℕ
err_get_profile_bad_profile = 0x0A01

abbrev pub err_delete_friend : ℕ
err_delete_friend = 0x0B00

-- strconv.ParseUint(s, 10, 32)
unfoldable pub parse_uint32 : Bytes → Option ℕ
parse_uint32 [] = none
parse_uint32 (c ∷ s) = elim (digits_value 0 (c ∷ s)) [
  | none ↦ none
  | some n ↦ if ltb n (2 ^ 32) then some n else none
]
