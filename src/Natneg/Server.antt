-- ===== src/Natneg/Server.antt =====
-- natneg/main.go: the packet dispatch and the end of a session.
use wfc_server_private.Natneg.{
  Client, Session, Effect, send, nn_init_request, nn_connect_reply, nn_address_check_request,
  nn_natify_request, nn_report_request, nn_report_reply, nn_pre_init_request, nn_init_request_wimm,
  magic, create_packet_header,
}
use wfc_server_private.Natneg.Connect.{handle_connect_reply}
use wfc_server_private.Natneg.Init.{handle_init, handle_preinit}
use wfc_server_private.Natneg.Report.{handle_report}
use wfc_server_private.Prelude.{
  ℕ, ◌+◌, ◌*◌, Bool, true, false, not, ◌||◌, Option, none, some, List, [], ◌∷◌, ◌++◌, ◌==◌,
  if◌then◌else◌, Bytes, str_eq,
}
use wfc_server_private.Prelude.Maps.{find, insert, delete}
use wfc_server_private.Prelude.Outcome.{Outcome, ok, ◌>>=◌}

pub record Server : Type 0 where
  pub sessions : List (ℕ × Session)
  pub in_shutdown : Bool

unfoldable pub new_session : ℕ → ℕ → Session
new_session version cookie = record {
  is_open = true;
  version = version;
  cookie = cookie;
  clients = [];
}

-- Fields of the 12 byte header, and the payload behind it.
pub record Header : Type 0 where
  pub version : ℕ
  pub command : ℕ
  pub cookie : ℕ
  pub payload : Bytes

-- the magic and length checks, and the fields
unfoldable pub parse_header : Bytes → Option Header
parse_header (m0 ∷ m1 ∷ m2 ∷ m3 ∷ m4 ∷ m5 ∷ v ∷ cmd ∷ c0 ∷ c1 ∷ c2 ∷ c3 ∷ payload) =
    if str_eq (m0 ∷ m1 ∷ m2 ∷ m3 ∷ m4 ∷ m5 ∷ []) magic
    then some (record {
      version = v;
      command = cmd;
      cookie = c3 + 256 * c2 + 65536 * c1 + 16777216 * c0;
      payload = payload;
    })
    else none
parse_header _ = none

-- The orders in which a handler's map iterations go: over the clients for the outer loop of
-- sendConnectRequests, and for the inner loop of each client.
pub record Orders : Type 0 where
  pub outer : List ℕ
  pub inner : ℕ → List ℕ

-- `switch command`, on the session of the cookie. Of the commands that are not named here the code
-- writes a line to its log.
unfoldable pub dispatch : Orders → Session → Bytes → Header → Outcome (Session × List Effect)
unfolding handle_init handle_connect_reply handle_report handle_preinit
dispatch o session addr h =
    if h.command == nn_init_request || h.command == nn_init_request_wimm
    then ok (handle_init o.inner o.outer session addr h.version h.payload)
    else if h.command == nn_connect_reply
    then (do s ← handle_connect_reply session h.payload; ok (s, []))
    else if h.command == nn_report_request
    then handle_report o.inner o.outer session addr h.version h.payload
    else if h.command == nn_pre_init_request
    then ok (session, handle_preinit session addr h.version h.payload)
    else ok (session, [])

-- the session of the cookie, created if there is none; its timer is the event `close_session`
unfoldable pub open_session : Server → Header → Session
unfolding new_session
open_session server h = elim (find h.cookie server.sessions) [
  | none ↦ new_session h.version h.cookie
  | some session ↦ session
]

unfoldable pub put_session : Server → ℕ → Session → Server
put_session server cookie session = record server {
  sessions = insert cookie session server.sessions;
}

-- what follows the header, for a command that has a session
unfoldable pub handle_in_session : Orders → Server → Bytes → Header → Outcome (Server × List Effect)
unfolding open_session put_session dispatch
handle_in_session o server addr h =
    let session = open_session server h in
    if not (session.version == h.version) then ok (put_session server h.cookie session, []) else (do
      (after, effects) ← dispatch o session addr h
      ok (put_session server h.cookie after, effects))

-- handleConnection
unfoldable pub handle_connection : Orders → Server → Bytes → Bytes → Outcome (Server × List Effect)
unfolding parse_header handle_in_session
handle_connection o server addr buffer = elim (parse_header buffer) [
  | none ↦ ok (server, [])
  | some h ↦
      if h.command == nn_natify_request || h.command == nn_address_check_request
      then ok (server, [])
      else handle_in_session o server addr h
]

-- the report acknowledgement that makes a client cancel
unfoldable pub cancel_packet : ℕ → ℕ → ℕ → Bytes
unfolding create_packet_header
cancel_packet version cookie index =
    create_packet_header version nn_report_reply cookie
    ++ (0x00 ∷ index ∷ 0x00 ∷ 0x00 ∷ 0x00 ∷ 0x00 ∷ 0x06 ∷ 0x00 ∷ 0x00 ∷ [])

-- "Disconnect each client": those that are connecting to another
unfoldable pub disconnect_all : ℕ → ℕ → List (ℕ × Client) → List Effect
unfolding cancel_packet
disconnect_all version cookie [] = []
disconnect_all version cookie ((k, client) ∷ m) =
    let rest = disconnect_all version cookie m in
    if client.connecting_index == client.index
    then rest
    else send client.negotiate_ip (cancel_packet version cookie client.index) ∷ rest

-- closeSession, when the timer of `session` fires. The session leaves the table closed, which ends
-- the goroutines that hold it.
unfoldable pub close_session : Server → Session → Server × Session × List Effect
unfolding disconnect_all
close_session server session = if server.in_shutdown then (server, session, []) else (
  record server { sessions = delete session.cookie server.sessions },
  record session { is_open = false },
  disconnect_all session.version session.cookie session.clients,
)
