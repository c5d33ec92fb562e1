-- ===== src/Natneg/Init.antt =====
-- natneg/init.go and natneg/preinit.go.
use wfc_server_private.Natneg.{
  Client, Session, Effect, send, exchange, nn_init_reply, nn_pre_init_reply, create_packet_header,
  is_mapped,
}
use wfc_server_private.Natneg.Connect.{send_connect_requests}
use wfc_server_private.Prelude.{
  ℕ, ◌+◌, ◌*◌, Bool, false, not, ◌&&◌, ◌||◌, Option, none, some, List, [], ◌∷◌, ◌++◌, ltb, ◌==◌,
  if◌then◌else◌, Bytes, str_eq,
}
use wfc_server_private.Prelude.Decimal.{decimal}
use wfc_server_private.Prelude.Maps.{find, insert}

-- common.GetString: the bytes before the first NUL, none without one
unfoldable pub get_string : Bytes → Option Bytes
get_string [] = none
get_string (c ∷ s) =
    let rest = get_string s in
    if c == 0 then some [] else elim rest [ none ↦ none | some t ↦ some (c ∷ t) ]

-- fmt.Sprintf("%d.%d.%d.%d:%d", …)
unfoldable pub format_ip : ℕ → ℕ → ℕ → ℕ → ℕ → Bytes
unfolding decimal
format_ip a b c d port =
    decimal a
    ++ (b'.' ∷ (decimal b ++ (b'.' ∷ (decimal c ++ (b'.' ∷ (decimal d ++ (b':' ∷ decimal port)))))))

-- The fields of an init packet, in their order, with the game name taken out.
pub record InitPacket : Type 0 where
  pub port_type : ℕ
  pub client_index : ℕ
  pub use_game_port : ℕ
  pub local_ip : Bytes
  pub local_port : ℕ
  pub game_name : Bytes

-- `len(buffer) < 10`, and the fields
unfoldable pub parse_init : Bytes → Option InitPacket
unfolding get_string format_ip
parse_init (p ∷ i ∷ g ∷ a ∷ b ∷ c ∷ d ∷ hi ∷ lo ∷ n ∷ rest) = elim (get_string (n ∷ rest)) [
  | none ↦ none
  | some name ↦ some (record {
    port_type = p;
    client_index = i;
    use_game_port = g;
    local_ip = format_ip a b c d (256 * hi + lo);
    local_port = 256 * hi + lo;
    game_name = name;
  })
]
parse_init _ = none

-- the three tests before the acknowledgement
unfoldable pub is_refused : InitPacket → Bool
is_refused p =
    ltb 0x03 p.port_type || (ltb 1 p.use_game_port || (p.use_game_port == 0 && p.port_type == 0x00))

-- `other.GameName != gameName` for some client
unfoldable pub game_mismatch : Bytes → List (ℕ × Client) → Bool
game_mismatch name [] = false
game_mismatch name ((k, other) ∷ m) = not (str_eq other.game_name name) || game_mismatch name m

unfoldable pub new_client : ℕ → ℕ → Client
new_client cookie index = record {
  cookie = cookie;
  index = index;
  connecting_index = index;
  connect_ack = false;
  result = [];
  negotiate_ip = [];
  local_ip = [];
  server_ip = [];
  game_name = [];
}

-- the sender's addresses, from the packet and the address that it came from
unfoldable pub learn : InitPacket → Bytes → Client → Client
learn p addr sender = record sender {
  game_name = p.game_name;
  negotiate_ip = if p.port_type == 0x00 then sender.negotiate_ip else addr;
  local_ip = if p.local_port == 0 then sender.local_ip else p.local_ip;
  server_ip = if p.use_game_port == 0 || p.port_type == 0x00 then addr else sender.server_ip;
}

unfoldable pub init_ack : ℕ → ℕ → InitPacket → Bytes
unfolding create_packet_header
init_ack version cookie p =
    create_packet_header version nn_init_reply cookie
    ++ (p.port_type ∷ p.client_index ∷ 0xff ∷ 0xff ∷ 0x6d ∷ 0x16 ∷ 0xb5 ∷ 0x7d ∷ 0xea ∷ [])

-- `exchange i j` stands for the goroutine that is started for two clients.
exchanges : List (ℕ × ℕ) → List Effect
exchanges [] = []
exchanges ((i, j) ∷ ps) = exchange i j ∷ exchanges ps

-- the call of sendConnectRequests; `order` and `ids` are the iteration orders of the clients
unfoldable pub connect_all : (ℕ → List ℕ) → List ℕ → Session → Session × List Effect
unfolding send_connect_requests exchanges
connect_all order ids session =
    let (clients, started) = send_connect_requests order ids session.clients in
    (record session { clients = clients }, exchanges started)

-- what follows the creation of the client
unfoldable pub register :
    (ℕ → List ℕ) → List ℕ → Session → InitPacket → Bytes → Client → Session × List Effect
unfolding connect_all learn is_mapped
register order ids session p addr sender =
    let learned = learn p addr sender in
    let after : Session = record session {
      clients = insert p.client_index learned session.clients;
    } in
    if is_mapped learned then connect_all order ids after else (after, [])

-- what follows the acknowledgement
unfoldable pub find_or_create :
    (ℕ → List ℕ) → List ℕ → Session → InitPacket → Bytes → Session × List Effect
unfolding register new_client game_mismatch
find_or_create order ids session p addr = elim (find p.client_index session.clients) [
  | some sender ↦ register order ids session p addr sender
  | none ↦
      if game_mismatch p.game_name session.clients
      then (session, [])
      else register order ids session p addr (new_client session.cookie p.client_index)
]

acknowledge : Bytes → Bytes → Session × List Effect → Session × List Effect
acknowledge ack addr (session, effects) = (session, send addr ack ∷ effects)

-- handleInit
unfoldable pub handle_init :
    (ℕ → List ℕ) → List ℕ → Session → Bytes → ℕ → Bytes → Session × List Effect
unfolding parse_init is_refused find_or_create init_ack acknowledge
handle_init order ids session addr version buffer = elim (parse_init buffer) [
  | none ↦ (session, [])
  | some p ↦
      if is_refused p
      then (session, [])
      else acknowledge (init_ack version session.cookie p) addr
          (find_or_create order ids session p addr)
]

-- handlePreinit: six bytes come back, the state set to "ready"
unfoldable pub handle_preinit : Session → Bytes → ℕ → Bytes → List Effect
unfolding create_packet_header
handle_preinit session addr version (index ∷ state ∷ a ∷ b ∷ c ∷ d ∷ _) =
    send addr (
      create_packet_header version nn_pre_init_reply session.cookie
      ++ (index ∷ 0x02 ∷ a ∷ b ∷ c ∷ d ∷ []))
    ∷ []
handle_preinit session addr version _ = []
