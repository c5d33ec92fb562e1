-- ===== src/Natneg/Connect.antt =====
-- natneg/connect.go: which clients of a session are told to connect to each other.
pub mod Steps
use wfc_server_private.IpAddress.{ip_format_to_int, ip_format_bytes}
use wfc_server_private.Natneg.{
  Client, Session, Effect, send, nn_connect_request, create_packet_header, is_mapped,
}
use wfc_server_private.Prelude.{
  ℕ, ◌/◌, ◌%◌, Bool, true, false, not, ◌&&◌, ◌||◌, none, some, List, [], ◌∷◌, ◌++◌, ◌==◌,
  if◌then◌else◌, Bytes,
}
use wfc_server_private.Prelude.Maps.{find, insert}
use wfc_server_private.Prelude.Outcome.{Outcome, ok, panicked, ◌>>=◌, ◌>>◌}

-- `_, hasResult := destination.Result[id]`
unfoldable pub has_result : ℕ → Client → Bool
has_result id client = elim (find id client.result) [ none ↦ false | some _ ↦ true ]

-- a client that waits for a partner
unfoldable pub idle : ℕ → Client → Bool
unfolding is_mapped
idle id client = is_mapped client && client.connecting_index == id

unfoldable pub aim : ℕ → Client → Client
aim target client = record client { connecting_index = target; connect_ack = false }

-- The body of the inner loop: `sender` and `destination` are looked up under their keys, and the two
-- ids come back if the exchange is started.
unfoldable pub try_pair : ℕ → ℕ → List (ℕ × Client) → List (ℕ × Client) × List (ℕ × ℕ)
unfolding idle has_result aim
try_pair id dest clients = elim (find dest clients) [
  | none ↦ (clients, [])
  | some destination ↦ elim (find id clients) [
    | none ↦ (clients, [])
    | some sender ↦
        if id == dest || not (idle dest destination) || has_result id destination
        then (clients, [])
        else (
          insert dest (aim id destination) (insert id (aim dest sender) clients),
          (id, dest) ∷ [],
        )
  ]
]

-- The inner loop, over the keys in the order in which the map's iteration gives them.
unfoldable pub pair_with : ℕ → List ℕ → List (ℕ × Client) → List (ℕ × Client) × List (ℕ × ℕ)
unfolding try_pair
pair_with id [] clients = (clients, [])
pair_with id (dest ∷ dests) clients =
    let (after, started) = try_pair id dest clients in
    let (last, more) = pair_with id dests after in (last, started ++ more)

-- `if !sender.isMapped() || sender.ConnectingIndex != id { continue }`, and the inner loop
unfoldable pub pair_one : ℕ → List ℕ → List (ℕ × Client) → List (ℕ × Client) × List (ℕ × ℕ)
unfolding idle pair_with
pair_one id dests clients = elim (find id clients) [
  | none ↦ (clients, [])
  | some sender ↦ if idle id sender then pair_with id dests clients else (clients, [])
]

-- sendConnectRequests: the outer loop over `ids`; the inner loop of the client `id` goes over
-- `order id`. A Go map is iterated in any order. The pairs are those for which the code starts a
-- goroutine that repeats the connect requests.
unfoldable pub send_connect_requests :
    (ℕ → List ℕ) → List ℕ → List (ℕ × Client) → List (ℕ × Client) × List (ℕ × ℕ)
unfolding pair_one
send_connect_requests order [] clients = (clients, [])
send_connect_requests order (id ∷ ids) clients =
    let (after, started) = pair_one id (order id) clients in
    let (last, more) = send_connect_requests order ids after in (last, started ++ more)

-- sendConnectRequestPacket: `client`'s server address, for `destination`
unfoldable pub send_connect_request_packet : Client → Client → ℕ → Outcome Effect
unfolding create_packet_header ip_format_bytes ip_format_to_int
send_connect_request_packet client destination version = do
  address ← ip_format_bytes client.server_ip
  parts ← ip_format_to_int client.server_ip
  ok (
      send destination.negotiate_ip (
        create_packet_header version nn_connect_request destination.cookie
        ++ (address ++ parts.1 / 256 ∷ parts.1 % 256 ∷ 0x42 ∷ 0x00 ∷ [])))

-- `!destination.ConnectAck && destination.ConnectingIndex == sender.Index`
unfoldable pub awaits : Client → Client → Bool
awaits client other = not client.connect_ack && client.connecting_index == other.index

request_if : Bool → Client → Client → ℕ → Outcome (List Effect)
unfolding send_connect_request_packet
request_if true client destination version = do
  e ← send_connect_request_packet client destination version
  ok (e ∷ [])
request_if false client destination version = ok []

-- One round of the goroutine: what it sends, and whether it goes on.
unfoldable pub exchange_round : Session → Client → Client → Outcome (List Effect × Bool)
unfolding request_if awaits
exchange_round session sender destination = if not session.is_open then ok ([], false) else (do
  first ← request_if (awaits destination sender) sender destination session.version
  second ← request_if (awaits sender destination) destination sender session.version
  ok (first ++ second, awaits destination sender || awaits sender destination))

-- `client.ConnectAck = true` for the client of that index, if there is one
unfoldable pub mark_acked : ℕ → Session → Session
mark_acked index session = elim (find index session.clients) [
  | none ↦ session
  | some client ↦ record session {
    clients = insert index (record client { connect_ack = true }) session.clients;
  }
]

-- handleConnectReply; `buffer[1]` past the end is a panic
unfoldable pub handle_connect_reply : Session → Bytes → Outcome Session
unfolding mark_acked
handle_connect_reply session (port_type ∷ client_index ∷ _) = ok (mark_acked client_index session)
handle_connect_reply session _ = panicked
