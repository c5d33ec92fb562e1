-- ===== src/Natneg.antt =====
-- natneg/main.go: the state of the NAT negotiation server, and the packets that it sends. The
-- handlers stand in the modules below.
pub mod Reachable
pub mod Connect
pub mod Init
pub mod Report
pub mod Server
pub mod Invariant
pub mod Sessions
pub mod Safety
pub mod Pairing
pub mod ThreeClients
pub mod Reports
pub mod Identity
mod Tests
use wfc_server_private.MatchCommand.Words.{put_be}
use wfc_server_private.Prelude.{ℕ, Bool, not, ◌||◌, List, [], ◌∷◌, ◌++◌, Bytes, str_eq}

pub record Client : Type 0 where
  pub cookie : ℕ
  pub index : ℕ
  pub connecting_index : ℕ
  pub connect_ack : Bool
  pub result : List (ℕ × ℕ)
  pub negotiate_ip : Bytes
  pub local_ip : Bytes
  pub server_ip : Bytes
  pub game_name : Bytes

-- The mutex of a session serialises its handlers, and is not modelled.
pub record Session : Type 0 where
  pub is_open : Bool
  pub version : ℕ
  pub cookie : ℕ
  pub clients : List (ℕ × Client)

-- What a handler does outside its session: it writes a packet to an address, it hands a result and
-- the lookup addresses of two clients to qr2, or it starts the goroutine of `exchange_round` for two
-- clients.
pub data Effect : Type 0 where
  send : Bytes → Bytes → Effect
  natneg_report : ℕ → ℕ → ℕ → Effect
  exchange : ℕ → ℕ → Effect

abbrev pub nn_init_request : ℕ
nn_init_request = 0x00

abbrev pub nn_init_reply : ℕ
nn_init_reply = 0x01

abbrev pub nn_connect_request : ℕ
nn_connect_request = 0x05

abbrev pub nn_connect_reply : ℕ
nn_connect_reply = 0x06

abbrev pub nn_address_check_request : ℕ
nn_address_check_request = 0x0A

abbrev pub nn_natify_request : ℕ
nn_natify_request = 0x0C

abbrev pub nn_report_request : ℕ
nn_report_request = 0x0D

abbrev pub nn_report_reply : ℕ
nn_report_reply = 0x0E

abbrev pub nn_pre_init_request : ℕ
nn_pre_init_request = 0x0F

abbrev pub nn_pre_init_reply : ℕ
nn_pre_init_reply = 0x10

abbrev pub nn_init_request_wimm : ℕ
nn_init_request_wimm = 0x80

abbrev pub magic : Bytes
magic = 0xfd ∷ 0xfc ∷ 0x1e ∷ 0x66 ∷ 0x6a ∷ 0xb2 ∷ []

-- createPacketHeader
unfoldable pub create_packet_header : ℕ → ℕ → ℕ → Bytes
unfolding put_be
create_packet_header version command cookie = magic ++ version ∷ command ∷ put_be cookie

unfoldable pub is_mapped : Client → Bool
is_mapped client = not (str_eq client.negotiate_ip [] || str_eq client.server_ip [])
