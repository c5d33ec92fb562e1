-- ===== src/Natneg/Tests.antt =====
-- Runs of the negotiation server, and its theorems at concrete inputs.
use wfc_server_private.Natneg.{Client, Session, Effect, send, natneg_report, magic}
use wfc_server_private.Natneg.Connect.{has_result, idle, aim, send_connect_requests}
use wfc_server_private.Natneg.Identity.{SameIdentity, handle_init-Still}
use wfc_server_private.Natneg.Init.{InitPacket, parse_init, handle_init}
use wfc_server_private.Natneg.Invariant.Links.{IsLinked}
use wfc_server_private.Natneg.Pairing.{Waiting, paired, two_clients_paired}
use wfc_server_private.Natneg.Reachable.{Step, Reachable, Reachable-IsSound}
use wfc_server_private.Natneg.Report.{make_lookup_addr, worse, take_report, handle_report}
use wfc_server_private.Natneg.Reports.{reported, report_concludes}
use wfc_server_private.Natneg.Safety.{
  HasAddresses, handle_report-NoPanic, short_report_panics, unmapped_report_panics,
}
use wfc_server_private.Natneg.Server.{
  Server, new_session, Header, parse_header, Orders, open_session, handle_connection, close_session,
}
use wfc_server_private.Natneg.Sessions.{
  IsSound, handle_connection-IsSound, handle_connection_isolates,
}
use wfc_server_private.Natneg.ThreeClients.{ThreeWaiting, after_three, third_client_steals}
use wfc_server_private.Prelude.{
  ℕ, ◌+◌, ◌*◌, ◌^◌, ◌≡◌, refl, subst, ◌≢◌, ◌↔◌, inl, true, false, some, List, [], ◌∷◌, ◌++◌, arith,
  Bytes, str,
}
use wfc_server_private.Prelude.Maps.{find, insert}
use wfc_server_private.Prelude.Outcome.{ok, panicked}

abbrev client : ℕ → Bytes → Client
client i ip = record {
  cookie = 7;
  index = i;
  connecting_index = i;
  connect_ack = false;
  result = [];
  negotiate_ip = ip;
  local_ip = [];
  server_ip = ip;
  game_name = str "mariokartwii";
}

abbrev ip_a : Bytes
ip_a = str "1.2.3.4:5000"

abbrev ip_b : Bytes
ip_b = str "5.6.7.8:6000"

abbrev two : Session
two = record {
  is_open = true;
  version = 3;
  cookie = 7;
  clients = (0, client 0 ip_a) ∷ (1, client 1 ip_b) ∷ [];
}

abbrev server : Server
server = record { sessions = []; in_shutdown = false }

abbrev orders : Orders
orders = record { outer = 0 ∷ 1 ∷ []; inner = λ _. 0 ∷ 1 ∷ [] }

abbrev report_packet : Bytes
report_packet = magic ++ (3 ∷ 0x0D ∷ 0 ∷ 0 ∷ 0 ∷ 7 ∷ 0 ∷ [])

abbrev report_header : Header
report_header = record { version = 3; command = 0x0D; cookie = 7; payload = 0 ∷ [] }

short_report_panics_example : handle_connection orders server ip_a report_packet ≡ panicked
unfolding parse_header open_session find
short_report_panics_example =
    short_report_panics orders server ip_a report_packet report_header refl refl refl (omega arith)

unmapped_report_panics_example :
    take_report 0 1 (record two { clients = (0, record (client 0 ip_a) { server_ip = [] }) ∷ [] })
    ≡ panicked
unfolding find
unmapped_report_panics_example =
    unmapped_report_panics
      (record two { clients = (0, record (client 0 ip_a) { server_ip = [] }) ∷ [] }) 0 1
      (record (client 0 ip_a) { server_ip = [] }) refl refl refl

waiting : Waiting two.clients 0 1 (client 0 ip_a) (client 1 ip_b)
unfolding find idle has_result
waiting = record {
  first = refl;
  second = refl;
  distinct = omega arith;
  first_idle = refl;
  second_idle = refl;
  no_result = refl;
}

two_clients_paired_example :
    (send_connect_requests (λ _. 0 ∷ 1 ∷ []) (0 ∷ 1 ∷ []) two.clients
      ≡ (paired two.clients 0 1 (client 0 ip_a) (client 1 ip_b) waiting, (0, 1) ∷ []))
    × (find 0 (paired two.clients 0 1 (client 0 ip_a) (client 1 ip_b) waiting)
        ≡ some (aim 1 (client 0 ip_a)))
    × (find 1 (paired two.clients 0 1 (client 0 ip_a) (client 1 ip_b) waiting)
        ≡ some (aim 0 (client 1 ip_b)))
two_clients_paired_example =
    two_clients_paired two.clients 0 1 (client 0 ip_a) (client 1 ip_b) waiting (λ _. 0 ∷ 1 ∷ [])
      (inl refl)

-- An init packet of client 1 for the session of cookie 7, its game port's address.
abbrev init_payload : Bytes
init_payload = 1 ∷ 1 ∷ 0 ∷ 10 ∷ 0 ∷ 0 ∷ 1 ∷ 19 ∷ 136 ∷ (str "mariokartwii" ++ 0 ∷ [])

abbrev init_packet : Bytes
init_packet = magic ++ (3 ∷ 0x00 ∷ 0 ∷ 0 ∷ 0 ∷ 7 ∷ init_payload)

abbrev after_init : Server
after_init = record server {
  sessions =
      (
        7,
        record (new_session 3 7) {
          clients = (1, record (client 1 ip_b) { local_ip = str "10.0.0.1:5000" }) ∷ [];
        },
      )
      ∷ [];
}

abbrev init_effects : List Effect
init_effects =
    send ip_b (
      magic
      ++ (3 ∷ 1 ∷ 0 ∷ 0 ∷ 0 ∷ 7 ∷ 1 ∷ 1 ∷ 0xff ∷ 0xff ∷ 0x6d ∷ 0x16 ∷ 0xb5 ∷ 0x7d ∷ 0xea ∷ []))
    ∷ []

-- the first packet of a client creates its session, and is acknowledged
init_run : handle_connection orders server ip_b init_packet ≡ ok (after_init, init_effects)
unfolding handle_connection find insert new_session
init_run = refl

IsSound-empty : IsSound server
unfolding find
IsSound-empty = record { cookie = λ k s e. cc; linked = λ k s e. cc }

handle_connection-IsSound_example : IsSound after_init
handle_connection-IsSound_example =
    handle_connection-IsSound orders server ip_b init_packet after_init init_effects IsSound-empty
      init_run

cookie_ne : (h : Header) → parse_header init_packet ≡ some h → h.cookie ≢ 8
unfolding parse_header
cookie_ne h e = ground arith

handle_connection_isolates_example : find 8 after_init.sessions ≡ find 8 server.sessions
handle_connection_isolates_example =
    handle_connection_isolates orders server ip_b init_packet after_init init_effects 8 init_run
      cookie_ne

index_ne : (p : InitPacket) → parse_init init_payload ≡ some p → p.client_index ≢ 0
unfolding parse_init
index_ne p e = ground arith

handle_init-Still_example :
    (d : Client) × (find 0
        (handle_init (λ _. 0 ∷ 1 ∷ []) (0 ∷ 1 ∷ []) two ip_b 3 init_payload).0.clients
      ≡ some d)
    × SameIdentity (client 0 ip_a) d
unfolding find
handle_init-Still_example =
    handle_init-Still (λ _. 0 ∷ 1 ∷ []) (0 ∷ 1 ∷ []) two 0 (client 0 ip_a) refl ip_b 3 init_payload
      index_ne

-- Two clients that connect to each other, and the report of the second.
abbrev connected : Session
connected = record two {
  clients =
      (0, record (client 0 ip_a) { result = (1, 1) ∷ [] })
      ∷ (1, record (client 1 ip_b) { connecting_index = 0 })
      ∷ [];
}

report_concludes_example :
    (take_report 1 2 connected
      ≡ ok (
        reported connected 1 0 2 (record (client 1 ip_b) { connecting_index = 0 }),
        natneg_report (worse 2 1) (6000 * 2 ^ 32 + 0x05060708) (5000 * 2 ^ 32 + 0x01020304) ∷ [],
      ))
    × ((other : ℕ) → (worse 2 other ≡ 1) ↔ (◌≡◌ {A = ℕ} 2 1) × (other ≡ 1))
unfolding find make_lookup_addr
report_concludes_example =
    report_concludes connected 0 1 2 (6000 * 2 ^ 32 + 0x05060708) (5000 * 2 ^ 32 + 0x01020304)
      (record (client 0 ip_a) { result = (1, 1) ∷ [] })
      (record (client 1 ip_b) { connecting_index = 0 }) refl refl (omega arith) refl refl refl

abbrev alone : Session
alone = record two { clients = (0, client 0 ip_a) ∷ [] }

alone-only : (k : ℕ) (c : Client) → find k alone.clients ≡ some c → (k ≡ 0) × (client 0 ip_a ≡ c)
unfolding find
alone-only k c e = (ground arith, ground arith)

alone_IsLinked : IsLinked alone.clients
unfolding find
alone_IsLinked = record {
  index = λ k c e. ground (arith, alone-only k c e);
  partner = λ k c e. (client 0 ip_a, ground (arith, alone-only k c e));
}

alone_HasAddresses : HasAddresses alone.clients
unfolding make_lookup_addr
alone_HasAddresses = record {
  lookup = λ k c e.
      subst (λ (x : Client). (a : ℕ) × (make_lookup_addr x.server_ip ≡ ok a)) (alone-only k c e).1
        (5000 * 2 ^ 32 + 0x01020304, refl);
}

handle_report-NoPanic_example :
    handle_report (λ _. 0 ∷ []) (0 ∷ []) alone ip_a 3 (0 ∷ 0 ∷ 1 ∷ []) ≢ panicked
handle_report-NoPanic_example =
    handle_report-NoPanic alone alone_IsLinked alone_HasAddresses (λ _. 0 ∷ []) (0 ∷ []) ip_a 3
      (0 ∷ 0 ∷ 1 ∷ []) (omega arith)

abbrev three : List (ℕ × Client)
three = (0, client 0 ip_a) ∷ (1, client 1 ip_b) ∷ (2, client 2 ip_a) ∷ []

three_waiting : ThreeWaiting three 0 1 2 (client 0 ip_a) (client 1 ip_b) (client 2 ip_a)
unfolding find idle has_result
three_waiting = record {
  pair = record {
    first = refl;
    second = refl;
    distinct = omega arith;
    first_idle = refl;
    second_idle = refl;
    no_result = refl;
  };
  third = refl;
  third_idle = refl;
  first_third = omega arith;
  second_third = omega arith;
  third_no_result = refl;
}

abbrev stolen : List (ℕ × Client)
stolen = after_three three 0 1 2 (client 0 ip_a) (client 1 ip_b) (client 2 ip_a) three_waiting

third_client_steals_example :
    (send_connect_requests (λ _. 0 ∷ 1 ∷ 2 ∷ []) (0 ∷ 1 ∷ 2 ∷ []) three
      ≡ (stolen, (0, 1) ∷ (0, 2) ∷ []))
    × (find 0 stolen ≡ some (aim 2 (aim 1 (client 0 ip_a))))
    × (find 1 stolen ≡ some (aim 0 (client 1 ip_b)))
    × (find 2 stolen ≡ some (aim 0 (client 2 ip_a)))
third_client_steals_example =
    third_client_steals three 0 1 2 (client 0 ip_a) (client 1 ip_b) (client 2 ip_a) three_waiting
      (λ _. 0 ∷ 1 ∷ 2 ∷ []) refl

Reachable-IsSound_example : IsSound (close_session after_init two).0
Reachable-IsSound_example = Reachable-IsSound (close_session after_init two).0 (
    Reachable.there
      (Reachable.there Reachable.here (Step.packet orders ip_b init_packet init_effects init_run))
      (Step.timer two))
