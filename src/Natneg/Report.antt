-- ===== src/Natneg/Report.antt =====
-- natneg/report.go.
use wfc_server_private.IpAddress.{ip_format_to_int}
use wfc_server_private.Natneg.{
  Client, Session, Effect, send, natneg_report, nn_report_reply, create_packet_header,
}
use wfc_server_private.Natneg.Init.{connect_all}
use wfc_server_private.Prelude.{
  ℕ, ◌+◌, ◌*◌, ◌^◌, false, not, Option, none, some, List, [], ◌∷◌, ◌++◌, ◌==◌, if◌then◌else◌, Bytes,
  take, replicate,
}
use wfc_server_private.Prelude.Maps.{find, insert}
use wfc_server_private.Prelude.Outcome.{Outcome, ok, panicked, ◌>>=◌}

-- makeLookupAddr of qr2/session.go: the port above the 32 bits of the address
unfoldable pub make_lookup_addr : Bytes → Outcome ℕ
unfolding ip_format_to_int
make_lookup_addr addr = do parts ← ip_format_to_int addr; ok (parts.1 * 2 ^ 32 + parts.0)

-- `response[14] = 0`, the third byte behind the header
zero_third : Bytes → Bytes
zero_third (a ∷ b ∷ c ∷ s) = a ∷ b ∷ 0 ∷ s
zero_third s = s

-- `buffer[:9]` reaches into the zeroed rest of the 1024 byte read buffer where the packet is short.
unfoldable pub report_ack : ℕ → ℕ → Bytes → Bytes
unfolding create_packet_header zero_third
report_ack version cookie buffer =
    create_packet_header version nn_report_reply cookie
    ++ zero_third (take 9 (buffer ++ replicate 9 0))

-- the reporting client, under the key `index`, after its report
unfoldable pub record_result : ℕ → ℕ → Client → Client
record_result index value client = record client {
  result = insert client.connecting_index value client.result;
  connecting_index = index;
  connect_ack = false;
}

-- the result that counts for both: a result other than 1 wins
unfoldable pub worse : ℕ → ℕ → ℕ
worse own other = if not (other == 1) then other else own

-- `if otherResult, hasResult := connecting.Result[clientIndex]; hasResult`; a missing client is a
-- nil pointer, which panics
unfoldable pub conclude : ℕ → ℕ → Client → Option Client → Outcome (List Effect)
unfolding worse make_lookup_addr
conclude index value client none = panicked
conclude index value client (some connecting) = elim (find index connecting.result) [
  | none ↦ ok []
  | some other ↦ (do
    addr1 ← make_lookup_addr client.server_ip
    addr2 ← make_lookup_addr connecting.server_ip
    ok (natneg_report (worse value other) addr1 addr2 ∷ []))
]

-- what follows the acknowledgement
unfoldable pub take_report : ℕ → ℕ → Session → Outcome (Session × List Effect)
unfolding record_result conclude
take_report index value session = elim (find index session.clients) [
  | none ↦ ok (session, [])
  | some client ↦
      let clients = insert index (record_result index value client) session.clients in
      (do
        reported ← conclude index value client (find client.connecting_index clients)
        ok (record session { clients = clients }, reported))
]

-- handleReport; `buffer[1]` and `buffer[2]` past the end are panics
unfoldable pub handle_report :
    (ℕ → List ℕ) → List ℕ → Session → Bytes → ℕ → Bytes → Outcome (Session × List Effect)
unfolding take_report connect_all report_ack
handle_report order ids session addr version (a ∷ index ∷ value ∷ rest) = do
  (after, reported) ← take_report index value session
  let ack = report_ack version session.cookie (a ∷ index ∷ value ∷ rest)
  let (last, started) = connect_all order ids after
  ok (last, send addr ack ∷ (reported ++ started))
handle_report order ids session addr version _ = panicked
