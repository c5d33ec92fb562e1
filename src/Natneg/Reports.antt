-- ===== src/Natneg/Reports.antt =====
-- What a report leads to (natneg/report.go).
use wfc_server_private.Filter.Eval.{value}
use wfc_server_private.Natneg.{Client, Session, Effect, natneg_report}
use wfc_server_private.Natneg.Report.{make_lookup_addr, record_result, worse, conclude, take_report}
use wfc_server_private.Prelude.{
  ℕ, ◌≡◌, refl, ap, ◌≢◌, ◌↔◌, false, Option, none, some, List, [], ◌∷◌, arith,
}
use wfc_server_private.Prelude.Maps.{find, insert, find-insert}
use wfc_server_private.Prelude.Outcome.{ok}

-- The session in which the client `index` has `value` for its result with the client `partner`, and waits
-- again: it aims at itself, and no connect request of it is acknowledged.
abbrev pub reported : Session → ℕ → ℕ → ℕ → Client → Session
reported session index partner value b = record session {
  clients =
      insert index
        (record b {
          result = insert partner value b.result;
          connecting_index = index;
          connect_ack = false;
        })
        session.clients;
}

-- what is handed to qr2, from the result that the partner has recorded
abbrev pub handed : ℕ → ℕ → ℕ → Option ℕ → List Effect
handed value x y none = []
handed value x y (some other) = natneg_report (worse value other) x y ∷ []

-- A client with another client of the session for its partner reports, and the addresses of both
-- parse: the report is recorded as its result with the partner, the client aims at itself again, and none
-- of its connect requests is acknowledged; qr2 hears of the two exactly if the partner has recorded a
-- result with the client, and then once, with the result 1 exactly if both results are 1.
pub report_concludes :
    (session : Session) (i j value x y : ℕ) (a b : Client)
    → find j session.clients ≡ some b
    → b.connecting_index ≡ i
    → i ≢ j
    → find i session.clients ≡ some a
    → make_lookup_addr b.server_ip ≡ ok x
    → make_lookup_addr a.server_ip ≡ ok y
    → (take_report j value session
        ≡ ok (reported session j i value b, handed value x y (find j a.result)))
      × ((other : ℕ) → (worse value other ≡ 1) ↔ (value ≡ 1) × (other ≡ 1))
unfolding take_report worse
report_concludes session i j value x y a b eb partner ne ea ex ey = (
  rw (eb, take_report)
      (rw there (
        rw concluded (
          ap
            (λ (c : Client). ok (
              record session { clients = insert j c session.clients },
              handed value x y (find j a.result),
            ))
            same))),
  λ other. (λ h. ground arith, λ h. ground arith),
)
  where
    same :
        record_result j value b
        ≡ record b { result = insert i value b.result; connecting_index = j; connect_ack = false }
    same =
        unfold record_result in
        ap
          (λ (n : ℕ). record b {
            result = insert n value b.result;
            connecting_index = j;
            connect_ack = false;
          })
          partner

    there : find b.connecting_index (insert j (record_result j value b) session.clients) ≡ some a
    there =
        ground (arith, find-insert j b.connecting_index (record_result j value b) session.clients)

    go :
        (o : Option ℕ)
        → find j a.result ≡ o
        → conclude j value b (some a) ≡ ok (handed value x y (find j a.result))
    go none e = unfold conclude in rw (e, conclude)
    go (some other) e = unfold conclude in rw (e, conclude) (rw (ex, ey))

    concluded : conclude j value b (some a) ≡ ok (handed value x y (find j a.result))
    concluded = go _ refl
