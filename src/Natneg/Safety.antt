-- ===== src/Natneg/Safety.antt =====
-- When handling a packet can bring the negotiation server down (natneg).
use wfc_server_private.Natneg.{Client, Session, nn_report_request}
use wfc_server_private.Natneg.Invariant.Links.{IsLinked}
use wfc_server_private.Natneg.Report.{
  make_lookup_addr, record_result, conclude, take_report, handle_report,
}
use wfc_server_private.Natneg.Server.{
  Server, Header, parse_header, Orders, dispatch, open_session, handle_in_session,
  handle_connection,
}
use wfc_server_private.Prelude.{
  ℕ, ◌≤◌, ◌<◌, ◌≡◌, refl, ◌≢◌, inl, inr, Option, none, some, List, [], ◌∷◌, arith, ◌==◌, Bytes,
  ==_refl, Bool-cases, length,
}
use wfc_server_private.Prelude.Maps.{find, insert, find-insert}
use wfc_server_private.Prelude.Outcome.{ok, panicked, NoPanic, NoPanic-bind, NoPanic-ne}

-- The addresses that the clients' games use are known and well formed.
pub record HasAddresses (clients : List (ℕ × Client)) : Type 0 where
  pub lookup :
      (k : ℕ) (c : Client)
      → find k clients ≡ some c
      → (a : ℕ) × (make_lookup_addr c.server_ip ≡ ok a)

conclude-NoPanic :
    (i value : ℕ) (client other : Client)
    → ((a : ℕ) × (make_lookup_addr client.server_ip ≡ ok a))
    → ((a : ℕ) × (make_lookup_addr other.server_ip ≡ ok a))
    → NoPanic (conclude i value client (some other))
unfolding conclude
conclude-NoPanic i value client other (a, ea) (b, eb) = go (find i other.result) refl
  where
    go : (o : Option ℕ) → find i other.result ≡ o → NoPanic (conclude i value client (some other))
    go none e = rw (e, conclude) tt
    go (some v) e = rw (e, conclude) (simp (ea, eb) tt)

module _ (session : Session) (h : IsLinked session.clients)
    (known : HasAddresses session.clients) where
  -- the partner of a reporting client is found, with the address that the client has
  partner_found :
      (i value : ℕ) (c : Client)
      → find i session.clients ≡ some c
      → (other : Client) × (find c.connecting_index
            (insert i (record_result i value c) session.clients)
          ≡ some other)
        × ((a : ℕ) × (make_lookup_addr other.server_ip ≡ ok a))
  partner_found i value c e = elim (Bool-cases (i == c.connecting_index)) [
    | inl same ↦ (
      record_result i value c,
      ground (arith, find-insert i c.connecting_index (record_result i value c) session.clients),
      unfold record_result in known.lookup i c e,
    )
    | inr other ↦
        let (d, ed) = h.partner i c e in
        (
          d,
          ground
              (arith, find-insert i c.connecting_index (record_result i value c) session.clients),
          known.lookup _ d ed,
        )
  ]

  take_report-NoPanic : (i value : ℕ) → NoPanic (take_report i value session)
  take_report-NoPanic i value = go (find i session.clients) refl
    where
      go : (o : Option Client) → find i session.clients ≡ o → NoPanic (take_report i value session)
      go none e = unfold take_report in rw (e, take_report) tt
      go (some c) e =
          let (other, found, address) = partner_found i value c e in
          unfold take_report in
          rw (e, take_report)
            (rw found (
              NoPanic-bind (conclude i value c (some other)) _
                (conclude-NoPanic i value c other (known.lookup i c e) address) (λ _ _. tt)))

  -- In a session whose clients are linked and have addresses, a report of three bytes or more is
  -- handled without a panic.
  pub handle_report-NoPanic :
      (order : ℕ → List ℕ) (ids : List ℕ) (addr : Bytes) (version : ℕ) (buffer : Bytes)
      → 3 ≤ length buffer
      → handle_report order ids session addr version buffer ≢ panicked
  unfolding handle_report
  handle_report-NoPanic order ids addr version (a ∷ i ∷ value ∷ rest) size =
      NoPanic-ne _
        (NoPanic-bind (take_report i value session) _ (take_report-NoPanic i value) (λ _ _. tt))
  handle_report-NoPanic order ids addr version (a ∷ i ∷ []) size = absurd (omega arith)
  handle_report-NoPanic order ids addr version (a ∷ []) size = absurd (omega arith)
  handle_report-NoPanic order ids addr version [] size = absurd (omega arith)

-- A report packet with fewer than three bytes behind its header, whose version is that of its
-- session, found or new, makes the server panic.
pub short_report_panics :
    (o : Orders) (server : Server) (addr buffer : Bytes) (h : Header)
    → parse_header buffer ≡ some h
    → h.command ≡ nn_report_request
    → (open_session server h).version ≡ h.version
    → length h.payload < 3
    → handle_connection o server addr buffer ≡ panicked
unfolding handle_connection handle_in_session dispatch
short_report_panics o server addr buffer h parsed command version size =
    rw (parsed, handle_connection) (simp (command, version, ==_refl, short h.payload size))
  where
    short :
        (p : Bytes)
        → length p < 3
        → handle_report o.inner o.outer (open_session server h) addr h.version p ≡ panicked
    short [] k = unfold handle_report in refl
    short (a ∷ []) k = unfold handle_report in refl
    short (a ∷ b ∷ []) k = unfold handle_report in refl
    short (a ∷ b ∷ c ∷ p) k = absurd (omega arith)

-- A report from a client that has no partner and has not sent its game address makes the server
-- panic.
pub unmapped_report_panics :
    (session : Session) (i value : ℕ) (c : Client)
    → find i session.clients ≡ some c
    → c.connecting_index ≡ i
    → c.server_ip ≡ []
    → take_report i value session ≡ panicked
unfolding take_report
unmapped_report_panics session i value c e self blank =
    let partner : find c.connecting_index (insert i (record_result i value c) session.clients)
        ≡ some (record_result i value c) =
      ground (arith, find-insert i c.connecting_index (record_result i value c) session.clients) in
    let own : find i (record_result i value c).result ≡ some value =
      unfold record_result in ground (arith, find-insert c.connecting_index i value c.result) in
    let no_address : make_lookup_addr c.server_ip ≡ panicked =
      rw blank (unfold make_lookup_addr in refl) in
    rw (e, take_report) (rw partner (unfold conclude in rw (own, conclude) (rw no_address)))
