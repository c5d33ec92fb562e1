-- ===== src/Natneg/Invariant.antt =====
-- The packet handlers of natneg and what holds between the clients of a session: their links, and the
-- session's cookie and version.
pub mod Links
use wfc_server_private.Natneg.{Client, Session, Effect, is_mapped}
use wfc_server_private.Natneg.Connect.{mark_acked, handle_connect_reply}
use wfc_server_private.Natneg.Init.{
  InitPacket, parse_init, is_refused, game_mismatch, new_client, learn, connect_all, register,
  find_or_create, handle_init,
}
use wfc_server_private.Natneg.Invariant.Links.{Has, IsLinked, insert-IsLinked, send-IsLinked}
use wfc_server_private.Natneg.Report.{record_result, conclude, take_report, handle_report}
use wfc_server_private.Prelude.{
  ℕ, ◌≡◌, refl, ◌⊎◌, inl, inr, true, Option, none, some, List, [], ◌∷◌, Bytes, if_induction,
}
use wfc_server_private.Prelude.Maps.{find, insert}
use wfc_server_private.Prelude.Outcome.{Ensures, Ensures-bind, Ensures-ok}

-- What a handler keeps of its session: the links, the cookie and the version.
abbrev pub Kept : Session → Session → Type 0
Kept session after =
    IsLinked after.clients × (after.cookie ≡ session.cookie) × (after.version ≡ session.version)

abbrev pub Linked : Session → Session × List Effect → Type 0
Linked session r = Kept session r.0

module _ (order : ℕ → List ℕ) (ids : List ℕ) (session : Session)
    (h : IsLinked session.clients) where
  register-Linked :
      (p : InitPacket) (addr : Bytes) (sender : Client)
      → sender.index ≡ p.client_index
      → (p.client_index ≡ sender.connecting_index) ⊎ Has sender.connecting_index session.clients
      → Linked session (register order ids session p addr sender)
  unfolding register connect_all
  register-Linked p addr sender i k =
      let put : IsLinked (insert p.client_index (learn p addr sender) session.clients) =
        insert-IsLinked p.client_index (learn p addr sender) session.clients h (unfold learn in i)
          (unfold learn in k) in
      if_induction (Linked session) (is_mapped (learn p addr sender)) _ _
        (λ _. (send-IsLinked order ids _ put, refl, refl)) (λ _. (put, refl, refl))

  find_or_create-Linked :
      (p : InitPacket) (addr : Bytes) → Linked session (find_or_create order ids session p addr)
  unfolding find_or_create
  find_or_create-Linked p addr = go (find p.client_index session.clients) refl
    where
      go :
          (o : Option Client)
          → find p.client_index session.clients ≡ o
          → Linked session (find_or_create order ids session p addr)
      go none e =
          rw (e, find_or_create)
            (if_induction (Linked session) (game_mismatch p.game_name session.clients) _ _
              (λ _. (h, refl, refl))
              (λ _.
                register-Linked p addr (new_client session.cookie p.client_index)
                  (unfold new_client in refl) (unfold new_client in inl refl)))
      go (some c) e =
          rw (e, find_or_create) (register-Linked p addr c (h.index _ c e) (inr (h.partner _ c e)))

  -- handleInit keeps the links, the cookie and the version, on every branch.
  pub handle_init-Linked :
      (addr : Bytes) (version : ℕ) (buffer : Bytes)
      → Linked session (handle_init order ids session addr version buffer)
  unfolding handle_init
  handle_init-Linked addr version buffer = go (parse_init buffer) refl
    where
      go :
          (o : Option InitPacket)
          → parse_init buffer ≡ o
          → Linked session (handle_init order ids session addr version buffer)
      go none e = rw (e, handle_init) (h, refl, refl)
      go (some p) e =
          rw (e, handle_init)
            (if_induction (Linked session) (is_refused p) _ _ (λ _. (h, refl, refl))
              (λ _. find_or_create-Linked p addr))

  mark_acked-Kept : (i : ℕ) → Kept session (mark_acked i session)
  mark_acked-Kept i = go (find i session.clients) refl
    where
      go : (o : Option Client) → find i session.clients ≡ o → Kept session (mark_acked i session)
      go none e = unfold mark_acked in rw (e, mark_acked) (h, refl, refl)
      go (some c) e =
          unfold mark_acked in
          rw (e, mark_acked)
            (
              insert-IsLinked i (record c { connect_ack = true }) session.clients h (h.index i c e)
                  (inr (h.partner i c e)),
              refl,
              refl,
            )

  pub handle_connect_reply-Kept :
      (buffer : Bytes) → Ensures (Kept session) (handle_connect_reply session buffer)
  unfolding handle_connect_reply
  handle_connect_reply-Kept (a ∷ i ∷ rest) = mark_acked-Kept i
  handle_connect_reply-Kept (a ∷ []) = tt
  handle_connect_reply-Kept [] = tt

  take_report-Linked : (i value : ℕ) → Ensures (Linked session) (take_report i value session)
  take_report-Linked i value = go (find i session.clients) refl
    where
      go :
          (o : Option Client)
          → find i session.clients ≡ o
          → Ensures (Linked session) (take_report i value session)
      go none e = unfold take_report in rw (e, take_report) (h, refl, refl)
      go (some c) e =
          unfold take_report in
          rw (e, take_report)
            (Ensures-bind (Linked session)
              (conclude i value c
                (find c.connecting_index (insert i (record_result i value c) session.clients)))
              _
              λ r _. (
                insert-IsLinked i (record_result i value c) session.clients h
                    (unfold record_result in h.index i c e) (unfold record_result in inl refl),
                refl,
                refl,
              ))

  -- handleReport keeps the links, the cookie and the version.
  pub handle_report-Linked :
      (addr : Bytes) (version : ℕ) (buffer : Bytes)
      → Ensures (Linked session) (handle_report order ids session addr version buffer)
  unfolding handle_report connect_all
  handle_report-Linked addr version (a ∷ i ∷ value ∷ rest) =
      Ensures-bind (Linked session) (take_report i value session) _ λ r e.
        let kept = Ensures-ok (Linked session) _ r (take_report-Linked i value) e in
        (send-IsLinked order ids r.0.clients kept.0, kept.1, kept.2)
  handle_report-Linked addr version (a ∷ i ∷ []) = tt
  handle_report-Linked addr version (a ∷ []) = tt
  handle_report-Linked addr version [] = tt
