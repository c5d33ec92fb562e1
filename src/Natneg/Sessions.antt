-- ===== src/Natneg/Sessions.antt =====
-- The table of sessions of natneg/main.go: what every packet keeps, and which session it touches.
use wfc_server_private.Natneg.{
  Session, Effect, nn_init_request, nn_connect_reply, nn_address_check_request, nn_natify_request,
  nn_report_request, nn_pre_init_request, nn_init_request_wimm,
}
use wfc_server_private.Natneg.Connect.{handle_connect_reply}
use wfc_server_private.Natneg.Invariant.{
  Kept, Linked, handle_init-Linked, handle_connect_reply-Kept, handle_report-Linked,
}
use wfc_server_private.Natneg.Invariant.Links.{IsLinked, IsLinked-nil}
use wfc_server_private.Natneg.Server.{
  Server, new_session, Header, parse_header, Orders, dispatch, open_session, put_session,
  handle_in_session, handle_connection,
}
use wfc_server_private.Prelude.{
  ℕ, ◌≡◌, refl, subst, ◌∙◌, ◌≢◌, inl, inr, not, ◌||◌, Option, none, some, List, ◌==◌, Bytes,
  if_induction,
}
use wfc_server_private.Prelude.Maps.{find, insert-cases, find-insert_ne}
use wfc_server_private.Prelude.Outcome.{ok, Ensures, Ensures-bind, Ensures-ok}

-- Every session stands under its cookie, and its clients are linked.
pub record IsSound (server : Server) : Type 0 where
  pub cookie : (k : ℕ) (s : Session) → find k server.sessions ≡ some s → s.cookie ≡ k
  pub linked : (k : ℕ) (s : Session) → find k server.sessions ≡ some s → IsLinked s.clients

put_session-IsSound :
    (server : Server) (k : ℕ) (s : Session)
    → IsSound server
    → s.cookie ≡ k
    → IsLinked s.clients
    → IsSound (put_session server k s)
unfolding put_session
put_session-IsSound server k s h c l = record {
  cookie = λ j t e. elim (insert-cases k s server.sessions j t e) [
    | inl (ek, es) ↦ cc
    | inr (ne, old) ↦ h.cookie j t old
  ];
  linked = λ j t e. elim (insert-cases k s server.sessions j t e) [
    | inl (ek, es) ↦ subst (λ (x : Session). IsLinked x.clients) es l
    | inr (ne, old) ↦ h.linked j t old
  ];
}

-- A session that is found or made for a header is sound.
open_session_sound :
    (server : Server) (h : Header)
    → IsSound server
    → ((open_session server h).cookie ≡ h.cookie) × IsLinked (open_session server h).clients
open_session_sound server h sound = go (find h.cookie server.sessions) refl
  where
    go :
        (o : Option Session)
        → find h.cookie server.sessions ≡ o
        → ((open_session server h).cookie ≡ h.cookie) × IsLinked (open_session server h).clients
    go none e =
        unfold open_session in rw (e, open_session) (unfold new_session in (refl, IsLinked-nil))
    go (some s) e =
        unfold open_session in rw (e, open_session) (sound.cookie _ s e, sound.linked _ s e)

dispatch-Linked :
    (o : Orders) (session : Session) (addr : Bytes) (h : Header)
    → IsLinked session.clients
    → Ensures (Linked session) (dispatch o session addr h)
unfolding dispatch
dispatch-Linked o session addr h l =
    if_induction (Ensures (Linked session))
      (h.command == nn_init_request || h.command == nn_init_request_wimm) _ _
      (λ _. handle_init-Linked o.inner o.outer session l addr h.version h.payload)
      λ _.
        if_induction (Ensures (Linked session)) (h.command == nn_connect_reply) _ _
          (λ _. Ensures-bind (Linked session) (handle_connect_reply session h.payload) _ λ s e.
            Ensures-ok (Kept session) _ s
              (handle_connect_reply-Kept o.inner o.outer session l h.payload) e)
          λ _.
            if_induction (Ensures (Linked session)) (h.command == nn_report_request) _ _
              (λ _. handle_report-Linked o.inner o.outer session l addr h.version h.payload)
              λ _.
                if_induction (Ensures (Linked session)) (h.command == nn_pre_init_request) _ _
                  (λ _. (l, refl, refl)) λ _. (l, refl, refl)

abbrev Sound : Server × List Effect → Type 0
Sound r = IsSound r.0

handle_in_session-IsSound :
    (o : Orders) (server : Server) (addr : Bytes) (h : Header)
    → IsSound server
    → Ensures Sound (handle_in_session o server addr h)
unfolding handle_in_session
handle_in_session-IsSound o server addr h sound =
    let (c, l) = open_session_sound server h sound in
    if_induction (Ensures Sound) (not ((open_session server h).version == h.version)) _ _
      (λ _. put_session-IsSound server h.cookie (open_session server h) sound c l)
      λ _. Ensures-bind Sound (dispatch o (open_session server h) addr h) _ λ r e.
        let kept =
          Ensures-ok (Linked (open_session server h)) _ r
            (dispatch-Linked o (open_session server h) addr h l) e in
        put_session-IsSound server h.cookie r.0 sound (kept.1 ∙ c) kept.0

-- In a server whose sessions stand under their cookies with their clients linked, a packet that is
-- handled, from wherever and in whatever order the maps are iterated, leaves them so.
pub handle_connection-IsSound :
    (o : Orders) (server : Server) (addr buffer : Bytes) (after : Server) (effects : List Effect)
    → IsSound server
    → handle_connection o server addr buffer ≡ ok (after, effects)
    → IsSound after
handle_connection-IsSound o server addr buffer after effects sound e =
    Ensures-ok Sound _ (after, effects) (go (parse_header buffer) refl) e
  where
    go :
        (p : Option Header)
        → parse_header buffer ≡ p
        → Ensures Sound (handle_connection o server addr buffer)
    go none q = unfold handle_connection in rw (q, handle_connection) sound
    go (some h) q =
        unfold handle_connection in
        rw (q, handle_connection)
          (if_induction (Ensures Sound)
            (h.command == nn_natify_request || h.command == nn_address_check_request) _ _
            (λ _. sound) (λ _. handle_in_session-IsSound o server addr h sound))

-- A packet that is handled leaves every session as it was but that of its cookie, and each of them
-- if its header is not valid.
pub handle_connection_isolates :
    (o : Orders) (server : Server) (addr buffer : Bytes) (after : Server) (effects : List Effect)
    (k : ℕ)
    → handle_connection o server addr buffer ≡ ok (after, effects)
    → ((h : Header) → parse_header buffer ≡ some h → h.cookie ≢ k)
    → find k after.sessions ≡ find k server.sessions
handle_connection_isolates o server addr buffer after effects k e other =
    Ensures-ok Same _ (after, effects) (go (parse_header buffer) refl) e
  where
    Same : Server × List Effect → Type 0
    Same r = find k r.0.sessions ≡ find k server.sessions

    put :
        (h : Header) (s : Session)
        → h.cookie ≢ k
        → find k (put_session server h.cookie s).sessions ≡ find k server.sessions
    put h s ne = unfold put_session in find-insert_ne h.cookie k s server.sessions ne

    within : (h : Header) → h.cookie ≢ k → Ensures Same (handle_in_session o server addr h)
    within h ne =
        unfold handle_in_session in
        if_induction (Ensures Same) (not ((open_session server h).version == h.version)) _ _
          (λ _. put h (open_session server h) ne)
          λ _. Ensures-bind Same (dispatch o (open_session server h) addr h) _ λ r _. put h r.0 ne

    go :
        (p : Option Header)
        → parse_header buffer ≡ p
        → Ensures Same (handle_connection o server addr buffer)
    go none q = unfold handle_connection in rw (q, handle_connection) refl
    go (some h) q =
        unfold handle_connection in
        rw (q, handle_connection)
          (if_induction (Ensures Same)
            (h.command == nn_natify_request || h.command == nn_address_check_request) _ _
            (λ _. refl) (λ _. within h (other h q)))
