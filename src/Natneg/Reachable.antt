-- ===== src/Natneg/Reachable.antt =====
-- The runs of the NATNEG server (natneg/main.go): packets and session timers in any order.
use wfc_server_private.Natneg.{Session, Effect}
use wfc_server_private.Natneg.Server.{Server, Orders, handle_connection, close_session}
use wfc_server_private.Natneg.Sessions.{IsSound, handle_connection-IsSound}
use wfc_server_private.Prelude.{ℕ, ◌≡◌, false, some, List, [], arith, Bytes, if_induction}
use wfc_server_private.Prelude.Maps.{find, delete, find-delete}
use wfc_server_private.Prelude.Outcome.{ok}

-- One event of a running server: a packet that is handled, or the timer of a session.
pub data Step : Server → Server → Type 0 where
  packet :
      {server after : Server} (o : Orders) (addr buffer : Bytes) (effects : List Effect)
      → handle_connection o server addr buffer ≡ ok (after, effects)
      → Step server after
  timer : {server : Server} (session : Session) → Step server (close_session server session).0

pub data Reachable : Server → Server → Type 0 where
  here : {server : Server} → Reachable server server
  there :
      {server middle after : Server}
      → Reachable server middle
      → Step middle after
      → Reachable server after

abbrev pub started : Server
started = record { sessions = []; in_shutdown = false }

delete_cases :
    {V : Type 0} (k j : ℕ) (m : List (ℕ × V)) (v : V)
    → find j (delete k m) ≡ some v
    → find j m ≡ some v
delete_cases k j m v e = ground (arith, find-delete k j m)

close_session-IsSound :
    (server : Server) (session : Session)
    → IsSound server
    → IsSound (close_session server session).0
unfolding close_session
close_session-IsSound server session h =
    if_induction (λ (r : Server × Session × List Effect). IsSound r.0) server.in_shutdown _ _
      (λ _. h)
      (λ _. record {
        cookie = λ k s e. h.cookie k s (delete_cases session.cookie k server.sessions s e);
        linked = λ k s e. h.linked k s (delete_cases session.cookie k server.sessions s e);
      })

started-IsSound : IsSound started
unfolding find
started-IsSound = record { cookie = λ k s e. cc; linked = λ k s e. absurd cc }

Step-IsSound : (server after : Server) → Step server after → IsSound server → IsSound after
Step-IsSound server after (packet o addr buffer effects e) h =
    handle_connection-IsSound o server addr buffer after effects h e
Step-IsSound server _ (timer session) h = close_session-IsSound server session h

-- After any run of packets and timers, in any order, of a server that starts with no session, every
-- session stands under its cookie and its clients are linked.
pub Reachable-IsSound : (server : Server) → Reachable started server → IsSound server
Reachable-IsSound _ here = started-IsSound
Reachable-IsSound server (there {middle = middle} r s) =
    Step-IsSound middle server s (Reachable-IsSound middle r)
