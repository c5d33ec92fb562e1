-- ===== src/MatchCommand/RoundTrip/Wire.antt =====
-- The match commands that the wire can carry (common/match_command.go).
use wfc_server_private.MatchCommand.{
  match_reservation, match_resv_ok, match_resv_deny, match_resv_wait, match_resv_cancel,
  match_tell_addr, match_server_close_client, match_poll_timeout, match_poll_to_ack,
  match_suspend_match, Reservation, ResvOk, ResvDeny, TellAddr, SuspendMatch, MatchCommandData,
  bare,
}
use wfc_server_private.MatchCommand.RoundTrip.Accept.{Acceptable}
use wfc_server_private.MatchCommand.RoundTrip.Accept.Fields.{IsResvOk}
use wfc_server_private.MatchCommand.RoundTrip.Reserve.{Sendable}
use wfc_server_private.MatchCommand.RoundTrip.Small.{IsTellAddr, IsSuspendMatch, IsResvDeny}
use wfc_server_private.Prelude.{
  ℕ, ◌%◌, ◌^◌, ◌≤◌, ◌<◌, ◌≡◌, ap, ◌⊎◌, Bool, true, not, ◌||◌, some, List, ◌==◌, Bytes, length, All,
}

-- The commands that have no layout of their own.
abbrev other_command : ℕ → Bool
other_command c = not (
    c == match_reservation
    || c == match_resv_ok
    || c == match_resv_deny
    || c == match_resv_wait
    || c == match_resv_cancel
    || c == match_tell_addr
    || c == match_server_close_client
    || c == match_poll_timeout
    || c == match_poll_to_ack
    || c == match_suspend_match)

-- The values of a version and a command that come back from the wire: the payload is the command's, its
-- fields fit their widths, what the version does not send is zero, lists are as long as their counts and
-- within their limits, and the user data is a number of whole words. Two kinds of values that are encoded
-- are left out, since they do not come back: acceptances of version 11 with fewer than four bytes of user
-- data, and denials with a reason and no user data.
pub data IsWire (v c : ℕ) (d : MatchCommandData) : Type 0 where
  reservation :
      (r : Reservation)
      → c ≡ match_reservation
      → d ≡ record (bare v c) { reservation = some r }
      → Sendable v r
      → length r.user_data % 4 ≡ 0
      → IsWire v c d
  resv_ok :
      (r : ResvOk)
      → c ≡ match_resv_ok
      → d ≡ record (bare v c) { resv_ok = some r }
      → IsResvOk r
      → Acceptable v r
      → length r.user_data % 4 ≡ 0
      → IsWire v c d
  resv_deny :
      (r : ResvDeny)
      → c ≡ match_resv_deny
      → d ≡ record (bare v c) { resv_deny = some r }
      → IsResvDeny r
      → length r.user_data % 4 ≡ 0
      → IsWire v c d
  empty :
      (c ≡ match_resv_wait) ⊎ (c ≡ match_resv_cancel) ⊎ (c ≡ match_poll_timeout)
      → d ≡ bare v c
      → IsWire v c d
  tell_addr :
      (r : TellAddr)
      → c ≡ match_tell_addr
      → d ≡ record (bare v c) { tell_addr = some r }
      → IsTellAddr r
      → IsWire v c d
  server_close_client :
      (pids : List ℕ)
      → c ≡ match_server_close_client
      → d ≡ record (bare v c) { server_close_client = some (record { profile_ids = pids }) }
      → All (λ p. p < 2 ^ 32) pids
      → length pids ≤ 32
      → IsWire v c d
  poll_to_ack :
      (other : Bytes)
      → c ≡ match_poll_to_ack
      → d ≡ record (bare v c) { other = other }
      → length other ≡ 4
      → IsWire v c d
  suspend_match :
      (r : SuspendMatch)
      → c ≡ match_suspend_match
      → d ≡ record (bare v c) { suspend_match = some r }
      → IsSuspendMatch r
      → IsWire v c d
  unknown :
      (other : Bytes)
      → other_command c ≡ true
      → d ≡ record (bare v c) { other = other }
      → length other % 4 ≡ 0
      → IsWire v c d

pub version_lem : {v c : ℕ} {d : MatchCommandData} → IsWire v c d → d.version ≡ v
version_lem (reservation r ec ed h a) = ap (λ (x : MatchCommandData). x.version) ed
version_lem (resv_ok r ec ed h acc a) = ap (λ (x : MatchCommandData). x.version) ed
version_lem (resv_deny r ec ed h a) = ap (λ (x : MatchCommandData). x.version) ed
version_lem (empty ec ed) = ap (λ (x : MatchCommandData). x.version) ed
version_lem (tell_addr r ec ed h) = ap (λ (x : MatchCommandData). x.version) ed
version_lem (server_close_client pids ec ed h few) = ap (λ (x : MatchCommandData). x.version) ed
version_lem (poll_to_ack other ec ed h) = ap (λ (x : MatchCommandData). x.version) ed
version_lem (suspend_match r ec ed h) = ap (λ (x : MatchCommandData). x.version) ed
version_lem (unknown other ec ed h) = ap (λ (x : MatchCommandData). x.version) ed
