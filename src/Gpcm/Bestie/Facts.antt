-- ===== src/Gpcm/Bestie/Facts.antt =====
-- What bestieMessage of gpcm/message.go tells of the sender of a reservation.
use wfc_server_private.Gpcm.{GameSpySession, Trace}
use wfc_server_private.Gpcm.Bestie.{Services}
use wfc_server_private.Gpcm.Bestie.Relay.{same_address, mask_reservation, relay_reservation}
use wfc_server_private.MatchCommand.{Reservation, MatchCommandData}
use wfc_server_private.Prelude.{ℕ, ◌≡◌, refl, false, some}

-- Between two addresses a reservation is relayed without those of its sender: whatever addresses a
-- reservation has, it is relayed as one that has others.
pub relay_reservation-masked :
    (services : Services) (ref : ℕ) (g : GameSpySession) (to version : ℕ) (v : Reservation)
    (d : MatchCommandData) (dest : GameSpySession) (r : Trace)
    (public_ip public_port local_ip local_port : ℕ)
    → same_address g dest ≡ false
    → let w = record v {
      public_ip = public_ip;
      public_port = public_port;
      local_ip = local_ip;
      local_port = local_port;
    } in
      relay_reservation services ref g to version v (record d { reservation = some v }) dest r
      ≡ relay_reservation services ref g to version w (record d { reservation = some w }) dest r
unfolding relay_reservation mask_reservation
relay_reservation-masked services ref g to version v d dest r public_ip public_port local_ip
      local_port apart =
    rw (apart) refl
