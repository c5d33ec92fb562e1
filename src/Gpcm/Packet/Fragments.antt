-- ===== src/Gpcm/Packet/Fragments.antt =====
-- HandlePacket of gpcm/main.go on a message that comes in fragments.
use wfc_server_private.Gpcm.{GameSpySession, Trace, object, change, trace_of}
use wfc_server_private.Gpcm.Bestie.{Services}
use wfc_server_private.Gpcm.Friend.{part}
use wfc_server_private.Gpcm.Packet.{Handlers, handle_message, is_complete, handle_packet}
use wfc_server_private.Gpcm.Store.{change-here, change-change}
use wfc_server_private.Prelude.{
  ℕ, ◌≤◌, ◌≡◌, refl, sym, ap, ◌∙◌, false, not, some, List, ◌++◌, append_assoc, arith, ltb,
  if◌then◌else◌, Bytes, if_no, length, length-append,
}

-- the read buffer of a session
abbrev pub set_buffer : Bytes → GameSpySession → GameSpySession
set_buffer buffer s = record s { read_buffer = buffer }

module _ (services : Services) (handlers : Handlers) (pids : List ℕ) (ref : ℕ) where
  -- what HandlePacket does with a buffer that is not too long
  abbrev pub on_buffer : Bytes → Trace → Trace
  on_buffer buffer r =
      if not (is_complete buffer)
      then change ref (set_buffer buffer) r
      else trace_of
          (handle_message services handlers pids ref buffer (change ref (set_buffer buffer) r))

  pub handle_packet-buffer :
      (received : Bytes) (r : Trace) (s : GameSpySession)
      → object ref r.state ≡ some s
      → length (s.read_buffer ++ received) ≤ 0x4000
      → handle_packet services handlers pids ref received r
        ≡ on_buffer (s.read_buffer ++ received) r
  unfolding handle_packet
  handle_packet-buffer received r s e size =
      rw (e, handle_packet)
        (if_no (ltb 0x4000 (length (s.read_buffer ++ received))) _ _ (ground arith))

  on_buffer-change :
      (a b : Bytes) (r : Trace) → on_buffer a (change ref (set_buffer b) r) ≡ on_buffer a r
  on_buffer-change a b r = rw (change-change ref (set_buffer a) (set_buffer b) r) refl

  -- Two packets are handled as the one that they make together, where the first does not end a message and
  -- the buffer can hold both.
  pub handle_packet-append :
      (a b : Bytes) (r : Trace) (s : GameSpySession)
      → object ref r.state ≡ some s
      → is_complete (s.read_buffer ++ a) ≡ false
      → length (s.read_buffer ++ (a ++ b)) ≤ 0x4000
      → handle_packet services handlers pids ref b (handle_packet services handlers pids ref a r)
        ≡ handle_packet services handlers pids ref (a ++ b) r
  handle_packet-append a b r s e part size =
      let assoc = append_assoc s.read_buffer a b in
      let same : length ((s.read_buffer ++ a) ++ b) ≡ length (s.read_buffer ++ (a ++ b)) =
        ap length assoc in
      let first_size : length (s.read_buffer ++ a) ≤ 0x4000 =
        omega (arith, length-append (s.read_buffer ++ a) b) in
      let first_step : handle_packet services handlers pids ref a r
          ≡ change ref (set_buffer (s.read_buffer ++ a)) r =
        handle_packet-buffer a r s e first_size ∙ rw part refl in
      ap (handle_packet services handlers pids ref b) first_step
      ∙ handle_packet-buffer b (change ref (set_buffer (s.read_buffer ++ a)) r)
          (set_buffer (s.read_buffer ++ a) s)
          (change-here ref (set_buffer (s.read_buffer ++ a)) r s e) (omega (arith, same))
      ∙ on_buffer-change ((s.read_buffer ++ a) ++ b) (s.read_buffer ++ a) r
      ∙ ap (λ (x : Bytes). on_buffer x r) assoc
      ∙ sym (handle_packet-buffer (a ++ b) r s e size)
