-- ===== src/Gpcm/Bestie/Receive.antt =====
-- bestieMessage of gpcm/message.go: a message of a player is tested and read.
use wfc_server_private.GameSpy.{GameSpyCommand}
use wfc_server_private.Gpcm.{
  GameSpySession, Trace, object, online, change, act, Run, finished, halted, err_message,
  err_message_not_friends, parse_uint32,
}
use wfc_server_private.Gpcm.Bestie.{Services, Format, format_of, decode_message}
use wfc_server_private.Gpcm.Bestie.Relay.{fail, answer, relay}
use wfc_server_private.Gpcm.Lists.{is_in}
use wfc_server_private.Gpcm.Send.{send_message_to_session_buffer}
use wfc_server_private.IpAddress.{ip_format_to_int}
use wfc_server_private.MatchCommand.{match_reservation, match_resv_ok, MatchCommandData}
use wfc_server_private.Prelude.{
  ℕ, ◌+◌, ◌*◌, ◌^◌, not, none, some, [], ◌∷◌, ◌==◌, if◌then◌else◌, Bytes, str, str_eq, drop,
}
use wfc_server_private.Prelude.Dict.{text_at}
use wfc_server_private.Prelude.Outcome.{ok, rejected, panicked}

-- the tests of the destination
unfoldable pub route :
    Services → ℕ → GameSpySession → ℕ → Format → ℕ → MatchCommandData → Trace → Run
unfolding online relay act send_message_to_session_buffer
route services ref g to f cmd d r = elim (online to r.state) [
  | none ↦ answer to ref f.deny_msg r
  | some dest ↦
      if not (str_eq dest.game_name g.game_name)
      then fail err_message ref r
      else if not dest.device_authenticated
      then answer to ref f.deny_msg r
      else relay services ref g to f.version cmd d dest r
]

-- the address that the sender gives is the one that it sends from; it is kept as its QR2 address
unfoldable pub learn_address :
    Services → ℕ → GameSpySession → ℕ → Format → ℕ → MatchCommandData → ℕ → ℕ → Trace → Run
unfolding ip_format_to_int route change act
learn_address services ref g to f cmd d public_ip public_port r =
    elim (ip_format_to_int g.remote_addr) [
      | rejected ↦ halted r
      | panicked ↦ halted r
      | ok (ip, port) ↦
          if not (ip == public_ip)
          then fail err_message ref r
          else let qr2_ip = public_ip + public_port * 2 ^ 32 in
            route services ref (record g { qr2_ip = qr2_ip }) to f cmd d
              (change ref (λ s. record s { qr2_ip = qr2_ip }) r)
    ]

-- the decoded command
unfoldable pub take_command :
    Services → ℕ → GameSpySession → ℕ → Format → ℕ → MatchCommandData → Trace → Run
unfolding learn_address route
take_command services ref g to f cmd d r =
    if cmd == match_reservation
    then elim d.reservation [
      | none ↦ halted r
      | some v ↦ learn_address services ref g to f cmd d v.public_ip v.public_port r
    ]
    else if cmd == match_resv_ok
    then elim d.resv_ok [
      | none ↦ halted r
      | some v ↦ learn_address services ref g to f cmd d v.public_ip v.public_port r
    ]
    else route services ref g to f cmd d r

-- the message behind its prefix
unfoldable pub read_command : Services → ℕ → GameSpySession → ℕ → Format → Bytes → Trace → Run
unfolding decode_message take_command act
read_command services ref g to f [] r = fail err_message ref r
read_command services ref g to f (cmd ∷ text) r =
    elim (decode_message services f.version cmd text) [
      | rejected ↦ fail err_message ref r
      | panicked ↦ halted r
      | ok d ↦ take_command services ref g to f cmd d r
    ]

-- the message of an authorized friend
unfoldable pub read_message : Services → ℕ → GameSpySession → ℕ → Bytes → Trace → Run
unfolding format_of read_command send_message_to_session_buffer act
read_message services ref g to msg r = elim (format_of msg) [
  | none ↦ fail err_message ref r
  | some f ↦
      if not g.device_authenticated
      then answer to ref f.wait_msg r
      else read_command services ref g to f (drop f.data_index msg) r
]

-- bestieMessage; an empty message has no prefix
unfoldable pub bestie_message : Services → ℕ → GameSpyCommand → Trace → Run
unfolding object parse_uint32 text_at is_in read_message act
bestie_message services ref command r = elim (object ref r.state) [
  | none ↦ finished r
  | some g ↦
      if not (str_eq command.command_value (str "1"))
      then finished r
      else elim (parse_uint32 (text_at (str "t") command.other_values)) [
        | none ↦ fail err_message ref r
        | some to ↦
            if not (is_in to g.auth_friend_list)
            then fail err_message_not_friends ref r
            else read_message services ref g to (text_at (str "msg") command.other_values) r
      ]
]
