-- ===== src/MatchCommand/Decode/Accept.antt =====
-- `case MatchResvOK` of `DecodeMatchCommand`, common/match_command.go.
use wfc_server_private.Prelude.{
  ℕ, ◌+◌, ◌*◌, ◌%◌, ◌^◌, Bool, ◌&&◌, ◌||◌, List, ltb, ◌==◌, if◌then◌else◌, Bytes, length,
}
use wfc_server_private.Prelude.Outcome.{Outcome, ok, ◌>>=◌, ◌>>◌, reject_if}
use wfc_server_private.MatchCommand.{ResvOk, zero_resv_ok}
use wfc_server_private.MatchCommand.Words.{le_at, be_at, slice_from}
use wfc_server_private.MatchCommand.Decode.Fields.{port_at, flag_at, words_from}

-- the tests on `clientCount`, whose product and sum are 32 bits wide
unfoldable pub resv_ok_too_short : ℕ → ℕ → ℕ → Bool
resv_ok_too_short version count size =
    (version == 3 && (ltb 29 count || ltb size ((0x0C + count * 0x4) % 2 ^ 32)))
    || (version == 11 && (ltb 24 count || ltb size ((0x20 + count * 0x4) % 2 ^ 32)))

-- `0x04+i*4`, and `index + k` of the fields behind the profile ids
unfoldable pub pid_at : ℕ → ℕ
pid_at i = (0x04 + i * 4) % 2 ^ 32

unfoldable pub field_at : ℕ → ℕ → ℕ
field_at count k = (0x04 + count * 4 + k) % 2 ^ 32

unfoldable pub resv_ok_3 : Bytes → ℕ → List ℕ → ℕ → Outcome ResvOk
resv_ok_3 buffer count pids port = do
  ip ← be_at buffer (field_at count 0)
  rest ← slice_from buffer (field_at count 0x8)
  ok (record zero_resv_ok {
    public_ip = ip;
    public_port = port;
    client_count = count;
    profile_ids = pids;
    user_data = rest;
  })

unfoldable pub resv_ok_11 : Bytes → ℕ → List ℕ → ℕ → Outcome ResvOk
resv_ok_11 buffer count pids port = do
  friend ← flag_at buffer (field_at count 0x08)
  players ← le_at buffer (field_at count 0x14)
  aid ← le_at buffer (field_at count 0x0C)
  ip ← be_at buffer (field_at count 0)
  group ← le_at buffer (field_at count 0x10)
  rest ← slice_from buffer (field_at count 0x18)
  ok (record zero_resv_ok {
    max_players = players;
    sender_aid = aid;
    public_ip = ip;
    public_port = port;
    group_id = group;
    client_count = count;
    profile_ids = pids;
    is_friend = friend;
    user_data = rest;
  })

-- the profile ids, the port behind them and the fields of the version
unfoldable pub resv_ok_listed : ℕ → Bytes → ℕ → Outcome ResvOk
resv_ok_listed version buffer count = do
  pids ← words_from pid_at buffer count 0
  port ← port_at buffer (field_at count 0x04)
  if version == 3 then resv_ok_3 buffer count pids port else resv_ok_11 buffer count pids port

-- versions 3 and 11
unfoldable pub resv_ok_counted : ℕ → Bytes → Outcome ResvOk
resv_ok_counted version buffer = do
  reject_if (ltb (length buffer) 0xC)
  count ← le_at buffer 0x00
  reject_if (resv_ok_too_short version count (length buffer))
  resv_ok_listed version buffer count

unfoldable pub resv_ok_90 : Bytes → Outcome ResvOk
resv_ok_90 buffer = do
  reject_if (ltb (length buffer) 0x34)
  port ← port_at buffer 0x10
  local_port ← port_at buffer 0x18
  players ← le_at buffer 0x00
  aid ← le_at buffer 0x04
  pid ← le_at buffer 0x08
  ip ← be_at buffer 0x0C
  local_ip ← be_at buffer 0x14
  unknown ← le_at buffer 0x1C
  local_players ← le_at buffer 0x20
  group ← le_at buffer 0x24
  new_aid ← le_at buffer 0x28
  count ← le_at buffer 0x2C
  check ← le_at buffer 0x30
  rest ← slice_from buffer 0x34
  ok (record zero_resv_ok {
    max_players = players;
    sender_aid = aid;
    profile_id = pid;
    public_ip = ip;
    public_port = port;
    local_ip = local_ip;
    local_port = local_port;
    unknown = unknown;
    local_player_count = local_players;
    group_id = group;
    receiver_new_aid = new_aid;
    client_count = count;
    resv_check_value = check;
    user_data = rest;
  })

unfoldable pub decode_resv_ok : ℕ → Bytes → Outcome ResvOk
decode_resv_ok version buffer =
    if version == 3 || version == 11 then resv_ok_counted version buffer else resv_ok_90 buffer
