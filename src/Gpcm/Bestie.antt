-- ===== src/Gpcm/Bestie.antt =====
-- The texts of match commands in gpcm/message.go: a prefix that tells the version, a command byte, and
-- the words of the command in the spelling of the version.
pub mod Relay
pub mod Receive
pub mod Keeps
pub mod Guarded
pub mod Facts
mod Tests
use wfc_server_private.GameSpy.{has_prefix}
use wfc_server_private.Gpcm.{parse_uint32}
use wfc_server_private.IpAddress.{split, digits_value}
use wfc_server_private.MatchCommand.{Reservation, ResvOk, MatchCommandData}
use wfc_server_private.MatchCommand.Decode.{decode_match_command}
use wfc_server_private.MatchCommand.Words.{put_le}
use wfc_server_private.Prelude.{
  ℕ, ◌+◌, ◌-◌, ◌*◌, ◌/◌, ◌%◌, ◌≡◌, refl, Bool, true, false, not, ◌&&◌, ◌||◌, Option, none, some,
  List, [], ◌∷◌, ◌++◌, ltb, leb, ◌==◌, if◌then◌else◌, Bytes, str, length,
}
use wfc_server_private.Prelude.Decimal.{decimal}
use wfc_server_private.Prelude.Outcome.{Outcome, rejected}

-- The fields of database.User that a profile shows.
pub record User : Type 0 where
  pub profile_id : ℕ
  pub user_id : ℕ
  pub gsbr_code : Bytes
  pub email : Bytes
  pub unique_nick : Bytes
  pub first_name : Bytes
  pub last_name : Bytes

-- The alphabet of Base64DwcEncoding with the codec of encoding/base64, and what qr2 answers while one
-- message is handled: CheckGPReservationAllowed, GetSearchID and ProcessGPResvOK; whether the query
-- UpdateUserTable with the profile id and the values of a command succeeds (pool.Exec); the row that the
-- query GetUser finds (pool.QueryRow); the order in which a map of texts is iterated; and the 32 random
-- characters of RandomHexString.
pub record Services : Type 0 where
  pub decode_base64 : Bytes → Option Bytes
  pub encode_base64 : Bytes → Bytes
  pub check_gp_reservation_allowed : ℕ → ℕ → ℕ → ℕ → Bytes
  pub get_search_id : ℕ → ℕ
  pub process_gp_resv_ok : ℕ → Reservation → ResvOk → ℕ → ℕ → ℕ → ℕ → Bool
  pub update_user_table : ℕ → List (Bytes × Bytes) → Bool
  pub get_user : ℕ → Option User
  pub map_order : List (Bytes × Bytes) → List (Bytes × Bytes)
  pub signature : Bytes

-- version, resvDenyMsg, resvWaitMsg and msgDataIndex
pub record Format : Type 0 where
  pub version : ℕ
  pub deny_msg : Bytes
  pub wait_msg : Bytes
  pub data_index : ℕ

abbrev pub format_3 : Format
format_3 = record {
  version = 3;
  deny_msg = str "GPCM3vMAT" ++ (3 ∷ str "16");
  wait_msg = str "GPCM3vMAT" ++ (4 ∷ []);
  data_index = 9;
}

abbrev pub format_11 : Format
format_11 = record {
  version = 11;
  deny_msg = str "GPCM11vMAT" ++ (3 ∷ str "00000010");
  wait_msg = str "GPCM11vMAT" ++ (4 ∷ []);
  data_index = 10;
}

abbrev pub format_90 : Format
format_90 = record {
  version = 90;
  deny_msg = str "GPCM90vMAT" ++ (3 ∷ str "EAAAAA**");
  wait_msg = str "GPCM90vMAT" ++ (4 ∷ []);
  data_index = 10;
}

-- the tests of the prefix
unfoldable pub format_of : Bytes → Option Format
unfolding has_prefix
format_of msg =
    if has_prefix (str "GPCM3vMAT") msg
    then some format_3
    else if has_prefix (str "GPCM11vMAT") msg
    then some format_11
    else if has_prefix (str "GPCM90vMAT") msg
    then some format_90
    else none

-- the loop of version 3 over `strings.Split(…, "/")`
unfoldable pub decimal_words : List Bytes → Option Bytes
unfolding parse_uint32 put_le
decimal_words [] = some []
decimal_words (s ∷ ss) = elim (parse_uint32 s) [
  | none ↦ none
  | some n ↦ elim (decimal_words ss) [ none ↦ none | some rest ↦ some (put_le n ++ rest) ]
]

-- the value of a digit of hex.DecodeString
unfoldable pub hex_value : ℕ → Option ℕ
hex_value c =
    if leb 48 c && leb c 57
    then some (c - 48)
    else if leb 97 c && leb c 102
    then some (c - 87)
    else if leb 65 c && leb c 70
    then some (c - 55)
    else none

-- hex.DecodeString
unfoldable pub hex_decode : Bytes → Option Bytes
unfolding hex_value
hex_decode [] = some []
hex_decode (c ∷ []) = none
hex_decode (c ∷ d ∷ s) = elim (hex_value c) [
  | none ↦ none
  | some high ↦ elim (hex_value d) [
    | none ↦ none
    | some low ↦ elim (hex_decode s) [ none ↦ none | some rest ↦ some ((16 * high + low) ∷ rest) ]
  ]
]

-- the loop of version 11
unfoldable pub hex_words : List Bytes → Option Bytes
unfolding hex_decode
hex_words [] = some []
hex_words (s ∷ ss) = elim (hex_decode s) [
  | none ↦ none
  | some bytes ↦
      if not (length bytes == 4)
      then none
      else elim (hex_words ss) [ none ↦ none | some rest ↦ some (bytes ++ rest) ]
]

-- `switch version`, the words behind the command byte; nothing stands for no words
unfoldable pub decode_body : Services → ℕ → Bytes → Option Bytes
unfolding decimal_words hex_words split
decode_body services version [] = some []
decode_body services version (c ∷ s) =
    if version == 3
    then decimal_words (split b'/' (c ∷ s))
    else if version == 11
    then hex_words (split b'/' (c ∷ s))
    else services.decode_base64 (c ∷ s)

-- the match command of a message; `rejected` where the code replies with ErrMessage
unfoldable pub decode_message : Services → ℕ → ℕ → Bytes → Outcome MatchCommandData
unfolding decode_body decode_match_command
decode_message services version cmd text = elim (decode_body services version text) [
  | none ↦ rejected
  | some msg_data ↦
      if ltb 0x200 (length msg_data) || not (length msg_data % 4 == 0)
      then rejected
      else decode_match_command cmd msg_data version
]

-- `string(cmd)`: the UTF-8 form of a byte
unfoldable pub utf8 : ℕ → Bytes
utf8 c = if ltb c 128 then c ∷ [] else (192 + c / 64) ∷ (128 + c % 64) ∷ []

unfoldable pub hex_digit : ℕ → ℕ
hex_digit n = if ltb n 10 then 48 + n else 87 + n

-- hex.EncodeToString
unfoldable pub hex_encode : Bytes → Bytes
unfolding hex_digit
hex_encode [] = []
hex_encode (b ∷ bytes) = hex_digit (b / 16) ∷ hex_digit (b % 16) ∷ hex_encode bytes

-- the loops that re-encode; the length of `newMsg` is a multiple of four
unfoldable pub print_words : (Bytes → Bytes) → Bool → Bytes → Bytes
print_words show later (a ∷ b ∷ c ∷ d ∷ rest) =
    (if later then b'/' ∷ [] else []) ++ (show (a ∷ b ∷ c ∷ d ∷ []) ++ print_words show true rest)
print_words show later _ = []

-- strconv.FormatUint(uint64(binary.LittleEndian.Uint32(word)), 10)
unfoldable pub print_decimal : Bytes → Bytes
unfolding decimal
print_decimal (a ∷ b ∷ c ∷ d ∷ _) = decimal (a + 256 * b + 65536 * c + 16777216 * d)
print_decimal _ = []

-- `newMsgStr`
unfoldable pub encode_message : Services → ℕ → ℕ → Bytes → Bytes
unfolding utf8 print_words print_decimal hex_encode
encode_message services version cmd new_msg =
    if version == 3
    then str "GPCM3vMAT" ++ (utf8 cmd ++ print_words print_decimal false new_msg)
    else if version == 11
    then str "GPCM11vMAT" ++ (utf8 cmd ++ print_words hex_encode false new_msg)
    else str "GPCM90vMAT" ++ (utf8 cmd ++ services.encode_base64 new_msg)

three_words :
    decimal_words (split b'/' (str "1/258/0"))
    ≡ some (1 ∷ 0 ∷ 0 ∷ 0 ∷ 2 ∷ 1 ∷ 0 ∷ 0 ∷ 0 ∷ 0 ∷ 0 ∷ 0 ∷ [])
unfolding decimal_words digits_value split
three_words = refl

two_words :
    hex_words (split b'/' (str "00fF0a10/00000001")) ≡ some (0 ∷ 255 ∷ 10 ∷ 16 ∷ 0 ∷ 0 ∷ 0 ∷ 1 ∷ [])
unfolding hex_words split
two_words = refl

printed : print_words print_decimal false (1 ∷ 0 ∷ 0 ∷ 0 ∷ 2 ∷ 1 ∷ 0 ∷ 0 ∷ []) ≡ str "1/258"
unfolding print_words print_decimal
printed = refl
