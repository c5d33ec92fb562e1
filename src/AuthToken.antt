-- ===== src/AuthToken.antt =====
-- common/auth_token.go: the tokens that a player carries from the authentication service to gpcm. A token is a
-- block of bytes with a magic value at its end, encrypted with a key of this process. `string(blob[a:b])` is
-- a list of bytes; times are seconds, as their patterns of 64 bits.
pub mod Layout
pub mod RoundTrip
mod Tests
use wfc_server_private.GameSpy.{has_prefix, is_empty_text}
use wfc_server_private.Prelude.{
  ℕ, zero, suc, ◌+◌, ◌-◌, ◌*◌, ◌/◌, ◌%◌, Bool, not, ◌&&◌, Option, none, some, List, [], ◌∷◌, ◌++◌,
  ltb, ◌==◌, if◌then◌else◌, Bytes, str, str_eq, length, take, drop, replicate,
}

-- The codec of encoding/base64 with its alphabet, AES in CBC mode with the key and the vector of the process,
-- and its magic value.
pub record Codec : Type 0 where
  pub encode_base64 : Bytes → Bytes
  pub decode_base64 : Bytes → Option Bytes
  pub encrypt : Bytes → Bytes
  pub decrypt : Bytes → Bytes
  pub magic : Bytes

-- What marshalling is given, with the time and the random challenge that it makes, and unmarshalling returns.
pub record NasAuthToken : Type 0 where
  pub issue_time : ℕ
  pub gamecd : Bytes
  pub userid : ℕ
  pub gsbrcd : Bytes
  pub cfc : ℕ
  pub region : ℕ
  pub lang : ℕ
  pub ingamesn : Bytes
  pub challenge : Bytes
  pub unitcd : ℕ
  pub is_localhost : Bool
  pub ctgpver : Bytes

-- the first `n` bytes of binary.LittleEndian.AppendUint64, for up to eight
unfoldable pub le_bytes : ℕ → ℕ → Bytes
le_bytes zero v = []
le_bytes (suc n) v = v % 256 ∷ le_bytes n (v / 256)

-- binary.LittleEndian.Uint64 and Uint32 of the bytes, with zeros behind them
unfoldable pub le_value : Bytes → ℕ
le_value [] = 0
le_value (c ∷ s) = c + 256 * le_value s

-- appendString, what it appends
unfoldable pub append_string : Bytes → ℕ → Bytes
append_string text maxlen =
    if ltb (length text) maxlen
    then text ++ replicate (maxlen - length text) 0
    else take maxlen text

-- min
unfoldable pub at_most : ℕ → ℕ → ℕ
at_most a b = if ltb a b then a else b

-- the version that a token carries
unfoldable pub stored_version : NasAuthToken → Bytes
unfolding is_empty_text
stored_version t =
    let version = if str_eq t.gamecd (str "RMC") then str "1031044" else t.ctgpver in
    if is_empty_text version then str "NOTPEDO" else version

unfoldable pub concat : List Bytes → Bytes
concat [] = []
concat (f ∷ fs) = f ++ concat fs

-- what MarshalNASAuthToken appends, in its order
unfoldable pub token_fields : Bytes → NasAuthToken → List Bytes
unfolding le_bytes append_string at_most stored_version
token_fields mark t =
    le_bytes 8 t.issue_time
    ∷ append_string t.gamecd 4
    ∷ le_bytes 6 t.userid
    ∷ (at_most (length t.gsbrcd) 16 ∷ [])
    ∷ append_string t.gsbrcd 16
    ∷ le_bytes 7 t.cfc
    ∷ (t.region ∷ [])
    ∷ (t.lang ∷ [])
    ∷ (at_most (length t.ingamesn) 75 ∷ [])
    ∷ append_string t.ingamesn 75
    ∷ t.challenge
    ∷ (t.unitcd ∷ [])
    ∷ ((if t.is_localhost then 1 else 0) ∷ [])
    ∷ (at_most (length (stored_version t)) 15 ∷ [])
    ∷ append_string (stored_version t) 15
    ∷ mark
    ∷ []

-- MarshalNASAuthToken; the blob has 160 bytes, a multiple of the block size, where the challenge has eight
-- and the magic value fourteen
unfoldable pub marshal_nas_auth_token : Codec → NasAuthToken → Bytes
unfolding concat token_fields
marshal_nas_auth_token codec t =
    str "NDS" ++ codec.encode_base64 (codec.encrypt (concat (token_fields codec.magic t)))

-- `blob[from:to]`
unfoldable pub slice : Bytes → ℕ → ℕ → Bytes
slice blob from to = take (to - from) (drop from blob)

-- `blob[i]`
unfoldable pub byte_at : Bytes → ℕ → ℕ
unfolding le_value slice
byte_at blob i = le_value (slice blob i (i + 1))

unfoldable pub trim_left : Bytes → Bytes
trim_left [] = []
trim_left (c ∷ s) = if c == 0 then trim_left s else c ∷ s

unfoldable pub trim_right : Bytes → Bytes
unfolding is_empty_text
trim_right [] = []
trim_right (c ∷ s) =
    let rest = trim_right s in if c == 0 && is_empty_text rest then [] else c ∷ rest

-- the fields of a decrypted blob
unfoldable pub read_token : Bytes → NasAuthToken
unfolding slice byte_at le_value at_most trim_left trim_right
read_token blob = record {
  issue_time = le_value (slice blob 0x0 0x8);
  gamecd = slice blob 0x8 0xC;
  userid = le_value (slice blob 0xC 0x12);
  gsbrcd = slice blob 0x13 (0x13 + at_most (byte_at blob 0x12) 16);
  cfc = le_value (slice blob 0x23 0x2A);
  region = byte_at blob 0x2A;
  lang = byte_at blob 0x2B;
  ingamesn = slice blob 0x2D (0x2D + at_most (byte_at blob 0x2C) 75);
  challenge = slice blob 0x78 0x80;
  unitcd = byte_at blob 0x80;
  is_localhost = byte_at blob 0x81 == 0x01;
  ctgpver = trim_right (trim_left (slice blob 0x83 0x91));
}

-- UnmarshalNASAuthToken
unfoldable pub unmarshal_nas_auth_token : Codec → Bytes → Option NasAuthToken
unfolding has_prefix slice read_token
unmarshal_nas_auth_token codec token =
    if not (has_prefix (str "NDS") token) then none else elim (codec.decode_base64 (drop 3 token)) [
      | none ↦ none
      | some blob ↦
          let clear = codec.decrypt blob in
          if not (length blob == 0xA0)
          then none
          else if not (str_eq (slice clear (0xA0 - length codec.magic) 0xA0) codec.magic)
          then none
          else some (read_token clear)
    ]

-- MarshalGPCMLoginTicket at a time
unfoldable pub marshal_gpcm_login_ticket : Codec → ℕ → ℕ → Bytes
unfolding le_bytes
marshal_gpcm_login_ticket codec now profile_id =
    codec.encode_base64 (codec.encrypt (le_bytes 8 now ++ (le_bytes 4 profile_id ++ codec.magic)))

-- UnmarshalGPCMLoginTicket, with the profile id first
unfoldable pub unmarshal_gpcm_login_ticket : Codec → Bytes → Option (ℕ × ℕ)
unfolding slice le_value
unmarshal_gpcm_login_ticket codec ticket = elim (codec.decode_base64 ticket) [
  | none ↦ none
  | some blob ↦
      let clear = codec.decrypt blob in
      if not (length blob == 0x10)
      then none
      else if not (str_eq (slice clear 0xC 0x10) codec.magic)
      then none
      else some (le_value (slice clear 0x8 0xC), le_value (slice clear 0x0 0x8))
]
