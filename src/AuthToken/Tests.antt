-- ===== src/AuthToken/Tests.antt =====
-- Tokens with concrete texts, and a codec that leaves the bytes as they are.
use wfc_server_private.AuthToken.{
  Codec, NasAuthToken, stored_version, marshal_nas_auth_token, unmarshal_nas_auth_token,
  marshal_gpcm_login_ticket, unmarshal_gpcm_login_ticket,
}
use wfc_server_private.AuthToken.RoundTrip.{
  IsCodec, IsToken, kept, unmarshal-marshal, long_version_cut, login_ticket-round_trip,
}
use wfc_server_private.GameSpy.{is_empty_text}
use wfc_server_private.Prelude.{◌≡◌, refl, true, some, arith, Bytes, str, length}

abbrev bare_codec : Bytes → Codec
bare_codec mark = record {
  encode_base64 = λ b. b;
  decode_base64 = λ b. some b;
  encrypt = λ b. b;
  decrypt = λ b. b;
  magic = mark;
}

bare_codec-IsCodec : (mark : Bytes) → IsCodec (bare_codec mark)
bare_codec-IsCodec mark = record {
  decoded = λ b. refl;
  decrypted = λ b h. refl;
  same_size = λ b. refl;
}

abbrev token_sample : Bytes → NasAuthToken
token_sample version = record {
  issue_time = 1700000000;
  gamecd = str "RMCJ";
  userid = 123456789;
  gsbrcd = str "RMCJabc";
  cfc = 99999;
  region = 1;
  lang = 2;
  ingamesn = str "Player";
  challenge = str "abcdefgh";
  unitcd = 1;
  is_localhost = true;
  ctgpver = version;
}

sample-IsToken : IsToken (token_sample (str "1.3"))
unfolding stored_version is_empty_text
sample-IsToken = record {
  time_fits = omega arith;
  gamecd = refl;
  userid_fits = omega arith;
  cfc_fits = omega arith;
  challenge = refl;
  version = (refl, (refl, (refl, tt)));
}

unmarshal-marshal_example :
    unmarshal_nas_auth_token
      (bare_codec (str "fourteen bytes"))
      (marshal_nas_auth_token (bare_codec (str "fourteen bytes")) (token_sample (str "1.3")))
    ≡ some (kept (token_sample (str "1.3")))
unmarshal-marshal_example =
    unmarshal-marshal (bare_codec (str "fourteen bytes")) (token_sample (str "1.3"))
      (bare_codec-IsCodec (str "fourteen bytes")) refl sample-IsToken

long-IsToken : IsToken (token_sample (str "123456789abcdef"))
unfolding stored_version is_empty_text
long-IsToken = record {
  time_fits = omega arith;
  gamecd = refl;
  userid_fits = omega arith;
  cfc_fits = omega arith;
  challenge = refl;
  version = (
    refl,
    (
      refl,
      (
        refl,
        (
          refl,
          (
            refl,
            (refl, (refl, (refl, (refl, (refl, (refl, (refl, (refl, (refl, (refl, tt)))))))))),
          ),
        ),
      ),
    ),
  );
}

long_version_cut_example :
    (back : NasAuthToken) × (unmarshal_nas_auth_token (bare_codec (str "fourteen bytes")) (
        marshal_nas_auth_token
          (bare_codec (str "fourteen bytes"))
          (token_sample (str "123456789abcdef")))
      ≡ some back)
    × (length back.ctgpver ≡ 14)
unfolding stored_version is_empty_text
long_version_cut_example =
    long_version_cut (bare_codec (str "fourteen bytes")) (token_sample (str "123456789abcdef"))
      (bare_codec-IsCodec (str "fourteen bytes")) refl long-IsToken refl

login_ticket-round_trip_example :
    unmarshal_gpcm_login_ticket
      (bare_codec (str "four"))
      (marshal_gpcm_login_ticket (bare_codec (str "four")) 1700000000 600000001)
    ≡ some (600000001, 1700000000)
login_ticket-round_trip_example =
    login_ticket-round_trip (bare_codec (str "four")) 1700000000 600000001
      (bare_codec-IsCodec (str "four")) refl (omega arith) (omega arith)
