-- ===== src/FriendCode.antt =====
-- common/friend_code.go: the friend code of a profile. The first byte of md5.Sum is a parameter.
mod Tests
use Prim.Native.Nat.{bit_xor}
use wfc_server_private.MatchCommand.Words.{put_le}
use wfc_server_private.Prelude.{
  ℕ, zero, suc, ◌+◌, ◌*◌, ◌/◌, ◌%◌, ◌^◌, ◌≤◌, ◌<◌, ◌≡◌, refl, inl, inr, Bool, true, false, ◌&&◌,
  ◌||◌, [], ◌∷◌, ◌++◌, arith, leb, ◌==◌, if◌then◌else◌, Bytes, str, Bool-cases, length,
}
use wfc_server_private.Prelude.Outcome.{Outcome, ok, rejected, panicked}

-- crypto types of getCRCType
pub data CrcType : Type 0 where
  fc_crc8 fc_md5 : CrcType

crc8_round : ℕ → ℕ
crc8_round crc = if leb 0x80 crc then bit_xor (crc * 2 % 256) 0x07 else crc * 2 % 256

crc8_rounds : ℕ → ℕ → ℕ
unfolding crc8_round
crc8_rounds zero crc = crc
crc8_rounds (suc n) crc = crc8_rounds n (crc8_round crc)

-- crc8Table[i]
unfoldable pub crc8_table : ℕ → ℕ
unfolding crc8_rounds
crc8_table i = crc8_rounds 8 i

-- the loop of crc8, from the checksum `crc` on
unfoldable pub crc8_from : ℕ → Bytes → ℕ
unfolding crc8_table
crc8_from crc [] = crc
crc8_from crc (b ∷ data_bytes) = crc8_from (crc8_table (bit_xor crc b)) data_bytes

unfoldable pub crc8 : Bytes → ℕ
unfolding crc8_from
crc8 data_bytes = crc8_from 0 data_bytes

starts : Bytes → Bytes → Bool
starts [] s = true
starts (p ∷ ps) [] = false
starts (p ∷ ps) (c ∷ s) = p == c && starts ps s

one_of_bytes : ℕ → Bytes → Bool
one_of_bytes c [] = false
one_of_bytes c (d ∷ s) = c == d || one_of_bytes c s

-- `switch gameId[0]`
by_system : Bytes → Outcome CrcType
unfolding one_of_bytes
by_system [] = panicked
by_system (c ∷ s) = ok (if one_of_bytes c (str "RSHWXY") then fc_md5 else fc_crc8)

-- getCRCType: the type, and whether the digits are shown in reverse
unfoldable pub get_crc_type : Bytes → Outcome (CrcType × Bool)
unfolding starts by_system
get_crc_type game_id =
    if starts (str "RSB") game_id
    then ok (fc_crc8, false)
    else if starts (str "HDM") game_id || starts (str "WDM") game_id
    then ok (fc_crc8, true)
    else elim (by_system game_id) [
      | ok t ↦ ok (t, false)
      | rejected ↦ rejected
      | panicked ↦ panicked
    ]

-- the checksum above the 32 bits of the profile id; `digest & 0xfe` shifted by 31 has no bit below
unfoldable pub checksum : (Bytes → ℕ) → CrcType → Bytes → ℕ
unfolding crc8
checksum md5_first fc_crc8 buffer = crc8 buffer % 128
checksum md5_first fc_md5 buffer = md5_first buffer / 2

-- the checksum over the profile id and the game id in reverse; `|` joins parts with no bit in common
unfoldable pub with_checksum : (Bytes → ℕ) → ℕ → Bytes → Outcome ℕ
unfolding get_crc_type checksum put_le
with_checksum md5_first pid (a ∷ b ∷ c ∷ d ∷ rest) = elim (get_crc_type (a ∷ b ∷ c ∷ d ∷ rest)) [
  | ok (t, reverse) ↦ ok (pid + checksum md5_first t (put_le pid ++ (d ∷ c ∷ b ∷ a ∷ [])) * 2 ^ 32)
  | rejected ↦ rejected
  | panicked ↦ panicked
]
with_checksum md5_first pid _ = panicked

-- CalcFriendCode
unfoldable pub calc_friend_code : (Bytes → ℕ) → ℕ → Bytes → Outcome ℕ
unfolding with_checksum
calc_friend_code md5_first pid game_id =
    if pid == 0 then ok 0 else with_checksum md5_first pid game_id

get_crc_type_lem :
    (c : ℕ) (s : Bytes)
    → (t : CrcType) × (reverse : Bool) × (get_crc_type (c ∷ s) ≡ ok (t, reverse))
unfolding get_crc_type by_system
get_crc_type_lem c s = elim (Bool-cases (starts (str "RSB") (c ∷ s))) [
  | inl e ↦ (fc_crc8, false, rw (e, get_crc_type) refl)
  | inr e ↦ elim (Bool-cases (starts (str "HDM") (c ∷ s) || starts (str "WDM") (c ∷ s))) [
    | inl k ↦ (fc_crc8, true, rw (e, k, get_crc_type) refl)
    | inr k ↦ (
      if one_of_bytes c (str "RSHWXY") then fc_md5 else fc_crc8,
      false,
      rw (e, k, get_crc_type) refl,
    )
  ]
]

checksum-small :
    (md5_first : Bytes → ℕ) (t : CrcType) (buffer : Bytes)
    → ((s : Bytes) → md5_first s < 256)
    → checksum md5_first t buffer < 128
unfolding checksum
checksum-small md5_first fc_crc8 buffer h = omega arith
checksum-small md5_first fc_md5 buffer h = omega (arith, h buffer)

with_checksum_lem :
    (md5_first : Bytes → ℕ) (pid : ℕ) (game_id : Bytes)
    → ((s : Bytes) → md5_first s < 256)
    → 4 ≤ length game_id
    → (high : ℕ) × (high < 128) × (with_checksum md5_first pid game_id ≡ ok (pid + high * 2 ^ 32))
unfolding with_checksum
with_checksum_lem md5_first pid [] h size = absurd (omega arith)
with_checksum_lem md5_first pid (a ∷ []) h size = absurd (omega arith)
with_checksum_lem md5_first pid (a ∷ b ∷ []) h size = absurd (omega arith)
with_checksum_lem md5_first pid (a ∷ b ∷ c ∷ []) h size = absurd (omega arith)
with_checksum_lem md5_first pid (a ∷ b ∷ c ∷ d ∷ rest) h size =
    let (t, reverse, e) = get_crc_type_lem a (b ∷ c ∷ d ∷ rest) in
    (
      checksum md5_first t (put_le pid ++ (d ∷ c ∷ b ∷ a ∷ [])),
      checksum-small md5_first t (put_le pid ++ (d ∷ c ∷ b ∷ a ∷ [])) h,
      rw (e, with_checksum) refl,
    )

-- For a game id of four characters or more and a profile id of 32 bits, where a digest consists of
-- bytes, a friend code is calculated, and it has the profile id in its lower 32 bits and at most
-- twelve digits.
pub calc_friend_code-recovers :
    (md5_first : Bytes → ℕ) (pid : ℕ) (game_id : Bytes)
    → ((s : Bytes) → md5_first s < 256)
    → pid < 2 ^ 32
    → 4 ≤ length game_id
    → (code : ℕ) × (calc_friend_code md5_first pid game_id ≡ ok code)
      × (code % 2 ^ 32 ≡ pid)
      × (code < 1000000000000)
unfolding calc_friend_code
calc_friend_code-recovers md5_first pid game_id h small size = elim (Bool-cases (pid == 0)) [
  | inl e ↦ (0, rw e refl, ground arith, omega arith)
  | inr e ↦
      let (high, bound, k) = with_checksum_lem md5_first pid game_id h size in
      (pid + high * 2 ^ 32, rw e k, omega arith, omega arith)
]
