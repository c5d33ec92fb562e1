-- ===== src/FriendCode/Tests.antt =====
-- Runs of the friend codes, and their theorem at a concrete input.
use wfc_server_private.FriendCode.{crc8, calc_friend_code, calc_friend_code-recovers}
use wfc_server_private.Prelude.{ℕ, ◌+◌, ◌*◌, ◌%◌, ◌^◌, ◌<◌, ◌≡◌, refl, [], ◌∷◌, arith, str}
use wfc_server_private.Prelude.Outcome.{ok, panicked}

crc_of_one : crc8 (1 ∷ []) ≡ 7
unfolding crc8
crc_of_one = refl

md5_code : calc_friend_code (λ _. 0x9F) 600000001 (str "RMCJ") ≡ ok (600000001 + 79 * 2 ^ 32)
unfolding calc_friend_code
md5_code = refl

too_short : calc_friend_code (λ _. 0x9F) 600000001 (str "RM") ≡ panicked
unfolding calc_friend_code
too_short = refl

calc_friend_code-recovers_example :
    (code : ℕ) × (calc_friend_code (λ _. 0x9F) 600000001 (str "RMCJ") ≡ ok code)
    × (code % 2 ^ 32 ≡ 600000001)
    × (code < 1000000000000)
calc_friend_code-recovers_example =
    calc_friend_code-recovers (λ _. 0x9F) 600000001 (str "RMCJ") (λ _. omega arith) (omega arith)
      (omega arith)
