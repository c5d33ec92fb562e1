-- ===== src/Filter/Eval/Rk.antt =====
-- evalEqualsRK of serverbrowser/filter/eval.go: the key "rk" of Mario Kart Wii.
use wfc_server_private.Filter.Run.{Run, pure, kick}
use wfc_server_private.IpAddress.{atoi}
use wfc_server_private.Prelude.{
  ℕ, ◌%◌, ◌^◌, Bool, true, false, ◌&&◌, ◌||◌, Option, none, some, [], ◌∷◌, ltb, leb, ◌==◌,
  if◌then◌else◌, Bytes, str, str_eq, length, take, drop,
}

has_prefix : Bytes → Bytes → Bool
has_prefix [] s = true
has_prefix (p ∷ ps) [] = false
has_prefix (p ∷ ps) (c ∷ s) = p == c && has_prefix ps s

-- a private room that only trusted players join
unfoldable pub is_restricted : Bytes → Bool
unfolding has_prefix
is_restricted rk = has_prefix (str "vp") rk || has_prefix (str "bp") rk

region_digit : Bytes → Bool
region_digit [] = false
region_digit (c ∷ s) = leb b'0' c && ltb c b'6'

-- "vs_0" to "vs_5" and "bt_0" to "bt_5" stand for "vs" and "bt"
unfoldable pub without_region : Bytes → Bytes
unfolding has_prefix region_digit
without_region rk =
    if (length rk == 4)
      && ((has_prefix (str "vs_") rk || has_prefix (str "bt_") rk) && region_digit (drop 3 rk))
    then take 2 rk
    else rk

-- a missing key reads as ""
unfoldable pub value_at : (Bytes → Option Bytes) → Bytes → Bytes
value_at context key = elim (context key) [ none ↦ [] | some v ↦ v ]

-- `uint32(int32(n))` of the number that the text stands for
pid_of : Option Bytes → Option ℕ
pid_of none = none
pid_of (some text) = elim (atoi text) [ none ↦ none | some n ↦ some (n % 2 ^ 32) ]

unfoldable pub restricted_join : Option Bytes → Run ℕ
unfolding pid_of
restricted_join dwc_pid = elim (pid_of dwc_pid) [ none ↦ pure 0 | some pid ↦ kick pid 0 ]

unfoldable pub untrusted : (Bytes → Option Bytes) → Bool
unfolding value_at
untrusted context = str_eq (value_at context (str "+trusted")) (str "false")

unfoldable pub eval_equals_rk : (Bytes → Option Bytes) → Bytes → Run ℕ
unfolding value_at untrusted is_restricted restricted_join without_region
eval_equals_rk context searched =
    let rk = value_at context (str "rk") in
    if untrusted context && is_restricted rk
    then restricted_join (context (str "dwc_pid"))
    else pure (if str_eq (without_region rk) (without_region searched) then 1 else 0)
