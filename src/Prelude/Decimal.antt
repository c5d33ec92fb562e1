-- ===== src/Prelude/Decimal.antt =====
-- Decimal text, as fmt's %d and strconv print a natural number.
use wfc_server_private.Prelude.{
  ℕ, zero, suc, ◌+◌, ◌/◌, ◌%◌, ◌≡◌, refl, [], ◌∷◌, ◌++◌, ltb, if◌then◌else◌, Bytes, str,
}

digit : ℕ → ℕ
digit n = 48 + n

-- with fuel above the number
digits : ℕ → ℕ → Bytes
unfolding digit
digits zero n = digit n ∷ []
digits (suc f) n =
    let more = digits f (n / 10) ++ digit (n % 10) ∷ [] in if ltb n 10 then digit n ∷ [] else more

unfoldable pub decimal : ℕ → Bytes
unfolding digits
decimal n = digits n n

decimal_29900 : decimal 29900 ≡ str "29900"
unfolding decimal
decimal_29900 = refl
