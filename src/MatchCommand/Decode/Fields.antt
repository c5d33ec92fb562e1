-- ===== src/MatchCommand/Decode/Fields.antt =====
-- Checked fields of a match command's buffer, as `DecodeMatchCommand` reads them.
use wfc_server_private.MatchCommand.Words.{le_at}
use wfc_server_private.Prelude.{ℕ, zero, suc, ◌%◌, Bool, not, List, [], ◌∷◌, ltb, ◌==◌, Bytes}
use wfc_server_private.Prelude.Outcome.{Outcome, ok, ◌>>=◌, ◌>>◌, reject_if}

-- `x := … ; if x > 0xffff { break }`
unfoldable pub port_at : Bytes → ℕ → Outcome ℕ
port_at buffer at = do port ← le_at buffer at; reject_if (ltb 0xffff port); ok (port % 65536)

-- `x := … ; if x > 1 { break }; x != 0`
unfoldable pub flag_at : Bytes → ℕ → Outcome Bool
flag_at buffer at = do value ← le_at buffer at; reject_if (ltb 1 value); ok (not (value == 0))

-- `for i := …; i < count; i++ { append(…, Uint32(buffer[at(i) : at(i)+4])) }`, from round `i` with
-- `n` rounds left.
unfoldable pub words_from : (ℕ → ℕ) → Bytes → ℕ → ℕ → Outcome (List ℕ)
words_from at buffer zero i = ok []
words_from at buffer (suc n) i = do
  v ← le_at buffer (at i)
  vs ← words_from at buffer n (suc i)
  ok (v ∷ vs)
