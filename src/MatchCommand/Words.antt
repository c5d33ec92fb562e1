-- ===== src/MatchCommand/Words.antt =====
-- encoding/binary as match_command.go uses it: 32-bit words in either byte order.
use wfc_server_private.Prelude.{
  ℕ, ◌+◌, ◌*◌, ◌/◌, ◌%◌, ◌^◌, ◌≤◌, ◌<◌, ◌≡◌, refl, ap, [], ◌∷◌, ◌++◌, arith, leb, if◌then◌else◌,
  Bytes, length, drop, length-append, length-drop, drop-append,
}
use wfc_server_private.Prelude.Outcome.{Outcome, ok, panicked}

-- binary.LittleEndian.AppendUint32([]byte{}, v)
unfoldable pub put_le : ℕ → Bytes
put_le v = v % 256 ∷ v / 256 % 256 ∷ v / 65536 % 256 ∷ v / 16777216 % 256 ∷ []

-- binary.BigEndian.AppendUint32([]byte{}, v)
unfoldable pub put_be : ℕ → Bytes
put_be v = v / 16777216 % 256 ∷ v / 65536 % 256 ∷ v / 256 % 256 ∷ v % 256 ∷ []

-- The word at the front of a slice; a shorter slice is a panic.
unfoldable pub front_le : Bytes → Outcome ℕ
front_le (a ∷ b ∷ c ∷ d ∷ _) = ok (a + 256 * b + 65536 * c + 16777216 * d)
front_le _ = panicked

unfoldable pub front_be : Bytes → Outcome ℕ
front_be (a ∷ b ∷ c ∷ d ∷ _) = ok (d + 256 * c + 65536 * b + 16777216 * a)
front_be _ = panicked

-- binary.LittleEndian.Uint32(buffer[at : at+4])
unfoldable pub le_at : Bytes → ℕ → Outcome ℕ
unfolding front_le
le_at buffer at = front_le (drop at buffer)

-- binary.BigEndian.Uint32(buffer[at : at+4])
unfoldable pub be_at : Bytes → ℕ → Outcome ℕ
unfolding front_be
be_at buffer at = front_be (drop at buffer)

-- buffer[at:]
unfoldable pub slice_from : Bytes → ℕ → Outcome Bytes
slice_from buffer at = if leb at (length buffer) then ok (drop at buffer) else panicked

-- The number that four bytes stand for is read back from them.
pub front_le-put_le : (v : ℕ) (rest : Bytes) → v < 2 ^ 32 → front_le (put_le v ++ rest) ≡ ok v
unfolding front_le put_le
front_le-put_le v rest h = ap ok (omega arith)

pub front_be-put_be : (v : ℕ) (rest : Bytes) → v < 2 ^ 32 → front_be (put_be v ++ rest) ≡ ok v
unfolding front_be put_be
front_be-put_be v rest h = ap ok (omega arith)

-- Within the buffer a read succeeds.
pub le_at_within :
    (buffer : Bytes) (at : ℕ) → at + 4 ≤ length buffer → (v : ℕ) × (le_at buffer at ≡ ok v)
unfolding le_at
le_at_within buffer at h = go (drop at buffer) (omega (arith, length-drop at buffer))
  where
    go : (xs : Bytes) → 4 ≤ length xs → (v : ℕ) × (front_le xs ≡ ok v)
    go (a ∷ b ∷ c ∷ d ∷ xs) k = (a + 256 * b + 65536 * c + 16777216 * d, refl)
    go (a ∷ b ∷ c ∷ []) k = absurd (omega arith)
    go (a ∷ b ∷ []) k = absurd (omega arith)
    go (a ∷ []) k = absurd (omega arith)
    go [] k = absurd (omega arith)

pub be_at_within :
    (buffer : Bytes) (at : ℕ) → at + 4 ≤ length buffer → (v : ℕ) × (be_at buffer at ≡ ok v)
unfolding be_at
be_at_within buffer at h = go (drop at buffer) (omega (arith, length-drop at buffer))
  where
    go : (xs : Bytes) → 4 ≤ length xs → (v : ℕ) × (front_be xs ≡ ok v)
    go (a ∷ b ∷ c ∷ d ∷ xs) k = (d + 256 * c + 65536 * b + 16777216 * a, refl)
    go (a ∷ b ∷ c ∷ []) k = absurd (omega arith)
    go (a ∷ b ∷ []) k = absurd (omega arith)
    go (a ∷ []) k = absurd (omega arith)
    go [] k = absurd (omega arith)

pub slice_from_within :
    (buffer : Bytes) (at : ℕ) → at ≤ length buffer → slice_from buffer at ≡ ok (drop at buffer)
unfolding slice_from
slice_from_within buffer at h = ground arith

-- The four bytes of a word add up to it again.
pub word_bytes :
    (v : ℕ)
    → v < 2 ^ 32
    → v % 256 + 256 * (v / 256 % 256) + 65536 * (v / 65536 % 256) + 16777216 * (v / 16777216 % 256)
      ≡ v
word_bytes v h = omega arith

-- Reads behind a prefix of known length.
module _ (xs ys : Bytes) (k at : ℕ) (e : at ≡ length xs + k) where
  pub le_at-append : le_at (xs ++ ys) at ≡ le_at ys k
  unfolding le_at
  le_at-append = rw (e, drop-append)

  pub be_at-append : be_at (xs ++ ys) at ≡ be_at ys k
  unfolding be_at
  be_at-append = rw (e, drop-append)

  pub slice_from-append : slice_from (xs ++ ys) at ≡ slice_from ys k
  unfolding slice_from
  slice_from-append = rw (e, drop-append) (ground (arith, length-append xs ys))

-- The word that a buffer begins with.
pub le_at-put_le : (v : ℕ) (rest : Bytes) → v < 2 ^ 32 → le_at (put_le v ++ rest) 0 ≡ ok v
unfolding le_at
le_at-put_le v rest h = front_le-put_le v rest h

pub length-put_le : (v : ℕ) → length (put_le v) ≡ 4
unfolding put_le
length-put_le v = refl
