-- ===== src/Prelude/Dict.antt =====
-- A Go map with string keys, as an association list. An assignment keeps the place of an old key, and
-- appends a new one.
use wfc_server_private.Prelude.{
  ◌≡◌, refl, Option, none, some, List, [], ◌∷◌, ◌++◌, arith, if◌then◌else◌, Bytes, str_eq,
}

module _ {ℓ} {V : Type ℓ} where
  -- m[k], with the `ok` of the two value form
  unfoldable pub lookup : Bytes → List (Bytes × V) → Option V
  lookup k [] = none
  lookup k ((j, v) ∷ m) = if str_eq j k then some v else lookup k m

  -- m[k] = v
  unfoldable pub assign : Bytes → V → List (Bytes × V) → List (Bytes × V)
  assign k v [] = (k, v) ∷ []
  assign k v ((j, w) ∷ m) = if str_eq j k then (k, v) ∷ m else (j, w) ∷ assign k v m

  -- delete(m, k)
  unfoldable pub remove : Bytes → List (Bytes × V) → List (Bytes × V)
  remove k [] = []
  remove k ((j, w) ∷ m) = let rest = remove k m in if str_eq j k then rest else (j, w) ∷ rest

  -- A new key comes last.
  pub assign_new :
      (k : Bytes) (v : V) (m : List (Bytes × V))
      → lookup k m ≡ none
      → assign k v m ≡ m ++ ((k, v) ∷ [])
  unfolding lookup assign
  assign_new k v [] h = refl
  assign_new k v ((j, w) ∷ m) h = ground (arith, assign_new k v m)

-- m[k] of a map of strings, "" for a missing key
unfoldable pub text_at : Bytes → List (Bytes × Bytes) → Bytes
unfolding lookup
text_at k m = elim (lookup k m) [ none ↦ [] | some v ↦ v ]
