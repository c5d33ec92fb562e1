-- ===== src/Prelude/Maps.antt =====
-- A Go map with numeric keys, as an association list. An assignment keeps the place of an old key,
-- and appends a new one.
use wfc_server_private.Prelude.{
  ℕ, ◌≡◌, refl, ◌≢◌, ◌⊎◌, inl, inr, Option, none, some, List, [], ◌∷◌, arith, ◌==◌, if◌then◌else◌,
  Bool-cases,
}

module _ {ℓ} {V : Type ℓ} where
  -- m[k], with the `ok` of the two value form
  unfoldable pub find : ℕ → List (ℕ × V) → Option V
  find k [] = none
  find k ((j, v) ∷ m) = if j == k then some v else find k m

  -- m[k] = v
  unfoldable pub insert : ℕ → V → List (ℕ × V) → List (ℕ × V)
  insert k v [] = (k, v) ∷ []
  insert k v ((j, w) ∷ m) = if j == k then (k, v) ∷ m else (j, w) ∷ insert k v m

  -- delete(m, k)
  unfoldable pub delete : ℕ → List (ℕ × V) → List (ℕ × V)
  delete k [] = []
  delete k ((j, w) ∷ m) = let rest = delete k m in if j == k then rest else (j, w) ∷ rest

  -- what stands at the key after a write
  pub find-insert :
      (k j : ℕ) (v : V) (m : List (ℕ × V))
      → find j (insert k v m) ≡ (if k == j then some v else find j m)
  unfolding find insert
  find-insert k j v [] = refl
  find-insert k j v ((i, w) ∷ m) = ground (arith, find-insert k j v m)

  pub find-delete :
      (k j : ℕ) (m : List (ℕ × V)) → find j (delete k m) ≡ (if k == j then none else find j m)
  unfolding find delete
  find-delete k j [] = ground arith
  find-delete k j ((i, w) ∷ m) = ground (arith, find-delete k j m)

module _ {ℓ} {V : Type ℓ} where
  -- What stands in the map after a write was written, or stood there.
  pub insert-cases :
      (k : ℕ) (v : V) (m : List (ℕ × V)) (j : ℕ) (w : V)
      → find j (insert k v m) ≡ some w
      → (k ≡ j) × (v ≡ w) ⊎ (k ≢ j) × (find j m ≡ some w)
  insert-cases k v m j w e = elim (Bool-cases (k == j)) [
    | inl same ↦ inl (ground arith, ground (arith, find-insert k j v m))
    | inr other ↦ inr (ground arith, ground (arith, find-insert k j v m))
  ]

  pub find-insert_self : (k : ℕ) (v : V) (m : List (ℕ × V)) → find k (insert k v m) ≡ some v
  find-insert_self k v m = ground (arith, find-insert k k v m)

  pub find-insert_ne :
      (k j : ℕ) (v : V) (m : List (ℕ × V)) → k ≢ j → find j (insert k v m) ≡ find j m
  find-insert_ne k j v m h = ground (arith, find-insert k j v m)

  -- The later of two writes at a key is the one that counts.
  pub insert-insert :
      (k : ℕ) (v w : V) (m : List (ℕ × V)) → insert k v (insert k w m) ≡ insert k v m
  unfolding insert
  insert-insert k v w [] = ground arith
  insert-insert k v w ((j, x) ∷ m) = elim (Bool-cases (j == k)) [
    | inl e ↦ rw (e, insert) (ground arith)
    | inr e ↦ rw (e, insert) (rw (e, insert) (rw (insert-insert k v w m) refl))
  ]
