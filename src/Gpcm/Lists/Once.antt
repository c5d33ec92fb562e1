-- ===== src/Gpcm/Lists/Once.antt =====
-- A friend list of gpcm/friend.go in which nobody stands twice.
use wfc_server_private.Gpcm.Lists.{is_in, remove_from_uint32_array, drop_friend, count}
use wfc_server_private.Gpcm.Lists.Removal.{index-ne_is_in, count-append, drop_friend-count}
use wfc_server_private.Prelude.{
  ℕ, ◌+◌, ◌≤◌, ◌≡◌, refl, ap, inl, inr, Bool, true, false, List, [], ◌∷◌, ◌++◌, arith, ◌==◌,
  if◌then◌else◌, Bool-cases,
}

abbrev pub IsOnce : List ℕ → Type 0
IsOnce xs = (a : ℕ) → count a xs ≤ 1

absent-count : (a y : ℕ) (xs : List ℕ) → is_in y xs ≡ false → (y == a) ≡ true → count a xs ≡ 0
unfolding is_in count
absent-count a y [] h e = refl
absent-count a y (x ∷ xs) h e = ground (arith, absent-count a y xs)

single-count : (a y : ℕ) → count a (y ∷ []) ≡ (if y == a then 1 else 0)
unfolding count
single-count a y = omega arith

-- A profile id that is added at the end counts once more.
pub added-count :
    (a y : ℕ) (xs : List ℕ) → count a (xs ++ (y ∷ [])) ≡ count a xs + (if y == a then 1 else 0)
added-count a y xs = omega (arith, count-append a xs (y ∷ []), single-count a y)

-- Nobody stands twice after a newcomer is added at the end.
pub added-IsOnce : (y : ℕ) (xs : List ℕ) → is_in y xs ≡ false → IsOnce xs → IsOnce (xs ++ (y ∷ []))
added-IsOnce y xs out once a = elim (Bool-cases (y == a)) [
  | inl e ↦ omega (
    arith,
    added-count a y xs,
    absent-count a y xs out e,
    ap {B = ℕ} (λ (b : Bool). if b then 1 else 0) e,
  )
  | inr e ↦
      omega (arith, added-count a y xs, once a, ap {B = ℕ} (λ (b : Bool). if b then 1 else 0) e)
]

-- A removal leaves nobody more often than before.
pub drop_friend-less : (a y : ℕ) (xs : List ℕ) → count a (drop_friend y xs) ≤ count a xs
drop_friend-less a y xs = elim (Bool-cases (is_in y xs)) [
  | inl e ↦ omega (arith, drop_friend-count a y xs e)
  | inr e ↦ omega (arith, ap (count a) (drop_friend-absent y xs e))
]
  where
    drop_friend-absent : (z : ℕ) (zs : List ℕ) → is_in z zs ≡ false → drop_friend z zs ≡ zs
    drop_friend-absent z zs e =
        unfold drop_friend in rw (index-ne_is_in z zs e, remove_from_uint32_array) refl
