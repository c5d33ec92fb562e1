-- ===== src/Gpcm/Lists/Removal.antt =====
-- removeFromUint32Array of gpcm/friend.go as the removal from a bag of profile ids.
use wfc_server_private.Gpcm.Lists.{
  is_in, index_of, last_of, without_last, set, remove_from_uint32_array, drop_friend, count,
}
use wfc_server_private.Prelude.{
  ℕ, zero, suc, ◌+◌, ◌≤◌, ◌<◌, ◌≡◌, refl, ap, ◌⊎◌, inl, inr, true, false, none, some, List, [], ◌∷◌,
  ◌++◌, arith, ltb, ◌==◌, if◌then◌else◌, Bool-cases, Option-cases, length,
}

set-length : (xs : List ℕ) (i v : ℕ) → length (set xs i v) ≡ length xs
unfolding set
set-length [] i v = refl
set-length (x ∷ xs) zero v = refl
set-length (x ∷ xs) (suc i) v = omega (arith, set-length xs i v)

-- The last element of an array over which the last element was written.
last-set :
    (d x : ℕ) (xs : List ℕ) (k : ℕ)
    → k < length (x ∷ xs)
    → last_of d (set (x ∷ xs) k (last_of x xs)) ≡ last_of x xs
unfolding set last_of
last-set d x [] zero h = refl
last-set d x [] (suc k) h = absurd (omega arith)
last-set d x (y ∷ ys) zero h = refl
last-set d x (y ∷ ys) (suc k) h = last-set x y ys k (omega arith)

split-last : (x : ℕ) (xs : List ℕ) → without_last (x ∷ xs) ++ (last_of x xs ∷ []) ≡ x ∷ xs
unfolding without_last last_of
split-last x [] = refl
split-last x (y ∷ ys) = rw (split-last y ys) refl

-- The end of an array that is not empty.
split_end :
    (d l : ℕ) (xs : List ℕ) → 0 < length xs → last_of d xs ≡ l → without_last xs ++ (l ∷ []) ≡ xs
unfolding last_of
split_end d l [] size h = absurd (omega arith)
split_end d l (x ∷ xs) size h = rw (← h) (split-last x xs)

pub index-cases :
    (y x : ℕ) (xs : List ℕ) (k : ℕ)
    → index_of y (x ∷ xs) ≡ some k
    → ((x == y) ≡ true) × (k ≡ 0)
      ⊎ ((x == y) ≡ false) × (j : ℕ) × (index_of y xs ≡ some j) × (k ≡ suc j)
unfolding index_of
index-cases y x xs k e = elim (Bool-cases (x == y)) [
  | inl t ↦ inl (t, ground arith)
  | inr f ↦ elim (Option-cases (index_of y xs)) [
    | inl q ↦ absurd (ground arith)
    | inr (j, q) ↦ inr (f, j, q, ground arith)
  ]
]

index-bound : (y : ℕ) (xs : List ℕ) (k : ℕ) → index_of y xs ≡ some k → k < length xs
unfolding index_of
index-bound y [] k e = cc
index-bound y (x ∷ xs) k e = elim (index-cases y x xs k e) [
  | inl (t, z) ↦ omega arith
  | inr (f, j, q, z) ↦ omega (arith, index-bound y xs j q)
]

pub index-is_in : (y : ℕ) (xs : List ℕ) → is_in y xs ≡ true → (k : ℕ) × (index_of y xs ≡ some k)
unfolding index_of is_in
index-is_in y [] h = cc
index-is_in y (x ∷ xs) h = elim (Bool-cases (x == y)) [
  | inl e ↦ (0, rw e refl)
  | inr e ↦ let (k, q) = index-is_in y xs (ground arith) in (suc k, rw (e, q) refl)
]

pub index-ne_is_in : (y : ℕ) (xs : List ℕ) → is_in y xs ≡ false → index_of y xs ≡ none
unfolding index_of is_in
index-ne_is_in y [] h = refl
index-ne_is_in y (x ∷ xs) h = ground (arith, index-ne_is_in y xs)

-- What a removal leaves, with the element that it cuts off, is the array with the last element written
-- over the removed one.
pub removed :
    (y x : ℕ) (xs : List ℕ) (k : ℕ)
    → index_of y (x ∷ xs) ≡ some k
    → drop_friend y (x ∷ xs) ++ (last_of x xs ∷ []) ≡ set (x ∷ xs) k (last_of x xs)
unfolding drop_friend
removed y x xs k e =
    let bound : k < length (x ∷ xs) = index-bound y (x ∷ xs) k e in
    let within : ltb k (length (x ∷ xs)) ≡ true = ground arith in
    let l = last_of x xs in
    let size : 0 < length (set (x ∷ xs) k l) = omega (arith, set-length (x ∷ xs) k l) in
    rw (e, remove_from_uint32_array, within)
      (split_end x l (set (x ∷ xs) k l) size (last-set x x xs k bound))

pub count-append : (a : ℕ) (xs ys : List ℕ) → count a (xs ++ ys) ≡ count a xs + count a ys
unfolding count
count-append a [] ys = omega arith
count-append a (x ∷ xs) ys = omega (arith, count-append a xs ys)

count-set :
    (a y v : ℕ) (xs : List ℕ) (k : ℕ)
    → index_of y xs ≡ some k
    → count a (set xs k v) + (if y == a then 1 else 0) ≡ count a xs + (if v == a then 1 else 0)
unfolding count set index_of
count-set a y v [] k e = cc
count-set a y v (x ∷ xs) k e = elim (index-cases y x xs k e) [
  | inl (t, z) ↦ rw z (ground arith)
  | inr (f, j, q, z) ↦ rw z (omega (arith, count-set a y v xs j q))
]

-- The removal of a profile id that stands in the list takes it away once, and keeps how often every
-- other one stands there.
pub drop_friend-count :
    (a y : ℕ) (xs : List ℕ)
    → is_in y xs ≡ true
    → count a xs ≡ count a (drop_friend y xs) + (if y == a then 1 else 0)
unfolding count is_in
drop_friend-count a y [] h = cc
drop_friend-count a y (x ∷ xs) h =
    let (k, e) = index-is_in y (x ∷ xs) h in
    omega (
      arith,
      count-set a y (last_of x xs) (x ∷ xs) k e,
      ap (count a) (removed y x xs k e),
      count-append a (drop_friend y (x ∷ xs)) (last_of x xs ∷ []),
    )

is_in-count : (a : ℕ) (xs : List ℕ) → is_in a xs ≡ true → 1 ≤ count a xs
unfolding is_in count
is_in-count a [] h = cc
is_in-count a (x ∷ xs) h = ground (arith, is_in-count a xs)

count-is_in : (a : ℕ) (xs : List ℕ) → 1 ≤ count a xs → is_in a xs ≡ true
unfolding is_in count
count-is_in a [] h = absurd (omega arith)
count-is_in a (x ∷ xs) h = ground (arith, count-is_in a xs)

self_once : (a : ℕ) → count a (a ∷ []) ≡ 1
unfolding count
self_once a = ground arith

count-last : (a : ℕ) (xs : List ℕ) → count a (xs ++ (a ∷ [])) ≡ count a xs + 1
unfolding count
count-last a xs = omega (arith, count-append a xs (a ∷ []), self_once a)

-- What stands in a list and is added to it stands there twice.
pub counted_twice : (a : ℕ) (xs : List ℕ) → is_in a xs ≡ true → 2 ≤ count a (xs ++ (a ∷ []))
counted_twice a xs h = omega (arith, is_in-count a xs h, count-last a xs)

-- What stands in a list and is added to it once more is there after one removal.
pub twice_in :
    (a : ℕ) (xs : List ℕ) → is_in a xs ≡ true → is_in a (drop_friend a (xs ++ (a ∷ []))) ≡ true
unfolding count
twice_in a xs h =
    let more = is_in-count a xs h in
    let two = count-last a xs in
    count-is_in a (drop_friend a (xs ++ (a ∷ []))) (
      omega (
        arith,
        drop_friend-count a a (xs ++ (a ∷ [])) (count-is_in a (xs ++ (a ∷ [])) (omega arith)),
        self_once a,
      ))
