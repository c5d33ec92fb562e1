-- ===== src/Gpcm/Lists.antt =====
-- The lists of profile ids of gpcm/friend.go.
pub mod Removal
pub mod Once
use wfc_server_private.Prelude.{
  ℕ, zero, suc, ◌+◌, ◌≡◌, refl, Bool, false, ◌||◌, Option, none, some, List, [], ◌∷◌, ltb, ◌==◌,
  if◌then◌else◌, length,
}

-- isFriendAdded and isFriendAuthorized, on their list
unfoldable pub is_in : ℕ → List ℕ → Bool
is_in profile_id [] = false
is_in profile_id (stored_pid ∷ pids) = stored_pid == profile_id || is_in profile_id pids

-- getFriendIndex and getAuthorizedFriendIndex, `none` for -1
unfoldable pub index_of : ℕ → List ℕ → Option ℕ
index_of profile_id [] = none
index_of profile_id (stored_pid ∷ pids) =
    if stored_pid == profile_id
    then some 0
    else elim (index_of profile_id pids) [ none ↦ none | some i ↦ some (suc i) ]

-- the last element of an array, which is `d` and what follows it
unfoldable pub last_of : ℕ → List ℕ → ℕ
last_of d [] = d
last_of d (x ∷ xs) = last_of x xs

-- `array[:lastIndex]`
unfoldable pub without_last : List ℕ → List ℕ
without_last [] = []
without_last (x ∷ []) = []
without_last (x ∷ y ∷ ys) = x ∷ without_last (y ∷ ys)

-- `array[index] = v`
unfoldable pub set : List ℕ → ℕ → ℕ → List ℕ
set [] index v = []
set (x ∷ xs) zero v = v ∷ xs
set (x ∷ xs) (suc index) v = x ∷ set xs index v

-- removeFromUint32Array; an index out of bounds is an error, which no caller reads
unfoldable pub remove_from_uint32_array : List ℕ → Option ℕ → List ℕ
unfolding last_of without_last set
remove_from_uint32_array array none = array
remove_from_uint32_array [] (some index) = []
remove_from_uint32_array (x ∷ xs) (some index) =
    if ltb index (length (x ∷ xs)) then without_last (set (x ∷ xs) index (last_of x xs)) else x ∷ xs

-- `removeFromUint32Array(&list, index of profileId)`
unfoldable pub drop_friend : ℕ → List ℕ → List ℕ
unfolding remove_from_uint32_array index_of
drop_friend profile_id pids = remove_from_uint32_array pids (index_of profile_id pids)

-- How often a profile id stands in a list.
unfoldable pub count : ℕ → List ℕ → ℕ
count a [] = 0
count a (x ∷ xs) = (if x == a then 1 else 0) + count a xs

dropped : drop_friend 2 (1 ∷ 2 ∷ 3 ∷ 4 ∷ []) ≡ 1 ∷ 4 ∷ 3 ∷ []
unfolding drop_friend
dropped = refl
