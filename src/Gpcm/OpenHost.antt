-- ===== src/Gpcm/OpenHost.antt =====
-- openHostDisabled of gpcm/friend.go. Its loop ranges over the array of the sender's authorized friends,
-- from which its body removes elements in place: a removal writes the last element over the removed one
-- and makes the slice shorter, and the loop goes on over the whole array. The array is the list and
-- what was cut off it. No session is among its own friends, so the body's friend is another object.
pub mod Clears
use wfc_server_private.GameSpy.{GameSpyCommand}
use wfc_server_private.Gpcm.{GameSpySession, Trace, object, change, Run, finished, halted}
use wfc_server_private.Gpcm.Bestie.{Services}
use wfc_server_private.Gpcm.Friend.{revoke}
use wfc_server_private.Gpcm.Lists.{is_in, last_of}
use wfc_server_private.Gpcm.Status.{open_host_enabled, part_from}
use wfc_server_private.Prelude.{
  ℕ, zero, suc, true, not, ◌&&◌, Option, none, some, List, [], ◌∷◌, ◌++◌, if◌then◌else◌, Bytes, str,
  str_eq, length,
}
use wfc_server_private.Prelude.Dict.{lookup}

-- the element of the array at an index
unfoldable pub at : List ℕ → ℕ → Option ℕ
at [] i = none
at (x ∷ xs) zero = some x
at (x ∷ xs) (suc i) = at xs i

-- what a removal cuts off the slice: its last element, which stays in the array
unfoldable pub cut_off : ℕ → List ℕ → List ℕ
unfolding is_in last_of
cut_off profile_id [] = []
cut_off profile_id (x ∷ xs) = if is_in profile_id (x ∷ xs) then last_of x xs ∷ [] else []

-- the friend's side: the sender is removed from its list and it is told
unfoldable pub leave : ℕ → GameSpySession → Trace → Trace
unfolding part_from
leave id g r = part_from g id r

-- The loop from the index `i` on, with `n` elements of the array left; `tail` is what was cut off. The
-- sender's list is read anew at each turn.
unfoldable pub disable_loop : ℕ → ℕ → ℕ → List ℕ → Trace → Trace
unfolding object at is_in change revoke cut_off leave
disable_loop ref i zero tail r = r
disable_loop ref i (suc n) tail r = elim (object ref r.state) [
  | none ↦ r
  | some g ↦ elim (at (g.auth_friend_list ++ tail) i) [
    | none ↦ r
    | some id ↦
        if is_in id g.friend_list
        then r
        else disable_loop ref (suc i) n (cut_off id g.auth_friend_list ++ tail)
            (leave id g (change ref (revoke id) r))
  ]
]

-- openHostDisabled
unfoldable pub open_host_disabled : ℕ → Trace → Trace
unfolding object disable_loop
open_host_disabled ref r = elim (object ref r.state) [
  | none ↦ r
  | some g ↦ disable_loop ref 0 (length g.auth_friend_list) [] r
]

-- the part of updateProfile before the database: the open host is switched on or off
unfoldable pub switch_host : ℕ → List ℕ → GameSpySession → GameSpyCommand → Trace → Trace
unfolding lookup open_host_enabled open_host_disabled
switch_host ref pids g command r = elim (lookup (str "wwfc_openhost") command.other_values) [
  | none ↦ r
  | some open_host ↦
      let enabled = not (str_eq open_host (str "0")) in
      if not g.open_host && enabled
      then open_host_enabled ref g true pids r
      else if g.open_host && not enabled
      then open_host_disabled ref r
      else r
]

-- the value of the key, or the old one
abbrev given : Bytes → Bytes → List (Bytes × Bytes) → Bytes
given key old entries = elim (lookup key entries) [ none ↦ old | some v ↦ v ]

-- User.UpdateProfile of database/user.go, on the user of the session; it panics where the query fails
unfoldable pub update_user : Services → ℕ → GameSpySession → GameSpyCommand → Trace → Run
unfolding lookup change
update_user services ref g command r =
    let entries = command.other_values in
    if not (services.update_user_table g.profile_id entries)
    then halted r
    else finished (
        change ref
          (λ s. record s {
            first_name = given (str "firstname") s.first_name entries;
            last_name = given (str "lastname") s.last_name entries;
            open_host = elim (lookup (str "wwfc_openhost") entries) [
              | none ↦ s.open_host
              | some open_host ↦ not (str_eq open_host (str "0"))
            ];
          })
          r)

-- updateProfile; `pids` is the order in which the map `sessions` is iterated
unfoldable pub update_profile : Services → ℕ → List ℕ → GameSpyCommand → Trace → Run
unfolding object switch_host update_user
update_profile services ref pids command r = elim (object ref r.state) [
  | none ↦ finished r
  | some g ↦ update_user services ref g command (switch_host ref pids g command r)
]
