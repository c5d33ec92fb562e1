-- ===== src/Gpcm/OpenHost/Clears.antt =====
-- What openHostDisabled of gpcm/friend.go leaves of the sender's authorized friends.
use wfc_server_private.Gpcm.{GameSpySession, Trace, object, online, change, act}
use wfc_server_private.Gpcm.Friend.{revoke}
use wfc_server_private.Gpcm.Lists.{
  is_in, index_of, last_of, set, remove_from_uint32_array, drop_friend, count,
}
use wfc_server_private.Gpcm.Lists.Removal.{
  index-cases, index-is_in, index-ne_is_in, removed, drop_friend-count,
}
use wfc_server_private.Gpcm.OpenHost.{at, cut_off, leave, disable_loop, open_host_disabled}
use wfc_server_private.Gpcm.Send.{send_message_to_session}
use wfc_server_private.Gpcm.Status.{part_from}
use wfc_server_private.Gpcm.Store.{
  IsKeyed, change-sessions, change-here, change-other, change-IsKeyed, online-found,
}
use wfc_server_private.Prelude.{
  ℕ, zero, suc, ◌≤◌, ◌≡◌, refl, sym, ap, ◌∙◌, ◌≢◌, inl, inr, true, false, Option, none, some, List,
  [], ◌∷◌, ◌++◌, append-nil, append_assoc, arith, ◌==◌, ==-eq, Bool-cases, if_induction, length,
  drop, All,
}
use wfc_server_private.Prelude.Maps.{find}

at-drop :
    (array : List ℕ) (i y : ℕ) (rest : List ℕ)
    → drop i array ≡ y ∷ rest
    → (at array i ≡ some y) × (drop (suc i) array ≡ rest)
unfolding at
at-drop [] zero y rest e = cc
at-drop [] (suc i) y rest e = cc
at-drop (x ∷ xs) zero y rest e = (cc, cc)
at-drop (x ∷ xs) (suc i) y rest e = at-drop xs i y rest e

-- A write before the loop's place is not read by the rest of the loop.
drop-set :
    (pids tail : List ℕ) (k v i : ℕ)
    → k ≤ i
    → drop (suc i) (set pids k v ++ tail) ≡ drop (suc i) (pids ++ tail)
unfolding set
drop-set [] tail k v i h = refl
drop-set (x ∷ xs) tail zero v i h = refl
drop-set (x ∷ xs) tail (suc k) v zero h = absurd (omega arith)
drop-set (x ∷ xs) tail (suc k) v (suc i) h = drop-set xs tail k v i (omega arith)

-- The first place of what the loop reads is no later than the loop's.
index-le :
    (pids tail : List ℕ) (i y k : ℕ)
    → at (pids ++ tail) i ≡ some y
    → index_of y pids ≡ some k
    → k ≤ i
unfolding at index_of
index-le [] tail i y k e q = cc
index-le (x ∷ xs) tail zero y k e q = elim (index-cases y x xs k q) [
  | inl (t, z) ↦ omega arith
  | inr (f, j, p, z) ↦ ground arith
]
index-le (x ∷ xs) tail (suc i) y k e q = elim (index-cases y x xs k q) [
  | inl (t, z) ↦ omega arith
  | inr (f, j, p, z) ↦ omega (arith, index-le xs tail i y j e p)
]

drop_friend-absent : (y : ℕ) (pids : List ℕ) → is_in y pids ≡ false → drop_friend y pids ≡ pids
unfolding drop_friend
drop_friend-absent y pids h = rw (index-ne_is_in y pids h, remove_from_uint32_array) refl

cut_off-absent : (y : ℕ) (pids : List ℕ) → is_in y pids ≡ false → cut_off y pids ≡ []
unfolding cut_off
cut_off-absent y [] h = refl
cut_off-absent y (x ∷ xs) h = rw h refl

-- What is left of the slice, and what is cut off, is the array after the write.
after_write :
    (y x : ℕ) (xs tail : List ℕ) (k : ℕ)
    → is_in y (x ∷ xs) ≡ true
    → index_of y (x ∷ xs) ≡ some k
    → drop_friend y (x ∷ xs) ++ (cut_off y (x ∷ xs) ++ tail) ≡ set (x ∷ xs) k (last_of x xs) ++ tail
after_write y x xs tail k h e =
    let cut : cut_off y (x ∷ xs) ≡ last_of x xs ∷ [] = unfold cut_off in rw h refl in
    rw cut (
      sym (append_assoc (drop_friend y (x ∷ xs)) (last_of x xs ∷ []) tail)
      ∙ ap (λ (l : List ℕ). l ++ tail) (removed y x xs k e))

-- A turn of the loop leaves the rest of the array as it is.
rest_same :
    (pids tail : List ℕ) (i y : ℕ)
    → at (pids ++ tail) i ≡ some y
    → drop (suc i) (drop_friend y pids ++ (cut_off y pids ++ tail)) ≡ drop (suc i) (pids ++ tail)
rest_same [] tail i y e =
    rw (drop_friend-absent y [] (unfold is_in in refl), cut_off-absent y [] (unfold is_in in refl))
      refl
rest_same (x ∷ xs) tail i y e = elim (Bool-cases (is_in y (x ∷ xs))) [
  | inr n ↦ rw (drop_friend-absent y (x ∷ xs) n, cut_off-absent y (x ∷ xs) n) refl
  | inl t ↦
      let (k, q) = index-is_in y (x ∷ xs) t in
      rw (after_write y x xs tail k t q)
        (drop-set (x ∷ xs) tail k (last_of x xs) i (index-le (x ∷ xs) tail i y k e q))
]

count-absent : (y : ℕ) (pids : List ℕ) → is_in y pids ≡ false → count y pids ≡ 0
unfolding count is_in
count-absent y [] h = refl
count-absent y (x ∷ xs) h = ground (arith, count-absent y xs)

-- Whatever stands in the list, the rest of the array has it as often.
abbrev Covers : List ℕ → List ℕ → Type 0
Covers pids rest = (a : ℕ) → count a pids ≤ count a rest

Covers-drop_friend :
    (pids rest : List ℕ) (y : ℕ) → Covers pids (y ∷ rest) → Covers (drop_friend y pids) rest
unfolding count
Covers-drop_friend pids rest y h a = elim (Bool-cases (is_in y pids)) [
  | inl t ↦ omega (arith, drop_friend-count a y pids t, h a)
  | inr n ↦ rw (drop_friend-absent y pids n) (elim (Bool-cases (y == a)) [
    | inl e ↦
        let z : count a pids ≡ 0 =
          ap (λ (m : ℕ). count m pids) (sym (==-eq y a e)) ∙ count-absent y pids n in
        omega (arith, z)
    | inr e ↦ ground (arith, h a)
  ])
]

Covers-nil : (pids : List ℕ) → Covers pids [] → pids ≡ []
unfolding count
Covers-nil [] h = refl
Covers-nil (x ∷ xs) h = absurd (ground (arith, h x))

-- The sender `g` is the object `ref`, with these authorized friends.
record Ready (ref : ℕ) (g : GameSpySession) (sessions : List (ℕ × ℕ)) (pids : List ℕ) (r : Trace)
    : Type 0 where
  here : object ref r.state ≡ some (record g { auth_friend_list = pids })
  same : r.state.sessions ≡ sessions
  keyed : IsKeyed r.state

module _ (ref : ℕ) (g : GameSpySession) (sessions : List (ℕ × ℕ)) where
  -- The loop goes on at such a profile id, and its session is not the sender's.
  abbrev pub IsLeft : ℕ → Type 0
  IsLeft id = (is_in id g.friend_list ≡ false) × (find id sessions ≢ some ref)

  revoke-Ready :
      (pids : List ℕ) (r : Trace) (id : ℕ)
      → Ready ref g sessions pids r
      → Ready ref g sessions (drop_friend id pids) (change ref (revoke id) r)
  unfolding revoke
  revoke-Ready pids r id h = record {
    here = change-here ref (revoke id) r _ h.here;
    same = change-sessions ref (revoke id) r ∙ h.same;
    keyed = change-IsKeyed ref (revoke id) r (λ s. refl) h.keyed;
  }

  leave-Ready :
      (pids : List ℕ) (r : Trace) (id : ℕ)
      → find id sessions ≢ some ref
      → Ready ref g sessions pids r
      → Ready ref g sessions pids (leave id (record g { auth_friend_list = pids }) r)
  unfolding leave send_message_to_session act revoke
  leave-Ready pids r id other h = go (online id r.state) refl
    where
      go :
          (o : Option GameSpySession)
          → online id r.state ≡ o
          → Ready ref g sessions pids (leave id (record g { auth_friend_list = pids }) r)
      go none e = rw (e, leave, part_from) h
      go (some s) e =
          let (k, found, stored, _) = online-found id r.state s e in
          let ne : s.conn_index ≢ ref = λ same. other (
            sym (ap (λ (m : List (ℕ × ℕ)). find id m) h.same)
            ∙ found
            ∙ ap (λ (n : ℕ). some n) (sym (h.keyed k s (unfold object in stored)) ∙ same)) in
          rw (e, leave, part_from)
            (if_induction (Ready ref g sessions pids) (is_in g.profile_id s.auth_friend_list) _ _
              (λ _. record {
                here = change-other s.conn_index (revoke g.profile_id) r ref ne ∙ h.here;
                same = change-sessions s.conn_index (revoke g.profile_id) r ∙ h.same;
                keyed = change-IsKeyed s.conn_index (revoke g.profile_id) r (λ t. refl) h.keyed;
              })
              (λ _. h))

  loop_clears :
      (rest : List ℕ) (i : ℕ) (tail pids : List ℕ) (r : Trace)
      → Ready ref g sessions pids r
      → drop i (pids ++ tail) ≡ rest
      → Covers pids rest
      → All IsLeft rest
      → object ref (disable_loop ref i (length rest) tail r).state
        ≡ some (record g { auth_friend_list = [] })
  unfolding disable_loop
  loop_clears [] i tail pids r h e covers left = h.here ∙ rw (Covers-nil pids covers) refl
  loop_clears (y ∷ rest) i tail pids r h e covers ((stranger, other), left) =
      let (read, more) = at-drop (pids ++ tail) i y rest e in
      rw (h.here, read, stranger, disable_loop)
        (loop_clears rest (suc i) (cut_off y pids ++ tail) (drop_friend y pids) _
          (leave-Ready (drop_friend y pids) (change ref (revoke y) r) y other
            (revoke-Ready pids r y h))
          (rest_same pids tail i y read ∙ more) (Covers-drop_friend pids rest y covers) left)

-- Where no authorized friend of an open host is among the friends that it has added, or is a session of
-- its own, openHostDisabled leaves it with no authorized friend, and changes nothing else of it, though
-- its loop removes elements from the array that it ranges over.
pub open_host_disabled_clears :
    (ref : ℕ) (g : GameSpySession) (r : Trace)
    → object ref r.state ≡ some g
    → IsKeyed r.state
    → All (IsLeft ref g r.state.sessions) g.auth_friend_list
    → object ref (open_host_disabled ref r).state ≡ some (record g { auth_friend_list = [] })
unfolding open_host_disabled
open_host_disabled_clears ref g r e keyed left =
    rw (e, open_host_disabled)
      (loop_clears ref g r.state.sessions g.auth_friend_list 0 [] g.auth_friend_list r
        (record { here = e; same = refl; keyed = keyed }) (append-nil g.auth_friend_list)
        (λ a. omega arith) left)
