-- ===== src/Gpcm/Invariant/Sound.antt =====
-- The sessions of gpcm/main.go in order: the objects, the map of the profiles that are logged in, and the
-- friend lists.
use mathlib.Core.Option.{some-injective}
use wfc_server_private.Gpcm.{GameSpySession, Gpcm, Trace, object, change, act}
use wfc_server_private.Gpcm.Friend.{add_to_friends, forget}
use wfc_server_private.Gpcm.Invariant.{IsSteady, IsStable, IsListed}
use wfc_server_private.Gpcm.Lists.{is_in, drop_friend, count}
use wfc_server_private.Gpcm.Lists.Once.{IsOnce, added-count, added-IsOnce, drop_friend-less}
use wfc_server_private.Gpcm.Store.{
  IsKeyed, change-sessions, change-here, change-other, change-IsKeyed,
}
use wfc_server_private.Prelude.{
  ℕ, ◌≤◌, ◌≡◌, refl, sym, ap, subst, ◌∙◌, inl, inr, Bool, true, false, some, List, [], arith, ◌==◌,
  if◌then◌else◌, ==-eq, Bool-cases, Option-cases, if_induction,
}
use wfc_server_private.Prelude.Maps.{find, insert-cases}

-- Nobody stands twice in the friend list of a session, nor the session itself, and a session that is not
-- logged in has no friends.
pub record IsFair (s : GameSpySession) : Type 0 where
  pub once : IsOnce s.friend_list
  pub no_self : count s.profile_id s.friend_list ≡ 0
  pub no_guest : s.logged_in ≡ false → s.friend_list ≡ []

-- The object has the profile id and is logged in.
abbrev IsPlayer : ℕ → GameSpySession → Type 0
IsPlayer pid s = (s.profile_id ≡ pid) × (s.logged_in ≡ true)

-- Every session object stands under the index of its connection, every profile id of the map refers to
-- an object that has it and is logged in, and the friend list of every object is fair.
pub record IsSound (state : Gpcm) : Type 0 where
  pub keyed : IsKeyed state
  pub linked :
      (pid ref : ℕ)
      → find pid state.sessions ≡ some ref
      → (s : GameSpySession) × (object ref state ≡ some s) × IsPlayer pid s
  pub fair : (ref : ℕ) (s : GameSpySession) → object ref state ≡ some s → IsFair s

-- The store that a run leaves is sound.
abbrev pub Leaves : Trace → Type 0
Leaves r = IsSound r.state

-- The object is logged in.
abbrev IsIn : ℕ → Trace → Type 0
IsIn ref r = (s : GameSpySession) × (object ref r.state ≡ some s) × (s.logged_in ≡ true)

-- The run leaves a sound store, and the object logged in.
abbrev pub LeavesIn : ℕ → Trace → Type 0
LeavesIn ref r = IsSound r.state × IsIn ref r

-- A change that keeps the place, the profile and the login of a session.
abbrev IsPlain : (GameSpySession → GameSpySession) → Type 0
IsPlain f =
    (s : GameSpySession)
    → ((f s).conn_index ≡ s.conn_index)
      × ((f s).profile_id ≡ s.profile_id)
      × ((f s).logged_in ≡ s.logged_in)

module _ (ref : ℕ) (f : GameSpySession → GameSpySession) (r : Trace) where
  -- Where an object is found after a change, and what is kept of it.
  change-found :
      (P : GameSpySession → Type 0)
      → ((s : GameSpySession) → P s → P (f s))
      → (k : ℕ) → (s : GameSpySession) × (object k r.state ≡ some s) × P s
      → (s : GameSpySession) × (object k (change ref f r).state ≡ some s) × P s
  change-found P step k (s, e, p) = elim (Bool-cases (ref == k)) [
    | inr ne ↦ (s, change-other ref f r k (λ x. ground arith) ∙ e, p)
    | inl eq ↦ (
      f s,
      subst (λ (n : ℕ). object k (change n f r).state ≡ some (f s)) (sym (==-eq ref k eq))
          (change-here k f r s e),
      step s p,
    )
  ]

  change-IsFair :
      ((s : GameSpySession) → object ref r.state ≡ some s → IsFair s → IsFair (f s))
      → ((k : ℕ) (s : GameSpySession) → object k r.state ≡ some s → IsFair s)
      → (k : ℕ) (s : GameSpySession) → object k (change ref f r).state ≡ some s
      → IsFair s
  unfolding change object
  change-IsFair step h = elim (Option-cases (find ref r.state.objects)) [
    | inl e ↦ rw (e, change) h
    | inr (s, e) ↦
        rw (e, change)
          (λ k t found. elim (insert-cases ref (f s) r.state.objects k t found) [
            | inl (ek, es) ↦ subst IsFair es (step s e (h ref s e))
            | inr (ne, old) ↦ h k t old
          ])
  ]

  -- A change that keeps the place, the profile and the login, and of its object the friend list in
  -- order, keeps the store sound.
  change-IsSound :
      IsPlain f
      → ((s : GameSpySession) → object ref r.state ≡ some s → IsFair s → IsFair (f s))
      → IsSound r.state
      → IsSound (change ref f r).state
  change-IsSound plain_f step h = record {
    keyed = change-IsKeyed ref f r (λ s. (plain_f s).0) h.keyed;
    linked = λ pid k found.
        change-found (IsPlayer pid) (λ s p. ((plain_f s).1 ∙ p.0, (plain_f s).2 ∙ p.1)) k
          (h.linked pid k
            (ap (λ (m : List (ℕ × ℕ)). find pid m) (sym (change-sessions ref f r)) ∙ found));
    fair = change-IsFair step h.fair;
  }

  change-IsIn : IsPlain f → (k : ℕ) → IsIn k r → IsIn k (change ref f r)
  change-IsIn plain_f k h = change-found (λ s. s.logged_in ≡ true) (λ s p. (plain_f s).2 ∙ p) k h

steady-IsPlain : (f : GameSpySession → GameSpySession) → IsSteady f → IsPlain f
steady-IsPlain f steady s = ((steady s).0, (steady s).1, (steady s).2)

steady-IsFair :
    (f : GameSpySession → GameSpySession)
    → IsSteady f
    → (s : GameSpySession) → IsFair s
    → IsFair (f s)
steady-IsFair f steady s h =
    let (c, p, l, list) = steady s in
    record {
      once = λ a. subst (λ (xs : List ℕ). count a xs ≤ 1) (sym list) (h.once a);
      no_self = rw (p, list) h.no_self;
      no_guest = λ e. list ∙ h.no_guest (sym l ∙ e);
    }

pub Leaves-IsStable : IsStable Leaves
unfolding act
Leaves-IsStable = record {
  acts = λ a r h. h;
  changes = λ ref f r steady h.
      change-IsSound ref f r (steady-IsPlain f steady) (λ s _ fair. steady-IsFair f steady s fair)
        h;
}

pub LeavesIn-IsStable : (ref : ℕ) → IsStable (LeavesIn ref)
unfolding act
LeavesIn-IsStable ref = record {
  acts = λ a r h. h;
  changes = λ k f r steady h. (
    Leaves-IsStable.changes k f r steady h.0,
    change-IsIn k f r (steady-IsPlain f steady) ref h.1,
  );
}

add_to_friends-IsPlain : (pid : ℕ) → IsPlain (add_to_friends pid)
unfolding add_to_friends
add_to_friends-IsPlain pid s =
    if_induction
      (λ (t : GameSpySession).
        (t.conn_index ≡ s.conn_index) × (t.profile_id ≡ s.profile_id) × (t.logged_in ≡ s.logged_in))
      (is_in pid s.friend_list) _ _ (λ _. (refl, refl, refl)) (λ _. (refl, refl, refl))

add_to_friends-IsFair :
    (pid : ℕ) (s : GameSpySession)
    → s.logged_in ≡ true
    → (pid == s.profile_id) ≡ false
    → IsFair s
    → IsFair (add_to_friends pid s)
unfolding add_to_friends
add_to_friends-IsFair pid s logged other h =
    if_induction IsFair (is_in pid s.friend_list) _ _ (λ _. h)
      (λ out. record {
        once = added-IsOnce pid s.friend_list out h.once;
        no_self = omega (
          arith,
          h.no_self,
          added-count s.profile_id pid s.friend_list,
          ap {B = ℕ} (λ (b : Bool). if b then 1 else 0) other,
        );
        no_guest = λ e. absurd (ground arith);
      })

drop_friend-nil : (y : ℕ) → drop_friend y [] ≡ []
unfolding drop_friend
drop_friend-nil y = refl

forget-IsFair : (pid : ℕ) (s : GameSpySession) → IsFair s → IsFair (forget pid s)
unfolding forget
forget-IsFair pid s h = record {
  once = λ a. omega (arith, h.once a, drop_friend-less a pid s.friend_list);
  no_self = omega (arith, h.no_self, drop_friend-less s.profile_id pid s.friend_list);
  no_guest = λ e. ap (drop_friend pid) (h.no_guest e) ∙ drop_friend-nil pid;
}

forget-IsPlain : (pid : ℕ) → IsPlain (forget pid)
unfolding forget
forget-IsPlain pid s = (refl, refl, refl)

-- The object that is found is the one that is logged in.
logged_of :
    (ref : ℕ) (r : Trace)
    → IsIn ref r
    → (s : GameSpySession) → object ref r.state ≡ some s
    → s.logged_in ≡ true
logged_of ref r (t, e, logged) s found =
    ap (λ (x : GameSpySession). x.logged_in) (some-injective s t (sym found ∙ e)) ∙ logged

profile_of :
    (ref pid : ℕ) (r : Trace) (g s : GameSpySession)
    → object ref r.state ≡ some g
    → object ref r.state ≡ some s
    → (pid == g.profile_id) ≡ false
    → (pid == s.profile_id) ≡ false
profile_of ref pid r g s stored found other =
    ap (λ (x : GameSpySession). pid == x.profile_id) (some-injective s g (sym found ∙ stored))
    ∙ other

pub LeavesIn-IsListed : (ref : ℕ) → IsListed ref (LeavesIn ref)
LeavesIn-IsListed ref = record {
  adds = λ pid g r stored other h. (
    change-IsSound ref (add_to_friends pid) r (add_to_friends-IsPlain pid)
        (λ s e fair.
          add_to_friends-IsFair pid s (logged_of ref r h.1 s e)
            (profile_of ref pid r g s stored e other) fair)
        h.0,
    change-IsIn ref (add_to_friends pid) r (add_to_friends-IsPlain pid) ref h.1,
  );
  forgets = λ pid r h. (
    change-IsSound ref (forget pid) r (forget-IsPlain pid) (λ s _ fair. forget-IsFair pid s fair)
        h.0,
    change-IsIn ref (forget pid) r (forget-IsPlain pid) ref h.1,
  );
}
