-- ===== src/Gpcm/Store.antt =====
-- Reads and writes of the sessions of gpcm.
use mathlib.Core.Option.{some-injective, none-ne-some}
use wfc_server_private.Gpcm.{GameSpySession, Gpcm, Trace, object, session_of, online, change}
use wfc_server_private.Prelude.{
  ℕ, ◌≡◌, refl, sym, ap, subst, ◌∙◌, ◌≢◌, inl, inr, true, none, some, List, arith, ◌==◌, ==-eq,
  Bool-cases, Option-cases,
}
use wfc_server_private.Prelude.Maps.{
  find, insert, insert-cases, find-insert_self, find-insert_ne, insert-insert,
}

-- Every object stands under the index of its connection.
abbrev pub IsKeyed : Gpcm → Type 0
IsKeyed state = (k : ℕ) (s : GameSpySession) → find k state.objects ≡ some s → s.conn_index ≡ k

module _ (ref : ℕ) (f : GameSpySession → GameSpySession) (r : Trace) where
  pub change-sessions : (change ref f r).state.sessions ≡ r.state.sessions
  unfolding change
  change-sessions = elim (Option-cases (object ref r.state)) [
    | inl e ↦ rw (e, change) refl
    | inr (s, e) ↦ rw (e, change) refl
  ]

  pub change-actions : (change ref f r).actions ≡ r.actions
  unfolding change
  change-actions = elim (Option-cases (object ref r.state)) [
    | inl e ↦ rw (e, change) refl
    | inr (s, e) ↦ rw (e, change) refl
  ]

  change-none : object ref r.state ≡ none → change ref f r ≡ r
  unfolding change
  change-none e = rw (e, change) refl

  pub change-here :
      (s : GameSpySession)
      → object ref r.state ≡ some s
      → object ref (change ref f r).state ≡ some (f s)
  unfolding change object
  change-here s e = rw (e, change) (find-insert_self ref (f s) r.state.objects)

  pub change-other : (k : ℕ) → ref ≢ k → object k (change ref f r).state ≡ object k r.state
  unfolding change object
  change-other k ne = elim (Option-cases (find ref r.state.objects)) [
    | inl e ↦ rw (e, change) refl
    | inr (s, e) ↦ rw (e, change) (find-insert_ne ref k (f s) r.state.objects ne)
  ]

  pub change-IsKeyed :
      ((s : GameSpySession) → (f s).conn_index ≡ s.conn_index)
      → IsKeyed r.state
      → IsKeyed (change ref f r).state
  unfolding change object
  change-IsKeyed same h = elim (Option-cases (find ref r.state.objects)) [
    | inl e ↦ rw (e, change) h
    | inr (s, e) ↦
        rw (e, change)
          (λ k t found. elim (insert-cases ref (f s) r.state.objects k t found) [
            | inl (ek, es) ↦
                ap (λ (x : GameSpySession). x.conn_index) (sym es) ∙ same s ∙ h ref s e ∙ ek
            | inr (ne, old) ↦ h k t old
          ])
  ]

abbrev put : ℕ → GameSpySession → Trace → Trace
put ref s r = record r { state = record r.state { objects = insert ref s r.state.objects } }

change-some :
    (ref : ℕ) (f : GameSpySession → GameSpySession) (r : Trace) (s : GameSpySession)
    → object ref r.state ≡ some s
    → change ref f r ≡ put ref (f s) r
unfolding change
change-some ref f r s e = rw (e, change) refl

-- Two changes of an object are one.
pub change-change :
    (ref : ℕ) (f g : GameSpySession → GameSpySession) (r : Trace)
    → change ref f (change ref g r) ≡ change ref (λ s. f (g s)) r
change-change ref f g r = elim (Option-cases (object ref r.state)) [
  | inl e ↦
      rw (change-none ref g r e, change-none ref f r e, change-none ref (λ s. f (g s)) r e) refl
  | inr (s, e) ↦
      change-some ref f (change ref g r) (g s) (change-here ref g r s e)
      ∙ ap (put ref (f (g s))) (change-some ref g r s e)
      ∙ ap (λ (m : List (ℕ × GameSpySession)). record r { state = record r.state { objects = m } })
          (insert-insert ref (f (g s)) (g s) r.state.objects)
      ∙ sym (change-some ref (λ t. f (g t)) r s e)
]

-- A session that is online is an object of the map.
pub online-found :
    (pid : ℕ) (state : Gpcm) (s : GameSpySession)
    → online pid state ≡ some s
    → (ref : ℕ) × (find pid state.sessions ≡ some ref)
      × (object ref state ≡ some s)
      × (s.logged_in ≡ true)
unfolding online session_of
online-found pid state s e = elim (Option-cases (find pid state.sessions)) [
  | inl q ↦ absurd (ground arith)
  | inr (ref, q) ↦ elim (Option-cases (object ref state)) [
    | inl p ↦ absurd (ground arith)
    | inr (t, p) ↦ (ref, q, ground arith, ground arith)
  ]
]

pub online_of :
    (pid ref : ℕ) (state : Gpcm) (s : GameSpySession)
    → find pid state.sessions ≡ some ref
    → object ref state ≡ some s
    → s.logged_in ≡ true
    → online pid state ≡ some s
unfolding online session_of
online_of pid ref state s found stored logged =
    rw (found, online) (rw (stored, online) (rw (logged, online) refl))

-- the QR2 address of a session
abbrev pub set_qr2 : ℕ → GameSpySession → GameSpySession
set_qr2 n s = record s { qr2_ip = n }

-- Who is online does not depend on the QR2 address of a session.
pub online-change :
    (to ref n : ℕ) (r : Trace) (s : GameSpySession)
    → online to (change ref (set_qr2 n) r).state ≡ some s
    → (t : GameSpySession) × (online to r.state ≡ some t) × (s ≡ set_qr2 s.qr2_ip t)
online-change to ref n r s e =
    let (k, found, stored, logged) = online-found to (change ref (set_qr2 n) r).state s e in
    let here : find to r.state.sessions ≡ some k =
      ap (λ (m : List (ℕ × ℕ)). find to m) (sym (change-sessions ref (set_qr2 n) r)) ∙ found in
    elim (Bool-cases (ref == k)) [
      | inr ne ↦ (
        s,
        online_of to k r.state s here
            (sym (change-other ref (set_qr2 n) r k (λ x. ground arith)) ∙ stored) logged,
        refl,
      )
      | inl eq ↦ elim (Option-cases (object k r.state)) [
        | inl q ↦
            let same : object k (change k (set_qr2 n) r).state ≡ object k r.state =
              ap (λ (t : Trace). object k t.state) (change-none k (set_qr2 n) r q) in
            let stored_here : object k (change k (set_qr2 n) r).state ≡ some s =
              subst (λ (m : ℕ). object k (change m (set_qr2 n) r).state ≡ some s) (==-eq ref k eq)
                stored in
            absurd (none-ne-some s (sym q ∙ sym same ∙ stored_here))
        | inr (t, q) ↦
            let stored_here : object k (change k (set_qr2 n) r).state ≡ some s =
              subst (λ (m : ℕ). object k (change m (set_qr2 n) r).state ≡ some s) (==-eq ref k eq)
                stored in
            let same : s ≡ set_qr2 n t =
              some-injective s (set_qr2 n t) (sym stored_here ∙ change-here k (set_qr2 n) r t q) in
            (
              t,
              online_of to k r.state t here q
                  (sym (ap (λ (x : GameSpySession). x.logged_in) same) ∙ logged),
              same ∙ ap (λ (m : ℕ). set_qr2 m t) (sym (ap (λ (x : GameSpySession). x.qr2_ip) same)),
            )
      ]
    ]
