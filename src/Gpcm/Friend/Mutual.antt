-- ===== src/Gpcm/Friend/Mutual.antt =====
-- What addFriend of gpcm/friend.go does to the authorized friends of both sides.
use wfc_server_private.GameSpy.{GameSpyCommand}
use wfc_server_private.Gpcm.{GameSpySession, Trace, object, online, change, act, parse_uint32}
use wfc_server_private.Gpcm.Friend.{
  add_to_friends, authorize, greet, make_mutual, meet, add_profile, add_friend,
}
use wfc_server_private.Gpcm.Lists.{is_in, drop_friend, count}
use wfc_server_private.Gpcm.Lists.Removal.{counted_twice, twice_in}
use wfc_server_private.Gpcm.Send.{
  send_message_to_session, send_message_to_session_buffer, bm1_auth_message,
  is_bm1_auth_message_needed, record_status_sent, is_exploited, send_status, send_friend_status,
}
use wfc_server_private.Gpcm.Store.{change-sessions, change-here, change-other, online_of}
use wfc_server_private.Prelude.{
  ℕ, ◌≤◌, ◌≡◌, refl, sym, ap, subst, ◌∙◌, ◌≢◌, inl, inr, Bool, true, false, not, ◌&&◌, Option, none,
  some, List, [], ◌∷◌, ◌++◌, arith, ltb, ◌==◌, if◌then◌else◌, Bytes, str, str_eq, ==-eq, Bool-cases,
  if_induction, if_no, length,
}
use wfc_server_private.Prelude.Dict.{text_at}
use wfc_server_private.Prelude.Maps.{find}
use wfc_server_private.Prelude.Outcome.{ok}

-- The authorized friends of the object `k`.
abbrev pub Authorizes : ℕ → List ℕ → Trace → Type 0
Authorizes k pids r =
    (s : GameSpySession) × (object k r.state ≡ some s) × (s.auth_friend_list ≡ pids)

module _ (k : ℕ) (pids : List ℕ) where
  -- A change of other fields keeps them.
  change-Authorizes :
      (ref : ℕ) (f : GameSpySession → GameSpySession) (r : Trace)
      → ((s : GameSpySession) → (f s).auth_friend_list ≡ s.auth_friend_list)
      → Authorizes k pids r
      → Authorizes k pids (change ref f r)
  change-Authorizes ref f r same (s, e, h) = elim (Bool-cases (ref == k)) [
    | inr ne ↦ (s, change-other ref f r k (λ x. ground arith) ∙ e, h)
    | inl eq ↦
        let at_k : ref ≡ k = ==-eq ref k eq in
        (
          f s,
          subst (λ (n : ℕ). object k (change n f r).state ≡ some (f s)) (sym at_k)
              (change-here k f r s e),
          same s ∙ h,
        )
  ]

  record_status_sent-auth :
      (pid : ℕ) (s : GameSpySession)
      → (record_status_sent pid s).auth_friend_list ≡ s.auth_friend_list
  unfolding record_status_sent
  record_status_sent-auth pid s =
      if_induction (λ (t : GameSpySession). t.auth_friend_list ≡ s.auth_friend_list)
        (is_in pid s.recv_status_from_list) _ _ (λ _. refl) (λ _. refl)

  send_status-Authorizes :
      (from to : GameSpySession) (r : Trace)
      → Authorizes k pids r
      → Authorizes k pids (send_status from to r)
  unfolding send_status send_message_to_session act
  send_status-Authorizes from to r h =
      if_induction (Authorizes k pids) (is_exploited to from.loc_string) _ _ (λ _. h)
        (λ _.
          change-Authorizes to.conn_index (record_status_sent from.profile_id) r
            (record_status_sent-auth from.profile_id) h)

  send_friend_status-Authorizes :
      (ref pid : ℕ) (r : Trace)
      → Authorizes k pids r
      → Authorizes k pids (send_friend_status ref pid r)
  unfolding send_friend_status
  send_friend_status-Authorizes ref pid r h = go (object ref r.state) refl
    where
      met :
          (g : GameSpySession) (o : Option GameSpySession)
          → online pid r.state ≡ o
          → Authorizes k pids (elim (online pid r.state) [
            | none ↦ r
            | some session ↦
                if is_in g.profile_id session.friend_list then send_status g session r else r
          ])
      met g none e = rw e h
      met g (some s) e = rw e (
          if_induction (Authorizes k pids) (is_in g.profile_id s.friend_list) _ _
            (λ _. send_status-Authorizes g s r h) (λ _. h))

      go :
          (o : Option GameSpySession)
          → object ref r.state ≡ o
          → Authorizes k pids (send_friend_status ref pid r)
      go none e = rw (e, send_friend_status) h
      go (some g) e =
          rw (e, send_friend_status)
            (if_induction (Authorizes k pids) (not (is_in pid g.auth_friend_list)) _ _ (λ _. h)
              (λ _. met g (online pid r.state) refl))

  buffer-Authorizes :
      (msg_type : Bytes) (from ref : ℕ) (msg : Bytes) (r : Trace)
      → Authorizes k pids r
      → Authorizes k pids (send_message_to_session_buffer msg_type from ref msg r)
  unfolding send_message_to_session_buffer
  buffer-Authorizes msg_type from ref msg r h = change-Authorizes ref _ r (λ s. refl) h

  greet-Authorizes :
      (ref : ℕ) (g newcomer : GameSpySession) (r : Trace)
      → Authorizes k pids r
      → Authorizes k pids (greet ref g newcomer r)
  unfolding greet send_message_to_session act
  greet-Authorizes ref g newcomer r h =
      send_friend_status-Authorizes ref newcomer.profile_id _ (
        if_induction (Authorizes k pids) (is_bm1_auth_message_needed newcomer) _ _ (λ _. h)
          (λ _. h))

  -- The messages that follow keep them.
  make_mutual-Authorizes :
      (ref new_profile_id : ℕ) (g newcomer : GameSpySession) (r : Trace)
      → Authorizes k pids (
          change newcomer.conn_index
            (authorize g.profile_id)
            (change ref (authorize new_profile_id) r))
      → Authorizes k pids (make_mutual ref new_profile_id g newcomer false r)
  unfolding make_mutual
  make_mutual-Authorizes ref new_profile_id g newcomer r h =
      let told = buffer-Authorizes (str "4") newcomer.profile_id ref [] _ h in
      send_friend_status-Authorizes newcomer.conn_index g.profile_id _ (
        if_induction (Authorizes k pids)
          (is_in g.profile_id newcomer.friend_list && not g.open_host) _ _
          (λ _. greet-Authorizes ref g newcomer _ (twice _ told)) (λ _. twice _ told))
    where
      twice :
          (r : Trace)
          → Authorizes k pids r
          → Authorizes k pids (
              if is_bm1_auth_message_needed g
              then send_message_to_session_buffer
                  (str "1")
                  newcomer.profile_id
                  ref
                  bm1_auth_message
                  r
              else r)
      twice r t =
          if_induction (Authorizes k pids) (is_bm1_auth_message_needed g) _ _
            (λ _. buffer-Authorizes (str "1") newcomer.profile_id ref bm1_auth_message r t) (λ _. t)

-- The friend is another session in the same game, it has added the sender, and the two are not yet
-- friends for the sender.
pub record Meets (ref k pid : ℕ) (g friend : GameSpySession) (r : Trace) : Type 0 where
  pub sender : object ref r.state ≡ some g
  pub found : find pid r.state.sessions ≡ some k
  pub stored : object k r.state ≡ some friend
  pub keyed : friend.conn_index ≡ k
  pub logged_in : friend.logged_in ≡ true
  pub other : ref ≢ k
  pub not_host : g.open_host ≡ false
  pub same_game : str_eq friend.game_name g.game_name ≡ true
  pub added : is_in g.profile_id friend.friend_list ≡ true
  pub new : is_in pid g.auth_friend_list ≡ false

module _ (ref k pid : ℕ) (g friend : GameSpySession) (r : Trace)
    (m : Meets ref k pid g friend r) where
  abbrev added_first : Trace
  added_first = change ref (add_to_friends pid) r

  still_online : online pid added_first.state ≡ some friend
  still_online =
      online_of pid k (change ref (add_to_friends pid) r).state friend
        (ap (λ (s : List (ℕ × ℕ)). find pid s) (change-sessions ref (add_to_friends pid) r)
          ∙ m.found)
        (change-other ref (add_to_friends pid) r k m.other ∙ m.stored) m.logged_in

  met : meet ref pid g false added_first ≡ make_mutual ref pid g friend false added_first
  met =
      unfold meet in
      rw (still_online, meet)
        (if_no (not (str_eq friend.game_name g.game_name)) _ _ (ground (arith, m.same_game))
          ∙ if_no (not friend.open_host && not (is_in g.profile_id friend.friend_list)) _ _
              (ground (arith, m.added)))

  reaches : add_profile ref pid g r ≡ make_mutual ref pid g friend false added_first
  unfolding add_profile
  reaches =
      if_no (not g.open_host && is_in pid g.auth_friend_list) r
        (meet ref pid g (is_in pid g.auth_friend_list) added_first) (ground (arith, m.new))
      ∙ ap (λ (b : Bool). meet ref pid g b added_first) m.new
      ∙ met

  add_to_friends-auth :
      (s : GameSpySession) → (add_to_friends pid s).auth_friend_list ≡ s.auth_friend_list
  unfolding add_to_friends
  add_to_friends-auth s =
      if_induction (λ (t : GameSpySession). t.auth_friend_list ≡ s.auth_friend_list)
        (is_in pid s.friend_list) _ _ (λ _. refl) (λ _. refl)

  abbrev after_sender : Trace
  after_sender = change ref (authorize pid) added_first

  sender_there :
      (s : GameSpySession) × (object ref after_sender.state ≡ some s)
      × (s.auth_friend_list ≡ g.auth_friend_list ++ (pid ∷ []))
  unfolding authorize
  sender_there = (
    authorize pid (add_to_friends pid g),
    change-here ref (authorize pid) added_first (add_to_friends pid g)
        (change-here ref (add_to_friends pid) r g m.sender),
    ap (λ (l : List ℕ). l ++ (pid ∷ [])) (add_to_friends-auth g),
  )

  friend_there : object k after_sender.state ≡ some friend
  friend_there =
      change-other ref (authorize pid) (change ref (add_to_friends pid) r) k m.other
      ∙ change-other ref (add_to_friends pid) r k m.other
      ∙ m.stored

  pub mutual_profile :
      Authorizes ref (g.auth_friend_list ++ (pid ∷ [])) (add_profile ref pid g r)
      × Authorizes k (friend.auth_friend_list ++ (g.profile_id ∷ [])) (add_profile ref pid g r)
  unfolding authorize
  mutual_profile =
      let (s, there_now, list) = sender_there in
      rw (reaches) (
        make_mutual-Authorizes ref _ ref pid g friend added_first (
          s,
          change-other friend.conn_index (authorize g.profile_id) after_sender ref
                (λ e. m.other (sym e ∙ m.keyed))
              ∙ there_now,
          list,
        ),
        make_mutual-Authorizes k _ ref pid g friend added_first (
          authorize g.profile_id friend,
          subst
              (λ (n : ℕ).
                object k (change n (authorize g.profile_id) after_sender).state
                ≡ some (authorize g.profile_id friend))
              (sym m.keyed)
              (change-here k (authorize g.profile_id) after_sender friend friend_there),
          refl,
        ),
      )

  module _ (command : GameSpyCommand)
      (parsed : parse_uint32 (text_at (str "newprofileid") command.other_values) ≡ some pid)
      (stranger : (pid == g.profile_id) ≡ false) (coded : 4 ≤ length g.gsbr_code) where
    add_friend_reaches : add_friend ref command r ≡ ok (add_profile ref pid g r)
    unfolding add_friend
    add_friend_reaches =
        unfold add_friend in
        rw (m.sender, add_friend)
          (rw (parsed, add_friend)
            (if_no (pid == g.profile_id) _ _ stranger
              ∙ if_no (ltb (length g.gsbr_code) 4) _ _ (ground arith)))

    -- A player that is no open host, has a game code of four characters or more and does not yet
    -- authorize the other player, adds another player, who is online in the same game and has
    -- added it: addFriend succeeds, and each of the two becomes the last of the other's authorized
    -- friends.
    pub add_friend_mutual :
        (after : Trace) × (add_friend ref command r ≡ ok after)
        × Authorizes ref (g.auth_friend_list ++ (pid ∷ [])) after
        × Authorizes k (friend.auth_friend_list ++ (g.profile_id ∷ [])) after
    add_friend_mutual =
        (add_profile ref pid g r, add_friend_reaches, mutual_profile.0, mutual_profile.1)

    -- A player that is no open host, has a game code of four characters or more and does not
    -- authorize the other player, adds another player, who is online in the same game, has added
    -- it, and has it among its authorized friends already: addFriend succeeds, and the other
    -- player has it among them at least twice, so that one removal of it from that list leaves it
    -- authorized.
    pub add_friend_twice :
        is_in g.profile_id friend.auth_friend_list ≡ true
        → (after : Trace) × (pids : List ℕ) × (add_friend ref command r ≡ ok after)
          × Authorizes k pids after
          × (2 ≤ count g.profile_id pids)
          × (is_in g.profile_id (drop_friend g.profile_id pids) ≡ true)
    add_friend_twice old = (
      add_profile ref pid g r,
      friend.auth_friend_list ++ (g.profile_id ∷ []),
      add_friend_reaches,
      mutual_profile.1,
      counted_twice g.profile_id friend.auth_friend_list old,
      twice_in g.profile_id friend.auth_friend_list old,
    )
