-- ===== src/Natneg/Identity.antt =====
-- What init packets write of other clients (natneg/init.go).
use wfc_server_private.Natneg.{Client, Session, Effect, is_mapped}
use wfc_server_private.Natneg.Connect.{aim, try_pair}
use wfc_server_private.Natneg.Connect.Steps.{Starts, try_pair-cases, send_induction}
use wfc_server_private.Natneg.Init.{
  InitPacket, parse_init, is_refused, game_mismatch, new_client, learn, connect_all, register,
  find_or_create, handle_init,
}
use wfc_server_private.Prelude.{
  ℕ, ◌≡◌, refl, sym, ap, subst, ◌∙◌, ◌≢◌, ◌⊎◌, inl, inr, Option, none, some, List, [], arith, ◌==◌,
  Bytes, Bool-cases, if_induction,
}
use wfc_server_private.Prelude.Maps.{find, insert, find-insert, find-insert_ne}

-- Two states of one client that differ at most in its partner and its acknowledgement.
pub record SameIdentity (c d : Client) : Type 0 where
  pub cookie : d.cookie ≡ c.cookie
  pub index : d.index ≡ c.index
  pub result : d.result ≡ c.result
  pub negotiate_ip : d.negotiate_ip ≡ c.negotiate_ip
  pub local_ip : d.local_ip ≡ c.local_ip
  pub server_ip : d.server_ip ≡ c.server_ip
  pub game_name : d.game_name ≡ c.game_name

-- The client `k` of `m` is still there.
abbrev Still : ℕ → Client → List (ℕ × Client) → Type 0
Still k c m = (d : Client) × (find k m ≡ some d) × SameIdentity c d

SameIdentity-refl : (c : Client) → SameIdentity c c
SameIdentity-refl c = record {
  cookie = refl;
  index = refl;
  result = refl;
  negotiate_ip = refl;
  local_ip = refl;
  server_ip = refl;
  game_name = refl;
}

SameIdentity-trans : {c d e : Client} → SameIdentity c d → SameIdentity d e → SameIdentity c e
SameIdentity-trans h k = record {
  cookie = k.cookie ∙ h.cookie;
  index = k.index ∙ h.index;
  result = k.result ∙ h.result;
  negotiate_ip = k.negotiate_ip ∙ h.negotiate_ip;
  local_ip = k.local_ip ∙ h.local_ip;
  server_ip = k.server_ip ∙ h.server_ip;
  game_name = k.game_name ∙ h.game_name;
}

aim-SameIdentity : (target : ℕ) (c : Client) → SameIdentity c (aim target c)
unfolding aim
aim-SameIdentity target c = record {
  cookie = refl;
  index = refl;
  result = refl;
  negotiate_ip = refl;
  local_ip = refl;
  server_ip = refl;
  game_name = refl;
}

insert-Still :
    (k : ℕ) (c : Client) (m : List (ℕ × Client)) (i : ℕ) (e f : Client)
    → find i m ≡ some e
    → SameIdentity e f
    → Still k c m
    → Still k c (insert i f m)
insert-Still k c m i e f ei same (d, ed, h) = elim (Bool-cases (i == k)) [
  | inl eq ↦
      let ik : i ≡ k = ground arith in
      let de : d ≡ e = cc (ap (λ (n : ℕ). find n m) ik) in
      (
        f,
        ground (arith, find-insert i k f m),
        SameIdentity-trans h (subst (λ x. SameIdentity x f) (sym de) same),
      )
  | inr ne ↦ (d, ground (arith, find-insert i k f m), h)
]

try_pair-Still :
    (k : ℕ) (c : Client) (i j : ℕ) (m : List (ℕ × Client))
    → Still k c m
    → Still k c (try_pair i j m).0
try_pair-Still k c i j m h = go (try_pair-cases i j m)
  where
    go : (try_pair i j m ≡ (m, [])) ⊎ Starts i j m → Still k c (try_pair i j m).0
    go (inl e) = rw e h
    go (inr s) =
        let m' = insert i (aim j s.sender) m in
        let there : find j m' ≡ some s.destination =
          find-insert_ne i j (aim j s.sender) m s.distinct ∙ s.destination_there in
        rw s.outcome (
          insert-Still k c m' j s.destination (aim i s.destination) there
            (aim-SameIdentity i s.destination)
            (insert-Still k c m i s.sender (aim j s.sender) s.sender_there
              (aim-SameIdentity j s.sender) h))

module _ (order : ℕ → List ℕ) (ids : List ℕ) (session : Session) (k : ℕ) (c : Client)
    (e : find k session.clients ≡ some c) where
  abbrev StillIn : Session × List Effect → Type 0
  StillIn r = Still k c r.0.clients

  start : StillIn (session, [])
  start = (c, e, SameIdentity-refl c)

  register-Still :
      (p : InitPacket) (addr : Bytes) (sender : Client)
      → p.client_index ≢ k
      → StillIn (register order ids session p addr sender)
  unfolding register connect_all
  register-Still p addr sender ne =
      let put : Still k c (insert p.client_index (learn p addr sender) session.clients) = (
        c,
        find-insert_ne p.client_index k (learn p addr sender) session.clients ne ∙ e,
        SameIdentity-refl c,
      ) in
      if_induction StillIn (is_mapped (learn p addr sender)) _ _
        (λ _. send_induction (Still k c) (try_pair-Still k c) order ids _ put) (λ _. put)

  find_or_create-Still :
      (p : InitPacket) (addr : Bytes)
      → p.client_index ≢ k
      → StillIn (find_or_create order ids session p addr)
  find_or_create-Still p addr ne = go (find p.client_index session.clients) refl
    where
      go :
          (o : Option Client)
          → find p.client_index session.clients ≡ o
          → StillIn (find_or_create order ids session p addr)
      go none q =
          unfold find_or_create in
          rw (q, find_or_create)
            (if_induction StillIn (game_mismatch p.game_name session.clients) _ _ (λ _. start)
              (λ _. register-Still p addr (new_client session.cookie p.client_index) ne))
      go (some s) q = unfold find_or_create in rw (q, find_or_create) (register-Still p addr s ne)

  -- An init packet in the name of one client, accepted or not, leaves every other client of the
  -- session there, with its addresses, its game name and its recorded results as they were.
  pub handle_init-Still :
      (addr : Bytes) (version : ℕ) (buffer : Bytes)
      → ((p : InitPacket) → parse_init buffer ≡ some p → p.client_index ≢ k)
      → (d : Client) × (find k (handle_init order ids session addr version buffer).0.clients
          ≡ some d)
        × SameIdentity c d
  handle_init-Still addr version buffer other = go (parse_init buffer) refl
    where
      go :
          (o : Option InitPacket)
          → parse_init buffer ≡ o
          → StillIn (handle_init order ids session addr version buffer)
      go none q = unfold handle_init in rw (q, handle_init) start
      go (some p) q =
          unfold handle_init in
          rw (q, handle_init)
            (if_induction StillIn (is_refused p) _ _ (λ _. start)
              (λ _. find_or_create-Still p addr (other p q)))
