-- ===== src/Natneg/Connect/Steps.antt =====
-- What one round of the loops of sendConnectRequests does (natneg/connect.go), and an induction over
-- the loops.
use wfc_server_private.Natneg.{Client}
use wfc_server_private.Natneg.Connect.{
  has_result, idle, aim, try_pair, pair_with, pair_one, send_connect_requests,
}
use wfc_server_private.Prelude.{
  ℕ, ◌≡◌, refl, ◌≢◌, ◌⊎◌, inl, inr, Bool, true, false, not, ◌||◌, Option, none, some, List, [], ◌∷◌,
  arith, ◌==◌,
}
use wfc_server_private.Prelude.Maps.{find, insert}

-- the pair of a round is started
pub record Starts (id dest : ℕ) (clients : List (ℕ × Client)) : Type 0 where
  pub sender : Client
  pub destination : Client
  pub sender_there : find id clients ≡ some sender
  pub destination_there : find dest clients ≡ some destination
  pub distinct : id ≢ dest
  pub waiting : idle dest destination ≡ true
  pub no_result : has_result id destination ≡ false
  pub outcome :
      try_pair id dest clients
      ≡ (insert dest (aim id destination) (insert id (aim dest sender) clients), (id, dest) ∷ [])

-- A round changes nothing and starts nothing, or starts its pair.
pub try_pair-cases :
    (id dest : ℕ) (clients : List (ℕ × Client))
    → (try_pair id dest clients ≡ (clients, [])) ⊎ Starts id dest clients
try_pair-cases id dest clients = go (find dest clients) (find id clients) refl refl
  where
    both :
        (d s : Client) (b : Bool)
        → find dest clients ≡ some d
        → find id clients ≡ some s
        → (id == dest || not (idle dest d) || has_result id d) ≡ b
        → (try_pair id dest clients ≡ (clients, [])) ⊎ Starts id dest clients
    both d s true ed es e = inl (unfold try_pair in rw (ed, try_pair) (rw (es, e)))
    both d s false ed es e = inr (record {
      sender = s;
      destination = d;
      sender_there = es;
      destination_there = ed;
      distinct = ground arith;
      waiting = ground arith;
      no_result = ground arith;
      outcome = unfold try_pair in rw (ed, try_pair) (rw (es, e));
    })

    go :
        (d s : Option Client)
        → find dest clients ≡ d
        → find id clients ≡ s
        → (try_pair id dest clients ≡ (clients, [])) ⊎ Starts id dest clients
    go none s ed es = inl (unfold try_pair in rw (ed, try_pair))
    go (some d) none ed es = inl (unfold try_pair in rw (ed, try_pair) (rw (es, try_pair)))
    go (some d) (some s) ed es = both d s _ ed es refl

module _ {ℓ} (P : List (ℕ × Client) → Type ℓ)
    (step : (id dest : ℕ) (m : List (ℕ × Client)) → P m → P (try_pair id dest m).0) where
  pair_with_induction :
      (id : ℕ) (dests : List ℕ) (m : List (ℕ × Client)) → P m → P (pair_with id dests m).0
  unfolding pair_with
  pair_with_induction id [] m h = h
  pair_with_induction id (d ∷ ds) m h = pair_with_induction id ds _ (step id d m h)

  pair_one_induction :
      (id : ℕ) (dests : List ℕ) (m : List (ℕ × Client)) → P m → P (pair_one id dests m).0
  pair_one_induction id dests m h = go (find id m) refl
    where
      choose :
          (c : Client) (b : Bool) → find id m ≡ some c → idle id c ≡ b → P (pair_one id dests m).0
      choose c true e t =
          unfold pair_one in rw (e, pair_one) (rw t (pair_with_induction id dests m h))
      choose c false e t = unfold pair_one in rw (e, pair_one) (rw t h)

      go : (o : Option Client) → find id m ≡ o → P (pair_one id dests m).0
      go none e = unfold pair_one in rw (e, pair_one) h
      go (some c) e = choose c _ e refl

  -- What every round keeps, the whole of sendConnectRequests keeps, in any order of iteration.
  pub send_induction :
      (order : ℕ → List ℕ) (ids : List ℕ) (m : List (ℕ × Client))
      → P m
      → P (send_connect_requests order ids m).0
  unfolding send_connect_requests
  send_induction order [] m h = h
  send_induction order (id ∷ ids) m h =
      send_induction order ids _ (pair_one_induction id (order id) m h)
