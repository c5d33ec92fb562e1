-- ===== src/Natneg/Pairing.antt =====
-- Who is paired with whom by sendConnectRequests (natneg/connect.go).
use wfc_server_private.Natneg.{Client, is_mapped}
use wfc_server_private.Natneg.Connect.{
  has_result, idle, aim, try_pair, pair_with, pair_one, send_connect_requests,
}
use wfc_server_private.Natneg.Connect.Steps.{try_pair-cases}
use wfc_server_private.Prelude.{
  ℕ, ◌≡◌, refl, ◌∙◌, ◌≢◌, ◌⊎◌, inl, inr, true, false, not, ◌&&◌, ◌||◌, some, List, [], ◌∷◌, arith,
  ◌==◌,
}
use wfc_server_private.Prelude.Maps.{find, insert, find-insert, find-insert_self}

-- A round starts its pair when both clients are there and the destination waits.
pub start_pair :
    (i j : ℕ) (a b : Client) (m : List (ℕ × Client))
    → find i m ≡ some a
    → find j m ≡ some b
    → i ≢ j
    → idle j b ≡ true
    → has_result i b ≡ false
    → try_pair i j m ≡ (insert j (aim i b) (insert i (aim j a) m), (i, j) ∷ [])
unfolding try_pair
start_pair i j a b m ea eb ne w nr =
    let go : (i == j || not (idle j b) || has_result i b) ≡ false = ground arith in
    rw (eb, try_pair) (rw (ea, go))

-- No client is paired with itself.
pub no_self_pair : (i : ℕ) (m : List (ℕ × Client)) → try_pair i i m ≡ (m, [])
no_self_pair i m = elim (try_pair-cases i i m) [ inl e ↦ e | inr s ↦ absurd (s.distinct refl) ]

-- A client that is connecting to another is passed over by the outer loop.
pub pass_over :
    (i : ℕ) (dests : List ℕ) (a : Client) (m : List (ℕ × Client))
    → find i m ≡ some a
    → a.connecting_index ≢ i
    → pair_one i dests m ≡ (m, [])
unfolding pair_one idle
pass_over i dests a m e ne =
    let stop : (is_mapped a && a.connecting_index == i) ≡ false = ground arith in
    rw (e, pair_one) (rw stop)

-- A client that waits goes through the inner loop.
pub go_through :
    (i : ℕ) (dests : List ℕ) (a : Client) (m : List (ℕ × Client))
    → find i m ≡ some a
    → idle i a ≡ true
    → pair_one i dests m ≡ pair_with i dests m
unfolding pair_one
go_through i dests a m e w = rw (e, pair_one) (rw w)

-- Two clients that wait, of which neither has a result with the other.
pub record Waiting (m : List (ℕ × Client)) (i j : ℕ) (a b : Client) : Type 0 where
  pub first : find i m ≡ some a
  pub second : find j m ≡ some b
  pub distinct : i ≢ j
  pub first_idle : idle i a ≡ true
  pub second_idle : idle j b ≡ true
  pub no_result : has_result i b ≡ false

module _ (m : List (ℕ × Client)) (i j : ℕ) (a b : Client) (w : Waiting m i j a b) where
  abbrev pub paired : List (ℕ × Client)
  paired = insert j (aim i b) (insert i (aim j a) m)

  pub paired_first : find i paired ≡ some (aim j a)
  paired_first = ground (
    arith,
    w.distinct,
    find-insert j i (aim i b) (insert i (aim j a) m),
    find-insert i i (aim j a) m,
  )

  pub paired_second : find j paired ≡ some (aim i b)
  paired_second = find-insert_self j (aim i b) (insert i (aim j a) m)

  -- the inner loop of the first client, over the two of them in either order
  inner_loop :
      (dests : List ℕ)
      → (dests ≡ i ∷ j ∷ []) ⊎ (dests ≡ j ∷ i ∷ [])
      → pair_with i dests m ≡ (paired, (i, j) ∷ [])
  unfolding pair_with
  inner_loop dests (inl e) = rw e (
      rw (
        no_self_pair i m,
        start_pair i j a b m w.first w.second w.distinct w.second_idle w.no_result,
      ))
  inner_loop dests (inr e) = rw e (
      rw (
        start_pair i j a b m w.first w.second w.distinct w.second_idle w.no_result,
        no_self_pair i paired,
      ))

  -- Where the loops go over two waiting clients of which the second has no result with the first,
  -- the outer loop over the first before the second and the inner loops in either order, exactly
  -- one exchange is started, and afterwards each of the two connects to the other.
  pub two_clients_paired :
      (order : ℕ → List ℕ)
      → (order i ≡ i ∷ j ∷ []) ⊎ (order i ≡ j ∷ i ∷ [])
      → (send_connect_requests order (i ∷ j ∷ []) m ≡ (paired, (i, j) ∷ []))
        × (find i paired ≡ some (aim j a))
        × (find j paired ≡ some (aim i b))
  unfolding send_connect_requests
  two_clients_paired order h =
      let whole : pair_one i (order i) m ≡ (paired, (i, j) ∷ []) =
        go_through i (order i) a m w.first w.first_idle ∙ inner_loop (order i) h in
      let over : pair_one j (order j) paired ≡ (paired, []) =
        pass_over j (order j) (aim i b) paired paired_second (unfold aim in w.distinct) in
      (rw (whole, over), paired_first, paired_second)
