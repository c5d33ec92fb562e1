-- ===== src/Natneg/ThreeClients.antt =====
-- sendConnectRequests with three clients that wait (natneg/connect.go).
use wfc_server_private.Natneg.{Client}
use wfc_server_private.Natneg.Connect.{
  has_result, idle, aim, try_pair, pair_with, pair_one, send_connect_requests,
}
use wfc_server_private.Natneg.Pairing.{
  start_pair, no_self_pair, pass_over, go_through, Waiting, paired, paired_first, paired_second,
}
use wfc_server_private.Prelude.{ℕ, ◌≡◌, ◌∙◌, ◌≢◌, true, false, some, List, [], ◌∷◌, arith}
use wfc_server_private.Prelude.Maps.{find, insert, find-insert, find-insert_self}

-- What the two rounds of the first client's inner loop need.
pub record ThreeWaiting (m : List (ℕ × Client)) (i j k : ℕ) (a b c : Client) : Type 0 where
  pub pair : Waiting m i j a b
  pub third : find k m ≡ some c
  pub third_idle : idle k c ≡ true
  pub first_third : i ≢ k
  pub second_third : j ≢ k
  pub third_no_result : has_result i c ≡ false

module _ (m : List (ℕ × Client)) (i j k : ℕ) (a b c : Client) (w : ThreeWaiting m i j k a b c) where
  abbrev pub after_two : List (ℕ × Client)
  after_two = paired m i j a b w.pair

  abbrev pub after_three : List (ℕ × Client)
  after_three = insert k (aim i c) (insert i (aim k (aim j a)) after_two)

  third_kept : find k after_two ≡ some c
  third_kept = ground (
    arith,
    w.third,
    w.first_third,
    w.second_third,
    find-insert j k (aim i b) (insert i (aim j a) m),
    find-insert i k (aim j a) m,
  )

  second_round : try_pair i k after_two ≡ (after_three, (i, k) ∷ [])
  second_round =
      start_pair i k (aim j a) c after_two (paired_first m i j a b w.pair) third_kept w.first_third
        w.third_idle w.third_no_result

  -- Of three waiting clients of which the second and the third have no result with the first,
  -- where the loops go over the first, the second and the third in this order, the first is paired
  -- with the second and then with the third too: both exchanges are started, and afterwards the
  -- second connects to the first, which connects to the third.
  pub third_client_steals :
      (order : ℕ → List ℕ)
      → order i ≡ i ∷ j ∷ k ∷ []
      → (send_connect_requests order (i ∷ j ∷ k ∷ []) m ≡ (after_three, (i, j) ∷ (i, k) ∷ []))
        × (find i after_three ≡ some (aim k (aim j a)))
        × (find j after_three ≡ some (aim i b))
        × (find k after_three ≡ some (aim i c))
  unfolding send_connect_requests
  third_client_steals order h =
      let first : find i after_three ≡ some (aim k (aim j a)) = ground (
        arith,
        w.first_third,
        find-insert k i (aim i c) (insert i (aim k (aim j a)) after_two),
        find-insert i i (aim k (aim j a)) after_two,
      ) in
      let second : find j after_three ≡ some (aim i b) = ground (
        arith,
        w.pair.distinct,
        w.second_third,
        paired_second m i j a b w.pair,
        find-insert k j (aim i c) (insert i (aim k (aim j a)) after_two),
        find-insert i j (aim k (aim j a)) after_two,
      ) in
      let last : find k after_three ≡ some (aim i c) =
        find-insert_self k (aim i c) (insert i (aim k (aim j a)) after_two) in
      let whole : pair_one i (order i) m ≡ (after_three, (i, j) ∷ (i, k) ∷ []) =
        go_through i (order i) a m w.pair.first w.pair.first_idle ∙ inner order h in
      let over_j : pair_one j (order j) after_three ≡ (after_three, []) =
        pass_over j (order j) (aim i b) after_three second (unfold aim in w.pair.distinct) in
      let over_k : pair_one k (order k) after_three ≡ (after_three, []) =
        pass_over k (order k) (aim i c) after_three last (unfold aim in w.first_third) in
      (rw (whole, over_j, over_k), first, second, last)
    where
      inner :
          (order : ℕ → List ℕ)
          → order i ≡ i ∷ j ∷ k ∷ []
          → pair_with i (order i) m ≡ (after_three, (i, j) ∷ (i, k) ∷ [])
      inner order h =
          unfold pair_with in
          rw h (
            rw
              (
                no_self_pair i m,
                start_pair i j a b m w.pair.first w.pair.second w.pair.distinct w.pair.second_idle
                    w.pair.no_result,
              )
              (rw second_round))
