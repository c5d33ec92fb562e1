-- ===== src/Natneg/Invariant/Links.antt =====
-- What holds of a session's clients between two packets (natneg): the partner that a client connects
-- to is a client of the session.
use wfc_server_private.Natneg.{Client}
use wfc_server_private.Natneg.Connect.{aim, try_pair, send_connect_requests}
use wfc_server_private.Natneg.Connect.Steps.{Starts, try_pair-cases, send_induction}
use wfc_server_private.Prelude.{
  ℕ, ◌≡◌, refl, subst, ◌⊎◌, inl, inr, some, List, [], arith, ◌==◌, Bool-cases,
}
use wfc_server_private.Prelude.Maps.{find, insert, find-insert, insert-cases}

-- A key of the map.
abbrev pub Has : ℕ → List (ℕ × Client) → Type 0
Has k m = (c : Client) × (find k m ≡ some c)

pub record IsLinked (clients : List (ℕ × Client)) : Type 0 where
  pub index : (k : ℕ) (c : Client) → find k clients ≡ some c → c.index ≡ k
  pub partner : (k : ℕ) (c : Client) → find k clients ≡ some c → Has c.connecting_index clients

pub Has-insert :
    (k : ℕ) (c : Client) (clients : List (ℕ × Client)) (j : ℕ)
    → (k ≡ j) ⊎ Has j clients
    → Has j (insert k c clients)
Has-insert k c clients j h = elim (Bool-cases (k == j)) [
  | inl same ↦ (c, ground (arith, find-insert k j c clients))
  | inr other ↦ elim h [
    | inl e ↦ absurd (ground arith)
    | inr (d, e) ↦ (d, ground (arith, find-insert k j c clients))
  ]
]

-- Writing a client with a known partner.
pub insert-IsLinked :
    (k : ℕ) (c : Client) (clients : List (ℕ × Client))
    → IsLinked clients
    → c.index ≡ k
    → (k ≡ c.connecting_index) ⊎ Has c.connecting_index clients
    → IsLinked (insert k c clients)
insert-IsLinked k c clients h i p = record {
  index = λ j d e. elim (insert-cases k c clients j d e) [
    | inl (ek, ec) ↦ cc
    | inr (ne, old) ↦ h.index j d old
  ];
  partner = λ j d e. elim (insert-cases k c clients j d e) [
    | inl (ek, ec) ↦
        subst (λ (x : Client). Has x.connecting_index (insert k c clients)) ec
          (Has-insert k c clients c.connecting_index p)
    | inr (ne, old) ↦ Has-insert k c clients d.connecting_index (inr (h.partner j d old))
  ];
}

try_pair-IsLinked :
    (id dest : ℕ) (clients : List (ℕ × Client))
    → IsLinked clients
    → IsLinked (try_pair id dest clients).0
try_pair-IsLinked id dest clients h = go (try_pair-cases id dest clients)
  where
    go :
        (try_pair id dest clients ≡ (clients, [])) ⊎ Starts id dest clients
        → IsLinked (try_pair id dest clients).0
    go (inl e) = rw e h
    go (inr s) =
        let first =
          insert-IsLinked id (aim dest s.sender) clients h
            (unfold aim in h.index id s.sender s.sender_there)
            (unfold aim in inr (s.destination, s.destination_there)) in
        rw s.outcome (
          insert-IsLinked dest (aim id s.destination) _ first
            (unfold aim in h.index dest s.destination s.destination_there)
            (unfold aim in inr (Has-insert id (aim dest s.sender) clients id (inl refl))))

-- The pairing keeps it, in any order of iteration.
pub send-IsLinked :
    (order : ℕ → List ℕ) (ids : List ℕ) (clients : List (ℕ × Client))
    → IsLinked clients
    → IsLinked (send_connect_requests order ids clients).0
send-IsLinked = send_induction IsLinked try_pair-IsLinked

-- A session with no client.
pub IsLinked-nil : IsLinked []
unfolding find
IsLinked-nil = record { index = λ k c e. cc; partner = λ k c e. cc }
