-- ===== src/Filter/Search/Lookup.antt =====
-- Which servers filterSelfLookup of serverbrowser/filter.go returns.
use wfc_server_private.Filter.Eval.Rk.{value_at}
use wfc_server_private.Filter.Search.{
  Context, is, is_nearby, as_self, lookup_loop, filter_self_lookup,
}
use wfc_server_private.Prelude.{
  ◌≡◌, refl, sym, ◌∙◌, Bool, true, false, not, ◌&&◌, Option, none, some, List, [], ◌∷◌, ◌++◌,
  append-nil, append_assoc, if◌then◌else◌, Bytes, str, str_eq,
}

-- The server gives `v` under the key; where it has no such key, that counts as the empty text.
unfoldable pub gives : Context → Bytes → Bytes → Bool
gives server key v = elim (server key) [ none ↦ str_eq [] v | some x ↦ str_eq x v ]

-- the server of the game with the profile id that is asked for
unfoldable pub is_asked : Bytes → Bytes → Context → Bool
unfolding gives
is_asked query_game dwc_pid server =
    gives server (str "gamename") query_game && gives server (str "dwc_pid") dwc_pid

unfoldable pub first_match : (Context → Bool) → List Context → Option Context
first_match p [] = none
first_match p (server ∷ servers) = if p server then some server else first_match p servers

unfoldable pub has_no_profile : Context → Bool
has_no_profile server = elim (server (str "dwc_pid")) [ none ↦ true | some _ ↦ false ]

-- a server of the game at the address of the request, with no profile of its own
unfoldable pub is_stand_in : Bytes → Bytes → Context → Bool
unfolding gives has_no_profile
is_stand_in query_game public_ip server =
    gives server (str "gamename") query_game
    && (has_no_profile server && gives server (str "publicip") public_ip)

-- the server with the profile id, and with 0 for its matching version and type
unfoldable pub under_profile : Bytes → Context → Context
under_profile dwc_pid server key =
    if str_eq (str "dwc_mver") key
    then some (str "0")
    else if str_eq (str "dwc_mtype") key
    then some (str "0")
    else if str_eq (str "dwc_pid") key
    then some dwc_pid
    else server key

unfoldable pub stand_ins : Bytes → Bytes → Bytes → List Context → List Context
stand_ins query_game dwc_pid public_ip [] = []
stand_ins query_game dwc_pid public_ip (server ∷ servers) =
    if is_stand_in query_game public_ip server
    then under_profile dwc_pid server ∷ stand_ins query_game dwc_pid public_ip servers
    else stand_ins query_game dwc_pid public_ip servers

-- what a lookup is to find, where `filtered` is found already
abbrev looked_up : Bytes → Bytes → Bytes → List Context → List Context → List Context
looked_up q pid ip filtered servers = elim (first_match (is_asked q pid) servers) [
  | some server ↦ server ∷ []
  | none ↦ filtered ++ stand_ins q pid ip servers
]

-- One turn of the loop, by its three tests, of which the code takes them in this order.
turn-finds :
    (game asked near : Bool) (server copy : Context) (found : Option Context)
    (filtered rest skipped copied : List Context)
    → skipped ≡ elim found [ some s ↦ s ∷ [] | none ↦ filtered ++ rest ]
    → copied ≡ elim found [ some s ↦ s ∷ [] | none ↦ (filtered ++ (copy ∷ [])) ++ rest ]
    → (if not game
        then skipped
        else if asked
        then server ∷ []
        else if near
        then copied
        else skipped)
      ≡ elim (if game && asked then some server else found) [
        | some s ↦ s ∷ []
        | none ↦ filtered ++ (if game && near then copy ∷ rest else rest)
      ]
turn-finds false asked near server copy found filtered rest skipped copied s c = s
turn-finds true true near server copy found filtered rest skipped copied s c = refl
turn-finds true false false server copy found filtered rest skipped copied s c = s
turn-finds true false true server copy none filtered rest skipped copied s c =
    c ∙ append_assoc filtered (copy ∷ []) rest
turn-finds true false true server copy (some x) filtered rest skipped copied s c = c

gives-is : (server : Context) (key v : Bytes) → is server key v ≡ gives server key v
unfolding is value_at gives
gives-is server key v = go (server key)
  where
    go :
        (o : Option Bytes)
        → str_eq (elim o [ none ↦ [] | some x ↦ x ]) v
          ≡ elim o [ none ↦ str_eq [] v | some x ↦ str_eq x v ]
    go none = refl
    go (some x) = refl

nearby-gives :
    (ip : Bytes) (server : Context)
    → is_nearby ip server ≡ (has_no_profile server && gives server (str "publicip") ip)
unfolding is_nearby has_no_profile
nearby-gives ip server = go (server (str "dwc_pid"))
  where
    go :
        (o : Option Bytes)
        → elim o [ none ↦ is server (str "publicip") ip | some v ↦ false ]
          ≡ (elim o [ none ↦ true | some _ ↦ false ] && gives server (str "publicip") ip)
    go none = gives-is server (str "publicip") ip
    go (some v) = refl

as_self-under_profile :
    (pid : Bytes) (server : Context) → as_self pid server ≡ under_profile pid server
unfolding as_self under_profile
as_self-under_profile pid server = refl

loop-finds :
    (q pid ip : Bytes) (filtered servers : List Context)
    → lookup_loop q pid ip filtered servers ≡ looked_up q pid ip filtered servers
unfolding lookup_loop first_match stand_ins is_asked is_stand_in
loop-finds q pid ip filtered [] = sym (append-nil filtered)
loop-finds q pid ip filtered (server ∷ servers) =
    rw
      (
        gives-is server (str "gamename") q,
        gives-is server (str "dwc_pid") pid,
        nearby-gives ip server,
        as_self-under_profile pid server,
      )
      (turn-finds (gives server (str "gamename") q) (gives server (str "dwc_pid") pid)
        (has_no_profile server && gives server (str "publicip") ip) server
        (under_profile pid server) (first_match (is_asked q pid) servers) filtered
        (stand_ins q pid ip servers) _ _ (loop-finds q pid ip filtered servers)
        (loop-finds q pid ip (filtered ++ (under_profile pid server ∷ [])) servers))

-- A lookup returns the first server of the game with the profile id, alone, or if there is none a copy
-- of each server of the game at the address that has no profile id, in their order, where the copy has
-- that profile id, and 0 for its matching version and type.
pub filter_self_lookup_finds :
    (servers : List Context) (q pid ip : Bytes)
    → filter_self_lookup servers q pid ip ≡ elim (first_match (is_asked q pid) servers) [
      | some server ↦ server ∷ []
      | none ↦ stand_ins q pid ip servers
    ]
unfolding filter_self_lookup
filter_self_lookup_finds servers q pid ip = loop-finds q pid ip [] servers
