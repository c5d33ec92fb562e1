-- ===== src/Filter/Search.antt =====
-- serverbrowser/filter.go: the servers that a search or a lookup finds. A server is its map of values;
-- the result of filter.Parse on the expression is an argument.
pub mod Selects
pub mod Lookup
use wfc_server_private.Filter.{Tree}
use wfc_server_private.Filter.Eval.{eval_tree}
use wfc_server_private.Filter.Eval.Rk.{is_restricted, value_at, restricted_join}
use wfc_server_private.Filter.Run.{Run, pure, bind}
use wfc_server_private.Prelude.{
  ℕ, Bool, false, not, ◌&&◌, Option, none, some, List, [], ◌∷◌, ◌++◌, ◌==◌, if◌then◌else◌, Bytes,
  str, str_eq,
}
use wfc_server_private.Prelude.Outcome.{Outcome, ok, rejected, panicked}

abbrev pub Context : Type 0
Context = Bytes → Option Bytes

unfoldable pub is : Context → Bytes → Bytes → Bool
unfolding value_at
is server key v = str_eq (value_at server key) v

-- the tests of filterServers before the expression
unfoldable pub is_candidate : Bytes → Context → Bool
unfolding is
is_candidate query_game server =
    is server (str "gamename") query_game
    && (is server (str "+deviceauth") (str "1")
        && not (
            is server (str "dwc_mver") (str "90")
            && (not (is server (str "dwc_hoststate") (str "0"))
                && not (is server (str "dwc_hoststate") (str "2")))))

-- an untrusted server in a private room for trusted players
unfoldable pub is_barred : Context → Bool
unfolding is is_restricted value_at
is_barred server =
    is server (str "gamename") (str "mariokartwii")
    && (is_restricted (value_at server (str "rk")) && is server (str "+trusted") (str "false"))

-- what the code does to `ret` after Eval
unfoldable pub bar : Context → ℕ → Run ℕ
unfolding is_barred restricted_join
bar server ret = if is_barred server then restricted_join (server (str "dwc_pid")) else pure ret

unfoldable pub keep_if : Context → ℕ → List Context → List Context
keep_if server ret filtered = if ret == 0 then filtered else server ∷ filtered

-- one turn of the loop, on what the rest of the loop does
unfoldable pub visit : Tree → Bytes → Context → Run (List Context) → Run (List Context)
unfolding is_candidate eval_tree bar keep_if
visit tree query_game server rest =
    if is_candidate query_game server
    then bind (eval_tree tree (record { context = server; query_game = query_game })) (λ ret.
      bind (bar server ret) λ verdict. bind rest λ filtered. pure (keep_if server verdict filtered))
    else rest

-- The loop; an error of Eval is `rejected`.
unfoldable pub search_loop : Tree → Bytes → List Context → Run (List Context)
unfolding visit
search_loop tree query_game [] = pure []
search_loop tree query_game (server ∷ servers) =
    visit tree query_game server (search_loop tree query_game servers)

unfoldable pub or_empty : Outcome (List Context) → Outcome (List Context)
or_empty (ok filtered) = ok filtered
or_empty rejected = ok []
or_empty panicked = panicked

unfoldable pub filter_servers : List Context → Bytes → Option Tree → Run (List Context)
unfolding search_loop or_empty
filter_servers servers query_game none = pure []
filter_servers servers query_game (some tree) =
    let found = search_loop tree query_game servers in
    record { outcome = or_empty found.outcome; kicked = found.kicked }

-- `newServer[key] = v` on a copy of the map
set_value : Bytes → Bytes → Context → Context
set_value key v server = λ k. if str_eq key k then some v else server k

-- a server without a profile, at the address of the request
unfoldable pub is_nearby : Bytes → Context → Bool
unfolding is
is_nearby public_ip server = elim (server (str "dwc_pid")) [
  | none ↦ is server (str "publicip") public_ip
  | some v ↦ false
]

unfoldable pub as_self : Bytes → Context → Context
unfolding set_value
as_self dwc_pid server =
    set_value (str "dwc_mver") (str "0")
      (set_value (str "dwc_mtype") (str "0") (set_value (str "dwc_pid") dwc_pid server))

-- The loop of filterSelfLookup; `filtered` is in the code's order.
unfoldable pub lookup_loop : Bytes → Bytes → Bytes → List Context → List Context → List Context
unfolding is is_nearby as_self
lookup_loop query_game dwc_pid public_ip filtered [] = filtered
lookup_loop query_game dwc_pid public_ip filtered (server ∷ servers) =
    let skipped = lookup_loop query_game dwc_pid public_ip filtered servers in
    let copied =
      lookup_loop query_game dwc_pid public_ip (filtered ++ (as_self dwc_pid server ∷ []))
        servers in
    if not (is server (str "gamename") query_game)
    then skipped
    else if is server (str "dwc_pid") dwc_pid
    then server ∷ []
    else if is_nearby public_ip server
    then copied
    else skipped

unfoldable pub filter_self_lookup : List Context → Bytes → Bytes → Bytes → List Context
unfolding lookup_loop
filter_self_lookup servers query_game dwc_pid public_ip =
    lookup_loop query_game dwc_pid public_ip [] servers
