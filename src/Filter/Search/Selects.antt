-- ===== src/Filter/Search/Selects.antt =====
-- Which servers filterServers of serverbrowser/filter.go returns.
use wfc_server_private.Filter.{Tree}
use wfc_server_private.Filter.Eval.{Env, eval_tree}
use wfc_server_private.Filter.Eval.Rk.{restricted_join}
use wfc_server_private.Filter.Run.{Run, pure, bind, bind-outcome, bind-ok}
use wfc_server_private.Filter.Search.{
  Context, is_candidate, is_barred, bar, keep_if, visit, search_loop, or_empty, filter_servers,
}
use wfc_server_private.Prelude.{
  ℕ, ◌≡◌, refl, ap, ◌∙◌, ◌⊎◌, inl, inr, Bool, true, false, not, ◌&&◌, Option, some, List, [], ◌∷◌,
  arith, ◌==◌, if◌then◌else◌, Bytes, str, Bool-cases, All,
}
use wfc_server_private.Prelude.Outcome.{Outcome, ok, rejected, panicked}

-- what a search asks of a server: it passes the tests before the expression, it is not barred, and
-- the expression is nonzero
abbrev nonzero : Outcome ℕ → Bool
nonzero (ok n) = not (n == 0)
nonzero rejected = false
nonzero panicked = false

abbrev seen : Bytes → Context → Env
seen query_game server = record { context = server; query_game = query_game }

unfoldable pub is_selected : Tree → Bytes → Context → Bool
is_selected tree query_game server =
    is_candidate query_game server
    && (not (is_barred server) && nonzero (eval_tree tree (seen query_game server)).outcome)

unfoldable pub select : (Context → Bool) → List Context → List Context
select p [] = []
select p (server ∷ servers) = if p server then server ∷ select p servers else select p servers

restricted_join-outcome : (v : Option Bytes) → (restricted_join v).outcome ≡ ok 0
unfolding restricted_join
restricted_join-outcome v = ground arith

bar-outcome :
    (server : Context) (ret : ℕ)
    → (bar server ret).outcome ≡ ok (if is_barred server then 0 else ret)
unfolding bar
bar-outcome server ret = elim (Bool-cases (is_barred server)) [
  | inl e ↦ rw e (restricted_join-outcome (server (str "dwc_pid")))
  | inr e ↦ rw e refl
]

kept :
    (server : Context) (b : Bool) (n : ℕ) (found : List Context)
    → keep_if server (if b then 0 else n) found
      ≡ (if not b && not (n == 0) then server ∷ found else found)
unfolding keep_if
kept server true n found = refl
kept server false n found = elim (Bool-cases (n == 0)) [ inl e ↦ rw e refl | inr e ↦ rw e refl ]

-- The expression has a value at the server, if it is evaluated there.
abbrev Evaluates : Tree → Bytes → Context → Type 0
Evaluates tree q server =
    is_candidate q server ≡ true → (n : ℕ) × ((eval_tree tree (seen q server)).outcome ≡ ok n)

-- what a turn of the loop finds, where the rest of the loop finds `found`
abbrev grown : Tree → Bytes → Context → List Context → List Context
grown tree q server found = if is_selected tree q server then server ∷ found else found

visit_selects :
    (tree : Tree) (q : Bytes) (server : Context) (rest : Run (List Context)) (found : List Context)
    → Evaluates tree q server
    → rest.outcome ≡ ok found
    → (visit tree q server rest).outcome ≡ ok (grown tree q server found)
unfolding visit is_selected
visit_selects tree q server rest found evaluates r = go (is_candidate q server) refl
  where
    go :
        (b : Bool)
        → is_candidate q server ≡ b
        → (visit tree q server rest).outcome ≡ ok (grown tree q server found)
    go false c = rw c r
    go true c =
        let (n, e) = evaluates c in
        rw c (
          bind-outcome (eval_tree tree (seen q server)) _ n e
          ∙ bind-outcome (bar server n) _ (if is_barred server then 0 else n) (bar-outcome server n)
          ∙ bind-outcome rest _ found r
          ∙ rw e (ap (λ (l : List Context). ok l) (kept server (is_barred server) n found)))

search_selects :
    (tree : Tree) (q : Bytes) (servers : List Context)
    → All (Evaluates tree q) servers
    → (search_loop tree q servers).outcome ≡ ok (select (is_selected tree q) servers)
unfolding search_loop select
search_selects tree q [] h = refl
search_selects tree q (server ∷ servers) (h, hs) =
    visit_selects tree q server (search_loop tree q servers) (select (is_selected tree q) servers) h
      (search_selects tree q servers hs)

visit-Evaluates :
    (tree : Tree) (q : Bytes) (server : Context) (rest : Run (List Context)) (found : List Context)
    → (visit tree q server rest).outcome ≡ ok found
    → Evaluates tree q server × (l : List Context) × (rest.outcome ≡ ok l)
unfolding visit
visit-Evaluates tree q server rest found h = go (is_candidate q server) refl h
  where
    judged : Run (List Context)
    judged = bind (eval_tree tree (seen q server)) (λ ret.
        bind (bar server ret)
          λ verdict. bind rest λ filtered. pure (keep_if server verdict filtered))

    go :
        (b : Bool)
        → is_candidate q server ≡ b
        → (if b then judged else rest).outcome ≡ ok found
        → Evaluates tree q server × (l : List Context) × (rest.outcome ≡ ok l)
    go false c k = (λ c'. cc, found, k)
    go true c k =
        let (n, e, more) =
          bind-ok (eval_tree tree (seen q server))
            (λ ret.
              bind (bar server ret)
                λ verdict. bind rest λ filtered. pure (keep_if server verdict filtered))
            found k in
        let (verdict, _, last) =
          bind-ok (bar server n)
            (λ verdict. bind rest λ filtered. pure (keep_if server verdict filtered)) found more in
        let (l, r, _) =
          bind-ok rest (λ filtered. pure (keep_if server verdict filtered)) found last in
        (λ _. (n, e), l, r)

search-Evaluates :
    (tree : Tree) (q : Bytes) (servers found : List Context)
    → (search_loop tree q servers).outcome ≡ ok found
    → All (Evaluates tree q) servers
unfolding search_loop
search-Evaluates tree q [] found h = tt
search-Evaluates tree q (server ∷ servers) found h =
    let (e, l, r) = visit-Evaluates tree q server (search_loop tree q servers) found h in
    (e, search-Evaluates tree q servers l r)

-- Where the expression has a value at every server that passes the first tests, the search returns
-- exactly those of them that are not barred and at which the value is nonzero, in their order.
pub filter_servers_selects :
    (tree : Tree) (q : Bytes) (servers : List Context)
    → All (Evaluates tree q) servers
    → (filter_servers servers q (some tree)).outcome ≡ ok (select (is_selected tree q) servers)
unfolding filter_servers or_empty
filter_servers_selects tree q servers h = rw (search_selects tree q servers h) refl

-- A search that returns, returns exactly the servers that pass the first tests, are not barred and
-- have a nonzero value, in their order, or none.
pub filter_servers_sound :
    (tree : Tree) (q : Bytes) (servers found : List Context)
    → (filter_servers servers q (some tree)).outcome ≡ ok found
    → (found ≡ select (is_selected tree q) servers) ⊎ (found ≡ [])
unfolding filter_servers or_empty
filter_servers_sound tree q servers found e = go (search_loop tree q servers).outcome refl e
  where
    go :
        (o : Outcome (List Context))
        → (search_loop tree q servers).outcome ≡ o
        → or_empty o ≡ ok found
        → (found ≡ select (is_selected tree q) servers) ⊎ (found ≡ [])
    go (ok l) h k =
        let whole = search_selects tree q servers (search-Evaluates tree q servers l h) in inl cc
    go rejected h k = inr cc
    go panicked h k = cc
