-- ===== src/Games/Cache/Bulk.antt =====
-- get_games_by_ids of apps/games/igdb/cache.py
use gechu_backend.Base.{ℕ, ◌+◌, Option, none, some, List, [], ◌∷◌, ◌++◌}
use gechu_backend.Base.Dict.{Dict, nat_eq, lookup, insert}
use gechu_backend.Core.Errors.{Result, ok, err}
use gechu_backend.Games.Raw.{RawGame}
use gechu_backend.Games.Converters.{key_error}
use gechu_backend.Games.Names.{Names}
use gechu_backend.Games.Client.{Answer, failed}
use gechu_backend.Games.Client.Search as Requests
use gechu_backend.Games.Response.{GameDetail, build_game_detail}
use gechu_backend.Games.Cache.{Store, Context, ask, to_error, cached_game, game_ttl}

-- The details so far, and the ids that are not kept
pub record Found : Type 0 where
  pub results : Dict ℕ GameDetail
  pub missing_ids : List ℕ

abbrev pub found_one : ℕ → Option GameDetail → Found → Found
found_one id (some detail) f = record f { results = insert id detail f.results }
found_one id none f = record f { missing_ids = f.missing_ids ++ id ∷ [] }

abbrev pub nothing_found : Found
nothing_found = record { results = []; missing_ids = [] }

-- `[results[igdb_id] for igdb_id in igdb_ids if igdb_id in results]`
abbrev pub add_found : Option GameDetail → List GameDetail → List GameDetail
add_found none more = more
add_found (some detail) more = detail ∷ more

unfoldable pub collect : List ℕ → Dict ℕ GameDetail → List GameDetail
collect [] results = []
collect (id ∷ ids) results = add_found (lookup id results) (collect ids results)

module _ (ctx : Context) where
  -- The loop over the ids
  unfoldable pub find_cached : List ℕ → Store → Found → Found
  find_cached [] s f = f
  find_cached (id ∷ ids) s f = find_cached ids s (found_one id (cached_game ctx id s) f)

  abbrev pub put_game : ℕ → GameDetail → Names → Store → Store
  put_game id detail names s = record s {
    names = names;
    games = insert id (record { value = detail; until = ctx.now + game_ttl }) s.games;
  }

  -- One answer: its detail is kept by its id.
  abbrev pub add_detail :
      Option ℕ
      → Result GameDetail × Names
      → Dict ℕ GameDetail
      → Store
      → Result (Dict ℕ GameDetail) × Store
  add_detail id (err e, names) results s = (err e, record s { names = names })
  add_detail none (ok detail, names) results s = (err key_error, record s { names = names })
  add_detail (some id) (ok detail, names) results s =
      (ok (insert id detail results), put_game id detail names s)

  unfoldable pub add_row : RawGame → Dict ℕ GameDetail → Store → Result (Dict ℕ GameDetail) × Store
  add_row raw results s =
      add_detail raw.id (build_game_detail ctx.outside ctx.now raw s.names) results s

  abbrev pub go_on :
      Result (Dict ℕ GameDetail) × Store
      → (Dict ℕ GameDetail → Store → Result (Dict ℕ GameDetail) × Store)
      → Result (Dict ℕ GameDetail) × Store
  go_on (err e, s) rest = (err e, s)
  go_on (ok results, s) rest = rest results s

  -- The loop over the answers
  unfoldable pub add_rows :
      List RawGame → Dict ℕ GameDetail → Store → Result (Dict ℕ GameDetail) × Store
  add_rows [] results s = (ok results, s)
  add_rows (raw ∷ rows) results s = go_on (add_row raw results s) (add_rows rows)

  abbrev pub add_answer :
      Dict ℕ GameDetail → Answer (List RawGame) × Store → Result (Dict ℕ GameDetail) × Store
  add_answer results (failed e, s) = (err (to_error e), s)
  add_answer results (Answer.ok rows, s) = add_rows rows results s

  -- `if missing_ids:`
  abbrev pub add_missing : List ℕ → Dict ℕ GameDetail → Store → Result (Dict ℕ GameDetail) × Store
  add_missing [] results s = (ok results, s)
  add_missing (id ∷ ids) results s =
      add_answer results (ask ctx (Requests.get_games_by_ids ctx.remote (id ∷ ids)) s)

  abbrev pub collected :
      List ℕ → Result (Dict ℕ GameDetail) × Store → Result (List GameDetail) × Store
  collected ids (err e, s) = (err e, s)
  collected ids (ok results, s) = (ok (collect ids results), s)

  unfoldable pub get_games_by_ids : List ℕ → Store → Result (List GameDetail) × Store
  get_games_by_ids [] s = (ok [], s)
  get_games_by_ids (id ∷ ids) s =
      let f = find_cached (id ∷ ids) s nothing_found in
      collected (id ∷ ids) (add_missing f.missing_ids f.results s)
