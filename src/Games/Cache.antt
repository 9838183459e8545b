-- ===== src/Games/Cache.antt =====
-- apps/games/igdb/cache.py: what is kept of IGDB's answers, and the searches that go through it.
pub mod Bulk
pub mod Genres
pub mod Kept
pub mod Again
pub mod Answers
pub mod Items
pub mod Fit
use gechu_backend.Base.{
  ℕ, zero, suc, ◌+◌, Bool, true, false, not, ◌&&◌, Option, none, some, String, string_eq, List, [],
  ◌∷◌, ◌++◌, map, filter, elem, ltb, ◌==◌, if◌then◌else◌,
}
use gechu_backend.Base.Dict.{Dict, nat_eq, lookup, insert}
use gechu_backend.Base.Keys.{text_key}
use gechu_backend.Core.Errors.{
  Error, igdb_rate_limit, igdb_server_error, igdb_not_found, igdb_auth_error, other, Result, ok,
  err,
}
use gechu_backend.Games.Keys.{Params, by_filters, by_genre, Json, params_of}
use gechu_backend.Games.Raw.{RawNamed, RawGame}
use gechu_backend.Games.Converters.{required}
use gechu_backend.Games.Names.{Names, Until, alive}
use gechu_backend.Games.Client.{
  IgdbError, auth_error, not_found_error, request_error, rate_limit_error, server_error, http_error,
  Answer, failed, IgdbClient, Remote, get_igdb_client,
}
use gechu_backend.Games.Client.Search as Requests
use gechu_backend.Games.Client.Search.{Search}
use gechu_backend.Games.Response.{
  GameListItem, GameDetail, Outside, build_game_list_item, build_game_detail,
}

-- IgdbType of the genres and tags
pub data IgdbType : Type 0 where
  genre theme game_mode keyword : IgdbType

-- Genre and Tag rows, with the ids by which IGDB knows them
pub record Filter : Type 0 where
  pub id : ℕ
  pub igdb_id : ℕ
  pub igdb_type : IgdbType

pub record PlatformRow : Type 0 where
  pub id : ℕ
  pub igdb_id : ℕ

pub record Filters : Type 0 where
  pub genres : List Filter
  pub tags : List Filter
  pub platforms : List PlatformRow

pub record Store : Type 0 where
  pub names : Names
  pub client : Option IgdbClient
  pub games : Dict ℕ (Until GameDetail)
  pub searches : Dict ℕ (Until (List GameListItem))
  pub genre_map : Option (Until (Dict String ℕ))

abbrev pub game_ttl : ℕ
game_ttl = 3600

abbrev pub search_ttl : ℕ
search_ttl = 900

abbrev pub to_error : IgdbError → Error
to_error auth_error = igdb_auth_error
to_error not_found_error = igdb_not_found
to_error request_error = other "RequestException"
to_error (rate_limit_error n) = igdb_rate_limit
to_error (server_error n) = igdb_server_error
to_error (http_error n) = other "HTTPError"

abbrev pub type_eq : IgdbType → IgdbType → Bool
type_eq genre genre = true
type_eq theme theme = true
type_eq game_mode game_mode = true
type_eq keyword keyword = true
type_eq _ _ = false

-- The rows of the chosen ids, by type: `_resolve_genre_filters(ids).get(type, [])`, and the same of
-- the tags
unfoldable pub resolve_filters : List ℕ → List Filter → IgdbType → List ℕ
resolve_filters ids rows kind =
    map (λ r. r.igdb_id) (filter (λ r. elem r.id ids && type_eq r.igdb_type kind) rows)

unfoldable pub resolve_platform_filters : List ℕ → List PlatformRow → List ℕ
resolve_platform_filters ids rows = map (λ r. r.igdb_id) (filter (λ r. elem r.id ids) rows)

abbrev pub or_none : List ℕ → Option (List ℕ)
or_none [] = none
or_none (x ∷ xs) = some (x ∷ xs)

abbrev pub or_empty : Option (List ℕ) → List ℕ
or_empty none = []
or_empty (some ids) = ids

-- A search as the client is asked for it. `.get("genre")` of no rows of the type is `None`.
unfoldable pub search_of : Filters → Params → Search
search_of db (by_filters query genre_ids platform_ids tag_ids sort limit offset) =
    let genre_filters = resolve_filters (or_empty genre_ids) db.genres in
    let tag_filters = resolve_filters (or_empty tag_ids) db.tags in
    record {
      query = query;
      genre_ids = or_none (genre_filters genre);
      platform_ids = or_none (resolve_platform_filters (or_empty platform_ids) db.platforms);
      tag_ids = or_none (tag_filters keyword);
      theme_ids = or_none (genre_filters theme ++ tag_filters theme);
      game_mode_ids = or_none (genre_filters game_mode ++ tag_filters game_mode);
      min_rating_count = none;
      min_rating = none;
      min_release_date = none;
      sort = sort;
      limit = limit;
      offset = offset;
    }
search_of db (by_genre igdb_genre_id sort limit min_count min_rate min_date) = record {
  query = none;
  genre_ids = some (igdb_genre_id ∷ []);
  platform_ids = none;
  tag_ids = none;
  theme_ids = none;
  game_mode_ids = none;
  min_rating_count = some min_count;
  min_rating = some min_rate;
  min_release_date = some min_date;
  sort = sort;
  limit = limit;
  offset = 0;
}

-- What the searches need from outside: the rest of the builders', IGDB's games and genres, the first 48 bits of the MD5
-- of a search's dict of arguments in JSON, and the time
pub record Context : Type 0 where
  pub outside : Outside
  pub remote : Remote RawGame
  pub genre_remote : Remote RawNamed
  pub digest : Dict String Json → ℕ
  pub filters : Filters
  pub now : ℕ

-- A request of the process's client, which is made first if there is none
abbrev pub Requested : Type 0 → Type 0
Requested A = IgdbClient → Answer A × IgdbClient

abbrev pub kept_client : {A : Type 0} → Answer A × IgdbClient → Store → Answer A × Store
kept_client (r, c) s = (r, record s { client = some c })

abbrev pub with_client : {A : Type 0} → Answer IgdbClient → Requested A → Store → Answer A × Store
with_client (failed e) request s = (failed e, s)
with_client (Answer.ok c) request s = kept_client (request c) s

module _ (ctx : Context) where
  unfoldable pub ask : {A : Type 0} → Requested A → Store → Answer A × Store
  ask request s = with_client (get_igdb_client ctx.remote s.client) request s

  abbrev pub cons_item :
      Result GameListItem × Names
      → (Names → Result (List GameListItem) × Names)
      → Result (List GameListItem) × Names
  cons_item (err e, s) rest = (err e, s)
  cons_item (ok item, s) rest = cons_to item (rest s)
    where
      cons_to :
          GameListItem → Result (List GameListItem) × Names → Result (List GameListItem) × Names
      cons_to item (ok more, s) = (ok (item ∷ more), s)
      cons_to item (err e, s) = (err e, s)

  -- `[build_game_list_item(raw) for raw in raw_list]`
  unfoldable pub build_items : List RawGame → Names → Result (List GameListItem) × Names
  build_items [] s = (ok [], s)
  build_items (raw ∷ rows) s =
      cons_item (build_game_list_item ctx.outside ctx.now raw s) (build_items rows)

  -- `cache.set(key, results, _SEARCH_TTL)` after the items are built
  abbrev pub keep_search :
      ℕ → Result (List GameListItem) × Names → Store → Result (List GameListItem) × Store
  keep_search key (err e, names) s = (err e, record s { names = names })
  keep_search key (ok results, names) s = (
    ok results,
    record s {
      names = names;
      searches = insert key (record { value = results; until = ctx.now + search_ttl }) s.searches;
    },
  )

  unfoldable pub cached_search : ℕ → Store → Option (List GameListItem)
  cached_search key s = alive ctx.now (lookup key s.searches)

  -- The stale results, or the error again
  abbrev pub stale_or :
      Option (List GameListItem) → Error → Store → Result (List GameListItem) × Store
  stale_or none e s = (err e, s)
  stale_or (some stale) e s = (ok stale, s)

  abbrev pub searched : ℕ → Answer (List RawGame) × Store → Result (List GameListItem) × Store
  searched key (Answer.ok raw_list, s) = keep_search key (build_items raw_list s.names) s
  searched key (failed (rate_limit_error n), s) = stale_or (cached_search key s) igdb_rate_limit s
  searched key (failed (server_error n), s) = stale_or (cached_search key s) igdb_server_error s
  searched key (failed auth_error, s) = (err (to_error auth_error), s)
  searched key (failed not_found_error, s) = (err (to_error not_found_error), s)
  searched key (failed request_error, s) = (err (to_error request_error), s)
  searched key (failed (http_error n), s) = (err (to_error (http_error n)), s)

  abbrev pub cached_or :
      Option (List GameListItem)
      → (Store → Result (List GameListItem) × Store)
      → Store
      → Result (List GameListItem) × Store
  cached_or (some items) search s = (ok items, s)
  cached_or none search s = search s

  -- search_games, and search_games_by_igdb_genre_id, which differ in their arguments. An error of
  -- the token's request, in the making of the client, is raised before the `try`.
  unfoldable pub search_games : Params → Store → Result (List GameListItem) × Store
  search_games params s =
      let key = ctx.digest (params_of params) in
      cached_or (cached_search key s)
        (λ s'.
          searched key (ask (Requests.search_games ctx.remote (search_of ctx.filters params)) s'))
        s

  -- The details
  abbrev pub keep_game : Result GameDetail × Names → ℕ → Store → Result GameDetail × Store
  keep_game (err e, names) id s = (err e, record s { names = names })
  keep_game (ok detail, names) id s = (
    ok detail,
    record s {
      names = names;
      games = insert id (record { value = detail; until = ctx.now + game_ttl }) s.games;
    },
  )

  unfoldable pub cached_game : ℕ → Store → Option GameDetail
  cached_game id s = alive ctx.now (lookup id s.games)

  abbrev pub fetched : ℕ → Answer RawGame × Store → Result GameDetail × Store
  fetched id (failed e, s) = (err (to_error e), s)
  fetched id (Answer.ok raw, s) = keep_game (build_game_detail ctx.outside ctx.now raw s.names) id s

  abbrev pub detail_or :
      Option GameDetail → (Store → Result GameDetail × Store) → Store → Result GameDetail × Store
  detail_or (some detail) fetch s = (ok detail, s)
  detail_or none fetch s = fetch s

  unfoldable pub get_game_detail : ℕ → Store → Result GameDetail × Store
  get_game_detail id s =
      detail_or (cached_game id s) (λ s'. fetched id (ask (Requests.get_game ctx.remote id) s')) s
