-- ===== src/Games/Cache/Genres.antt =====
-- The map of genre names of apps/games/igdb/cache.py
use gechu_backend.Base.{ℕ, ◌+◌, Option, none, some, String, List, [], ◌∷◌}
use gechu_backend.Base.Dict.{Dict, lookup, insert}
use gechu_backend.Base.Keys.{text_key}
use gechu_backend.Core.Errors.{Result, ok, err}
use gechu_backend.Games.Raw.{Field, missing, null, value, RawNamed}
use gechu_backend.Games.Converters.{key_error}
use gechu_backend.Games.Names.{alive}
use gechu_backend.Games.Client.{Answer, failed, post, get_igdb_client}
use gechu_backend.Games.Client.Queries.{Query, genres}
use gechu_backend.Games.Cache.{Store, Context, to_error, with_client}

abbrev pub genres_query : Query
genres_query = record {
  endpoint = genres;
  search = none;
  fields = "id,name";
  conditions = [];
  sort = none;
  limit = some 50;
  offset = none;
}

-- `{genre["name"]: genre["id"] ...}`, in which nothing is looked up under a name that is `None`
abbrev pub put_genre : Field String → Option ℕ → Dict String ℕ → Result (Dict String ℕ)
put_genre missing id d = err key_error
put_genre null none d = err key_error
put_genre null (some id) d = ok d
put_genre (value name) none d = err key_error
put_genre (value name) (some id) d = ok (insert name id d)

abbrev pub and_then :
    Result (Dict String ℕ) → (Dict String ℕ → Result (Dict String ℕ)) → Result (Dict String ℕ)
and_then (err e) rest = err e
and_then (ok d) rest = rest d

unfoldable pub genre_map_of : List RawNamed → Dict String ℕ → Result (Dict String ℕ)
genre_map_of [] d = ok d
genre_map_of (g ∷ gs) d = and_then (put_genre g.name g.id d) (genre_map_of gs)

abbrev pub mapped : Answer (List RawNamed) × Store → Result (Dict String ℕ) × Store
mapped (failed e, s) = (err (to_error e), s)
mapped (Answer.ok rows, s) = (genre_map_of rows [], s)

module _ (ctx : Context) (genre_map_ttl : ℕ) where
  unfoldable pub fetch_all_igdb_genres : Store → Result (Dict String ℕ) × Store
  fetch_all_igdb_genres s = mapped (
      with_client (get_igdb_client ctx.genre_remote s.client) (post ctx.genre_remote genres_query)
        s)

  abbrev pub looked_up : String → Result (Dict String ℕ) × Store → Result (Option ℕ) × Store
  looked_up name (err e, s) = (err e, s)
  looked_up name (ok d, s) = (
    ok (lookup name d),
    record s { genre_map = some (record { value = d; until = ctx.now + genre_map_ttl }) },
  )

  abbrev pub known_or : String → Option (Dict String ℕ) → Store → Result (Option ℕ) × Store
  known_or name (some d) s = (ok (lookup name d), s)
  known_or name none s = looked_up name (fetch_all_igdb_genres s)

  unfoldable pub get_genre_id_by_name : String → Store → Result (Option ℕ) × Store
  get_genre_id_by_name name s = known_or name (alive ctx.now s.genre_map) s
