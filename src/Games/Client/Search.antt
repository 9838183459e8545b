-- ===== src/Games/Client/Search.antt =====
-- get_game, search_games and get_games_by_ids of apps/games/igdb/client.py
pub mod Chunked
use gechu_backend.Base.{
  ℕ, zero, suc, ◌+◌, Option, none, some, String, List, [], ◌∷◌, ◌++◌, length, if◌then◌else◌,
}
use gechu_backend.Base.Chunks.{chunks}
use gechu_backend.Games.Text.{is_blank}
use gechu_backend.Games.Client.{
  IgdbError, not_found_error, Answer, ok, failed, IgdbClient, Remote, post_with_auth_retry,
}
use gechu_backend.Games.Client.Queries.{
  Endpoint, games, Query, Condition, rating_count_from, rating_above, released_from, genres_in,
  platforms_in, keywords_in, themes_in, game_modes_in, id_is, id_in,
}
use gechu_backend.Games.Client.Pages.{page_size}

abbrev pub detail_fields : String
detail_fields =
    "id,name,slug,summary,storyline,alternative_names.name,alternative_names.comment,parent_game,first_release_date,status,cover.image_id,rating,rating_count,aggregated_rating,genres.id,genres.name,genres.slug,platforms.id,platforms.name,platforms.slug,keywords.id,keywords.name,keywords.slug,age_ratings.organization,age_ratings.rating_category,screenshots.image_id,videos.video_id,videos.name,websites.url,websites.category,updated_at"

abbrev pub search_fields : String
search_fields =
    "id,name,slug,summary,alternative_names.name,alternative_names.comment,parent_game,first_release_date,rating,rating_count,cover.image_id,genres.id,genres.name,platforms.id,platforms.name,keywords.id,keywords.name,themes.id,themes.name,game_modes.id,game_modes.name,age_ratings.organization,age_ratings.rating_category,follows"

abbrev pub bulk_fields : String
bulk_fields =
    "id,name,slug,summary,alternative_names.name,alternative_names.comment,parent_game,first_release_date,rating,rating_count,cover.image_id,genres.id,genres.name,platforms.id,platforms.name,keywords.id,keywords.name,age_ratings.organization,age_ratings.rating_category,follows"

-- The arguments of search_games
pub record Search : Type 0 where
  pub query : Option String
  pub genre_ids : Option (List ℕ)
  pub platform_ids : Option (List ℕ)
  pub tag_ids : Option (List ℕ)
  pub theme_ids : Option (List ℕ)
  pub game_mode_ids : Option (List ℕ)
  pub min_rating_count : Option ℕ
  pub min_rating : Option ℕ
  pub min_release_date : Option ℕ
  pub sort : String
  pub limit : ℕ
  pub offset : ℕ

-- `if n is not None`, `if n` and `if ids`
abbrev pub if_there : (ℕ → Condition) → Option ℕ → List Condition
if_there c none = []
if_there c (some n) = c n ∷ []

abbrev pub if_nonzero : (ℕ → Condition) → Option ℕ → List Condition
if_nonzero c none = []
if_nonzero c (some zero) = []
if_nonzero c (some (suc n)) = c (suc n) ∷ []

abbrev pub if_any : (List ℕ → Condition) → Option (List ℕ) → List Condition
if_any c none = []
if_any c (some []) = []
if_any c (some (x ∷ xs)) = c (x ∷ xs) ∷ []

unfoldable pub where_parts : Search → List Condition
where_parts s =
    if_there rating_count_from s.min_rating_count
    ++ (if_nonzero rating_above s.min_rating
        ++ (if_nonzero released_from s.min_release_date
            ++ (if_any genres_in s.genre_ids
                ++ (if_any platforms_in s.platform_ids
                    ++ (if_any keywords_in s.tag_ids
                        ++ (if_any themes_in s.theme_ids
                            ++ if_any game_modes_in s.game_mode_ids))))))

abbrev pub filtered_query : Search → Query
filtered_query s = record {
  endpoint = games;
  search = none;
  fields = search_fields;
  conditions = where_parts s;
  sort = some s.sort;
  limit = some s.limit;
  offset = some s.offset;
}

abbrev pub text_query : String → Search → Query
text_query text s = record {
  endpoint = games;
  search = some text;
  fields = search_fields;
  conditions = [];
  sort = none;
  limit = some s.limit;
  offset = some s.offset;
}

abbrev pub query_or : Option String → Search → Query
query_or none s = filtered_query s
query_or (some text) s = if is_blank text then filtered_query s else text_query text s

unfoldable pub search_query : Search → Query
search_query s = query_or s.query s

abbrev pub game_query : ℕ → Query
game_query igdb_id = record {
  endpoint = games;
  search = none;
  fields = detail_fields;
  conditions = id_is igdb_id ∷ [];
  sort = none;
  limit = none;
  offset = none;
}

abbrev pub chunk_query : List ℕ → Query
chunk_query chunk = record {
  endpoint = games;
  search = none;
  fields = bulk_fields;
  conditions = id_in chunk ∷ [];
  sort = none;
  limit = some (length chunk);
  offset = none;
}

abbrev pub first_of : {A : Type 0} → Answer (List A) × IgdbClient → Answer A × IgdbClient
first_of (ok [], c) = (failed not_found_error, c)
first_of (ok (row ∷ rows), c) = (ok row, c)
first_of (failed e, c) = (failed e, c)

module _ {A : Type 0} (remote : Remote A) where
  unfoldable pub get_game : ℕ → IgdbClient → Answer A × IgdbClient
  get_game igdb_id c = first_of (post_with_auth_retry remote (game_query igdb_id) c)

  unfoldable pub search_games : Search → IgdbClient → Answer (List A) × IgdbClient
  search_games s c = post_with_auth_retry remote (search_query s) c

  abbrev pub extended :
      List A
      → Answer (List A) × IgdbClient
      → (List A → IgdbClient → Answer (List A) × IgdbClient)
      → Answer (List A) × IgdbClient
  extended all_results (ok results, c) rest = rest (all_results ++ results) c
  extended all_results (failed e, c) rest = (failed e, c)

  -- The loop over the chunks
  unfoldable pub get_chunks : List (List ℕ) → List A → IgdbClient → Answer (List A) × IgdbClient
  get_chunks [] all_results c = (ok all_results, c)
  get_chunks (chunk ∷ more) all_results c =
      extended all_results (post_with_auth_retry remote (chunk_query chunk) c) (get_chunks more)

  unfoldable pub get_games_by_ids : List ℕ → IgdbClient → Answer (List A) × IgdbClient
  get_games_by_ids igdb_ids c = get_chunks (chunks page_size igdb_ids) [] c
