-- ===== src/Games/Client/Pages.antt =====
-- _paginate and the iter_ methods of apps/games/igdb/client.py
pub mod Traversal
pub mod Table
use gechu_backend.Base.{
  ℕ, zero, suc, ◌+◌, ◌*◌, ◌/◌, Option, none, some, String, List, [], ◌∷◌, length, ltb, leb,
  if◌then◌else◌,
}
use gechu_backend.Games.Client.{
  IgdbError, auth_error, not_found_error, request_error, rate_limit_error, server_error, http_error,
  Answer, ok, failed, IgdbClient, Remote, post_with_auth_retry,
}
use gechu_backend.Games.Client.Queries.{Endpoint, games, genres, platforms, keywords, Query}

abbrev pub page_size : ℕ
page_size = 500

abbrev pub max_pages : ℕ
max_pages = 500

-- How a traversal ended
pub data Stop : Type 0 where
  finished out_of_fuel : Stop
  raised : IgdbError → Stop

pub record Pages (A : Type 0) : Type 0 where
  pub pages : List (List A)
  pub stop : Stop
  pub client : IgdbClient

abbrev pub page_query : Endpoint → String → ℕ → Query
page_query endpoint fields offset = record {
  endpoint = endpoint;
  search = none;
  fields = fields;
  conditions = [];
  sort = some "updated_at desc";
  limit = some page_size;
  offset = some offset;
}

abbrev pub no_pages : {A : Type 0} → Stop → IgdbClient → Pages A
no_pages stop c = record { pages = []; stop = stop; client = c }

abbrev pub add_page : {A : Type 0} → List A → Pages A → Pages A
add_page page p = record { pages = page ∷ p.pages; stop = p.stop; client = p.client }

module _ {A : Type 0} (remote : Remote A) (endpoint : Endpoint) (fields : String) where
  -- After a rate limit, and a sleep, once more
  abbrev pub after_rate_limit : Query → Answer (List A) × IgdbClient → Answer (List A) × IgdbClient
  after_rate_limit q (failed (rate_limit_error n), c) = post_with_auth_retry remote q c
  after_rate_limit q (failed auth_error, c) = (failed auth_error, c)
  after_rate_limit q (failed not_found_error, c) = (failed not_found_error, c)
  after_rate_limit q (failed request_error, c) = (failed request_error, c)
  after_rate_limit q (failed (server_error n), c) = (failed (server_error n), c)
  after_rate_limit q (failed (http_error n), c) = (failed (http_error n), c)
  after_rate_limit q (ok rows, c) = (ok rows, c)

  unfoldable pub page_at : ℕ → IgdbClient → Answer (List A) × IgdbClient
  page_at offset c =
      let q = page_query endpoint fields offset in
      after_rate_limit q (post_with_auth_retry remote q c)

  -- What is done with a page, where `rest` is the traversal from the next offset
  abbrev pub after_page : Answer (List A) × IgdbClient → (IgdbClient → Pages A) → Pages A
  after_page (failed e, c) rest = no_pages (raised e) c
  after_page (ok [], c) rest = no_pages finished c
  after_page (ok (row ∷ rows), c) rest =
      if ltb (length (row ∷ rows)) page_size
      then add_page (row ∷ rows) (no_pages finished c)
      else add_page (row ∷ rows) (rest c)

  -- The loop, one unit of fuel for each page
  unfoldable pub paginate_from : ℕ → ℕ → IgdbClient → Pages A
  paginate_from zero offset c = no_pages out_of_fuel c
  paginate_from (suc fuel) offset c =
      let page = after_page (page_at offset c) (paginate_from fuel (offset + page_size)) in
      if leb max_pages (offset / page_size) then no_pages finished c else page

  -- One page more than the loop lets through
  unfoldable pub paginate : IgdbClient → Pages A
  paginate c = paginate_from (max_pages + 1) 0 c

abbrev pub game_fields : String
game_fields =
    "id,name,slug,summary,alternative_names.name,alternative_names.comment,first_release_date,rating,rating_count,cover.image_id,genres.id,genres.name,genres.slug,platforms.id,platforms.name,keywords.id,age_ratings.organization,age_ratings.rating_category,screenshots.image_id,videos.video_id,videos.name,websites.url,websites.category,follows,updated_at"

module _ {A : Type 0} (remote : Remote A) where
  unfoldable pub iter_games : IgdbClient → Pages A
  iter_games = paginate remote games game_fields

  unfoldable pub iter_genres : IgdbClient → Pages A
  iter_genres = paginate remote genres "id,name,slug"

  unfoldable pub iter_platforms : IgdbClient → Pages A
  iter_platforms = paginate remote platforms "id,name,slug,platform_logo.image_id"

  unfoldable pub iter_keywords : IgdbClient → Pages A
  iter_keywords = paginate remote keywords "id,name,slug"
