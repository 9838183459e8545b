-- ===== src/Tests/Store.antt =====
-- The cache of games and the lists at concrete inputs.
use gechu_backend.Base.{ℕ, ◌≡◌, refl, false, Option, none, some, List, [], ◌∷◌, arith, inl}
use gechu_backend.Base.Dict.{nat_eq}
use gechu_backend.Core.Errors.{Result, ok}
use gechu_backend.Models.User.{User}
use gechu_backend.Games.Raw.{missing, value, RawGame, RawNamed}
use gechu_backend.Base.Chunks.{chunks}
use gechu_backend.Games.Text.{starts_with, is_space, skip}
use gechu_backend.Games.Names.{get_name_ko_from_cache, hgetall}
use gechu_backend.Games.Names.Scan.{dash_suffix, after_last, words, line_end}
use gechu_backend.Games.Names.Resolve.{resolve_name_ko, named}
use gechu_backend.Games.Names.Editions.{
  extract_edition_suffix, dashed_edition, colon_edition, last_words, word_edition,
}
use gechu_backend.Games.Response.{GameDetail, GameListItem, detail_item, build_game_detail}
use gechu_backend.Games.Client.{
  Remote, reply, post_with_auth_retry, checked, get_igdb_client, new_client,
}
use gechu_backend.Games.Client.Search as Requests
use gechu_backend.Games.Cache.{Store, Context, ask, cached_search, cached_game, search_games}
use gechu_backend.Games.Cache.Bulk.{collect, find_cached, add_rows, add_row, get_games_by_ids}
use gechu_backend.Games.Cache.Again.{get_games_by_ids_again}
use gechu_backend.Games.Lists.{list_params}
use gechu_backend.Games.Lists.View.{
  Fields, Validated, Page, game_list, game_list_view, top_10_genre, single_genre,
}
use gechu_backend.Games.Lists.Adults.{ShowsYouth, game_list_view-ShowsYouth, next_page_lost}
use gechu_backend.Tests.Samples.{sample_user}

abbrev pub zelda : RawGame
zelda = record {
  id = some 7;
  name = value "Zelda";
  slug = value "zelda";
  summary = missing;
  storyline = missing;
  alternative_names = missing;
  parent_game = missing;
  first_release_date = missing;
  status = missing;
  cover = missing;
  rating = missing;
  rating_count = missing;
  follows = missing;
  genres = missing;
  platforms = missing;
  keywords = missing;
  age_ratings = missing;
  screenshots = missing;
  videos = missing;
  websites = missing;
  updated_at = missing;
}

-- IGDB knows one game, or refuses every search.
abbrev one_game : Remote RawGame
one_game = record {
  new_token = λ n. some "token";
  answer = λ i token q. reply 200 none (zelda ∷ []);
}

abbrev refusing : Remote RawGame
refusing = record { new_token = λ n. some "token"; answer = λ i token q. reply 429 (some 3) [] }

abbrev pub no_genres : Remote RawNamed
no_genres = record { new_token = λ n. some "token"; answer = λ i token q. reply 200 none [] }

abbrev pub context : Remote RawGame → Context
context remote = record {
  outside = record {
    lower = λ s. s;
    keywords = record { edition_keywords = []; strong_keywords = []; special_single_keywords = [] };
    search = λ s. ok [];
  };
  remote = remote;
  genre_remote = no_genres;
  digest = λ p. 5;
  filters = record { genres = []; tags = []; platforms = [] };
  now = 1000;
}

abbrev zelda_detail : GameDetail
zelda_detail = detail_item 7 "젤다" zelda

abbrev pub empty_store : Store
empty_store = record {
  names = record {
    hashes =
        (
          7,
          record {
            value = record {
              name_ko = some "젤다";
              chosung = some "ㅈㄷ";
              fetched_at = some 900;
              failed_count = none;
              slug = some "zelda";
            };
            until = 5000;
          },
        )
        ∷ [];
    locks = [];
    tasks = [];
  };
  client = none;
  games = [];
  searches = [];
  genre_map = none;
}

abbrev asked_store : Store
asked_store = (get_games_by_ids (context one_game) (7 ∷ []) empty_store).1

first_time :
    Path
      (Result (List GameDetail) × Store)
      (get_games_by_ids (context one_game) (7 ∷ []) empty_store)
      (ok (zelda_detail ∷ []), asked_store)
unfolding get_games_by_ids find_cached cached_game ask get_igdb_client Requests.get_games_by_ids
    new_client Requests.get_chunks chunks post_with_auth_retry checked add_rows add_row
    build_game_detail resolve_name_ko get_name_ko_from_cache hgetall named collect
    extract_edition_suffix dashed_edition dash_suffix starts_with after_last colon_edition words
    last_words word_edition is_space skip line_end
first_time = refl

get_games_by_ids_again_example :
    Path
      (Result (List GameDetail) × Store)
      (get_games_by_ids (context one_game) (7 ∷ []) asked_store)
      (ok (zelda_detail ∷ []), asked_store)
get_games_by_ids_again_example =
    get_games_by_ids_again (context one_game) (7 ∷ []) empty_store asked_store (zelda_detail ∷ [])
      first_time refl

abbrev pub item : ℕ → ℕ → GameListItem
item id age = record {
  id = id;
  slug = none;
  name = none;
  name_ko = "";
  released = none;
  thumbnail_img_url = "";
  rawg_rating = record { is_negative = false; coefficient = 0; places = 2 };
  rawg_ratings_count = 0;
  genres = [];
  platforms = [];
  tags = [];
  esrb_rating = "unknown";
  age_rating_min = age;
}

-- The results of a search for a page of one game: two, of which the first is for adults
abbrev pub two_games : List GameListItem
two_games = item 7 18 ∷ item 8 0 ∷ []

abbrev stocked_store : Store
stocked_store = record empty_store {
  searches = (5, record { value = two_games; until = 2000 }) ∷ [];
}

abbrev youth : Option User
youth = some (record sample_user { is_adult_verified = false })

abbrev fields : Fields
fields = record {
  search = some "zelda";
  ordering = "-rawg_rating";
  genre_ids = none;
  genre_name = none;
  platform_ids = none;
  tag_ids = none;
  before = 0;
  page_size = 1;
}

game_list_view-ShowsYouth_example : ShowsYouth (
    game_list_view
      (λ s. none)
      (context refusing)
      []
      []
      10
      fields
      youth
      (record { words = []; store = stocked_store }))
game_list_view-ShowsYouth_example =
    game_list_view-ShowsYouth (λ s. none) (context refusing) [] [] 10 fields youth
      (record { words = []; store = stocked_store }) refl

abbrev one_a_page : Validated
one_a_page = record {
  query = record {
    search = some "zelda";
    genre_ids = none;
    platform_ids = none;
    tag_ids = none;
    ordering = none;
    before = 0;
    page_size = 1;
  };
  genre_name = none;
}

no_top : top_10_genre one_a_page [] ≡ none
unfolding top_10_genre single_genre
no_top = refl

from_cache :
    Path
      (Result (List GameListItem) × Store)
      (search_games (context refusing) (list_params one_a_page.query) stocked_store)
      (ok two_games, stocked_store)
unfolding search_games cached_search
from_cache = refl

next_page_lost_example :
    (page : Page) × (Path
      (Result Page × Store)
      (game_list (context refusing) [] [] one_a_page youth stocked_store)
      (ok page, stocked_store))
    × (page.has_next ≡ false)
next_page_lost_example =
    next_page_lost (context refusing) [] [] one_a_page youth stocked_store stocked_store two_games
      (item 7 18) refl no_top from_cache refl (inl refl) (omega arith)
