-- ===== src/Games/Lists.antt =====
-- apps/games/services: the lists of games and the details that a user is shown.
pub mod Request
pub mod View
pub mod Adults
use gechu_backend.Base.{
  ℕ, zero, suc, ◌+◌, ◌-◌, ◌*◌, Bool, true, false, not, ◌&&◌, ◌||◌, Option, none, some, String,
  string_eq, List, [], ◌∷◌, ◌++◌, map, filter, first, take, elem, ltb, leb, ◌==◌, if◌then◌else◌,
}
use gechu_backend.Base.Dict.{Dict, nat_eq, lookup, insert}
use gechu_backend.Base.Sort.{sort_by, descending, ascending}
use gechu_backend.Core.Errors.{Error, api, adult_verification_required, Result, ok, err}
use gechu_backend.Models.User.{User}
use gechu_backend.Models.Preference.{UserGameAffinity}
use gechu_backend.Models.Recommendation.{GameSimilarity}
use gechu_backend.Games.Response.{
  GameListItem, GameDetail, SimilarGameItem, build_similar_game_item,
}
use gechu_backend.Games.Keys.{Params, by_filters, by_genre}
use gechu_backend.Games.Cache.{Store, Context, search_games, get_game_detail}
use gechu_backend.Games.Cache.Bulk.{get_games_by_ids}

abbrev pub age_rating_limit : ℕ
age_rating_limit = 18

-- `_ORDERING_MAP.get(ordering, "rating desc")`
unfoldable pub igdb_sort_of : String → String
igdb_sort_of ordering =
    if string_eq ordering "rawg_rating"
    then "rating asc"
    else if string_eq ordering "-rawg_rating"
    then "rating desc"
    else if string_eq ordering "released"
    then "first_release_date asc"
    else if string_eq ordering "-released"
    then "first_release_date desc"
    else if string_eq ordering "rawg_added"
    then "follows asc"
    else if string_eq ordering "-rawg_added"
    then "follows desc"
    else "rating desc"

-- A user, if one is authenticated, who has passed the adult verification once
abbrev pub is_adult : Option User → Bool
is_adult none = false
is_adult (some u) = u.is_adult_verified

-- An item with its `is_saved`
pub record Listed : Type 0 where
  pub game : GameListItem
  pub is_saved : Bool

unfoldable pub filter_adult_games : Option User → List Listed → List Listed
filter_adult_games user results =
    if is_adult user
    then results
    else filter (λ g. ltb g.game.age_rating_min age_rating_limit) results

-- `{affinity.igdb_game_id: affinity.is_saved ...}` of the user's affinities to some games
unfoldable pub affinity_map : ℕ → List ℕ → List UserGameAffinity → Dict ℕ Bool → Dict ℕ Bool
affinity_map user games [] d = d
affinity_map user games (a ∷ rows) d = affinity_map user games rows (
    if user == a.user_id && elem a.igdb_game_id games
    then insert a.igdb_game_id a.is_saved d
    else d)

abbrev pub or_false : Option Bool → Bool
or_false none = false
or_false (some b) = b

unfoldable pub saved_of : Option User → List ℕ → List UserGameAffinity → ℕ → Bool
saved_of none games rows id = false
saved_of (some u) games rows id = or_false (lookup id (affinity_map u.id games rows []))

unfoldable pub attach_is_saved :
    Option User → List UserGameAffinity → List GameListItem → List Listed
attach_is_saved user rows results =
    let games = map (λ g. g.id) results in
    map (λ g. record { game = g; is_saved = saved_of user games rows g.id }) results

abbrev pub shown :
    Option User
    → List UserGameAffinity
    → Result (List GameListItem) × Store
    → Result (List Listed) × Store
shown user rows (err e, s) = (err e, s)
shown user rows (ok results, s) =
    (ok (filter_adult_games user (attach_is_saved user rows results)), s)

-- The arguments of list_games; `before` is the number of the pages before this one, page - 1.
pub record ListQuery : Type 0 where
  pub search : Option String
  pub genre_ids : Option (List ℕ)
  pub platform_ids : Option (List ℕ)
  pub tag_ids : Option (List ℕ)
  pub ordering : Option String
  pub before : ℕ
  pub page_size : ℕ

-- `ordering or "-rawg_rating"`
abbrev pub ordering_or : Option String → String
ordering_or none = "-rawg_rating"
ordering_or (some o) = if string_eq o "" then "-rawg_rating" else o

abbrev pub list_params : ListQuery → Params
list_params q =
    by_filters q.search q.genre_ids q.platform_ids q.tag_ids (igdb_sort_of (ordering_or q.ordering))
      (q.page_size + 1) (q.before * q.page_size)

-- A Genre row
pub record GenreRow : Type 0 where
  pub id : ℕ
  pub name : String
  pub igdb_id : Option ℕ

module _ (ctx : Context) (affinities : List UserGameAffinity) where
  unfoldable pub list_games : ListQuery → Option User → Store → Result (List Listed) × Store
  list_games q user s = shown user affinities (search_games ctx (list_params q) s)

  abbrev pub top_of_id : Option ℕ → ℕ → String → Option User → Store → Result (List Listed) × Store
  top_of_id none top_n sort user s = (ok [], s)
  top_of_id (some zero) top_n sort user s = (ok [], s)
  top_of_id (some (suc n)) top_n sort user s =
      shown user affinities
        (search_games ctx (by_genre (suc n) (igdb_sort_of sort) top_n 100 70 1514764800) s)

  abbrev pub top_of :
      Option GenreRow → ℕ → String → Option User → Store → Result (List Listed) × Store
  top_of none top_n sort user s = (ok [], s)
  top_of (some g) top_n sort user s = top_of_id g.igdb_id top_n sort user s

  -- The genres as the table has them
  unfoldable pub top_n_by_genre :
      List GenreRow → String → ℕ → String → Option User → Store → Result (List Listed) × Store
  top_n_by_genre rows genre_name top_n sort user s =
      top_of (first (filter (λ g. string_eq genre_name g.name) rows)) top_n sort user s

  -- A detail with its `is_saved`
  abbrev pub detail_shown :
      Option User → Result GameDetail × Store → Result (GameDetail × Bool) × Store
  detail_shown user (err e, s) = (err e, s)
  detail_shown user (ok game, s) =
      if leb age_rating_limit game.age_rating_min && not (is_adult user)
      then (err (api adult_verification_required), s)
      else (ok (game, saved_of user (game.id ∷ []) affinities game.id), s)

  unfoldable pub detail_game : ℕ → Option User → Store → Result (GameDetail × Bool) × Store
  detail_game game_id user s = detail_shown user (get_game_detail ctx game_id s)

abbrev pub score_of : Option ℕ → ℕ
score_of none = 0
score_of (some score) = score

abbrev pub with_scores :
    Dict ℕ ℕ → Result (List GameDetail) × Store → Result (List SimilarGameItem) × Store
with_scores scores (err e, s) = (err e, s)
with_scores scores (ok games, s) =
    (ok (map (λ g. build_similar_game_item g (score_of (lookup g.id scores))) games), s)

-- `{s[0]: float(s[1]) for s in similarities}`
unfoldable pub score_map : List GameSimilarity → Dict ℕ ℕ → Dict ℕ ℕ
score_map [] d = d
score_map (r ∷ rows) d = score_map rows (insert r.igdb_similar_game_id r.score d)

unfoldable pub similar_rows : ℕ → ℕ → List GameSimilarity → List GameSimilarity
similar_rows game_id limit rows =
    take limit (sort_by (descending (λ r. r.score)) (filter (λ r. game_id == r.igdb_game_id) rows))

-- The scores in units of 0.0001
unfoldable pub similar_game :
    Context → List GameSimilarity → ℕ → ℕ → Store → Result (List SimilarGameItem) × Store
similar_game ctx similarities game_id limit s =
    let rows = similar_rows game_id limit similarities in
    with_scores (score_map rows [])
      (get_games_by_ids ctx (map (λ r. r.igdb_similar_game_id) rows) s)
