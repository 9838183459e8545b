-- ===== src/Games/Lists/View.antt =====
-- GameListView of apps/games/views/game_list.py, from the query's texts on: the checks of
-- GameListQuerySerializer, the kept search texts, the top ten of a genre, and the pages.
-- `parse_int` is Python's `int` of a text, `none` for ValueError.
use gechu_backend.Base.{
  ℕ, Bool, false, ◌&&◌, ◌||◌, Option, none, some, String, string_eq, List, [], ◌∷◌, map, filter,
  first, take, length, any, elem, ltb, ◌==◌, if◌then◌else◌,
}
use gechu_backend.Base.Int.{ℤ, pos, negsuc}
use gechu_backend.Core.Errors.{
  api, ErrorMessages, invalid_ordering, invalid_query_param, invalid_genre_id, invalid_platform_id,
  invalid_tag_id, Result, ok, err,
}
use gechu_backend.Models.User.{User}
use gechu_backend.Models.Preference.{UserGameAffinity}
use gechu_backend.Accounts.Searches.{save_recent_search_keyword}
use gechu_backend.Games.Cache.{Store, Context}
use gechu_backend.Games.Lists.{GenreRow, Listed, ListQuery, list_games, top_n_by_genre}
use gechu_backend.Games.Lists.Request.{parts_of}
use gechu_backend.Games.Converters.{◌>>=◌}

abbrev allowed_orderings : List String
allowed_orderings =
    "rawg_rating" ∷ "-rawg_rating" ∷ "released" ∷ "-released" ∷ "rawg_added" ∷ "-rawg_added" ∷ []

unfoldable pub validate_ordering : String → Result String
validate_ordering value =
    if any (string_eq value) allowed_orderings then ok value else err (api invalid_ordering)

-- The query's fields as DRF has read them; `before` is page - 1.
pub record Fields : Type 0 where
  pub search : Option String
  pub ordering : String
  pub genre_ids : Option String
  pub genre_name : Option String
  pub platform_ids : Option String
  pub tag_ids : Option String
  pub before : ℕ
  pub page_size : ℕ

-- A query that has passed the checks, with the name of a genre beside it
pub record Validated : Type 0 where
  pub query : ListQuery
  pub genre_name : Option String

module _ (parse_int : String → Option ℤ) where
  abbrev parsed : Option ℤ → Result (List ℤ) → Result (List ℤ)
  parsed none rest = err (api invalid_query_param)
  parsed (some n) rest = rest >>= λ ns. ok (n ∷ ns)

  -- `[int(x) ...]`
  unfoldable pub parse_parts : List String → Result (List ℤ)
  parse_parts [] = ok []
  parse_parts (part ∷ parts) = parsed (parse_int part) (parse_parts parts)

  abbrev parse_int_list : Option String → Result (List ℤ)
  parse_int_list none = ok []
  parse_int_list (some value) = parse_parts (parts_of value)

  -- The ids as natural numbers, if a row has each of them
  unfoldable pub existing_ids : List ℕ → ErrorMessages → List ℤ → Result (List ℕ)
  existing_ids existing message [] = ok []
  existing_ids existing message (negsuc n ∷ ids) = err (api message)
  existing_ids existing message (pos n ∷ ids) =
      let rest = existing_ids existing message ids >>= λ ns. ok (n ∷ ns) in
      if elem n existing then rest else err (api message)

  abbrev some_ids : Option String → List ℕ → Option (List ℕ)
  some_ids none ids = none
  some_ids (some value) ids = some ids

  unfoldable pub validate_model_ids :
      Option String → List ℕ → ErrorMessages → Result (Option (List ℕ))
  validate_model_ids value existing message = parse_int_list value >>= λ ids.
      existing_ids existing message ids >>= λ ns. ok (some_ids value ns)

  unfoldable pub validate_page_size : ℕ → Result ℕ
  validate_page_size value =
      if ltb value 1 || ltb 100 value then err (api invalid_query_param) else ok value

  -- The fields are checked in the order of their declaration, up to the first error.
  unfoldable pub validated_data : Context → Fields → Result Validated
  validated_data ctx f = validate_ordering f.ordering >>= λ ordering.
      validate_model_ids f.genre_ids (map (λ g. g.id) ctx.filters.genres) invalid_genre_id
      >>= λ genre_ids.
          validate_model_ids f.platform_ids (map (λ p. p.id) ctx.filters.platforms)
            invalid_platform_id
          >>= λ platform_ids.
              validate_model_ids f.tag_ids (map (λ t. t.id) ctx.filters.tags) invalid_tag_id
              >>= λ tag_ids. validate_page_size f.page_size >>= λ page_size. ok (record {
                query = record {
                  search = f.search;
                  genre_ids = genre_ids;
                  platform_ids = platform_ids;
                  tag_ids = tag_ids;
                  ordering = some ordering;
                  before = f.before;
                  page_size = page_size;
                };
                genre_name = f.genre_name;
              })

-- A page of the answer; a url for the next or the previous page is there or not.
pub record Page : Type 0 where
  pub results : List Listed
  pub has_next : Bool
  pub has_previous : Bool

abbrev pub page_of : ListQuery → List Listed → Page
page_of q results = record {
  results = take q.page_size results;
  has_next = ltb q.page_size (length results);
  has_previous = ltb 0 q.before;
}

abbrev pub top_page : List Listed → Page
top_page items = record { results = items; has_next = false; has_previous = false }

abbrev pub with_page : (List Listed → Page) → Result (List Listed) × Store → Result Page × Store
with_page f (ok results, s) = (ok (f results), s)
with_page f (err e, s) = (err e, s)

abbrev not_blank : Option String → Option String
not_blank none = none
not_blank (some s) = if string_eq s "" then none else some s

abbrev name_of_genre : Option GenreRow → Option String
name_of_genre none = none
name_of_genre (some g) = not_blank (some g.name)

-- The one genre id of a first page of ten
unfoldable pub single_genre : ListQuery → List GenreRow → Option (List ℕ) → Option String
single_genre q rows none = none
single_genre q rows (some []) = none
single_genre q rows (some (g ∷ h ∷ ids)) = none
single_genre q rows (some (g ∷ [])) =
    if q.before == 0 && q.page_size == 10
    then name_of_genre (first (filter (λ r. g == r.id) rows))
    else none

-- The genre whose top ten is shown, if it is
unfoldable pub top_10_genre : Validated → List GenreRow → Option String
top_10_genre v rows = elim (not_blank v.genre_name) [
  | some name ↦ some name
  | none ↦ single_genre v.query rows v.query.genre_ids
]

module _ (ctx : Context) (affinities : List UserGameAffinity) (genres : List GenreRow) where
  abbrev pub listed : Option String → ListQuery → Option User → Store → Result Page × Store
  listed (some genre_name) q user s =
      with_page top_page (top_n_by_genre ctx affinities genres genre_name 10 "-rawg_rating" user s)
  listed none q user s = with_page (page_of q) (list_games ctx affinities q user s)

  unfoldable pub game_list : Validated → Option User → Store → Result Page × Store
  game_list v user s = listed (top_10_genre v genres) v.query user s

-- The search texts of the user, and the rest
pub record ViewState : Type 0 where
  pub words : List String
  pub store : Store

module _ (parse_int : String → Option ℤ) (ctx : Context) (affinities : List UserGameAffinity)
    (genres : List GenreRow) (max_size : ℕ) where
  abbrev pub in_view : Result Page × Store → List String → Result Page × ViewState
  in_view (r, s) words = (r, record { words = words; store = s })

  abbrev pub after_words :
      Result (Unit {0}) × List String → Validated → Option User → Store → Result Page × ViewState
  after_words (err e, words) v user s = (err e, record { words = words; store = s })
  after_words (ok u, words) v user s = in_view (game_list ctx affinities genres v user s) words

  -- `save_recent_search_keyword` for a user with a search text
  abbrev pub kept_words :
      Option User → Option String → List String → Result (Unit {0}) × List String
  kept_words none word words = (ok tt, words)
  kept_words (some u) none words = (ok tt, words)
  kept_words (some u) (some word) words =
      if string_eq word "" then (ok tt, words) else save_recent_search_keyword max_size u word words

  abbrev pub viewed : Result Validated → Option User → ViewState → Result Page × ViewState
  viewed (err e) user s = (err e, s)
  viewed (ok v) user s = after_words (kept_words user v.query.search s.words) v user s.store

  unfoldable pub game_list_view : Fields → Option User → ViewState → Result Page × ViewState
  game_list_view f user s = viewed (validated_data parse_int ctx f) user s
