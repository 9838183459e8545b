-- ===== src/Games/Keys.antt =====
-- The arguments that apps/games/igdb/cache.py keeps a search by, as the dict that it digests.
use gechu_backend.Base.{ℕ, ◌≡◌, refl, sym, ◌∙◌, ap, Option, none, some, String, List, [], ◌∷◌}
use gechu_backend.Base.Dict.{Dict, lookup}
use gechu_backend.Base.Keys.{text_key}

-- The arguments of search_games and of search_games_by_igdb_genre_id
pub data Params : Type 0 where
  by_filters :
      Option String → Option (List ℕ) → Option (List ℕ) → Option (List ℕ) → String → ℕ → ℕ → Params
  by_genre : ℕ → String → ℕ → ℕ → ℕ → ℕ → Params

-- What the arguments are in JSON
pub data Json : Type 0 where
  json_null : Json
  json_number : ℕ → Json
  json_text : String → Json
  json_list : List ℕ → Json

abbrev pub or_null : {A : Type 0} → (A → Json) → Option A → Json
or_null json none = json_null
or_null json (some x) = json x

-- `params`
abbrev pub params_of : Params → Dict String Json
params_of (by_filters query genre_ids platform_ids tag_ids sort limit offset) =
    ("query", or_null json_text query)
    ∷ ("genre_ids", or_null json_list genre_ids)
    ∷ ("platform_ids", or_null json_list platform_ids)
    ∷ ("tag_ids", or_null json_list tag_ids)
    ∷ ("sort", json_text sort)
    ∷ ("limit", json_number limit)
    ∷ ("offset", json_number offset)
    ∷ []
params_of (by_genre igdb_genre_id sort limit min_count min_rate min_date) =
    ("igdb_genre_id", json_number igdb_genre_id)
    ∷ ("sort", json_text sort)
    ∷ ("limit", json_number limit)
    ∷ ("min_rating_count", json_number min_count)
    ∷ ("min_rating", json_number min_rate)
    ∷ ("min_release_date", json_number min_date)
    ∷ []

abbrev pub limit_of : Params → ℕ
limit_of (by_filters query genre_ids platform_ids tag_ids sort limit offset) = limit
limit_of (by_genre igdb_genre_id sort limit min_count min_rate min_date) = limit

abbrev pub number_or_zero : Option Json → ℕ
number_or_zero (some (json_number n)) = n
number_or_zero (some json_null) = 0
number_or_zero (some (json_text s)) = 0
number_or_zero (some (json_list l)) = 0
number_or_zero none = 0

abbrev pub limit_in : Dict String Json → ℕ
limit_in params = number_or_zero (lookup "limit" params)

limit_in-params_of : (p : Params) → limit_in (params_of p) ≡ limit_of p
limit_in-params_of (by_filters query genre_ids platform_ids tag_ids sort limit offset) = refl
limit_in-params_of (by_genre igdb_genre_id sort limit min_count min_rate min_date) = refl

-- The dict tells the limit.
pub limit_of-params_of : (p p' : Params) → params_of p ≡ params_of p' → limit_of p ≡ limit_of p'
limit_of-params_of p p' same = sym (limit_in-params_of p) ∙ ap limit_in same ∙ limit_in-params_of p'
