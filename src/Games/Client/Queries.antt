-- ===== src/Games/Client/Queries.antt =====
-- The queries of apps/games/igdb/client.py, and their text but for the blank before get_game's `where`.
use gechu_backend.Base.{ℕ, Option, none, some, String, List, [], ◌∷◌, map, if◌then◌else◌}
use gechu_backend.Games.Text.{is_blank, str, ◌+++◌}

-- A part of a `where` clause
pub data Condition : Type 0 where
  rating_count_from rating_above released_from : ℕ → Condition
  genres_in platforms_in keywords_in themes_in game_modes_in : List ℕ → Condition
  id_is : ℕ → Condition
  id_in : List ℕ → Condition

pub data Endpoint : Type 0 where
  games genres platforms keywords : Endpoint

pub record Query : Type 0 where
  pub endpoint : Endpoint
  pub search : Option String
  pub fields : String
  pub conditions : List Condition
  pub sort : Option String
  pub limit : Option ℕ
  pub offset : Option ℕ

-- `sep.join(parts)`
unfoldable pub join : String → List String → String
join sep [] = ""
join sep (s ∷ []) = s
join sep (s ∷ t ∷ parts) = s +++ sep +++ join sep (t ∷ parts)

unfoldable pub ids_str : List ℕ → String
unfolding join
ids_str ids = "(" +++ join "," (map str ids) +++ ")"

unfoldable pub condition_text : Condition → String
condition_text (rating_count_from n) = "rating_count >= " +++ str n
condition_text (rating_above n) = "rating > " +++ str n
condition_text (released_from n) = "first_release_date >= " +++ str n
condition_text (genres_in ids) = "genres = " +++ ids_str ids
condition_text (platforms_in ids) = "platforms = " +++ ids_str ids
condition_text (keywords_in ids) = "keywords = " +++ ids_str ids
condition_text (themes_in ids) = "themes = " +++ ids_str ids
condition_text (game_modes_in ids) = "game_modes = " +++ ids_str ids
condition_text (id_is id) = "id = " +++ str id
condition_text (id_in ids) = "id = " +++ ids_str ids

abbrev pub clause : String → Option String → String
clause word none = ""
clause word (some s) = word +++ " " +++ s +++ ";"

abbrev pub number_clause : String → Option ℕ → String
number_clause word none = ""
number_clause word (some n) = word +++ " " +++ str n +++ ";"

abbrev pub search_clause : Option String → String
search_clause none = ""
search_clause (some s) = "search \"" +++ s +++ "\";"

abbrev pub where_clause : String → String
where_clause s = if is_blank s then "" else "where " +++ s +++ ";"

unfoldable pub text_of_query : Query → String
text_of_query q =
    search_clause q.search
    +++ "fields "
    +++ q.fields
    +++ ";"
    +++ where_clause (join " & " (map condition_text q.conditions))
    +++ clause "sort" q.sort
    +++ number_clause "limit" q.limit
    +++ number_clause "offset" q.offset
