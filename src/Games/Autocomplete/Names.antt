-- ===== src/Games/Autocomplete/Names.antt =====
-- _search of apps/games/views/autocomplete.py up to its scans of the names
use gechu_backend.Base.{
  ℕ, zero, suc, ◌+◌, ◌*◌, Bool, false, not, ◌&&◌, ◌||◌, Option, none, some, String, List, [], ◌∷◌,
  ◌++◌, length, leb, ◌==◌, if◌then◌else◌,
}
use gechu_backend.Base.Dict.{nat_eq}
use gechu_backend.Core.Errors.{other, Result, ok, err}
use gechu_backend.Games.Text.{is_blank, starts_with}
use gechu_backend.Games.Raw.{Field, missing, null, value}
use gechu_backend.Games.Chosung.{get_chosung_normalized}
use gechu_backend.Games.Names.{NameHash, name_or_blank}
use gechu_backend.Games.Autocomplete.{
  Loaded, absent, unreadable, undecodable, no_object, entry, Redis, max_results, Match,
  attribute_error,
}

-- `name_ko` before initial consonants
unfoldable pub korean_priority : String → String → String → String → ℕ
korean_priority query chosung_query name_ko chosung =
    if not (is_blank name_ko) && starts_with name_ko query
    then 3
    else if not (is_blank chosung_query) && starts_with chosung chosung_query
    then 2
    else 0

abbrev pub name_match : ℕ → ℕ → String → List Match
name_match zero id name_ko = []
name_match (suc n) id name_ko =
    record {
      priority = suc n;
      id = some id;
      name = "";
      name_ko = some name_ko;
      thumbnail_img_url = some "";
    }
    ∷ []

module _ (lower : String → String) where
  -- `game.get("name", "").lower().startswith(query_lower)`
  abbrev pub is_named : String → Field String → Result Bool
  is_named query_lower missing = ok (starts_with (lower "") query_lower)
  is_named query_lower null = err attribute_error
  is_named query_lower (value name) = ok (starts_with (lower name) query_lower)

  abbrev pub is_english : String → Loaded → Result Bool
  is_english query_lower absent = ok false
  is_english query_lower unreadable = ok false
  is_english query_lower undecodable = err (other "UnicodeDecodeError")
  is_english query_lower no_object = err attribute_error
  is_english query_lower (entry game) = is_named query_lower game.name

  abbrev pub with_english : ℕ → Result Bool → Result ℕ
  with_english priority (err e) = err e
  with_english priority (ok english) = ok (if english && priority == 0 then 1 else priority)

  unfoldable pub priority_of : Redis → String → ℕ → String → String → Result ℕ
  priority_of r query id name_ko chosung =
      let priority = korean_priority query (get_chosung_normalized query) name_ko chosung in
      if priority == 0 || is_blank name_ko
      then with_english priority (is_english (lower query) (r.game id))
      else ok priority

  abbrev pub matched : Result ℕ → ℕ → String → Result (List Match)
  matched (err e) id name_ko = err e
  matched (ok priority) id name_ko = ok (name_match priority id name_ko)

  abbrev pub match_fetched : Redis → String → Option ℕ → ℕ → NameHash → Result (List Match)
  match_fetched r query none id h = ok []
  match_fetched r query (some fetched_at) id h =
      let name_ko = name_or_blank h.name_ko in
      matched (priority_of r query id name_ko (name_or_blank h.chosung)) id name_ko

  abbrev pub match_row : Redis → String → Option ℕ × Option NameHash → Result (List Match)
  match_row r query (some id, some h) = match_fetched r query h.fetched_at id h
  match_row r query (none, h) = ok []
  match_row r query (some id, none) = ok []

  abbrev pub append_to :
      Result (List Match) → List Match → (List Match → Result (List Match)) → Result (List Match)
  append_to (err e) matches rest = err e
  append_to (ok found) matches rest = rest (matches ++ found)

  -- The loop over the rows of one page
  unfoldable pub match_rows :
      Redis → String → List (Option ℕ × Option NameHash) → List Match → Result (List Match)
  match_rows r query [] matches = ok matches
  match_rows r query (row ∷ rows) matches =
      append_to (match_row r query row) matches (match_rows r query rows)

  abbrev pub unless_done :
      Bool → Result (List Match) → (List Match → Result (List Match)) → Result (List Match)
  unless_done is_last (err e) rest = err e
  unless_done is_last (ok matches) rest =
      let more = rest matches in
      if is_last || leb (max_results * 5) (length matches) then ok matches else more

  -- The loop over the answers of SCAN, with the iterations that are left
  unfoldable pub scan_names : Redis → String → ℕ → ℕ → List Match → Result (List Match)
  scan_names r query zero n matches = ok matches
  scan_names r query (suc left) n matches =
      unless_done (r.name_pages n).is_last (match_rows r query (r.name_pages n).rows matches)
        (scan_names r query left (n + 1))
