-- ===== src/Games/Autocomplete/Entries.antt =====
-- _enrich_with_igdb_cache of apps/games/views/autocomplete.py: the matches among the games
use gechu_backend.Base.{
  ℕ, zero, suc, ◌+◌, Bool, Option, none, some, String, List, [], ◌∷◌, ◌++◌, map, leb, if◌then◌else◌,
}
use gechu_backend.Base.Dict.{nat_eq}
use gechu_backend.Core.Errors.{Result, ok, err}
use gechu_backend.Games.Text.{starts_with}
use gechu_backend.Games.Raw.{get_or}
use gechu_backend.Games.Autocomplete.{
  GameEntry, Loaded, absent, unreadable, undecodable, no_object, entry, Redis, max_results,
  max_scan_iterations, Match, attribute_error, has_id,
}

-- The matches of the games, and how many were added
pub record Added : Type 0 where
  pub matches : List Match
  pub added : ℕ

module _ (lower : String → String) where
  abbrev pub game_match : GameEntry → String → Match
  game_match game name = record {
    priority = 1;
    id = game.id;
    name = name;
    name_ko = get_or "" game.name_ko;
    thumbnail_img_url = get_or "" game.thumbnail_img_url;
  }

  -- `existing_ids` are the ids of the matches so far.
  abbrev pub enrich_named : String → GameEntry → Option String → Added → Result Added
  enrich_named query_lower game none a = err attribute_error
  enrich_named query_lower game (some name) a = ok (
      if starts_with (lower name) query_lower
      then record { matches = a.matches ++ game_match game name ∷ []; added = a.added + 1 }
      else a)

  abbrev pub enrich_one : String → Loaded → Added → Result Added
  enrich_one query_lower absent a = ok a
  enrich_one query_lower unreadable a = ok a
  enrich_one query_lower undecodable a = ok a
  enrich_one query_lower no_object a = err attribute_error
  enrich_one query_lower (entry game) a =
      if has_id game.id (map (λ m. m.id) a.matches)
      then ok a
      else enrich_named query_lower game (get_or "" game.name) a

  abbrev pub next : Result Added → (Added → Result Added) → Result Added
  next (err e) rest = err e
  next (ok a) rest = rest a

  unfoldable pub enrich_rows : String → List Loaded → Added → Result Added
  enrich_rows query_lower [] a = ok a
  enrich_rows query_lower (row ∷ rows) a =
      next (enrich_one query_lower row a) (enrich_rows query_lower rows)

  abbrev pub go_on : Bool → (Added → Result Added) → Added → Result Added
  go_on is_last rest a = let more = rest a in if is_last then ok a else more

  -- `while iterations < _MAX_SCAN_ITERATIONS and added < _MAX_RESULTS`
  unfoldable pub enrich_from : Redis → String → ℕ → ℕ → Added → Result Added
  enrich_from r query_lower zero n a = ok a
  enrich_from r query_lower (suc left) n a =
      let rest =
        next (enrich_rows query_lower (r.game_pages n).rows a)
          (go_on (r.game_pages n).is_last (enrich_from r query_lower left (n + 1))) in
      if leb max_results a.added then ok a else rest

  unfoldable pub enrich_with_igdb_cache : Redis → String → List Match → Result Added
  enrich_with_igdb_cache r query_lower matches =
      enrich_from r query_lower max_scan_iterations 0 (record { matches = matches; added = 0 })
