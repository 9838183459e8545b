-- ===== src/Games/Autocomplete/View.antt =====
-- autocomplete_games of apps/games/views/autocomplete.py, and the results of _search
use gechu_backend.Base.{
  ℕ, zero, suc, ◌+◌, true, false, Option, none, some, String, List, [], ◌∷◌, if◌then◌else◌,
}
use gechu_backend.Base.Dict.{Dict, nat_eq, lookup, insert}
use gechu_backend.Base.Sort.{sort_by, descending}
use gechu_backend.Core.Errors.{Result, ok, err}
use gechu_backend.Games.Text.{is_blank, strip}
use gechu_backend.Games.Names.{Until, alive}
use gechu_backend.Games.Autocomplete.{
  Redis, max_results, max_scan_iterations, Match, Suggestion, has_id,
}
use gechu_backend.Games.Autocomplete.Names.{scan_names}
use gechu_backend.Games.Autocomplete.Entries.{Added, enrich_with_igdb_cache}

abbrev pub suggestion : Match → Suggestion
suggestion m = record {
  id = m.id;
  name = m.name;
  name_ko = m.name_ko;
  thumbnail_img_url = m.thumbnail_img_url;
}

-- The loop that leaves repeated ids out, with room for so many results
unfoldable pub results_of : ℕ → List (Option ℕ) → List Match → List Suggestion
results_of zero seen_ids ms = []
results_of (suc room) seen_ids [] = []
results_of (suc room) seen_ids (m ∷ ms) = elim (has_id m.id seen_ids) [
  | true ↦ results_of (suc room) seen_ids ms
  | false ↦ suggestion m ∷ results_of room (m.id ∷ seen_ids) ms
]

module _ (lower : String → String) where
  abbrev pub completed : Result Added → Result (List Suggestion)
  completed (err e) = err e
  completed (ok a) =
      ok (results_of max_results [] (sort_by (descending (λ m. m.priority)) a.matches))

  abbrev pub enriched : Redis → String → Result (List Match) → Result (List Suggestion)
  enriched r query (err e) = err e
  enriched r query (ok matches) = completed (enrich_with_igdb_cache lower r (lower query) matches)

  unfoldable pub search : Redis → String → Result (List Suggestion)
  search r query = enriched r query (scan_names lower r query max_scan_iterations 0 [])

-- The kept results, by the digest of the text
abbrev pub Completions : Type 0
Completions = Dict ℕ (Until (List Suggestion))

abbrev pub autocomplete_ttl : ℕ
autocomplete_ttl = 60

module _ (lower : String → String) (digest : String → ℕ) (now : ℕ) where
  abbrev pub keep :
      ℕ → Result (List Suggestion) → Completions → Result (List Suggestion) × Completions
  keep key (err e) kept = (err e, kept)
  keep key (ok results) kept =
      (ok results, insert key (record { value = results; until = now + autocomplete_ttl }) kept)

  abbrev pub kept_or :
      Option (List Suggestion)
      → ℕ
      → Redis
      → String
      → Completions
      → Result (List Suggestion) × Completions
  kept_or (some results) key r query kept = (ok results, kept)
  kept_or none key r query kept = keep key (search lower r query) kept

  -- `q` is the text of the request.
  unfoldable pub autocomplete_games :
      Redis → String → Completions → Result (List Suggestion) × Completions
  autocomplete_games r q kept =
      let query = strip q in
      let key = digest query in
      if is_blank query
      then (ok [], kept)
      else kept_or (alive now (lookup key kept)) key r query kept
