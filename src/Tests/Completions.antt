-- ===== src/Tests/Completions.antt =====
-- The autocompletion at concrete inputs.
use gechu_backend.Base.{◌≡◌, ◌≤◌, refl, true, none, some, List, [], ◌∷◌, ◌++◌, length, Elem}
use gechu_backend.Core.Errors.{ok}
use gechu_backend.Games.Text.{starts_with}
use gechu_backend.Games.Raw.{missing, value}
use gechu_backend.Games.Chosung.{
  get_chosung_normalized, get_chosung, initial, get_elem, remove_spaces,
}
use gechu_backend.Games.Autocomplete.{
  Redis, Match, Suggestion, entry, absent, max_results, max_scan_iterations,
}
use gechu_backend.Games.Autocomplete.Names.{scan_names, match_rows, priority_of, korean_priority}
use gechu_backend.Games.Autocomplete.Entries.{
  Added, enrich_with_igdb_cache, enrich_from, enrich_rows,
}
use gechu_backend.Games.Autocomplete.View.{search}
use gechu_backend.Games.Autocomplete.Results.{AreOnce, IsShown, search-IsShown}

-- A game with a Korean name, and one that is known by its English name
abbrev redis : Redis
redis = record {
  name_pages = λ n. record {
    rows =
        (
          some 7,
          some (record {
            name_ko = some "젤다";
            chosung = some "ㅈㄷ";
            fetched_at = some 900;
            failed_count = none;
            slug = some "zelda";
          }),
        )
        ∷ [];
    is_last = true;
  };
  game_pages = λ n. record {
    rows =
        entry (record {
          id = some 9;
          name = value "ㅈㄷ";
          name_ko = missing;
          thumbnail_img_url = missing;
        })
        ∷ absent
        ∷ [];
    is_last = true;
  };
  game = λ id. absent;
}

abbrev by_name : List Match
by_name =
    record {
      priority = 2;
      id = some 7;
      name = "";
      name_ko = some "젤다";
      thumbnail_img_url = some "";
    }
    ∷ []

abbrev gathered : Added
gathered = record {
  matches =
      by_name
      ++ record {
        priority = 1;
        id = some 9;
        name = "ㅈㄷ";
        name_ko = some "";
        thumbnail_img_url = some "";
      }
        ∷ [];
  added = 1;
}

scanned : scan_names (λ s. s) redis "ㅈㄷ" max_scan_iterations 0 [] ≡ ok by_name
unfolding scan_names match_rows priority_of korean_priority get_chosung_normalized get_chosung
    initial get_elem remove_spaces starts_with
scanned = refl

enriched_with : enrich_with_igdb_cache (λ s. s) redis "ㅈㄷ" by_name ≡ ok gathered
unfolding enrich_with_igdb_cache enrich_from enrich_rows starts_with
enriched_with = refl

search-IsShown_example :
    (results : List Suggestion) × (search (λ s. s) redis "ㅈㄷ" ≡ ok results)
    × (length results ≤ max_results)
    × AreOnce results
    × ((m : Match) → Elem m gathered.matches → IsShown max_results results m)
search-IsShown_example = search-IsShown (λ s. s) redis "ㅈㄷ" by_name gathered scanned enriched_with
