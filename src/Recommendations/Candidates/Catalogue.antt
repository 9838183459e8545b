-- ===== src/Recommendations/Candidates/Catalogue.antt =====
-- The search of games that apps/recommendations/tasks.py makes for a user's preferences:
-- search_games of apps/games/igdb/cache.py, as it answers in one state of the cache.
use gechu_backend.Base.{ℕ, length-map, ◌≤◌, ◌≡◌, Option, none, List, map, length, IsDistinct}
use gechu_backend.Core.Errors.{Result, ok, err}
use gechu_backend.Games.Response.{GameListItem}
use gechu_backend.Games.Keys.{limit_of, Params, by_filters}
use gechu_backend.Games.Cache.{Store, Context, search_games}
use gechu_backend.Games.Cache.Answers.{KeepsLimits}
use gechu_backend.Games.Cache.Fit.{FitsAt, ResultFits, search_games-ResultFits}
use gechu_backend.Recommendations.Candidates.{GameSearch}

-- `game["id"] for game in games`
abbrev pub item_ids : Result (List GameListItem) → Result (List ℕ)
item_ids (ok games) = ok (map (λ g. g.id) games)
item_ids (err e) = err e

-- The search as the task makes it
abbrev pub popular_among : Option (List ℕ) → Option (List ℕ) → Option (List ℕ) → ℕ → Params
popular_among genre_ids platform_ids tag_ids limit =
    by_filters none genre_ids platform_ids tag_ids "rating desc" limit 0

abbrev pub search_ids :
    Context → Store → Option (List ℕ) → Option (List ℕ) → Option (List ℕ) → ℕ → Result (List ℕ)
search_ids ctx s genre_ids platform_ids tag_ids limit =
    item_ids (search_games ctx (popular_among genre_ids platform_ids tag_ids limit) s).0

pub item_ids-ResultFits :
    (p : Params) (r : Result (List GameListItem)) (ids : List ℕ)
    → ResultFits p r
    → item_ids r ≡ ok ids
    → (length ids ≤ limit_of p) × IsDistinct ids
item_ids-ResultFits p (err e) ids fit h = cc
item_ids-ResultFits p (ok games) ids fit h =
    let same : map (λ g. g.id) games ≡ ids = cc in
    rw (← same) (rw (length-map (λ g. g.id) games) fit.0, fit.1)

-- What the tasks rely on holds of it, while what is kept by the keys of such searches fits them.
abbrev pub game_search :
    (ctx : Context)
    → KeepsLimits ctx.remote
    → (s : Store)
    → ((genre_ids platform_ids tag_ids : Option (List ℕ)) (limit : ℕ)
        → FitsAt ctx.digest (popular_among genre_ids platform_ids tag_ids limit) s)
    → GameSearch
game_search ctx keeps s fits = record {
  search_games = search_ids ctx s;
  search_games_fit = λ genre_ids platform_ids tag_ids limit ids.
      let p = popular_among genre_ids platform_ids tag_ids limit in
      item_ids-ResultFits p (search_games ctx p s).0 ids
        (search_games-ResultFits ctx keeps p s (fits genre_ids platform_ids tag_ids limit));
}
