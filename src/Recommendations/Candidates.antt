-- ===== src/Recommendations/Candidates.antt =====
-- The candidates of one user's refresh in apps/recommendations/tasks.py: the seeds, the games that
-- are similar to them, and the popular games among the user's preferences.
pub mod Best
pub mod Results
pub mod Catalogue
use gechu_backend.Base.{
  ℕ, zero, suc, ◌+◌, ◌-◌, ◌*◌, ◌/◌, ◌%◌, ◌≤◌, ◌<◌, ◌≡◌, Bool, true, false, not, ◌&&◌, ◌||◌, Option,
  none, some, List, [], ◌∷◌, ◌++◌, map, filter, take, first, length, elem, IsDistinct, leb, ltb,
  ◌==◌, if◌then◌else◌,
}
use gechu_backend.Base.Dict.{Dict, nat_eq, lookup, insert}
use gechu_backend.Base.Sort.{sort_by, descending}
use gechu_backend.Base.Round.{round_half_even}
use gechu_backend.Core.Errors.{Result, ok, err}
use gechu_backend.Models.Interaction.{InteractionLog}
use gechu_backend.Models.Preference.{UserPreference}
use gechu_backend.Models.Recommendation.{GameSimilarity}
use gechu_backend.Recommendations.Pairs.{names_game}

abbrev pub max_seed_games : ℕ
max_seed_games = 20

abbrev pub max_recent_log_scan : ℕ
max_recent_log_scan = 200

abbrev pub max_recommendations : ℕ
max_recommendations = 50

-- `igdb_cache.search_games` as the task calls it, sorted by rating: the ids of at most `limit`
-- games, each once, or an error of IGDB.
pub record GameSearch : Type 0 where
  pub search_games : Option (List ℕ) → Option (List ℕ) → Option (List ℕ) → ℕ → Result (List ℕ)
  pub search_games_fit :
      (genres platforms tags : Option (List ℕ)) (limit : ℕ) (ids : List ℕ)
      → search_games genres platforms tags limit ≡ ok ids
      → (length ids ≤ limit) × IsDistinct ids

-- `ids or None`
abbrev pub or_none : List ℕ → Option (List ℕ)
or_none [] = none
or_none (x ∷ xs) = some (x ∷ xs)

abbrev pub is_empty : List ℕ → Bool
is_empty [] = true
is_empty (x ∷ xs) = false

-- `UserPreference.objects.get(user_id=...)`, or `none` for `DoesNotExist`
abbrev pub preference_of : ℕ → List UserPreference → Option UserPreference
preference_of user prefs = first (filter (λ p. user == p.user_id) prefs)

module _ (games : GameSearch) where
  -- What both preference collectors share: no search if nothing is preferred.
  unfoldable pub search_preferred : Option UserPreference → ℕ → Result (List ℕ)
  search_preferred none limit = ok []
  search_preferred (some p) limit =
      if is_empty p.genre_ids && is_empty p.platform_ids && is_empty p.tag_ids
      then ok []
      else games.search_games (or_none p.genre_ids) (or_none p.platform_ids) (or_none p.tag_ids)
          limit

  unfoldable pub collect_preference_seed_game_ids : ℕ → List UserPreference → Result (List ℕ)
  collect_preference_seed_game_ids user prefs =
      search_preferred (preference_of user prefs) max_seed_games

abbrev pub optional_eq : Option ℕ → Option ℕ → Bool
optional_eq none none = true
optional_eq (some a) (some b) = a == b
optional_eq _ _ = false

abbrev pub seen : Option ℕ → List (Option ℕ) → Bool
seen o [] = false
seen o (p ∷ ps) = optional_eq o p || seen o ps

-- `dict.fromkeys(ids)`: the first of each, in order
unfoldable pub from_keys : List (Option ℕ) → List (Option ℕ) → List (Option ℕ)
from_keys keys [] = keys
from_keys keys (o ∷ ids) = from_keys (if seen o keys then keys else keys ++ o ∷ []) ids

-- `[gid for gid in ... if gid is not None]`
unfoldable pub not_none : List (Option ℕ) → List ℕ
not_none [] = []
not_none (none ∷ ids) = not_none ids
not_none (some g ∷ ids) = g ∷ not_none ids

unfoldable pub recent_game_ids : ℕ → List InteractionLog → List (Option ℕ)
recent_game_ids user logs =
    let rows = filter (λ l. user == l.user_id && names_game l) logs in
    take max_recent_log_scan
      (map (λ l. l.igdb_game_id) (sort_by (descending (λ l. l.created_at)) rows))

unfoldable pub recent_seed_game_ids : ℕ → List InteractionLog → List ℕ
recent_seed_game_ids user logs =
    take max_seed_games (not_none (from_keys [] (recent_game_ids user logs)))

unfoldable pub collect_seed_game_ids :
    GameSearch → ℕ → List InteractionLog → List UserPreference → Result (List ℕ)
collect_seed_game_ids games user logs prefs =
    let seeds = recent_seed_game_ids user logs in
    if is_empty seeds then collect_preference_seed_game_ids games user prefs else ok seeds

-- `.values("igdb_similar_game_id").annotate(score=Max("score"))`
abbrev pub larger : Option ℕ → ℕ → ℕ
larger none score = score
larger (some old) score = if ltb old score then score else old

pub max_scores : List GameSimilarity → Dict ℕ ℕ → Dict ℕ ℕ
max_scores [] best = best
max_scores (r ∷ rows) best =
    max_scores rows
      (insert r.igdb_similar_game_id (larger (lookup r.igdb_similar_game_id best) r.score) best)

abbrev pub from_seeds : List ℕ → GameSimilarity → Bool
from_seeds seeds r = elem r.igdb_game_id seeds && not (elem r.igdb_similar_game_id seeds)

abbrev pub candidate_score : ℕ × ℕ → ℕ
candidate_score c = c.1

pub build_similarity_candidates : List ℕ → List GameSimilarity → List (ℕ × ℕ)
build_similarity_candidates seeds similarities =
    if is_empty seeds
    then []
    else take max_recommendations (
        sort_by (descending candidate_score)
          (max_scores (filter (from_seeds seeds) similarities) []))

-- `Decimal(str(round(1.0 - (i / total), 4)))`, in units of 0.0001
unfoldable pub rank_score : ℕ → ℕ → ℕ
rank_score i total = round_half_even (10000 * (total - i)) total

unfoldable pub scored_from : ℕ → ℕ → List ℕ → List (ℕ × ℕ)
scored_from i total [] = []
scored_from i total (g ∷ games) = (g, rank_score i total) ∷ scored_from (i + 1) total games

abbrev pub scored : Result (List ℕ) → Result (List (ℕ × ℕ))
scored (ok games) = ok (scored_from 0 (length games) games)
scored (err e) = err e

unfoldable pub collect_preference_candidates :
    GameSearch → ℕ → List UserPreference → Result (List (ℕ × ℕ))
collect_preference_candidates games user prefs =
    scored (search_preferred games (preference_of user prefs) max_recommendations)
