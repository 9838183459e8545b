-- ===== src/Recommendations/Upsert.antt =====
-- `_upsert_recommendations` of apps/recommendations/tasks.py: the rows of one user and reason become
-- the candidates, ranked from 1, and rows of an older generation go.
pub mod Rows
pub mod Results
pub mod Earlier
pub mod Others
use gechu_backend.Base.{
  ℕ, ◌+◌, ◌*◌, ◌≡◌, Bool, true, false, not, ◌&&◌, ◌||◌, Option, none, some, List, [], ◌∷◌, ◌++◌,
  filter, ◌==◌, if◌then◌else◌,
}
use gechu_backend.Models.Recommendation.{
  ReasonType, similarity, preference, hybrid, UserRecommendation,
}

abbrev pub recommendation_expire_days : ℕ
recommendation_expire_days = 7

-- One day, in microseconds.
abbrev pub day : ℕ
day = 24 * 60 * 60 * 1000000

abbrev pub reason_eq : ReasonType → Option ReasonType → Bool
reason_eq similarity (some similarity) = true
reason_eq preference (some preference) = true
reason_eq hybrid (some hybrid) = true
reason_eq _ _ = false

-- The lookup of `update_or_create`, over the fields of `unique_user_game_recommendation`.
unfoldable pub is_row : ℕ → ReasonType → ℕ → UserRecommendation → Bool
is_row user reason game r =
    user == r.user_id && (game == r.igdb_game_id && reason_eq reason r.reason)

-- `update_or_create`: the first row that fits is overwritten, and if none fits one is added.
pub update_or_create :
    ℕ → ReasonType → UserRecommendation → List UserRecommendation → List UserRecommendation
update_or_create user reason new [] = new ∷ []
update_or_create user reason new (r ∷ rows) =
    if is_row user reason new.igdb_game_id r
    then new ∷ rows
    else r ∷ update_or_create user reason new rows

abbrev pub new_row : ℕ → ReasonType → ℕ → ℕ → ℕ → ℕ × ℕ → UserRecommendation
new_row user reason generation now rank (game, score) = record {
  user_id = user;
  igdb_game_id = game;
  generation_version = generation;
  score = score;
  rank = rank;
  reason = some reason;
  generated_at = now;
  expires_at = now + recommendation_expire_days * day;
}

-- `for rank, (igdb_game_id, score) in enumerate(candidates, start=1)`
pub upsert_from :
    ℕ → ReasonType → ℕ → ℕ → ℕ → List (ℕ × ℕ) → List UserRecommendation → List UserRecommendation
upsert_from user reason generation now rank [] rows = rows
upsert_from user reason generation now rank (c ∷ candidates) rows =
    upsert_from user reason generation now (rank + 1) candidates
      (update_or_create user reason (new_row user reason generation now rank c) rows)

-- `filter(user_id, reason).exclude(generation_version).delete()`
unfoldable pub is_stale : ℕ → ReasonType → ℕ → UserRecommendation → Bool
is_stale user reason generation r =
    user == r.user_id && reason_eq reason r.reason && not (generation == r.generation_version)

pub upsert_recommendations :
    ℕ → ReasonType → ℕ → ℕ → List (ℕ × ℕ) → List UserRecommendation → List UserRecommendation
upsert_recommendations user reason generation now candidates rows =
    filter (λ r. not (is_stale user reason generation r))
      (upsert_from user reason generation now 1 candidates rows)
