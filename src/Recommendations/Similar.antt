-- ===== src/Recommendations/Similar.antt =====
-- `_replace_game_similarities` of apps/recommendations/tasks.py: the best similar games of each
-- game replace the whole table.
pub mod Groups
pub mod Unique
pub mod Top
pub mod Results
use gechu_backend.Base.{
  ℕ, ◌≡◌, Bool, true, false, not, ◌&&◌, List, [], ◌∷◌, ◌++◌, map, take, any, length, ◌==◌,
  if◌then◌else◌,
}
use gechu_backend.Base.Dict.{Dict, nat_eq, insert, get_or}
use gechu_backend.Base.Sort.{sort_by, descending}
use gechu_backend.Core.Errors.{integrity_error}
use gechu_backend.Core.Exec.{Exec, pure, modify, raise_if, atomic, ◌>>=◌, ◌>>◌}
use gechu_backend.Models.{Db}
use gechu_backend.Models.Recommendation.{GameSimilarity}

abbrev pub max_similar_per_game : ℕ
max_similar_per_game = 50

-- `top_per_game[game_id].append((similar_game_id, score))`
pub group_by_game : Dict (ℕ × ℕ) ℕ → Dict ℕ (List (ℕ × ℕ)) → Dict ℕ (List (ℕ × ℕ))
group_by_game [] top = top
group_by_game (((game, similar), score) ∷ pairs) top =
    group_by_game pairs (insert game (get_or game top [] ++ (similar, score) ∷ []) top)

abbrev pub score_of : ℕ × ℕ → ℕ
score_of item = item.1

-- `sorted(similars, key=lambda item: item[1], reverse=True)[:MAX_SIMILAR_PER_GAME]`
pub ranked_similars : List (ℕ × ℕ) → List (ℕ × ℕ)
ranked_similars similars = take max_similar_per_game (sort_by (descending score_of) similars)

abbrev pub similarity_row : ℕ → ℕ × ℕ → GameSimilarity
similarity_row game (similar, score) = record {
  igdb_game_id = game;
  igdb_similar_game_id = similar;
  score = score;
}

pub similarity_records : Dict ℕ (List (ℕ × ℕ)) → List GameSimilarity
similarity_records [] = []
similarity_records ((game, similars) ∷ top) =
    map (similarity_row game) (ranked_similars similars) ++ similarity_records top

-- The constraint `unique_game_similarity_pair`.
abbrev pub same_pair : GameSimilarity → GameSimilarity → Bool
same_pair r s = r.igdb_game_id == s.igdb_game_id && r.igdb_similar_game_id == s.igdb_similar_game_id

abbrev pub all_unique : List GameSimilarity → Bool
all_unique [] = true
all_unique (r ∷ rows) = not (any (same_pair r) rows) && all_unique rows

-- `bulk_create` on the table: all rows, or an `IntegrityError`.
abbrev pub bulk_create_similarities : List GameSimilarity → Exec Db (Unit {0})
bulk_create_similarities rows db =
    raise_if (not (all_unique (db.similarities ++ rows))) integrity_error
      (record db { similarities = db.similarities ++ rows })

unfoldable pub replace_game_similarities : Dict (ℕ × ℕ) ℕ → Exec Db ℕ
replace_game_similarities pair_scores =
    let records = similarity_records (group_by_game pair_scores []) in
    do
      atomic (do modify (λ db. record db { similarities = [] }); bulk_create_similarities records)
      pure (length records)
