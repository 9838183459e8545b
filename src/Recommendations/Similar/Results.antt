-- ===== src/Recommendations/Similar/Results.antt =====
-- What `_replace_game_similarities` leaves in the table.
use gechu_backend.Base.{ℕ, ◌≡◌, refl, subst, Option, List, [], map, length, filter}
use mathlib.Core.Path.{fun_ext}
use gechu_backend.Base.Dict.{Dict, pair_eq, lookup, IsDict}
use gechu_backend.Core.Errors.{ok}
use gechu_backend.Models.{Db}
use gechu_backend.Recommendations.Similar.{
  group_by_game, ranked_similars, similarity_row, similarity_records, replace_game_similarities,
}
use gechu_backend.Recommendations.Similar.Groups.{similars_of, is_of, filter-similarity_records}
use gechu_backend.Recommendations.Similar.Top.{IsTop, ranked_similars-IsTop}
use gechu_backend.Models.Recommendation.{GameSimilarity}
use gechu_backend.Recommendations.Similar.Unique.{all_unique-similarity_records}

replace_game_similarities_lem :
    (pairs : Dict (ℕ × ℕ) ℕ) (db : Db)
    → IsDict pairs
    → let records = similarity_records (group_by_game pairs []) in
      replace_game_similarities pairs db
      ≡ (ok (length records), record db { similarities = records })
unfolding replace_game_similarities
replace_game_similarities_lem pairs db h = rw (all_unique-similarity_records pairs h)

-- The rows of a game are its best similar games, by the score that each game has to it.
abbrev pub HasTop : ℕ → (ℕ → Option ℕ) → List GameSimilarity → Type 0
HasTop game score_to rows =
    (kept : List (ℕ × ℕ)) × (filter (is_of game) rows ≡ map (similarity_row game) kept)
    × IsTop score_to kept

-- It depends on the scores alone.
pub same_scores-HasTop :
    (game : ℕ) (f g : ℕ → Option ℕ) (rows : List GameSimilarity)
    → ((similar : ℕ) → f similar ≡ g similar)
    → HasTop game f rows
    → HasTop game g rows
same_scores-HasTop game f g rows same top =
    subst (λ score_to. HasTop game score_to rows) (fun_ext same) top

-- From scores that are the values of a dict, the replacement never meets the unique constraint: it
-- returns the number of rows, changes no other table, and leaves for every game exactly the rows
-- of its best similar games, best first: at most fifty different games, each with the score of its
-- pair, where a game with a score that is left out scores no higher than any of the fifty kept.
pub replace_game_similarities_rows :
    (pairs : Dict (ℕ × ℕ) ℕ) (db : Db)
    → IsDict pairs
    → let (result, db') = replace_game_similarities pairs db in
      (result ≡ ok (length db'.similarities))
      × (db' ≡ record db { similarities = db'.similarities })
      × ((game : ℕ) → HasTop game (λ similar. lookup (game, similar) pairs) db'.similarities)
replace_game_similarities_rows pairs db h = rw (replace_game_similarities_lem pairs db h) (
  refl,
  refl,
  λ game. (
    ranked_similars (similars_of game pairs),
    filter-similarity_records game pairs,
    ranked_similars-IsTop game pairs h,
  ),
)
