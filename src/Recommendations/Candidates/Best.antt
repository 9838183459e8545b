-- ===== src/Recommendations/Candidates/Best.antt =====
-- The grouping by similar game keeps the best score of each.
use gechu_backend.Base.{
  ℕ, ◌≡◌, refl, ap, sym, ◌∙◌, ◌≤◌, none, some, Option, List, [], ◌∷◌, All, Elem, arith, ◌==◌,
  if◌then◌else◌, Bool-cases, inl, inr,
}
use gechu_backend.Base.Dict.{Dict, nat_eq, lookup, insert, lookup-insert, IsDict, insert-IsDict}
use gechu_backend.Models.Recommendation.{GameSimilarity}
use gechu_backend.Recommendations.Candidates.{larger, max_scores}

-- The best score with which some seed points to the game, that is no seed itself.
abbrev pub best_score : ℕ → List GameSimilarity → Option ℕ → Option ℕ
best_score g [] best = best
best_score g (r ∷ rows) best =
    best_score g rows (if g == r.igdb_similar_game_id then some (larger best r.score) else best)

lookup-max_scores_from :
    (g : ℕ) (rows : List GameSimilarity) (best : Dict ℕ ℕ)
    → lookup g (max_scores rows best) ≡ best_score g rows (lookup g best)
unfolding max_scores
lookup-max_scores_from g [] best = refl
lookup-max_scores_from g (r ∷ rows) best =
    let score = larger (lookup r.igdb_similar_game_id best) r.score in
    lookup-max_scores_from g rows (insert r.igdb_similar_game_id score best)
    ∙ ap (best_score g rows) (
        lookup-insert r.igdb_similar_game_id g score best
        ∙ elim (Bool-cases (g == r.igdb_similar_game_id)) [
          | inl e ↦
              let same : g ≡ r.igdb_similar_game_id = ground arith in
              rw e (ap (λ k. some (larger (lookup k best) r.score)) (sym same))
          | inr e ↦ rw e refl
        ])

pub lookup-max_scores :
    (g : ℕ) (rows : List GameSimilarity) → lookup g (max_scores rows []) ≡ best_score g rows none
lookup-max_scores g rows = lookup-max_scores_from g rows []

pub max_scores-IsDict :
    (rows : List GameSimilarity) (best : Dict ℕ ℕ) → IsDict best → IsDict (max_scores rows best)
unfolding max_scores
max_scores-IsDict [] best h = h
max_scores-IsDict (r ∷ rows) best h =
    let score = larger (lookup r.igdb_similar_game_id best) r.score in
    max_scores-IsDict rows (insert r.igdb_similar_game_id score best)
      (insert-IsDict r.igdb_similar_game_id score best h)

-- Whether a row's score stands behind the best one: `s` is the score of some row to `g`, and no row
-- to `g` has a higher one.
pub record IsBest (g s : ℕ) (rows : List GameSimilarity) : Type 0 where
  pub reached : (r : GameSimilarity) × (Elem r rows) × (r.igdb_similar_game_id ≡ g) × (r.score ≡ s)
  pub upper : All (λ r. r.igdb_similar_game_id ≡ g → r.score ≤ s) rows
