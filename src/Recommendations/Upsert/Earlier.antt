-- ===== src/Recommendations/Upsert/Earlier.antt =====
-- The upsert of one reason keeps the rows of another reason in earlier generations.
use gechu_backend.Base.{ℕ, ◌+◌, ◌≢◌, not, List, [], ◌∷◌, All, All-filter, Bool-cases, inl, inr}
use gechu_backend.Models.Recommendation.{ReasonType, UserRecommendation}
use gechu_backend.Recommendations.Upsert.{
  is_row, update_or_create, new_row, upsert_from, is_stale, upsert_recommendations,
}
use gechu_backend.Recommendations.Upsert.Results.{IsEarlier}

module _ (user : ℕ) (reason : ReasonType) (generation : ℕ) where
  module _ (other : ReasonType) (differs : reason ≢ other) (now : ℕ) where
    update_or_create-IsEarlier :
        (new : UserRecommendation) (rows : List UserRecommendation)
        → IsEarlier user reason generation 0 new
        → All (IsEarlier user reason generation 0) rows
        → All (IsEarlier user reason generation 0) (update_or_create user other new rows)
    unfolding update_or_create
    update_or_create-IsEarlier new [] n a = (n, tt)
    update_or_create-IsEarlier new (r ∷ rows) n a =
        elim (Bool-cases (is_row user other new.igdb_game_id r)) [
          | inl e ↦ rw e (n, a.1)
          | inr e ↦ rw e (a.0, update_or_create-IsEarlier new rows n a.1)
        ]

    upsert_from-IsEarlier :
        (rank : ℕ) (candidates : List (ℕ × ℕ)) (rows : List UserRecommendation)
        → All (IsEarlier user reason generation 0) rows
        → All
            (IsEarlier user reason generation 0)
            (upsert_from user other generation now rank candidates rows)
    unfolding upsert_from
    upsert_from-IsEarlier rank [] rows a = a
    upsert_from-IsEarlier rank (c ∷ candidates) rows a =
        upsert_from-IsEarlier (rank + 1) candidates
          (update_or_create user other (new_row user other generation now rank c) rows)
          (update_or_create-IsEarlier (new_row user other generation now rank c) rows
            (λ e f. absurd (differs cc)) a)

    pub upsert_recommendations-IsEarlier :
        (candidates : List (ℕ × ℕ)) (rows : List UserRecommendation)
        → All (IsEarlier user reason generation 0) rows
        → All
            (IsEarlier user reason generation 0)
            (upsert_recommendations user other generation now candidates rows)
    unfolding upsert_recommendations
    upsert_recommendations-IsEarlier candidates rows a =
        All-filter (IsEarlier user reason generation 0)
          (λ r. not (is_stale user other generation r))
          (upsert_from user other generation now 1 candidates rows)
          (upsert_from-IsEarlier 1 candidates rows a)
