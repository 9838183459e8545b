-- ===== src/Recommendations/Upsert/Others.antt =====
-- The upsert of one reason leaves the rows of other users and reasons, and those of no reason, as
-- they are and in their order.
use gechu_backend.Base.{
  ℕ, ◌+◌, ◌≡◌, refl, ◌∙◌, Bool, true, false, not, ◌&&◌, some, List, [], ◌∷◌, filter, arith, ◌==◌,
}
use gechu_backend.Models.Recommendation.{
  ReasonType, similarity, preference, hybrid, UserRecommendation,
}
use gechu_backend.Recommendations.Upsert.{
  reason_eq, is_row, update_or_create, new_row, upsert_from, is_stale, upsert_recommendations,
}

abbrev pub is_own : ℕ → ReasonType → UserRecommendation → Bool
is_own user reason r = user == r.user_id && reason_eq reason r.reason

module _ (user : ℕ) (reason : ReasonType) (p : UserRecommendation → Bool)
    (apart : (r : UserRecommendation) → is_own user reason r ≡ true → p r ≡ false) where
  new_row-is_own :
      (generation now rank : ℕ) (c : ℕ × ℕ)
      → is_own user reason (new_row user reason generation now rank c) ≡ true
  new_row-is_own generation now rank (game, score) = by_reason reason
    where
      by_reason : (q : ReasonType) → (user == user && reason_eq q (some q)) ≡ true
      by_reason similarity = ground arith
      by_reason preference = ground arith
      by_reason hybrid = ground arith

  filter-update_or_create :
      (new : UserRecommendation) (rows : List UserRecommendation)
      → is_own user reason new ≡ true
      → filter p (update_or_create user reason new rows) ≡ filter p rows
  unfolding update_or_create is_row
  filter-update_or_create new [] own = rw (apart new own) refl
  filter-update_or_create new (r ∷ rows) own =
      ground (arith, apart new own, apart r, filter-update_or_create new rows own)

  filter-upsert_from :
      (generation now rank : ℕ) (candidates : List (ℕ × ℕ)) (rows : List UserRecommendation)
      → filter p (upsert_from user reason generation now rank candidates rows) ≡ filter p rows
  unfolding upsert_from
  filter-upsert_from generation now rank [] rows = refl
  filter-upsert_from generation now rank (c ∷ candidates) rows =
      filter-upsert_from generation now (rank + 1) candidates
        (update_or_create user reason (new_row user reason generation now rank c) rows)
      ∙ filter-update_or_create (new_row user reason generation now rank c) rows
          (new_row-is_own generation now rank c)

  filter-not_stale :
      (generation : ℕ) (rows : List UserRecommendation)
      → filter p (filter (λ r. not (is_stale user reason generation r)) rows) ≡ filter p rows
  unfolding is_stale
  filter-not_stale generation [] = refl
  filter-not_stale generation (r ∷ rows) = ground (arith, apart r, filter-not_stale generation rows)

  pub filter-upsert_recommendations :
      (generation now : ℕ) (candidates : List (ℕ × ℕ)) (rows : List UserRecommendation)
      → filter p (upsert_recommendations user reason generation now candidates rows) ≡ filter p rows
  unfolding upsert_recommendations
  filter-upsert_recommendations generation now candidates rows =
      filter-not_stale generation (upsert_from user reason generation now 1 candidates rows)
      ∙ filter-upsert_from generation now 1 candidates rows
