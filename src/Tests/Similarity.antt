-- ===== src/Tests/Similarity.antt =====
-- Tests of the similarities, the candidates and the upsert.
use gechu_backend.Base.{
  ℕ, ◌*◌, ◌≡◌, ◌≢◌, refl, ◌∙◌, ◌≤◌, ◌<◌, false, some, List, [], ◌∷◌, filter, length, elem, All,
  Elem, IsDistinct,
}
use gechu_backend.Base.Dict.{lookup, nat_eq, pair_eq}
use gechu_backend.Base.Sort.{IsSortedBy, descending}
use gechu_backend.Base.Round.{round_half_even}
use gechu_backend.Core.Errors.{ok}
use gechu_backend.Recommendations.Pairs.{IsNear, build_similarity_pairs}
use gechu_backend.Recommendations.Pairs.Spec.{
  pair_score, users_from, has_game, users_with, users_with_both,
}
use gechu_backend.Recommendations.Pairs.Results.{
  build_similarity_pairs-eq-pair_score, build_similarity_pairs_bounds,
  build_similarity_pairs-IsDict,
}
use gechu_backend.Recommendations.Similar.{replace_game_similarities}
use gechu_backend.Recommendations.Similar.Unique.{firsts}
use gechu_backend.Recommendations.Similar.Results.{HasTop, replace_game_similarities_rows}
use gechu_backend.Recommendations.Candidates.{
  max_recommendations, candidate_score, from_seeds, search_preferred, scored_from, rank_score,
  build_similarity_candidates, collect_preference_candidates,
}
use gechu_backend.Recommendations.Candidates.Best.{IsBest}
use gechu_backend.Recommendations.Candidates.Results.{
  build_similarity_candidates_top, collect_preference_candidates_ranked,
}
use gechu_backend.Tests.Samples.{
  sample_float, sample_search, sample_logs, sample_db, sample_similarities, sample_preference,
}

-- Two users have both games; one of the two has 12 as well: 1 / sqrt(2) is 0.7071.
counted_users : pair_score sample_float sample_logs 10 11 ≡ some 10000
unfolding users_from has_game
counted_users = refl

counted_user : pair_score sample_float sample_logs 10 12 ≡ some 7071
unfolding users_from has_game
counted_user = refl

build_similarity_pairs-eq-pair_score_example :
    let scores = build_similarity_pairs sample_float sample_logs in
    (lookup (10, 12) scores ≡ pair_score sample_float sample_logs 10 12)
    × ((s : ℕ)
        → lookup (10, 12) scores ≡ some s
        → IsNear s
            (users_with_both 10 12 sample_logs)
            (users_with 10 sample_logs * users_with 12 sample_logs))
build_similarity_pairs-eq-pair_score_example =
    build_similarity_pairs-eq-pair_score sample_float sample_logs 10 12

build_similarity_pairs_bounds_example :
    let a : ℕ = 10 in
    let b : ℕ = 12 in
    (a ≢ b)
    × (0 < 7071)
    × (7071 ≤ 10000)
    × (lookup (b, a) (build_similarity_pairs sample_float sample_logs) ≡ some 7071)
build_similarity_pairs_bounds_example =
    build_similarity_pairs_bounds sample_float sample_logs 10 12 7071
      ((build_similarity_pairs-eq-pair_score sample_float sample_logs 10 12).0 ∙ counted_user)

replace_game_similarities_rows_example :
    let scores = build_similarity_pairs sample_float sample_logs in
    let (result, db') = replace_game_similarities scores sample_db in
    (result ≡ ok (length db'.similarities))
    × (db' ≡ record sample_db { similarities = db'.similarities })
    × ((game : ℕ) → HasTop game (λ similar. lookup (game, similar) scores) db'.similarities)
replace_game_similarities_rows_example =
    replace_game_similarities_rows (build_similarity_pairs sample_float sample_logs) sample_db
      (build_similarity_pairs-IsDict sample_float sample_logs)

abbrev seeds : List ℕ
seeds = 10 ∷ 11 ∷ []

build_similarity_candidates_top_example :
    let candidates = build_similarity_candidates seeds sample_similarities in
    (length candidates ≤ max_recommendations)
    × IsDistinct (firsts candidates)
    × IsSortedBy (descending candidate_score) candidates
    × ((game score : ℕ)
        → Elem (game, score) candidates
        → (elem game seeds ≡ false)
          × IsBest game score (filter (from_seeds seeds) sample_similarities))
build_similarity_candidates_top_example = build_similarity_candidates_top seeds sample_similarities

abbrev found : List (ℕ × ℕ)
found = (301, 10000) ∷ (302, 5000) ∷ []

found_searched : collect_preference_candidates sample_search 7 (sample_preference ∷ []) ≡ ok found
unfolding collect_preference_candidates search_preferred scored_from rank_score round_half_even
found_searched = refl

collect_preference_candidates_ranked_example :
    let candidates = found in
    (length (firsts candidates) ≤ max_recommendations)
    × IsDistinct (firsts candidates)
    × IsSortedBy (descending candidate_score) candidates
    × All (λ c. (200 ≤ c.1) × (c.1 ≤ 10000)) candidates
collect_preference_candidates_ranked_example =
    collect_preference_candidates_ranked sample_search 7 (sample_preference ∷ []) found
      found_searched

abbrev candidates : List (ℕ × ℕ)
candidates = (13, 8000) ∷ (12, 5000) ∷ []
