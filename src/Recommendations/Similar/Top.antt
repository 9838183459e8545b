-- ===== src/Recommendations/Similar/Top.antt =====
-- What the best similar games of a game are, told by the score that each game has to it.
use gechu_backend.Base.{
  ℕ, ◌≡◌, ◌≤◌, ◌⊎◌, Option, some, List, [], ◌∷◌, length, All, Elem, All-take, All-of_Elem,
  IsDistinct, length-take-le, arith,
}
use gechu_backend.Base.Dict.{Dict, nat_eq, pair_eq, lookup, IsDict}
use gechu_backend.Base.Sort.{
  sort_by, descending, IsSortedBy, sort_by-IsSortedBy, take-IsSortedBy, IsSortedBy-take,
  Elem-sort_by_intro, All-sort_by,
}
use gechu_backend.Recommendations.Similar.{max_similar_per_game, score_of, ranked_similars}
use gechu_backend.Recommendations.Similar.Groups.{similars_of}
use gechu_backend.Recommendations.Similar.Unique.{
  firsts, ranked_similars-IsDistinct, similars_of-IsDistinct,
}

-- At most fifty different games, each with its score, in descending order; a game with a score that
-- is left out scores no higher than any of the fifty that are kept.
abbrev pub IsTop : (ℕ → Option ℕ) → List (ℕ × ℕ) → Type 0
IsTop score_to kept =
    (length kept ≤ 50)
    × IsDistinct (firsts kept)
    × IsSortedBy (descending score_of) kept
    × All (λ k. score_to k.0 ≡ some k.1) kept
    × ((similar score : ℕ)
        → score_to similar ≡ some score
        → Elem (similar, score) kept ⊎ ((length kept ≡ 50) × All (λ k. score ≤ k.1) kept))

similars_of-lookup :
    (g s v : ℕ) (pairs : Dict (ℕ × ℕ) ℕ)
    → IsDict pairs
    → Elem (s, v) (similars_of g pairs)
    → lookup (g, s) pairs ≡ some v
similars_of-lookup g s v [] d e = absurd e
similars_of-lookup g s v (((x, y), w) ∷ pairs) d e = ground (arith, similars_of-lookup g s v pairs)

lookup-similars_of :
    (g s v : ℕ) (pairs : Dict (ℕ × ℕ) ℕ)
    → lookup (g, s) pairs ≡ some v
    → Elem (s, v) (similars_of g pairs)
lookup-similars_of g s v [] h = cc
lookup-similars_of g s v (((x, y), w) ∷ pairs) h = ground (arith, lookup-similars_of g s v pairs)

-- The pairs that are kept of a game are in descending order of score, and a pair that is left out
-- scores no higher than any of the fifty that are kept.
ranked_similars_best :
    (similars : List (ℕ × ℕ))
    → IsSortedBy (descending score_of) (ranked_similars similars)
      × ((pair : ℕ × ℕ)
          → Elem pair similars
          → Elem pair (ranked_similars similars)
            ⊎ ((length (ranked_similars similars) ≡ max_similar_per_game)
                × All (λ kept. pair.1 ≤ kept.1) (ranked_similars similars)))
unfolding ranked_similars
ranked_similars_best similars =
    let sorted = sort_by (descending score_of) similars in
    let order = sort_by-IsSortedBy score_of similars in
    (
      IsSortedBy-take score_of max_similar_per_game sorted order,
      λ pair e.
          take-IsSortedBy score_of pair max_similar_per_game sorted order
            (Elem-sort_by_intro (descending score_of) pair similars e),
    )

similars_scored :
    (g : ℕ) (pairs : Dict (ℕ × ℕ) ℕ)
    → IsDict pairs
    → All (λ k. lookup (g, k.0) pairs ≡ some k.1) (ranked_similars (similars_of g pairs))
unfolding ranked_similars
similars_scored g pairs d =
    All-take (λ k. lookup (g, k.0) pairs ≡ some k.1) max_similar_per_game
      (sort_by (descending score_of) (similars_of g pairs))
      (All-sort_by (descending score_of) (λ k. lookup (g, k.0) pairs ≡ some k.1)
        (similars_of g pairs)
        (All-of_Elem (λ k. lookup (g, k.0) pairs ≡ some k.1) (similars_of g pairs)
          (λ k e. similars_of-lookup g k.0 k.1 pairs d e)))

length-ranked_similars : (l : List (ℕ × ℕ)) → length (ranked_similars l) ≤ 50
unfolding ranked_similars
length-ranked_similars l = length-take-le max_similar_per_game (sort_by (descending score_of) l)

pub ranked_similars-IsTop :
    (g : ℕ) (pairs : Dict (ℕ × ℕ) ℕ)
    → IsDict pairs
    → IsTop (λ s. lookup (g, s) pairs) (ranked_similars (similars_of g pairs))
ranked_similars-IsTop g pairs d =
    let (order, best) = ranked_similars_best (similars_of g pairs) in
    (
      length-ranked_similars (similars_of g pairs),
      ranked_similars-IsDistinct (similars_of g pairs) (similars_of-IsDistinct g pairs d),
      order,
      similars_scored g pairs d,
      λ s score h. best (s, score) (lookup-similars_of g s score pairs h),
    )
