-- ===== src/Recommendations/Candidates/Results.antt =====
-- What the candidate collectors hand to the writer of recommendations.
use gechu_backend.Base.{
  ℕ, ◌+◌, ◌-◌, ◌*◌, ◌≡◌, refl, ◌∙◌, sym, ◌≤◌, ◌<◌, ◌⊎◌, Bool, true, false, ◌&&◌, none, some, Option,
  List, [], ◌∷◌, filter, take, elem, length, length-take-le, All, Elem, Elem-take, IsDistinct,
  IsDistinct-take, arith, leb, ◌==◌, Bool-cases, inl, inr,
}
use gechu_backend.Base.Dict.{Dict, nat_eq, lookup, IsDict}
use gechu_backend.Base.Sort.{
  sort_by, descending, IsSortedBy, IsSortedBy-take, sort_by-IsSortedBy, Elem-sort_by,
}
use gechu_backend.Base.Round.{round_half_even-le, round_half_even-ge, round_half_even_mono}
use gechu_backend.Core.Errors.{Result, ok, err}
use gechu_backend.Models.Preference.{UserPreference}
use gechu_backend.Models.Recommendation.{GameSimilarity}
use gechu_backend.Recommendations.Similar.Unique.{firsts, firsts-take, sort_by-IsDistinct}
use gechu_backend.Recommendations.Candidates.{
  GameSearch, max_recommendations, is_empty, or_none, larger, max_scores, from_seeds,
  candidate_score, build_similarity_candidates, rank_score, scored_from, scored, search_preferred,
  preference_of, collect_preference_candidates,
}
use gechu_backend.Recommendations.Candidates.Best.{
  best_score, lookup-max_scores, max_scores-IsDict, IsBest,
}

abbrev Points : ℕ → ℕ → List GameSimilarity → Type 0
Points g s rows =
    (r : GameSimilarity) × (Elem r rows) × (r.igdb_similar_game_id ≡ g) × (r.score ≡ s)

Points-tail :
    (g s : ℕ) (q : GameSimilarity) (rows : List GameSimilarity)
    → Points g s rows
    → Points g s (q ∷ rows)
Points-tail g s q rows (r, e, a, b) = (r, inr e, a, b)

-- The best score so far is the largest of what was there and of the rows that were read.
best_score_reached :
    (g s : ℕ) (rows : List GameSimilarity) (best : Option ℕ)
    → best_score g rows best ≡ some s
    → (best ≡ some s) ⊎ Points g s rows
best_score_reached g s [] best h = inl h
best_score_reached g s (r ∷ rows) best h = elim (Bool-cases (g == r.igdb_similar_game_id)) [
  | inl e ↦
      let here : r.igdb_similar_game_id ≡ g = ground arith in
      let rest = best_score_reached g s rows (some (larger best r.score)) (rw e at h) in
      elim rest [
        | inr later ↦ inr (Points-tail g s r rows later)
        | inl now ↦ elim (Bool-cases (leb s r.score)) [
          | inl top ↦ elim (Bool-cases (leb r.score s)) [
            | inl low ↦ inr (r, inl refl, here, ground arith)
            | inr high ↦ inl (ground arith)
          ]
          | inr kept ↦ inl (ground arith)
        ]
      ]
  | inr e ↦ elim (best_score_reached g s rows best (rw e at h)) [
    | inl now ↦ inl now
    | inr later ↦ inr (Points-tail g s r rows later)
  ]
]

best_score_upper :
    (g s : ℕ) (rows : List GameSimilarity) (best : Option ℕ)
    → best_score g rows best ≡ some s
    → ((b : ℕ) → best ≡ some b → b ≤ s) × All (λ r. r.igdb_similar_game_id ≡ g → r.score ≤ s) rows
best_score_upper g s [] best h = (λ b e. ground arith, tt)
best_score_upper g s (r ∷ rows) best h = elim (Bool-cases (g == r.igdb_similar_game_id)) [
  | inl e ↦
      let rest = best_score_upper g s rows (some (larger best r.score)) (rw e at h) in
      let top = rest.0 (larger best r.score) refl in
      (λ b was. ground arith, (λ same. ground arith, rest.1))
  | inr e ↦
      let rest = best_score_upper g s rows best (rw e at h) in
      (rest.0, (λ same. absurd (ground arith), rest.1))
]

Elem-lookup : (g s : ℕ) (d : Dict ℕ ℕ) → IsDict d → Elem (g, s) d → lookup g d ≡ some s
Elem-lookup g s [] h e = absurd e
Elem-lookup g s ((k, v) ∷ d) h e = ground (arith, Elem-lookup g s d h.1)

elem-firsts : (g : ℕ) (d : Dict ℕ ℕ) → lookup g d ≡ none → elem g (firsts d) ≡ false
elem-firsts g [] h = refl
elem-firsts g ((k, v) ∷ d) h = ground (arith, elem-firsts g d)

firsts-IsDistinct : (d : Dict ℕ ℕ) → IsDict d → IsDistinct (firsts d)
firsts-IsDistinct [] h = tt
firsts-IsDistinct ((k, v) ∷ d) h = (elem-firsts k d h.0, firsts-IsDistinct d h.1)

filter_sound :
    (p : GameSimilarity → Bool) (r : GameSimilarity) (rows : List GameSimilarity)
    → Elem r (filter p rows)
    → (p r ≡ true) × Elem r rows
filter_sound p r [] e = absurd e
filter_sound p r (q ∷ rows) e = elim (Bool-cases (p q)) [
  | inl keep ↦ elim (rw keep at e) [
    | inl same ↦ (rw same keep, inl same)
    | inr later ↦ ((filter_sound p r rows later).0, inr (filter_sound p r rows later).1)
  ]
  | inr skip ↦ let later = filter_sound p r rows (rw skip at e) in (later.0, inr later.1)
]

module _ (seeds : List ℕ) (similarities : List GameSimilarity) where
  abbrev pointing : List GameSimilarity
  pointing = filter (from_seeds seeds) similarities

  abbrev best_of : Dict ℕ ℕ
  best_of = max_scores pointing []

  abbrev ranked : List (ℕ × ℕ)
  ranked = sort_by (descending candidate_score) best_of

  best_of_sound :
      (game score : ℕ)
      → Elem (game, score) best_of
      → (elem game seeds ≡ false) × IsBest game score pointing
  best_of_sound game score e =
      let found = Elem-lookup game score best_of (max_scores-IsDict pointing [] tt) e in
      let best = sym (lookup-max_scores game pointing) ∙ found in
      elim (best_score_reached game score pointing none best) [
        | inl never ↦ cc
        | inr (r, there, same, value) ↦
            let passed = (filter_sound (from_seeds seeds) r similarities there).0 in
            (
              rw (← same) (ground arith),
              record {
                reached = (r, there, same, value);
                upper = (best_score_upper game score pointing none best).1;
              },
            )
      ]

  ranked_sound :
      (length (take max_recommendations ranked) ≤ max_recommendations)
      × IsDistinct (firsts (take max_recommendations ranked))
      × IsSortedBy (descending candidate_score) (take max_recommendations ranked)
      × ((game score : ℕ)
          → Elem (game, score) (take max_recommendations ranked)
          → (elem game seeds ≡ false) × IsBest game score pointing)
  ranked_sound = (
    length-take-le max_recommendations ranked,
    rw (firsts-take max_recommendations ranked) (
        IsDistinct-take max_recommendations (firsts ranked) (
          sort_by-IsDistinct best_of
            (firsts-IsDistinct best_of (max_scores-IsDict pointing [] tt)))),
    IsSortedBy-take candidate_score max_recommendations ranked
        (sort_by-IsSortedBy candidate_score best_of),
    λ game score e. best_of_sound game score (
        Elem-sort_by (descending candidate_score) (game, score) best_of
          (Elem-take (game, score) max_recommendations ranked e)),
  )

  -- The candidates are at most fifty different games, best first. None is a seed, and the score of
  -- each is the score of a row that leads from a seed to it, the highest such score.
  pub build_similarity_candidates_top :
      let candidates = build_similarity_candidates seeds similarities in
      (length candidates ≤ max_recommendations)
      × IsDistinct (firsts candidates)
      × IsSortedBy (descending candidate_score) candidates
      × ((game score : ℕ)
          → Elem (game, score) candidates
          → (elem game seeds ≡ false) × IsBest game score pointing)
  unfolding build_similarity_candidates
  build_similarity_candidates_top = elim (Bool-cases (is_empty seeds)) [
    | inl none_at_all ↦ rw none_at_all (omega arith, tt, tt, λ game score e. absurd e)
    | inr some_seed ↦ rw some_seed ranked_sound
  ]

-- The score of a rank, against the ranks after it and against the whole.
rank_score_mono : (i j total : ℕ) → 0 < total → i ≤ j → rank_score j total ≤ rank_score i total
unfolding rank_score
rank_score_mono i j total h le =
    round_half_even_mono (10000 * (total - j)) (10000 * (total - i)) total h (omega arith)

rank_score_bounds :
    (i total : ℕ)
    → i < total
    → total ≤ 50
    → (200 ≤ rank_score i total) × (rank_score i total ≤ 10000)
unfolding rank_score
rank_score_bounds i total lt small = (
  round_half_even-ge (10000 * (total - i)) total 200 (omega arith) (omega arith),
  round_half_even-le (10000 * (total - i)) total 10000 (omega arith) (grind arith),
)

firsts-scored_from : (i total : ℕ) (games : List ℕ) → firsts (scored_from i total games) ≡ games
unfolding scored_from
firsts-scored_from i total [] = refl
firsts-scored_from i total (g ∷ games) = rw (firsts-scored_from (i + 1) total games)

scored_from_below :
    (i j total : ℕ) (games : List ℕ)
    → 0 < total
    → i ≤ j
    → All (λ c. leb c.1 (rank_score i total) ≡ true) (scored_from j total games)
unfolding scored_from
scored_from_below i j total [] h le = tt
scored_from_below i j total (g ∷ games) h le =
    let lower = rank_score_mono i j total h le in
    (ground arith, scored_from_below i (j + 1) total games h (omega arith))

scored_from-IsSortedBy :
    (i total : ℕ) (games : List ℕ)
    → 0 < total
    → IsSortedBy (descending candidate_score) (scored_from i total games)
unfolding scored_from
scored_from-IsSortedBy i total [] h = tt
scored_from-IsSortedBy i total (g ∷ games) h = (
  scored_from_below i (i + 1) total games h (omega arith),
  scored_from-IsSortedBy (i + 1) total games h,
)

scored_from_bounds :
    (i total : ℕ) (games : List ℕ)
    → i + length games ≤ total
    → total ≤ 50
    → All (λ c. (200 ≤ c.1) × (c.1 ≤ 10000)) (scored_from i total games)
unfolding scored_from
scored_from_bounds i total [] h small = tt
scored_from_bounds i total (g ∷ games) h small = (
  rank_score_bounds i total (omega arith) small,
  scored_from_bounds (i + 1) total games (omega arith) small,
)

search_preferred_fit :
    (search : GameSearch) (p : Option UserPreference) (limit : ℕ) (ids : List ℕ)
    → search_preferred search p limit ≡ ok ids
    → (length ids ≤ limit) × IsDistinct ids
unfolding search_preferred
search_preferred_fit search none limit ids h =
    let nothing : [] ≡ ids = cc in rw (← nothing) (omega arith, tt)
search_preferred_fit search (some p) limit ids h =
    elim (Bool-cases (is_empty p.genre_ids && is_empty p.platform_ids && is_empty p.tag_ids)) [
      | inl e ↦ let nothing : [] ≡ ids = cc (rw e at h) in rw (← nothing) (omega arith, tt)
      | inr e ↦
          search.search_games_fit (or_none p.genre_ids) (or_none p.platform_ids) (or_none p.tag_ids)
            limit ids (rw e at h)
    ]

scored_sound :
    (games : List ℕ)
    → length games ≤ max_recommendations
    → IsDistinct games
    → let candidates = scored_from 0 (length games) games in
      (firsts candidates ≡ games)
      × IsSortedBy (descending candidate_score) candidates
      × All (λ c. (200 ≤ c.1) × (c.1 ≤ 10000)) candidates
unfolding scored_from
scored_sound [] few d = (refl, tt, tt)
scored_sound (g ∷ games) few d = (
  firsts-scored_from 0 (length (g ∷ games)) (g ∷ games),
  scored_from-IsSortedBy 0 (length (g ∷ games)) (g ∷ games) (omega arith),
  scored_from_bounds 0 (length (g ∷ games)) (g ∷ games) (omega arith) few,
)

-- Whenever the search answers, the preference candidates are at most fifty different games in
-- descending order of score, and each score lies between 0.02 and 1.
pub collect_preference_candidates_ranked :
    (search : GameSearch) (user : ℕ) (prefs : List UserPreference) (candidates : List (ℕ × ℕ))
    → collect_preference_candidates search user prefs ≡ ok candidates
    → (length (firsts candidates) ≤ max_recommendations)
      × IsDistinct (firsts candidates)
      × IsSortedBy (descending candidate_score) candidates
      × All (λ c. (200 ≤ c.1) × (c.1 ≤ 10000)) candidates
unfolding collect_preference_candidates
collect_preference_candidates_ranked search user prefs candidates h =
    go (search_preferred search (preference_of user prefs) max_recommendations) refl h
  where
    go :
        (r : Result (List ℕ))
        → search_preferred search (preference_of user prefs) max_recommendations ≡ r
        → scored r ≡ ok candidates
        → (length (firsts candidates) ≤ max_recommendations)
          × IsDistinct (firsts candidates)
          × IsSortedBy (descending candidate_score) candidates
          × All (λ c. (200 ≤ c.1) × (c.1 ≤ 10000)) candidates
    go (err e) found shown = cc
    go (ok games) found shown =
        let fit =
          search_preferred_fit search (preference_of user prefs) max_recommendations games found in
        let sound = scored_sound games fit.0 fit.1 in
        let same : scored_from 0 (length games) games ≡ candidates = cc in
        rw (← same) (rw sound.0 fit.0, rw sound.0 fit.1, sound.1, sound.2)
