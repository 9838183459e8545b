-- ===== src/Recommendations/Pairs/Results.antt =====
-- What `_build_similarity_pairs_from_interactions` computes.
use gechu_backend.Base.{
  subst, ℕ, [], ◌*◌, ◌≤◌, ◌<◌, ◌≡◌, ◌∙◌, sym, ◌≢◌, some, List, ◌∷◌, arith, filter,
}
use gechu_backend.Base.Dict.{Dict, nat_eq, lookup, insert, get_or, IsDict, insert-IsDict, pair_eq}
use gechu_backend.Models.Interaction.{InteractionLog}
use gechu_backend.Recommendations.Pairs.{
  FloatScore, IsNear, build_similarity_pairs, values, names_game, score_pairs, score_pair,
  count_users, pair_users,
}
use gechu_backend.Recommendations.Pairs.Spec.{
  having_both, having, having_both-le, set_score, pair_score, users_with, users_with_both,
}
use gechu_backend.Recommendations.Pairs.Users.{
  having-users, having_both-users, set_score-pair_score,
}
use gechu_backend.Recommendations.Pairs.Games.{games_by_user, collect-IsDistinct}
use gechu_backend.Recommendations.Pairs.Scores.{lookup-set_score, set_score_comm}

lookup-set_scores :
    (float : FloatScore) (logs : List InteractionLog) (a b : ℕ)
    → lookup (a, b) (build_similarity_pairs float logs)
      ≡ set_score float (values (games_by_user logs)) a b
unfolding build_similarity_pairs
lookup-set_scores float logs a b =
    lookup-set_score (values (games_by_user logs)) (collect-IsDistinct (filter names_game logs))
      float a b

square_le : (o x y : ℕ) → o ≤ x → o ≤ y → o * o ≤ x * y
square_le o x y hx hy = grind arith

users_with_both-product :
    (logs : List InteractionLog) (a b : ℕ)
    → users_with_both a b logs * users_with_both a b logs ≤ users_with a logs * users_with b logs
users_with_both-product logs a b =
    let games = values (games_by_user logs) in
    let le = having_both-le a b games in
    rw (← having_both-users logs a b, ← having-users logs a, ← having-users logs b)
      (square_le (having_both a b games) (having a games) (having b games) le.0 le.1)

pair_score-IsNear :
    (float : FloatScore) (logs : List InteractionLog) (a b s : ℕ)
    → pair_score float logs a b ≡ some s
    → IsNear s (users_with_both a b logs) (users_with a logs * users_with b logs)
pair_score-IsNear float logs a b s h =
    let overlap = users_with_both a b logs in
    let product = users_with a logs * users_with b logs in
    let near = float.quantized_near overlap product (users_with_both-product logs a b) in
    let same : float.quantized overlap product ≡ s = ground arith in
    subst (λ q. IsNear q overlap product) same near

module _ (float : FloatScore) (logs : List InteractionLog) where
  -- For every two games the score is the rounded quotient of the number of users that have both in
  -- the log by the root of the product of the numbers that have each; it is absent for a game with
  -- itself, for games with no user in common, and where it rounds to 0. A score that is there, in
  -- units of 0.0001, is within one unit of that quotient.
  pub build_similarity_pairs-eq-pair_score :
      (a b : ℕ)
      → (lookup (a, b) (build_similarity_pairs float logs) ≡ pair_score float logs a b)
        × ((s : ℕ)
            → lookup (a, b) (build_similarity_pairs float logs) ≡ some s
            → IsNear s (users_with_both a b logs) (users_with a logs * users_with b logs))
  build_similarity_pairs-eq-pair_score a b =
      let there = lookup-set_scores float logs a b ∙ set_score-pair_score logs float a b in
      (there, λ s h. pair_score-IsNear float logs a b s (sym there ∙ h))

-- Where the quotient is at most 1, so is the rounded score.
set_score_bounds :
    (float : FloatScore) (games : List (List ℕ)) (a b : ℕ) {s : ℕ}
    → set_score float games a b ≡ some s
    → (a ≢ b) × (0 < s) × (s ≤ 10000)
set_score_bounds float games a b h =
    let both = having_both a b games in
    let le = having_both-le a b games in
    let one =
      float.quantized_le_one both (having a games * having b games)
        (square_le both (having a games) (having b games) le.0 le.1) in
    (ground arith, ground arith, ground arith)

module _ (float : FloatScore) (logs : List InteractionLog) where
  -- A score that is stored is above 0 and at most 1, stands the same under both orders of the pair,
  -- and never joins a game to itself.
  pub build_similarity_pairs_bounds :
      (a b : ℕ) (s : ℕ)
      → lookup (a, b) (build_similarity_pairs float logs) ≡ some s
      → (a ≢ b)
        × (0 < s)
        × (s ≤ 10000)
        × (lookup (b, a) (build_similarity_pairs float logs) ≡ some s)
  build_similarity_pairs_bounds a b s h =
      let games = values (games_by_user logs) in
      let there = sym (lookup-set_scores float logs a b) ∙ h in
      let back = lookup-set_scores float logs b a in
      let bounds = set_score_bounds float games a b there in
      (
        bounds.0,
        bounds.1,
        bounds.2,
        back
            ∙ sym (set_score_comm games (collect-IsDistinct (filter names_game logs)) float a b)
            ∙ there,
      )

score_pairs-IsDict :
    (float : FloatScore) (counts : Dict ℕ ℕ) (co d : Dict (ℕ × ℕ) ℕ)
    → IsDict d
    → IsDict (score_pairs float counts co d)
unfolding score_pairs score_pair
score_pairs-IsDict float counts [] d h = h
score_pairs-IsDict float counts (((x, y), o) ∷ co) d h =
    let score = float.quantized o (get_or x counts 0 * get_or y counts 0) in
    score_pairs-IsDict float counts co (score_pair float counts (x, y) o d) (
      ground
        (arith, insert-IsDict (y, x) score (insert (x, y) score d), insert-IsDict (x, y) score d h))

-- No pair stands twice among the scores.
pub build_similarity_pairs-IsDict :
    (float : FloatScore) (logs : List InteractionLog) → IsDict (build_similarity_pairs float logs)
unfolding build_similarity_pairs
build_similarity_pairs-IsDict float logs =
    let games = values (games_by_user logs) in
    score_pairs-IsDict float (count_users games []) (pair_users games []) [] tt
