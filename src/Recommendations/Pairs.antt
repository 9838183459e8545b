-- ===== src/Recommendations/Pairs.antt =====
-- `_build_similarity_pairs_from_interactions` of apps/recommendations/tasks.py: from the log of
-- actions to a score for each pair of games that some user has in common.
pub mod Spec
pub mod Counts
pub mod Games
pub mod Scores
pub mod Users
pub mod Results
use gechu_backend.Base.{
  ℕ, zero, suc, ◌+◌, ◌-◌, ◌*◌, ◌≤◌, ◌<◌, ◌≡◌, Bool, true, false, Option, none, some, List, [], ◌∷◌,
  ◌++◌, map, leb, elem, filter, ◌==◌, ◌||◌, if◌then◌else◌,
}
use gechu_backend.Base.Dict.{Dict, lookup, insert, get_or, Eq, pair_eq, nat_eq}
use gechu_backend.Base.Sort.{sort_by, ascending}
use gechu_backend.Models.Interaction.{InteractionLog}

-- `q` units of 0.0001 are within one unit of overlap / sqrt(product).
abbrev pub IsNear : ℕ → ℕ → ℕ → Type 0
IsNear q overlap product =
    ((q - 1) * (q - 1) * product ≤ 100000000 * (overlap * overlap))
    × (100000000 * (overlap * overlap) ≤ (q + 1) * (q + 1) * product)

-- The one place where the task uses floats: `overlap / sqrt(product)`, printed and rounded to four
-- decimal places, in units of 0.0001. Its laws for quotients of at most 1: the root and the quotient
-- of IEEE 754 are rounded monotonically, so that the result is at most 1, and they and the rounding
-- to four places are off by less than one unit.
pub record FloatScore : Type 0 where
  pub quantized : ℕ → ℕ → ℕ
  pub quantized_near :
      (overlap product : ℕ)
      → overlap * overlap ≤ product
      → IsNear (quantized overlap product) overlap product
  pub quantized_le_one :
      (overlap product : ℕ) → overlap * overlap ≤ product → quantized overlap product ≤ 10000

-- `user_games[user_id].add(game_id)` on a set, as a list with no number twice
abbrev pub set_add : ℕ → List ℕ → List ℕ
set_add g games = if elem g games then games else games ++ g ∷ []

abbrev pub add_row : Dict ℕ (List ℕ) → ℕ → Option ℕ → Dict ℕ (List ℕ)
add_row user_games user none = user_games
add_row user_games user (some g) = insert user (set_add g (get_or user user_games [])) user_games

-- `igdb_game_id__isnull=False`
abbrev pub names_game : InteractionLog → Bool
names_game l = elim l.igdb_game_id [ none ↦ false | some _ ↦ true ]

-- The loop over `(user_id, igdb_game_id)`; a row with no game is skipped.
unfoldable pub collect : List InteractionLog → Dict ℕ (List ℕ) → Dict ℕ (List ℕ)
collect [] user_games = user_games
collect (l ∷ logs) user_games = collect logs (add_row user_games l.user_id l.igdb_game_id)

abbrev pub values : {K V : Type 0} → Dict K V → List V
values [] = []
values ((k, v) ∷ d) = v ∷ values d

-- `d[k] += 1` on a `defaultdict(int)`
abbrev pub bump : {K : Type 0} ⦃e : Eq K⦄ → K → Dict K ℕ → Dict K ℕ
bump k d = insert k (get_or k d 0 + 1) d

-- `for game_id in game_ids: game_user_count[game_id] += 1`
pub count_games : List ℕ → Dict ℕ ℕ → Dict ℕ ℕ
count_games [] counts = counts
count_games (g ∷ gs) counts = count_games gs (bump g counts)

-- `for similar_game_id in game_ids[idx + 1 :]`
pub pair_with : ℕ → List ℕ → Dict (ℕ × ℕ) ℕ → Dict (ℕ × ℕ) ℕ
pair_with g [] co = co
pair_with g (s ∷ ss) co = pair_with g ss (bump (g, s) co)

-- `for idx, game_id in enumerate(game_ids)`
pub pair_games : List ℕ → Dict (ℕ × ℕ) ℕ → Dict (ℕ × ℕ) ℕ
pair_games [] co = co
pair_games (g ∷ gs) co = pair_games gs (pair_with g gs co)

pub sorted : List ℕ → List ℕ
sorted = sort_by (ascending (λ g. g))

-- `for games in user_games.values()`, for each of its two tables
pub count_users : List (List ℕ) → Dict ℕ ℕ → Dict ℕ ℕ
count_users [] counts = counts
count_users (games ∷ rest) counts = count_users rest (count_games (sorted games) counts)

pub pair_users : List (List ℕ) → Dict (ℕ × ℕ) ℕ → Dict (ℕ × ℕ) ℕ
pair_users [] co = co
pair_users (games ∷ rest) co = pair_users rest (pair_games (sorted games) co)

module _ (float : FloatScore) where
  -- One turn of the last loop; `sqrt(x) == 0` exactly if `x` is 0.
  pub score_pair : Dict ℕ ℕ → ℕ × ℕ → ℕ → Dict (ℕ × ℕ) ℕ → Dict (ℕ × ℕ) ℕ
  score_pair counts (a, b) overlap scores =
      let product = get_or a counts 0 * get_or b counts 0 in
      let score = float.quantized overlap product in
      if product == 0
      then scores
      else if leb score 0
      then scores
      else insert (b, a) score (insert (a, b) score scores)

  pub score_pairs : Dict ℕ ℕ → Dict (ℕ × ℕ) ℕ → Dict (ℕ × ℕ) ℕ → Dict (ℕ × ℕ) ℕ
  score_pairs counts [] scores = scores
  score_pairs counts ((k, overlap) ∷ co) scores =
      score_pairs counts co (score_pair counts k overlap scores)

  pub build_similarity_pairs : List InteractionLog → Dict (ℕ × ℕ) ℕ
  build_similarity_pairs logs =
      let games = values (collect (filter names_game logs) []) in
      score_pairs (count_users games []) (pair_users games []) []
