-- ===== src/Tests/Samples.antt =====
-- A small database, a search and a float quotient to run the program on.
use gechu_backend.Base.{
  ℕ, zero, suc, ◌+◌, ◌-◌, ◌*◌, subst, Bool-cases, inl, inr, ◌≤◌, ◌≡◌, refl, true, false, none, some,
  List, [], ◌∷◌, take, length, length-take-le, IsDistinct, IsDistinct-take, arith, leb,
  if◌then◌else◌,
}
use gechu_backend.Base.Int.{pos}
use gechu_backend.Core.Errors.{ok}
use gechu_backend.Models.{Db}
use gechu_backend.Models.User.{User as UserRow}
use gechu_backend.Models.Interaction.{
  view, detail_page, InteractionLog, InteractionWeightRule, InteractionContextRule,
}
use gechu_backend.Models.Preference.{UserPreference}
use gechu_backend.Models.Recommendation.{
  RecommendationJob, user_refresh, similarity_rebuild, pending, similarity, UserRecommendation,
  GameSimilarity,
}
use gechu_backend.Recommendations.Pairs.{FloatScore, IsNear}
use gechu_backend.Recommendations.Candidates.{GameSearch}
use gechu_backend.Recommendations.Job.{Env}

abbrev pub capped : ℕ → ℕ
capped q = if leb q 10000 then q else 10000

pub capped_le : (q : ℕ) → capped q ≤ 10000
capped_le q = ground arith

abbrev pub power_of_two : ℕ → ℕ
power_of_two zero = 1
power_of_two (suc k) = power_of_two k + power_of_two k

-- The quotient `overlap / sqrt(product)` in units of 0.0001, rounded down: bit by bit, the largest
-- number `q` above `r` with `q * q * product` at most `overlap * overlap`, in these units.
abbrev pub root_from : ℕ → ℕ → ℕ → ℕ → ℕ
root_from zero r square product = r
root_from (suc k) r square product =
    let step = r + power_of_two k in
    root_from k (if leb (step * step * product) square then step else r) square product

add_steps : (r d : ℕ) → r + (d + d) ≡ r + d + d
add_steps r d = omega arith

pub root_from-IsRoot :
    (k r square product : ℕ)
    → r * r * product ≤ square
    → square ≤ (r + power_of_two k) * (r + power_of_two k) * product
    → let q = root_from k r square product in
      (q * q * product ≤ square) × (square ≤ (q + 1) * (q + 1) * product)
root_from-IsRoot zero r square product low high = (low, high)
root_from-IsRoot (suc k) r square product low high =
    let step = r + power_of_two k in
    elim (Bool-cases (leb (step * step * product) square)) [
      | inl fits ↦ rw fits (
          root_from-IsRoot k step square product (ground arith)
            (subst (λ n. square ≤ n * n * product) (add_steps r (power_of_two k)) high))
      | inr exceeds ↦ rw exceeds (root_from-IsRoot k r square product low (ground arith))
    ]

square_below : (a b : ℕ) → a ≤ b → a * a ≤ b * b
square_below a b h = grind arith

times_le : (x y p : ℕ) → x ≤ y → x * p ≤ y * p
times_le x y p h = grind arith

times_square : (a b p : ℕ) → a ≤ b → a * a * p ≤ b * b * p
times_square a b p h = times_le (a * a) (b * b) p (square_below a b h)

pub capped-IsNear :
    (q overlap product : ℕ)
    → overlap * overlap ≤ product
    → q * q * product ≤ 100000000 * (overlap * overlap)
    → 100000000 * (overlap * overlap) ≤ (q + 1) * (q + 1) * product
    → IsNear (capped q) overlap product
capped-IsNear q overlap product le low high = elim (Bool-cases (leb q 10000)) [
  | inl fits ↦
      let below = times_square (q - 1) q product (omega arith) in rw fits (omega arith, high)
  | inr exceeds ↦
      let below = times_square 9999 q product (ground arith) in
      rw exceeds (omega arith, omega arith)
]

abbrev pub sample_float : FloatScore
sample_float = record {
  quantized = λ overlap product. capped (root_from 14 0 (100000000 * (overlap * overlap)) product);
  quantized_near = λ overlap product h.
      let square = 100000000 * (overlap * overlap) in
      let (low, high) = root_from-IsRoot 14 0 square product (omega arith) (omega arith) in
      capped-IsNear (root_from 14 0 square product) overlap product h low high;
  quantized_le_one =
      λ overlap product h. capped_le (root_from 14 0 (100000000 * (overlap * overlap)) product);
}

abbrev pub popular : List ℕ
popular = 301 ∷ 302 ∷ []

pub popular-IsDistinct : IsDistinct popular
popular-IsDistinct = (refl, (refl, tt))

pub popular_fit :
    (limit : ℕ) (ids : List ℕ)
    → ok (take limit popular) ≡ ok ids
    → (length ids ≤ limit) × IsDistinct ids
popular_fit limit ids h =
    let same : take limit popular ≡ ids = cc in
    rw (← same) (length-take-le limit popular, IsDistinct-take limit popular popular-IsDistinct)

-- A search that always finds the same games.
abbrev pub sample_search : GameSearch
sample_search = record {
  search_games = λ genres platforms tags limit. ok (take limit popular);
  search_games_fit = λ genres platforms tags limit ids h. popular_fit limit ids h;
}

abbrev pub sample_env : Env
sample_env = record {
  search = sample_search;
  float = sample_float;
  describe = λ e. "failed";
  started_at = 1000;
  similar_at = 1001;
  preferred_at = 1002;
  finished_at = 1003;
}

abbrev pub sample_user : UserRow
sample_user = record {
  id = 7;
  email = "a@example.org";
  nickname = "a";
  birth_date = record { year = 2000; month = 1; day = 2 };
  profile_img_url = none;
  is_adult_verified = false;
  adult_verified_at = none;
  adult_verification_expires_at = none;
  is_active = true;
  is_staff = false;
  is_superuser = false;
  deleted_at = none;
  password = none;
}

abbrev pub viewed : ℕ → ℕ → ℕ → ℕ → InteractionLog
viewed id user game at = record {
  id = id;
  user_id = user;
  igdb_game_id = some game;
  store_id = none;
  search_query = none;
  type = view;
  weight = some (pos 10000);
  source = detail_page;
  metadata = none;
  created_at = at;
}

-- Two users have the games 10 and 11, one of them also 12.
abbrev pub sample_logs : List InteractionLog
sample_logs =
    viewed 1 7 10 1 ∷ viewed 2 7 11 2 ∷ viewed 3 8 11 3 ∷ viewed 4 8 10 4 ∷ viewed 5 8 12 5 ∷ []

abbrev pub view_rule : InteractionWeightRule
view_rule = record {
  interaction_type = view;
  base_weight = pos 100;
  cooldown_seconds = pos 60;
  repeat_decay = pos 900;
  is_active = true;
}

abbrev pub detail_rule : InteractionContextRule
detail_rule = record { interaction_source = detail_page; multiplier = pos 150 }

abbrev pub refresh_job : RecommendationJob
refresh_job = record {
  id = 1;
  job_type = user_refresh;
  target_user_id = some 7;
  status = pending;
  retry_count = 0;
  error_message = none;
  started_at = none;
  finished_at = none;
  created_at = 20;
}

abbrev pub rebuild_job : RecommendationJob
rebuild_job = record refresh_job {
  id = 2;
  job_type = similarity_rebuild;
  target_user_id = none;
  created_at = 10;
}

abbrev pub sample_preference : UserPreference
sample_preference = record { user_id = 7; genre_ids = 5 ∷ []; platform_ids = []; tag_ids = [] }

abbrev pub old_row : UserRecommendation
old_row = record {
  user_id = 7;
  igdb_game_id = 12;
  generation_version = 3;
  score = 9000;
  rank = 1;
  reason = some similarity;
  generated_at = 30;
  expires_at = 40;
}

abbrev pub sample_similarities : List GameSimilarity
sample_similarities =
    record { igdb_game_id = 10; igdb_similar_game_id = 12; score = 5000 }
    ∷ record { igdb_game_id = 11; igdb_similar_game_id = 12; score = 7000 }
    ∷ record { igdb_game_id = 10; igdb_similar_game_id = 11; score = 9999 }
    ∷ []

abbrev pub sample_db : Db
sample_db = record {
  users = sample_user ∷ [];
  store_ids = 1 ∷ [];
  interaction_logs = sample_logs;
  weight_rules = view_rule ∷ [];
  context_rules = detail_rule ∷ [];
  preferences = sample_preference ∷ [];
  affinities = [];
  jobs = refresh_job ∷ rebuild_job ∷ [];
  recommendations = old_row ∷ [];
  similarities = sample_similarities;
}
