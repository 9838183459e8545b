-- ===== src/Models/Recommendation.antt =====
-- apps/recommendations/models: jobs, the recommendations of a user, and game similarities.
use gechu_backend.Base.{ℕ, String, Option}

pub data JobType : Type 0 where
  user_refresh similarity_rebuild : JobType

pub data Status : Type 0 where
  pending running success failed : Status

pub record RecommendationJob : Type 0 where
  pub id : ℕ
  pub job_type : JobType
  pub target_user_id : Option ℕ
  pub status : Status
  pub retry_count : ℕ
  pub error_message : Option String
  pub started_at : Option ℕ
  pub finished_at : Option ℕ
  pub created_at : ℕ

pub data ReasonType : Type 0 where
  similarity preference hybrid : ReasonType

pub record UserRecommendation : Type 0 where
  pub user_id : ℕ
  pub igdb_game_id : ℕ
  pub generation_version : ℕ
  -- in units of 0.0001
  pub score : ℕ
  pub rank : ℕ
  pub reason : Option ReasonType
  pub generated_at : ℕ
  pub expires_at : ℕ

pub record GameSimilarity : Type 0 where
  pub igdb_game_id : ℕ
  pub igdb_similar_game_id : ℕ
  -- in units of 0.0001
  pub score : ℕ
