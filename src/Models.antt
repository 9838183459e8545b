-- ===== src/Models.antt =====
-- The tables of the database, as lists of rows in the order of insertion.
pub mod Interaction
pub mod Recommendation
pub mod Preference
pub mod User
use gechu_backend.Base.{ℕ, List}
use Interaction.{InteractionLog, InteractionWeightRule, InteractionContextRule}
use Recommendation.{RecommendationJob, UserRecommendation, GameSimilarity}
use Preference.{UserPreference, UserGameAffinity}
use User.{User as UserRow}

pub record Db : Type 0 where
  pub users : List UserRow
  -- the ids of `ExternalStore`
  pub store_ids : List ℕ
  pub interaction_logs : List InteractionLog
  pub weight_rules : List InteractionWeightRule
  pub context_rules : List InteractionContextRule
  pub preferences : List UserPreference
  pub affinities : List UserGameAffinity
  pub jobs : List RecommendationJob
  pub recommendations : List UserRecommendation
  pub similarities : List GameSimilarity
