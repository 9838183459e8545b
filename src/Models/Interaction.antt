-- ===== src/Models/Interaction.antt =====
-- apps/interactions/models: the append-only log of actions, and the rules that weigh them.
use gechu_backend.Base.{ℕ, String, Bool, Option}
use gechu_backend.Base.Int.{ℤ}

-- `InteractionLog.ActionType`, and `unlisted` for a text outside its choices, which
-- `objects.create` stores unchecked.
pub data ActionType : Type 0 where
  view search saved_add saved_remove like dislike preference_set store_click : ActionType
  unlisted : String → ActionType

-- `InteractionLog.SourceType` and `InteractionContextRule.InteractionSource`
pub data SourceType : Type 0 where
  list_page detail_page search_result recommendation saved_page onboarding : SourceType

pub record InteractionLog : Type 0 where
  pub id : ℕ
  pub user_id : ℕ
  pub igdb_game_id : Option ℕ
  pub store_id : Option ℕ
  pub search_query : Option String
  pub type : ActionType
  -- in units of 0.0001
  pub weight : Option ℤ
  pub source : SourceType
  -- the JSON text
  pub metadata : Option String
  -- in microseconds, like all times
  pub created_at : ℕ

pub record InteractionWeightRule : Type 0 where
  pub interaction_type : ActionType
  -- in units of 0.01
  pub base_weight : ℤ
  pub cooldown_seconds : ℤ
  -- in units of 0.001
  pub repeat_decay : ℤ
  pub is_active : Bool

pub record InteractionContextRule : Type 0 where
  pub interaction_source : SourceType
  -- in units of 0.01
  pub multiplier : ℤ
