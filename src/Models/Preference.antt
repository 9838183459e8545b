-- ===== src/Models/Preference.antt =====
-- apps/preferences/models: what a user prefers, and how the user stands to single games.
use gechu_backend.Base.{ℕ, Bool, List}
use gechu_backend.Base.Int.{ℤ}

-- A `UserPreference` with the ids in its three link tables.
pub record UserPreference : Type 0 where
  pub user_id : ℕ
  pub genre_ids : List ℕ
  pub platform_ids : List ℕ
  pub tag_ids : List ℕ

pub data LikeState : Type 0 where
  disliked neutral liked : LikeState

pub record UserGameAffinity : Type 0 where
  pub user_id : ℕ
  pub igdb_game_id : ℕ
  pub is_saved : Bool
  pub like_state : LikeState
  -- in units of 0.0001
  pub preference_score : ℤ
  pub last_interacted_at : ℕ
  pub calculated_at : ℕ
