-- ===== src/Core/Errors.antt =====
-- apps/core/exceptions/exception_message.py: the errors that the API answers with, by their HTTP
-- status, and the other exceptions that the services can meet.
use gechu_backend.Base.{ℕ, String}

pub data ErrorMessages : Type 0 where
  validation_error invalid_query_param invalid_ordering invalid_code code_expired : ErrorMessages
  social_user_only refresh_token_missing invalid_file_type file_too_large underage : ErrorMessages
  already_verified job_type_missing base_weight_invalid multiplier_invalid : ErrorMessages
  is_visible_missing search_query_missing game_id_or_source_missing : ErrorMessages
  game_id_or_store_id_missing genre_ids_invalid invalid_genre_id platform_ids_invalid :
      ErrorMessages
  invalid_platform_id tag_ids_invalid invalid_tag_id invalid_reaction : ErrorMessages
  reaction_data_required invalid_source preference_fields_required invalid_state : ErrorMessages
  oauth_callback_error discord_oauth_callback_error adult_verification_callback_error :
      ErrorMessages
  account_not_deleted account_restore_expired : ErrorMessages
  unauthorized invalid_credentials invalid_password account_deactivated token_expired :
      ErrorMessages
  invalid_refresh_token refresh_token_expired : ErrorMessages
  recommendation_not_ready : ErrorMessages
  forbidden csrf_failed adult_verification_required : ErrorMessages
  game_not_found store_not_found job_not_found interaction_type_not_found : ErrorMessages
  source_not_found user_not_found search_keyword_not_found : ErrorMessages
  email_already_exists nickname_already_exists verification_already_used : ErrorMessages
  sync_already_running job_already_running : ErrorMessages
  too_many_requests : ErrorMessages
  server_error oauth_error : ErrorMessages

-- The first component of each value of the enum.
pub status_code : ErrorMessages → ℕ
status_code unauthorized = 401
status_code invalid_credentials = 401
status_code invalid_password = 401
status_code account_deactivated = 401
status_code token_expired = 401
status_code invalid_refresh_token = 401
status_code refresh_token_expired = 401
status_code recommendation_not_ready = 202
status_code forbidden = 403
status_code csrf_failed = 403
status_code adult_verification_required = 403
status_code game_not_found = 404
status_code store_not_found = 404
status_code job_not_found = 404
status_code interaction_type_not_found = 404
status_code source_not_found = 404
status_code user_not_found = 404
status_code search_keyword_not_found = 404
status_code email_already_exists = 409
status_code nickname_already_exists = 409
status_code verification_already_used = 409
status_code sync_already_running = 409
status_code job_already_running = 409
status_code too_many_requests = 429
status_code server_error = 500
status_code oauth_error = 500
status_code _ = 400

-- `CustomAPIException`, and what Django, IGDB and Python raise.
pub data Error : Type 0 where
  api : ErrorMessages → Error
  integrity_error data_error value_error does_not_exist : Error
  igdb_rate_limit igdb_server_error igdb_not_found igdb_auth_error : Error
  other : String → Error

pub data Result (A : Type 0) : Type 0 where
  ok : A → Result A
  err : Error → Result A
