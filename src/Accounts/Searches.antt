-- ===== src/Accounts/Searches.antt =====
-- apps/users/services/search_recent_service.py: the last search texts of a user, newest first, in a
-- list of Redis per user.
pub mod Kept
use gechu_backend.Base.{
  ℕ, zero, suc, ◌≡◌, Bool, true, false, not, String, string_eq, List, [], ◌∷◌, filter, any, take,
  ◌==◌, if◌then◌else◌,
}
use gechu_backend.Core.Errors.{
  Error, api, account_deactivated, search_keyword_not_found, Result, ok, err,
}
use gechu_backend.Core.Exec.{Exec, pure, gets, modify, raise_if, ◌>>=◌, ◌>>◌}
use gechu_backend.Models.User.{User as UserRow}
use gechu_backend.Accounts.{is_deactivated}

-- The list of one key: `lrem(key, 0, keyword)` drops every occurrence.
pub lrem : String → List String → List String
lrem keyword words = filter (λ w. not (string_eq keyword w)) words

abbrev pub holds : String → List String → Bool
holds keyword words = any (string_eq keyword) words

-- The range from 0 to `max_size - 1` of a list of Redis, which for -1 is the whole list
abbrev pub up_to : ℕ → List String → List String
up_to zero words = words
up_to (suc n) words = take (suc n) words

-- `max_size` is settings.SEARCH_HISTORY_MAX_SIZE.
pub save_recent_search_keyword : ℕ → UserRow → String → Exec (List String) (Unit {0})
save_recent_search_keyword max_size u keyword = do
  raise_if (is_deactivated u) (api account_deactivated)
  modify (λ words. up_to max_size (keyword ∷ lrem keyword words))

pub get_recent_searches : ℕ → UserRow → Exec (List String) (List String)
get_recent_searches max_size u = do
  raise_if (is_deactivated u) (api account_deactivated)
  gets (λ words. up_to max_size words)

pub clear_recent_searches : UserRow → Exec (List String) (Unit {0})
clear_recent_searches u = do
  raise_if (is_deactivated u) (api account_deactivated)
  modify (λ words. [])

pub delete_recent_search_keyword : UserRow → String → Exec (List String) (Unit {0})
delete_recent_search_keyword u keyword = do
  raise_if (is_deactivated u) (api account_deactivated)
  found ← gets (holds keyword)
  modify (lrem keyword)
  raise_if (not found) (api search_keyword_not_found)
