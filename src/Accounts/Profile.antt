-- ===== src/Accounts/Profile.antt =====
-- apps/users/services/user_me_service.py without the profile image, and the purge of
-- apps/users/tasks.py: what users change of their own account, and how it goes away.
pub mod Update
pub mod Deletion
use gechu_backend.Base.{
  ℕ, ◌+◌, ◌*◌, ◌≡◌, Bool, true, false, not, ◌&&◌, Option, none, some, String, string_eq, List, [],
  ◌∷◌, any, filter, length, leb, ◌==◌, if◌then◌else◌,
}
use gechu_backend.Core.Errors.{
  Error, api, nickname_already_exists, social_user_only, validation_error, invalid_password, Result,
  ok, err,
}
use gechu_backend.Core.Exec.{Exec, pure, raise, gets, modify, raise_if, ◌>>=◌, ◌>>◌}
use gechu_backend.Models.User.{User as UserRow, Date}
use gechu_backend.Accounts.{
  second, Accounts, Django, is_some, get_active_user_or_deactivated, is_social_only, check_password,
  update_user, revoke_all_refresh_tokens, with_password,
}

-- The fields that a request may give.
pub record Changes : Type 0 where
  pub nickname : Option String
  pub birth_date : Option Date
  pub new_password : Option String

-- `filter(nickname=...).exclude(pk=...)`
abbrev pub takes_nickname : ℕ → String → UserRow → Bool
takes_nickname id nickname v = string_eq nickname v.nickname && not (id == v.id)

abbrev pub nickname_taken : ℕ → Option String → List UserRow → Bool
nickname_taken id none users = false
nickname_taken id (some nickname) users = any (takes_nickname id nickname) users

abbrev pub check_new_password : Django → UserRow → Option String → Exec Accounts (Unit {0})
check_new_password django u none = pure tt
check_new_password django u (some password) = do
  get_active_user_or_deactivated u
  social ← gets (is_social_only u)
  raise_if social (api social_user_only)
  raise_if (not (django.is_valid_password password)) (api validation_error)

abbrev pub set_nickname : Option String → UserRow → UserRow
set_nickname none u = u
set_nickname (some nickname) u = record u { nickname = nickname }

abbrev pub set_birth_date : Option Date → UserRow → UserRow
set_birth_date none u = u
set_birth_date (some birth_date) u = record u { birth_date = birth_date }

abbrev pub set_password : Django → Option String → UserRow → UserRow
set_password django none u = u
set_password django (some password) u = with_password django password u

pub changed : Django → Changes → UserRow → UserRow
changed django c u =
    set_password django c.new_password (set_birth_date c.birth_date (set_nickname c.nickname u))

-- With no field given the row is not saved, which leaves it as writing its own values would.
pub revoke_if : Option String → ℕ → Exec Accounts (Unit {0})
revoke_if none id = pure tt
revoke_if (some password) id = revoke_all_refresh_tokens id

pub update_user_me : Django → UserRow → Changes → Exec Accounts UserRow
update_user_me django u c = do
  get_active_user_or_deactivated u
  taken ← gets (λ s. nickname_taken u.id c.nickname s.users)
  raise_if taken (api nickname_already_exists)
  check_new_password django u c.new_password
  modify (λ s. record s { users = update_user u.id (changed django c) s.users })
  revoke_if c.new_password u.id
  pure (changed django c u)

abbrev pub deleted_at_time : ℕ → UserRow → UserRow
deleted_at_time now u = record u { deleted_at = some now; is_active = false }

unfoldable pub delete_user_me : ℕ → UserRow → Exec Accounts (Unit {0})
delete_user_me now u = do
  get_active_user_or_deactivated u
  modify (λ s. record s { users = update_user u.id (deleted_at_time now) s.users })
  revoke_all_refresh_tokens u.id

pub verify_user_password : Django → UserRow → String → Exec Accounts (Unit {0})
verify_user_password django u password = do
  get_active_user_or_deactivated u
  social ← gets (is_social_only u)
  raise_if social (api social_user_only)
  raise_if (not (check_password django password u)) (api invalid_password)

-- `deleted_at <= now - retention`
unfoldable pub is_purged : ℕ → ℕ → UserRow → Bool
is_purged retention_days now u = elim u.deleted_at [
  | none ↦ false
  | some deleted_at ↦ leb (deleted_at + retention_days * (24 * 60 * 60 * second)) now
]

-- What hangs on the rows that go, by cascade, is left out.
pub purge_soft_deleted_users : ℕ → ℕ → Exec Accounts ℕ
purge_soft_deleted_users retention_days now = do
  count ← gets (λ s. length (filter (is_purged retention_days now) s.users))
  modify (λ s. record s { users = filter (λ u. not (is_purged retention_days now u)) s.users })
  pure count
