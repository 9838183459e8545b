-- ===== src/Accounts.antt =====
-- apps/users/services/auth_service.py: email codes, sign-up, login, restoring an account, and the
-- reset of a password.
pub mod Cache
pub mod Ascii
pub mod Reset
pub mod Attempts
pub mod Signup
pub mod Restore
pub mod Profile
pub mod Codes
pub mod Tokens
pub mod Searches
pub mod Adult
pub mod Social
pub mod Nicknames
use gechu_backend.Base.{
  ℕ, zero, suc, ◌+◌, ◌*◌, ◌≡◌, Bool, true, false, not, ◌&&◌, ◌||◌, Option, none, some, String,
  string_eq, List, [], ◌∷◌, ◌++◌, map, filter, first, any, elem, leb, ltb, ◌==◌, if◌then◌else◌,
}
use gechu_backend.Core.Errors.{
  Error, api, email_already_exists, nickname_already_exists, code_expired, invalid_code,
  validation_error, value_error, too_many_requests, account_deactivated, invalid_credentials,
  account_not_deleted, account_restore_expired, social_user_only, integrity_error, other, Result,
  ok, err,
}
use gechu_backend.Core.Exec.{
  Exec, pure, raise, gets, modify, or_raise, raise_if, atomic, ◌>>=◌, ◌>>◌,
}
use gechu_backend.Models.User.{User as UserRow, Date}
use Ascii.{is_ascii}
use Cache.{
  Purpose, signup, password_reset, Kind, email_code, email_code_cooldown, email_code_attempts,
  CacheKey, key, Value, text, number, flag, Entry, cache_get, cache_set, cache_delete,
}

abbrev pub second : ℕ
second = 1000000

abbrev pub email_code_ttl_seconds : ℕ
email_code_ttl_seconds = 300

abbrev pub email_code_cooldown_seconds : ℕ
email_code_cooldown_seconds = 60

abbrev pub email_code_verify_max_attempts : ℕ
email_code_verify_max_attempts = 5

abbrev pub email_code_verify_block_seconds : ℕ
email_code_verify_block_seconds = 20 * 60

-- The accounts, who has a social account, the refresh tokens as (user, token), those that are
-- blacklisted, the cache, and the mails sent as (address, code).
pub record Accounts : Type 0 where
  pub users : List UserRow
  pub social_user_ids : List ℕ
  pub outstanding_tokens : List (ℕ × ℕ)
  pub blacklisted_tokens : List ℕ
  pub cache : List Entry
  pub mails : List (String × String)

-- Django's password hasher and validators, and the normalized form of an address.
pub record Django : Type 0 where
  pub make_password : String → String
  pub check_hash : String → String → Bool
  pub check_make : (password : String) → check_hash password (make_password password) ≡ true
  pub is_valid_password : String → Bool
  pub normalize_email : String → String

-- `filter(email=email).first()`
unfoldable pub user_by_email : String → List UserRow → Option UserRow
user_by_email email [] = none
user_by_email email (u ∷ users) =
    if string_eq email u.email then some u else user_by_email email users

abbrev pub has_nickname : String → List UserRow → Bool
has_nickname nickname users = any (λ u. string_eq nickname u.nickname) users

abbrev pub is_some : {A : Type 0} → Option A → Bool
is_some none = false
is_some (some a) = true

-- `user.deleted_at is not None or not user.is_active`
unfoldable pub is_deactivated : UserRow → Bool
is_deactivated u = is_some u.deleted_at || not u.is_active

abbrev pub get_active_user_or_deactivated : UserRow → Exec Accounts (Unit {0})
get_active_user_or_deactivated u = raise_if (is_deactivated u) (api account_deactivated)

-- `social_accounts.exists() and not has_usable_password()`
unfoldable pub is_social_only : UserRow → Accounts → Bool
is_social_only u s = elem u.id s.social_user_ids && not (is_some u.password)

abbrev pub check_password : Django → String → UserRow → Bool
check_password django password u = elim u.password [
  | none ↦ false
  | some hash ↦ django.check_hash password hash
]

abbrev pub purpose_is_signup : Purpose → Bool
purpose_is_signup signup = true
purpose_is_signup password_reset = false

-- Whether the address counts as that of a user who may have a code.
abbrev pub counts_as_user : Purpose → Option UserRow → Accounts → Bool
counts_as_user purpose none s = false
counts_as_user signup (some u) s = true
counts_as_user password_reset (some u) s = not (is_deactivated u) && not (is_social_only u s)

abbrev pub should_issue_email_code : Purpose → Bool → Bool
should_issue_email_code signup user_exists = not user_exists
should_issue_email_code password_reset user_exists = user_exists

abbrev pub seconds_from : ℕ → ℕ → ℕ
seconds_from now seconds = now + seconds * second

-- `send_mail(fail_silently=False)`, which may raise: `failure` is what the mail server answers.
abbrev pub send_mail : Option Error → String → String → Exec Accounts (Unit {0})
send_mail none email code = modify (λ s. record s { mails = s.mails ++ (email, code) ∷ [] })
send_mail (some failure) email code = raise failure

abbrev pub issue_code : Option Error → ℕ → Purpose → String → String → Exec Accounts (Unit {0})
issue_code failure now purpose email code = do
  modify (λ s. record s {
    cache = cache_delete (key email_code_attempts purpose email) (
        cache_set (key email_code purpose email) (text code)
          (seconds_from now email_code_ttl_seconds) s.cache);
  })
  send_mail failure email code

-- `code` is the random one.
pub send_email_code : Option Error → ℕ → String → String → Purpose → Exec Accounts ℕ
send_email_code failure now code email purpose = do
  row ← gets (λ s. user_by_email email s.users)
  raise_if (purpose_is_signup purpose && is_some row) (api email_already_exists)
  recent ← gets (λ s. cache_get now (key email_code_cooldown purpose email) s.cache)
  raise_if (is_some recent) (api too_many_requests)
  modify (λ s. record s {
    cache =
        cache_set (key email_code_cooldown purpose email) flag
          (seconds_from now email_code_cooldown_seconds) s.cache;
  })
  user_exists ← gets (counts_as_user purpose row)
  if should_issue_email_code purpose user_exists
      then issue_code failure now purpose email code
      else pure tt
  pure email_code_ttl_seconds

abbrev pub saved_code : ℕ → Purpose → String → Accounts → Option Value
saved_code now purpose email s = cache_get now (key email_code purpose email) s.cache

-- `str(saved_code) != code`
abbrev pub is_code : Value → String → Bool
is_code (text saved) code = string_eq saved code
is_code (number n) code = false
is_code flag code = false

abbrev pub delete_codes : Purpose → String → Exec Accounts (Unit {0})
delete_codes purpose email = modify (λ s. record s {
  cache =
      cache_delete (key email_code_attempts purpose email)
        (cache_delete (key email_code purpose email) s.cache);
})

abbrev pub new_user : Django → ℕ → String → String → String → Date → UserRow
new_user django id email password nickname birth_date = record {
  id = id;
  email = django.normalize_email email;
  nickname = nickname;
  birth_date = birth_date;
  profile_img_url = none;
  is_adult_verified = false;
  adult_verified_at = none;
  adult_verification_expires_at = none;
  is_active = true;
  is_staff = false;
  is_superuser = false;
  deleted_at = none;
  password = some (django.make_password password);
}

-- The serializer has refused an empty address before. The normal form of the address is stored, and
-- meets the unique constraint if a row has it.
pub signup_user : Django → ℕ → ℕ → String → String → String → String → Date → Exec Accounts UserRow
signup_user django now id email code password nickname birth_date = do
  row ← gets (λ s. user_by_email email s.users)
  raise_if (is_some row) (api email_already_exists)
  taken ← gets (λ s. has_nickname nickname s.users)
  raise_if taken (api nickname_already_exists)
  found ← gets (saved_code now signup email)
  saved ← or_raise found (api code_expired)
  raise_if (not (is_code saved code)) (api invalid_code)
  raise_if (not (django.is_valid_password password)) (api validation_error)
  stored ← gets (λ s. user_by_email (django.normalize_email email) s.users)
  raise_if (is_some stored) integrity_error
  modify (λ s. record s {
    users = s.users ++ new_user django id email password nickname birth_date ∷ [];
  })
  delete_codes signup email
  pure (new_user django id email password nickname birth_date)

pub authenticate_user : Django → String → String → Exec Accounts UserRow
authenticate_user django email password = do
  row ← gets (λ s. user_by_email email s.users)
  u ← or_raise row (api invalid_credentials)
  get_active_user_or_deactivated u
  raise_if (not (check_password django password u)) (api invalid_credentials)
  pure u

-- `user.save(update_fields=...)`, by the primary key
unfoldable pub update_user : ℕ → (UserRow → UserRow) → List UserRow → List UserRow
update_user id f [] = []
update_user id f (u ∷ users) = (if id == u.id then f u else u) ∷ update_user id f users

unfoldable pub tokens_of : ℕ → List (ℕ × ℕ) → List ℕ
tokens_of user [] = []
tokens_of user ((owner, token) ∷ rows) =
    if user == owner then token ∷ tokens_of user rows else tokens_of user rows

-- `for token in ...: BlacklistedToken.objects.get_or_create(token=token)`
unfoldable pub blacklist : List ℕ → List ℕ → List ℕ
blacklist [] listed = listed
blacklist (t ∷ tokens) listed =
    blacklist tokens (if elem t listed then listed else listed ++ t ∷ [])

abbrev pub revoke_all_refresh_tokens : ℕ → Exec Accounts (Unit {0})
revoke_all_refresh_tokens user = modify (λ s. record s {
  blacklisted_tokens = blacklist (tokens_of user s.outstanding_tokens) s.blacklisted_tokens;
})

abbrev pub restored : UserRow → UserRow
restored u = record u { deleted_at = none; is_active = true }

abbrev pub after_deadline : ℕ → ℕ → ℕ → Bool
after_deadline now retention_days deleted_at =
    ltb (deleted_at + retention_days * (24 * 60 * 60 * second)) now

-- `retention_days` is settings.ACCOUNT_DELETION_RETENTION_DAYS.
pub restore_user_account : Django → ℕ → ℕ → String → String → Exec Accounts (Unit {0})
restore_user_account django retention_days now email password = atomic (do
  row ← gets (λ s. user_by_email email s.users)
  u ← or_raise row (api invalid_credentials)
  raise_if (not (check_password django password u)) (api invalid_credentials)
  deleted_at ← or_raise u.deleted_at (api account_not_deleted)
  raise_if (after_deadline now retention_days deleted_at) (api account_restore_expired)
  modify (λ s. record s { users = update_user u.id restored s.users })
  revoke_all_refresh_tokens u.id)

-- `int(cache.get(attempts_key, 0))`
abbrev pub attempts_in : Option Value → ℕ
attempts_in none = 0
attempts_in (some (number n)) = n
attempts_in (some (text s)) = 0
attempts_in (some flag) = 0

abbrev pub attempts_of : ℕ → String → Accounts → ℕ
attempts_of now email s =
    attempts_in (cache_get now (key email_code_attempts password_reset email) s.cache)

-- One more failed attempt; from the fifth on, the code is gone as well.
abbrev pub count_attempt : ℕ → String → ℕ → List Entry → List Entry
count_attempt now email attempts cache =
    let counted =
      cache_set (key email_code_attempts password_reset email) (number attempts)
        (seconds_from now email_code_verify_block_seconds) cache in
    if leb email_code_verify_max_attempts attempts
    then cache_delete (key email_code password_reset email) counted
    else counted

pub fail_attempt : ℕ → String → ℕ → Exec Accounts (Unit {0})
fail_attempt now email attempts s =
    (err (api invalid_code), record s { cache = count_attempt now email attempts s.cache })

-- `secrets.compare_digest(str(saved_code), code)` raises a TypeError on a text beyond ASCII.
abbrev pub digests : Value → String → Bool
digests (text saved) code = is_ascii saved && is_ascii code
digests (number n) code = is_ascii code
digests flag code = is_ascii code

unfoldable pub verify_code : ℕ → String → String → ℕ → Option Value → Exec Accounts (Unit {0})
verify_code now email code attempts none = fail_attempt now email (attempts + 1)
verify_code now email code attempts (some saved) =
    if not (digests saved code)
    then raise (other "TypeError")
    else if is_code saved code
    then pure tt
    else fail_attempt now email (attempts + 1)

abbrev pub with_password : Django → String → UserRow → UserRow
with_password django password u = record u { password = some (django.make_password password) }

unfoldable pub reset_user_password :
    Django → ℕ → String → String → String → Exec Accounts (Unit {0})
reset_user_password django now email code new_password = do
  attempts ← gets (attempts_of now email)
  raise_if (leb email_code_verify_max_attempts attempts) (api too_many_requests)
  found ← gets (saved_code now password_reset email)
  verify_code now email code attempts found
  row ← gets (λ s. user_by_email email s.users)
  u ← or_raise row (api invalid_code)
  get_active_user_or_deactivated u
  social ← gets (is_social_only u)
  raise_if social (api social_user_only)
  raise_if (not (django.is_valid_password new_password)) (api validation_error)
  modify (λ s. record s { users = update_user u.id (with_password django new_password) s.users })
  revoke_all_refresh_tokens u.id
  delete_codes password_reset email
