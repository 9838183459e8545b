-- ===== src/Accounts/Social.antt =====
-- apps/users/services/social_auth_service.py: logins by Kakao and Discord. The address, nickname and
-- date of birth of an account are texts and dates that fit their columns.
pub mod Profiles
pub mod Callback
pub mod Again
use gechu_backend.Base.{
  ℕ, zero, suc, ◌+◌, ◌*◌, Bool, true, false, not, ◌&&◌, ◌||◌, Option, none, some, String, string_eq,
  List, [], ◌∷◌, ◌++◌, filter, first, any, elem, ltb, ◌==◌, if◌then◌else◌,
}
use gechu_backend.Core.Errors.{
  Error, api, invalid_state, account_deactivated, integrity_error, value_error, does_not_exist,
  Result, ok, err,
}
use gechu_backend.Models.User.{User as UserRow, Date}
use gechu_backend.Games.Text.{is_blank, clip, strip}
use gechu_backend.Accounts.{
  Accounts, Django, second, user_by_email, has_nickname, is_some, is_deactivated,
}
use gechu_backend.Accounts.Nicknames.{Draws, generate_unique_nickname}

pub data Provider : Type 0 where
  kakao discord : Provider

pub record SocialUser : Type 0 where
  pub user_id : ℕ
  pub provider : Provider
  pub provider_uid : String

-- `oauth_state:{state}`, a provider until a time
pub record OauthState : Type 0 where
  pub state : String
  pub provider : Provider
  pub until : ℕ

pub record Socials : Type 0 where
  pub accounts : Accounts
  pub links : List SocialUser
  pub states : List OauthState

abbrev pub provider_eq : Provider → Provider → Bool
provider_eq kakao kakao = true
provider_eq discord discord = true
provider_eq kakao discord = false
provider_eq discord kakao = false

abbrev pub oauth_state_ttl_seconds : ℕ
oauth_state_ttl_seconds = 600

unfoldable pub provider_of_state : ℕ → String → List OauthState → Option Provider
provider_of_state now state [] = none
provider_of_state now state (e ∷ entries) =
    if string_eq state e.state
    then (if ltb now e.until then some e.provider else none)
    else provider_of_state now state entries

unfoldable pub delete_state : String → List OauthState → List OauthState
delete_state state entries = filter (λ e. not (string_eq state e.state)) entries

-- The state of build_kakao_login_url and build_discord_login_url; `state` is the random one.
unfoldable pub build_login_state : Provider → ℕ → String → Socials → Socials
build_login_state provider now state s = record s {
  states =
      record { state = state; provider = provider; until = now + oauth_state_ttl_seconds * second }
      ∷ delete_state state s.states;
}

abbrev pub is_provider : Provider → Option Provider → Bool
is_provider p none = false
is_provider p (some q) = provider_eq p q

unfoldable pub validate_oauth_state : ℕ → String → Provider → Socials → Result (Unit {0}) × Socials
validate_oauth_state now state expected_provider s =
    if is_provider expected_provider (provider_of_state now state s.states)
    then (ok tt, record s { states = delete_state state s.states })
    else (err (api invalid_state), s)

-- `create_user(...)` with no password, which a unique address and a unique nickname can refuse
abbrev pub social_row : Django → ℕ → String → String → Date → UserRow
social_row django id email nickname birth_date = record {
  id = id;
  email = django.normalize_email email;
  nickname = nickname;
  birth_date = birth_date;
  profile_img_url = none;
  is_adult_verified = false;
  adult_verified_at = none;
  adult_verification_expires_at = none;
  is_active = true;
  is_staff = false;
  is_superuser = false;
  deleted_at = none;
  password = none;
}

abbrev pub add_user : UserRow → Socials → Socials
add_user u s = record s { accounts = record s.accounts { users = s.accounts.users ++ u ∷ [] } }

unfoldable pub create_user :
    Django → ℕ → String → String → Date → Socials → Result UserRow × Socials
create_user django id email nickname birth_date s =
    let row = social_row django id email nickname birth_date in
    if is_blank email
    then (err value_error, s)
    else if is_some (user_by_email row.email s.accounts.users)
        || has_nickname nickname s.accounts.users
    then (err integrity_error, s)
    else (ok row, add_user row s)

-- What a new account is made of: its id, the draws of nicknames with the fuel of their loop, and the
-- text of a random UUID
pub record Fresh : Type 0 where
  pub django : Django
  pub id : ℕ
  pub draws : Draws
  pub fuel : ℕ
  pub uuid_nickname : String

abbrev pub nickname_max_retries : ℕ
nickname_max_retries = 5

-- `except IntegrityError`: another try, with `none` for a search of nicknames that does not end
abbrev pub or_retry :
    Result UserRow × Socials → Option (Result UserRow × Socials) → Option (Result UserRow × Socials)
or_retry (err integrity_error, s) again = again
or_retry (ok u, s) again = some (ok u, s)
or_retry (err (api m), s) again = some (err (api m), s)
or_retry (err value_error, s) again = some (err value_error, s)
or_retry (err e, s) again = some (err e, s)

module _ (fresh : Fresh) (email : String) (birth_date : Date) where
  abbrev pub create : String → Socials → Result UserRow × Socials
  create nickname s = create_user fresh.django fresh.id email nickname birth_date s

  abbrev pub try_nickname :
      Option (String × ℕ)
      → Socials
      → (ℕ → Option (Result UserRow × Socials))
      → Option (Result UserRow × Socials)
  try_nickname none s rest = none
  try_nickname (some (nickname, n)) s rest = or_retry (create nickname s) (rest n)

  -- The loop of at most five tries, and the fallback, which no exception is caught of; `n` is the
  -- number of draws before.
  unfoldable pub tries : ℕ → ℕ → Socials → Option (Result UserRow × Socials)
  tries zero n s = some (create fresh.uuid_nickname s)
  tries (suc k) n s =
      try_nickname (generate_unique_nickname fresh.fuel fresh.draws n s.accounts.users) s
        (λ m. tries k m s)

  abbrev pub try_preferred : Option String → Socials → Option (Result UserRow × Socials)
  try_preferred none s = tries nickname_max_retries 0 s
  try_preferred (some preferred) s =
      let nickname = clip 30 (strip preferred) in
      let generated = tries nickname_max_retries 0 s in
      if is_blank nickname then generated else or_retry (create nickname s) generated

  unfoldable pub create_user_with_unique_nickname :
      Option String → Socials → Option (Result UserRow × Socials)
  create_user_with_unique_nickname preferred_nickname s = try_preferred preferred_nickname s

unfoldable pub find_link : Provider → String → List SocialUser → Option SocialUser
find_link provider uid [] = none
find_link provider uid (l ∷ links) =
    if provider_eq provider l.provider && string_eq uid l.provider_uid
    then some l
    else find_link provider uid links

abbrev pub has_link : ℕ → Provider → List SocialUser → Bool
has_link user provider links = any (λ l. user == l.user_id && provider_eq provider l.provider) links

abbrev pub add_link : ℕ → Provider → String → Socials → Socials
add_link user provider uid s = record s {
  links = s.links ++ record { user_id = user; provider = provider; provider_uid = uid } ∷ [];
  accounts = record s.accounts { social_user_ids = s.accounts.social_user_ids ++ user ∷ [] };
}

abbrev pub user_by_id : ℕ → List UserRow → Option UserRow
user_by_id id users = first (filter (λ u. id == u.id) users)

-- An account, and whether it is new
abbrev pub Login : Type 0
Login = Result (UserRow × Bool) × Socials

-- `social_user.user`, if it is active
abbrev pub linked : Option UserRow → Socials → Login
linked none s = (err does_not_exist, s)
linked (some u) s =
    if is_deactivated u then (err (api account_deactivated), s) else (ok (u, false), s)

-- An account of the same address, which gets a link to the provider if it has none
abbrev pub joined : UserRow → Provider → String → Socials → Login
joined u provider uid s =
    if is_deactivated u
    then (err (api account_deactivated), s)
    else if has_link u.id provider s.links
    then (ok (u, false), s)
    else (ok (u, false), add_link u.id provider uid s)

abbrev pub signed_up : Option (Result UserRow × Socials) → Provider → String → Option Login
signed_up none provider uid = none
signed_up (some (err e, s)) provider uid = some (err e, s)
signed_up (some (ok u, s)) provider uid = some (ok (u, true), add_link u.id provider uid s)

module _ (fresh : Fresh) (provider : Provider) (uid email : String) (birth_date : Date) where
  abbrev pub by_email : Option UserRow → Option String → Socials → Option Login
  by_email (some u) preferred s = some (joined u provider uid s)
  by_email none preferred s =
      signed_up (create_user_with_unique_nickname fresh email birth_date preferred s) provider uid

  abbrev pub by_link : Option SocialUser → Option String → Socials → Option Login
  by_link (some l) preferred s = some (linked (user_by_id l.user_id s.accounts.users) s)
  by_link none preferred s = by_email (user_by_email email s.accounts.users) preferred s

  unfoldable pub get_or_create_social_user : Option String → Socials → Option Login
  get_or_create_social_user preferred_nickname s =
      by_link (find_link provider uid s.links) preferred_nickname s
